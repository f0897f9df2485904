-- ===== src/FileCalls/Write/Outcome.antt =====
-- A write as a call (write.c, pmemfile_pwritev_internal).
use pmemfile.Prelude.{
  ℕ, ◌+◌, ◌^◌, ◌≤◌, ◌<◌, ◌≡◌, ◌∙◌, refl, sym, ap, Bool, true, false, Option, none, some, List, ◌==◌,
  if◌then◌else◌, arith, Bool-cases, inl, inr,
}
use mathlib.Core.Path.{subst}
use pmemfile.Prelude.Int.{ℤ}
use pmemfile.Run.{Run, ok, fault, null_pointer, ◌>>=◌}
use pmemfile.FileData.{stopped, BlockDesc}
use pmemfile.FileData.Allocate.Fill.{Fills}
use pmemfile.FileData.Allocated.{vinode_is_interval_allocated-Decides}
use pmemfile.FileCalls.{Vinode, Iov, Environment, Answer, done, fail, eperm, blocks_at}
use pmemfile.FileCalls.Contents.{
  IsFile, IsFile-tree, Finds, lengths, Ensured, built, not_built, null_built, ensure_tree-Ensured,
  NullFollowed, in_rebuild, in_allocation, NullFollowed-tree,
}
use pmemfile.FileCalls.Hints.{Known, Known-keep, follow-Known, blocks_at-closest_from}
use pmemfile.FileCalls.Write.{
  no_space, sum_lens, write_data, allocate_and_write, write_with_tree, pmemfile_pwritev_internal,
}
use pmemfile.FileCalls.Write.Loop.{HasBases}
use pmemfile.FileCalls.Write.Space.{Spaced, room, no_room, null_space, allocate_space-Spaced}
use pmemfile.FileCalls.Write.Effect.{
  Wrote, DataWrites, data_writes, write_data-DataWrites, sum_lens_lem,
}

-- Why a call fails: the tree of the blocks is missing and cannot be built, or an allocation failed.
pub data Refusal (env : Environment) (v : Vinode) : ℤ → Type 0 where
  no_tree : v.has_tree ≡ false → env.rebuild ≡ stopped → Refusal env v eperm
  no_block : (j : ℕ) → env.allocated j ≡ stopped → Refusal env v (no_space env.abort_errno)

-- How a write ends.
pub data WriteOutcome (env : Environment) (offset : ℕ) (iov : List Iov) (v : Vinode)
    : Run (Answer × Vinode × Option ℕ) → Type 0 where
  wrote :
      (v' : Vinode) (last : Option ℕ)
      → 0 < lengths iov
      → Wrote offset iov v v'
      → Known last v'.blocks
      → WriteOutcome env offset iov v (ok (done (lengths iov), v', last))
  nothing :
      (last : Option ℕ)
      → lengths iov ≡ 0
      → WriteOutcome env offset iov v (ok (done 0, record v { has_tree = true }, last))
  refused :
      (e : ℤ) (last : Option ℕ)
      → Refusal env v e
      → WriteOutcome env offset iov v (ok (fail e, record v { has_tree = false }, last))
  write_null : NullFollowed env v → WriteOutcome env offset iov v (fault null_pointer)

Wrote-Fills :
    (offset space : ℕ) (iov : List Iov) (v v' : Vinode) (bs : List BlockDesc)
    → Fills 0 offset (lengths iov) v.blocks bs space
    → Wrote offset iov (record v { blocks = bs; allocated_space = v.allocated_space + space }) v'
    → Wrote offset iov v v'
Wrote-Fills offset space iov v v' bs f w = record {
  file = w.file;
  bytes = λ x. w.bytes x ∙ ground (arith, f.same x);
  size = w.size;
  kind = w.kind;
  counter = w.counter;
  starts = λ k h. w.starts k (f.starts k h);
}

IsFile-Fills :
    (offset len space : ℕ) (v : Vinode) (bs : List BlockDesc)
    → IsFile v
    → Fills 0 offset len v.blocks bs space
    → IsFile (record v { blocks = bs; allocated_space = v.allocated_space + space })
IsFile-Fills offset len space v bs h f = record {
  paged = f.paged;
  counted = omega (arith, h.counted, f.counted);
  beyond = λ x l. f.same x ∙ h.beyond x l;
}

module _ (env : Environment) (offset : ℕ) (iov : List Iov) (v : Vinode) (last : Option ℕ)
    (f : Finds env) (h : IsFile v) (k : Known last v.blocks) (b : HasBases iov)
    (pos : 0 < lengths iov) (u : lengths iov ≤ 2 ^ 31) (w : offset + lengths iov ≤ 2 ^ 62) where
  from_data :
      (m : Run (Answer × Vinode × Option ℕ))
      → DataWrites offset iov v m
      → WriteOutcome env offset iov v m
  from_data (ok _) (data_writes v' last' d k') = wrote v' last' pos d k'
  from_data (fault _) d = elim d [ ]

  from_space :
      (m : Run (Option ℤ × Vinode))
      → Spaced env offset (lengths iov) v m
      → WriteOutcome env offset iov v (
          m >>= λ r. elim r.0 [
            | some e ↦ ok (fail e, r.1, last)
            | none ↦ write_data env offset last iov r.1
          ])
  from_space (ok _) (room bs space r) = with_room _ (
      write_data-DataWrites env offset last iov
        (record v { blocks = bs; allocated_space = v.allocated_space + space }) f
        (IsFile-Fills offset (lengths iov) space v bs h r) (Known-keep last v.blocks bs k r.starts)
        b pos w r.filled)
    where
      with_room :
          (m : Run (Answer × Vinode × Option ℕ))
          → DataWrites offset iov
              (record v { blocks = bs; allocated_space = v.allocated_space + space })
              m
          → WriteOutcome env offset iov v m
      with_room (ok _) (data_writes v' last' d k') =
          wrote v' last' pos (Wrote-Fills offset space iov v v' bs r d) k'
      with_room (fault _) d = elim d [ ]
  from_space (ok _) (no_room j a) = refused _ last (no_block j a)
  from_space (fault _) (null_space j a) = write_null (in_allocation j a)

  allocate_and_write-WriteOutcome :
      WriteOutcome env offset iov v (allocate_and_write env offset (lengths iov) last iov v)
  unfolding allocate_and_write
  allocate_and_write-WriteOutcome =
      let (hint, e, s) = follow-Known last v.blocks k in
      let (answer, d, g) =
        vinode_is_interval_allocated-Decides _ offset (lengths iov) v.blocks _ h.paged
          (λ o.
            ap (λ i. blocks_at i v.blocks) (f.closest v.blocks o)
            ∙ blocks_at-closest_from o v.blocks)
          s pos (omega arith) in
      rw (e, g)
        (elim (Bool-cases answer) [
          | inl t ↦
              rw t
                (from_data _ (write_data-DataWrites env offset last iov v f h k b pos w (d.all t)))
          | inr t ↦ rw t (
              from_space _
                (allocate_space-Spaced env offset (lengths iov) v f h.paged pos u w (d.one t)))
        ])

with_tree :
    (env : Environment) (offset : ℕ) (iov : List Iov) (v : Vinode)
    (m : Run (Answer × Vinode × Option ℕ))
    → WriteOutcome env offset iov (record v { has_tree = true }) m
    → WriteOutcome env offset iov v m
with_tree env offset iov v (ok _) (wrote v' last n d k) =
    wrote v' last n
      (record {
        file = d.file;
        bytes = d.bytes;
        size = d.size;
        kind = d.kind;
        counter = d.counter;
        starts = d.starts;
      })
      k
with_tree env offset iov v (ok _) (nothing last z) = nothing last z
with_tree env offset iov v (ok _) (refused e last (no_tree t r)) = absurd (cc)
with_tree env offset iov v (ok _) (refused e last (no_block j a)) = refused e last (no_block j a)
with_tree env offset iov v (fault _) (write_null n) = write_null (NullFollowed-tree env v n)

write_with_tree-WriteOutcome :
    (env : Environment) (append : Bool) (offset : ℕ) (last : Option ℕ) (iov : List Iov) (v : Vinode)
    → Finds env
    → IsFile v
    → Known last v.blocks
    → HasBases iov
    → lengths iov ≤ 2 ^ 31
    → (if append then v.size else offset) + lengths iov ≤ 2 ^ 62
    → v.has_tree ≡ true
    → WriteOutcome env
        (if append then v.size else offset)
        iov
        v
        (write_with_tree env append offset last iov v)
unfolding write_with_tree
write_with_tree-WriteOutcome env append offset last iov v f h k b u w t =
    let start = (if append then v.size else offset) in
    let sum : sum_lens start 0 iov ≡ lengths iov =
      sum_lens_lem start 0 iov (omega arith) ∙ omega arith in
    subst
      (λ s.
        WriteOutcome env start iov v
          (if s == 0 then ok (done 0, v, last) else allocate_and_write env start s last iov v))
      (sym sum)
      (elim (Bool-cases (lengths iov == 0)) [
        | inl z ↦ rw z (
            subst (λ d. WriteOutcome env start iov v (ok (done 0, record v { has_tree = d }, last)))
              (sym t) (nothing last (ground arith)))
        | inr z ↦
            rw z (allocate_and_write-WriteOutcome env start iov v last f h k b (ground arith) u w)
      ])

-- On a well-formed file, with a pointer to one of its blocks or NULL, with a look-up that finds what it
-- promises and buffers that are not NULL, of at most 2 GB in all, that end within 2 ^ 62 bytes,
-- pmemfile_pwritev_internal ends. Either the bytes of the buffers are in the file from the offset on, or from the size on with
-- O_APPEND, all other bytes are as before, the size is the end of the write if that is larger, the file is
-- well formed, and the call returns the sum of the lengths; or it returns 0 where that is 0; or it fails
-- with the number 1 where the tree of the blocks cannot be built, or with the error of an allocation that
-- failed, ENOSPC for ENOMEM, and the file is as before but for the tree; or NULL is followed, where
-- the allocation of a root of the tree failed as the tree was built or a block put into it.
pub pwritev-WriteOutcome :
    (env : Environment) (append : Bool) (offset : ℕ) (last : Option ℕ) (iov : List Iov) (v : Vinode)
    → Finds env
    → IsFile v
    → Known last v.blocks
    → HasBases iov
    → lengths iov ≤ 2 ^ 31
    → (if append then v.size else offset) + lengths iov ≤ 2 ^ 62
    → WriteOutcome env
        (if append then v.size else offset)
        iov
        v
        (pmemfile_pwritev_internal env append offset last iov v)
unfolding pmemfile_pwritev_internal
pwritev-WriteOutcome env append offset last iov v f h k b u w =
    from_tree _ (ensure_tree-Ensured env v)
  where
    from_tree :
        (m : Run (Option ℤ × Vinode))
        → Ensured env v m
        → WriteOutcome env (if append then v.size else offset) iov v (
            m >>= λ t. elim t.0 [
              | some e ↦ ok (fail e, t.1, last)
              | none ↦ write_with_tree env append offset last iov t.1
            ])
    from_tree (ok _) built = with_tree env _ iov v _ (
        write_with_tree-WriteOutcome env append offset last iov (record v { has_tree = true }) f
          (IsFile-tree true v h) k b u w refl)
    from_tree (ok _) (not_built t r) = refused _ last (no_tree t r)
    from_tree (fault _) (null_built t r) = write_null (in_rebuild t r)
