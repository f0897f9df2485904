-- ===== src/FileCalls/Resize/Truncate.antt =====
-- What truncate does to a file (truncate.c).
use pmemfile.Prelude.{
  ℕ, ◌+◌, ◌-◌, ◌%◌, ◌^◌, ◌≤◌, ◌<◌, ◌≡◌, ◌∙◌, refl, true, false, Option, none, some, List, ltb, ◌==◌,
  if◌then◌else◌, arith, Bool-cases, inl, inr,
}
use pmemfile.Prelude.Int.{ℤ}
use pmemfile.Run.{Run, ok, fault, null_pointer, ◌>>=◌}
use pmemfile.FileData.{stopped, null_followed, BlockDesc}
use pmemfile.FileData.Content.{IsPaged, content, total}
use pmemfile.FileData.Allocate.{Filled}
use pmemfile.FileData.Allocate.Interval.{
  Allocation, whole, out_of_space, null_in_tree, cut_off, vinode_allocate_interval-Allocation,
}
use pmemfile.FileData.Removal.Interval.{
  Removing, removing, not_relocated, null_relocated, Removes, vinode_remove_interval-Removing,
}
use pmemfile.FileCalls.{Vinode, Environment, eperm}
use pmemfile.FileCalls.Contents.{
  IsFile, IsFile-tree, bytes_of, Finds, Ensured, built, not_built, null_built, ensure_tree-Ensured,
  in_rebuild, in_allocation, Crashes, in_tree, in_removal, Crashes-tree,
}
use pmemfile.FileCalls.Resize.{
  too_big, count_removal, grow_space, truncate_with_tree, vinode_truncate,
}

-- The bytes of a file cut at a size.
abbrev pub cut_at : ℕ → (ℕ → ℕ) → ℕ → ℕ
cut_at size f x = if ltb x size then f x else 0

-- The file after its size has been set.
pub record Truncated (size : ℕ) (v v' : Vinode) : Type 0 where
  pub file : IsFile v'
  pub bytes : (x : ℕ) → bytes_of v' x ≡ cut_at size (bytes_of v) x
  pub new_size : v'.size ≡ size
  pub kind : v'.kind ≡ v.kind
  pub counter :
      v'.block_pointer_invalidation_counter ≡ (v.block_pointer_invalidation_counter + 1) % 2 ^ 64

pub data TruncateOutcome (env : Environment) (size : ℕ) (v : Vinode)
    : Run (Option ℤ × Vinode) → Type 0 where
  truncated : (v' : Vinode) → Truncated size v v' → TruncateOutcome env size v (ok (none, v'))
  no_tree :
      v.has_tree ≡ false
      → env.rebuild ≡ stopped
      → TruncateOutcome env size v (ok (some eperm, record v { has_tree = false }))
  no_block :
      (j : ℕ)
      → env.allocated j ≡ stopped
      → v.size < size
      → TruncateOutcome env size v
          (ok (some (too_big env.abort_errno), record (count_removal v) { has_tree = false }))
  not_put_back :
      (j : ℕ)
      → env.relocated j ≡ stopped
      → TruncateOutcome env size v
          (ok (some (too_big env.abort_errno), record (count_removal v) { has_tree = false }))
  truncate_null : Crashes env v → TruncateOutcome env size v (fault null_pointer)

data Grown (env : Environment) (v : Vinode) (size : ℕ) (bs : List BlockDesc) : Filled → Type 0 where
  grown :
      (bs' : List BlockDesc) (space : ℕ)
      → IsPaged 0 bs'
      → ((x : ℕ) → content bs' x ≡ content bs x)
      → total bs' ≡ total bs + space
      → Grown env v size bs (ok (some (bs', space)))
  not_grown : (j : ℕ) → env.allocated j ≡ stopped → v.size < size → Grown env v size bs (ok none)
  null_grown : (j : ℕ) → env.allocated j ≡ null_followed → Grown env v size bs (fault null_pointer)

grow_space-Grown :
    (env : Environment) (v : Vinode) (size : ℕ) (bs : List BlockDesc)
    → Finds env
    → IsPaged 0 bs
    → size ≤ 2 ^ 62
    → size ≤ v.size + 2 ^ 31
    → Grown env v size bs (grow_space env v size bs)
unfolding grow_space
grow_space-Grown env v size bs f p u w = elim (Bool-cases (ltb v.size size)) [
  | inr d ↦ rw d (grown bs 0 p (λ x. refl) (omega arith))
  | inl d ↦ rw d (
      from_allocation _ (ground arith) (
        vinode_allocate_interval-Allocation env.allocated env.fresh (env.find bs)
          env.overallocate_on_append v.size v.size (size - v.size) bs p (f.closest bs)
          (ground arith) (ground arith)))
]
  where
    from_allocation :
        (r : Filled)
        → v.size < size
        → Allocation env.allocated v.size (size - v.size) bs r
        → Grown env v size bs r
    from_allocation (ok _) l (whole bs' space a) = grown bs' space a.paged a.same a.counted
    from_allocation (ok _) l (out_of_space j a) = not_grown j a l
    from_allocation (fault _) l (null_in_tree j a) = null_grown j a
    from_allocation (fault _) l (cut_off d e pos m k) = absurd (omega arith)

module _ (env : Environment) (size : ℕ) (v : Vinode) (f : Finds env) (h : IsFile v)
    (u : size ≤ 2 ^ 62) (w : size ≤ v.size + 2 ^ 31) (s : v.size ≤ 2 ^ 62) where
  from_grown :
      (bs : List BlockDesc) (freed : ℕ) (g : Filled)
      → Removes size (2 ^ 64 - 1 - size) v.blocks (bs, freed)
      → Grown env v size bs g
      → TruncateOutcome env size v (
          g >>= λ g. elim g [
            | none ↦
                ok (some (too_big env.abort_errno), record (count_removal v) { has_tree = false })
            | some filled ↦ ok (
              none,
              record (count_removal v) {
                blocks = filled.0;
                allocated_space = v.allocated_space - freed + filled.1;
                size = size;
                mtime = if v.size == size then v.mtime else env.clock 0;
                ctime = if v.size == size then v.ctime else env.clock 0;
              },
            )
          ])
  from_grown bs freed (ok _) r (grown bs' space p e t) =
      let cut : (x : ℕ) → content bs' x ≡ cut_at size (bytes_of v) x =
        λ x. e x ∙ r.bytes x ∙ ground (arith, h.beyond x) in
      truncated _ (record {
        file = record {
          paged = p;
          counted = omega (arith, h.counted, r.counted, t);
          beyond = λ x l. cut x ∙ ground arith;
        };
        bytes = cut;
        new_size = refl;
        kind = refl;
        counter = refl;
      })
  from_grown bs freed (ok _) r (not_grown j a l) = no_block j a l
  from_grown bs freed (fault _) r (null_grown j a) = truncate_null (in_tree (in_allocation j a))

  truncate_with_tree-Outcome : TruncateOutcome env size v (truncate_with_tree env size v)
  unfolding truncate_with_tree
  truncate_with_tree-Outcome = from_removal _ (
      vinode_remove_interval-Removing env.relocated (env.find v.blocks) size (2 ^ 64 - 1 - size)
        v.blocks h.paged (f.closest v.blocks) (omega arith) (omega arith))
    where
      from_removal :
          (m : Filled)
          → Removing env.relocated size (2 ^ 64 - 1 - size) v.blocks m
          → TruncateOutcome env size v (
              m >>= λ r. elim r [
                | none ↦
                    ok (
                      some (too_big env.abort_errno),
                      record (count_removal v) { has_tree = false },
                    )
                | some kept ↦ grow_space env v size kept.0 >>= λ g. elim g [
                  | none ↦ ok (
                    some (too_big env.abort_errno),
                    record (count_removal v) { has_tree = false },
                  )
                  | some filled ↦ ok (
                    none,
                    record (count_removal v) {
                      blocks = filled.0;
                      allocated_space = v.allocated_space - kept.1 + filled.1;
                      size = size;
                      mtime = if v.size == size then v.mtime else env.clock 0;
                      ctime = if v.size == size then v.ctime else env.clock 0;
                    },
                  )
                ]
              ])
      from_removal (ok _) (removing r d) =
          from_grown r.0 r.1 _ d (grow_space-Grown env v size r.0 f d.paged u w)
      from_removal (ok _) (not_relocated j a) = not_put_back j a
      from_removal (fault _) (null_relocated j a) = truncate_null (in_removal j a)

-- On a well-formed file of at most 2 ^ 62 bytes that grows by 2 GB at most, with a look-up that finds what it
-- promises, vinode_truncate to a size of at most 2 ^ 62 ends. Either the file has that size, its bytes
-- below it are as before and 0 where there were none, those at it and behind it are 0, and the file
-- is well formed; or the tree of the blocks cannot be built, the number 1 is returned and nothing is changed;
-- or the file was to grow and an allocation failed, or a block that a removal has moved could not be put
-- into the tree again, and all but the tree and the counter of invalid pointers is as before; or NULL is
-- followed, where the allocation of a root of the tree failed.
pub truncate-TruncateOutcome :
    (env : Environment) (size : ℕ) (v : Vinode)
    → Finds env
    → IsFile v
    → size ≤ 2 ^ 62
    → size ≤ v.size + 2 ^ 31
    → v.size ≤ 2 ^ 62
    → TruncateOutcome env size v (vinode_truncate env size v)
unfolding vinode_truncate
truncate-TruncateOutcome env size v f h u w s = from_tree _ (ensure_tree-Ensured env v)
  where
    from_tree :
        (m : Run (Option ℤ × Vinode))
        → Ensured env v m
        → TruncateOutcome env size v (
            m >>= λ t. elim t.0 [
              | some e ↦ ok (some e, t.1)
              | none ↦ truncate_with_tree env size t.1
            ])
    from_tree (ok _) (not_built t r) = no_tree t r
    from_tree (fault _) (null_built t r) = truncate_null (in_tree (in_rebuild t r))
    from_tree (ok _) built = with_tree _ (
        truncate_with_tree-Outcome env size (record v { has_tree = true }) f (IsFile-tree true v h)
          u w s)
      where
        with_tree :
            (m : Run (Option ℤ × Vinode))
            → TruncateOutcome env size (record v { has_tree = true }) m
            → TruncateOutcome env size v m
        with_tree _ (truncated v' t) = truncated v' (record {
          file = t.file;
          bytes = t.bytes;
          new_size = t.new_size;
          kind = t.kind;
          counter = t.counter;
        })
        with_tree _ (no_tree t r) = absurd (cc)
        with_tree _ (not_put_back j a) = not_put_back j a
        with_tree _ (truncate_null n) = truncate_null (Crashes-tree env v n)
        with_tree _ (no_block j a l) = no_block j a l
