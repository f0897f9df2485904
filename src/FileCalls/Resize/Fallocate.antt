-- ===== src/FileCalls/Resize/Fallocate.antt =====
-- What fallocate does to a file (fallocate.c).
use pmemfile.Prelude.{
  ℕ, ◌+◌, ◌-◌, ◌%◌, ◌^◌, ◌≤◌, ◌<◌, ◌≡◌, ◌∙◌, refl, sym, Bool, true, false, not, ◌&&◌, ◌||◌, Option,
  none, some, ltb, ◌==◌, if◌then◌else◌, arith, Bool-cases, inl, inr, test_bit,
}
use mathlib.Core.Path.{subst}
use pmemfile.Prelude.Int.{ℤ, pos}
use pmemfile.Run.{Run, ok, fault, null_pointer, ◌>>=◌}
use pmemfile.Lseek.{int64_max}
use pmemfile.FileData.{stopped, expand_to_full_pages}
use pmemfile.FileData.Content.{covered, starts_at}
use pmemfile.FileData.Allocate.{Filled}
use pmemfile.FileData.Allocate.Sizes.{expand-contains}
use pmemfile.FileData.Allocate.Interval.{
  Allocation, whole, out_of_space, null_in_tree, cut_off, vinode_allocate_interval-Allocation,
}
use pmemfile.FileData.Removal.Zeros.{punched}
use pmemfile.FileData.Removal.Interval.{
  Removing, removing, not_relocated, null_relocated, vinode_remove_interval-Removing,
}
use pmemfile.FileCalls.{Vinode, Environment, eperm, ebadf, is_regular}
use pmemfile.FileCalls.Contents.{
  IsFile, IsFile-tree, bytes_of, Finds, Ensured, built, not_built, null_built, ensure_tree-Ensured,
  in_rebuild, in_allocation, Crashes, in_tree, in_removal, Crashes-tree,
}
use pmemfile.FileCalls.Write.{no_space}
use pmemfile.FileCalls.Resize.{
  count_removal, keep_size, punch_hole, fallocate_blocks, fallocate_expanded, vinode_fallocate,
  fallocate_check_arguments,
}

-- The file after a hole has been punched.
pub record Punched (offset length : ℕ) (v v' : Vinode) : Type 0 where
  pub file : IsFile v'
  pub bytes : (x : ℕ) → bytes_of v' x ≡ punched offset length (bytes_of v) x
  pub same_size : v'.size ≡ v.size
  pub kind : v'.kind ≡ v.kind
  pub counter :
      v'.block_pointer_invalidation_counter ≡ (v.block_pointer_invalidation_counter + 1) % 2 ^ 64

-- The file after blocks have been allocated for an interval.
pub record Reserved (keep : Bool) (offset length : ℕ) (v v' : Vinode) : Type 0 where
  pub file : IsFile v'
  pub bytes : (x : ℕ) → bytes_of v' x ≡ bytes_of v x
  pub has_space : (x : ℕ) → offset ≤ x → x < offset + length → covered v'.blocks x ≡ true
  pub new_size :
      v'.size ≡ (if not keep && ltb v.size (offset + length) then offset + length else v.size)
  pub kind : v'.kind ≡ v.kind
  pub counter : v'.block_pointer_invalidation_counter ≡ v.block_pointer_invalidation_counter
  pub starts : (k : ℕ) → starts_at k v.blocks ≡ true → starts_at k v'.blocks ≡ true

pub data FallocateOutcome (env : Environment) (mode offset length : ℕ) (v : Vinode)
    : Run (Option ℤ × Vinode) → Type 0 where
  punched_hole :
      (v' : Vinode)
      → punch_hole mode ≡ true
      → Punched offset length v v'
      → FallocateOutcome env mode offset length v (ok (none, v'))
  reserved :
      (v' : Vinode)
      → punch_hole mode ≡ false
      → Reserved (keep_size mode) offset length v v'
      → FallocateOutcome env mode offset length v (ok (none, v'))
  tree_failed :
      v.has_tree ≡ false
      → env.rebuild ≡ stopped
      → FallocateOutcome env mode offset length v (ok (some eperm, record v { has_tree = false }))
  block_failed :
      (j : ℕ)
      → punch_hole mode ≡ false
      → env.allocated j ≡ stopped
      → FallocateOutcome env mode offset length v
          (ok (some (no_space env.abort_errno), record v { has_tree = false }))
  punch_failed :
      (j : ℕ)
      → punch_hole mode ≡ true
      → env.relocated j ≡ stopped
      → FallocateOutcome env mode offset length v
          (ok (some (no_space env.abort_errno), record (count_removal v) { has_tree = false }))
  fallocate_null : Crashes env v → FallocateOutcome env mode offset length v (fault null_pointer)

-- What the checks of the arguments leave.
record IsAllowed (mode offset length : ℕ) : Type 0 where
  some_length : 0 < length
  fits : offset + length < 2 ^ 63
  punch_keeps : punch_hole mode ≡ true → keep_size mode ≡ true

check-IsAllowed :
    (mode offset length : ℕ)
    → fallocate_check_arguments mode (pos offset) (pos length) ≡ none
    → IsAllowed mode offset length
unfolding fallocate_check_arguments
check-IsAllowed mode offset length e = elim (Bool-cases (length == 0)) [
  | inl a ↦ let t = rw a at e in absurd (cc)
  | inr a ↦ elim (Bool-cases (ltb int64_max (offset + length))) [
    | inl b ↦ let t = rw (a, b) at e in absurd (cc)
    | inr b ↦ record {
      some_length = ground arith;
      fits = ground arith;
      punch_keeps = λ p. elim (Bool-cases (mode == 3)) [
        | inl c ↦ let z : mode ≡ 3 = ground arith in rw z refl
        | inr c ↦ elim (Bool-cases (test_bit mode 3 || test_bit mode 4 || test_bit mode 5)) [
          | inl d ↦ let t = rw (a, b, d) at e in absurd (cc)
          | inr d ↦ let t = rw (a, b, d, p, c) at e in absurd (cc)
        ]
      ];
    }
  ]
]

module _ (env : Environment) (mode offset length o l : ℕ) (v : Vinode) (f : Finds env)
    (h : IsFile v) where
  punch-Outcome :
      punch_hole mode ≡ true
      → keep_size mode ≡ true
      → 0 < length
      → offset + length ≤ 2 ^ 64
      → (sum : ℕ)
      → FallocateOutcome env mode offset length v (fallocate_blocks env mode offset length sum v)
  unfolding fallocate_blocks
  punch-Outcome p k some_length fits sum =
      rw (p, k)
        (from_removal _ (
          vinode_remove_interval-Removing env.relocated (env.find v.blocks) offset length v.blocks
            h.paged (f.closest v.blocks) some_length fits))
    where
      from_removal :
          (m : Filled)
          → Removing env.relocated offset length v.blocks m
          → FallocateOutcome env mode offset length v (
              m >>= λ r. elim r [
                | none ↦
                    ok (
                      some (no_space env.abort_errno),
                      record (count_removal v) { has_tree = false },
                    )
                | some kept ↦ ok (
                  none,
                  record (count_removal v) {
                    blocks = kept.0;
                    allocated_space = v.allocated_space - kept.1;
                  },
                )
              ])
      from_removal (ok _) (removing r d) = punched_hole _ p (record {
        file = record {
          paged = d.paged;
          counted = omega (arith, h.counted, d.counted);
          beyond = λ x i. d.bytes x ∙ ground (arith, h.beyond x);
        };
        bytes = d.bytes;
        same_size = refl;
        kind = refl;
        counter = refl;
      })
      from_removal (ok _) (not_relocated j a) = punch_failed j p a
      from_removal (fault _) (null_relocated j a) = fallocate_null (in_removal j a)

  reserve-Outcome :
      (sum : ℕ)
      → punch_hole mode ≡ false
      → sum ≡ offset + length
      → o ≤ offset
      → offset + length ≤ o + l
      → 0 < l
      → l ≤ 2 ^ 31
      → o + l ≤ 2 ^ 62
      → FallocateOutcome env mode offset length v (fallocate_blocks env mode o l sum v)
  unfolding fallocate_blocks
  reserve-Outcome sum p e a b some_length u w = rw p (
      from_allocation _ (
        vinode_allocate_interval-Allocation env.allocated env.fresh (env.find v.blocks)
          env.overallocate_on_append v.size o l v.blocks h.paged (f.closest v.blocks) some_length
          w))
    where
      from_allocation :
          (m : Filled)
          → Allocation env.allocated o l v.blocks m
          → FallocateOutcome env mode offset length v (
              m >>= λ g. elim g [
                | none ↦ ok (some (no_space env.abort_errno), record v { has_tree = false })
                | some filled ↦ ok (
                  none,
                  record v {
                    blocks = filled.0;
                    allocated_space = v.allocated_space + filled.1;
                    size = if not (keep_size mode) && ltb v.size sum then sum else v.size;
                  },
                )
              ])
      from_allocation (ok _) (whole bs space d) = reserved _ p (record {
        file = record {
          paged = d.paged;
          counted = omega (arith, h.counted, d.counted);
          beyond = λ x i. d.same x ∙ h.beyond x (ground arith);
        };
        bytes = d.same;
        has_space = λ x i j. d.filled x (omega arith) (omega arith);
        new_size = rw e refl;
        kind = refl;
        counter = refl;
        starts = d.starts;
      })
      from_allocation (ok _) (out_of_space j c) = block_failed j p c
      from_allocation (fault _) (null_in_tree j c) = fallocate_null (in_tree (in_allocation j c))
      from_allocation (fault _) (cut_off d q away m k) = absurd (omega arith)

pub fallocate_irregular :
    (env : Environment) (mode offset length : ℕ) (v : Vinode)
    → is_regular v.kind ≡ false
    → vinode_fallocate env mode offset length v ≡ ok (some ebadf, v)
unfolding vinode_fallocate
fallocate_irregular env mode offset length v r = rw r refl

with_tree :
    (env : Environment) (mode offset length : ℕ) (v : Vinode) (m : Run (Option ℤ × Vinode))
    → FallocateOutcome env mode offset length (record v { has_tree = true }) m
    → FallocateOutcome env mode offset length v m
with_tree env mode offset length v _ (punched_hole v' p d) = punched_hole v' p (record {
  file = d.file;
  bytes = d.bytes;
  same_size = d.same_size;
  kind = d.kind;
  counter = d.counter;
})
with_tree env mode offset length v _ (reserved v' p d) = reserved v' p (record {
  file = d.file;
  bytes = d.bytes;
  has_space = d.has_space;
  new_size = d.new_size;
  kind = d.kind;
  counter = d.counter;
  starts = d.starts;
})
with_tree env mode offset length v _ (tree_failed t r) = absurd (cc)
with_tree env mode offset length v _ (block_failed j p a) = block_failed j p a
with_tree env mode offset length v _ (punch_failed j p a) = punch_failed j p a
with_tree env mode offset length v _ (fallocate_null n) = fallocate_null (Crashes-tree env v n)

expanded-Outcome :
    (env : Environment) (mode offset length o l sum : ℕ) (v : Vinode)
    → 0 < l
    → let w : Vinode = record v { has_tree = true } in
      FallocateOutcome env mode offset length w (fallocate_blocks env mode o l sum w)
      → FallocateOutcome env mode offset length v (fallocate_expanded env mode o l sum v)
unfolding fallocate_expanded
expanded-Outcome env mode offset length o l sum v some_length g =
    let more : (l == 0) ≡ false = ground arith in rw more (from_tree _ (ensure_tree-Ensured env v))
  where
    from_tree :
        (m : Run (Option ℤ × Vinode))
        → Ensured env v m
        → FallocateOutcome env mode offset length v (
            m >>= λ t. elim t.0 [
              | some e ↦ ok (some e, t.1)
              | none ↦ fallocate_blocks env mode o l sum t.1
            ])
    from_tree (ok _) (not_built t r) = tree_failed t r
    from_tree (fault _) (null_built t r) = fallocate_null (in_tree (in_rebuild t r))
    from_tree (ok _) built = with_tree env mode offset length v _ g

-- On a well-formed regular file, with a look-up that finds what it promises and arguments that pass the
-- checks, with at most 2 ^ 30 bytes that end within 2 ^ 61, vinode_fallocate ends. With PUNCH_HOLE the bytes of
-- the interval are 0 then, and all others and the size as before. Without it blocks cover the interval, all
-- bytes are as before, and the size is the end of the interval if that is larger and KEEP_SIZE is not given.
-- The file is well formed. Or the tree of the blocks cannot be built, the number 1 is returned and nothing is
-- changed; or an allocation failed, and all but the tree is as before; or a hole was to be punched and a
-- block that a removal has moved could not be put into the tree again, and all but the tree and the
-- counter of invalid pointers is as before; or NULL is followed, where the allocation of a root of the
-- tree failed.
pub fallocate-FallocateOutcome :
    (env : Environment) (mode offset length : ℕ) (v : Vinode)
    → Finds env
    → IsFile v
    → is_regular v.kind ≡ true
    → fallocate_check_arguments mode (pos offset) (pos length) ≡ none
    → length ≤ 2 ^ 30
    → offset + length ≤ 2 ^ 61
    → FallocateOutcome env mode offset length v (vinode_fallocate env mode offset length v)
unfolding vinode_fallocate
fallocate-FallocateOutcome env mode offset length v f h r e u w =
    let a = check-IsAllowed mode offset length e in
    let some_length = a.some_length in
    let sum : (offset + length) % 2 ^ 64 ≡ offset + length = omega arith in
    let v' : Vinode = record v { has_tree = true } in
    let h' : IsFile v' = IsFile-tree true v h in
    rw r (elim (Bool-cases (punch_hole mode)) [
      | inl p ↦
          let i : (if punch_hole mode then (offset, length) else expand_to_full_pages offset length)
              ≡ (offset, length) =
            rw p refl in
          subst
            (λ i.
              FallocateOutcome env mode offset length v
                (fallocate_expanded env mode i.0 i.1 ((offset + length) % 2 ^ 64) v))
            (sym i)
            (expanded-Outcome env mode offset length offset length _ v some_length (
              punch-Outcome env mode offset length offset length v' f h' p (a.punch_keeps p)
                some_length (omega arith) _))
      | inr p ↦
          let x = expand_to_full_pages offset length in
          let (page, pages, some_size, start, stop, short) =
            expand-contains offset length some_length (omega arith) in
          let i : (if punch_hole mode then (offset, length) else x) ≡ x = rw p refl in
          subst
            (λ i.
              FallocateOutcome env mode offset length v
                (fallocate_expanded env mode i.0 i.1 ((offset + length) % 2 ^ 64) v))
            (sym i)
            (expanded-Outcome env mode offset length x.0 x.1 _ v some_size (
              reserve-Outcome env mode offset length x.0 x.1 v' f h' _ p sum start stop some_size
                (omega arith) (omega arith)))
    ])
