-- ===== src/FileCalls/Write/Space.antt =====
-- Allocating the space for a write (write.c, pmemfile_allocate_space).
use pmemfile.Prelude.{
  ℕ, ◌+◌, ◌^◌, ◌≤◌, ◌<◌, ◌≡◌, true, false, Option, none, some, List, ◌==◌, if◌then◌else◌, arith,
  Bool-cases, inl, inr,
}
use mathlib.Core.Path.{subst}
use pmemfile.Prelude.Int.{ℤ}
use pmemfile.Run.{Run, ok, fault, assertion, null_pointer, ◌>>=◌}
use pmemfile.FileData.{stopped, null_followed, BlockDesc}
use pmemfile.FileData.Content.{IsPaged, covered}
use pmemfile.FileData.Allocate.{Filled}
use pmemfile.FileData.Allocate.Fill.{Fills}
use pmemfile.FileData.Allocate.Interval.{
  Allocation, whole, out_of_space, null_in_tree, cut_off, vinode_allocate_interval-Allocation,
}
use pmemfile.FileCalls.{Vinode, Environment}
use pmemfile.FileCalls.Contents.{Finds}
use pmemfile.FileCalls.Write.{no_space, pmemfile_allocate_space}

-- Either the space is there, or an allocation failed and only the tree of the blocks is dropped, or NULL is
-- followed.
pub data Spaced (env : Environment) (offset len : ℕ) (v : Vinode)
    : Run (Option ℤ × Vinode) → Type 0 where
  room :
      (bs : List BlockDesc) (space : ℕ)
      → Fills 0 offset len v.blocks bs space
      → Spaced env offset len v
          (ok (none, record v { blocks = bs; allocated_space = v.allocated_space + space }))
  no_room :
      (j : ℕ)
      → env.allocated j ≡ stopped
      → Spaced env offset len v
          (ok (some (no_space env.abort_errno), record v { has_tree = false }))
  null_space :
      (j : ℕ) → env.allocated j ≡ null_followed → Spaced env offset len v (fault null_pointer)

after_interval :
    (env : Environment) (offset len : ℕ) (v : Vinode) (r : Filled)
    → len ≤ 2 ^ 31
    → (x : ℕ) × (offset ≤ x) × (x < offset + len) × (covered v.blocks x ≡ false)
    → Allocation env.allocated offset len v.blocks r
    → Spaced env offset len v (
        r >>= λ r. elim r [
          | none ↦ ok (some (no_space env.abort_errno), record v { has_tree = false })
          | some filled ↦
              let allocated_space = v.allocated_space + filled.1 in
              let changed = (if v.allocated_space == allocated_space then false else true) in
              if (if true then changed else if changed then false else true)
              then ok (none, record v { blocks = filled.0; allocated_space = allocated_space })
              else fault assertion
        ])
after_interval env offset len v (ok _) u (x, l, m, c) (whole bs space f) =
    elim (Bool-cases (space == 0)) [
      | inl z ↦
          let none_new : space ≡ 0 = ground arith in
          let same = f.unchanged none_new in
          let d = subst (λ b. covered b x ≡ true) same (f.filled x l m) in absurd (cc)
      | inr z ↦
          let changed : (v.allocated_space == v.allocated_space + space) ≡ false = ground arith in
          rw changed (room bs space f)
    ]
after_interval env offset len v (ok _) u w (out_of_space j a) = no_room j a
after_interval env offset len v (fault _) u w (null_in_tree j a) = null_space j a
after_interval env offset len v (fault _) u w (cut_off d e pos m l) = absurd (omega arith)

pub allocate_space-Spaced :
    (env : Environment) (offset len : ℕ) (v : Vinode)
    → Finds env
    → IsPaged 0 v.blocks
    → 0 < len
    → len ≤ 2 ^ 31
    → offset + len ≤ 2 ^ 62
    → (x : ℕ) × (offset ≤ x) × (x < offset + len) × (covered v.blocks x ≡ false)
    → Spaced env offset len v (pmemfile_allocate_space env offset len true v)
unfolding pmemfile_allocate_space
allocate_space-Spaced env offset len v f p pos u b w = after_interval env offset len v _ u w (
    vinode_allocate_interval-Allocation env.allocated env.fresh (env.find v.blocks)
      env.overallocate_on_append v.size offset len v.blocks p (f.closest v.blocks) pos b)
