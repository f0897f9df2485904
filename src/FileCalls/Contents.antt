-- ===== src/FileCalls/Contents.antt =====
-- What a file holds: its size and its bytes, and when its blocks are well formed.
use pmemfile.Prelude.{
  ℕ, ◌+◌, ◌-◌, ◌≤◌, ◌≡◌, refl, sym, Bool, true, false, Option, none, some, List, [], ◌∷◌, ltb,
  if◌then◌else◌,
}
use mathlib.Core.Path.{subst}
use pmemfile.Prelude.Int.{ℤ}
use pmemfile.Run.{Run, ok, fault, null_pointer}
use pmemfile.FileData.{Attempt, made, stopped, null_followed, BlockDesc}
use pmemfile.FileData.Content.{IsPaged, content, total}
use pmemfile.FileData.Allocate.Interval.{closest_at}
use pmemfile.FileCalls.{Vinode, Iov, Environment, eperm, ensure_tree}

-- The blocks are in order and in whole pages, the inode has the sum of their sizes, and the bytes at the size
-- and behind it are 0.
pub record IsFile (v : Vinode) : Type 0 where
  pub paged : IsPaged 0 v.blocks
  pub counted : v.allocated_space ≡ total v.blocks
  pub beyond : (x : ℕ) → v.size ≤ x → content v.blocks x ≡ 0

-- Whether the tree is built is no part of what a file holds.
pub IsFile-tree : (b : Bool) (v : Vinode) → IsFile v → IsFile (record v { has_tree = b })
IsFile-tree b v h = record { paged = h.paged; counted = h.counted; beyond = h.beyond }

abbrev pub bytes_of : Vinode → ℕ → ℕ
bytes_of v = content v.blocks

-- What the tree promises of a look-up.
pub record Finds (env : Environment) : Type 0 where
  pub closest : (bs : List BlockDesc) (o : ℕ) → env.find bs o ≡ closest_at o bs

abbrev pub base_byte : Option (ℕ → ℕ) → ℕ → ℕ
base_byte none j = 0
base_byte (some buf) j = buf j

-- The bytes of some buffers, one behind the other.
unfoldable pub gathered : List Iov → ℕ → ℕ
gathered [] j = 0
gathered (e ∷ iov) j =
    let rest = gathered iov (j - e.iov_len) in
    if ltb j e.iov_len then base_byte e.iov_base j else rest

unfoldable pub lengths : List Iov → ℕ
lengths [] = 0
lengths (e ∷ iov) = e.iov_len + lengths iov

-- What ensure_tree does: the file has its tree then, or building it fails, or NULL is followed.
pub data Ensured (env : Environment) (v : Vinode) : Run (Option ℤ × Vinode) → Type 0 where
  built : Ensured env v (ok (none, record v { has_tree = true }))
  not_built :
      v.has_tree ≡ false
      → env.rebuild ≡ stopped
      → Ensured env v (ok (some eperm, record v { has_tree = false }))
  null_built : v.has_tree ≡ false → env.rebuild ≡ null_followed → Ensured env v (fault null_pointer)

pub ensure_tree-Ensured : (env : Environment) (v : Vinode) → Ensured env v (ensure_tree env v)
unfolding ensure_tree
ensure_tree-Ensured env v = from_tree v.has_tree env.rebuild refl refl
  where
    from_tree :
        (t : Bool) (r : Attempt)
        → v.has_tree ≡ t
        → env.rebuild ≡ r
        → Ensured env v (elim t [
          | true ↦ ok (none, v)
          | false ↦ elim r [
            | made ↦ ok (none, record v { has_tree = true })
            | stopped ↦ ok (some eperm, v)
            | null_followed ↦ fault null_pointer
          ]
        ])
    from_tree true r e q =
        subst (λ b. Ensured env v (ok (none, record v { has_tree = b }))) (sym e) built
    from_tree false made e q = built
    from_tree false stopped e q =
        subst (λ b. Ensured env v (ok (some eperm, record v { has_tree = b }))) (sym e)
          (not_built e q)
    from_tree false null_followed e q = null_built e q

-- Why a call that builds the tree or allocates follows NULL: the allocation of a root of the tree failed.
pub data NullFollowed (env : Environment) (v : Vinode) : Type 0 where
  in_rebuild : v.has_tree ≡ false → env.rebuild ≡ null_followed → NullFollowed env v
  in_allocation : (j : ℕ) → env.allocated j ≡ null_followed → NullFollowed env v

-- Why a call that may also remove blocks does.
pub data Crashes (env : Environment) (v : Vinode) : Type 0 where
  in_tree : NullFollowed env v → Crashes env v
  in_removal : (j : ℕ) → env.relocated j ≡ null_followed → Crashes env v

-- With the tree, it is an allocation.
pub NullFollowed-tree :
    (env : Environment) (v : Vinode)
    → NullFollowed env (record v { has_tree = true })
    → NullFollowed env v
NullFollowed-tree env v (in_rebuild t r) = absurd (cc)
NullFollowed-tree env v (in_allocation j a) = in_allocation j a

pub Crashes-tree :
    (env : Environment) (v : Vinode) → Crashes env (record v { has_tree = true }) → Crashes env v
Crashes-tree env v (in_tree n) = in_tree (NullFollowed-tree env v n)
Crashes-tree env v (in_removal j a) = in_removal j a
