-- ===== src/InodeArray.antt =====
-- Chains of inode arrays (src/libpmemfile-posix/inode_array.c): the persistent lists of orphaned and
-- suspended inodes. A chain is the list of its arrays in the order of `next`, an inode is a number and
-- a null one is 0. A transaction that aborts leaves what was there, so each call is one step.
pub mod Slots
pub mod Chain
pub mod Removal
pub mod Traversal
mod Tests
use pmemfile.Prelude.{
  ℕ, zero, suc, ◌+◌, ◌-◌, Bool, true, false, Option, none, some, List, [], ◌∷◌, ◌++◌, get_or, set,
  replicate, ltb, ◌==◌, if◌then◌else◌,
}
use pmemfile.Run.{Run, ok, fault, assertion}

pub record InodeArray : Type 0 where
  pub used : ℕ
  pub inodes : List ℕ

abbrev pub num_inodes_per_entry : ℕ
num_inodes_per_entry = 249

-- inode_array_alloc gives a zeroed array.
abbrev pub new_array : InodeArray
new_array = record { used = 0; inodes = replicate num_inodes_per_entry 0 }

-- The loop of inode_array_add_single: the first null slot takes the inode; also its index.
pub add_slot : ℕ → List ℕ → Option (List ℕ × ℕ)
add_slot tinode [] = none
add_slot tinode (x ∷ xs) =
    if x == 0
    then some (tinode ∷ xs, 0)
    else elim (add_slot tinode xs) [ none ↦ none | some (ys, i) ↦ some (x ∷ ys, suc i) ]

pub add_single : ℕ → InodeArray → Option (InodeArray × ℕ)
unfolding add_slot
add_single tinode cur = elim (add_slot tinode cur.inodes) [
  | none ↦ none
  | some (inodes, i) ↦ some (record { used = cur.used + 1; inodes = inodes }, i)
]

-- The new chain, and the position of the inode: which array, and which slot of it.
pub data Added : Type 0 where
  added : List InodeArray → ℕ → ℕ → Added
  aborted : Added
  out_of_fuel : Added

abbrev pub behind : InodeArray → Added → Added
behind cur (added chain k i) = added (cur ∷ chain) (suc k) i
behind cur aborted = aborted
behind cur out_of_fuel = out_of_fuel

-- `allocated` says whether an array can be allocated; if not, the transaction aborts. The loop goes
-- from the array `cur` to those after it.
pub add : (fuel : ℕ) → Bool → ℕ → InodeArray → List InodeArray → Added
unfolding add_single
add zero allocated tinode cur rest = out_of_fuel
add (suc fuel) allocated tinode cur rest =
    elim (if ltb cur.used num_inodes_per_entry then add_single tinode cur else none) [
      | some (cur', i) ↦ added (cur' ∷ rest) 0 i
      | none ↦ elim rest as (λ _. Added) [
        | next ∷ rest' ↦ behind cur (add fuel allocated tinode next rest')
        | [] ↦ elim allocated as (λ _. Added) [
          | true ↦ behind cur (add fuel allocated tinode new_array [])
          | false ↦ aborted
        ]
      ]
    ]

-- The array `k` of the chain loses the inode in its slot `idx`.
pub unregister : ℕ → ℕ → List InodeArray → Run (List InodeArray)
unregister k idx chain =
    let cur = get_or chain k new_array in
    if cur.used == 0
    then fault assertion
    else ok (set chain k (record { used = cur.used - 1; inodes = set cur.inodes idx 0 }))

-- The loop over one array, with the count of the inodes still to be met: the inodes that the callback
-- is called for, in order.
pub visit : ℕ → List ℕ → List ℕ
visit zero xs = []
visit (suc n) [] = []
visit (suc n) (x ∷ xs) = if x == 0 then visit (suc n) xs else x ∷ visit n xs

pub traverse : List InodeArray → List ℕ
unfolding visit
traverse [] = []
traverse (cur ∷ chain) = visit cur.used cur.inodes ++ traverse chain

pub empty : List InodeArray → Bool
empty [] = true
empty (cur ∷ chain) = if cur.used == 0 then empty chain else false

-- The chain behind its first array is given.
pub is_small : List InodeArray → Bool
is_small [] = true
is_small (next ∷ rest) = false
