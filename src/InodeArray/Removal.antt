-- ===== src/InodeArray/Removal.antt =====
-- Taking an inode out of a chain of inode arrays (inode_array.c).
use mathlib.Core.Path.{subst}
use pmemfile.Prelude.{
  ℕ, zero, suc, ◌+◌, ◌-◌, ◌<◌, ◌≡◌, ◌≢◌, ◌∙◌, refl, Bool, false, ◌&&◌, List, [], ◌∷◌, length,
  get_or, set, ◌==◌, if◌then◌else◌, arith, length-set, sym,
}
use pmemfile.Run.{ok}
use pmemfile.InodeArray.{InodeArray, new_array, added, add, unregister}
use pmemfile.InodeArray.Slots.{used_in, used_in-clear}
use pmemfile.InodeArray.Chain.{ArrayIsValid, IsValid, inode_at, Adds, Outcome, adds, add-Outcome}

-- The chain is valid and null at the position; all other positions read as they did.
pub record Unregisters (chain chain' : List InodeArray) (k i : ℕ) : Type 0 where
  pub valid : IsValid chain'
  pub reads :
      (k' i' : ℕ) → inode_at chain' k' i' ≡ (if k == k' && i == i' then 0 else inode_at chain k' i')

abbrev cleared : InodeArray → ℕ → InodeArray
cleared a i = record { used = a.used - 1; inodes = set a.inodes i 0 }

used_in-pos : (xs : List ℕ) (i : ℕ) → get_or xs i 0 ≢ 0 → 0 < used_in xs
used_in-pos xs i h = omega (arith, used_in-clear xs i h)

cleared-ArrayIsValid :
    (a : InodeArray) (i : ℕ) → ArrayIsValid a → get_or a.inodes i 0 ≢ 0 → ArrayIsValid (cleared a i)
cleared-ArrayIsValid a i v h = record {
  size = length-set a.inodes i 0 ∙ v.size;
  counted = omega (arith, v.counted, used_in-clear a.inodes i h);
}

-- A write to slot `i` of a list of numbers reads back so, in bounds or not, if it writes the default.
get_or-clear :
    (xs : List ℕ) (i j : ℕ) → get_or (set xs i 0) j 0 ≡ (if i == j then 0 else get_or xs j 0)
get_or-clear [] i j = ground arith
get_or-clear (x ∷ xs) zero zero = refl
get_or-clear (x ∷ xs) zero (suc j) = ground arith
get_or-clear (x ∷ xs) (suc i) zero = ground arith
get_or-clear (x ∷ xs) (suc i) (suc j) = ground (arith, get_or-clear xs i j)

set-IsValid :
    (chain : List InodeArray) (k : ℕ) (a : InodeArray)
    → IsValid chain
    → ArrayIsValid a
    → IsValid (set chain k a)
unfolding IsValid
set-IsValid [] k a v va j = v j
set-IsValid (c ∷ chain) zero a v va zero = va
set-IsValid (c ∷ chain) zero a v va (suc j) = v (suc j)
set-IsValid (c ∷ chain) (suc k) a v va zero = v 0
set-IsValid (c ∷ chain) (suc k) a v va (suc j) = set-IsValid chain k a (λ j. v (suc j)) va j

set_reads :
    (chain : List InodeArray) (k i k' i' : ℕ)
    → k < length chain
    → inode_at (set chain k (cleared (get_or chain k new_array) i)) k' i'
      ≡ (if k == k' && i == i' then 0 else inode_at chain k' i')
set_reads [] k i k' i' h = elim h [ ]
set_reads (c ∷ chain) zero i zero i' h = get_or-clear c.inodes i i'
set_reads (c ∷ chain) zero i (suc k') i' h = ground arith
set_reads (c ∷ chain) (suc k) i zero i' h = ground arith
set_reads (c ∷ chain) (suc k) i (suc k') i' h =
    ground (arith, set_reads chain k i k' i' (omega arith))

-- Unregistering the inode at a position that holds one does not fail its assert; the position is null
-- then, all others read as they did, and the counts stay right.
pub unregister-Unregisters :
    (chain : List InodeArray) (k i : ℕ)
    → IsValid chain
    → k < length chain
    → inode_at chain k i ≢ 0
    → (chain' : List InodeArray) × (unregister k i chain ≡ ok chain') × Unregisters chain chain' k i
unfolding unregister IsValid
unregister-Unregisters chain k i v inside h =
    let a = get_or chain k new_array in
    let e : (a.used == 0) ≡ false = ground (arith, (v k).counted, used_in-pos a.inodes i h) in
    (
      set chain k (cleared a i),
      rw e refl,
      record {
        valid = set-IsValid chain k (cleared a i) v (cleared-ArrayIsValid a i (v k) h);
        reads = λ k' i'. set_reads chain k i k' i' inside;
      },
    )

Outcome-added :
    {allocated : Bool} {t k i : ℕ} {chain chain' : List InodeArray}
    → Outcome allocated t chain (added chain' k i)
    → Adds t chain chain' k i
Outcome-added (adds a) = a

-- A function of two numbers, changed at one place and back.
change_back :
    (x : ℕ → ℕ → ℕ) (t k i k' i' : ℕ)
    → x k i ≡ 0
    → (if k == k' && i == i' then 0 else if k == k' && i == i' then t else x k' i') ≡ x k' i'
change_back x t k i k' i' h = grind arith

-- An inode that was added to a valid chain can be taken out again at the position that the call gave,
-- and every position then reads as before both.
pub unregister-add :
    (t fuel : ℕ) (allocated : Bool) (cur : InodeArray) (rest chain' : List InodeArray) (k i : ℕ)
    → t ≢ 0
    → IsValid (cur ∷ rest)
    → length rest + 1 < fuel
    → add fuel allocated t cur rest ≡ added chain' k i
    → (chain'' : List InodeArray) × (unregister k i chain' ≡ ok chain'')
      × IsValid chain''
      × ((k' i' : ℕ) → inode_at chain'' k' i' ≡ inode_at (cur ∷ rest) k' i')
unregister-add t fuel allocated cur rest chain' k i nonzero v h e =
    let a = Outcome-added (
      subst (Outcome allocated t (cur ∷ rest)) e
        (add-Outcome t nonzero fuel allocated cur rest v h)) in
    let there : inode_at chain' k i ≡ t = ground (arith, a.reads k i) in
    let (chain'', done, u) =
      unregister-Unregisters chain' k i a.valid a.inside (λ z. nonzero (sym there ∙ z)) in
    (
      chain'',
      done,
      u.valid,
      λ k' i'.
          u.reads k' i'
          ∙ (rw (a.reads k' i') (change_back (inode_at (cur ∷ rest)) t k i k' i' a.was_null)),
    )
