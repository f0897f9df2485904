-- ===== src/InodeArray/Traversal.antt =====
-- Going over a chain of inode arrays (inode_array.c): the loops stop by the counts, not by the slots.
use pmemfile.Prelude.{
  ℕ, zero, suc, ◌≡◌, refl, sym, ap, Bool, true, false, List, [], ◌∷◌, ◌++◌, ◌==◌, if◌then◌else◌,
  arith, Bool-cases, inl, inr,
}
use pmemfile.InodeArray.{InodeArray, visit, traverse, empty}
use pmemfile.InodeArray.Slots.{used_in}
use pmemfile.InodeArray.Chain.{IsValid}

-- The inodes of one array, by its slots alone.
unfoldable pub inodes_in : List ℕ → List ℕ
inodes_in [] = []
inodes_in (x ∷ xs) = if x == 0 then inodes_in xs else x ∷ inodes_in xs

-- The inodes of a chain, in order.
unfoldable pub all_inodes : List InodeArray → List ℕ
all_inodes [] = []
all_inodes (cur ∷ chain) = inodes_in cur.inodes ++ all_inodes chain

inodes_in_nil : (xs : List ℕ) → used_in xs ≡ 0 → inodes_in xs ≡ []
unfolding used_in inodes_in
inodes_in_nil [] h = refl
inodes_in_nil (x ∷ xs) h = ground (arith, inodes_in_nil xs)

visit-inodes_in : (n : ℕ) (xs : List ℕ) → n ≡ used_in xs → visit n xs ≡ inodes_in xs
unfolding visit used_in inodes_in
visit-inodes_in zero xs h = sym (inodes_in_nil xs (sym h))
visit-inodes_in (suc n) [] h = refl
visit-inodes_in (suc n) (x ∷ xs) h = elim (Bool-cases (x == 0)) [
  | inl e ↦ rw e (visit-inodes_in (suc n) xs (ground arith))
  | inr e ↦ rw e (ap (λ ys. x ∷ ys) (visit-inodes_in n xs (ground arith)))
]

-- On a valid chain the callback is called for each inode of the chain once, in order, though the loop
-- over an array stops as soon as it has met as many inodes as the array counts.
pub traverse-all_inodes :
    (chain : List InodeArray) → IsValid chain → traverse chain ≡ all_inodes chain
unfolding traverse all_inodes IsValid
traverse-all_inodes [] v = refl
traverse-all_inodes (cur ∷ chain) v =
    rw
      (
        visit-inodes_in cur.used cur.inodes (v 0).counted,
        traverse-all_inodes chain (λ k. v (suc k)),
      )
      refl

abbrev pub is_nil : List ℕ → Bool
is_nil [] = true
is_nil (x ∷ xs) = false

inodes_in-cons :
    (xs : List ℕ) (ys : List ℕ) (n : ℕ)
    → used_in xs ≡ n
    → (n == 0) ≡ false
    → is_nil (inodes_in xs ++ ys) ≡ false
unfolding used_in inodes_in
inodes_in-cons [] ys n h e = ground arith
inodes_in-cons (x ∷ xs) ys n h e = elim (Bool-cases (x == 0)) [
  | inl z ↦ rw z (inodes_in-cons xs ys n (ground arith) e)
  | inr z ↦ rw z refl
]

-- On a valid chain, which the counts are read for, inode_array_empty answers whether the chain holds
-- no inode.
pub empty-all_inodes :
    (chain : List InodeArray) → IsValid chain → empty chain ≡ is_nil (all_inodes chain)
unfolding empty all_inodes IsValid
empty-all_inodes [] v = refl
empty-all_inodes (cur ∷ chain) v = elim (Bool-cases (cur.used == 0)) [
  | inl e ↦
      rw (e, inodes_in_nil cur.inodes (ground (arith, (v 0).counted)))
        (empty-all_inodes chain (λ k. v (suc k)))
  | inr e ↦ rw (e, inodes_in-cons cur.inodes (all_inodes chain) cur.used (sym (v 0).counted) e) refl
]
