-- ===== src/InodeArray/Slots.antt =====
-- The slots of one inode array: how many are in use, and what a store does (inode_array.c).
use pmemfile.Prelude.{
  ℕ, zero, suc, ◌+◌, ◌≤◌, ◌<◌, ◌≡◌, ◌≢◌, refl, Option, none, some, List, [], ◌∷◌, length, get_or,
  set, replicate, ◌==◌, if◌then◌else◌, arith, Bool-cases, inl, inr, ==_iff,
}
use pmemfile.InodeArray.{add_slot}

unfoldable pub used_in : List ℕ → ℕ
used_in [] = 0
used_in (x ∷ xs) = (if x == 0 then 0 else 1) + used_in xs

pub used_in-le : (xs : List ℕ) → used_in xs ≤ length xs
unfolding used_in
used_in-le [] = omega arith
used_in-le (x ∷ xs) = ground (arith, used_in-le xs)

pub used_in-zeros : (n : ℕ) → used_in (replicate n 0) ≡ 0
unfolding used_in
used_in-zeros zero = refl
used_in-zeros (suc n) = omega (arith, used_in-zeros n)

pub used_in-clear :
    (xs : List ℕ) (i : ℕ) → get_or xs i 0 ≢ 0 → used_in (set xs i 0) + 1 ≡ used_in xs
unfolding used_in
used_in-clear [] i h = absurd (h refl)
used_in-clear (x ∷ xs) zero h = ground arith
used_in-clear (x ∷ xs) (suc i) h = ground (arith, used_in-clear xs i h)

-- The slot `i` of `xs` was null, and `ys` holds the inode there and is else the same.
pub record Stores (t : ℕ) (xs ys : List ℕ) (i : ℕ) : Type 0 where
  pub inside : i < length xs
  pub was_null : get_or xs i 0 ≡ 0
  pub reads : (j : ℕ) → get_or ys j 0 ≡ (if i == j then t else get_or xs j 0)
  pub keeps_length : length ys ≡ length xs
  pub counts : used_in ys ≡ used_in xs + 1

get_or-first :
    (t : ℕ) (xs : List ℕ) (j : ℕ)
    → get_or (t ∷ xs) j 0 ≡ (if 0 == j then t else get_or (0 ∷ xs) j 0)
get_or-first t xs zero = refl
get_or-first t xs (suc j) = ground arith

get_or-later :
    (t x i : ℕ) (xs ys : List ℕ) (j : ℕ)
    → ((k : ℕ) → get_or ys k 0 ≡ (if i == k then t else get_or xs k 0))
    → get_or (x ∷ ys) j 0 ≡ (if suc i == j then t else get_or (x ∷ xs) j 0)
get_or-later t x i xs ys zero h = ground arith
get_or-later t x i xs ys (suc j) h = ground (arith, h j)

Stores-here : (t : ℕ) → t ≢ 0 → (x : ℕ) → x ≡ 0 → (xs : List ℕ) → Stores t (x ∷ xs) (t ∷ xs) 0
unfolding used_in
Stores-here t h x e xs = record {
  inside = omega arith;
  was_null = e;
  reads = λ j. rw e (get_or-first t xs j);
  keeps_length = refl;
  counts = ground arith;
}

Stores-later :
    (t i : ℕ) (xs ys : List ℕ) (x : ℕ) → Stores t xs ys i → Stores t (x ∷ xs) (x ∷ ys) (suc i)
unfolding used_in
Stores-later t i xs ys x s = record {
  inside = omega (arith, s.inside);
  was_null = s.was_null;
  reads = λ j. get_or-later t x i xs ys j s.reads;
  keeps_length = omega (arith, s.keeps_length);
  counts = omega (arith, s.counts);
}

-- What the loop finds: a null slot, or that there is none.
pub data Slotted (t : ℕ) (xs : List ℕ) : Option (List ℕ × ℕ) → Type 0 where
  full : used_in xs ≡ length xs → Slotted t xs none
  stored : {ys : List ℕ} {i : ℕ} → Stores t xs ys i → Slotted t xs (some (ys, i))

Slotted-later :
    (t x : ℕ) (xs : List ℕ) (o : Option (List ℕ × ℕ))
    → x ≢ 0
    → Slotted t xs o
    → Slotted t (x ∷ xs) (elim o [ none ↦ none | some (ys, i) ↦ some (x ∷ ys, suc i) ])
unfolding used_in
Slotted-later t x xs none h (full e) = full (ground arith)
Slotted-later t x xs (some (ys, i)) h (stored s) = stored (Stores-later t i xs ys x s)

pub add_slot-Slotted : (t : ℕ) → t ≢ 0 → (xs : List ℕ) → Slotted t xs (add_slot t xs)
unfolding add_slot used_in
add_slot-Slotted t h [] = full refl
add_slot-Slotted t h (x ∷ xs) = elim (Bool-cases (x == 0)) [
  | inl e ↦ rw e (stored (Stores-here t h x ((==_iff x 0).0 e) xs))
  | inr e ↦
      rw e (Slotted-later t x xs (add_slot t xs) (λ z. ground arith) (add_slot-Slotted t h xs))
]
