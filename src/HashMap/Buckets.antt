-- ===== src/HashMap/Buckets.antt =====
-- One bucket, and lists of buckets (hash_map.c): how often a key stands there, and what the loops find.
use mathlib.Core.Path.{subst}
use pmemfile.Prelude.{
  ℕ, zero, suc, ◌+◌, ◌-◌, ◌≤◌, ◌<◌, ◌≡◌, ◌≢◌, refl, Option, none, some, List, [], ◌∷◌, ◌∙◌, length,
  get_or, set, ◌==◌, if◌then◌else◌, arith, Bool-cases, Option-cases, inl, inr,
}
use pmemfile.HashMap.{
  Slot, Bucket, find, put_free, existing, free_slot, first_of, scan, first_empty,
}

-- How often the key stands in the bucket.
unfoldable pub count : ℕ → Bucket → ℕ
count q [] = 0
count q (s ∷ b) = (if s.key == q then 1 else 0) + count q b

-- How many slots are used.
unfoldable pub used : Bucket → ℕ
used [] = 0
used (s ∷ b) = (if s.key == 0 then 0 else 1) + used b

unfoldable pub count_all : ℕ → List Bucket → ℕ
count_all q [] = 0
count_all q (b ∷ bs) = count q b + count_all q bs

unfoldable pub used_all : List Bucket → ℕ
used_all [] = 0
used_all (b ∷ bs) = used b + used_all bs

pub count_all-set :
    (q : ℕ) (bs : List Bucket) (i : ℕ) (b : Bucket)
    → i < length bs
    → count_all q (set bs i b) + count q (get_or bs i []) ≡ count_all q bs + count q b
unfolding count_all
count_all-set q [] i b h = elim h [ ]
count_all-set q (c ∷ bs) zero b h = omega arith
count_all-set q (c ∷ bs) (suc i) b h = omega (arith, count_all-set q bs i b (omega arith))

pub used_all-set :
    (bs : List Bucket) (i : ℕ) (b : Bucket)
    → i < length bs
    → used_all (set bs i b) + used (get_or bs i []) ≡ used_all bs + used b
unfolding used_all
used_all-set [] i b h = elim h [ ]
used_all-set (c ∷ bs) zero b h = omega arith
used_all-set (c ∷ bs) (suc i) b h = omega (arith, used_all-set bs i b (omega arith))

pub count-le-count_all :
    (q : ℕ) (bs : List Bucket) (i : ℕ) → count q (get_or bs i []) ≤ count_all q bs
unfolding count count_all
count-le-count_all q [] i = omega arith
count-le-count_all q (c ∷ bs) zero = omega arith
count-le-count_all q (c ∷ bs) (suc i) = omega (arith, count-le-count_all q bs i)

pub find_absent : (q : ℕ) (b : Bucket) → count q b ≡ 0 → find q b ≡ 0
unfolding find count
find_absent q [] h = refl
find_absent q (s ∷ b) h = ground (arith, find_absent q b)

-- What a bucket becomes when a new slot is stored in it: `b'` has the key once more, reads as the new
-- value at it, and reads as before at all other keys.
pub record Stores (new : Slot) (b b' : Bucket) : Type 0 where
  pub counts : (q : ℕ) → q ≢ 0 → count q b' ≡ count q b + (if new.key == q then 1 else 0)
  pub reads :
      (q : ℕ)
      → q ≢ 0
      → count new.key b ≡ 0
      → find q b' ≡ (if new.key == q then new.value else find q b)
  pub fills : new.key ≢ 0 → used b' ≡ used b + 1

Stores-here : (new s : Slot) (b : Bucket) → s.key ≡ 0 → Stores new (s ∷ b) (new ∷ b)
unfolding count find used
Stores-here new s b h = record {
  counts = λ q n. ground arith;
  reads = λ q n a. ground arith;
  fills = λ n. ground arith;
}

Stores-later : (new s : Slot) (b b' : Bucket) → Stores new b b' → Stores new (s ∷ b) (s ∷ b')
unfolding count find used
Stores-later new s b b' t = record {
  counts = λ q n. omega (arith, t.counts q n);
  reads = λ q n a. ground (arith, t.reads q n);
  fills = λ n. omega (arith, t.fills n);
}

pub put_free-Stores : (new : Slot) (b b' : Bucket) → put_free new b ≡ some b' → Stores new b b'
unfolding put_free
put_free-Stores new [] b' h = cc
put_free-Stores new (s ∷ b) b' h = elim (Bool-cases (s.key == 0)) [
  | inl e ↦
      let same : (new ∷ b) ≡ b' = cc (rw e at h) in
      subst (Stores new (s ∷ b)) same (Stores-here new s b (ground arith))
  | inr n ↦ elim (Option-cases (put_free new b)) [
    | inl f ↦ cc (rw (n, f) at h)
    | inr (c, f) ↦
        let same : (s ∷ c) ≡ b' = cc (rw (n, f) at h) in
        subst (Stores new (s ∷ b)) same (Stores-later new s b c (put_free-Stores new b c f))
  ]
]

-- A scan that finds the key finds it in the bucket, with the value that the lookup reads.
pub scan-existing :
    (key j : ℕ) (o : Option ℕ) (b : Bucket) (v : ℕ)
    → scan key j o b ≡ existing v
    → (v ≡ find key b) × (0 < count key b)
unfolding scan find count
scan-existing key j o [] v h = cc
scan-existing key j o (s ∷ b) v h = elim (Bool-cases (s.key == key)) [
  | inl e ↦ (ground arith, ground arith)
  | inr n ↦
      let (same, more) =
        scan-existing key (j + 1) (first_of o (if s.key == 0 then some j else none)) b v
          (rw n at h) in
      (rw n same, omega (arith, more))
]

-- A scan that does not find the key gives the first empty slot.
pub scan-free :
    (key j : ℕ) (o : Option ℕ) (b : Bucket) (r : Option ℕ)
    → scan key j o b ≡ free_slot r
    → (r ≡ first_of o (first_empty j b)) × (count key b ≡ 0)
unfolding scan first_empty first_of count
scan-free key j none [] r h = (cc, refl)
scan-free key j (some i) [] r h = (cc, refl)
scan-free key j o (s ∷ b) r h = elim (Bool-cases (s.key == key)) [
  | inl e ↦ cc (rw e at h)
  | inr n ↦
      let (same, none_there) =
        scan-free key (j + 1) (first_of o (if s.key == 0 then some j else none)) b r (rw n at h) in
      (same ∙ regroup o, ground (arith, none_there))
]
  where
    regroup :
        (o : Option ℕ)
        → first_of (first_of o (if s.key == 0 then some j else none)) (first_empty (j + 1) b)
          ≡ first_of o (if s.key == 0 then some j else first_empty (j + 1) b)
    regroup none = ground arith
    regroup (some i) = refl

-- Writing to the first empty slot is what storing in a new bucket does.
pub first_empty-put_free :
    (new : Slot) (i : ℕ) (b : Bucket) (k : ℕ)
    → first_empty i b ≡ some k
    → (i ≤ k) × (put_free new b ≡ some (set b (k - i) new))
unfolding first_empty put_free
first_empty-put_free new i [] k h = cc
first_empty-put_free new i (s ∷ b) k h = elim (Bool-cases (s.key == 0)) [
  | inl e ↦
      let here : i ≡ k = cc (rw e at h) in
      let zeroth : k - i ≡ 0 = omega arith in (omega arith, rw (e, zeroth))
  | inr n ↦
      let (above, rest) = first_empty-put_free new (i + 1) b k (rw n at h) in
      let later : k - i ≡ suc (k - (i + 1)) = omega arith in (omega arith, rw (n, rest, later))
]
