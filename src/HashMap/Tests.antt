-- ===== src/HashMap/Tests.antt =====
-- Runs of the hash map, and the theorems about it at these inputs (hash_map.c).
use mathlib.Core.Path.{subst}
use mathlib.Core.Option.{some-injective}
use pmemfile.Prelude.{
  ℕ, ◌+◌, ◌%◌, ◌^◌, ◌≡◌, ◌≢◌, ◌∙◌, sym, refl, if◌then◌else◌, Bool, true, false, not, Option, none,
  some, [], ◌∷◌, ◌==◌, arith, inl, inr,
}
use pmemfile.HashMap.{HashMap, empty_slot, get, Put, done, failed, out_of_fuel, put, remove, alloc}
use pmemfile.HashMap.Contents.{IsValid, after, Draws, Allocates, alloc-Allocates}
use pmemfile.HashMap.Insertion.{Outcome}
use pmemfile.HashMap.Termination.{put_returns, put-Outcome}
use pmemfile.HashMap.Removal.{Removes, remove-Removes}

-- A generator that counts up from its seed.
abbrev counter : ℕ → ℕ × ℕ
counter s = (s % 2 ^ 31 + 1, s + 1)

abbrev fresh : HashMap
fresh = record {
  hash_fun_a = 1;
  hash_fun_b = 2;
  hash_fun_p = 32212254719;
  seed = 2;
  buckets = (empty_slot ∷ empty_slot ∷ []) ∷ (empty_slot ∷ empty_slot ∷ []) ∷ [];
  entries = 0;
}

starts : alloc counter 1 0 true ≡ some fresh
unfolding alloc
starts = refl

-- The keys 1, 3 and 5 fall in one bucket of two slots.
abbrev crowd : (ℕ → ℕ × ℕ) → Bool → HashMap → Put
crowd random allocated start = elim (put random (λ _. allocated) 1 10 9 start) [
  | done _ m ↦ elim (put random (λ _. allocated) 3 30 9 m) [
    | done _ m' ↦ put random (λ _. allocated) 5 50 9 m'
    | _ ↦ out_of_fuel
  ]
  | _ ↦ out_of_fuel
]

abbrev read_all : Put → Option (ℕ × ℕ × ℕ)
read_all (done v m) = some (get m 1, get m 3, get m 5)
read_all (failed m) = some (get m 1, get m 3, get m 5)
read_all out_of_fuel = none

-- The third rebuilds the map, which then holds all three.
crowd_fits : read_all (crowd counter true fresh) ≡ some (10, 30, 50)
unfolding put get
crowd_fits = refl

abbrev doubler : ℕ → ℕ × ℕ
doubler s = (s % 2 ^ 31 + 1, s + s + 1)

-- If the allocation of the rebuild fails, new coefficients have already been drawn, and the keys
-- that are still in the old buckets are looked for elsewhere.
crowd_lost : read_all (crowd doubler false (record fresh { seed = 3 })) ≡ some (0, 0, 0)
unfolding put get
crowd_lost = refl

-- It never draws 0.
counter-Draws : Draws counter 1
unfolding after
counter-Draws = λ s. (0, omega arith, omega arith)

alloc-Allocates_example :
    (m : HashMap) × (alloc counter 1 0 true ≡ (if true then some m else none)) × Allocates m
alloc-Allocates_example = alloc-Allocates counter 1 counter-Draws 0 true

fresh-Allocates : Allocates fresh
fresh-Allocates =
    let (m, e, a) = alloc-Allocates_example in
    subst Allocates (some-injective m fresh (sym e ∙ starts)) a

abbrev first_only : ℕ → Bool
first_only k = not (k == 1)

put-Outcome_example :
    Outcome 1 10
      (λ h. omega arith)
      (λ h. omega arith)
      ⊥
      first_only
      fresh
      (put counter first_only 1 10 4 fresh)
put-Outcome_example =
    put-Outcome 1 10 (λ h. omega arith) (λ h. omega arith) counter first_only 1 1 fresh
      counter-Draws refl fresh-Allocates.valid

-- The key 1 goes to the first slot of the second bucket.
abbrev loaded : HashMap
loaded = record fresh {
  buckets =
      (empty_slot ∷ empty_slot ∷ []) ∷ (record { key = 1; value = 10 } ∷ empty_slot ∷ []) ∷ [];
  entries = 1;
}

stored : put counter first_only 1 10 4 fresh ≡ done 10 loaded
unfolding put
stored = refl

missing : (get fresh 1 == 0) ≡ true
unfolding get
missing = refl

loaded-IsValid : IsValid loaded
loaded-IsValid = (rw (missing, stored) at put-Outcome_example).1.valid

put_returns_example : put counter first_only 5 50 4 loaded ≢ out_of_fuel
put_returns_example = put_returns counter first_only 1 1 5 50 counter-Draws refl loaded

remove-Removes_example :
    (m' : HashMap) × (remove loaded 1 (get loaded 1) ≡ some m') × Removes 1 loaded m'
remove-Removes_example =
    remove-Removes loaded 1 loaded-IsValid (λ h. omega arith) (unfold get in λ h. omega arith)
      (unfold get in (inr refl, (inl (λ h. omega arith), tt)))
