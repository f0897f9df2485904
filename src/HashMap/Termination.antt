-- ===== src/HashMap/Termination.antt =====
-- Termination of insertion (hash_map.c, hash_map_put): how much fuel its loops need.
use mathlib.Core.Path.{subst}
use native.Mathlib.Decide.{dec_lt}
use pmemfile.Prelude.{
  ℕ, zero, suc, ◌+◌, ◌*◌, ◌≤◌, ◌<◌, ◌≡◌, ◌≢◌, ◌∙◌, ap, refl, Bool, true, false, ◌||◌, none, some,
  length, ltb, ◌==◌, arith, Bool-cases, Option-cases, inl, inr,
}
use pmemfile.HashMap.{
  HashMap, scan, no_memory, rebuild, first_empty, bucket_of, next_try, settle, Put, done, failed,
  out_of_fuel, put,
}
use pmemfile.HashMap.Contents.{IsValid, Draws, rand_params-some}
use pmemfile.HashMap.Insertion.{Rebuilt-cases, Scanned-cases, Outcome, put-Settled}

next_try-ne-none :
    (nrand48 : ℕ → ℕ × ℕ) (d fuel tries size : ℕ) (m : HashMap)
    → Draws nrand48 d
    → d ≤ fuel
    → next_try nrand48 fuel tries size m ≢ none
unfolding next_try
next_try-ne-none nrand48 d fuel tries size m draws u =
    let (i, l, h) = draws m.seed in
    let (m', r) = rand_params-some nrand48 i fuel m h (omega arith) in
    elim (Bool-cases (ltb (2 * size) m.entries || tries == 2)) [
      | inl e ↦ rw (e, next_try) (λ h. cc)
      | inr e ↦ rw (e, r, next_try) (λ h. cc)
    ]

next_try-some :
    (nrand48 : ℕ → ℕ × ℕ) (d fuel tries size : ℕ) (m : HashMap)
    → Draws nrand48 d
    → d ≤ fuel
    → (t : ℕ × ℕ × HashMap) × (next_try nrand48 fuel tries size m ≡ some t)
next_try-some nrand48 d fuel tries size m draws u =
    elim (Option-cases (next_try nrand48 fuel tries size m)) [
      | inl e ↦ absurd (next_try-ne-none nrand48 d fuel tries size m draws u e)
      | inr t ↦ t
    ]

rebuild_fails :
    (size : ℕ) (m : HashMap) (allocated : Bool)
    → allocated ≡ false
    → rebuild allocated size m ≡ no_memory
unfolding rebuild
rebuild_fails size m false h = refl
rebuild_fails size m true h = cc

module _ (nrand48 : ℕ → ℕ × ℕ) (allocated : ℕ → Bool) (n d : ℕ) (key value : ℕ) where
  settle_returns :
      Draws nrand48 d
      → allocated n ≡ false
      → (fuel k tries size : ℕ) (m : HashMap) → k ≤ n
      → n + d < fuel + k
      → settle nrand48 allocated key value (suc fuel) k tries size m ≢ out_of_fuel
  unfolding settle
  settle_returns draws fails zero k tries size m below enough = absurd (omega arith)
  settle_returns draws fails (suc fuel) k tries size m below enough =
      let ((t, sz, m1), e) = next_try-some nrand48 d (suc fuel) tries size m draws (omega arith) in
      elim (Rebuilt-cases (rebuild (allocated k) sz m1)) [
        | inl r ↦ rw (e, r, settle) (λ h. cc)
        | inr other ↦
            let later : k + 1 ≤ n = elim (dec_lt k n) [
              | yes p ↦ omega arith
              | no p ↦
                  let last : k ≡ n = omega arith in
                  let none_left = rebuild_fails sz m1 (allocated k) (ap allocated last ∙ fails) in
                  elim other [ inl c ↦ cc | inr (m2, c) ↦ cc ]
            ] in
            elim other [
              | inl c ↦
                  rw (e, c, settle)
                    (settle_returns draws fails fuel (k + 1) t sz m1 later (omega arith))
              | inr (m2, c) ↦ elim (Option-cases (first_empty 0 (bucket_of m2 key))) [
                | inl free ↦
                    rw (e, c, free, settle)
                      (settle_returns draws fails fuel (k + 1) t (length m2.buckets) m2 later
                        (omega arith))
                | inr (j, free) ↦ rw (e, c, free, settle) (λ h. cc)
              ]
            ]
      ]

  -- Where of each `d` draws of nrand48 in a row one is not 0 in its low 32 bits, and the allocation number n
  -- of a call fails, fuel of n + d + 2 is enough for hash_map_put: the call returns a value or reports the
  -- failure.
  pub put_returns :
      Draws nrand48 d
      → allocated n ≡ false
      → (m : HashMap) → put nrand48 allocated key value (n + d + 2) m ≢ out_of_fuel
  unfolding put
  put_returns draws fails m = elim (Scanned-cases (scan key 0 none (bucket_of m key))) [
    | inl (w, e) ↦ rw (e, put) (λ h. cc)
    | inr (o, e) ↦
        let two : suc (suc (n + d)) ≡ n + d + 2 = omega arith in
        elim (Option-cases o) [
          | inl f ↦
              rw (e, f, put)
                (subst
                  (λ k. settle nrand48 allocated key value k 0 0 (length m.buckets) m ≢ out_of_fuel)
                  two
                  (settle_returns draws fails (suc (n + d)) 0 0 (length m.buckets) m (omega arith)
                    (omega arith)))
          | inr (j, f) ↦ rw (e, f, put) (λ h. cc)
        ]
  ]

-- An outcome for which the fuel has not run out.
not_stuck :
    (key value : ℕ) (nonzero : key ≢ 0) (nonnull : value ≢ 0) (allocated : ℕ → Bool) (m : HashMap)
    (r : Put)
    → r ≢ out_of_fuel
    → Outcome key value nonzero nonnull Unit allocated m r
    → Outcome key value nonzero nonnull ⊥ allocated m r
not_stuck key value nonzero nonnull allocated m (done v m') h o = o
not_stuck key value nonzero nonnull allocated m (failed m') h o = o
not_stuck key value nonzero nonnull allocated m out_of_fuel h o = absurd (h refl)

pub put-Outcome :
    (key value : ℕ) (nonzero : key ≢ 0) (nonnull : value ≢ 0) (nrand48 : ℕ → ℕ × ℕ)
    (allocated : ℕ → Bool) (n d : ℕ) (m : HashMap)
    → Draws nrand48 d
    → allocated n ≡ false
    → IsValid m
    → Outcome key value nonzero nonnull ⊥ allocated m
        (put nrand48 allocated key value (n + d + 2) m)
put-Outcome key value nonzero nonnull nrand48 allocated n d m draws fails v =
    not_stuck key value nonzero nonnull allocated m _
      (put_returns nrand48 allocated n d key value draws fails m)
      (put-Settled key value nonzero nonnull nrand48 allocated (n + d + 2) m v)
