-- ===== src/HashMap/Insertion.antt =====
-- Insertion (hash_map.c, hash_map_put): on every way through its loops.
use mathlib.Core.Path.{subst}
use mathlib.Core.Option.{some-injective}
use pmemfile.Prelude.{
  ℕ, zero, suc, ◌+◌, ◌-◌, ◌*◌, ◌%◌, ◌^◌, ◌<◌, ◌≡◌, ◌≢◌, ◌∙◌, ap, sym, refl, Bool, true, false, ◌||◌,
  Option, none, some, length, ltb, ◌==◌, if◌then◌else◌, arith, Bool-cases, Option-cases, inl, inr,
  ◌⊎◌,
}
use pmemfile.HashMap.{
  HashMap, Slot, empty_buckets, place_all, index, get, Rebuilt, Scanned, existing, free_slot, scan,
  rebuilt, conflict, no_memory, rebuild, first_empty, bucket_of, write, rand_params, next_try,
  settle, Put, done, failed, out_of_fuel, put,
}
use pmemfile.HashMap.Buckets.{
  first_empty-put_free, put_free-Stores, find_absent, scan-existing, scan-free,
}
use pmemfile.HashMap.Rebuild.{set-Adds}
use pmemfile.HashMap.Contents.{Contains, IsValid, IsValid-Contains, Rebuilds, rebuild-Rebuilds}

-- The map m' is well formed, holds f but the value at the key, and counts n + 1 entries.
pub record Puts (f : ℕ → ℕ) (key value n : ℕ) (m' : HashMap) : Type 0 where
  pub valid : IsValid m'
  pub reads : (q : ℕ) → q ≢ 0 → get m' q ≡ (if key == q then value else f q)
  pub entries : m'.entries ≡ n + 1

-- The contents, and the number of entries, stay while the coefficients change.
record Keeps (f : ℕ → ℕ) (n : ℕ) (m : HashMap) : Type 0 where
  contents : Contains f m
  entries : m.entries ≡ n

rand_params-Keeps :
    (nrand48 : ℕ → ℕ × ℕ) (f : ℕ → ℕ) (n fuel : ℕ) (m m' : HashMap)
    → Keeps f n m
    → rand_params nrand48 fuel m ≡ some m'
    → Keeps f n m'
unfolding rand_params
rand_params-Keeps nrand48 f n zero m m' k h = cc
rand_params-Keeps nrand48 f n (suc fuel) m m' k h =
    let c = k.contents in
    elim (Bool-cases ((nrand48 m.seed).0 % 2 ^ 32 == 0)) [
      | inl e ↦
          rand_params-Keeps nrand48 f n fuel _ m'
            (record {
              contents = record {
                roomy = c.roomy;
                once = c.once;
                holds = c.holds;
                nonnull = c.nonnull;
                counted = c.counted;
              };
              entries = k.entries;
            })
            (rw (e, rand_params) at h)
      | inr e ↦ subst (Keeps f n) (some-injective _ _ (rw (e, rand_params) at h)) (record {
        contents = record {
          roomy = c.roomy;
          once = c.once;
          holds = c.holds;
          nonnull = c.nonnull;
          counted = c.counted;
        };
        entries = k.entries;
      })
    ]

next_try-Keeps :
    (nrand48 : ℕ → ℕ × ℕ) (f : ℕ → ℕ) (n fuel tries size : ℕ) (m : HashMap) (tries' size' : ℕ)
    (m' : HashMap)
    → Keeps f n m
    → 0 < size
    → next_try nrand48 fuel tries size m ≡ some (tries', size', m')
    → Keeps f n m' × (0 < size')
unfolding next_try
next_try-Keeps nrand48 f n fuel tries size m tries' size' m' k pos h =
    elim (Bool-cases (ltb (2 * size) m.entries || tries == 2)) [
      | inl e ↦
          let same : (0, size * 2, m) ≡ (tries', size', m') =
            some-injective _ _ (rw (e, next_try) at h) in
          (subst (Keeps f n) (ap (λ t. t.2) same) k, omega (arith, ap (λ t. t.1) same))
      | inr e ↦ elim (Option-cases (rand_params nrand48 fuel m)) [
        | inl r ↦ cc (rw (e, r, next_try) at h)
        | inr (m1, r) ↦
            let same : (tries + 1, size, m1) ≡ (tries', size', m') =
              some-injective _ _ (rw (e, r, next_try) at h) in
            (
              subst (Keeps f n) (ap (λ t. t.2) same) (rand_params-Keeps nrand48 f n fuel m m1 k r),
              omega (arith, ap (λ t. t.1) same),
            )
      ]
    ]

Rebuilds-Keeps :
    (f : ℕ → ℕ) (n size : ℕ) (m m' : HashMap) → Rebuilds f size m m' → m.entries ≡ n → Keeps f n m'
Rebuilds-Keeps f n size m m' b h =
    let c = IsValid-Contains m' b.valid in
    record {
      contents = record {
        roomy = c.roomy;
        once = c.once;
        holds = λ q z. c.holds q z ∙ b.reads q z;
        nonnull = λ q z e. c.nonnull q z (b.reads q z ∙ e);
        counted = c.counted;
      };
      entries = b.entries ∙ h;
    }

pub Rebuilt-cases :
    (r : Rebuilt) → (r ≡ no_memory) ⊎ ((r ≡ conflict) ⊎ ((m : HashMap) × (r ≡ rebuilt m)))
Rebuilt-cases no_memory = inl refl
Rebuilt-cases conflict = inr (inl refl)
Rebuilt-cases (rebuilt m) = inr (inr (m, refl))

pub Scanned-cases :
    (r : Scanned) → ((v : ℕ) × (r ≡ existing v)) ⊎ ((o : Option ℕ) × (r ≡ free_slot o))
Scanned-cases (existing v) = inl (v, refl)
Scanned-cases (free_slot o) = inr (o, refl)

rebuild-no_memory :
    (allocated : Bool) (size : ℕ) (m : HashMap)
    → rebuild allocated size m ≡ no_memory
    → allocated ≡ false
unfolding rebuild
rebuild-no_memory false size m h = refl
rebuild-no_memory true size m h = elim (Option-cases (place_all m m.buckets (empty_buckets size))) [
  | inl e ↦ cc (rw (e, rebuild) at h)
  | inr (new, e) ↦ cc (rw (e, rebuild) at h)
]

module _ (key value : ℕ) (nonzero : key ≢ 0) (nonnull : value ≢ 0) where
  write-Puts :
      (m : HashMap) (j : ℕ)
      → IsValid m
      → get m key ≡ 0
      → first_empty 0 (bucket_of m key) ≡ some j
      → Puts (get m) key value m.entries (write m key value j)
  unfolding write bucket_of get index
  write-Puts m j v absent free =
      let new : Slot = record { key = key; value = value } in
      let spot : j - 0 ≡ j = omega arith in
      let stored = rw spot at ((first_empty-put_free new 0 (bucket_of m key) j free).1) in
      let t =
        set-Adds m new m.buckets _ v.roomy v.placed nonzero (v.nonnull key nonzero absent)
          (put_free-Stores new _ _ stored) in
      record {
        valid = record {
          roomy = rw t.width v.roomy;
          placed = record { at_home = t.placed.at_home; once = t.placed.once };
          nonnull = λ q n z. ground (arith, t.reads q n, t.counts q n, v.nonnull q n);
          counted = omega (arith, t.fills, v.counted);
        };
        reads = t.reads;
        entries = refl;
      }

  -- What the loops of hash_map_put come to: the value is stored; or an allocation failed, and then the
  -- slots still hold what they held, where the hash function need no longer find it; or, where that is
  -- allowed, the fuel is used up.
  abbrev pub Settled : Type 0 → (ℕ → Bool) → (ℕ → ℕ) → ℕ → Put → Type 0
  Settled stuck allocated f n (done v m') = (v ≡ value) × Puts f key value n m'
  Settled stuck allocated f n (failed m') = Contains f m' × (j : ℕ) × (allocated j ≡ false)
  Settled stuck allocated f n out_of_fuel = stuck

  settle-Settled :
      (nrand48 : ℕ → ℕ × ℕ) (allocated : ℕ → Bool) (f : ℕ → ℕ) (n : ℕ)
      → f key ≡ 0
      → (fuel k tries size : ℕ) (m : HashMap) → Keeps f n m
      → 0 < size
      → Settled Unit allocated f n (settle nrand48 allocated key value fuel k tries size m)
  unfolding settle
  settle-Settled nrand48 allocated f n absent zero k tries size m keeps pos = tt
  settle-Settled nrand48 allocated f n absent (suc fuel) k tries size m keeps pos =
      elim (Option-cases (next_try nrand48 fuel tries size m)) [
        | inl e ↦ rw (e, settle) tt
        | inr ((t, sz, m1), e) ↦
            let (keeps1, pos1) = next_try-Keeps nrand48 f n fuel tries size m t sz m1 keeps pos e in
            elim (Rebuilt-cases (rebuild (allocated k) sz m1)) [
              | inl r ↦
                  rw (e, r, settle) (keeps1.contents, k, rebuild-no_memory (allocated k) sz m1 r)
              | inr (inl r) ↦
                  rw (e, r, settle)
                    (settle-Settled nrand48 allocated f n absent fuel (k + 1) t sz m1 keeps1 pos1)
              | inr (inr (m2, r)) ↦
                  let b = rebuild-Rebuilds f (allocated k) sz m1 m2 keeps1.contents pos1 r in
                  let back = Rebuilds-Keeps f n sz m1 m2 b keeps1.entries in
                  elim (Option-cases (first_empty 0 (bucket_of m2 key))) [
                    | inl free ↦
                        rw (e, r, free, settle)
                          (settle-Settled nrand48 allocated f n absent fuel (k + 1) t
                            (length m2.buckets) m2 back b.valid.roomy)
                    | inr (j, free) ↦
                        let p = write-Puts m2 j b.valid (b.reads key nonzero ∙ absent) free in
                        rw (e, r, free, settle)
                          (
                            refl,
                            record {
                              valid = p.valid;
                              reads = λ q z. ground (arith, p.reads q z, b.reads q z);
                              entries = omega (arith, p.entries, back.entries);
                            },
                          )
                  ]
            ]
      ]

  -- What hash_map_put comes to, when the key is in the map, and when it is not.
  abbrev pub Outcome : Type 0 → (ℕ → Bool) → HashMap → Put → Type 0
  Outcome stuck allocated m r =
      if get m key == 0 then Settled stuck allocated (get m) m.entries r else r ≡ done (get m key) m

  pub put-Settled :
      (nrand48 : ℕ → ℕ × ℕ) (allocated : ℕ → Bool) (fuel : ℕ) (m : HashMap)
      → IsValid m
      → Outcome Unit allocated m (put nrand48 allocated key value fuel m)
  unfolding put bucket_of get
  put-Settled nrand48 allocated fuel m v =
      elim (Scanned-cases (scan key 0 none (bucket_of m key))) [
        | inl (w, e) ↦
            let (same, more) = scan-existing key 0 none (bucket_of m key) w e in
            let there : (get m key == 0) ≡ false =
              ground (arith, v.nonnull key nonzero, v.placed.at_home key nonzero) in
            rw (there, e, put) (ap (λ x. done x m) same)
        | inr (o, e) ↦
            let (same, absent) = scan-free key 0 none (bucket_of m key) o e in
            let missing : get m key ≡ 0 = find_absent key (bucket_of m key) absent in
            let not_there : (get m key == 0) ≡ true = ground arith in
            elim (Option-cases o) [
              | inl f ↦
                  rw (not_there, e, f, put)
                    (settle-Settled nrand48 allocated (get m) m.entries missing fuel 0 0
                      (length m.buckets) m
                      (record { contents = IsValid-Contains m v; entries = refl }) v.roomy)
              | inr (j, f) ↦
                  rw (not_there, e, f, put) (refl, write-Puts m j v missing (sym same ∙ f))
            ]
      ]
