-- ===== src/HashMap/Contents.antt =====
-- What the map holds, as a function from keys to values, and what a rebuild does to it (hash_map.c).
use mathlib.Core.Path.{subst}
use mathlib.Core.List.{flatten}
use mathlib.Core.Option.{some-injective}
use pmemfile.Prelude.{
  ℕ, zero, suc, ◌%◌, ◌^◌, ◌≤◌, ◌<◌, ◌≡◌, ◌≢◌, ◌∙◌, ap, sym, refl, Bool, true, false, some, [], ◌∷◌,
  length, get_or, length-replicate, if◌then◌else◌, none, ◌==◌, arith, Bool-cases, Option-cases, inl,
  inr,
}
use pmemfile.HashMap.{
  HashMap, hash_p_coeff, empty_slot, empty_buckets, index, find, get, place_all, rebuilt, rebuild,
  rand_params, zeroed, alloc,
}
use pmemfile.HashMap.Buckets.{count, used, count_all, used_all, find_absent}
use pmemfile.HashMap.Rebuild.{
  home, IsPlaced, place_bucket-Moves, place_all-flatten, count-flatten, used-flatten, find-flatten,
}

-- The slots of the map hold the values f, wherever they stand: each key once at most, none with NULL.
pub record Contains (f : ℕ → ℕ) (m : HashMap) : Type 0 where
  pub roomy : 0 < length m.buckets
  pub once : (q : ℕ) → q ≢ 0 → count_all q m.buckets ≤ 1
  pub holds : (q : ℕ) → q ≢ 0 → find q (flatten m.buckets) ≡ f q
  pub nonnull : (q : ℕ) → q ≢ 0 → f q ≡ 0 → count_all q m.buckets ≡ 0
  pub counted : m.entries ≡ used_all m.buckets

-- The map is well formed: keys stand where the hash function looks for them, once at most, none with
-- NULL, and `entries` counts them.
pub record IsValid (m : HashMap) : Type 0 where
  pub roomy : 0 < length m.buckets
  pub placed : IsPlaced m m.buckets
  pub nonnull : (q : ℕ) → q ≢ 0 → get m q ≡ 0 → count_all q m.buckets ≡ 0
  pub counted : m.entries ≡ used_all m.buckets

pub IsValid-Contains : (m : HashMap) → IsValid m → Contains (get m) m
unfolding get
IsValid-Contains m v = record {
  roomy = v.roomy;
  once = v.placed.once;
  holds = λ q n. find-flatten q m.buckets _ (v.placed.at_home q n);
  nonnull = v.nonnull;
  counted = v.counted;
}

count-empty_buckets : (q n : ℕ) → q ≢ 0 → count_all q (empty_buckets n) ≡ 0
unfolding count_all count
count-empty_buckets q zero h = refl
count-empty_buckets q (suc n) h = ground (arith, count-empty_buckets q n h)

used-empty_buckets : (n : ℕ) → used_all (empty_buckets n) ≡ 0
unfolding used_all used
used-empty_buckets zero = refl
used-empty_buckets (suc n) = omega (arith, used-empty_buckets n)

get_or-empty_buckets : (q n i : ℕ) → q ≢ 0 → count q (get_or (empty_buckets n) i []) ≡ 0
unfolding count
get_or-empty_buckets q zero i h = refl
get_or-empty_buckets q (suc n) zero h = ground arith
get_or-empty_buckets q (suc n) (suc i) h = get_or-empty_buckets q n i h

empty_buckets-IsPlaced : (m : HashMap) (n : ℕ) → IsPlaced m (empty_buckets n)
empty_buckets-IsPlaced m n = record {
  at_home = λ q h. get_or-empty_buckets q n _ h ∙ sym (count-empty_buckets q n h);
  once = λ q h. omega (arith, count-empty_buckets q n h);
}

-- A well-formed map of the given size with the contents f.
pub record Rebuilds (f : ℕ → ℕ) (size : ℕ) (m m' : HashMap) : Type 0 where
  pub valid : IsValid m'
  pub reads : (q : ℕ) → q ≢ 0 → get m' q ≡ f q
  pub width : length m'.buckets ≡ size
  pub entries : m'.entries ≡ m.entries

-- A rebuild that succeeds makes a well-formed map of the size asked for with the same contents, from
-- buckets that the hash function need not fit.
pub rebuild-Rebuilds :
    (f : ℕ → ℕ) (allocated : Bool) (size : ℕ) (m m' : HashMap)
    → Contains f m
    → 0 < size
    → rebuild allocated size m ≡ rebuilt m'
    → Rebuilds f size m m'
unfolding rebuild get index
rebuild-Rebuilds f false size m m' c pos h = cc
rebuild-Rebuilds f true size m m' c pos h =
    elim (Option-cases (place_all m m.buckets (empty_buckets size))) [
      | inl e ↦ cc (rw (e, rebuild) at h)
      | inr (new, e) ↦
          let fresh = length-replicate size (empty_slot ∷ empty_slot ∷ []) in
          let all = flatten m.buckets in
          let t =
            place_bucket-Moves m all (empty_buckets size) new (rw fresh pos)
              (empty_buckets-IsPlaced m size)
              (λ q n.
                omega (arith, count-empty_buckets q size n, count-flatten q m.buckets, c.once q n))
              (sym (place_all-flatten m m.buckets (empty_buckets size)) ∙ e) in
          let missing = (λ (q : ℕ) (n : q ≢ 0).
            find_absent q (home m (empty_buckets size) q) (get_or-empty_buckets q size _ n)) in
          let reads = (λ (q : ℕ) (n : q ≢ 0).
            let same : find q (home m new q) ≡ f q =
              ground (arith, t.reads q n, missing q n, find_absent q all, c.holds q n) in
            same) in
          let total = (λ (q : ℕ) (n : q ≢ 0).
            let same : count_all q new ≡ count_all q m.buckets =
              omega
                (arith, t.counts q n, count-empty_buckets q size n, count-flatten q m.buckets) in
            same) in
          let made : HashMap = record m { buckets = new } in
          let same : made ≡ m' = cc (rw (e, rebuild) at h) in
          subst (Rebuilds f size m) same (record {
            valid = record {
              roomy = omega (arith, t.width, fresh);
              placed = record { at_home = t.placed.at_home; once = t.placed.once };
              nonnull = λ q n z. total q n ∙ c.nonnull q n (sym (reads q n) ∙ z);
              counted =
                  omega
                    (arith, t.fills, used-empty_buckets size, used-flatten m.buckets, c.counted);
            };
            reads = reads;
            width = t.width ∙ fresh;
            entries = refl;
          })
    ]

-- What is left of a seed after some draws.
unfoldable pub after : (ℕ → ℕ × ℕ) → ℕ → ℕ → ℕ
after nrand48 zero seed = seed
after nrand48 (suc i) seed = after nrand48 i (nrand48 seed).1

-- Of each `d` draws in a row one at least is not 0 in its low 32 bits.
abbrev pub Draws : (ℕ → ℕ × ℕ) → ℕ → Type 0
Draws nrand48 d = (seed : ℕ) → (i : ℕ) × (i < d) × ((nrand48 (after nrand48 i seed)).0 % 2 ^ 32 ≢ 0)

-- Then so many turns of the loop for a coefficient are enough.
pub rand_params-some :
    (nrand48 : ℕ → ℕ × ℕ) (i fuel : ℕ) (m : HashMap)
    → (nrand48 (after nrand48 i m.seed)).0 % 2 ^ 32 ≢ 0
    → i < fuel
    → (m' : HashMap) × (rand_params nrand48 fuel m ≡ some m')
unfolding rand_params after
rand_params-some nrand48 i zero m h l = absurd (omega arith)
rand_params-some nrand48 zero (suc fuel) m h l =
    let nonzero : ((nrand48 m.seed).0 % 2 ^ 32 == 0) ≡ false = ground arith in
    rw (nonzero, rand_params) (_, refl)
rand_params-some nrand48 (suc i) (suc fuel) m h l =
    elim (Bool-cases ((nrand48 m.seed).0 % 2 ^ 32 == 0)) [
      | inl e ↦
          rw (e, rand_params)
            (rand_params-some nrand48 i fuel
              (record m { hash_fun_a = 0; seed = (nrand48 m.seed).1 }) h (omega arith))
      | inr e ↦ rw (e, rand_params) (_, refl)
    ]

-- What the loop leaves.
record Drawn (m m' : HashMap) : Type 0 where
  same_buckets : m'.buckets ≡ m.buckets
  same_entries : m'.entries ≡ m.entries
  some_a : m'.hash_fun_a ≢ 0
  a_word : m'.hash_fun_a < 2 ^ 32
  b_word : m'.hash_fun_b < 2 ^ 32

rand_params-Drawn :
    (nrand48 : ℕ → ℕ × ℕ) (fuel : ℕ) (m m' : HashMap)
    → rand_params nrand48 fuel m ≡ some m'
    → Drawn m m'
unfolding rand_params
rand_params-Drawn nrand48 zero m m' h = cc
rand_params-Drawn nrand48 (suc fuel) m m' h = elim (Bool-cases ((nrand48 m.seed).0 % 2 ^ 32 == 0)) [
  | inl e ↦
      let d = rand_params-Drawn nrand48 fuel _ m' (rw (e, rand_params) at h) in
      record {
        same_buckets = d.same_buckets;
        same_entries = d.same_entries;
        some_a = d.some_a;
        a_word = d.a_word;
        b_word = d.b_word;
      }
  | inr e ↦ subst (Drawn m) (some-injective _ _ (rw (e, rand_params) at h)) (record {
    same_buckets = refl;
    same_entries = refl;
    some_a = ground arith;
    a_word = omega arith;
    b_word = omega arith;
  })
]

-- A new map is well formed and holds nothing, and its hash function has the modulus and coefficients of 32
-- bits, the first not 0.
pub record Allocates (m : HashMap) : Type 0 where
  pub valid : IsValid m
  pub nothing : (q : ℕ) → q ≢ 0 → get m q ≡ 0
  pub no_entries : m.entries ≡ 0
  pub modulus : m.hash_fun_p ≡ hash_p_coeff
  pub some_a : m.hash_fun_a ≢ 0
  pub a_word : m.hash_fun_a < 2 ^ 32
  pub b_word : m.hash_fun_b < 2 ^ 32

alloc-IsValid :
    (nrand48 : ℕ → ℕ × ℕ) (fuel seed : ℕ) (allocated : Bool) (m : HashMap)
    → alloc nrand48 fuel seed allocated ≡ some m
    → Allocates m
unfolding alloc get
alloc-IsValid nrand48 fuel seed false m h = cc
alloc-IsValid nrand48 fuel seed true m h =
    elim (Option-cases (rand_params nrand48 fuel (zeroed seed))) [
      | inl e ↦ cc (rw (e, alloc) at h)
      | inr (m1, e) ↦
          let drawn = rand_params-Drawn nrand48 fuel (zeroed seed) m1 e in
          let is_m = some-injective _ _ (rw (e, alloc) at h) in
          let buckets : m.buckets ≡ empty_buckets 2 =
            sym (ap (λ (x : HashMap). x.buckets) is_m) ∙ drawn.same_buckets in
          let entries : m.entries ≡ 0 =
            sym (ap (λ (x : HashMap). x.entries) is_m) ∙ drawn.same_entries in
          let nothing = (λ (q : ℕ) (n : q ≢ 0).
            let absent : get m q ≡ 0 =
              rw buckets (find_absent q _ (get_or-empty_buckets q 2 _ n)) in
            absent) in
          record {
            valid = record {
              roomy = rw buckets (omega arith);
              placed = subst (IsPlaced m) (sym buckets) (empty_buckets-IsPlaced m 2);
              nonnull = λ q n _. rw buckets (count-empty_buckets q 2 n);
              counted = rw buckets (entries ∙ sym (used-empty_buckets 2));
            };
            nothing = nothing;
            no_entries = entries;
            modulus = sym (ap (λ (x : HashMap). x.hash_fun_p) is_m);
            some_a = subst (λ (x : HashMap). x.hash_fun_a ≢ 0) is_m drawn.some_a;
            a_word = subst (λ (x : HashMap). x.hash_fun_a < 2 ^ 32) is_m drawn.a_word;
            b_word = subst (λ (x : HashMap). x.hash_fun_b < 2 ^ 32) is_m drawn.b_word;
          }
    ]

alloc-some :
    (nrand48 : ℕ → ℕ × ℕ) (fuel seed : ℕ) (allocated : Bool) (m : HashMap)
    → rand_params nrand48 fuel (zeroed seed) ≡ some m
    → alloc nrand48 fuel seed allocated
      ≡ (if allocated then some (record m { hash_fun_p = hash_p_coeff }) else none)
unfolding alloc
alloc-some nrand48 fuel seed true m e = rw (e, alloc) refl
alloc-some nrand48 fuel seed false m e = refl

-- Where of each `d` draws of nrand48 in a row one is not 0 in its low 32 bits, hash_map_alloc ends with `d`
-- turns of its loop. If its allocations succeed it gives a well-formed map that holds nothing and counts
-- no entry, with the modulus of the hash function set, a first coefficient other than 0 and both of 32
-- bits; if one fails it gives NULL.
pub alloc-Allocates :
    (nrand48 : ℕ → ℕ × ℕ) (d : ℕ)
    → Draws nrand48 d
    → (seed : ℕ) (allocated : Bool)
    → (m : HashMap) × (alloc nrand48 d seed allocated ≡ (if allocated then some m else none))
      × Allocates m
alloc-Allocates nrand48 d draws seed allocated =
    let (i, l, h) = draws seed in
    let (m, e) = rand_params-some nrand48 i d (zeroed seed) h l in
    let made : HashMap = record m { hash_fun_p = hash_p_coeff } in
    (
      made,
      alloc-some nrand48 d seed allocated m e,
      alloc-IsValid nrand48 d seed true made (alloc-some nrand48 d seed true m e),
    )
