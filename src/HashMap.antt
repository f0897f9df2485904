-- ===== src/HashMap.antt =====
-- The hash map of open inodes (src/libpmemfile-posix/hash_map.c): buckets of two slots under a random
-- linear hash, rebuilt with new coefficients or twice the buckets when a key finds no slot.
-- A pointer is a number and NULL is 0; a slot is empty where its key is 0. `nbuckets` is the length of
-- the list of buckets. nrand48 is a parameter, from a seed to a value and the next seed, and
-- `allocated k` says whether the k-th calloc of a call returns memory.
pub mod Buckets
pub mod Rebuild
pub mod Contents
pub mod Insertion
pub mod Termination
pub mod Removal
mod Tests
use pmemfile.Prelude.{
  ℕ, zero, suc, ◌+◌, ◌-◌, ◌*◌, ◌%◌, ◌^◌, Bool, true, false, ◌||◌, Option, none, some, List, [], ◌∷◌,
  length, get_or, set, replicate, ltb, ◌==◌, if◌then◌else◌,
}

pub record Slot : Type 0 where
  pub key : ℕ
  pub value : ℕ

abbrev pub Bucket : Type 0
Bucket = List Slot

pub record HashMap : Type 0 where
  pub hash_fun_a : ℕ
  pub hash_fun_b : ℕ
  pub hash_fun_p : ℕ
  pub seed : ℕ
  pub buckets : List Bucket
  pub entries : ℕ

abbrev pub hash_p_coeff : ℕ
hash_p_coeff = 32212254719

abbrev pub empty_slot : Slot
empty_slot = record { key = 0; value = 0 }

abbrev pub empty_buckets : ℕ → List Bucket
empty_buckets n = replicate n (empty_slot ∷ empty_slot ∷ [])

-- The product and the sum wrap at 64 bits, before the remainder.
pub pf_hash : HashMap → ℕ → ℕ
pf_hash m key = (m.hash_fun_a * key + m.hash_fun_b) % 2 ^ 64 % m.hash_fun_p

pub index : HashMap → ℕ → ℕ → ℕ
unfolding pf_hash
index m n key = pf_hash m key % n

-- The loop of hash_map_get over one bucket.
pub find : ℕ → Bucket → ℕ
find key [] = 0
find key (s ∷ b) = if s.key == key then s.value else find key b

pub get : HashMap → ℕ → ℕ
unfolding index find
get m key = find key (get_or m.buckets (index m (length m.buckets) key) [])

-- The first slot of the bucket with an empty key takes the new one; `none` if there is none.
pub put_free : Slot → Bucket → Option Bucket
put_free new [] = none
put_free new (s ∷ b) =
    if s.key == 0
    then some (new ∷ b)
    else elim (put_free new b) [ none ↦ none | some b' ↦ some (s ∷ b') ]

-- One slot is copied to the buckets `new`; `none` is a conflict.
pub place : HashMap → Slot → List Bucket → Option (List Bucket)
unfolding index put_free
place m s new =
    let i = index m (length new) s.key in
    elim (put_free s (get_or new i [])) [ none ↦ none | some b ↦ some (set new i b) ]

pub place_bucket : HashMap → Bucket → List Bucket → Option (List Bucket)
unfolding place
place_bucket m [] new = some new
place_bucket m (s ∷ b) new = elim (s.key == 0) [
  | true ↦ place_bucket m b new
  | false ↦ elim (place m s new) [ none ↦ none | some new' ↦ place_bucket m b new' ]
]

pub place_all : HashMap → List Bucket → List Bucket → Option (List Bucket)
unfolding place_bucket
place_all m [] new = some new
place_all m (b ∷ bs) new = elim (place_bucket m b new) [
  | none ↦ none
  | some new' ↦ place_all m bs new'
]

pub data Rebuilt : Type 0 where
  rebuilt : HashMap → Rebuilt
  conflict no_memory : Rebuilt

pub rebuild : Bool → ℕ → HashMap → Rebuilt
unfolding place_all
rebuild allocated size m =
    if allocated
    then elim (place_all m m.buckets (empty_buckets size)) [
      | none ↦ conflict
      | some new ↦ rebuilt (record m { buckets = new })
    ]
    else no_memory

-- The loop of hash_map_remove over one bucket: it goes by the value alone.
pub clear_value : ℕ → Bucket → Option Bucket
clear_value value [] = none
clear_value value (s ∷ b) =
    if s.value == value
    then some (empty_slot ∷ b)
    else elim (clear_value value b) [ none ↦ none | some b' ↦ some (s ∷ b') ]

-- `none` is -ENOENT.
pub remove : HashMap → ℕ → ℕ → Option HashMap
unfolding index clear_value
remove m key value =
    let i = index m (length m.buckets) key in
    elim (clear_value value (get_or m.buckets i [])) [
      | none ↦ none
      | some b ↦ some (record m { buckets = set m.buckets i b; entries = m.entries - 1 })
    ]

-- What the first loop of hash_map_put finds: the value of the key, or the first empty slot, if any.
pub data Scanned : Type 0 where
  existing : ℕ → Scanned
  free_slot : Option ℕ → Scanned

pub first_of : Option ℕ → Option ℕ → Option ℕ
first_of none o = o
first_of (some i) o = some i

pub scan : ℕ → ℕ → Option ℕ → Bucket → Scanned
unfolding first_of
scan key j empty [] = free_slot empty
scan key j empty (s ∷ b) =
    if s.key == key
    then existing s.value
    else scan key (j + 1) (first_of empty (if s.key == 0 then some j else none)) b

-- The search for an empty slot after a rebuild.
pub first_empty : ℕ → Bucket → Option ℕ
first_empty j [] = none
first_empty j (s ∷ b) = if s.key == 0 then some j else first_empty (j + 1) b

pub bucket_of : HashMap → ℕ → Bucket
unfolding index
bucket_of m key = get_or m.buckets (index m (length m.buckets) key) []

-- The key and the value go to slot j of the key's bucket.
pub write : HashMap → ℕ → ℕ → ℕ → HashMap
unfolding index bucket_of
write m key value j =
    let i = index m (length m.buckets) key in
    record m {
      buckets = set m.buckets i (set (bucket_of m key) j (record { key = key; value = value }));
      entries = m.entries + 1;
    }

-- `failed` is NULL with an error number.
pub data Put : Type 0 where
  done : ℕ → HashMap → Put
  failed : HashMap → Put
  out_of_fuel : Put

-- The structure as calloc gives it, with two buckets.
abbrev pub zeroed : ℕ → HashMap
zeroed seed = record {
  hash_fun_a = 0;
  hash_fun_b = 0;
  hash_fun_p = 0;
  seed = seed;
  buckets = empty_buckets 2;
  entries = 0;
}

module _ (nrand48 : ℕ → ℕ × ℕ) where
  -- The `do … while` for a non-zero coefficient, on fuel, then the second coefficient.
  pub rand_params : ℕ → HashMap → Option HashMap
  rand_params zero m = none
  rand_params (suc fuel) m =
      let (r, seed) = nrand48 m.seed in
      let (b, seed') = nrand48 seed in
      elim (r % 2 ^ 32 == 0) [
        | true ↦ rand_params fuel (record m { hash_fun_a = 0; seed = seed })
        | false ↦ some (record m { hash_fun_a = r % 2 ^ 32; hash_fun_b = b % 2 ^ 32; seed = seed' })
      ]

  -- hash_map_alloc; either allocation may fail, which gives NULL.
  pub alloc : ℕ → ℕ → Bool → Option HashMap
  unfolding rand_params
  alloc fuel seed allocated =
      if allocated
      then elim (rand_params fuel (zeroed seed)) [
        | none ↦ none
        | some m ↦ some (record m { hash_fun_p = hash_p_coeff })
      ]
      else none

  -- What the inner loop of hash_map_put tries next: new coefficients twice for each size, and then
  -- twice the buckets, or at once where the map holds more entries than slots.
  pub next_try : ℕ → ℕ → ℕ → HashMap → Option (ℕ × ℕ × HashMap)
  unfolding rand_params
  next_try fuel tries size m =
      if ltb (2 * size) m.entries || tries == 2
      then some (0, size * 2, m)
      else elim (rand_params fuel m) [ none ↦ none | some m' ↦ some (tries + 1, size, m') ]

  module _ (allocated : ℕ → Bool) (key value : ℕ) where
    -- Both loops: `k` counts the allocations made, `fuel` bounds the tries still to make.
    pub settle : (fuel k tries size : ℕ) → HashMap → Put
    unfolding next_try rebuild first_empty bucket_of write
    settle zero k tries size m = out_of_fuel
    settle (suc fuel) k tries size m = elim (next_try fuel tries size m) [
      | none ↦ out_of_fuel
      | some (tries', size', m') ↦ elim (rebuild (allocated k) size' m') [
        | no_memory ↦ failed m'
        | conflict ↦ settle fuel (k + 1) tries' size' m'
        | rebuilt m'' ↦ elim (first_empty 0 (bucket_of m'' key)) [
          | some j ↦ done value (write m'' key value j)
          | none ↦ settle fuel (k + 1) tries' (length m''.buckets) m''
        ]
      ]
    ]

    pub put : ℕ → HashMap → Put
    unfolding settle scan bucket_of write
    put fuel m = elim (scan key 0 none (bucket_of m key)) [
      | existing v ↦ done v m
      | free_slot (some j) ↦ done value (write m key value j)
      | free_slot none ↦ settle fuel 0 0 (length m.buckets) m
    ]
