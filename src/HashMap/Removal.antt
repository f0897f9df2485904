-- ===== src/HashMap/Removal.antt =====
-- Removal (hash_map.c, hash_map_remove), which finds the slot by the value.
use pmemfile.Prelude.{
  ℕ, ◌+◌, ◌-◌, ◌≤◌, ◌<◌, ◌≡◌, ◌≢◌, sym, refl, true, false, some, [], ◌∷◌, length, set, get_or-set,
  length-set, ◌==◌, if◌then◌else◌, arith, Bool-cases, inl, inr, ◌⊎◌,
}
use pmemfile.HashMap.{HashMap, Bucket, empty_slot, index, find, get, clear_value, remove}
use pmemfile.HashMap.Buckets.{count, used, count_all-set, used_all-set, find_absent}
use pmemfile.HashMap.Rebuild.{home, index-lt}
use pmemfile.HashMap.Contents.{IsValid}

-- The value stands under the key only, in this bucket.
abbrev pub OnlyAt : ℕ → ℕ → Bucket → Type 0
OnlyAt key value [] = Unit
OnlyAt key value (s ∷ b) = (s.value ≢ value ⊎ s.key ≡ key) × OnlyAt key value b

-- The bucket b' is b without the key.
record Clears (key : ℕ) (b b' : Bucket) : Type 0 where
  counts : (q : ℕ) → q ≢ 0 → count q b' + (if key == q then 1 else 0) ≡ count q b
  reads : (q : ℕ) → q ≢ 0 → find q b' ≡ (if key == q then 0 else find q b)
  frees : used b' + 1 ≡ used b

clear_value-Clears :
    (key value : ℕ) (b : Bucket)
    → key ≢ 0
    → value ≢ 0
    → OnlyAt key value b
    → find key b ≡ value
    → count key b ≤ 1
    → (b' : Bucket) × (clear_value value b ≡ some b') × Clears key b b'
unfolding clear_value find count used
clear_value-Clears key value [] nz nn only here once = absurd (nn (sym here))
clear_value-Clears key value (s ∷ b) nz nn only here once = elim (Bool-cases (s.key == key)) [
  | inl e ↦
      let found : (s.value == value) ≡ true = ground arith in
      let gone = find_absent key b (ground arith) in
      (
        empty_slot ∷ b,
        rw (found, clear_value) refl,
        record {
          counts = λ q n. ground arith;
          reads = λ q n. ground (arith, gone);
          frees = ground arith;
        },
      )
  | inr other ↦
      let missed : (s.value == value) ≡ false = ground (arith, only.0) in
      let (b', run, t) =
        clear_value-Clears key value b nz nn only.1 (ground arith) (ground arith) in
      (
        s ∷ b',
        rw (missed, run, clear_value) refl,
        record {
          counts = λ q n. omega (arith, t.counts q n);
          reads = λ q n. ground (arith, t.reads q n);
          frees = omega (arith, t.frees);
        },
      )
]

-- The map m' is well formed and holds what m holds, but nothing at the key.
pub record Removes (key : ℕ) (m m' : HashMap) : Type 0 where
  pub valid : IsValid m'
  pub reads : (q : ℕ) → q ≢ 0 → get m' q ≡ (if key == q then 0 else get m q)
  pub entries : m'.entries + 1 ≡ m.entries

-- Removing a key with the value that the map holds for it succeeds in a well-formed map, if no other key of its
-- bucket has the same value: the map stays well formed, reads as NULL at the key and as before at
-- all other keys, and counts one entry less.
pub remove-Removes :
    (m : HashMap) (key : ℕ)
    → IsValid m
    → key ≢ 0
    → get m key ≢ 0
    → OnlyAt key (get m key) (home m m.buckets key)
    → (m' : HashMap) × (remove m key (get m key) ≡ some m') × Removes key m m'
unfolding remove get index
remove-Removes m key v nz there only =
    let i = index m (length m.buckets) key in
    let inside : i < length m.buckets = index-lt m (length m.buckets) key v.roomy in
    let b = home m m.buckets key in
    let (b', run, t) =
      clear_value-Clears key (get m key) b nz there only refl
        (omega (arith, v.placed.at_home key nz, v.placed.once key nz)) in
    let total = (λ (q : ℕ). count_all-set q m.buckets i b' inside) in
    (
      record m { buckets = set m.buckets i b'; entries = m.entries - 1 },
      rw (run, remove) refl,
      record {
        valid = record {
          roomy = rw length-set v.roomy;
          placed = record {
            at_home = λ q n.
                rw (length-set, get_or-set, inside)
                  (ground (arith, total q, t.counts q n, v.placed.at_home q n));
            once = λ q n. omega (arith, total q, t.counts q n, v.placed.once q n);
          };
          nonnull = λ q n z. ground (
            arith,
            total q,
            t.counts q n,
            t.reads q n,
            v.nonnull q n,
            v.placed.once q n,
            v.placed.at_home q n,
            rw (length-set, get_or-set, inside) at z,
          );
          counted = omega (arith, used_all-set m.buckets i b' inside, t.frees, v.counted);
        };
        reads = λ q n. rw (length-set, get_or-set, inside) (ground (arith, t.reads q n));
        entries = omega (arith, used_all-set m.buckets i b' inside, t.frees, v.counted);
      },
    )
