-- ===== src/OffsetMap/Calls/Remove.antt =====
-- Removing a block (offset_mapping.c, remove_block).
use pmemfile.Prelude.{
  ℕ, zero, suc, ◌+◌, ◌-◌, ◌%◌, ◌≤◌, ◌<◌, ◌≡◌, ◌≢◌, ◌∙◌, ◌⊎◌, refl, sym, Bool, true, false, none,
  some, ltb, leb, arith, Bool-cases, inl, inr,
}
use pmemfile.Run.{Run, ok, fault, ◌>>=◌}
use pmemfile.OffsetMap.{
  Entry, leaf, node, Entries, nil, cons, n_children, min_block_size, OffsetMap, width, all_null,
  check_and_free_range, Updated,
}
use pmemfile.OffsetMap.Reads
use pmemfile.OffsetMap.Reads.{read, read_in, Fits, FitsAll, span, put_at, Apart, read_in-all_null}
use pmemfile.OffsetMap.Walk.{Sets, Ended, succeeded, failed}
use pmemfile.OffsetMap.SetRange.{set_range-Ended}
use pmemfile.OffsetMap.Calls.{Changed, set_root, shrink, remove_block}
use pmemfile.OffsetMap.Calls.Grow.{IsRoot, IsValid, block_at, root_beyond, read_in_beyond}

-- An entry as a map of its own, with fewer levels where they are not needed.
record Shrinks (l : ℕ) (e : Entry) (m : OffsetMap) : Type 0 where
  valid : IsValid m
  reads : (x : ℕ) → block_at m x ≡ read l e x

Shrinks-same :
    (l : ℕ) (e : Entry)
    → Fits l e
    → IsRoot e
    → l ≤ 13
    → Shrinks l e (record { entry = e; levels = l })
Shrinks-same l e f r h = record {
  valid = record { fits = f; root = r; height = h };
  reads = λ x. refl;
}

shrink-Shrinks : (l : ℕ) (e : Entry) → Fits l e → IsRoot e → l ≤ 13 → Shrinks l e (shrink l e)
unfolding shrink Fits FitsAll read read_in all_null
shrink-Shrinks zero e f r h = Shrinks-same zero e f r h
shrink-Shrinks (suc l) (leaf none) f r h = record {
  valid = record { fits = tt; root = tt; height = omega arith };
  reads = λ x. refl;
}
shrink-Shrinks (suc l) (leaf (some b)) f r h = elim r [ ]
shrink-Shrinks (suc l) (node nil) f r h = Shrinks-same (suc l) (node nil) f r h
shrink-Shrinks (suc l) (node (cons (leaf b) es)) f r h =
    Shrinks-same (suc l) (node (cons (leaf b) es)) f r h
shrink-Shrinks (suc l) (node (cons (node ds) es)) f r h = elim (Bool-cases (all_null es)) [
  | inl z ↦
      let t = shrink-Shrinks l (node ds) f.2.0 tt (omega arith) in
      rw (z, shrink)
        (record {
          valid = t.valid;
          reads = λ x. t.reads x ∙ elim (Bool-cases (ltb x (width l))) [
            | inl q ↦ rw q refl
            | inr q ↦
                rw (q, read_in-all_null l es (x - width l) z)
                  (root_beyond l (node ds) x f.2.0 tt (ground arith))
          ];
        })
  | inr z ↦ rw (z, shrink) (Shrinks-same (suc l) (node (cons (node ds) es)) f r h)
]

-- The map after a removal: the range maps to no block, and the rest as before.
pub record Removes (offset size : ℕ) (m m' : OffsetMap) : Type 0 where
  pub valid : IsValid m'
  pub reads : (x : ℕ) → block_at m' x ≡ put_at offset size none (block_at m) x

-- How the call ends.
pub data Removal (allocated : ℕ → Bool) (offset size : ℕ) (m : OffsetMap)
    : Run Changed → Type 0 where
  removed :
      (c : Changed)
      → c.success ≡ true
      → Removes offset size m c.map
      → Removal allocated offset size m (ok c)
  out_of_memory :
      (c : Changed) (j : ℕ)
      → c.success ≡ false
      → allocated j ≡ false
      → Removal allocated offset size m (ok c)

module _ (allocated : ℕ → Bool) (offset size : ℕ) where
  Sets-Removes :
      (l : ℕ) (m : OffsetMap) (cs ds : Entries)
      → suc l ≤ 13
      → Reads.size cs ≡ n_children
      → ((x : ℕ) → read_in l cs x ≡ block_at m x)
      → Sets none l offset size cs ds
      → Removes offset size m (shrink (suc l) (check_and_free_range ds))
  unfolding Fits read check_and_free_range
  Sets-Removes l m cs ds height n same t = elim (Bool-cases (all_null ds)) [
    | inl z ↦
        let s = shrink-Shrinks (suc l) (leaf none) tt tt height in
        rw z (record {
          valid = s.valid;
          reads = λ x. s.reads x ∙ ground (arith, t.reads x, same x, read_in-all_null l ds x z);
        })
    | inr z ↦
        let s = shrink-Shrinks (suc l) (node ds) (t.same_size ∙ n, z, t.fits) tt height in
        rw z
          (record { valid = s.valid; reads = λ x. s.reads x ∙ ground (arith, t.reads x, same x) })
  ]

  set_root-Removal :
      (l : ℕ) (m : OffsetMap) (cs : Entries) (r : Run Updated)
      → suc l ≤ 13
      → Reads.size cs ≡ n_children
      → ((x : ℕ) → read_in l cs x ≡ block_at m x)
      → Ended allocated (Sets none l offset size cs) r
      → Removal allocated offset size m (
          r >>= λ u. elim u.success [
            | false ↦ ok (record {
              map = record { entry = node u.entries; levels = suc l };
              success = false;
              calls = u.calls;
            })
            | true ↦ ok (record {
              map = shrink (suc l) (check_and_free_range u.entries);
              success = true;
              calls = u.calls;
            })
          ])
  set_root-Removal l m cs (ok _) h n same (succeeded u e t) =
      rw e (removed _ refl (Sets-Removes l m cs u.entries h n same t))
  set_root-Removal l m cs (ok _) h n same (failed u j e q) = rw e (out_of_memory _ j refl q)
  set_root-Removal l m cs (fault _) h n same x = elim x [ ]

-- The map has a block exactly on the range.
pub record HasBlock (b offset size : ℕ) (m : OffsetMap) : Type 0 where
  pub there : (x : ℕ) → offset ≤ x → x < offset + size → block_at m x ≡ some b
  pub only : (x : ℕ) → (x < offset) ⊎ (offset + size ≤ x) → block_at m x ≢ some b

root :
    (allocated : ℕ → Bool) (b offset size : ℕ) (m : OffsetMap) (l : ℕ) (e : Entry)
    → Fits l e
    → IsRoot e
    → l ≤ 13
    → 0 < size
    → offset % min_block_size ≡ 0
    → size % min_block_size ≡ 0
    → HasBlock b offset size m
    → ((x : ℕ) → read l e x ≡ block_at m x)
    → Removal allocated offset size m
        (remove_block allocated offset size (record { entry = e; levels = l }))
unfolding remove_block set_root read Fits
root allocated b offset size m l (leaf none) f r n pos o s h same =
    absurd (ground (arith, h.there offset (omega arith) (omega arith), same offset))
root allocated b offset size m l (leaf (some c)) f r n pos o s h same = elim r [ ]
root allocated b offset size m zero (node cs) f r n pos o s h same = elim f [ ]
root allocated b offset size m (suc l) (node cs) f r n pos o s h same =
    let last = offset + size - 1 in
    let inside : offset + size ≤ span l cs = elim (Bool-cases (leb (offset + size) (span l cs))) [
      | inl q ↦ ground arith
      | inr q ↦ absurd (
          ground (
            arith,
            h.there last (omega arith) (omega arith),
            same last,
            read_in_beyond l cs last (ground arith),
          ))
    ] in
    set_root-Removal allocated offset size l m cs _ n f.0 same (
      set_range-Ended allocated none l offset size 0 cs pos f.2
        (record { start = o; length = s; inside = inside })
        (record {
          at = λ x y c p q z w u t. h.only y z (sym (same y) ∙ t ∙ sym u ∙ same x ∙ h.there x p q);
        }))

-- remove_block on a valid map and the offset and size, of whole pages, of a block that it has ends, and
-- leaves a valid map with fewer levels if it can, in which the offsets of the block map to NULL and all
-- others as before; or an allocation failed.
pub remove_block-Removal :
    (allocated : ℕ → Bool) (b offset size : ℕ) (m : OffsetMap)
    → IsValid m
    → 0 < size
    → offset % min_block_size ≡ 0
    → size % min_block_size ≡ 0
    → HasBlock b offset size m
    → Removal allocated offset size m (remove_block allocated offset size m)
unfolding remove_block
remove_block-Removal allocated b offset size m v pos o s h =
    root allocated b offset size m m.levels m.entry v.fits v.root v.height pos o s h (λ x. refl)
