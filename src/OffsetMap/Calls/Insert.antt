-- ===== src/OffsetMap/Calls/Insert.antt =====
-- Inserting a block (offset_mapping.c, insert_block).
use pmemfile.Prelude.{
  ℕ, zero, suc, ◌+◌, ◌-◌, ◌*◌, ◌%◌, ◌^◌, ◌≤◌, ◌<◌, ◌≡◌, ◌∙◌, refl, ap, Bool, true, false, ◌&&◌, not,
  none, some, ltb, if◌then◌else◌, arith, Bool-cases, inl, inr,
}
use pmemfile.Run.{Run, ok, fault, null_pointer, assertion, ◌>>=◌}
use pmemfile.OffsetMap.{
  Entry, leaf, node, Entries, n_children, min_block_size, OffsetMap, range_length_bits,
  max_map_offset, width, nulls, Updated, children_of, set_range,
}
use pmemfile.OffsetMap.Reads
use pmemfile.OffsetMap.Reads.{
  read, read_in, Fits, FitsAll, span, put_at, Apart, width-pos, size-nulls, nulls-FitsAll,
  read_in-all_null, all_null-nulls,
}
use pmemfile.OffsetMap.Walk.{Sets, Ended, succeeded, failed}
use pmemfile.OffsetMap.SetRange.{set_range-Ended, span-children}
use pmemfile.OffsetMap.Calls.{Changed, grow, set_root, insert_block}
use pmemfile.OffsetMap.Calls.Grow.{
  IsRoot, IsValid, block_at, Grows, Grown, grown, refused, HasRoom, grow-Grown,
}

-- The map after an insertion: the range of the block maps to it, and the rest as before.
pub record Inserts (block offset size : ℕ) (m m' : OffsetMap) : Type 0 where
  pub valid : IsValid m'
  pub reads : (x : ℕ) → block_at m' x ≡ put_at offset size (some block) (block_at m) x

-- How the call ends: where an allocation failed it says so, or follows NULL.
pub data Insertion (allocated : ℕ → Bool) (block offset size : ℕ) (m : OffsetMap)
    : Run Changed → Type 0 where
  inserted :
      (c : Changed)
      → c.success ≡ true
      → Inserts block offset size m c.map
      → Insertion allocated block offset size m (ok c)
  out_of_memory :
      (c : Changed) (j : ℕ)
      → c.success ≡ false
      → allocated j ≡ false
      → Insertion allocated block offset size m (ok c)
  unchecked :
      (j : ℕ) → allocated j ≡ false → Insertion allocated block offset size m (fault null_pointer)

module _ (allocated : ℕ → Bool) (block offset size : ℕ) where
  abbrev Inserting : OffsetMap → Run Changed → Type 0
  Inserting m = Insertion allocated block offset size m

  Sets-Inserts :
      (l : ℕ) (m : OffsetMap) (cs ds : Entries)
      → 0 < size
      → suc l ≤ 13
      → Reads.size cs ≡ n_children
      → ((x : ℕ) → read_in l cs x ≡ block_at m x)
      → Sets (some block) l offset size cs ds
      → Inserts block offset size m (record { entry = node ds; levels = suc l })
  unfolding Fits read
  Sets-Inserts l m cs ds pos height n same t = record {
    valid = record {
      fits = (t.same_size ∙ n, t.used (λ z. cc) pos, t.fits);
      root = tt;
      height = height;
    };
    reads = λ x. ground (arith, t.reads x, same x);
  }

  -- set_range on the root of a map that has room.
  set_root-Inserting :
      (l k : ℕ) (m : OffsetMap) (cs : Entries)
      → 0 < size
      → offset % min_block_size ≡ 0
      → size % min_block_size ≡ 0
      → offset + size ≤ width (suc l)
      → suc l ≤ 13
      → FitsAll l cs
      → Reads.size cs ≡ n_children
      → ((x : ℕ) → offset ≤ x → x < offset + size → read_in l cs x ≡ none)
      → ((x : ℕ) → read_in l cs x ≡ block_at m x)
      → Inserting m (
          set_range allocated (some block) l offset size cs k >>= λ u. ok (record {
            map = record { entry = node u.entries; levels = suc l };
            success = u.success;
            calls = u.calls;
          }))
  set_root-Inserting l k m cs pos o s room height f n free same = from_end _ (
      set_range-Ended allocated (some block) l offset size k cs pos f
        (record { start = o; length = s; inside = omega (arith, span-children l cs n) })
        (record { at = λ x y c p q z w u v. ground (arith, free x p q) }))
    where
      from_end :
          (r : Run Updated)
          → Ended allocated (Sets (some block) l offset size cs) r
          → Inserting m (
              r >>= λ u. ok (record {
                map = record { entry = node u.entries; levels = suc l };
                success = u.success;
                calls = u.calls;
              }))
      from_end (ok _) (succeeded u e t) =
          inserted _ e (Sets-Inserts l m cs u.entries pos height n same t)
      from_end (ok _) (failed u j e h) = out_of_memory _ j e h
      from_end (fault _) x = elim x [ ]

  -- The root's array is new, or there; where it cannot be allocated NULL is followed.
  root-Inserting :
      (l k : ℕ) (m : OffsetMap) (e : Entry)
      → 0 < size
      → offset % min_block_size ≡ 0
      → size % min_block_size ≡ 0
      → offset + size ≤ width (suc l)
      → suc l ≤ 13
      → Fits (suc l) e
      → IsRoot e
      → ((x : ℕ) → offset ≤ x → x < offset + size → block_at m x ≡ none)
      → ((x : ℕ) → read (suc l) e x ≡ block_at m x)
      → Inserting m (
          children_of allocated k e >>= λ c. elim c.0 [
            | none ↦ fault null_pointer
            | some cs ↦ set_range allocated (some block) l offset size cs c.1 >>= λ u. ok (record {
              map = record { entry = node u.entries; levels = suc l };
              success = u.success;
              calls = u.calls;
            })
          ])
  unfolding children_of read Fits
  root-Inserting l k m (leaf none) pos o s room height f r free same =
      elim (Bool-cases (allocated k)) [
        | inl a ↦
            rw (a, children_of)
              (set_root-Inserting l (k + 1) m (nulls n_children) pos o s room height
                (nulls-FitsAll l n_children) (size-nulls n_children)
                (λ x p q. read_in-all_null l (nulls n_children) x (all_null-nulls n_children))
                (λ x. read_in-all_null l (nulls n_children) x (all_null-nulls n_children) ∙ same x))
        | inr a ↦ rw (a, children_of) (unchecked k a)
      ]
  root-Inserting l k m (leaf (some b)) pos o s room height f r free same = elim r [ ]
  root-Inserting l k m (node cs) pos o s room height f r free same =
      set_root-Inserting l k m cs pos o s room height f.2 f.0 (λ x p q. same x ∙ free x p q) same

pub width-13 : width 13 ≡ 2 ^ 66
unfolding width
width-13 = refl

-- The call once the map has room.
grown-Insertion :
    (allocated : ℕ → Bool) (block offset size k l : ℕ) (m : OffsetMap) (e : Entry)
    → 0 < size
    → offset % min_block_size ≡ 0
    → size % min_block_size ≡ 0
    → offset + size < 2 ^ 64 - min_block_size
    → ((x : ℕ) → offset ≤ x → x < offset + size → block_at m x ≡ none)
    → Grows m (record { entry = e; levels = l })
    → HasRoom (offset + size) (record { entry = e; levels = l })
    → Insertion allocated block offset size m (
        if not (ltb (14 + 4 * l) 64)
          && not (ltb (offset + size) (max_map_offset (record { entry = e; levels = l })))
        then fault assertion
        else children_of allocated k e >>= λ c. elim c.0 [
          | none ↦ fault null_pointer
          | some cs ↦
              set_root allocated (some block) offset size c.1 (record { entry = e; levels = l }) cs
              >>= λ u. ok (record {
                map = record { entry = node u.entries; levels = l };
                success = u.success;
                calls = u.calls;
              })
        ])
unfolding set_root max_map_offset
grown-Insertion allocated block offset size k zero m e pos o s below free g (inl r) =
    absurd (unfold width in omega (arith, r, pos, s))
grown-Insertion allocated block offset size k zero m e pos o s below free g (inr r) =
    absurd (omega (arith, r))
grown-Insertion allocated block offset size k (suc l) m e pos o s below free g r =
    let fine : (not (ltb (14 + 4 * suc l) 64)
          && not (ltb (offset + size) (max_map_offset (record { entry = e; levels = suc l }))))
        ≡ false =
      ground arith in
    let room : offset + size ≤ width (suc l) = elim r [
      | inl q ↦ omega (arith, q)
      | inr q ↦ let w : width (suc l) ≡ 2 ^ 66 = ap width q ∙ width-13 in omega (arith, w)
    ] in
    rw fine (
      root-Inserting allocated block offset size l k m e pos o s room g.valid.height g.valid.fits
        g.valid.root free g.reads)

-- insert_block on a valid map, of whole pages that no block is mapped to, of a size of 32 bits and not at
-- the end of 64-bit offsets, ends. The map is then valid, maps the offsets of the block to it and all
-- others as before; or an allocation failed, and the call says so, or, where it is that of the root's
-- array, follows NULL.
pub insert_block-Insertion :
    (allocated : ℕ → Bool) (block offset size : ℕ) (m : OffsetMap)
    → IsValid m
    → 0 < size
    → size < 2 ^ 32
    → offset % min_block_size ≡ 0
    → size % min_block_size ≡ 0
    → offset + size < 2 ^ 64 - min_block_size
    → ((x : ℕ) → offset ≤ x → x < offset + size → block_at m x ≡ none)
    → Insertion allocated block offset size m (insert_block allocated block offset size m)
unfolding insert_block
insert_block-Insertion allocated block offset size m v pos narrow o s below free =
    let fits_word : ltb (2 ^ 64 - 1 - offset) ((size + 2 ^ 32 - 1) % 2 ^ 32) ≡ false =
      ground arith in
    rw (fits_word, insert_block)
      (after_grow (grow allocated 13 (offset + size) 0 m)
        (grow-Grown allocated 13 (offset + size) 0 m v (omega arith)))
  where
    after_grow :
        (g : Changed)
        → Grown allocated m (HasRoom (offset + size)) g
        → Insertion allocated block offset size m (elim g.success [
          | false ↦ ok g
          | true ↦
              if not (ltb (range_length_bits g.map) 64)
                && not (ltb (offset + size) (max_map_offset g.map))
              then fault assertion
              else children_of allocated g.calls g.map.entry >>= λ c. elim c.0 [
                | none ↦ fault null_pointer
                | some cs ↦ set_root allocated (some block) offset size c.1 g.map cs >>= λ u.
                    ok (record {
                      map = record { entry = node u.entries; levels = g.map.levels };
                      success = u.success;
                      calls = u.calls;
                    })
              ]
        ])
    after_grow g (refused _ j e h) = rw e (out_of_memory g j e h)
    after_grow g (grown _ e h p) = rw e (
        grown-Insertion allocated block offset size g.calls g.map.levels m g.map.entry pos o s below
          free h p)
