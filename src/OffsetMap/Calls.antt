-- ===== src/OffsetMap/Calls.antt =====
-- Inserting a block in an offset map and removing one (offset_mapping.c).
pub mod Grow
pub mod Insert
pub mod Remove
use pmemfile.Prelude.{
  ℕ, zero, suc, ◌+◌, ◌-◌, ◌*◌, ◌%◌, ◌^◌, Bool, true, false, ◌&&◌, not, Option, none, some, ltb, leb,
  ◌==◌, if◌then◌else◌,
}
use pmemfile.Run.{Run, ok, fault, assertion, null_pointer, wild_pointer, unaligned, ◌>>=◌}
use pmemfile.OffsetMap.{
  Entry, leaf, node, Entries, nil, cons, n_children, min_block_size, OffsetMap, range_length_bits,
  max_map_offset, nulls, is_null, all_null, check_and_free_range, Updated, children_of, set_range,
}

-- The map after a call, whether the call succeeded, and how often calloc has been called.
pub record Changed : Type 0 where
  pub map : OffsetMap
  pub success : Bool
  pub calls : ℕ

-- The loop at the end of remove_block: levels go where only the first entry of the root is in use and
-- has entries below it.
pub shrink : ℕ → Entry → OffsetMap
unfolding all_null
shrink zero e = record { entry = e; levels = 0 }
shrink (suc l) (leaf b) = record { entry = leaf b; levels = 0 }
shrink (suc l) (node nil) = record { entry = node nil; levels = suc l }
shrink (suc l) (node (cons (leaf b) es)) = record {
  entry = node (cons (leaf b) es);
  levels = suc l;
}
shrink (suc l) (node (cons (node ds) es)) = elim (all_null es) [
  | true ↦ shrink l (node ds)
  | false ↦ record { entry = node (cons (node ds) es); levels = suc l }
]

module _ (allocated : ℕ → Bool) where
  -- The level is counted before the array is allocated.
  unfoldable pub add_new_level : ℕ → OffsetMap → Changed
  unfolding nulls
  add_new_level k m =
      let higher = record m { levels = suc m.levels } in
      if ltb 64 (range_length_bits m)
      then record { map = m; success = false; calls = k }
      else if is_null m.entry
      then record { map = higher; success = true; calls = k }
      else if allocated k
      then record {
        map = record higher { entry = node (cons m.entry (nulls (n_children - 1))) };
        success = true;
        calls = k + 1;
      }
      else record { map = higher; success = false; calls = k + 1 }

  -- The loop of insert_block that makes room. The fuel of 13 that it gets is enough: after 13 more levels
  -- there are 66 bits at least, which end the loop.
  pub grow : (fuel end k : ℕ) → OffsetMap → Changed
  unfolding add_new_level max_map_offset
  grow zero end k m = record { map = m; success = true; calls = k }
  grow (suc fuel) end k m =
      elim (ltb (range_length_bits m) 64 && leb (max_map_offset m + min_block_size) end) [
        | false ↦ record { map = m; success = true; calls = k }
        | true ↦
            let c = add_new_level k m in
            elim c.success [ false ↦ c | true ↦ grow fuel end c.calls c.map ]
      ]

  -- set_range on the array of the map's entry, whose entries have the range of one level less.
  pub set_root : Option ℕ → ℕ → ℕ → ℕ → OffsetMap → Entries → Run Updated
  unfolding set_range
  set_root block offset size k m cs = elim m.levels [
    | zero ↦ fault unaligned
    | suc level ↦ set_range allocated block level offset size cs k
  ]

  -- The result of check_and_allocate_range is not tested here.
  unfoldable pub insert_block : (block offset size : ℕ) → OffsetMap → Run Changed
  unfolding grow children_of set_root
  insert_block block offset size m =
      if ltb (2 ^ 64 - 1 - offset) ((size + 2 ^ 32 - 1) % 2 ^ 32)
      then fault assertion
      else let g = grow 13 (offset + size) 0 m in
        elim g.success [
          | false ↦ ok g
          | true ↦
              if not (ltb (range_length_bits g.map) 64)
                && not (ltb (offset + size) (max_map_offset g.map))
              then fault assertion
              else children_of allocated g.calls g.map.entry >>= λ c. elim c.0 [
                | none ↦ fault null_pointer
                | some cs ↦ set_root (some block) offset size c.1 g.map cs >>= λ u. ok (record {
                  map = record { entry = node u.entries; levels = g.map.levels };
                  success = u.success;
                  calls = u.calls;
                })
              ]
        ]

  unfoldable pub remove_block : (offset size : ℕ) → OffsetMap → Run Changed
  unfolding set_root check_and_free_range shrink
  remove_block offset size m = elim m.entry [
    | leaf none ↦ fault null_pointer
    | leaf (some b) ↦ fault wild_pointer
    | node cs ↦ set_root none offset size 0 m cs >>= λ u. elim u.success [
      | false ↦
          ok
            (record { map = record m { entry = node u.entries }; success = false; calls = u.calls })
      | true ↦ ok (record {
        map = shrink m.levels (check_and_free_range u.entries);
        success = true;
        calls = u.calls;
      })
    ]
  ]
