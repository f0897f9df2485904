-- ===== src/OffsetMap/Search.antt =====
-- The search for a block in an offset map (offset_mapping.c, block_find_closest).
pub mod Scans
pub mod Nearest
pub mod Closest
pub mod Clamped
use pmemfile.Prelude.{
  ℕ, zero, suc, ◌+◌, ◌-◌, ◌*◌, ◌/◌, ◌%◌, ◌^◌, Bool, true, false, Option, none, some, ltb, leb, ◌==◌,
  if◌then◌else◌,
}
use pmemfile.Run.{Run, ok, fault, wild_pointer, unaligned, ◌>>=◌}
use pmemfile.OffsetMap.{
  Entry, leaf, node, Entries, nil, cons, n_children, width, OffsetMap, max_map_offset,
}

-- What a walk over entries to one side finds: no entry but NULL, a block, or an internal entry, which the
-- walk goes into for good, with nothing but NULL in it.
pub data Scan : Type 0 where
  absent : Scan
  block : ℕ → Scan
  lost : Scan

abbrev pub or_else : Scan → Scan → Scan
or_else absent s = s
or_else (block b) s = block b
or_else lost s = lost

mutual
  -- From the last entry on, and from the first one on.
  pub last_of : Entry → Scan
  last_of (leaf none) = absent
  last_of (leaf (some b)) = block b
  last_of (node cs) = or_else (last_in cs) lost

  pub last_in : Entries → Scan
  last_in nil = absent
  last_in (cons e es) = or_else (last_in es) (last_of e)

mutual
  pub first_of : Entry → Scan
  first_of (leaf none) = absent
  first_of (leaf (some b)) = block b
  first_of (node cs) = or_else (first_in cs) lost

  pub first_in : Entries → Scan
  first_in nil = absent
  first_in (cons e es) = or_else (first_of e) (first_in es)

pub entry_at : ℕ → Entries → Entry
entry_at i nil = leaf none
entry_at zero (cons e es) = e
entry_at (suc i) (cons e es) = entry_at i es

pub before : ℕ → Entries → Entries
before i nil = nil
before zero (cons e es) = nil
before (suc i) (cons e es) = cons e (before i es)

pub behind : ℕ → Entries → Entries
behind i nil = nil
behind zero (cons e es) = es
behind (suc i) (cons e es) = behind i es

module _ (prev : ℕ → Option ℕ) where
  -- The two loops of block_find_closest beside an entry that is NULL. After a walk to the left that is lost
  -- the next one compares pointers to two arrays.
  pub beside : ℕ → Entries → Run (Option ℕ)
  unfolding last_in first_in before behind
  beside i cs = elim (last_in (before i cs)) [
    | block b ↦ ok (some b)
    | lost ↦ fault wild_pointer
    | absent ↦ elim (first_in (behind i cs)) [
      | block b ↦ ok (prev b)
      | lost ↦ ok none
      | absent ↦ ok none
    ]
  ]

  -- The loop down from an array whose entries have so many levels below them.
  pub descend : ℕ → Entries → ℕ → Run (Option ℕ)
  unfolding beside entry_at width
  descend zero cs offset =
      let i = offset / width 0 % n_children in
      elim (entry_at i cs) [
        | leaf (some b) ↦ ok (some b)
        | leaf none ↦ beside i cs
        | node ds ↦ fault unaligned
      ]
  descend (suc level) cs offset =
      let i = offset / width (suc level) % n_children in
      elim (entry_at i cs) [
        | leaf (some b) ↦ ok (some b)
        | leaf none ↦ beside i cs
        | node ds ↦ descend level ds offset
      ]

  unfoldable pub block_find_closest : OffsetMap → ℕ → Run (Option ℕ)
  unfolding descend max_map_offset
  block_find_closest m offset =
      let offset' = (if ltb (max_map_offset m) offset then max_map_offset m else offset) in
      elim m.entry [
        | leaf b ↦ ok b
        | node cs ↦ elim m.levels [ zero ↦ fault unaligned | suc level ↦ descend level cs offset' ]
      ]
