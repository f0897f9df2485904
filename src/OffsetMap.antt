-- ===== src/OffsetMap.antt =====
-- The map from file offsets to blocks (src/libpmemfile-posix/offset_mapping.c): a tree with arrays of 16
-- entries. A block pointer is a number, an entry that is not internal holds one or NULL, and `prev`
-- is the block before a block in the list of the file. `allocated k` says whether the k-th calloc
-- of a call returns memory.
pub mod Reads
pub mod Walk
pub mod SetRange
pub mod Calls
pub mod Search
mod Tests
use pmemfile.Prelude.{
  ℕ, zero, suc, ◌+◌, ◌-◌, ◌*◌, ◌/◌, ◌%◌, ◌^◌, Bool, true, false, ◌&&◌, not, Option, none, some, ltb,
  leb, ◌==◌, if◌then◌else◌,
}
use pmemfile.Run.{
  Run, ok, fault, out_of_bounds, assertion, null_pointer, wild_pointer, unaligned, ◌>>=◌,
}

mutual
  pub data Entry : Type 0 where
    leaf : Option ℕ → Entry
    node : Entries → Entry

  pub data Entries : Type 0 where
    nil : Entries
    cons : Entry → Entries → Entries

abbrev pub n_children : ℕ
n_children = 16

abbrev pub min_block_size : ℕ
min_block_size = 0x4000

-- What `range_length_bits` stands for: 14 at first, and 4 more for each level.
pub record OffsetMap : Type 0 where
  pub entry : Entry
  pub levels : ℕ

abbrev pub range_length_bits : OffsetMap → ℕ
range_length_bits m = 14 + 4 * m.levels

-- The range of an entry with so many levels of arrays below it: `range >> N_CHILDREN_POW` goes down one.
unfoldable pub width : ℕ → ℕ
width zero = min_block_size
width (suc h) = 16 * width h

-- offset_map_new
pub new_map : Bool → Run OffsetMap
new_map allocated =
    if allocated then ok (record { entry = leaf none; levels = 0 }) else fault null_pointer

-- The largest offset that the map distinguishes.
pub max_map_offset : OffsetMap → ℕ
unfolding width
max_map_offset m =
    if ltb (range_length_bits m) 64
    then width m.levels - min_block_size
    else 2 ^ 64 - min_block_size

unfoldable pub nulls : ℕ → Entries
nulls zero = nil
nulls (suc n) = cons (leaf none) (nulls n)

abbrev pub is_null : Entry → Bool
is_null (leaf none) = true
is_null (leaf (some b)) = false
is_null (node cs) = false

unfoldable pub all_null : Entries → Bool
all_null nil = true
all_null (cons e es) = is_null e && all_null es

-- An entry that a range is removed from is freed where nothing is left below it.
pub check_and_free_range : Entries → Entry
unfolding all_null
check_and_free_range cs = if all_null cs then leaf none else node cs

-- What set_range does to an entry after the array below it: blocks that are removed may leave it empty.
abbrev pub close : Option ℕ → Entries → Entry
close none cs = check_and_free_range cs
close (some b) cs = node cs

-- The array after a call, whether the call succeeded, and how often calloc has been called.
pub record Updated : Type 0 where
  pub entries : Entries
  pub success : Bool
  pub calls : ℕ

abbrev pub after : Entry → Updated → Updated
after e u = record u { entries = cons e u.entries }

module _ (allocated : ℕ → Bool) where
  -- check_and_allocate_range, and the array that the caller then follows: a block pointer is not NULL, so
  -- that it passes for an array.
  pub children_of : ℕ → Entry → Run (Option Entries × ℕ)
  unfolding nulls
  children_of k (leaf none) =
      if allocated k then ok (some (nulls n_children), k + 1) else ok (none, k + 1)
  children_of k (leaf (some b)) = fault wild_pointer
  children_of k (node cs) = ok (some cs, k)

  module _ (block : Option ℕ) where
    -- The loop of set_range from the entry where the offset falls, with the call for the array below.
    pub walk :
        (lower : ℕ → ℕ → Entries → ℕ → Run Updated) (range offset remaining : ℕ)
        → Entries
        → ℕ
        → Run Updated
    unfolding children_of check_and_free_range
    walk lower range offset remaining nil k =
        if remaining == 0
        then ok (record { entries = nil; success = true; calls = k })
        else fault out_of_bounds
    walk lower range offset remaining (cons e es) k = elim (remaining == 0) [
      | true ↦ ok (record { entries = cons e es; success = true; calls = k })
      | false ↦ elim (offset % range == 0 && leb range remaining) [
        | true ↦ walk lower range (offset + range) (remaining - range) es k >>= λ u.
            ok (after (leaf block) u)
        | false ↦ children_of k e >>= λ (c, k'). elim c [
          | none ↦ ok (record { entries = cons e es; success = false; calls = k' })
          | some cs ↦
              let sub_offset = offset % range in
              let room = range - sub_offset in
              let sub_remaining = (if ltb remaining room then remaining else room) in
              lower sub_offset sub_remaining cs k' >>= λ d. elim d.success [
                | false ↦ ok (record d { entries = cons (node d.entries) es })
                | true ↦
                    walk lower range (offset + sub_remaining) (remaining - sub_remaining) es d.calls
                    >>= λ u. ok (after (close block d.entries) u)
              ]
        ]
      ]
    ]

    -- `entry += offset / range`, then the loop.
    pub walk_from :
        (lower : ℕ → ℕ → Entries → ℕ → Run Updated) (range skipped offset remaining : ℕ)
        → Entries
        → ℕ
        → Run Updated
    unfolding walk
    walk_from lower range zero offset remaining es k = walk lower range offset remaining es k
    walk_from lower range (suc n) offset remaining nil k =
        if remaining == 0
        then ok (record { entries = nil; success = true; calls = k })
        else fault out_of_bounds
    walk_from lower range (suc n) offset remaining (cons e es) k =
        walk_from lower range n offset remaining es k >>= λ u. ok (after e u)

    -- On an array whose entries have so many levels below them. Below the last one the code would go on
    -- with ranges less than the least block.
    pub set_range : (level offset remaining : ℕ) → Entries → ℕ → Run Updated
    unfolding walk_from width
    set_range zero offset remaining es k =
        walk_from (λ _ _ _ _. fault unaligned) (width 0) (offset / width 0) offset remaining es k
    set_range (suc level) offset remaining es k =
        walk_from (set_range level) (width (suc level)) (offset / width (suc level)) offset
          remaining es k
