-- ===== src/FileData/Allocate.antt =====
-- vinode_allocate_interval and what it calls (data.c).
pub mod Sizes
pub mod Fill
pub mod Interval
mod Tests
use pmemfile.Prelude.{
  ℕ, zero, suc, ◌+◌, ◌-◌, ◌*◌, ◌/◌, ◌%◌, ◌^◌, Bool, true, false, ◌&&◌, ◌||◌, not, Option, none,
  some, List, [], ◌∷◌, ◌++◌, ltb, leb, ◌==◌, if◌then◌else◌,
}
use pmemfile.Run.{Run, ok, fault, assertion, null_pointer, fuel_spent, ◌>>=◌}
use pmemfile.Lseek.{Block, is_offset_in_block}
use pmemfile.OffsetMap.{min_block_size}
use pmemfile.FileData.{
  Attempt, made, stopped, null_followed, BlockDesc, covers, end_of, max_block_size, data_block_info,
  expand_to_full_pages, overallocate_size,
}

-- The blocks after a call and the space allocated, or none if the transaction has been aborted.
abbrev pub Filled : Type 0
Filled = Run (Option (List BlockDesc × ℕ))

unfoldable pub prepend : BlockDesc → Option (List BlockDesc × ℕ) → Option (List BlockDesc × ℕ)
prepend b none = none
prepend b (some (bs, space)) = some (b ∷ bs, space)

-- Where a block ends.
pub end_at : ℕ → List BlockDesc → ℕ
end_at i [] = 0
end_at zero (b ∷ bs) = end_of b
end_at (suc i) (b ∷ bs) = end_at i bs

pub is_append : (ℕ → Option ℕ) → (inode_size offset size : ℕ) → List BlockDesc → Bool
unfolding end_at
is_append find_closest_block inode_size offset size bs =
    if leb (offset + size) inode_size then false else elim (find_closest_block (2 ^ 64 - 1)) [
      | none ↦ true
      | some i ↦ ltb (end_at i bs) (offset + size)
    ]

module _ (allocated : ℕ → Attempt) (fresh : ℕ → ℕ → ℕ) where
  -- block_list_insert_after, file_allocate_block_data and block_cache_insert_block_in_tx: the new block,
  -- which the caller puts in its place of the list.
  pub new_block : (k offset info : ℕ) → Run (Option BlockDesc)
  new_block k offset info =
      if ltb info min_block_size || not (info % min_block_size == 0)
      then fault assertion
      else elim (allocated k) [
        | made ↦ ok (
            some (record {
              block = record { offset = offset; size = info % 2 ^ 32 };
              initialized = false;
              data_at = fresh k;
            }))
        | stopped ↦ ok none
        | null_followed ↦ fault null_pointer
      ]

  -- The loop, at a block that is not NULL and the blocks behind it. Sums do not wrap around where the
  -- interval does not. `size` stays positive until the `break`.
  pub fill : (fuel k offset size space : ℕ) → BlockDesc → List BlockDesc → Filled
  unfolding data_block_info new_block prepend
  fill zero k offset size space b next = fault fuel_spent
  fill (suc fuel) k offset size space b next = elim (covers b offset) [
    | true ↦
        let available = b.block.size - (offset - b.block.offset) in
        elim (leb size available) [
          | true ↦ ok (some (b ∷ next, space))
          | false ↦ fill fuel k (offset + available) (size - available) space b next
        ]
    | false ↦ elim next [
      | [] ↦ data_block_info size max_block_size >>= λ info. new_block k offset info >>= λ n.
          elim n [
            | none ↦ ok none
            | some b' ↦ fill fuel (k + 1) offset size (space + b'.block.size) b' [] >>= λ r.
                ok (prepend b r)
          ]
      | n ∷ rest ↦
          let hole_count = (n.block.offset + 2 ^ 64 - offset) % 2 ^ 64 in
          elim (ltb 0 hole_count) [
            | true ↦ data_block_info size hole_count >>= λ info. new_block k offset info >>= λ m.
                elim m [
                  | none ↦ ok none
                  | some b' ↦
                      fill fuel (k + 1) offset size (space + b'.block.size) b' (n ∷ rest) >>= λ r.
                      ok (prepend b r)
                ]
            | false ↦ fill fuel k offset size space n rest >>= λ r. ok (prepend b r)
          ]
    ]
  ]

  -- The first turn, where the block is NULL, and the loop after it.
  pub fill_first : (fuel offset size limit : ℕ) → List BlockDesc → Filled
  unfolding fill
  fill_first fuel offset size limit bs = data_block_info size limit >>= λ info.
      new_block 0 offset info >>= λ n. elim n [
        | none ↦ ok none
        | some b ↦ fill fuel 1 offset size (0 + b.block.size) b bs
      ]

  -- The loop from the block that the first look-up has found.
  pub fill_from : (fuel offset size : ℕ) → Option ℕ → List BlockDesc → Filled
  unfolding fill_first
  fill_from fuel offset size none [] = fill_first fuel offset size max_block_size []
  fill_from fuel offset size none (f ∷ bs) =
      let first_offset = f.block.offset in
      let count =
        (if ltb first_offset (offset + size) then (first_offset - offset) % 2 ^ 32 else size) in
      fill_first fuel offset size count (f ∷ bs)
  fill_from fuel offset size (some i) [] = fault null_pointer
  fill_from fuel offset size (some zero) (b ∷ bs) = fill fuel 0 offset size 0 b bs
  fill_from fuel offset size (some (suc i)) (b ∷ bs) =
      fill_from fuel offset size (some i) bs >>= λ r. ok (prepend b r)

  -- The two look-ups are those of the map of the vinode. Two turns for each page of the interval are enough
  -- fuel.
  unfoldable pub vinode_allocate_interval :
      (find_closest_block : ℕ → Option ℕ) (overallocate_on_append : Bool)
      (inode_size offset size : ℕ)
      → List BlockDesc
      → Filled
  unfolding fill_from is_append overallocate_size expand_to_full_pages
  vinode_allocate_interval find_closest_block overallocate_on_append inode_size offset size bs =
      if not (ltb 0 size) || not (ltb offset ((offset + size) % 2 ^ 64))
      then fault assertion
      else let over =
          overallocate_on_append && is_append find_closest_block inode_size offset size bs in
        let (o, s) = expand_to_full_pages offset (if over then overallocate_size size else size) in
        fill_from (2 * (s / min_block_size)) o s (find_closest_block o) bs
