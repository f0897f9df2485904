-- ===== src/FileData/Removal.antt =====
-- vinode_remove_interval (data.c). The loop goes along `prev`, so that it is on the blocks in reverse from the
-- one that the look-up finds. block_list_remove (block_array.c) may move the description of another
-- block, which changes no block of the list but where it is kept, and then puts it into the tree again:
-- `relocated k` says how that ends for the k-th block removed, and is `made` where none is moved. If it
-- is `stopped` the transaction is aborted. The interval ends by 2 ^ 64, so that no sum wraps around.
pub mod Zeros
pub mod Interval
use pmemfile.Prelude.{
  ℕ, zero, suc, ◌+◌, ◌-◌, ◌%◌, ◌^◌, Bool, true, false, ◌&&◌, ◌||◌, not, Option, none, some, List,
  [], ◌∷◌, ltb, leb, ◌==◌, if◌then◌else◌,
}
use pmemfile.Run.{Run, ok, fault, assertion, null_pointer, ◌>>=◌}
use pmemfile.FileData.{Attempt, made, stopped, null_followed, BlockDesc, end_of}
use pmemfile.FileData.Allocate.{Filled, prepend}
use pmemfile.FileData.Copy.{copy_in}

abbrev pub is_block_contained_by_interval : BlockDesc → (start len : ℕ) → Bool
is_block_contained_by_interval b start len =
    leb start b.block.offset && leb (end_of b) (start + len)

abbrev pub is_interval_contained_by_block : BlockDesc → (start len : ℕ) → Bool
is_interval_contained_by_block b start len =
    ltb b.block.offset start && ltb (start + len) (end_of b)

abbrev pub is_block_at_right_edge : BlockDesc → (start len : ℕ) → Bool
is_block_at_right_edge b start len = ltb (start + len) (end_of b)

-- `n` bytes of the data of a block from `first` on, if it has been written.
pub zero_data : BlockDesc → (first n : ℕ) → BlockDesc
zero_data b first n =
    if b.initialized then record b { data_at = copy_in b.data_at first n (λ j. 0) } else b

-- Blocks in reverse, and the blocks behind them.
unfoldable pub rev_onto : List BlockDesc → List BlockDesc → List BlockDesc
rev_onto [] bs = bs
rev_onto (b ∷ front) bs = rev_onto front (b ∷ bs)

pub add_space : ℕ → Option (List BlockDesc × ℕ) → Option (List BlockDesc × ℕ)
add_space size none = none
add_space size (some (bs, space)) = some (bs, size + space)

pub put_behind : List BlockDesc → Option (List BlockDesc × ℕ) → Option (List BlockDesc × ℕ)
unfolding rev_onto
put_behind bs none = none
put_behind bs (some (front, space)) = some (rev_onto front bs, space)

module _ (relocated : ℕ → Attempt) where
  -- The loop, with the blocks removed before: the blocks that are left, in reverse, and the space deallocated.
  pub remove_back : (offset len k : ℕ) → List BlockDesc → Filled
  unfolding zero_data prepend add_space
  remove_back offset len k [] = ok (some ([], 0))
  remove_back offset len k (b ∷ prevs) =
      let block_offset = offset - b.block.offset in
      elim (ltb offset (end_of b)) [
        | false ↦ ok (some (b ∷ prevs, 0))
        | true ↦ elim (is_block_contained_by_interval b offset len) [
          | true ↦ elim (relocated k) [
            | made ↦ remove_back offset len (k + 1) prevs >>= λ r. ok (add_space b.block.size r)
            | stopped ↦ ok none
            | null_followed ↦ fault null_pointer
          ]
          | false ↦ elim (is_interval_contained_by_block b offset len) [
            | true ↦ ok (some (zero_data b block_offset len ∷ prevs, 0))
            | false ↦ elim (is_block_at_right_edge b offset len) [
              | true ↦ remove_back offset len k prevs >>= λ r.
                  ok (prepend (zero_data b 0 (offset + len - b.block.offset)) r)
              | false ↦ remove_back offset len k prevs >>= λ r.
                  ok (prepend (zero_data b block_offset (b.block.size - block_offset)) r)
            ]
          ]
        ]
      ]

  -- The call from the block at a position, with the blocks before it in reverse.
  pub remove_at : (offset len : ℕ) → ℕ → List BlockDesc → List BlockDesc → Filled
  unfolding remove_back put_behind
  remove_at offset len i front [] = fault null_pointer
  remove_at offset len zero front (b ∷ bs) =
      remove_back offset len 0 (b ∷ front) >>= λ r. ok (put_behind bs r)
  remove_at offset len (suc i) front (b ∷ bs) = remove_at offset len i (b ∷ front) bs

  -- The blocks and the space deallocated, or none if the transaction has been aborted.
  unfoldable pub vinode_remove_interval :
      (find_closest_block : ℕ → Option ℕ) (offset len : ℕ) → List BlockDesc → Filled
  unfolding remove_at
  vinode_remove_interval find_closest_block offset len bs =
      if len == 0 then fault assertion else elim (find_closest_block (offset + len - 1)) [
        | none ↦ ok (some (bs, 0))
        | some i ↦ remove_at offset len i [] bs
      ]
