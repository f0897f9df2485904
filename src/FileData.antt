-- ===== src/FileData.antt =====
-- The blocks of a file and their data (src/libpmemfile-posix/data.c, blocks.c). The blocks are a list in
-- the order of `next`, and a pointer to a block is its position in the list, or none for NULL. An
-- allocation in a transaction may fail, which ends the transaction: `allocated k` says how the k-th of
-- a call ends, and `fresh k` is what the memory holds that it returns. The block size
-- is the default, a power of two, so that the mask of block_rounddown takes the remainder off.
pub mod Allocate
pub mod Content
pub mod Copy
pub mod Lookup
pub mod Allocated
pub mod Removal
mod Tests
use pmemfile.Prelude.{
  ℕ, zero, suc, ◌+◌, ◌-◌, ◌*◌, ◌%◌, ◌^◌, Bool, true, false, ◌&&◌, not, Option, none, some, List, [],
  ◌∷◌, ◌++◌, ltb, leb, ◌==◌, if◌then◌else◌,
}
use pmemfile.Run.{Run, ok, fault, assertion, ◌>>=◌}
use pmemfile.Lseek.{Block, is_offset_in_block}
use pmemfile.OffsetMap.{min_block_size}

-- How a call ends that puts a block into the tree: the block is in it; or an allocation has failed, which is
-- returned; or that of the range of the root has failed, which insert_block does not test
-- (offset_mapping.c), so that NULL is followed.
pub data Attempt : Type 0 where
  made stopped null_followed : Attempt

-- A block, whether BLOCK_INITIALIZED is set, and the bytes of its data.
pub record BlockDesc : Type 0 where
  pub block : Block
  pub initialized : Bool
  pub data_at : ℕ → ℕ

abbrev pub covers : BlockDesc → ℕ → Bool
covers b o = is_offset_in_block b.block o

abbrev pub end_of : BlockDesc → ℕ
end_of b = b.block.offset + b.block.size

-- data_blocks but for the first, up to the terminator.
abbrev pub larger_blocks : List ℕ
larger_blocks = 256 * 1024 ∷ 2 * 1024 * 1024 ∷ []

-- MAX_BLOCK_SIZE
abbrev pub max_block_size : ℕ
max_block_size = 2 ^ 32 - 1 - (2 ^ 32 - 1) % min_block_size

-- The loop of data_block_info, with the size before.
pub pick : ℕ → List ℕ → ℕ → ℕ → ℕ
pick previous [] size limit = previous
pick previous (b ∷ bs) size limit =
    let rest = pick b bs size limit in
    if ltb limit b then previous else if leb size b then b else rest

-- The size of the class that data_block_info returns.
pub data_block_info : ℕ → ℕ → Run ℕ
unfolding pick
data_block_info size limit =
    if ltb limit min_block_size
    then fault assertion
    else if leb size min_block_size
    then ok min_block_size
    else ok (pick min_block_size larger_blocks size limit)

abbrev pub block_roundup : ℕ → ℕ
block_roundup n = let m = (n + min_block_size - 1) % 2 ^ 64 in m - m % min_block_size

-- The offset and the length.
unfoldable pub expand_to_full_pages : ℕ → ℕ → ℕ × ℕ
expand_to_full_pages offset length =
    let over = offset % min_block_size in (offset - over, block_roundup ((length + over) % 2 ^ 64))

pub overallocate_size : ℕ → ℕ
overallocate_size size =
    if leb size 4096
    then 16 * 1024
    else if leb size (64 * 1024)
    then 256 * 1024
    else if leb size (1024 * 1024)
    then 4 * 1024 * 1024
    else if leb size (64 * 1024 * 1024)
    then 64 * 1024 * 1024
    else size
