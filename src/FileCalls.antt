-- ===== src/FileCalls.antt =====
-- Calls that read, write and resize a regular file (src/libpmemfile-posix/read.c, write.c, truncate.c,
-- fallocate.c, inode.c). A pointer to a block that outlives a call is the offset at which the block starts,
-- and following it where no block starts there is a fault; so is an `ASSERT` that does not hold. The
-- blocks of a file do not overlap and end by 2 ^ 64, so that sums of their sizes do not wrap around.
-- An inode holds each time and the size twice, and `slots` says which is valid; here each is one value.
mod Answers
pub mod Contents
pub mod Hints
pub mod Write
pub mod Read
pub mod Resize
pub mod Sequences
mod Tests
pub use Answers.*
use pmemfile.Prelude.{
  ℕ, zero, suc, ◌+◌, ◌%◌, ◌^◌, Bool, true, false, not, ◌&&◌, ◌||◌, Option, none, some, List, [],
  ◌∷◌, ltb, leb, ◌==◌, if◌then◌else◌,
}
use pmemfile.Prelude.Int.{ℤ, pos}
use pmemfile.Run.{Run, ok, fault, wild_pointer, null_pointer, ◌>>=◌}
use pmemfile.Lseek.{Kind, regular_file, directory, symlink, other}
use pmemfile.FileData.{Attempt, made, stopped, null_followed, BlockDesc}
use pmemfile.FileData.Allocated.{in_block}

pub record Time : Type 0 where
  pub sec : ℕ
  pub nsec : ℕ

-- time_cmp(t1, t2) < 0
pub time_lt : Time → Time → Bool
time_lt t1 t2 = ltb t1.sec t2.sec || t1.sec == t2.sec && ltb t1.nsec t2.nsec

-- A file in memory and in the pool. `has_tree` says whether `blocks` of the vinode is not NULL, which is
-- the tree of the blocks; `atime` is that of the vinode, and `inode_atime` that of the inode.
pub record Vinode : Type 0 where
  pub kind : Kind
  pub size : ℕ
  pub allocated_space : ℕ
  pub blocks : List BlockDesc
  pub has_tree : Bool
  pub block_pointer_invalidation_counter : ℕ
  pub atime : Time
  pub atime_dirty : Bool
  pub inode_atime : Time
  pub mtime : Time
  pub ctime : Time

-- A PMEMfile but for its vinode.
pub record Handle : Type 0 where
  pub can_read : Bool
  pub can_write : Bool
  pub no_atime : Bool
  pub append : Bool
  pub path_only : Bool
  pub offset : ℕ
  pub block_pointer_cache : Option ℕ
  pub last_block_pointer_invalidation_observed : ℕ

pub record Iov : Type 0 where
  pub iov_base : Option (ℕ → ℕ)
  pub iov_len : ℕ

-- What a call takes from outside: the look-up of the tree of some blocks; how rebuilding the tree ends; how its
-- allocations end and what they return (as in vinode_allocate_interval); how putting blocks that a
-- removal has moved into the tree again ends (as in vinode_remove_interval); the errno of an
-- allocation that fails; and the times that it reads from the clock.
pub record Environment : Type 0 where
  pub find : List BlockDesc → ℕ → Option ℕ
  pub rebuild : Attempt
  pub allocated : ℕ → Attempt
  pub fresh : ℕ → ℕ → ℕ
  pub relocated : ℕ → Attempt
  pub overallocate_on_append : Bool
  pub abort_errno : ℕ
  pub clock : ℕ → Time

abbrev pub one_later : Option ℕ → Option ℕ
one_later none = none
one_later (some i) = some (suc i)

-- The position of the block that starts at an offset.
pub position_of : ℕ → List BlockDesc → Option ℕ
position_of start [] = none
position_of start (b ∷ bs) =
    let rest = position_of start bs in if b.block.offset == start then some 0 else one_later rest

-- The list from the block at a position on.
pub blocks_at : Option ℕ → List BlockDesc → List BlockDesc
blocks_at none bs = []
blocks_at (some i) [] = []
blocks_at (some zero) (b ∷ bs) = b ∷ bs
blocks_at (some (suc i)) (b ∷ bs) = blocks_at (some i) bs

-- The position of a block that is pointed to.
pub follow : Option ℕ → List BlockDesc → Run (Option ℕ)
unfolding position_of
follow none bs = ok none
follow (some start) bs = elim (position_of start bs) [
  | none ↦ fault wild_pointer
  | some i ↦ ok (some i)
]

pub find_closest_block_with_hint :
    (find : ℕ → Option ℕ) (offset : ℕ) (last_block : Option ℕ) → List BlockDesc → Run (Option ℕ)
unfolding follow blocks_at
find_closest_block_with_hint find offset last_block bs = follow last_block bs >>= λ hint.
    if in_block (blocks_at hint bs) offset then ok hint else ok (find offset)

-- `if (block) *last_block = block`
pub pointer_or : Option ℕ → List BlockDesc → Option ℕ
pointer_or last_block [] = last_block
pointer_or last_block (b ∷ bs) = some b.block.offset

-- vinode_rebuild_block_tree where the tree is missing: it returns the 1 of insert_block if it fails, and the
-- callers take that for an error number. It follows NULL where the allocation of the tree or of its
-- root fails.
unfoldable pub ensure_tree : Environment → Vinode → Run (Option ℤ × Vinode)
ensure_tree env v = elim v.has_tree [
  | true ↦ ok (none, v)
  | false ↦ elim env.rebuild [
    | made ↦ ok (none, record v { has_tree = true })
    | stopped ↦ ok (some eperm, v)
    | null_followed ↦ fault null_pointer
  ]
]

abbrev pub is_regular : Kind → Bool
is_regular regular_file = true
is_regular directory = false
is_regular symlink = false
is_regular other = false

abbrev pub is_directory : Kind → Bool
is_directory regular_file = false
is_directory directory = true
is_directory symlink = false
is_directory other = false

-- A list of buffers is none where it is NULL and its length is positive, which the checks refuse.
abbrev pub buffers_of : Option (List Iov) → List Iov
buffers_of none = []
buffers_of (some iov) = iov

-- The loop on the addresses of the buffers.
pub all_bases : List Iov → Bool
all_bases [] = true
all_bases (e ∷ iov) = elim e.iov_base [ none ↦ false | some buf ↦ all_bases iov ]

-- The checks on the list of buffers.
pub iov_check : Option (List Iov) → Option ℤ
unfolding all_bases
iov_check none = some efault
iov_check (some iov) = if all_bases iov then none else some efault

pub pmemfile_preadv_args_check : Vinode → Handle → Option (List Iov) → Option ℤ
unfolding iov_check
pmemfile_preadv_args_check v file iov =
    if not (is_regular v.kind)
    then (if is_directory v.kind then some eisdir else some einval)
    else if not file.can_read
    then some ebadf
    else iov_check iov

pub pmemfile_pwritev_args_check : Vinode → Handle → Option (List Iov) → Option ℤ
unfolding iov_check
pmemfile_pwritev_args_check v file iov =
    if not (is_regular v.kind)
    then some einval
    else if not file.can_write
    then some ebadf
    else iov_check iov

-- The part of the calls with the lock of the file that drops a pointer to a block which may be stale.
pub observe : Vinode → Handle → Handle
observe v file =
    if file.last_block_pointer_invalidation_observed == v.block_pointer_invalidation_counter
    then file
    else record file {
      block_pointer_cache = none;
      last_block_pointer_invalidation_observed = v.block_pointer_invalidation_counter;
    }

-- The part of the calls with an offset that does so on the copy of the pointer.
pub current_pointer : Vinode → Handle → Option ℕ
current_pointer v file =
    if file.last_block_pointer_invalidation_observed == v.block_pointer_invalidation_counter
    then file.block_pointer_cache
    else none

-- What the calls that move the offset do with the bytes read or written.
pub advance : Handle → Answer → Option ℕ → Handle
advance file (done n) last_block =
    if ltb 0 n
    then record file { offset = (file.offset + n) % 2 ^ 64; block_pointer_cache = last_block }
    else record file { block_pointer_cache = none }
advance file (fail e) last_block = record file { block_pointer_cache = none }
