-- ===== src/FileCalls/Resize.antt =====
-- Changing the size and the space of a file (truncate.c, fallocate.c). An aborted transaction leaves the file
-- as it was, without its tree of blocks.
pub mod Truncate
pub mod Fallocate
use pmemfile.Prelude.{
  ℕ, ◌+◌, ◌-◌, ◌/◌, ◌%◌, ◌^◌, Bool, true, false, ◌&&◌, ◌||◌, not, Option, none, some, List, ltb,
  leb, ◌==◌, if◌then◌else◌, test_bit,
}
use pmemfile.Prelude.Int.{ℤ, pos, negsuc}
use pmemfile.Run.{Run, ok, fault, assertion, ◌>>=◌}
use pmemfile.Lseek.{int64_max}
use pmemfile.FileData.{BlockDesc, expand_to_full_pages}
use pmemfile.FileData.Allocate.{vinode_allocate_interval}
use pmemfile.FileData.Removal.{vinode_remove_interval}
use pmemfile.FileCalls.{
  Vinode, Handle, Environment, Answer, done, fail, ebadf, enomem, einval, efbig, eopnotsupp,
  ensure_tree, is_regular, is_directory,
}
use pmemfile.FileCalls.Write.{no_space}

-- The answer of a call with an error number or none.
abbrev pub answer_of : Option ℤ → Answer
answer_of none = done 0
answer_of (some e) = fail e

-- vinode_remove_interval counts the call before it removes anything, also if the transaction aborts.
abbrev pub count_removal : Vinode → Vinode
count_removal v = record v {
  block_pointer_invalidation_counter = (v.block_pointer_invalidation_counter + 1) % 2 ^ 64;
}

-- The blocks and the space after the call of vinode_allocate_interval that truncate makes if the file grows.
pub grow_space :
    Environment → Vinode → (size : ℕ) → List BlockDesc → Run (Option (List BlockDesc × ℕ))
grow_space env v size bs =
    if ltb v.size size
    then vinode_allocate_interval env.allocated env.fresh (env.find bs) env.overallocate_on_append
        v.size v.size (size - v.size) bs
    else ok (some (bs, 0))

-- An error of an aborted transaction of truncate, with ENOMEM changed.
abbrev pub too_big : ℕ → ℤ
too_big errno = if errno == enomem then efbig else pos errno

-- The transaction of vinode_truncate: the error, if any, and the file.
pub truncate_with_tree : Environment → (size : ℕ) → Vinode → Run (Option ℤ × Vinode)
unfolding grow_space
truncate_with_tree env size v =
    vinode_remove_interval env.relocated (env.find v.blocks) size (2 ^ 64 - 1 - size) v.blocks
    >>= λ r. elim r [
      | none ↦ ok (some (too_big env.abort_errno), record (count_removal v) { has_tree = false })
      | some kept ↦ grow_space env v size kept.0 >>= λ g. elim g [
        | none ↦ ok (some (too_big env.abort_errno), record (count_removal v) { has_tree = false })
        | some filled ↦ ok (
          none,
          record (count_removal v) {
            blocks = filled.0;
            allocated_space = v.allocated_space - kept.1 + filled.1;
            size = size;
            mtime = if v.size == size then v.mtime else env.clock 0;
            ctime = if v.size == size then v.ctime else env.clock 0;
          },
        )
      ]
    ]

pub vinode_truncate : Environment → (size : ℕ) → Vinode → Run (Option ℤ × Vinode)
unfolding truncate_with_tree
vinode_truncate env size v = ensure_tree env v >>= λ t. elim t.0 [
  | some e ↦ ok (some e, t.1)
  | none ↦ truncate_with_tree env size t.1
]

-- pmemfile_ftruncate, with the pool and the file not NULL.
unfoldable pub pmemfile_ftruncate :
    Environment → (length : ℤ) → Vinode → Handle → Run (Answer × Vinode)
unfolding vinode_truncate
pmemfile_ftruncate env (negsuc n) v file = ok (fail einval, v)
pmemfile_ftruncate env (pos length) v file =
    if is_directory v.kind
    then ok (fail einval, v)
    else if file.path_only
    then ok (fail ebadf, v)
    else if not file.can_write
    then ok (fail einval, v)
    else if not (is_regular v.kind)
    then ok (fail einval, v)
    else vinode_truncate env length v >>= λ r. ok (answer_of r.0, r.1)

-- The bits of `mode`.
abbrev pub keep_size : ℕ → Bool
keep_size mode = test_bit mode 0

abbrev pub punch_hole : ℕ → Bool
punch_hole mode = test_bit mode 1

-- The transaction of vinode_fallocate on an interval that is not empty.
pub fallocate_blocks :
    Environment → (mode offset length off_plus_len : ℕ) → Vinode → Run (Option ℤ × Vinode)
fallocate_blocks env mode offset length off_plus_len v =
    if punch_hole mode
    then (if not (keep_size mode)
        then fault assertion
        else vinode_remove_interval env.relocated (env.find v.blocks) offset length v.blocks
          >>= λ r. elim r [
            | none ↦
                ok (some (no_space env.abort_errno), record (count_removal v) { has_tree = false })
            | some kept ↦ ok (
              none,
              record (count_removal v) {
                blocks = kept.0;
                allocated_space = v.allocated_space - kept.1;
              },
            )
          ])
    else vinode_allocate_interval env.allocated env.fresh (env.find v.blocks)
        env.overallocate_on_append v.size offset length v.blocks
      >>= λ g. elim g [
        | none ↦ ok (some (no_space env.abort_errno), record v { has_tree = false })
        | some filled ↦ ok (
          none,
          record v {
            blocks = filled.0;
            allocated_space = v.allocated_space + filled.1;
            size = if not (keep_size mode) && ltb v.size off_plus_len then off_plus_len else v.size;
          },
        )
      ]

-- vinode_fallocate from the test of the length on.
pub fallocate_expanded :
    Environment → (mode offset length off_plus_len : ℕ) → Vinode → Run (Option ℤ × Vinode)
unfolding fallocate_blocks
fallocate_expanded env mode offset length off_plus_len v =
    if length == 0
    then ok (none, v)
    else ensure_tree env v >>= λ t. elim t.0 [
      | some e ↦ ok (some e, t.1)
      | none ↦ fallocate_blocks env mode offset length off_plus_len t.1
    ]

pub vinode_fallocate : Environment → (mode offset length : ℕ) → Vinode → Run (Option ℤ × Vinode)
unfolding fallocate_expanded expand_to_full_pages
vinode_fallocate env mode offset length v =
    if not (is_regular v.kind)
    then ok (some ebadf, v)
    else let i =
        (if punch_hole mode then (offset, length) else expand_to_full_pages offset length) in
      fallocate_expanded env mode i.0 i.1 ((offset + length) % 2 ^ 64) v

-- The error for the arguments, if any.
unfoldable pub fallocate_check_arguments : (mode : ℕ) (offset length : ℤ) → Option ℤ
fallocate_check_arguments mode (negsuc n) length = some einval
fallocate_check_arguments mode (pos offset) (negsuc n) = some einval
fallocate_check_arguments mode (pos offset) (pos length) =
    if length == 0
    then some einval
    else if ltb int64_max (offset + length)
    then some efbig
    else if test_bit mode 3 || test_bit mode 4 || test_bit mode 5
    then some eopnotsupp
    else if punch_hole mode
    then (if mode == 3 then none else some eopnotsupp)
    else if mode / 2 == 0
    then none
    else some einval

abbrev pub size_of : ℤ → ℕ
size_of (pos n) = n
size_of (negsuc n) = 0

-- pmemfile_fallocate, with the pool and the file not NULL.
unfoldable pub pmemfile_fallocate :
    Environment → (mode : ℕ) (offset length : ℤ) → Vinode → Handle → Run (Answer × Vinode)
unfolding fallocate_check_arguments vinode_fallocate
pmemfile_fallocate env mode offset length v file =
    elim (fallocate_check_arguments mode offset length) [
      | some e ↦ ok (fail e, v)
      | none ↦
          if not file.can_write
          then ok (fail ebadf, v)
          else vinode_fallocate env mode (size_of offset) (size_of length) v >>= λ r.
              ok (answer_of r.0, r.1)
    ]

pub pmemfile_posix_fallocate :
    Environment → (offset length : ℤ) → Vinode → Handle → Run (Answer × Vinode)
pmemfile_posix_fallocate env = pmemfile_fallocate env 0
