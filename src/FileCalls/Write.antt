-- ===== src/FileCalls/Write.antt =====
-- Writing to a file (write.c). The comparison of the space allocated with the space expected is that of a
-- build with `ASSERT`; the verification that DEBUG adds after a successful check is left out.
pub mod Piece
pub mod Loop
pub mod Space
pub mod Effect
pub mod Outcome
use pmemfile.Prelude.{
  ℕ, ◌+◌, ◌-◌, ◌*◌, ◌%◌, ◌^◌, Bool, true, false, ◌&&◌, ◌||◌, Option, none, some, List, [], ◌∷◌, ltb,
  leb, ◌==◌, if◌then◌else◌,
}
use pmemfile.Prelude.Int.{ℤ, pos, negsuc}
use pmemfile.Run.{Run, ok, fault, assertion, null_pointer, ◌>>=◌}
use pmemfile.Lseek.{int64_max}
use pmemfile.FileData.{BlockDesc, covers}
use pmemfile.FileData.Copy.{in_block_len, write_at}
use pmemfile.FileData.Allocate.{vinode_allocate_interval}
use pmemfile.FileData.Allocated.{vinode_is_interval_allocated}
use pmemfile.FileCalls.{
  Time, Vinode, Handle, Iov, Environment, Answer, done, fail, enomem, efault, einval, enospc,
  blocks_at, follow, find_closest_block_with_hint, pointer_or, ensure_tree,
  pmemfile_pwritev_args_check, observe, current_pointer, advance, buffers_of,
}

-- The block that iterate_on_file_range returns when writing: the last one that it has written to.
pub last_written : List BlockDesc → (offset len : ℕ) → Option BlockDesc → Option BlockDesc
last_written [] offset len last = last
last_written (b ∷ next) offset len last =
    let n = in_block_len b offset len in
    let rest = last_written next (offset + n) (len - n) (some b) in if len == 0 then last else rest

abbrev pub start_or : Option ℕ → Option BlockDesc → Option ℕ
start_or last_block none = last_block
start_or last_block (some b) = some b.block.offset

-- Where the look-up finds no block, iterate_on_file_range fails its ASSERT on NULL.
pub vinode_write :
    Environment
    → (offset count : ℕ) → (last_block : Option ℕ) → (ℕ → ℕ)
    → Vinode
    → Run (Vinode × Option ℕ)
unfolding last_written
vinode_write env offset count last_block buf v =
    if count == 0
    then fault assertion
    else find_closest_block_with_hint (env.find v.blocks) offset last_block v.blocks >>= λ found.
        elim found [
          | none ↦ fault assertion
          | some i ↦ write_at i v.blocks offset count buf >>= λ bs. ok (
            record v { blocks = bs },
            start_or last_block (last_written (blocks_at (some i) v.blocks) offset count none),
          )
        ]

-- An error of an aborted transaction, with ENOMEM changed.
abbrev pub no_space : ℕ → ℤ
no_space errno = if errno == enomem then enospc else pos errno

pub pmemfile_allocate_space :
    Environment → (offset len : ℕ) → (expect_changes : Bool) → Vinode → Run (Option ℤ × Vinode)
pmemfile_allocate_space env offset len expect_changes v =
    vinode_allocate_interval env.allocated env.fresh (env.find v.blocks) env.overallocate_on_append
      v.size offset len v.blocks
    >>= λ r. elim r [
      | none ↦ ok (some (no_space env.abort_errno), record v { has_tree = false })
      | some filled ↦
          let allocated_space = v.allocated_space + filled.1 in
          let changed = (if v.allocated_space == allocated_space then false else true) in
          if (if expect_changes then changed else if changed then false else true)
          then ok (none, record v { blocks = filled.0; allocated_space = allocated_space })
          else fault assertion
    ]

-- The length that a turn of the loop that adds up the lengths takes of a buffer.
pub len_to_add : (offset sum_len iov_len : ℕ) → ℕ
len_to_add offset sum_len iov_len =
    let len1 = (if ltb int64_max iov_len then int64_max else iov_len) in
    let len2 = (if ltb int64_max ((sum_len + len1) % 2 ^ 64) then int64_max - sum_len else len1) in
    if ltb ((offset + sum_len + len2) % 2 ^ 64) offset then 2 ^ 64 - 1 - offset - sum_len else len2

pub sum_lens : (offset sum_len : ℕ) → List Iov → ℕ
unfolding len_to_add
sum_lens offset sum_len [] = sum_len
sum_lens offset sum_len (e ∷ iov) =
    let len = len_to_add offset sum_len e.iov_len in
    let rest = sum_lens offset (sum_len + len) iov in
    if len == e.iov_len then rest else sum_len + len

-- The length that a turn of the loop that writes takes of a buffer.
pub len_to_write : (offset ret iov_len : ℕ) → ℕ
len_to_write offset ret iov_len =
    let len1 = (if ltb int64_max iov_len then int64_max else iov_len) in
    let len2 = (if ltb int64_max ((ret + len1) % 2 ^ 64) then int64_max - ret else len1) in
    if ltb ((offset + len2) % 2 ^ 64) offset then 2 ^ 64 - 1 - offset else len2

-- The loop that writes: the bytes written, the file and the last block.
pub write_loop :
    Environment
    → (offset ret : ℕ) → (last_block : Option ℕ) → List Iov
    → Vinode
    → Run (ℕ × Vinode × Option ℕ)
unfolding vinode_write len_to_write
write_loop env offset ret last_block [] v = ok (ret, v, last_block)
write_loop env offset ret last_block (e ∷ iov) v =
    let len = len_to_write offset ret e.iov_len in
    elim e.iov_base [
      | none ↦ fault null_pointer
      | some buf ↦
          (if ltb 0 len then vinode_write env offset len last_block buf v else ok (v, last_block))
          >>= λ r. elim (len == e.iov_len) [
            | true ↦ write_loop env (offset + len) (ret + len) r.1 iov r.0
            | false ↦ ok (ret + len, r.0, r.1)
          ]
    ]

-- tm_diff >= 1000000
pub took_long : Time → Time → Bool
took_long starttm tm =
    leb (starttm.sec * 1000000000 + starttm.nsec + 1000000) (tm.sec * 1000000000 + tm.nsec)

-- The end of the call, after the write has come to an offset.
pub update_inode : (starttm tm : Time) (offset : ℕ) → Vinode → Vinode
unfolding took_long
update_inode starttm tm offset v =
    let update_size = ltb v.size offset in
    let update_mtime = took_long starttm tm || update_size in
    let update_atime = v.atime_dirty && (update_mtime || update_size) in
    record v {
      size = if update_size then offset else v.size;
      mtime = if update_mtime then tm else v.mtime;
      ctime = if update_size then tm else v.ctime;
      inode_atime = if update_atime then v.atime else v.inode_atime;
      atime_dirty = if update_atime then false else v.atime_dirty;
    }

-- From the update of mtime on, with the space allocated.
pub write_data :
    Environment
    → (offset : ℕ) → (last_block : Option ℕ) → List Iov
    → Vinode
    → Run (Answer × Vinode × Option ℕ)
unfolding write_loop update_inode
write_data env offset last_block iov v =
    write_loop env offset 0 last_block iov (record v { mtime = env.clock 0 }) >>= λ r.
    if r.0 == 0
    then fault assertion
    else ok (done r.0, update_inode (env.clock 0) (env.clock 1) (offset + r.0) r.1, r.2)

-- From the test of the space on. The look-up in the test gives the list from the block found on.
pub allocate_and_write :
    Environment
    → (offset sum_len : ℕ) → (last_block : Option ℕ) → List Iov
    → Vinode
    → Run (Answer × Vinode × Option ℕ)
unfolding pmemfile_allocate_space write_data
allocate_and_write env offset sum_len last_block iov v = follow last_block v.blocks >>= λ hint.
    vinode_is_interval_allocated (λ o. blocks_at (env.find v.blocks o) v.blocks) offset sum_len
      (blocks_at hint v.blocks)
    >>= λ enough. elim enough [
      | true ↦ write_data env offset last_block iov v
      | false ↦ pmemfile_allocate_space env offset sum_len true v >>= λ r. elim r.0 [
        | some e ↦ ok (fail e, r.1, last_block)
        | none ↦ write_data env offset last_block iov r.1
      ]
    ]

-- The call once the file has its tree: the answer, the file, and the last block used.
pub write_with_tree :
    Environment
    → (append : Bool) (offset : ℕ) → (last_block : Option ℕ) → List Iov
    → Vinode
    → Run (Answer × Vinode × Option ℕ)
unfolding sum_lens allocate_and_write
write_with_tree env append offset last_block iov v =
    let start = (if append then v.size else offset) in
    let sum_len = sum_lens start 0 iov in
    if sum_len == 0
    then ok (done 0, v, last_block)
    else allocate_and_write env start sum_len last_block iov v

pub pmemfile_pwritev_internal :
    Environment
    → (append : Bool) (offset : ℕ) → (last_block : Option ℕ) → List Iov
    → Vinode
    → Run (Answer × Vinode × Option ℕ)
unfolding write_with_tree
pmemfile_pwritev_internal env append offset last_block iov v = ensure_tree env v >>= λ t. elim t.0 [
  | some e ↦ ok (fail e, t.1, last_block)
  | none ↦ write_with_tree env append offset last_block iov t.1
]

-- pmemfile_writev_under_filelock after the checks.
unfoldable pub writev_checked :
    Environment → List Iov → Vinode → Handle → Run (Answer × Vinode × Handle)
unfolding pmemfile_pwritev_internal
writev_checked env [] v file = ok (done 0, v, file)
writev_checked env (e ∷ es) v file =
    let seen = observe v file in
    pmemfile_pwritev_internal env file.append file.offset seen.block_pointer_cache (e ∷ es) v
    >>= λ r. ok (r.0, r.1, advance seen r.0 r.2)

-- pmemfile_writev, with the pool and the file not NULL.
unfoldable pub pmemfile_writev :
    Environment → Option (List Iov) → Vinode → Handle → Run (Answer × Vinode × Handle)
unfolding writev_checked
pmemfile_writev env iov v file = elim (pmemfile_pwritev_args_check v file iov) [
  | some e ↦ ok (fail e, v, file)
  | none ↦ writev_checked env (buffers_of iov) v file
]

-- pmemfile_pwritev after the checks.
unfoldable pub pwritev_checked :
    Environment → List Iov → (offset : ℕ) → Vinode → Handle → Run (Answer × Vinode)
unfolding pmemfile_pwritev_internal
pwritev_checked env [] offset v file = ok (done 0, v)
pwritev_checked env (e ∷ es) offset v file =
    pmemfile_pwritev_internal env file.append offset (current_pointer v file) (e ∷ es) v >>= λ r.
    ok (r.0, r.1)

-- pmemfile_pwritev, with the pool and the file not NULL.
unfoldable pub pmemfile_pwritev :
    Environment → Option (List Iov) → (offset : ℤ) → Vinode → Handle → Run (Answer × Vinode)
unfolding pwritev_checked
pmemfile_pwritev env iov (negsuc n) v file = ok (fail einval, v)
pmemfile_pwritev env iov (pos offset) v file = elim (pmemfile_pwritev_args_check v file iov) [
  | some e ↦ ok (fail e, v)
  | none ↦ pwritev_checked env (buffers_of iov) offset v file
]

pub pmemfile_write :
    Environment → Option (ℕ → ℕ) → (count : ℕ) → Vinode → Handle → Run (Answer × Vinode × Handle)
pmemfile_write env buf count =
    pmemfile_writev env (some (record { iov_base = buf; iov_len = count } ∷ []))

pub pmemfile_pwrite :
    Environment
    → Option (ℕ → ℕ)
    → (count : ℕ) (offset : ℤ) → Vinode
    → Handle
    → Run (Answer × Vinode)
pmemfile_pwrite env buf count =
    pmemfile_pwritev env (some (record { iov_base = buf; iov_len = count } ∷ []))
