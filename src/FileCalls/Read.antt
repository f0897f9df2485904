-- ===== src/FileCalls/Read.antt =====
-- Reading from a file (read.c). The lock of the vinode is held from the check of the tree to the end of the
-- copying, so that a call is one step but for handle_atime.
pub mod Pieces
pub mod Effect
use pmemfile.Prelude.{
  ℕ, ◌+◌, ◌-◌, ◌%◌, ◌^◌, Bool, true, false, ◌&&◌, not, Option, none, some, List, [], ◌∷◌, ltb, leb,
  ◌==◌, if◌then◌else◌,
}
use pmemfile.Prelude.Int.{ℤ, pos, negsuc, neg}
use pmemfile.Run.{Run, ok, fault, assertion, null_pointer, ◌>>=◌}
use pmemfile.Lseek.{int64_max}
use pmemfile.FileData.Copy.{read_range}
use pmemfile.FileCalls.{
  Time, time_lt, Vinode, Handle, Iov, Environment, Answer, done, fail, einval, blocks_at,
  find_closest_block_with_hint, pointer_or, ensure_tree, pmemfile_preadv_args_check, observe,
  current_pointer, advance, buffers_of,
}

-- The bytes that are there to be read.
abbrev pub readable : (size offset count : ℕ) → ℕ
readable size offset count = if ltb (size - offset) count then size - offset else count

-- The bytes read, the buffer, and the last block.
pub vinode_read :
    Environment
    → Vinode
    → (offset : ℕ) → (last_block : Option ℕ) → (ℕ → ℕ)
    → (count : ℕ) → Run (ℕ × (ℕ → ℕ) × Option ℕ)
unfolding blocks_at pointer_or
vinode_read env v offset last_block buf count =
    if leb v.size offset
    then ok (0, buf, last_block)
    else find_closest_block_with_hint (env.find v.blocks) offset last_block v.blocks >>= λ found.
        let block = blocks_at found v.blocks in
        let n = readable v.size offset count in
        read_range n v.blocks block block offset n buf 0 >>= λ r.
        ok (n, r.0, pointer_or last_block r.1)

-- The length that a turn of the loop on the buffers asks for.
pub len_to_read : (ret iov_len : ℕ) → ℕ
len_to_read ret iov_len =
    if ltb int64_max ((ret + iov_len) % 2 ^ 64) then int64_max - ret else iov_len

-- The loop on the buffers: the bytes read, the buffers as they are then, and the last block.
pub pmemfile_preadv_internal :
    Environment
    → Vinode
    → (offset ret : ℕ) → (last_block : Option ℕ) → List Iov
    → Run (ℕ × List Iov × Option ℕ)
unfolding vinode_read len_to_read
pmemfile_preadv_internal env v offset ret last_block [] = ok (ret, [], last_block)
pmemfile_preadv_internal env v offset ret last_block (e ∷ iov) =
    let len = len_to_read ret e.iov_len in
    elim e.iov_base [
      | none ↦ fault null_pointer
      | some buf ↦
          if ltb int64_max ((ret + len) % 2 ^ 64)
          then fault assertion
          else vinode_read env v offset last_block buf len >>= λ r.
              let read = record e { iov_base = some r.1 } in
              elim (r.0 == len) [
                | true ↦ pmemfile_preadv_internal env v (offset + r.0) (ret + r.0) r.2 iov >>= λ q.
                    ok (q.0, read ∷ q.1, q.2)
                | false ↦ ok (ret + r.0, read ∷ iov, r.2)
              ]
    ]

-- The time is less than a day before, and not before the changes of the file; `tm1d` is the time with a day
-- taken off, here put on the other side.
pub is_recent : Time → Vinode → Bool
unfolding time_lt
is_recent tm v =
    not (time_lt (record v.atime { sec = v.atime.sec + 86400 }) tm)
    && not (time_lt v.atime v.ctime)
    && not (time_lt v.atime v.mtime)

pub handle_atime : Time → (no_atime : Bool) → Vinode → Vinode
unfolding is_recent
handle_atime tm no_atime v =
    if no_atime
    then v
    else if is_recent tm v
    then v
    else record v { atime = tm; atime_dirty = true }

-- What a call returns: the answer, the buffers, the file, and the last block.
pub record HasRead : Type 0 where
  pub answer : Answer
  pub buffers : List Iov
  pub vinode : Vinode
  pub last_block : Option ℕ

-- The part of a call with the tree of the vinode, and handle_atime after it.
pub read_with_tree :
    Environment
    → (no_atime : Bool) (offset : ℕ) → (last_block : Option ℕ) → List Iov
    → Vinode
    → Run HasRead
unfolding pmemfile_preadv_internal handle_atime
read_with_tree env no_atime offset last_block iov v =
    pmemfile_preadv_internal env v offset 0 last_block iov >>= λ r. ok (record {
      answer = done r.0;
      buffers = r.1;
      vinode = handle_atime (env.clock 0) no_atime v;
      last_block = r.2;
    })

-- vinode_rdlock_with_block_tree: the value other than 0 that it returns, if it does, and the file. It negates
-- what vinode_rebuild_block_tree returns.
pub vinode_rdlock_with_block_tree : Environment → Vinode → Run (Option ℤ × Vinode)
unfolding ensure_tree
vinode_rdlock_with_block_tree env v =
    ensure_tree env v >>= λ t. elim t.0 [ none ↦ ok (none, t.1) | some e ↦ ok (some (neg e), t.1) ]

-- What a read returns of that: of a number below 0, the caller takes -1 for a failure, and errno is the one of
-- the allocation that failed.
abbrev pub read_failed : Environment → ℤ → Answer
read_failed env (pos n) = done n
read_failed env (negsuc n) = fail (pos env.abort_errno)

-- pmemfile_readv, with the pool and the file not NULL: the answer, the buffers, the file and the handle.
pub pmemfile_readv :
    Environment → Option (List Iov) → Vinode → Handle → Run (Answer × List Iov × Vinode × Handle)
unfolding read_with_tree vinode_rdlock_with_block_tree
pmemfile_readv env iov v file = elim (pmemfile_preadv_args_check v file iov) [
  | some e ↦ ok (fail e, buffers_of iov, v, file)
  | none ↦ elim (buffers_of iov) [
    | [] ↦ ok (done 0, [], v, file)
    | e ∷ es ↦ vinode_rdlock_with_block_tree env v >>= λ t. elim t.0 [
      | some r ↦ ok (read_failed env r, e ∷ es, v, file)
      | none ↦
          let seen = observe v file in
          read_with_tree env file.no_atime file.offset seen.block_pointer_cache (e ∷ es) t.1
          >>= λ r. ok (r.answer, r.buffers, r.vinode, advance seen r.answer r.last_block)
    ]
  ]
]

-- pmemfile_preadv, with the pool and the file not NULL.
pub pmemfile_preadv :
    Environment
    → Option (List Iov)
    → (offset : ℤ) → Vinode
    → Handle
    → Run (Answer × List Iov × Vinode)
unfolding read_with_tree vinode_rdlock_with_block_tree
pmemfile_preadv env iov (negsuc n) v file = ok (fail einval, buffers_of iov, v)
pmemfile_preadv env iov (pos offset) v file = elim (pmemfile_preadv_args_check v file iov) [
  | some e ↦ ok (fail e, buffers_of iov, v)
  | none ↦ elim (buffers_of iov) [
    | [] ↦ ok (done 0, [], v)
    | e ∷ es ↦ vinode_rdlock_with_block_tree env v >>= λ t. elim t.0 [
      | some r ↦ ok (read_failed env r, e ∷ es, v)
      | none ↦
          read_with_tree env file.no_atime offset (current_pointer v file) (e ∷ es) t.1 >>= λ r.
          ok (r.answer, r.buffers, r.vinode)
    ]
  ]
]

pub pmemfile_read :
    Environment
    → Option (ℕ → ℕ)
    → (count : ℕ) → Vinode
    → Handle
    → Run (Answer × List Iov × Vinode × Handle)
pmemfile_read env buf count =
    pmemfile_readv env (some (record { iov_base = buf; iov_len = count } ∷ []))

pub pmemfile_pread :
    Environment
    → Option (ℕ → ℕ)
    → (count : ℕ) (offset : ℤ) → Vinode
    → Handle
    → Run (Answer × List Iov × Vinode)
pmemfile_pread env buf count =
    pmemfile_preadv env (some (record { iov_base = buf; iov_len = count } ∷ []))
