-- ===== src/FileCalls/Sequences.antt =====
-- Calls that change a file, by several handles, one after another (write.c, truncate.c, fallocate.c). The lock of
-- the vinode makes each of them one step.
pub mod Fresh
pub mod Step
pub mod Outcomes
pub mod Writes
pub mod Resizes
pub mod Refinement
use pmemfile.Prelude.{
  ℕ, ◌+◌, ◌-◌, Bool, true, false, not, ◌&&◌, Option, none, some, List, [], ◌∷◌, ltb, leb, ◌==◌,
  if◌then◌else◌,
}
use pmemfile.Prelude.Int.{ℤ, pos}
use pmemfile.Run.{Run, ok, ◌>>=◌}
use pmemfile.FileData.Copy.Writing.{overwritten}
use pmemfile.FileData.Removal.Zeros.{punched}
use pmemfile.FileCalls.{Vinode, Handle, Iov, Environment, Answer, done, fail, is_regular, all_bases}
use pmemfile.FileCalls.Contents.{gathered, lengths}
use pmemfile.FileCalls.Write.{pmemfile_writev, pmemfile_pwritev}
use pmemfile.FileCalls.Resize.{
  keep_size, punch_hole, pmemfile_ftruncate, fallocate_check_arguments, pmemfile_fallocate,
}
use pmemfile.FileCalls.Resize.Truncate.{cut_at}

pub data Request : Type 0 where
  writev : List Iov → Request
  pwritev : List Iov → (offset : ℕ) → Request
  ftruncate : (length : ℕ) → Request
  fallocate : (mode offset length : ℕ) → Request

-- A file and the handles on it, by number.
pub record Shared : Type 0 where
  pub file : Vinode
  pub handles : ℕ → Handle

abbrev pub with_handle : (ℕ → Handle) → ℕ → Handle → ℕ → Handle
with_handle handles i h j = if j == i then h else handles j

-- A call by a handle.
pub make_call : Environment → ℕ → Request → Shared → Run (Answer × Shared)
make_call env i (writev iov) s = pmemfile_writev env (some iov) s.file (s.handles i) >>= λ r.
    ok (r.0, record { file = r.1; handles = with_handle s.handles i r.2 })
make_call env i (pwritev iov offset) s =
    pmemfile_pwritev env (some iov) (pos offset) s.file (s.handles i) >>= λ r.
    ok (r.0, record s { file = r.1 })
make_call env i (ftruncate length) s =
    pmemfile_ftruncate env (pos length) s.file (s.handles i) >>= λ r.
    ok (r.0, record s { file = r.1 })
make_call env i (fallocate mode offset length) s =
    pmemfile_fallocate env mode (pos offset) (pos length) s.file (s.handles i) >>= λ r.
    ok (r.0, record s { file = r.1 })

-- What the calls promise, of a file that is a size and its bytes: where a write starts, the size and the bytes
-- after a call that succeeds, and what it returns.
abbrev pub start_of : Handle → (offset size : ℕ) → ℕ
start_of h offset size = if h.append then size else offset

abbrev pub extended : (start len size : ℕ) → ℕ
extended start len size = if ltb 0 len && ltb size (start + len) then start + len else size

abbrev pub size_after : Handle → Request → ℕ → ℕ
size_after h (writev iov) size = extended (start_of h h.offset size) (lengths iov) size
size_after h (pwritev iov offset) size = extended (start_of h offset size) (lengths iov) size
size_after h (ftruncate length) size = length
size_after h (fallocate mode offset length) size =
    if punch_hole mode
    then size
    else if not (keep_size mode) && ltb size (offset + length)
    then offset + length
    else size

abbrev pub bytes_after : Handle → Request → (size : ℕ) → (ℕ → ℕ) → ℕ → ℕ
bytes_after h (writev iov) size f =
    overwritten (start_of h h.offset size) (lengths iov) (gathered iov) 0 f
bytes_after h (pwritev iov offset) size f =
    overwritten (start_of h offset size) (lengths iov) (gathered iov) 0 f
bytes_after h (ftruncate length) size f = cut_at length f
bytes_after h (fallocate mode offset length) size f =
    if punch_hole mode then punched offset length f else f

abbrev pub value_of : Request → ℕ
value_of (writev iov) = lengths iov
value_of (pwritev iov offset) = lengths iov
value_of (ftruncate length) = 0
value_of (fallocate mode offset length) = 0

-- The offset of the handle after a call that succeeds.
abbrev pub offset_after : Handle → Request → ℕ
offset_after h (writev iov) = h.offset + lengths iov
offset_after h (pwritev iov offset) = h.offset
offset_after h (ftruncate length) = h.offset
offset_after h (fallocate mode offset length) = h.offset

abbrev pub is_none : Option ℤ → Bool
is_none none = true
is_none (some e) = false

-- The arguments and the handle allow the call.
pub permitted : Vinode → Handle → Request → Bool
permitted v h (writev iov) = is_regular v.kind && h.can_write && all_bases iov
permitted v h (pwritev iov offset) = is_regular v.kind && h.can_write && all_bases iov
permitted v h (ftruncate length) = is_regular v.kind && h.can_write && not h.path_only
permitted v h (fallocate mode offset length) =
    is_regular v.kind
    && h.can_write
    && is_none (fallocate_check_arguments mode (pos offset) (pos length))
