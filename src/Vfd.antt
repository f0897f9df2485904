-- ===== src/Vfd.antt =====
-- The table of virtual file descriptors (src/libpmemfile/vfd_table.c).
-- Entries are numbered as they stand in the array `store` of setup_free_slots; `none` is NULL.
-- `closed` lists what the code has closed, latest first; what the kernel and pmemfile-posix answer
-- to a call (dup, fchdir, open, pmemfile_fchdir) is an argument.
pub mod Refs
pub mod Calls
use pmemfile.Prelude.{
  ℕ, zero, suc, ◌+◌, ◌-◌, Bool, true, false, ◌&&◌, ◌||◌, not, Option, none, some, List, [], ◌∷◌,
  length, get_or, set, replicate, ltb, ◌==◌, if◌then◌else◌,
}
use pmemfile.Prelude.Int.{ℤ, pos, negsuc, eqb_ℤ, ltb_ℤ}
use pmemfile.Run.{Run, ok, fault, out_of_bounds, null_pointer, ◌>>=◌}

pub record Entry : Type 0 where
  pub pool : ℕ
  pub file : ℕ
  pub kernel_cwd_fd : ℤ
  pub is_special_cwd_desc : Bool
  pub ref_count : ℕ

-- A zeroed entry.
abbrev pub blank : Entry
blank = record {
  pool = 0;
  file = 0;
  kernel_cwd_fd = pos 0;
  is_special_cwd_desc = false;
  ref_count = 0;
}

pub data Resource : Type 0 where
  kernel_fd : ℤ → Resource
  pool_file : ℕ → ℕ → Resource

pub record State : Type 0 where
  pub entries : List Entry
  pub table : List (Option ℕ)
  pub cwd : Option ℕ
  pub free : List ℕ
  pub closed : List Resource

pub record Reference : Type 0 where
  pub pool : ℕ
  pub file : ℕ
  pub kernel_fd : ℤ
  pub internal : Option ℕ

-- -ENOMEM, -EINVAL, -ENFILE
abbrev pub enomem : ℤ
enomem = negsuc 11

abbrev pub einval : ℤ
einval = negsuc 21

abbrev pub enfile : ℤ
enfile = negsuc 22

abbrev pub entry_of : State → ℕ → Entry
entry_of s e = get_or s.entries e blank

abbrev pub with_count : Entry → ℕ → Entry
with_count d n = record d { ref_count = n }

pub ref_count_inc : ℕ → State → State
ref_count_inc e s =
    let d = entry_of s e in record s { entries = set s.entries e (with_count d (d.ref_count + 1)) }

pub ref_entry : Option ℕ → State → State
unfolding ref_count_inc
ref_entry none s = s
ref_entry (some e) s = ref_count_inc e s

abbrev pub resource_of : Entry → Resource
resource_of d = if d.is_special_cwd_desc then kernel_fd d.kernel_cwd_fd else pool_file d.pool d.file

-- The count falls; at zero the resource is closed and the entry goes back to the free slots.
pub unref_entry : Option ℕ → State → State
unref_entry none s = s
unref_entry (some e) s =
    let d = entry_of s e in
    let s' = record s { entries = set s.entries e (with_count d (d.ref_count - 1)) } in
    if d.ref_count - 1 == 0
    then record s' { closed = resource_of d ∷ s.closed; free = e ∷ s.free }
    else s'

pub vfd_unref : Reference → State → State
unfolding unref_entry
vfd_unref r s = unref_entry r.internal s

-- fetch_free_file_slot, then the initialisation `*entry = …` with a count of one.
pub allocate : Entry → State → Option ℕ × State
allocate d s = elim s.free [
  | [] ↦ (none, s)
  | e ∷ rest ↦ (some e, record s { free = rest; entries = set s.entries e (with_count d 1) })
]

pub is_in_range : State → ℤ → Bool
is_in_range s (pos n) = ltb n (length s.table)
is_in_range s (negsuc n) = false

abbrev pub slot : State → ℤ → Option ℕ
slot s (pos n) = get_or s.table n none
slot s (negsuc n) = none

-- `vfd_table[vfd]` as the code reads it where it makes no test first.
pub slot_at : State → ℤ → Run (Option ℕ)
unfolding is_in_range
slot_at s vfd = if is_in_range s vfd then ok (slot s vfd) else fault out_of_bounds

abbrev pub is_some : Option ℕ → Bool
is_some none = false
is_some (some e) = true

pub can_be_in_vfd_table : State → ℤ → Bool
unfolding is_in_range
can_be_in_vfd_table s vfd = is_in_range s vfd && is_some (slot s vfd)

abbrev pub kernel_reference : ℤ → Reference
kernel_reference vfd = record { pool = 0; file = 0; kernel_fd = vfd; internal = none }

-- A reference to what stands in the table at `vfd`.
reference_to : ℤ → Option ℕ → State → Reference × State
unfolding ref_count_inc
reference_to vfd none s = (kernel_reference vfd, s)
reference_to vfd (some e) s =
    let d = entry_of s e in
    (
      record { pool = d.pool; file = d.file; kernel_fd = pos 0; internal = some e },
      ref_count_inc e s,
    )

-- pmemfile_ref_vfd_under_mutex, at an index in range.
pub ref_under_mutex : ℤ → State → Reference × State
unfolding reference_to
ref_under_mutex vfd s = reference_to vfd (slot s vfd) s

pub vfd_ref : ℤ → State → Reference × State
unfolding can_be_in_vfd_table ref_under_mutex
vfd_ref vfd s =
    if can_be_in_vfd_table s vfd then ref_under_mutex vfd s else (kernel_reference vfd, s)

cwd_reference : Option ℕ → State → Run (Reference × State)
unfolding ref_count_inc
cwd_reference none s = fault null_pointer
cwd_reference (some e) s =
    let d = entry_of s e in
    ok (
      record { pool = d.pool; file = d.file; kernel_fd = d.kernel_cwd_fd; internal = some e },
      ref_count_inc e s,
    )

-- The table is set up before `cwd_entry` is first read.
pub get_fdcwd_reference : State → Run (Reference × State)
unfolding cwd_reference
get_fdcwd_reference s = cwd_reference s.cwd s

-- AT_FDCWD is -100.
pub vfd_at_ref : ℤ → State → Run (Reference × State)
unfolding vfd_ref get_fdcwd_reference
vfd_at_ref vfd s = if eqb_ℤ vfd (negsuc 99) then get_fdcwd_reference s else ok (vfd_ref vfd s)
