-- ===== src/Vfd/Calls.antt =====
-- The calls that change the table of virtual file descriptors or the working directory
-- (vfd_table.c). Each runs under the table's mutex, but for the last `unref_entry` of a call,
-- which the code makes after it has unlocked.
pub mod Counts
mod Tests
pub mod Effects
pub mod System
pub mod Init
pub mod Moves
use pmemfile.Prelude.{
  ℕ, zero, suc, ◌+◌, ◌-◌, Bool, true, false, ◌&&◌, ◌||◌, not, Option, none, some, List, [], ◌∷◌,
  length, get_or, set, replicate, ltb, ◌==◌, if◌then◌else◌,
}
use pmemfile.Prelude.Int.{ℤ, pos, negsuc, eqb_ℤ, ltb_ℤ}
use pmemfile.Run.{Run, ok, fault, out_of_bounds, assertion, ◌>>=◌}
use pmemfile.Vfd.{
  Entry, State, Resource, kernel_fd, enomem, einval, enfile, entry_of, ref_count_inc, ref_entry,
  unref_entry, allocate, is_in_range, slot, slot_at, can_be_in_vfd_table, blank,
}

abbrev pub index : ℤ → ℕ
index (pos n) = n
index (negsuc n) = 0

-- Equality of two entry pointers.
abbrev pub eqb_entry : Option ℕ → Option ℕ → Bool
eqb_entry none none = true
eqb_entry none (some e) = false
eqb_entry (some d) none = false
eqb_entry (some d) (some e) = d == e

abbrev pub is_negative : ℤ → Bool
is_negative (pos n) = false
is_negative (negsuc n) = true

-- `vfd_table[vfd] = entry`, at an index in range.
abbrev pub store : ℤ → Option ℕ → State → State
store vfd entry s = record s { table = set s.table (index vfd) entry }

pub dup2_under_mutex : ℤ → ℤ → State → Run (ℤ × State)
unfolding ref_entry unref_entry is_in_range slot_at
dup2_under_mutex old new s =
    if is_negative new
    then ok (new, s)
    else if eqb_ℤ old new
    then ok (new, s)
    else if not (is_in_range s new)
    then ok (enomem, record s { closed = kernel_fd new ∷ s.closed })
    else slot_at s old >>= λ entry.
        let replaced = slot s new in
        if eqb_entry entry replaced
        then ok (new, s)
        else ok (new, store new entry (unref_entry replaced (ref_entry entry s)))

-- `answer` is what the kernel returns for the duplicate: of SYS_dup here, of SYS_fcntl with F_DUPFD
-- in pmemfile_vfd_fcntl_dup, which is otherwise the same.
pub vfd_dup : ℤ → ℤ → State → Run (ℤ × State)
unfolding can_be_in_vfd_table dup2_under_mutex
vfd_dup vfd answer s =
    if not (can_be_in_vfd_table s vfd) then ok (answer, s) else dup2_under_mutex vfd answer s

pub vfd_fcntl_dup : ℤ → ℤ → State → Run (ℤ × State)
unfolding can_be_in_vfd_table dup2_under_mutex
vfd_fcntl_dup vfd answer s =
    if not (can_be_in_vfd_table s vfd) then ok (answer, s) else dup2_under_mutex vfd answer s

-- `checked` says whether the build keeps `assert`.
pub vfd_dup2 : Bool → ℤ → ℤ → ℤ → State → Run (ℤ × State)
unfolding can_be_in_vfd_table dup2_under_mutex
vfd_dup2 checked old new answer s =
    if not (can_be_in_vfd_table s old) && not (can_be_in_vfd_table s new)
    then ok (answer, s)
    else if checked && not (eqb_ℤ answer new)
    then fault assertion
    else dup2_under_mutex old new s >>= λ r. ok (answer, r.1)

-- `other_flags` says whether `flags & ~O_CLOEXEC` is not zero.
pub vfd_dup3 : Bool → ℤ → ℤ → Bool → ℤ → State → Run (ℤ × State)
unfolding vfd_dup2
vfd_dup3 checked old new other_flags answer s =
    if eqb_ℤ old new
    then ok (einval, s)
    else if other_flags
    then ok (einval, s)
    else vfd_dup2 checked old new answer s

-- The part of pmemfile_vfd_close under the mutex: the entry that stood in the table.
pub close_locked : ℤ → State → Run (Option ℕ × State)
unfolding slot_at
close_locked vfd s = slot_at s vfd >>= λ entry. ok (entry, store vfd none s)

-- The rest of pmemfile_vfd_close, after the mutex.
pub close_unref : ℤ → Option ℕ × State → Run (ℤ × State)
unfolding unref_entry
close_unref answer (none, s) = ok (answer, s)
close_unref answer (some e, s) =
    if (entry_of s e).is_special_cwd_desc
    then fault assertion
    else ok (pos 0, unref_entry (some e) s)

-- `answer` is what the kernel returns for SYS_close.
pub vfd_close : ℤ → ℤ → State → Run (ℤ × State)
unfolding close_locked close_unref
vfd_close vfd answer s = close_locked vfd s >>= close_unref answer

abbrev pub file_entry : ℕ → ℕ → Entry
file_entry pool file = record blank { pool = pool; file = file; kernel_cwd_fd = negsuc 0 }

abbrev pub kernel_entry : ℤ → Entry
kernel_entry fd = record blank { kernel_cwd_fd = fd; is_special_cwd_desc = true }

-- `cwd_entry = entry`; the entry that it replaces is released after the mutex.
abbrev pub replace_cwd : ℕ → State → State
replace_cwd e s = unref_entry s.cwd (record s { cwd = some e })

-- The outcome of a request for an entry becomes the working directory; `undo` is what the code does
-- first where there was no free entry.
abbrev pub enter : (State → State) → Option ℕ × State → ℤ × State
enter undo (none, s) = (enomem, undo s)
enter undo (some e, s) = (pos 0, replace_cwd e s)

-- `refused` is the error of pmemfile_fchdir, if it fails.
pub vfd_chdir_pf : ℕ → ℕ → Option ℤ → State → ℤ × State
unfolding allocate unref_entry
vfd_chdir_pf pool file (some error) s = (error, s)
vfd_chdir_pf pool file none s = enter (λ s'. s') (allocate (file_entry pool file) s)

-- `answer` is what the kernel returns for SYS_fchdir.
pub vfd_chdir_kernel_fd : ℤ → ℤ → State → ℤ × State
unfolding allocate unref_entry
vfd_chdir_kernel_fd fd answer s =
    if not (eqb_ℤ answer (pos 0))
    then (answer, s)
    else enter (λ s'. s') (allocate (kernel_entry fd) s)

-- Where the kernel handles the directory, `copy` is what SYS_dup returns, and `answer` what SYS_fchdir
-- then returns for the copy.
pub fchdir_kernel : ℤ → ℤ → State → ℤ × State
unfolding allocate unref_entry
fchdir_kernel copy answer s =
    let result = (if is_negative copy then copy else answer) in
    if not (eqb_ℤ result (pos 0))
    then (result, s)
    else enter (λ s'. record s' { closed = kernel_fd copy ∷ s'.closed })
        (allocate (kernel_entry copy) s)

-- The entry at `vfd`, if any, becomes the working directory too, unless pmemfile_fchdir fails with
-- the error `refused`.
fchdir_entry : Option ℕ → Option ℤ → ℤ → ℤ → State → ℤ × State
unfolding ref_count_inc unref_entry fchdir_kernel
fchdir_entry (some e) (some error) copy answer s = (error, s)
fchdir_entry (some e) none copy answer s = (pos 0, replace_cwd e (ref_count_inc e s))
fchdir_entry none refused copy answer s = fchdir_kernel copy answer s

pub vfd_fchdir : ℤ → Option ℤ → ℤ → ℤ → State → ℤ × State
unfolding is_in_range fchdir_entry
vfd_fchdir vfd refused copy answer s =
    fchdir_entry (if is_in_range s vfd then slot s vfd else none) refused copy answer s

-- `memfd` is what SYS_memfd_create returns, if the kernel has it, and `opened` what opening
-- /dev/null returns.
pub acquire_new_fd : Option ℤ → ℤ → State → ℤ × State
acquire_new_fd memfd opened s =
    let fd : ℤ = elim memfd [ none ↦ opened | some m ↦ if is_negative m then opened else m ] in
    if not (ltb_ℤ fd (pos (length s.table)))
    then (enfile, record s { closed = kernel_fd fd ∷ s.closed })
    else (fd, s)

assign_to : ℤ → Option ℕ × State → Run (ℤ × State)
unfolding is_in_range
assign_to vfd (none, s) = ok (enomem, s)
assign_to vfd (some e, s) =
    if is_in_range s vfd then ok (vfd, store vfd (some e) s) else fault out_of_bounds

pub vfd_assign : ℤ → ℕ → ℕ → State → Run (ℤ × State)
unfolding allocate assign_to
vfd_assign vfd pool file s = assign_to vfd (allocate (file_entry pool file) s)

-- setup_free_slots: the entries 0, 1, … n - 1 are pushed in turn.
pub free_slots : ℕ → List ℕ
free_slots zero = []
free_slots (suc n) = n ∷ free_slots n

-- The statically zeroed arrays, after setup_free_slots.
pub start : ℕ → State
unfolding free_slots
start size = record {
  entries = replicate (size - 1) blank;
  table = replicate size none;
  cwd = none;
  free = free_slots (size - 1);
  closed = [];
}

-- setup_cwd, with what a request for an entry gives; the code asserts that it gives one.
enter_first : Option ℕ × State → Run State
enter_first (none, s) = fault assertion
enter_first (some e, s) = ok (record s { cwd = some e })

-- pmemfile_vfd_table_init, for a table of `size` slots and the answer of opening "."; the code has
-- a size of 0x8000. `none` where the code exits.
pub table_init : ℕ → ℤ → Option (Run State)
unfolding start allocate enter_first
table_init size (negsuc n) = none
table_init size (pos fd) = some (enter_first (allocate (kernel_entry (pos fd)) (start size)))
