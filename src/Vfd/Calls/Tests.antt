-- ===== src/Vfd/Calls/Tests.antt =====
-- Runs of the descriptor table, and the theorems about it at these inputs (vfd_table.c).
use mathlib.Core.Option.{some-injective}
use mathlib.Core.Path.{subst}
use pmemfile.Prelude.{
  ℕ, ◌<◌, ◌≡◌, ◌≢◌, refl, true, false, none, some, List, [], ◌∷◌, inl, if◌then◌else◌, arith,
}
use pmemfile.Prelude.Int.{ℤ, pos, negsuc, eqb_ℤ}
use pmemfile.Run.{Run, ok, ◌>>=◌}
use pmemfile.Vfd.{
  State, Resource, pool_file, blank, is_in_range, slot, can_be_in_vfd_table, entry_of,
}
use pmemfile.Vfd.Refs.{Counted, count_free}
use pmemfile.Vfd.Calls.{
  table_init, vfd_assign, vfd_dup, vfd_dup2, vfd_close, dup2_under_mutex, kernel_entry, file_entry,
}
use pmemfile.Vfd.Calls.Effects.{duplicated, dup2_slots, close_slots, dup2_outside, dup2_refused}
use pmemfile.Vfd.Calls.System.{
  Step, Reach, here, next, assign, started, moves, counts_exact, no_reuse,
}

-- A table of four slots after startup: entry 2 is the working directory's.
abbrev fresh : State
fresh = record {
  entries = blank ∷ blank ∷ record (kernel_entry (pos 9)) { ref_count = 1 } ∷ [];
  table = none ∷ none ∷ none ∷ none ∷ [];
  cwd = some 2;
  free = 1 ∷ 0 ∷ [];
  closed = [];
}

fresh_starts : table_init 4 (pos 9) ≡ some (ok fresh)
unfolding table_init
fresh_starts = refl

-- File 5 of pool 3 is opened at descriptor 1.
abbrev opened : State
opened = record fresh {
  entries =
      blank
      ∷ record (file_entry 3 5) { ref_count = 1 }
      ∷ record (kernel_entry (pos 9)) { ref_count = 1 }
      ∷ [];
  table = none ∷ some 1 ∷ none ∷ none ∷ [];
  free = 0 ∷ [];
}

opens : vfd_assign (pos 1) 3 5 fresh ≡ ok (pos 1, opened)
unfolding vfd_assign
opens = refl

-- The file stays open through a duplicate, and is closed with the last descriptor.
abbrev session : Run (List Resource × List Resource)
session = do
  (_, both) ← vfd_dup (pos 1) (pos 2) opened
  (_, one) ← vfd_close (pos 1) (pos 0) both
  (_, neither) ← vfd_close (pos 2) (pos 0) one
  ok (one.closed, neither.closed)

closes_last : session ≡ ok ([], pool_file 3 5 ∷ [])
unfolding vfd_dup vfd_close
closes_last = refl

abbrev opening : Step (started fresh) (moves (started fresh) opened)
opening = assign (pos 1) 3 5 (pos 1) opened refl opens

abbrev history : Reach (started fresh) (moves (started fresh) opened)
history = next here opening

counts_exact_example : Counted opened (λ _. 0)
counts_exact_example =
    counts_exact 4 (pos 9) fresh (moves (started fresh) opened) fresh_starts history

no_reuse_example : count_free opened.free 1 ≡ 0
no_reuse_example =
    no_reuse 4 (pos 9) fresh (moves (started fresh) opened) fresh_starts history (pos 1) 1
      (inl refl)

in_table : (n : ℕ) → n < 4 → is_in_range opened (pos n) ≡ true
unfolding is_in_range
in_table n h = ground arith

dup2_slots_example :
    (s' : State) × (dup2_under_mutex (pos 1) (pos 3) opened ≡ ok (pos 3, s'))
    × ((vfd : ℤ) → slot s' vfd ≡ duplicated opened (pos 1) (pos 3) vfd)
dup2_slots_example =
    dup2_slots opened (pos 1) (pos 3) (in_table 1 (omega arith)) (in_table 3 (omega arith))

files_only :
    (e : ℕ) → slot opened (pos 1) ≡ some e → (entry_of opened e).is_special_cwd_desc ≡ false
files_only e h =
    subst (λ k. (entry_of opened k).is_special_cwd_desc ≡ false) (some-injective 1 e h) refl

close_slots_example :
    (s' : State) × (vfd_close (pos 1) (pos 0) opened ≡ ok (pos 0, s'))
    × ((w : ℤ) → slot s' w ≡ (if eqb_ℤ w (pos 1) then none else slot opened w))
close_slots_example = close_slots opened (pos 1) (pos 0) (in_table 1 (omega arith)) files_only

outside : is_in_range opened (negsuc 0) ≡ false
unfolding is_in_range
outside = refl

occupied : can_be_in_vfd_table opened (pos 1) ≡ true
unfolding can_be_in_vfd_table
occupied = refl

-- dup2(-1, 1), to which the kernel answers -EBADF
dup2_outside_example : vfd_dup2 false (negsuc 0) (pos 1) (negsuc 8) opened ≢ ok (negsuc 8, opened)
dup2_outside_example =
    dup2_outside false opened (negsuc 0) (pos 1) (negsuc 8) (negsuc 8, opened) outside occupied

-- dup2(3, 1) with descriptor 3 not open, to which the kernel answers -EBADF
dup2_refused_example :
    (s' : State) × (vfd_dup2 false (pos 3) (pos 1) (negsuc 8) opened ≡ ok (negsuc 8, s'))
    × (slot s' (pos 1) ≡ none)
dup2_refused_example =
    dup2_refused opened (pos 3) (pos 1) (negsuc 8) (in_table 3 (omega arith)) refl occupied
