-- ===== src/Vfd/Calls/Init.antt =====
-- Startup of the descriptor table (vfd_table.c, pmemfile_vfd_table_init).
use pmemfile.Prelude.{
  ℕ, zero, suc, ◌≡◌, ap, some, get_or-replicate, length-replicate, ltb, if◌then◌else◌, arith, inl,
  inr,
}
use pmemfile.Prelude.Int.{ℤ, pos, negsuc}
use mathlib.Core.Path.{subst}
use pmemfile.Run.{ok}
use pmemfile.Vfd.{State}
use pmemfile.Vfd.Refs.{occurs, count-replicate, count_free, Counted, allocate_cases}
use pmemfile.Vfd.Calls.{free_slots, start, kernel_entry, table_init}

count_free-free_slots : (n e : ℕ) → count_free (free_slots n) e ≡ (if ltb e n then 1 else 0)
unfolding count_free free_slots
count_free-free_slots zero e = ground arith
count_free-free_slots (suc n) e = ground (arith, count_free-free_slots n e)

start-Counted : (size : ℕ) → Counted (start size) (λ _. 0)
unfolding start
start-Counted size = record {
  counts = λ e. rw (get_or-replicate, count-replicate) (omega arith);
  free = λ e. rw (get_or-replicate, length-replicate, count_free-free_slots) (ground arith);
}

-- The table starts counted, with no reference held: the first entry is the working directory's.
pub table_init-Counted :
    (size : ℕ) (fd : ℤ) (s : State) → table_init size fd ≡ some (ok s) → Counted s (λ _. 0)
unfolding table_init
table_init-Counted size (negsuc n) s h = cc
table_init-Counted size (pos fd) s h =
    elim (allocate_cases (kernel_entry (pos fd)) (start-Counted size)) [
      | inl full ↦ cc (rw full at h)
      | inr (e, s', got, c, t, w) ↦
          let s1 : State = record s' { cwd = some e } in
          let same : s1 ≡ s = cc (rw got at h) in
          let none_before = (λ (d : ℕ). ap (λ o. occurs o d) w) in
          subst (λ z. Counted z (λ _. 0)) same
            (record { counts = λ d. omega (arith, c.counts d, none_before d); free = c.free })
    ]
