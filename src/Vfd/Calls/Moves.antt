-- ===== src/Vfd/Calls/Moves.antt =====
-- The calls that make entries, share them or move the working directory keep the reference counts
-- (vfd_table.c).
use pmemfile.Prelude.{
  ℕ, ◌+◌, ◌≡◌, ap, Bool, ◌&&◌, not, Option, none, some, length, get_or, ltb, if◌then◌else◌, arith,
  Bool-cases, Option-cases, inl, inr,
}
use pmemfile.Prelude.Int.{ℤ, pos, negsuc, eqb_ℤ}
use pmemfile.Run.{
  fault, out_of_bounds, assertion, Ensures, Ensures-ok, Ensures-if, Ensures-bind, Ensures-fault,
}
use pmemfile.Vfd.{State, is_in_range, slot, can_be_in_vfd_table}
use pmemfile.Vfd.Refs.{occurs, Counted, allocate_cases, store-Counted}
use pmemfile.Vfd.Calls.Counts.{
  Counted-eq, slot-Counted, replace_cwd-Counted, enter-Counted, dup2_under_mutex-Ensures,
}
use pmemfile.Vfd.Calls.{
  is_negative, dup2_under_mutex, vfd_dup, vfd_dup2, vfd_dup3, vfd_fcntl_dup, vfd_assign, assign_to,
  vfd_chdir_pf, vfd_chdir_kernel_fd, acquire_new_fd, file_entry, fchdir_kernel, fchdir_entry,
  vfd_fchdir, kernel_entry,
}

module _ {s : State} {held : ℕ → ℕ} (c : Counted s held) where
  pub fchdir_kernel-Counted : (copy answer : ℤ) → Counted (fchdir_kernel copy answer s).1 held
  unfolding fchdir_kernel
  fchdir_kernel-Counted copy answer =
      elim (Bool-cases (eqb_ℤ (if is_negative copy then copy else answer) (pos 0))) [
        | inl h ↦ rw h (
            enter-Counted _ (kernel_entry copy) c
              (λ k. record { counts = k.counts; free = k.free }))
        | inr h ↦ rw h c
      ]

  pub vfd_fchdir-Counted :
      (vfd : ℤ) (refused : Option ℤ) (copy answer : ℤ)
      → Counted (vfd_fchdir vfd refused copy answer s).1 held
  unfolding vfd_fchdir
  vfd_fchdir-Counted vfd refused copy answer = elim (Bool-cases (is_in_range s vfd)) [
    | inr h ↦ rw h (fchdir_kernel-Counted copy answer)
    | inl h ↦ rw h (entry refused)
  ]
    where
      entry :
          (refused : Option ℤ) → Counted (fchdir_entry (slot s vfd) refused copy answer s).1 held
      entry none = elim (Option-cases (slot s vfd)) [
        | inl h ↦ rw h (fchdir_kernel-Counted copy answer)
        | inr (e, h) ↦ rw h (
            Counted-eq (replace_cwd-Counted (slot-Counted c vfd e h) e (λ d. omega arith))
              (λ d. omega arith))
      ]
      entry (some error) = elim (Option-cases (slot s vfd)) [
        | inl h ↦ rw h (fchdir_kernel-Counted copy answer)
        | inr (e, h) ↦ rw h c
      ]

  pub vfd_chdir_pf-Counted :
      (pool file : ℕ) (refused : Option ℤ) → Counted (vfd_chdir_pf pool file refused s).1 held
  unfolding vfd_chdir_pf
  vfd_chdir_pf-Counted pool file (some error) = c
  vfd_chdir_pf-Counted pool file none = enter-Counted _ (file_entry pool file) c (λ k. k)

  pub vfd_chdir_kernel_fd-Counted :
      (fd answer : ℤ) → Counted (vfd_chdir_kernel_fd fd answer s).1 held
  unfolding vfd_chdir_kernel_fd
  vfd_chdir_kernel_fd-Counted fd answer = elim (Bool-cases (eqb_ℤ answer (pos 0))) [
    | inl h ↦ rw h (enter-Counted _ (kernel_entry fd) c (λ k. k))
    | inr h ↦ rw h c
  ]

  pub acquire_new_fd-Counted :
      (memfd : Option ℤ) (opened : ℤ) → Counted (acquire_new_fd memfd opened s).1 held
  unfolding acquire_new_fd
  acquire_new_fd-Counted memfd opened = record {
    counts = λ e. ground (arith, c.counts e);
    free = λ e. ground (arith, c.free e);
  }

  pub vfd_dup-Ensures : (vfd answer : ℤ) → Ensures (λ r. Counted r.1 held) (vfd_dup vfd answer s)
  unfolding vfd_dup
  vfd_dup-Ensures vfd answer =
      Ensures-if (not (can_be_in_vfd_table s vfd)) _ _ (λ _. Ensures-ok _ c)
        (λ _. dup2_under_mutex-Ensures c vfd answer)

  pub vfd_fcntl_dup-Ensures :
      (vfd answer : ℤ) → Ensures (λ r. Counted r.1 held) (vfd_fcntl_dup vfd answer s)
  unfolding vfd_fcntl_dup
  vfd_fcntl_dup-Ensures vfd answer =
      Ensures-if (not (can_be_in_vfd_table s vfd)) _ _ (λ _. Ensures-ok _ c)
        (λ _. dup2_under_mutex-Ensures c vfd answer)

  pub vfd_dup2-Ensures :
      (checked : Bool) (old new answer : ℤ)
      → Ensures (λ r. Counted r.1 held) (vfd_dup2 checked old new answer s)
  unfolding vfd_dup2
  vfd_dup2-Ensures checked old new answer =
      Ensures-if (not (can_be_in_vfd_table s old) && not (can_be_in_vfd_table s new)) _ _
        (λ _. Ensures-ok _ c)
        λ _.
          Ensures-if (checked && not (eqb_ℤ answer new)) _ _ (λ _. Ensures-fault assertion)
            λ _.
              Ensures-bind (dup2_under_mutex old new s) _
                λ r h. Ensures-ok _ ((dup2_under_mutex-Ensures c old new).at r h)

  pub vfd_dup3-Ensures :
      (checked : Bool) (old new : ℤ) (other_flags : Bool) (answer : ℤ)
      → Ensures (λ r. Counted r.1 held) (vfd_dup3 checked old new other_flags answer s)
  unfolding vfd_dup3
  vfd_dup3-Ensures checked old new other_flags answer =
      Ensures-if (eqb_ℤ old new) _ _ (λ _. Ensures-ok _ c)
        λ _.
          Ensures-if other_flags _ _ (λ _. Ensures-ok _ c)
            (λ _. vfd_dup2-Ensures checked old new answer)

  -- A new entry is put in a slot of the table that is empty.
  pub vfd_assign-Ensures :
      (vfd : ℤ) (pool file : ℕ)
      → slot s vfd ≡ none
      → Ensures (λ r. Counted r.1 held) (vfd_assign vfd pool file s)
  unfolding vfd_assign assign_to
  vfd_assign-Ensures vfd pool file empty = elim (allocate_cases (file_entry pool file) c) [
    | inl h ↦ rw h (Ensures-ok _ c)
    | inr (e, s', h, c', t, w) ↦ rw h (placed vfd empty e s' c' t)
  ]
    where
      placed :
          (vfd : ℤ)
          → slot s vfd ≡ none
          → (e : ℕ) (s' : State) → Counted s' (λ k. held k + occurs (some e) k)
          → s'.table ≡ s.table
          → Ensures (λ r. Counted r.1 held) (assign_to vfd (some e, s'))
      placed (negsuc n) empty e s' c' t = Ensures-fault out_of_bounds
      placed (pos n) empty e s' c' t =
          let vacant : get_or s'.table n none ≡ none = rw t empty in
          Ensures-if (ltb n (length s'.table)) _ (fault out_of_bounds)
            (λ inside. Ensures-ok _ (
              Counted-eq (store-Counted n (some e) c' (ground arith) (λ k. omega arith))
                (λ k. omega (arith, ap (λ o. occurs o k) vacant))))
            (λ _. Ensures-fault out_of_bounds)
