-- ===== src/Vfd/Calls/System.antt =====
-- The descriptor table under many threads: each step is a part of a call that the code runs under the
-- table's mutex, or one release of a reference; threads interleave in any order.
use pmemfile.Prelude.{ℕ, ◌+◌, ◌-◌, ◌≤◌, ◌<◌, ◌≡◌, Bool, Option, none, some, ◌⊎◌, inl, inr, arith}
use pmemfile.Prelude.Int.{ℤ}
use pmemfile.Run.{ok}
use pmemfile.Vfd.{State, Reference, entry_of, slot, vfd_ref, vfd_at_ref, vfd_unref}
use pmemfile.Vfd.Refs.{occurs, count_free, Counted, unref_entry-Counted}
use pmemfile.Vfd.Calls.{
  vfd_dup, vfd_fcntl_dup, vfd_dup2, vfd_dup3, close_locked, close_unref, vfd_chdir_pf,
  vfd_chdir_kernel_fd, vfd_fchdir, acquire_new_fd, vfd_assign, table_init,
}
use pmemfile.Vfd.Calls.Counts.{
  slot_counted, vfd_ref-Counted, vfd_at_ref-Ensures, close_locked-Ensures, close_unref-Ensures,
}
use pmemfile.Vfd.Calls.Moves.{
  vfd_fchdir-Counted, vfd_chdir_pf-Counted, vfd_chdir_kernel_fd-Counted, acquire_new_fd-Counted,
  vfd_dup-Ensures, vfd_fcntl_dup-Ensures, vfd_dup2-Ensures, vfd_dup3-Ensures, vfd_assign-Ensures,
}
use pmemfile.Vfd.Calls.Init.{table_init-Counted}

-- The table, and how many references to each entry the callers hold.
pub record System : Type 0 where
  pub state : State
  pub held : ℕ → ℕ

abbrev pub gains : System → State → Option ℕ → System
gains y s o = record { state = s; held = λ e. y.held e + occurs o e }

abbrev pub loses : System → State → Option ℕ → System
loses y s o = record { state = s; held = λ e. y.held e - occurs o e }

abbrev pub moves : System → State → System
moves y s = record y { state = s }

-- A caller holds the reference.
abbrev pub Holds : System → Option ℕ → Type 0
Holds y o = (e : ℕ) → occurs o e ≤ y.held e

pub data Step (y : System) : System → Type 0 where
  ref : (vfd : ℤ) → Step y (let (r, s) = vfd_ref vfd y.state in gains y s r.internal)
  at_ref :
      (vfd : ℤ) (r : Reference) (s : State)
      → vfd_at_ref vfd y.state ≡ ok (r, s)
      → Step y (gains y s r.internal)
  unref : (r : Reference) → Holds y r.internal → Step y (loses y (vfd_unref r y.state) r.internal)
  dup : (vfd answer n : ℤ) (s : State) → vfd_dup vfd answer y.state ≡ ok (n, s) → Step y (moves y s)
  fcntl_dup :
      (vfd answer n : ℤ) (s : State)
      → vfd_fcntl_dup vfd answer y.state ≡ ok (n, s)
      → Step y (moves y s)
  dup2 :
      (checked : Bool) (old new answer n : ℤ) (s : State)
      → vfd_dup2 checked old new answer y.state ≡ ok (n, s)
      → Step y (moves y s)
  dup3 :
      (checked : Bool) (old new : ℤ) (other_flags : Bool) (answer n : ℤ) (s : State)
      → vfd_dup3 checked old new other_flags answer y.state ≡ ok (n, s)
      → Step y (moves y s)
  -- pmemfile_vfd_close holds the entry between its two steps.
  close_begin :
      (vfd : ℤ) (o : Option ℕ) (s : State)
      → close_locked vfd y.state ≡ ok (o, s)
      → Step y (gains y s o)
  close_end :
      (o : Option ℕ) (answer n : ℤ) (s : State)
      → Holds y o
      → close_unref answer (o, y.state) ≡ ok (n, s)
      → Step y (loses y s o)
  chdir_pf :
      (pool file : ℕ) (refused : Option ℤ)
      → Step y (moves y (vfd_chdir_pf pool file refused y.state).1)
  chdir_kernel_fd : (fd answer : ℤ) → Step y (moves y (vfd_chdir_kernel_fd fd answer y.state).1)
  fchdir :
      (vfd : ℤ) (refused : Option ℤ) (copy answer : ℤ)
      → Step y (moves y (vfd_fchdir vfd refused copy answer y.state).1)
  acquire :
      (memfd : Option ℤ) (opened : ℤ) → Step y (moves y (acquire_new_fd memfd opened y.state).1)
  -- A descriptor that the kernel has just given out has no entry yet.
  assign :
      (vfd : ℤ) (pool file : ℕ) (n : ℤ) (s : State)
      → slot y.state vfd ≡ none
      → vfd_assign vfd pool file y.state ≡ ok (n, s)
      → Step y (moves y s)

pub data Reach (y : System) : System → Type 0 where
  here : Reach y y
  next : {u v : System} → Reach y u → Step u v → Reach y v

abbrev IsCounted : System → Type 0
IsCounted y = Counted y.state y.held

Step-IsCounted : {y z : System} → Step y z → IsCounted y → IsCounted z
unfolding vfd_unref
Step-IsCounted (ref vfd) c = vfd_ref-Counted c vfd
Step-IsCounted (at_ref vfd r s h) c = (vfd_at_ref-Ensures c vfd).at (r, s) h
Step-IsCounted (unref r h) c = unref_entry-Counted r.internal c h
Step-IsCounted (dup vfd answer n s h) c = (vfd_dup-Ensures c vfd answer).at (n, s) h
Step-IsCounted (fcntl_dup vfd answer n s h) c = (vfd_fcntl_dup-Ensures c vfd answer).at (n, s) h
Step-IsCounted (dup2 b old new answer n s h) c = (vfd_dup2-Ensures c b old new answer).at (n, s) h
Step-IsCounted (dup3 b old new f answer n s h) c =
    (vfd_dup3-Ensures c b old new f answer).at (n, s) h
Step-IsCounted (close_begin vfd o s h) c = (close_locked-Ensures c vfd).at (o, s) h
Step-IsCounted (close_end o answer n s held h) c = (close_unref-Ensures c answer o held).at (n, s) h
Step-IsCounted (chdir_pf pool file refused) c = vfd_chdir_pf-Counted c pool file refused
Step-IsCounted (chdir_kernel_fd fd answer) c = vfd_chdir_kernel_fd-Counted c fd answer
Step-IsCounted (fchdir vfd refused copy answer) c = vfd_fchdir-Counted c vfd refused copy answer
Step-IsCounted (acquire memfd opened) c = acquire_new_fd-Counted c memfd opened
Step-IsCounted (assign vfd pool file n s empty h) c =
    (vfd_assign-Ensures c vfd pool file empty).at (n, s) h

Reach-IsCounted : {y z : System} → IsCounted y → Reach y z → IsCounted z
Reach-IsCounted c here = c
Reach-IsCounted c (next r st) = Step-IsCounted st (Reach-IsCounted c r)

-- After startup no caller holds a reference.
abbrev pub started : State → System
started s = record { state = s; held = λ _. 0 }

-- From startup, in any order of steps of any threads, if a descriptor that is assigned to a file has no
-- entry then, the count of each entry is the number of references to it, from the table, the working directory and callers, and the free slots hold each
-- entry that nothing references once and no other.
pub counts_exact :
    (size : ℕ) (fd : ℤ) (s : State) (y : System)
    → table_init size fd ≡ some (ok s)
    → Reach (started s) y
    → Counted y.state y.held
counts_exact size fd s y h r = Reach-IsCounted (table_init-Counted size fd s h) r

used-Counted :
    {s : State} {held : ℕ → ℕ}
    → Counted s held
    → (vfd : ℤ) (e : ℕ) → (slot s vfd ≡ some e) ⊎ ((s.cwd ≡ some e) ⊎ (0 < held e))
    → 0 < (entry_of s e).ref_count
used-Counted c vfd e (inl h) = slot_counted c vfd e h
used-Counted {s} c vfd e (inr (inl h)) =
    let one : occurs s.cwd e ≡ 1 = rw h (ground arith) in omega (arith, c.counts e)
used-Counted c vfd e (inr (inr h)) = omega (arith, c.counts e)

-- From startup, in any order of steps of any threads, if a descriptor that is assigned to a file has no
-- entry then, an entry that the table or the working directory
-- points to, or that a caller has a reference to, is not among the free slots, so that it is not
-- handed out for another file.
pub no_reuse :
    (size : ℕ) (fd : ℤ) (s : State) (y : System)
    → table_init size fd ≡ some (ok s)
    → Reach (started s) y
    → (vfd : ℤ) (e : ℕ) → (slot y.state vfd ≡ some e) ⊎ ((y.state.cwd ≡ some e) ⊎ (0 < y.held e))
    → count_free y.state.free e ≡ 0
no_reuse size fd s y h r vfd e used =
    let c = counts_exact size fd s y h r in ground (arith, c.free e, used-Counted c vfd e used)
