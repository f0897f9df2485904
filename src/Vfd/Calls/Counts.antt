-- ===== src/Vfd/Calls/Counts.antt =====
-- Every call keeps the reference counts (vfd_table.c).
use pmemfile.Prelude.{
  ℕ, ◌+◌, ◌-◌, ◌≤◌, ◌<◌, ◌≡◌, refl, ap, not, Option, none, some, List, length, get_or, ltb, ◌==◌,
  arith, Bool-cases, Option-cases, inl, inr,
}
use pmemfile.Prelude.Int.{ℤ, pos, negsuc, eqb_ℤ}
use pmemfile.Run.{
  ok, fault, null_pointer, out_of_bounds, assertion, Ensures, Ensures-ok, Ensures-if, Ensures-bind,
  Ensures-fault,
}
use pmemfile.Vfd.{
  Entry, State, entry_of, ref_count_inc, ref_entry, unref_entry, allocate, slot, slot_at,
  ref_under_mutex, vfd_ref, cwd_reference, get_fdcwd_reference, vfd_at_ref, can_be_in_vfd_table,
}
use pmemfile.Vfd.Refs.{
  occurs, Counted, occurs-le-count, ref_count_inc-Counted, unref_entry-Counted, allocate_cases,
  store-Counted, cwd-Counted,
}
use pmemfile.Vfd.Calls.{
  store, eqb_entry, dup2_under_mutex, replace_cwd, enter, close_locked, close_unref,
}

-- Counts do not depend on how the number of held references is written.
pub Counted-eq : {s : State} {h k : ℕ → ℕ} → Counted s h → ((e : ℕ) → h e ≡ k e) → Counted s k
Counted-eq c p = record { counts = λ e. omega (arith, c.counts e, p e); free = c.free }

module _ {s : State} {held : ℕ → ℕ} (c : Counted s held) where
  -- What stands in the table has a positive count.
  pub slot_counted : (vfd : ℤ) (e : ℕ) → slot s vfd ≡ some e → 0 < (entry_of s e).ref_count
  slot_counted (pos n) e h =
      let one : occurs (get_or s.table n none) e ≡ 1 = rw h (ground arith) in
      omega (arith, c.counts e, occurs-le-count s.table n e)
  slot_counted (negsuc n) e h = cc

  ref_entry-Counted :
      (vfd : ℤ) → Counted (ref_entry (slot s vfd) s) (λ d. held d + occurs (slot s vfd) d)
  unfolding ref_entry
  ref_entry-Counted vfd = elim (Option-cases (slot s vfd)) [
    | inl h ↦ rw h (Counted-eq c (λ e. omega arith))
    | inr (e, h) ↦ rw h (ref_count_inc-Counted e c (slot_counted vfd e h))
  ]

table-ref_entry : (o : Option ℕ) (s : State) → (ref_entry o s).table ≡ s.table
unfolding ref_entry
table-ref_entry none s = refl
table-ref_entry (some e) s = refl

slot_at-eq :
    (s : State) (vfd : ℤ) (entry : Option ℕ) → slot_at s vfd ≡ ok entry → entry ≡ slot s vfd
unfolding slot_at
slot_at-eq s vfd entry h = ground arith

-- The table may be written before or after the old entry is released.
store-unref :
    (i : ℤ) (v o : Option ℕ) (s : State) → store i v (unref_entry o s) ≡ unref_entry o (store i v s)
unfolding unref_entry
store-unref i v none s = refl
store-unref i v (some e) s = elim (Bool-cases ((entry_of s e).ref_count - 1 == 0)) [
  | inl h ↦ rw h
  | inr h ↦ rw h
]

module _ {s : State} {held : ℕ → ℕ} (c : Counted s held) where
  -- One table slot is made to share the entry of another, which is referenced once more; the entry
  -- that stood there is referenced once less.
  share-Counted :
      (old : ℤ) (n : ℕ)
      → n < length s.table
      → Counted
          (store (pos n) (slot s old) (unref_entry (slot s (pos n)) (ref_entry (slot s old) s)))
          held
  share-Counted old n inside =
      let entry = slot s old in
      let s1 = ref_entry entry s in
      let same = table-ref_entry entry s in
      let stored =
        store-Counted n entry (ref_entry-Counted c old) (rw same inside) (λ e. omega arith) in
      let kept = (λ (e : ℕ). ap (λ (t : List (Option ℕ)). occurs (get_or t n none) e) same) in
      rw store-unref (
        Counted-eq (unref_entry-Counted (slot s (pos n)) stored (λ e. omega (arith, kept e)))
          (λ e. omega (arith, kept e)))

  pub dup2_under_mutex-Ensures :
      (old new : ℤ) → Ensures (λ r. Counted r.1 held) (dup2_under_mutex old new s)
  unfolding dup2_under_mutex
  dup2_under_mutex-Ensures old (negsuc n) = Ensures-ok _ c
  dup2_under_mutex-Ensures old (pos n) =
      Ensures-if (eqb_ℤ old (pos n)) _ _ (λ _. Ensures-ok _ c)
        λ _.
          Ensures-if (not (ltb n (length s.table))) _ _
            (λ _. Ensures-ok _ (record { counts = c.counts; free = c.free }))
            λ inside. Ensures-bind (slot_at s old) _ λ entry found.
              rw (slot_at-eq s old entry found) (
                Ensures-if (eqb_entry (slot s old) (slot s (pos n))) _ _ (λ _. Ensures-ok _ c)
                  (λ _. Ensures-ok _ (share-Counted old n (ground arith))))

  -- The working directory is moved to an entry that the call holds.
  pub replace_cwd-Counted :
      (e : ℕ)
      → ((d : ℕ) → occurs (some e) d ≤ held d)
      → Counted (replace_cwd e s) (λ d. held d - occurs (some e) d)
  replace_cwd-Counted e h =
      Counted-eq (unref_entry-Counted s.cwd (cwd-Counted (some e) c h) (λ d. omega (arith, h d)))
        (λ d. omega (arith, h d))

-- A new entry becomes the working directory, if there is a free one.
pub enter-Counted :
    {s : State} {held : ℕ → ℕ} (undo : State → State) (d : Entry)
    → Counted s held
    → (Counted s held → Counted (undo s) held)
    → Counted (enter undo (allocate d s)).1 held
enter-Counted {s} {held} undo d c kept = elim (allocate_cases d c) [
  | inl h ↦ rw h (kept c)
  | inr (e, s', h, c', t, w) ↦
      rw h (Counted-eq (replace_cwd-Counted c' e (λ k. omega arith)) (λ k. omega arith))
]

module _ {s : State} {held : ℕ → ℕ} (c : Counted s held) where
  pub slot-Counted :
      (vfd : ℤ) (e : ℕ)
      → slot s vfd ≡ some e
      → Counted (ref_count_inc e s) (λ d. held d + occurs (some e) d)
  slot-Counted vfd e h = ref_count_inc-Counted e c (slot_counted c vfd e h)

  ref_under_mutex-Counted :
      (vfd : ℤ)
      → let (r, s') = ref_under_mutex vfd s in Counted s' (λ e. held e + occurs r.internal e)
  unfolding ref_under_mutex
  ref_under_mutex-Counted vfd = elim (Option-cases (slot s vfd)) [
    | inl h ↦ rw h (Counted-eq c (λ e. omega arith))
    | inr (e, h) ↦ rw h (slot-Counted vfd e h)
  ]

  pub vfd_ref-Counted :
      (vfd : ℤ) → let (r, s') = vfd_ref vfd s in Counted s' (λ e. held e + occurs r.internal e)
  unfolding vfd_ref
  vfd_ref-Counted vfd = elim (Bool-cases (can_be_in_vfd_table s vfd)) [
    | inl h ↦ rw h (ref_under_mutex-Counted vfd)
    | inr h ↦ rw h (Counted-eq c (λ e. omega arith))
  ]

  cwd_reference-Ensures :
      (o : Option ℕ)
      → ((e : ℕ) → occurs o e ≤ occurs s.cwd e)
      → Ensures (λ r. Counted r.1 (λ e. held e + occurs r.0.internal e)) (cwd_reference o s)
  unfolding cwd_reference
  cwd_reference-Ensures none h = Ensures-fault null_pointer
  cwd_reference-Ensures (some e) h =
      Ensures-ok _ (ref_count_inc-Counted e c (ground (arith, c.counts e, h e)))

  pub vfd_at_ref-Ensures :
      (vfd : ℤ)
      → Ensures (λ r. Counted r.1 (λ e. held e + occurs r.0.internal e)) (vfd_at_ref vfd s)
  unfolding vfd_at_ref get_fdcwd_reference
  vfd_at_ref-Ensures vfd =
      Ensures-if (eqb_ℤ vfd (negsuc 99)) (get_fdcwd_reference s) (ok (vfd_ref vfd s))
        (λ _. cwd_reference-Ensures s.cwd (λ e. omega arith))
        (λ _. Ensures-ok _ (vfd_ref-Counted vfd))

  -- Between the table and the release of its entry, pmemfile_vfd_close holds the entry itself.
  pub close_locked-Ensures :
      (vfd : ℤ) → Ensures (λ r. Counted r.1 (λ e. held e + occurs r.0 e)) (close_locked vfd s)
  unfolding close_locked
  close_locked-Ensures (negsuc n) = Ensures-fault out_of_bounds
  close_locked-Ensures (pos n) = elim (Bool-cases (ltb n (length s.table))) [
    | inr out ↦ rw out (Ensures-fault out_of_bounds)
    | inl inside ↦ rw inside (
        Ensures-ok _ (
          Counted-eq (store-Counted n none c (ground arith) (λ e. omega arith)) (λ e. omega arith)))
  ]

  pub close_unref-Ensures :
      (answer : ℤ) (o : Option ℕ)
      → ((e : ℕ) → occurs o e ≤ held e)
      → Ensures (λ r. Counted r.1 (λ e. held e - occurs o e)) (close_unref answer (o, s))
  unfolding close_unref
  close_unref-Ensures answer none h = Ensures-ok _ (Counted-eq c (λ e. omega arith))
  close_unref-Ensures answer (some e) h =
      Ensures-if (entry_of s e).is_special_cwd_desc (fault assertion)
        (ok (pos 0, unref_entry (some e) s)) (λ _. Ensures-fault assertion)
        (λ _. Ensures-ok _ (unref_entry-Counted (some e) c h))
