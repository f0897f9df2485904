-- ===== src/Vfd/Calls/Effects.antt =====
-- What the calls do to the slots of the table, and where they leave it (vfd_table.c).
use pmemfile.Prelude.{
  ℕ, ◌<◌, ◌≡◌, ◌∙◌, ◌≢◌, refl, ap, Bool, true, false, Option, none, some, length, get_or,
  get_or-set, if◌then◌else◌, arith, Bool-cases, Option-cases, inl, inr,
}
use pmemfile.Prelude.Int.{ℤ, pos, negsuc, eqb_ℤ}
use pmemfile.Run.{ok}
use pmemfile.Vfd.{
  State, entry_of, ref_entry, unref_entry, is_in_range, slot, is_some, can_be_in_vfd_table,
}
use pmemfile.Vfd.Calls.{store, eqb_entry, dup2_under_mutex, vfd_dup2, vfd_close}

abbrev InRange : State → ℤ → Type 0
InRange s vfd = is_in_range s vfd ≡ true

table-unref_entry : (o : Option ℕ) (s : State) → (unref_entry o s).table ≡ s.table
unfolding unref_entry
table-unref_entry none s = refl
table-unref_entry (some e) s = ground arith

table-ref_entry : (o : Option ℕ) (s : State) → (ref_entry o s).table ≡ s.table
unfolding ref_entry
table-ref_entry none s = refl
table-ref_entry (some e) s = refl

slot-store :
    (s : State) (n : ℕ) (o : Option ℕ) (vfd : ℤ)
    → n < length s.table
    → slot (store (pos n) o s) vfd ≡ (if eqb_ℤ vfd (pos n) then o else slot s vfd)
slot-store s n o (negsuc m) h = ground arith
slot-store s n o (pos m) h = ground (arith, get_or-set s.table n m o none h)

slot_congr : (s s' : State) → s.table ≡ s'.table → (vfd : ℤ) → slot s vfd ≡ slot s' vfd
slot_congr s s' h (pos n) = ap (λ t. get_or t n none) h
slot_congr s s' h (negsuc n) = refl

eqb_entry-eq : (a b : Option ℕ) → eqb_entry a b ≡ true → a ≡ b
eqb_entry-eq none none h = refl
eqb_entry-eq none (some e) h = cc
eqb_entry-eq (some d) none h = cc
eqb_entry-eq (some d) (some e) h = ground arith

-- What a slot holds after its descriptor became a duplicate of `old`.
abbrev pub duplicated : State → ℤ → ℤ → ℤ → Option ℕ
duplicated s old new vfd = if eqb_ℤ vfd new then slot s old else slot s vfd

-- For descriptors in range, the duplication does not fault, returns the new descriptor, makes its
-- slot hold what the old one's holds, and changes no other slot.
pub dup2_slots :
    (s : State) (old new : ℤ)
    → is_in_range s old ≡ true
    → is_in_range s new ≡ true
    → (s' : State) × (dup2_under_mutex old new s ≡ ok (new, s'))
      × ((vfd : ℤ) → slot s' vfd ≡ duplicated s old new vfd)
unfolding dup2_under_mutex
dup2_slots s old (negsuc n) h k = cc
dup2_slots s old (pos n) h k = elim (Bool-cases (eqb_ℤ old (pos n))) [
  | inl same ↦ (s, rw same, λ vfd. ground arith)
  | inr other ↦ elim (Bool-cases (eqb_entry (slot s old) (slot s (pos n)))) [
    | inl shared ↦
        (s, ground arith, λ vfd. ground (arith, eqb_entry-eq (slot s old) (slot s (pos n)) shared))
    | inr apart ↦
        let s1 = unref_entry (slot s (pos n)) (ref_entry (slot s old) s) in
        let same : s1.table ≡ s.table =
          table-unref_entry (slot s (pos n)) _ ∙ table-ref_entry (slot s old) s in
        (
          store (pos n) (slot s old) s1,
          ground arith,
          λ vfd. ground (
            arith,
            slot-store s1 n (slot s old) vfd (rw same (ground arith)),
            slot_congr s1 s same vfd,
          ),
        )
  ]
]

-- For a descriptor in range whose entry is a file's, pmemfile_vfd_close does not fault; it returns 0
-- if there was an entry and the kernel's answer if not, empties the slot and changes no other slot.
pub close_slots :
    (s : State) (vfd answer : ℤ)
    → is_in_range s vfd ≡ true
    → ((e : ℕ) → slot s vfd ≡ some e → (entry_of s e).is_special_cwd_desc ≡ false)
    → (s' : State) × (vfd_close vfd answer s
        ≡ ok (if is_some (slot s vfd) then pos 0 else answer, s'))
      × ((w : ℤ) → slot s' w ≡ (if eqb_ℤ w vfd then none else slot s w))
unfolding vfd_close
close_slots s (negsuc n) answer h k = cc
close_slots s (pos n) answer h k = elim (Option-cases (slot s (pos n))) [
  | inl e ↦ (store (pos n) none s, ground arith, λ w. slot-store s n none w (ground arith))
  | inr (e, f) ↦
      let s1 = store (pos n) none s in
      let same : (unref_entry (some e) s1).table ≡ s1.table = table-unref_entry (some e) s1 in
      (
        unref_entry (some e) s1,
        ground (arith, k e f),
        λ w. slot_congr (unref_entry (some e) s1) s1 same w ∙ slot-store s n none w (ground arith),
      )
]

-- pmemfile_vfd_dup2 with an old descriptor outside the table and a new one that has an entry does not
-- return, with `assert` or without, whatever the kernel answers: without it the table is read outside its
-- bounds.
pub dup2_outside :
    (checked : Bool) (s : State) (old new answer : ℤ) (r : ℤ × State)
    → is_in_range s old ≡ false
    → can_be_in_vfd_table s new ≡ true
    → vfd_dup2 checked old new answer s ≢ ok r
unfolding vfd_dup2
dup2_outside checked s old (negsuc n) answer r h k e = ground arith
dup2_outside checked s old (pos n) answer r h k e = ground arith

-- In a build without `assert`, if the kernel refuses to duplicate a descriptor in range that has no entry,
-- pmemfile_vfd_dup2 reports the refusal and still empties the slot of the new descriptor, so that a file that
-- was open there is lost.
pub dup2_refused :
    (s : State) (old new answer : ℤ)
    → is_in_range s old ≡ true
    → slot s old ≡ none
    → can_be_in_vfd_table s new ≡ true
    → (s' : State) × (vfd_dup2 false old new answer s ≡ ok (answer, s')) × (slot s' new ≡ none)
unfolding vfd_dup2
dup2_refused s old new answer h empty there =
    let (s', run, slots) = dup2_slots s old new h (ground arith) in
    (s', ground (arith, run), ground (arith, slots new))
