-- ===== src/Vfd/Refs.antt =====
-- Reference counts of the descriptor table (vfd_table.c): what the count of an entry counts, and
-- that the steps of which the calls are made keep it.
use pmemfile.Prelude.{
  ℕ, zero, suc, ◌+◌, ◌-◌, ◌≤◌, ◌<◌, ◌≡◌, refl, ap, Bool, ◌&&◌, Option, none, some, List, [], ◌∷◌,
  length, get_or, set, get_or-set, get_or_outside, length-set, replicate, ltb, ◌==◌, if◌then◌else◌,
  arith, Bool-cases, List-cases, inl, inr, ◌⊎◌,
}
use pmemfile.Vfd.{Entry, State, entry_of, blank, with_count, ref_count_inc, unref_entry, allocate}

-- One, if the pointer points to the entry.
abbrev pub occurs : Option ℕ → ℕ → ℕ
occurs none e = 0
occurs (some d) e = if d == e then 1 else 0

unfoldable pub count : List (Option ℕ) → ℕ → ℕ
count [] e = 0
count (o ∷ os) e = occurs o e + count os e

unfoldable pub count_free : List ℕ → ℕ → ℕ
count_free [] e = 0
count_free (d ∷ ds) e = occurs (some d) e + count_free ds e

-- A free entry exists and is not referenced.
abbrev pub is_free : State → ℕ → Bool
is_free s e = ltb e (length s.entries) && (entry_of s e).ref_count == 0

-- With `held e` references to the entry e held by callers (in a `vfd_reference`, or between two
-- steps of a call): the count of an entry is the number of references to it, from the table, from
-- `cwd_entry` and from callers; and the free slots hold each unreferenced entry once, and no other.
pub record Counted (s : State) (held : ℕ → ℕ) : Type 0 where
  pub counts : (e : ℕ) → (entry_of s e).ref_count ≡ count s.table e + occurs s.cwd e + held e
  pub free : (e : ℕ) → count_free s.free e ≡ (if is_free s e then 1 else 0)

pub count-set :
    (t : List (Option ℕ)) (i : ℕ) (v : Option ℕ) (e : ℕ)
    → i < length t
    → count (set t i v) e + occurs (get_or t i none) e ≡ count t e + occurs v e
unfolding count
count-set [] i v e h = elim h [ ]
count-set (o ∷ t) zero v e h = omega arith
count-set (o ∷ t) (suc i) v e h = omega (arith, count-set t i v e (omega arith))

pub count-replicate : (n : ℕ) (e : ℕ) → count (replicate n none) e ≡ 0
unfolding count
count-replicate zero e = refl
count-replicate (suc n) e = omega (arith, count-replicate n e)

pub occurs-le-count : (t : List (Option ℕ)) (i : ℕ) (e : ℕ) → occurs (get_or t i none) e ≤ count t e
unfolding count
occurs-le-count [] i e = omega arith
occurs-le-count (o ∷ t) zero e = omega arith
occurs-le-count (o ∷ t) (suc i) e = omega (arith, occurs-le-count t i e)

-- A referenced entry lies in the array.
pub in_store : (s : State) (e : ℕ) → 0 < (entry_of s e).ref_count → e < length s.entries
in_store s e h = elim (Bool-cases (ltb e (length s.entries))) [
  | inl l ↦ ground arith
  | inr f ↦
      let gone : entry_of s e ≡ blank = get_or_outside s.entries e blank (ground arith) in
      absurd (omega (arith, ap (λ (d : Entry). d.ref_count) gone))
]

pub ref_count_inc-Counted :
    {s : State} {held : ℕ → ℕ} (e : ℕ)
    → Counted s held
    → 0 < (entry_of s e).ref_count
    → Counted (ref_count_inc e s) (λ d. held d + occurs (some e) d)
unfolding ref_count_inc
ref_count_inc-Counted {s} {held} e c h =
    let inside = in_store s e h in
    record {
      counts = λ d. rw (get_or-set, inside) (ground (arith, c.counts d, c.counts e));
      free = λ d. rw (get_or-set, inside, length-set) (ground (arith, c.free d));
    }

-- Dropping a reference that a caller holds: the entry is freed with the last one.
pub unref_entry-Counted :
    {s : State} {held : ℕ → ℕ} (o : Option ℕ)
    → Counted s held
    → ((e : ℕ) → occurs o e ≤ held e)
    → Counted (unref_entry o s) (λ d. held d - occurs o d)
unfolding unref_entry count_free
unref_entry-Counted none c h = record { counts = λ d. omega (arith, c.counts d); free = c.free }
unref_entry-Counted {s} {held} (some e) c h =
    let inside = in_store s e (ground (arith, c.counts e, h e)) in
    elim (Bool-cases ((entry_of s e).ref_count - 1 == 0)) [
      | inl last ↦ rw last (record {
        counts = λ d. rw (get_or-set, inside) (ground (arith, c.counts d, c.counts e, h d, h e));
        free = λ d. rw (get_or-set, inside, length-set) (ground (arith, c.free d, c.counts e, h e));
      })
      | inr more ↦ rw more (record {
        counts = λ d. rw (get_or-set, inside) (ground (arith, c.counts d, c.counts e, h d, h e));
        free = λ d. rw (get_or-set, inside, length-set) (ground (arith, c.free d, c.counts e, h e));
      })
    ]

taken : Entry → ℕ → List ℕ → State → State
taken d e rest s = record s { free = rest; entries = set s.entries e (with_count d 1) }

taken-Counted :
    {s : State} {held : ℕ → ℕ} (d : Entry) (e : ℕ) (rest : List ℕ)
    → Counted s held
    → s.free ≡ e ∷ rest
    → Counted (taken d e rest s) (λ k. held k + occurs (some e) k)
unfolding taken count_free
taken-Counted {s} {held} d e rest c h =
    let split = λ (k : ℕ). rw h at (c.free k) in
    let inside : e < length s.entries = ground (arith, split e) in
    record {
      counts = λ k. rw (get_or-set, inside) (ground (arith, c.counts k, split e));
      free = λ k. rw (get_or-set, inside, length-set) (ground (arith, split k, split e));
    }

-- What a request for an entry comes to: no slot is free and nothing changes, or a new entry, which
-- nothing referred to and to which its creator holds the one reference.
pub allocate_cases :
    {s : State} {held : ℕ → ℕ} (d : Entry)
    → Counted s held
    → (allocate d s ≡ (none, s))
      ⊎ ((e : ℕ) × (s' : State) × (allocate d s ≡ (some e, s'))
          × Counted s' (λ k. held k + occurs (some e) k)
          × (s'.table ≡ s.table)
          × (s'.cwd ≡ s.cwd))
unfolding allocate taken
allocate_cases {s} d c = elim (List-cases s.free) [
  | inl h ↦ inl (rw h)
  | inr (e, rest, h) ↦ inr (e, taken d e rest s, rw h, taken-Counted d e rest c h, refl, refl)
]

-- A pointer in the table is exchanged for one that a caller holds.
pub store-Counted :
    {s : State} {held : ℕ → ℕ} (i : ℕ) (v : Option ℕ)
    → Counted s held
    → i < length s.table
    → ((e : ℕ) → occurs v e ≤ held e)
    → Counted
        (record s { table = set s.table i v })
        (λ e. held e + occurs (get_or s.table i none) e - occurs v e)
store-Counted {s} {held} i v c inside h = record {
  counts = λ e. omega (arith, c.counts e, count-set s.table i v e inside, h e);
  free = c.free;
}

pub cwd-Counted :
    {s : State} {held : ℕ → ℕ} (v : Option ℕ)
    → Counted s held
    → ((e : ℕ) → occurs v e ≤ held e)
    → Counted (record s { cwd = v }) (λ e. held e + occurs s.cwd e - occurs v e)
cwd-Counted {s} {held} v c h = record {
  counts = λ e. omega (arith, c.counts e, h e);
  free = c.free;
}
