-- ===== src/Lseek/LastEntries.antt =====
-- The loops of lseek_end_directory (lseek.c): they find the last entry in use, though the scan passes over
-- an array where the next one begins with an entry in use.
use pmemfile.Prelude.{
  ℕ, zero, suc, ◌+◌, ◌≤◌, ◌<◌, ◌≡◌, ◌∙◌, ◌⊎◌, refl, ap, Bool, true, false, Option, none, some, List,
  [], ◌∷◌, length, get_or, if◌then◌else◌, arith, Bool-cases, inl, inr,
}
use pmemfile.Lseek.{Dir, last_used, LastEntry, scan_dir, last_entry}

abbrev pub used_at : List Dir → ℕ → ℕ → Bool
used_at dirs d i = get_or (get_or dirs d []) i false

-- What the scan of one array finds.
data Scan (j : ℕ) (last : Option ℕ) (dir : Dir) : Option ℕ → Type 0 where
  kept : ((i : ℕ) → get_or dir i false ≡ false) → Scan j last dir last
  newer :
      (i n : ℕ)
      → n ≡ j + i
      → get_or dir i false ≡ true
      → ((k : ℕ) → get_or dir k false ≡ true → k ≤ i)
      → Scan j last dir (some n)

unused_cons :
    (dir : Dir)
    → ((i : ℕ) → get_or dir i false ≡ false)
    → (i : ℕ) → get_or (false ∷ dir) i false ≡ false
unused_cons dir h zero = refl
unused_cons dir h (suc i) = h i

only_first :
    (dir : Dir)
    → ((i : ℕ) → get_or dir i false ≡ false)
    → (k : ℕ) → get_or (true ∷ dir) k false ≡ true
    → k ≤ 0
only_first dir h zero e = omega arith
only_first dir h (suc k) e = absurd (ground (arith, h k))

later_first :
    (used : Bool) (dir : Dir) (i : ℕ)
    → ((k : ℕ) → get_or dir k false ≡ true → k ≤ i)
    → (k : ℕ) → get_or (used ∷ dir) k false ≡ true
    → k ≤ suc i
later_first used dir i m zero e = omega arith
later_first used dir i m (suc k) e = omega (arith, m k e)

Scan-cons :
    (j : ℕ) (last : Option ℕ) (used : Bool) (dir : Dir) (o : Option ℕ)
    → Scan (j + 1) (if used then some j else last) dir o
    → Scan j last (used ∷ dir) o
Scan-cons j last true dir o (kept h) = newer 0 j (omega arith) refl (only_first dir h)
Scan-cons j last false dir o (kept h) = kept (unused_cons dir h)
Scan-cons j last used dir o (newer i n e h m) =
    newer (suc i) n (omega arith) h (later_first used dir i m)

last_used-Scan : (j : ℕ) (last : Option ℕ) (dir : Dir) → Scan j last dir (last_used j last dir)
unfolding last_used
last_used-Scan j last [] = kept (λ i. refl)
last_used-Scan j last (used ∷ dir) = Scan-cons j last used dir _ (last_used-Scan (j + 1) _ dir)

-- The loop with no array passed over.
unfoldable pub scan_all : ℕ → Option LastEntry → List Dir → Option LastEntry
scan_all n found [] = found
scan_all n found (dir ∷ rest) = scan_all (n + 1) (scan_dir n dir found) rest

-- An array whose first entry is in use makes what was found before it irrelevant.
scan_dir-used :
    (n : ℕ) (dir : Dir) (f g : Option LastEntry)
    → get_or dir 0 false ≡ true
    → scan_dir n dir f ≡ scan_dir n dir g
scan_dir-used n dir f g h = used_scan (last_used 0 none dir) (last_used-Scan 0 none dir)
  where
    used_scan :
        (o : Option ℕ)
        → Scan 0 none dir o
        → elim o [
          | none ↦ f
          | some i ↦ some (record { dir_num = n; num_elements = length dir; index = i })
        ]
          ≡ elim o [
            | none ↦ g
            | some i ↦ some (record { dir_num = n; num_elements = length dir; index = i })
          ]
    used_scan none (kept k) = absurd (ground (arith, k 0))
    used_scan (some i) s = refl

last_entry-used :
    (n : ℕ) (dir : Dir) (rest : List Dir) (f g : Option LastEntry)
    → get_or dir 0 false ≡ true
    → last_entry n f (dir ∷ rest) ≡ last_entry n g (dir ∷ rest)
unfolding last_entry
last_entry-used n dir [] f g h = scan_dir-used n dir f g h
last_entry-used n dir (next ∷ rest) f g h = elim (Bool-cases (get_or next 0 false)) [
  | inl e ↦ rw e (last_entry-used (n + 1) next rest f g e)
  | inr e ↦ rw e (ap (λ r. last_entry (n + 1) r (next ∷ rest)) (scan_dir-used n dir f g h))
]

pub last_entry-scan_all :
    (n : ℕ) (f : Option LastEntry) (dirs : List Dir) → last_entry n f dirs ≡ scan_all n f dirs
unfolding last_entry scan_all
last_entry-scan_all n f [] = refl
last_entry-scan_all n f (dir ∷ []) = refl
last_entry-scan_all n f (dir ∷ next ∷ rest) = elim (Bool-cases (get_or next 0 false)) [
  | inl e ↦ rw e (
      last_entry-used (n + 1) next rest f (scan_dir n dir f) e
      ∙ last_entry-scan_all (n + 1) (scan_dir n dir f) (next ∷ rest))
  | inr e ↦ rw e (last_entry-scan_all (n + 1) (scan_dir n dir f) (next ∷ rest))
]

-- What the loop finds: nothing in use, or the last entry in use of the last array that has one.
pub data ScanAll (n : ℕ) (found : Option LastEntry) (dirs : List Dir)
    : Option LastEntry → Type 0 where
  kept_all : ((d i : ℕ) → used_at dirs d i ≡ false) → ScanAll n found dirs found
  newer_all :
      (d : ℕ) (e : LastEntry)
      → e.dir_num ≡ n + d
      → e.num_elements ≡ length (get_or dirs d [])
      → used_at dirs d e.index ≡ true
      → ((b i : ℕ) → used_at dirs b i ≡ true → (b < d) ⊎ ((b ≡ d) × (i ≤ e.index)))
      → ScanAll n found dirs (some e)

only_first_dir :
    (dir : Dir) (rest : List Dir) (k : ℕ)
    → ((d i : ℕ) → used_at rest d i ≡ false)
    → ((i : ℕ) → get_or dir i false ≡ true → i ≤ k)
    → (b i : ℕ) → used_at (dir ∷ rest) b i ≡ true
    → (b < 0) ⊎ ((b ≡ 0) × (i ≤ k))
only_first_dir dir rest k h m zero i e = inr (refl, m i e)
only_first_dir dir rest k h m (suc b) i e = absurd (ground (arith, h b i))

unused_cons_dir :
    (dir : Dir) (rest : List Dir)
    → ((d i : ℕ) → used_at rest d i ≡ false)
    → ((i : ℕ) → get_or dir i false ≡ false)
    → (d i : ℕ) → used_at (dir ∷ rest) d i ≡ false
unused_cons_dir dir rest h k zero i = k i
unused_cons_dir dir rest h k (suc d) i = h d i

later_first_dir :
    (dir : Dir) (rest : List Dir) (d k : ℕ)
    → ((b i : ℕ) → used_at rest b i ≡ true → (b < d) ⊎ ((b ≡ d) × (i ≤ k)))
    → (b i : ℕ) → used_at (dir ∷ rest) b i ≡ true
    → (b < suc d) ⊎ ((b ≡ suc d) × (i ≤ k))
later_first_dir dir rest d k m zero i e = inl (omega arith)
later_first_dir dir rest d k m (suc b) i e = elim (m b i e) [
  | inl l ↦ inl (omega arith)
  | inr (q, l) ↦ inr (ap suc q, l)
]

ScanAll-first :
    (n : ℕ) (f : Option LastEntry) (dir : Dir) (rest : List Dir) (o : Option ℕ)
    → ((d i : ℕ) → used_at rest d i ≡ false)
    → Scan 0 none dir o
    → ScanAll n f (dir ∷ rest) (elim o [
      | none ↦ f
      | some i ↦ some (record { dir_num = n; num_elements = length dir; index = i })
    ])
ScanAll-first n f dir rest none h (kept k) = kept_all (unused_cons_dir dir rest h k)
ScanAll-first n f dir rest (some x) h (newer i y e u m) =
    let q : x ≡ i = omega arith in
    newer_all 0 _ (omega arith) refl (rw q u)
      (only_first_dir dir rest x h (λ j v. omega (arith, m j v)))

ScanAll-cons :
    (n : ℕ) (f : Option LastEntry) (dir : Dir) (rest : List Dir) (o : Option LastEntry)
    → ScanAll (n + 1) (scan_dir n dir f) rest o
    → ScanAll n f (dir ∷ rest) o
ScanAll-cons n f dir rest o (kept_all h) =
    ScanAll-first n f dir rest (last_used 0 none dir) h (last_used-Scan 0 none dir)
ScanAll-cons n f dir rest o (newer_all d e p q u m) =
    newer_all (suc d) e (omega arith) q u (later_first_dir dir rest d e.index m)

pub scan_all-ScanAll :
    (n : ℕ) (f : Option LastEntry) (dirs : List Dir) → ScanAll n f dirs (scan_all n f dirs)
unfolding scan_all
scan_all-ScanAll n f [] = kept_all (λ d i. refl)
scan_all-ScanAll n f (dir ∷ rest) =
    ScanAll-cons n f dir rest _ (scan_all-ScanAll (n + 1) (scan_dir n dir f) rest)
