-- ===== src/OffsetMap/Search/Nearest.antt =====
-- What block_find_closest finds (offset_mapping.c).
use pmemfile.Prelude.{
  ℕ, zero, suc, ◌+◌, ◌-◌, ◌*◌, ◌≤◌, ◌<◌, ◌≡◌, ◌∙◌, refl, true, Option, none, some, ltb, arith,
  Bool-cases, inl, inr,
}
use pmemfile.Run.{Run, ok, fault, wild_pointer}
use pmemfile.OffsetMap.{leaf, Entries, nil, cons, width, all_null}
use pmemfile.OffsetMap.Reads
use pmemfile.OffsetMap.Reads.{read, read_in, Fits, FitsAll, span, width-pos, read_in-all_null}
use pmemfile.OffsetMap.Search.{Scan, absent, block, lost, entry_at, before, behind}
use pmemfile.OffsetMap.Search.Scans.{Last, no_last, last, First, no_first, first}

-- The answer for an offset: the last block at it or before; or the one before the first block after
-- it; or NULL where there is no block at all. Between the offset and that block there is none.
pub data Nearest (prev : ℕ → Option ℕ) (f : ℕ → Option ℕ) (x : ℕ) : Run (Option ℕ) → Type 0 where
  below :
      (p b : ℕ)
      → p ≤ x
      → f p ≡ some b
      → ((q : ℕ) → p < q → q ≤ x → f q ≡ none)
      → Nearest prev f x (ok (some b))
  above :
      (p b : ℕ)
      → x < p
      → f p ≡ some b
      → ((q : ℕ) → x ≤ q → q < p → f q ≡ none)
      → Nearest prev f x (ok (prev b))
  nowhere : ((q : ℕ) → f q ≡ none) → Nearest prev f x (ok none)

-- The array around an entry that starts at `a`.
pub record Around (h i a : ℕ) (es : Entries) : Type 0 where
  pub on_left : (q : ℕ) → q < a → read_in h es q ≡ read_in h (before i es) q
  pub on_right : (q : ℕ) → read_in h es (a + width h + q) ≡ read_in h (behind i es) q
  pub inside : (q : ℕ) → q < width h → read_in h es (a + q) ≡ read h (entry_at i es) q
  pub left_span : span h (before i es) ≡ a
  pub left_fits : FitsAll h (before i es)
  pub right_fits : FitsAll h (behind i es)
  pub fits : Fits h (entry_at i es)

pub Around-at :
    (h i : ℕ) (es : Entries) → FitsAll h es → i < Reads.size es → Around h i (i * width h) es
unfolding before behind entry_at read_in FitsAll span Reads.size
Around-at h i nil f l = elim l [ ]
Around-at h zero (cons e es) (f, fs) l = record {
  on_left = λ q m. absurd (omega arith);
  on_right = λ q. ground arith;
  inside = λ q m. ground arith;
  left_span = omega arith;
  left_fits = tt;
  right_fits = fs;
  fits = f;
}
Around-at h (suc i) (cons e es) (f, fs) l =
    let r = Around-at h i es fs (omega (arith, l)) in
    let a = i * width h in
    let s : suc i * width h ≡ width h + a = grind arith in
    rw s (record {
      on_left = λ q m. ground (arith, r.on_left (q - width h));
      on_right = λ q. ground (arith, r.on_right q);
      inside = λ q m. ground (arith, r.inside q m);
      left_span = omega (arith, r.left_span);
      left_fits = (f, r.left_fits);
      right_fits = r.right_fits;
      fits = r.fits;
    })

module _ (h i a : ℕ) (es : Entries) (r : Around h i a es) where
  own_null : (q : ℕ) → entry_at i es ≡ leaf none → a ≤ q → q < a + width h → read_in h es q ≡ none
  own_null q e m n =
      let z : a + (q - a) ≡ q = omega arith in
      let t : read_in h es (a + (q - a)) ≡ read h (leaf none) (q - a) =
        rw e at (r.inside (q - a) (omega arith)) in
      rw z at t ∙ unfold read in refl

  on_right_at :
      (q : ℕ) → a + width h ≤ q → read_in h es q ≡ read_in h (behind i es) (q - (a + width h))
  on_right_at q m =
      let z : a + width h + (q - (a + width h)) ≡ q = omega arith in
      let t : read_in h es (a + width h + (q - (a + width h)))
          ≡ read_in h (behind i es) (q - (a + width h)) =
        r.on_right (q - (a + width h)) in
      rw z at t

  left_null :
      (q : ℕ)
      → entry_at i es ≡ leaf none
      → all_null (before i es) ≡ true
      → q < a + width h
      → read_in h es q ≡ none
  left_null q e z l = elim (Bool-cases (ltb q a)) [
    | inl m ↦ r.on_left q (ground arith) ∙ read_in-all_null h (before i es) q z
    | inr m ↦ own_null q e (ground arith) l
  ]

module _ (prev : ℕ → Option ℕ) (h i a y : ℕ) (es : Entries) (r : Around h i a es)
    (low : y < width h) where
  -- Beside an entry that is NULL.
  pub scans-Nearest :
      (s t : Scan)
      → entry_at i es ≡ leaf none
      → Last (read_in h (before i es)) (span h (before i es)) (all_null (before i es)) s
      → First (read_in h (behind i es)) (span h (behind i es)) (all_null (behind i es)) t
      → Nearest prev (read_in h es) (a + y) (elim s [
        | block b ↦ ok (some b)
        | lost ↦ fault wild_pointer
        | absent ↦ elim t [ block b ↦ ok (prev b) | lost ↦ ok none | absent ↦ ok none ]
      ])
  scans-Nearest (block b) t e (last p _ z l v n) w =
      let s = r.left_span in
      below p b (omega arith) (r.on_left p (omega arith) ∙ v) (λ q m k.
        elim (Bool-cases (ltb q a)) [
          | inl c ↦ r.on_left q (ground arith) ∙ n q m (ground arith)
          | inr c ↦ own_null h i a es r q e (ground arith) (omega arith)
        ])
  scans-Nearest absent (block b) e (no_last z) (first p _ w l v n) =
      above (a + width h + p) b (omega arith) (r.on_right p ∙ v) (λ q m k.
        elim (Bool-cases (ltb q (a + width h))) [
          | inl c ↦ left_null h i a es r q e z (ground arith)
          | inr c ↦ on_right_at h i a es r q (ground arith) ∙ n _ (ground arith)
        ])
  scans-Nearest absent absent e (no_last z) (no_first w) = nowhere (λ q.
      elim (Bool-cases (ltb q (a + width h))) [
        | inl c ↦ left_null h i a es r q e z (ground arith)
        | inr c ↦
            on_right_at h i a es r q (ground arith)
            ∙ read_in-all_null h (behind i es) (q - (a + width h)) w
      ])
  scans-Nearest lost t e u w = elim u [ ]
  scans-Nearest absent lost e u w = elim w [ ]
