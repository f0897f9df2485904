-- ===== src/OffsetMap/Search/Closest.antt =====
-- The whole search for a block (offset_mapping.c, block_find_closest).
use native.Mathlib.Nat.{mod-lt, div-add-mod', add-mul-mod_self_left, mod-eq_of_lt, mul-le-mul_right}
use pmemfile.Prelude.{
  ℕ, zero, suc, ◌+◌, ◌-◌, ◌*◌, ◌/◌, ◌%◌, ◌≤◌, ◌<◌, ◌≡◌, ◌∙◌, refl, sym, ap, false, Option, none,
  some, ltb, arith, Bool-cases, inl, inr,
}
use pmemfile.Run.{Run, ok, fault, unaligned}
use pmemfile.OffsetMap.{Entry, leaf, node, Entries, width, n_children}
use pmemfile.OffsetMap.Reads
use pmemfile.OffsetMap.Reads.{read, read_in, Fits, FitsAll, span, width-pos}
use pmemfile.OffsetMap.SetRange.{span-children}
use pmemfile.OffsetMap.Search.{
  Scan, absent, block, lost, entry_at, before, behind, beside, descend, last_in, first_in,
}
use pmemfile.OffsetMap.Search.Scans.{First, no_first, first, last_in-Last, first_in-First}
use pmemfile.OffsetMap.Search.Nearest.{
  Nearest, below, above, nowhere, Around, Around-at, scans-Nearest,
}
use pmemfile.OffsetMap.Calls.Grow.{read_in_beyond}

regroup : (i j w r : ℕ) → i * w + r + 16 * w * j ≡ (j * 16 + i) * w + r
regroup i j w r = grind arith

-- An offset in an array is that of the entry where it falls and the rest.
mod-split : (w o : ℕ) → 0 < w → o % (16 * w) ≡ o / w % 16 * w + o % w
mod-split w o pos =
    let q = o / w in
    let i = q % 16 in
    let r = o % w in
    let rl : r < w = mod-lt o pos in
    let il : i ≤ 15 = omega arith in
    let m : i * w ≤ 15 * w = mul-le-mul_right w il in
    let e : i * w + r + 16 * w * (q / 16) ≡ o =
      regroup i (q / 16) w r ∙ ap (λ t. t * w + r) (div-add-mod' q 16) ∙ div-add-mod' o w in
    let z : (i * w + r + 16 * w * (q / 16)) % (16 * w) ≡ (i * w + r) % (16 * w) =
      add-mul-mod_self_left (i * w + r) (16 * w) (q / 16) in
    let s : o % (16 * w) ≡ (i * w + r) % (16 * w) = rw e at z in s ∙ mod-eq_of_lt (omega arith)

module _ (prev : ℕ → Option ℕ) where
  -- What is nearest in an entry is so in the array around it.
  shift-Nearest :
      (f g : ℕ → Option ℕ) (a w y p b : ℕ) (r : Run (Option ℕ))
      → y < w
      → ((q : ℕ) → q < w → f (a + q) ≡ g q)
      → ((q : ℕ) → w ≤ q → g q ≡ none)
      → g p ≡ some b
      → Nearest prev g y r
      → Nearest prev f (a + y) r
  shift-Nearest f g a w y x c r l same out e (below p b m v n) =
      below (a + p) b (omega arith) (same p (omega arith) ∙ v) (λ q k j.
        let z : a + (q - a) ≡ q = omega arith in
        let t : f (a + (q - a)) ≡ none =
          same (q - a) (omega arith) ∙ n (q - a) (omega arith) (omega arith) in
        rw z at t)
  shift-Nearest f g a w y x c r l same out e (above p b m v n) = elim (Bool-cases (ltb p w)) [
    | inl k ↦ above (a + p) b (omega arith) (same p (ground arith) ∙ v) (λ q i j.
        let z : a + (q - a) ≡ q = omega arith in
        let t : f (a + (q - a)) ≡ none =
          same (q - a) (ground arith) ∙ n (q - a) (omega arith) (omega arith) in
        rw z at t)
    | inr k ↦ let t = out p (ground arith) in absurd (cc)
  ]
  shift-Nearest f g a w y x c r l same out e (nowhere n) = let t = n x in absurd (cc)

  -- The search in an array, for an entry that is a leaf, or from the answer below it.
  step-Nearest :
      (level i y : ℕ) (es : Entries) (next : Entries → Run (Option ℕ)) (e : Entry)
      → e ≡ entry_at i es
      → Around level i (i * width level) es
      → y < width level
      → ((ds : Entries)
          → entry_at i es ≡ node ds
          → Nearest prev (read_in level es) (i * width level + y) (next ds))
      → Nearest prev (read_in level es) (i * width level + y) (elim e [
        | leaf (some b) ↦ ok (some b)
        | leaf none ↦ beside prev i es
        | node ds ↦ next ds
      ])
  unfolding beside
  step-Nearest level i y es next (leaf none) s r l f =
      scans-Nearest prev level i (i * width level) y es r l (last_in (before i es))
        (first_in (behind i es)) (sym s) (last_in-Last level (before i es) r.left_fits)
        (first_in-First level (behind i es) r.right_fits)
  step-Nearest level i y es next (leaf (some b)) s r l f =
      let t : read_in level es (i * width level + y) ≡ read level (leaf (some b)) y =
        r.inside y l ∙ ap (λ d. read level d y) (sym s) in
      below _ b (omega arith) (t ∙ unfold read in refl) (λ q m k. absurd (omega arith))
  step-Nearest level i y es next (node ds) s r l f = f ds (sym s)

  -- An array in shape holds a block, so that the answer below is one of it.
  child-Nearest :
      (level i a y : ℕ) (es ds : Entries) (r : Run (Option ℕ))
      → Around (suc level) i a es
      → entry_at i es ≡ node ds
      → y < width (suc level)
      → Reads.size ds ≡ n_children
      → First (read_in level ds) (span level ds) false (first_in ds)
      → Nearest prev (read_in level ds) y r
      → Nearest prev (read_in (suc level) es) (a + y) r
  unfolding read
  child-Nearest level i a y es ds r around e l n w x = from_first (first_in ds) w
    where
      from_first :
          (s : Scan)
          → First (read_in level ds) (span level ds) false s
          → Nearest prev (read_in (suc level) es) (a + y) r
      from_first absent (no_first z) = absurd (cc)
      from_first (block _) (first p b z k v u) =
          shift-Nearest (read_in (suc level) es) (read_in level ds) a (width (suc level)) y p b r l
            (λ q m. around.inside q m ∙ ap (λ d. read (suc level) d q) e)
            (λ q m. read_in_beyond level ds q (omega (arith, span-children level ds n))) v x
      from_first lost u = elim u [ ]

  pub descend-Nearest :
      (level offset : ℕ) (es : Entries)
      → Reads.size es ≡ n_children
      → FitsAll level es
      → Nearest prev (read_in level es) (offset % width (suc level)) (descend prev level es offset)
  unfolding descend Fits
  descend-Nearest zero offset es n f =
      let w = width 0 in
      let i = offset / w % n_children in
      let r = Around-at 0 i es f (omega (arith, n)) in
      rw (mod-split w offset (width-pos 0)) (
        step-Nearest 0 i (offset % w) es (λ ds. fault unaligned) (entry_at i es) refl r
          (mod-lt offset (width-pos 0)) (no_array i es r))
    where
      no_array :
          (i : ℕ) (es : Entries)
          → Around 0 i (i * width 0) es
          → (ds : Entries) → entry_at i es ≡ node ds
          → Nearest prev (read_in 0 es) (i * width 0 + offset % width 0) (fault unaligned)
      no_array i es r ds e = let b : Fits 0 (node ds) = rw e at r.fits in elim b [ ]
  descend-Nearest (suc level) offset es n f =
      let w = width (suc level) in
      let i = offset / w % n_children in
      let r = Around-at (suc level) i es f (omega (arith, n)) in
      rw (mod-split w offset (width-pos (suc level))) (
        step-Nearest (suc level) i (offset % w) es (λ ds. descend prev level ds offset)
          (entry_at i es) refl r (mod-lt offset (width-pos (suc level)))
          (λ ds e.
            let b : Fits (suc level) (node ds) = rw e at r.fits in
            child-Nearest level i (i * w) (offset % w) es ds (descend prev level ds offset) r e
              (mod-lt offset (width-pos (suc level))) b.0 (rw b.1 at (first_in-First level ds b.2))
              (descend-Nearest level offset ds b.0 b.2)))
