-- ===== src/OffsetMap/Search/Clamped.antt =====
-- Offsets behind the last that an offset map distinguishes (offset_mapping.c, block_find_closest).
use native.Mathlib.Nat.{mod-eq_of_lt}
use pmemfile.Prelude.{
  ℕ, zero, suc, ◌+◌, ◌-◌, ◌/◌, ◌%◌, ◌^◌, ◌≤◌, ◌<◌, ◌≡◌, ◌∙◌, ◌⊎◌, refl, ap, true, false, Option,
  none, some, ltb, leb, if◌then◌else◌, arith, Bool-cases, inl, inr,
}
use pmemfile.Run.{Run}
use pmemfile.OffsetMap.{
  Entry, leaf, node, Entries, nil, cons, width, min_block_size, OffsetMap, max_map_offset,
}
use pmemfile.OffsetMap.Reads.{read, read_in, Fits, FitsAll, width-min}
use pmemfile.OffsetMap.Search.{descend, block_find_closest}
use pmemfile.OffsetMap.Search.Nearest.{Nearest, below, above, nowhere}
use pmemfile.OffsetMap.Search.Closest.{descend-Nearest}
use pmemfile.OffsetMap.Calls.Insert.{width-13}
use pmemfile.OffsetMap.Calls.Grow.{IsValid, block_at, block_at_beyond, max_map_offset-width}

mutual
  unfolding read read_in Fits FitsAll

  -- The offsets of a page of 16 KB map to the same block.
  read_page :
      (h : ℕ) (e : Entry) (x y : ℕ)
      → Fits h e
      → x / min_block_size ≡ y / min_block_size
      → read h e x ≡ read h e y
  read_page h (leaf b) x y f s = refl
  read_page zero (node cs) x y f s = refl
  read_page (suc h) (node cs) x y f s = read_in_page h cs x y f.2 s

  read_in_page :
      (h : ℕ) (es : Entries) (x y : ℕ)
      → FitsAll h es
      → x / min_block_size ≡ y / min_block_size
      → read_in h es x ≡ read_in h es y
  read_in_page h nil x y f s = refl
  read_in_page h (cons e es) x y (f, fs) s =
      let w = width-min h in
      elim (Bool-cases (ltb x (width h))) [
        | inl l ↦ let k : ltb y (width h) ≡ true = ground arith in rw (l, k) (read_page h e x y f s)
        | inr l ↦
            let k : ltb y (width h) ≡ false = ground arith in
            rw (l, k) (read_in_page h es (x - width h) (y - width h) fs (ground arith))
      ]

-- The last page that the map distinguishes is in its range, and at the end of it or at that of 64 bits.
max_map_offset-bounds :
    (m : OffsetMap)
    → IsValid m
    → (max_map_offset m % min_block_size ≡ 0)
      × (max_map_offset m < width m.levels)
      × ((max_map_offset m + min_block_size ≡ width m.levels)
          ⊎ ((max_map_offset m + min_block_size ≡ 2 ^ 64) × (2 ^ 64 ≤ width m.levels)))
max_map_offset-bounds m v = elim (Bool-cases (ltb m.levels 13)) [
  | inl l ↦
      let e = max_map_offset-width m (ground arith) in
      let z = width-min m.levels in (omega arith, omega arith, inl e)
  | inr l ↦
      let t : m.levels ≡ 13 = ground (arith, v.height) in
      let w : width m.levels ≡ 2 ^ 66 = ap width t ∙ width-13 in
      let e : max_map_offset m ≡ 2 ^ 64 - min_block_size = unfold max_map_offset in ground arith in
      (omega arith, omega arith, inr (omega arith, omega arith))
]

module _ (prev : ℕ → Option ℕ) where
  -- From the start of a page behind which there is nothing.
  clamp-Nearest :
      (f : ℕ → Option ℕ) (top x : ℕ) (r : Run (Option ℕ))
      → top % min_block_size ≡ 0
      → top ≤ x
      → ((y z : ℕ) → y / min_block_size ≡ z / min_block_size → f y ≡ f z)
      → ((q : ℕ) → top + min_block_size ≤ q → q ≤ x → f q ≡ none)
      → Nearest prev f top r
      → Nearest prev f x r
  clamp-Nearest f top x r start l page out (below p b m v n) = elim (Bool-cases (ltb p top)) [
    | inl k ↦ below p b (omega arith) v (λ q i j. elim (Bool-cases (leb q top)) [
      | inl a ↦ n q i (ground arith)
      | inr a ↦ elim (Bool-cases (ltb q (top + min_block_size))) [
        | inl c ↦ page q top (ground arith) ∙ n top (ground arith) (omega arith)
        | inr c ↦ out q (ground arith) j
      ]
    ])
    | inr k ↦
        let z : p ≡ top = ground arith in
        elim (Bool-cases (ltb x (top + min_block_size))) [
          | inl c ↦
              below x b (omega arith) (page x p (ground arith) ∙ v) (λ q i j. absurd (omega arith))
          | inr c ↦
              below (top + min_block_size - 1) b (ground arith)
                (page (top + min_block_size - 1) p (omega arith) ∙ v)
                (λ q i j. out q (omega arith) j)
        ]
  ]
  clamp-Nearest f top x r start l page out (above p b m v n) =
      let t = n top (omega arith) m in
      elim (Bool-cases (ltb x p)) [
        | inl k ↦ above p b (ground arith) v (λ q i j. n q (omega arith) j)
        | inr k ↦ elim (Bool-cases (ltb p (top + min_block_size))) [
          | inl c ↦ let u = page p top (ground arith) in absurd (cc)
          | inr c ↦ let u = out p (ground arith) (ground arith) in absurd (cc)
        ]
      ]
  clamp-Nearest f top x r start l page out (nowhere n) = nowhere n

  -- The search from the root, with an offset that is not behind the last one of the map.
  root-Nearest :
      (l offset : ℕ) (cs : Entries)
      → IsValid (record { entry = node cs; levels = suc l })
      → offset < width (suc l)
      → Nearest prev
          (block_at (record { entry = node cs; levels = suc l }))
          offset
          (descend prev l cs offset)
  unfolding Fits read
  root-Nearest l offset cs v b =
      let t = descend-Nearest prev l offset cs v.fits.0 v.fits.2 in rw (mod-eq_of_lt b) at t

  clamped-Nearest :
      (l offset : ℕ) (cs : Entries)
      → IsValid (record { entry = node cs; levels = suc l })
      → offset < 2 ^ 64
      → let m : OffsetMap = record { entry = node cs; levels = suc l } in
        let top = max_map_offset m in
        Nearest prev
          (block_at m)
          offset
          (descend prev l cs (if ltb top offset then top else offset))
  clamped-Nearest l offset cs v b =
      let m : OffsetMap = record { entry = node cs; levels = suc l } in
      let top = max_map_offset m in
      let (aligned, below_end, beyond) = max_map_offset-bounds m v in
      elim (Bool-cases (ltb top offset)) [
        | inl c ↦ rw c (
            clamp-Nearest (block_at m) top offset (descend prev l cs top) aligned (ground arith)
              (λ y z e. read_page (suc l) (node cs) y z v.fits e)
              (λ q i j. elim beyond [
                | inl w ↦ block_at_beyond m q v (omega arith)
                | inr (w, _) ↦ absurd (omega arith)
              ])
              (root-Nearest l top cs v below_end))
        | inr c ↦ rw c (
            root-Nearest l offset cs v
              (elim beyond [ inl w ↦ ground arith | inr (_, w) ↦ ground arith ]))
      ]

  -- For every offset of 64 bits a search in a valid map ends, with what is nearest to the offset.
  pub block_find_closest-Nearest :
      (m : OffsetMap) (offset : ℕ)
      → IsValid m
      → offset < 2 ^ 64
      → Nearest prev (block_at m) offset (block_find_closest prev m offset)
  unfolding block_find_closest read Fits
  block_find_closest-Nearest m offset v b = from_entry m.levels m.entry v
    where
      from_entry :
          (h : ℕ) (e : Entry)
          → IsValid (record { entry = e; levels = h })
          → Nearest prev
              (block_at (record { entry = e; levels = h }))
              offset
              (block_find_closest prev (record { entry = e; levels = h }) offset)
      from_entry h (leaf none) v = nowhere (λ q. refl)
      from_entry h (leaf (some b)) v = elim v.root [ ]
      from_entry zero (node cs) v = elim v.fits [ ]
      from_entry (suc l) (node cs) v = clamped-Nearest l offset cs v b
