-- ===== src/FileData/Lookup.antt =====
-- The offset map of a file as a look-up in the list of its blocks (data.c, find_closest_block;
-- offset_mapping.c). A block pointer is the position of the block in the list.
use pmemfile.Prelude.{
  ℕ, zero, suc, ◌^◌, ◌≤◌, ◌<◌, ◌≡◌, ◌∙◌, refl, sym, ap, true, false, Option, none, some, List, [],
  ◌∷◌, leb, if◌then◌else◌, arith, Bool-cases, inl, inr,
}
use pmemfile.Run.{Run, ok, fault}
use pmemfile.OffsetMap.{OffsetMap}
use pmemfile.OffsetMap.Calls.Grow.{IsValid, block_at}
use pmemfile.OffsetMap.Search.{block_find_closest}
use pmemfile.OffsetMap.Search.Nearest.{Nearest, below, above, nowhere}
use pmemfile.OffsetMap.Search.Clamped.{block_find_closest-Nearest}
use pmemfile.FileData.{BlockDesc, covers, end_of}
use pmemfile.FileData.Content.{IsPaged}
use pmemfile.FileData.Allocate.Interval.{closest_at, one_on}

abbrev later : Option ℕ → Option ℕ
later none = none
later (some i) = some (suc i)

-- The position of the block that covers an offset.
unfoldable pub owner : List BlockDesc → ℕ → Option ℕ
owner [] x = none
owner (b ∷ bs) x = if covers b x then some 0 else later (owner bs x)

-- `prev` of a block.
abbrev pub previous : ℕ → Option ℕ
previous zero = none
previous (suc i) = some i

later-none : (r : Option ℕ) → later r ≡ none → r ≡ none
later-none none e = refl
later-none (some i) e = absurd (cc)

later-some : (r : Option ℕ) (i : ℕ) → later r ≡ some i → (j : ℕ) × (r ≡ some j) × (i ≡ suc j)
later-some none i e = absurd (cc)
later-some (some j) i e = (j, refl, cc)

-- A block that covers an offset starts there or before, and behind the start of the list.
owner_from : (lo x i : ℕ) (bs : List BlockDesc) → IsPaged lo bs → owner bs x ≡ some i → lo ≤ x
unfolding owner IsPaged
owner_from lo x i [] p e = absurd (cc)
owner_from lo x i (b ∷ bs) (s, z, o, w, t, h) e = elim (Bool-cases (covers b x)) [
  | inl c ↦ ground arith
  | inr c ↦
      let (j, q, _) = later-some (owner bs x) i (rw c at e) in
      let l = owner_from (end_of b) x j bs h q in omega arith
]

-- No block starts between a block and an offset where there is none up to the offset.
closest_none :
    (lo p o : ℕ) (bs : List BlockDesc)
    → IsPaged lo bs
    → p < lo
    → ((q : ℕ) → p < q → q ≤ o → owner bs q ≡ none)
    → closest_at o bs ≡ none
unfolding owner IsPaged closest_at
closest_none lo p o [] h l n = refl
closest_none lo p o (b ∷ bs) (s, z, _, w, t, h) l n = elim (Bool-cases (leb b.block.offset o)) [
  | inr c ↦ rw c refl
  | inl c ↦
      let here : covers b b.block.offset ≡ true = ground arith in
      let d = n b.block.offset (omega arith) (ground arith) in
      let e : ◌≡◌ {A = Option ℕ} (some 0) none = rw here at d in absurd (cc)
]

rest_none :
    (b : BlockDesc) (bs : List BlockDesc) (q : ℕ) → owner (b ∷ bs) q ≡ none → owner bs q ≡ none
unfolding owner
rest_none b bs q e = elim (Bool-cases (covers b q)) [
  | inl c ↦ let t : ◌≡◌ {A = Option ℕ} (some 0) none = rw c at e in absurd (cc)
  | inr c ↦ later-none (owner bs q) (rw c at e)
]

closest_below :
    (lo p o i : ℕ) (bs : List BlockDesc)
    → IsPaged lo bs
    → p ≤ o
    → owner bs p ≡ some i
    → ((q : ℕ) → p < q → q ≤ o → owner bs q ≡ none)
    → closest_at o bs ≡ some i
unfolding owner IsPaged closest_at
closest_below lo p o i [] h l e n = absurd (cc)
closest_below lo p o i (b ∷ bs) (s, z, a, w, t, h) l e n =
    let rest : (q : ℕ) → p < q → q ≤ o → owner bs q ≡ none =
      (λ q k m. rest_none b bs q (n q k m)) in
    elim (Bool-cases (covers b p)) [
      | inl c ↦
          let first : ◌≡◌ {A = Option ℕ} (some 0) (some i) = rw c at e in
          let starts : leb b.block.offset o ≡ true = ground arith in
          let none_later = closest_none (end_of b) p o bs h (ground arith) rest in
          rw (starts, none_later) first
      | inr c ↦
          let (j, q, k) = later-some (owner bs p) i (rw c at e) in
          let m = owner_from (end_of b) p j bs h q in
          let starts : leb b.block.offset o ≡ true = ground arith in
          let found = closest_below (end_of b) p o j bs h l q rest in rw (starts, found, k) refl
    ]

one_on-previous : (j : ℕ) → one_on (previous j) ≡ some j
one_on-previous zero = refl
one_on-previous (suc j) = refl

closest_above :
    (lo p o i : ℕ) (bs : List BlockDesc)
    → IsPaged lo bs
    → o < p
    → owner bs p ≡ some i
    → ((q : ℕ) → o ≤ q → q < p → owner bs q ≡ none)
    → closest_at o bs ≡ previous i
unfolding owner IsPaged closest_at
closest_above lo p o i [] h l e n = absurd (cc)
closest_above lo p o i (b ∷ bs) (s, z, a, w, t, h) l e n = elim (Bool-cases (covers b p)) [
  | inl c ↦
      let first : ◌≡◌ {A = Option ℕ} (some 0) (some i) = rw c at e in
      let zeroth : i ≡ 0 = cc in
      let starts : leb b.block.offset o ≡ false = elim (Bool-cases (leb b.block.offset o)) [
        | inr d ↦ d
        | inl d ↦
            let here : covers b o ≡ true = ground arith in
            let bad : ◌≡◌ {A = Option ℕ} (some 0) none = rw here at (n o (omega arith) l) in
            absurd (cc)
      ] in
      rw (starts, zeroth) refl
  | inr c ↦
      let (j, q, k) = later-some (owner bs p) i (rw c at e) in
      let m = owner_from (end_of b) p j bs h q in
      let starts : leb b.block.offset o ≡ true = elim (Bool-cases (leb b.block.offset o)) [
        | inl d ↦ d
        | inr d ↦
            let here : covers b b.block.offset ≡ true = ground arith in
            let bad : ◌≡◌ {A = Option ℕ} (some 0) none =
              rw here at (n b.block.offset (ground arith) (omega arith)) in
            absurd (cc)
      ] in
      let found = closest_above (end_of b) p o j bs h l q (λ x u v. rest_none b bs x (n x u v)) in
      rw (starts, found, k) (one_on-previous j)
]

closest_nowhere :
    (lo o : ℕ) (bs : List BlockDesc)
    → IsPaged lo bs
    → ((q : ℕ) → owner bs q ≡ none)
    → closest_at o bs ≡ none
unfolding owner IsPaged closest_at
closest_nowhere lo o [] h n = refl
closest_nowhere lo o (b ∷ bs) (s, z, a, w, t, h) n =
    let here : covers b b.block.offset ≡ true = ground arith in
    let bad : ◌≡◌ {A = Option ℕ} (some 0) none = rw here at (n b.block.offset) in absurd (cc)

Nearest-closest_at :
    (f : ℕ → Option ℕ) (o : ℕ) (bs : List BlockDesc) (r : Run (Option ℕ))
    → IsPaged 0 bs
    → ((x : ℕ) → f x ≡ owner bs x)
    → Nearest previous f o r
    → r ≡ ok (closest_at o bs)
Nearest-closest_at f o bs (ok _) h e (below p b l v n) =
    ap ok (sym (closest_below 0 p o b bs h l (sym (e p) ∙ v) (λ q k m. sym (e q) ∙ n q k m)))
Nearest-closest_at f o bs (ok _) h e (above p b l v n) =
    ap ok (sym (closest_above 0 p o b bs h l (sym (e p) ∙ v) (λ q k m. sym (e q) ∙ n q k m)))
Nearest-closest_at f o bs (ok _) h e (nowhere n) =
    ap ok (sym (closest_nowhere 0 o bs h (λ q. sym (e q) ∙ n q)))
Nearest-closest_at f o bs (fault _) h e x = elim x [ ]

-- Where a valid offset map maps each offset to the block of an ordered list that covers it, and to none in
-- a hole, block_find_closest on the map ends for each offset of 64 bits, and finds the last block of the list
-- that starts at the offset or before.
pub block_find_closest-closest_at :
    (m : OffsetMap) (bs : List BlockDesc) (o : ℕ)
    → IsValid m
    → IsPaged 0 bs
    → ((x : ℕ) → block_at m x ≡ owner bs x)
    → o < 2 ^ 64
    → block_find_closest previous m o ≡ ok (closest_at o bs)
block_find_closest-closest_at m bs o v h e l =
    Nearest-closest_at (block_at m) o bs _ h e (block_find_closest-Nearest previous m o v l)
