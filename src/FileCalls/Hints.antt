-- ===== src/FileCalls/Hints.antt =====
-- Pointers to blocks that outlive a call, as hints for the look-up (data.c, find_closest_block_with_hint).
use pmemfile.Prelude.{
  ℕ, zero, suc, ◌<◌, ◌≡◌, ◌∙◌, ◌⊎◌, refl, sym, ap, true, false, Option, none, some, List, [], ◌∷◌,
  leb, ◌==◌, arith, Bool-cases, inl, inr,
}
use pmemfile.Run.{ok}
use pmemfile.FileData.{BlockDesc, end_of}
use pmemfile.FileData.Content.{IsPaged, starts_at}
use pmemfile.FileData.Allocate.Interval.{closest_at, one_on}
use pmemfile.FileData.Allocated.{in_block, IsFrom, here, there}
use pmemfile.FileData.Copy.Reading.Range.{closest_from}
use pmemfile.FileData.Copy.Writing.{found_above}
use pmemfile.FileCalls.{position_of, one_later, blocks_at, follow, find_closest_block_with_hint}

-- The pointer is NULL or to a block of the file.
abbrev pub Known : Option ℕ → List BlockDesc → Type 0
Known none bs = Unit
Known (some start) bs = starts_at start bs ≡ true

position_known :
    (start : ℕ) (bs : List BlockDesc)
    → starts_at start bs ≡ true
    → (i : ℕ) × (position_of start bs ≡ some i)
unfolding position_of starts_at
position_known start [] h = absurd (cc)
position_known start (b ∷ bs) h = elim (Bool-cases (b.block.offset == start)) [
  | inl e ↦ (0, rw e refl)
  | inr e ↦ let (i, q) = position_known start bs (ground arith) in (suc i, rw (e, q) refl)
]

none_before : (lo o : ℕ) (bs : List BlockDesc) → IsPaged lo bs → o < lo → closest_at o bs ≡ none
unfolding closest_at IsPaged
none_before lo o [] p l = refl
none_before lo o (b ∷ bs) (s, _, _, _, _, _) l =
    let e : leb b.block.offset o ≡ false = ground arith in rw e refl

-- A block that covers the offset is the one that the look-up promises.
covering-closest_at :
    (lo o start i : ℕ) (bs : List BlockDesc)
    → IsPaged lo bs
    → position_of start bs ≡ some i
    → in_block (blocks_at (some i) bs) o ≡ true
    → closest_at o bs ≡ some i
unfolding position_of closest_at IsPaged blocks_at
covering-closest_at lo o start i [] p e c = absurd (cc)
covering-closest_at lo o start i (b ∷ bs) p e c = elim (Bool-cases (b.block.offset == start)) [
  | inl d ↦
      let z : some i ≡ some 0 = sym e ∙ rw d refl in
      let k : i ≡ 0 = cc in
      let t = rw k at c in
      let low : leb b.block.offset o ≡ true = ground arith in
      rw (k, low, none_before (end_of b) o bs p.5 (ground arith)) refl
  | inr d ↦
      later (position_of start bs) refl (rw d at e)
        (λ j q r. covering-closest_at (end_of b) o start j bs p.5 q r)
]
  where
    later :
        (r : Option ℕ)
        → position_of start bs ≡ r
        → one_later r ≡ some i
        → ((j : ℕ)
            → position_of start bs ≡ some j
            → in_block (blocks_at (some j) bs) o ≡ true
            → closest_at o bs ≡ some j)
        → closest_at o (b ∷ bs) ≡ some i
    later none q t f = absurd (cc)
    later (some j) q t f =
        let k : i ≡ suc j = cc in
        let h = f j q (rw k at c) in
        let above = found_above (end_of b) o j bs p.5 h in
        let low : leb b.block.offset o ≡ true = ground arith in rw (k, low, h) refl

-- With a hint that is no stale pointer the look-up finds what it does without one.
pub with_hint :
    (find : ℕ → Option ℕ) (o : ℕ) (last : Option ℕ) (bs : List BlockDesc)
    → IsPaged 0 bs
    → Known last bs
    → find o ≡ closest_at o bs
    → find_closest_block_with_hint find o last bs ≡ ok (closest_at o bs)
unfolding find_closest_block_with_hint follow blocks_at
with_hint find o none bs p k f = ap ok f
with_hint find o (some start) bs p k f =
    let (i, e) = position_known start bs k in
    rw (follow, e)
      (elim (Bool-cases (in_block (blocks_at (some i) bs) o)) [
        | inl c ↦ rw c (ap ok (sym (covering-closest_at 0 o start i bs p e c)))
        | inr c ↦ rw c (ap ok f)
      ])

-- The position of a block and the list from it on.
data Agree (bs : List BlockDesc) : Option ℕ → List BlockDesc → Type 0 where
  nowhere : Agree bs none []
  somewhere :
      (i : ℕ) (c : BlockDesc) (cs : List BlockDesc)
      → blocks_at (some i) bs ≡ c ∷ cs
      → Agree bs (some i) (c ∷ cs)

Agree-cons :
    (b : BlockDesc) (bs s : List BlockDesc) (r : Option ℕ)
    → Agree bs r s
    → Agree (b ∷ bs) (one_on r) (elim s [ [] ↦ b ∷ bs | c ∷ cs ↦ c ∷ cs ])
unfolding blocks_at
Agree-cons b bs [] _ nowhere = somewhere 0 b bs refl
Agree-cons b bs (c ∷ cs) _ (somewhere i _ _ e) = somewhere (suc i) c cs e

closest-Agree : (o : ℕ) (bs : List BlockDesc) → Agree bs (closest_at o bs) (closest_from o bs)
unfolding closest_at closest_from
closest-Agree o [] = nowhere
closest-Agree o (b ∷ bs) = elim (Bool-cases (leb b.block.offset o)) [
  | inl e ↦ rw e (Agree-cons b bs (closest_from o bs) (closest_at o bs) (closest-Agree o bs))
  | inr e ↦ rw e nowhere
]

pub blocks_at-closest_from :
    (o : ℕ) (bs : List BlockDesc) → blocks_at (closest_at o bs) bs ≡ closest_from o bs
unfolding blocks_at
blocks_at-closest_from o bs = from_both _ _ (closest-Agree o bs)
  where
    from_both : (r : Option ℕ) (s : List BlockDesc) → Agree bs r s → blocks_at r bs ≡ s
    from_both _ _ nowhere = refl
    from_both _ _ (somewhere i c cs e) = e

blocks_at-IsFrom :
    (i : Option ℕ) (bs : List BlockDesc) → (blocks_at i bs ≡ []) ⊎ IsFrom (blocks_at i bs) bs
unfolding blocks_at
blocks_at-IsFrom none bs = inl refl
blocks_at-IsFrom (some i) [] = inl refl
blocks_at-IsFrom (some zero) (b ∷ bs) = inr here
blocks_at-IsFrom (some (suc i)) (b ∷ bs) = elim (blocks_at-IsFrom (some i) bs) [
  | inl e ↦ inl e
  | inr f ↦ inr (there b bs f)
]

-- Following a pointer that is not stale.
pub follow-Known :
    (last : Option ℕ) (bs : List BlockDesc)
    → Known last bs
    → (hint : Option ℕ) × (follow last bs ≡ ok hint)
      × ((blocks_at hint bs ≡ []) ⊎ IsFrom (blocks_at hint bs) bs)
unfolding follow
follow-Known none bs k = (none, refl, blocks_at-IsFrom none bs)
follow-Known (some start) bs k =
    let (i, e) = position_known start bs k in
    (some i, rw (follow, e) refl, blocks_at-IsFrom (some i) bs)

pub Known-keep :
    (last : Option ℕ) (bs bs' : List BlockDesc)
    → Known last bs
    → ((k : ℕ) → starts_at k bs ≡ true → starts_at k bs' ≡ true)
    → Known last bs'
Known-keep none bs bs' h f = tt
Known-keep (some start) bs bs' h f = f start h

pub starts_at-blocks_at :
    (i : Option ℕ) (bs : List BlockDesc) (k : ℕ)
    → starts_at k (blocks_at i bs) ≡ true
    → starts_at k bs ≡ true
unfolding blocks_at starts_at
starts_at-blocks_at none bs k h = absurd (cc)
starts_at-blocks_at (some i) [] k h = h
starts_at-blocks_at (some zero) (b ∷ bs) k h = h
starts_at-blocks_at (some (suc i)) (b ∷ bs) k h =
    ground (arith, starts_at-blocks_at (some i) bs k h)
