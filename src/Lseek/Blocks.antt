-- ===== src/Lseek/Blocks.antt =====
-- SEEK_DATA and SEEK_HOLE on the blocks of a file (lseek.c), against the set of offsets that some block
-- covers. The blocks are in order and do not overlap.
use pmemfile.Prelude.{
  ℕ, suc, ◌+◌, ◌≤◌, ◌<◌, ◌≡◌, ◌⊎◌, refl, Bool, true, false, ◌||◌, List, [], ◌∷◌, ltb, leb,
  if◌then◌else◌, not, arith, Bool-cases, inl, inr,
}
use pmemfile.Lseek.{Block, is_offset_in_block, offset_or, hole_from}

-- Each block starts at `lo` or later, is not empty and ends before the next one starts.
unfoldable pub Ordered : ℕ → List Block → Type 0
Ordered lo [] = Unit
Ordered lo (b ∷ bs) = (lo ≤ b.offset) × (0 < b.size) × Ordered (b.offset + b.size) bs

-- Some block covers the offset.
unfoldable pub covered : List Block → ℕ → Bool
covered [] o = false
covered (b ∷ bs) o = is_offset_in_block b o || covered bs o

-- What find_closest_block promises: the last block that starts at the offset or before.
unfoldable pub closest : ℕ → List Block → List Block
closest o [] = []
closest o (b ∷ bs) =
    let rest = closest o bs in
    if leb b.offset o then elim rest [ [] ↦ b ∷ bs | c ∷ cs ↦ c ∷ cs ] else []

-- `r` is the first offset from `o` on with the property, or `end` where there is none before it.
pub record First (p : ℕ → Bool) (o end r : ℕ) : Type 0 where
  pub from : o ≤ r
  pub at : (p r ≡ true) ⊎ (r ≡ end)
  pub before : (k : ℕ) → o ≤ k → k < r → p k ≡ false

-- No block of an ordered list covers an offset below its start.
covered_below : (lo : ℕ) (bs : List Block) (o : ℕ) → Ordered lo bs → o < lo → covered bs o ≡ false
unfolding covered Ordered
covered_below lo [] o h l = refl
covered_below lo (b ∷ bs) o (h, z, t) l =
    ground (arith, covered_below (b.offset + b.size) bs o t (omega arith))

-- From the block found on, there is data next at the offset or where the following block starts.
from_start :
    (lo : ℕ) (bs : List Block) (end : ℕ)
    → Ordered lo bs
    → ((covered bs (offset_or bs end) ≡ true) ⊎ (offset_or bs end ≡ end))
      × ((k : ℕ) → k < offset_or bs end → covered bs k ≡ false)
unfolding covered Ordered
from_start lo [] end h = (inr refl, λ k l. refl)
from_start lo (b ∷ bs) end (h, z, t) = (
  inl (ground arith),
  λ k l. ground (arith, covered_below (b.offset + b.size) bs k t (omega arith)),
)

-- What the block found says of the blocks of the file: none starts at the offset or before, or from the
-- offset on the blocks from there cover what all blocks do.
pub data Closest (lo o : ℕ) (bs : List Block) : List Block → Type 0 where
  none_starts : ((end : ℕ) → o < end → o < offset_or bs end) → Closest lo o bs []
  starts :
      {b : Block} {next : List Block}
      → lo ≤ b.offset
      → b.offset ≤ o
      → ((end : ℕ) → o < end → o < offset_or next end)
      → Ordered b.offset (b ∷ next)
      → ((k : ℕ) → o ≤ k → covered (b ∷ next) k ≡ covered bs k)
      → Closest lo o bs (b ∷ next)

Closest-cons :
    (lo o : ℕ) (b : Block) (bs c : List Block)
    → b.offset ≤ o
    → Ordered lo (b ∷ bs)
    → Closest (b.offset + b.size) o bs c
    → Closest lo o (b ∷ bs) (elim c [ [] ↦ b ∷ bs | d ∷ ds ↦ d ∷ ds ])
unfolding covered Ordered
Closest-cons lo o b bs [] h (l, z, t) (none_starts f) =
    starts l h f (omega arith, z, t) (λ k m. refl)
Closest-cons lo o b bs (d ∷ ds) h (l, z, t) (starts l' h' n t' f) =
    starts (omega arith) h' n t' (λ k m. ground (arith, f k m))

pub closest-Closest : (lo o : ℕ) (bs : List Block) → Ordered lo bs → Closest lo o bs (closest o bs)
unfolding closest Ordered
closest-Closest lo o [] h = none_starts (λ end l. l)
closest-Closest lo o (b ∷ bs) (l, z, t) = elim (Bool-cases (leb b.offset o)) [
  | inl e ↦ rw e (
      Closest-cons lo o b bs (closest o bs) (ground arith) (l, z, t)
        (closest-Closest (b.offset + b.size) o bs t))
  | inr e ↦ rw e (none_starts (λ end m. ground arith))
]

-- The offset that lseek_seek_data gives for the block found.
abbrev pub data_at : List Block → ℕ → ℕ → List Block → ℕ
data_at bs end o c = elim c [
  | [] ↦ offset_or bs end
  | b ∷ next ↦ if is_offset_in_block b o then o else offset_or next end
]

pub data-First :
    (lo o end : ℕ) (bs c : List Block)
    → o < end
    → Ordered lo bs
    → Closest lo o bs c
    → First (covered bs) o end (data_at bs end o c)
unfolding covered Ordered
data-First lo o end bs [] h t (none_starts f) = record {
  from = omega (arith, f end h);
  at = (from_start lo bs end t).0;
  before = λ k l m. (from_start lo bs end t).1 k m;
}
data-First lo o end bs (b ∷ next) h t (starts l m n (l', z, t') f) =
    elim (Bool-cases (is_offset_in_block b o)) [
      | inl e ↦ rw e (record {
        from = omega arith;
        at = inl (ground (arith, f o (omega arith)));
        before = λ k p q. absurd (omega arith);
      })
      | inr e ↦ rw e (
          let start = from_start (b.offset + b.size) next end t' in
          let later = n end h in
          record {
            from = omega arith;
            at = elim start.0 [
              | inl q ↦ inl (ground (arith, f (offset_or next end) (omega arith)))
              | inr q ↦ inr q
            ];
            before = λ k p q. ground (arith, f k p, start.1 k q);
          })
    ]

-- All offsets from `o` to `h` have the property, and `h` has it not or is at `fsize` or beyond.
record Hole (p : ℕ → Bool) (fsize o h : ℕ) : Type 0 where
  from : o ≤ h
  at : (p h ≡ false) ⊎ (fsize ≤ h)
  before : (k : ℕ) → o ≤ k → k < h → p k ≡ true

Hole-here : (p : ℕ → Bool) (fsize o : ℕ) → (p o ≡ false) ⊎ (fsize ≤ o) → Hole p fsize o o
Hole-here p fsize o h = record {
  from = omega arith;
  at = h;
  before = λ k l m. absurd (omega arith);
}

-- Where the walk is after a block that starts at the offset or before.
abbrev walked : Block → ℕ → ℕ
walked b o = if leb o (b.offset + b.size) then b.offset + b.size else o

module _ (fsize o : ℕ) (b : Block) (next : List Block) (start : b.offset ≤ o) where
  Hole-stop : covered next (walked b o) ≡ false → Hole (covered (b ∷ next)) fsize o (walked b o)
  unfolding covered
  Hole-stop e = record {
    from = ground arith;
    at = inl (ground arith);
    before = λ k l m. ground arith;
  }

  Hole-go : (h : ℕ) → Hole (covered next) fsize (walked b o) h → Hole (covered (b ∷ next)) fsize o h
  unfolding covered
  Hole-go h r = record {
    from = ground (arith, r.from);
    at = elim r.at [ inl e ↦ inl (ground (arith, r.from)) | inr l ↦ inr l ];
    before = λ k l m. elim (Bool-cases (ltb k (walked b o))) [
      | inl e ↦ ground arith
      | inr e ↦ ground (arith, r.before k)
    ];
  }

hole_from-Hole :
    (fsize : ℕ) (b : Block) (next : List Block) (o : ℕ)
    → b.offset ≤ o
    → Ordered b.offset (b ∷ next)
    → Hole (covered (b ∷ next)) fsize o (hole_from fsize (b ∷ next) o)
unfolding hole_from Ordered
hole_from-Hole fsize b [] o h t = elim (Bool-cases (ltb o fsize)) [
  | inr e ↦ rw e (Hole-here _ fsize o (inr (ground arith)))
  | inl e ↦
      rw e (
        Hole-stop fsize o b [] h
          (covered_below (suc (walked b o)) [] (walked b o) tt (omega arith)))
]
hole_from-Hole fsize b (n ∷ next) o h (l, z, t) = elim (Bool-cases (ltb o fsize)) [
  | inr e ↦ rw e (Hole-here _ fsize o (inr (ground arith)))
  | inl e ↦ rw e (elim (Bool-cases (ltb (walked b o) n.offset)) [
    | inl d ↦ rw d (
        Hole-stop fsize o b (n ∷ next) h
          (covered_below n.offset (n ∷ next) (walked b o) (omega arith, t.1, t.2) (ground arith)))
    | inr d ↦ rw d (
        Hole-go fsize o b (n ∷ next) h (hole_from fsize (n ∷ next) (walked b o))
          (hole_from-Hole fsize n next (walked b o) (ground arith) (omega arith, t.1, t.2)))
  ])
]

-- The end of the file counts as a hole.
Hole-First :
    (p q : ℕ → Bool) (o fsize h : ℕ)
    → o < fsize
    → Hole p fsize o h
    → ((k : ℕ) → o ≤ k → p k ≡ q k)
    → First (λ k. not (q k)) o fsize (if ltb fsize h then fsize else h)
Hole-First p q o fsize h l r e = elim (Bool-cases (ltb fsize h)) [
  | inl b ↦ rw b (record {
    from = omega arith;
    at = inr refl;
    before = λ k m n. ground (arith, e k m, r.before k m);
  })
  | inr b ↦ rw b (record {
    from = r.from;
    at = elim r.at [ inl d ↦ inl (ground (arith, e h r.from)) | inr d ↦ inr (ground arith) ];
    before = λ k m n. ground (arith, e k m, r.before k m n);
  })
]

pub hole-First :
    (lo o fsize : ℕ) (bs c : List Block)
    → o < fsize
    → Ordered lo bs
    → Closest lo o bs c
    → let h = hole_from fsize c o in
      First (λ k. not (covered bs k)) o fsize (if ltb fsize h then fsize else h)
unfolding hole_from
hole-First lo o fsize bs [] h t (none_starts f) =
    Hole-First (covered bs) (covered bs) o fsize o h
      (Hole-here _ fsize o (inl ((from_start lo bs (o + 1) t).1 o (f (o + 1) (omega arith)))))
      (λ k l. refl)
hole-First lo o fsize bs (b ∷ next) h t (starts l m n t' f) =
    Hole-First (covered (b ∷ next)) (covered bs) o fsize _ h (hole_from-Hole fsize b next o m t') f
