-- ===== src/FileData/Removal/Zeros.antt =====
-- The loop of vinode_remove_interval (data.c).
use pmemfile.Prelude.{
  ℕ, ◌+◌, ◌-◌, ◌%◌, ◌^◌, ◌≤◌, ◌<◌, ◌≡◌, ◌∙◌, refl, true, ◌&&◌, none, some, List, [], ◌∷◌, ltb, leb,
  if◌then◌else◌, arith, Bool-cases, inl, inr,
}
use pmemfile.OffsetMap.{min_block_size}
use pmemfile.Run.{ok, fault, null_pointer, ◌>>=◌}
use pmemfile.FileData.{Attempt, stopped, null_followed, BlockDesc, covers, end_of}
use pmemfile.FileData.Allocate.{Filled, prepend}
use pmemfile.FileData.Allocate.Fill.{Attempt-cases}
use pmemfile.FileData.Content.{IsPaged, byte_of, content, total, IsPaged-lower, content_below}
use pmemfile.FileData.Removal.{
  is_block_contained_by_interval, is_interval_contained_by_block, is_block_at_right_edge, zero_data,
  add_space, remove_back, rev_onto,
}

-- Blocks in reverse that end at `hi` or before, in order.
unfoldable pub IsBack : ℕ → List BlockDesc → Type 0
IsBack hi [] = Unit
IsBack hi (b ∷ bs) =
    (end_of b ≤ hi)
    × (0 < b.block.size)
    × (b.block.offset % min_block_size ≡ 0)
    × (b.block.size % min_block_size ≡ 0)
    × (end_of b ≤ 2 ^ 64)
    × IsBack b.block.offset bs

pub IsBack-higher : (hi hi' : ℕ) (bs : List BlockDesc) → hi ≤ hi' → IsBack hi bs → IsBack hi' bs
unfolding IsBack
IsBack-higher hi hi' [] l h = tt
IsBack-higher hi hi' (b ∷ bs) l (e, h1, h2, h3, h4, h5) = (omega arith, h1, h2, h3, h4, h5)

pub back_above : (hi x : ℕ) (bs : List BlockDesc) → IsBack hi bs → hi ≤ x → content bs x ≡ 0
unfolding IsBack content
back_above hi x [] h l = refl
back_above hi x (b ∷ bs) (e, z, o, w, t, h) l =
    ground (arith, back_above b.block.offset x bs h (omega arith))

-- 0 in the interval, and what was there outside.
abbrev pub punched : (offset len : ℕ) → (ℕ → ℕ) → ℕ → ℕ
punched offset len f x = if leb offset x && ltb x (offset + len) then 0 else f x

zero_data_block : (b : BlockDesc) (first n : ℕ) → (zero_data b first n).block ≡ b.block
unfolding zero_data
zero_data_block b first n = elim (Bool-cases b.initialized) [
  | inl i ↦ rw i refl
  | inr i ↦ rw i refl
]

zero_data_byte :
    (b : BlockDesc) (first n x : ℕ)
    → byte_of (zero_data b first n) x ≡ (
        if leb first (x - b.block.offset) && ltb (x - b.block.offset) (first + n)
        then 0
        else byte_of b x)
unfolding zero_data
zero_data_byte b first n x = elim (Bool-cases b.initialized) [
  | inl i ↦ rw i (ground arith)
  | inr i ↦ rw i (ground arith)
]

-- What is left of blocks in reverse.
pub record Left (offset len hi : ℕ) (bs : List BlockDesc) (r : List BlockDesc × ℕ) : Type 0 where
  pub back : IsBack hi r.0
  pub bytes : (x : ℕ) → content r.0 x ≡ punched offset len (content bs) x
  pub counted : total r.0 + r.1 ≡ total bs

-- A block of which bytes are cleared stays in its place.
Left-zero_data :
    (offset len hi first n : ℕ) (b : BlockDesc) (bs : List BlockDesc) (r : List BlockDesc × ℕ)
    → IsBack hi (b ∷ bs)
    → ((x : ℕ)
        → covers b x ≡ true
        → (leb first (x - b.block.offset) && ltb (x - b.block.offset) (first + n))
          ≡ (leb offset x && ltb x (offset + len)))
    → Left offset len b.block.offset bs r
    → Left offset len hi (b ∷ bs) (zero_data b first n ∷ r.0, r.1)
unfolding IsBack content total
Left-zero_data offset len hi first n b bs r (e, z, o, w, t, h) f l =
    let same = zero_data_block b first n in
    record {
      back = rw same (e, z, o, w, t, l.back);
      bytes = λ x. elim (Bool-cases (covers b x)) [
        | inl c ↦ let t = rw (same, f x c) at (zero_data_byte b first n x) in rw (same, c) t
        | inr c ↦ rw (same, c) (l.bytes x)
      ];
      counted = rw same (omega (arith, l.counted));
    }

-- The part of the interval that is not below a bound is none.
Left-untouched :
    (offset len hi k : ℕ) (bs : List BlockDesc)
    → IsBack hi bs
    → IsBack k bs
    → k ≤ offset
    → Left offset len hi bs (bs, 0)
Left-untouched offset len hi k bs h g l = record {
  back = h;
  bytes = λ x. elim (Bool-cases (leb offset x && ltb x (offset + len))) [
    | inl e ↦ rw e (back_above k x bs g (ground arith))
    | inr e ↦ rw e refl
  ];
  counted = omega arith;
}

-- A block in the interval goes.
Left-removed :
    (offset len hi : ℕ) (b : BlockDesc) (bs : List BlockDesc) (r : List BlockDesc × ℕ)
    → IsBack hi (b ∷ bs)
    → is_block_contained_by_interval b offset len ≡ true
    → Left offset len b.block.offset bs r
    → Left offset len hi (b ∷ bs) (r.0, b.block.size + r.1)
unfolding IsBack content total
Left-removed offset len hi b bs r (e, z, o, w, t, h) c l = record {
  back = IsBack-higher b.block.offset hi r.0 (omega arith) l.back;
  bytes = λ x. ground (arith, l.bytes x);
  counted = omega (arith, l.counted);
}

-- The first block starts at a bound or before.
abbrev pub Starts : ℕ → List BlockDesc → Type 0
Starts k [] = Unit
Starts k (b ∷ bs) = b.block.offset ≤ k

IsBack-Starts : (hi k : ℕ) (bs : List BlockDesc) → IsBack hi bs → hi ≤ k → Starts k bs
unfolding IsBack
IsBack-Starts hi k [] h l = tt
IsBack-Starts hi k (b ∷ bs) (e, z, o, w, t, h) l = omega arith

-- How the loop ends: with such blocks, or in an aborted transaction, or with NULL followed.
pub data Leaving (relocated : ℕ → Attempt) (offset len hi : ℕ) (bs : List BlockDesc)
    : Filled → Type 0 where
  leaving :
      (r : List BlockDesc × ℕ)
      → Left offset len hi bs r
      → Leaving relocated offset len hi bs (ok (some r))
  not_moved : (j : ℕ) → relocated j ≡ stopped → Leaving relocated offset len hi bs (ok none)
  null_moved :
      (j : ℕ)
      → relocated j ≡ null_followed
      → Leaving relocated offset len hi bs (fault null_pointer)

Leaving-zero_data :
    (relocated : ℕ → Attempt) (offset len hi first n : ℕ) (b : BlockDesc) (bs : List BlockDesc)
    (m : Filled)
    → IsBack hi (b ∷ bs)
    → ((x : ℕ)
        → covers b x ≡ true
        → (leb first (x - b.block.offset) && ltb (x - b.block.offset) (first + n))
          ≡ (leb offset x && ltb x (offset + len)))
    → Leaving relocated offset len b.block.offset bs m
    → Leaving relocated offset len hi (b ∷ bs) (m >>= λ r. ok (prepend (zero_data b first n) r))
unfolding prepend
Leaving-zero_data relocated offset len hi first n b bs (ok _) p f (leaving r l) =
    leaving _ (Left-zero_data offset len hi first n b bs r p f l)
Leaving-zero_data relocated offset len hi first n b bs (ok _) p f (not_moved j a) = not_moved j a
Leaving-zero_data relocated offset len hi first n b bs (fault _) p f (null_moved j a) =
    null_moved j a

Leaving-removed :
    (relocated : ℕ → Attempt) (offset len hi : ℕ) (b : BlockDesc) (bs : List BlockDesc) (m : Filled)
    → IsBack hi (b ∷ bs)
    → is_block_contained_by_interval b offset len ≡ true
    → Leaving relocated offset len b.block.offset bs m
    → Leaving relocated offset len hi (b ∷ bs) (m >>= λ r. ok (add_space b.block.size r))
unfolding add_space
Leaving-removed relocated offset len hi b bs (ok _) p c (leaving r l) =
    leaving _ (Left-removed offset len hi b bs r p c l)
Leaving-removed relocated offset len hi b bs (ok _) p c (not_moved j a) = not_moved j a
Leaving-removed relocated offset len hi b bs (fault _) p c (null_moved j a) = null_moved j a

pub remove_back-Leaving :
    (relocated : ℕ → Attempt) (offset len hi k : ℕ) (bs : List BlockDesc)
    → IsBack hi bs
    → Starts (offset + len) bs
    → Leaving relocated offset len hi bs (remove_back relocated offset len k bs)
unfolding IsBack remove_back
remove_back-Leaving relocated offset len hi k [] h l =
    leaving _ (Left-untouched offset len hi 0 [] tt tt (omega arith))
remove_back-Leaving relocated offset len hi k (b ∷ bs) (e, z, o, w, t, h) l =
    let rest : (j : ℕ)
        → Leaving relocated offset len b.block.offset bs (remove_back relocated offset len j bs) =
      λ j.
        remove_back-Leaving relocated offset len b.block.offset j bs h
          (IsBack-Starts b.block.offset (offset + len) bs h l) in
    let p : IsBack hi (b ∷ bs) = (e, z, o, w, t, h) in
    elim (Bool-cases (ltb offset (end_of b))) [
      | inr c ↦
          rw (c, remove_back)
            (leaving _ (
              Left-untouched offset len hi (end_of b) (b ∷ bs) p (omega arith, z, o, w, t, h)
                (ground arith)))
      | inl c ↦ elim (Bool-cases (is_block_contained_by_interval b offset len)) [
        | inl d ↦ elim (Attempt-cases (relocated k)) [
          | inl a ↦
              rw (c, d, a, remove_back)
                (Leaving-removed relocated offset len hi b bs _ p d (rest (k + 1)))
          | inr (inl a) ↦ rw (c, d, a, remove_back) (not_moved k a)
          | inr (inr a) ↦ rw (c, d, a, remove_back) (null_moved k a)
        ]
        | inr d ↦ elim (Bool-cases (is_interval_contained_by_block b offset len)) [
          | inl i ↦
              rw (c, d, i, remove_back)
                (leaving _ (
                  Left-zero_data offset len hi (offset - b.block.offset) len b bs (bs, 0) p
                    (λ x y. ground arith)
                    (Left-untouched offset len b.block.offset b.block.offset bs h h
                      (ground arith))))
          | inr i ↦ elim (Bool-cases (is_block_at_right_edge b offset len)) [
            | inl j ↦
                rw (c, d, i, j, remove_back)
                  (Leaving-zero_data relocated offset len hi 0 (offset + len - b.block.offset) b bs
                    _ p (λ x y. ground arith) (rest k))
            | inr j ↦
                rw (c, d, i, j, remove_back)
                  (Leaving-zero_data relocated offset len hi (offset - b.block.offset)
                    (b.block.size - (offset - b.block.offset)) b bs _ p (λ x y. ground arith)
                    (rest k))
          ]
        ]
      ]
    ]

-- Blocks in reverse and the blocks behind them.
pub rev_onto-IsPaged :
    (hi : ℕ) (front bs : List BlockDesc)
    → IsBack hi front
    → IsPaged hi bs
    → IsPaged 0 (rev_onto front bs)
unfolding rev_onto IsBack IsPaged
rev_onto-IsPaged hi [] bs h p = IsPaged-lower hi 0 bs (omega arith) p
rev_onto-IsPaged hi (b ∷ front) bs (e, z, o, w, t, h) p =
    rev_onto-IsPaged b.block.offset front (b ∷ bs) h
      (omega arith, z, o, w, t, IsPaged-lower hi (end_of b) bs e p)

pub rev_onto-content :
    (hi x : ℕ) (front bs : List BlockDesc)
    → IsBack hi front
    → IsPaged hi bs
    → content (rev_onto front bs) x ≡ (if ltb x hi then content front x else content bs x)
unfolding rev_onto IsBack IsPaged content
rev_onto-content hi x [] bs h p = elim (Bool-cases (ltb x hi)) [
  | inl c ↦ rw c (content_below hi x bs p (ground arith))
  | inr c ↦ rw c refl
]
rev_onto-content hi x (b ∷ front) bs (e, z, o, w, t, h) p =
    rev_onto-content b.block.offset x front (b ∷ bs) h
      (omega arith, z, o, w, t, IsPaged-lower hi (end_of b) bs e p)
    ∙ ground (arith, back_above b.block.offset x front h, content_below hi x bs p)

pub rev_onto-total :
    (front bs : List BlockDesc) → total (rev_onto front bs) ≡ total front + total bs
unfolding rev_onto total
rev_onto-total [] bs = omega arith
rev_onto-total (b ∷ front) bs = omega (arith, rev_onto-total front (b ∷ bs))
