-- ===== src/FileData/Copy/Writing.antt =====
-- Writing a range of a file (data.c, iterate_on_file_range).
use pmemfile.Prelude.{
  ℕ, suc, ◌+◌, ◌-◌, ◌≤◌, ◌<◌, ◌≡◌, ◌∙◌, ◌⊎◌, refl, ap, true, false, ◌&&◌, ◌||◌, not, Option, none,
  some, List, [], ◌∷◌, ltb, leb, ◌==◌, if◌then◌else◌, arith, Bool-cases, inl, inr,
}
use pmemfile.Run.{Run, ok, fault, ◌>>=◌}
use pmemfile.FileData.{BlockDesc, covers, end_of}
use pmemfile.FileData.Content.{IsPaged, covered, byte_of, content, total, starts_at}
use pmemfile.FileData.Allocate.Interval.{closest_at, one_on, none_later}
use pmemfile.FileData.Copy.{
  copy_in, cleared_sides, write_block_range, in_block_len, write_range, write_at,
}

-- The bytes of the file after a range of it has been written from a buffer.
abbrev pub overwritten : (offset len : ℕ) → (ℕ → ℕ) → (at : ℕ) → (ℕ → ℕ) → ℕ → ℕ
overwritten offset len buf at f x =
    if leb offset x && ltb x (offset + len) then buf (at + (x - offset)) else f x

-- Blocks at the same places.
pub record SamePlaces (bs bs' : List BlockDesc) : Type 0 where
  pub covering : (x : ℕ) → covered bs' x ≡ covered bs x
  pub starts : (k : ℕ) → starts_at k bs' ≡ starts_at k bs
  pub totals : total bs' ≡ total bs

SamePlaces-refl : (bs : List BlockDesc) → SamePlaces bs bs
SamePlaces-refl bs = record { covering = λ x. refl; starts = λ k. refl; totals = refl }

SamePlaces-cons :
    (b b' : BlockDesc) (bs bs' : List BlockDesc)
    → b'.block ≡ b.block
    → SamePlaces bs bs'
    → SamePlaces (b ∷ bs) (b' ∷ bs')
unfolding covered starts_at total
SamePlaces-cons b b' bs bs' same s = record {
  covering = λ x. rw same (ap (λ d. covers b x || d) (s.covering x));
  starts = λ k. rw same (ap (λ d. b.block.offset == k || d) (s.starts k));
  totals = rw same (ap (λ t. b.block.size + t) s.totals);
}

-- The call returns the blocks, with the range written and nothing else changed.
pub data Written (lo offset len : ℕ) (bs : List BlockDesc) (buf : ℕ → ℕ) (at : ℕ)
    : Run (List BlockDesc) → Type 0 where
  written :
      (bs' : List BlockDesc)
      → IsPaged lo bs'
      → ((x : ℕ) → content bs' x ≡ overwritten offset len buf at (content bs) x)
      → SamePlaces bs bs'
      → Written lo offset len bs buf at (ok bs')

-- The first block covers the offset.
abbrev Leads : ℕ → List BlockDesc → Type 0
Leads offset [] = ⊥
Leads offset (b ∷ bs) = covers b offset ≡ true

pub not_below : (lo x : ℕ) (bs : List BlockDesc) → IsPaged lo bs → x < lo → covered bs x ≡ false
unfolding IsPaged covered
not_below lo x [] h l = refl
not_below lo x (b ∷ bs) (s, z, o, w, t, h) l =
    ground (arith, not_below (end_of b) x bs h (omega arith))

-- In a list that starts at the offset or later the first block covers it if one does.
covered-Leads :
    (lo offset : ℕ) (bs : List BlockDesc)
    → IsPaged lo bs
    → offset ≤ lo
    → covered bs offset ≡ true
    → Leads offset bs
unfolding IsPaged covered
covered-Leads lo offset [] h l c = absurd (cc)
covered-Leads lo offset (b ∷ bs) (s, z, o, w, t, h) l c =
    ground (arith, not_below (end_of b) offset bs h (omega arith))

-- A block of which a part has been written.
record IsWritten (offset n at : ℕ) (buf : ℕ → ℕ) (b b' : BlockDesc) : Type 0 where
  same_block : b'.block ≡ b.block
  bytes : (x : ℕ) → covers b x ≡ true → byte_of b' x ≡ overwritten offset n buf at (byte_of b) x

cleared_byte :
    (offset n x : ℕ) (b : BlockDesc)
    → offset + n ≤ b.block.size
    → x < b.block.size
    → (leb offset x && ltb x (offset + n)) ≡ false
    → cleared_sides b offset n x ≡ (if b.initialized then b.data_at x else 0)
unfolding cleared_sides
cleared_byte offset n x b u l e = elim (Bool-cases b.initialized) [
  | inl i ↦ rw i refl
  | inr i ↦ rw i (ground arith)
]

written_bytes :
    (offset n at x : ℕ) (buf : ℕ → ℕ) (b : BlockDesc)
    → covers b offset ≡ true
    → offset + n ≤ end_of b
    → covers b x ≡ true
    → copy_in
        (cleared_sides b (offset - b.block.offset) n)
        (offset - b.block.offset)
        n
        (λ j. buf (at + j))
        (x - b.block.offset)
      ≡ overwritten offset n buf at (byte_of b) x
written_bytes offset n at x buf b c u d =
    let o = b.block.offset in
    elim (Bool-cases (leb offset x && ltb x (offset + n))) [
      | inl e ↦
          let inside : (leb (offset - o) (x - o) && ltb (x - o) (offset - o + n)) ≡ true =
            ground arith in
          let index : x - o - (offset - o) ≡ x - offset = ground arith in rw (e, inside, index) refl
      | inr e ↦
          let outside : (leb (offset - o) (x - o) && ltb (x - o) (offset - o + n)) ≡ false =
            ground arith in
          rw (e, outside)
            (cleared_byte (offset - o) n (x - o) b (ground arith) (ground arith) outside)
    ]

write_block-IsWritten :
    (offset n at : ℕ) (buf : ℕ → ℕ) (b : BlockDesc)
    → covers b offset ≡ true
    → 0 < n
    → offset + n ≤ end_of b
    → (b' : BlockDesc) × IsWritten offset n at buf b b'
      × (write_block_range b (offset - b.block.offset) n buf at ≡ ok b')
unfolding write_block_range cleared_sides
write_block-IsWritten offset n at buf b c pos u =
    let fine : (n == 0
          || not (ltb (offset - b.block.offset) b.block.size)
          || ltb b.block.size (offset - b.block.offset + n))
        ≡ false =
      ground arith in
    (
      record b {
        initialized = true;
        data_at =
            copy_in (cleared_sides b (offset - b.block.offset) n) (offset - b.block.offset) n
              (λ j. buf (at + j));
      },
      record { same_block = refl; bytes = λ x d. written_bytes offset n at x buf b c u d },
      rw fine refl,
    )

-- The byte of the file at an offset outside the block, where the rest of the range is written.
rest_byte :
    (offset len n at x : ℕ) (buf f : ℕ → ℕ)
    → n ≤ len
    → (x < offset) ⊎ (offset + n ≤ x)
    → overwritten (offset + n) (len - n) buf (at + n) f x ≡ overwritten offset len buf at f x
rest_byte offset len n at x buf f l m = elim (Bool-cases (leb offset x && ltb x (offset + len))) [
  | inl e ↦
      let later : (leb (offset + n) x && ltb x (offset + n + (len - n))) ≡ true = ground arith in
      let index : at + n + (x - (offset + n)) ≡ at + (x - offset) = ground arith in
      rw (e, later, index) refl
  | inr e ↦
      let no_later : (leb (offset + n) x && ltb x (offset + n + (len - n))) ≡ false =
        ground arith in
      rw (e, no_later) refl
]

-- The byte at an offset in the block, all of whose part of the range is written.
block_byte :
    (offset len n at x : ℕ) (buf f : ℕ → ℕ)
    → n ≤ len
    → (n ≡ len) ⊎ (x < offset + n)
    → overwritten offset n buf at f x ≡ overwritten offset len buf at f x
block_byte offset len n at x buf f l m = ground arith

-- The blocks after one whose part has been written.
Written-cons :
    (lo offset len n at : ℕ) (buf : ℕ → ℕ) (b b' : BlockDesc) (next : List BlockDesc)
    (r : Run (List BlockDesc))
    → IsPaged lo (b ∷ next)
    → covers b offset ≡ true
    → n ≤ len
    → (n ≡ len) ⊎ (offset + n ≡ end_of b)
    → offset + n ≤ end_of b
    → IsWritten offset n at buf b b'
    → Written (end_of b) (offset + n) (len - n) next buf (at + n) r
    → Written lo offset len (b ∷ next) buf at (r >>= λ bs. ok (b' ∷ bs))
unfolding IsPaged content covered
Written-cons lo offset len n at buf b b' next (ok _) (s, z, o, w, t, h) c l m u q
      (written bs' p e f) =
    let same = q.same_block in
    written (b' ∷ bs') (rw same (s, z, o, w, t, p))
      (λ x. elim (Bool-cases (covers b x)) [
        | inl d ↦
            let part : (n ≡ len) ⊎ (x < offset + n) = elim m [
              | inl k ↦ inl k
              | inr k ↦ inr (ground arith)
            ] in
            let t = rw same at (q.bytes x d) in
            rw (same, d) (t ∙ block_byte offset len n at x buf (byte_of b) l part)
        | inr d ↦
            rw (same, d) (e x ∙ rest_byte offset len n at x buf (content next) l (ground arith))
      ])
      (SamePlaces-cons b b' next bs' same f)
Written-cons lo offset len n at buf b b' next (fault _) p c l m u q x = elim x [ ]

pub nothing_written :
    (offset len at x : ℕ) (buf f : ℕ → ℕ) → len ≡ 0 → f x ≡ overwritten offset len buf at f x
nothing_written offset len at x buf f z = ground arith

-- From a block that covers the offset on, if there is anything to write.
write_range-Written :
    (lo offset len at : ℕ) (buf : ℕ → ℕ) (bs : List BlockDesc)
    → IsPaged lo bs
    → (0 < len → Leads offset bs)
    → ((x : ℕ) → offset ≤ x → x < offset + len → covered bs x ≡ true)
    → Written lo offset len bs buf at (write_range bs offset len buf at)
unfolding write_range IsPaged covered
write_range-Written lo offset len at buf [] p h c = elim (Bool-cases (len == 0)) [
  | inl z ↦ rw z (
      written [] tt (λ x. nothing_written offset len at x buf (content []) (ground arith))
        (SamePlaces-refl []))
  | inr z ↦ elim (h (ground arith)) [ ]
]
write_range-Written lo offset len at buf (b ∷ next) p h c = elim (Bool-cases (len == 0)) [
  | inl z ↦
      rw (z, write_range)
        (written (b ∷ next) p
          (λ x. nothing_written offset len at x buf (content (b ∷ next)) (ground arith))
          (SamePlaces-refl (b ∷ next)))
  | inr z ↦
      let d = h (ground arith) in
      let n = in_block_len b offset len in
      let (b', q, e) = write_block-IsWritten offset n at buf b d (ground arith) (ground arith) in
      let part : (n ≡ len) ⊎ (offset + n ≡ end_of b) =
        elim (Bool-cases (ltb len (b.block.size - (offset - b.block.offset)))) [
          | inl k ↦ inl (rw k refl)
          | inr k ↦ inr (ground arith)
        ] in
      let rest : (x : ℕ) → offset + n ≤ x → x < offset + n + (len - n) → covered next x ≡ true =
        (λ x i j. ground (arith, c x (omega arith) (ground arith), part)) in
      rw (z, d, e, write_range)
        (Written-cons lo offset len n at buf b b' next _ p d (ground arith) part (ground arith) q (
          write_range-Written (end_of b) (offset + n) (len - n) (at + n) buf next p.5
            (λ k.
              covered-Leads (end_of b) (offset + n) next p.5 (ground arith)
                (rest (offset + n) (omega arith) (omega arith)))
            rest))
]

write_behind :
    (lo offset len at : ℕ) (buf : ℕ → ℕ) (b : BlockDesc) (bs : List BlockDesc)
    (r : Run (List BlockDesc))
    → IsPaged lo (b ∷ bs)
    → end_of b ≤ offset
    → Written (end_of b) offset len bs buf at r
    → Written lo offset len (b ∷ bs) buf at (r >>= λ bs'. ok (b ∷ bs'))
unfolding IsPaged content covered
write_behind lo offset len at buf b bs (ok _) (s, z, o, w, t, h) l (written bs' p e f) =
    written (b ∷ bs') (s, z, o, w, t, p) (λ x. ground (arith, e x))
      (SamePlaces-cons b b bs bs' refl f)
write_behind lo offset len at buf b bs (fault _) p l x = elim x [ ]

pub none_covers :
    (lo o : ℕ) (bs : List BlockDesc) → IsPaged lo bs → closest_at o bs ≡ none → covered bs o ≡ false
unfolding closest_at IsPaged covered
none_covers lo o [] p e = refl
none_covers lo o (b ∷ bs) (s, z, w, t, u, h) e =
    not_below b.block.offset o (b ∷ bs) (omega arith, z, w, t, u, h) (none_later o b bs e)

pub found_above :
    (lo o i : ℕ) (bs : List BlockDesc) → IsPaged lo bs → closest_at o bs ≡ some i → lo ≤ o
unfolding closest_at IsPaged
found_above lo o i [] p e = absurd (cc)
found_above lo o i (b ∷ bs) (s, _, _, _, _, _) e = elim (Bool-cases (leb b.block.offset o)) [
  | inl c ↦ ground arith
  | inr c ↦ let t = rw c at e in absurd (cc)
]

-- Where blocks are in order and the blocks cover the range, writing from the block that the look-up finds
-- ends, and returns blocks at the same places, with the bytes of the range from the buffer and all
-- others as before.
pub write_at-Written :
    (lo offset len i : ℕ) (bs : List BlockDesc) (buf : ℕ → ℕ)
    → IsPaged lo bs
    → closest_at offset bs ≡ some i
    → 0 < len
    → ((x : ℕ) → offset ≤ x → x < offset + len → covered bs x ≡ true)
    → Written lo offset len bs buf 0 (write_at i bs offset len buf)
unfolding write_at closest_at IsPaged covered
write_at-Written lo offset len i [] buf p e l c = absurd (cc)
write_at-Written lo offset len i (b ∷ bs) buf p e l c =
    elim (Bool-cases (leb b.block.offset offset)) [
      | inr d ↦ let t = rw d at e in absurd (cc)
      | inl d ↦ here (closest_at offset bs) refl (rw d at e) (ground arith) (λ j q m.
          write_at-Written (end_of b) offset len j bs buf p.5 q l
            (λ x k r. ground (arith, c x k r)))
    ]
  where
    here :
        (r : Option ℕ)
        → closest_at offset bs ≡ r
        → one_on r ≡ some i
        → b.block.offset ≤ offset
        → ((j : ℕ)
            → closest_at offset bs ≡ some j
            → end_of b ≤ offset
            → Written (end_of b) offset len bs buf 0 (write_at j bs offset len buf))
        → Written lo offset len (b ∷ bs) buf 0 (write_at i (b ∷ bs) offset len buf)
    here none q t m f =
        let z : i ≡ 0 = cc in
        let leads : covers b offset ≡ true =
          ground
            (arith, c offset (omega arith) (omega arith), none_covers (end_of b) offset bs p.5 q) in
        rw z (write_range-Written lo offset len 0 buf (b ∷ bs) p (λ k. leads) c)
    here (some j) q t m f =
        let z : i ≡ suc j = cc in
        let above = found_above (end_of b) offset j bs p.5 q in
        rw z (write_behind lo offset len 0 buf b bs _ p above (f j q above))
