-- ===== src/FileData/Copy/Reading/Range.antt =====
-- Reading a range of a file from the block that the look-up finds (data.c).
use pmemfile.Prelude.{
  ℕ, zero, suc, ◌+◌, ◌-◌, ◌^◌, ◌≤◌, ◌<◌, ◌≡◌, ◌∙◌, refl, sym, false, none, List, [], ◌∷◌, ltb, leb,
  ◌==◌, if◌then◌else◌, arith, Bool-cases, inl, inr,
}
use mathlib.Core.Path.{subst}
use pmemfile.Run.{◌>>=◌}
use pmemfile.FileData.{BlockDesc, covers, end_of}
use pmemfile.FileData.Content.{covered, IsPaged, content, content_below, IsPaged-lower}
use pmemfile.FileData.Copy.{read_block_range, hole_len, after_hole, read_range}
use pmemfile.FileData.Copy.Reading.{
  Joined, Reads, Reads-piece, no_bytes, last_turn, far_hole, read_range-Reads, IsBehindFirst,
  in_block,
}

-- The list from the last block on that starts at the offset or before.
unfoldable pub closest_from : ℕ → List BlockDesc → List BlockDesc
closest_from o [] = []
closest_from o (b ∷ bs) =
    let rest = closest_from o bs in
    if leb b.block.offset o then elim rest [ [] ↦ b ∷ bs | c ∷ cs ↦ c ∷ cs ] else []

-- What that list says of all blocks.
pub data Nearby (lo o : ℕ) (bs : List BlockDesc) : List BlockDesc → Type 0 where
  nothing : IsPaged (suc o) bs → Nearby lo o bs []
  near :
      (b : BlockDesc) (next : List BlockDesc)
      → IsPaged lo (b ∷ next)
      → b.block.offset ≤ o
      → IsPaged (suc o) next
      → ((x : ℕ) → o ≤ x → content bs x ≡ content (b ∷ next) x)
      → ((x : ℕ) → o ≤ x → covered bs x ≡ covered (b ∷ next) x)
      → ((start stop : ℕ) → Joined start stop bs → Joined start stop (b ∷ next))
      → IsBehindFirst o bs
      → Nearby lo o bs (b ∷ next)

Joined-tail :
    (start stop : ℕ) (b : BlockDesc) (bs : List BlockDesc)
    → Joined start stop (b ∷ bs)
    → Joined start stop bs
unfolding Joined
Joined-tail start stop b [] h = tt
Joined-tail start stop b (n ∷ bs) (_, h) = h

Nearby-cons :
    (lo o : ℕ) (b : BlockDesc) (bs r : List BlockDesc)
    → b.block.offset ≤ o
    → IsPaged lo (b ∷ bs)
    → Nearby (end_of b) o bs r
    → Nearby lo o (b ∷ bs) (elim r [ [] ↦ b ∷ bs | c ∷ cs ↦ c ∷ cs ])
unfolding IsPaged content covered
Nearby-cons lo o b bs [] l h (nothing n) =
    near b bs h l n (λ x m. refl) (λ x m. refl) (λ s t j. j) l
Nearby-cons lo o b bs (c ∷ cs) l (s, z, w, t, u, h) (near _ _ p q n e k j f) =
    near c cs (IsPaged-lower (end_of b) lo (c ∷ cs) (omega arith) p) q n
      (λ x m. ground (arith, e x m, p.0)) (λ x m. ground (arith, k x m, p.0))
      (λ s t y. j s t (Joined-tail s t b bs y)) l

pub closest_from-Nearby :
    (lo o : ℕ) (bs : List BlockDesc) → IsPaged lo bs → Nearby lo o bs (closest_from o bs)
unfolding closest_from IsPaged
closest_from-Nearby lo o [] h = nothing tt
closest_from-Nearby lo o (b ∷ bs) (s, z, w, t, u, h) = elim (Bool-cases (leb b.block.offset o)) [
  | inl e ↦ rw e (
      Nearby-cons lo o b bs (closest_from o bs) (ground arith) (s, z, w, t, u, h)
        (closest_from-Nearby (end_of b) o bs h))
  | inr e ↦ rw e (nothing (ground arith, z, w, t, u, h))
]

-- A first turn in a hole, with the blocks behind it.
hole_turn :
    (f : ℕ → ℕ) (fuel start : ℕ) (first last ns blk : List BlockDesc) (offset len : ℕ) (buf : ℕ → ℕ)
    (at : ℕ)
    → IsPaged (suc offset) ns
    → Joined start (offset + len) ns
    → ((x : ℕ) → offset ≤ x → f x ≡ content ns x)
    → 0 < len
    → len ≤ suc fuel
    → start ≤ offset
    → offset + len ≤ 2 ^ 63
    → ((n : BlockDesc) (rest : List BlockDesc) → ns ≡ n ∷ rest → IsBehindFirst n.block.offset first)
    → let n = hole_len ns offset len in
      Reads f offset len buf at (
        read_block_range none 0 n buf at >>= λ buf'.
        read_range fuel first last (after_hole ns blk) (offset + n) (len - n) buf' (at + n))
unfolding read_block_range content IsPaged
hole_turn f fuel start first last [] blk offset len buf at p q e pos m s u w =
    last_turn f fuel len first last blk offset len buf at pos refl (λ x i j. e x i)
hole_turn f fuel start first last (b ∷ ns) blk offset len buf at (low, z, o, t, v, h) q e pos m s u
      w =
    elim (Bool-cases (ltb b.block.offset (offset + len))) [
      | inr d ↦
          let far : IsPaged (offset + len) (b ∷ ns) = (ground arith, z, o, t, v, h) in
          last_turn f fuel (hole_len (b ∷ ns) offset len) first last (b ∷ ns) offset len buf at pos
            (far_hole (offset + len) offset len (b ∷ ns) far (omega arith))
            (λ x i j. e x i ∙ content_below (offset + len) x (b ∷ ns) far j)
      | inl d ↦
          let n = hole_len (b ∷ ns) offset len in
          let land : offset + n ≡ b.block.offset = ground arith in
          let more : (n == 0) ≡ false = ground arith in
          let stop : offset + n + (len - n) ≡ offset + len = ground arith in
          rw more (
            Reads-piece f (λ j. 0) offset len n at buf _ (ground arith)
              (λ j i. sym (
                e (offset + j) (omega arith)
                ∙ content_below b.block.offset (offset + j) (b ∷ ns) (omega arith, z, o, t, v, h)
                    (omega arith)))
              (read_range-Reads f fuel start first last (b ∷ ns) (offset + n) (len - n) _ (at + n)
                (in_block (suc offset) b ns (low, z, o, t, v, h)
                  (subst (λ k. Joined start k (b ∷ ns)) (sym stop) q) (ground arith)
                  (λ x i j. e x (omega arith)))
                (ground arith) (ground arith) (omega arith) (omega arith)
                (subst (λ k. IsBehindFirst k first) (sym land) (w b ns refl))))
    ]

IsBehindFirst-raise :
    (o o' : ℕ) (bs : List BlockDesc) → IsBehindFirst o bs → o ≤ o' → IsBehindFirst o' bs
IsBehindFirst-raise o o' [] h l = tt
IsBehindFirst-raise o o' (b ∷ bs) h l = omega (arith, h, l)

starts_here :
    (bs : List BlockDesc) (n : BlockDesc) (rest : List BlockDesc)
    → bs ≡ n ∷ rest
    → IsBehindFirst n.block.offset bs
starts_here bs n rest e = subst (IsBehindFirst n.block.offset) (sym e) (omega arith)

starts_later :
    (o : ℕ) (next : List BlockDesc) (n : BlockDesc) (rest : List BlockDesc)
    → IsPaged (suc o) next
    → next ≡ n ∷ rest
    → o ≤ n.block.offset
unfolding IsPaged
starts_later o [] n rest p e = absurd (cc)
starts_later o (m ∷ ms) n rest (l, _, _, _, _, _) e =
    let z : n.block.offset ≡ m.block.offset = cc in omega (arith, l, z)

read_from_found :
    (offset len lo : ℕ) (bs block : List BlockDesc) (buf : ℕ → ℕ)
    → Nearby lo offset bs block
    → Joined offset (offset + len) bs
    → offset + len ≤ 2 ^ 63
    → 0 < len
    → Reads (content bs) offset len buf 0 (read_range len bs block block offset len buf 0)
unfolding read_range content
read_from_found offset zero lo bs block buf c q u pos = absurd (omega arith)
read_from_found offset (suc len) lo bs [] buf (nothing p) q u pos =
    let more : (suc len == 0) ≡ false = ground arith in
    rw (more, read_range)
      (hole_turn (content bs) len offset bs [] bs [] offset (suc len) buf 0 p q (λ x m. refl) pos
        (omega arith) (omega arith) u (starts_here bs))
read_from_found offset (suc len) lo bs (b ∷ next) buf (near _ _ p l n e _ j w) q u pos =
    elim (Bool-cases (covers b offset)) [
      | inl c ↦
          read_range-Reads (content bs) (suc len) offset bs (b ∷ next) (b ∷ next) offset (suc len)
            buf 0 (in_block lo b next p (j _ _ q) c (λ x m k. e x m)) pos (omega arith)
            (omega arith) u w
      | inr c ↦
          let more : (suc len == 0) ≡ false = ground arith in
          rw (more, c, read_range)
            (hole_turn (content bs) len offset bs (b ∷ next) next (b ∷ next) offset (suc len) buf 0
              n (Joined-tail offset _ b next (j _ _ q)) (λ x m. e x m ∙ ground arith) pos
              (omega arith) (omega arith) u
              (λ k rest z.
                IsBehindFirst-raise offset k.block.offset bs w
                  (starts_later offset next k rest n z)))
    ]

-- Where blocks are in order, and behind a block that ends in the range there is no hole before another
-- block in the range, reading from the block that starts last at the offset or before ends, and
-- fills the range of the buffer with the bytes of the file, those of holes being 0, and leaves the
-- rest of the buffer as it was.
pub read_range-content :
    (offset len : ℕ) (bs : List BlockDesc) (buf : ℕ → ℕ)
    → IsPaged 0 bs
    → Joined offset (offset + len) bs
    → offset + len ≤ 2 ^ 63
    → let block = closest_from offset bs in
      Reads (content bs) offset len buf 0 (read_range len bs block block offset len buf 0)
read_range-content offset len bs buf p q u =
    let block = closest_from offset bs in
    elim (Bool-cases (len == 0)) [
      | inl z ↦ no_bytes (content bs) len bs block block offset len buf 0 (ground arith)
      | inr z ↦
          read_from_found offset len 0 bs block buf (closest_from-Nearby 0 offset bs p) q u
            (ground arith)
    ]
