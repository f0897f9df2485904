-- ===== src/FileData/Copy/RoundTrip.antt =====
-- Reading what has been written (data.c).
use pmemfile.Prelude.{
  ℕ, ◌+◌, ◌-◌, ◌^◌, ◌≤◌, ◌<◌, ◌≡◌, ◌∙◌, refl, true, ◌&&◌, some, List, [], ◌∷◌, ltb, leb, arith,
  Bool-cases, inl, inr,
}
use pmemfile.Run.{Run, ok, fault}
use pmemfile.FileData.{BlockDesc, end_of}
use pmemfile.FileData.Content.{IsPaged, covered, content}
use pmemfile.FileData.Allocate.Interval.{closest_at}
use pmemfile.FileData.Copy.{read_range, write_at}
use pmemfile.FileData.Copy.Reading.{Joined, Reads, reads}
use pmemfile.FileData.Copy.Reading.Range.{closest_from, read_range-content}
use pmemfile.FileData.Copy.Writing.{Written, written, write_at-Written, not_below}

-- Blocks that cover a range have no hole in it.
covered-Joined :
    (lo start stop : ℕ) (bs : List BlockDesc)
    → IsPaged lo bs
    → ((x : ℕ) → start ≤ x → lo ≤ x → x < stop → covered bs x ≡ true)
    → Joined start stop bs
unfolding IsPaged Joined covered
covered-Joined lo start stop [] p c = tt
covered-Joined lo start stop (b ∷ []) p c = tt
covered-Joined lo start stop (b ∷ n ∷ rest) (s, z, o, w, t, p) c = (
  λ l m. elim (Bool-cases (ltb (end_of b) n.block.offset)) [
    | inl e ↦
        let (_, zn, on, wn, tn, pn) = p in
        let f =
          not_below n.block.offset (end_of b) (n ∷ rest) (omega arith, zn, on, wn, tn, pn)
            (ground arith) in
        let g = c (end_of b) (omega arith) (omega arith) (ground arith) in
        absurd (ground (arith, f, g))
    | inr e ↦ ground (arith, p.0)
  ],
  covered-Joined (end_of b) start stop (n ∷ rest) p
      (λ x i j k. ground (arith, c x i (omega arith) k)),
)

Reads-same :
    (f g : ℕ → ℕ) (offset len : ℕ) (buf : ℕ → ℕ) (at : ℕ) (r : Run ((ℕ → ℕ) × List BlockDesc))
    → ((x : ℕ) → offset ≤ x → x < offset + len → f x ≡ g x)
    → Reads f offset len buf at r
    → Reads g offset len buf at r
Reads-same f g offset len buf at (ok _) e (reads buf' last c) = reads buf' last (record {
  copied = λ j m. c.copied j m ∙ e (offset + j) (omega arith) (omega arith);
  before = c.before;
  behind = c.behind;
})
Reads-same f g offset len buf at (fault _) e x = elim x [ ]

after_write :
    (offset len : ℕ) (bs : List BlockDesc) (buf buf2 : ℕ → ℕ) (r : Run (List BlockDesc))
    → ((x : ℕ) → offset ≤ x → x < offset + len → covered bs x ≡ true)
    → offset + len ≤ 2 ^ 63
    → Written 0 offset len bs buf 0 r
    → (bs' : List BlockDesc) × (r ≡ ok bs')
      × Reads
          (λ x. buf (x - offset))
          offset
          len
          buf2
          0
          (read_range len bs' (closest_from offset bs') (closest_from offset bs') offset len buf2 0)
after_write offset len bs buf buf2 (ok _) c u (written bs' p e f) = (
  bs',
  refl,
  Reads-same (content bs') _ offset len buf2 0 _
      (λ x l m.
        let z : 0 + (x - offset) ≡ x - offset = omega arith in
        let inside : (leb offset x && ltb x (offset + len)) ≡ true = ground arith in
        let t : content bs' x ≡ buf (0 + (x - offset)) = e x ∙ rw inside refl in rw z at t)
      (read_range-content offset len bs' buf2 p
        (covered-Joined 0 offset (offset + len) bs' p (λ x l m n. f.covering x ∙ c x l n)) u),
)
after_write offset len bs buf buf2 (fault _) c u x = elim x [ ]

-- Where blocks are in order and cover a range that is not empty, writing it returns blocks from which
-- reading it fills the range of any buffer with the bytes written and leaves the rest.
pub write_at-read_range :
    (offset len i : ℕ) (bs : List BlockDesc) (buf buf2 : ℕ → ℕ)
    → IsPaged 0 bs
    → closest_at offset bs ≡ some i
    → 0 < len
    → ((x : ℕ) → offset ≤ x → x < offset + len → covered bs x ≡ true)
    → offset + len ≤ 2 ^ 63
    → (bs' : List BlockDesc) × (write_at i bs offset len buf ≡ ok bs')
      × Reads
          (λ x. buf (x - offset))
          offset
          len
          buf2
          0
          (read_range len bs' (closest_from offset bs') (closest_from offset bs') offset len buf2 0)
write_at-read_range offset len i bs buf buf2 p e l c u =
    after_write offset len bs buf buf2 _ c u (write_at-Written 0 offset len i bs buf p e l c)
