-- ===== src/FileCalls/Read/Pieces.antt =====
-- Reading into one buffer (read.c, vinode_read).
use pmemfile.Prelude.{
  ℕ, zero, suc, ◌+◌, ◌-◌, ◌^◌, ◌≤◌, ◌≡◌, refl, sym, true, Option, none, some, List, [], ◌∷◌, leb,
  ◌==◌, arith, Bool-cases, inl, inr,
}
use mathlib.Core.Path.{subst}
use pmemfile.Run.{
  Run, ok, fault, ◌>>=◌, Ensures, Ensures-ok, Ensures-fault, Ensures-if, Ensures-bind,
}
use pmemfile.FileData.{BlockDesc, covers}
use pmemfile.FileData.Content.{IsPaged, starts_at}
use pmemfile.FileData.Allocate.Interval.{closest_at}
use pmemfile.FileData.Copy.{hole_len, after_hole, in_block_len, read_block_range, read_range}
use pmemfile.FileData.Copy.Reading.{Joined, Copied, Reads, reads}
use pmemfile.FileData.Copy.Reading.Range.{closest_from, read_range-content}
use pmemfile.FileCalls.{Vinode, Environment, blocks_at, pointer_or}
use pmemfile.FileCalls.Contents.{Finds, bytes_of}
use pmemfile.FileCalls.Hints.{Known, with_hint, blocks_at-closest_from, starts_at-blocks_at}
use pmemfile.FileCalls.Read.{readable, vinode_read}

-- All blocks of the one list start where blocks of the other do.
abbrev Within : List BlockDesc → List BlockDesc → Type 0
Within bs whole = (k : ℕ) → starts_at k bs ≡ true → starts_at k whole ≡ true

Within-tail : (b : BlockDesc) (bs whole : List BlockDesc) → Within (b ∷ bs) whole → Within bs whole
unfolding starts_at
Within-tail b bs whole f k h = f k (ground arith)

Within-after_hole :
    (next block whole : List BlockDesc)
    → Within next whole
    → Within block whole
    → Within (after_hole next block) whole
Within-after_hole [] block whole f g = g
Within-after_hole (n ∷ ns) block whole f g = f

Known-pointer :
    (last : Option ℕ) (bs whole : List BlockDesc)
    → Known last whole
    → Within bs whole
    → Known (pointer_or last bs) whole
unfolding pointer_or starts_at
Known-pointer last [] whole k f = k
Known-pointer last (b ∷ bs) whole k f = f b.block.offset (ground arith)

-- The block that the loop for reading used last is one of the file.
last_read :
    (p : Option ℕ) (whole : List BlockDesc) (fuel : ℕ) (first last block : List BlockDesc)
    (offset len : ℕ) (buf : ℕ → ℕ) (at : ℕ)
    → Known p whole
    → Within first whole
    → Within last whole
    → Within block whole
    → Ensures
        (λ r. Known (pointer_or p r.1) whole)
        (read_range fuel first last block offset len buf at)
unfolding read_range
last_read p whole zero first last block offset len buf at k f l b =
    Ensures-if (len == 0) _ _ (λ e. Ensures-ok _ (Known-pointer p last whole k l))
      (λ e. Ensures-fault _)
last_read p whole (suc fuel) first last [] offset len buf at k f l b =
    elim (Bool-cases (len == 0)) [
      | inl z ↦ rw (z, read_range) (Ensures-ok _ (Known-pointer p last whole k l))
      | inr z ↦
          let n = hole_len first offset len in
          rw (z, read_range)
            (Ensures-bind (read_block_range none 0 n buf at) _ (λ buf' e.
              last_read p whole fuel first last (after_hole first []) (offset + n) (len - n) buf'
                (at + n) k f l (Within-after_hole first [] whole f b)))
    ]
last_read p whole (suc fuel) first last (b ∷ next) offset len buf at k f l w =
    let tail = Within-tail b next whole w in
    elim (Bool-cases (len == 0)) [
      | inl z ↦ rw (z, read_range) (Ensures-ok _ (Known-pointer p last whole k l))
      | inr z ↦ elim (Bool-cases (covers b offset)) [
        | inl c ↦
            let n = in_block_len b offset len in
            rw (z, c, read_range)
              (Ensures-bind (read_block_range (some b) (offset - b.block.offset) n buf at) _
                (λ buf' e.
                  last_read p whole fuel first (b ∷ next) next (offset + n) (len - n) buf' (at + n)
                    k f w tail))
        | inr c ↦
            let n = hole_len next offset len in
            rw (z, c, read_range)
              (Ensures-bind (read_block_range none 0 n buf at) _ (λ buf' e.
                last_read p whole fuel first last (after_hole next (b ∷ next)) (offset + n)
                  (len - n) buf' (at + n) k f l (Within-after_hole next (b ∷ next) whole tail w)))
      ]
    ]

-- A read of one buffer.
pub data Part (v : Vinode) (offset count : ℕ) (buf : ℕ → ℕ)
    : Run (ℕ × (ℕ → ℕ) × Option ℕ) → Type 0 where
  part :
      (n : ℕ) (buf' : ℕ → ℕ) (last : Option ℕ)
      → n ≡ readable v.size offset count
      → Copied (bytes_of v) offset n buf 0 buf'
      → Known last v.blocks
      → Part v offset count buf (ok (n, buf', last))

from_range :
    (v : Vinode) (offset count n : ℕ) (buf : ℕ → ℕ) (last : Option ℕ)
    (m : Run ((ℕ → ℕ) × List BlockDesc))
    → n ≡ readable v.size offset count
    → Reads (bytes_of v) offset n buf 0 m
    → Ensures (λ r. Known (pointer_or last r.1) v.blocks) m
    → Part v offset count buf (m >>= λ r. ok (n, r.0, pointer_or last r.1))
from_range v offset count n buf last (ok _) e (reads buf' l c) k = part n buf' _ e c (k.at _ refl)
from_range v offset count n buf last (fault _) e r k = elim r [ ]

pub vinode_read-Part :
    (env : Environment) (v : Vinode) (offset count : ℕ) (buf : ℕ → ℕ) (last : Option ℕ)
    → Finds env
    → IsPaged 0 v.blocks
    → Known last v.blocks
    → v.size ≤ 2 ^ 62
    → Joined offset (offset + readable v.size offset count) v.blocks
    → Part v offset count buf (vinode_read env v offset last buf count)
unfolding vinode_read
vinode_read-Part env v offset count buf last f p k s j = elim (Bool-cases (leb v.size offset)) [
  | inl e ↦ rw e (
      part 0 buf last (ground arith)
        (record {
          copied = λ i l. absurd (omega arith);
          before = λ i l. refl;
          behind = λ i l. refl;
        })
        k)
  | inr e ↦
      let n = readable v.size offset count in
      let bs = v.blocks in
      let c = closest_from offset bs in
      let here : blocks_at (closest_at offset bs) bs ≡ c = blocks_at-closest_from offset bs in
      let keys : Within c bs = λ i h.
        starts_at-blocks_at (closest_at offset bs) bs i
          (subst (λ l. starts_at i l ≡ true) (sym here) h) in
      rw (e, with_hint (env.find bs) offset last bs p k (f.closest bs offset), here)
        (from_range v offset count n buf last _ refl
          (read_range-content offset n bs buf p j (ground arith))
          (last_read last bs n bs c c offset n buf 0 k (λ i h. h) keys keys))
]
