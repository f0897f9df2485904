-- ===== src/FileCalls/Write/Piece.antt =====
-- Writing one buffer (write.c, vinode_write).
use pmemfile.Prelude.{
  ℕ, ◌+◌, ◌-◌, ◌≤◌, ◌<◌, ◌≡◌, ◌∙◌, true, false, Option, none, some, List, [], ◌∷◌, ◌==◌, arith,
  Bool-cases, Option-cases, inl, inr,
}
use pmemfile.Run.{Run, ok, fault, ◌>>=◌}
use pmemfile.FileData.{BlockDesc}
use pmemfile.FileData.Content.{IsPaged, covered, content, starts_at}
use pmemfile.FileData.Allocate.Interval.{closest_at}
use pmemfile.FileData.Copy.{in_block_len}
use pmemfile.FileData.Copy.Writing.{
  overwritten, SamePlaces, Written, written, write_at-Written, none_covers,
}
use pmemfile.FileCalls.{Vinode, Environment, blocks_at}
use pmemfile.FileCalls.Contents.{Finds}
use pmemfile.FileCalls.Hints.{Known, with_hint, Known-keep, starts_at-blocks_at}
use pmemfile.FileCalls.Write.{last_written, start_or, vinode_write}

-- The blocks after a range of the file has been written from a buffer, and the last block used.
pub record Rewritten (offset len : ℕ) (buf : ℕ → ℕ) (bs bs' : List BlockDesc) (last : Option ℕ)
    : Type 0 where
  pub paged : IsPaged 0 bs'
  pub bytes : (x : ℕ) → content bs' x ≡ overwritten offset len buf 0 (content bs) x
  pub places : SamePlaces bs bs'
  pub known : Known last bs'

pub data Rewrites (offset len : ℕ) (buf : ℕ → ℕ) (v : Vinode)
    : Run (Vinode × Option ℕ) → Type 0 where
  rewrites :
      (bs' : List BlockDesc) (last : Option ℕ)
      → Rewritten offset len buf v.blocks bs' last
      → Rewrites offset len buf v (ok (record v { blocks = bs' }, last))

last-Known :
    (whole bs : List BlockDesc) (offset len : ℕ) (last : Option ℕ) (m : Option BlockDesc)
    → Known (start_or last m) whole
    → ((k : ℕ) → starts_at k bs ≡ true → starts_at k whole ≡ true)
    → Known (start_or last (last_written bs offset len m)) whole
unfolding last_written starts_at
last-Known whole [] offset len last m k f = k
last-Known whole (b ∷ next) offset len last m k f = elim (Bool-cases (len == 0)) [
  | inl e ↦ rw e k
  | inr e ↦
      let n = in_block_len b offset len in
      rw e (
        last-Known whole next (offset + n) (len - n) last (some b) (f b.block.offset (ground arith))
          (λ j h. f j (ground arith)))
]

after_at :
    (offset len i : ℕ) (last : Option ℕ) (buf : ℕ → ℕ) (v : Vinode) (r : Run (List BlockDesc))
    → Known last v.blocks
    → Written 0 offset len v.blocks buf 0 r
    → Rewrites offset len buf v (
        r >>= λ bs. ok (
          record v { blocks = bs },
          start_or last (last_written (blocks_at (some i) v.blocks) offset len none),
        ))
after_at offset len i last buf v (ok _) k (written bs' p e s) =
    let t = last_written (blocks_at (some i) v.blocks) offset len none in
    rewrites bs' (start_or last t) (record {
      paged = p;
      bytes = e;
      places = s;
      known =
          Known-keep (start_or last t) v.blocks bs'
            (last-Known v.blocks (blocks_at (some i) v.blocks) offset len last none k
              (starts_at-blocks_at (some i) v.blocks))
            (λ j h. s.starts j ∙ h);
    })
after_at offset len i last buf v (fault _) k w = elim w [ ]

pub vinode_write-Rewrites :
    (env : Environment) (offset count : ℕ) (last : Option ℕ) (buf : ℕ → ℕ) (v : Vinode)
    → Finds env
    → IsPaged 0 v.blocks
    → Known last v.blocks
    → 0 < count
    → ((x : ℕ) → offset ≤ x → x < offset + count → covered v.blocks x ≡ true)
    → Rewrites offset count buf v (vinode_write env offset count last buf v)
unfolding vinode_write
vinode_write-Rewrites env offset count last buf v f p k pos c =
    let some_count : (count == 0) ≡ false = ground arith in
    rw
      (
        some_count,
        with_hint (env.find v.blocks) offset last v.blocks p k (f.closest v.blocks offset),
      )
      (elim (Option-cases (closest_at offset v.blocks)) [
        | inl e ↦
            let t = none_covers 0 offset v.blocks p e in
            let u = c offset (omega arith) (omega arith) in absurd (ground (arith, t, u))
        | inr (i, e) ↦ rw e (
            after_at offset count i last buf v _ k
              (write_at-Written 0 offset count i v.blocks buf p e pos c))
      ])
