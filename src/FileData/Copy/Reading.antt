-- ===== src/FileData/Copy/Reading.antt =====
-- The loop of iterate_on_file_range for reading (data.c).
pub mod Range
use mathlib.Core.Path.{subst}
use pmemfile.Prelude.{
  ℕ, zero, suc, ◌+◌, ◌-◌, ◌*◌, ◌%◌, ◌^◌, ◌≤◌, ◌<◌, ◌≡◌, ◌∙◌, refl, sym, Bool, true, false, ◌&&◌,
  ◌||◌, not, Option, none, some, List, [], ◌∷◌, ltb, leb, ◌==◌, if◌then◌else◌, arith, Bool-cases,
  inl, inr,
}
use pmemfile.Run.{Run, ok, fault, ◌>>=◌}
use pmemfile.FileData.{BlockDesc, covers, end_of}
use pmemfile.FileData.Content.{IsPaged, covered, byte_of, content, content_below, IsPaged-lower}
use pmemfile.FileData.Copy.{
  copy_in, read_block_range, in_block_len, hole_len, after_hole, read_range,
}

-- Behind a block that ends behind `start` there is no hole before a block that starts before `stop`.
unfoldable pub Joined : (start stop : ℕ) → List BlockDesc → Type 0
Joined start stop [] = Unit
Joined start stop (b ∷ []) = Unit
Joined start stop (b ∷ n ∷ rest) =
    (start < end_of b → n.block.offset < stop → end_of b ≡ n.block.offset)
    × Joined start stop (n ∷ rest)

-- The buffer holds `f` at the positions of the range, and the rest as before.
pub record Copied (f : ℕ → ℕ) (offset len : ℕ) (buf : ℕ → ℕ) (at : ℕ) (buf' : ℕ → ℕ) : Type 0 where
  pub copied : (j : ℕ) → j < len → buf' (at + j) ≡ f (offset + j)
  pub before : (j : ℕ) → j < at → buf' j ≡ buf j
  pub behind : (j : ℕ) → at + len ≤ j → buf' j ≡ buf j

pub data Reads (f : ℕ → ℕ) (offset len : ℕ) (buf : ℕ → ℕ) (at : ℕ)
    : Run ((ℕ → ℕ) × List BlockDesc) → Type 0 where
  reads :
      (buf' : ℕ → ℕ) (last : List BlockDesc)
      → Copied f offset len buf at buf'
      → Reads f offset len buf at (ok (buf', last))

-- A piece of `n` bytes and the rest.
pub Reads-piece :
    (f src : ℕ → ℕ) (offset len n at : ℕ) (buf : ℕ → ℕ) (r : Run ((ℕ → ℕ) × List BlockDesc))
    → n ≤ len
    → ((j : ℕ) → j < n → src j ≡ f (offset + j))
    → Reads f (offset + n) (len - n) (copy_in buf at n src) (at + n) r
    → Reads f offset len buf at r
Reads-piece f src offset len n at buf (ok _) l e (reads buf' last c) = reads buf' last (record {
  copied = λ j m. elim (Bool-cases (ltb j n)) [
    | inl k ↦
        let z : at + j - at ≡ j = omega arith in
        let inside : (leb at (at + j) && ltb (at + j) (at + n)) ≡ true = ground arith in
        c.before (at + j) (ground arith) ∙ rw (inside, z) (e j (ground arith))
    | inr k ↦
        let z : at + n + (j - n) ≡ at + j = ground arith in
        let w : offset + n + (j - n) ≡ offset + j = ground arith in
        let t : buf' (at + n + (j - n)) ≡ f (offset + n + (j - n)) =
          c.copied (j - n) (ground arith) in
        rw (z, w) at t
  ];
  before = λ j m. c.before j (omega arith) ∙ ground arith;
  behind = λ j m. c.behind j (omega arith) ∙ ground arith;
})
Reads-piece f src offset len n at buf (fault _) l e x = elim x [ ]

no_change : (f : ℕ → ℕ) (offset : ℕ) (buf : ℕ → ℕ) (at : ℕ) → Copied f offset 0 buf at buf
no_change f offset buf at = record {
  copied = λ j m. absurd (omega arith);
  before = λ j m. refl;
  behind = λ j m. refl;
}

pub no_bytes :
    (f : ℕ → ℕ) (fuel : ℕ) (first last block : List BlockDesc) (offset len : ℕ) (buf : ℕ → ℕ)
    (at : ℕ)
    → len ≡ 0
    → Reads f offset len buf at (read_range fuel first last block offset len buf at)
unfolding read_range
no_bytes f zero first last block offset len buf at z =
    rw z (reads buf last (no_change f offset buf at))
no_bytes f (suc fuel) first last [] offset len buf at z =
    rw z (reads buf last (no_change f offset buf at))
no_bytes f (suc fuel) first last (b ∷ next) offset len buf at z =
    rw z (reads buf last (no_change f offset buf at))

-- Where the loop stands: in a block, with the bytes of the rest of the range from there on; or in a hole
-- that lasts to the end of the range, of which the code sees it.
pub data Stand (f : ℕ → ℕ) (start : ℕ) (first : List BlockDesc) (offset len : ℕ)
    : List BlockDesc → Type 0 where
  in_block :
      (lo : ℕ) (b : BlockDesc) (next : List BlockDesc)
      → IsPaged lo (b ∷ next)
      → Joined start (offset + len) (b ∷ next)
      → covers b offset ≡ true
      → ((x : ℕ) → offset ≤ x → x < offset + len → f x ≡ content (b ∷ next) x)
      → Stand f start first offset len (b ∷ next)
  behind_all :
      ((x : ℕ) → offset ≤ x → x < offset + len → f x ≡ 0)
      → hole_len first offset len ≡ len
      → Stand f start first offset len []
  in_hole :
      (b : BlockDesc) (next : List BlockDesc)
      → covers b offset ≡ false
      → ((x : ℕ) → offset ≤ x → x < offset + len → f x ≡ 0)
      → hole_len next offset len ≡ len
      → Stand f start first offset len (b ∷ next)

-- A turn that takes the rest of the range from a hole.
pub last_turn :
    (f : ℕ → ℕ) (fuel n : ℕ) (first last block : List BlockDesc) (offset len : ℕ) (buf : ℕ → ℕ)
    (at : ℕ)
    → 0 < len
    → n ≡ len
    → ((x : ℕ) → offset ≤ x → x < offset + len → f x ≡ 0)
    → Reads f offset len buf at (
        read_block_range none 0 n buf at >>= λ buf'.
        read_range fuel first last block (offset + n) (len - n) buf' (at + n))
unfolding read_block_range
last_turn f fuel n first last block offset len buf at pos e z =
    let some_bytes : (n == 0) ≡ false = ground arith in
    rw some_bytes (
      Reads-piece f (λ j. 0) offset len n at buf _ (omega arith)
        (λ j m. sym (z (offset + j) (omega arith) (omega arith)))
        (no_bytes f fuel first last block (offset + n) (len - n) _ (at + n) (omega arith)))

-- A turn that takes bytes from the block.
block_turn :
    (f : ℕ → ℕ) (n offset len : ℕ) (b : BlockDesc) (buf : ℕ → ℕ) (at : ℕ)
    (next : (ℕ → ℕ) → Run ((ℕ → ℕ) × List BlockDesc))
    → covers b offset ≡ true
    → 0 < n
    → n ≤ len
    → offset + n ≤ end_of b
    → ((j : ℕ) → j < n → f (offset + j) ≡ byte_of b (offset + j))
    → ((src : ℕ → ℕ)
        → Reads f
            (offset + n)
            (len - n)
            (copy_in buf at n src)
            (at + n)
            (next (copy_in buf at n src)))
    → Reads f offset len buf at
        (read_block_range (some b) (offset - b.block.offset) n buf at >>= λ buf'. next buf')
unfolding read_block_range
block_turn f n offset len b buf at next c pos l u e g =
    let fine : (n == 0
          || not (ltb (offset - b.block.offset) b.block.size)
          || ltb b.block.size (offset - b.block.offset + n))
        ≡ false =
      ground arith in
    elim (Bool-cases b.initialized) [
      | inl i ↦
          rw (fine, i)
            (Reads-piece f (λ j. b.data_at (offset - b.block.offset + j)) offset len n at buf _ l
              (λ j m.
                let z : offset - b.block.offset + j ≡ offset + j - b.block.offset = ground arith in
                rw z (sym (e j m ∙ rw i refl)))
              (g (λ j. b.data_at (offset - b.block.offset + j))))
      | inr i ↦
          rw (fine, i)
            (Reads-piece f (λ j. 0) offset len n at buf _ l (λ j m. sym (e j m ∙ rw i refl))
              (g (λ j. 0)))
    ]

-- The first block of the file starts at the offset or before.
abbrev pub IsBehindFirst : ℕ → List BlockDesc → Type 0
IsBehindFirst offset [] = Unit
IsBehindFirst offset (f ∷ fs) = f.block.offset ≤ offset

-- No block starts in the rest of the range.
pub far_hole :
    (lo offset len : ℕ) (bs : List BlockDesc)
    → IsPaged lo bs
    → offset + len ≤ lo
    → hole_len bs offset len ≡ len
unfolding IsPaged
far_hole lo offset len [] p l = refl
far_hole lo offset len (b ∷ bs) (s, z, o, w, t, h) l = ground arith

-- Where the loop stands after all bytes of a block.
behind_block :
    (f : ℕ → ℕ) (start lo offset len o' l' : ℕ) (first : List BlockDesc) (b : BlockDesc)
    (next : List BlockDesc)
    → IsPaged lo (b ∷ next)
    → Joined start (offset + len) (b ∷ next)
    → covers b offset ≡ true
    → ((x : ℕ) → offset ≤ x → x < offset + len → f x ≡ content (b ∷ next) x)
    → start ≤ offset
    → offset + len ≤ 2 ^ 63
    → IsBehindFirst offset first
    → o' ≡ end_of b
    → o' + l' ≡ offset + len
    → 0 < l'
    → Stand f start first o' l' next
unfolding IsPaged Joined content
behind_block f start lo offset len o' l' [] b [] p q c e s u w h k pos =
    behind_all (λ x m n. e x (ground arith) (omega arith) ∙ ground arith) refl
behind_block f start lo offset len o' l' (g ∷ gs) b [] p q c e s u w h k pos =
    behind_all (λ x m n. e x (ground arith) (omega arith) ∙ ground arith) (ground arith)
behind_block f start lo offset len o' l' first b (n ∷ rest) (_, _, _, _, _, p) (q, qs) c e s u w h k
      pos =
    let (low, z, o, m, t, ps) = p in
    elim (Bool-cases (ltb n.block.offset (offset + len))) [
      | inl d ↦
          let touch : end_of b ≡ n.block.offset = q (ground arith) (ground arith) in
          in_block (end_of b) n rest p (subst (λ t. Joined start t (n ∷ rest)) (sym k) qs)
            (ground arith) (λ x i j. e x (ground arith) (omega arith) ∙ ground arith)
      | inr d ↦
          in_hole n rest (ground arith)
            (λ x i j.
              e x (ground arith) (omega arith)
              ∙ ground (
                arith,
                content_below n.block.offset x (n ∷ rest) (omega arith, z, o, m, t, ps)
                    (ground arith),
              ))
            (far_hole (end_of n) o' l' rest ps (ground arith))
    ]

-- The loop from where it stands. The fuel bounds the bytes of the range.
pub read_range-Reads :
    (f : ℕ → ℕ) (fuel start : ℕ) (first last block : List BlockDesc) (offset len : ℕ) (buf : ℕ → ℕ)
    (at : ℕ)
    → Stand f start first offset len block
    → 0 < len
    → len ≤ fuel
    → start ≤ offset
    → offset + len ≤ 2 ^ 63
    → IsBehindFirst offset first
    → Reads f offset len buf at (read_range fuel first last block offset len buf at)
unfolding read_range content IsPaged
read_range-Reads f zero start first last block offset len buf at x pos m s u w =
    absurd (omega arith)
read_range-Reads f (suc fuel) start first last [] offset len buf at (behind_all z n) pos m s u w =
    let more : (len == 0) ≡ false = ground arith in
    rw (more, read_range)
      (last_turn f fuel (hole_len first offset len) first last (after_hole first []) offset len buf
        at pos n z)
read_range-Reads f (suc fuel) start first last (b ∷ next) offset len buf at (in_hole _ _ c z n) pos
      m s u w =
    let more : (len == 0) ≡ false = ground arith in
    rw (more, c, read_range)
      (last_turn f fuel (hole_len next offset len) first last (after_hole next (b ∷ next)) offset
        len buf at pos n z)
read_range-Reads f (suc fuel) start first last (b ∷ next) offset len buf at
      (in_block lo _ _ p q c e) pos m s u w =
    let more : (len == 0) ≡ false = ground arith in
    let n = in_block_len b offset len in
    rw (more, c, read_range)
      (block_turn f n offset len b buf at _ c (ground arith) (ground arith) (ground arith)
        (λ j k. e (offset + j) (omega arith) (ground arith) ∙ ground arith)
        (λ src. elim (Bool-cases (len - n == 0)) [
          | inl d ↦
              no_bytes f fuel first (b ∷ next) next (offset + n) (len - n) _ (at + n) (ground arith)
          | inr d ↦
              read_range-Reads f fuel start first (b ∷ next) next (offset + n) (len - n) _ (at + n)
                (behind_block f start lo offset len (offset + n) (len - n) first b next p q c e s u
                  w (ground arith) (ground arith) (ground arith))
                (ground arith) (ground arith) (omega arith) (ground arith) (behind_first first w)
        ]))
  where
    behind_first :
        (g : List BlockDesc)
        → IsBehindFirst offset g
        → IsBehindFirst (offset + in_block_len b offset len) g
    behind_first [] h = tt
    behind_first (_ ∷ gs) h = omega (arith, h)
