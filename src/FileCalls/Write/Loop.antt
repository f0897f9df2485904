-- ===== src/FileCalls/Write/Loop.antt =====
-- The loop that writes (write.c, pmemfile_pwritev_internal).
use pmemfile.Prelude.{
  ℕ, ◌+◌, ◌-◌, ◌^◌, ◌≤◌, ◌<◌, ◌≡◌, ◌∙◌, refl, ap, true, false, ◌&&◌, Option, some, List, [], ◌∷◌,
  ltb, leb, ◌==◌, if◌then◌else◌, arith, Bool-cases, inl, inr,
}
use pmemfile.Run.{Run, ok, fault, ◌>>=◌}
use pmemfile.FileData.{BlockDesc}
use pmemfile.FileData.Content.{IsPaged, covered, content}
use pmemfile.FileData.Copy.Writing.{overwritten}
use pmemfile.FileCalls.{Vinode, Iov, Environment}
use pmemfile.FileCalls.Contents.{Finds, gathered, lengths}
use pmemfile.FileCalls.Hints.{Known}
use pmemfile.FileCalls.Write.{vinode_write, len_to_write, write_loop}
use pmemfile.FileCalls.Write.Piece.{Rewritten, Rewrites, rewrites, vinode_write-Rewrites}

pub data LoopWrites (offset len ret : ℕ) (buf : ℕ → ℕ) (v : Vinode)
    : Run (ℕ × Vinode × Option ℕ) → Type 0 where
  loop_writes :
      (bs' : List BlockDesc) (last : Option ℕ)
      → Rewritten offset len buf v.blocks bs' last
      → LoopWrites offset len ret buf v (ok (ret, record v { blocks = bs' }, last))

joined_byte :
    (e : Iov) (buf : ℕ → ℕ) (iov : List Iov) (offset x : ℕ) (f f1 : ℕ → ℕ)
    → e.iov_base ≡ some buf
    → f1 x ≡ overwritten offset e.iov_len buf 0 f x
    → overwritten (offset + e.iov_len) (lengths iov) (gathered iov) 0 f1 x
      ≡ overwritten offset (lengths (e ∷ iov)) (gathered (e ∷ iov)) 0 f x
unfolding lengths gathered
joined_byte e buf iov offset x f f1 b q =
    let n = e.iov_len in
    let l = lengths iov in
    elim (Bool-cases (leb (offset + n) x && ltb x (offset + n + l))) [
      | inl c ↦
          let whole : (leb offset x && ltb x (offset + (n + l))) ≡ true = ground arith in
          let later : ltb (0 + (x - offset)) n ≡ false = ground arith in
          let index : 0 + (x - (offset + n)) ≡ 0 + (x - offset) - n = omega arith in
          rw (c, whole, later, index) refl
      | inr c ↦
          rw (c, q)
            (elim (Bool-cases (leb offset x && ltb x (offset + n))) [
              | inl d ↦
                  let whole : (leb offset x && ltb x (offset + (n + l))) ≡ true = ground arith in
                  let first : ltb (0 + (x - offset)) n ≡ true = ground arith in
                  rw (d, whole, first, b) refl
              | inr d ↦
                  let none : (leb offset x && ltb x (offset + (n + l))) ≡ false = ground arith in
                  rw (d, none) refl
            ])
    ]

-- A part of the range written, and the rest of it after that.
Rewritten-join :
    (e : Iov) (buf : ℕ → ℕ) (iov : List Iov) (offset : ℕ) (bs bs1 bs2 : List BlockDesc)
    (last1 last2 : Option ℕ)
    → e.iov_base ≡ some buf
    → Rewritten offset e.iov_len buf bs bs1 last1
    → Rewritten (offset + e.iov_len) (lengths iov) (gathered iov) bs1 bs2 last2
    → Rewritten offset (lengths (e ∷ iov)) (gathered (e ∷ iov)) bs bs2 last2
unfolding lengths gathered
Rewritten-join e buf iov offset bs bs1 bs2 last1 last2 b r s = record {
  paged = s.paged;
  bytes = λ x. s.bytes x ∙ joined_byte e buf iov offset x (content bs) (content bs1) b (r.bytes x);
  places = record {
    covering = λ x. s.places.covering x ∙ r.places.covering x;
    starts = λ k. s.places.starts k ∙ r.places.starts k;
    totals = s.places.totals ∙ r.places.totals;
  };
  known = s.known;
}

-- The buffers are not NULL.
pub data HasBases : List Iov → Type 0 where
  no_more : HasBases []
  based :
      (e : Iov) (buf : ℕ → ℕ) (iov : List Iov)
      → e.iov_base ≡ some buf
      → HasBases iov
      → HasBases (e ∷ iov)

nothing-Rewritten :
    (offset len : ℕ) (buf : ℕ → ℕ) (bs : List BlockDesc) (last : Option ℕ)
    → len ≡ 0
    → IsPaged 0 bs
    → Known last bs
    → Rewritten offset len buf bs bs last
nothing-Rewritten offset len buf bs last z p k = record {
  paged = p;
  bytes = λ x. ground arith;
  places = record { covering = λ x. refl; starts = λ k. refl; totals = refl };
  known = k;
}

abbrev RestWrites :
    Environment → (e : Iov) (buf : ℕ → ℕ) → List Iov → (offset ret : ℕ) → Vinode → Type 0
RestWrites env e buf iov offset ret v =
    (bs : List BlockDesc) (last : Option ℕ)
    → Rewritten offset e.iov_len buf v.blocks bs last
    → let w : Vinode = record v { blocks = bs } in
      LoopWrites (offset + e.iov_len) (lengths iov) (ret + e.iov_len + lengths iov) (gathered iov) w
        (write_loop env (offset + e.iov_len) (ret + e.iov_len) last iov w)

-- A turn of the loop and the turns after it.
LoopWrites-cons :
    (env : Environment) (e : Iov) (buf : ℕ → ℕ) (iov : List Iov) (offset ret : ℕ) (v : Vinode)
    (m : Run (Vinode × Option ℕ))
    → e.iov_base ≡ some buf
    → Rewrites offset e.iov_len buf v m
    → RestWrites env e buf iov offset ret v
    → LoopWrites offset
        (lengths (e ∷ iov))
        (ret + lengths (e ∷ iov))
        (gathered (e ∷ iov))
        v
        (m >>= λ r. write_loop env (offset + e.iov_len) (ret + e.iov_len) r.1 iov r.0)
unfolding lengths
LoopWrites-cons env e buf iov offset ret v (ok _) b (rewrites bs last r) rest =
    join _ (rest bs last r)
  where
    join :
        (m : Run (ℕ × Vinode × Option ℕ))
        → LoopWrites
            (offset + e.iov_len)
            (lengths iov)
            (ret + e.iov_len + lengths iov)
            (gathered iov)
            (record v { blocks = bs })
            m
        → LoopWrites offset (lengths (e ∷ iov)) (ret + lengths (e ∷ iov)) (gathered (e ∷ iov)) v m
    join _ (loop_writes bs2 last2 s) =
        let z : ret + e.iov_len + lengths iov ≡ ret + (e.iov_len + lengths iov) = omega arith in
        rw z
          (loop_writes bs2 last2 (Rewritten-join e buf iov offset v.blocks bs bs2 last last2 b r s))
LoopWrites-cons env e buf iov offset ret v (fault _) b w rest = elim w [ ]

len_to_write_lem :
    (offset ret n : ℕ) → offset + n ≤ 2 ^ 62 → ret + n ≤ 2 ^ 62 → len_to_write offset ret n ≡ n
unfolding len_to_write
len_to_write_lem offset ret n u w = ground arith

-- A turn, by the length that it takes.
abbrev turn :
    Environment
    → (offset ret : ℕ) → (last : Option ℕ) → (e : Iov) → (ℕ → ℕ)
    → List Iov
    → Vinode
    → (len : ℕ) → Run (ℕ × Vinode × Option ℕ)
turn env offset ret last e buf iov v len =
    (if ltb 0 len then vinode_write env offset len last buf v else ok (v, last)) >>= λ r.
    elim (len == e.iov_len) [
      | true ↦ write_loop env (offset + len) (ret + len) r.1 iov r.0
      | false ↦ ok (ret + len, r.0, r.1)
    ]

loop_body :
    (env : Environment) (offset ret : ℕ) (last : Option ℕ) (e : Iov) (buf : ℕ → ℕ) (iov : List Iov)
    (v : Vinode)
    → e.iov_base ≡ some buf
    → write_loop env offset ret last (e ∷ iov) v
      ≡ turn env offset ret last e buf iov v (len_to_write offset ret e.iov_len)
unfolding write_loop
loop_body env offset ret last e buf iov v b = rw (write_loop, b) refl

-- A buffer whose length is not cut.
loop_turn :
    (env : Environment) (offset ret : ℕ) (last : Option ℕ) (e : Iov) (buf : ℕ → ℕ) (iov : List Iov)
    (v : Vinode)
    → e.iov_base ≡ some buf
    → offset + e.iov_len ≤ 2 ^ 62
    → ret + e.iov_len ≤ 2 ^ 62
    → write_loop env offset ret last (e ∷ iov) v ≡ (
        (if ltb 0 e.iov_len then vinode_write env offset e.iov_len last buf v else ok (v, last))
        >>= λ r. write_loop env (offset + e.iov_len) (ret + e.iov_len) r.1 iov r.0)
loop_turn env offset ret last e buf iov v b u w =
    loop_body env offset ret last e buf iov v b
    ∙ ap (turn env offset ret last e buf iov v) (len_to_write_lem offset ret e.iov_len u w)
    ∙ uncut
  where
    uncut : turn env offset ret last e buf iov v e.iov_len ≡ (
        (if ltb 0 e.iov_len then vinode_write env offset e.iov_len last buf v else ok (v, last))
        >>= λ r. write_loop env (offset + e.iov_len) (ret + e.iov_len) r.1 iov r.0)
    uncut = let whole : (e.iov_len == e.iov_len) ≡ true = ground arith in rw whole refl

write_turn :
    (env : Environment) (offset count : ℕ) (last : Option ℕ) (buf : ℕ → ℕ) (v : Vinode)
    → Finds env
    → IsPaged 0 v.blocks
    → Known last v.blocks
    → ((x : ℕ) → offset ≤ x → x < offset + count → covered v.blocks x ≡ true)
    → Rewrites offset count buf v
        (if ltb 0 count then vinode_write env offset count last buf v else ok (v, last))
write_turn env offset count last buf v f p k c = elim (Bool-cases (ltb 0 count)) [
  | inl d ↦ rw d (vinode_write-Rewrites env offset count last buf v f p k (ground arith) c)
  | inr d ↦
      rw d (
        rewrites v.blocks last
          (nothing-Rewritten offset count buf v.blocks last (ground arith) p k))
]

pub write_loop-LoopWrites :
    (env : Environment) (offset ret : ℕ) (last : Option ℕ) (iov : List Iov) (v : Vinode)
    → Finds env
    → IsPaged 0 v.blocks
    → Known last v.blocks
    → HasBases iov
    → offset + lengths iov ≤ 2 ^ 62
    → ret + lengths iov ≤ 2 ^ 62
    → ((x : ℕ) → offset ≤ x → x < offset + lengths iov → covered v.blocks x ≡ true)
    → LoopWrites offset
        (lengths iov)
        (ret + lengths iov)
        (gathered iov)
        v
        (write_loop env offset ret last iov v)
unfolding write_loop lengths gathered
write_loop-LoopWrites env offset ret last [] v f p k _ u w c =
    let z : ret + 0 ≡ ret = omega arith in
    rw z
      (loop_writes v.blocks last (nothing-Rewritten offset 0 (gathered []) v.blocks last refl p k))
write_loop-LoopWrites env offset ret last (e ∷ iov) v f p k (based _ buf _ b h) u w c =
    let n = e.iov_len in
    let rest : RestWrites env e buf iov offset ret v = (λ bs last' r.
      write_loop-LoopWrites env (offset + n) (ret + n) last' iov (record v { blocks = bs }) f
        r.paged r.known h (omega arith) (omega arith)
        (λ x i j. r.places.covering x ∙ c x (omega arith) (omega arith))) in
    rw (loop_turn env offset ret last e buf iov v b (omega arith) (omega arith)) (
      LoopWrites-cons env e buf iov offset ret v _ b
        (write_turn env offset n last buf v f p k (λ x i j. c x i (omega arith))) rest)
