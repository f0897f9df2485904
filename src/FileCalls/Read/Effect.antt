-- ===== src/FileCalls/Read/Effect.antt =====
-- What a read returns (read.c, pmemfile_preadv_internal).
use pmemfile.Prelude.{
  ℕ, ◌+◌, ◌-◌, ◌%◌, ◌^◌, ◌≤◌, ◌<◌, ◌≡◌, ◌∙◌, refl, sym, ap, true, false, Option, some, List, [],
  ◌∷◌, ltb, ◌==◌, arith, Bool-cases, inl, inr,
}
use mathlib.Core.Path.{subst}
use pmemfile.Run.{Run, ok, fault, ◌>>=◌}
use pmemfile.Lseek.{int64_max}
use pmemfile.FileData.{BlockDesc}
use pmemfile.FileData.Content.{IsPaged}
use pmemfile.FileData.Copy.Reading.{Joined, Copied}
use pmemfile.FileCalls.{Vinode, Iov, Environment}
use pmemfile.FileCalls.Contents.{Finds, bytes_of, gathered, lengths}
use pmemfile.FileCalls.Hints.{Known}
use pmemfile.FileCalls.Write.Loop.{HasBases, based}
use pmemfile.FileCalls.Read.{readable, vinode_read, len_to_read, pmemfile_preadv_internal}
use pmemfile.FileCalls.Read.Pieces.{Part, part, vinode_read-Part}

-- The buffers after a read of `n` bytes: the bytes of the file, and behind them what was there.
pub record IsFilled (f : ℕ → ℕ) (offset n : ℕ) (iov iov' : List Iov) : Type 0 where
  pub bytes : (j : ℕ) → j < n → gathered iov' j ≡ f (offset + j)
  pub rest : (j : ℕ) → n ≤ j → gathered iov' j ≡ gathered iov j
  pub same_lengths : lengths iov' ≡ lengths iov

pub data ReadOutcome (v : Vinode) (offset ret : ℕ) (iov : List Iov)
    : Run (ℕ × List Iov × Option ℕ) → Type 0 where
  has_read :
      (n : ℕ) (iov' : List Iov) (last : Option ℕ)
      → n ≡ readable v.size offset (lengths iov)
      → IsFilled (bytes_of v) offset n iov iov'
      → Known last v.blocks
      → ReadOutcome v offset ret iov (ok (ret + n, iov', last))

Joined-inside :
    (start stop start' stop' : ℕ) (bs : List BlockDesc)
    → start ≤ start'
    → stop' ≤ stop
    → Joined start stop bs
    → Joined start' stop' bs
unfolding Joined
Joined-inside start stop start' stop' [] l m j = tt
Joined-inside start stop start' stop' (b ∷ []) l m j = tt
Joined-inside start stop start' stop' (b ∷ n ∷ rest) l m (h, j) =
    (λ x y. h (omega arith) (omega arith), Joined-inside start stop start' stop' (n ∷ rest) l m j)

-- A turn, by the length that it asks for.
abbrev turn :
    Environment
    → Vinode
    → (offset ret : ℕ) → (last : Option ℕ) → (e : Iov) → (ℕ → ℕ)
    → List Iov
    → (len : ℕ) → Run (ℕ × List Iov × Option ℕ)
turn env v offset ret last e buf iov len = vinode_read env v offset last buf len >>= λ r.
    let read = record e { iov_base = some r.1 } in
    elim (r.0 == len) [
      | true ↦ pmemfile_preadv_internal env v (offset + r.0) (ret + r.0) r.2 iov >>= λ q.
          ok (q.0, read ∷ q.1, q.2)
      | false ↦ ok (ret + r.0, read ∷ iov, r.2)
    ]

loop_turn :
    (env : Environment) (v : Vinode) (offset ret : ℕ) (last : Option ℕ) (e : Iov) (buf : ℕ → ℕ)
    (iov : List Iov)
    → e.iov_base ≡ some buf
    → ret + e.iov_len ≤ 2 ^ 62
    → pmemfile_preadv_internal env v offset ret last (e ∷ iov)
      ≡ turn env v offset ret last e buf iov e.iov_len
unfolding pmemfile_preadv_internal len_to_read
loop_turn env v offset ret last e buf iov b u =
    let uncut : len_to_read ret e.iov_len ≡ e.iov_len = ground arith in
    let inside : ltb int64_max ((ret + len_to_read ret e.iov_len) % 2 ^ 64) ≡ false =
      ground arith in
    by_base inside ∙ ap (turn env v offset ret last e buf iov) uncut
  where
    by_base :
        ltb int64_max ((ret + len_to_read ret e.iov_len) % 2 ^ 64) ≡ false
        → pmemfile_preadv_internal env v offset ret last (e ∷ iov)
          ≡ turn env v offset ret last e buf iov (len_to_read ret e.iov_len)
    by_base i = rw (pmemfile_preadv_internal, b, i) refl

-- The buffers after a turn that fills the first of them, and the turns after it.
IsFilled-cons :
    (f : ℕ → ℕ) (offset n : ℕ) (e : Iov) (buf buf' : ℕ → ℕ) (iov iov' : List Iov)
    → e.iov_base ≡ some buf
    → ((j : ℕ) → j < e.iov_len → buf' (0 + j) ≡ f (offset + j))
    → IsFilled f (offset + e.iov_len) n iov iov'
    → IsFilled f offset (e.iov_len + n) (e ∷ iov) (record e { iov_base = some buf' } ∷ iov')
unfolding gathered lengths
IsFilled-cons f offset n e buf buf' iov iov' b c g = record {
  bytes = λ j l. elim (Bool-cases (ltb j e.iov_len)) [
    | inl d ↦
        let z : 0 + j ≡ j = omega arith in
        rw d (subst (λ i. buf' i ≡ f (offset + j)) z (c j (ground arith)))
    | inr d ↦
        let i : offset + e.iov_len + (j - e.iov_len) ≡ offset + j = ground arith in
        rw d (
          subst (λ i. gathered iov' (j - e.iov_len) ≡ f i) i
            (g.bytes (j - e.iov_len) (ground arith)))
  ];
  rest = λ j l.
      let d : ltb j e.iov_len ≡ false = ground arith in rw d (g.rest (j - e.iov_len) (omega arith));
  same_lengths = ap (λ l. e.iov_len + l) g.same_lengths;
}

-- The buffers after a turn that has come to the end of the file.
IsFilled-last :
    (f : ℕ → ℕ) (offset n : ℕ) (e : Iov) (buf buf' : ℕ → ℕ) (iov : List Iov)
    → e.iov_base ≡ some buf
    → n ≤ e.iov_len
    → ((j : ℕ) → j < n → buf' (0 + j) ≡ f (offset + j))
    → ((j : ℕ) → 0 + n ≤ j → buf' j ≡ buf j)
    → IsFilled f offset n (e ∷ iov) (record e { iov_base = some buf' } ∷ iov)
unfolding gathered lengths
IsFilled-last f offset n e buf buf' iov b u c g = record {
  bytes = λ j l.
      let d : ltb j e.iov_len ≡ true = ground arith in
      let z : 0 + j ≡ j = omega arith in rw d (subst (λ i. buf' i ≡ f (offset + j)) z (c j l));
  rest = λ j l. elim (Bool-cases (ltb j e.iov_len)) [
    | inl d ↦ rw (d, b) (g j (omega arith))
    | inr d ↦ rw d refl
  ];
  same_lengths = refl;
}

module _ (env : Environment) (v : Vinode) (f : Finds env) (p : IsPaged 0 v.blocks)
    (s : v.size ≤ 2 ^ 62) where
  abbrev Rest : (offset ret : ℕ) → List Iov → ℕ → Type 0
  Rest offset ret iov n =
      (last : Option ℕ)
      → Known last v.blocks
      → ReadOutcome v (offset + n) (ret + n) iov
          (pmemfile_preadv_internal env v (offset + n) (ret + n) last iov)

  after_turn :
      (offset ret n : ℕ) (e : Iov) (buf buf' : ℕ → ℕ) (iov : List Iov)
      (m : Run (ℕ × List Iov × Option ℕ))
      → e.iov_base ≡ some buf
      → n ≡ e.iov_len
      → n ≡ readable v.size offset e.iov_len
      → ((j : ℕ) → j < n → buf' (0 + j) ≡ bytes_of v (offset + j))
      → ReadOutcome v (offset + n) (ret + n) iov m
      → ReadOutcome v offset ret
          (e ∷ iov)
          (m >>= λ q. ok (q.0, record e { iov_base = some buf' } ∷ q.1, q.2))
  unfolding lengths
  after_turn offset ret n e buf buf' iov (ok _) b q r c (has_read n2 iov' last z g k) =
      let t : ret + n + n2 ≡ ret + (n + n2) = omega arith in
      let all : n + n2 ≡ readable v.size offset (e.iov_len + lengths iov) = ground arith in
      rw t (
        has_read (n + n2) _ last all
          (subst
            (λ i.
              IsFilled (bytes_of v) offset (i + n2) (e ∷ iov)
                (record e { iov_base = some buf' } ∷ iov'))
            (sym q)
            (IsFilled-cons (bytes_of v) offset n2 e buf buf' iov iov' b (λ j l. c j (omega arith))
              (subst (λ i. IsFilled (bytes_of v) (offset + i) n2 iov iov') q g)))
          k)
  after_turn offset ret n e buf buf' iov (fault _) b q r c h = elim h [ ]

  turn_end :
      (offset ret n : ℕ) (e : Iov) (buf buf' : ℕ → ℕ) (iov : List Iov) (last : Option ℕ)
      → e.iov_base ≡ some buf
      → n ≡ readable v.size offset e.iov_len
      → Copied (bytes_of v) offset n buf 0 buf'
      → Known last v.blocks
      → (readable v.size offset e.iov_len ≡ e.iov_len → Rest offset ret iov e.iov_len)
      → let read : Iov = record e { iov_base = some buf' } in
        ReadOutcome v offset ret (e ∷ iov) (elim (n == e.iov_len) [
          | true ↦ pmemfile_preadv_internal env v (offset + n) (ret + n) last iov >>= λ q.
              ok (q.0, read ∷ q.1, q.2)
          | false ↦ ok (ret + n, read ∷ iov, last)
        ])
  unfolding lengths
  turn_end offset ret n e buf buf' iov last b z c k rest = elim (Bool-cases (n == e.iov_len)) [
    | inl d ↦
        let q : n ≡ e.iov_len = ground arith in
        rw d (
          after_turn offset ret n e buf buf' iov _ b q z c.copied (
            subst
              (λ i.
                ReadOutcome v (offset + i) (ret + i) iov
                  (pmemfile_preadv_internal env v (offset + i) (ret + i) last iov))
              (sym q) (rest (sym z ∙ q) last k)))
    | inr d ↦ rw d (
        has_read n _ last (ground arith)
          (IsFilled-last (bytes_of v) offset n e buf buf' iov b (ground arith) c.copied c.behind) k)
  ]

  from_part :
      (offset ret : ℕ) (e : Iov) (buf : ℕ → ℕ) (iov : List Iov) (m : Run (ℕ × (ℕ → ℕ) × Option ℕ))
      → e.iov_base ≡ some buf
      → Part v offset e.iov_len buf m
      → (readable v.size offset e.iov_len ≡ e.iov_len → Rest offset ret iov e.iov_len)
      → ReadOutcome v offset ret (e ∷ iov) (
          m >>= λ r.
          let read = record e { iov_base = some r.1 } in
          elim (r.0 == e.iov_len) [
            | true ↦ pmemfile_preadv_internal env v (offset + r.0) (ret + r.0) r.2 iov >>= λ q.
                ok (q.0, read ∷ q.1, q.2)
            | false ↦ ok (ret + r.0, read ∷ iov, r.2)
          ])
  from_part offset ret e buf iov (ok _) b (part n buf' last z c k) rest =
      turn_end offset ret n e buf buf' iov last b z c k rest
  from_part offset ret e buf iov (fault _) b h rest = elim h [ ]

  -- On a file of at most 2 ^ 62 bytes whose blocks are in order, with a look-up that finds what it promises, a
  -- pointer to one of its blocks or NULL, and buffers that are not NULL, of at most 2 ^ 62 bytes with the
  -- count it starts from, where behind a block that ends in the range there is no hole before another block
  -- in the range, pmemfile_preadv_internal ends. It returns how many bytes of the file there are from the
  -- offset on, at most the lengths of the buffers, added to the count it starts from, and the buffers, which
  -- hold these bytes one behind the other and behind them what they held before; and its pointer is again
  -- to a block of the file or NULL.
  pub preadv-ReadOutcome :
      (offset ret : ℕ) (last : Option ℕ) (iov : List Iov)
      → Known last v.blocks
      → HasBases iov
      → ret + lengths iov ≤ 2 ^ 62
      → Joined offset (offset + readable v.size offset (lengths iov)) v.blocks
      → ReadOutcome v offset ret iov (pmemfile_preadv_internal env v offset ret last iov)
  unfolding pmemfile_preadv_internal lengths gathered
  preadv-ReadOutcome offset ret last [] k h u j =
      let z : ret + 0 ≡ ret = omega arith in
      subst (λ r. ReadOutcome v offset ret [] (ok (r, [], last))) z
        (has_read 0 [] last (ground arith)
          (record { bytes = λ i l. absurd (omega arith); rest = λ i l. refl; same_lengths = refl })
          k)
  preadv-ReadOutcome offset ret last (e ∷ iov) k (based _ buf _ b h) u j =
      rw (loop_turn env v offset ret last e buf iov b (omega arith)) (
        from_part offset ret e buf iov _ b
          (vinode_read-Part env v offset e.iov_len buf last f p k s
            (Joined-inside offset _ offset _ v.blocks (omega arith) (ground arith) j))
          (λ q l i.
            preadv-ReadOutcome (offset + e.iov_len) (ret + e.iov_len) l iov i h (omega arith) (
              Joined-inside offset _ (offset + e.iov_len) _ v.blocks (omega arith) (ground arith)
                j)))
