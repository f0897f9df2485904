-- ===== src/FileData/Allocated.antt =====
-- vinode_is_interval_allocated (data.c). A pointer to a block is the list from that block on.
use pmemfile.Prelude.{
  ℕ, suc, ◌+◌, ◌%◌, ◌^◌, ◌≤◌, ◌<◌, ◌≡◌, ◌∙◌, ◌⊎◌, refl, Bool, true, false, ◌&&◌, ◌||◌, not, List,
  [], ◌∷◌, ltb, leb, if◌then◌else◌, arith, Bool-cases, inl, inr,
}
use pmemfile.Run.{Run, ok, fault, assertion}
use pmemfile.FileData.{BlockDesc, covers, end_of}
use pmemfile.FileData.Content.{IsPaged, covered}
use pmemfile.FileData.Copy.Reading.Range.{closest_from, Nearby, nothing, near, closest_from-Nearby}
use pmemfile.FileData.Copy.Writing.{not_below}

abbrev pub in_block : List BlockDesc → ℕ → Bool
in_block [] offset = false
in_block (b ∷ next) offset = covers b offset

-- Where the loop has come to: the end of the last block that it has gone along.
pub run_end : ℕ → BlockDesc → List BlockDesc → ℕ
run_end stop b [] = end_of b
run_end stop b (n ∷ next) = elim (ltb (end_of b) stop && covers n (end_of b)) [
  | true ↦ run_end stop n next
  | false ↦ end_of b
]

pub reaches : ℕ → List BlockDesc → Bool
unfolding run_end
reaches stop [] = false
reaches stop (b ∷ next) = leb stop (run_end stop b next)

pub vinode_is_interval_allocated :
    (find_closest_block : ℕ → List BlockDesc) (offset size : ℕ) → List BlockDesc → Run Bool
unfolding run_end reaches
vinode_is_interval_allocated find_closest_block offset size block =
    if not (ltb 0 size) || not (ltb offset ((offset + size) % 2 ^ 64))
    then fault assertion
    else if in_block block offset
    then ok (reaches (offset + size) block)
    else let found = find_closest_block offset in
      if in_block found offset then ok (reaches (offset + size) found) else ok false

-- The list from a block of a file on.
pub data IsFrom (s : List BlockDesc) : List BlockDesc → Type 0 where
  here : IsFrom s s
  there : (b : BlockDesc) (bs : List BlockDesc) → IsFrom s bs → IsFrom s (b ∷ bs)

-- All offsets of the interval are covered, or one is not.
pub record Decides (bs : List BlockDesc) (offset stop : ℕ) (answer : Bool) : Type 0 where
  pub all : answer ≡ true → (x : ℕ) → offset ≤ x → x < stop → covered bs x ≡ true
  pub one : answer ≡ false → (x : ℕ) × (offset ≤ x) × (x < stop) × (covered bs x ≡ false)

module _ (offset stop : ℕ) (some_size : offset < stop) where
  run_end-Decides :
      (lo at : ℕ) (b : BlockDesc) (next : List BlockDesc)
      → IsPaged lo (b ∷ next)
      → covers b at ≡ true
      → at < stop
      → Decides (b ∷ next) at stop (leb stop (run_end stop b next))
  unfolding run_end IsPaged covered
  run_end-Decides lo at b [] (s, z, o, w, t, h) c l = record {
    all = λ e x m n. ground arith;
    one = λ e. (end_of b, ground arith, ground arith, ground arith);
  }
  run_end-Decides lo at b (n ∷ next) (s, z, o, w, t, h) c l =
      elim (Bool-cases (ltb (end_of b) stop && covers n (end_of b))) [
        | inl e ↦
            let r = run_end-Decides (end_of b) (end_of b) n next h (ground arith) (ground arith) in
            rw (e, run_end)
              (record {
                all = λ q x i j. elim (Bool-cases (covers b x)) [
                  | inl d ↦ rw d refl
                  | inr d ↦ rw d (r.all q x (ground arith) j)
                ];
                one = λ q. let (x, i, j, k) = r.one q in (x, ground arith, j, ground (arith, k));
              })
        | inr e ↦
            rw (e, run_end)
              (record {
                all = λ q x i j. ground arith;
                one = λ q. (
                  end_of b,
                  ground arith,
                  ground arith,
                  elim (Bool-cases (ltb (end_of b) n.block.offset)) [
                    | inl g ↦ ground (
                      arith,
                      not_below n.block.offset (end_of b) (n ∷ next)
                          (omega arith, h.1, h.2, h.3, h.4, h.5) (ground arith),
                    )
                    | inr g ↦ absurd (ground (arith, h.0, h.1))
                  ],
                );
              })
      ]

  reaches-Decides :
      (lo : ℕ) (s : List BlockDesc)
      → IsPaged lo s
      → in_block s offset ≡ true
      → Decides s offset stop (reaches stop s)
  unfolding reaches
  reaches-Decides lo [] p c = absurd (cc)
  reaches-Decides lo (b ∷ next) p c = run_end-Decides lo offset b next p c some_size

  -- A list from a block on that covers the offset covers the rest as the whole list does.
  IsFrom-Decides :
      (s : List BlockDesc) (lo : ℕ) (bs : List BlockDesc)
      → IsFrom s bs
      → IsPaged lo bs
      → in_block s offset ≡ true
      → Decides bs offset stop (reaches stop s) × (lo ≤ offset)
  unfolding IsPaged covered
  IsFrom-Decides [] lo bs here p c = absurd (cc)
  IsFrom-Decides (b ∷ next) lo bs here p c =
      (reaches-Decides lo (b ∷ next) p c, ground (arith, p.0))
  IsFrom-Decides s lo (b ∷ bs) (there _ _ f) p c =
      let (r, l) = IsFrom-Decides s (end_of b) bs f p.5 c in
      (
        record {
          all = λ q x i j. ground (arith, r.all q x i j);
          one = λ q. let (x, i, j, k) = r.one q in (x, i, j, ground (arith, k));
        },
        omega (arith, p.0, p.1),
      )

  -- What the look-up finds: a list that covers the offset, or no block covers it.
  found-Decides :
      (bs s : List BlockDesc)
      → Nearby 0 offset bs s
      → Decides bs offset stop (if in_block s offset then reaches stop s else false)
  unfolding covered
  found-Decides bs [] (nothing p) = record {
    all = λ e. absurd (cc);
    one = λ e. (offset, omega arith, some_size, not_below (suc offset) offset bs p (omega arith));
  }
  found-Decides bs (b ∷ next) (near _ _ p l n e k j w) = elim (Bool-cases (covers b offset)) [
    | inl c ↦
        let r = reaches-Decides 0 (b ∷ next) p c in
        rw c (record {
          all = λ q x y z. k x y ∙ r.all q x y z;
          one = λ q. let (x, y, z, v) = r.one q in (x, y, z, k x y ∙ v);
        })
    | inr c ↦ rw c (record {
      all = λ e. absurd (cc);
      one = λ e. (
        offset,
        omega arith,
        some_size,
        k offset (omega arith) ∙ ground (arith, not_below (suc offset) offset next n (omega arith)),
      );
    })
  ]

-- Where blocks are in order and the look-up finds the last block that starts at the offset or before, and
-- where the block given is NULL or one of the file, vinode_is_interval_allocated of an interval that
-- is not empty and ends below 2 ^ 64 returns whether blocks cover all offsets of the interval.
pub vinode_is_interval_allocated-Decides :
    (find_closest_block : ℕ → List BlockDesc) (offset size : ℕ) (bs block : List BlockDesc)
    → IsPaged 0 bs
    → ((o : ℕ) → find_closest_block o ≡ closest_from o bs)
    → (block ≡ []) ⊎ IsFrom block bs
    → 0 < size
    → offset + size < 2 ^ 64
    → (answer : Bool) × Decides bs offset (offset + size) answer
      × (vinode_is_interval_allocated find_closest_block offset size block ≡ ok answer)
unfolding vinode_is_interval_allocated
vinode_is_interval_allocated-Decides find offset size bs block p finds h pos b =
    let fine : (not (ltb 0 size) || not (ltb offset ((offset + size) % 2 ^ 64))) ≡ false =
      ground arith in
    let s = closest_from offset bs in
    elim (Bool-cases (in_block block offset)) [
      | inl c ↦ elim h [
        | inl e ↦ let t : false ≡ true = rw e at c in absurd (cc)
        | inr f ↦ (
          reaches (offset + size) block,
          (IsFrom-Decides offset (offset + size) (omega arith) block 0 bs f p c).0,
          rw (fine, c) refl,
        )
      ]
      | inr c ↦ (
        (if in_block s offset then reaches (offset + size) s else false),
        found-Decides offset (offset + size) (omega arith) bs s (closest_from-Nearby 0 offset bs p),
        rw (fine, c, finds offset) (either (in_block s offset) (reaches (offset + size) s)),
      )
    ]
  where
    either : (a r : Bool) → (if a then ok r else ok false) ≡ ok (if a then r else false)
    either true r = refl
    either false r = refl
