-- ===== src/FileData/Allocate/Fill.antt =====
-- The loop of vinode_allocate_interval (data.c).
use pmemfile.Prelude.{
  ℕ, zero, suc, ◌+◌, ◌-◌, ◌*◌, ◌/◌, ◌%◌, ◌^◌, ◌≤◌, ◌<◌, ◌≡◌, ◌⊎◌, refl, ap, true, false, ◌||◌, ◌==◌,
  not, none, some, List, [], ◌∷◌, ltb, leb, if◌then◌else◌, arith, Bool-cases, inl, inr,
}
use pmemfile.Run.{ok, fault, null_pointer, ◌>>=◌}
use pmemfile.OffsetMap.{min_block_size}
use pmemfile.FileData.{
  Attempt, made, stopped, null_followed, BlockDesc, covers, end_of, max_block_size, data_block_info,
}
use pmemfile.FileData.Content.{
  IsPaged, covered, content, total, starts_at, IsPaged-lower, content_below,
}
use pmemfile.FileData.Allocate.{Filled, prepend, new_block, fill}
use pmemfile.FileData.Allocate.Sizes.{data_block_info-Best}

-- The blocks after an interval has been filled: the file holds the same bytes.
pub record Fills (lo offset size : ℕ) (bs bs' : List BlockDesc) (space : ℕ) : Type 0 where
  pub paged : IsPaged lo bs'
  pub filled : (x : ℕ) → offset ≤ x → x < offset + size → covered bs' x ≡ true
  pub keeps : (x : ℕ) → covered bs x ≡ true → covered bs' x ≡ true
  pub same : (x : ℕ) → content bs' x ≡ content bs x
  pub counted : total bs' ≡ total bs + space
  pub unchanged : space ≡ 0 → bs' ≡ bs
  pub starts : (k : ℕ) → starts_at k bs ≡ true → starts_at k bs' ≡ true

-- How the loop ends: with such blocks, or in an aborted transaction, or with NULL followed.
pub data Filling (allocated : ℕ → Attempt) (lo offset size before : ℕ) (bs : List BlockDesc)
    : Filled → Type 0 where
  filled :
      (bs' : List BlockDesc) (space : ℕ)
      → Fills lo offset size bs bs' space
      → Filling allocated lo offset size before bs (ok (some (bs', before + space)))
  aborted : (j : ℕ) → allocated j ≡ stopped → Filling allocated lo offset size before bs (ok none)
  null_root :
      (j : ℕ)
      → allocated j ≡ null_followed
      → Filling allocated lo offset size before bs (fault null_pointer)

pub Attempt-cases : (a : Attempt) → (a ≡ made) ⊎ (a ≡ stopped) ⊎ (a ≡ null_followed)
Attempt-cases made = inl refl
Attempt-cases stopped = inr (inl refl)
Attempt-cases null_followed = inr (inr refl)

-- A block that has just been put into its place.
pub record IsNew (offset r : ℕ) (b : BlockDesc) : Type 0 where
  pub start : b.block.offset ≡ offset
  pub length : b.block.size ≡ r
  pub blank : b.initialized ≡ false

module _ (allocated : ℕ → Attempt) (fresh : ℕ → ℕ → ℕ) where
  -- A new block and what the loop does with it.
  pub new-Filling :
      (lo offset size before k limit : ℕ) (bs : List BlockDesc) (next : BlockDesc → Filled)
      → min_block_size ≤ limit
      → ((b : BlockDesc) (r : ℕ)
          → IsNew offset r b
          → min_block_size ≤ r
          → r % min_block_size ≡ 0
          → r ≤ limit
          → r ≤ 2 ^ 21
          → Filling allocated lo offset size before bs (next b))
      → Filling allocated lo offset size before bs (
          data_block_info size limit >>= λ info. new_block allocated fresh k offset info >>= λ n.
          elim n [ none ↦ ok none | some b ↦ next b ])
  unfolding new_block
  new-Filling lo offset size before k limit bs next l f =
      let (r, best, e) = data_block_info-Best size limit l in
      let c = best.is_class in
      let w = best.within in
      let fine : (ltb r min_block_size || not (r % min_block_size == 0)) ≡ false = ground arith in
      let cut : r % 2 ^ 32 ≡ r = ground arith in
      elim (Attempt-cases (allocated k)) [
        | inl a ↦
            rw (e, fine, a)
              (f _ r (record { start = refl; length = cut; blank = refl }) (ground arith)
                (ground arith) w (ground arith))
        | inr (inl a) ↦ rw (e, fine, a) (aborted k a)
        | inr (inr a) ↦ rw (e, fine, a) (null_root k a)
      ]

pub prepend-Filling :
    (allocated : ℕ → Attempt) (lo offset size before : ℕ) (b : BlockDesc) (bs : List BlockDesc)
    (r : Filled)
    → IsPaged lo (b ∷ bs)
    → Filling allocated (end_of b) offset size before bs r
    → Filling allocated lo offset size before (b ∷ bs) (r >>= λ o. ok (prepend b o))
unfolding prepend covered content total IsPaged starts_at
prepend-Filling allocated lo offset size before b bs (ok _) (s, z, o, w, t, h)
      (filled bs' space f) =
    filled (b ∷ bs') space (record {
      paged = (s, z, o, w, t, f.paged);
      filled = λ x l m. ground (arith, f.filled x l m);
      keeps = λ x e. ground (arith, f.keeps x);
      same = λ x. ground (arith, f.same x);
      counted = omega (arith, f.counted);
      unchanged = λ z. ap (λ l. b ∷ l) (f.unchanged z);
      starts = λ k e. ground (arith, f.starts k);
    })
prepend-Filling allocated lo offset size before b bs (ok _) p (aborted j a) = aborted j a
prepend-Filling allocated lo offset size before b bs (fault _) p (null_root j a) = null_root j a

-- Putting a blank block into a hole changes no byte.
pub insert-Filling :
    (allocated : ℕ → Attempt) (lo offset size before r : ℕ) (b : BlockDesc) (bs : List BlockDesc)
    (m : Filled)
    → IsNew offset r b
    → IsPaged lo (b ∷ bs)
    → Filling allocated lo offset size (before + b.block.size) (b ∷ bs) m
    → Filling allocated lo offset size before bs m
unfolding covered content total IsPaged starts_at
insert-Filling allocated lo offset size before r b bs (ok _) n (_, z, _, _, _, h)
      (filled bs' space f) =
    let e : before + b.block.size + space ≡ before + (b.block.size + space) = omega arith in
    let bl = n.blank in
    rw e (
      filled bs' (b.block.size + space) (record {
        paged = f.paged;
        filled = f.filled;
        keeps = λ x c. f.keeps x (ground arith);
        same = λ x. ground (arith, f.same x, content_below (end_of b) x bs h);
        counted = omega (arith, f.counted);
        unchanged = λ c. absurd (omega (arith, c, z));
        starts = λ k c. f.starts k (ground arith);
      }))
insert-Filling allocated lo offset size before r b bs (ok _) n p (aborted j a) = aborted j a
insert-Filling allocated lo offset size before r b bs (fault _) n p (null_root j a) = null_root j a

-- The part of the interval that the block covers needs nothing.
skip-Filling :
    (allocated : ℕ → Attempt) (lo offset size o' s' before : ℕ) (b : BlockDesc)
    (bs : List BlockDesc) (m : Filled)
    → b.block.offset ≤ offset
    → o' ≤ end_of b
    → o' + s' ≡ offset + size
    → Filling allocated lo o' s' before (b ∷ bs) m
    → Filling allocated lo offset size before (b ∷ bs) m
unfolding covered
skip-Filling allocated lo offset size o' s' before b bs (ok _) l u e (filled bs' space f) =
    filled bs' space (record {
      paged = f.paged;
      filled = λ x m n. elim (Bool-cases (ltb x o')) [
        | inl c ↦ f.keeps x (ground arith)
        | inr c ↦ f.filled x (ground arith) (omega arith)
      ];
      keeps = f.keeps;
      same = f.same;
      counted = f.counted;
      unchanged = f.unchanged;
      starts = f.starts;
    })
skip-Filling allocated lo offset size o' s' before b bs (ok _) l u e (aborted j a) = aborted j a
skip-Filling allocated lo offset size o' s' before b bs (fault _) l u e (null_root j a) =
    null_root j a

-- Where the loop stands: at a block that starts at the offset or before, with none behind it that starts
-- earlier.
pub record At (lo offset size : ℕ) (b : BlockDesc) (next : List BlockDesc) : Type 0 where
  pub paged : IsPaged lo (b ∷ next)
  pub starts : b.block.offset ≤ offset
  pub ahead : IsPaged offset next
  pub page : offset % min_block_size ≡ 0
  pub pages : size % min_block_size ≡ 0
  pub some_size : 0 < size
  pub inside : offset + size ≤ 2 ^ 63

-- A new block where the loop stands behind the last one.
At-new :
    (lo lo' offset size r : ℕ) (b b' : BlockDesc) (next : List BlockDesc)
    → At lo offset size b next
    → IsNew offset r b'
    → lo' ≤ offset
    → 0 < r
    → r % min_block_size ≡ 0
    → r ≤ 2 ^ 21
    → IsPaged (offset + r) next
    → At lo' offset size b' next
unfolding IsPaged
At-new lo lo' offset size r b b' next p n l pos w t h =
    let s = n.start in
    let z = n.length in
    let o = p.page in
    let i = p.inside in
    let e : end_of b' ≡ offset + r = omega arith in
    record {
      paged = (omega arith, omega arith, rw s o, rw z w, omega arith, rw e h);
      starts = omega arith;
      ahead = p.ahead;
      page = o;
      pages = p.pages;
      some_size = p.some_size;
      inside = i;
    }

module _ (allocated : ℕ → Attempt) (fresh : ℕ → ℕ → ℕ) where
  -- A turn where the block covers the offset.
  covered_turn :
      (fuel k lo offset size before : ℕ) (b : BlockDesc) (next : List BlockDesc)
      → At lo offset size b next
      → covers b offset ≡ true
      → ((o s : ℕ)
          → At lo o s b next
          → covers b o ≡ false
          → s + min_block_size ≤ size
          → Filling allocated lo o s before
              (b ∷ next)
              (fill allocated fresh fuel k o s before b next))
      → let available = b.block.size - (offset - b.block.offset) in
        Filling allocated lo offset size before (b ∷ next) (elim (leb size available) [
          | true ↦ ok (some (b ∷ next, before))
          | false ↦
              fill allocated fresh fuel k (offset + available) (size - available) before b next
        ])
  unfolding IsPaged covered
  covered_turn fuel k lo offset size before b next p c turn =
      let (l, z, o, w, t, h) = p.paged in
      let i = p.inside in
      let u = p.page in
      let v = p.pages in
      let y = p.starts in
      let available = b.block.size - (offset - b.block.offset) in
      elim (Bool-cases (leb size available)) [
        | inl e ↦
            let no_more : before + 0 ≡ before = omega arith in
            let done : Filling allocated lo offset size before (b ∷ next)
                (ok (some (b ∷ next, before + 0))) =
              filled (b ∷ next) 0 (record {
                paged = p.paged;
                filled = λ x m n. ground arith;
                keeps = λ x q. q;
                same = λ x. refl;
                counted = omega arith;
                unchanged = λ q. refl;
                starts = λ k q. q;
              }) in
            rw e (rw no_more at done)
        | inr e ↦
            let at_end : offset + available ≡ end_of b = ground arith in
            rw e (
              skip-Filling allocated lo offset size (offset + available) (size - available) before b
                next _ y (omega arith) (ground arith)
                (turn (offset + available) (size - available)
                  (record {
                    paged = p.paged;
                    starts = omega arith;
                    ahead = rw at_end h;
                    page = ground arith;
                    pages = ground arith;
                    some_size = ground arith;
                    inside = ground arith;
                  })
                  (ground arith) (ground arith)))
      ]

  abbrev Turn : (fuel lo offset size : ℕ) → Type 0
  Turn fuel lo offset size =
      (k before : ℕ) (b : BlockDesc) (next : List BlockDesc)
      → At lo offset size b next
      → covers b offset ≡ true
      → Filling allocated lo offset size before (b ∷ next)
          (fill allocated fresh fuel k offset size before b next)

  -- A turn that puts a block behind the one where the loop stands, and the turns after it.
  fill_by_new :
      (fuel k lo offset size before limit : ℕ) (b : BlockDesc) (next : List BlockDesc)
      → At lo offset size b next
      → covers b offset ≡ false
      → min_block_size ≤ limit
      → ((r : ℕ) → r ≤ limit → IsPaged (offset + r) next)
      → Turn fuel (end_of b) offset size
      → Filling allocated lo offset size before (b ∷ next) (
          data_block_info size limit >>= λ info. new_block allocated fresh k offset info >>= λ n.
          elim n [
            | none ↦ ok none
            | some b' ↦
                fill allocated fresh fuel (k + 1) offset size (before + b'.block.size) b' next
                >>= λ r. ok (prepend b r)
          ])
  unfolding IsPaged
  fill_by_new fuel k lo offset size before limit b next p c l room turn =
      let (_, z, o, w, t, h) = p.paged in
      let y = p.starts in
      new-Filling allocated fresh lo offset size before k limit (b ∷ next) _ l (λ b' r n g m q u.
        let s = n.start in
        let len = n.length in
        let at =
          At-new lo (end_of b) offset size r b b' next p n (ground arith) (omega arith) m u
            (room r q) in
        prepend-Filling allocated lo offset size before b next _ (p.paged.0, z, o, w, t, h)
          (insert-Filling allocated (end_of b) offset size before r b' next _ n at.paged
            (turn (k + 1) (before + b'.block.size) b' next at (ground arith))))

  -- A turn at a block that does not cover the offset.
  fill_open :
      (fuel k lo offset size before : ℕ) (b : BlockDesc) (next : List BlockDesc)
      → At lo offset size b next
      → covers b offset ≡ false
      → Turn fuel (end_of b) offset size
      → Filling allocated lo offset size before
          (b ∷ next)
          (fill allocated fresh (suc fuel) k offset size before b next)
  unfolding fill IsPaged
  fill_open fuel k lo offset size before b [] p c turn =
      rw (c, fill)
        (fill_by_new fuel k lo offset size before max_block_size b [] p c (omega arith) (λ r q. tt)
          turn)
  fill_open fuel k lo offset size before b (n ∷ rest) p c turn =
      let (start, z, o, w, t, h) = p.ahead in
      let page = p.page in
      let i = p.inside in
      let hole = (n.block.offset + 2 ^ 64 - offset) % 2 ^ 64 in
      let e : hole ≡ n.block.offset - offset = omega arith in
      elim (Bool-cases (ltb 0 hole)) [
        | inl d ↦
            rw (c, d, fill)
              (fill_by_new fuel k lo offset size before hole b (n ∷ rest) p c (ground arith)
                (λ r q. (omega arith, z, o, w, t, h)) turn)
        | inr d ↦
            let same : n.block.offset ≡ offset = ground arith in
            rw (c, d, fill)
              (prepend-Filling allocated lo offset size before b (n ∷ rest) _ p.paged (
                turn k before n rest
                  (record {
                    paged = p.paged.5;
                    starts = omega arith;
                    ahead = IsPaged-lower (end_of n) offset rest (omega arith) h;
                    page = page;
                    pages = p.pages;
                    some_size = p.some_size;
                    inside = i;
                  })
                  (ground arith)))
      ]

  pub fill-Filling :
      (fuel k lo offset size before : ℕ) (b : BlockDesc) (next : List BlockDesc)
      → At lo offset size b next
      → 2 * (size / min_block_size) ≤ fuel + (if covers b offset then 1 else 0)
      → Filling allocated lo offset size before
          (b ∷ next)
          (fill allocated fresh fuel k offset size before b next)
  unfolding fill IsPaged covered
  fill-Filling zero k lo offset size before b next p enough =
      let v = p.pages in let y = p.some_size in absurd (ground arith)
  fill-Filling (suc fuel) k lo offset size before b next p enough =
      elim (Bool-cases (covers b offset)) [
        | inl c ↦
            rw (c, fill)
              (covered_turn fuel k lo offset size before b next p c
                (λ o s q d l. fill-Filling fuel k lo o s before b next q (ground arith)))
        | inr c ↦ fill_open fuel k lo offset size before b next p c (λ k' before' b' next' q d.
            fill-Filling fuel k' (end_of b) offset size before' b' next' q (ground arith))
      ]
