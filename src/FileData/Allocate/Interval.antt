-- ===== src/FileData/Allocate/Interval.antt =====
-- vinode_allocate_interval as a whole (data.c).
use pmemfile.Prelude.{
  ℕ, suc, ◌+◌, ◌-◌, ◌*◌, ◌/◌, ◌%◌, ◌^◌, ◌≤◌, ◌<◌, ◌≡◌, refl, sym, Bool, false, ◌||◌, ◌&&◌, not,
  Option, none, some, List, [], ◌∷◌, ltb, leb, if◌then◌else◌, arith, Bool-cases, inl, inr,
}
use pmemfile.Run.{ok, fault, assertion, null_pointer}
use pmemfile.OffsetMap.{min_block_size}
use pmemfile.FileData.{
  Attempt, stopped, null_followed, BlockDesc, end_of, max_block_size, data_block_info,
  expand_to_full_pages,
}
use pmemfile.FileData.Content.{IsPaged}
use pmemfile.FileData.Allocate.{Filled, fill_first, fill_from, is_append, vinode_allocate_interval}
use pmemfile.FileData.Allocate.Sizes.{expand-contains, overallocate-ge}
use pmemfile.FileData.Allocate.Fill.{
  Fills, Filling, filled, aborted, null_root, At, new-Filling, prepend-Filling, insert-Filling,
  fill-Filling,
}

abbrev pub one_on : Option ℕ → Option ℕ
one_on none = some 0
one_on (some i) = some (suc i)

-- What the map of the vinode promises: the position of the last block that starts at the offset or before.
unfoldable pub closest_at : ℕ → List BlockDesc → Option ℕ
closest_at o [] = none
closest_at o (b ∷ bs) =
    let rest = closest_at o bs in if leb b.block.offset o then one_on rest else none

-- An interval of whole pages.
record Pages (offset size : ℕ) : Type 0 where
  page : offset % min_block_size ≡ 0
  pages : size % min_block_size ≡ 0
  some_size : 0 < size
  inside : offset + size ≤ 2 ^ 63

not_none : (r : Option ℕ) → one_on r ≡ none → ⊥
not_none none e = cc
not_none (some i) e = cc

none_ahead :
    (lo o : ℕ) (bs : List BlockDesc) → IsPaged lo bs → closest_at o bs ≡ none → IsPaged o bs
unfolding closest_at IsPaged
none_ahead lo o [] p e = tt
none_ahead lo o (b ∷ bs) (l, z, w, t, u, h) e = elim (Bool-cases (leb b.block.offset o)) [
  | inl c ↦ absurd (not_none (closest_at o bs) (rw c at e))
  | inr c ↦ (ground arith, z, w, t, u, h)
]

module _ (allocated : ℕ → Attempt) (fresh : ℕ → ℕ → ℕ) (fuel offset size : ℕ)
    (p : Pages offset size) (enough : 2 * (size / min_block_size) ≤ fuel) where
  -- From the block that the first look-up finds.
  from_found :
      (lo i : ℕ) (bs : List BlockDesc)
      → IsPaged lo bs
      → closest_at offset bs ≡ some i
      → Filling allocated lo offset size 0 bs
          (fill_from allocated fresh fuel offset size (some i) bs)
  unfolding fill_from closest_at IsPaged
  from_found lo i [] h e = absurd (cc)
  from_found lo i (b ∷ bs) h e = elim (Bool-cases (leb b.block.offset offset)) [
    | inr c ↦ let t = rw c at e in absurd (cc)
    | inl c ↦ here (closest_at offset bs) refl (rw c at e) (λ j. from_found (end_of b) j bs h.5)
  ]
    where
      here :
          (r : Option ℕ)
          → closest_at offset bs ≡ r
          → one_on r ≡ some i
          → ((j : ℕ)
              → closest_at offset bs ≡ some j
              → Filling allocated
                  (end_of b)
                  offset
                  size
                  0
                  bs
                  (fill_from allocated fresh fuel offset size (some j) bs))
          → Filling allocated lo offset size 0
              (b ∷ bs)
              (fill_from allocated fresh fuel offset size (some i) (b ∷ bs))
      here none q t f =
          let z : i ≡ 0 = cc in
          let inside = p.inside in
          rw z (
            fill-Filling allocated fresh fuel 0 lo offset size 0 b bs
              (record {
                paged = h;
                starts = ground arith;
                ahead = none_ahead (end_of b) offset bs h.5 q;
                page = p.page;
                pages = p.pages;
                some_size = p.some_size;
                inside = inside;
              })
              (omega (arith, enough)))
      here (some j) q t f =
          let z : i ≡ suc j = cc in
          rw z (prepend-Filling allocated lo offset size 0 b bs _ h (f j q))

  -- Where it finds none, and the limit is within the hole before the first block.
  from_start :
      (lo limit : ℕ) (bs : List BlockDesc)
      → lo ≤ offset
      → IsPaged offset bs
      → min_block_size ≤ limit
      → ((r : ℕ) → r ≤ limit → IsPaged (offset + r) bs)
      → Filling allocated lo offset size 0 bs (fill_first allocated fresh fuel offset size limit bs)
  unfolding fill_first IsPaged
  from_start lo limit bs l h m room =
      new-Filling allocated fresh lo offset size 0 0 limit bs _ m (λ b r n g w q u.
        let s = n.start in
        let len = n.length in
        let page = p.page in
        let inside = p.inside in
        let e : end_of b ≡ offset + r = omega arith in
        let at : At lo offset size b bs = record {
          paged = (omega arith, omega arith, rw s page, rw len w, omega arith, rw e (room r q));
          starts = omega arith;
          ahead = h;
          page = page;
          pages = p.pages;
          some_size = p.some_size;
          inside = inside;
        } in
        insert-Filling allocated lo offset size 0 r b bs _ n at.paged (
          fill-Filling allocated fresh fuel 1 lo offset size (0 + b.block.size) b bs at
            (ground arith)))

-- Where the first block starts.
abbrev pub first_offset : List BlockDesc → ℕ
first_offset [] = 0
first_offset (f ∷ bs) = f.block.offset

-- The loop ends as it does in general, or the room before the first block, cut to 32 bits, is 0.
data Started (allocated : ℕ → Attempt) (o s : ℕ) (bs : List BlockDesc) : Filled → Type 0 where
  started : (r : Filled) → Filling allocated 0 o s 0 bs r → Started allocated o s bs r
  cut :
      (d : ℕ)
      → first_offset bs ≡ o + d
      → 0 < d
      → d % 2 ^ 32 ≡ 0
      → d < s
      → Started allocated o s bs (fault assertion)

pub none_later :
    (o : ℕ) (b : BlockDesc) (bs : List BlockDesc)
    → closest_at o (b ∷ bs) ≡ none
    → o < b.block.offset
unfolding closest_at
none_later o b bs e = elim (Bool-cases (leb b.block.offset o)) [
  | inl c ↦ absurd (not_none (closest_at o bs) (rw c at e))
  | inr c ↦ ground arith
]

from_none :
    (allocated : ℕ → Attempt) (fresh : ℕ → ℕ → ℕ) (fuel o s : ℕ) (bs : List BlockDesc)
    → Pages o s
    → 2 * (s / min_block_size) ≤ fuel
    → IsPaged o bs
    → closest_at o bs ≡ none
    → Started allocated o s bs (fill_from allocated fresh fuel o s none bs)
unfolding fill_from fill_first data_block_info IsPaged
from_none allocated fresh fuel o s [] p enough h e = started _ (
    from_start allocated fresh fuel o s p enough 0 max_block_size [] (omega arith) tt (omega arith)
      (λ r q. tt))
from_none allocated fresh fuel o s (f ∷ bs) p enough (l, z, w, t, u, h) e =
    let d = f.block.offset - o in
    let count = (if ltb f.block.offset (o + s) then d % 2 ^ 32 else s) in
    let page = p.page in
    let pages = p.pages in
    let pos = p.some_size in
    elim (Bool-cases (ltb count min_block_size)) [
      | inl c ↦
          let ahead = none_later o f bs e in
          rw (c, fill_first, data_block_info)
            (cut d (omega arith) (omega arith) (ground arith) (ground arith))
      | inr c ↦ started _ (
          from_start allocated fresh fuel o s p enough 0 count (f ∷ bs) (omega arith)
            (l, z, w, t, u, h) (ground arith) (λ r q. (ground arith, z, w, t, u, h)))
    ]

-- How the call ends: the interval is allocated; or the transaction aborted where an allocation failed; or
-- NULL is followed where that of the root of the tree failed; or an assert fails where the first block starts a multiple of 4 GB behind the page of the offset.
pub data Allocation (allocated : ℕ → Attempt) (offset size : ℕ) (bs : List BlockDesc)
    : Filled → Type 0 where
  whole :
      (bs' : List BlockDesc) (space : ℕ)
      → Fills 0 offset size bs bs' space
      → Allocation allocated offset size bs (ok (some (bs', space)))
  out_of_space : (j : ℕ) → allocated j ≡ stopped → Allocation allocated offset size bs (ok none)
  null_in_tree :
      (j : ℕ)
      → allocated j ≡ null_followed
      → Allocation allocated offset size bs (fault null_pointer)
  cut_off :
      (d : ℕ)
      → first_offset bs ≡ offset - offset % min_block_size + d
      → 0 < d
      → d % 2 ^ 32 ≡ 0
      → d < size + 2 ^ 27
      → Allocation allocated offset size bs (fault assertion)

Started-Allocation :
    (allocated : ℕ → Attempt) (offset size o s : ℕ) (bs : List BlockDesc) (r : Filled)
    → o ≡ offset - offset % min_block_size
    → offset + size ≤ o + s
    → s ≤ size + 2 ^ 27
    → Started allocated o s bs r
    → Allocation allocated offset size bs r
Started-Allocation allocated offset size o s bs (ok _) e i n (started _ (filled bs' space f)) =
    let z : 0 + space ≡ space = omega arith in
    rw z (
      whole bs' space (record {
        paged = f.paged;
        filled = λ x l m. f.filled x (omega arith) (omega arith);
        keeps = f.keeps;
        same = f.same;
        counted = f.counted;
        unchanged = f.unchanged;
        starts = f.starts;
      }))
Started-Allocation allocated offset size o s bs (ok _) e i n (started _ (aborted j a)) =
    out_of_space j a
Started-Allocation allocated offset size o s bs (fault _) e i n (started _ (null_root j a)) =
    null_in_tree j a
Started-Allocation allocated offset size o s bs (fault _) e i n (cut d f z m l) =
    cut_off d (omega (arith, f, e)) z m (omega arith)

module _ (allocated : ℕ → Attempt) (fresh : ℕ → ℕ → ℕ) (offset size : ℕ) (bs : List BlockDesc)
    (h : IsPaged 0 bs) (pos : 0 < size) (b : offset + size ≤ 2 ^ 62) where
  from_closest :
      (fuel o s : ℕ) (r : Option ℕ)
      → Pages o s
      → 2 * (s / min_block_size) ≤ fuel
      → closest_at o bs ≡ r
      → Started allocated o s bs (fill_from allocated fresh fuel o s r bs)
  from_closest fuel o s none p enough e =
      from_none allocated fresh fuel o s bs p enough (none_ahead 0 o bs h e) e
  from_closest fuel o s (some i) p enough e =
      started _ (from_found allocated fresh fuel o s p enough 0 i bs h e)

  from_size :
      (find : ℕ → Option ℕ) (n : ℕ)
      → ((o : ℕ) → find o ≡ closest_at o bs)
      → size ≤ n
      → n ≤ size + 2 ^ 26
      → let (o, s) = expand_to_full_pages offset n in
        Allocation allocated offset size bs
          (fill_from allocated fresh (2 * (s / min_block_size)) o s (find o) bs)
  unfolding expand_to_full_pages
  from_size find n finds l m =
      let (o, s) = expand_to_full_pages offset n in
      let (page, pages, some_size, start, stop, short) =
        expand-contains offset n (omega arith) (omega arith) in
      Started-Allocation allocated offset size o s bs _ refl (omega arith) (omega arith) (
        from_closest (2 * (s / min_block_size)) o s (find o)
          (record { page = page; pages = pages; some_size = some_size; inside = omega arith })
          (omega arith) (sym (finds o)))

-- On the blocks of a file in whole pages and in order, with a look-up that finds what it promises,
-- vinode_allocate_interval of an interval that is not empty and ends within 2 ^ 62 bytes ends. The
-- blocks then cover the interval and all that they did before, are in order, hold the same bytes
-- as before, and take as much more space as the call returns. Or an allocation failed and the
-- transaction is aborted; or that of the root of the tree failed and NULL is followed; or an assert fails, and then the file's first block starts a multiple of 4 GB
-- behind the page of the offset.
pub vinode_allocate_interval-Allocation :
    (allocated : ℕ → Attempt) (fresh : ℕ → ℕ → ℕ) (find_closest_block : ℕ → Option ℕ)
    (overallocate_on_append : Bool) (inode_size offset size : ℕ) (bs : List BlockDesc)
    → IsPaged 0 bs
    → ((o : ℕ) → find_closest_block o ≡ closest_at o bs)
    → 0 < size
    → offset + size ≤ 2 ^ 62
    → Allocation allocated offset size bs (
        vinode_allocate_interval allocated fresh find_closest_block overallocate_on_append
          inode_size offset size bs)
unfolding vinode_allocate_interval
vinode_allocate_interval-Allocation allocated fresh find over inode_size offset size bs h finds pos
      b =
    let fine : (not (ltb 0 size) || not (ltb offset ((offset + size) % 2 ^ 64))) ≡ false =
      ground arith in
    let g = overallocate-ge size in
    rw fine (elim (Bool-cases (over && is_append find inode_size offset size bs)) [
      | inl e ↦ rw e (from_size allocated fresh offset size bs h pos b find _ finds g.0 g.1)
      | inr e ↦ rw e (
          from_size allocated fresh offset size bs h pos b find size finds (omega arith)
            (omega arith))
    ])
