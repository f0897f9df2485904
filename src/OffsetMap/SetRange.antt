-- ===== src/OffsetMap/SetRange.antt =====
-- set_range over all levels of the tree (offset_mapping.c): it changes the blocks of its range and no others.
use native.Mathlib.Nat.{mod-add-div', mod-mod_of_dvd, dvd_of_mod-eq-zero}
use pmemfile.Prelude.{
  ℕ, zero, suc, ◌+◌, ◌-◌, ◌*◌, ◌/◌, ◌%◌, ◌≤◌, ◌<◌, ◌≡◌, ◌∙◌, refl, sym, ap, Bool, Option, none,
  some, arith, Bool-cases, inl, inr,
}
use pmemfile.Run.{Run, ok, fault, unaligned, ◌>>=◌}
use pmemfile.OffsetMap.{
  Entry, node, Entries, nil, cons, width, n_children, min_block_size, all_null,
  check_and_free_range, Updated, after, walk_from, set_range,
}
use pmemfile.OffsetMap.Reads.{
  read, read_in, size, Fits, FitsAll, span, span-size, Apart, width-min, read_in-all_null,
}
use pmemfile.OffsetMap.Walk.{Sets, Ended, succeeded, failed, Range, Children, SetsPart, walk-Ended}

module _ (allocated : ℕ → Bool) (block : Option ℕ) (h : ℕ) where
  -- The entries before the one where the range starts.
  Ended-skip :
      (p r : ℕ) (e : Entry) (es : Entries) (m : Run Updated)
      → Fits h e
      → Ended allocated (Sets block h p r es) m
      → Ended allocated (Sets block h (width h + p) r (cons e es)) (m >>= λ u. ok (after e u))
  unfolding FitsAll size all_null read_in
  Ended-skip p r e es (ok _) f (succeeded u q t) = succeeded (after e u) q (record {
    fits = (f, t.fits);
    same_size = ap suc t.same_size;
    reads = λ x. ground (arith, t.reads (x - width h));
    used = λ b z. ground (arith, t.used b z);
  })
  Ended-skip p r e es (ok _) f (failed u j q z) = failed (after e u) j q z
  Ended-skip p r e es (fault _) f x = elim x [ ]

  Apart-skip :
      (p r : ℕ) (e : Entry) (es : Entries)
      → Apart (read_in h (cons e es)) (width h + p) r (span h (cons e es))
      → Apart (read_in h es) p r (span h es)
  unfolding read_in span
  Apart-skip p r e es a = record {
    at = λ x y c l m n v q z.
        a.at (width h + x) (width h + y) c (omega arith) (omega arith) (ground arith) (omega arith)
          (ground (arith, q)) (ground (arith, z));
  }

  module _ (lower : ℕ → ℕ → Entries → ℕ → Run Updated)
      (descends : (d s : ℕ) (cs : Entries) (k : ℕ)
        → 0 < s
        → Range d s (width h)
        → s < width h
        → Children h cs
        → Apart (read h (node cs)) d s (width h)
        → Ended allocated (SetsPart block h d s cs) (lower d s cs k)) where
    walk_from-Ended :
        (n o p r k : ℕ) (es : Entries)
        → p ≡ n * width h + o % width h
        → 0 < r
        → FitsAll h es
        → p + r ≤ span h es
        → o % width h % min_block_size ≡ 0
        → r % min_block_size ≡ 0
        → Apart (read_in h es) p r (span h es)
        → Ended allocated
            (Sets block h p r es)
            (walk_from allocated block lower (width h) n o r es k)
    unfolding walk_from FitsAll
    walk_from-Ended zero o p r k es e pos f i s l a =
        let q : o % width h ≡ p = omega arith in
        rw q at (
          walk-Ended allocated block h lower descends r o k es f
            (λ _. record { start = s; length = l; inside = omega arith }) (rw q a))
    walk_from-Ended (suc n) o p r k nil e pos f i s l a = absurd (unfold span in omega arith)
    walk_from-Ended (suc n) o p r k (cons e es) q pos (f, fs) i s l a =
        let p' = n * width h + o % width h in
        let shift : p ≡ width h + p' = grind arith in
        rw shift (
          Ended-skip p' r e es _ f (
            walk_from-Ended n o p' r k es refl pos fs (unfold span in omega arith) s l
              (Apart-skip p' r e es (rw shift at a))))

close-SetsPart :
    (block : Option ℕ) (h d s : ℕ) (cs ds : Entries)
    → 0 < s
    → size cs ≡ n_children
    → Sets block h d s cs ds
    → SetsPart block (suc h) d s cs ds
unfolding Fits read check_and_free_range
close-SetsPart (some b) h d s cs ds pos e t = record {
  fits = (t.same_size ∙ e, t.used (λ z. cc) pos, t.fits);
  reads = λ x l. t.reads x;
}
close-SetsPart none h d s cs ds pos e t = elim (Bool-cases (all_null ds)) [
  | inl z ↦ record {
    fits = rw z tt;
    reads = λ x l. rw z (sym (read_in-all_null h ds x z) ∙ t.reads x);
  }
  | inr z ↦ record { fits = rw z (t.same_size ∙ e, z, t.fits); reads = λ x l. rw z (t.reads x) }
]

mod-div : (o h : ℕ) → o / width h * width h + o % width h ≡ o
mod-div o h = omega (arith, mod-add-div' o (width h))

aligned_in : (h o : ℕ) → o % min_block_size ≡ 0 → o % width h % min_block_size ≡ 0
aligned_in h o e =
    mod-mod_of_dvd min_block_size o (dvd_of_mod-eq-zero min_block_size (width-min h)) ∙ e

Ended-map :
    {allocated : ℕ → Bool} {P Q : Entries → Type 0} {m : Run Updated}
    → ((es : Entries) → P es → Q es)
    → Ended allocated P m
    → Ended allocated Q m
Ended-map f (succeeded u e p) = succeeded u e (f u.entries p)
Ended-map f (failed u j e h) = failed u j e h

pub span-children : (h : ℕ) (cs : Entries) → size cs ≡ n_children → span h cs ≡ width (suc h)
unfolding width
span-children h cs e = span-size h cs ∙ ap (λ n. n * width h) e

-- set_range ends without a fault on a range of whole pages in the array where no block stands on both
-- sides of an end of the range. It maps the range to the block and leaves the rest as it was, and
-- the array in shape; or an allocation failed, and it says so.
pub set_range-Ended :
    (allocated : ℕ → Bool) (block : Option ℕ) (h o r k : ℕ) (es : Entries)
    → 0 < r
    → FitsAll h es
    → Range o r (span h es)
    → Apart (read_in h es) o r (span h es)
    → Ended allocated (Sets block h o r es) (set_range allocated block h o r es k)
unfolding set_range read Children width
set_range-Ended allocated block zero o r k es pos f g a =
    walk_from-Ended allocated block zero (λ _ _ _ _. fault unaligned)
      (λ d s cs k q t l c b. absurd (omega (arith, t.start, t.length))) (o / width 0) o o r k es
      (sym (mod-div o 0)) pos f g.inside (aligned_in 0 o g.start) g.length a
set_range-Ended allocated block (suc h) o r k es pos f g a =
    walk_from-Ended allocated block (suc h) (set_range allocated block h)
      (λ d s cs k' q t l c b.
        let whole = span-children h cs c.0 in
        Ended-map (λ ds. close-SetsPart block h d s cs ds q c.0)
          (set_range-Ended allocated block h d s k' cs q c.1
            (record { start = t.start; length = t.length; inside = omega (arith, whole, t.inside) })
            (rw whole b)))
      (o / width (suc h)) o o r k es (sym (mod-div o (suc h))) pos f g.inside
      (aligned_in (suc h) o g.start) g.length a
