-- ===== src/OffsetMap/Search/Scans.antt =====
-- The walks over entries to one side (offset_mapping.c, block_find_closest): on a tree in shape they find the
-- last block of an array, or the first.
use pmemfile.Prelude.{
  ℕ, zero, suc, ◌+◌, ◌-◌, ◌<◌, ◌≡◌, refl, Bool, true, false, Option, none, some, arith,
}
use pmemfile.OffsetMap.{Entry, leaf, node, Entries, nil, cons, width, is_null, all_null}
use pmemfile.OffsetMap.Reads.{read, read_in, Fits, FitsAll, span, width-pos, read_in-all_null}
use pmemfile.OffsetMap.SetRange.{span-children}
use pmemfile.OffsetMap.Search.{
  Scan, absent, block, lost, or_else, last_of, last_in, first_of, first_in,
}

-- A function of offsets below n, as a walk from the last one or the first one sees it.
pub data Last (f : ℕ → Option ℕ) (n : ℕ) (null : Bool) : Scan → Type 0 where
  no_last : null ≡ true → Last f n null absent
  last :
      (p b : ℕ)
      → null ≡ false
      → p < n
      → f p ≡ some b
      → ((q : ℕ) → p < q → q < n → f q ≡ none)
      → Last f n null (block b)

pub data First (f : ℕ → Option ℕ) (n : ℕ) (null : Bool) : Scan → Type 0 where
  no_first : null ≡ true → First f n null absent
  first :
      (p b : ℕ)
      → null ≡ false
      → p < n
      → f p ≡ some b
      → ((q : ℕ) → q < p → f q ≡ none)
      → First f n null (block b)

Last-node :
    (h : ℕ) (cs : Entries) (s : Scan)
    → Fits (suc h) (node cs)
    → Last (read_in h cs) (span h cs) (all_null cs) s
    → Last (read (suc h) (node cs)) (width (suc h)) false (or_else s lost)
unfolding Fits read
Last-node h cs absent f (no_last e) = absurd (cc)
Last-node h cs (block b) f (last p _ z l e n) =
    let w = span-children h cs f.0 in last p b refl (omega arith) e (λ q m k. n q m (omega arith))
Last-node h cs lost f x = elim x [ ]

First-node :
    (h : ℕ) (cs : Entries) (s : Scan)
    → Fits (suc h) (node cs)
    → First (read_in h cs) (span h cs) (all_null cs) s
    → First (read (suc h) (node cs)) (width (suc h)) false (or_else s lost)
unfolding Fits read
First-node h cs absent f (no_first e) = absurd (cc)
First-node h cs (block b) f (first p _ z l e n) =
    let w = span-children h cs f.0 in first p b refl (omega arith) e n
First-node h cs lost f x = elim x [ ]

null_reads : (h : ℕ) (e : Entry) (x : ℕ) → is_null e ≡ true → read h e x ≡ none
unfolding read
null_reads h (leaf none) x z = refl
null_reads h (leaf (some b)) x z = absurd (cc)
null_reads h (node cs) x z = absurd (cc)

Last-cons :
    (h : ℕ) (e : Entry) (es : Entries) (s t : Scan)
    → Last (read h e) (width h) (is_null e) t
    → Last (read_in h es) (span h es) (all_null es) s
    → Last (read_in h (cons e es)) (span h (cons e es)) (all_null (cons e es)) (or_else s t)
unfolding read_in span all_null
Last-cons h e es (block b) t u (last p _ z l q n) =
    last (width h + p) b (ground arith) (omega arith) (ground (arith, q))
      (λ x m k. ground (arith, n (x - width h)))
Last-cons h e es absent (block b) (last p _ z l q n) (no_last w) =
    last p b (ground arith) (omega arith) (ground (arith, q))
      (λ x m k. ground (arith, n x, read_in-all_null h es (x - width h) w))
Last-cons h e es absent absent (no_last z) (no_last w) = no_last (ground arith)
Last-cons h e es absent lost u x = elim u [ ]
Last-cons h e es lost t u x = elim x [ ]

First-cons :
    (h : ℕ) (e : Entry) (es : Entries) (s t : Scan)
    → First (read h e) (width h) (is_null e) t
    → First (read_in h es) (span h es) (all_null es) s
    → First (read_in h (cons e es)) (span h (cons e es)) (all_null (cons e es)) (or_else t s)
unfolding read_in span all_null
First-cons h e es s (block b) (first p _ z l q n) u =
    first p b (ground arith) (omega arith) (ground (arith, q)) (λ x m. ground (arith, n x))
First-cons h e es (block b) absent (no_first w) (first p _ z l q n) =
    first (width h + p) b (ground arith) (omega arith) (ground (arith, q))
      (λ x m. ground (arith, null_reads h e x w, n (x - width h)))
First-cons h e es absent absent (no_first z) (no_first w) = no_first (ground arith)
First-cons h e es lost absent x u = elim u [ ]
First-cons h e es s lost x u = elim x [ ]

mutual
  unfolding last_in read read_in Fits span all_null

  last_of-Last : (h : ℕ) (e : Entry) → Fits h e → Last (read h e) (width h) (is_null e) (last_of e)
  last_of-Last h (leaf none) f = no_last refl
  last_of-Last h (leaf (some b)) f =
      last (width h - 1) b refl (omega (arith, width-pos h)) refl (λ q m k. absurd (omega arith))
  last_of-Last zero (node cs) f = elim f [ ]
  last_of-Last (suc h) (node cs) f = Last-node h cs (last_in cs) f (last_in-Last h cs f.2)

  pub last_in-Last :
      (h : ℕ) (es : Entries)
      → FitsAll h es
      → Last (read_in h es) (span h es) (all_null es) (last_in es)
  last_in-Last h nil f = no_last refl
  last_in-Last h (cons e es) (f, fs) =
      Last-cons h e es (last_in es) (last_of e) (last_of-Last h e f) (last_in-Last h es fs)

mutual
  unfolding first_in read read_in Fits span all_null

  first_of-First :
      (h : ℕ) (e : Entry) → Fits h e → First (read h e) (width h) (is_null e) (first_of e)
  first_of-First h (leaf none) f = no_first refl
  first_of-First h (leaf (some b)) f =
      first 0 b refl (width-pos h) refl (λ q m. absurd (omega arith))
  first_of-First zero (node cs) f = elim f [ ]
  first_of-First (suc h) (node cs) f = First-node h cs (first_in cs) f (first_in-First h cs f.2)

  pub first_in-First :
      (h : ℕ) (es : Entries)
      → FitsAll h es
      → First (read_in h es) (span h es) (all_null es) (first_in es)
  first_in-First h nil f = no_first refl
  first_in-First h (cons e es) (f, fs) =
      First-cons h e es (first_in es) (first_of e) (first_of-First h e f) (first_in-First h es fs)
