-- ===== src/OffsetMap/Walk.antt =====
-- The loop of set_range over one array (offset_mapping.c).
use native.Mathlib.Nat.{mod-lt, mod-add-mod, mod_self}
use pmemfile.Prelude.{
  ℕ, zero, suc, ◌+◌, ◌-◌, ◌%◌, ◌≤◌, ◌<◌, ◌≡◌, ◌≢◌, ◌∙◌, ◌⊎◌, refl, sym, ap, Bool, true, false, ◌&&◌,
  Option, none, some, ltb, leb, ◌==◌, if◌then◌else◌, arith, Bool-cases, inl, inr,
}
use pmemfile.Run.{Run, ok, fault, ◌>>=◌}
use pmemfile.OffsetMap.{
  Entry, leaf, node, Entries, nil, cons, width, n_children, min_block_size, nulls, all_null,
  is_null, Updated, after, children_of, close, walk,
}
use pmemfile.OffsetMap.Reads.{
  read, read_in, size, Fits, FitsAll, span, put_at, Apart, width-pos, width-min, cons_reads,
  size-nulls, nulls-FitsAll, read_in-all_null, all_null-nulls,
}

-- The array after the range has been set, in shape.
pub record Sets (block : Option ℕ) (h d r : ℕ) (es es' : Entries) : Type 0 where
  pub fits : FitsAll h es'
  pub same_size : size es' ≡ size es
  pub reads : (x : ℕ) → read_in h es' x ≡ put_at d r block (read_in h es) x
  pub used : block ≢ none → 0 < r → all_null es' ≡ false

-- The call succeeds, or fails where an allocation did.
pub data Ended (allocated : ℕ → Bool) (P : Entries → Type 0) : Run Updated → Type 0 where
  succeeded : (u : Updated) → u.success ≡ true → P u.entries → Ended allocated P (ok u)
  failed :
      (u : Updated) (j : ℕ) → u.success ≡ false → allocated j ≡ false → Ended allocated P (ok u)

-- What the walk asks of its range: whole pages, inside of the array.
pub record Range (d r n : ℕ) : Type 0 where
  pub start : d % min_block_size ≡ 0
  pub length : r % min_block_size ≡ 0
  pub inside : d + r ≤ n

-- The children of an entry with `h` levels below it, where there are any.
unfoldable pub Children : ℕ → Entries → Type 0
Children zero cs = Unit
Children (suc h) cs = (size cs ≡ n_children) × FitsAll h cs

-- An entry after a part of it has been set.
pub record SetsPart (block : Option ℕ) (h d s : ℕ) (cs ds : Entries) : Type 0 where
  pub fits : Fits h (close block ds)
  pub reads :
      (x : ℕ) → x < width h → read h (close block ds) x ≡ put_at d s block (read h (node cs)) x

next_start : (o s w d : ℕ) → o % w ≡ d → d + s ≡ w → (o + s) % w ≡ 0
next_start o s w d e h = sym (mod-add-mod o w s) ∙ rw (e, h) (mod_self w)

pub nulls-Children : (h : ℕ) → Children h (nulls n_children)
unfolding Children
nulls-Children zero = tt
nulls-Children (suc h) = (size-nulls n_children, nulls-FitsAll h n_children)

node-Children : (h : ℕ) (cs : Entries) → Fits h (node cs) → Children h cs
unfolding Children Fits
node-Children zero cs f = tt
node-Children (suc h) cs f = (f.0, f.2)

read-nulls : (h x : ℕ) → read h (node (nulls n_children)) x ≡ none
unfolding read
read-nulls zero x = refl
read-nulls (suc h) x = read_in-all_null h (nulls n_children) x (all_null-nulls n_children)

-- How much of the range falls in the entry that it starts in.
abbrev pub part : ℕ → ℕ → ℕ → ℕ
part w d r = if ltb r (w - d) then r else w - d

module _ (h d r s d' : ℕ) (e : Entry) (es : Entries) (low : d < width h) (most : s ≤ r)
    (which : (s ≡ r) ⊎ (d + s ≡ width h)) (start : 0 < r - s → d' ≡ 0)
    (a : Apart (read_in h (cons e es)) d r (span h (cons e es))) where
  Apart-tail : Apart (read_in h es) d' (r - s) (span h es)
  unfolding read_in span
  Apart-tail = record {
    at = λ x y c l m n v p q.
        a.at (width h + x) (width h + y) c (omega arith) (ground arith) (ground arith) (omega arith)
          (ground (arith, p)) (ground (arith, q));
  }

  Apart-entry : d + s ≤ width h → Apart (read h e) d s (width h)
  unfolding read_in span
  Apart-entry inside = record {
    at = λ x y c l m n v p q.
        a.at x y c l (omega arith) (ground arith) (omega arith) (ground (arith, p))
          (ground (arith, q));
  }

  Range-tail :
      d + s ≤ width h
      → 0 < r
      → Range d r (span h (cons e es))
      → 0 < r - s
      → Range d' (r - s) (span h es)
  unfolding span
  Range-tail inside pos g more = record {
    start = ground arith;
    length = ground (arith, g.start, g.length, width-min h);
    inside = ground (arith, g.inside);
  }

Apart-same :
    (f g : ℕ → Option ℕ) (d r n : ℕ)
    → d + r ≤ n
    → ((x : ℕ) → x < n → f x ≡ g x)
    → Apart f d r n
    → Apart g d r n
Apart-same f g d r n inside e a = record {
  at = λ x y c l m p v u w. a.at x y c l m p v (e x (omega arith) ∙ u) (e y v ∙ w);
}

close_not_null : (block : Option ℕ) (cs : Entries) → block ≢ none → is_null (close block cs) ≡ false
close_not_null none cs b = absurd (b refl)
close_not_null (some b) cs n = refl

leaf_not_null : (block : Option ℕ) → block ≢ none → is_null (leaf block) ≡ false
leaf_not_null none b = absurd (b refl)
leaf_not_null (some b) n = refl

module _ (allocated : ℕ → Bool) (block : Option ℕ) (h : ℕ)
    (lower : ℕ → ℕ → Entries → ℕ → Run Updated)
    (descends : (d s : ℕ) (cs : Entries) (k : ℕ)
      → 0 < s
      → Range d s (width h)
      → s < width h
      → Children h cs
      → Apart (read h (node cs)) d s (width h)
      → Ended allocated (SetsPart block h d s cs) (lower d s cs k)) where
  abbrev Walks : ℕ → ℕ → Entries → Run Updated → Type 0
  Walks d r es = Ended allocated (Sets block h d r es)

  -- The rest of the array, behind an entry that has been set.
  Ended-after :
      (d r s d' : ℕ) (e e' : Entry) (es : Entries) (m : Run Updated)
      → d < width h
      → 0 < s
      → s ≤ r
      → (s ≡ r) ⊎ (d + s ≡ width h)
      → d + s ≤ width h
      → (0 < r - s → d' ≡ 0)
      → Fits h e'
      → (block ≢ none → is_null e' ≡ false)
      → ((x : ℕ) → x < width h → read h e' x ≡ put_at d s block (read h e) x)
      → Walks d' (r - s) es m
      → Walks d r (cons e es) (m >>= λ u. ok (after e' u))
  unfolding FitsAll size all_null
  Ended-after d r s d' e e' es (ok _) dw pos sr m in_entry z f nn g (succeeded u p t) =
      succeeded (after e' u) p (record {
        fits = (f, t.fits);
        same_size = ap suc t.same_size;
        reads = cons_reads h d r s d' block e e' es u.entries dw sr m in_entry z g t.reads;
        used = λ b q. ground (arith, nn b);
      })
  Ended-after d r s d' e e' es (ok _) dw pos sr m in_entry z f nn g (failed u j p q) =
      failed (after e' u) j p q
  Ended-after d r s d' e e' es (fault _) dw pos sr m in_entry z f nn g x = elim x [ ]

  -- The entry where the range starts or ends, given the call on the array below it.
  part-Ended :
      (d r s d' : ℕ) (e : Entry) (es cs : Entries) (m : Run Updated) (rest : ℕ → Run Updated)
      → d < width h
      → 0 < s
      → s ≤ r
      → (s ≡ r) ⊎ (d + s ≡ width h)
      → d + s ≤ width h
      → (0 < r - s → d' ≡ 0)
      → ((x : ℕ) → x < width h → read h (node cs) x ≡ read h e x)
      → Ended allocated (SetsPart block h d s cs) m
      → ((k : ℕ) → Walks d' (r - s) es (rest k))
      → Walks d r (cons e es) (
          m >>= λ u. elim u.success [
            | false ↦ ok (record u { entries = cons (node u.entries) es })
            | true ↦ rest u.calls >>= λ v. ok (after (close block u.entries) v)
          ])
  part-Ended d r s d' e es cs (ok _) rest dw pos sr m inside z same (failed u j p q) t =
      rw p (failed _ j p q)
  part-Ended d r s d' e es cs (ok _) rest dw pos sr m inside z same (succeeded u p b) t = rw p (
      Ended-after d r s d' e (close block u.entries) es (rest u.calls) dw pos sr m inside z b.fits
        (close_not_null block u.entries) (λ x l. b.reads x l ∙ rw (same x l) refl) (t u.calls))
  part-Ended d r s d' e es cs (fault _) rest dw pos sr m inside z same x t = elim x [ ]

  -- The array below an entry: a new one, none, or the one that is there. A block there is not followed,
  -- since it would stand on both sides of an end of the range.
  entry-Ended :
      (d r k : ℕ) (e : Entry) (es : Entries) (next : Entries → ℕ → Run Updated)
      → d < width h
      → 0 < r
      → (d ≡ 0 → r < width h)
      → Fits h e
      → Apart (read_in h (cons e es)) d r (span h (cons e es))
      → ((cs : Entries) (k' : ℕ)
          → Children h cs
          → ((x : ℕ) → x < width h → read h (node cs) x ≡ read h e x)
          → Walks d r (cons e es) (next cs k'))
      → Walks d r (cons e es) (
          children_of allocated k e >>= λ x. elim x.0 [
            | none ↦ ok (record { entries = cons e es; success = false; calls = x.1 })
            | some cs ↦ next cs x.1
          ])
  unfolding children_of read read_in span
  entry-Ended d r k (leaf none) es next low pos short f a n = elim (Bool-cases (allocated k)) [
    | inl e ↦
        rw (e, children_of)
          (n (nulls n_children) (k + 1) (nulls-Children h) (λ x l. read-nulls h x))
    | inr e ↦ rw (e, children_of) (failed _ k refl e)
  ]
  entry-Ended d r k (leaf (some b)) es next low pos short f a n =
      let y : ℕ = (if d == 0 then r else 0) in
      absurd (
        a.at d y b (omega arith) (omega arith) (ground arith) (ground arith) (ground arith)
          (ground arith))
  entry-Ended d r k (node cs) es next low pos short f a n =
      n cs k (node-Children h cs f) (λ x l. refl)

  Sets-nothing : (d r : ℕ) (es : Entries) → r ≡ 0 → FitsAll h es → Sets block h d r es es
  Sets-nothing d r es z f = record {
    fits = f;
    same_size = refl;
    reads = λ x. ground arith;
    used = λ n p. absurd (omega arith);
  }

  -- The whole turn of the loop on an entry that the range covers in part.
  entered :
      (r o k : ℕ) (e : Entry) (es cs : Entries) (low : o % width h < width h)
      → 0 < r
      → (o % width h ≡ 0 → r < width h)
      → Children h cs
      → ((x : ℕ) → x < width h → read h (node cs) x ≡ read h e x)
      → FitsAll h es
      → Range (o % width h) r (span h (cons e es))
      → Apart (read_in h (cons e es)) (o % width h) r (span h (cons e es))
      → let s = part (width h) (o % width h) r in
        ((k' : ℕ)
          → (0 < r - s → Range ((o + s) % width h) (r - s) (span h es))
          → Apart (read_in h es) ((o + s) % width h) (r - s) (span h es)
          → Walks
              ((o + s) % width h)
              (r - s)
              es
              (walk allocated block lower (width h) (o + s) (r - s) es k'))
        → Walks (o % width h) r (cons e es) (
            lower (o % width h) s cs k >>= λ u. elim u.success [
              | false ↦ ok (record u { entries = cons (node u.entries) es })
              | true ↦ walk allocated block lower (width h) (o + s) (r - s) es u.calls >>= λ v.
                  ok (after (close block u.entries) v)
            ])
  entered r o k e es cs low pos short c same fs g a next =
      let d = o % width h in
      let s = part (width h) d r in
      let d' = (o + s) % width h in
      let most : s ≤ r = ground arith in
      let which : (s ≡ r) ⊎ (d + s ≡ width h) = ground arith in
      let inside : d + s ≤ width h = ground arith in
      let start : 0 < r - s → d' ≡ 0 = λ q. next_start o s (width h) d refl (ground arith) in
      let own : Range d s (width h) = record {
        start = g.start;
        length = ground (arith, g.start, g.length, width-min h);
        inside = inside;
      } in
      part-Ended d r s d' e es cs (lower d s cs k) _ low (ground arith) most which inside start same
        (descends d s cs k (ground arith) own (ground arith) c (
          Apart-same (read h e) (read h (node cs)) d s (width h) inside (λ x l. sym (same x l))
            (Apart-entry h d r s d' e es low most which start a inside)))
        (λ k'.
          next k' (Range-tail h d r s d' e es low most which start a inside pos g)
            (Apart-tail h d r s d' e es low most which start a))

  pub walk-Ended :
      (r o k : ℕ) (es : Entries)
      → FitsAll h es
      → (0 < r → Range (o % width h) r (span h es))
      → Apart (read_in h es) (o % width h) r (span h es)
      → Walks (o % width h) r es (walk allocated block lower (width h) o r es k)
  unfolding walk FitsAll size span all_null read_in
  walk-Ended r o k nil f g a = elim (Bool-cases (r == 0)) [
    | inl z ↦ rw (z, walk) (succeeded _ refl (Sets-nothing (o % width h) r nil (ground arith) tt))
    | inr z ↦ absurd (ground (arith, (g (ground arith)).inside))
  ]
  walk-Ended r o k (cons e es) (f, fs) g a = elim (Bool-cases (r == 0)) [
    | inl z ↦
        rw (z, walk)
          (succeeded _ refl (Sets-nothing (o % width h) r (cons e es) (ground arith) (f, fs)))
    | inr z ↦
        let d = o % width h in
        let low : d < width h = mod-lt o (width-pos h) in
        let pos : 0 < r = ground arith in
        elim (Bool-cases (d == 0 && leb (width h) r)) [
          | inl full ↦
              let start : 0 < r - width h → (o + width h) % width h ≡ 0 =
                λ _. next_start o (width h) (width h) d refl (ground arith) in
              rw (z, full, walk)
                (Ended-after d r (width h) ((o + width h) % width h) e (leaf block) es _ low
                  (width-pos h) (ground arith) (inr (ground arith)) (ground arith) start tt
                  (leaf_not_null block) (λ x l. ground arith)
                  (walk-Ended (r - width h) (o + width h) k es fs
                    (Range-tail h d r (width h) ((o + width h) % width h) e es low (ground arith)
                      (inr (ground arith)) start a (ground arith) pos (g pos))
                    (Apart-tail h d r (width h) ((o + width h) % width h) e es low (ground arith)
                      (inr (ground arith)) start a)))
          | inr not_full ↦
              rw (z, not_full, walk)
                (entry-Ended d r k e es _ low pos (λ q. ground arith) f a
                  (λ cs k' c same.
                    entered r o k' e es cs low pos (λ q. ground arith) c same fs (g pos) a
                      (λ k'' rg ap.
                        walk-Ended (r - part (width h) d r) (o + part (width h) d r) k'' es fs rg
                          ap)))
        ]
  ]
