-- ===== src/OffsetMap/Reads.antt =====
-- The tree of an offset map as a function from offsets to blocks (offset_mapping.c), and its shape.
use pmemfile.Prelude.{
  ℕ, zero, suc, ◌+◌, ◌-◌, ◌*◌, ◌%◌, ◌≤◌, ◌<◌, ◌≡◌, ◌⊎◌, refl, true, false, ◌&&◌, Option, none, some,
  ltb, leb, if◌then◌else◌, arith, Bool-cases, inl, inr,
}
use pmemfile.OffsetMap.{
  Entry, leaf, node, Entries, nil, cons, width, n_children, min_block_size, nulls, all_null,
}

-- What an offset maps to, counted from the start of an entry or of an array.
unfoldable mutual
  pub read : ℕ → Entry → ℕ → Option ℕ
  read h (leaf b) x = b
  read zero (node es) x = none
  read (suc h) (node es) x = read_in h es x

  pub read_in : ℕ → Entries → ℕ → Option ℕ
  read_in h nil x = none
  read_in h (cons e es) x = if ltb x (width h) then read h e x else read_in h es (x - width h)

unfoldable pub size : Entries → ℕ
size nil = 0
size (cons e es) = suc (size es)

-- An array below an entry has 16 entries, of which one is not NULL.
unfoldable mutual
  pub Fits : ℕ → Entry → Type 0
  Fits h (leaf b) = Unit
  Fits zero (node es) = ⊥
  Fits (suc h) (node es) = (size es ≡ n_children) × (all_null es ≡ false) × FitsAll h es

  pub FitsAll : ℕ → Entries → Type 0
  FitsAll h nil = Unit
  FitsAll h (cons e es) = Fits h e × FitsAll h es

-- The bytes that an array covers.
unfoldable pub span : ℕ → Entries → ℕ
span h nil = 0
span h (cons e es) = width h + span h es

-- A function of offsets, changed on the range of `r` bytes from `d` on.
abbrev pub put_at : ℕ → ℕ → Option ℕ → (ℕ → Option ℕ) → ℕ → Option ℕ
put_at d r block f x = if leb d x && ltb x (d + r) then block else f x

-- No block stands both in the range and outside of it.
pub record Apart (f : ℕ → Option ℕ) (d r n : ℕ) : Type 0 where
  pub at :
      (x y c : ℕ)
      → d ≤ x
      → x < d + r
      → (y < d) ⊎ (d + r ≤ y)
      → y < n
      → f x ≡ some c
      → f y ≡ some c
      → ⊥

pub width-pos : (h : ℕ) → 0 < width h
unfolding width
width-pos zero = omega arith
width-pos (suc h) = omega (arith, width-pos h)

pub width-min : (h : ℕ) → width h % min_block_size ≡ 0
unfolding width
width-min zero = omega arith
width-min (suc h) = omega (arith, width-min h)

pub span-size : (h : ℕ) (es : Entries) → span h es ≡ size es * width h
unfolding span size
span-size h nil = omega arith
span-size h (cons e es) = grind (arith, span-size h es)

pub size-nulls : (n : ℕ) → size (nulls n) ≡ n
unfolding size nulls
size-nulls zero = refl
size-nulls (suc n) = omega (arith, size-nulls n)

pub nulls-FitsAll : (h n : ℕ) → FitsAll h (nulls n)
unfolding FitsAll nulls
nulls-FitsAll h zero = tt
nulls-FitsAll h (suc n) = (tt, nulls-FitsAll h n)

pub read_in-all_null : (h : ℕ) (es : Entries) (x : ℕ) → all_null es ≡ true → read_in h es x ≡ none
unfolding read_in all_null
read_in-all_null h nil x e = refl
read_in-all_null h (cons (leaf none) es) x e = ground (arith, read_in-all_null h es (x - width h))
read_in-all_null h (cons (leaf (some b)) es) x e = absurd (cc)
read_in-all_null h (cons (node cs) es) x e = absurd (cc)

pub all_null-nulls : (n : ℕ) → all_null (nulls n) ≡ true
unfolding all_null nulls
all_null-nulls zero = refl
all_null-nulls (suc n) = all_null-nulls n

-- An entry after a step of `s` bytes of the range, and the rest of the array after the rest of it.
pub cons_reads :
    (h d r s d' : ℕ) (block : Option ℕ) (e e' : Entry) (es es' : Entries)
    → d < width h
    → s ≤ r
    → (s ≡ r) ⊎ (d + s ≡ width h)
    → d + s ≤ width h
    → (0 < r - s → d' ≡ 0)
    → ((x : ℕ) → x < width h → read h e' x ≡ put_at d s block (read h e) x)
    → ((x : ℕ) → read_in h es' x ≡ put_at d' (r - s) block (read_in h es) x)
    → (x : ℕ) → read_in h (cons e' es') x ≡ put_at d r block (read_in h (cons e es)) x
unfolding read_in
cons_reads h d r s d' block e e' es es' dw sr m in_entry z f g x =
    elim (Bool-cases (ltb x (width h))) [
      | inl l ↦ rw l (ground (arith, f x))
      | inr l ↦ rw l (ground (arith, g (x - width h)))
    ]
