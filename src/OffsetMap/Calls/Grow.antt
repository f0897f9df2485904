-- ===== src/OffsetMap/Calls/Grow.antt =====
-- Offset maps in shape, and the levels that insert_block adds (offset_mapping.c).
use pmemfile.Prelude.{
  ℕ, zero, suc, ◌+◌, ◌-◌, ◌≤◌, ◌<◌, ◌≡◌, ◌∙◌, ◌⊎◌, refl, sym, ap, Bool, true, false, ◌&&◌, Option,
  none, some, ltb, leb, arith, Bool-cases, inl, inr,
}
use pmemfile.OffsetMap.{
  Entry, leaf, node, Entries, nil, cons, n_children, min_block_size, OffsetMap, range_length_bits,
  max_map_offset, width, nulls, is_null, all_null,
}
use pmemfile.OffsetMap.Reads.{
  read, read_in, size, Fits, span, size-nulls, nulls-FitsAll, read_in-all_null, all_null-nulls,
}
use pmemfile.OffsetMap.SetRange.{span-children}
use pmemfile.OffsetMap.Calls.{Changed, add_new_level, grow}

-- The root of a map holds no block itself.
abbrev pub IsRoot : Entry → Type 0
IsRoot (leaf none) = Unit
IsRoot (leaf (some b)) = ⊥
IsRoot (node cs) = Unit

-- The tree is in shape, with 66 bits at most.
pub record IsValid (m : OffsetMap) : Type 0 where
  pub fits : Fits m.levels m.entry
  pub root : IsRoot m.entry
  pub height : m.levels ≤ 13

-- The block that an offset of the file maps to.
abbrev pub block_at : OffsetMap → ℕ → Option ℕ
block_at m x = read m.levels m.entry x

pub read_in_beyond : (h : ℕ) (es : Entries) (x : ℕ) → span h es ≤ x → read_in h es x ≡ none
unfolding read_in span
read_in_beyond h nil x l = refl
read_in_beyond h (cons e es) x l = ground (arith, read_in_beyond h es (x - width h))

pub root_beyond :
    (h : ℕ) (e : Entry) (x : ℕ) → Fits h e → IsRoot e → width h ≤ x → read h e x ≡ none
unfolding read Fits
root_beyond h (leaf none) x f r l = refl
root_beyond h (leaf (some b)) x f r l = elim r [ ]
root_beyond zero (node cs) x f r l = refl
root_beyond (suc h) (node cs) x f r l =
    read_in_beyond h cs x (omega (arith, span-children h cs f.0, l))

pub block_at_beyond : (m : OffsetMap) (x : ℕ) → IsValid m → width m.levels ≤ x → block_at m x ≡ none
block_at_beyond m x v l = root_beyond m.levels m.entry x v.fits v.root l

read-raised :
    (h : ℕ) (e : Entry) (x : ℕ)
    → Fits h e
    → IsRoot e
    → read (suc h) (node (cons e (nulls (n_children - 1)))) x ≡ read h e x
unfolding read read_in
read-raised h e x f r = elim (Bool-cases (ltb x (width h))) [
  | inl l ↦ rw l refl
  | inr l ↦
      rw
        (
          l,
          read_in-all_null h (nulls (n_children - 1)) (x - width h)
              (all_null-nulls (n_children - 1)),
        )
        (sym (root_beyond h e x f r (ground arith)))
]

raised-Fits :
    (h : ℕ) (e : Entry)
    → Fits h e
    → is_null e ≡ false
    → Fits (suc h) (node (cons e (nulls (n_children - 1))))
unfolding Fits size all_null
raised-Fits h e f n =
    (ap suc (size-nulls (n_children - 1)), rw n refl, (f, nulls-FitsAll h (n_children - 1)))

-- A map with room for more, with the same contents.
pub record Grows (m m' : OffsetMap) : Type 0 where
  pub valid : IsValid m'
  pub reads : (x : ℕ) → block_at m' x ≡ block_at m x

-- A step that grows the map succeeds, or fails where an allocation did.
pub data Grown (allocated : ℕ → Bool) (m : OffsetMap) (P : OffsetMap → Type 0)
    : Changed → Type 0 where
  grown : (c : Changed) → c.success ≡ true → Grows m c.map → P c.map → Grown allocated m P c
  refused : (c : Changed) (j : ℕ) → c.success ≡ false → allocated j ≡ false → Grown allocated m P c

null_entry :
    (h : ℕ) (e : Entry)
    → is_null e ≡ true
    → (l : ℕ) → Fits l e × ((x : ℕ) → read l e x ≡ read h e x)
unfolding Fits read
null_entry h (leaf none) z l = (tt, λ x. refl)
null_entry h (leaf (some b)) z l = absurd (cc)
null_entry h (node cs) z l = absurd (cc)

add_new_level-Grown :
    (allocated : ℕ → Bool) (k : ℕ) (m : OffsetMap)
    → IsValid m
    → m.levels < 13
    → Grown allocated m (λ m'. m'.levels ≡ suc m.levels) (add_new_level allocated k m)
unfolding add_new_level
add_new_level-Grown allocated k m v l =
    let low : ltb 64 (range_length_bits m) ≡ false = ground arith in
    elim (Bool-cases (is_null m.entry)) [
      | inl z ↦
          let (f, same) = null_entry m.levels m.entry z (suc m.levels) in
          rw (low, z)
            (grown _ refl
              (record {
                valid = record { fits = f; root = v.root; height = omega arith };
                reads = same;
              })
              refl)
      | inr z ↦ elim (Bool-cases (allocated k)) [
        | inl a ↦
            rw (low, z, a)
              (grown _ refl
                (record {
                  valid = record {
                    fits = raised-Fits m.levels m.entry v.fits z;
                    root = tt;
                    height = omega arith;
                  };
                  reads = λ x. read-raised m.levels m.entry x v.fits v.root;
                })
                refl)
        | inr a ↦ rw (low, z, a) (refused _ k refl a)
      ]
    ]

-- The root covers the end of the block, or there are 66 bits.
abbrev pub HasRoom : ℕ → OffsetMap → Type 0
HasRoom end m = (end < width m.levels) ⊎ (m.levels ≡ 13)

Grown-trans :
    {allocated : ℕ → Bool} {m m' : OffsetMap} {P : OffsetMap → Type 0} {c : Changed}
    → Grows m m'
    → Grown allocated m' P c
    → Grown allocated m P c
Grown-trans g (grown c s h p) =
    grown c s (record { valid = h.valid; reads = λ x. h.reads x ∙ g.reads x }) p
Grown-trans g (refused c j s h) = refused c j s h

-- The turn of the loop after a new level.
Grown-turn :
    (allocated : ℕ → Bool) (fuel end : ℕ) (m : OffsetMap) (c : Changed)
    → Grown allocated m (λ m'. m'.levels ≡ suc m.levels) c
    → ((k : ℕ) (m' : OffsetMap)
        → IsValid m'
        → m'.levels ≡ suc m.levels
        → Grown allocated m' (HasRoom end) (grow allocated fuel end k m'))
    → Grown allocated m
        (HasRoom end)
        (elim c.success [ false ↦ c | true ↦ grow allocated fuel end c.calls c.map ])
Grown-turn allocated fuel end m c (grown _ s h p) next =
    rw s (Grown-trans h (next c.calls c.map h.valid p))
Grown-turn allocated fuel end m c (refused _ j s h) next = rw s (refused c j s h)

pub width-ge : (h : ℕ) → min_block_size ≤ width h
unfolding width
width-ge zero = omega arith
width-ge (suc h) = omega (arith, width-ge h)

pub max_map_offset-width :
    (m : OffsetMap) → m.levels < 13 → max_map_offset m + min_block_size ≡ width m.levels
unfolding max_map_offset
max_map_offset-width m l = ground (arith, width-ge m.levels)

pub grow-Grown :
    (allocated : ℕ → Bool) (fuel end k : ℕ) (m : OffsetMap)
    → IsValid m
    → 13 ≤ m.levels + fuel
    → Grown allocated m (HasRoom end) (grow allocated fuel end k m)
unfolding grow
grow-Grown allocated zero end k m v l =
    grown _ refl (record { valid = v; reads = λ x. refl }) (inr (omega (arith, v.height)))
grow-Grown allocated (suc fuel) end k m v l =
    elim (Bool-cases
      (ltb (range_length_bits m) 64 && leb (max_map_offset m + min_block_size) end)) [
        | inl e ↦
            rw (e, grow)
              (Grown-turn allocated fuel end m _
                (add_new_level-Grown allocated k m v (ground arith))
                (λ k' m' v' q. grow-Grown allocated fuel end k' m' v' (omega arith)))
        | inr e ↦
            rw (e, grow)
              (grown _ refl (record { valid = v; reads = λ x. refl })
                (elim (Bool-cases (ltb m.levels 13)) [
                  | inl low ↦ inl (ground (arith, max_map_offset-width m (ground arith)))
                  | inr high ↦ inr (ground (arith, v.height))
                ]))
      ]
