-- ===== src/HashMap/Rebuild.antt =====
-- Where keys stand in the table, and the move of all slots to new buckets (hash_map.c,
-- hash_map_rebuild).
use mathlib.Core.Path.{subst}
use mathlib.Core.List.{flatten}
use pmemfile.Prelude.{
  ℕ, zero, suc, ◌+◌, ◌≤◌, ◌<◌, ◌≡◌, ◌≢◌, ◌∙◌, refl, none, some, List, [], ◌∷◌, ◌++◌, length, get_or,
  set, get_or-set, length-set, ◌==◌, if◌then◌else◌, arith, Bool-cases, Option-cases, inl, inr,
}
use pmemfile.HashMap.{HashMap, Slot, Bucket, index, find, put_free, place, place_bucket, place_all}
use pmemfile.HashMap.Buckets.{
  count, used, count_all, used_all, count_all-set, used_all-set, Stores, put_free-Stores,
  find_absent, count-le-count_all,
}

module _ (m : HashMap) where
  -- The bucket in which the hash function looks for the key.
  abbrev pub home : List Bucket → ℕ → Bucket
  home bs q = get_or bs (index m (length bs) q) []

  pub index-lt : (n q : ℕ) → 0 < n → index m n q < n
  unfolding index
  index-lt n q h = omega arith

  -- Every key stands in its home bucket only, and once at most.
  pub record IsPlaced (bs : List Bucket) : Type 0 where
    pub at_home : (q : ℕ) → q ≢ 0 → count q (home bs q) ≡ count_all q bs
    pub once : (q : ℕ) → q ≢ 0 → count_all q bs ≤ 1

  -- `bs'` is `bs` with one more key.
  pub record Adds (new : Slot) (bs bs' : List Bucket) : Type 0 where
    pub width : length bs' ≡ length bs
    pub placed : IsPlaced bs'
    pub counts :
        (q : ℕ) → q ≢ 0 → count_all q bs' ≡ count_all q bs + (if new.key == q then 1 else 0)
    pub reads :
        (q : ℕ)
        → q ≢ 0
        → find q (home bs' q) ≡ (if new.key == q then new.value else find q (home bs q))
    pub fills : used_all bs' ≡ used_all bs + 1

  pub set-Adds :
      (new : Slot) (bs : List Bucket) (b : Bucket)
      → 0 < length bs
      → IsPlaced bs
      → new.key ≢ 0
      → count_all new.key bs ≡ 0
      → Stores new (home bs new.key) b
      → Adds new bs (set bs (index m (length bs) new.key) b)
  set-Adds new bs b pos placed nonzero absent t =
      let i = index m (length bs) new.key in
      let inside : i < length bs = index-lt (length bs) new.key pos in
      let total = (λ (q : ℕ). count_all-set q bs i b inside) in
      let gone : count new.key (home bs new.key) ≡ 0 = placed.at_home new.key nonzero ∙ absent in
      record {
        width = length-set bs i b;
        placed = record {
          at_home = λ q n.
              rw (length-set, get_or-set, inside)
                (ground (arith, total q, t.counts q n, placed.at_home q n));
          once = λ q n. ground (arith, total q, t.counts q n, placed.once q n);
        };
        counts = λ q n. omega (arith, total q, t.counts q n);
        reads = λ q n. rw (length-set, get_or-set, inside) (ground (arith, t.reads q n gone));
        fills = omega (arith, used_all-set bs i b inside, t.fills nonzero);
      }

  place-Adds :
      (new : Slot) (bs bs' : List Bucket)
      → 0 < length bs
      → IsPlaced bs
      → new.key ≢ 0
      → count_all new.key bs ≡ 0
      → place m new bs ≡ some bs'
      → Adds new bs bs'
  unfolding place
  place-Adds new bs bs' pos placed nonzero absent h =
      elim (Option-cases (put_free new (home bs new.key))) [
        | inl f ↦ cc (rw (f, place) at h)
        | inr (b, f) ↦
            let same : set bs (index m (length bs) new.key) b ≡ bs' = cc (rw (f, place) at h) in
            subst (Adds new bs) same
              (set-Adds new bs b pos placed nonzero absent (put_free-Stores new _ b f))
      ]

  -- `bs'` is `bs` with the used ones of the slots moved in.
  pub record Moves (slots : Bucket) (bs bs' : List Bucket) : Type 0 where
    pub width : length bs' ≡ length bs
    pub placed : IsPlaced bs'
    pub counts : (q : ℕ) → q ≢ 0 → count_all q bs' ≡ count_all q bs + count q slots
    pub reads :
        (q : ℕ)
        → q ≢ 0
        → find q (home bs' q) ≡ (if count q slots == 0 then find q (home bs q) else find q slots)
    pub fills : used_all bs' ≡ used_all bs + used slots

  pub place_bucket-Moves :
      (slots : Bucket) (bs bs' : List Bucket)
      → 0 < length bs
      → IsPlaced bs
      → ((q : ℕ) → q ≢ 0 → count_all q bs + count q slots ≤ 1)
      → place_bucket m slots bs ≡ some bs'
      → Moves slots bs bs'
  unfolding place_bucket count used find
  place_bucket-Moves [] bs bs' pos placed room h =
      let same : bs ≡ bs' = cc in
      subst (Moves [] bs) same (record {
        width = refl;
        placed = placed;
        counts = λ q n. omega arith;
        reads = λ q n. refl;
        fills = omega arith;
      })
  place_bucket-Moves (s ∷ slots) bs bs' pos placed room h = elim (Bool-cases (s.key == 0)) [
    | inl e ↦
        let t =
          place_bucket-Moves slots bs bs' pos placed (λ q n. ground (arith, room q n))
            (rw (e, place_bucket) at h) in
        record {
          width = t.width;
          placed = t.placed;
          counts = λ q n. ground (arith, t.counts q n);
          reads = λ q n. ground (arith, t.reads q n);
          fills = ground (arith, t.fills);
        }
    | inr nz ↦ elim (Option-cases (place m s bs)) [
      | inl f ↦ cc (rw (nz, f, place_bucket) at h)
      | inr (bs1, f) ↦
          let nonzero : s.key ≢ 0 = ground arith in
          let one = place-Adds s bs bs1 pos placed nonzero (ground (arith, room s.key nonzero)) f in
          let t =
            place_bucket-Moves slots bs1 bs' (rw one.width pos) one.placed
              (λ q n. omega (arith, room q n, one.counts q n)) (rw (nz, f, place_bucket) at h) in
          record {
            width = t.width ∙ one.width;
            placed = t.placed;
            counts = λ q n. omega (arith, t.counts q n, one.counts q n);
            reads = λ q n. ground (arith, t.reads q n, one.reads q n, room q n);
            fills = ground (arith, t.fills, one.fills);
          }
    ]
  ]

  place_bucket-append :
      (a b : Bucket) (bs : List Bucket)
      → place_bucket m (a ++ b) bs
        ≡ elim (place_bucket m a bs) [ none ↦ none | some bs' ↦ place_bucket m b bs' ]
  unfolding place_bucket
  place_bucket-append [] b bs = refl
  place_bucket-append (s ∷ a) b bs = elim (Bool-cases (s.key == 0)) [
    | inl e ↦ rw (e, place_bucket) (place_bucket-append a b bs)
    | inr n ↦ elim (Option-cases (place m s bs)) [
      | inl f ↦ rw (n, f, place_bucket) refl
      | inr (bs', f) ↦ rw (n, f, place_bucket) (place_bucket-append a b bs')
    ]
  ]

  -- The two nested loops are one loop over all slots.
  pub place_all-flatten :
      (bs new : List Bucket) → place_all m bs new ≡ place_bucket m (flatten bs) new
  unfolding place_all flatten
  place_all-flatten [] new = unfold place_bucket in refl
  place_all-flatten (b ∷ bs) new = elim (Option-cases (place_bucket m b new)) [
    | inl f ↦ rw place_bucket-append (rw (f, place_all) refl)
    | inr (new', f) ↦ rw place_bucket-append (rw (f, place_all) (place_all-flatten bs new'))
  ]

count-append : (q : ℕ) (a b : Bucket) → count q (a ++ b) ≡ count q a + count q b
unfolding count
count-append q [] b = omega arith
count-append q (s ∷ a) b = omega (arith, count-append q a b)

used-append : (a b : Bucket) → used (a ++ b) ≡ used a + used b
unfolding used
used-append [] b = omega arith
used-append (s ∷ a) b = omega (arith, used-append a b)

find-append :
    (q : ℕ) (a b : Bucket) → find q (a ++ b) ≡ (if count q a == 0 then find q b else find q a)
unfolding find count
find-append q [] b = refl
find-append q (s ∷ a) b = ground (arith, find-append q a b)

pub count-flatten : (q : ℕ) (bs : List Bucket) → count q (flatten bs) ≡ count_all q bs
unfolding count_all flatten count
count-flatten q [] = refl
count-flatten q (b ∷ bs) = rw count-append (omega (arith, count-flatten q bs))

pub used-flatten : (bs : List Bucket) → used (flatten bs) ≡ used_all bs
unfolding used_all flatten used
used-flatten [] = refl
used-flatten (b ∷ bs) = rw used-append (omega (arith, used-flatten bs))

-- A key that stands in bucket i only is found there.
pub find-flatten :
    (q : ℕ) (bs : List Bucket) (i : ℕ)
    → count q (get_or bs i []) ≡ count_all q bs
    → find q (flatten bs) ≡ find q (get_or bs i [])
unfolding count_all flatten
find-flatten q [] i h = refl
find-flatten q (b ∷ bs) zero h =
    let rest : count q (flatten bs) ≡ 0 = rw count-flatten (omega arith) in
    rw find-append (ground (arith, find_absent q (flatten bs) rest, find_absent q b))
find-flatten q (b ∷ bs) (suc i) h =
    let le = count-le-count_all q bs i in
    let first : count q b ≡ 0 = omega arith in
    rw find-append (ground (arith, find-flatten q bs i (omega arith)))
