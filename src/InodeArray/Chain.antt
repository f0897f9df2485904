-- ===== src/InodeArray/Chain.antt =====
-- Adding an inode to a chain of inode arrays and taking it out again (inode_array.c).
use pmemfile.Prelude.{
  ℕ, zero, suc, ◌+◌, ◌<◌, ◌≡◌, ◌≢◌, ◌∙◌, refl, sym, Bool, true, false, ◌&&◌, Option, none, some,
  List, [], ◌∷◌, length, get_or, ltb, ◌==◌, if◌then◌else◌, arith, Bool-cases, inl, inr,
  length-replicate,
}
use pmemfile.InodeArray.{
  InodeArray, num_inodes_per_entry, new_array, add_slot, add_single, Added, added, aborted,
  out_of_fuel, behind, add,
}
use pmemfile.InodeArray.Slots.{
  used_in, used_in-le, used_in-zeros, Stores, Slotted, full, stored, add_slot-Slotted,
}

-- The layout's promise: 249 slots, and `used` counts those in use.
pub record ArrayIsValid (a : InodeArray) : Type 0 where
  pub size : length a.inodes ≡ num_inodes_per_entry
  pub counted : a.used ≡ used_in a.inodes

pub new_array-ArrayIsValid : ArrayIsValid new_array
new_array-ArrayIsValid = record {
  size = length-replicate {A = ℕ} num_inodes_per_entry 0;
  counted = omega (arith, used_in-zeros num_inodes_per_entry);
}

unfoldable pub IsValid : List InodeArray → Type 0
IsValid chain = (k : ℕ) → ArrayIsValid (get_or chain k new_array)

abbrev pub inode_at : List InodeArray → ℕ → ℕ → ℕ
inode_at chain k i = get_or (get_or chain k new_array).inodes i 0

-- One array either takes the inode or is full.
data Tried (t : ℕ) (cur : InodeArray) : Option (InodeArray × ℕ) → Type 0 where
  no_room : cur.used ≡ num_inodes_per_entry → Tried t cur none
  took :
      {cur' : InodeArray} {i : ℕ}
      → ArrayIsValid cur'
      → Stores t cur.inodes cur'.inodes i
      → Tried t cur (some (cur', i))

Slotted-Tried :
    (t : ℕ) (cur : InodeArray) (o : Option (List ℕ × ℕ))
    → ArrayIsValid cur
    → Slotted t cur.inodes o
    → Tried t cur (elim o [
      | none ↦ none
      | some (inodes, i) ↦ some (record { used = cur.used + 1; inodes = inodes }, i)
    ])
Slotted-Tried t cur none v (full e) = no_room (omega (arith, v.size, v.counted))
Slotted-Tried t cur (some (ys, i)) v (stored s) =
    took
      (record {
        size = omega (arith, s.keeps_length, v.size);
        counted = omega (arith, s.counts, v.counted);
      })
      s

add_single-Tried :
    (t : ℕ)
    → t ≢ 0
    → (cur : InodeArray) → ArrayIsValid cur
    → Tried t cur (if ltb cur.used num_inodes_per_entry then add_single t cur else none)
unfolding add_single
add_single-Tried t h cur v = elim (Bool-cases (ltb cur.used num_inodes_per_entry)) [
  | inl e ↦ rw e (Slotted-Tried t cur (add_slot t cur.inodes) v (add_slot-Slotted t h cur.inodes))
  | inr e ↦ rw e (no_room (ground (arith, v.size, v.counted, used_in-le cur.inodes)))
]

-- The inode stands at a position that was null, and all other positions read as before.
pub record Adds (t : ℕ) (chain chain' : List InodeArray) (k i : ℕ) : Type 0 where
  pub valid : IsValid chain'
  pub inside : k < length chain'
  pub slot_inside : i < num_inodes_per_entry
  pub was_null : inode_at chain k i ≡ 0
  pub reads :
      (k' i' : ℕ) → inode_at chain' k' i' ≡ (if k == k' && i == i' then t else inode_at chain k' i')

-- How a call ends.
pub data Outcome (allocated : Bool) (t : ℕ) (chain : List InodeArray) : Added → Type 0 where
  adds :
      {chain' : List InodeArray} {k i : ℕ}
      → Adds t chain chain' k i
      → Outcome allocated t chain (added chain' k i)
  no_array :
      allocated ≡ false
      → ((k : ℕ) → k < length chain → (get_or chain k new_array).used ≡ num_inodes_per_entry)
      → Outcome allocated t chain aborted

pub cons-IsValid :
    (a : InodeArray) (c : List InodeArray) → ArrayIsValid a → IsValid c → IsValid (a ∷ c)
unfolding IsValid
cons-IsValid a c v vs zero = v
cons-IsValid a c v vs (suc k) = vs k

tail-IsValid : (a : InodeArray) (c : List InodeArray) → IsValid (a ∷ c) → IsValid c
unfolding IsValid
tail-IsValid a c v k = v (suc k)

here_reads :
    (t i : ℕ) (cur cur' : InodeArray) (rest : List InodeArray)
    → Stores t cur.inodes cur'.inodes i
    → (k' i' : ℕ)
    → inode_at (cur' ∷ rest) k' i' ≡ (if 0 == k' && i == i' then t else inode_at (cur ∷ rest) k' i')
here_reads t i cur cur' rest s zero i' = s.reads i'
here_reads t i cur cur' rest s (suc k') i' = ground arith

later_reads :
    (t k i : ℕ) (cur : InodeArray) (c c' : List InodeArray) (k' i' : ℕ)
    → ((k'' : ℕ) → inode_at c' k'' i' ≡ (if k == k'' && i == i' then t else inode_at c k'' i'))
    → inode_at (cur ∷ c') k' i' ≡ (if suc k == k' && i == i' then t else inode_at (cur ∷ c) k' i')
later_reads t k i cur c c' zero i' h = ground arith
later_reads t k i cur c c' (suc k') i' h = ground (arith, h k')

new_reads : (k i : ℕ) → inode_at (new_array ∷ []) k i ≡ inode_at [] k i
new_reads zero i = refl
new_reads (suc k) i = refl

all_full :
    (cur : InodeArray)
    → cur.used ≡ num_inodes_per_entry
    → (k : ℕ) → k < 1
    → (get_or (cur ∷ []) k new_array).used ≡ num_inodes_per_entry
all_full cur h zero l = h
all_full cur h (suc k) l = absurd (omega arith)

module _ (t : ℕ) (cur : InodeArray) (v : ArrayIsValid cur) where
  Adds-here :
      (cur' : InodeArray) (rest : List InodeArray) (i : ℕ)
      → IsValid (cur ∷ rest)
      → ArrayIsValid cur'
      → Stores t cur.inodes cur'.inodes i
      → Adds t (cur ∷ rest) (cur' ∷ rest) 0 i
  Adds-here cur' rest i vs v' s = record {
    valid = cons-IsValid cur' rest v' (tail-IsValid cur rest vs);
    inside = omega arith;
    slot_inside = omega (arith, s.inside, v.size);
    was_null = s.was_null;
    reads = here_reads t i cur cur' rest s;
  }

  Adds-behind :
      (c c' : List InodeArray) (k i : ℕ) → Adds t c c' k i → Adds t (cur ∷ c) (cur ∷ c') (suc k) i
  Adds-behind c c' k i a = record {
    valid = cons-IsValid cur c' v a.valid;
    inside = omega (arith, a.inside);
    slot_inside = a.slot_inside;
    was_null = a.was_null;
    reads = λ k' i'. later_reads t k i cur c c' k' i' (λ k''. a.reads k'' i');
  }

  Adds-new : (c' : List InodeArray) (k i : ℕ) → Adds t (new_array ∷ []) c' k i → Adds t [] c' k i
  Adds-new c' k i a = record {
    valid = a.valid;
    inside = a.inside;
    slot_inside = a.slot_inside;
    was_null = sym (new_reads k i) ∙ a.was_null;
    reads = λ k' i'. rw (← new_reads k' i') (a.reads k' i');
  }

  behind-Outcome :
      (allocated : Bool) (c : List InodeArray) (r : Added)
      → cur.used ≡ num_inodes_per_entry
      → Outcome allocated t c r
      → Outcome allocated t (cur ∷ c) (behind cur r)
  behind-Outcome allocated c (added c' k i) h (adds a) = adds (Adds-behind c c' k i a)
  behind-Outcome allocated c aborted h (no_array e f) = no_array e (λ k.
      elim k
        as (λ k. k < suc (length c) → (get_or (cur ∷ c) k new_array).used ≡ num_inodes_per_entry) [
          | zero ↦ λ _. h
          | suc k' ↦ λ l. f k' (omega arith)
        ])
  behind-Outcome allocated c out_of_fuel h o = elim o [ ]

  grow-Outcome :
      (r : Added) → Outcome true t (new_array ∷ []) r → Outcome true t (cur ∷ []) (behind cur r)
  grow-Outcome (added c' k i) (adds a) = adds (Adds-behind [] c' k i (Adds-new c' k i a))
  grow-Outcome aborted (no_array e f) = absurd (cc)
  grow-Outcome out_of_fuel o = elim o [ ]

  -- One turn of the loop, with what follows if the array is full.
  turn-Outcome :
      (allocated : Bool) (rest : List InodeArray) (r : Added) (o : Option (InodeArray × ℕ))
      → IsValid (cur ∷ rest)
      → Tried t cur o
      → (cur.used ≡ num_inodes_per_entry → Outcome allocated t (cur ∷ rest) r)
      → Outcome allocated t
          (cur ∷ rest)
          (elim o [ some (cur', i) ↦ added (cur' ∷ rest) 0 i | none ↦ r ])
  turn-Outcome allocated rest r none vs (no_room h) k = k h
  turn-Outcome allocated rest r (some (cur', i)) vs (took v' s) k =
      adds (Adds-here cur' rest i vs v' s)

module _ (t : ℕ) (nonzero : t ≢ 0) where
  add-new_array :
      (fuel : ℕ) → 0 < fuel → Outcome true t (new_array ∷ []) (add fuel true t new_array [])
  unfolding add IsValid
  add-new_array zero h = absurd (omega arith)
  add-new_array (suc fuel) h =
      turn-Outcome t new_array new_array-ArrayIsValid true []
        (behind new_array (add fuel true t new_array [])) _
        (cons-IsValid new_array [] new_array-ArrayIsValid (λ k. new_array-ArrayIsValid))
        (add_single-Tried t nonzero new_array new_array-ArrayIsValid)
        (λ e. absurd (omega (arith, e)))

  -- Adding an inode, not null, to a valid chain of arrays ends, with fuel for one turn more than there are arrays.
  -- The inode stands then at a position that was null, all other positions read as they did and the
  -- chain is valid; or the transaction aborts, which it does only if every array is full and none can
  -- be allocated.
  pub add-Outcome :
      (fuel : ℕ) (allocated : Bool) (cur : InodeArray) (rest : List InodeArray)
      → IsValid (cur ∷ rest)
      → length rest + 1 < fuel
      → Outcome allocated t (cur ∷ rest) (add fuel allocated t cur rest)
  unfolding add IsValid
  add-Outcome zero allocated cur rest v h = absurd (omega arith)
  add-Outcome (suc fuel) allocated cur (next ∷ rest) v h =
      turn-Outcome t cur (v 0) allocated (next ∷ rest) _ _ v (add_single-Tried t nonzero cur (v 0))
        (λ e.
          behind-Outcome t cur (v 0) allocated (next ∷ rest) _ e
            (add-Outcome fuel allocated next rest (λ k. v (suc k)) (omega (arith, h))))
  add-Outcome (suc fuel) true cur [] v h =
      turn-Outcome t cur (v 0) true [] _ _ v (add_single-Tried t nonzero cur (v 0))
        (λ e. grow-Outcome t cur (v 0) _ (add-new_array fuel (omega (arith, h))))
  add-Outcome (suc fuel) false cur [] v h =
      turn-Outcome t cur (v 0) false [] _ _ v (add_single-Tried t nonzero cur (v 0))
        (λ e. no_array refl (all_full cur e))
