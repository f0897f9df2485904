-- ===== src/FileCalls/Sequences/Fresh.antt =====
-- The pointers to blocks that handles keep (read.c, write.c, data.c, vinode_remove_interval).
use pmemfile.Prelude.{
  ℕ, ◌+◌, ◌*◌, ◌%◌, ◌^◌, ◌≤◌, ◌≡◌, ◌∙◌, true, Option, ◌==◌, ltb, arith, Bool-cases, inl, inr,
}
use pmemfile.FileData.Content.{starts_at}
use pmemfile.FileCalls.{Vinode, Handle, Answer, done, fail, observe, current_pointer, advance}
use pmemfile.FileCalls.Contents.{IsFile}
use pmemfile.FileCalls.Hints.{Known, Known-keep}
use pmemfile.FileCalls.Sequences.{Shared, with_handle}

-- A handle that has seen the last count of removals has NULL or a block of the file as its pointer.
pub record IsFresh (v : Vinode) (h : Handle) : Type 0 where
  pub not_ahead : h.last_block_pointer_invalidation_observed ≤ v.block_pointer_invalidation_counter
  pub valid :
      h.last_block_pointer_invalidation_observed ≡ v.block_pointer_invalidation_counter
      → Known h.block_pointer_cache v.blocks

-- Calls so far bound the sizes, the offsets and the count.
abbrev pub limit : ℕ → ℕ
limit calls = 2 ^ 60 + calls * 2 ^ 31

pub record IsShared (calls : ℕ) (s : Shared) : Type 0 where
  pub file : IsFile s.file
  pub size : s.file.size ≤ limit calls
  pub count : s.file.block_pointer_invalidation_counter ≤ calls
  pub fresh : (i : ℕ) → IsFresh s.file (s.handles i)
  pub offset : (i : ℕ) → (s.handles i).offset ≤ limit calls

pub observe-Known :
    (v : Vinode) (h : Handle) → IsFresh v h → Known (observe v h).block_pointer_cache v.blocks
unfolding observe
observe-Known v h f =
    elim (Bool-cases
      (h.last_block_pointer_invalidation_observed == v.block_pointer_invalidation_counter)) [
        | inl e ↦ rw e (f.valid (ground arith))
        | inr e ↦ rw e tt
      ]

pub current-Known : (v : Vinode) (h : Handle) → IsFresh v h → Known (current_pointer v h) v.blocks
unfolding current_pointer
current-Known v h f =
    elim (Bool-cases
      (h.last_block_pointer_invalidation_observed == v.block_pointer_invalidation_counter)) [
        | inl e ↦ rw e (f.valid (ground arith))
        | inr e ↦ rw e tt
      ]

-- The handle after a call that moves its offset.
pub advance-IsFresh :
    (v v' : Vinode) (h : Handle) (a : Answer) (last : Option ℕ)
    → IsFresh v h
    → v'.block_pointer_invalidation_counter ≡ v.block_pointer_invalidation_counter
    → Known last v'.blocks
    → IsFresh v' (advance (observe v h) a last)
unfolding advance observe
advance-IsFresh v v' h (done n) last f e k =
    elim (Bool-cases
      (h.last_block_pointer_invalidation_observed == v.block_pointer_invalidation_counter)) [
        | inl c ↦ elim (Bool-cases (ltb 0 n)) [
          | inl d ↦ rw (c, d) (record { not_ahead = ground arith; valid = λ q. k })
          | inr d ↦ rw (c, d) (record { not_ahead = ground arith; valid = λ q. tt })
        ]
        | inr c ↦ elim (Bool-cases (ltb 0 n)) [
          | inl d ↦ rw (c, d) (record { not_ahead = ground arith; valid = λ q. k })
          | inr d ↦ rw (c, d) (record { not_ahead = ground arith; valid = λ q. tt })
        ]
      ]
advance-IsFresh v v' h (fail n) last f e k =
    elim (Bool-cases
      (h.last_block_pointer_invalidation_observed == v.block_pointer_invalidation_counter)) [
        | inl c ↦ rw c (record { not_ahead = ground arith; valid = λ q. tt })
        | inr c ↦ rw c (record { not_ahead = ground arith; valid = λ q. tt })
      ]

-- A change of the file that removes no block.
pub IsFresh-keep :
    (v v' : Vinode) (h : Handle)
    → v'.block_pointer_invalidation_counter ≡ v.block_pointer_invalidation_counter
    → ((k : ℕ) → starts_at k v.blocks ≡ true → starts_at k v'.blocks ≡ true)
    → IsFresh v h
    → IsFresh v' h
IsFresh-keep v v' h e s f = record {
  not_ahead = omega (arith, e, f.not_ahead);
  valid = λ q. Known-keep h.block_pointer_cache v.blocks v'.blocks (f.valid (q ∙ e)) s;
}

-- A change that counts a removal leaves no pointer in use.
pub IsFresh-count :
    (calls : ℕ) (v v' : Vinode) (h : Handle)
    → v'.block_pointer_invalidation_counter ≡ (v.block_pointer_invalidation_counter + 1) % 2 ^ 64
    → v.block_pointer_invalidation_counter ≤ calls
    → calls ≤ 2 ^ 28
    → IsFresh v h
    → IsFresh v' h
IsFresh-count calls v v' h e c u f = record {
  not_ahead = omega (arith, e, f.not_ahead);
  valid = λ q. absurd (omega (arith, e, f.not_ahead, q));
}

-- All handles, one of which is changed.
pub with_handle_all :
    (P : Handle → Type 0) (handles : ℕ → Handle) (i : ℕ) (h : Handle)
    → ((j : ℕ) → P (handles j))
    → P h
    → (j : ℕ) → P (with_handle handles i h j)
with_handle_all P handles i h f p j = elim (Bool-cases (j == i)) [
  | inl e ↦ rw e p
  | inr e ↦ rw e (f j)
]
