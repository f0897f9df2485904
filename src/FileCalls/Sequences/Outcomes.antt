-- ===== src/FileCalls/Sequences/Outcomes.antt =====
-- The file and the handles after a write (write.c, pmemfile_writev, pmemfile_pwritev).
use pmemfile.Prelude.{
  ℕ, ◌+◌, ◌^◌, ◌≤◌, ◌<◌, ◌≡◌, ◌∙◌, refl, Bool, true, false, Option, none, List, ltb, ◌==◌, arith,
  Bool-cases, inl, inr,
}
use mathlib.Core.Path.{subst}
use pmemfile.Prelude.Int.{ℤ}
use pmemfile.Run.{Run, ok, fault, ◌>>=◌}
use pmemfile.FileData.Content.{starts_at}
use pmemfile.FileCalls.{Vinode, Handle, Iov, Environment, Answer, done, fail, observe, advance}
use pmemfile.FileData.Copy.Writing.{overwritten, nothing_written}
use pmemfile.FileCalls.Contents.{IsFile-tree, gathered, bytes_of, lengths, in_tree}
use pmemfile.FileCalls.Hints.{Known}
use pmemfile.FileCalls.Write.Effect.{Wrote}
use pmemfile.FileCalls.Write.Outcome.{
  Refusal, no_tree, no_block, WriteOutcome, wrote, nothing, refused, write_null,
}
use pmemfile.FileCalls.Sequences.{Request, writev, pwritev, Shared, with_handle, start_of, extended}
use pmemfile.FileCalls.Sequences.Fresh.{
  IsFresh, IsShared, limit, advance-IsFresh, IsFresh-keep, with_handle_all,
}
use pmemfile.FileCalls.Sequences.Step.{
  Excused, tree_missing, out_of_space, succeeds, fails, Stepped, stepped, broken,
}

-- The offset of a handle that moves.
advanced_offset :
    (v : Vinode) (h : Handle) (n : ℕ) (last : Option ℕ)
    → h.offset + n < 2 ^ 64
    → (advance (observe v h) (done n) last).offset ≡ h.offset + n
unfolding advance observe
advanced_offset v h n last u =
    elim (Bool-cases
      (h.last_block_pointer_invalidation_observed == v.block_pointer_invalidation_counter)) [
        | inl c ↦ rw c (ground arith)
        | inr c ↦ rw c (ground arith)
      ]

refused_offset :
    (v : Vinode) (h : Handle) (e : ℤ) (last : Option ℕ)
    → (advance (observe v h) (fail e) last).offset ≡ h.offset
unfolding advance observe
refused_offset v h e last =
    elim (Bool-cases
      (h.last_block_pointer_invalidation_observed == v.block_pointer_invalidation_counter)) [
        | inl c ↦ rw c refl
        | inr c ↦ rw c refl
      ]

Refusal-Excused :
    (env : Environment) (v : Vinode) (h : Handle) (req : Request) (e : ℤ)
    → Refusal env v e
    → Excused env v h req
Refusal-Excused env v h req e (no_tree t r) = tree_missing t r
Refusal-Excused env v h req e (no_block j a) = out_of_space j a

-- What a write leaves of the file and the handles, with the handle that made it replaced.
abbrev pub moved : Handle → Vinode → Answer × Vinode × Option ℕ → Run (Answer × Vinode × Handle)
moved g v r = ok (r.0, r.1, advance (observe v g) r.0 r.2)

abbrev pub replaced : ℕ → Shared → Answer × Vinode × Handle → Run (Answer × Shared)
replaced i s r = ok (r.0, record { file = r.1; handles = with_handle s.handles i r.2 })

abbrev pub dropped : Answer × Vinode × Option ℕ → Run (Answer × Vinode)
dropped r = ok (r.0, r.1)

abbrev pub unmoved : Shared → Answer × Vinode → Run (Answer × Shared)
unmoved s r = ok (r.0, record s { file = r.1 })

module _ (env : Environment) (calls i : ℕ) (s : Shared) (h : IsShared calls s)
    (c : calls ≤ 2 ^ 28) where
  -- A file after a call that removes no block, with the handles as they are then.
  Wrote-IsShared :
      (start : ℕ) (iov : List Iov) (v' : Vinode) (handles : ℕ → Handle)
      → Wrote start iov s.file v'
      → start ≤ limit calls
      → lengths iov ≤ 2 ^ 31
      → ((j : ℕ) → IsFresh v' (handles j))
      → ((j : ℕ) → (handles j).offset ≤ limit (calls + 1))
      → IsShared (calls + 1) (record { file = v'; handles = handles })
  Wrote-IsShared start iov v' handles w l u f o = record {
    file = w.file;
    size = ground (arith, w.size, h.size);
    count = omega (arith, w.counter, h.count);
    fresh = f;
    offset = o;
  }

  tree-IsShared :
      (b : Bool) (handles : ℕ → Handle)
      → ((j : ℕ) → IsFresh s.file (handles j))
      → ((j : ℕ) → (handles j).offset ≤ limit (calls + 1))
      → IsShared (calls + 1) (record { file = record s.file { has_tree = b }; handles = handles })
  tree-IsShared b handles f o = record {
    file = IsFile-tree b s.file h.file;
    size = omega (arith, h.size);
    count = omega (arith, h.count);
    fresh = λ j. record { not_ahead = (f j).not_ahead; valid = (f j).valid };
    offset = o;
  }

  size_extended :
      (start : ℕ) (iov : List Iov) (v' : Vinode)
      → 0 < lengths iov
      → Wrote start iov s.file v'
      → v'.size ≡ extended start (lengths iov) s.file.size
  size_extended start iov v' l w =
      let more : ltb 0 (lengths iov) ≡ true = ground arith in rw more w.size

  pub nothing_bytes :
      (start : ℕ) (iov : List Iov)
      → lengths iov ≡ 0
      → (x : ℕ)
      → bytes_of s.file x ≡ overwritten start (lengths iov) (gathered iov) 0 (bytes_of s.file) x
  nothing_bytes start iov z x =
      nothing_written start (lengths iov) 0 x (gathered iov) (bytes_of s.file) z

  pub later : (j : ℕ) → (s.handles j).offset ≤ limit (calls + 1)
  later j = omega (arith, h.offset j)

  pub pwritev-from :
      (iov : List Iov) (offset : ℕ) (m : Run (Answer × Vinode × Option ℕ))
      → let start = start_of (s.handles i) offset s.file.size in
        start ≤ limit calls
        → lengths iov ≤ 2 ^ 31
        → WriteOutcome env start iov s.file m
        → Stepped env calls i (pwritev iov offset) s (m >>= dropped >>= unmoved s)
  pwritev-from iov offset (ok _) l u (wrote v' last n w k) =
      stepped _ _
        (Wrote-IsShared _ iov v' s.handles w l u
          (λ j. IsFresh-keep s.file v' (s.handles j) w.counter w.starts (h.fresh j)) later)
        (succeeds (size_extended _ iov v' n w) w.bytes refl)
  pwritev-from iov offset (ok _) l u (nothing last z) =
      subst
        (λ n.
          Stepped env calls i (pwritev iov offset) s
            (ok (done n, record s { file = record s.file { has_tree = true } })))
        z
        (stepped _ _ (tree-IsShared true s.handles h.fresh later)
          (succeeds (rw z refl) (nothing_bytes _ iov z) refl))
  pwritev-from iov offset (ok _) l u (refused e last r) =
      stepped _ _ (tree-IsShared false s.handles h.fresh later)
        (fails e (Refusal-Excused env s.file (s.handles i) _ e r) refl (λ x. refl) refl)
  pwritev-from iov offset (fault _) l u (write_null n) = broken (in_tree n)

  -- The handles after a call by one of them that moves it.
  moved_fresh :
      (v' : Vinode) (a : Answer) (last : Option ℕ)
      → v'.block_pointer_invalidation_counter ≡ s.file.block_pointer_invalidation_counter
      → ((k : ℕ) → starts_at k s.file.blocks ≡ true → starts_at k v'.blocks ≡ true)
      → Known last v'.blocks
      → (j : ℕ)
      → IsFresh v' (with_handle s.handles i (advance (observe s.file (s.handles i)) a last) j)
  moved_fresh v' a last e t k =
      with_handle_all (IsFresh v') s.handles i _
        (λ j. IsFresh-keep s.file v' (s.handles j) e t (h.fresh j))
        (advance-IsFresh s.file v' (s.handles i) a last (h.fresh i) e k)

  moved_offset :
      (a : Answer) (last : Option ℕ) (n : ℕ)
      → n ≤ 2 ^ 31
      → (advance (observe s.file (s.handles i)) a last).offset ≡ (s.handles i).offset + n
      → (j : ℕ)
      → (with_handle s.handles i (advance (observe s.file (s.handles i)) a last) j).offset
        ≤ limit (calls + 1)
  moved_offset a last n u e =
      with_handle_all (λ g. g.offset ≤ limit (calls + 1)) s.handles i _ later
        (omega (arith, e, h.offset i))

  pub own_handle : (g : Handle) (n : ℕ) → g.offset ≡ n → (with_handle s.handles i g i).offset ≡ n
  own_handle g n e = let same : (i == i) ≡ true = ground arith in rw same e

  pub writev-from :
      (iov : List Iov) (m : Run (Answer × Vinode × Option ℕ))
      → let start = start_of (s.handles i) (s.handles i).offset s.file.size in
        start ≤ limit calls
        → lengths iov ≤ 2 ^ 31
        → Known (observe s.file (s.handles i)).block_pointer_cache s.file.blocks
        → WriteOutcome env start iov s.file m
        → Stepped env calls i (writev iov) s (m >>= moved (s.handles i) s.file >>= replaced i s)
  unfolding advance
  writev-from iov (ok _) l u k0 (wrote v' last n w k) =
      let e = advanced_offset s.file (s.handles i) (lengths iov) last (omega (arith, h.offset i)) in
      stepped _ _
        (Wrote-IsShared _ iov v' _ w l u
          (moved_fresh v' (done (lengths iov)) last w.counter w.starts k)
          (moved_offset (done (lengths iov)) last (lengths iov) u e))
        (succeeds (size_extended _ iov v' n w) w.bytes (own_handle _ _ e))
  writev-from iov (ok _) l u k0 (nothing last z) =
      let e = advanced_offset s.file (s.handles i) 0 last (omega (arith, h.offset i)) in
      let g = advance (observe s.file (s.handles i)) (done 0) last in
      let t : Shared = record {
        file = record s.file { has_tree = true };
        handles = with_handle s.handles i g;
      } in
      let none_more : (s.handles i).offset + 0 ≡ (s.handles i).offset + lengths iov =
        omega (arith, z) in
      subst (λ n. Stepped env calls i (writev iov) s (ok (done n, t))) z
        (stepped _ t
          (tree-IsShared true _ (moved_fresh s.file (done 0) none refl (λ k q. q) tt)
            (moved_offset (done 0) last 0 (omega arith) e))
          (succeeds (rw z refl) (nothing_bytes _ iov z) (own_handle g _ (e ∙ none_more))))
  writev-from iov (ok _) l u k0 (refused e last r) =
      let o = refused_offset s.file (s.handles i) e last in
      stepped _ _
        (tree-IsShared false _ (moved_fresh s.file (fail e) none refl (λ k q. q) tt)
          (moved_offset (fail e) last 0 (omega arith) (o ∙ omega arith)))
        (fails e (Refusal-Excused env s.file (s.handles i) _ e r) refl (λ x. refl)
          (own_handle _ _ o))
  writev-from iov (fault _) l u k0 (write_null n) = broken (in_tree n)

  -- A call that changes nothing, and puts the handle back as it was.
  pub same-IsShared :
      IsShared
        (calls + 1)
        (record { file = s.file; handles = with_handle s.handles i (s.handles i) })
  same-IsShared = record {
    file = h.file;
    size = omega (arith, h.size);
    count = omega (arith, h.count);
    fresh = with_handle_all (IsFresh s.file) s.handles i (s.handles i) h.fresh (h.fresh i);
    offset =
        with_handle_all (λ g. g.offset ≤ limit (calls + 1)) s.handles i (s.handles i) later
          (later i);
  }
