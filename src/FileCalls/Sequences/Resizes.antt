-- ===== src/FileCalls/Sequences/Resizes.antt =====
-- Changing the size and the space as a step (truncate.c, pmemfile_ftruncate; fallocate.c, pmemfile_fallocate).
use pmemfile.Prelude.{
  ℕ, ◌+◌, ◌%◌, ◌^◌, ◌≤◌, ◌≡◌, refl, Bool, true, false, ◌&&◌, Option, arith, Bool-cases,
  Option-cases, inl, inr,
}
use pmemfile.Prelude.Int.{ℤ, pos}
use pmemfile.Run.{Run, ok, ◌>>=◌}
use pmemfile.Lseek.{Kind, regular_file, directory, symlink, other}
use pmemfile.FileCalls.{Vinode, Environment, Answer, fail, ebadf, einval, is_regular, is_directory}
use pmemfile.FileCalls.Contents.{IsFile, IsFile-tree, Finds}
use pmemfile.FileCalls.Resize.{
  answer_of, count_removal, pmemfile_ftruncate, fallocate_check_arguments, pmemfile_fallocate,
}
use pmemfile.FileCalls.Resize.Truncate.{
  TruncateOutcome, truncated, no_tree, no_block, not_put_back, truncate_null,
  truncate-TruncateOutcome,
}
use pmemfile.FileCalls.Resize.Fallocate.{
  FallocateOutcome, punched_hole, reserved, tree_failed, block_failed, punch_failed, fallocate_null,
  fallocate-FallocateOutcome, fallocate_irregular,
}
use pmemfile.FileCalls.Sequences.{Request, ftruncate, fallocate, Shared, make_call, permitted}
use pmemfile.FileCalls.Sequences.Fresh.{IsShared, limit, IsFresh-keep, IsFresh-count}
use pmemfile.FileCalls.Sequences.Step.{
  not_permitted, tree_missing, out_of_space, not_put_again, succeeds, fails, Stepped, stepped,
  broken, IsShared-later,
}

abbrev changed : Shared → Answer × Vinode → Run (Answer × Shared)
changed s r = ok (r.0, record s { file = r.1 })

abbrev answered : Option ℤ × Vinode → Run (Answer × Vinode)
answered r = ok (answer_of r.0, r.1)

-- A regular file is no directory.
regular_only : (k : Kind) → is_regular k ≡ true → is_directory k ≡ false
regular_only regular_file e = refl
regular_only directory e = absurd (cc)
regular_only symlink e = refl
regular_only other e = refl

module _ (env : Environment) (calls i : ℕ) (s : Shared) (h : IsShared calls s)
    (c : calls ≤ 2 ^ 28) where
  dropped-IsShared :
      (b : Bool) → IsShared (calls + 1) (record s { file = record s.file { has_tree = b } })
  dropped-IsShared b = record {
    file = IsFile-tree b s.file h.file;
    size = omega (arith, h.size);
    count = omega (arith, h.count);
    fresh = λ j. record { not_ahead = (h.fresh j).not_ahead; valid = (h.fresh j).valid };
    offset = λ j. omega (arith, h.offset j);
  }

  -- A file whose count has gone up by one.
  counted-IsShared :
      (v' : Vinode)
      → IsFile v'
      → v'.size ≤ limit (calls + 1)
      → v'.block_pointer_invalidation_counter
        ≡ (s.file.block_pointer_invalidation_counter + 1) % 2 ^ 64
      → IsShared (calls + 1) (record s { file = v' })
  counted-IsShared v' f z e = record {
    file = f;
    size = z;
    count = omega (arith, e, h.count);
    fresh = λ j. IsFresh-count calls s.file v' (s.handles j) e h.count c (h.fresh j);
    offset = λ j. omega (arith, h.offset j);
  }

  -- The file after a removal that has been aborted.
  aborted-IsShared :
      IsShared (calls + 1) (record s { file = record (count_removal s.file) { has_tree = false } })
  aborted-IsShared =
      counted-IsShared (record (count_removal s.file) { has_tree = false })
        (record { paged = h.file.paged; counted = h.file.counted; beyond = h.file.beyond })
        (omega (arith, h.size)) refl

  truncate-from :
      (length : ℕ) (m : Run (Option ℤ × Vinode))
      → length ≤ 2 ^ 31
      → TruncateOutcome env length s.file m
      → Stepped env calls i (ftruncate length) s (m >>= answered >>= changed s)
  truncate-from length _ u (truncated v' t) =
      stepped _ _ (counted-IsShared v' t.file (omega (arith, t.new_size)) t.counter)
        (succeeds t.new_size t.bytes refl)
  truncate-from length _ u (no_tree t r) =
      stepped _ _ (dropped-IsShared false) (fails _ (tree_missing t r) refl (λ x. refl) refl)
  truncate-from length _ u (no_block j a l) =
      stepped _ _ aborted-IsShared (fails _ (out_of_space j a) refl (λ x. refl) refl)
  truncate-from length _ u (not_put_back j a) =
      stepped _ _ aborted-IsShared (fails _ (not_put_again j a) refl (λ x. refl) refl)
  truncate-from length _ u (truncate_null n) = broken n

  not_allowed :
      (req : Request) (e : ℤ)
      → permitted s.file (s.handles i) req ≡ false
      → Stepped env calls i req s (ok (fail e, s))
  not_allowed req e p =
      stepped _ _ (IsShared-later calls s h) (fails e (not_permitted p) refl (λ x. refl) refl)

  pub ftruncate-Stepped :
      (length : ℕ)
      → Finds env
      → length ≤ 2 ^ 31
      → Stepped env calls i (ftruncate length) s (make_call env i (ftruncate length) s)
  unfolding make_call pmemfile_ftruncate permitted
  ftruncate-Stepped length f u =
      let g = s.handles i in
      elim (Bool-cases (is_directory s.file.kind)) [
        | inl d ↦
            rw (d, make_call, pmemfile_ftruncate)
              (not_allowed (ftruncate length) einval (ground (arith, regular_only s.file.kind)))
        | inr d ↦ elim (Bool-cases g.path_only) [
          | inl p ↦
              rw (d, p, make_call, pmemfile_ftruncate)
                (not_allowed (ftruncate length) ebadf (ground arith))
          | inr p ↦ elim (Bool-cases g.can_write) [
            | inr w ↦
                rw (d, p, w, make_call, pmemfile_ftruncate)
                  (not_allowed (ftruncate length) einval (ground arith))
            | inl w ↦ elim (Bool-cases (is_regular s.file.kind)) [
              | inr r ↦
                  rw (d, p, w, r, make_call, pmemfile_ftruncate)
                    (not_allowed (ftruncate length) einval (ground arith))
              | inl r ↦
                  rw (d, p, w, r, make_call, pmemfile_ftruncate)
                    (truncate-from length _ u (
                      truncate-TruncateOutcome env length s.file f h.file (omega arith)
                        (omega arith) (omega (arith, h.size))))
            ]
          ]
        ]
      ]

  fallocate-from :
      (mode offset length : ℕ) (m : Run (Option ℤ × Vinode))
      → length ≤ 2 ^ 30
      → offset ≤ 2 ^ 60
      → FallocateOutcome env mode offset length s.file m
      → Stepped env calls i (fallocate mode offset length) s (m >>= answered >>= changed s)
  fallocate-from mode offset length _ u w (punched_hole v' p t) =
      stepped _ _ (counted-IsShared v' t.file (omega (arith, t.same_size, h.size)) t.counter)
        (succeeds (rw p t.same_size) (rw p t.bytes) refl)
  fallocate-from mode offset length _ u w (reserved v' p t) =
      stepped _ _
        (record {
          file = t.file;
          size = ground (arith, t.new_size, h.size);
          count = omega (arith, t.counter, h.count);
          fresh = λ j. IsFresh-keep s.file v' (s.handles j) t.counter t.starts (h.fresh j);
          offset = λ j. omega (arith, h.offset j);
        })
        (succeeds (rw p t.new_size) (rw p t.bytes) refl)
  fallocate-from mode offset length _ u w (tree_failed t r) =
      stepped _ _ (dropped-IsShared false) (fails _ (tree_missing t r) refl (λ x. refl) refl)
  fallocate-from mode offset length _ u w (block_failed j p a) =
      stepped _ _ (dropped-IsShared false) (fails _ (out_of_space j a) refl (λ x. refl) refl)
  fallocate-from mode offset length _ u w (punch_failed j p a) =
      stepped _ _ aborted-IsShared (fails _ (not_put_again j a) refl (λ x. refl) refl)
  fallocate-from mode offset length _ u w (fallocate_null n) = broken n

  pub fallocate-Stepped :
      (mode offset length : ℕ)
      → Finds env
      → length ≤ 2 ^ 30
      → offset ≤ 2 ^ 60
      → Stepped env calls i
          (fallocate mode offset length)
          s
          (make_call env i (fallocate mode offset length) s)
  unfolding make_call pmemfile_fallocate permitted
  fallocate-Stepped mode offset length f u w =
      let g = s.handles i in
      elim (Option-cases (fallocate_check_arguments mode (pos offset) (pos length))) [
        | inr (e, q) ↦
            rw (q, make_call, pmemfile_fallocate)
              (not_allowed (fallocate mode offset length) e
                (rw (q, permitted) (and_false (is_regular s.file.kind) g.can_write)))
        | inl q ↦ elim (Bool-cases g.can_write) [
          | inr d ↦
              rw (q, d, make_call, pmemfile_fallocate)
                (not_allowed (fallocate mode offset length) ebadf (ground arith))
          | inl d ↦
              rw (q, d, make_call, pmemfile_fallocate)
                (elim (Bool-cases (is_regular s.file.kind)) [
                  | inr r ↦
                      rw (fallocate_irregular env mode offset length s.file r)
                        (not_allowed (fallocate mode offset length) ebadf (rw (r, permitted) refl))
                  | inl r ↦ fallocate-from mode offset length _ u w (
                      fallocate-FallocateOutcome env mode offset length s.file f h.file r q u
                        (omega arith))
                ])
        ]
      ]
    where
      and_false : (a b : Bool) → (a && b && false) ≡ false
      and_false a b = ground arith
