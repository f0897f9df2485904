-- ===== src/FileCalls/Sequences/Writes.antt =====
-- Writing as a step (write.c, pmemfile_writev, pmemfile_pwritev).
use pmemfile.Prelude.{
  ℕ, ◌^◌, ◌≤◌, ◌≡◌, ◌⊎◌, refl, Bool, true, false, ◌&&◌, none, some, List, [], ◌∷◌, if◌then◌else◌,
  arith, Bool-cases, Option-cases, inl, inr,
}
use pmemfile.Prelude.Int.{ℤ}
use pmemfile.Run.{ok, ◌>>=◌}
use pmemfile.FileCalls.{
  Vinode, Handle, Iov, Environment, is_regular, all_bases, iov_check, einval, ebadf, efault,
  observe, current_pointer, pmemfile_pwritev_args_check,
}
use pmemfile.FileCalls.Contents.{gathered, Finds, lengths}
use pmemfile.FileCalls.Write.{writev_checked, pwritev_checked, pmemfile_writev, pmemfile_pwritev}
use pmemfile.FileCalls.Write.Loop.{HasBases, no_more, based}
use pmemfile.FileCalls.Write.Outcome.{pwritev-WriteOutcome}
use pmemfile.FileCalls.Sequences.{writev, pwritev, Shared, make_call, permitted}
use pmemfile.FileCalls.Sequences.Fresh.{IsShared, limit, observe-Known, current-Known}
use pmemfile.FileCalls.Sequences.Step.{
  not_permitted, succeeds, fails, Stepped, stepped, IsShared-later,
}
use pmemfile.FileCalls.Sequences.Outcomes.{
  replaced, same-IsShared, own_handle, nothing_bytes, pwritev-from, writev-from,
}

bases : (iov : List Iov) → all_bases iov ≡ true → HasBases iov
unfolding all_bases
bases [] e = no_more
bases (e ∷ iov) h = elim (Option-cases e.iov_base) [
  | inl b ↦ let t = rw (all_bases, b) at h in absurd (cc)
  | inr (buf, b) ↦ based e buf iov b (bases iov (rw (all_bases, b) at h))
]

check-cases :
    (v : Vinode) (h : Handle) (iov : List Iov)
    → let allowed = is_regular v.kind && h.can_write && all_bases iov in
      ((pmemfile_pwritev_args_check v h (some iov) ≡ none) × (allowed ≡ true))
      ⊎ ((e : ℤ) × (pmemfile_pwritev_args_check v h (some iov) ≡ some e) × (allowed ≡ false))
unfolding pmemfile_pwritev_args_check iov_check
check-cases v h iov = elim (Bool-cases (is_regular v.kind)) [
  | inr a ↦ inr (einval, rw a refl, rw a refl)
  | inl a ↦ elim (Bool-cases h.can_write) [
    | inr b ↦ inr (ebadf, rw (a, b) refl, rw (a, b) refl)
    | inl b ↦ elim (Bool-cases (all_bases iov)) [
      | inr c ↦ inr (efault, rw (a, b, c) refl, rw (a, b, c) refl)
      | inl c ↦ inl (rw (a, b, c) refl, rw (a, b, c) refl)
    ]
  ]
]

all_allowed :
    (v : Vinode) (h : Handle) (iov : List Iov)
    → (is_regular v.kind && h.can_write && all_bases iov) ≡ true
    → all_bases iov ≡ true
all_allowed v h iov p = ground arith

module _ (env : Environment) (calls i : ℕ) (s : Shared) (h : IsShared calls s)
    (c : calls ≤ 2 ^ 28) where
  start_within :
      (append : Bool) (offset : ℕ)
      → offset ≤ limit calls
      → (if append then s.file.size else offset) ≤ limit calls
  start_within true offset l = h.size
  start_within false offset l = l

  writev-checked :
      (iov : List Iov)
      → Finds env
      → HasBases iov
      → lengths iov ≤ 2 ^ 31
      → Stepped env calls i
          (writev iov)
          s
          (writev_checked env iov s.file (s.handles i) >>= replaced i s)
  unfolding writev_checked lengths gathered
  writev-checked [] f b u = stepped _ _ (same-IsShared env calls i s h c) (
      succeeds refl (nothing_bytes env calls i s h c _ [] refl)
        (own_handle env calls i s h c (s.handles i) _ (omega arith)))
  writev-checked (e ∷ es) f b u =
      let g = s.handles i in
      let l = start_within g.append g.offset (h.offset i) in
      let k = observe-Known s.file g (h.fresh i) in
      writev-from env calls i s h c (e ∷ es) _ l u k (
        pwritev-WriteOutcome env g.append g.offset (observe s.file g).block_pointer_cache (e ∷ es)
          s.file f h.file k b u (omega arith))

  pub writev-Stepped :
      (iov : List Iov)
      → Finds env
      → lengths iov ≤ 2 ^ 31
      → Stepped env calls i (writev iov) s (make_call env i (writev iov) s)
  unfolding make_call pmemfile_writev permitted
  writev-Stepped iov f u = elim (check-cases s.file (s.handles i) iov) [
    | inl (e, p) ↦
        rw (e, make_call, pmemfile_writev)
          (writev-checked iov f (bases iov (all_allowed s.file (s.handles i) iov p)) u)
    | inr (n, e, p) ↦
        rw (e, make_call, pmemfile_writev)
          (stepped _ _ (same-IsShared env calls i s h c) (
            fails n (not_permitted p) refl (λ x. refl)
              (own_handle env calls i s h c (s.handles i) _ refl)))
  ]

  pwritev-checked :
      (iov : List Iov) (offset : ℕ)
      → Finds env
      → HasBases iov
      → lengths iov ≤ 2 ^ 31
      → offset ≤ 2 ^ 60
      → Stepped env calls i (pwritev iov offset) s (
          pwritev_checked env iov offset s.file (s.handles i) >>= λ r.
          let t : Shared = record s { file = r.1 } in ok (r.0, t))
  unfolding pwritev_checked lengths gathered
  pwritev-checked [] offset f b u w =
      stepped _ _ (IsShared-later calls s h)
        (succeeds refl (nothing_bytes env calls i s h c _ [] refl) refl)
  pwritev-checked (e ∷ es) offset f b u w =
      let g = s.handles i in
      let l = start_within g.append offset (omega arith) in
      let k = current-Known s.file g (h.fresh i) in
      pwritev-from env calls i s h c (e ∷ es) offset _ l u (
        pwritev-WriteOutcome env g.append offset (current_pointer s.file g) (e ∷ es) s.file f h.file
          k b u (omega arith))

  pub pwritev-Stepped :
      (iov : List Iov) (offset : ℕ)
      → Finds env
      → lengths iov ≤ 2 ^ 31
      → offset ≤ 2 ^ 60
      → Stepped env calls i (pwritev iov offset) s (make_call env i (pwritev iov offset) s)
  unfolding make_call pmemfile_pwritev permitted
  pwritev-Stepped iov offset f u w = elim (check-cases s.file (s.handles i) iov) [
    | inl (e, p) ↦
        rw (e, make_call, pmemfile_pwritev)
          (pwritev-checked iov offset f (bases iov (all_allowed s.file (s.handles i) iov p)) u w)
    | inr (n, e, p) ↦
        rw (e, make_call, pmemfile_pwritev)
          (stepped _ _ (IsShared-later calls s h) (fails n (not_permitted p) refl (λ x. refl) refl))
  ]
