-- ===== src/Lseek/Offsets.antt =====
-- SEEK_SET, SEEK_CUR and SEEK_END on a regular file (lseek.c): the sums of 64 bits.
use pmemfile.Prelude.{
  ℕ, suc, ◌+◌, ◌-◌, ◌≤◌, ◌%◌, ◌^◌, ◌≡◌, refl, ap, true, false, Option, none, some, List, ltb, leb,
  if◌then◌else◌, arith, Bool-cases, inl, inr,
}
use pmemfile.Prelude.Int.{ℤ, pos, negsuc}
use pmemfile.Run.{ok}
use pmemfile.Errno.{Reply, done, fail, einval}
use pmemfile.Lseek.{
  Block, File, Sought, found, move_to, plus, int64_max, add_off, lseek, seek_set, seek_cur,
  seek_end,
}
use pmemfile.Lseek.Search.{file_at}

-- What a pmemfile_off_t can hold.
abbrev pub IsInt64 : ℤ → Type 0
IsInt64 (pos n) = n ≤ int64_max
IsInt64 (negsuc n) = n ≤ int64_max

abbrev bounded : ℤ → ℤ
bounded (pos n) = if leb n int64_max then pos n else negsuc 0
bounded (negsuc n) = negsuc 0

add_off-bounded :
    (cur : ℕ) (off : ℤ)
    → cur ≤ int64_max
    → IsInt64 off
    → add_off cur off ≡ ok (bounded (plus cur off))
unfolding add_off
add_off-bounded cur (pos n) h l =
    let low : leb cur int64_max ≡ true = ground arith in
    let sum : (cur + n % 2 ^ 64) % 2 ^ 64 ≡ cur + n = omega arith in
    rw (low, sum)
      (elim (Bool-cases (leb (cur + n) int64_max)) [
        | inl e ↦ let e' : ltb int64_max (cur + n) ≡ false = ground arith in rw (e, e') refl
        | inr e ↦ let e' : ltb int64_max (cur + n) ≡ true = ground arith in rw (e, e') refl
      ])
add_off-bounded cur (negsuc n) h l =
    let low : leb cur int64_max ≡ true = ground arith in
    elim (Bool-cases (ltb n cur)) [
      | inl e ↦
          let sum : (cur + (2 ^ 64 - 1 - n % 2 ^ 64)) % 2 ^ 64 ≡ cur - suc n = ground arith in
          let small : leb (cur - suc n) int64_max ≡ true = ground arith in
          let small' : ltb int64_max (cur - suc n) ≡ false = ground arith in
          rw (low, sum, e, small, small') refl
      | inr e ↦
          let large : ltb int64_max ((cur + (2 ^ 64 - 1 - n % 2 ^ 64)) % 2 ^ 64) ≡ true =
            ground arith in
          rw (low, large, e) refl
    ]

-- The sum is the new offset if it is one that a pmemfile_off_t can hold and not negative.
abbrev pub arrive : List Block → ℕ → ℕ → ℤ → Reply ℕ × Option File
arrive blocks size p (pos n) =
    if leb n int64_max
    then (done n, some (file_at blocks size n))
    else (fail einval, some (file_at blocks size p))
arrive blocks size p (negsuc n) = (fail einval, some (file_at blocks size p))

module _ (find_closest_block : ℕ → List Block) (blocks : List Block) (size p : ℕ) where
  abbrev settle : Sought → Reply ℕ × Option File
  settle r = let (a, f) = move_to (file_at blocks size p) r in (a, some f)

  settle-bounded : (z : ℤ) → settle (found (bounded z)) ≡ arrive blocks size p z
  unfolding move_to
  settle-bounded (pos n) = elim (Bool-cases (leb n int64_max)) [
    | inl e ↦ rw e refl
    | inr e ↦ rw e refl
  ]
  settle-bounded (negsuc n) = refl

  settle-plus_zero :
      (off : ℤ) → IsInt64 off → settle (found off) ≡ arrive blocks size p (plus 0 off)
  unfolding move_to
  settle-plus_zero (pos n) h =
      let small : leb (0 + n) int64_max ≡ true = ground arith in
      let e : 0 + n ≡ n = omega arith in rw (small, e) refl
  settle-plus_zero (negsuc n) h = let e : ltb n 0 ≡ false = ground arith in rw e refl

  -- On a regular file, with offsets of 64 bits and no larger size, SEEK_SET, SEEK_CUR and SEEK_END go
  -- to the sum of the given offset and 0, the old offset or the size, which they return, unless the
  -- sum is negative or over INT64_MAX: that is EINVAL and the offset stays, though the code adds by
  -- wrapping.
  pub lseek-arrive :
      (off : ℤ)
      → p ≤ int64_max
      → size ≤ int64_max
      → IsInt64 off
      → (lseek find_closest_block true none (some (file_at blocks size p)) off seek_set
          ≡ ok (arrive blocks size p (plus 0 off)))
        × (lseek find_closest_block true none (some (file_at blocks size p)) off seek_cur
            ≡ ok (arrive blocks size p (plus p off)))
        × (lseek find_closest_block true none (some (file_at blocks size p)) off seek_end
            ≡ ok (arrive blocks size p (plus size off)))
  unfolding lseek
  lseek-arrive off hp hs h = (
    ap ok (settle-plus_zero off h),
    rw (add_off-bounded p off hp h) (ap ok (settle-bounded (plus p off))),
    rw (add_off-bounded size off hs h) (ap ok (settle-bounded (plus size off))),
  )
