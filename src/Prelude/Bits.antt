-- ===== src/Prelude/Bits.antt =====
-- The bits of a machine word: `x & (1 << k)`, `x |= 1 << k` and `x &= ~(1 << k)`.
use Prim.Native.Nat.{ℕ, zero, suc, ◌+◌, ◌-◌, ◌/◌, ◌%◌, ◌^◌, ◌<◌}
use mathlib.Core.Path.{◌≡◌}
use mathlib.Core.Bool.{Bool, true, false}
use native.Mathlib.Omega.{arith}
use pmemfile.Prelude.Tests.{◌==◌, if◌then◌else◌}

abbrev pub test_bit : ℕ → ℕ → Bool
test_bit x k = x / 2 ^ k % 2 == 1

abbrev pub set_bit : ℕ → ℕ → ℕ
set_bit x k = if test_bit x k then x else x + 2 ^ k

abbrev pub clear_bit : ℕ → ℕ → ℕ
clear_bit x k = if test_bit x k then x - 2 ^ k else x

-- A test of every number of a finite range.
unfoldable pub every_below : (ℕ → Bool) → ℕ → Bool
every_below test zero = true
every_below test (suc n) = if test n then every_below test n else false

pub every_below_lem :
    (test : ℕ → Bool) {n x : ℕ} → x < n → every_below test n ≡ true → test x ≡ true
unfolding every_below
every_below_lem test {n = zero} lt h = absurd (omega arith)
every_below_lem test {n = suc n} {x} lt h = ground (arith, every_below_lem test {n = n} {x = x})
