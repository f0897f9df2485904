-- ===== src/Creds/Caps.antt =====
-- The capability calls (creds.c, pmemfile_setcap and pmemfile_clrcap).
use pmemfile.Prelude.{
  ◌≡◌, ◌⊎◌, Bool, true, false, Option, some, arith, ◌==◌, ◌||◌, ◌/◌, if◌then◌else◌, test_bit,
  set_bit, clear_bit, ℕ, Bool-cases, inl, inr,
}
use pmemfile.Errno.{Reply, done, fail, einval}
use pmemfile.Creds.{Cred, setcap, clrcap}

-- The numbers of CAP_CHOWN, CAP_FOWNER and CAP_FSETID.
abbrev pub is_supported : ℕ → Bool
is_supported cap = cap == 0 || cap == 3 || cap == 4

-- The word `caps'` is `caps`, but that the bit `cap`, below 5, is `value`.
pub record Updates (caps cap : ℕ) (value : Bool) (caps' : ℕ) : Type 0 where
  pub bit0 : test_bit caps' 0 ≡ (if cap == 0 then value else test_bit caps 0)
  pub bit1 : test_bit caps' 1 ≡ (if cap == 1 then value else test_bit caps 1)
  pub bit2 : test_bit caps' 2 ≡ (if cap == 2 then value else test_bit caps 2)
  pub bit3 : test_bit caps' 3 ≡ (if cap == 3 then value else test_bit caps 3)
  pub bit4 : test_bit caps' 4 ≡ (if cap == 4 then value else test_bit caps 4)
  pub above : caps' / 32 ≡ caps / 32

set-Updates : (caps cap : ℕ) → is_supported cap ≡ true → Updates caps cap true (set_bit caps cap)
set-Updates caps cap h = ground arith

clear-Updates :
    (caps cap : ℕ) → is_supported cap ≡ true → Updates caps cap false (clear_bit caps cap)
clear-Updates caps cap h = ground arith

-- A call that stores the word `caps`.
abbrev pub stores : Cred → ℕ → Reply ℕ × Option Cred
stores c caps = (done 0, some (record c { caps = caps }))

-- For CAP_CHOWN, CAP_FOWNER and CAP_FSETID, setcap sets the bit of the capability, clrcap clears it, and all
-- other bits and all other fields are as before. For any other number both are EINVAL and change
-- nothing.
pub caps_exact :
    (c : Cred) (k : ℕ)
    → ((is_supported k ≡ true)
        × (on off : ℕ) × (setcap (some c) k ≡ stores c on)
        × (clrcap (some c) k ≡ stores c off)
        × Updates c.caps k true on
        × Updates c.caps k false off)
      ⊎ ((is_supported k ≡ false)
          × (setcap (some c) k ≡ (fail einval, some c))
          × (clrcap (some c) k ≡ (fail einval, some c)))
unfolding setcap clrcap
caps_exact c k = elim (Bool-cases (is_supported k)) [
  | inl e ↦ inl (
    e,
    set_bit c.caps k,
    clear_bit c.caps k,
    ground arith,
    ground arith,
    set-Updates c.caps k e,
    clear-Updates c.caps k e,
  )
  | inr e ↦ inr (e, ground arith, ground arith)
]
