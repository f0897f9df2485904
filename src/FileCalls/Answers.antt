-- ===== src/FileCalls/Answers.antt =====
-- What a call returns, and the error numbers that the calls on files set (src/include/libpmemfile-posix.h).
use pmemfile.Prelude.{ℕ}
use pmemfile.Prelude.Int.{ℤ, pos}

-- `done n` is the value n; `fail e` is -1 with `errno` set to e.
pub data Answer : Type 0 where
  done : ℕ → Answer
  fail : ℤ → Answer

abbrev pub eperm : ℤ
eperm = pos 1

abbrev pub ebadf : ℤ
ebadf = pos 9

abbrev pub enomem : ℕ
enomem = 12

abbrev pub efault : ℤ
efault = pos 14

abbrev pub eisdir : ℤ
eisdir = pos 21

abbrev pub einval : ℤ
einval = pos 22

abbrev pub efbig : ℤ
efbig = pos 27

abbrev pub enospc : ℤ
enospc = pos 28

abbrev pub eopnotsupp : ℤ
eopnotsupp = pos 95
