-- ===== src/Errno.antt =====
-- The error numbers that the library reports, and what a call of the library returns.
pub data Errno : Type 0 where
  eperm efault einval enomem enoent ebadf enxio enfile : Errno

-- `done n` is the non-negative value n; `fail e` is -1 with `errno` set to e.
pub data Reply {ℓ} (A : Type ℓ) : Type ℓ where
  done : A → Reply A
  fail : Errno → Reply A
