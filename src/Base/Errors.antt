-- ===== src/Base/Errors.antt =====
-- The errno values that the library sets, and the outcome of a call that returns 0 or -1.
pub data Errno : Type 0 where
  einval efault ebusy enomem eexist enoent enodev eagain etimedout eio eopnotsupp emfile : Errno

-- `ok v` is a return of `v` (0 where it is `tt`), `err e` a return of -1 (or NULL) with errno `e`.
pub data Result {ℓ} (A : Type ℓ) : Type ℓ where
  ok : A → Result A
  err : Errno → Result A
