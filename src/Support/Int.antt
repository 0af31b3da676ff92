-- ===== src/Support/Int.antt =====
-- The C `int` and its conversions: a 32-bit word read in two's complement.
use libvfn.Base.{ℕ, zero, suc, ◌+◌, ◌-◌, ◌/◌, ◌%◌, ◌^◌, ◌<◌, ◌≡◌, arith, ltb, if◌then◌else◌}
use libvfn.Support.Word.{u64, add64}

-- `negsuc n` is -(n + 1).
pub data ℤ : Type 0 where
  pos : ℕ → ℤ
  negsuc : ℕ → ℤ

abbrev pub pos_part : ℤ → ℕ
pos_part (pos n) = n
pos_part (negsuc n) = 0

-- `(int)x`
unfoldable pub int32 : ℕ → ℤ
int32 x = let w = x % 2 ^ 32 in if ltb w (2 ^ 31) then pos w else negsuc (2 ^ 32 - 1 - w)

-- `x >> k`, which keeps the sign.
unfoldable pub shr_ℤ : ℤ → ℕ → ℤ
shr_ℤ (pos n) k = pos (n / 2 ^ k)
shr_ℤ (negsuc n) k = negsuc (n / 2 ^ k)

-- `x + 1`
unfoldable pub succ_ℤ : ℤ → ℤ
succ_ℤ (pos n) = pos (suc n)
succ_ℤ (negsuc zero) = pos 0
succ_ℤ (negsuc (suc n)) = negsuc n

pub int32_small : (x : ℕ) → x < 2 ^ 31 → int32 x ≡ pos x
unfolding int32
int32_small x h = ground arith

-- `(uint64_t)(int)x`: the sign goes into the upper half.
unfoldable pub sign_extend : ℕ → ℕ
sign_extend x = let w = x % 2 ^ 32 in if ltb w (2 ^ 31) then w else w + (u64 - 2 ^ 32)

-- `p + (int)x`, for a pointer or a 64-bit address.
unfoldable pub offset : ℕ → ℕ → ℕ
unfolding sign_extend
offset p x = add64 p (sign_extend x)

-- An offset that an `int` holds and that stays within the address space.
pub offset_small : (p x : ℕ) → x < 2 ^ 31 → p + x < u64 → offset p x ≡ p + x
unfolding offset sign_extend
offset_small p x h h' = ground arith
