-- ===== src/Support/Bits.antt =====
-- Laws of the bitwise `and` with the masks that include/vfn/support/align.h builds.
use Prim.Native.Nat.{bit_and, digits, bit_and-bitwise}
use native.Mathlib.Nat.{
  pow-suc, div-add-mod, mod-lt, mod-le, mod-eq_of_lt, add-mul-mod_self_right, zero-mod,
}
use libvfn.Base.{
  ℕ, zero, suc, ◌+◌, ◌-◌, ◌*◌, ◌/◌, ◌%◌, ◌^◌, ◌≤◌, ◌<◌, min, ◌≡◌, refl, sym, ap, ◌∙◌, arith,
}

-- `2 ^ k` is positive.
pub pow_pos : (k : ℕ) → 0 < 2 ^ k
pow_pos zero = omega arith
pow_pos (suc k) = omega (arith, pow-suc 2 k, pow_pos k)

mod-double : (a m : ℕ) → 0 < m → a % (m * 2) ≡ a / 2 % m * 2 + a % 2
mod-double a m h =
    let r : ℕ = a / 2 % m * 2 + a % 2 in
    let whole : a ≡ r + a / 2 / m * (m * 2) = omega (arith, div-add-mod (a / 2) m) in
    let small : r < m * 2 = omega (arith, mod-lt (a / 2) h) in
    ap (λ x. x % (m * 2)) whole ∙ add-mul-mod_self_right r (a / 2 / m) (m * 2) ∙ mod-eq_of_lt small

mod-pow_suc : (a k : ℕ) → a % 2 ^ suc k ≡ a / 2 % 2 ^ k * 2 + a % 2
mod-pow_suc a k = ap (λ x. a % x) (pow-suc 2 k) ∙ mod-double a (2 ^ k) (pow_pos k)

-- The definition behind `bit_and`, a digit for each unit of `fuel`.
abbrev masked : (fuel a mask : ℕ) → ℕ
masked fuel a mask = digits (λ _. zero) min fuel a mask

-- A mask of `k` ones: each digit of it is 1.
ones_half : (k : ℕ) → (2 ^ suc k - 1) / 2 ≡ 2 ^ k - 1
ones_half k = omega (arith, pow-suc 2 k, pow_pos k)

ones_odd : (k : ℕ) → (2 ^ suc k - 1) % 2 ≡ 1
ones_odd k = omega (arith, pow-suc 2 k, pow_pos k)

-- Zero has no digit, with fuel or without.
masked-nil : (fuel mask : ℕ) → masked fuel 0 mask ≡ 0
masked-nil zero mask = refl
masked-nil (suc fuel) mask = refl

masked-ones : (fuel k a : ℕ) → a ≤ fuel → masked fuel a (2 ^ k - 1) ≡ a % 2 ^ k
masked-ones fuel k zero h = masked-nil fuel (2 ^ k - 1) ∙ sym (zero-mod (2 ^ k))
masked-ones zero k (suc a) h = absurd (omega arith)
masked-ones (suc fuel) zero (suc a) h = omega (arith, masked-ones fuel 0 (suc a / 2) (omega arith))
masked-ones (suc fuel) (suc k) (suc a) h = omega (
  arith,
  ap (masked fuel (suc a / 2)) (ones_half k),
  masked-ones fuel k (suc a / 2) (omega arith),
  ones_odd k,
  mod-pow_suc (suc a) k,
)

-- `x & (2 ^ k - 1)` is the remainder.
pub bit_and-low : (k a : ℕ) → bit_and a (2 ^ k - 1) ≡ a % 2 ^ k
bit_and-low k a = bit_and-bitwise a (2 ^ k - 1) ∙ masked-ones a k a (omega arith)

-- A mask of ones from bit `k` up to bit `n`.
upper_half : (n k : ℕ) → (2 ^ suc n - 2 ^ suc k) / 2 ≡ 2 ^ n - 2 ^ k
upper_half n k = omega (arith, pow-suc 2 n, pow-suc 2 k)

upper_even : (n k : ℕ) → (2 ^ suc n - 2 ^ suc k) % 2 ≡ 0
upper_even n k = omega (arith, pow-suc 2 n, pow-suc 2 k)

masked-upper :
    (fuel n k a : ℕ) → a ≤ fuel → k ≤ n → a < 2 ^ n → masked fuel a (2 ^ n - 2 ^ k) ≡ a - a % 2 ^ k
masked-upper fuel n k zero h le lt = omega (arith, masked-nil fuel (2 ^ n - 2 ^ k))
masked-upper zero n k (suc a) h le lt = absurd (omega arith)
masked-upper (suc fuel) n zero (suc a) h le lt =
    omega (arith, masked-ones (suc fuel) n (suc a) h, mod-eq_of_lt lt)
masked-upper (suc fuel) zero (suc k) (suc a) h le lt = absurd (omega arith)
masked-upper (suc fuel) (suc n) (suc k) (suc a) h le lt = omega (
  arith,
  ap (masked fuel (suc a / 2)) (upper_half n k),
  masked-upper fuel n k (suc a / 2) (omega arith) (omega arith) (omega (arith, pow-suc 2 n)),
  upper_even n k,
  mod-pow_suc (suc a) k,
  mod-le (suc a / 2) (2 ^ k),
)

-- `x & ~(2 ^ k - 1)` in a word of `n` bits.
pub bit_and-high : (n k a : ℕ) → k ≤ n → a < 2 ^ n → bit_and a (2 ^ n - 2 ^ k) ≡ a - a % 2 ^ k
bit_and-high n k a le h =
    bit_and-bitwise a (2 ^ n - 2 ^ k) ∙ masked-upper a n k a (omega arith) le h
