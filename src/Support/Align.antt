-- ===== src/Support/Align.antt =====
-- include/vfn/support/align.h, at 64-bit operands.
use Prim.Native.Nat.{bit_and}
use native.Mathlib.Nat.{
  mod-lt, pow-le-pow_right, pow-suc, div-add-mod', add-mul-mod_self_right, zero-mod,
  mul-le-mul_right, div-lt_iff_lt-mul,
}
use libvfn.Base.{
  ℕ, suc, ◌+◌, ◌-◌, ◌*◌, ◌/◌, ◌%◌, ◌^◌, ◌≤◌, ◌<◌, ◌≡◌, Bool, arith, ltb, ◌==◌, if◌then◌else◌,
}
use libvfn.Support.Word.{u64, add64, sub64, not64}
use libvfn.Support.Bits.{bit_and-low, bit_and-high, pow_pos}

-- (((x) + (a) - 1) & ~((a) - 1))
unfoldable pub align_up : ℕ → ℕ → ℕ
align_up x a = bit_and (sub64 (add64 x a) 1) (not64 (sub64 a 1))

-- ((x) & ~((a) - 1))
unfoldable pub align_down : ℕ → ℕ → ℕ
align_down x a = bit_and x (not64 (sub64 a 1))

-- (((x) & ((typeof(x))(a) - 1)) == 0)
unfoldable pub aligned : ℕ → ℕ → Bool
aligned x a = bit_and x (sub64 a 1) == 0

-- ((x) / (m) * (m))
unfoldable pub round_down : ℕ → ℕ → ℕ
round_down x m = x / m * m

unfoldable pub round_up : ℕ → ℕ → ℕ
unfolding round_down
round_up x m = round_down (sub64 (add64 x m) 1) m

unfoldable pub round : ℕ → ℕ → ℕ
unfolding round_up round_down
round x m =
    let ceil = round_up x m in
    let floor = round_down x m in if ltb (sub64 x floor) (sub64 ceil x) then floor else ceil

pub pow-le-u64 : (k : ℕ) → k < 64 → 2 ^ k * 2 ≤ u64
pow-le-u64 k h =
    omega (
      arith,
      pow-le-pow_right {n = 2} (omega arith) {i = suc k} {j = 64} (omega arith),
      pow-suc 2 k,
    )

pow-lt-u64 : (k : ℕ) → k < 64 → (0 < 2 ^ k) × (2 ^ k < u64)
pow-lt-u64 k h = (pow_pos k, omega (arith, pow-le-u64 k h, pow_pos k))

-- The masks of the three macros, for an alignment of `2 ^ k`.
low_mask : (k : ℕ) → k < 64 → sub64 (2 ^ k) 1 ≡ 2 ^ k - 1
low_mask k h = omega (arith, pow-lt-u64 k h)

high_mask : (k : ℕ) → k < 64 → not64 (sub64 (2 ^ k) 1) ≡ 2 ^ 64 - 2 ^ k
high_mask k h = omega (arith, pow-lt-u64 k h, low_mask k h)

-- At a power of two the mask of `ALIGNED` leaves the remainder.
pub aligned_lem : (x k : ℕ) → k < 64 → aligned x (2 ^ k) ≡ (x % 2 ^ k == 0)
unfolding aligned
aligned_lem x k h = rw (low_mask k h, bit_and-low k x)

sub-mod : (y m : ℕ) → y - y % m ≡ y / m * m
sub-mod y m = omega (arith, div-add-mod' y m)

pub align_down_lem : (x k : ℕ) → k < 64 → x < u64 → align_down x (2 ^ k) ≡ x / 2 ^ k * 2 ^ k
unfolding align_down
align_down_lem x k h hx =
    rw (high_mask k h, bit_and-high 64 k x (omega arith) hx) (sub-mod x (2 ^ k))

-- Where the sum does not wrap, `ALIGN_UP` rounds up to the next multiple.
pub align_up_lem :
    (x k : ℕ) → k < 64 → x + 2 ^ k ≤ u64 → align_up x (2 ^ k) ≡ (x + 2 ^ k - 1) / 2 ^ k * 2 ^ k
unfolding align_up
align_up_lem x k h hx =
    rw
      (
        sum,
        high_mask k h,
        bit_and-high 64 k (x + 2 ^ k - 1) (omega arith) (omega (arith, pow_pos k)),
      )
      (sub-mod (x + 2 ^ k - 1) (2 ^ k))
  where
    sum : sub64 (add64 x (2 ^ k)) 1 ≡ x + 2 ^ k - 1
    sum = omega (arith, pow-lt-u64 k h)

pub mul-mod : (q m : ℕ) → q * m % m ≡ 0
mul-mod q m = grind (arith, add-mul-mod_self_right 0 q m, zero-mod m)

div_least : (y q m : ℕ) → 0 < m → y < suc q * m → y / m ≤ q
div_least y q m h lt = omega (arith, (div-lt_iff_lt-mul h).1 lt)

-- `ALIGN_UP` to a power of two, of a value that leaves room for it: the result is a multiple of
-- the alignment, is at least the value, and is at most every other multiple that is.
pub align_up_least :
    (x k : ℕ)
    → k < 64
    → x + 2 ^ k ≤ u64
    → (align_up x (2 ^ k) % 2 ^ k ≡ 0)
      × (x ≤ align_up x (2 ^ k))
      × ((m : ℕ) → x ≤ m * 2 ^ k → align_up x (2 ^ k) ≤ m * 2 ^ k)
align_up_least x k h hx = rw (align_up_lem x k h hx) (
  mul-mod ((x + 2 ^ k - 1) / 2 ^ k) (2 ^ k),
  omega (arith, div-add-mod' (x + 2 ^ k - 1) (2 ^ k), mod-lt (x + 2 ^ k - 1) (pow_pos k)),
  λ m hm.
      mul-le-mul_right (2 ^ k)
        (div_least (x + 2 ^ k - 1) m (2 ^ k) (pow_pos k) (omega (arith, pow_pos k))),
)

pub align_up-le : (x k : ℕ) → k < 64 → x + 2 ^ k ≤ u64 → align_up x (2 ^ k) ≤ x + 2 ^ k
align_up-le x k h hx =
    rw (align_up_lem x k h hx) (omega (arith, div-add-mod' (x + 2 ^ k - 1) (2 ^ k)))
