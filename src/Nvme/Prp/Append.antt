-- ===== src/Nvme/Prp/Append.antt =====
-- The number of PRP entries of a segment behind the first, `__map_prp_append` of src/nvme/util.c.
use native.Mathlib.Nat.{div-add-mod, le-div_iff_mul-le, mul-le-mul_right}
use libvfn.Base.{ℕ, ◌*◌, ◌/◌, ◌%◌, ◌^◌, ◌≤◌, ◌<◌, ◌≡◌, ◌≢◌, max, ap, arith}
use libvfn.Support.Bits.{pow_pos}
use libvfn.Support.Int.{pos_part, shr_ℤ, int32_small}
use libvfn.Nvme.Prp.{append_count}

append_count_small : (len s : ℕ) → len < 2 ^ 31 → append_count len s ≡ max 1 (len / 2 ^ s)
unfolding append_count shr_ℤ
append_count_small len s h = ap (λ i. max 1 (pos_part (shr_ℤ i s))) (int32_small len h)

one : (len s : ℕ) → len ≤ 2 ^ s → len ≤ max 1 (len / 2 ^ s) * 2 ^ s
one len s h =
    let at_least : 1 ≤ max 1 (len / 2 ^ s) = omega arith in
    omega (arith, mul-le-mul_right (2 ^ s) at_least)

large : (len s : ℕ) → 2 ^ s < len → max 1 (len / 2 ^ s) ≡ len / 2 ^ s
large len s h =
    let at_least : 1 ≤ len / 2 ^ s = (le-div_iff_mul-le (pow_pos s)).1 (omega arith) in omega arith

whole : (len s : ℕ) → 2 ^ s < len → len % 2 ^ s ≡ 0 → max 1 (len / 2 ^ s) * 2 ^ s ≡ len
whole len s h e = rw (large len s h) (omega (arith, div-add-mod len (2 ^ s)))

cut : (len s : ℕ) → 2 ^ s < len → len % 2 ^ s ≢ 0 → max 1 (len / 2 ^ s) * 2 ^ s < len
cut len s h e = rw (large len s h) (omega (arith, div-add-mod len (2 ^ s)))

-- `__map_prp_append` on a segment of less than 2 GiB: the pages of the entries that it counts are
-- enough for a segment of at most one page, and are exactly as long as a longer segment whose
-- length is a multiple of the page size. For every other length they are shorter than the segment,
-- so that the end of the segment is not described.
pub append_count_lem :
    (len s : ℕ)
    → len < 2 ^ 31
    → (len ≤ 2 ^ s → len ≤ append_count len s * 2 ^ s)
      × (2 ^ s < len → len % 2 ^ s ≡ 0 → append_count len s * 2 ^ s ≡ len)
      × (2 ^ s < len → len % 2 ^ s ≢ 0 → append_count len s * 2 ^ s < len)
append_count_lem len s h =
    let e = append_count_small len s h in rw e (one len s, whole len s, cut len s)
