-- ===== src/Nvme/Ctrl/Enable.antt =====
-- `nvme_enable` and `nvme_reset` of src/nvme/core.c.
use Prim.Native.Nat.{bit_and, bit_or}
use libvfn.Base.{
  ℕ, zero, suc, ◌+◌, ◌*◌, ◌/◌, ◌%◌, ◌^◌, ◌<◌, ◌≡◌, refl, sym, ap, subst, ◌∙◌, ◌≤◌, ◌⊎◌, Bool, true,
  ◌&&◌, not, Option, some, arith, ◌==◌, ==→eq, if◌then◌else◌, Bool-cases, inl, inr, Result,
}
use libvfn.Support.Bits.{bit_and-low}
use libvfn.Nvme.Ctrl.Fields.{field_set, field_get_lem, cap_css}
use libvfn.Nvme.Ctrl.Ready.{wait_rdy, wait_rdy_lem, deadline_at, Outcome}

-- The command set for the `CAP_CSS` field: NVME_CC_CSS_CSI, _ADMIN or _NVM.
abbrev pub command_set : ℕ → ℕ
command_set css =
    if not (bit_and css (2 ^ 6) == 0) then 6 else if not (bit_and css (2 ^ 7) == 0) then 7 else 0

-- The value that `nvme_enable` writes to CC: `CC_MPS`, `CC_AMS`, `CC_SHN`, `CC_IOSQES`, `CC_IOCQES`,
-- `CC_EN`, and then `CC_CSS`.
pub cc_value : ℕ → ℕ → ℕ
cc_value mps css =
    bit_or
      (bit_or
        (bit_or
          (bit_or (bit_or (bit_or (field_set mps 7 0xf) (field_set 0 11 7)) (field_set 0 14 3))
            (field_set 6 16 0xf))
          (field_set 4 20 0xf))
        (field_set 1 0 1))
      (field_set (command_set css) 4 7)

-- `nvme_enable`: what it writes to CC, the outcome, and the last look.
pub enable : (ℕ → ℕ) → (ℕ → ℕ) → ℕ → ℕ → ℕ → ℕ → ℕ × Option (Result {0} Unit × ℕ)
unfolding cc_value
enable clock csts cap mps fuel t = (cc_value mps (cap_css cap), wait_rdy clock csts cap fuel t 1)

-- `nvme_reset`, with the value of CC before it.
pub reset : (ℕ → ℕ) → (ℕ → ℕ) → ℕ → ℕ → ℕ → ℕ → ℕ × Option (Result {0} Unit × ℕ)
reset clock csts cap cc fuel t = (bit_and cc 0xfe, wait_rdy clock csts cap fuel t 0)

-- The fields of CC, as the NVMe specification places them.
pub record Fields (cc en css mps ams shn iosqes iocqes : ℕ) : Type 0 where
  pub en_lem : cc % 2 ≡ en
  pub css_lem : cc / 2 ^ 4 % 2 ^ 3 ≡ css
  pub mps_lem : cc / 2 ^ 7 % 2 ^ 4 ≡ mps
  pub ams_lem : cc / 2 ^ 11 % 2 ^ 3 ≡ ams
  pub shn_lem : cc / 2 ^ 14 % 2 ^ 2 ≡ shn
  pub iosqes_lem : cc / 2 ^ 16 % 2 ^ 4 ≡ iosqes
  pub iocqes_lem : cc / 2 ^ 20 % 2 ^ 4 ≡ iocqes

-- The value as a function of the two fields that vary.
merged : ℕ → ℕ → ℕ
merged mps css =
    bit_or
      (bit_or
        (bit_or
          (bit_or (bit_or (bit_or (mps * 2 ^ 7) (field_set 0 11 7)) (field_set 0 14 3))
            (field_set 6 16 0xf))
          (field_set 4 20 0xf))
        (field_set 1 0 1))
      (field_set css 4 7)

abbrev summed : ℕ → ℕ → ℕ
summed mps css = 1 + css * 2 ^ 4 + mps * 2 ^ 7 + 6 * 2 ^ 16 + 4 * 2 ^ 20

agrees : ℕ → Bool
unfolding merged field_set
agrees mps =
    (merged mps 6 == summed mps 6)
    && (merged mps 7 == summed mps 7)
    && (merged mps 0 == summed mps 0)

all_below : ℕ → (ℕ → Bool) → Bool
all_below zero p = true
all_below (suc n) p = p n && all_below n p

all_below_lem : (n : ℕ) (p : ℕ → Bool) (x : ℕ) → all_below n p ≡ true → x < n → p x ≡ true
unfolding all_below
all_below_lem zero p x h lt = absurd (omega arith)
all_below_lem (suc n) p x h lt = ground (arith, all_below_lem n p x)

agrees_table : all_below 16 agrees ≡ true
unfolding all_below agrees
agrees_table = refl

merged_lem : (mps css : ℕ) → mps < 16 → merged mps (command_set css) ≡ summed mps (command_set css)
unfolding agrees
merged_lem mps css h =
    let t = all_below_lem 16 agrees mps agrees_table h in
    elim (Bool-cases (not (bit_and css (2 ^ 6) == 0))) [
      | inl b ↦ rw b (==→eq (merged mps 6) (summed mps 6) (ground (arith, t)))
      | inr b ↦ elim (Bool-cases (not (bit_and css (2 ^ 7) == 0))) [
        | inl b' ↦ rw (b, b') (==→eq (merged mps 7) (summed mps 7) (ground (arith, t)))
        | inr b' ↦ rw (b, b') (==→eq (merged mps 0) (summed mps 0) (ground (arith, t)))
      ]
    ]

command_set-lt : (css : ℕ) → command_set css < 8
command_set-lt css = ground arith

summed-Fields : (mps css : ℕ) → mps < 16 → css < 8 → Fields (summed mps css) 1 css mps 0 0 6 4
summed-Fields mps css h c = record {
  en_lem = omega arith;
  css_lem = omega arith;
  mps_lem = omega arith;
  ams_lem = omega arith;
  shn_lem = omega arith;
  iosqes_lem = omega arith;
  iocqes_lem = omega arith;
}

cc_value_lem : (mps css : ℕ) → cc_value mps css ≡ summed (mps % 2 ^ 4) (command_set css)
unfolding cc_value field_set merged
cc_value_lem mps css =
    ap (λ m. merged m (command_set css)) (bit_and-low 4 mps)
    ∙ merged_lem (mps % 2 ^ 4) css (omega arith)

-- The command set for what CAP says: 6, all the I/O command sets that the controller supports, if bit
-- 6 of its CSS field is set, which is at bit 37; else 7, the admin command set only, if bit 7 is set;
-- and 0, the NVM command set, if neither is.
abbrev pub Selected : ℕ → ℕ → Type 0
Selected cap css =
    ((cap / 2 ^ 43 % 2 ≡ 1) × (css ≡ 6))
    ⊎ (((cap / 2 ^ 43 % 2 ≡ 0) × (cap / 2 ^ 44 % 2 ≡ 1) × (css ≡ 7))
        ⊎ ((cap / 2 ^ 43 % 2 ≡ 0) × (cap / 2 ^ 44 % 2 ≡ 0) × (css ≡ 0)))

by_bits : ℕ → Bool
by_bits css =
    if css / 2 ^ 6 % 2 == 1
    then command_set css == 6
    else if css / 2 ^ 7 % 2 == 1
    then command_set css == 7
    else command_set css == 0

by_bits_table : all_below 256 by_bits ≡ true
unfolding all_below by_bits
by_bits_table = refl

-- A field of 8 bits by its bits.
bit_of_field :
    (cap : ℕ)
    → (cap / 2 ^ 37 % 2 ^ 8 / 2 ^ 6 % 2 ≡ cap / 2 ^ 43 % 2)
      × (cap / 2 ^ 37 % 2 ^ 8 / 2 ^ 7 % 2 ≡ cap / 2 ^ 44 % 2)
bit_of_field cap = (omega arith, omega arith)

command_set-by_bits : (css : ℕ) → css < 256 → by_bits css ≡ true
command_set-by_bits css h = all_below_lem 256 by_bits css by_bits_table h

selected_at :
    (css a b n : ℕ)
    → css / 2 ^ 6 % 2 ≡ a
    → css / 2 ^ 7 % 2 ≡ b
    → n ≡ command_set css
    → by_bits css ≡ true
    → ((a ≡ 1) × (n ≡ 6)) ⊎ (((a ≡ 0) × (b ≡ 1) × (n ≡ 7)) ⊎ ((a ≡ 0) × (b ≡ 0) × (n ≡ 0)))
unfolding by_bits
selected_at css a b n ha hb hn h = ground (arith, hn)

command_set-Selected : (cap : ℕ) → Selected cap (command_set (cap_css cap))
command_set-Selected cap =
    let (a, b) = bit_of_field cap in
    selected_at (cap / 2 ^ 37 % 2 ^ 8) (cap / 2 ^ 43 % 2) (cap / 2 ^ 44 % 2)
      (command_set (cap_css cap)) a b (ap command_set (field_get_lem cap 37 8))
      (command_set-by_bits (cap / 2 ^ 37 % 2 ^ 8) (omega arith))

-- `nvme_enable`, when the clock passes the deadline at the look `k` after the first. It writes to CC
-- the enable bit, the page size, queue entries of 2^6 and 2^4 bytes, round robin arbitration, no
-- shutdown, and the command set that CAP says, each in its field. It returns by that
-- look: it succeeds if it has seen the controller ready at a look in time, and fails with ETIMEDOUT
-- if a look came after the deadline, and the controller was not ready at any look before.
pub enable_lem :
    (clock csts : ℕ → ℕ) (cap mps k t : ℕ)
    → deadline_at clock cap t < clock (t + 1 + k)
    → let (cc, ret) = enable clock csts cap mps (suc k) t in
      ((css : ℕ) × Selected cap css × Fields cc 1 css (mps % 2 ^ 4) 0 0 6 4)
      × ((r : Result {0} Unit) × (last : ℕ) × (ret ≡ some (r, last))
          × (last ≤ t + 1 + k)
          × Outcome clock csts (deadline_at clock cap t) 1 (t + 1) last r)
unfolding enable
enable_lem clock csts cap mps k t h = (
  (
    command_set (cap_css cap),
    command_set-Selected cap,
    subst (λ cc. Fields cc 1 (command_set (cap_css cap)) (mps % 2 ^ 4) 0 0 6 4)
        (sym (cc_value_lem mps (cap_css cap)))
        (summed-Fields (mps % 2 ^ 4) (command_set (cap_css cap)) (omega arith)
          (command_set-lt (cap_css cap))),
  ),
  wait_rdy_lem clock csts cap 1 k t h,
)
