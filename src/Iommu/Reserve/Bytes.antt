-- ===== src/Iommu/Reserve/Bytes.antt =====
-- The free ranges of src/iommu/vfio.c as sets of bytes: what the lemmas on them share.
use libvfn.Base.{
  ℕ, suc, ◌+◌, ◌≤◌, ◌<◌, ◌≡◌, ◌⊎◌, refl, ap, ◌∙◌, Bool, true, false, ◌&&◌, ◌||◌, List, [], ◌∷◌,
  arith, All, ltb, leb,
}
use libvfn.Support.Word.{u64, add64}
use libvfn.Iommu.Reserve.{FreeRange}

-- An address is in the `len` bytes from `start` on, and in one of the ranges.
abbrev pub within : ℕ → ℕ → ℕ → Bool
within u start len = leb start u && ltb u (start + len)

abbrev pub covers : ℕ → List FreeRange → Bool
covers u [] = false
covers u (r ∷ rs) = within u r.start r.len || covers u rs

-- Ranges of at least one byte from `lo` on, in order and with a gap between each two.
abbrev pub Spaced : ℕ → List FreeRange → Type 0
Spaced lo [] = Unit
Spaced lo (r ∷ rs) =
    ((lo ≤ r.start) × (0 < r.len)) × ((r.start + r.len < u64) × Spaced (suc (r.start + r.len)) rs)

-- Bytes of which none is in a range.
abbrev pub Apart : ℕ → ℕ → List FreeRange → Type 0
Apart start len rs = All (λ (r : FreeRange). (start + len ≤ r.start) ⊎ (r.start + r.len ≤ start)) rs

-- The ranges behind the bytes.
abbrev pub Ahead : ℕ → List FreeRange → Type 0
Ahead end [] = Unit
Ahead end (r ∷ rs) = end ≤ r.start

-- The bytes have been added to the ranges.
pub record Added (lo start len : ℕ) (rs rs' : List FreeRange) : Type 0 where
  pub spaced : Spaced lo rs'
  pub covers_lem : (u : ℕ) → covers u rs' ≡ (within u start len || covers u rs)

pub add64_small : (a b : ℕ) → a + b < u64 → add64 a b ≡ a + b
add64_small a b h = omega arith

pub or_swap : (a b c : Bool) → (a || (b || c)) ≡ (b || (a || c))
or_swap true true c = refl
or_swap true false c = refl
or_swap false b c = refl

pub joined_within :
    (u a k l : ℕ) (c : Bool)
    → (within u a (k + l) || c) ≡ (within u (a + k) l || (within u a k || c))
joined_within u a k l c = ground arith

-- Bytes joined to those from their end on.
pub grown :
    (u a k l m n : ℕ) (c : Bool)
    → m ≡ k + l
    → a + k ≡ n
    → (within u a m || c) ≡ (within u a k || (within u n l || c))
grown u a k l m n c e h =
    ap (λ x. within u a x || c) e
    ∙ joined_within u a k l c
    ∙ or_swap (within u (a + k) l) (within u a k) c
    ∙ ap (λ x. within u a k || (within u x l || c)) h
