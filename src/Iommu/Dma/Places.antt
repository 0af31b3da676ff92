-- ===== src/Iommu/Dma/Places.antt =====
-- Where an address stands in the map of src/iommu/dma.c: the predicates and lemmas that the operations share.
use Prim.Native.Nat.{Ordering}
use libvfn.Base.{
  ℕ, ◌+◌, ◌≤◌, ◌<◌, ◌≡◌, ◌⊎◌, refl, sym, Bool, true, false, ◌&&◌, Option, none, some, List, [], ◌∷◌,
  arith, inl, inr, All, ltb, leb, if◌then◌else◌,
}
use libvfn.Iommu.Dma.{Mapping, iova_cmp, find}

pub if_true : {A : Type 0} (b : Bool) (x y : A) → b ≡ true → (if b then x else y) ≡ x
if_true b x y e = rw e refl

pub if_false : {A : Type 0} (b : Bool) (x y : A) → b ≡ false → (if b then x else y) ≡ y
if_false b x y e = rw e refl

-- An address is in a mapping.
abbrev pub holds : ℕ → Mapping → Bool
holds v m = leb m.vaddr v && ltb v (m.vaddr + m.len)

-- The first mapping with the address, whatever the order.
abbrev pub first_in : ℕ → List Mapping → Option Mapping
first_in v [] = none
first_in v (m ∷ ms) = if holds v m then some m else first_in v ms

-- Mappings of at least one byte, each behind the end of those before it.
abbrev pub Disjoint : List Mapping → Type 0
Disjoint [] = Unit
Disjoint (m ∷ ms) =
    (0 < m.len) × (All (λ (n : Mapping). m.vaddr + m.len ≤ n.vaddr) ms × Disjoint ms)

-- A range of addresses that no mapping has a part of.
abbrev pub Unmapped : ℕ → ℕ → List Mapping → Type 0
Unmapped v len ms = All (λ (m : Mapping). (v + len ≤ m.vaddr) ⊎ (m.vaddr + m.len ≤ v)) ms

-- Where an address is: below a mapping, in it, or behind it.
pub place :
    (v : ℕ) (m : Mapping)
    → (v < m.vaddr)
      ⊎ (((m.vaddr ≤ v) × (v < m.vaddr + m.len)) ⊎ ((m.vaddr ≤ v) × (m.vaddr + m.len ≤ v)))
place v m = ground arith

pub holds_below : (v : ℕ) (m : Mapping) → v < m.vaddr → holds v m ≡ false
holds_below v m h = ground arith

pub holds_in : (v : ℕ) (m : Mapping) → m.vaddr ≤ v → v < m.vaddr + m.len → holds v m ≡ true
holds_in v m h h' = ground arith

pub holds_behind : (v : ℕ) (m : Mapping) → m.vaddr + m.len ≤ v → holds v m ≡ false
holds_behind v m h = ground arith

module _ (v : ℕ) (m : Mapping) where
  pub cmp_below : v < m.vaddr → iova_cmp v m ≡ Ordering.lt
  unfolding iova_cmp
  cmp_below h = ground arith

  pub cmp_in : m.vaddr ≤ v → v < m.vaddr + m.len → iova_cmp v m ≡ Ordering.eq
  unfolding iova_cmp
  cmp_in h h' = ground arith

  pub cmp_behind : m.vaddr ≤ v → m.vaddr + m.len ≤ v → iova_cmp v m ≡ Ordering.gt
  unfolding iova_cmp
  cmp_behind h h' = ground arith

pub outside :
    (u v len : ℕ) (m : Mapping)
    → (v + len ≤ m.vaddr) ⊎ (m.vaddr + m.len ≤ v)
    → v ≤ u
    → u < v + len
    → holds u m ≡ false
outside u v len m h a b = ground arith

pub first_in-above :
    (v : ℕ) (ms : List Mapping) → All (λ (m : Mapping). v < m.vaddr) ms → first_in v ms ≡ none
first_in-above v [] h = refl
first_in-above v (m ∷ ms) h = ground (arith, first_in-above v ms h.1)

pub All-above :
    (v e : ℕ) (ms : List Mapping)
    → v < e
    → All (λ (m : Mapping). e ≤ m.vaddr) ms
    → All (λ (m : Mapping). v < m.vaddr) ms
All-above v e [] h a = tt
All-above v e (m ∷ ms) h a = (omega (arith, a.0), All-above v e ms h a.1)

pub find-first_in : (v : ℕ) (ms : List Mapping) → Disjoint ms → find v ms ≡ first_in v ms
unfolding find
find-first_in v [] d = refl
find-first_in v (m ∷ ms) d = elim (place v m) [
  | inl h ↦
      rw (find, cmp_below v m h, holds_below v m h)
        (sym (first_in-above v ms (All-above v (m.vaddr + m.len) ms (omega arith) d.1.0)))
  | inr (inl h) ↦ rw (find, cmp_in v m h.0 h.1, holds_in v m h.0 h.1) refl
  | inr (inr h) ↦ rw (find, cmp_behind v m h.0 h.1, holds_behind v m h.1) (find-first_in v ms d.1.1)
]
