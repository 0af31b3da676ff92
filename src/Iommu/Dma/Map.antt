-- ===== src/Iommu/Dma/Map.antt =====
-- The map of src/iommu/dma.c as a function of the address: disjoint mappings in order.
use libvfn.Base.{
  ℕ, ◌+◌, ◌≤◌, ◌<◌, ◌≡◌, ◌⊎◌, refl, sym, ap, subst, ◌∙◌, true, false, Option, none, some, List, [],
  ◌∷◌, arith, inl, inr, All, if◌then◌else◌, ok, ne→==, Bool-cases,
}
use libvfn.Iommu.Dma.{Mapping, find, link, iova_map_add}
use libvfn.Iommu.Dma.Places.{
  cmp_below, cmp_in, cmp_behind, holds_in, holds_behind, if_true, if_false, holds, first_in,
  Disjoint, Unmapped, place, outside, find-first_in,
}

-- A mapping put in: it stands where the search for its address ends.
link-above :
    (e : ℕ) (n : Mapping) (ms : List Mapping)
    → e ≤ n.vaddr
    → All (λ (m : Mapping). e ≤ m.vaddr) ms
    → All (λ (m : Mapping). e ≤ m.vaddr) (link n.vaddr n ms)
unfolding link
link-above e n [] h a = (h, tt)
link-above e n (m ∷ ms) h a = elim (place n.vaddr m) [
  | inl q ↦ rw (link, cmp_below n.vaddr m q) (h, a)
  | inr (inl q) ↦ rw (link, cmp_in n.vaddr m q.0 q.1) (h, a)
  | inr (inr q) ↦ rw (link, cmp_behind n.vaddr m q.0 q.1) (a.0, link-above e n ms h a.1)
]

above-above :
    (d e : ℕ) (ms : List Mapping)
    → d ≤ e
    → All (λ (m : Mapping). e ≤ m.vaddr) ms
    → All (λ (m : Mapping). d ≤ m.vaddr) ms
above-above d e [] h a = tt
above-above d e (m ∷ ms) h a = (omega (arith, a.0), above-above d e ms h a.1)

link-Disjoint :
    (n : Mapping) (ms : List Mapping)
    → 0 < n.len
    → Unmapped n.vaddr n.len ms
    → Disjoint ms
    → Disjoint (link n.vaddr n ms)
unfolding link
link-Disjoint n [] hn u d = (hn, (tt, tt))
link-Disjoint n (m ∷ ms) hn u d = elim (place n.vaddr m) [
  | inl q ↦
      let le : n.vaddr + n.len ≤ m.vaddr = omega (arith, u.0, d.0) in
      rw (link, cmp_below n.vaddr m q)
        (hn, ((le, above-above (n.vaddr + n.len) (m.vaddr + m.len) ms (omega arith) d.1.0), d))
  | inr (inl q) ↦ absurd (omega (arith, u.0, q.0, q.1))
  | inr (inr q) ↦
      rw (link, cmp_behind n.vaddr m q.0 q.1)
        (d.0, (link-above (m.vaddr + m.len) n ms q.1 d.1.0, link-Disjoint n ms hn u.1 d.1.1))
]

-- An address of the new mapping is in no other.
pub Unmapped-first_in :
    (u v len : ℕ) (ms : List Mapping)
    → Unmapped v len ms
    → v ≤ u
    → u < v + len
    → first_in u ms ≡ none
Unmapped-first_in u v len [] h a b = refl
Unmapped-first_in u v len (m ∷ ms) h a b =
    let no : holds u m ≡ false = outside u v len m h.0 a b in
    rw no (Unmapped-first_in u v len ms h.1 a b)

pub holds→in : (u : ℕ) (m : Mapping) → holds u m ≡ true → (m.vaddr ≤ u) × (u < m.vaddr + m.len)
holds→in u m h = ground arith

pub other_first :
    (u : ℕ) (n m : Mapping) (l v r : Option Mapping)
    → (n.vaddr + n.len ≤ m.vaddr) ⊎ (m.vaddr + m.len ≤ n.vaddr)
    → l ≡ (if holds u n then v else r)
    → (if holds u m then some m else l)
      ≡ (if holds u n then v else (if holds u m then some m else r))
other_first u n m l v r h e = elim (Bool-cases (holds u n)) [
  | inl t ↦
      let (a, b) = holds→in u n t in
      let f : holds u m ≡ false = outside u n.vaddr n.len m h a b in
      if_false (holds u m) (some m) l f
      ∙ e
      ∙ if_true (holds u n) v r t
      ∙ sym (if_true (holds u n) v (if holds u m then some m else r) t)
  | inr t ↦
      ap (λ x. if holds u m then some m else x) (e ∙ if_false (holds u n) v r t)
      ∙ sym (if_false (holds u n) v (if holds u m then some m else r) t)
]

first_in-link :
    (u : ℕ) (n : Mapping) (ms : List Mapping)
    → Unmapped n.vaddr n.len ms
    → first_in u (link n.vaddr n ms) ≡ (if holds u n then some n else first_in u ms)
unfolding link
first_in-link u n [] h = refl
first_in-link u n (m ∷ ms) h = elim (place n.vaddr m) [
  | inl q ↦ rw (link, cmp_below n.vaddr m q) refl
  | inr (inl q) ↦ rw (link, cmp_in n.vaddr m q.0 q.1) refl
  | inr (inr q) ↦
      rw (link, cmp_behind n.vaddr m q.0 q.1)
        (other_first u n m (first_in u (link n.vaddr n ms)) (some n) (first_in u ms) h.0
          (first_in-link u n ms h.1))
]

pub some_inj : {a b : Mapping} → some a ≡ some b → a ≡ b
some_inj e = ground (arith, e)

-- `iova_map_add` of a range that no mapping has a part of: the mappings stay disjoint, and the new
-- one has its addresses, the others keep theirs.
pub iova_map_add-first_in :
    (ms : List Mapping) (n : Mapping)
    → Disjoint ms
    → 0 < n.len
    → Unmapped n.vaddr n.len ms
    → let (ms', ret) = iova_map_add ms n.vaddr n.len n.iova n.flags in
      (ret ≡ ok tt)
      × Disjoint ms'
      × ((u : ℕ) → first_in u ms' ≡ (if holds u n then some n else first_in u ms))
unfolding iova_map_add
iova_map_add-first_in ms n d hn h =
    let no : find n.vaddr ms ≡ none =
      find-first_in n.vaddr ms d
      ∙ Unmapped-first_in n.vaddr n.vaddr n.len ms h (omega arith) (omega arith) in
    rw (iova_map_add, ne→== n.len 0 (omega arith), no)
      (refl, link-Disjoint n ms hn h d, λ u. first_in-link u n ms h)

-- The range reaches from below a mapping into it, for one of the mappings.
abbrev pub Reached : ℕ → ℕ → List Mapping → Type 0
Reached v len [] = ⊥
Reached v len (m ∷ ms) = ((v < m.vaddr) × (m.vaddr < v + len)) ⊎ Reached v len ms

not_behind :
    (v len : ℕ) (ms : List Mapping)
    → All (λ (m : Mapping). v + len ≤ m.vaddr) ms
    → Reached v len ms
    → ⊥
not_behind v len [] a r = elim r [ ]
not_behind v len (m ∷ ms) a (inl r) = omega (arith, a.0)
not_behind v len (m ∷ ms) a (inr r) = not_behind v len ms a.1 r

link_overlap :
    (n : Mapping) (ms : List Mapping)
    → first_in n.vaddr ms ≡ none
    → Reached n.vaddr n.len ms
    → Disjoint (link n.vaddr n ms)
    → ⊥
unfolding link
link_overlap n [] h r d = r
link_overlap n (m ∷ ms) h r d = elim (place n.vaddr m) [
  | inl p ↦
      let e : link n.vaddr n (m ∷ ms) ≡ n ∷ m ∷ ms = rw (link, cmp_below n.vaddr m p) refl in
      not_behind n.vaddr n.len (m ∷ ms) (subst Disjoint e d).1.0 r
  | inr (inl p) ↦ absurd (ground (arith, holds_in n.vaddr m p.0 p.1, h))
  | inr (inr p) ↦
      let e : link n.vaddr n (m ∷ ms) ≡ m ∷ link n.vaddr n ms =
        rw (link, cmp_behind n.vaddr m p.0 p.1) refl in
      elim r [
        | inl q ↦ absurd (omega (arith, q.0, p.1))
        | inr q ↦
            link_overlap n ms
              (sym (
                  if_false (holds n.vaddr m) (some m) (first_in n.vaddr ms)
                    (holds_behind n.vaddr m p.1))
                ∙ h)
              q (subst Disjoint e d).1.1
      ]
]

-- `iova_map_add` looks at the first address of the range only: in a map of disjoint mappings, a range
-- whose first address is in none of them, but which reaches from below one of them into it, is
-- taken, and the mappings are disjoint no more.
pub iova_map_add_overlap :
    (ms : List Mapping) (v len iova flags : ℕ)
    → Disjoint ms
    → first_in v ms ≡ none
    → Reached v len ms
    → 0 < len
    → let (ms', ret) = iova_map_add ms v len iova flags in (ret ≡ ok tt) × ¬ Disjoint ms'
unfolding iova_map_add
iova_map_add_overlap ms v len iova flags d h r pos =
    let n : Mapping = record { vaddr = v; len = len; iova = iova; flags = flags } in
    rw (iova_map_add, ne→== len 0 (omega arith), find-first_in v ms d ∙ h)
      (refl, link_overlap n ms h r)
