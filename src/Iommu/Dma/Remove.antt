-- ===== src/Iommu/Dma/Remove.antt =====
-- A mapping taken out of the map of src/iommu/dma.c.
use libvfn.Base.{
  ℕ, ◌+◌, ◌≤◌, ◌≡◌, sym, subst, ◌∙◌, true, none, some, List, [], ◌∷◌, arith, inl, inr, All,
  if◌then◌else◌, Bool-cases,
}
use libvfn.Iommu.Dma.{Mapping, find, erase, iova_map_remove, iova_map_find}
use libvfn.Iommu.Dma.Places.{
  cmp_below, cmp_in, cmp_behind, find-first_in, if_true, if_false, holds, first_in, Disjoint, place,
  holds_below, holds_in, holds_behind, first_in-above, All-above,
}
use libvfn.Iommu.Dma.Map.{holds→in, other_first, some_inj}

pub first_in-above_end :
    (e v : ℕ) (m : Mapping) (ms : List Mapping)
    → All (λ (n : Mapping). e ≤ n.vaddr) ms
    → first_in v ms ≡ some m
    → e ≤ m.vaddr
first_in-above_end e v m [] a h = absurd (ground (arith, h))
first_in-above_end e v m (x ∷ ms) a h = elim (Bool-cases (holds v x)) [
  | inl t ↦
      subst (λ (y : Mapping). e ≤ y.vaddr)
        (some_inj (sym (if_true (holds v x) (some x) (first_in v ms) t) ∙ h)) a.0
  | inr t ↦
      first_in-above_end e v m ms a.1 (sym (if_false (holds v x) (some x) (first_in v ms) t) ∙ h)
]

pub first_in-holds :
    (v : ℕ) (m : Mapping) (ms : List Mapping) → first_in v ms ≡ some m → holds v m ≡ true
first_in-holds v m [] e = absurd (ground (arith, e))
first_in-holds v m (x ∷ ms) e = elim (Bool-cases (holds v x)) [
  | inl t ↦
      subst (λ x. holds v x ≡ true)
        (some_inj (sym (if_true (holds v x) (some x) (first_in v ms) t) ∙ e)) t
  | inr t ↦ first_in-holds v m ms (sym (if_false (holds v x) (some x) (first_in v ms) t) ∙ e)
]

-- The mapping is found by its own address, too.
first_in-start :
    (v : ℕ) (m : Mapping) (ms : List Mapping)
    → Disjoint ms
    → first_in v ms ≡ some m
    → first_in m.vaddr ms ≡ some m
first_in-start v m [] d e = absurd (ground (arith, e))
first_in-start v m (x ∷ ms) d e = elim (Bool-cases (holds v x)) [
  | inl t ↦
      let q = some_inj (sym (if_true (holds v x) (some x) (first_in v ms) t) ∙ e) in
      subst (λ (y : Mapping). first_in y.vaddr (x ∷ ms) ≡ some y) q
        (if_true (holds x.vaddr x) (some x) (first_in x.vaddr ms)
          (holds_in x.vaddr x (omega arith) (omega (arith, d.0))))
  | inr t ↦
      let r = sym (if_false (holds v x) (some x) (first_in v ms) t) ∙ e in
      if_false (holds m.vaddr x) (some x) (first_in m.vaddr ms)
        (holds_behind m.vaddr x (first_in-above_end (x.vaddr + x.len) v m ms d.1.0 r))
      ∙ first_in-start v m ms d.1.1 r
]

erase-above :
    (e v : ℕ) (ms : List Mapping)
    → All (λ (n : Mapping). e ≤ n.vaddr) ms
    → All (λ (n : Mapping). e ≤ n.vaddr) (erase v ms)
unfolding erase
erase-above e v [] a = tt
erase-above e v (m ∷ ms) a = elim (place v m) [
  | inl q ↦ rw (erase, cmp_below v m q) a.1
  | inr (inl q) ↦ rw (erase, cmp_in v m q.0 q.1) a.1
  | inr (inr q) ↦ rw (erase, cmp_behind v m q.0 q.1) (a.0, erase-above e v ms a.1)
]

erase-Disjoint : (v : ℕ) (ms : List Mapping) → Disjoint ms → Disjoint (erase v ms)
unfolding erase
erase-Disjoint v [] d = tt
erase-Disjoint v (m ∷ ms) d = elim (place v m) [
  | inl q ↦ rw (erase, cmp_below v m q) d.1.1
  | inr (inl q) ↦ rw (erase, cmp_in v m q.0 q.1) d.1.1
  | inr (inr q) ↦
      rw (erase, cmp_behind v m q.0 q.1)
        (d.0, (erase-above (m.vaddr + m.len) v ms d.1.0, erase-Disjoint v ms d.1.1))
]

taken_out :
    (u : ℕ) (x : Mapping) (ms : List Mapping)
    → Disjoint (x ∷ ms)
    → first_in u ms ≡ (if holds u x then none else first_in u (x ∷ ms))
taken_out u x ms d = elim (Bool-cases (holds u x)) [
  | inl t ↦
      first_in-above u ms (All-above u (x.vaddr + x.len) ms (holds→in u x t).1 d.1.0)
      ∙ sym (if_true (holds u x) none (first_in u (x ∷ ms)) t)
  | inr t ↦ sym (
      if_false (holds u x) none (first_in u (x ∷ ms)) t
      ∙ if_false (holds u x) (some x) (first_in u ms) t)
]

-- The addresses of the mapping that is taken out are in no other.
first_in-erase :
    (u v : ℕ) (m : Mapping) (ms : List Mapping)
    → Disjoint ms
    → first_in v ms ≡ some m
    → first_in u (erase v ms) ≡ (if holds u m then none else first_in u ms)
unfolding erase
first_in-erase u v m [] d e = absurd (ground (arith, e))
first_in-erase u v m (x ∷ ms) d e = elim (place v x) [
  | inl q ↦ absurd (
      ground (
        arith,
        sym e
            ∙ if_false (holds v x) (some x) (first_in v ms) (holds_below v x q)
            ∙ first_in-above v ms (All-above v (x.vaddr + x.len) ms (omega arith) d.1.0),
      ))
  | inr (inl q) ↦
      rw (erase, cmp_in v x q.0 q.1)
        (subst (λ (y : Mapping). first_in u ms ≡ (if holds u y then none else first_in u (x ∷ ms)))
          (some_inj (sym (if_true (holds v x) (some x) (first_in v ms) (holds_in v x q.0 q.1)) ∙ e))
          (taken_out u x ms d))
  | inr (inr q) ↦
      let r : first_in v ms ≡ some m =
        sym (if_false (holds v x) (some x) (first_in v ms) (holds_behind v x q.1)) ∙ e in
      rw (erase, cmp_behind v x q.0 q.1)
        (other_first u m x (first_in u (erase v ms)) none (first_in u ms)
          (inr (first_in-above_end (x.vaddr + x.len) v m ms d.1.0 r))
          (first_in-erase u v m ms d.1.1 r))
]

-- `iova_map_remove` by the address of a mapping takes just this one out.
pub iova_map_remove-first_in :
    (ms : List Mapping) (v : ℕ) (m : Mapping)
    → Disjoint ms
    → iova_map_find ms v ≡ some m
    → Disjoint (iova_map_remove ms m.vaddr)
      × (holds v m ≡ true)
      × ((u : ℕ)
          → first_in u (iova_map_remove ms m.vaddr) ≡ (if holds u m then none else first_in u ms))
unfolding iova_map_remove iova_map_find
iova_map_remove-first_in ms v m d e =
    let at : first_in v ms ≡ some m = sym (find-first_in v ms d) ∙ e in
    let start = first_in-start v m ms d at in
    let found : find m.vaddr ms ≡ some m = find-first_in m.vaddr ms d ∙ start in
    rw (iova_map_remove, found)
      (
        erase-Disjoint m.vaddr ms d,
        first_in-holds v m ms at,
        λ u. first_in-erase u m.vaddr m ms d start,
      )
