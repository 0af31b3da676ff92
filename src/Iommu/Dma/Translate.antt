-- ===== src/Iommu/Dma/Translate.antt =====
-- The calls of src/iommu/dma.c against the translation of addresses that they are there for.
use libvfn.Base.{
  ℕ, ◌+◌, ◌-◌, ◌≤◌, ◌<◌, ◌≡◌, ◌⊎◌, refl, sym, ap, subst, ◌∙◌, false, Option, none, some, List,
  arith, inl, inr, Bool-cases, Option-cases, if◌then◌else◌, Errno, Result, ok, err,
}
use libvfn.Iommu.Dma.{
  Mapping, Backend, Ctx, iova_map_add, iova_map_find, is_fixed, translate_vaddr, dma_map_add,
  map_vaddr,
}
use libvfn.Iommu.Dma.Places.{
  holds, first_in, Disjoint, Unmapped, find-first_in, if_true, if_false, holds_in,
}
use libvfn.Iommu.Dma.Map.{Unmapped-first_in, iova_map_add-first_in}

pub Result-cases {ℓ} :
    {A : Type ℓ} (r : Result A) → ((e : Errno) × (r ≡ err e)) ⊎ ((a : A) × (r ≡ ok a))
Result-cases (ok a) = inr (a, refl)
Result-cases (err e) = inl (e, refl)

pub not_ok : {A : Type 0} {e : Errno} {a : A} → err e ≡ ok a → ⊥
not_ok h = ground (arith, h)

pub ok_inj : {a b : ℕ} → ok a ≡ ok b → a ≡ b
ok_inj h = ground (arith, h)

not_holds : (u : ℕ) (n : Mapping) → (u < n.vaddr) ⊎ (n.vaddr + n.len ≤ u) → holds u n ≡ false
not_holds u n h = ground arith

abbrev pub offset : ℕ → Option Mapping → Option ℕ
offset u none = none
offset u (some m) = some (m.iova + (u - m.vaddr))

module _ (backend : Backend) where
  -- A range is mapped at `i`, and the other addresses are translated as they were.
  pub record Mapped (ctx ctx' : Ctx backend) (v len i : ℕ) : Type 0 where
    pub disjoint : Disjoint ctx'.map
    pub inside : (k : ℕ) → k < len → translate_vaddr backend ctx' (v + k) ≡ some (i + k)
    pub outside :
        (u : ℕ)
        → (u < v) ⊎ (v + len ≤ u)
        → translate_vaddr backend ctx' u ≡ translate_vaddr backend ctx u

  pub translate-first_in :
      (ctx : Ctx backend) (u : ℕ)
      → Disjoint ctx.map
      → translate_vaddr backend ctx u ≡ offset u (first_in u ctx.map)
  unfolding translate_vaddr iova_map_find
  translate-first_in ctx u d =
      rw (translate_vaddr, find-first_in u ctx.map d) (by_cases (first_in u ctx.map))
    where
      by_cases :
          (o : Option Mapping)
          → elim o as (λ _. Option ℕ) [ none ↦ none | some m ↦ some (m.iova + (u - m.vaddr)) ]
            ≡ offset u o
      by_cases none = refl
      by_cases (some m) = refl

  Mapped_next :
      (ctx : Ctx backend) (n : Mapping) (state : backend.State) (map : List Mapping)
      → Disjoint ctx.map
      → Disjoint map
      → ((u : ℕ) → first_in u map ≡ (if holds u n then some n else first_in u ctx.map))
      → Mapped ctx (record ctx { state = state; map = map }) n.vaddr n.len n.iova
  Mapped_next ctx n state map d d' l = record {
    disjoint = d';
    inside = λ k h.
        translate-first_in (record ctx { state = state; map = map }) (n.vaddr + k) d'
        ∙ ap (offset (n.vaddr + k)) (
            l (n.vaddr + k)
            ∙ if_true (holds (n.vaddr + k) n) (some n) (first_in (n.vaddr + k) ctx.map)
                (holds_in (n.vaddr + k) n (omega arith) (omega arith)))
        ∙ ap (λ x. some (n.iova + x)) (omega arith);
    outside = λ u h.
        translate-first_in (record ctx { state = state; map = map }) u d'
        ∙ ap (offset u) (l u ∙ if_false (holds u n) (some n) (first_in u ctx.map) (not_holds u n h))
        ∙ sym (translate-first_in ctx u d);
  }

  -- What the call of `dma_map` and the entry in the map come to.
  dma_map_add-Mapped :
      (ctx ctx' : Ctx backend) (v len iova flags i : ℕ)
      → Disjoint ctx.map
      → 0 < len
      → Unmapped v len ctx.map
      → dma_map_add backend ctx v len iova flags ≡ (ctx', ok i)
      → Mapped ctx ctx' v len i
  unfolding dma_map_add
  dma_map_add-Mapped ctx ctx' v len iova flags i d hn h e =
      elim (Result-cases (backend.dma_map ctx.state v len iova flags).1) [
        | inl (x, q) ↦
            let r : (dma_map_add backend ctx v len iova flags).1 ≡ err x =
              rw (dma_map_add, q) refl in
            absurd (not_ok (sym r ∙ ap (λ (p : Ctx backend × Result ℕ). p.1) e))
        | inr (x, q) ↦
            let n : Mapping = record { vaddr = v; len = len; iova = x; flags = flags } in
            let state = (backend.dma_map ctx.state v len iova flags).0 in
            let (f, d', l) = iova_map_add-first_in ctx.map n d hn h in
            let map = (iova_map_add ctx.map v len x flags).0 in
            let next : Ctx backend = record ctx { state = state; map = map } in
            let r : dma_map_add backend ctx v len iova flags ≡ (next, ok x) =
              rw (dma_map_add, q, f) refl in
            let c : next ≡ ctx' =
              sym (ap (λ (p : Ctx backend × Result ℕ). p.0) r)
              ∙ ap (λ (p : Ctx backend × Result ℕ). p.0) e in
            let w : x ≡ i = ok_inj (
              sym (ap (λ (p : Ctx backend × Result ℕ). p.1) r)
              ∙ ap (λ (p : Ctx backend × Result ℕ). p.1) e) in
            subst (λ (c : Ctx backend). Mapped ctx c v len i) c
              (subst (λ j. Mapped ctx next v len j) w (Mapped_next ctx n state map d d' l))
      ]

  -- A change of the backend's state alone changes no translation.
  Mapped-state :
      (ctx ctx' : Ctx backend) (state : backend.State) (v len i : ℕ)
      → Mapped (record ctx { state = state }) ctx' v len i
      → Mapped ctx ctx' v len i
  unfolding translate_vaddr
  Mapped-state ctx ctx' state v len i m = record {
    disjoint = m.disjoint;
    inside = m.inside;
    outside = m.outside;
  }

  pub translate_none :
      (ctx : Ctx backend) (v len : ℕ)
      → Disjoint ctx.map
      → 0 < len
      → Unmapped v len ctx.map
      → translate_vaddr backend ctx v ≡ none
  translate_none ctx v len d hn h =
      translate-first_in ctx v d
      ∙ ap (offset v) (Unmapped-first_in v v len ctx.map h (omega arith) (omega arith))

  -- `iommu_map_vaddr` of a range of at least one byte of which no part is mapped, in a map of
  -- disjoint mappings, where it succeeds, whatever flags and backend: each address of the range is
  -- translated to the I/O address as far from the one that is returned, every other address as
  -- before, and the mappings stay disjoint.
  pub map_vaddr-Mapped :
      (ctx ctx' : Ctx backend) (v len iova flags i : ℕ)
      → Disjoint ctx.map
      → 0 < len
      → Unmapped v len ctx.map
      → map_vaddr backend ctx v len iova flags ≡ (ctx', ok i)
      → Mapped ctx ctx' v len i
  unfolding map_vaddr
  map_vaddr-Mapped ctx ctx' v len iova flags i d hn h e =
      let no = translate_none ctx v len d hn h in
      elim (Bool-cases (is_fixed flags)) [
        | inl t ↦
            let r : map_vaddr backend ctx v len iova flags
                ≡ dma_map_add backend ctx v len iova flags =
              rw (map_vaddr, no, t) refl in
            dma_map_add-Mapped ctx ctx' v len iova flags i d hn h (sym r ∙ e)
        | inr t ↦ elim (Option-cases backend.iova_reserve) [
          | inl q ↦
              let r : map_vaddr backend ctx v len iova flags
                  ≡ dma_map_add backend ctx v len 0 flags =
                rw (map_vaddr, no, t, q) refl in
              dma_map_add-Mapped ctx ctx' v len 0 flags i d hn h (sym r ∙ e)
          | inr (reserve, q) ↦ elim (Result-cases (reserve ctx.state len flags).1) [
            | inl (x, w) ↦
                let r : (map_vaddr backend ctx v len iova flags).1 ≡ err x =
                  rw (map_vaddr, no, t, q, w) refl in
                absurd (not_ok (sym r ∙ ap (λ (p : Ctx backend × Result ℕ). p.1) e))
            | inr (x, w) ↦
                let state = (reserve ctx.state len flags).0 in
                let r : map_vaddr backend ctx v len iova flags
                    ≡ dma_map_add backend (record ctx { state = state }) v len x flags =
                  rw (map_vaddr, no, t, q, w) refl in
                Mapped-state ctx ctx' state v len i (
                  dma_map_add-Mapped (record ctx { state = state }) ctx' v len x flags i d hn h
                    (sym r ∙ e))
          ]
        ]
      ]

  -- `iommu_map_vaddr` of an address that is mapped already returns its translation and changes
  -- nothing.
  pub map_vaddr_again :
      (ctx : Ctx backend) (v len iova flags i : ℕ)
      → translate_vaddr backend ctx v ≡ some i
      → map_vaddr backend ctx v len iova flags ≡ (ctx, ok i)
  unfolding map_vaddr
  map_vaddr_again ctx v len iova flags i h = rw (map_vaddr, h) refl
