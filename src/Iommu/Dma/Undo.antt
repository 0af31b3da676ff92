-- ===== src/Iommu/Dma/Undo.antt =====
-- `iommu_unmap_vaddr` after `iommu_map_vaddr`.
use libvfn.Base.{
  ℕ, ◌<◌, ◌≡◌, refl, sym, ap, ◌∙◌, none, some, List, subst, arith, inl, inr, Bool-cases,
  if◌then◌else◌, ok,
}
use libvfn.Iommu.Dma.{
  Mapping, Backend, Ctx, iova_map_add, iova_map_find, iova_map_remove, translate_vaddr, dma_map_add,
  map_vaddr, unmap_vaddr,
}
use libvfn.Iommu.Dma.Places.{holds, first_in, Disjoint, Unmapped, find-first_in, holds_in, if_true}
use libvfn.Iommu.Dma.Map.{Unmapped-first_in, iova_map_add-first_in, holds→in}
use libvfn.Iommu.Dma.Remove.{iova_map_remove-first_in}
use libvfn.Iommu.Dma.Translate.{translate_none, offset, translate-first_in}

module _ (backend : Backend) where
  -- The entry that a successful call has made.
  map_vaddr-entry :
      (ctx ctx' : Ctx backend) (v len iova flags i : ℕ)
      → translate_vaddr backend ctx v ≡ none
      → map_vaddr backend ctx v len iova flags ≡ (ctx', ok i)
      → (iova_map_add ctx.map v len i flags).0 ≡ ctx'.map
  unfolding map_vaddr dma_map_add
  map_vaddr-entry ctx ctx' v len iova flags i h e = ground (arith, e)

  unmap_vaddr_ok :
      (ctx : Ctx backend) (v : ℕ) (m : Mapping)
      → iova_map_find ctx.map v ≡ some m
      → (backend.dma_unmap ctx.state m.iova m.len).1 ≡ ok tt
      → ((unmap_vaddr backend ctx v).1 ≡ ok m.len)
        × ((unmap_vaddr backend ctx v).0.map ≡ iova_map_remove ctx.map m.vaddr)
  unfolding unmap_vaddr
  unmap_vaddr_ok ctx v m h e = rw (unmap_vaddr, h, e) (refl, refl)

  -- The mapping with all of the range goes, and nothing was mapped there before.
  restored :
      (u v len : ℕ) (n : Mapping) (ms : List Mapping)
      → n.vaddr ≡ v
      → n.len ≡ len
      → Unmapped v len ms
      → (if holds u n then none else (if holds u n then some n else first_in u ms)) ≡ first_in u ms
  restored u v len n ms hv hl h = elim (Bool-cases (holds u n)) [
    | inl b ↦
        let (lo, hi) = holds→in u n b in
        rw b (sym (Unmapped-first_in u v len ms h (omega arith) (omega arith)))
    | inr b ↦ rw b refl
  ]

  -- `iommu_unmap_vaddr` at the start of a range that `iommu_map_vaddr` has mapped, of at least one
  -- byte of which none was mapped, in a map of disjoint mappings, where the backend unmaps it: it
  -- succeeds with the length of the range, and every address is translated as it was before both.
  pub map_vaddr-unmap_vaddr :
      (ctx ctx' : Ctx backend) (v len iova flags i : ℕ)
      → Disjoint ctx.map
      → 0 < len
      → Unmapped v len ctx.map
      → map_vaddr backend ctx v len iova flags ≡ (ctx', ok i)
      → (backend.dma_unmap ctx'.state i len).1 ≡ ok tt
      → let (ctx'', ret) = unmap_vaddr backend ctx' v in
        (ret ≡ ok len)
        × Disjoint ctx''.map
        × ((u : ℕ) → translate_vaddr backend ctx'' u ≡ translate_vaddr backend ctx u)
  unfolding iova_map_find
  map_vaddr-unmap_vaddr ctx ctx' v len iova flags i d hn h e w =
      let n : Mapping = record { vaddr = v; len = len; iova = i; flags = flags } in
      let (f, d1, l) = iova_map_add-first_in ctx.map n d hn h in
      let q =
        map_vaddr-entry ctx ctx' v len iova flags i (translate_none backend ctx v len d hn h) e in
      let d2 = subst Disjoint q d1 in
      let l2 : (u : ℕ) → first_in u ctx'.map ≡ (if holds u n then some n else first_in u ctx.map) =
        λ u. ap (first_in u) (sym q) ∙ l u in
      let found : iova_map_find ctx'.map v ≡ some n =
        find-first_in v ctx'.map d2
        ∙ l2 v
        ∙ if_true (holds v n) (some n) (first_in v ctx.map)
            (holds_in v n (omega arith) (omega arith)) in
      let (r, m) = unmap_vaddr_ok ctx' v n found w in
      let (d3, _, l3) = iova_map_remove-first_in ctx'.map v n d2 found in
      let d4 = subst Disjoint (sym m) d3 in
      (
        r,
        d4,
        λ u.
            translate-first_in backend (unmap_vaddr backend ctx' v).0 u d4
            ∙ ap (offset u) (
                ap (first_in u) m
                ∙ l3 u
                ∙ ap (λ o. if holds u n then none else o) (l2 u)
                ∙ restored u v len n ctx.map refl refl h)
            ∙ sym (translate-first_in backend ctx u d),
      )
