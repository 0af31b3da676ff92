-- ===== src/Iommu/Dma/Unmap.antt =====
-- `iommu_unmap_vaddr` of src/iommu/dma.c.
use libvfn.Base.{
  ℕ, ◌≡◌, refl, sym, ap, subst, ◌∙◌, Bool, true, false, Option, none, inl, inr, Option-cases,
  if◌then◌else◌, enoent, Result, ok, err,
}
use libvfn.Iommu.Dma.{
  Mapping, Backend, Ctx, iova_map_remove, iova_map_find, translate_vaddr, unmap_vaddr,
}
use libvfn.Iommu.Dma.Places.{holds, first_in, Disjoint}
use libvfn.Iommu.Dma.Remove.{iova_map_remove-first_in}
use libvfn.Iommu.Dma.Translate.{Result-cases, not_ok, ok_inj, offset, translate-first_in}

offset_if :
    (u : ℕ) (b : Bool) (o : Option Mapping)
    → offset u (if b then none else o) ≡ (if b then none else offset u o)
offset_if u true o = refl
offset_if u false o = refl

module _ (backend : Backend) where
  -- `iommu_unmap_vaddr` of any address, in a map of disjoint mappings, where it succeeds: the
  -- mapping with the address goes, its length is returned, the addresses of the mapping are not
  -- translated any more, and the others as before.
  pub unmap_vaddr-Unmapped :
      (ctx ctx' : Ctx backend) (v len : ℕ)
      → Disjoint ctx.map
      → unmap_vaddr backend ctx v ≡ (ctx', ok len)
      → (m : Mapping) × ((holds v m ≡ true) × (m.len ≡ len))
        × Disjoint ctx'.map
        × ((u : ℕ)
            → translate_vaddr backend ctx' u
              ≡ (if holds u m then none else translate_vaddr backend ctx u))
  unfolding unmap_vaddr
  unmap_vaddr-Unmapped ctx ctx' v len d e = elim (Option-cases (iova_map_find ctx.map v)) [
    | inl q ↦
        let r : (unmap_vaddr backend ctx v).1 ≡ err enoent = rw (unmap_vaddr, q) refl in
        absurd (not_ok (sym r ∙ ap (λ (p : Ctx backend × Result ℕ). p.1) e))
    | inr (m, q) ↦ elim (Result-cases (backend.dma_unmap ctx.state m.iova m.len).1) [
      | inl (x, w) ↦
          let r : (unmap_vaddr backend ctx v).1 ≡ err x = rw (unmap_vaddr, q, w) refl in
          absurd (not_ok (sym r ∙ ap (λ (p : Ctx backend × Result ℕ). p.1) e))
      | inr (x, w) ↦
          let r : unmap_vaddr backend ctx v ≡ ((unmap_vaddr backend ctx v).0, ok m.len) =
            rw (unmap_vaddr, q, w) refl in
          let rm : (unmap_vaddr backend ctx v).0.map ≡ iova_map_remove ctx.map m.vaddr =
            rw (unmap_vaddr, q, w) refl in
          let c : ctx'.map ≡ iova_map_remove ctx.map m.vaddr =
            sym (ap (λ (p : Ctx backend × Result ℕ). p.0.map) e) ∙ rm in
          let (d', at, l) = iova_map_remove-first_in ctx.map v m d q in
          let d'' : Disjoint ctx'.map = subst Disjoint (sym c) d' in
          (
            m,
            (
              at,
              ok_inj (
                  sym (ap (λ (p : Ctx backend × Result ℕ). p.1) r)
                  ∙ ap (λ (p : Ctx backend × Result ℕ). p.1) e),
            ),
            d'',
            λ u.
                translate-first_in backend ctx' u d''
                ∙ ap (λ ms. offset u (first_in u ms)) c
                ∙ ap (offset u) (l u)
                ∙ offset_if u (holds u m) (first_in u ctx.map)
                ∙ ap (λ o. if holds u m then none else o)
                    (sym (translate-first_in backend ctx u d)),
          )
    ]
  ]
