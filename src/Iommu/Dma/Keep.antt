-- ===== src/Iommu/Dma/Keep.antt =====
-- What is translated stays so while other memory is mapped.
use libvfn.Base.{ℕ, ◌+◌, ◌≤◌, ◌<◌, ◌≡◌, sym, ap, ◌∙◌, none, some, arith, le-cases, inl, inr}
use libvfn.Iommu.Dma.{Backend, Ctx, translate_vaddr}
use libvfn.Iommu.Dma.Places.{Disjoint, Unmapped}
use libvfn.Iommu.Dma.Map.{Unmapped-first_in}
use libvfn.Iommu.Dma.Translate.{Mapped, offset, translate-first_in}

module _ (backend : Backend) where
  Unmapped-none :
      (ctx : Ctx backend) (u v len : ℕ)
      → Disjoint ctx.map
      → Unmapped v len ctx.map
      → v ≤ u
      → u < v + len
      → translate_vaddr backend ctx u ≡ none
  Unmapped-none ctx u v len d h lo hi =
      translate-first_in backend ctx u d ∙ ap (offset u) (Unmapped-first_in u v len ctx.map h lo hi)

  -- An address that is translated before another range is mapped, of which nothing was mapped, is
  -- translated to the same one after it.
  pub Mapped-keep :
      (ctx ctx' : Ctx backend) (u v len i x : ℕ)
      → Disjoint ctx.map
      → Unmapped v len ctx.map
      → Mapped backend ctx ctx' v len i
      → translate_vaddr backend ctx u ≡ some x
      → translate_vaddr backend ctx' u ≡ some x
  Mapped-keep ctx ctx' u v len i x d h m e = elim (le-cases v u) [
    | inr below ↦ m.outside u (inl below) ∙ e
    | inl lo ↦ elim (le-cases (v + len) u) [
      | inl behind ↦ m.outside u (inr behind) ∙ e
      | inr hi ↦ absurd (ground (arith, sym e ∙ Unmapped-none ctx u v len d h lo hi))
    ]
  ]
