-- ===== src/Iommu/Dma/Errors.antt =====
-- The calls of src/iommu/dma.c that fail.
use libvfn.Base.{ℕ, ◌≡◌, refl, none, Errno, Result, err, arith, enoent, List}
use libvfn.Iommu.Dma.{
  Mapping, Backend, Ctx, iova_map_add, translate_vaddr, dma_map_add, map_vaddr, map_vaddr_align,
  unmap_vaddr,
}

iova_map_add_err :
    (map : List Mapping) (v len iova flags : ℕ) (e : Errno)
    → (iova_map_add map v len iova flags).1 ≡ err e
    → (iova_map_add map v len iova flags).0 ≡ map
unfolding iova_map_add
iova_map_add_err map v len iova flags e h = ground (arith, h)

module _ (backend : Backend) where
  dma_map_add_err :
      (ctx : Ctx backend) (v len iova flags : ℕ) (e : Errno)
      → (dma_map_add backend ctx v len iova flags).1 ≡ err e
      → (dma_map_add backend ctx v len iova flags).0.map ≡ ctx.map
  unfolding dma_map_add
  dma_map_add_err ctx v len iova flags e h = ground (arith, iova_map_add_err ctx.map v len)

  pub map_vaddr_err :
      (ctx : Ctx backend) (v len iova flags : ℕ) (e : Errno)
      → (map_vaddr backend ctx v len iova flags).1 ≡ err e
      → (map_vaddr backend ctx v len iova flags).0.map ≡ ctx.map
  unfolding map_vaddr
  map_vaddr_err ctx v len iova flags e h = ground (arith, dma_map_add_err ctx v len)

  map_vaddr_align_err :
      (ctx : Ctx backend) (v len align flags : ℕ) (e : Errno)
      → (map_vaddr_align backend ctx v len align flags).1 ≡ err e
      → (map_vaddr_align backend ctx v len align flags).0.map ≡ ctx.map
  unfolding map_vaddr_align
  map_vaddr_align_err ctx v len align flags e h = ground (arith, dma_map_add_err ctx v len)

  unmap_vaddr_err :
      (ctx : Ctx backend) (v : ℕ) (e : Errno)
      → (unmap_vaddr backend ctx v).1 ≡ err e
      → (unmap_vaddr backend ctx v).0.map ≡ ctx.map
  unfolding unmap_vaddr
  unmap_vaddr_err ctx v e h = ground arith

  pub translate_by_map :
      (ctx ctx' : Ctx backend) (u : ℕ)
      → ctx'.map ≡ ctx.map
      → translate_vaddr backend ctx' u ≡ translate_vaddr backend ctx u
  unfolding translate_vaddr
  translate_by_map ctx ctx' u h = rw h refl

  -- An address without a mapping cannot be unmapped.
  pub unmap_vaddr-none :
      (ctx : Ctx backend) (v : ℕ)
      → translate_vaddr backend ctx v ≡ none
      → unmap_vaddr backend ctx v ≡ (ctx, err enoent)
  unfolding unmap_vaddr translate_vaddr
  unmap_vaddr-none ctx v h = ground arith

  -- The calls that change the map of a context.
  pub data Call : Type 0 where
    map : (vaddr len iova flags : ℕ) → Call
    map_align : (vaddr len align flags : ℕ) → Call
    unmap : (vaddr : ℕ) → Call

  abbrev pub call : Ctx backend → Call → Ctx backend × Result ℕ
  call ctx (map vaddr len iova flags) = map_vaddr backend ctx vaddr len iova flags
  call ctx (map_align vaddr len align flags) = map_vaddr_align backend ctx vaddr len align flags
  call ctx (unmap vaddr) = unmap_vaddr backend ctx vaddr

  pub call_err-map :
      (ctx : Ctx backend) (c : Call) (e : Errno)
      → (call ctx c).1 ≡ err e
      → (call ctx c).0.map ≡ ctx.map
  call_err-map ctx (map v len iova flags) e h = map_vaddr_err ctx v len iova flags e h
  call_err-map ctx (map_align v len align flags) e h = map_vaddr_align_err ctx v len align flags e h
  call_err-map ctx (unmap v) e h = unmap_vaddr_err ctx v e h

  -- `iommu_map_vaddr`, `iommu_map_vaddr_align` and `iommu_unmap_vaddr`, whatever the cause for which
  -- they fail, leave the translation of every address as it was.
  pub call_err-translate_vaddr :
      (ctx : Ctx backend) (c : Call) (e : Errno) (u : ℕ)
      → (call ctx c).1 ≡ err e
      → translate_vaddr backend (call ctx c).0 u ≡ translate_vaddr backend ctx u
  call_err-translate_vaddr ctx c e u h =
      translate_by_map ctx (call ctx c).0 u (call_err-map ctx c e h)
