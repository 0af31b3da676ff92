-- ===== src/Iommu/Vfio.antt =====
-- The VFIO backend of a context, `vfio_ops` of src/iommu/vfio.c: the allocator of I/O addresses, and
-- the kernel's mapping of memory as a parameter.
pub mod Laws
mod Tests
use Prim.Native.Nat.{bit_or}
use libvfn.Base.{
  ℕ, ◌+◌, ◌/◌, ◌%◌, Bool, not, Option, none, some, [], ◌==◌, if◌then◌else◌, einval, Result, ok, err,
}
use libvfn.Support.Align.{aligned}
use libvfn.Iommu.Dma.{Backend}
use libvfn.Iommu.Reserve.{Container, iova_reserve, iova_reserve_align, iova_put, put_ephemeral}

-- The ioctls VFIO_IOMMU_MAP_DMA, with the flags for reading and writing, and VFIO_IOMMU_UNMAP_DMA, of a
-- range and of all.
pub record Ioctls : Type 1 where
  pub State : Type 0
  pub map_dma : State → ℕ → ℕ → ℕ → Bool → Bool → State × Result {0} Unit
  pub unmap_dma : State → ℕ → ℕ → State × Result {0} Unit
  pub unmap_all_dma : State → State × Result {0} Unit

module _ (ioctls : Ioctls) (pagesize : ℕ) where
  -- `struct vfio_container` with the kernel's state behind its descriptor.
  pub record Vfio : Type 0 where
    pub container : Container
    pub kernel : ioctls.State

  -- `vfio_iommu_type1_do_dma_map`
  pub do_dma_map : Vfio → ℕ → ℕ → ℕ → ℕ → Vfio × Result ℕ
  do_dma_map v vaddr len iova flags =
      let (kernel, ret) =
        ioctls.map_dma v.kernel vaddr len iova (not (flags / 8 % 2 == 1))
          (not (flags / 4 % 2 == 1)) in
      if not (aligned (bit_or (bit_or vaddr len) iova) pagesize)
      then (v, err einval)
      else elim ret [
        | err e ↦ (record v { kernel = kernel }, err e)
        | ok _ ↦ (record v { kernel = kernel }, ok iova)
      ]

  -- `vfio_iommu_type1_do_dma_unmap`
  pub do_dma_unmap : Vfio → ℕ → ℕ → Vfio × Result {0} Unit
  do_dma_unmap v iova len =
      let (kernel, ret) = ioctls.unmap_dma v.kernel iova len in
      elim ret [
        | err e ↦ (record v { kernel = kernel }, err e)
        | ok _ ↦ (record { container = iova_put v.container iova len; kernel = kernel }, ok tt)
      ]

  -- `vfio_iommu_type1_do_dma_unmap_all`
  pub do_dma_unmap_all : Vfio → Vfio × Result {0} Unit
  do_dma_unmap_all v =
      let (kernel, ret) = ioctls.unmap_all_dma v.kernel in
      elim ret [
        | err e ↦ (record v { kernel = kernel }, err e)
        | ok _ ↦
            (record { container = record v.container { free_iovas = [] }; kernel = kernel }, ok tt)
      ]

  -- A call of the allocator.
  abbrev pub with_container : Vfio → Container × Result ℕ → Vfio × Result ℕ
  with_container v (c, ret) = (record v { container = c }, ret)

  -- `vfio_ops`, where the kernel can unmap all.
  abbrev pub vfio_ops : Backend
  vfio_ops = record {
    State = Vfio;
    iova_reserve =
        some (λ v len flags. with_container v (iova_reserve pagesize v.container len flags));
    iova_reserve_align = some (λ v len align flags.
        with_container v (iova_reserve_align pagesize v.container len align flags));
    iova_put_ephemeral = some (λ v. record v { container = put_ephemeral v.container });
    dma_map = do_dma_map;
    dma_unmap = do_dma_unmap;
    dma_unmap_all = some do_dma_unmap_all;
  }
