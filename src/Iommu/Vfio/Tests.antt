-- ===== src/Iommu/Vfio/Tests.antt =====
-- The VFIO backend on an address that is not aligned to the page size.
use libvfn.Base.{◌≡◌, refl, [], ◌∷◌, arith, ok, einval}
use libvfn.Support.Align.{aligned}
use libvfn.Iommu.Dma.{find, iova_map_find, translate_vaddr, map_vaddr, dma_map_add}
use libvfn.Iommu.Reserve.{Container, bump, iova_reserve}
use libvfn.Iommu.Reserve.Run.{Run}
use libvfn.Iommu.Vfio.{Ioctls, do_dma_map, vfio_ops}
use libvfn.Iommu.Vfio.Laws.{Context, Refused, map_vaddr-reserved}

abbrev ioctls : Ioctls
ioctls = record {
  State = Unit;
  map_dma = λ s vaddr len iova read write. (s, ok tt);
  unmap_dma = λ s iova len. (s, ok tt);
  unmap_all_dma = λ s. (s, ok tt);
}

abbrev container : Container
container = record {
  ranges = record { start = 65536; last = 2097151 } ∷ [];
  next = 131072;
  ephemerals = record { start = 65536; last = 131071 };
  next_ephemeral = 65536;
  nephemerals = 0;
  free_iovas = [];
}

abbrev start : Context ioctls 4096
start = record {
  map = [];
  state = record { container = container; kernel = tt };
  iova_max = 2097151;
  iova_next_same = 524288;
}

-- The kernel is not asked, and the next address has passed the page.
map_vaddr-reserved_example :
    let (ctx, ret) = map_vaddr (vfio_ops ioctls 4096) start 4097 4096 0 0 in
    Refused ioctls 4096 start.state ctx.state 4097 4096 131072 0 einval
    × (ctx.map ≡ [])
    × Run 4096 container ctx.state.container (record { start = 131072; len = 4096 } ∷ [])
unfolding translate_vaddr iova_map_find find iova_reserve bump aligned map_vaddr dma_map_add
    do_dma_map
map_vaddr-reserved_example =
    map_vaddr-reserved ioctls 4096 start container [] 4097 4096 0 131072 einval Run.start
      (omega arith) refl refl refl refl refl
