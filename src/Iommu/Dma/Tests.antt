-- ===== src/Iommu/Dma/Tests.antt =====
-- Runs of src/iommu/dma.c over a backend that hands out I/O addresses one after another.
use libvfn.Base.{
  ℕ, ◌+◌, ◌<◌, ◌≡◌, refl, some, none, [], ◌∷◌, arith, inl, inr, if◌then◌else◌, true, ok,
}
use libvfn.Iommu.Dma.{
  Mapping, Backend, Ctx, iova_map_add, iova_map_find, iova_cmp, find, link, translate_vaddr,
  map_vaddr, unmap_vaddr, dma_map_add, translate_iova, first_holding,
}
use libvfn.Iommu.Dma.Places.{holds, Disjoint}
use libvfn.Iommu.Dma.Map.{iova_map_add_overlap}
use libvfn.Iommu.Dma.Translate.{Mapped, map_vaddr-Mapped}
use libvfn.Iommu.Dma.Unmap.{unmap_vaddr-Unmapped}
use libvfn.Iommu.Dma.Reverse.{translate_iova-translate_vaddr}

abbrev backend : Backend
backend = record {
  State = ℕ;
  iova_reserve = some (λ next len flags. (next + len, ok next));
  iova_reserve_align = none;
  iova_put_ephemeral = none;
  dma_map = λ next vaddr len iova flags. (next, ok iova);
  dma_unmap = λ next iova len. (next, ok tt);
  dma_unmap_all = none;
}

abbrev page : Mapping
page = record { vaddr = 8192; len = 4096; iova = 65536; flags = 0 }

abbrev one_page : Ctx backend
one_page = record { map = page ∷ []; state = 69632; iova_max = 1000000; iova_next_same = 0 }

abbrev two_pages : Ctx backend
two_pages = record one_page {
  map = page ∷ record { vaddr = 16384; len = 8192; iova = 69632; flags = 0 } ∷ [];
  state = 77824;
}

map_run : map_vaddr backend one_page 16384 8192 0 0 ≡ (two_pages, ok 69632)
unfolding map_vaddr translate_vaddr iova_map_find dma_map_add iova_map_add find link iova_cmp
map_run = refl

map_vaddr-Mapped_example : Mapped backend one_page two_pages 16384 8192 69632
map_vaddr-Mapped_example =
    map_vaddr-Mapped backend one_page two_pages 16384 8192 0 0 69632 (ground arith) (omega arith)
      (inr (omega arith), tt) map_run

unmap_run : unmap_vaddr backend two_pages 20000 ≡ ((unmap_vaddr backend two_pages 20000).0, ok 8192)
unfolding unmap_vaddr iova_map_find find iova_cmp
unmap_run = refl

unmap_vaddr-Unmapped_example :
    let ctx' = (unmap_vaddr backend two_pages 20000).0 in
    (m : Mapping) × ((holds 20000 m ≡ true) × (m.len ≡ 8192))
    × Disjoint ctx'.map
    × ((u : ℕ)
        → translate_vaddr backend ctx' u
          ≡ (if holds u m then none else translate_vaddr backend two_pages u))
unmap_vaddr-Unmapped_example =
    unmap_vaddr-Unmapped backend two_pages (unmap_vaddr backend two_pages 20000).0 20000 8192
      (ground arith) unmap_run

abbrev lock : Mapping
lock = record { vaddr = 0; len = 0; iova = 0; flags = 1 }

iova_run : translate_iova lock two_pages.map 70000 ≡ ok (16752, 7824)
unfolding translate_iova first_holding
iova_run = refl

translate_iova-translate_vaddr_example :
    (0 < 7824)
    × ((k : ℕ) → k < 7824 → translate_vaddr backend two_pages (16752 + k) ≡ some (70000 + k))
translate_iova-translate_vaddr_example =
    translate_iova-translate_vaddr backend two_pages lock 70000 16752 7824 (ground arith) refl
      iova_run

iova_map_add_overlap_example :
    let (ms, ret) = iova_map_add two_pages.map 4096 8192 0 0 in (ret ≡ ok tt) × ¬ Disjoint ms
iova_map_add_overlap_example =
    iova_map_add_overlap two_pages.map 4096 8192 0 0 (ground arith) refl
      (inl (omega arith, omega arith)) (omega arith)
