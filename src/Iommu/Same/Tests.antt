-- ===== src/Iommu/Same/Tests.antt =====
-- Memory at its own I/O address, from a kernel that finds the first address taken.
use libvfn.Base.{
  ℕ, suc, ◌%◌, ◌^◌, ◌≤◌, ◌≡◌, some, none, [], arith, ◌==◌, if◌then◌else◌, eexist, Result, ok, err,
}
use libvfn.Support.Align.{align_up}
use libvfn.Iommu.Dma.{Backend}
use libvfn.Iommu.Same.{FixedPages, SameMemory, alloc_same_iova}
use libvfn.Iommu.Same.Laws.{Same, alloc_same_iova-Same}

abbrev backend : Backend
backend = record {
  State = Unit;
  iova_reserve = none;
  iova_reserve_align = none;
  iova_put_ephemeral = none;
  dma_map = λ s vaddr len iova flags. (s, ok iova);
  dma_unmap = λ s iova len. (s, ok tt);
  dma_unmap_all = none;
}

abbrev kernel : FixedPages
kernel = record {
  State = Unit;
  mmap = λ s vaddr len. (s, if vaddr == 2 ^ 46 then err eexist else ok vaddr);
  munmap = λ s vaddr len. (s, ok tt);
}

abbrev start : SameMemory backend kernel
start = record {
  ctx = record { map = []; state = tt; iova_max = 2 ^ 48; iova_next_same = 2 ^ 46 };
  state = tt;
}

at_address : (a v : ℕ) → (kernel.mmap tt a 8192).1 ≡ ok v → v ≡ a
at_address a v h = ground (arith, h)

alloc_same_iova-Same_example :
    (m : SameMemory backend kernel) × (r : Result ℕ) × (alloc_same_iova backend kernel 4096
        (suc (2 ^ 34))
        start
        8000
      ≡ some (m, r))
    × ((8000 ≤ align_up 8000 4096) × (align_up 8000 4096 % 4096 ≡ 0))
    × ((v : ℕ) → r ≡ ok v → Same backend start.ctx m.ctx v (align_up 8000 4096))
unfolding align_up
alloc_same_iova-Same_example =
    alloc_same_iova-Same backend kernel 12 8000 start (2 ^ 34) (omega arith) (omega arith)
      (omega arith) (λ s v i h. ground (arith, h)) (λ s a v h. at_address a v h) (λ s a v h. tt) tt
      (omega arith) (omega arith)
