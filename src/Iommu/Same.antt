-- ===== src/Iommu/Same.antt =====
-- The allocator of memory at an address that is its I/O address too, `iommu_alloc_same_iova` of
-- src/iommu/dma.c, with its initial state in src/iommu/context.h.
pub mod Laws
mod Tests
use libvfn.Base.{
  ℕ, zero, suc, ◌+◌, ◌-◌, ◌/◌, ◌^◌, Bool, true, false, ◌||◌, Option, none, some, [], leb, ltb,
  if◌then◌else◌, Errno, eexist, enomem, Result, ok, err,
}
use libvfn.Support.Word.{add64}
use libvfn.Support.Align.{align_up}
use libvfn.Iommu.Dma.{Backend, Ctx, map_vaddr, unmap_vaddr}

-- The kernel's `mmap` with MAP_FIXED_NOREPLACE at an address, and `munmap`.
pub record FixedPages : Type 1 where
  pub State : Type 0
  pub mmap : State → ℕ → ℕ → State × Result ℕ
  pub munmap : State → ℕ → ℕ → State × Result {0} Unit

-- `IOMMU_MAX_SAME_IOVA`
abbrev pub max_same_iova : ℕ
max_same_iova = 2 ^ 47 - 1

-- `iommu_init_next_same`: the first address, for the highest I/O address.
pub init_next_same : ℕ → ℕ
init_next_same iova_max = (if ltb max_same_iova iova_max then max_same_iova else iova_max) / 4 + 1

abbrev pub is_eexist : Errno → Bool
is_eexist eexist = true
is_eexist _ = false

module _ (backend : Backend) (pages : FixedPages) where
  pub record SameMemory : Type 0 where
    pub ctx : Ctx backend
    pub state : pages.State

  -- `iommu_ctx_init`, with the state of the backend; its one range is for the backend.
  pub ctx_init : backend.State → Ctx backend
  unfolding init_next_same
  ctx_init state = record {
    map = [];
    state = state;
    iova_max = 2 ^ 39 - 1;
    iova_next_same = init_next_same (2 ^ 39 - 1);
  }

  -- The next address moves on by `len`.
  abbrev pub move_on : Ctx backend → ℕ → Ctx backend
  move_on ctx len = record ctx { iova_next_same = add64 ctx.iova_next_same len }

  -- From what `iommu_map_vaddr` has returned for memory at `vaddr` on.
  pub keep_same : SameMemory → ℕ → ℕ → Ctx backend × Result ℕ → SameMemory × Result ℕ
  keep_same m vaddr len (ctx, err e) =
      (record { ctx = ctx; state = (pages.munmap m.state vaddr len).0 }, err e)
  keep_same m vaddr len (ctx, ok _) = (record m { ctx = move_on ctx len }, ok vaddr)

  -- From `iommu_map_vaddr` on. The flag is IOMMU_MAP_FIXED_IOVA.
  pub map_same : SameMemory → ℕ → ℕ → SameMemory × Result ℕ
  unfolding keep_same
  map_same m vaddr len = keep_same m vaddr len (map_vaddr backend m.ctx vaddr len vaddr 1)

  -- From `retry:` on, with the length in whole pages; `none` where the fuel is not enough.
  pub retry_same : ℕ → SameMemory → ℕ → Option (SameMemory × Result ℕ)
  unfolding map_same
  retry_same zero m len = none
  retry_same (suc fuel) m len =
      let next = m.ctx.iova_next_same in
      let (state, got) = pages.mmap m.state next len in
      let again = retry_same fuel (record { ctx = move_on m.ctx len; state = state }) len in
      if leb m.ctx.iova_max (add64 next len) || leb max_same_iova (add64 next len)
      then some (m, err enomem)
      else elim got [
        | err e ↦ if is_eexist e then again else some (record m { state = state }, err e)
        | ok vaddr ↦ some (map_same (record m { state = state }) vaddr len)
      ]

  -- `iommu_alloc_same_iova`, with `__VFN_PAGESIZE`
  pub alloc_same_iova : ℕ → ℕ → SameMemory → ℕ → Option (SameMemory × Result ℕ)
  unfolding retry_same
  alloc_same_iova pagesize fuel m len = retry_same fuel m (align_up len pagesize)

  -- `iommu_free_same_iova`
  pub free_same_iova : SameMemory → ℕ → SameMemory × Result {0} Unit
  free_same_iova m vaddr =
      let (ctx, unmapped) = unmap_vaddr backend m.ctx vaddr in
      elim unmapped [
        | err e ↦ (record m { ctx = ctx }, err e)
        | ok len ↦
            let (state, ret) = pages.munmap m.state vaddr len in
            (record { ctx = ctx; state = state }, ret)
      ]
