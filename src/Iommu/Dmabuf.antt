-- ===== src/Iommu/Dmabuf.antt =====
-- src/iommu/dmabuf.c, with `pgmap` and `pgunmap` of src/support/mem.c: memory that is allocated and
-- mapped in one step.
mod Tests
pub mod Laws
use libvfn.Base.{
  ℕ, ◌+◌, ◌-◌, ◌^◌, Option, none, some, ltb, ◌==◌, if◌then◌else◌, Errno, Result, ok, err,
}
use libvfn.Support.Word.{u64}
use libvfn.Support.Align.{align_up}
use libvfn.Iommu.Dma.{Backend, Ctx, map_vaddr, unmap_vaddr}

-- The kernel's `mmap` of anonymous memory, and `munmap`.
pub record Pages : Type 1 where
  pub State : Type 0
  pub mmap : State → ℕ → State × Result ℕ
  pub munmap : State → ℕ → ℕ → State

-- `struct iommu_dmabuf`, less the pointer to the context; a length of -1 is 2^64 - 1.
pub record Dmabuf : Type 0 where
  pub vaddr : ℕ
  pub iova : ℕ
  pub len : ℕ

abbrev pub zero_dmabuf : Dmabuf
zero_dmabuf = record { vaddr = 0; iova = 0; len = 0 }

-- `MAP_FAILED`
abbrev pub map_failed : ℕ
map_failed = u64 - 1

module _ (pages : Pages) (pagesize : ℕ) where
  -- `pgmap`: the address that it stores, and the length that it returns.
  unfoldable pub pgmap : pages.State → ℕ → pages.State × ℕ × Result ℕ
  pgmap state sz =
      let len = align_up sz pagesize in
      let (state', ret) = pages.mmap state len in
      elim ret [ err e ↦ (state', map_failed, err e) | ok vaddr ↦ (state', vaddr, ok len) ]

module _ (backend : Backend) (pages : Pages) (pagesize : ℕ) where
  -- A context and the process's memory.
  pub record Memory : Type 0 where
    pub ctx : Ctx backend
    pub state : pages.State

  -- `iommu_get_dmabuf` into a buffer with the given contents. A length of 2^63 and more is negative.
  unfoldable pub get_dmabuf : Memory → Dmabuf → ℕ → ℕ → Memory × Dmabuf × Result {0} Unit
  unfolding pgmap
  get_dmabuf m buffer len flags =
      let (state, vaddr, ret) = pgmap pages pagesize m.state len in
      elim ret [
        | err e ↦
            (record m { state = state }, record buffer { vaddr = vaddr; len = u64 - 1 }, err e)
        | ok n ↦
            let b = record buffer { vaddr = vaddr; len = n } in
            let (ctx, mapped) = map_vaddr backend m.ctx vaddr n buffer.iova flags in
            if ltb (2 ^ 63 - 1) n
            then (record m { state = state }, b, err Errno.enomem)
            else elim mapped [
              | err e ↦ (record { ctx = ctx; state = pages.munmap state vaddr n }, b, err e)
              | ok iova ↦ (record { ctx = ctx; state = state }, record b { iova = iova }, ok tt)
            ]
      ]

  -- `iommu_put_dmabuf`; `none` where `log_fatal_if` ends the program.
  unfoldable pub put_dmabuf : Memory → Dmabuf → Option (Memory × Dmabuf)
  put_dmabuf m buffer =
      let (ctx, ret) = unmap_vaddr backend m.ctx buffer.vaddr in
      if buffer.len == 0 then some (m, buffer) else elim ret [
        | err e ↦ none
        | ok _ ↦ some (
          record { ctx = ctx; state = pages.munmap m.state buffer.vaddr buffer.len },
          zero_dmabuf,
        )
      ]
