-- ===== src/Iommu.antt =====
-- src/iommu: the DMA mappings of a context, and the allocation of I/O virtual addresses.
pub mod Dma
pub mod Dmabuf
pub mod Same
pub mod Vfio
pub mod Reserve
