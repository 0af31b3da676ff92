-- ===== src/Nvme/Ctrl/Tests/Start.antt =====
-- The start of a controller with broken doorbell buffers.
use libvfn.Base.{true, none, ◌+◌, ◌^◌, ◌≡◌, refl, none, [], ◌∷◌, arith, ok}
use libvfn.Support.Align.{align_up}
use libvfn.Iommu.Dma.{
  find, link, iova_map_add, iova_map_find, translate_vaddr, dma_map_add, map_vaddr,
}
use libvfn.Iommu.Dmabuf.{Dmabuf, zero_dmabuf, Memory, get_dmabuf, pgmap}
use libvfn.Nvme.Queue.Ring.{Pending, Holds}
use libvfn.Nvme.Sync.{returns}
use libvfn.Nvme.Ctrl.Queues.{Controller, discard_cq}
use libvfn.Nvme.Ctrl.Admin.{admin_queues, with_queues, admin}
use libvfn.Nvme.Ctrl.Admin.Run.{admin_lem}
use libvfn.Nvme.Ctrl.Start.{dbconfig_cmd, init_dbconfig}
use libvfn.Nvme.Ctrl.Start.Doorbells.{init_dbconfig-discard_cq}
use libvfn.Nvme.Ctrl.Tests.Data.{backend, pages, entries, set_up}

-- The admin completion queue has memory.
abbrev begun : Controller backend pages 4096
begun = record set_up {
  cq = λ i. record (set_up.cq i) { mem = record { vaddr = 4096; iova = 4096; len = 4096 } };
}

abbrev doorbells : Dmabuf
doorbells = record { vaddr = 2 ^ 20; iova = 65536; len = 4096 }

abbrev eventidxs : Dmabuf
eventidxs = record { vaddr = 2 ^ 20 + 4096; iova = 65536 + 4096; len = 4096 }

abbrev first_memory : Memory backend pages 4096
first_memory = (get_dmabuf backend pages 4096 begun.memory zero_dmabuf 4096 0).0

abbrev second_memory : Memory backend pages 4096
second_memory = (get_dmabuf backend pages 4096 first_memory zero_dmabuf 4096 0).0

abbrev ready : Controller backend pages 4096
ready = record begun {
  memory = second_memory;
  dbbuf_doorbells = doorbells;
  dbbuf_eventidxs = eventidxs;
}

begun-Pending : Pending (begun.cq 0).queue (entries 0 ∷ [])
unfolding Holds
begun-Pending = record {
  within = omega arith;
  small = omega arith;
  bit = omega arith;
  holds = (refl, omega arith, (refl, (refl, (refl, tt))));
}

-- The command, whose entry is pending.
told :
    (ctrl : Controller backend pages 4096) × (admin backend pages 4096
        (λ t. entries)
        (λ t. t)
        1
        1
        1
        0
        ready
        (dbconfig_cmd backend pages 4096 ready)
      ≡ returns (ctrl, ok tt))
told =
    let (q, run, posted, pending, chain) =
      admin_lem backend pages 4096 (λ t. entries) (λ t. t) 1 1 1 0 ready
        (admin_queues backend pages 4096 ready) (dbconfig_cmd backend pages 4096 ready) 0 [] []
        (entries 0) [] refl (refl, refl) refl (λ t. refl) begun-Pending tt refl (omega arith)
        (omega arith) in
    (with_queues backend pages 4096 ready second_memory.ctx q, run)

init_dbconfig-discard_cq_example :
    (init_dbconfig backend pages 4096 (λ t. entries) (λ t. t) 1 1 1 0 true begun
      ≡ returns (told.0, ok tt))
    × (discard_cq backend pages 4096 told.0 0 ≡ none)
unfolding get_dmabuf pgmap align_up map_vaddr translate_vaddr iova_map_find find dma_map_add
    iova_map_add link
init_dbconfig-discard_cq_example =
    init_dbconfig-discard_cq backend pages 4096 (λ t. entries) (λ t. t) 1 1 1 0 begun told.0
      first_memory second_memory doorbells eventidxs (λ z. omega (arith, z)) refl refl
      (λ z. omega (arith, z)) refl told.1
