-- ===== src/Nvme/Ctrl/Tests/Queues.antt =====
-- The configuration, the creation and the discarding of queues, run on a concrete controller.
use libvfn.Base.{
  inr, ℕ, ◌+◌, ◌*◌, ◌^◌, ◌≤◌, ◌≡◌, ◌≢◌, refl, ap, ◌∙◌, some, none, [], ◌∷◌, arith, Result, ok,
  enomem,
}
use libvfn.Support.Align.{align_up}
use libvfn.Iommu.Dma.{
  find, link, iova_map_add, iova_map_find, translate_vaddr, dma_map_add, map_vaddr,
}
use libvfn.Iommu.Dma.Translate.{Mapped}
use libvfn.Iommu.Dmabuf.{Memory, zero_dmabuf, get_dmabuf, pgmap}
use libvfn.Nvme.Cmd.{Cmd}
use libvfn.Nvme.Queue.Ring.{Pending, Holds}
use libvfn.Nvme.Rq.{rq_exec}
use libvfn.Nvme.Rq.Free.{Chain}
use libvfn.Nvme.Sync.{returns}
use libvfn.Nvme.Sync.Spin.{status}
use libvfn.Nvme.Ctrl.Fields.{field_get, cap_dstrd}
use libvfn.Nvme.Ctrl.Queues.{Controller, zero_cq, check_queue, configure_cq, discard_cq}
use libvfn.Nvme.Ctrl.Queues.Completion.{configure_cq_lem}
use libvfn.Nvme.Ctrl.Admin.{create_iocq}
use libvfn.Nvme.Ctrl.Admin.Create.{CreateCq, create_iocq_lem}
use libvfn.Nvme.Ctrl.Queues.Discard.{configure_cq-discard_cq, configure_cq_err-discard_cq}
use libvfn.Nvme.Ctrl.Submission.{configure_sq}
use libvfn.Nvme.Ctrl.Submission.Configure.{Usable, configure_sq-Usable}
use libvfn.Nvme.Ctrl.Tests.Data.{cap, backend, full, pages, start, refused, entries, set_up}

-- A queue of 32 entries in place 1, with vector 0.
abbrev configured : Controller backend pages 4096
configured = (configure_cq backend pages 4096 start 1 32 (some 0)).0

configured_run : configure_cq backend pages 4096 start 1 32 (some 0) ≡ (configured, ok tt)
unfolding configure_cq check_queue get_dmabuf pgmap align_up map_vaddr translate_vaddr iova_map_find
    find dma_map_add iova_map_add link field_get
configured_run = refl

configure_cq_lem_example :
    let q = configured.cq 1 in
    ((2 ≤ q.queue.qsize) × Pending q.queue [])
    × ((q.queue.id ≡ 1) × (q.queue.qsize ≡ 32))
    × (q.doorbell_at ≡ 4096 + (2 * 1 + 1) * (4 * 2 ^ cap_dstrd cap))
    × (q.queue.qsize * 2 ^ 4 ≤ q.mem.len)
    × Mapped backend start.memory.ctx configured.memory.ctx q.mem.vaddr q.mem.len q.mem.iova
    × ((j : ℕ) → j ≢ 1 → configured.cq j ≡ start.cq j)
unfolding align_up field_get
configure_cq_lem_example =
    configure_cq_lem backend pages 12 start configured 1 32 (some 0) (2 ^ 20) (omega arith)
      (omega arith) (omega arith) (omega arith) (omega arith) tt refl tt configured_run

configure_cq-discard_cq_example :
    (ctrl : Controller backend pages 4096) × (discard_cq backend pages 4096 configured 1
      ≡ some ctrl)
    × ((u : ℕ)
        → translate_vaddr backend ctrl.memory.ctx u ≡ translate_vaddr backend start.memory.ctx u)
    × (ctrl.cq 1 ≡ zero_cq)
    × ((j : ℕ) → j ≢ 1 → ctrl.cq j ≡ start.cq j)
unfolding align_up
configure_cq-discard_cq_example =
    configure_cq-discard_cq backend pages 12 start configured 1 32 (some 0) (2 ^ 20) (omega arith)
      (omega arith) tt refl (λ z. omega (arith, z)) tt configured_run refl

configure_cq_err-discard_cq_example :
    discard_cq full pages 4096 (configure_cq full pages 4096 refused 1 32 (some 0)).0 1 ≡ none
unfolding configure_cq check_queue get_dmabuf pgmap align_up map_vaddr translate_vaddr iova_map_find
    find dma_map_add field_get
configure_cq_err-discard_cq_example =
    configure_cq_err-discard_cq full pages 4096 refused
      (configure_cq full pages 4096 refused 1 32 (some 0)).0 1 32 (some 0) enomem refl (omega arith)
      refl
      (λ v e.
        (refl, λ z. let q : Result.ok (2 ^ 20) ≡ ok 0 = e ∙ ap (λ x. ok x) z in ground (arith, q)))
      refl

set_up-Pending : Pending (set_up.cq 0).queue (entries 0 ∷ [])
unfolding Holds
set_up-Pending = record {
  within = omega arith;
  small = omega arith;
  bit = omega arith;
  holds = (refl, omega arith, (refl, (refl, (refl, tt))));
}

abbrev with_queue : Controller backend pages 4096
with_queue = (configure_cq backend pages 4096 set_up 1 32 (some 0)).0

with_queue_run : configure_cq backend pages 4096 set_up 1 32 (some 0) ≡ (with_queue, ok tt)
unfolding configure_cq check_queue get_dmabuf pgmap align_up map_vaddr translate_vaddr iova_map_find
    find dma_map_add iova_map_add link field_get
with_queue_run = refl

create_iocq_lem_example :
    (ctrl : Controller backend pages 4096) × (cmd : Cmd) × (create_iocq backend pages 4096
        (λ t. entries)
        (λ t. t)
        1
        1
        1
        0
        set_up
        1
        32
        (some 0)
      ≡ returns (ctrl, status (entries 0)))
    × ((ctrl.sq 0).queue ≡ rq_exec (set_up.sq 0).queue ((set_up.sq 0).trackers.rqs 0) cmd)
    × ((ctrl.cq 1).queue.qsize ≡ 32)
    × CreateCq cmd 1 (ctrl.cq 1).queue.qsize (ctrl.cq 1).mem.iova (some 0)
    × ((ctrl.cq 1).queue.qsize * 2 ^ 4 ≤ (ctrl.cq 1).mem.len)
    × Mapped backend set_up.memory.ctx ctrl.memory.ctx
        (ctrl.cq 1).mem.vaddr
        (ctrl.cq 1).mem.len
        (ctrl.cq 1).mem.iova
    × ((2 ≤ (ctrl.cq 1).queue.qsize) × Pending (ctrl.cq 1).queue [])
    × Chain (ctrl.sq 0).trackers.rqs (ctrl.sq 0).trackers.rq_top (0 ∷ [])
unfolding align_up
create_iocq_lem_example =
    create_iocq_lem backend pages 12 (λ t. entries) (λ t. t) 1 1 1 0 set_up with_queue 1 32 (some 0)
      (2 ^ 20) 0 [] [] (entries 0) [] (omega arith) (omega arith) (omega arith) (omega arith)
      (λ n e. ground (arith, e)) (λ z. omega (arith, z)) tt refl tt with_queue_run (refl, refl) refl
      (λ t. refl) set_up-Pending tt refl (omega arith) (omega arith)

-- A submission queue of 4 entries in place 1: the memory after its pages, and after its slots.
abbrev paged_memory : Memory backend pages 4096
paged_memory = (get_dmabuf backend pages 4096 start.memory zero_dmabuf (4 * 2 ^ 12) 0).0

abbrev with_memory : Memory backend pages 4096
with_memory = (get_dmabuf backend pages 4096 paged_memory zero_dmabuf (4 * 2 ^ 6) 0).0

configure_sq-Usable_example :
    (ctrl : Controller backend pages 4096) × (configure_sq backend pages 4096 start 1 4 1
      ≡ some (ctrl, ok tt))
    × Usable backend ctrl.memory.ctx 1 4 12 (4096 + 2 * 1 * (4 * 2 ^ cap_dstrd cap)) (ctrl.sq 1)
    × ((j : ℕ) → j ≢ 1 → ctrl.sq j ≡ start.sq j)
unfolding check_queue get_dmabuf pgmap align_up map_vaddr translate_vaddr iova_map_find find
    dma_map_add iova_map_add link field_get
configure_sq-Usable_example =
    configure_sq-Usable backend pages 12 start 1 4 1 (2 ^ 20) (2 ^ 20 + 2 ^ 14) paged_memory
      with_memory (record { vaddr = 2 ^ 20; iova = 65536; len = 2 ^ 14 })
      (record { vaddr = 2 ^ 20 + 2 ^ 14; iova = 65536 + 2 ^ 14; len = 4096 }) (omega arith)
      (omega arith) (omega arith) (omega arith) (omega arith) (omega arith) (omega arith) refl tt
      refl tt refl refl (inr (omega arith), tt) refl
