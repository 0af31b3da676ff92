-- ===== src/Nvme/Ctrl/Queues/Completion.antt =====
-- `nvme_configure_cq` of src/nvme/core.c: the queue that it leaves.
use libvfn.Base.{
  ℕ, zero, suc, ◌+◌, ◌*◌, ◌^◌, ◌≤◌, ◌<◌, ◌≡◌, ◌≢◌, refl, sym, ap, ap₂, subst, ◌∙◌, Option, [],
  arith, update, update_self, update_ne, ne→==, eq-cases, inl, inr, Errno, Result, ok, err,
}
use libvfn.Support.Word.{u64}
use libvfn.Support.Int.{offset_small}
use libvfn.Support.Align.{align_up}
use libvfn.Iommu.Dma.{Backend}
use libvfn.Iommu.Dma.Places.{Disjoint, Unmapped}
use libvfn.Iommu.Dma.Translate.{Mapped, Result-cases, not_ok}
use libvfn.Iommu.Dmabuf.{Pages, Dmabuf, zero_dmabuf, Memory, get_dmabuf}
use libvfn.Iommu.Dmabuf.Laws.{get_dmabuf-Mapped}
use libvfn.Nvme.Queue.Ring.{Holds, Pending, next_slot, next_phase}
use libvfn.Nvme.Ctrl.Fields.{cap_dstrd}
use libvfn.Nvme.Ctrl.Queues.{
  zero_cqe, CompletionQueue, cqhdbl, Controller, check_queue, new_cq, configure_cq,
}

-- Memory of zeros holds no entry in the first round.
zero-Holds : (q h k : ℕ) → h + k ≤ q → Holds q (λ i. zero_cqe) h 0 [] k
unfolding Holds
zero-Holds q h zero le = tt
zero-Holds q h (suc k) le = elim (eq-cases (suc h) q) [
  | inl e ↦
      let z : k ≡ 0 = omega arith in
      (
        refl,
        subst (λ i. Holds q (λ _. zero_cqe) (next_slot q h) (next_phase q h 0) [] i) (sym z) tt,
      )
  | inr e ↦ rw (ne→== (suc h) q e) (refl, zero-Holds q (suc h) k (omega arith))
]

module _ (backend : Backend) (pages : Pages) (pagesize : ℕ)
    (ctrl : Controller backend pages pagesize) where
  pub check_queue-size :
      (granted qid qsize : ℕ)
      → check_queue backend pages pagesize ctrl granted qid qsize ≡ ok tt
      → 2 ≤ qsize
  unfolding check_queue
  check_queue-size granted qid qsize h = ground (arith, h)

  module _ (qid qsize : ℕ) (vector : Option ℕ) where
    unfoldable pub fresh_cq : CompletionQueue
    fresh_cq = new_cq backend pages pagesize ctrl qid qsize vector (λ i. zero_cqe)

    unfoldable pub with_mem :
        Memory backend pages pagesize → Dmabuf → Controller backend pages pagesize
    unfolding fresh_cq
    with_mem m mem = record ctrl {
      memory = m;
      cq = update ctrl.cq qid (record fresh_cq { mem = mem });
    }

    pub configure_cq_checked :
        check_queue backend pages pagesize ctrl ctrl.ncqa qid qsize ≡ ok tt
        → let g = get_dmabuf backend pages pagesize ctrl.memory zero_dmabuf (qsize * 2 ^ 4) 0 in
          configure_cq backend pages pagesize ctrl qid qsize vector ≡ (with_mem g.0 g.1, g.2)
    unfolding configure_cq with_mem new_cq
    configure_cq_checked h = rw (configure_cq, h) refl

    configure_cq_refused :
        (e : Errno)
        → check_queue backend pages pagesize ctrl ctrl.ncqa qid qsize ≡ err e
        → configure_cq backend pages pagesize ctrl qid qsize vector ≡ (ctrl, err e)
    unfolding configure_cq
    configure_cq_refused e h = rw (configure_cq, h) refl

    -- A call that succeeds has passed the checks, and has got the memory.
    pub configure_cq_ok :
        (ctrl' : Controller backend pages pagesize)
        → configure_cq backend pages pagesize ctrl qid qsize vector ≡ (ctrl', ok tt)
        → (2 ≤ qsize)
          × (get_dmabuf backend pages pagesize ctrl.memory zero_dmabuf (qsize * 2 ^ 4) 0
              ≡ (ctrl'.memory, (ctrl'.cq qid).mem, ok tt))
          × (with_mem ctrl'.memory (ctrl'.cq qid).mem ≡ ctrl')
    unfolding with_mem
    configure_cq_ok ctrl' h =
        elim (Result-cases (check_queue backend pages pagesize ctrl ctrl.ncqa qid qsize)) [
          | inl (e, w) ↦ absurd (
              not_ok (
                sym (
                  ap (λ (p : Controller backend pages pagesize × Result Unit). p.1)
                    (configure_cq_refused e w))
                ∙ ap (λ (p : Controller backend pages pagesize × Result Unit). p.1) h))
          | inr (u, w) ↦
              let g = get_dmabuf backend pages pagesize ctrl.memory zero_dmabuf (qsize * 2 ^ 4) 0 in
              let q = sym (configure_cq_checked w) ∙ h in
              let c : with_mem g.0 g.1 ≡ ctrl' =
                ap (λ (p : Controller backend pages pagesize × Result Unit). p.0) q in
              let r : g.2 ≡ ok tt =
                ap (λ (p : Controller backend pages pagesize × Result Unit). p.1) q in
              let m : g.0 ≡ ctrl'.memory =
                ap (λ (c : Controller backend pages pagesize). c.memory) c in
              let d : g.1 ≡ (ctrl'.cq qid).mem =
                sym (
                  ap (λ (x : CompletionQueue). x.mem)
                    (update_self ctrl.cq qid (record fresh_cq { mem = g.1 })))
                ∙ ap (λ (c : Controller backend pages pagesize). (c.cq qid).mem) c in
              (
                check_queue-size ctrl.ncqa qid qsize w,
                λ i. (m i, d i, r i),
                sym (ap₂ with_mem m d) ∙ c,
              )
        ]

    -- The queue that such a call leaves in its place.
    pub configured_place :
        (ctrl' : Controller backend pages pagesize) (mem : Dmabuf)
        → with_mem ctrl'.memory mem ≡ ctrl'
        → record fresh_cq { mem = mem } ≡ ctrl'.cq qid
    unfolding with_mem
    configured_place ctrl' mem c =
        sym (update_self ctrl.cq qid (record fresh_cq { mem = mem }))
        ∙ ap (λ (c : Controller backend pages pagesize). c.cq qid) c

module _ (backend : Backend) (pages : Pages) (k : ℕ) where
  -- What a call that succeeds leaves, with the doorbell as the code computes it.
  pub configure_cq_place :
      (ctrl ctrl' : Controller backend pages (2 ^ k)) (qid qsize : ℕ) (vector : Option ℕ) (v : ℕ)
      → k < 64
      → qsize * 2 ^ 4 + 2 ^ k ≤ u64
      → qsize < 2 ^ 16
      → Disjoint ctrl.memory.ctx.map
      → (pages.mmap ctrl.memory.state (align_up (qsize * 2 ^ 4) (2 ^ k))).1 ≡ ok v
      → Unmapped v (align_up (qsize * 2 ^ 4) (2 ^ k)) ctrl.memory.ctx.map
      → configure_cq backend pages (2 ^ k) ctrl qid qsize vector ≡ (ctrl', ok tt)
      → let q = ctrl'.cq qid in
        ((2 ≤ q.queue.qsize) × Pending q.queue [])
        × ((q.queue.id ≡ qid) × (q.queue.qsize ≡ qsize))
        × (q.doorbell_at ≡ cqhdbl ctrl.doorbells qid (cap_dstrd ctrl.cap))
        × (q.queue.qsize * 2 ^ 4 ≤ q.mem.len)
        × Mapped backend ctrl.memory.ctx ctrl'.memory.ctx q.mem.vaddr q.mem.len q.mem.iova
        × ((j : ℕ) → j ≢ qid → ctrl'.cq j ≡ ctrl.cq j)
  unfolding with_mem fresh_cq new_cq cqhdbl
  configure_cq_place ctrl ctrl' qid qsize vector v hk hl hs d hm hu h =
      let (two, g, c) = configure_cq_ok backend pages (2 ^ k) ctrl qid qsize vector ctrl' h in
      let (size, mapped, _) =
        get_dmabuf-Mapped backend pages k ctrl.memory ctrl'.memory zero_dmabuf (ctrl'.cq qid).mem
          (qsize * 2 ^ 4) 0 v hk (omega arith) hl d hm hu g in
      let q = record (fresh_cq backend pages (2 ^ k) ctrl qid qsize vector) {
        mem = (ctrl'.cq qid).mem;
      } in
      let e =
        configured_place backend pages (2 ^ k) ctrl qid qsize vector ctrl' (ctrl'.cq qid).mem c in
      let empty : Pending q.queue [] = record {
        within = omega arith;
        small = hs;
        bit = omega arith;
        holds = zero-Holds qsize 0 qsize (omega arith);
      } in
      (
        subst (λ (q : CompletionQueue). (2 ≤ q.queue.qsize) × Pending q.queue []) e (two, empty),
        (
          ap (λ (q : CompletionQueue). q.queue.id) (sym e),
          ap (λ (q : CompletionQueue). q.queue.qsize) (sym e),
        ),
        ap (λ (q : CompletionQueue). q.doorbell_at) (sym e),
        subst (λ (n : ℕ). n * 2 ^ 4 ≤ (ctrl'.cq qid).mem.len)
            (ap (λ (q : CompletionQueue). q.queue.qsize) e) size.0,
        mapped,
        λ j hj.
            ap (λ (c : Controller backend pages (2 ^ k)). c.cq j) (sym c)
            ∙ update_ne ctrl.cq qid j q hj,
      )

  -- `nvme_configure_cq`, where it succeeds, for a queue of less than 65536 entries, at a page size of
  -- a power of two, in a context of disjoint mappings, where the kernel gives memory of which nothing
  -- is mapped, an `int` holds the distance to the doorbell and the address of that is one of 64 bits:
  -- the queue has at least two slots, none of them pending, so that the reaping of entries can
  -- start; the identifier and the size are the given ones; the doorbell is the one that the
  -- controller has for it; the memory has room for the slots, and each address of it is translated
  -- to the one as far from the `iova` that the controller will be told, every other as before. No
  -- other queue changes.
  pub configure_cq_lem :
      (ctrl ctrl' : Controller backend pages (2 ^ k)) (qid qsize : ℕ) (vector : Option ℕ) (v : ℕ)
      → k < 64
      → qsize * 2 ^ 4 + 2 ^ k ≤ u64
      → qsize < 2 ^ 16
      → (2 * qid + 1) * (4 * 2 ^ cap_dstrd ctrl.cap) < 2 ^ 31
      → ctrl.doorbells + (2 * qid + 1) * (4 * 2 ^ cap_dstrd ctrl.cap) < u64
      → Disjoint ctrl.memory.ctx.map
      → (pages.mmap ctrl.memory.state (align_up (qsize * 2 ^ 4) (2 ^ k))).1 ≡ ok v
      → Unmapped v (align_up (qsize * 2 ^ 4) (2 ^ k)) ctrl.memory.ctx.map
      → configure_cq backend pages (2 ^ k) ctrl qid qsize vector ≡ (ctrl', ok tt)
      → let q = ctrl'.cq qid in
        ((2 ≤ q.queue.qsize) × Pending q.queue [])
        × ((q.queue.id ≡ qid) × (q.queue.qsize ≡ qsize))
        × (q.doorbell_at ≡ ctrl.doorbells + (2 * qid + 1) * (4 * 2 ^ cap_dstrd ctrl.cap))
        × (q.queue.qsize * 2 ^ 4 ≤ q.mem.len)
        × Mapped backend ctrl.memory.ctx ctrl'.memory.ctx q.mem.vaddr q.mem.len q.mem.iova
        × ((j : ℕ) → j ≢ qid → ctrl'.cq j ≡ ctrl.cq j)
  unfolding cqhdbl
  configure_cq_lem ctrl ctrl' qid qsize vector v hk hl hs hi hd d hm hu h =
      let (empty, given, at, room, mapped, others) =
        configure_cq_place ctrl ctrl' qid qsize vector v hk hl hs d hm hu h in
      (
        empty,
        given,
        at ∙ offset_small ctrl.doorbells ((2 * qid + 1) * (4 * 2 ^ cap_dstrd ctrl.cap)) hi hd,
        room,
        mapped,
        others,
      )
