-- ===== src/Nvme/Ctrl/Admin/Create.antt =====
-- `nvme_create_iocq` of src/nvme/core.c: the command that it sends, and the queue that it leaves.
use libvfn.Base.{
  ℕ, ◌+◌, ◌*◌, ◌/◌, ◌%◌, ◌^◌, ◌≤◌, ◌<◌, ◌≡◌, ◌≢◌, refl, sym, ap, subst, ◌∙◌, none, some, List, [],
  ◌∷◌, ◌++◌, All, length, Option, arith, ◌==◌, if◌then◌else◌, update_ne, ok,
}
use libvfn.Support.Word.{u64}
use libvfn.Support.Align.{align_up}
use libvfn.Iommu.Dma.{Backend}
use libvfn.Iommu.Dma.Places.{Disjoint, Unmapped}
use libvfn.Iommu.Dma.Translate.{Mapped}
use libvfn.Iommu.Dmabuf.{Pages, Dmabuf}
use libvfn.Nvme.Cmd.{Cmd, Cqe}
use libvfn.Nvme.Queue.{Cq}
use libvfn.Nvme.Queue.Ring.{Pending}
use libvfn.Nvme.Rq.{rq_exec}
use libvfn.Nvme.Rq.Free.{count, Chain}
use libvfn.Nvme.Sync.{returns}
use libvfn.Nvme.Sync.Spin.{status}
use libvfn.Nvme.Ctrl.Queues.{Controller, CompletionQueue, configure_cq}
use libvfn.Nvme.Ctrl.Queues.Completion.{configure_cq_place, configure_cq_ok, fresh_cq, with_mem}
use libvfn.Nvme.Ctrl.Admin.{
  admin_queues, with_queues, admin, create_cq_cmd, send_create_cq, create_iocq,
}
use libvfn.Nvme.Ctrl.Admin.Run.{admin_lem}

-- What a Create I/O Completion Queue command tells, as the NVMe specification places it: the queue's
-- identifier, its size, which counts from 0, the physically contiguous memory at an I/O address, and
-- the vector of its interrupts, if they are enabled.
pub record CreateCq (cmd : Cmd) (qid qsize iova : ℕ) (vector : Option ℕ) : Type 0 where
  pub opcode_lem : cmd.opcode ≡ 5
  pub qid_lem : cmd.cdw10 % 2 ^ 16 ≡ qid
  pub qsize_lem : cmd.cdw10 / 2 ^ 16 + 1 ≡ qsize
  pub memory_lem : cmd.dptr.prp1 ≡ iova
  pub contiguous_lem : cmd.cdw11 % 2 ≡ 1
  pub vector_lem : (if cmd.cdw11 / 2 % 2 == 0 then none else some (cmd.cdw11 / 2 ^ 16)) ≡ vector

create_cq_cmd-CreateCq :
    (iova qid qsize : ℕ) (vector : Option ℕ)
    → qid < 2 ^ 16
    → 0 < qsize
    → qsize < 2 ^ 16
    → ((v : ℕ) → vector ≡ some v → v < 2 ^ 16)
    → CreateCq (create_cq_cmd iova qid qsize vector) qid qsize iova vector
unfolding create_cq_cmd
create_cq_cmd-CreateCq iova qid qsize none hq h0 hs hv = record {
  opcode_lem = refl;
  qid_lem = omega arith;
  qsize_lem = omega arith;
  memory_lem = refl;
  contiguous_lem = refl;
  vector_lem = refl;
}
create_cq_cmd-CreateCq iova qid qsize (some v) hq h0 hs hv =
    let lt : v < 2 ^ 16 = hv v refl in
    record {
      opcode_lem = refl;
      qid_lem = omega arith;
      qsize_lem = omega arith;
      memory_lem = refl;
      contiguous_lem = omega arith;
      vector_lem = ground (arith, lt);
    }

module _ (backend : Backend) (pages : Pages) (pagesize : ℕ) where
  -- The configuration of another completion queue leaves the admin queues alone.
  admin_queues-configured :
      (ctrl ctrl' : Controller backend pages pagesize) (qid qsize : ℕ) (vector : Option ℕ)
      (mem : Dmabuf)
      → (ctrl.sq 0).cq ≢ qid
      → with_mem backend pages pagesize ctrl qid qsize vector ctrl'.memory mem ≡ ctrl'
      → ((ctrl'.sq 0).cq ≢ qid)
        × (admin_queues backend pages pagesize ctrl' ≡ admin_queues backend pages pagesize ctrl)
  unfolding with_mem
  admin_queues-configured ctrl ctrl' qid qsize vector mem ne c =
      let c1 = with_mem backend pages pagesize ctrl qid qsize vector ctrl'.memory mem in
      let same : (c1.cq (ctrl.sq 0).cq).queue ≡ (ctrl.cq (ctrl.sq 0).cq).queue =
        ap (λ (q : CompletionQueue). q.queue)
          (update_ne ctrl.cq qid (ctrl.sq 0).cq
            (record (fresh_cq backend pages pagesize ctrl qid qsize vector) { mem = mem }) ne) in
      subst
        (λ (x : Controller backend pages pagesize).
          ((x.sq 0).cq ≢ qid)
          × (admin_queues backend pages pagesize x ≡ admin_queues backend pages pagesize ctrl))
        c (ne, ap (λ (x : Cq). record (admin_queues backend pages pagesize ctrl) { cq = x }) same)

  create_iocq-admin :
      (world : ℕ → ℕ → Cqe) (clock : ℕ → ℕ) (freq fuel rounds t : ℕ)
      (ctrl ctrl' : Controller backend pages pagesize) (qid qsize : ℕ) (vector : Option ℕ)
      → configure_cq backend pages pagesize ctrl qid qsize vector ≡ (ctrl', ok tt)
      → create_iocq backend pages pagesize world clock freq fuel rounds t ctrl qid qsize vector
        ≡ admin backend pages pagesize world clock freq fuel rounds t ctrl'
            (create_cq_cmd (ctrl'.cq qid).mem.iova qid qsize vector)
  unfolding create_iocq send_create_cq
  create_iocq-admin world clock freq fuel rounds t ctrl ctrl' qid qsize vector h =
      ap (send_create_cq backend pages pagesize world clock freq fuel rounds t qid qsize vector) h

module _ (backend : Backend) (pages : Pages) (k : ℕ) (world : ℕ → ℕ → Cqe) (clock : ℕ → ℕ)
    (freq fuel rounds t : ℕ) where
  -- `nvme_create_iocq` of a queue other than the admin queue's, with numbers of 16 bits, at a page size of
  -- a power of two, in a context of disjoint mappings, where the kernel gives memory of which nothing
  -- is mapped, and the configuration succeeds; with a tracker of the admin queue free, and the entry
  -- of the command pending behind those of others only. The controller is told of the place, the
  -- size, the vector and the I/O address of the queue that is left in that place: it has room for the
  -- size in memory that is mapped at that address, its slots are empty, and every other address is
  -- translated as before. The outcome is the status of the entry, and the tracker is free again.
  pub create_iocq_lem :
      (ctrl ctrl' : Controller backend pages (2 ^ k)) (qid qsize : ℕ) (vector : Option ℕ) (v i : ℕ)
      (free : List ℕ) (others : List Cqe) (e : Cqe) (es : List Cqe)
      → k < 64
      → qsize * 2 ^ 4 + 2 ^ k ≤ u64
      → qsize < 2 ^ 16
      → qid < 2 ^ 16
      → ((n : ℕ) → vector ≡ some n → n < 2 ^ 16)
      → (ctrl.sq 0).cq ≢ qid
      → Disjoint ctrl.memory.ctx.map
      → (pages.mmap ctrl.memory.state (align_up (qsize * 2 ^ 4) (2 ^ k))).1 ≡ ok v
      → Unmapped v (align_up (qsize * 2 ^ 4) (2 ^ k)) ctrl.memory.ctx.map
      → configure_cq backend pages (2 ^ k) ctrl qid qsize vector ≡ (ctrl', ok tt)
      → Chain (ctrl.sq 0).trackers.rqs (ctrl.sq 0).trackers.rq_top (i ∷ free)
      → count i free ≡ 0
      → ((t' : ℕ) → world t' ≡ (ctrl.cq (ctrl.sq 0).cq).queue.mem)
      → Pending (ctrl.cq (ctrl.sq 0).cq).queue (others ++ e ∷ es)
      → All (λ (c : Cqe). c.cid ≢ ((ctrl.sq 0).trackers.rqs i).cid) others
      → e.cid ≡ ((ctrl.sq 0).trackers.rqs i).cid
      → 0 < fuel
      → length others < rounds
      → (ctrl'' : Controller backend pages (2 ^ k)) × (cmd : Cmd) × (create_iocq backend pages
            (2 ^ k)
            world
            clock
            freq
            fuel
            rounds
            t
            ctrl
            qid
            qsize
            vector
          ≡ returns (ctrl'', status e))
        × ((ctrl''.sq 0).queue ≡ rq_exec (ctrl.sq 0).queue ((ctrl.sq 0).trackers.rqs i) cmd)
        × ((ctrl''.cq qid).queue.qsize ≡ qsize)
        × CreateCq cmd qid (ctrl''.cq qid).queue.qsize (ctrl''.cq qid).mem.iova vector
        × ((ctrl''.cq qid).queue.qsize * 2 ^ 4 ≤ (ctrl''.cq qid).mem.len)
        × Mapped backend ctrl.memory.ctx ctrl''.memory.ctx
            (ctrl''.cq qid).mem.vaddr
            (ctrl''.cq qid).mem.len
            (ctrl''.cq qid).mem.iova
        × ((2 ≤ (ctrl''.cq qid).queue.qsize) × Pending (ctrl''.cq qid).queue [])
        × Chain (ctrl''.sq 0).trackers.rqs (ctrl''.sq 0).trackers.rq_top (i ∷ free)
  create_iocq_lem ctrl ctrl' qid qsize vector v i free others e es hk hl hs hq hv ne d hm hu h hc hi
        still p ho he hf hr =
      let (two, _, c) = configure_cq_ok backend pages (2 ^ k) ctrl qid qsize vector ctrl' h in
      let (empty, (id, size), _, room, mapped, _) =
        configure_cq_place backend pages k ctrl ctrl' qid qsize vector v hk hl hs d hm hu h in
      let (ne', same) =
        admin_queues-configured backend pages (2 ^ k) ctrl ctrl' qid qsize vector (ctrl'.cq qid).mem
          ne c in
      let cmd = create_cq_cmd (ctrl'.cq qid).mem.iova qid qsize vector in
      let (q', run, posted, _, chain) =
        admin_lem backend pages (2 ^ k) world clock freq fuel rounds t ctrl'
          (admin_queues backend pages (2 ^ k) ctrl) cmd i free others e es same hc hi still p ho he
          hf hr in
      let kept : (with_queues backend pages (2 ^ k) ctrl' ctrl'.memory.ctx q').cq qid
          ≡ ctrl'.cq qid =
        update_ne ctrl'.cq (ctrl'.sq 0).cq qid (record (ctrl'.cq (ctrl'.sq 0).cq) { queue = q'.cq })
          (λ z. ne' (sym z)) in
      (
        with_queues backend pages (2 ^ k) ctrl' ctrl'.memory.ctx q',
        cmd,
        create_iocq-admin backend pages (2 ^ k) world clock freq fuel rounds t ctrl ctrl' qid qsize
              vector h
            ∙ run,
        posted,
        ap (λ (q : CompletionQueue). q.queue.qsize) kept ∙ size,
        subst (λ (q : CompletionQueue). CreateCq cmd qid q.queue.qsize q.mem.iova vector) (sym kept)
            (subst (λ n. CreateCq cmd qid n (ctrl'.cq qid).mem.iova vector) (sym size)
              (create_cq_cmd-CreateCq (ctrl'.cq qid).mem.iova qid qsize vector hq
                (omega (arith, two)) hs hv)),
        subst (λ (q : CompletionQueue). q.queue.qsize * 2 ^ 4 ≤ q.mem.len) (sym kept) room,
        subst
            (λ (q : CompletionQueue).
              Mapped backend ctrl.memory.ctx ctrl'.memory.ctx q.mem.vaddr q.mem.len q.mem.iova)
            (sym kept) mapped,
        subst (λ (q : CompletionQueue). (2 ≤ q.queue.qsize) × Pending q.queue []) (sym kept) empty,
        chain,
      )
