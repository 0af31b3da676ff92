-- ===== src/Nvme/Ctrl/Submission/Configure.antt =====
-- `nvme_configure_sq` of src/nvme/core.c: the queue that it leaves, and what it takes back.
use native.Mathlib.Nat.{mul-le-mul_right, pow-le-pow_right}
use libvfn.Base.{
  ℕ, ◌+◌, ◌-◌, ◌*◌, ◌^◌, ◌≤◌, ◌<◌, ◌≡◌, ◌≢◌, refl, sym, ap, subst, ◌∙◌, some, arith, update,
  update_self, update_ne, Result, ok,
}
use libvfn.Support.Word.{u64}
use libvfn.Support.Int.{offset, offset_small}
use libvfn.Support.Align.{align_up}
use libvfn.Support.Bits.{pow_pos}
use libvfn.Iommu.Dma.{Backend, Ctx, translate_vaddr}
use libvfn.Iommu.Dma.Places.{Disjoint, Unmapped}
use libvfn.Iommu.Dma.Keep.{Mapped-keep}
use libvfn.Iommu.Dmabuf.{Pages, Dmabuf, zero_dmabuf, Memory, get_dmabuf}
use libvfn.Iommu.Dmabuf.Laws.{get_dmabuf_ok, get_dmabuf-Mapped}
use libvfn.Nvme.Rq.{init_rqs}
use libvfn.Nvme.Rq.Free.{Chain, countdown}
use libvfn.Nvme.Rq.Owned.{init_rqs-countdown}
use libvfn.Nvme.Ctrl.Fields.{cap_dstrd}
use libvfn.Nvme.Ctrl.Queues.{SubmissionQueue, Controller, check_queue}
use libvfn.Nvme.Ctrl.Queues.Completion.{check_queue-size}
use libvfn.Nvme.Ctrl.Submission.{
  sqtdbl, new_sq, set_sq, with_pages, init_sq, with_slots, add_slots, configure_sq,
}

module _ (backend : Backend) (pages : Pages) (pagesize : ℕ) where
  module _ (ctrl : Controller backend pages pagesize) (qid qsize cq : ℕ) where
    -- The queue with its pages and trackers, and the controller with it.
    unfoldable pub paged_sq : Dmabuf → SubmissionQueue
    paged_sq pgs = record (new_sq backend pages pagesize ctrl qid qsize cq) {
      pages = pgs;
      trackers = init_rqs qsize (12 + ctrl.mps) pgs.vaddr pgs.iova;
    }

    unfoldable pub paged :
        Memory backend pages pagesize → Dmabuf → Controller backend pages pagesize
    unfolding paged_sq
    paged m pgs = set_sq backend pages pagesize ctrl qid m (paged_sq pgs)

    init_sq_ok :
        (m : Memory backend pages pagesize) (pgs : Dmabuf)
        → check_queue backend pages pagesize ctrl ctrl.nsqa qid qsize ≡ ok tt
        → get_dmabuf backend pages pagesize ctrl.memory zero_dmabuf (qsize * 2 ^ (12 + ctrl.mps)) 0
          ≡ (m, pgs, ok tt)
        → init_sq backend pages pagesize ctrl qid qsize cq ≡ (paged m pgs, ok tt)
    unfolding init_sq with_pages paged paged_sq new_sq
    init_sq_ok m pgs h g =
        rw (init_sq, h)
          (ap
            (with_pages backend pages pagesize ctrl qid
              (new_sq backend pages pagesize ctrl qid qsize cq))
            g)

    pub configure_sq-with_slots :
        (m m' : Memory backend pages pagesize) (pgs mem : Dmabuf) (r : Result {0} Unit)
        → check_queue backend pages pagesize ctrl ctrl.nsqa qid qsize ≡ ok tt
        → get_dmabuf backend pages pagesize ctrl.memory zero_dmabuf (qsize * 2 ^ (12 + ctrl.mps)) 0
          ≡ (m, pgs, ok tt)
        → get_dmabuf backend pages pagesize m zero_dmabuf (qsize * 2 ^ 6) 0 ≡ (m', mem, r)
        → configure_sq backend pages pagesize ctrl qid qsize cq
          ≡ with_slots backend pages pagesize (paged m pgs) qid (m', mem, r)
    unfolding configure_sq add_slots paged paged_sq new_sq
    configure_sq-with_slots m m' pgs mem r h g g' =
        ap (add_slots backend pages pagesize qid qsize) (init_sq_ok m pgs h g)
        ∙ ap
            (λ (q : SubmissionQueue).
              with_slots backend pages pagesize (paged m pgs) qid
                (get_dmabuf backend pages pagesize m q.mem (qsize * 2 ^ 6) 0))
            (update_self ctrl.sq qid (paged_sq pgs))
        ∙ ap (with_slots backend pages pagesize (paged m pgs) qid) g'

-- A submission queue that can be used: with its identifier, size and doorbell, all its trackers free,
-- each with a page of `2 ^ shift` bytes that is mapped, and room for the slots in memory that is
-- mapped.
pub record Usable (backend : Backend) (ctx : Ctx backend) (qid qsize shift doorbell : ℕ)
    (q : SubmissionQueue) : Type 0 where
  pub id_lem : q.queue.id ≡ qid
  pub qsize_lem : q.queue.qsize ≡ qsize
  pub doorbell_lem : q.doorbell_at ≡ doorbell
  pub free : Chain q.trackers.rqs q.trackers.rq_top (countdown (q.queue.qsize - 1))
  pub tracker_pages :
      (i j : ℕ)
      → i < q.queue.qsize
      → j < 2 ^ shift
      → translate_vaddr backend ctx ((q.trackers.rqs i).page_vaddr + j)
        ≡ some ((q.trackers.rqs i).page_iova + j)
  pub room : q.queue.qsize * 2 ^ 6 ≤ q.mem.len
  pub slots :
      (j : ℕ)
      → j < q.mem.len
      → translate_vaddr backend ctx (q.mem.vaddr + j) ≡ some (q.mem.iova + j)

-- An address in the page of a tracker, as the code computes it.
page_at : (p x j n : ℕ) → x + j < n → n ≤ 2 ^ 31 → p + n ≤ u64 → offset p x + j ≡ p + (x + j)
page_at p x j n h hn hp = omega (arith, offset_small p x)

page_small : (k : ℕ) → k < 64 → 2 ^ k ≤ 2 ^ 63
page_small k h = pow-le-pow_right {n = 2} (omega arith) {i = k} {j = 63} (omega arith)

-- An offset into the page of a tracker is one into all of the pages.
in_pages : (i j n p : ℕ) → i < n → j < p → i * p + j < n * p
in_pages i j n p hi hj = omega (arith, mul-le-mul_right p hi)

module _ (backend : Backend) (pages : Pages) (k : ℕ) where
  -- `nvme_configure_sq` that passes the checks and gets both its allocations, at a page size of a power
  -- of two, in a context of disjoint mappings, where the kernel gives memory of which nothing is
  -- mapped at that time, the pages of the trackers are no more than 2^31 bytes and in the 64-bit
  -- address space on both sides, and so is the doorbell, at a distance that an `int` holds: it
  -- succeeds. The queue has the given identifier and size and the doorbell that the controller has
  -- for it. All its trackers are free, and each address of a tracker's page is translated to the one
  -- as far into the page's I/O address. The memory has room for the slots, and each address of it is
  -- translated to the one as far from the `iova` that the controller will be told. No other queue
  -- changes.
  pub configure_sq-Usable :
      (ctrl : Controller backend pages (2 ^ k)) (qid qsize cq v v' : ℕ)
      (m m' : Memory backend pages (2 ^ k)) (pgs mem : Dmabuf)
      → k < 64
      → qsize * 2 ^ (12 + ctrl.mps) ≤ 2 ^ 31
      → pgs.vaddr + qsize * 2 ^ (12 + ctrl.mps) ≤ u64
      → pgs.iova + qsize * 2 ^ (12 + ctrl.mps) ≤ u64
      → 2 * qid * (4 * 2 ^ cap_dstrd ctrl.cap) < 2 ^ 31
      → ctrl.doorbells + 2 * qid * (4 * 2 ^ cap_dstrd ctrl.cap) < u64
      → qsize * 2 ^ 6 + 2 ^ k ≤ u64
      → check_queue backend pages (2 ^ k) ctrl ctrl.nsqa qid qsize ≡ ok tt
      → Disjoint ctrl.memory.ctx.map
      → (pages.mmap ctrl.memory.state (align_up (qsize * 2 ^ (12 + ctrl.mps)) (2 ^ k))).1 ≡ ok v
      → Unmapped v (align_up (qsize * 2 ^ (12 + ctrl.mps)) (2 ^ k)) ctrl.memory.ctx.map
      → get_dmabuf backend pages (2 ^ k) ctrl.memory zero_dmabuf (qsize * 2 ^ (12 + ctrl.mps)) 0
        ≡ (m, pgs, ok tt)
      → (pages.mmap m.state (align_up (qsize * 2 ^ 6) (2 ^ k))).1 ≡ ok v'
      → Unmapped v' (align_up (qsize * 2 ^ 6) (2 ^ k)) m.ctx.map
      → get_dmabuf backend pages (2 ^ k) m zero_dmabuf (qsize * 2 ^ 6) 0 ≡ (m', mem, ok tt)
      → (ctrl' : Controller backend pages (2 ^ k)) × (configure_sq backend pages
            (2 ^ k)
            ctrl
            qid
            qsize
            cq
          ≡ some (ctrl', ok tt))
        × Usable backend ctrl'.memory.ctx qid qsize
            (12 + ctrl.mps)
            (ctrl.doorbells + 2 * qid * (4 * 2 ^ cap_dstrd ctrl.cap))
            (ctrl'.sq qid)
        × ((j : ℕ) → j ≢ qid → ctrl'.sq j ≡ ctrl.sq j)
  unfolding paged paged_sq new_sq sqtdbl with_slots init_rqs
  configure_sq-Usable ctrl qid qsize cq v v' m m' pgs mem hk hp hpv hpi hi hd hl h d hm hu g hm' hu'
        g' =
      let shift = 12 + ctrl.mps in
      let two = check_queue-size backend pages (2 ^ k) ctrl ctrl.nsqa qid qsize h in
      let (size, mapped, at) =
        get_dmabuf-Mapped backend pages k ctrl.memory m zero_dmabuf pgs (qsize * 2 ^ shift) 0 v hk
          (omega (arith, mul-le-mul_right (2 ^ shift) two, pow_pos shift))
          (omega (arith, hp, page_small k hk)) d hm hu g in
      let (size', mapped', at') =
        get_dmabuf-Mapped backend pages k m m' zero_dmabuf mem (qsize * 2 ^ 6) 0 v' hk
          (omega (arith, two)) hl mapped.disjoint hm' hu' g' in
      let (_, _, len') =
        get_dmabuf_ok backend pages (2 ^ k) m m' zero_dmabuf mem (qsize * 2 ^ 6) 0 v' hm' g' in
      let clear : Unmapped mem.vaddr mem.len m.ctx.map =
        subst (λ x. Unmapped x mem.len m.ctx.map) (sym at')
          (subst (λ n. Unmapped v' n m.ctx.map) (sym len') hu') in
      let ctrl1 = paged backend pages (2 ^ k) ctrl qid qsize cq m pgs in
      let q1 = paged_sq backend pages (2 ^ k) ctrl qid qsize cq pgs in
      let q = record (ctrl1.sq qid) { mem = mem } in
      let e : record q1 { mem = mem } ≡ update ctrl1.sq qid q qid = sym (
        update_self ctrl1.sq qid q
        ∙ ap (λ (x : SubmissionQueue). record x { mem = mem }) (update_self ctrl.sq qid q1)) in
      let usable : Usable backend m'.ctx qid qsize shift
          (ctrl.doorbells + 2 * qid * (4 * 2 ^ cap_dstrd ctrl.cap)) (record q1 { mem = mem }) =
        record {
          id_lem = refl;
          qsize_lem = refl;
          doorbell_lem = offset_small ctrl.doorbells (2 * qid * (4 * 2 ^ cap_dstrd ctrl.cap)) hi hd;
          free = init_rqs-countdown qsize shift pgs.vaddr pgs.iova two;
          tracker_pages = λ i j hi hj.
              let at = in_pages i j qsize (2 ^ shift) hi hj in
              let v_at = page_at pgs.vaddr (i * 2 ^ shift) j (qsize * 2 ^ shift) at hp hpv in
              let i_at = page_at pgs.iova (i * 2 ^ shift) j (qsize * 2 ^ shift) at hp hpi in
              Mapped-keep backend m.ctx m'.ctx (offset pgs.vaddr (i * 2 ^ shift) + j) mem.vaddr
                mem.len mem.iova (offset pgs.iova (i * 2 ^ shift) + j) mapped.disjoint clear mapped'
                (ap (translate_vaddr backend m.ctx) v_at
                  ∙ mapped.inside (i * 2 ^ shift + j) (omega (arith, at, size.0))
                  ∙ ap some (sym i_at));
          room = size'.0;
          slots = mapped'.inside;
        } in
      (
        set_sq backend pages (2 ^ k) ctrl1 qid m' q,
        configure_sq-with_slots backend pages (2 ^ k) ctrl qid qsize cq m m' pgs mem (ok tt) h g g',
        subst
            (Usable backend m'.ctx qid qsize shift
              (ctrl.doorbells + 2 * qid * (4 * 2 ^ cap_dstrd ctrl.cap)))
            e usable,
        λ j hj. update_ne ctrl1.sq qid j q hj ∙ update_ne ctrl.sq qid j q1 hj,
      )
