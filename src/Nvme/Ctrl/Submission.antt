-- ===== src/Nvme/Ctrl/Submission.antt =====
-- The submission queues of src/nvme/core.c: their configuration, and what undoes it.
pub mod Configure
use libvfn.Base.{
  ℕ, ◌+◌, ◌*◌, ◌^◌, true, Option, none, some, [], update, ◌==◌, if◌then◌else◌, einval, Result, ok,
  err,
}
use libvfn.Support.Int.{offset}
use libvfn.Iommu.Dma.{Backend}
use libvfn.Iommu.Dmabuf.{Pages, Dmabuf, zero_dmabuf, Memory, get_dmabuf, put_dmabuf}
use libvfn.Nvme.Cmd.{Cmd, zero_cmd}
use libvfn.Nvme.Rq.{init_rqs}
use libvfn.Nvme.Ctrl.Fields.{cap_dstrd}
use libvfn.Nvme.Ctrl.Queues.{
  SubmissionQueue, zero_sq, Controller, check_queue, dbbuf_pointers, dbbuf_of, put_unless,
  clear_words,
}

-- `sqtdbl`: the distance is a C `int`.
pub sqtdbl : ℕ → ℕ → ℕ → ℕ
unfolding offset
sqtdbl doorbells qid dstrd = offset doorbells (2 * qid * (4 * 2 ^ dstrd))

module _ (backend : Backend) (pages : Pages) (pagesize : ℕ) where
  abbrev pub Done : Type 0
  Done = Controller backend pages pagesize × Result {0} Unit

  abbrev pub Allocated : Type 0
  Allocated = Memory backend pages pagesize × Dmabuf × Result {0} Unit

  -- What `__nvme_configure_sq` makes of the queue before it allocates.
  pub new_sq : Controller backend pages pagesize → ℕ → ℕ → ℕ → SubmissionQueue
  unfolding sqtdbl
  new_sq ctrl qid qsize cq =
      let place : ℕ → ℕ = λ at. sqtdbl at qid (cap_dstrd ctrl.cap) in
      let dbbuf_at = dbbuf_pointers backend pages pagesize ctrl place in
      record zero_sq {
        queue = record {
          id = qid;
          tail = 0;
          ptail = 0;
          qsize = qsize;
          mem = λ i. zero_cmd;
          dbbuf = dbbuf_of ctrl.words dbbuf_at;
          doorbell = [];
        };
        doorbell_at = place ctrl.doorbells;
        dbbuf_at = dbbuf_at;
        cq = cq;
      }

  abbrev pub set_sq :
      Controller backend pages pagesize
      → ℕ
      → Memory backend pages pagesize
      → SubmissionQueue
      → Controller backend pages pagesize
  set_sq ctrl qid m q = record ctrl { memory = m; sq = update ctrl.sq qid q }

  -- `__nvme_configure_sq`, from the allocation of a page for each tracker on.
  pub with_pages : Controller backend pages pagesize → ℕ → SubmissionQueue → Allocated → Done
  with_pages ctrl qid q (m, pgs, err e) = (set_sq ctrl qid m (record q { pages = pgs }), err e)
  with_pages ctrl qid q (m, pgs, ok _) =
      let trackers = init_rqs q.queue.qsize (12 + ctrl.mps) pgs.vaddr pgs.iova in
      (set_sq ctrl qid m (record q { pages = pgs; trackers = trackers }), ok tt)

  -- `__nvme_configure_sq`. The length of the pages is less than 2^64 for every C `int`.
  pub init_sq : Controller backend pages pagesize → ℕ → ℕ → ℕ → Done
  unfolding with_pages new_sq
  init_sq ctrl qid qsize cq = elim (check_queue backend pages pagesize ctrl ctrl.nsqa qid qsize) [
    | err e ↦ (ctrl, err e)
    | ok _ ↦
        with_pages ctrl qid (new_sq ctrl qid qsize cq) (
          get_dmabuf backend pages pagesize ctrl.memory zero_dmabuf (qsize * 2 ^ (12 + ctrl.mps)) 0)
  ]

  -- `nvme_configure_sq`, from the allocation of the slots on; `none` where it ends the program.
  pub with_slots : Controller backend pages pagesize → ℕ → Allocated → Option Done
  with_slots ctrl qid (m, mem, ok _) =
      some (set_sq ctrl qid m (record (ctrl.sq qid) { mem = mem }), ok tt)
  with_slots ctrl qid (m, mem, err e) =
      elim (put_dmabuf backend pages pagesize m (ctrl.sq qid).pages) [
        | none ↦ none
        | some (m', pgs) ↦
            some (set_sq ctrl qid m' (record (ctrl.sq qid) { mem = mem; pages = pgs }), err e)
      ]

  -- `nvme_configure_sq`, from what `__nvme_configure_sq` has returned on, of less than 2^25 entries,
  -- whose length in bytes is an `int`.
  pub add_slots : ℕ → ℕ → Done → Option Done
  unfolding with_slots
  add_slots qid qsize (ctrl, err e) = some (ctrl, err e)
  add_slots qid qsize (ctrl, ok _) =
      with_slots ctrl qid
        (get_dmabuf backend pages pagesize ctrl.memory (ctrl.sq qid).mem (qsize * 2 ^ 6) 0)

  -- `nvme_configure_sq`; `none` where it ends the program.
  pub configure_sq : Controller backend pages pagesize → ℕ → ℕ → ℕ → Option Done
  unfolding init_sq add_slots
  configure_sq ctrl qid qsize cq = add_slots qid qsize (init_sq ctrl qid qsize cq)

  -- `nvme_configure_sq_mem`, with the contents of the memory that is passed in.
  pub configure_sq_mem :
      Controller backend pages pagesize → ℕ → ℕ → ℕ → Option Dmabuf → (ℕ → Cmd) → Done
  unfolding init_sq
  configure_sq_mem ctrl qid qsize cq none contents = (ctrl, err einval)
  configure_sq_mem ctrl qid qsize cq (some mem) contents =
      let (ctrl', init) = init_sq ctrl qid qsize cq in
      let q = ctrl'.sq qid in
      let q' = record q {
        queue = record q.queue { mem = contents };
        preallocated = true;
        mem = mem;
      } in
      elim init [ err e ↦ (ctrl', err e) | ok _ ↦ (set_sq ctrl' qid ctrl'.memory q', ok tt) ]

  -- `nvme_discard_sq` of the queue in place `qid`; `none` where it ends the program.
  pub discard_sq :
      Controller backend pages pagesize → ℕ → Option (Controller backend pages pagesize)
  discard_sq ctrl qid =
      let q = ctrl.sq qid in
      if q.mem.vaddr == 0
      then some ctrl
      else elim (put_unless backend pages pagesize q.preallocated ctrl.memory q.mem) [
        | none ↦ none
        | some m ↦ elim (put_dmabuf backend pages pagesize m q.pages) [
          | none ↦ none
          | some (m', _) ↦ elim (clear_words backend pages pagesize ctrl q.dbbuf_at) [
            | none ↦ none
            | some words ↦
                some (record ctrl { memory = m'; words = words; sq = update ctrl.sq qid zero_sq })
          ]
        ]
      ]
