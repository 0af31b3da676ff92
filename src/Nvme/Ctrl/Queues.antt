-- ===== src/Nvme/Ctrl/Queues.antt =====
-- The configuration of queues in src/nvme/core.c, and what undoes it. A queue's record has the queue
-- in use (`Nvme.Queue`) and what is settled with it: the addresses of its doorbells and its memory.
pub mod Completion
pub mod Discard
use libvfn.Base.{
  ℕ, suc, ◌+◌, ◌-◌, ◌*◌, ◌^◌, Bool, true, false, not, ◌&&◌, Option, none, some, [], update, ltb,
  ◌==◌, if◌then◌else◌, einval, enodev, Result, ok, err,
}
use libvfn.Support.Word.{u64}
use libvfn.Support.Int.{offset}
use libvfn.Iommu.Dma.{Backend}
use libvfn.Iommu.Dmabuf.{Pages, Dmabuf, zero_dmabuf, Memory, get_dmabuf, put_dmabuf}
use libvfn.Nvme.Cmd.{Cmd, zero_cmd, Cqe}
use libvfn.Nvme.Queue.{Dbbuf, Cq, Sq}
use libvfn.Nvme.Rq.{Trackers, init_rqs}
use libvfn.Nvme.Ctrl.Fields.{cap_dstrd}

abbrev pub zero_cqe : Cqe
zero_cqe = record { dw0 = 0; dw1 = 0; sqhd = 0; sqid = 0; cid = 0; sfp = 0 }

-- `struct nvme_cq`; a vector of -1 is `none`, NULL pointers to doorbell buffers too.
pub record CompletionQueue : Type 0 where
  pub queue : Cq
  pub doorbell_at : ℕ
  pub dbbuf_at : Option (ℕ × ℕ)
  pub vector : Option ℕ
  pub preallocated : Bool
  pub mem : Dmabuf

-- `struct nvme_sq`; its completion queue is the place of that.
pub record SubmissionQueue : Type 0 where
  pub queue : Sq
  pub trackers : Trackers
  pub doorbell_at : ℕ
  pub dbbuf_at : Option (ℕ × ℕ)
  pub cq : ℕ
  pub preallocated : Bool
  pub mem : Dmabuf
  pub pages : Dmabuf

-- `cqhdbl`: the distance is a C `int`.
pub cqhdbl : ℕ → ℕ → ℕ → ℕ
unfolding offset
cqhdbl doorbells qid dstrd = offset doorbells ((2 * qid + 1) * (4 * 2 ^ dstrd))

-- The words behind two pointers.
abbrev pub dbbuf_of : (ℕ → ℕ) → Option (ℕ × ℕ) → Option Dbbuf
dbbuf_of words none = none
dbbuf_of words (some (a, b)) = some (record { doorbell = words a; eventidx = words b })

abbrev pub zero_cq : CompletionQueue
zero_cq = record {
  queue = record {
    id = 0;
    head = 0;
    qsize = 0;
    phase = 0;
    mem = λ i. zero_cqe;
    dbbuf = none;
    doorbell = [];
  };
  doorbell_at = 0;
  dbbuf_at = none;
  vector = some 0;
  preallocated = false;
  mem = zero_dmabuf;
}

abbrev pub zero_sq : SubmissionQueue
zero_sq = record {
  queue = record {
    id = 0;
    tail = 0;
    ptail = 0;
    qsize = 0;
    mem = λ i. zero_cmd;
    dbbuf = none;
    doorbell = [];
  };
  trackers = record {
    rqs = λ i. record { opaque = 0; cid = 0; page_vaddr = 0; page_iova = 0; rq_next = none };
    rq_top = none;
  };
  doorbell_at = 0;
  dbbuf_at = none;
  cq = 0;
  preallocated = false;
  mem = zero_dmabuf;
  pages = zero_dmabuf;
}

module _ (backend : Backend) (pages : Pages) (pagesize : ℕ) where
  -- The parts of `struct nvme_ctrl` that the queues need, with the value of CAP and the words of the
  -- doorbell buffers by their addresses.
  pub record Controller : Type 0 where
    pub memory : Memory backend pages pagesize
    pub cap : ℕ
    pub doorbells : ℕ
    pub dbbuf_doorbells : Dmabuf
    pub dbbuf_eventidxs : Dmabuf
    pub words : ℕ → ℕ
    pub nsqa : ℕ
    pub ncqa : ℕ
    pub mqes : ℕ
    pub mps : ℕ
    pub cq : ℕ → CompletionQueue
    pub sq : ℕ → SubmissionQueue

  -- The checks of `__nvme_configure_cq` and `__nvme_configure_sq`, with the number of queues that the
  -- controller has granted. A queue larger than the controller allows is logged only.
  unfoldable pub check_queue : Controller → ℕ → ℕ → ℕ → Result {0} Unit
  check_queue ctrl granted qid qsize =
      if ctrl.cap == u64 - 1
      then err enodev
      else if not (qid == 0) && ltb (granted + 1) qid
      then err einval
      else if ltb qsize 2
      then err einval
      else ok tt

  -- The pointers into the doorbell buffers, if there are such buffers.
  abbrev pub dbbuf_pointers : Controller → (ℕ → ℕ) → Option (ℕ × ℕ)
  dbbuf_pointers ctrl place =
      if ctrl.dbbuf_doorbells.vaddr == 0
      then none
      else some (place ctrl.dbbuf_doorbells.vaddr, place ctrl.dbbuf_eventidxs.vaddr)

  -- What `__nvme_configure_cq` makes of the queue.
  pub new_cq : Controller → ℕ → ℕ → Option ℕ → (ℕ → Cqe) → CompletionQueue
  unfolding cqhdbl
  new_cq ctrl qid qsize vector contents =
      let place : ℕ → ℕ = λ at. cqhdbl at qid (cap_dstrd ctrl.cap) in
      let dbbuf_at = dbbuf_pointers ctrl place in
      record {
        queue = record {
          id = qid;
          head = 0;
          qsize = qsize;
          phase = 0;
          mem = contents;
          dbbuf = dbbuf_of ctrl.words dbbuf_at;
          doorbell = [];
        };
        doorbell_at = place ctrl.doorbells;
        dbbuf_at = dbbuf_at;
        vector = vector;
        preallocated = false;
        mem = zero_dmabuf;
      }

  -- `nvme_configure_cq`, of less than 2^27 entries, whose length in bytes is an `int`. New memory from
  -- the kernel is zero.
  unfoldable pub configure_cq : Controller → ℕ → ℕ → Option ℕ → Controller × Result {0} Unit
  unfolding check_queue new_cq
  configure_cq ctrl qid qsize vector =
      let q = new_cq ctrl qid qsize vector (λ i. zero_cqe) in
      let (memory, mem, ret) =
        get_dmabuf backend pages pagesize ctrl.memory q.mem (qsize * 2 ^ 4) 0 in
      elim (check_queue ctrl ctrl.ncqa qid qsize) [
        | err e ↦ (ctrl, err e)
        | ok _ ↦
            (record ctrl { memory = memory; cq = update ctrl.cq qid (record q { mem = mem }) }, ret)
      ]

  -- `nvme_configure_cq_mem`, with the contents of the memory that is passed in.
  pub configure_cq_mem :
      Controller → ℕ → ℕ → Option ℕ → Option Dmabuf → (ℕ → Cqe) → Controller × Result {0} Unit
  unfolding check_queue new_cq
  configure_cq_mem ctrl qid qsize vector none contents = (ctrl, err einval)
  configure_cq_mem ctrl qid qsize vector (some mem) contents =
      elim (check_queue ctrl ctrl.ncqa qid qsize) [
        | err e ↦ (ctrl, err e)
        | ok _ ↦
            let q = record (new_cq ctrl qid qsize vector contents) {
              preallocated = true;
              mem = mem;
            } in
            (record ctrl { cq = update ctrl.cq qid q }, ok tt)
      ]

  -- The last part of `nvme_discard_cq` and `nvme_discard_sq`: zeros for the words of the queue; `none`
  -- where they are written through a NULL pointer.
  pub clear_words : Controller → Option (ℕ × ℕ) → Option (ℕ → ℕ)
  clear_words ctrl dbbuf_at =
      if ctrl.dbbuf_doorbells.vaddr == 0
      then some ctrl.words
      else elim dbbuf_at [ none ↦ none | some (a, b) ↦ some (update (update ctrl.words a 0) b 0) ]

  -- `iommu_put_dmabuf` of memory that the library has allocated.
  abbrev pub put_unless :
      Bool → Memory backend pages pagesize → Dmabuf → Option (Memory backend pages pagesize)
  put_unless true m b = some m
  put_unless false m b = elim (put_dmabuf backend pages pagesize m b) [
    | none ↦ none
    | some (m', _) ↦ some m'
  ]

  -- `nvme_discard_cq` of the queue in place `qid`; `none` where it ends the program.
  pub discard_cq : Controller → ℕ → Option Controller
  unfolding clear_words
  discard_cq ctrl qid =
      let q = ctrl.cq qid in
      if q.mem.vaddr == 0 then some ctrl else elim (put_unless q.preallocated ctrl.memory q.mem) [
        | none ↦ none
        | some m ↦ elim (clear_words ctrl q.dbbuf_at) [
          | none ↦ none
          | some words ↦
              some (record ctrl { memory = m; words = words; cq = update ctrl.cq qid zero_cq })
        ]
      ]
