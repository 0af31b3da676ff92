-- ===== src/Nvme/Ctrl/Admin.antt =====
-- The admin queues of src/nvme/core.c, and the commands that create and delete queues.
pub mod Run
pub mod Create
use Prim.Native.Nat.{bit_or}
use libvfn.Base.{
  ℕ, ◌+◌, ◌-◌, ◌*◌, ◌/◌, ◌%◌, ◌^◌, Option, none, some, update, Errno, Result, ok, err,
}
use libvfn.Iommu.Dma.{Backend, Ctx}
use libvfn.Iommu.Dmabuf.{Pages, Dmabuf}
use libvfn.Nvme.Cmd.{Cmd, zero_cmd, Cqe}
use libvfn.Nvme.Sync.{Queues, Ended, waits, fatal, returns, Synced, sync}
use libvfn.Nvme.Ctrl.Queues.{
  Controller, CompletionQueue, SubmissionQueue, configure_cq, configure_cq_mem, discard_cq,
}
use libvfn.Nvme.Ctrl.Submission.{configure_sq, configure_sq_mem, discard_sq}

-- The admin submission and completion queue attributes, and the addresses of both queues.
pub record AdminRegisters : Type 0 where
  pub aqa : ℕ
  pub asq : ℕ
  pub acq : ℕ

-- The commands, with the fields of their views of `union nvme_cmd`.
pub create_cq_cmd : ℕ → ℕ → ℕ → Option ℕ → Cmd
create_cq_cmd iova qid qsize vector =
    let cmd = record zero_cmd {
      opcode = 5;
      dptr = record { prp1 = iova; prp2 = 0 };
      cdw10 = qid % 2 ^ 16 + (qsize - 1) % 2 ^ 16 * 2 ^ 16;
    } in
    elim vector [
      | none ↦ record cmd { cdw11 = 1 }
      | some v ↦ record cmd { cdw11 = 3 + v % 2 ^ 16 * 2 ^ 16 }
    ]

pub create_sq_cmd : ℕ → ℕ → ℕ → ℕ → Cmd
create_sq_cmd iova qid qsize cqid = record zero_cmd {
  opcode = 1;
  dptr = record { prp1 = iova; prp2 = 0 };
  cdw10 = qid % 2 ^ 16 + (qsize - 1) % 2 ^ 16 * 2 ^ 16;
  cdw11 = 1 + cqid % 2 ^ 16 * 2 ^ 16;
}

pub delete_cmd : ℕ → ℕ → Cmd
delete_cmd opcode qid = record zero_cmd { opcode = opcode; cdw10 = qid % 2 ^ 16 }

module _ (backend : Backend) (pages : Pages) (pagesize : ℕ) where
  -- `__nvme_configure_adminq`, with the sizes of the submission queue and of the completion queue.
  pub set_adminq : Controller backend pages pagesize → ℕ → ℕ → AdminRegisters
  set_adminq ctrl sq_size cq_size = record {
    aqa = bit_or (sq_size - 1) ((cq_size - 1) * 2 ^ 16);
    asq = (ctrl.sq 0).mem.iova;
    acq = (ctrl.cq 0).mem.iova;
  }

  abbrev pub Configured : Type 0
  Configured = Controller backend pages pagesize × Option AdminRegisters × Result {0} Unit

  -- `discard_cq:` of both functions that configure the admin queues, which return -1 with the `errno`
  -- that the submission queue has left.
  pub undo_cq : Controller backend pages pagesize → Errno → Option Configured
  undo_cq ctrl e = elim (discard_cq backend pages pagesize ctrl 0) [
    | none ↦ none
    | some ctrl' ↦ some (ctrl', none, err e)
  ]

  -- `nvme_configure_adminq` for queues of `size` entries, NVME_AQ_QSIZE: the registers where it writes
  -- them; `none` where it ends the program.
  pub configure_adminq : Controller backend pages pagesize → ℕ → Option Configured
  unfolding set_adminq undo_cq
  configure_adminq ctrl size =
      let (ctrl', configured) = configure_cq backend pages pagesize ctrl 0 size (some 0) in
      elim configured [
        | err e ↦ some (ctrl', none, err e)
        | ok _ ↦ elim (configure_sq backend pages pagesize ctrl' 0 size 0) [
          | none ↦ none
          | some (ctrl'', ret) ↦ elim ret [
            | err e ↦ undo_cq ctrl'' e
            | ok _ ↦ some (ctrl'', some (set_adminq ctrl'' size size), ok tt)
          ]
        ]
      ]

  -- `nvme_configure_adminq_mem`, with the contents of the memory that is passed in.
  pub configure_adminq_mem :
      Controller backend pages pagesize
      → Dmabuf
      → Dmabuf
      → (ℕ → Cqe)
      → (ℕ → Cmd)
      → Option Configured
  unfolding set_adminq undo_cq
  configure_adminq_mem ctrl cq_mem sq_mem cqes cmds =
      let cq_size = cq_mem.len / 16 in
      let sq_size = sq_mem.len / 64 in
      let (ctrl', configured) =
        configure_cq_mem backend pages pagesize ctrl 0 cq_size (some 0) (some cq_mem) cqes in
      let (ctrl'', ret) =
        configure_sq_mem backend pages pagesize ctrl' 0 sq_size 0 (some sq_mem) cmds in
      elim configured [
        | err e ↦ some (ctrl', none, err e)
        | ok _ ↦ elim ret [
          | err e ↦ undo_cq ctrl'' e
          | ok _ ↦ some (ctrl'', some (set_adminq ctrl'' sq_size cq_size), ok tt)
        ]
      ]

  -- The admin queues as `nvme_sync` sees them; a command without a buffer leaves the pages of the
  -- trackers alone.
  abbrev pub admin_queues : Controller backend pages pagesize → Queues
  admin_queues ctrl = record {
    sq = (ctrl.sq 0).queue;
    trackers = (ctrl.sq 0).trackers;
    lists = λ i j. 0;
    cq = (ctrl.cq (ctrl.sq 0).cq).queue;
  }

  abbrev pub with_queues :
      Controller backend pages pagesize → Ctx backend → Queues → Controller backend pages pagesize
  with_queues ctrl ctx q =
      let at = (ctrl.sq 0).cq in
      record ctrl {
        memory = record ctrl.memory { ctx = ctx };
        sq = update ctrl.sq 0 (record (ctrl.sq 0) { queue = q.sq; trackers = q.trackers });
        cq = update ctrl.cq at (record (ctrl.cq at) { queue = q.cq });
      }

  module _ (world : ℕ → ℕ → Cqe) (clock : ℕ → ℕ) (freq fuel rounds : ℕ) where
    abbrev pub Done : Type 0
    Done = Ended (Controller backend pages pagesize × Result {0} Unit)

    -- What `__admin` makes of the outcome of `nvme_sync`.
    pub answered : Controller backend pages pagesize → Synced backend → Done
    answered ctrl waits = waits
    answered ctrl fatal = fatal
    answered ctrl (returns (ctx, q, copy, ret)) = returns (with_queues ctrl ctx q, ret)

    -- `__admin`, at the time `t`.
    pub admin : ℕ → Controller backend pages pagesize → Cmd → Done
    unfolding answered
    admin t ctrl cmd = answered ctrl (
        sync backend world clock freq fuel rounds t ctrl.mps ctrl.memory.ctx (admin_queues ctrl) cmd
          none)

    -- `nvme_create_iocq`, from what `nvme_configure_cq` has returned on.
    pub send_create_cq :
        ℕ → ℕ → ℕ → Option ℕ → Controller backend pages pagesize × Result {0} Unit → Done
    unfolding admin create_cq_cmd
    send_create_cq t qid qsize vector (ctrl, err e) = returns (ctrl, err e)
    send_create_cq t qid qsize vector (ctrl, ok _) =
        admin t ctrl (create_cq_cmd (ctrl.cq qid).mem.iova qid qsize vector)

    -- `nvme_create_iocq`
    pub create_iocq : ℕ → Controller backend pages pagesize → ℕ → ℕ → Option ℕ → Done
    unfolding send_create_cq
    create_iocq t ctrl qid qsize vector =
        send_create_cq t qid qsize vector
          (configure_cq backend pages pagesize ctrl qid qsize vector)

    -- `nvme_delete_iocq`
    pub delete_iocq : ℕ → Controller backend pages pagesize → ℕ → Done
    unfolding admin delete_cmd
    delete_iocq t ctrl qid = elim (discard_cq backend pages pagesize ctrl qid) [
      | none ↦ fatal
      | some ctrl' ↦ admin t ctrl' (delete_cmd 4 qid)
    ]

    -- `nvme_create_iosq`, from what `nvme_configure_sq` has returned on.
    pub send_create_sq :
        ℕ → ℕ → ℕ → ℕ → Option (Controller backend pages pagesize × Result {0} Unit) → Done
    unfolding admin create_sq_cmd
    send_create_sq t qid qsize cq none = fatal
    send_create_sq t qid qsize cq (some (ctrl, err e)) = returns (ctrl, err e)
    send_create_sq t qid qsize cq (some (ctrl, ok _)) =
        admin t ctrl (create_sq_cmd (ctrl.sq qid).mem.iova qid qsize (ctrl.cq cq).queue.id)

    -- `nvme_create_iosq`, for the completion queue in place `cq`.
    pub create_iosq : ℕ → Controller backend pages pagesize → ℕ → ℕ → ℕ → Done
    unfolding send_create_sq
    create_iosq t ctrl qid qsize cq =
        send_create_sq t qid qsize cq (configure_sq backend pages pagesize ctrl qid qsize cq)

    -- `nvme_delete_iosq`
    pub delete_iosq : ℕ → Controller backend pages pagesize → ℕ → Done
    unfolding admin delete_cmd
    delete_iosq t ctrl qid = elim (discard_sq backend pages pagesize ctrl qid) [
      | none ↦ fatal
      | some ctrl' ↦ admin t ctrl' (delete_cmd 0 qid)
    ]

    -- A second call after a first; where the first fails, so does the whole.
    abbrev and_then : Done → (Controller backend pages pagesize → Done) → Done
    and_then waits f = waits
    and_then fatal f = fatal
    and_then (returns (ctrl, err e)) f = returns (ctrl, err e)
    and_then (returns (ctrl, ok _)) f = f ctrl

    -- `nvme_create_ioqpair` and `nvme_delete_ioqpair`, with the times of both commands.
    pub create_ioqpair : ℕ → ℕ → Controller backend pages pagesize → ℕ → ℕ → Option ℕ → Done
    unfolding create_iocq create_iosq
    create_ioqpair t t' ctrl qid qsize vector =
        and_then (create_iocq t ctrl qid qsize vector) (λ ctrl'. create_iosq t' ctrl' qid qsize qid)

    pub delete_ioqpair : ℕ → ℕ → Controller backend pages pagesize → ℕ → Done
    unfolding delete_iocq delete_iosq
    delete_ioqpair t t' ctrl qid =
        and_then (delete_iosq t ctrl qid) (λ ctrl'. delete_iocq t' ctrl' qid)
