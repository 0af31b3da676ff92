-- ===== src/Nvme/Ctrl/Start.antt =====
-- Steps of `nvme_ctrl_init` and `nvme_init` of src/nvme/core.c: the page size, the number of queues,
-- and the doorbell buffers.
pub mod PageSize
pub mod Doorbells
use Prim.Native.Nat.{bit_or}
use libvfn.Base.{
  ℕ, ◌+◌, ◌-◌, ◌*◌, ◌^◌, Bool, true, false, Option, none, some, update, ltb, if◌then◌else◌, einval,
  Errno, Result, ok, err,
}
use libvfn.Iommu.Dma.{Backend}
use libvfn.Iommu.Dmabuf.{Pages, Dmabuf, Memory, get_dmabuf, put_dmabuf}
use libvfn.Nvme.Cmd.{Cmd, zero_cmd, Cqe}
use libvfn.Nvme.Sync.{Ended, waits, fatal, returns}
use libvfn.Nvme.Ctrl.Fields.{field_get, field_set, cap_mpsmin, cap_mpsmax, cap_dstrd}
use libvfn.Nvme.Ctrl.Queues.{CompletionQueue, SubmissionQueue, Controller, cqhdbl, dbbuf_of}
use libvfn.Nvme.Ctrl.Submission.{sqtdbl}
use libvfn.Nvme.Ctrl.Admin.{admin}

-- The memory page size in `nvme_ctrl_init`, for a host page of `2 ^ pageshift` bytes, 4096 at least.
-- `clamp` is `clamp_t` of ccan/minmax.
pub init_mps : (ℕ → ℕ → ℕ → ℕ) → ℕ → ℕ → Result ℕ
init_mps clamp pageshift cap =
    let mps = clamp (pageshift - 12) (cap_mpsmin cap) (cap_mpsmax cap) in
    if ltb pageshift (12 + mps) then err einval else ok mps

module _ (backend : Backend) (pages : Pages) (pagesize : ℕ) where
  abbrev pub Done : Type 0
  Done = Ended (Controller backend pages pagesize × Result {0} Unit)

  abbrev pub Allocated : Type 0
  Allocated = Memory backend pages pagesize × Dmabuf × Result {0} Unit

  abbrev pub dbconfig_cmd : Controller backend pages pagesize → Cmd
  dbconfig_cmd ctrl = record zero_cmd {
    opcode = 0x7c;
    dptr = record { prp1 = ctrl.dbbuf_doorbells.iova; prp2 = ctrl.dbbuf_eventidxs.iova };
  }

  -- `put_doorbells:` and `put_eventidxs:` of `nvme_init_dbconfig`.
  pub put_doorbells : Controller backend pages pagesize → Errno → Done
  put_doorbells ctrl e = elim (put_dmabuf backend pages pagesize ctrl.memory ctrl.dbbuf_doorbells) [
    | none ↦ fatal
    | some (m, b) ↦ returns (record ctrl { memory = m; dbbuf_doorbells = b }, err e)
  ]

  pub put_eventidxs : Controller backend pages pagesize → Errno → Done
  unfolding put_doorbells
  put_eventidxs ctrl e = elim (put_dmabuf backend pages pagesize ctrl.memory ctrl.dbbuf_eventidxs) [
    | none ↦ fatal
    | some (m, b) ↦ put_doorbells (record ctrl { memory = m; dbbuf_eventidxs = b }) e
  ]

  abbrev pub cq_pointers : Controller backend pages pagesize → Option (ℕ × ℕ)
  cq_pointers ctrl = some (
    cqhdbl ctrl.dbbuf_doorbells.vaddr 0 (cap_dstrd ctrl.cap),
    cqhdbl ctrl.dbbuf_eventidxs.vaddr 0 (cap_dstrd ctrl.cap),
  )

  abbrev pub sq_pointers : Controller backend pages pagesize → Option (ℕ × ℕ)
  sq_pointers ctrl = some (
    sqtdbl ctrl.dbbuf_doorbells.vaddr 0 (cap_dstrd ctrl.cap),
    sqtdbl ctrl.dbbuf_eventidxs.vaddr 0 (cap_dstrd ctrl.cap),
  )

  -- The pointers that the admin queues get at the end of `nvme_init_dbconfig`, unless the controller
  -- has NVME_QUIRK_BROKEN_DBBUF.
  pub point_admin : Bool → Controller backend pages pagesize → Controller backend pages pagesize
  point_admin true ctrl = ctrl
  point_admin false ctrl =
      let cq = ctrl.cq 0 in
      let sq = ctrl.sq 0 in
      record ctrl {
        cq = update ctrl.cq 0 (record cq {
          dbbuf_at = cq_pointers ctrl;
          queue = record cq.queue { dbbuf = dbbuf_of ctrl.words (cq_pointers ctrl) };
        });
        sq = update ctrl.sq 0 (record sq {
          dbbuf_at = sq_pointers ctrl;
          queue = record sq.queue { dbbuf = dbbuf_of ctrl.words (sq_pointers ctrl) };
        });
      }

  -- `nvme_init_dbconfig`, from what the command has returned on.
  pub configured : Bool → Done → Done
  unfolding put_eventidxs point_admin
  configured quirk waits = waits
  configured quirk fatal = fatal
  configured quirk (returns (ctrl, err e)) = put_eventidxs ctrl e
  configured quirk (returns (ctrl, ok _)) = returns (point_admin quirk ctrl, ok tt)

  module _ (world : ℕ → ℕ → Cqe) (clock : ℕ → ℕ) (freq fuel rounds t : ℕ) (quirk : Bool) where
    -- From the allocation of the event indexes on, and from that of the doorbells on.
    pub with_eventidxs : Controller backend pages pagesize → Allocated → Done
    unfolding put_doorbells configured
    with_eventidxs ctrl (m, b, err e) =
        put_doorbells (record ctrl { memory = m; dbbuf_eventidxs = b }) e
    with_eventidxs ctrl (m, b, ok _) =
        let ctrl' = record ctrl { memory = m; dbbuf_eventidxs = b } in
        configured quirk
          (admin backend pages pagesize world clock freq fuel rounds t ctrl' (dbconfig_cmd ctrl'))

    pub with_doorbells : Controller backend pages pagesize → Allocated → Done
    unfolding with_eventidxs
    with_doorbells ctrl (m, b, err e) =
        returns (record ctrl { memory = m; dbbuf_doorbells = b }, err e)
    with_doorbells ctrl (m, b, ok _) =
        let ctrl' = record ctrl { memory = m; dbbuf_doorbells = b } in
        with_eventidxs ctrl' (get_dmabuf backend pages pagesize m ctrl'.dbbuf_eventidxs pagesize 0)

    -- `nvme_init_dbconfig`
    pub init_dbconfig : Controller backend pages pagesize → Done
    unfolding with_doorbells
    init_dbconfig ctrl =
        with_doorbells ctrl
          (get_dmabuf backend pages pagesize ctrl.memory ctrl.dbbuf_doorbells pagesize 0)
