-- ===== src/Nvme/Sync.antt =====
-- `nvme_sync` of src/nvme/util.c: a command with its buffer, from the mapping of the buffer to the
-- completion. Memory for the command's PRP list is the page of its tracker.
mod Tests
pub mod Spin
pub mod Laws
pub mod Plain
use libvfn.Base.{
  ℕ, zero, suc, Bool, true, false, Option, none, some, update, if◌then◌else◌, Errno, ebusy, eagain,
  Result, ok, err,
}
use libvfn.Iommu.Dma.{Backend, Ctx, translate_vaddr, map_vaddr, unmap_vaddr}
use libvfn.Nvme.Cmd.{Cmd, Cqe}
use libvfn.Nvme.Prp
use libvfn.Nvme.Queue.{Cq, Sq}
use libvfn.Nvme.Rq.{Trackers, rq_acquire, rq_release, rq_exec, rq_spin, rq_map_prp}

-- A submission queue with its trackers and the contents of their pages, and its completion queue.
pub record Queues : Type 0 where
  pub sq : Sq
  pub trackers : Trackers
  pub lists : ℕ → ℕ → ℕ
  pub cq : Cq

-- `fatal` where `log_fatal_if` ends the program, and `waits` where the fuel is not enough.
pub data Ended {ℓ} (A : Type ℓ) : Type ℓ where
  waits fatal : Ended A
  returns : A → Ended A

abbrev pub is_eagain : Errno → Bool
is_eagain eagain = true
is_eagain _ = false

-- The loop of `nvme_sync`: the queue, the last entry and the outcome. `rounds` is the fuel for the
-- entries of other commands, `fuel` that for the polls of each call.
pub sync_spin :
    (ℕ → ℕ → Cqe) → (ℕ → ℕ) → ℕ → ℕ → ℕ → ℕ → Cq → ℕ → Option (Cq × Option Cqe × Result {0} Unit)
sync_spin world clock freq fuel zero t cq cid = none
sync_spin world clock freq fuel (suc rounds) t cq cid =
    elim (rq_spin world clock freq fuel t cq cid) [
      | none ↦ none
      | some w ↦ elim w.ret [
        | ok _ ↦ some (w.cq, w.copy, ok tt)
        | err e ↦ elim (is_eagain e) [
          | true ↦ sync_spin world clock freq fuel rounds w.time w.cq cid
          | false ↦ some (w.cq, w.copy, err e)
        ]
      ]
    ]

module _ (backend : Backend) where
  abbrev pub Synced : Type 0
  Synced = Ended (Ctx backend × Queues × Option Cqe × Result {0} Unit)

  -- The first part: whether the buffer has to be unmapped at the end, and its I/O address. The flag
  -- is IOMMU_MAP_EPHEMERAL.
  pub map_buffer : Ctx backend → ℕ → ℕ → Ctx backend × Bool × Result ℕ
  map_buffer ctx vaddr len = elim (translate_vaddr backend ctx vaddr) [
    | some iova ↦ (ctx, false, ok iova)
    | none ↦ let (ctx', ret) = map_vaddr backend ctx vaddr len 0 2 in (ctx', true, ret)
  ]

  -- From `release_rq` on.
  pub finish_sync : Ctx backend → Queues → ℕ → Option ℕ → Option Cqe → Result {0} Unit → Synced
  finish_sync ctx q i none copy ret =
      returns (ctx, record q { trackers = rq_release q.trackers i }, copy, ret)
  finish_sync ctx q i (some vaddr) copy ret =
      let (ctx', unmapped) = unmap_vaddr backend ctx vaddr in
      elim unmapped [
        | err e ↦ fatal
        | ok _ ↦ returns (ctx', record q { trackers = rq_release q.trackers i }, copy, ret)
      ]

  module _ (world : ℕ → ℕ → Cqe) (clock : ℕ → ℕ) (freq fuel rounds t : ℕ) where
    -- From the call of `nvme_rq_exec` on, with the tracker `i`.
    pub exec_sync : Ctx backend → Queues → ℕ → Cmd → Option ℕ → Synced
    unfolding finish_sync
    exec_sync ctx q i cmd unmap =
        elim (sync_spin world clock freq fuel rounds t q.cq (q.trackers.rqs i).cid) [
          | none ↦ waits
          | some (cq, copy, ret) ↦
              finish_sync ctx (record q { sq = rq_exec q.sq (q.trackers.rqs i) cmd; cq = cq }) i
                unmap copy ret
        ]

    -- With the tracker `i` and what `nvme_rq_map_prp` has made of the command and the list page.
    pub map_sync : Ctx backend → Queues → Option ℕ → ℕ → Prp.Mapped → Synced
    unfolding exec_sync finish_sync
    map_sync ctx q unmap i m =
        let q' = record q { lists = update q.lists i m.prplists } in
        elim m.result [
          | err e ↦ finish_sync ctx q' i unmap none (err e)
          | ok _ ↦ exec_sync ctx q' i m.cmd unmap
        ]

    -- From the call of `nvme_rq_acquire_atomic` on, with what that returns: without a buffer, and with
    -- one at `iova`.
    pub acquire_none : Ctx backend → Queues → Cmd → Trackers × Result ℕ → Synced
    unfolding exec_sync
    acquire_none ctx q cmd (t', err e) = returns (ctx, record q { trackers = t' }, none, err e)
    acquire_none ctx q cmd (t', ok i) = exec_sync ctx (record q { trackers = t' }) i cmd none

    pub acquire_some :
        ℕ → Ctx backend → Queues → Cmd → Option ℕ → ℕ → ℕ → Trackers × Result ℕ → Synced
    unfolding map_sync
    acquire_some mps ctx q cmd unmap iova len (t', err e) =
        returns (ctx, record q { trackers = t' }, none, err e)
    acquire_some mps ctx q cmd unmap iova len (t', ok i) =
        map_sync ctx (record q { trackers = t' }) unmap i
          (rq_map_prp mps (translate_vaddr backend ctx) (t'.rqs i) (q.lists i) cmd iova len)

    -- With what the first part has returned.
    pub mapped_sync : ℕ → Queues → Cmd → ℕ → ℕ → Ctx backend × Bool × Result ℕ → Synced
    unfolding acquire_some
    mapped_sync mps q cmd vaddr len (ctx, do_unmap, err e) = returns (ctx, q, none, err e)
    mapped_sync mps q cmd vaddr len (ctx, do_unmap, ok iova) =
        acquire_some mps ctx q cmd (if do_unmap then some vaddr else none) iova len
          (rq_acquire q.trackers)

    -- `nvme_sync`, for a buffer of the given address and length, if there is one: the context, the
    -- queues, the copy of the entry, and the outcome. While no other thread is at the queue, the
    -- lock-free operations on trackers that it uses are `rq_acquire` and `rq_release`.
    pub sync : ℕ → Ctx backend → Queues → Cmd → Option (ℕ × ℕ) → Synced
    unfolding acquire_none map_buffer mapped_sync
    sync mps ctx q cmd none = acquire_none ctx q cmd (rq_acquire q.trackers)
    sync mps ctx q cmd (some (vaddr, len)) =
        mapped_sync mps q cmd vaddr len (map_buffer ctx vaddr len)
