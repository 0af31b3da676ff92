-- ===== src/Nvme/Rq.antt =====
-- include/vfn/nvme/rq.h and src/nvme/rq.c: the request trackers of a submission queue, their free
-- list, and how a command is run to completion with one; `nvme_aer` of src/nvme/util.c. A tracker
-- is its place in the array `rqs` of its queue.
mod Tests
pub mod Free
pub mod Owned
pub mod Wait
pub mod Atomic
use Prim.Native.Nat.{bit_and, bit_or}
use libvfn.Base.{
  ℕ, zero, suc, ◌+◌, ◌-◌, ◌*◌, ◌/◌, ◌%◌, ◌^◌, Bool, true, false, not, ◌||◌, Option, none, some,
  List, [], ◌∷◌, update, ltb, ◌==◌, if◌then◌else◌, Errno, einval, ebusy, eagain, eio, etimedout,
  Result, ok, err,
}
use libvfn.Support.Int.{offset}
use libvfn.Nvme.Cmd.{Cmd, zero_cmd, Cqe, Sgld}
use libvfn.Nvme.Prp
use libvfn.Nvme.Prp.{map_prp}
use libvfn.Nvme.Prp.Vector.{Iovec, IovaVec, mapv_prp, mapv_iova_prp}
use libvfn.Nvme.Sgl.{SglMapped, mapv_sgl, mapv_iova_sgl}
use libvfn.Nvme.Queue.{
  Cq, Sq, sq_post, sq_update_tail, sq_exec, cq_update_head, cq_wait_cqes, Reaped,
}

-- `struct nvme_rq`, less the pointer to its queue; NULL is 0 in `opaque`.
pub record Rq : Type 0 where
  pub opaque : ℕ
  pub cid : ℕ
  pub page_vaddr : ℕ
  pub page_iova : ℕ
  pub rq_next : Option ℕ

-- The members `rqs` and `rq_top` of `struct nvme_sq`.
pub record Trackers : Type 0 where
  pub rqs : ℕ → Rq
  pub rq_top : Option ℕ

-- The last part of `__nvme_configure_sq`: the trackers of a queue of `qsize` entries, which has one
-- less of them, all free. `vaddr` and `iova` are those of `sq->pages`. The distance of a page from
-- these is a C `int`.
unfoldable pub init_rqs : ℕ → ℕ → ℕ → ℕ → Trackers
unfolding offset
init_rqs qsize pageshift vaddr iova = record {
  rqs = λ i. record {
    opaque = 0;
    cid = i % 2 ^ 16;
    page_vaddr = offset vaddr (i * 2 ^ pageshift);
    page_iova = offset iova (i * 2 ^ pageshift);
    rq_next = if ltb 0 i then some (i - 1) else none;
  };
  rq_top = some (qsize - 2);
}

-- `nvme_rq_reset`
pub rq_reset : Rq → Rq
rq_reset rq = record rq { opaque = 0 }

-- `nvme_rq_release`
pub rq_release : Trackers → ℕ → Trackers
unfolding rq_reset
rq_release t i = record {
  rqs = update t.rqs i (record (rq_reset (t.rqs i)) { rq_next = t.rq_top });
  rq_top = some i;
}

-- `nvme_rq_acquire`
pub rq_acquire : Trackers → Trackers × Result ℕ
rq_acquire t = elim t.rq_top [
  | none ↦ (t, err ebusy)
  | some i ↦ (record t { rq_top = (t.rqs i).rq_next }, ok i)
]

-- `nvme_rq_from_cqe`, for the queue that the entry names
pub rq_from_cqe : Sq → Cqe → Result ℕ
rq_from_cqe sq cqe = if ltb (sq.qsize - 1) cqe.cid then err einval else ok cqe.cid

-- `nvme_rq_prep_cmd`
pub rq_prep_cmd : Rq → Cmd → Cmd
rq_prep_cmd rq cmd = record cmd { cid = rq.cid }

-- `nvme_rq_post`
pub rq_post : Sq → Rq → Cmd → Sq
rq_post sq rq cmd = sq_post sq (rq_prep_cmd rq cmd)

-- `nvme_rq_exec`
pub rq_exec : Sq → Rq → Cmd → Sq
rq_exec sq rq cmd = sq_update_tail (rq_post sq rq cmd)

-- `nvme_aer`: the queue, its trackers and the outcome.
pub aer : Sq → Trackers → ℕ → (Sq × Trackers) × Result {0} Unit
aer sq t opaque = elim (rq_acquire t).1 [
  | err e ↦ ((sq, (rq_acquire t).0), err ebusy)
  | ok i ↦
      let t' = (rq_acquire t).0 in
      let cmd = record zero_cmd { opcode = 12; cid = bit_or (t'.rqs i).cid (2 ^ 15) } in
      (
        (
          sq_exec sq cmd,
          record t' { rqs = update t'.rqs i (record (t'.rqs i) { opaque = opaque }) },
        ),
        ok tt,
      )
]

-- `nvme_cqe_ok`
pub cqe_ok : Cqe → Bool
cqe_ok cqe = cqe.sfp / 2 == 0

-- `nvme_set_errno_from_cqe`
pub set_errno_from_cqe : Cqe → Result {0} Unit
set_errno_from_cqe cqe = if cqe.sfp / 2 == 0 then ok tt else err eio

-- What `nvme_rq_wait` leaves: the queue, the copy of the entry if it has got one, the outcome and
-- the time.
pub record Waited : Type 0 where
  pub cq : Cq
  pub copy : Option Cqe
  pub ret : Result {0} Unit
  pub time : ℕ

-- The part of `nvme_rq_wait` behind the call of `nvme_cq_wait_cqes`, with the entries of that.
abbrev after_wait : ℕ → Reaped → Waited
after_wait cid r = elim r.cqes [
  | [] ↦ record { cq = r.cq; copy = none; ret = err etimedout; time = r.time }
  | e ∷ es ↦ record {
    cq = cq_update_head r.cq;
    copy = some e;
    ret = if e.cid == cid then (if cqe_ok e then ok tt else set_errno_from_cqe e) else err eagain;
    time = r.time;
  }
]

-- `nvme_rq_wait` for a tracker with command identifier `cid`, from time `t` on
pub rq_wait : (ℕ → ℕ → Cqe) → (ℕ → ℕ) → ℕ → ℕ → ℕ → Cq → ℕ → Option ℕ → Option Waited
rq_wait world clock freq fuel t cq cid ts = elim (cq_wait_cqes world clock freq ts fuel t cq 1) [
  | none ↦ none
  | some r ↦ some (after_wait cid r.0)
]

-- `nvme_rq_spin`
pub rq_spin : (ℕ → ℕ → Cqe) → (ℕ → ℕ) → ℕ → ℕ → ℕ → Cq → ℕ → Option Waited
rq_spin world clock freq fuel t cq cid = rq_wait world clock freq fuel t cq cid none

-- `nvme_rq_map_prp`, `nvme_rq_mapv_prp` and `nvme_rq_mapv_iova_prp`: one list page, that of the
-- tracker, with the contents `lists`.
unfoldable pub rq_map_prp : ℕ → (ℕ → Option ℕ) → Rq → (ℕ → ℕ) → Cmd → ℕ → ℕ → Prp.Mapped
rq_map_prp mps translate rq lists cmd iova len =
    map_prp mps translate rq.page_vaddr lists 1 cmd iova len

pub rq_mapv_prp : ℕ → (ℕ → Option ℕ) → Rq → (ℕ → ℕ) → Cmd → Iovec → List Iovec → Prp.Mapped
rq_mapv_prp mps translate rq lists cmd v vs = mapv_prp mps translate rq.page_vaddr lists 1 cmd v vs

pub rq_mapv_iova_prp : ℕ → (ℕ → Option ℕ) → Rq → (ℕ → ℕ) → Cmd → IovaVec → List IovaVec → Prp.Mapped
rq_mapv_iova_prp mps translate rq lists cmd v vs =
    mapv_iova_prp mps translate rq.page_vaddr lists 1 cmd v vs

-- `nvme_rq_mapv_sgl` and `nvme_rq_mapv_iova_sgl`, with the page as the segment
pub rq_mapv_sgl : ℕ → Bool → (ℕ → Option ℕ) → Rq → (ℕ → Sgld) → Cmd → Iovec → List Iovec → SglMapped
rq_mapv_sgl mps dword_align translate rq seg cmd v vs =
    mapv_sgl mps dword_align translate seg rq.page_iova cmd v vs

pub rq_mapv_iova_sgl : ℕ → Bool → Rq → (ℕ → Sgld) → Cmd → IovaVec → List IovaVec → SglMapped
rq_mapv_iova_sgl mps dword_align rq seg cmd v vs =
    mapv_iova_sgl mps dword_align seg rq.page_iova cmd v vs

-- `nvme_rq_mapv`, with the flags of the controller and the identifier of the queue: what the PRP
-- version or the SGL version makes of the command and of the page.
pub data RqMapped : Type 0 where
  prp : Prp.Mapped → RqMapped
  sgl : SglMapped → RqMapped

pub rq_mapv :
    ℕ → ℕ → ℕ → (ℕ → Option ℕ) → Rq → (ℕ → ℕ) → (ℕ → Sgld) → Cmd → Iovec → List Iovec → RqMapped
unfolding rq_mapv_prp rq_mapv_sgl
rq_mapv mps flags sq_id translate rq lists seg cmd v vs =
    if (bit_and flags 2 == 0) || sq_id == 0
    then prp (rq_mapv_prp mps translate rq lists cmd v vs)
    else sgl (rq_mapv_sgl mps (not (bit_and flags 4 == 0)) translate rq seg cmd v vs)
