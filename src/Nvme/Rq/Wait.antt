-- ===== src/Nvme/Rq/Wait.antt =====
-- `nvme_rq_wait` of src/nvme/rq.c over the reaping loop of the completion queue.
use libvfn.Base.{
  ℕ, zero, suc, ◌+◌, ◌/◌, ◌%◌, arith, ◌<◌, ◌≡◌, ◌≢◌, refl, ◌∙◌, some, List, [], ◌∷◌, ne→==, eq→==,
  ◌==◌, Result, ok, err, eagain, eio, if◌then◌else◌,
}
use libvfn.Nvme.Cmd.{Cqe}
use libvfn.Nvme.Queue.{Cq, reaped, cq_get_cqe, cq_update_head}
use libvfn.Nvme.Queue.Doorbell.{Told, Told-from, cq_update_head-Told}
use libvfn.Nvme.Queue.Ring.{Pending, cq_get_cqe_first, cq_get_cqe-head}
use libvfn.Nvme.Queue.Reap.{
  cq_get_cqes_one, cq_wait_cqes-spin, cq_update_head-Pending, cq_update_head-mem,
  cq_update_head-head,
}
use libvfn.Nvme.Rq.{Waited, cqe_ok, set_errno_from_cqe, rq_wait, rq_spin}

-- The outcome for an entry: EAGAIN for another command's, EIO where the status is not 0.
unfoldable pub Outcome : ℕ → Cqe → Result {0} Unit → Type 0
Outcome cid e ret =
    (e.cid ≢ cid → ret ≡ err eagain)
    × (e.cid ≡ cid → e.sfp / 2 ≢ 0 → ret ≡ err eio)
    × (e.cid ≡ cid → e.sfp / 2 ≡ 0 → ret ≡ ok tt)

outcome_lem :
    (cid : ℕ) (e : Cqe)
    → Outcome cid e
        (if e.cid == cid then (if cqe_ok e then ok tt else set_errno_from_cqe e) else err eagain)
unfolding Outcome cqe_ok set_errno_from_cqe
outcome_lem cid e = (
  λ h. rw (ne→== e.cid cid h) refl,
  λ h s. rw (eq→== e.cid cid h, cqe_ok, set_errno_from_cqe, ne→== (e.sfp / 2) 0 s) refl,
  λ h s. rw (eq→== e.cid cid h, cqe_ok, eq→== (e.sfp / 2) 0 s) refl,
)

-- `nvme_rq_spin` with an entry pending, while the controller posts nothing: one poll is enough. It
-- takes the oldest entry and copies it out, steps the head round the queue and tells the controller
-- of it, by the doorbell register or the shadow doorbell. It returns EAGAIN where
-- the entry has another command identifier, EIO where its status is not 0, and success otherwise;
-- the entries behind it stay pending, and no slot is written.
pub rq_spin_lem :
    (world : ℕ → ℕ → Cqe) (clock : ℕ → ℕ) (freq fuel t cid : ℕ) (cq : Cq) (e : Cqe) (es : List Cqe)
    → ((t' : ℕ) → world t' ≡ cq.mem)
    → Pending cq (e ∷ es)
    → 0 < fuel
    → (w : Waited) × (rq_spin world clock freq fuel t cq cid ≡ some w)
      × Pending w.cq es
      × (w.copy ≡ some e)
      × Outcome cid e w.ret
      × (w.cq.mem ≡ cq.mem)
      × (w.cq.head ≡ (cq.head + 1) % cq.qsize)
      × Told cq w.cq
unfolding rq_spin rq_wait
rq_spin_lem world clock freq zero t cid cq e es still v hf = absurd (omega arith)
rq_spin_lem world clock freq (suc fuel) t cid cq e es still v hf =
    let cq' = (cq_get_cqe cq).1 in
    let (_, v', m, d) = cq_get_cqe_first cq e es v in
    let (head, dbbuf) = cq_get_cqe-head cq e es v in
    let r = cq_get_cqes_one world fuel t cq e es (still t) v in
    let told = cq_update_head-Told cq' (omega (arith, v'.within, v'.small)) in
    (
      record {
        cq = cq_update_head cq';
        copy = some e;
        ret =
            if e.cid == cid then (if cqe_ok e then ok tt else set_errno_from_cqe e) else err eagain;
        time = t + 1;
      },
      rw
          (
            rq_wait,
            cq_wait_cqes-spin world clock freq (suc fuel) t cq 1 (reaped (e ∷ []) cq' (t + 1)) r,
          )
          refl,
      cq_update_head-Pending cq' es v',
      refl,
      outcome_lem cid e,
      cq_update_head-mem cq' ∙ m,
      cq_update_head-head cq' ∙ head,
      Told-from cq cq' (cq_update_head cq') dbbuf d told,
    )
