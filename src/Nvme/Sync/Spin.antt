-- ===== src/Nvme/Sync/Spin.antt =====
-- The loop of `nvme_sync` over the completions of other commands.
use libvfn.Base.{
  ℕ, zero, suc, ◌/◌, ◌<◌, ◌≡◌, ◌≢◌, refl, sym, ap, ◌∙◌, some, List, [], ◌∷◌, ◌++◌, All, length,
  arith, ◌==◌, if◌then◌else◌, eq→==, ne→==, eq-cases, inl, inr, Result, ok, err, eagain, eio,
}
use libvfn.Nvme.Cmd.{Cqe}
use libvfn.Nvme.Queue.{Cq}
use libvfn.Nvme.Queue.Ring.{Pending}
use libvfn.Nvme.Rq.{Waited, rq_spin}
use libvfn.Nvme.Rq.Wait.{Outcome, rq_spin_lem}
use libvfn.Nvme.Sync.{sync_spin}

-- The outcome of a command by its entry.
abbrev pub status : Cqe → Result {0} Unit
status e = if e.sfp / 2 == 0 then ok tt else err eio

-- One round, with the entry of another command, and with the one that is waited for.
again :
    (world : ℕ → ℕ → Cqe) (clock : ℕ → ℕ) (freq fuel rounds t cid : ℕ) (cq : Cq) (w : Waited)
    → rq_spin world clock freq fuel t cq cid ≡ some w
    → w.ret ≡ err eagain
    → sync_spin world clock freq fuel (suc rounds) t cq cid
      ≡ sync_spin world clock freq fuel rounds w.time w.cq cid
unfolding sync_spin
again world clock freq fuel rounds t cid cq w h e = rw (h, sync_spin, e) refl

found :
    (world : ℕ → ℕ → Cqe) (clock : ℕ → ℕ) (freq fuel rounds t cid : ℕ) (cq : Cq) (w : Waited)
    (e : Cqe)
    → rq_spin world clock freq fuel t cq cid ≡ some w
    → w.ret ≡ status e
    → sync_spin world clock freq fuel (suc rounds) t cq cid ≡ some (w.cq, w.copy, status e)
unfolding sync_spin
found world clock freq fuel rounds t cid cq w e h q = elim (eq-cases (e.sfp / 2) 0) [
  | inl z ↦ rw (h, sync_spin, q, eq→== (e.sfp / 2) 0 z) refl
  | inr z ↦ rw (h, sync_spin, q, ne→== (e.sfp / 2) 0 z) refl
]

status_lem :
    (cid : ℕ) (e : Cqe) (ret : Result {0} Unit) → e.cid ≡ cid → Outcome cid e ret → ret ≡ status e
unfolding Outcome
status_lem cid e ret h (other, bad, good) = elim (eq-cases (e.sfp / 2) 0) [
  | inl z ↦ good h z ∙ sym (rw (eq→== (e.sfp / 2) 0 z) refl)
  | inr z ↦ bad h z ∙ sym (rw (ne→== (e.sfp / 2) 0 z) refl)
]

-- The loop passes over the entries of other commands, as many rounds as there are, and ends with the
-- entry that it waits for.
pub sync_spin_lem :
    (world : ℕ → ℕ → Cqe) (clock : ℕ → ℕ) (freq fuel rounds t cid : ℕ) (cq : Cq) (others : List Cqe)
    (e : Cqe) (es : List Cqe)
    → ((t' : ℕ) → world t' ≡ cq.mem)
    → Pending cq (others ++ e ∷ es)
    → All (λ (c : Cqe). c.cid ≢ cid) others
    → e.cid ≡ cid
    → 0 < fuel
    → length others < rounds
    → (cq' : Cq) × (sync_spin world clock freq fuel rounds t cq cid ≡ some (cq', some e, status e))
      × Pending cq' es
unfolding Outcome
sync_spin_lem world clock freq fuel zero t cid cq others e es still v ho he hf hr =
    absurd (omega arith)
sync_spin_lem world clock freq fuel (suc rounds) t cid cq [] e es still v ho he hf hr =
    let (w, r, p, c, o, m, _, _) = rq_spin_lem world clock freq fuel t cid cq e es still v hf in
    (
      w.cq,
      found world clock freq fuel rounds t cid cq w e r (status_lem cid e w.ret he o)
          ∙ ap (λ x. some (w.cq, x, status e)) c,
      p,
    )
sync_spin_lem world clock freq fuel (suc rounds) t cid cq (x ∷ others) e es still v ho he hf hr =
    let (w, r, p, c, o, m, _, _) =
      rq_spin_lem world clock freq fuel t cid cq x (others ++ e ∷ es) still v hf in
    let (cq', q, p') =
      sync_spin_lem world clock freq fuel rounds w.time cid w.cq others e es
        (λ t'. still t' ∙ sym m) p ho.1 he hf (omega arith) in
    (cq', again world clock freq fuel rounds t cid cq w r (o.0 ho.0) ∙ q, p')
