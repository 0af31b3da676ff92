-- ===== src/Nvme/Queue/Largest.antt =====
-- A completion queue of 65536 entries, the largest that a controller can offer, in the loops of
-- src/nvme/queue.c that reap entries.
use libvfn.Base.{
  ℕ, zero, suc, ◌+◌, ◌-◌, ◌%◌, ◌^◌, ◌≡◌, refl, sym, subst, ◌∙◌, Bool, Option, some, none, arith,
  inl, inr, Bool-cases, Option-cases, eq→==,
}
use libvfn.Nvme.Cmd.{Cqe}
use libvfn.Nvme.Queue.{Cq, Reaped, and_before, seen, reap_while, cq_get_cqe}

-- The queue that a loop leaves.
abbrev left : Cq → Option Reaped → Cq
left cq none = cq
left cq (some r) = r.cq

left-and_before : (cq : Cq) (e : Cqe) (o : Option Reaped) → left cq (and_before e o) ≡ left cq o
left-and_before cq e none = refl
left-and_before cq e (some r) = refl

-- What no poll breaks, no loop breaks.
keeps :
    (P : Cq → Type 0) (world : ℕ → ℕ → Cqe) (more : ℕ → ℕ → Bool)
    → ((t : ℕ) (cq : Cq) → P cq → P (cq_get_cqe (seen world t cq)).1)
    → (fuel t : ℕ) (start cq : Cq) (n : ℕ) → P start
    → P cq
    → P (left start (reap_while world more fuel t cq n))
unfolding reap_while
keeps P world more step zero t start cq n hs h = hs
keeps P world more step (suc fuel) t start cq n hs h =
    let q = cq_get_cqe (seen world t cq) in
    let h' = step t cq h in
    elim (Option-cases q.0) [
      | inl w ↦ elim (Bool-cases (more t n)) [
        | inl b ↦ rw (reap_while, w, b) (keeps P world more step fuel (t + 1) start q.1 n hs h')
        | inr b ↦ rw (reap_while, w, b) h'
      ]
      | inr (c, w) ↦ elim (Bool-cases (more t (n - 1))) [
        | inl b ↦
            rw (reap_while, w, b)
              (subst P
                (sym (left-and_before start c (reap_while world more fuel (t + 1) q.1 (n - 1))))
                (keeps P world more step fuel (t + 1) start q.1 (n - 1) hs h'))
        | inr b ↦ rw (reap_while, w, b) h'
      ]
    ]

-- The size and the phase.
abbrev Same : ℕ → Cq → Type 0
Same phase cq = (cq.qsize ≡ 2 ^ 16) × (cq.phase ≡ phase)

cq_get_cqe-Same :
    (phase : ℕ) (world : ℕ → ℕ → Cqe) (t : ℕ) (cq : Cq)
    → Same phase cq
    → Same phase (cq_get_cqe (seen world t cq)).1
unfolding cq_get_cqe
cq_get_cqe-Same phase world t cq h = ground arith

-- A completion queue of 65536 entries never inverts its phase: whatever the controller posts, each loop
-- that returns leaves the phase as it was. So an entry at the head with the tag of the controller's
-- second round, which equals the phase that was the stale one at the start, is taken for a stale one
-- by the next poll, which changes nothing.
pub reap_while_largest :
    (world : ℕ → ℕ → Cqe) (more : ℕ → ℕ → Bool) (fuel t t' : ℕ) (cq : Cq) (n : ℕ) (r : Reaped)
    → cq.qsize ≡ 2 ^ 16
    → reap_while world more fuel t cq n ≡ some r
    → (world t' r.cq.head).sfp % 2 ≡ cq.phase
    → (r.cq.phase ≡ cq.phase) × (cq_get_cqe (seen world t' r.cq) ≡ (none, seen world t' r.cq))
unfolding cq_get_cqe
reap_while_largest world more fuel t t' cq n r hq e second =
    let (_, same) =
      subst (λ (o : Option Reaped). Same cq.phase (left cq o)) e
        (keeps (Same cq.phase) world more (cq_get_cqe-Same cq.phase world) fuel t cq cq n (hq, refl)
          (hq, refl)) in
    (same, rw (eq→== ((world t' r.cq.head).sfp % 2) r.cq.phase (second ∙ sym same)))
