-- ===== src/Nvme/Queue/Ring/Post.antt =====
-- The controller's side of a completion queue: posting an entry behind the pending ones.
use libvfn.Base.{
  ℕ, zero, suc, ◌%◌, ◌≤◌, ◌<◌, ◌≢◌, sym, ap, ◌∙◌, List, [], ◌∷◌, ◌++◌, arith, length, update,
  update_self, update_ne,
}
use libvfn.Nvme.Cmd.{Cqe}
use libvfn.Nvme.Queue.{Cq}
use libvfn.Nvme.Queue.Ring.{
  next_slot, next_phase, slot_after, phase_after, Holds, Pending, slot_after_lem,
}

-- Fewer than `qsize` steps round the queue do not come back.
apart : (q h i : ℕ) → h < q → suc i < q → slot_after q (next_slot q h) i ≢ h
unfolding slot_after
apart q h i hh hi = ground (arith, slot_after_lem q h (suc i))

-- A write to another slot.
update-Holds :
    (q : ℕ) (mem : ℕ → Cqe) (h ph k s : ℕ) (es : List Cqe) (e : Cqe)
    → ((i : ℕ) → i < k → slot_after q h i ≢ s)
    → Holds q mem h ph es k
    → Holds q (update mem s e) h ph es k
unfolding Holds slot_after
update-Holds q mem h ph zero s [] e far v = tt
update-Holds q mem h ph zero s (x ∷ es) e far v = absurd v
update-Holds q mem h ph (suc k) s [] e far v = (
  ap (λ (c : Cqe). c.sfp % 2) (update_ne mem s h e (far 0 (omega arith))) ∙ v.0,
  update-Holds q mem (next_slot q h) (next_phase q h ph) k s [] e
      (λ i hi. far (suc i) (omega arith)) v.1,
)
update-Holds q mem h ph (suc k) s (x ∷ es) e far v = (
  update_ne mem s h e (far 0 (omega arith)) ∙ v.0,
  v.1,
  update-Holds q mem (next_slot q h) (next_phase q h ph) k s es e
      (λ i hi. far (suc i) (omega arith)) v.2,
)

next_slot-lt : (q h : ℕ) → h < q → next_slot q h < q
next_slot-lt q h hh = ground arith

-- The controller posts an entry behind the pending ones: into the slot after them, with the inverse
-- of the phase that is stale there.
append-Holds :
    (q : ℕ) (mem : ℕ → Cqe) (h ph k : ℕ) (es : List Cqe) (e : Cqe)
    → h < q
    → k ≤ q
    → length es < k
    → e.sfp % 2 ≢ phase_after q h ph (length es)
    → Holds q mem h ph es k
    → Holds q (update mem (slot_after q h (length es)) e) h ph (es ++ e ∷ []) k
unfolding Holds slot_after phase_after
append-Holds q mem h ph zero es e hh hk hl ho v = absurd (omega arith)
append-Holds q mem h ph (suc k) [] e hh hk hl ho v = (
  update_self mem h e,
  ho,
  update-Holds q mem (next_slot q h) (next_phase q h ph) k h [] e
      (λ i hi. apart q h i hh (omega arith)) v.1,
)
append-Holds q mem h ph (suc k) (x ∷ es) e hh hk hl ho v = (
  update_ne mem _ h e (λ p. apart q h (length es) hh (omega arith) (sym p)) ∙ v.0,
  v.1,
  append-Holds q mem (next_slot q h) (next_phase q h ph) k es e (next_slot-lt q h hh) (omega arith)
      (omega arith) ho v.2,
)

-- An entry that the controller posts while a slot is left for it becomes the youngest of those that
-- `nvme_cq_get_cqe` has pending.
pub post-Pending :
    (cq : Cq) (es : List Cqe) (e : Cqe)
    → Pending cq es
    → length es < cq.qsize
    → e.sfp % 2 ≢ phase_after cq.qsize cq.head cq.phase (length es)
    → Pending
        (record cq { mem = update cq.mem (slot_after cq.qsize cq.head (length es)) e })
        (es ++ e ∷ [])
post-Pending cq es e v room other = record {
  within = v.within;
  small = v.small;
  bit = v.bit;
  holds =
      append-Holds cq.qsize cq.mem cq.head cq.phase cq.qsize es e v.within (omega arith) room other
        v.holds;
}
