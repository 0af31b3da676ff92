-- ===== src/Nvme/Queue/Reap.antt =====
-- The reaping loop of src/nvme/queue.c.
use libvfn.Base.{
  ℕ, zero, suc, ◌+◌, ◌-◌, ◌<◌, ◌≡◌, refl, sym, ap, ◌∙◌, Bool, true, false, some, none, List, [],
  ◌∷◌, ◌++◌, arith, length, if◌then◌else◌,
}
use libvfn.Nvme.Cmd.{Cqe}
use libvfn.Nvme.Queue.{
  Cq, reaped, and_before, seen, reap_while, cq_get_cqe, cq_get_cqes, cq_wait_cqes, cq_update_head,
  Reaped,
}
use libvfn.Nvme.Queue.Ring.{Pending, cq_get_cqe_first}

suc-sub : (n : ℕ) → suc n - 1 ≡ n
suc-sub n = omega arith

-- One poll of the loop that finds the entry at the front.
reap_step :
    (world : ℕ → ℕ → Cqe) (more : ℕ → ℕ → Bool) (fuel t n : ℕ) (cq : Cq) (e : Cqe) (b : Bool)
    → world t ≡ cq.mem
    → (cq_get_cqe cq).0 ≡ some e
    → more t (n - 1) ≡ b
    → reap_while world more (suc fuel) t cq n ≡ (
        if b
        then and_before e (reap_while world more fuel (t + 1) (cq_get_cqe cq).1 (n - 1))
        else some (reaped (e ∷ []) (cq_get_cqe cq).1 (t + 1)))
unfolding reap_while
reap_step world more fuel t n cq e true h k m =
    let same : seen world t cq ≡ cq = ap (λ f. record cq { mem = f }) h in
    let k' : (cq_get_cqe (seen world t cq)).0 ≡ some e = rw same k in
    rw (k', m, reap_while)
      (ap (λ q. and_before e (reap_while world more fuel (t + 1) (cq_get_cqe q).1 (n - 1))) same)
reap_step world more fuel t n cq e false h k m =
    let same : seen world t cq ≡ cq = ap (λ f. record cq { mem = f }) h in
    let k' : (cq_get_cqe (seen world t cq)).0 ≡ some e = rw same k in
    rw (k', m, reap_while) (ap (λ q. some (reaped (e ∷ []) (cq_get_cqe q).1 (t + 1))) same)

-- `nvme_cq_get_cqes` for as many entries as `x ∷ xs`, while these are pending and the controller
-- posts nothing: as many polls as entries are enough, the entries come in order, and what was
-- pending behind them stays pending. No doorbell and no slot is written.
pub cq_get_cqes_all :
    (world : ℕ → ℕ → Cqe) (fuel t : ℕ) (cq : Cq) (x : Cqe) (xs ys : List Cqe)
    → ((t' : ℕ) → world t' ≡ cq.mem)
    → Pending cq (x ∷ (xs ++ ys))
    → length xs < fuel
    → (cq' : Cq) × (cq_get_cqes world fuel t cq (suc (length xs))
        ≡ some (reaped (x ∷ xs) cq' (t + suc (length xs))))
      × Pending cq' ys
      × (cq'.doorbell ≡ cq.doorbell)
      × (cq'.mem ≡ cq.mem)
unfolding cq_get_cqes
cq_get_cqes_all world zero t cq x xs ys still v hf = absurd (omega arith)
cq_get_cqes_all world (suc fuel) t cq x [] ys still v hf =
    let (r, v', m, d) = cq_get_cqe_first cq x ys v in
    ((cq_get_cqe cq).1, reap_step world _ fuel t 1 cq x false (still t) r refl, v', d, m)
cq_get_cqes_all world (suc fuel) t cq x (y ∷ xs) ys still v hf =
    let (r, v', m, d) = cq_get_cqe_first cq x (y ∷ (xs ++ ys)) v in
    let cq1 = (cq_get_cqe cq).1 in
    let (cq', e, v'', d', m') =
      cq_get_cqes_all world fuel (t + 1) cq1 y xs ys (λ t'. still t' ∙ sym m) v' (omega arith) in
    let count = ap (cq_get_cqes world fuel (t + 1) cq1) (suc-sub (suc (length xs))) in
    (
      cq',
      reap_step world _ fuel t (suc (suc (length xs))) cq x true (still t) r (ground arith)
          ∙ ap (and_before x) (count ∙ e)
          ∙ ap (λ k. some (reaped (x ∷ y ∷ xs) cq' k)) (omega arith),
      v'',
      d' ∙ d,
      m' ∙ m,
    )

-- One entry.
pub cq_get_cqes_one :
    (world : ℕ → ℕ → Cqe) (fuel t : ℕ) (cq : Cq) (x : Cqe) (ys : List Cqe)
    → world t ≡ cq.mem
    → Pending cq (x ∷ ys)
    → cq_get_cqes world (suc fuel) t cq 1 ≡ some (reaped (x ∷ []) (cq_get_cqe cq).1 (t + 1))
unfolding cq_get_cqes
cq_get_cqes_one world fuel t cq x ys still v =
    reap_step world _ fuel t 1 cq x false still (cq_get_cqe_first cq x ys v).0 refl

-- Without a time limit `nvme_cq_wait_cqes` is `nvme_cq_get_cqes`.
pub cq_wait_cqes-spin :
    (world : ℕ → ℕ → Cqe) (clock : ℕ → ℕ) (freq fuel t : ℕ) (cq : Cq) (n : ℕ) (r : Reaped)
    → cq_get_cqes world fuel t cq n ≡ some r
    → cq_wait_cqes world clock freq none fuel t cq n ≡ some (r, none)
unfolding cq_wait_cqes
cq_wait_cqes-spin world clock freq fuel t cq n r e = rw (cq_wait_cqes, e) refl

pub cq_update_head-Pending :
    (cq : Cq) (es : List Cqe) → Pending cq es → Pending (cq_update_head cq) es
unfolding cq_update_head
cq_update_head-Pending cq es v = record {
  within = v.within;
  small = v.small;
  bit = v.bit;
  holds = v.holds;
}

pub cq_update_head-mem : (cq : Cq) → (cq_update_head cq).mem ≡ cq.mem
unfolding cq_update_head
cq_update_head-mem cq = refl

pub cq_update_head-head : (cq : Cq) → (cq_update_head cq).head ≡ cq.head
unfolding cq_update_head
cq_update_head-head cq = refl
