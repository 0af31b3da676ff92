-- ===== src/Nvme/Queue/Tests.antt =====
-- The queues at concrete states.
use libvfn.Base.{
  ℕ, ◌+◌, ◌-◌, ◌%◌, ◌^◌, ◌*◌, ◌/◌, ◌≡◌, ◌≢◌, ◌⊎◌, refl, Option, Errno, none, some, [], ◌∷◌, arith,
  update, if◌then◌else◌, ◌==◌, ltb,
}
use libvfn.Support.Word.{u64}
use libvfn.Nvme.Cmd.{zero_cmd, Cqe}
use libvfn.Nvme.Queue.Doorbell.{sq_update_tail_told, sq_exec_lem, IsValid, Passes}
use libvfn.Nvme.Queue.Ring.{Pending, Holds, cq_get_cqe_first}
use libvfn.Nvme.Queue.Reap.{cq_get_cqes_all}
use libvfn.Nvme.Queue.Largest.{reap_while_largest}
use libvfn.Nvme.Queue.Limit.{cq_wait_cqes_lem, Outcome}
use libvfn.Nvme.Queue.{
  Sq, Cq, Dbbuf, sq_update_tail, sq_exec, cq_get_cqe, cq_get_cqes, cq_wait_cqes, reap_while, reaped,
  Reaped, seen,
}

-- Four slots, the tail at the last, with a shadow doorbell that the controller has not caught up.
abbrev shadow : Dbbuf
shadow = record { doorbell = 2; eventidx = 0 }

abbrev submission : Sq
submission = record {
  id = 1;
  tail = 3;
  ptail = 2;
  qsize = 4;
  mem = λ i. zero_cmd;
  dbbuf = some shadow;
  doorbell = [];
}

sq_update_tail_told_example :
    let sq' = sq_update_tail submission in
    (sq'.ptail ≡ 3)
    × (sq'.tail ≡ 3)
    × (sq'.mem ≡ submission.mem)
    × ((sq'.doorbell ≡ 3 ∷ [])
        ⊎ ((d : Dbbuf) × (submission.dbbuf ≡ some d)
            × (sq'.dbbuf ≡ some (record d { doorbell = 3 }))
            × (sq'.doorbell ≡ [])
            × (¬ Passes d 3)))
sq_update_tail_told_example = sq_update_tail_told submission (omega arith) (omega arith)

sq_exec_lem_example :
    let sq' = sq_exec submission zero_cmd in
    (sq'.mem 3 ≡ zero_cmd)
    × ((j : ℕ) → j ≢ 3 → sq'.mem j ≡ zero_cmd)
    × (sq'.tail ≡ (3 + 1) % 4)
    × (sq'.ptail ≡ sq'.tail)
    × IsValid sq'
sq_exec_lem_example = sq_exec_lem submission zero_cmd (omega arith)

abbrev entry : ℕ → ℕ → Cqe
entry cid sfp = record { dw0 = 0; dw1 = 0; sqhd = 0; sqid = 1; cid = cid; sfp = sfp }

-- Two slots; the first round has phase 1, and the controller has posted into the second.
abbrev slots : ℕ → Cqe
slots = update (λ i. entry 0 0) 1 (entry 7 1)

abbrev completion : Cq
completion = record {
  id = 1;
  head = 1;
  qsize = 2;
  phase = 0;
  mem = slots;
  dbbuf = none;
  doorbell = [];
}

-- After the end of the queue a 1 is the stale phase, so slot 0 holds one.
abbrev stale : Cq
stale = record completion { mem = update slots 0 (entry 0 1) }

stale-Pending : Pending stale (entry 7 1 ∷ [])
unfolding Holds
stale-Pending = record {
  within = omega arith;
  small = omega arith;
  bit = omega arith;
  holds = (refl, omega arith, (refl, tt));
}

abbrev drained : Cq
drained = record stale { mem = update stale.mem 1 (entry 6 0) }

drained-Pending : Pending drained []
unfolding Holds
drained-Pending = record {
  within = omega arith;
  small = omega arith;
  bit = omega arith;
  holds = (refl, (refl, tt));
}

cq_get_cqe_first_example :
    let (r, cq') = cq_get_cqe stale in
    (r ≡ some (entry 7 1)) × Pending cq' [] × (cq'.mem ≡ stale.mem) × (cq'.doorbell ≡ [])
cq_get_cqe_first_example = cq_get_cqe_first stale (entry 7 1) [] stale-Pending

-- Only entries with the tag 1 of the first round, at the last slot: the loop takes the entry and goes
-- round; then the entry of the second round, with the tag 0, is at the head.
abbrev largest : Cq
largest = record completion { qsize = 2 ^ 16; head = 2 ^ 16 - 1; mem = λ i. entry 7 1 }

abbrev rounds : ℕ → ℕ → Cqe
rounds t i = if t == 0 then entry 7 1 else entry 8 0

abbrev round_gone : Reaped
round_gone = reaped (entry 7 1 ∷ []) (record largest { head = 0 }) 1

round_run : reap_while rounds (λ t m. ltb 0 m) 1 0 largest 1 ≡ some round_gone
unfolding reap_while cq_get_cqe
round_run = refl

reap_while_largest_example :
    (round_gone.cq.phase ≡ 0)
    × (cq_get_cqe (seen rounds 1 round_gone.cq) ≡ (none, seen rounds 1 round_gone.cq))
reap_while_largest_example =
    reap_while_largest rounds (λ t m. ltb 0 m) 1 0 1 largest 1 round_gone refl round_run refl

cq_get_cqes_all_example :
    (cq' : Cq) × (cq_get_cqes (λ t. stale.mem) 1 0 stale 1
      ≡ some (reaped (entry 7 1 ∷ []) cq' (0 + 1)))
    × Pending cq' []
    × (cq'.doorbell ≡ [])
    × (cq'.mem ≡ stale.mem)
cq_get_cqes_all_example =
    cq_get_cqes_all (λ t. stale.mem) 1 0 stale (entry 7 1) [] [] (λ t. refl) stale-Pending
      (omega arith)

-- Two entries are asked for and one is there; the clock has a microsecond for each tick.
abbrev clock : ℕ → ℕ
clock t = 100 * t

cq_wait_cqes_lem_example :
    (r : Reaped) × (e : Option Errno) × (cq_wait_cqes
        (λ t. stale.mem)
        clock
        1000000
        (some 150)
        3
        0
        stale
        2
      ≡ some (r, e))
    × Outcome clock ((clock 0 + 150 * (1000000 / 1000000)) % u64) 2 r e
cq_wait_cqes_lem_example =
    cq_wait_cqes_lem (λ t. stale.mem) clock 1000000 150 2 0 stale 2 (omega arith) (omega arith)
