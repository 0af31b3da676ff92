-- ===== src/Nvme/Rq/Tests.antt =====
-- Runs of include/vfn/nvme/rq.h and src/nvme/rq.c on a queue of four entries.
use libvfn.Base.{ℕ, ◌-◌, ◌^◌, ◌≡◌, refl, some, none, [], ◌∷◌, arith, ltb, if◌then◌else◌, ok}
use libvfn.Nvme.Cmd.{Cqe, zero_cmd}
use libvfn.Nvme.Queue.{Sq, Cq}
use libvfn.Support.Int.{offset, sign_extend}
use libvfn.Nvme.Queue.Doorbell.{Told}
use libvfn.Nvme.Queue.Ring.{Holds, Pending}
use libvfn.Nvme.Rq.{Trackers, Waited, init_rqs, rq_acquire, rq_spin}
use libvfn.Nvme.Rq.Free.{Chain}
use libvfn.Nvme.Rq.Owned.{Owned, Run, Run-Owned}
use libvfn.Nvme.Rq.Wait.{Outcome, rq_spin_lem}

abbrev fresh : Trackers
fresh = init_rqs 4 12 65536 131072

abbrev taken : Trackers
taken = (rq_acquire fresh).0

fresh-Chain : Chain fresh.rqs fresh.rq_top (2 ∷ 1 ∷ 0 ∷ [])
unfolding init_rqs
fresh-Chain = (refl, (refl, (refl, refl)))

-- With pages of 64 KB the distance of the page of tracker 32768 is no `int`: the page is 2 GB below the
-- memory, where it would have to be 2 GB above its start.
far_page : ((init_rqs 65536 16 (2 ^ 40) 65536).rqs 32768).page_vaddr ≡ 2 ^ 40 - 2 ^ 31
unfolding init_rqs offset sign_extend
far_page = refl

first_acquire : (rq_acquire fresh).1 ≡ ok 2
unfolding init_rqs rq_acquire
first_acquire = refl

taken-Run : Run 4 12 65536 131072 taken (2 ∷ [])
taken-Run = Run.acquire 2 Run.start first_acquire

Run-Owned_example : Owned 4 taken (2 ∷ [])
Run-Owned_example = Run-Owned 4 12 65536 131072 taken (2 ∷ []) (omega arith) taken-Run

taken-Chain : Chain taken.rqs taken.rq_top (1 ∷ 0 ∷ [])
unfolding init_rqs rq_acquire
taken-Chain = (refl, (refl, refl))

abbrev queue : Sq
queue = record {
  id = 1;
  tail = 0;
  ptail = 0;
  qsize = 4;
  mem = λ i. zero_cmd;
  dbbuf = none;
  doorbell = [];
}

abbrev entry : ℕ → ℕ → Cqe
entry cid sfp = record { dw0 = 0; dw1 = 0; sqhd = 0; sqid = 1; cid = cid; sfp = sfp }

taken_cid : 2 ≡ (taken.rqs 2).cid
unfolding init_rqs rq_acquire
taken_cid = refl

-- A completion queue of two slots with one entry pending, for identifier 2.
abbrev completion : Cq
completion = record {
  id = 1;
  head = 0;
  qsize = 2;
  phase = 0;
  mem = λ i. if ltb i 1 then entry 2 1 else entry 0 0;
  dbbuf = none;
  doorbell = [];
}

completion-Pending : Pending completion (entry 2 1 ∷ [])
unfolding Holds
completion-Pending = record {
  within = omega arith;
  small = omega arith;
  bit = omega arith;
  holds = (refl, omega arith, (refl, tt));
}

rq_spin_lem_example :
    (w : Waited) × (rq_spin (λ t. completion.mem) (λ t. t) 1000000 1 0 completion 2 ≡ some w)
    × Pending w.cq []
    × (w.copy ≡ some (entry 2 1))
    × Outcome 2 (entry 2 1) w.ret
    × (w.cq.mem ≡ completion.mem)
    × (w.cq.head ≡ 1)
    × Told completion w.cq
rq_spin_lem_example =
    rq_spin_lem (λ t. completion.mem) (λ t. t) 1000000 1 0 2 completion (entry 2 1) [] (λ t. refl)
      completion-Pending (omega arith)
