-- ===== src/Nvme/Queue.antt =====
-- include/vfn/nvme/queue.h and src/nvme/queue.c: the submission and completion queues, their
-- doorbells and shadow doorbells. Queue memory is a function of the slot. A doorbell register is
-- the list of the values written to it, newest first. Times at which the code looks at memory that
-- the controller writes, or at the clock, are numbered; `world` gives the memory at each.
mod Tests
pub mod Doorbell
pub mod Ring
pub mod Reap
pub mod Ending
pub mod Limit
pub mod Largest
use Prim.Native.Nat.{bit_xor}
use libvfn.Base.{
  ℕ, zero, suc, ◌+◌, ◌-◌, ◌*◌, ◌/◌, ◌%◌, ◌^◌, Bool, true, false, Option, none, some, List, [], ◌∷◌,
  length, update, ltb, leb, ◌==◌, if◌then◌else◌, Errno, etimedout,
}
use libvfn.Support.Word.{u64}
use libvfn.Nvme.Cmd.{Cmd, Cqe}

-- `struct nvme_dbbuf`: the two words that it points to.
pub record Dbbuf : Type 0 where
  pub doorbell : ℕ
  pub eventidx : ℕ

-- `struct nvme_cq`; `dbbuf` is `none` where its pointers are NULL.
pub record Cq : Type 0 where
  pub id : ℕ
  pub head : ℕ
  pub qsize : ℕ
  pub phase : ℕ
  pub mem : ℕ → Cqe
  pub dbbuf : Option Dbbuf
  pub doorbell : List ℕ

-- `struct nvme_sq`, without the stack of request trackers.
pub record Sq : Type 0 where
  pub id : ℕ
  pub tail : ℕ
  pub ptail : ℕ
  pub qsize : ℕ
  pub mem : ℕ → Cmd
  pub dbbuf : Option Dbbuf
  pub doorbell : List ℕ

-- `++i == qsize ? 0 : i` on a 16-bit index
abbrev pub next_index : ℕ → ℕ → ℕ
next_index i qsize = if (i + 1) % 2 ^ 16 == qsize then 0 else (i + 1) % 2 ^ 16

-- `nvme_sq_post`
pub sq_post : Sq → Cmd → Sq
sq_post sq sqe = record sq { mem = update sq.mem sq.tail sqe; tail = next_index sq.tail sq.qsize }

-- `__nvme_need_mmio`
pub need_mmio : ℕ → ℕ → ℕ → Bool
need_mmio eventidx val old =
    leb ((val + 2 ^ 16 - eventidx) % 2 ^ 16) ((val + 2 ^ 16 - old) % 2 ^ 16)

-- `nvme_try_dbbuf`: whether it returns -1, so that the register has to be written, and the words.
pub try_dbbuf : ℕ → Option Dbbuf → Bool × Option Dbbuf
unfolding need_mmio
try_dbbuf v none = (true, none)
try_dbbuf v (some d) =
    (need_mmio (d.eventidx % 2 ^ 16) v (d.doorbell % 2 ^ 16), some (record d { doorbell = v }))

-- `nvme_sq_update_tail`
pub sq_update_tail : Sq → Sq
sq_update_tail sq =
    let (mmio, dbbuf) = try_dbbuf sq.tail sq.dbbuf in
    if sq.tail == sq.ptail then sq else record sq {
      dbbuf = dbbuf;
      doorbell = if mmio then sq.tail ∷ sq.doorbell else sq.doorbell;
      ptail = sq.tail;
    }

-- `nvme_sq_exec`
pub sq_exec : Sq → Cmd → Sq
sq_exec sq sqe = sq_update_tail (sq_post sq sqe)

-- `nvme_cq_head`
pub cq_head : Cq → Cqe
cq_head cq = cq.mem cq.head

-- `nvme_cq_update_head`
pub cq_update_head : Cq → Cq
cq_update_head cq =
    let (mmio, dbbuf) = try_dbbuf cq.head cq.dbbuf in
    record cq { dbbuf = dbbuf; doorbell = if mmio then cq.head ∷ cq.doorbell else cq.doorbell }

-- `nvme_cq_get_cqe`
pub cq_get_cqe : Cq → Option Cqe × Cq
unfolding cq_head
cq_get_cqe cq =
    let cqe = cq_head cq in
    let head = (cq.head + 1) % 2 ^ 16 in
    if cqe.sfp % 2 == cq.phase
    then (none, cq)
    else if head == cq.qsize
    then (some cqe, record cq { head = 0; phase = bit_xor cq.phase 1 })
    else (some cqe, record cq { head = head })

-- The queue as it is found at a time.
abbrev pub seen : (ℕ → ℕ → Cqe) → ℕ → Cq → Cq
seen world t cq = record cq { mem = world t }

-- `nvme_cq_spin` from time `t` on: the time at which it ends, on fuel.
pub cq_spin : (ℕ → ℕ → Cqe) → Cq → ℕ → ℕ → Option ℕ
unfolding cq_head
cq_spin world cq zero t = none
cq_spin world cq (suc fuel) t =
    let rest = cq_spin world cq fuel (t + 1) in
    if (cq_head (seen world t cq)).sfp % 2 == cq.phase then rest else some t

-- What a reaping loop leaves: the entries that it copied, the queue and the time.
pub record Reaped : Type 0 where
  pub cqes : List Cqe
  pub cq : Cq
  pub time : ℕ

abbrev pub reaped : List Cqe → Cq → ℕ → Reaped
reaped es cq t = record { cqes = es; cq = cq; time = t }

abbrev pub and_before : Cqe → Option Reaped → Option Reaped
and_before e none = none
and_before e (some r) = some (record r { cqes = e ∷ r.cqes })

-- The `do ... while` loops of queue.c: `more t m` is the condition with `m` entries to come. A poll
-- that finds nothing goes on to the condition, too.
pub reap_while : (ℕ → ℕ → Cqe) → (ℕ → ℕ → Bool) → ℕ → ℕ → Cq → ℕ → Option Reaped
reap_while world more zero t cq n = none
reap_while world more (suc fuel) t cq n =
    let (cqe, cq') = cq_get_cqe (seen world t cq) in
    elim cqe [
      | none ↦ elim (more t n) [
        | true ↦ reap_while world more fuel (t + 1) cq' n
        | false ↦ some (reaped [] cq' (t + 1))
      ]
      | some e ↦ elim (more t (n - 1)) [
        | true ↦ and_before e (reap_while world more fuel (t + 1) cq' (n - 1))
        | false ↦ some (reaped (e ∷ []) cq' (t + 1))
      ]
    ]

-- `nvme_cq_get_cqes`
pub cq_get_cqes : (ℕ → ℕ → Cqe) → ℕ → ℕ → Cq → ℕ → Option Reaped
cq_get_cqes world = reap_while world (λ t m. ltb 0 m)

-- The condition of the loop of `nvme_cq_wait_cqes`, with `m` entries left: `clock` is `get_ticks` at
-- each time.
pub wait_on : (ℕ → ℕ) → ℕ → ℕ → ℕ → Bool
wait_on clock timeout t m = if ltb 0 m then ltb (clock t) timeout else false

-- `nvme_cq_wait_cqes` with a time limit of `usec` microseconds: the entries, and the errno that it
-- sets. `clock` is `get_ticks` at each time, and `freq` is `__vfn_ticks_freq`. The reading of the clock
-- that the limit counts from is made at time `t`, and the loop starts at the next.
pub cq_wait_cqes :
    (ℕ → ℕ → Cqe) → (ℕ → ℕ) → ℕ → Option ℕ → ℕ → ℕ → Cq → ℕ → Option (Reaped × Option Errno)
cq_wait_cqes world clock freq none fuel t cq n = elim (cq_get_cqes world fuel t cq n) [
  | none ↦ none
  | some r ↦ some (r, none)
]
cq_wait_cqes world clock freq (some usec) fuel t cq n =
    let timeout = (clock t + usec * (freq / 1000000)) % u64 in
    elim (reap_while world (wait_on clock timeout) fuel (t + 1) cq n) [
      | none ↦ none
      | some r ↦ some (r, if ltb (length r.cqes) n then some etimedout else none)
    ]
