-- ===== src/Nvme/Queue/Limit.antt =====
-- `nvme_cq_wait_cqes` of src/nvme/queue.c with a time limit.
use libvfn.Base.{
  ℕ, suc, ◌+◌, ◌-◌, ◌*◌, ◌/◌, ◌%◌, ◌≤◌, ◌<◌, ◌≡◌, refl, false, Option, some, none, arith, inl, inr,
  length, lt→ltb, le→ltb, ltb→le, le-cases, Errno, etimedout,
}
use libvfn.Support.Word.{u64}
use libvfn.Nvme.Cmd.{Cqe}
use libvfn.Nvme.Queue.{Cq, Reaped, cq_wait_cqes, wait_on}
use libvfn.Nvme.Queue.Ending.{reap_while-Ended, reap_while-some}

-- What `nvme_cq_wait_cqes` has to show for `n` entries and a time limit, with the errno that it sets:
-- all of them and none, or fewer and ETIMEDOUT, where at the last look at the clock the limit had
-- been reached.
pub data Outcome (clock : ℕ → ℕ) (timeout n : ℕ) (r : Reaped) : Option Errno → Type 0 where
  all : length r.cqes ≡ n → Outcome clock timeout n r none
  fewer :
      length r.cqes < n
      → (last : ℕ) → r.time ≡ last + 1
      → timeout ≤ clock last
      → Outcome clock timeout n r (some etimedout)

wait_on-late :
    (clock : ℕ → ℕ) (timeout t : ℕ)
    → timeout ≤ clock t
    → (m : ℕ) → wait_on clock timeout t m ≡ false
unfolding wait_on
wait_on-late clock timeout t h m = ground (arith, le→ltb (clock t) timeout h)

wait_on-stop :
    (clock : ℕ → ℕ) (timeout t m : ℕ)
    → 0 < m
    → wait_on clock timeout t m ≡ false
    → timeout ≤ clock t
unfolding wait_on
wait_on-stop clock timeout t m h e = ltb→le (clock t) timeout (ground (arith, lt→ltb 0 m h, e))

-- `nvme_cq_wait_cqes` for at least one entry with a time limit, when the clock reaches the limit:
-- it returns. Either it has then reaped as many entries as it was asked for and sets no error, or
-- fewer, with ETIMEDOUT, and at its last look at the clock the limit had been reached.
pub cq_wait_cqes_lem :
    (world : ℕ → ℕ → Cqe) (clock : ℕ → ℕ) (freq usec k t : ℕ) (cq : Cq) (n : ℕ)
    → 0 < n
    → (clock t + usec * (freq / 1000000)) % u64 ≤ clock (t + 1 + k)
    → (r : Reaped) × (e : Option Errno) × (cq_wait_cqes world clock freq (some usec) (suc k) t cq n
        ≡ some (r, e))
      × Outcome clock ((clock t + usec * (freq / 1000000)) % u64) n r e
unfolding cq_wait_cqes wait_on
cq_wait_cqes_lem world clock freq usec k t cq n hn h =
    let timeout = (clock t + usec * (freq / 1000000)) % u64 in
    let (r, w) =
      reap_while-some world (wait_on clock timeout) k (t + 1) cq n
        (wait_on-late clock timeout (t + 1 + k) h) in
    let d =
      reap_while-Ended world (wait_on clock timeout) (suc k) (t + 1) cq n r (λ t'. refl) hn w in
    elim (le-cases n (length r.cqes)) [
      | inl le ↦ (
        r,
        none,
        rw (cq_wait_cqes, w, le→ltb (length r.cqes) n le) refl,
        all (omega (arith, d.bound)),
      )
      | inr lt ↦
          let late = wait_on-stop clock timeout d.last (n - length r.cqes) (omega arith) d.stop in
          (
            r,
            some etimedout,
            rw (cq_wait_cqes, w, lt→ltb (length r.cqes) n lt) refl,
            fewer lt d.last d.last_lem late,
          )
    ]
