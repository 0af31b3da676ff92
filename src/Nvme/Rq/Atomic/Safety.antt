-- ===== src/Nvme/Rq/Atomic/Safety.antt =====
-- With one client at a time in `nvme_rq_acquire_atomic`, and any number that release, no tracker is
-- lost or held twice.
use libvfn.Base.{ℕ, ◌-◌, ◌≤◌, arith}
use libvfn.Nvme.Rq.{init_rqs}
use libvfn.Nvme.Rq.Free.{countdown, count-countdown}
use libvfn.Nvme.Rq.Owned.{init_rqs-countdown}
use libvfn.Nvme.Rq.Atomic.{
  System, Step, begin_acquire, acquire, begin_release, release, initial, Reach, here, later,
}
use libvfn.Nvme.Rq.Atomic.Invariant.{Apart, Inv}
use libvfn.Nvme.Rq.Atomic.Steps.{acquire-Inv, begin_acquire-Inv, begin_release-Inv, release-Inv}

Step-Inv : (qsize : ℕ) (s u : System) → Step 1 s u → Inv qsize s → Inv qsize u
Step-Inv qsize s u (begin_acquire h) v = begin_acquire-Inv qsize s h v
Step-Inv qsize s u (acquire before a behind e) v = acquire-Inv qsize s before a behind e v
Step-Inv qsize s u (begin_release before i behind e) v =
    begin_release-Inv qsize s before i behind e v
Step-Inv qsize s u (release before i r behind e) v = release-Inv qsize s before i behind r e v

initial-Inv : (qsize shift vaddr iova : ℕ) → 2 ≤ qsize → Inv qsize (initial qsize shift vaddr iova)
unfolding init_rqs
initial-Inv qsize shift vaddr iova h = record {
  free = countdown (qsize - 1);
  chain = init_rqs-countdown qsize shift vaddr iova h;
  once = λ i. omega (arith, count-countdown i (qsize - 1));
  few = omega arith;
  fresh = tt;
}

Reach-Inv :
    (qsize shift vaddr iova : ℕ) (s : System)
    → 2 ≤ qsize
    → Reach 1 (initial qsize shift vaddr iova) s
    → Inv qsize s
Reach-Inv qsize shift vaddr iova s h here = initial-Inv qsize shift vaddr iova h
Reach-Inv qsize shift vaddr iova s h (later {t = t} r st) =
    Step-Inv qsize t s st (Reach-Inv qsize shift vaddr iova t h r)

-- Whatever the order in which the shared accesses of clients come, where at most one client is in
-- `nvme_rq_acquire_atomic` at a time and any number are in `nvme_rq_release_atomic`, and each
-- releases only what it holds: in a queue of at least two entries every tracker is at every time
-- either free, or held by one client, or about to be released by one call, and no others are.
pub Reach-Apart :
    (qsize shift vaddr iova : ℕ) (s : System)
    → 2 ≤ qsize
    → Reach 1 (initial qsize shift vaddr iova) s
    → Apart qsize s
Reach-Apart qsize shift vaddr iova s h r =
    let v = Reach-Inv qsize shift vaddr iova s h r in
    record { free = v.free; chain = v.chain; once = v.once }
