-- ===== src/Nvme/Rq/Atomic.antt =====
-- The lock-free `nvme_rq_acquire_atomic` and `nvme_rq_release_atomic` of include/vfn/nvme/rq.h, an
-- access of shared memory at a time, and clients that call them in any interleaving. The accesses
-- are taken in one order that all threads see.
pub mod Invariant
pub mod Steps
pub mod Safety
pub mod Alone
mod Tests
use libvfn.Base.{
  ℕ, ◌<◌, ◌≡◌, Bool, true, false, Option, none, some, List, [], ◌∷◌, ◌++◌, update, ◌==◌,
  if◌then◌else◌, ebusy, Result, ok, err, length,
}
use libvfn.Nvme.Rq.{Rq, Trackers, init_rqs, rq_reset}

-- The comparison of two pointers to trackers.
abbrev pub same : Option ℕ → Option ℕ → Bool
same none none = true
same (some i) (some j) = i == j
same _ _ = false

-- Where a call of `nvme_rq_acquire_atomic` stands: before the load; with the local `rq`, before the
-- test of the loop; with `rq` and the `rq->rq_next` that it has read, before the exchange.
pub data Acquire : Type 0 where
  load : Acquire
  test : Option ℕ → Acquire
  swap : ℕ → Option ℕ → Acquire

pub data Next : Type 0 where
  goes_on : Acquire → Next
  returns : Result ℕ → Next

-- One step of `nvme_rq_acquire_atomic`. An exchange that fails stores what it has found in `rq`.
pub acquire_step : Trackers → Acquire → Trackers × Next
acquire_step t load = (t, goes_on (test t.rq_top))
acquire_step t (test none) = (t, returns (err ebusy))
acquire_step t (test (some i)) = (t, goes_on (swap i (t.rqs i).rq_next))
acquire_step t (swap i next) =
    if same t.rq_top (some i)
    then (record t { rq_top = next }, returns (ok i))
    else (t, goes_on (test t.rq_top))

-- Where a call of `nvme_rq_release_atomic` stands.
pub data Release : Type 0 where
  reset load swap : Release

abbrev pub set_next : Trackers → ℕ → Option ℕ → Trackers
set_next t i next = record t { rqs = update t.rqs i (record (t.rqs i) { rq_next = next }) }

-- One step of `nvme_rq_release_atomic`, for the tracker `i`; `none` where it returns. An exchange
-- that fails stores what it has found in `rq->rq_next`.
pub release_step : Trackers → ℕ → Release → Trackers × Option Release
unfolding rq_reset
release_step t i reset = (record t { rqs = update t.rqs i (rq_reset (t.rqs i)) }, some Release.load)
release_step t i load = (set_next t i t.rq_top, some Release.swap)
release_step t i swap =
    if same t.rq_top (t.rqs i).rq_next
    then (record t { rq_top = some i }, none)
    else (set_next t i t.rq_top, some Release.swap)

-- The trackers of a queue, those that clients hold, and the calls under way.
pub record System : Type 0 where
  pub trackers : Trackers
  pub held : List ℕ
  pub acquires : List Acquire
  pub releases : List (ℕ × Release)

-- The system after a step of one of the calls.
abbrev pub acquired : System → List Acquire → List Acquire → Trackers × Next → System
acquired s before behind (t, goes_on a) = record s { trackers = t; acquires = before ++ a ∷ behind }
acquired s before behind (t, returns (ok i)) = record s {
  trackers = t;
  acquires = before ++ behind;
  held = i ∷ s.held;
}
acquired s before behind (t, returns (err e)) = record s {
  trackers = t;
  acquires = before ++ behind;
}

abbrev pub released :
    System → List (ℕ × Release) → ℕ → List (ℕ × Release) → Trackers × Option Release → System
released s before i behind (t, some r) = record s {
  trackers = t;
  releases = before ++ (i, r) ∷ behind;
}
released s before i behind (t, none) = record s { trackers = t; releases = before ++ behind }

-- A step of the clients, of which `limit` at most are in `nvme_rq_acquire_atomic` at a time. A client
-- releases only what it holds.
pub data Step (limit : ℕ) (s : System) : System → Type 0 where
  begin_acquire :
      length s.acquires < limit → Step limit s (record s { acquires = Acquire.load ∷ s.acquires })
  acquire :
      (before : List Acquire) (a : Acquire) (behind : List Acquire)
      → s.acquires ≡ before ++ a ∷ behind
      → Step limit s (acquired s before behind (acquire_step s.trackers a))
  begin_release :
      (before : List ℕ) (i : ℕ) (behind : List ℕ)
      → s.held ≡ before ++ i ∷ behind
      → Step limit s
          (record s { held = before ++ behind; releases = (i, Release.reset) ∷ s.releases })
  release :
      (before : List (ℕ × Release)) (i : ℕ) (r : Release) (behind : List (ℕ × Release))
      → s.releases ≡ before ++ (i, r) ∷ behind
      → Step limit s (released s before i behind (release_step s.trackers i r))

abbrev pub initial : ℕ → ℕ → ℕ → ℕ → System
initial qsize shift vaddr iova = record {
  trackers = init_rqs qsize shift vaddr iova;
  held = [];
  acquires = [];
  releases = [];
}

pub data Reach (limit : ℕ) (s : System) : System → Type 0 where
  here : Reach limit s s
  later : {t u : System} → Reach limit s t → Step limit t u → Reach limit s u
