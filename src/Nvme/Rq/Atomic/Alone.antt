-- ===== src/Nvme/Rq/Atomic/Alone.antt =====
-- A call of `nvme_rq_acquire_atomic` or `nvme_rq_release_atomic` while the other threads pause.
use libvfn.Base.{
  ℕ, zero, suc, ◌≡◌, refl, ap, ◌∙◌, true, false, Option, none, some, ==_refl, update, Result, ok,
  Bool-cases, inl, inr, update_self, arith,
}
use mathlib.Core.Path.{fun_ext}
use libvfn.Nvme.Rq.{Rq, Trackers, rq_acquire, rq_release, rq_reset}
use libvfn.Nvme.Rq.Atomic.{
  same, Acquire, test, Next, goes_on, returns, acquire_step, Release, release_step,
}

-- The steps of a call, as many as there is fuel for.
abbrev go_on :
    (Trackers → Acquire → Option (Trackers × Result ℕ))
    → Trackers × Next
    → Option (Trackers × Result ℕ)
go_on run (t, goes_on a) = run t a
go_on run (t, returns r) = some (t, r)

pub acquire_run : ℕ → Trackers → Acquire → Option (Trackers × Result ℕ)
acquire_run zero t a = none
acquire_run (suc n) t a = go_on (acquire_run n) (acquire_step t a)

abbrev go_on_release :
    (Trackers → Release → Option Trackers) → Trackers × Option Release → Option Trackers
go_on_release run (t, some r) = run t r
go_on_release run (t, none) = some t

pub release_run : ℕ → Trackers → ℕ → Release → Option Trackers
release_run zero t i r = none
release_run (suc n) t i r = go_on_release (λ t' r'. release_run n t' i r') (release_step t i r)

-- The exchange, where it succeeds and where it does not.
swap_succeeds :
    (t : Trackers) (i : ℕ) (next : Option ℕ)
    → same t.rq_top (some i) ≡ true
    → acquire_step t (Acquire.swap i next) ≡ (record t { rq_top = next }, returns (ok i))
unfolding acquire_step
swap_succeeds t i next b = rw b refl

swap_fails :
    (t : Trackers) (i : ℕ) (next : Option ℕ)
    → same t.rq_top (some i) ≡ false
    → acquire_step t (Acquire.swap i next) ≡ (t, goes_on (test t.rq_top))
unfolding acquire_step
swap_fails t i next b = rw b refl

same_refl : (o : Option ℕ) → same o o ≡ true
same_refl none = refl
same_refl (some i) = ==_refl i

acquire_alone_at :
    (rqs : ℕ → Rq) (top : Option ℕ)
    → let t : Trackers = record { rqs = rqs; rq_top = top } in
      acquire_run 3 t Acquire.load ≡ some (rq_acquire t)
unfolding acquire_run acquire_step rq_acquire
acquire_alone_at rqs none = refl
acquire_alone_at rqs (some i) =
    ap (go_on (acquire_run 0))
      (swap_succeeds (record { rqs = rqs; rq_top = some i }) i (rqs i).rq_next (==_refl i))

-- Alone, a call of `nvme_rq_acquire_atomic` does what `nvme_rq_acquire` does.
pub acquire_alone : (t : Trackers) → acquire_run 3 t Acquire.load ≡ some (rq_acquire t)
acquire_alone t = acquire_alone_at t.rqs t.rq_top

update-update : (f : ℕ → Rq) (i : ℕ) (v w : Rq) → update (update f i v) i w ≡ update f i w
update-update f i v w = fun_ext λ j. ground arith

-- The trackers before the exchange of `nvme_rq_release_atomic`.
before_swap : Trackers → ℕ → Trackers
unfolding release_step
before_swap t i = (release_step (release_step t i Release.reset).0 i Release.load).0

before_swap-rqs : (t : Trackers) (i : ℕ) → (before_swap t i).rqs ≡ (rq_release t i).rqs
unfolding before_swap release_step rq_release rq_reset
before_swap-rqs t i =
    let r0 : Rq = record (t.rqs i) { opaque = 0 } in
    let e = update_self t.rqs i r0 in
    ap (λ (r : Rq). update (update t.rqs i r0) i (record r { rq_next = t.rq_top })) e
    ∙ update-update t.rqs i r0 (record r0 { rq_next = t.rq_top })

before_swap-next : (t : Trackers) (i : ℕ) → ((before_swap t i).rqs i).rq_next ≡ t.rq_top
unfolding before_swap release_step rq_reset
before_swap-next t i =
    ap (λ (r : Rq). r.rq_next)
      (update_self (release_step t i Release.reset).0.rqs i
        (record ((release_step t i Release.reset).0.rqs i) { rq_next = t.rq_top }))

push_succeeds :
    (t : Trackers) (i : ℕ)
    → same t.rq_top (t.rqs i).rq_next ≡ true
    → release_step t i Release.swap ≡ (record t { rq_top = some i }, none)
unfolding release_step
push_succeeds t i b = rw b refl

-- Alone, a call of `nvme_rq_release_atomic` does what `nvme_rq_release` does.
pub release_alone : (t : Trackers) (i : ℕ) → release_run 3 t i Release.reset ≡ some (rq_release t i)
unfolding release_run release_step rq_release before_swap
release_alone t i =
    ap (go_on_release (λ t' r. release_run 0 t' i r)) (
      push_succeeds (before_swap t i) i
        (ap (same t.rq_top) (before_swap-next t i) ∙ same_refl t.rq_top))
    ∙ ap (λ (f : ℕ → Rq). some (record { rqs = f; rq_top = some i })) (before_swap-rqs t i)

abbrev pub Returns : ℕ → Trackers → Acquire → Type 0
Returns n t a = (p : Trackers × Result ℕ) × (acquire_run n t a ≡ some p)

-- A call that has just loaded the top.
loaded-Returns :
    (n : ℕ) (rqs : ℕ → Rq) (top : Option ℕ)
    → Returns (suc (suc n)) (record { rqs = rqs; rq_top = top }) (test top)
unfolding acquire_run acquire_step
loaded-Returns n rqs none = (_, refl)
loaded-Returns n rqs (some i) =
    let t : Trackers = record { rqs = rqs; rq_top = some i } in
    (
      (record t { rq_top = (rqs i).rq_next }, ok i),
      ap (go_on (acquire_run n)) (swap_succeeds t i (rqs i).rq_next (==_refl i)),
    )

swap-Returns :
    (n : ℕ) (t : Trackers) (i : ℕ) (next : Option ℕ)
    → Returns (suc (suc (suc n))) t (Acquire.swap i next)
unfolding acquire_run
swap-Returns n t i next = elim (Bool-cases (same t.rq_top (some i))) [
  | inl b ↦ (
    (record t { rq_top = next }, ok i),
    ap (go_on (acquire_run (suc (suc n)))) (swap_succeeds t i next b),
  )
  | inr b ↦
      let (p, e) = loaded-Returns n t.rqs t.rq_top in
      (p, ap (go_on (acquire_run (suc (suc n)))) (swap_fails t i next b) ∙ e)
]

-- From whatever point, and with whatever trackers, a call of `nvme_rq_acquire_atomic` that goes on
-- while the other threads pause returns within five of its steps.
pub acquire-Returns : (t : Trackers) (a : Acquire) → Returns 5 t a
unfolding acquire_run acquire_step
acquire-Returns t Acquire.load = loaded-Returns 2 t.rqs t.rq_top
acquire-Returns t (test none) = (_, refl)
acquire-Returns t (test (some i)) = swap-Returns 1 t i (t.rqs i).rq_next
acquire-Returns t (Acquire.swap i next) = swap-Returns 2 t i next
