-- ===== src/Nvme/Ctrl/Ready.antt =====
-- `nvme_wait_rdy` of src/nvme/core.c. Looks at the clock and at CSTS are numbered; `clock` is the time
-- at each, in nanoseconds, and `csts` the register.
use libvfn.Base.{
  ℕ, zero, suc, ◌+◌, ◌*◌, ◌≤◌, ◌<◌, ◌≡◌, ◌≢◌, refl, sym, ap, subst, ◌∙◌, Option, none, some, arith,
  ltb, lt→ltb, le→ltb, ◌==◌, eq→==, ne→==, eq-cases, le-cases, inl, inr, if◌then◌else◌, etimedout,
  Result, ok, err,
}
use libvfn.Nvme.Ctrl.Fields.{cap_to, csts_rdy}

-- The loop, from look `t` on: the outcome and the last look.
pub poll_rdy : (ℕ → ℕ) → (ℕ → ℕ) → ℕ → ℕ → ℕ → ℕ → Option (Result {0} Unit × ℕ)
poll_rdy clock csts deadline rdy zero t = none
poll_rdy clock csts deadline rdy (suc fuel) t =
    let rest = poll_rdy clock csts deadline rdy fuel (t + 1) in
    if ltb deadline (clock t)
    then some (err etimedout, t)
    else if csts_rdy (csts t) == rdy
    then some (ok tt, t)
    else rest

-- The deadline that is set at look `t`: 500 ms for each unit of `CAP_TO`, and one unit more.
abbrev pub deadline_at : (ℕ → ℕ) → ℕ → ℕ → ℕ
deadline_at clock cap t = clock t + 500 * (cap_to cap + 1) * 1000000

-- `nvme_wait_rdy`
pub wait_rdy : (ℕ → ℕ) → (ℕ → ℕ) → ℕ → ℕ → ℕ → ℕ → Option (Result {0} Unit × ℕ)
unfolding poll_rdy
wait_rdy clock csts cap fuel t rdy = poll_rdy clock csts (deadline_at clock cap t) rdy fuel (t + 1)

-- How the looks from `first` on end: with the status that is waited for, seen in time, or with
-- ETIMEDOUT when a look comes after the deadline; no look before the last saw the status.
pub data Outcome (clock csts : ℕ → ℕ) (deadline rdy first last : ℕ) : Result {0} Unit → Type 0 where
  ready :
      clock last ≤ deadline
      → csts_rdy (csts last) ≡ rdy
      → ((j : ℕ) → first ≤ j → j < last → csts_rdy (csts j) ≢ rdy)
      → Outcome clock csts deadline rdy first last (ok tt)
  late :
      deadline < clock last
      → ((j : ℕ) → first ≤ j → j < last → csts_rdy (csts j) ≢ rdy)
      → Outcome clock csts deadline rdy first last (err etimedout)

Outcome-after :
    (clock csts : ℕ → ℕ) (deadline rdy t last : ℕ) (r : Result {0} Unit)
    → csts_rdy (csts t) ≢ rdy
    → Outcome clock csts deadline rdy (t + 1) last r
    → Outcome clock csts deadline rdy t last r
Outcome-after clock csts deadline rdy t last r h (ready c s b) = ready c s (λ j hj hl.
    elim (eq-cases j t) [
      | inl e ↦ λ q. h (ap (λ i. csts_rdy (csts i)) (sym e) ∙ q)
      | inr e ↦ b j (omega arith) hl
    ])
Outcome-after clock csts deadline rdy t last r h (late c b) = late c (λ j hj hl.
    elim (eq-cases j t) [
      | inl e ↦ λ q. h (ap (λ i. csts_rdy (csts i)) (sym e) ∙ q)
      | inr e ↦ b j (omega arith) hl
    ])

add_zero : (t : ℕ) → t + 0 ≡ t
add_zero t = omega arith

add_suc : (t k : ℕ) → t + suc k ≡ t + 1 + k
add_suc t k = omega arith

poll_rdy_lem :
    (clock csts : ℕ → ℕ) (deadline rdy k t : ℕ)
    → deadline < clock (t + k)
    → (r : Result {0} Unit) × (last : ℕ) × (poll_rdy clock csts deadline rdy (suc k) t
        ≡ some (r, last))
      × (last ≤ t + k)
      × Outcome clock csts deadline rdy t last r
unfolding poll_rdy
poll_rdy_lem clock csts deadline rdy zero t h =
    let over : deadline < clock t = subst (λ i. deadline < clock i) (add_zero t) h in
    (
      err etimedout,
      t,
      rw (lt→ltb deadline (clock t) over) refl,
      omega arith,
      late over (λ j hj hl. absurd (omega arith)),
    )
poll_rdy_lem clock csts deadline rdy (suc k) t h = elim (le-cases (clock t) deadline) [
  | inr over ↦ (
    err etimedout,
    t,
    rw (lt→ltb deadline (clock t) over) refl,
    omega arith,
    late over (λ j hj hl. absurd (omega arith)),
  )
  | inl intime ↦ elim (eq-cases (csts_rdy (csts t)) rdy) [
    | inl s ↦ (
      ok tt,
      t,
      rw (le→ltb deadline (clock t) intime, eq→== (csts_rdy (csts t)) rdy s) refl,
      omega arith,
      ready intime s (λ j hj hl. absurd (omega arith)),
    )
    | inr s ↦
        let (r, last, e, hl, o) =
          poll_rdy_lem clock csts deadline rdy k (t + 1)
            (subst (λ i. deadline < clock i) (add_suc t k) h) in
        (
          r,
          last,
          rw (le→ltb deadline (clock t) intime, ne→== (csts_rdy (csts t)) rdy s) e,
          omega arith,
          Outcome-after clock csts deadline rdy t last r s o,
        )
  ]
]

-- `nvme_wait_rdy`, when the clock passes the deadline at the look `k` after the first: it returns by
-- then. It succeeds if it has seen the status at a look in time, and fails with ETIMEDOUT if a look
-- came after the deadline; no look before that saw the status.
pub wait_rdy_lem :
    (clock csts : ℕ → ℕ) (cap rdy k t : ℕ)
    → deadline_at clock cap t < clock (t + 1 + k)
    → (r : Result {0} Unit) × (last : ℕ) × (wait_rdy clock csts cap (suc k) t rdy ≡ some (r, last))
      × (last ≤ t + 1 + k)
      × Outcome clock csts (deadline_at clock cap t) rdy (t + 1) last r
unfolding wait_rdy
wait_rdy_lem clock csts cap rdy k t h =
    poll_rdy_lem clock csts (deadline_at clock cap t) rdy k (t + 1) h
