-- ===== src/Nvme/Queue/Ending.antt =====
-- How the loop of src/nvme/queue.c that reaps entries ends, whatever its condition is.
use libvfn.Base.{
  ℕ, zero, suc, ◌+◌, ◌-◌, ◌≤◌, ◌<◌, ◌≡◌, refl, sym, ap, ◌∙◌, Bool, true, false, Option, some, none,
  [], ◌∷◌, arith, inl, inr, length, Bool-cases, Option-cases, le-cases,
}
use libvfn.Nvme.Cmd.{Cqe}
use libvfn.Nvme.Queue.{Cq, Reaped, reaped, and_before, seen, reap_while, cq_get_cqe}

some_inj : {a b : Reaped} → some a ≡ some b → a ≡ b
some_inj {a = a} e = ap (λ (o : Option Reaped). elim o [ some x ↦ x | none ↦ a ]) e

and_before_lem :
    (e : Cqe) (o : Option Reaped) (r : Reaped)
    → and_before e o ≡ some r
    → (r' : Reaped) × ((o ≡ some r')
        × ((length r.cqes ≡ suc (length r'.cqes)) × (r.time ≡ r'.time)))
and_before_lem e none r h = absurd (ground (arith, h))
and_before_lem e (some r') r h = (
  r',
  (
    refl,
    (
      sym (ap (λ (x : Reaped). length x.cqes) (some_inj h)),
      sym (ap (λ (x : Reaped). x.time) (some_inj h)),
    ),
  ),
)

-- The loop has taken at most `n` entries, and has ended at a time at which its condition failed for
-- those that were left.
pub record Ended (more : ℕ → ℕ → Bool) (n : ℕ) (r : Reaped) : Type 0 where
  pub bound : length r.cqes ≤ n
  pub last : ℕ
  pub last_lem : r.time ≡ last + 1
  pub stop : more last (n - length r.cqes) ≡ false

Ended-now :
    (more : ℕ → ℕ → Bool) (n t k : ℕ) (r : Reaped)
    → length r.cqes ≡ k
    → r.time ≡ t + 1
    → k ≤ n
    → more t (n - k) ≡ false
    → Ended more n r
Ended-now more n t k r e h le b = record {
  bound = omega arith;
  last = t;
  last_lem = h;
  stop = ap (λ i. more t (n - i)) e ∙ b;
}

Ended-after :
    (more : ℕ → ℕ → Bool) (n : ℕ) (r r' : Reaped)
    → length r.cqes ≡ suc (length r'.cqes)
    → r.time ≡ r'.time
    → 0 < n
    → Ended more (n - 1) r'
    → Ended more n r
Ended-after more n r r' e h hn d = record {
  bound = omega (arith, d.bound);
  last = d.last;
  last_lem = h ∙ d.last_lem;
  stop = ap (more d.last) (omega (arith, d.bound)) ∙ d.stop;
}

goes_on : (more : ℕ → ℕ → Bool) (t n : ℕ) → more t 0 ≡ false → more t (n - 1) ≡ true → 0 < n - 1
goes_on more t n h b = elim (le-cases (n - 1) 0) [
  | inl le ↦ let z : n - 1 ≡ 0 = omega arith in absurd (ground (arith, sym b ∙ ap (more t) z ∙ h))
  | inr lt ↦ lt
]

zero_off : (n : ℕ) → n - 0 ≡ n
zero_off n = omega arith

zero_on : (n : ℕ) → n + 0 ≡ n
zero_on n = omega arith

-- A loop whose condition fails with no entry to come.
pub reap_while-Ended :
    (world : ℕ → ℕ → Cqe) (more : ℕ → ℕ → Bool) (fuel t : ℕ) (cq : Cq) (n : ℕ) (r : Reaped)
    → ((t' : ℕ) → more t' 0 ≡ false)
    → 0 < n
    → reap_while world more fuel t cq n ≡ some r
    → Ended more n r
unfolding reap_while
reap_while-Ended world more zero t cq n r h hn e = absurd (ground (arith, e))
reap_while-Ended world more (suc fuel) t cq n r h hn e =
    let q = cq_get_cqe (seen world t cq) in
    elim (Option-cases q.0) [
      | inl w ↦ elim (Bool-cases (more t n)) [
        | inl b ↦
            let s : reap_while world more (suc fuel) t cq n
                ≡ reap_while world more fuel (t + 1) q.1 n =
              rw (reap_while, w, b) refl in
            reap_while-Ended world more fuel (t + 1) q.1 n r h hn (sym s ∙ e)
        | inr b ↦
            let s : reap_while world more (suc fuel) t cq n ≡ some (reaped [] q.1 (t + 1)) =
              rw (reap_while, w, b) refl in
            let x = some_inj (sym e ∙ s) in
            Ended-now more n t 0 r (ap (λ (x : Reaped). length x.cqes) x)
              (ap (λ (x : Reaped). x.time) x) (omega arith) (ap (more t) (zero_off n) ∙ b)
      ]
      | inr (c, w) ↦ elim (Bool-cases (more t (n - 1))) [
        | inl b ↦
            let s : reap_while world more (suc fuel) t cq n
                ≡ and_before c (reap_while world more fuel (t + 1) q.1 (n - 1)) =
              rw (reap_while, w, b) refl in
            let (r', (e', (len, time))) =
              and_before_lem c (reap_while world more fuel (t + 1) q.1 (n - 1)) r (sym s ∙ e) in
            Ended-after more n r r' len time hn (
              reap_while-Ended world more fuel (t + 1) q.1 (n - 1) r' h (goes_on more t n (h t) b)
                e')
        | inr b ↦
            let s : reap_while world more (suc fuel) t cq n ≡ some (reaped (c ∷ []) q.1 (t + 1)) =
              rw (reap_while, w, b) refl in
            let x = some_inj (sym e ∙ s) in
            Ended-now more n t 1 r (ap (λ (x : Reaped). length x.cqes) x)
              (ap (λ (x : Reaped). x.time) x) (omega arith) b
      ]
    ]

more_at :
    (more : ℕ → ℕ → Bool) (t k : ℕ)
    → ((m : ℕ) → more (t + suc k) m ≡ false)
    → (m : ℕ) → more (t + 1 + k) m ≡ false
more_at more t k h m = ap (λ i. more i m) (omega arith) ∙ h m

and_before-some :
    (e : Cqe) (o : Option Reaped) (r : Reaped)
    → o ≡ some r
    → (r' : Reaped) × (and_before e o ≡ some r')
and_before-some e none r h = absurd (ground (arith, h))
and_before-some e (some x) r h = (reaped (e ∷ x.cqes) x.cq x.time, refl)

-- One turn of the loop, when those that may follow return.
turn-some :
    (world : ℕ → ℕ → Cqe) (more : ℕ → ℕ → Bool) (k t : ℕ) (cq : Cq) (n : ℕ)
    → ((cq' : Cq) (m : ℕ)
        → more t m ≡ true
        → (r : Reaped) × (reap_while world more k (t + 1) cq' m ≡ some r))
    → (r : Reaped) × (reap_while world more (suc k) t cq n ≡ some r)
unfolding reap_while
turn-some world more k t cq n go =
    let q = cq_get_cqe (seen world t cq) in
    elim (Option-cases q.0) [
      | inl w ↦ elim (Bool-cases (more t n)) [
        | inl b ↦ let (r, e) = go q.1 n b in (r, rw (reap_while, w, b) e)
        | inr b ↦ (reaped [] q.1 (t + 1), rw (reap_while, w, b) refl)
      ]
      | inr (c, w) ↦ elim (Bool-cases (more t (n - 1))) [
        | inl b ↦
            let (r, e) = go q.1 (n - 1) b in
            let (r', e') = and_before-some c (reap_while world more k (t + 1) q.1 (n - 1)) r e in
            (r', rw (reap_while, w, b) e')
        | inr b ↦ (reaped (c ∷ []) q.1 (t + 1), rw (reap_while, w, b) refl)
      ]
    ]

-- The loop returns by the time at which its condition fails whatever is left.
pub reap_while-some :
    (world : ℕ → ℕ → Cqe) (more : ℕ → ℕ → Bool) (k t : ℕ) (cq : Cq) (n : ℕ)
    → ((m : ℕ) → more (t + k) m ≡ false)
    → (r : Reaped) × (reap_while world more (suc k) t cq n ≡ some r)
reap_while-some world more zero t cq n h =
    turn-some world more 0 t cq n
      (λ cq' m b. absurd (ground (arith, sym b ∙ (ap (λ i. more i m) (sym (zero_on t)) ∙ h m))))
reap_while-some world more (suc k) t cq n h =
    turn-some world more (suc k) t cq n
      (λ cq' m b. reap_while-some world more k (t + 1) cq' m (more_at more t k h))
