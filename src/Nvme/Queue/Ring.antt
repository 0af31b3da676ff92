-- ===== src/Nvme/Queue/Ring.antt =====
-- The completion queue as a queue: the host's head and phase of include/vfn/nvme/queue.h against
-- the entries that the controller has posted and the host has not reaped. The controller follows
-- the NVMe base specification: it writes an entry with the inverse of the phase that the host
-- expects to find stale, in the slot after the last, going round and inverting.
use Prim.Native.Nat.{bit_xor}
use native.Mathlib.Nat.{mod_self, mod-eq_of_lt}
use libvfn.Base.{
  ℕ, zero, suc, ◌+◌, ◌-◌, ◌%◌, ◌^◌, ◌≤◌, ◌<◌, ◌≡◌, ◌≢◌, ◌⊎◌, refl, sym, ap, subst, ◌∙◌, none, some,
  List, [], ◌∷◌, ◌++◌, arith, length, update, update_self, update_ne, inl, inr, eq-cases, ◌==◌,
  ne→==, eq→==, if◌then◌else◌,
}
use libvfn.Nvme.Cmd.{Cqe}
use libvfn.Nvme.Queue.{Cq, cq_get_cqe}
pub mod Post

-- The slot and the stale phase after a slot, in a queue of `q` slots.
abbrev pub next_slot : ℕ → ℕ → ℕ
next_slot q h = if suc h == q then 0 else suc h

abbrev pub next_phase : ℕ → ℕ → ℕ → ℕ
next_phase q h ph = if suc h == q then 1 - ph else ph

-- `k` slots on.
unfoldable pub slot_after : ℕ → ℕ → ℕ → ℕ
slot_after q h zero = h
slot_after q h (suc k) = slot_after q (next_slot q h) k

unfoldable pub phase_after : ℕ → ℕ → ℕ → ℕ → ℕ
phase_after q h ph zero = ph
phase_after q h ph (suc k) = phase_after q (next_slot q h) (next_phase q h ph) k

-- From slot `h` on, where `ph` is the stale phase, the next `k` slots hold the pending entries with
-- the other phase, and then stale ones.
unfoldable pub Holds : ℕ → (ℕ → Cqe) → ℕ → ℕ → List Cqe → ℕ → Type 0
Holds q mem h ph [] zero = Unit
Holds q mem h ph (e ∷ es) zero = ⊥
Holds q mem h ph [] (suc k) =
    ((mem h).sfp % 2 ≡ ph) × Holds q mem (next_slot q h) (next_phase q h ph) [] k
Holds q mem h ph (e ∷ es) (suc k) =
    (mem h ≡ e) × (e.sfp % 2 ≢ ph) × Holds q mem (next_slot q h) (next_phase q h ph) es k

-- A completion queue of `qsize` slots with the given entries pending, oldest first.
pub record Pending (cq : Cq) (es : List Cqe) : Type 0 where
  pub within : cq.head < cq.qsize
  pub small : cq.qsize < 2 ^ 16
  pub bit : cq.phase ≤ 1
  pub holds : Holds cq.qsize cq.mem cq.head cq.phase es cq.qsize

length-le :
    (q : ℕ) (mem : ℕ → Cqe) (h ph k : ℕ) (es : List Cqe) → Holds q mem h ph es k → length es ≤ k
unfolding Holds
length-le q mem h ph k [] v = omega arith
length-le q mem h ph zero (e ∷ es) v = absurd v
length-le q mem h ph (suc k) (e ∷ es) v =
    omega (arith, length-le q mem (next_slot q h) (next_phase q h ph) k es v.2)

-- One more slot at the end, a stale one.
extend :
    (q : ℕ) (mem : ℕ → Cqe) (h ph k : ℕ) (es : List Cqe)
    → Holds q mem h ph es k
    → (mem (slot_after q h k)).sfp % 2 ≡ phase_after q h ph k
    → Holds q mem h ph es (suc k)
unfolding Holds slot_after phase_after
extend q mem h ph zero [] v e = (e, tt)
extend q mem h ph zero (x ∷ es) v e = absurd v
extend q mem h ph (suc k) [] v e =
    (v.0, extend q mem (next_slot q h) (next_phase q h ph) k [] v.1 e)
extend q mem h ph (suc k) (x ∷ es) v e =
    (v.0, v.1, extend q mem (next_slot q h) (next_phase q h ph) k es v.2 e)

-- Where the steps lead: up to the end of the queue, and then from its start with the other phase.
pub slot_after_lem :
    (q h k : ℕ)
    → h < q
    → k ≤ q
    → ((h + k < q) × (slot_after q h k ≡ h + k)) ⊎ ((q ≤ h + k) × (slot_after q h k ≡ h + k - q))
unfolding slot_after
slot_after_lem q h zero hh hk = inl (omega arith, omega arith)
slot_after_lem q h (suc k) hh hk = elim (eq-cases (suc h) q) [
  | inl e ↦
      rw (eq→== (suc h) q e) (ground (arith, slot_after_lem q 0 k (omega arith) (omega arith)))
  | inr ne ↦
      rw (ne→== (suc h) q ne)
        (ground (arith, slot_after_lem q (suc h) k (omega arith) (omega arith)))
]

phase_after_lem :
    (q h ph k : ℕ)
    → h < q
    → k ≤ q
    → ph ≤ 1
    → ((h + k < q) × (phase_after q h ph k ≡ ph)) ⊎ ((q ≤ h + k) × (phase_after q h ph k ≡ 1 - ph))
unfolding phase_after
phase_after_lem q h ph zero hh hk hp = inl (omega arith, refl)
phase_after_lem q h ph (suc k) hh hk hp = elim (eq-cases (suc h) q) [
  | inl e ↦
      rw (eq→== (suc h) q e)
        (ground (arith, phase_after_lem q 0 (1 - ph) k (omega arith) (omega arith) (omega arith)))
  | inr ne ↦
      rw (ne→== (suc h) q ne)
        (ground (arith, phase_after_lem q (suc h) ph k (omega arith) (omega arith) hp))
]

-- A queue of `q` slots: all the steps round it lead back, with the other phase.
round_slot : (q h : ℕ) → h < q → slot_after q (next_slot q h) (q - 1) ≡ h
round_slot q h hh = ground (arith, slot_after_lem q (next_slot q h) (q - 1))

round_phase :
    (q h ph : ℕ)
    → h < q
    → ph ≤ 1
    → phase_after q (next_slot q h) (next_phase q h ph) (q - 1) ≡ 1 - ph
round_phase q h ph hh hp =
    ground (arith, phase_after_lem q (next_slot q h) (next_phase q h ph) (q - 1))

flip : (ph : ℕ) → ph ≤ 1 → bit_xor ph 1 ≡ 1 - ph
flip zero h = refl
flip (suc zero) h = refl
flip (suc (suc n)) h = absurd (omega arith)

-- The slot at the head.
front_empty :
    (q : ℕ) (mem : ℕ → Cqe) (h ph k : ℕ) → 0 < k → Holds q mem h ph [] k → (mem h).sfp % 2 ≡ ph
unfolding Holds
front_empty q mem h ph zero hk v = absurd (omega arith)
front_empty q mem h ph (suc k) hk v = v.0

front_first :
    (q : ℕ) (mem : ℕ → Cqe) (h ph k : ℕ) (e : Cqe) (es : List Cqe)
    → Holds q mem h ph (e ∷ es) k
    → (mem h ≡ e) × (e.sfp % 2 ≢ ph) × Holds q mem (next_slot q h) (next_phase q h ph) es (k - 1)
unfolding Holds
front_first q mem h ph zero e es v = absurd v
front_first q mem h ph (suc k) e es v =
    let p : k ≡ suc k - 1 = omega arith in
    (v.0, v.1, subst (Holds q mem (next_slot q h) (next_phase q h ph) es) p v.2)

-- Once the entry at the head is taken, its slot is the last of the stale ones.
rotate :
    (q : ℕ) (mem : ℕ → Cqe) (h ph : ℕ) (e : Cqe) (es : List Cqe)
    → h < q
    → ph ≤ 1
    → Holds q mem h ph (e ∷ es) q
    → Holds q mem (next_slot q h) (next_phase q h ph) es q
rotate q mem h ph e es hh hp v =
    let (is, other, rest) = front_first q mem h ph q e es v in
    let p : suc (q - 1) ≡ q = omega arith in
    subst (Holds q mem (next_slot q h) (next_phase q h ph) es) p (
      extend q mem (next_slot q h) (next_phase q h ph) (q - 1) es rest (
        ap (λ s. (mem s).sfp % 2) (round_slot q h hh)
        ∙ ap (λ (c : Cqe). c.sfp % 2) is
        ∙ omega (arith, round_phase q h ph hh hp, other)))

taken :
    (cq : Cq)
    → cq.head < cq.qsize
    → cq.qsize < 2 ^ 16
    → cq.phase ≤ 1
    → (cq.mem cq.head).sfp % 2 ≢ cq.phase
    → cq_get_cqe cq ≡ (
      some (cq.mem cq.head),
      record cq { head = next_slot cq.qsize cq.head; phase = next_phase cq.qsize cq.head cq.phase },
    )
unfolding cq_get_cqe
taken cq hh hq hp h =
    rw (ne→== ((cq.mem cq.head).sfp % 2) cq.phase h) (elim (eq-cases (suc cq.head) cq.qsize) [
      | inl e ↦ rw (
        eq→== ((cq.head + 1) % 2 ^ 16) cq.qsize (omega arith),
        eq→== (suc cq.head) cq.qsize e,
        flip cq.phase hp,
      )
      | inr ne ↦
          rw
            (ne→== ((cq.head + 1) % 2 ^ 16) cq.qsize (omega arith), ne→== (suc cq.head) cq.qsize ne)
            (ap (λ t. (some (cq.mem cq.head), record cq { head = t })) (omega arith))
    ])

-- `nvme_cq_get_cqe` is the removal from the front: with nothing pending it returns NULL and changes
-- nothing.
pub cq_get_cqe_empty : (cq : Cq) → Pending cq [] → cq_get_cqe cq ≡ (none, cq)
unfolding cq_get_cqe
cq_get_cqe_empty cq v = rw (
    eq→== ((cq.mem cq.head).sfp % 2) cq.phase
      (front_empty cq.qsize cq.mem cq.head cq.phase cq.qsize (omega (arith, v.within)) v.holds))

-- `nvme_cq_get_cqe` with entries pending returns the oldest, and the others stay pending, in order;
-- it writes no slot and no doorbell.
pub cq_get_cqe_first :
    (cq : Cq) (e : Cqe) (es : List Cqe)
    → Pending cq (e ∷ es)
    → let (r, cq') = cq_get_cqe cq in
      (r ≡ some e) × Pending cq' es × (cq'.mem ≡ cq.mem) × (cq'.doorbell ≡ cq.doorbell)
cq_get_cqe_first cq e es v =
    let (is, other, rest) = front_first cq.qsize cq.mem cq.head cq.phase cq.qsize e es v.holds in
    let odd : (cq.mem cq.head).sfp % 2 ≢ cq.phase =
      λ p. other (sym (ap (λ (c : Cqe). c.sfp % 2) is) ∙ p) in
    rw (taken cq v.within v.small v.bit odd) (
      ap some is,
      record {
        within = ground (arith, v.within);
        small = v.small;
        bit = ground (arith, v.bit);
        holds = rotate cq.qsize cq.mem cq.head cq.phase e es v.within v.bit v.holds;
      },
      refl,
      refl,
    )

next_slot-mod : (q h : ℕ) → h < q → next_slot q h ≡ (h + 1) % q
next_slot-mod q h hh = elim (eq-cases (suc h) q) [
  | inl e ↦ ground (arith, mod_self q, ap (λ t. t % q) e)
  | inr ne ↦ ground (arith, mod-eq_of_lt {n = h + 1} {m = q})
]

-- Where the head is then, and what stays.
pub cq_get_cqe-head :
    (cq : Cq) (e : Cqe) (es : List Cqe)
    → Pending cq (e ∷ es)
    → let (r, cq') = cq_get_cqe cq in (cq'.head ≡ (cq.head + 1) % cq.qsize) × (cq'.dbbuf ≡ cq.dbbuf)
cq_get_cqe-head cq e es v =
    let (is, other, rest) = front_first cq.qsize cq.mem cq.head cq.phase cq.qsize e es v.holds in
    let odd : (cq.mem cq.head).sfp % 2 ≢ cq.phase =
      λ p. other (sym (ap (λ (c : Cqe). c.sfp % 2) is) ∙ p) in
    rw (taken cq v.within v.small v.bit odd) (next_slot-mod cq.qsize cq.head v.within, refl)
