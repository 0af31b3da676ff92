-- ===== src/Nvme/Queue/Doorbell.antt =====
-- Doorbell updates of include/vfn/nvme/queue.h.
use native.Mathlib.Nat.{mod-lt, mod_self, mod-eq_of_lt}
use libvfn.Base.{
  ℕ, ◌+◌, ◌-◌, ◌%◌, ◌^◌, ◌≤◌, ◌<◌, ◌≡◌, ◌≢◌, ◌↔◌, ◌⊎◌, refl, true, false, none, some, ◌∷◌, arith,
  update_self, update_ne, Bool-cases, Option-cases, ap, inl, inr, eq-cases, ne→==, ==→eq, ◌==◌, sym,
  ◌∙◌, if◌then◌else◌,
}
use libvfn.Nvme.Cmd.{Cmd}
use libvfn.Nvme.Queue.{
  Sq, Cq, Dbbuf, need_mmio, try_dbbuf, sq_post, sq_update_tail, sq_exec, next_index, cq_update_head,
}

-- With 16-bit values, `__nvme_need_mmio` holds exactly if the event index is one of the values that
-- the doorbell passes on its way from the old value up to the new one, both included.
pub need_mmio_iff :
    (eventidx val old : ℕ)
    → eventidx < 2 ^ 16
    → val < 2 ^ 16
    → old < 2 ^ 16
    → (need_mmio eventidx val old ≡ true)
      ↔ ((j : ℕ) × (j ≤ (val + 2 ^ 16 - old) % 2 ^ 16) × (eventidx ≡ (old + j) % 2 ^ 16))
unfolding need_mmio
need_mmio_iff eventidx val old he hv ho = (
  λ h. ((eventidx + 2 ^ 16 - old) % 2 ^ 16, ground arith, ground arith),
  λ (j, hj, e). ground arith,
)

sq_update_tail_moved :
    (sq : Sq)
    → sq.tail ≢ sq.ptail
    → sq_update_tail sq ≡ (
        let (mmio, dbbuf) = try_dbbuf sq.tail sq.dbbuf in
        record sq {
          dbbuf = dbbuf;
          doorbell = if mmio then sq.tail ∷ sq.doorbell else sq.doorbell;
          ptail = sq.tail;
        })
unfolding sq_update_tail
sq_update_tail_moved sq h = rw (ne→== sq.tail sq.ptail h)

-- The values from `old` up to `val`, going round at 2 ^ 16, reach the event index.
abbrev pub Passes : Dbbuf → ℕ → Type 0
Passes d val =
    (j : ℕ) × (j ≤ (val + 2 ^ 16 - d.doorbell % 2 ^ 16) % 2 ^ 16)
    × (d.eventidx % 2 ^ 16 ≡ (d.doorbell % 2 ^ 16 + j) % 2 ^ 16)

skipped :
    (d : Dbbuf) (val : ℕ)
    → val < 2 ^ 16
    → need_mmio (d.eventidx % 2 ^ 16) val (d.doorbell % 2 ^ 16) ≡ false
    → ¬ Passes d val
skipped d val h e p =
    let hit =
      (need_mmio_iff (d.eventidx % 2 ^ 16) val (d.doorbell % 2 ^ 16) (omega arith) h
          (omega arith)).1
        p in
    cc

-- A tail that has moved is told to the controller: it is written to the doorbell register, unless
-- there is a shadow doorbell that it is written to instead and the values passed since the last
-- update do not reach the controller's event index. The queue's slots and tail stay as they are,
-- and the tail counts as told.
pub sq_update_tail_told :
    (sq : Sq)
    → sq.tail < 2 ^ 16
    → sq.tail ≢ sq.ptail
    → let sq' = sq_update_tail sq in
      (sq'.ptail ≡ sq.tail)
      × (sq'.tail ≡ sq.tail)
      × (sq'.mem ≡ sq.mem)
      × ((sq'.doorbell ≡ sq.tail ∷ sq.doorbell)
          ⊎ ((d : Dbbuf) × (sq.dbbuf ≡ some d)
              × (sq'.dbbuf ≡ some (record d { doorbell = sq.tail }))
              × (sq'.doorbell ≡ sq.doorbell)
              × (¬ Passes d sq.tail)))
unfolding try_dbbuf
sq_update_tail_told sq small moved = elim (Option-cases sq.dbbuf) [
  | inl e ↦ rw (sq_update_tail_moved sq moved, e) (refl, refl, refl, inl refl)
  | inr (d, e) ↦ elim (Bool-cases (need_mmio (d.eventidx % 2 ^ 16) sq.tail (d.doorbell % 2 ^ 16))) [
    | inl hit ↦ rw (sq_update_tail_moved sq moved, e, hit) (refl, refl, refl, inl refl)
    | inr miss ↦
        rw (sq_update_tail_moved sq moved, e, miss)
          (refl, refl, refl, inr (d, refl, refl, refl, skipped d sq.tail small miss))
  ]
]

-- What the controller learns of the head that a completion queue has afterwards: it is written to the
-- doorbell register, or, where there is a shadow doorbell, to that, and to the register too unless the
-- values passed since the last update do not reach the controller's event index.
abbrev pub Told : Cq → Cq → Type 0
Told cq cq' =
    ((cq.dbbuf ≡ none) × (cq'.doorbell ≡ cq'.head ∷ cq.doorbell))
    ⊎ ((d : Dbbuf) × (cq.dbbuf ≡ some d)
        × (cq'.dbbuf ≡ some (record d { doorbell = cq'.head }))
        × ((cq'.doorbell ≡ cq'.head ∷ cq.doorbell)
            ⊎ ((cq'.doorbell ≡ cq.doorbell) × (¬ Passes d cq'.head))))

pub cq_update_head-Told : (cq : Cq) → cq.head < 2 ^ 16 → Told cq (cq_update_head cq)
unfolding cq_update_head try_dbbuf
cq_update_head-Told cq small = elim (Option-cases cq.dbbuf) [
  | inl e ↦ rw e (inl (refl, refl))
  | inr (d, e) ↦ elim (Bool-cases (need_mmio (d.eventidx % 2 ^ 16) cq.head (d.doorbell % 2 ^ 16))) [
    | inl hit ↦ rw (e, hit) (inr (d, refl, refl, inl refl))
    | inr miss ↦ rw (e, miss) (inr (d, refl, refl, inr (refl, skipped d cq.head small miss)))
  ]
]

-- From a queue with the same doorbells.
pub Told-from :
    (cq cq' cq'' : Cq)
    → cq'.dbbuf ≡ cq.dbbuf
    → cq'.doorbell ≡ cq.doorbell
    → Told cq' cq''
    → Told cq cq''
Told-from cq cq' cq'' b d (inl (e, w)) = inl (sym b ∙ e, w ∙ ap (λ l. cq''.head ∷ l) d)
Told-from cq cq' cq'' b d (inr (x, e, s, inl w)) =
    inr (x, sym b ∙ e, s, inl (w ∙ ap (λ l. cq''.head ∷ l) d))
Told-from cq cq' cq'' b d (inr (x, e, s, inr (w, miss))) = inr (x, sym b ∙ e, s, inr (w ∙ d, miss))

pub next_index-mod : (i q : ℕ) → i < q → q ≤ 2 ^ 16 → next_index i q ≡ (i + 1) % q
next_index-mod i q h hq = elim (eq-cases (i + 1) q) [
  | inl e ↦ ground (arith, mod_self q, ap (λ t. t % q) e)
  | inr ne ↦ ground (arith, mod-eq_of_lt {n = i + 1} {m = q})
]

sq_update_tail_keeps :
    (sq : Sq)
    → let sq' = sq_update_tail sq in
      (sq'.mem ≡ sq.mem) × (sq'.tail ≡ sq.tail) × (sq'.ptail ≡ sq.tail) × (sq'.qsize ≡ sq.qsize)
unfolding sq_update_tail
sq_update_tail_keeps sq = elim (Bool-cases (sq.tail == sq.ptail)) [
  | inl same ↦ rw same (refl, refl, sym (==→eq sq.tail sq.ptail same), refl)
  | inr moved ↦ rw moved (refl, refl, refl, refl)
]

-- A submission queue that is in order: its tail is one of its slots, a 16-bit index.
pub record IsValid (sq : Sq) : Type 0 where
  pub within : sq.tail < sq.qsize
  pub small : sq.qsize ≤ 2 ^ 16
  pub told : sq.ptail < sq.qsize

-- Submitting a command puts it into the slot at the tail, changes no other slot, steps the tail
-- round the queue, and leaves the queue in order and its tail told.
pub sq_exec_lem :
    (sq : Sq) (sqe : Cmd)
    → IsValid sq
    → let sq' = sq_exec sq sqe in
      (sq'.mem sq.tail ≡ sqe)
      × ((j : ℕ) → j ≢ sq.tail → sq'.mem j ≡ sq.mem j)
      × (sq'.tail ≡ (sq.tail + 1) % sq.qsize)
      × (sq'.ptail ≡ sq'.tail)
      × IsValid sq'
unfolding sq_exec sq_post
sq_exec_lem sq sqe v =
    let posted = sq_post sq sqe in
    let (mem, tail, ptail, qsize) = sq_update_tail_keeps posted in
    let step = next_index-mod sq.tail sq.qsize v.within v.small in
    let inside = mod-lt (sq.tail + 1) {m = sq.qsize} (omega (arith, v.within)) in
    (
      ap (λ f. f sq.tail) mem ∙ update_self sq.mem sq.tail sqe,
      λ j h. ap (λ f. f j) mem ∙ update_ne sq.mem sq.tail j sqe h,
      tail ∙ step,
      ptail ∙ sym tail,
      record {
        within = omega (arith, tail, step, inside, qsize);
        small = omega (arith, qsize, v.small);
        told = omega (arith, ptail, step, inside, qsize);
      },
    )
