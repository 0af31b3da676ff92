-- ===== src/Nvme/Rq/Free.antt =====
-- The free list of the trackers: a chain through the array, as a stack of their places.
use libvfn.Base.{
  ℕ, zero, suc, ◌+◌, ◌-◌, ◌≡◌, ◌≢◌, refl, sym, subst, Option, none, some, List, [], ◌∷◌, arith,
  update, update_self, update_ne, ltb, ◌==◌, if◌then◌else◌, ebusy, Result, ok, err,
}
use libvfn.Nvme.Rq.{Rq, Trackers, init_rqs, rq_reset, rq_release, rq_acquire}

-- How often a tracker stands in a list.
abbrev pub count : ℕ → List ℕ → ℕ
count i [] = 0
count i (x ∷ xs) = (if x == i then 1 else 0) + count i xs

-- The chain of `rq_next` from `top` on is the list.
abbrev pub Chain : (ℕ → Rq) → Option ℕ → List ℕ → Type 0
Chain rqs top [] = top ≡ none
Chain rqs top (i ∷ l) = (top ≡ some i) × Chain rqs (rqs i).rq_next l

-- The abstract stack.
abbrev pub pop : List ℕ → List ℕ × Result ℕ
pop [] = ([], err ebusy)
pop (i ∷ l) = (l, ok i)

pub Chain-update :
    (rqs : ℕ → Rq) (i : ℕ) (v : Rq) (top : Option ℕ) (l : List ℕ)
    → count i l ≡ 0
    → Chain rqs top l
    → Chain (update rqs i v) top l
Chain-update rqs i v top [] h c = c
Chain-update rqs i v top (x ∷ l) h c =
    let e : update rqs i v x ≡ rqs x = update_ne rqs i x v (ground (arith, h)) in
    (
      c.0,
      subst (λ (r : Rq). Chain (update rqs i v) r.rq_next l) (sym e)
          (Chain-update rqs i v (rqs x).rq_next l (ground (arith, h)) c.1),
    )

-- `nvme_rq_acquire` pops the stack, and reports EBUSY where it is empty; no tracker changes.
pub rq_acquire-Chain :
    (t : Trackers) (l : List ℕ)
    → Chain t.rqs t.rq_top l
    → ((rq_acquire t).1 ≡ (pop l).1)
      × Chain t.rqs (rq_acquire t).0.rq_top (pop l).0
      × ((rq_acquire t).0.rqs ≡ t.rqs)
unfolding rq_acquire
rq_acquire-Chain t [] c = rw c (refl, refl, refl)
rq_acquire-Chain t (i ∷ l) c = rw c.0 (refl, c.1, refl)

pub rq_acquire-top :
    (t : Trackers) (i : ℕ)
    → t.rq_top ≡ some i
    → rq_acquire t ≡ (record t { rq_top = (t.rqs i).rq_next }, ok i)
unfolding rq_acquire
rq_acquire-top t i h = rw h refl

pub rq_acquire-none : (t : Trackers) → t.rq_top ≡ none → rq_acquire t ≡ (t, err ebusy)
unfolding rq_acquire
rq_acquire-none t h = rw h refl

-- `nvme_rq_release` of a tracker that is not free pushes it, and clears its `opaque`; the other
-- trackers do not change, nor its command identifier and page.
pub rq_release-Chain :
    (t : Trackers) (l : List ℕ) (i : ℕ)
    → Chain t.rqs t.rq_top l
    → count i l ≡ 0
    → let t' = rq_release t i in
      Chain t'.rqs t'.rq_top (i ∷ l)
      × (t'.rqs i ≡ record (t.rqs i) { opaque = 0; rq_next = t.rq_top })
      × ((j : ℕ) → j ≢ i → t'.rqs j ≡ t.rqs j)
unfolding rq_release rq_reset
rq_release-Chain t l i c h =
    let v = record (t.rqs i) { opaque = 0; rq_next = t.rq_top } in
    let e = update_self t.rqs i v in
    (
      (
        refl,
        subst (λ (r : Rq). Chain (update t.rqs i v) r.rq_next l) (sym e)
            (Chain-update t.rqs i v t.rq_top l h c),
      ),
      e,
      λ j n. update_ne t.rqs i j v n,
    )

-- The trackers of a queue from the last to the first.
abbrev pub countdown : ℕ → List ℕ
countdown zero = []
countdown (suc n) = n ∷ countdown n

pub count-countdown : (i n : ℕ) → count i (countdown n) ≡ (if ltb i n then 1 else 0)
count-countdown i zero = ground arith
count-countdown i (suc n) = ground (arith, count-countdown i n)

pub init_rqs-Chain :
    (qsize shift vaddr iova n : ℕ)
    → Chain
        (init_rqs qsize shift vaddr iova).rqs
        (if ltb 0 n then some (n - 1) else none)
        (countdown n)
unfolding init_rqs
init_rqs-Chain qsize shift vaddr iova zero = refl
init_rqs-Chain qsize shift vaddr iova (suc n) =
    (ground arith, init_rqs-Chain qsize shift vaddr iova n)
