-- ===== src/Nvme/Rq/Owned.antt =====
-- Which trackers are free and which are held, whatever the clients of include/vfn/nvme/rq.h do.
use libvfn.Base.{
  ℕ, suc, ◌+◌, ◌-◌, ◌%◌, ◌^◌, ◌≤◌, ◌<◌, ◌≡◌, ◌≢◌, refl, sym, ap, subst, ◌∙◌, none, some, List, [],
  ◌∷◌, ◌++◌, arith, ltb, le→ltb, if◌then◌else◌, ebusy, ok, err, eq-cases, inl, inr,
}
use libvfn.Nvme.Cmd.{Cqe}
use libvfn.Nvme.Queue.{Sq}
use libvfn.Nvme.Rq.{Rq, rq_from_cqe, Trackers, init_rqs, rq_release, rq_acquire}
use libvfn.Nvme.Rq.Free.{
  count, Chain, rq_acquire-Chain, rq_release-Chain, countdown, count-countdown, init_rqs-Chain,
}

-- A run of clients from the start: the trackers, and those that the clients hold.
pub data Run (qsize shift vaddr iova : ℕ) : Trackers → List ℕ → Type 0 where
  start : Run qsize shift vaddr iova (init_rqs qsize shift vaddr iova) []
  acquire :
      {t : Trackers} {held : List ℕ} (i : ℕ)
      → Run qsize shift vaddr iova t held
      → (rq_acquire t).1 ≡ ok i
      → Run qsize shift vaddr iova (rq_acquire t).0 (i ∷ held)
  busy :
      {t : Trackers} {held : List ℕ}
      → Run qsize shift vaddr iova t held
      → (rq_acquire t).1 ≡ err ebusy
      → Run qsize shift vaddr iova (rq_acquire t).0 held
  release :
      {t : Trackers} (before : List ℕ) (i : ℕ) (behind : List ℕ)
      → Run qsize shift vaddr iova t (before ++ i ∷ behind)
      → Run qsize shift vaddr iova (rq_release t i) (before ++ behind)

-- Every tracker of the queue is free or held by one client, and there are no others; its command
-- identifier is its place.
pub record Owned (qsize : ℕ) (t : Trackers) (held : List ℕ) : Type 0 where
  pub free : List ℕ
  pub chain : Chain t.rqs t.rq_top free
  pub once : (i : ℕ) → count i held + count i free ≡ (if ltb i (qsize - 1) then 1 else 0)
  pub cids : (i : ℕ) → (t.rqs i).cid ≡ i % 2 ^ 16

pub count-append : (i : ℕ) (xs ys : List ℕ) → count i (xs ++ ys) ≡ count i xs + count i ys
count-append i [] ys = omega arith
count-append i (x ∷ xs) ys = omega (arith, count-append i xs ys)

count_self : (i : ℕ) (l : List ℕ) → count i (i ∷ l) ≡ suc (count i l)
count_self i l = ground arith

ok_inj : {a b : ℕ} → ok a ≡ ok b → a ≡ b
ok_inj e = ground (arith, e)

move :
    (i x : ℕ) (l held : List ℕ) (j : ℕ)
    → x ≡ i
    → count j (i ∷ held) + count j l ≡ count j held + count j (x ∷ l)
move i x l held j e = rw e (omega arith)

acquire-Owned :
    (qsize : ℕ) (t : Trackers) (held l : List ℕ) (i : ℕ)
    → Chain t.rqs t.rq_top l
    → ((j : ℕ) → count j held + count j l ≡ (if ltb j (qsize - 1) then 1 else 0))
    → ((j : ℕ) → (t.rqs j).cid ≡ j % 2 ^ 16)
    → (rq_acquire t).1 ≡ ok i
    → Owned qsize (rq_acquire t).0 (i ∷ held)
acquire-Owned qsize t held [] i c h hc e =
    absurd (ground (arith, sym e ∙ (rq_acquire-Chain t [] c).0))
acquire-Owned qsize t held (x ∷ l) i c h hc e =
    let (r, c', same) = rq_acquire-Chain t (x ∷ l) c in
    let xi : x ≡ i = ok_inj (sym r ∙ e) in
    record {
      free = l;
      chain = subst (λ f. Chain f (rq_acquire t).0.rq_top l) (sym same) c';
      once = λ j. move i x l held j xi ∙ h j;
      cids = λ j. ap (λ (f : ℕ → Rq). (f j).cid) same ∙ hc j;
    }

busy-Owned :
    (qsize : ℕ) (t : Trackers) (held l : List ℕ)
    → Chain t.rqs t.rq_top l
    → ((j : ℕ) → count j held + count j l ≡ (if ltb j (qsize - 1) then 1 else 0))
    → ((j : ℕ) → (t.rqs j).cid ≡ j % 2 ^ 16)
    → (rq_acquire t).1 ≡ err ebusy
    → Owned qsize (rq_acquire t).0 held
busy-Owned qsize t held (x ∷ l) c h hc e =
    absurd (ground (arith, sym e ∙ (rq_acquire-Chain t (x ∷ l) c).0))
busy-Owned qsize t held [] c h hc e =
    let (r, c', same) = rq_acquire-Chain t [] c in
    record {
      free = [];
      chain = c';
      once = h;
      cids = λ j. ap (λ (f : ℕ → Rq). (f j).cid) same ∙ hc j;
    }

free_not_held :
    (qsize : ℕ) (before behind : List ℕ) (i : ℕ) (l : List ℕ)
    → count i (before ++ i ∷ behind) + count i l ≡ (if ltb i (qsize - 1) then 1 else 0)
    → count i l ≡ 0
free_not_held qsize before behind i l h =
    ground (arith, count-append i before (i ∷ behind), count_self i behind)

put_back :
    (before behind l : List ℕ) (i j : ℕ)
    → count j (before ++ behind) + count j (i ∷ l) ≡ count j (before ++ i ∷ behind) + count j l
put_back before behind l i j =
    omega (arith, count-append j before (i ∷ behind), count-append j before behind)

release-Owned :
    (qsize : ℕ) (t : Trackers) (before behind : List ℕ) (i : ℕ)
    → Owned qsize t (before ++ i ∷ behind)
    → Owned qsize (rq_release t i) (before ++ behind)
release-Owned qsize t before behind i o =
    let h : count i o.free ≡ 0 = free_not_held qsize before behind i o.free (o.once i) in
    let (c, v, others) = rq_release-Chain t o.free i o.chain h in
    record {
      free = i ∷ o.free;
      chain = c;
      once = λ j. put_back before behind o.free i j ∙ o.once j;
      cids = λ j. elim (eq-cases j i) [
        | inl e ↦
            ap (λ j. ((rq_release t i).rqs j).cid) e
            ∙ ap (λ (r : Rq). r.cid) v
            ∙ o.cids i
            ∙ ap (λ x. x % 2 ^ 16) (sym e)
        | inr e ↦ ap (λ (r : Rq). r.cid) (others j e) ∙ o.cids j
      ];
    }

start_top :
    (qsize : ℕ)
    → 2 ≤ qsize
    → (if ltb 0 (qsize - 1) then some (qsize - 1 - 1) else none) ≡ some (qsize - 2)
start_top qsize h = ground arith

-- The trackers that `__nvme_configure_sq` sets up are all free.
pub init_rqs-countdown :
    (qsize shift vaddr iova : ℕ)
    → 2 ≤ qsize
    → let t = init_rqs qsize shift vaddr iova in Chain t.rqs t.rq_top (countdown (qsize - 1))
unfolding init_rqs
init_rqs-countdown qsize shift vaddr iova h =
    subst (λ top. Chain (init_rqs qsize shift vaddr iova).rqs top (countdown (qsize - 1)))
      (start_top qsize h) (init_rqs-Chain qsize shift vaddr iova (qsize - 1))

-- Whatever order clients acquire and release the trackers of a queue of at least two entries in,
-- where each client releases only what it holds, each tracker of the queue is at every time either
-- free or held by exactly one client, none but these is, and its command identifier is its place.
pub Run-Owned :
    (qsize shift vaddr iova : ℕ) (t : Trackers) (held : List ℕ)
    → 2 ≤ qsize
    → Run qsize shift vaddr iova t held
    → Owned qsize t held
unfolding init_rqs
Run-Owned qsize shift vaddr iova t held h start = record {
  free = countdown (qsize - 1);
  chain = init_rqs-countdown qsize shift vaddr iova h;
  once = λ i. omega (arith, count-countdown i (qsize - 1));
  cids = λ i. refl;
}
Run-Owned qsize shift vaddr iova t held h (acquire {t = s} {held = l} i run e) =
    let o = Run-Owned qsize shift vaddr iova s l h run in
    acquire-Owned qsize s l o.free i o.chain o.once o.cids e
Run-Owned qsize shift vaddr iova t held h (busy {t = s} run e) =
    let o = Run-Owned qsize shift vaddr iova s held h run in
    busy-Owned qsize s held o.free o.chain o.once o.cids e
Run-Owned qsize shift vaddr iova t held h (release {t = s} before i behind run) =
    release-Owned qsize s before behind i
      (Run-Owned qsize shift vaddr iova s (before ++ i ∷ behind) h run)

held_small :
    (qsize i a b : ℕ) → a ≢ 0 → a + b ≡ (if ltb i (qsize - 1) then 1 else 0) → i < qsize - 1
held_small qsize i a b h e = ground arith

mod_small : (i : ℕ) → i < 2 ^ 16 → i % 2 ^ 16 ≡ i
mod_small i h = omega arith

-- `nvme_rq_from_cqe` finds the tracker that a completion of its command names: any tracker that the
-- client holds, in a queue of up to 65536 entries.
pub rq_from_cqe-cid :
    (qsize : ℕ) (t : Trackers) (held : List ℕ) (sq : Sq) (cqe : Cqe) (i : ℕ)
    → Owned qsize t held
    → sq.qsize ≡ qsize
    → qsize ≤ 2 ^ 16
    → count i held ≢ 0
    → cqe.cid ≡ (t.rqs i).cid
    → rq_from_cqe sq cqe ≡ ok i
unfolding rq_from_cqe
rq_from_cqe-cid qsize t held sq cqe i o hq hs hi hc =
    let small : i < qsize - 1 = held_small qsize i (count i held) (count i o.free) hi (o.once i) in
    let e : cqe.cid ≡ i = hc ∙ o.cids i ∙ mod_small i (omega arith) in
    rw (rq_from_cqe, le→ltb (sq.qsize - 1) cqe.cid (omega arith)) (ap ok e)
