-- ===== src/Nvme/Rq/Atomic/Steps.antt =====
-- Each access of the lock-free operations keeps the invariant.
use libvfn.Base.{
  ℕ, ◌<◌, ◌≡◌, refl, ap, subst, ◌∙◌, none, some, List, [], ◌∷◌, ◌++◌, arith, inl, inr, update,
  length, length-append, All, Bool-cases,
}
use libvfn.Nvme.Rq.{Rq, rq_reset}
use libvfn.Nvme.Rq.Free.{count, Chain, Chain-update}
use libvfn.Nvme.Rq.Owned.{count-append}
use libvfn.Nvme.Rq.Atomic.{
  same, Acquire, test, acquire_step, Release, release_step, System, acquired, released,
}
use libvfn.Nvme.Rq.Atomic.Invariant.{
  leaving, Fresh, Inv, same→eq, Fresh_test, next-Chain, leaving_split, not_free, All_map,
  Fresh-update, Fresh_push,
}

module _ (qsize : ℕ) (s : System) where
  load_again : Inv qsize s → Inv qsize (record s { acquires = test s.trackers.rq_top ∷ [] })
  load_again v = record {
    free = v.free;
    chain = v.chain;
    once = v.once;
    few = omega arith;
    fresh = (Fresh_test s.trackers s.trackers.rq_top v.free v.chain, tt);
  }

  -- One step of the one call of `nvme_rq_acquire_atomic`.
  pub acquire-Inv :
      (before : List Acquire) (a : Acquire) (behind : List Acquire)
      → s.acquires ≡ before ++ a ∷ behind
      → Inv qsize s
      → Inv qsize (acquired s before behind (acquire_step s.trackers a))
  unfolding acquire_step
  acquire-Inv (x ∷ before) a behind e v =
      absurd (omega (arith, v.few, ap length e, length-append before (a ∷ behind)))
  acquire-Inv [] a (y ∷ behind) e v = absurd (omega (arith, v.few, ap length e))
  acquire-Inv [] Acquire.load [] e v = load_again v
  acquire-Inv [] (test none) [] e v = record {
    free = v.free;
    chain = v.chain;
    once = v.once;
    few = omega arith;
    fresh = tt;
  }
  acquire-Inv [] (test (some i)) [] e v =
      let f = subst (All (Fresh s.trackers v.free)) e v.fresh in
      record {
        free = v.free;
        chain = v.chain;
        once = v.once;
        few = omega arith;
        fresh = ((f.0, refl), tt);
      }
  acquire-Inv [] (Acquire.swap i next) [] e v =
      let f = subst (All (Fresh s.trackers v.free)) e v.fresh in
      elim (Bool-cases (same s.trackers.rq_top (some i))) [
        | inl b ↦
            let c =
              subst (λ o. Chain s.trackers.rqs o v.free) (same→eq s.trackers.rq_top (some i) b)
                v.chain in
            let (l, (c', n)) = next-Chain s.trackers.rqs i v.free next c f.0.1 in
            rw b (record {
              free = l;
              chain = c';
              once = λ j. omega (arith, v.once j, n j);
              few = omega arith;
              fresh = tt;
            })
        | inr b ↦ rw b (load_again v)
      ]

  pub begin_acquire-Inv :
      length s.acquires < 1
      → Inv qsize s
      → Inv qsize (record s { acquires = Acquire.load ∷ s.acquires })
  begin_acquire-Inv h v = record {
    free = v.free;
    chain = v.chain;
    once = v.once;
    few = omega arith;
    fresh = (tt, v.fresh);
  }

  pub begin_release-Inv :
      (before : List ℕ) (i : ℕ) (behind : List ℕ)
      → s.held ≡ before ++ i ∷ behind
      → Inv qsize s
      → Inv qsize (record s { held = before ++ behind; releases = (i, Release.reset) ∷ s.releases })
  begin_release-Inv before i behind e v = record {
    free = v.free;
    chain = v.chain;
    once = λ j. omega (
      arith,
      v.once j,
      ap (count j) e,
      count-append j before (i ∷ behind),
      count-append j before behind,
    );
    few = v.few;
    fresh = v.fresh;
  }

module _ (qsize : ℕ) (s : System) (before : List (ℕ × Release)) (i : ℕ)
    (behind : List (ℕ × Release)) where
  -- A call that writes to the tracker that it releases.
  write-Inv :
      (r r' : Release) (v : Rq)
      → s.releases ≡ before ++ (i, r) ∷ behind
      → Inv qsize s
      → Inv qsize (record s {
        trackers = record s.trackers { rqs = update s.trackers.rqs i v };
        releases = before ++ (i, r') ∷ behind;
      })
  write-Inv r r' v e w =
      let h =
        not_free qsize i (count i s.held) (count i (leaving s.releases)) (count i w.free)
          (count i (leaving (before ++ behind))) (w.once i)
          (ap (λ l. count i (leaving l)) e ∙ leaving_split before i r behind i) in
      record {
        free = w.free;
        chain = Chain-update s.trackers.rqs i v s.trackers.rq_top w.free h w.chain;
        once = λ j. omega (
          arith,
          w.once j,
          ap (λ l. count j (leaving l)) e,
          leaving_split before i r behind j,
          leaving_split before i r' behind j,
        );
        few = w.few;
        fresh =
            All_map (Fresh s.trackers w.free)
              (Fresh (record s.trackers { rqs = update s.trackers.rqs i v }) w.free)
              (Fresh-update s.trackers w.free i v h) s.acquires w.fresh;
      }

  pub release-Inv :
      (r : Release)
      → s.releases ≡ before ++ (i, r) ∷ behind
      → Inv qsize s
      → Inv qsize (released s before i behind (release_step s.trackers i r))
  unfolding release_step
  release-Inv Release.reset e w =
      write-Inv Release.reset Release.load (rq_reset (s.trackers.rqs i)) e w
  release-Inv Release.load e w =
      write-Inv Release.load Release.swap
        (record (s.trackers.rqs i) { rq_next = s.trackers.rq_top }) e w
  release-Inv Release.swap e w =
      elim (Bool-cases (same s.trackers.rq_top (s.trackers.rqs i).rq_next)) [
        | inl b ↦ rw b (record {
          free = i ∷ w.free;
          chain = (
            refl,
            subst (λ o. Chain s.trackers.rqs o w.free)
                (same→eq s.trackers.rq_top (s.trackers.rqs i).rq_next b) w.chain,
          );
          once = λ j. omega (
            arith,
            w.once j,
            ap (λ l. count j (leaving l)) e,
            leaving_split before i Release.swap behind j,
          );
          few = w.few;
          fresh =
              All_map (Fresh s.trackers w.free)
                (Fresh (record s.trackers { rq_top = some i }) (i ∷ w.free))
                (Fresh_push s.trackers w.free i) s.acquires w.fresh;
        })
        | inr b ↦ rw b (
            write-Inv Release.swap Release.swap
              (record (s.trackers.rqs i) { rq_next = s.trackers.rq_top }) e w)
      ]
