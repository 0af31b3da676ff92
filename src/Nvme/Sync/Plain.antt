-- ===== src/Nvme/Sync/Plain.antt =====
-- `nvme_sync` without a buffer, as the commands that create and delete queues use it.
use libvfn.Base.{ℕ, ◌<◌, ◌≡◌, ◌≢◌, refl, ap, ◌∙◌, none, some, List, ◌∷◌, ◌++◌, All, length}
use libvfn.Iommu.Dma.{Backend, Ctx}
use libvfn.Nvme.Cmd.{Cmd, Cqe}
use libvfn.Nvme.Queue.Ring.{Pending}
use libvfn.Nvme.Rq.{Trackers, rq_release, rq_exec}
use libvfn.Nvme.Rq.Free.{count, Chain, rq_acquire-top, rq_release-Chain}
use libvfn.Nvme.Sync.{Queues, returns, finish_sync, acquire_none, sync}
use libvfn.Nvme.Sync.Spin.{status, sync_spin_lem}
use libvfn.Nvme.Sync.Laws.{exec_sync_lem}

module _ (backend : Backend) (world : ℕ → ℕ → Cqe) (clock : ℕ → ℕ) (freq fuel rounds t : ℕ) where
  -- `nvme_sync` without a buffer, with a tracker free and the entry of its command pending behind
  -- those of other commands only: it runs the command, takes the entries up to its own, returns that
  -- with the outcome, and frees the tracker. The context does not change.
  pub sync_plain :
      (mps : ℕ) (ctx : Ctx backend) (q : Queues) (cmd : Cmd) (i : ℕ) (free : List ℕ)
      (others : List Cqe) (e : Cqe) (es : List Cqe)
      → Chain q.trackers.rqs q.trackers.rq_top (i ∷ free)
      → count i free ≡ 0
      → ((t' : ℕ) → world t' ≡ q.cq.mem)
      → Pending q.cq (others ++ e ∷ es)
      → All (λ (c : Cqe). c.cid ≢ (q.trackers.rqs i).cid) others
      → e.cid ≡ (q.trackers.rqs i).cid
      → 0 < fuel
      → length others < rounds
      → (q' : Queues) × (sync backend world clock freq fuel rounds t mps ctx q cmd none
          ≡ returns (ctx, q', some e, status e))
        × (q'.sq ≡ rq_exec q.sq (q.trackers.rqs i) cmd)
        × Pending q'.cq es
        × Chain q'.trackers.rqs q'.trackers.rq_top (i ∷ free)
  unfolding sync acquire_none finish_sync
  sync_plain mps ctx q cmd i free others e es hc hi still v ho he hf hr =
      let (cq', spun, p) =
        sync_spin_lem world clock freq fuel rounds t (q.trackers.rqs i).cid q.cq others e es still v
          ho he hf hr in
      let t' : Trackers = record q.trackers { rq_top = (q.trackers.rqs i).rq_next } in
      let q1 : Queues = record q { trackers = t' } in
      let (c', _, _) = rq_release-Chain t' free i hc.1 hi in
      (
        record q1 {
          sq = rq_exec q.sq (q.trackers.rqs i) cmd;
          cq = cq';
          trackers = rq_release t' i;
        },
        ap (acquire_none backend world clock freq fuel rounds t ctx q cmd)
              (rq_acquire-top q.trackers i hc.0)
            ∙ exec_sync_lem backend world clock freq fuel rounds t ctx q1 i cmd none cq' (some e)
                (status e) spun,
        refl,
        p,
        c',
      )
