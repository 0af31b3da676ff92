-- ===== src/Nvme/Ctrl/Admin/Run.antt =====
-- `__admin` of src/nvme/core.c.
use libvfn.Base.{
  ℕ, ◌<◌, ◌≡◌, ◌≢◌, ap, ◌∙◌, none, some, List, ◌∷◌, ◌++◌, All, length, Option, Result,
}
use libvfn.Iommu.Dma.{Backend, Ctx}
use libvfn.Iommu.Dmabuf.{Pages}
use libvfn.Nvme.Cmd.{Cmd, Cqe}
use libvfn.Nvme.Queue.Ring.{Pending}
use libvfn.Nvme.Rq.{rq_exec}
use libvfn.Nvme.Rq.Free.{count, Chain}
use libvfn.Nvme.Sync.{Queues, waits, fatal, returns, Synced, sync}
use libvfn.Nvme.Sync.Spin.{status}
use libvfn.Nvme.Sync.Plain.{sync_plain}
use libvfn.Nvme.Ctrl.Queues.{Controller}
use libvfn.Nvme.Ctrl.Admin.{admin_queues, with_queues, answered, admin}

module _ (backend : Backend) (pages : Pages) (pagesize : ℕ) (world : ℕ → ℕ → Cqe) (clock : ℕ → ℕ)
    (freq fuel rounds t : ℕ) where
  admin-sync :
      (ctrl : Controller backend pages pagesize) (q q' : Queues) (cmd : Cmd) (ctx : Ctx backend)
      (copy : Option Cqe) (ret : Result {0} Unit)
      → admin_queues backend pages pagesize ctrl ≡ q
      → sync backend world clock freq fuel rounds t ctrl.mps ctrl.memory.ctx q cmd none
        ≡ returns (ctx, q', copy, ret)
      → admin backend pages pagesize world clock freq fuel rounds t ctrl cmd
        ≡ returns (with_queues backend pages pagesize ctrl ctx q', ret)
  unfolding admin answered
  admin-sync ctrl q q' cmd ctx copy ret h e =
      let e' =
        ap
          (λ (x : Queues).
            sync backend world clock freq fuel rounds t ctrl.mps ctrl.memory.ctx x cmd none)
          h
        ∙ e in
      ap (answered backend pages pagesize world clock freq fuel rounds ctrl) e'

  -- A command of the library itself, on admin queues that are `q`, with the entry of the command
  -- pending behind those of others only.
  pub admin_lem :
      (ctrl : Controller backend pages pagesize) (q : Queues) (cmd : Cmd) (i : ℕ) (free : List ℕ)
      (others : List Cqe) (e : Cqe) (es : List Cqe)
      → admin_queues backend pages pagesize ctrl ≡ q
      → Chain q.trackers.rqs q.trackers.rq_top (i ∷ free)
      → count i free ≡ 0
      → ((t' : ℕ) → world t' ≡ q.cq.mem)
      → Pending q.cq (others ++ e ∷ es)
      → All (λ (c : Cqe). c.cid ≢ (q.trackers.rqs i).cid) others
      → e.cid ≡ (q.trackers.rqs i).cid
      → 0 < fuel
      → length others < rounds
      → (q' : Queues) × (admin backend pages pagesize world clock freq fuel rounds t ctrl cmd
          ≡ returns (with_queues backend pages pagesize ctrl ctrl.memory.ctx q', status e))
        × (q'.sq ≡ rq_exec q.sq (q.trackers.rqs i) cmd)
        × Pending q'.cq es
        × Chain q'.trackers.rqs q'.trackers.rq_top (i ∷ free)
  admin_lem ctrl q cmd i free others e es h hc hi still v ho he hf hr =
      let (q', s, r, p, c) =
        sync_plain backend world clock freq fuel rounds t ctrl.mps ctrl.memory.ctx q cmd i free
          others e es hc hi still v ho he hf hr in
      (q', admin-sync ctrl q q' cmd ctrl.memory.ctx (some e) (status e) h s, r, p, c)

  answered-returns :
      (ctrl ctrl' : Controller backend pages pagesize) (s : Synced backend) (r : Result {0} Unit)
      → answered backend pages pagesize world clock freq fuel rounds ctrl s ≡ returns (ctrl', r)
      → (ctx : Ctx backend) × (q : Queues) × (with_queues backend pages pagesize ctrl ctx q ≡ ctrl')
  unfolding answered
  answered-returns ctrl ctrl' waits r h = absurd (cc h)
  answered-returns ctrl ctrl' fatal r h = absurd (cc h)
  answered-returns ctrl ctrl' (returns (ctx, q, copy, ret)) r h = (ctx, q, cc h)

  -- A command that returns changes the queues and the context only.
  pub admin-returns :
      (ctrl ctrl' : Controller backend pages pagesize) (cmd : Cmd) (r : Result {0} Unit)
      → admin backend pages pagesize world clock freq fuel rounds t ctrl cmd ≡ returns (ctrl', r)
      → (ctx : Ctx backend) × (q : Queues) × (with_queues backend pages pagesize ctrl ctx q ≡ ctrl')
  unfolding admin
  admin-returns ctrl ctrl' cmd r h =
      answered-returns ctrl ctrl'
        (sync backend world clock freq fuel rounds t ctrl.mps ctrl.memory.ctx
          (admin_queues backend pages pagesize ctrl) cmd none)
        r h
