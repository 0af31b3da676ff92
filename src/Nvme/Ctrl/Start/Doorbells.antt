-- ===== src/Nvme/Ctrl/Start/Doorbells.antt =====
-- `nvme_init_dbconfig` of src/nvme/core.c with NVME_QUIRK_BROKEN_DBBUF, and the discarding of the admin queue after that.
use libvfn.Base.{
  ℕ, ◌≡◌, ◌≢◌, sym, ap, ◌∙◌, true, none, update, update_self, update_ne, eq-cases, inl, inr, ok,
}
use libvfn.Iommu.Dma.{Backend}
use libvfn.Iommu.Dmabuf.{Pages, Dmabuf, Memory, get_dmabuf}
use libvfn.Nvme.Cmd.{Cqe}
use libvfn.Nvme.Queue.{Cq}
use libvfn.Nvme.Sync.{returns}
use libvfn.Nvme.Ctrl.Queues.{CompletionQueue, Controller, discard_cq}
use libvfn.Nvme.Ctrl.Queues.Discard.{discard_cq-null}
use libvfn.Nvme.Ctrl.Admin.{with_queues, admin}
use libvfn.Nvme.Ctrl.Admin.Run.{admin-returns}
use libvfn.Nvme.Ctrl.Start.{
  dbconfig_cmd, point_admin, configured, with_eventidxs, with_doorbells, init_dbconfig,
}

-- A command changes the ring of a completion queue, and not what is settled with it.
settled :
    (cq : ℕ → CompletionQueue) (at qid : ℕ) (x : Cq)
    → let q = update cq at (record (cq at) { queue = x }) qid in
      (q.dbbuf_at ≡ (cq qid).dbbuf_at) × (q.mem ≡ (cq qid).mem)
settled cq at qid x = elim (eq-cases qid at) [
  | inl e ↦
      let s : update cq at (record (cq at) { queue = x }) qid ≡ record (cq at) { queue = x } =
        ap (update cq at (record (cq at) { queue = x })) e
        ∙ update_self cq at (record (cq at) { queue = x }) in
      (
        ap (λ (q : CompletionQueue). q.dbbuf_at)
            (s ∙ ap (λ i. record (cq i) { queue = x }) (sym e)),
        ap (λ (q : CompletionQueue). q.mem) (s ∙ ap (λ i. record (cq i) { queue = x }) (sym e)),
      )
  | inr ne ↦
      let s = update_ne cq at qid (record (cq at) { queue = x }) ne in
      (ap (λ (q : CompletionQueue). q.dbbuf_at) s, ap (λ (q : CompletionQueue). q.mem) s)
]

module _ (backend : Backend) (pages : Pages) (pagesize : ℕ) where
  module _ (world : ℕ → ℕ → Cqe) (clock : ℕ → ℕ) (freq fuel rounds t : ℕ) where
    -- `nvme_init_dbconfig` for a controller with NVME_QUIRK_BROKEN_DBBUF, where both allocations and the
    -- command succeed, and the admin completion queue has memory, but no pointers into doorbell
    -- buffers yet: it succeeds, and `nvme_discard_cq` of the admin queue then ends the program.
    pub init_dbconfig-discard_cq :
        (ctrl ctrl' : Controller backend pages pagesize) (m m' : Memory backend pages pagesize)
        (dbs evs : Dmabuf)
        → (ctrl.cq 0).mem.vaddr ≢ 0
        → (ctrl.cq 0).dbbuf_at ≡ none
        → get_dmabuf backend pages pagesize ctrl.memory ctrl.dbbuf_doorbells pagesize 0
          ≡ (m, dbs, ok tt)
        → dbs.vaddr ≢ 0
        → get_dmabuf backend pages pagesize m ctrl.dbbuf_eventidxs pagesize 0 ≡ (m', evs, ok tt)
        → let ready = record ctrl { memory = m'; dbbuf_doorbells = dbs; dbbuf_eventidxs = evs } in
          admin backend pages pagesize world clock freq fuel rounds t ready
              (dbconfig_cmd backend pages pagesize ready)
            ≡ returns (ctrl', ok tt)
          → (init_dbconfig backend pages pagesize world clock freq fuel rounds t true ctrl
              ≡ returns (ctrl', ok tt))
            × (discard_cq backend pages pagesize ctrl' 0 ≡ none)
    unfolding init_dbconfig with_doorbells with_eventidxs configured point_admin
    init_dbconfig-discard_cq ctrl ctrl' m m' dbs evs used null g there g' a =
        let ctrl1 = record ctrl { memory = m; dbbuf_doorbells = dbs } in
        let ready = record ctrl1 { memory = m'; dbbuf_eventidxs = evs } in
        let (ctx, q, c) =
          admin-returns backend pages pagesize world clock freq fuel rounds t ready ctrl'
            (dbconfig_cmd backend pages pagesize ready) (ok tt) a in
        let (kept, mem) = settled ctrl.cq (ctrl.sq 0).cq 0 q.cq in
        (
          ap (with_doorbells backend pages pagesize world clock freq fuel rounds t true ctrl) g
              ∙ ap (with_eventidxs backend pages pagesize world clock freq fuel rounds t true ctrl1)
                  g'
              ∙ ap (configured backend pages pagesize true) a,
          ap (λ (x : Controller backend pages pagesize). discard_cq backend pages pagesize x 0)
                (sym c)
              ∙ discard_cq-null backend pages pagesize
                  (with_queues backend pages pagesize ready ctx q) 0
                  (λ z. used (sym (ap (λ (b : Dmabuf). b.vaddr) mem) ∙ z)) there (kept ∙ null),
        )
