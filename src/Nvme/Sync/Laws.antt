-- ===== src/Nvme/Sync/Laws.antt =====
-- `nvme_sync` from the buffer to the completion.
use libvfn.Base.{
  ℕ, ◌<◌, ◌≡◌, ◌≢◌, refl, ap, ◌∙◌, true, Option, none, some, List, ◌∷◌, ◌++◌, All, length, update,
  Result, ok, err, ebusy,
}
use libvfn.Iommu.Dma.{Backend, Ctx, translate_vaddr, map_vaddr, unmap_vaddr}
use libvfn.Iommu.Dma.Places.{Disjoint, Unmapped}
use libvfn.Iommu.Dma.Translate.{Mapped, map_vaddr-Mapped, translate_none}
use libvfn.Iommu.Dma.Undo.{map_vaddr-unmap_vaddr}
use libvfn.Nvme.Cmd.{Cmd, Cqe}
use libvfn.Nvme.Prp
use libvfn.Nvme.Queue.{Cq}
use libvfn.Nvme.Queue.Ring.{Pending}
use libvfn.Nvme.Rq.{Trackers, rq_release, rq_exec, rq_map_prp}
use libvfn.Nvme.Rq.Free.{count, Chain, rq_acquire-top, rq_acquire-none, rq_release-Chain}
use libvfn.Nvme.Sync.{
  Queues, returns, sync_spin, map_buffer, finish_sync, exec_sync, map_sync, acquire_some,
  mapped_sync, sync,
}
use libvfn.Nvme.Sync.Spin.{status, sync_spin_lem}

module _ (backend : Backend) where
  finish_unmapped :
      (ctx : Ctx backend) (q : Queues) (i vaddr n : ℕ) (copy : Option Cqe) (ret : Result {0} Unit)
      → (unmap_vaddr backend ctx vaddr).1 ≡ ok n
      → finish_sync backend ctx q i (some vaddr) copy ret
        ≡ returns (
          (unmap_vaddr backend ctx vaddr).0,
          record q { trackers = rq_release q.trackers i },
          copy,
          ret,
        )
  unfolding finish_sync
  finish_unmapped ctx q i vaddr n copy ret h = rw (finish_sync, h) refl

  map_buffer_lem :
      (ctx ctx' : Ctx backend) (vaddr len iova : ℕ)
      → translate_vaddr backend ctx vaddr ≡ none
      → map_vaddr backend ctx vaddr len 0 2 ≡ (ctx', ok iova)
      → map_buffer backend ctx vaddr len ≡ (ctx', true, ok iova)
  unfolding map_buffer
  map_buffer_lem ctx ctx' vaddr len iova h e = rw (map_buffer, h, e) refl

  module _ (world : ℕ → ℕ → Cqe) (clock : ℕ → ℕ) (freq fuel rounds t : ℕ) where
    pub exec_sync_lem :
        (ctx : Ctx backend) (q : Queues) (i : ℕ) (cmd : Cmd) (unmap : Option ℕ) (cq : Cq)
        (copy : Option Cqe) (ret : Result {0} Unit)
        → sync_spin world clock freq fuel rounds t q.cq (q.trackers.rqs i).cid
          ≡ some (cq, copy, ret)
        → exec_sync backend world clock freq fuel rounds t ctx q i cmd unmap
          ≡ finish_sync backend ctx
              (record q { sq = rq_exec q.sq (q.trackers.rqs i) cmd; cq = cq })
              i
              unmap
              copy
              ret
    unfolding exec_sync
    exec_sync_lem ctx q i cmd unmap cq copy ret h = rw (exec_sync, h) refl

    map_sync_ok :
        (ctx : Ctx backend) (q : Queues) (unmap : Option ℕ) (i : ℕ) (m : Prp.Mapped)
        → m.result ≡ ok tt
        → map_sync backend world clock freq fuel rounds t ctx q unmap i m
          ≡ exec_sync backend world clock freq fuel rounds t ctx
              (record q { lists = update q.lists i m.prplists })
              i
              m.cmd
              unmap
    unfolding map_sync
    map_sync_ok ctx q unmap i m h = rw (map_sync, h) refl

    -- With a tracker at hand, and the buffer mapped and described.
    sync_step :
        (mps : ℕ) (ctx ctx' : Ctx backend) (q : Queues) (cmd : Cmd) (vaddr len iova i : ℕ)
        → map_buffer backend ctx vaddr len ≡ (ctx', true, ok iova)
        → q.trackers.rq_top ≡ some i
        → let m =
            rq_map_prp mps
              (translate_vaddr backend ctx')
              (q.trackers.rqs i)
              (q.lists i)
              cmd
              iova
              len in
          m.result ≡ ok tt
          → sync backend world clock freq fuel rounds t mps ctx q cmd (some (vaddr, len))
            ≡ exec_sync backend world clock freq fuel rounds t ctx'
                (record q {
                  trackers = record q.trackers { rq_top = (q.trackers.rqs i).rq_next };
                  lists = update q.lists i m.prplists;
                })
                i
                m.cmd
                (some vaddr)
    unfolding sync mapped_sync acquire_some
    sync_step mps ctx ctx' q cmd vaddr len iova i h a e =
        let t' = record q.trackers { rq_top = (q.trackers.rqs i).rq_next } in
        ap (mapped_sync backend world clock freq fuel rounds t mps q cmd vaddr len) h
        ∙ ap
            (acquire_some backend world clock freq fuel rounds t mps ctx' q cmd (some vaddr) iova
              len)
            (rq_acquire-top q.trackers i a)
        ∙ map_sync_ok ctx' (record q { trackers = t' }) (some vaddr) i
            (rq_map_prp mps (translate_vaddr backend ctx') (q.trackers.rqs i) (q.lists i) cmd iova
              len)
            e

    -- `nvme_sync` with a buffer of at least one byte of which nothing is mapped, in a context of disjoint
    -- mappings, where the buffer can be mapped, described and unmapped, with a tracker free, and the
    -- entry of its command among those that are pending, behind none but entries of other commands:
    -- as many rounds as there are of these, and one more, are enough. It puts the command into the
    -- submission queue and tells the controller, takes all those entries, copies out its own, and
    -- succeeds if the status in it is 0, or fails with EIO. The entries behind it stay pending, the
    -- tracker is free again, and every address is translated as before the call.
    pub sync_lem :
        (mps : ℕ) (ctx ctx' : Ctx backend) (q : Queues) (cmd : Cmd) (vaddr len iova i : ℕ)
        (free : List ℕ) (others : List Cqe) (e : Cqe) (es : List Cqe)
        → Disjoint ctx.map
        → 0 < len
        → Unmapped vaddr len ctx.map
        → map_vaddr backend ctx vaddr len 0 2 ≡ (ctx', ok iova)
        → (backend.dma_unmap ctx'.state iova len).1 ≡ ok tt
        → Chain q.trackers.rqs q.trackers.rq_top (i ∷ free)
        → count i free ≡ 0
        → (m : Prp.Mapped)
        → rq_map_prp mps (translate_vaddr backend ctx') (q.trackers.rqs i) (q.lists i) cmd iova len
          ≡ m
        → m.result ≡ ok tt
        → ((t' : ℕ) → world t' ≡ q.cq.mem)
        → Pending q.cq (others ++ e ∷ es)
        → All (λ (c : Cqe). c.cid ≢ (q.trackers.rqs i).cid) others
        → e.cid ≡ (q.trackers.rqs i).cid
        → 0 < fuel
        → length others < rounds
        → (ctx'' : Ctx backend) × (q' : Queues) × (sync backend world clock freq fuel rounds t mps
              ctx q cmd
              (some (vaddr, len))
            ≡ returns (ctx'', q', some e, status e))
          × (q'.sq ≡ rq_exec q.sq (q.trackers.rqs i) m.cmd)
          × Pending q'.cq es
          × Chain q'.trackers.rqs q'.trackers.rq_top (i ∷ free)
          × ((u : ℕ) → translate_vaddr backend ctx'' u ≡ translate_vaddr backend ctx u)
    sync_lem mps ctx ctx' q cmd vaddr len iova i free others e es d hn hu hm hw hc hi m em em' still
          v ho he hf hr =
        let b =
          map_buffer_lem ctx ctx' vaddr len iova (translate_none backend ctx vaddr len d hn hu)
            hm in
        let (cq', spun, p) =
          sync_spin_lem world clock freq fuel rounds t (q.trackers.rqs i).cid q.cq others e es still
            v ho he hf hr in
        let (r, _, same) =
          map_vaddr-unmap_vaddr backend ctx ctx' vaddr len 0 2 iova d hn hu hm hw in
        let t' : Trackers = record q.trackers { rq_top = (q.trackers.rqs i).rq_next } in
        let q1 : Queues = record q { trackers = t'; lists = update q.lists i m.prplists } in
        let q2 : Queues = record q1 { sq = rq_exec q.sq (q.trackers.rqs i) m.cmd; cq = cq' } in
        let (c', _, _) = rq_release-Chain t' free i hc.1 hi in
        (
          (unmap_vaddr backend ctx' vaddr).0,
          record q2 { trackers = rq_release t' i },
          sync_step mps ctx ctx' q cmd vaddr len iova i b hc.0
                (ap (λ (x : Prp.Mapped). x.result) em ∙ em')
              ∙ ap
                  (λ (x : Prp.Mapped).
                    exec_sync backend world clock freq fuel rounds t ctx'
                      (record q1 { lists = update q.lists i x.prplists }) i x.cmd (some vaddr))
                  em
              ∙ exec_sync_lem ctx' q1 i m.cmd (some vaddr) cq' (some e) (status e) spun
              ∙ finish_unmapped ctx' q2 i vaddr len (some e) (status e) r,
          refl,
          p,
          c',
          same,
        )

    -- `nvme_sync` with a buffer of which nothing is mapped, while no tracker is free: it fails with
    -- EBUSY, and the buffer, which it has mapped, stays mapped.
    pub sync_busy :
        (mps : ℕ) (ctx ctx' : Ctx backend) (q : Queues) (cmd : Cmd) (vaddr len iova : ℕ)
        → Disjoint ctx.map
        → 0 < len
        → Unmapped vaddr len ctx.map
        → map_vaddr backend ctx vaddr len 0 2 ≡ (ctx', ok iova)
        → q.trackers.rq_top ≡ none
        → (sync backend world clock freq fuel rounds t mps ctx q cmd (some (vaddr, len))
            ≡ returns (ctx', q, none, err ebusy))
          × Mapped backend ctx ctx' vaddr len iova
    unfolding sync mapped_sync acquire_some
    sync_busy mps ctx ctx' q cmd vaddr len iova d hn hu hm ht =
        let b =
          map_buffer_lem ctx ctx' vaddr len iova (translate_none backend ctx vaddr len d hn hu)
            hm in
        (
          ap (mapped_sync backend world clock freq fuel rounds t mps q cmd vaddr len) b
              ∙ ap
                  (acquire_some backend world clock freq fuel rounds t mps ctx' q cmd (some vaddr)
                    iova len)
                  (rq_acquire-none q.trackers ht),
          map_vaddr-Mapped backend ctx ctx' vaddr len 0 2 iova d hn hu hm,
        )
