-- ===== src/Nvme/Ctrl/Queues/Discard.antt =====
-- `nvme_discard_cq` of src/nvme/core.c after `nvme_configure_cq`.
use libvfn.Base.{
  ℕ, ◌+◌, ◌*◌, ◌^◌, ◌≤◌, ◌<◌, ◌≡◌, ◌≢◌, refl, sym, ap, ◌∙◌, false, Option, Option-cases, none, some,
  arith, update, update_self, update_ne, eq→==, ne→==, eq-cases, inl, inr, Errno, Result, ok, err,
}
use libvfn.Support.Word.{u64}
use libvfn.Support.Align.{align_up}
use libvfn.Iommu.Dma.{Backend, translate_vaddr}
use libvfn.Iommu.Dma.Places.{Disjoint, Unmapped}
use libvfn.Iommu.Dmabuf.{Pages, Dmabuf, zero_dmabuf, map_failed, Memory, get_dmabuf, put_dmabuf}
use libvfn.Iommu.Dmabuf.Laws.{
  get_dmabuf-Mapped, get_dmabuf-put_dmabuf, get_dmabuf_err, get_dmabuf_err-put_dmabuf,
}
use libvfn.Nvme.Ctrl.Fields.{cap_dstrd}
use libvfn.Nvme.Ctrl.Queues.{
  CompletionQueue, zero_cq, Controller, check_queue, dbbuf_pointers, cqhdbl, new_cq, configure_cq,
  clear_words, put_unless, discard_cq,
}
use libvfn.Nvme.Ctrl.Queues.Completion.{
  fresh_cq, with_mem, configure_cq_checked, configure_cq_ok, configured_place,
}

module _ (backend : Backend) (pages : Pages) (pagesize : ℕ) where
  module _ (ctrl : Controller backend pages pagesize) where
    clear_words-some :
        (place : ℕ → ℕ)
        → (words : ℕ → ℕ) × (clear_words backend pages pagesize ctrl
              (dbbuf_pointers backend pages pagesize ctrl place)
            ≡ some words)
    unfolding clear_words
    clear_words-some place = elim (eq-cases ctrl.dbbuf_doorbells.vaddr 0) [
      | inl e ↦ (ctrl.words, rw (eq→== ctrl.dbbuf_doorbells.vaddr 0 e) refl)
      | inr e ↦ (
        update (update ctrl.words (place ctrl.dbbuf_doorbells.vaddr) 0)
            (place ctrl.dbbuf_eventidxs.vaddr) 0,
        rw (ne→== ctrl.dbbuf_doorbells.vaddr 0 e) refl,
      )
    ]

    module _ (qid : ℕ) (used : (ctrl.cq qid).mem.vaddr ≢ 0)
        (own : (ctrl.cq qid).preallocated ≡ false) where
      discard_cq_lem :
          (m : Memory backend pages pagesize) (b : Dmabuf) (words : ℕ → ℕ)
          → put_dmabuf backend pages pagesize ctrl.memory (ctrl.cq qid).mem ≡ some (m, b)
          → clear_words backend pages pagesize ctrl (ctrl.cq qid).dbbuf_at ≡ some words
          → discard_cq backend pages pagesize ctrl qid
            ≡ some (record ctrl { memory = m; words = words; cq = update ctrl.cq qid zero_cq })
      unfolding discard_cq
      discard_cq_lem m b words p w =
          rw (discard_cq, ne→== (ctrl.cq qid).mem.vaddr 0 used, own, p, w) refl

      discard_cq_fatal :
          put_dmabuf backend pages pagesize ctrl.memory (ctrl.cq qid).mem ≡ none
          → discard_cq backend pages pagesize ctrl qid ≡ none
      unfolding discard_cq
      discard_cq_fatal p = rw (discard_cq, ne→== (ctrl.cq qid).mem.vaddr 0 used, own, p) refl

  -- The pointers of a queue that has been configured are there where the controller's buffers are.
  clear_words_configured :
      (ctrl ctrl' : Controller backend pages pagesize) (qid qsize : ℕ) (vector : Option ℕ)
      (mem : Dmabuf)
      → with_mem backend pages pagesize ctrl qid qsize vector ctrl'.memory mem ≡ ctrl'
      → (words : ℕ → ℕ) × (clear_words backend pages pagesize ctrl' (ctrl'.cq qid).dbbuf_at
          ≡ some words)
  unfolding with_mem fresh_cq new_cq
  clear_words_configured ctrl ctrl' qid qsize vector mem c =
      let ctrl1 = with_mem backend pages pagesize ctrl qid qsize vector ctrl'.memory mem in
      let (words, w) = clear_words-some ctrl1 (λ at. cqhdbl at qid (cap_dstrd ctrl.cap)) in
      let e = configured_place backend pages pagesize ctrl qid qsize vector ctrl' mem c in
      (
        words,
        ap
              (λ (x : Controller backend pages pagesize).
                clear_words backend pages pagesize x (ctrl'.cq qid).dbbuf_at)
              (sym c)
            ∙ ap (clear_words backend pages pagesize ctrl1)
                (ap (λ (q : CompletionQueue). q.dbbuf_at) (sym e))
            ∙ w,
      )

module _ (backend : Backend) (pages : Pages) (k : ℕ) where
  -- `nvme_discard_cq` after an `nvme_configure_cq` that has succeeded, under the conditions of a page
  -- size of a power of two, disjoint mappings, and memory from the kernel of which nothing is mapped
  -- and which is not at address 0, where the backend unmaps it: it succeeds, every address is
  -- translated as before both calls, the queue is cleared, and no other queue has changed.
  pub configure_cq-discard_cq :
      (ctrl ctrl' : Controller backend pages (2 ^ k)) (qid qsize : ℕ) (vector : Option ℕ) (v : ℕ)
      → k < 64
      → qsize * 2 ^ 4 + 2 ^ k ≤ u64
      → Disjoint ctrl.memory.ctx.map
      → (pages.mmap ctrl.memory.state (align_up (qsize * 2 ^ 4) (2 ^ k))).1 ≡ ok v
      → v ≢ 0
      → Unmapped v (align_up (qsize * 2 ^ 4) (2 ^ k)) ctrl.memory.ctx.map
      → configure_cq backend pages (2 ^ k) ctrl qid qsize vector ≡ (ctrl', ok tt)
      → (backend.dma_unmap ctrl'.memory.ctx.state (ctrl'.cq qid).mem.iova (ctrl'.cq qid).mem.len).1
        ≡ ok tt
      → (ctrl'' : Controller backend pages (2 ^ k)) × (discard_cq backend pages (2 ^ k) ctrl' qid
          ≡ some ctrl'')
        × ((u : ℕ)
            → translate_vaddr backend ctrl''.memory.ctx u
              ≡ translate_vaddr backend ctrl.memory.ctx u)
        × (ctrl''.cq qid ≡ zero_cq)
        × ((j : ℕ) → j ≢ qid → ctrl''.cq j ≡ ctrl.cq j)
  unfolding with_mem fresh_cq new_cq
  configure_cq-discard_cq ctrl ctrl' qid qsize vector v hk hl d hm hv hu h hw =
      let mem = (ctrl'.cq qid).mem in
      let (two, g, c) = configure_cq_ok backend pages (2 ^ k) ctrl qid qsize vector ctrl' h in
      let e = configured_place backend pages (2 ^ k) ctrl qid qsize vector ctrl' mem c in
      let (_, _, at) =
        get_dmabuf-Mapped backend pages k ctrl.memory ctrl'.memory zero_dmabuf mem (qsize * 2 ^ 4) 0
          v hk (omega arith) hl d hm hu g in
      let (_, _, (m'', put, same)) =
        get_dmabuf-put_dmabuf backend pages k ctrl.memory ctrl'.memory zero_dmabuf mem
          (qsize * 2 ^ 4) 0 v hk (omega arith) hl d hm hu g hw in
      let (words, w) =
        clear_words_configured backend pages (2 ^ k) ctrl ctrl' qid qsize vector mem c in
      (
        record ctrl' { memory = m''; words = words; cq = update ctrl'.cq qid zero_cq },
        discard_cq_lem backend pages (2 ^ k) ctrl' qid (λ z. hv (sym at ∙ z))
            (ap (λ (q : CompletionQueue). q.preallocated) (sym e)) m'' zero_dmabuf words put w,
        same,
        update_self ctrl'.cq qid zero_cq,
        λ j hj.
            update_ne ctrl'.cq qid j zero_cq hj
            ∙ ap (λ (c : Controller backend pages (2 ^ k)). c.cq j) (sym c)
            ∙ update_ne ctrl.cq qid j
                (record (fresh_cq backend pages (2 ^ k) ctrl qid qsize vector) { mem = mem }) hj,
      )

module _ (backend : Backend) (pages : Pages) (pagesize : ℕ) where
  -- `nvme_discard_cq`, as `nvme_close` calls it, after an `nvme_configure_cq` that has failed for want
  -- of memory that is mapped: it ends the program. Neither MAP_FAILED nor the memory that the kernel
  -- gave, if it gave any, was mapped before, and that is not at address 0.
  pub configure_cq_err-discard_cq :
      (ctrl ctrl' : Controller backend pages pagesize) (qid qsize : ℕ) (vector : Option ℕ)
      (e : Errno)
      → check_queue backend pages pagesize ctrl ctrl.ncqa qid qsize ≡ ok tt
      → 0 < align_up (qsize * 2 ^ 4) pagesize
      → translate_vaddr backend ctrl.memory.ctx map_failed ≡ none
      → ((v : ℕ)
          → (pages.mmap ctrl.memory.state (align_up (qsize * 2 ^ 4) pagesize)).1 ≡ ok v
          → (translate_vaddr backend ctrl.memory.ctx v ≡ none) × (v ≢ 0))
      → configure_cq backend pages pagesize ctrl qid qsize vector ≡ (ctrl', err e)
      → discard_cq backend pages pagesize ctrl' qid ≡ none
  unfolding with_mem fresh_cq new_cq
  configure_cq_err-discard_cq ctrl ctrl' qid qsize vector e ck hn hf hm h =
      let g = get_dmabuf backend pages pagesize ctrl.memory zero_dmabuf (qsize * 2 ^ 4) 0 in
      let q = sym (configure_cq_checked backend pages pagesize ctrl qid qsize vector ck) ∙ h in
      let c = ap (λ (p : Controller backend pages pagesize × Result Unit). p.0) q in
      let r : g.2 ≡ err e = ap (λ (p : Controller backend pages pagesize × Result Unit). p.1) q in
      let g' : get_dmabuf backend pages pagesize ctrl.memory zero_dmabuf (qsize * 2 ^ 4) 0
          ≡ (g.0, g.1, err e) =
        ap (λ (x : Result Unit). (g.0, g.1, x)) r in
      let at : g.1.vaddr ≢ 0 =
        elim (get_dmabuf_err backend pages pagesize ctrl.memory g.0 zero_dmabuf g.1 (qsize * 2 ^ 4)
          0 e g') [
            | inl (v, _, _) ↦ λ z. omega (arith, v, z)
            | inr (x, (w, (v, _, _))) ↦ λ z. (hm x w).1 (sym v ∙ z)
          ] in
      let put =
        get_dmabuf_err-put_dmabuf backend pages pagesize ctrl.memory g.0 zero_dmabuf g.1
          (qsize * 2 ^ 4) 0 e hn hf (λ v w. (hm v w).0) g' in
      let ctrl1 = with_mem backend pages pagesize ctrl qid qsize vector g.0 g.1 in
      let here =
        update_self ctrl.cq qid
          (record (fresh_cq backend pages pagesize ctrl qid qsize vector) { mem = g.1 }) in
      ap (λ (x : Controller backend pages pagesize). discard_cq backend pages pagesize x qid)
        (sym c)
      ∙ discard_cq_fatal backend pages pagesize ctrl1 qid
          (λ z. at (sym (ap (λ (q : CompletionQueue). q.mem.vaddr) here) ∙ z))
          (ap (λ (q : CompletionQueue). q.preallocated) here)
          (ap (λ (q : CompletionQueue). put_dmabuf backend pages pagesize g.0 q.mem) here ∙ put)

module _ (backend : Backend) (pages : Pages) (pagesize : ℕ) where
  -- Doorbell buffers, but no pointers into them.
  pub discard_cq-null :
      (ctrl : Controller backend pages pagesize) (qid : ℕ)
      → (ctrl.cq qid).mem.vaddr ≢ 0
      → ctrl.dbbuf_doorbells.vaddr ≢ 0
      → (ctrl.cq qid).dbbuf_at ≡ none
      → discard_cq backend pages pagesize ctrl qid ≡ none
  unfolding discard_cq clear_words
  discard_cq-null ctrl qid used there null =
      let q = ctrl.cq qid in
      elim (Option-cases (put_unless backend pages pagesize q.preallocated ctrl.memory q.mem)) [
        | inl p ↦ rw (discard_cq, ne→== q.mem.vaddr 0 used, p) refl
        | inr (m, p) ↦
            rw
              (
                discard_cq,
                clear_words,
                ne→== q.mem.vaddr 0 used,
                p,
                ne→== ctrl.dbbuf_doorbells.vaddr 0 there,
                null,
              )
              refl
      ]
