-- ===== src/Iommu/Dmabuf/Laws.antt =====
-- What `iommu_get_dmabuf` and `iommu_put_dmabuf` do to the translation of addresses.
use libvfn.Base.{
  ℕ, ◌+◌, ◌-◌, ◌%◌, ◌^◌, ◌≤◌, ◌<◌, ◌≡◌, ◌⊎◌, refl, sym, ap, subst, ◌∙◌, none, some, arith, inl, inr,
  ne→==, Errno, ok, err,
}
use libvfn.Support.Word.{u64}
use libvfn.Support.Align.{align_up, align_up_least}
use libvfn.Iommu.Dma.{Backend, Ctx, translate_vaddr, map_vaddr, unmap_vaddr}
use libvfn.Iommu.Dma.Places.{Disjoint, Unmapped}
use libvfn.Iommu.Dma.Translate.{Mapped, map_vaddr-Mapped, Result-cases}
use libvfn.Iommu.Dma.Errors.{translate_by_map, unmap_vaddr-none, map_vaddr_err}
use libvfn.Iommu.Dma.Undo.{map_vaddr-unmap_vaddr}
use libvfn.Iommu.Dmabuf.{
  Pages, Dmabuf, zero_dmabuf, map_failed, pgmap, Memory, get_dmabuf, put_dmabuf,
}

module _ (backend : Backend) (pages : Pages) (pagesize : ℕ) where
  pub get_dmabuf_ok :
      (m m' : Memory backend pages pagesize) (b b' : Dmabuf) (len flags v : ℕ)
      → (pages.mmap m.state (align_up len pagesize)).1 ≡ ok v
      → get_dmabuf backend pages pagesize m b len flags ≡ (m', b', ok tt)
      → (map_vaddr backend m.ctx v (align_up len pagesize) b.iova flags ≡ (m'.ctx, ok b'.iova))
        × (b'.vaddr ≡ v)
        × (b'.len ≡ align_up len pagesize)
  unfolding get_dmabuf pgmap
  get_dmabuf_ok m m' b b' len flags v h e = ground (arith, h, e)

  put_dmabuf_ok :
      (m : Memory backend pages pagesize) (b : Dmabuf) (n : ℕ)
      → 0 < b.len
      → (unmap_vaddr backend m.ctx b.vaddr).1 ≡ ok n
      → (m' : Memory backend pages pagesize) × (put_dmabuf backend pages pagesize m b
          ≡ some (m', zero_dmabuf))
        × (m'.ctx ≡ (unmap_vaddr backend m.ctx b.vaddr).0)
  unfolding put_dmabuf
  put_dmabuf_ok m b n h e = (
    record {
      ctx = (unmap_vaddr backend m.ctx b.vaddr).0;
      state = pages.munmap m.state b.vaddr b.len;
    },
    rw (ne→== b.len 0 (omega arith), e) refl,
    refl,
  )

  put_dmabuf_fatal :
      (m : Memory backend pages pagesize) (b : Dmabuf)
      → 0 < b.len
      → translate_vaddr backend m.ctx b.vaddr ≡ none
      → put_dmabuf backend pages pagesize m b ≡ none
  unfolding put_dmabuf
  put_dmabuf_fatal m b h e =
      rw (ne→== b.len 0 (omega arith), unmap_vaddr-none backend m.ctx b.vaddr e) refl

  pub get_dmabuf_err :
      (m m' : Memory backend pages pagesize) (b b' : Dmabuf) (len flags : ℕ) (e : Errno)
      → get_dmabuf backend pages pagesize m b len flags ≡ (m', b', err e)
      → ((b'.vaddr ≡ map_failed) × (b'.len ≡ u64 - 1) × (m'.ctx ≡ m.ctx))
        ⊎ ((v : ℕ) × (((pages.mmap m.state (align_up len pagesize)).1 ≡ ok v)
              × ((b'.vaddr ≡ v) × (b'.len ≡ align_up len pagesize) × (m'.ctx.map ≡ m.ctx.map))))
  unfolding get_dmabuf pgmap
  get_dmabuf_err m m' b b' len flags e h =
      elim (Result-cases (pages.mmap m.state (align_up len pagesize)).1) [
        | inl (x, w) ↦ inl (ground (arith, h, w))
        | inr (v, w) ↦ inr (
          v,
          (
            w,
            ground
                (arith, h, w, map_vaddr_err backend m.ctx v (align_up len pagesize) b.iova flags e),
          ),
        )
      ]

  -- `iommu_put_dmabuf` of a buffer that `iommu_get_dmabuf` could not provide ends the program, where
  -- neither MAP_FAILED nor the memory that the kernel gave was mapped before, at a length of at least
  -- one byte: the failed call leaves an address and a length in the buffer, for which there is no
  -- mapping to take away.
  pub get_dmabuf_err-put_dmabuf :
      (m m' : Memory backend pages pagesize) (b b' : Dmabuf) (len flags : ℕ) (e : Errno)
      → 0 < align_up len pagesize
      → translate_vaddr backend m.ctx map_failed ≡ none
      → ((v : ℕ)
          → (pages.mmap m.state (align_up len pagesize)).1 ≡ ok v
          → translate_vaddr backend m.ctx v ≡ none)
      → get_dmabuf backend pages pagesize m b len flags ≡ (m', b', err e)
      → put_dmabuf backend pages pagesize m' b' ≡ none
  get_dmabuf_err-put_dmabuf m m' b b' len flags e hn hf hm h =
      elim (get_dmabuf_err m m' b b' len flags e h) [
        | inl (v, n, c) ↦ put_dmabuf_fatal m' b' (omega (arith, n)) (
            ap (λ (c : Ctx backend). translate_vaddr backend c b'.vaddr) c
            ∙ ap (translate_vaddr backend m.ctx) v
            ∙ hf)
        | inr (x, (w, (v, n, c))) ↦ put_dmabuf_fatal m' b' (omega (arith, n)) (
            translate_by_map backend m.ctx m'.ctx b'.vaddr c
            ∙ ap (translate_vaddr backend m.ctx) v
            ∙ hm x w)
      ]

module _ (backend : Backend) (pages : Pages) (k : ℕ) where
  pub get_dmabuf-Mapped :
      (m m' : Memory backend pages (2 ^ k)) (b b' : Dmabuf) (len flags v : ℕ)
      → k < 64
      → 0 < len
      → len + 2 ^ k ≤ u64
      → Disjoint m.ctx.map
      → (pages.mmap m.state (align_up len (2 ^ k))).1 ≡ ok v
      → Unmapped v (align_up len (2 ^ k)) m.ctx.map
      → get_dmabuf backend pages (2 ^ k) m b len flags ≡ (m', b', ok tt)
      → ((len ≤ b'.len) × (b'.len % 2 ^ k ≡ 0))
        × Mapped backend m.ctx m'.ctx b'.vaddr b'.len b'.iova
        × (b'.vaddr ≡ v)
  get_dmabuf-Mapped m m' b b' len flags v hk hn hl d hm hu e =
      let (whole, enough, _) = align_up_least len k hk hl in
      let (q, hv, hb) = get_dmabuf_ok backend pages (2 ^ k) m m' b b' len flags v hm e in
      let pos : 0 < align_up len (2 ^ k) = omega (arith, enough) in
      let mapped =
        map_vaddr-Mapped backend m.ctx m'.ctx v (align_up len (2 ^ k)) b.iova flags b'.iova d pos hu
          q in
      (
        (omega (arith, hb, enough), ap (λ x. x % 2 ^ k) hb ∙ whole),
        subst (λ x. Mapped backend m.ctx m'.ctx x b'.len b'.iova) (sym hv)
            (subst (λ n. Mapped backend m.ctx m'.ctx v n b'.iova) (sym hb) mapped),
        hv,
      )

  -- `iommu_get_dmabuf` of at least one byte, at a page size of a power of two and a length that leaves
  -- room for it, where the kernel gives memory of which no part is mapped yet, in a context of
  -- disjoint mappings, where it succeeds: the buffer has at least the length, in whole pages; each
  -- address of it is translated to the one as far from the buffer's `iova`, and every other as
  -- before. Where the backend unmaps it, `iommu_put_dmabuf` then succeeds, clears the buffer, and
  -- leaves every address translated as it was at first.
  pub get_dmabuf-put_dmabuf :
      (m m' : Memory backend pages (2 ^ k)) (b b' : Dmabuf) (len flags v : ℕ)
      → k < 64
      → 0 < len
      → len + 2 ^ k ≤ u64
      → Disjoint m.ctx.map
      → (pages.mmap m.state (align_up len (2 ^ k))).1 ≡ ok v
      → Unmapped v (align_up len (2 ^ k)) m.ctx.map
      → get_dmabuf backend pages (2 ^ k) m b len flags ≡ (m', b', ok tt)
      → (backend.dma_unmap m'.ctx.state b'.iova b'.len).1 ≡ ok tt
      → ((len ≤ b'.len) × (b'.len % 2 ^ k ≡ 0))
        × Mapped backend m.ctx m'.ctx b'.vaddr b'.len b'.iova
        × ((m'' : Memory backend pages (2 ^ k)) × (put_dmabuf backend pages (2 ^ k) m' b'
              ≡ some (m'', zero_dmabuf))
            × ((u : ℕ) → translate_vaddr backend m''.ctx u ≡ translate_vaddr backend m.ctx u))
  get_dmabuf-put_dmabuf m m' b b' len flags v hk hn hl d hm hu e w =
      let (_, enough, _) = align_up_least len k hk hl in
      let (q, hv, hb) = get_dmabuf_ok backend pages (2 ^ k) m m' b b' len flags v hm e in
      let pos : 0 < align_up len (2 ^ k) = omega (arith, enough) in
      let w' = subst (λ n. (backend.dma_unmap m'.ctx.state b'.iova n).1 ≡ ok tt) hb w in
      let (r, _, same) =
        map_vaddr-unmap_vaddr backend m.ctx m'.ctx v (align_up len (2 ^ k)) b.iova flags b'.iova d
          pos hu q w' in
      let (size, mapped, _) = get_dmabuf-Mapped m m' b b' len flags v hk hn hl d hm hu e in
      let (m'', put, c) =
        put_dmabuf_ok backend pages (2 ^ k) m' b' (align_up len (2 ^ k)) (omega (arith, hb))
          (ap (λ x. (unmap_vaddr backend m'.ctx x).1) hv ∙ r) in
      (
        size,
        mapped,
        (
          m'',
          put,
          λ u.
              ap (λ (c : Ctx backend). translate_vaddr backend c u) c
              ∙ ap (λ x. translate_vaddr backend (unmap_vaddr backend m'.ctx x).0 u) hv
              ∙ same u,
        ),
      )
