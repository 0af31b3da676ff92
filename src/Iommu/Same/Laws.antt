-- ===== src/Iommu/Same/Laws.antt =====
-- That `iommu_alloc_same_iova` ends, and what it allocates.
use libvfn.Base.{
  ℕ, zero, suc, ◌+◌, ◌*◌, ◌%◌, ◌^◌, ◌≤◌, ◌<◌, ◌≡◌, refl, sym, ap, subst, ◌∙◌, Bool, true, false,
  Bool-cases, none, some, leb, ◌||◌, arith, inl, inr, Errno, enomem, Result, ok, err,
}
use libvfn.Support.Word.{u64, add64}
use libvfn.Support.Align.{align_up, align_up_least, align_up-le}
use libvfn.Iommu.Dma.{Backend, Ctx, dma_map_add, translate_vaddr, map_vaddr}
use libvfn.Iommu.Dma.Places.{Disjoint, Unmapped}
use libvfn.Iommu.Dma.Translate.{
  Mapped, map_vaddr-Mapped, translate_none, not_ok, ok_inj, Result-cases,
}
use libvfn.Iommu.Dma.Errors.{translate_by_map}
use libvfn.Iommu.Same.{
  FixedPages, max_same_iova, is_eexist, SameMemory, move_on, keep_same, map_same, retry_same,
  alloc_same_iova,
}

-- Two contexts with the same mappings translate the same.
Mapped-by_map :
    (backend : Backend) (a b c : Ctx backend) (v len i : ℕ)
    → a.map ≡ b.map
    → Mapped backend a c v len i
    → Mapped backend b c v len i
Mapped-by_map backend a b c v len i h m = record {
  disjoint = m.disjoint;
  inside = m.inside;
  outside = λ u o. m.outside u o ∙ translate_by_map backend b a u h;
}

Mapped-to :
    (backend : Backend) (a b c : Ctx backend) (v len i : ℕ)
    → c.map ≡ b.map
    → Mapped backend a b v len i
    → Mapped backend a c v len i
Mapped-to backend a b c v len i h m = record {
  disjoint = subst Disjoint (sym h) m.disjoint;
  inside = λ k hk. translate_by_map backend b c (v + k) h ∙ m.inside k hk;
  outside = λ u o. translate_by_map backend b c u h ∙ m.outside u o;
}

module _ (backend : Backend) where
  map_vaddr-next_same :
      (ctx : Ctx backend) (v len iova flags : ℕ)
      → (map_vaddr backend ctx v len iova flags).0.iova_next_same ≡ ctx.iova_next_same
  unfolding map_vaddr dma_map_add
  map_vaddr-next_same ctx v len iova flags = ground arith

  -- A mapping at an address that is asked for, on a backend that maps there.
  map_vaddr-fixed :
      (ctx : Ctx backend) (v len i : ℕ)
      → translate_vaddr backend ctx v ≡ none
      → ((i : ℕ) → (backend.dma_map ctx.state v len v 1).1 ≡ ok i → i ≡ v)
      → (map_vaddr backend ctx v len v 1).1 ≡ ok i
      → i ≡ v
  unfolding map_vaddr dma_map_add
  map_vaddr-fixed ctx v len i free obeys h = obeys i (ground (arith, free, h))

  -- The memory at `v` is mapped at `v`, from the next address on, below both limits, and the next
  -- address is behind it.
  pub record Same (ctx ctx' : Ctx backend) (v len : ℕ) : Type 0 where
    pub mapped : Mapped backend ctx ctx' v len v
    pub from : ctx.iova_next_same ≤ v
    pub next : ctx'.iova_next_same ≡ v + len
    pub below : (v + len < ctx.iova_max) × (v + len < max_same_iova)

module _ (backend : Backend) (pages : FixedPages) (len : ℕ) where
  full : SameMemory backend pages → Bool
  full m =
      leb m.ctx.iova_max (add64 m.ctx.iova_next_same len)
      || leb max_same_iova (add64 m.ctx.iova_next_same len)

  below :
      (m : SameMemory backend pages)
      → full m ≡ false
      → (add64 m.ctx.iova_next_same len < m.ctx.iova_max)
        × (add64 m.ctx.iova_next_same len < max_same_iova)
  unfolding full
  below m b = (ground (arith, b), ground (arith, b))

  module _ (m : SameMemory backend pages) where
    retry_same-full :
        (fuel : ℕ)
        → full m ≡ true
        → retry_same backend pages (suc fuel) m len ≡ some (m, err enomem)
    unfolding retry_same full
    retry_same-full fuel b = rw (retry_same, b) refl

    retry_same-got :
        (fuel v : ℕ)
        → full m ≡ false
        → (pages.mmap m.state m.ctx.iova_next_same len).1 ≡ ok v
        → retry_same backend pages (suc fuel) m len
          ≡ some (
              map_same backend pages
                (record m { state = (pages.mmap m.state m.ctx.iova_next_same len).0 })
                v
                len)
    unfolding retry_same full
    retry_same-got fuel v b g = rw (retry_same, b, g) refl

    retry_same-again :
        (fuel : ℕ) (e : Errno)
        → full m ≡ false
        → (pages.mmap m.state m.ctx.iova_next_same len).1 ≡ err e
        → is_eexist e ≡ true
        → retry_same backend pages (suc fuel) m len
          ≡ retry_same backend pages fuel
              (record {
                ctx = move_on backend pages m.ctx len;
                state = (pages.mmap m.state m.ctx.iova_next_same len).0;
              })
              len
    unfolding retry_same full
    retry_same-again fuel e b g x = rw (b, g, retry_same, x) refl

    retry_same-err :
        (fuel : ℕ) (e : Errno)
        → full m ≡ false
        → (pages.mmap m.state m.ctx.iova_next_same len).1 ≡ err e
        → is_eexist e ≡ false
        → retry_same backend pages (suc fuel) m len
          ≡ some (record m { state = (pages.mmap m.state m.ctx.iova_next_same len).0 }, err e)
    unfolding retry_same full
    retry_same-err fuel e b g x = rw (b, g, retry_same, x) refl

    keep_same_ok :
        (v w : ℕ) (p : Ctx backend × Result ℕ)
        → Disjoint m.ctx.map
        → 0 < len
        → Unmapped v len m.ctx.map
        → ((s : backend.State) (i : ℕ) → (backend.dma_map s v len v 1).1 ≡ ok i → i ≡ v)
        → map_vaddr backend m.ctx v len v 1 ≡ p
        → (keep_same backend pages m v len p).1 ≡ ok w
        → let ctx' = (keep_same backend pages m v len p).0.ctx in
          (w ≡ v)
          × Mapped backend m.ctx ctx' v len v
          × (ctx'.iova_next_same ≡ add64 m.ctx.iova_next_same len)
    unfolding keep_same
    keep_same_ok v w (ctx', err e) d hn hu obeys q h = absurd (ground (arith, h))
    keep_same_ok v w (ctx', ok i) d hn hu obeys q h =
        let at : i ≡ v =
          map_vaddr-fixed backend m.ctx v len i (translate_none backend m.ctx v len d hn hu)
            (obeys m.ctx.state) (ap (λ (p : Ctx backend × Result ℕ). p.1) q) in
        let mapped = map_vaddr-Mapped backend m.ctx ctx' v len v 1 i d hn hu q in
        (
          ok_inj (sym h),
          Mapped-to backend m.ctx ctx' (move_on backend pages ctx' len) v len v refl
              (subst (Mapped backend m.ctx ctx' v len) at mapped),
          ap (λ n. add64 n len)
              (ap (λ (p : Ctx backend × Result ℕ). p.0.iova_next_same) (sym q)
                ∙ map_vaddr-next_same backend m.ctx v len v 1),
        )

  got-Same :
      (m : SameMemory backend pages) (v : ℕ) (s : pages.State)
      → Disjoint m.ctx.map
      → 0 < len
      → Unmapped v len m.ctx.map
      → ((s : backend.State) (i : ℕ) → (backend.dma_map s v len v 1).1 ≡ ok i → i ≡ v)
      → full m ≡ false
      → max_same_iova + len < u64
      → m.ctx.iova_next_same ≤ max_same_iova
      → v ≡ m.ctx.iova_next_same
      → let (m', r) = map_same backend pages (record m { state = s }) v len in
        (w : ℕ) → r ≡ ok w → Same backend m.ctx m'.ctx w len
  unfolding map_same full
  got-Same m v s d hn hu obeys b small low at w h =
      let (e, mapped, next) =
        keep_same_ok (record m { state = s }) v w (map_vaddr backend m.ctx v len v 1) d hn hu obeys
          refl h in
      let sum : add64 m.ctx.iova_next_same len ≡ m.ctx.iova_next_same + len = omega arith in
      let (lt, lt') = below m b in
      subst
        (λ x.
          Same backend m.ctx (map_same backend pages (record m { state = s }) v len).0.ctx x len)
        (sym e)
        (record {
          mapped = mapped;
          from = omega (arith, at);
          next = next ∙ sum ∙ ap (λ x. x + len) (sym at);
          below = (omega (arith, at, sum, lt), omega (arith, at, sum, lt'));
        })

  module _ (obeys : (s : backend.State) (v i : ℕ) → (backend.dma_map s v len v 1).1 ≡ ok i → i ≡ v)
      (gives : (s : pages.State) (n v : ℕ) → (pages.mmap s n len).1 ≡ ok v → v ≡ n) (pos : 0 < len)
      (small : max_same_iova + len < u64) where
    -- The fuel is enough, and what is allocated is at its own I/O address.
    abbrev Ends : ℕ → SameMemory backend pages → Type 0
    Ends fuel m =
        (m' : SameMemory backend pages) × (r : Result ℕ) × (retry_same backend pages fuel m len
          ≡ some (m', r))
        × ((v : ℕ) → r ≡ ok v → Same backend m.ctx m'.ctx v len)

    -- A round, unless the address is taken.
    round-Ends :
        (fuel : ℕ) (m : SameMemory backend pages)
        → Disjoint m.ctx.map
        → ((s : pages.State) (n v : ℕ) → (pages.mmap s n len).1 ≡ ok v → Unmapped v len m.ctx.map)
        → m.ctx.iova_next_same ≤ max_same_iova
        → ((e : Errno)
            → full m ≡ false
            → (pages.mmap m.state m.ctx.iova_next_same len).1 ≡ err e
            → is_eexist e ≡ true
            → Ends (suc fuel) m)
        → Ends (suc fuel) m
    round-Ends fuel m d clear low again = elim (Bool-cases (full m)) [
      | inl b ↦ (m, err enomem, retry_same-full m fuel b, λ v h. absurd (not_ok h))
      | inr b ↦ elim (Result-cases (pages.mmap m.state m.ctx.iova_next_same len).1) [
        | inr (v, g) ↦
            let s = (pages.mmap m.state m.ctx.iova_next_same len).0 in
            let r = map_same backend pages (record m { state = s }) v len in
            (
              r.0,
              r.1,
              retry_same-got m fuel v b g,
              got-Same m v s d pos (clear m.state m.ctx.iova_next_same v g) (λ s i. obeys s v i) b
                  small low (gives m.state m.ctx.iova_next_same v g),
            )
        | inl (e, g) ↦ elim (Bool-cases (is_eexist e)) [
          | inl x ↦ again e b g x
          | inr x ↦ (
            record m { state = (pages.mmap m.state m.ctx.iova_next_same len).0 },
            err e,
            retry_same-err m fuel e b g x,
            λ v h. absurd (not_ok h),
          )
        ]
      ]
    ]

    retry_same-Ends :
        (fuel : ℕ) (m : SameMemory backend pages)
        → Disjoint m.ctx.map
        → ((s : pages.State) (n v : ℕ) → (pages.mmap s n len).1 ≡ ok v → Unmapped v len m.ctx.map)
        → m.ctx.iova_next_same ≤ max_same_iova
        → max_same_iova ≤ m.ctx.iova_next_same + fuel * len
        → Ends (suc fuel) m
    retry_same-Ends zero m d clear low enough = round-Ends zero m d clear low (λ e b g x.
        let sum : add64 m.ctx.iova_next_same len ≡ m.ctx.iova_next_same + len = omega arith in
        absurd (omega (arith, sum, (below m b).1)))
    retry_same-Ends (suc fuel) m d clear low enough =
        round-Ends (suc fuel) m d clear low (λ e b g x.
          let sum : add64 m.ctx.iova_next_same len ≡ m.ctx.iova_next_same + len = omega arith in
          let next : SameMemory backend pages = record {
            ctx = move_on backend pages m.ctx len;
            state = (pages.mmap m.state m.ctx.iova_next_same len).0;
          } in
          let (m', r, run, same) =
            retry_same-Ends fuel next d clear (omega (arith, sum, (below m b).1))
              (omega (arith, sum, enough)) in
          (
            m',
            r,
            retry_same-again m (suc fuel) e b g x ∙ run,
            λ v h.
                let w = same v h in
                record {
                  mapped = Mapped-by_map backend next.ctx m.ctx m'.ctx v len v refl w.mapped;
                  from = omega (arith, w.from, sum);
                  next = w.next;
                  below = w.below;
                },
          ))

module _ (backend : Backend) (pages : FixedPages) (k len : ℕ) where
  -- `iommu_alloc_same_iova` of at least one byte, at a page size of a power of two and a length that
  -- leaves room for it, in a context of disjoint mappings, where the backend maps at the address that
  -- it is asked for, the kernel gives memory at that address or none, and nothing of what it gives is
  -- mapped: it ends, with a round for each length of pages up to the limit, and one more. Where it
  -- succeeds, the memory has at least the length, in whole pages, and each address of it is translated
  -- to itself, every other as before; it is at the next address of the context or behind it, below
  -- both limits, and the next address is behind it then.
  pub alloc_same_iova-Same :
      (m : SameMemory backend pages) (fuel : ℕ)
      → let n = align_up len (2 ^ k) in
        k < 64
        → 0 < len
        → len + 2 ^ k + max_same_iova < u64
        → ((s : backend.State) (v i : ℕ) → (backend.dma_map s v n v 1).1 ≡ ok i → i ≡ v)
        → ((s : pages.State) (a v : ℕ) → (pages.mmap s a n).1 ≡ ok v → v ≡ a)
        → ((s : pages.State) (a v : ℕ) → (pages.mmap s a n).1 ≡ ok v → Unmapped v n m.ctx.map)
        → Disjoint m.ctx.map
        → m.ctx.iova_next_same ≤ max_same_iova
        → max_same_iova ≤ m.ctx.iova_next_same + fuel * n
        → (m' : SameMemory backend pages) × (r : Result ℕ) × (alloc_same_iova backend pages
              (2 ^ k)
              (suc fuel)
              m
              len
            ≡ some (m', r))
          × ((len ≤ n) × (n % 2 ^ k ≡ 0))
          × ((v : ℕ) → r ≡ ok v → Same backend m.ctx m'.ctx v n)
  unfolding alloc_same_iova
  alloc_same_iova-Same m fuel hk hn hl obeys gives clear d low enough =
      let (whole, at_least, _) = align_up_least len k hk (omega arith) in
      let (m', r, run, same) =
        retry_same-Ends backend pages (align_up len (2 ^ k)) obeys gives (omega (arith, at_least))
          (omega (arith, align_up-le len k hk (omega arith))) fuel m d clear low enough in
      (m', r, run, (at_least, whole), same)
