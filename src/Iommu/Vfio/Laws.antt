-- ===== src/Iommu/Vfio/Laws.antt =====
-- `iommu_map_vaddr` of src/iommu/dma.c over the VFIO backend, where the mapping fails.
use Prim.Native.Nat.{bit_or}
use libvfn.Base.{
  ℕ, ◌/◌, ◌%◌, ◌<◌, ◌≡◌, ◌⊎◌, refl, sym, ap, subst, ◌∙◌, true, false, not, none, List, ◌∷◌, arith,
  einval, Errno, Result, ok, err, ◌==◌,
}
use libvfn.Support.Align.{aligned}
use libvfn.Iommu.Dma.{
  Ctx, Mapping, find, is_fixed, is_ephemeral, iova_map_find, iova_map_add, dma_map_add,
  translate_vaddr, map_vaddr,
}
use libvfn.Iommu.Dma.Errors.{translate_by_map}
use libvfn.Iommu.Reserve.{FreeRange, Container, iova_reserve}
use libvfn.Iommu.Reserve.Run.{Run}
use libvfn.Iommu.Vfio.{Ioctls, Vfio, do_dma_map, vfio_ops}

iova_map_add-free :
    (map : List Mapping) (vaddr len iova flags : ℕ)
    → 0 < len
    → find vaddr map ≡ none
    → (iova_map_add map vaddr len iova flags).1 ≡ ok tt
unfolding iova_map_add
iova_map_add-free map vaddr len iova flags h free = ground arith

module _ (ioctls : Ioctls) (pagesize : ℕ) where
  abbrev pub Context : Type 0
  Context = Ctx (vfio_ops ioctls pagesize)

  -- The kernel has not mapped the range: it has not been asked, as the address, the length or the I/O
  -- address is not aligned to the page size; or it has refused with the given error.
  abbrev pub Refused : Vfio ioctls pagesize → Vfio ioctls pagesize → ℕ → ℕ → ℕ → ℕ → Errno → Type 0
  Refused v v' vaddr len iova flags e =
      let (kernel, ret) =
        ioctls.map_dma v.kernel vaddr len iova (not (flags / 8 % 2 == 1))
          (not (flags / 4 % 2 == 1)) in
      ((aligned (bit_or (bit_or vaddr len) iova) pagesize ≡ false)
        × (e ≡ einval)
        × (v'.kernel ≡ v.kernel))
      ⊎ ((aligned (bit_or (bit_or vaddr len) iova) pagesize ≡ true)
          × (ret ≡ err e)
          × (v'.kernel ≡ kernel))

  do_dma_map_err :
      (v : Vfio ioctls pagesize) (vaddr len iova flags : ℕ) (e : Errno)
      → (do_dma_map ioctls pagesize v vaddr len iova flags).1 ≡ err e
      → Refused v (do_dma_map ioctls pagesize v vaddr len iova flags).0 vaddr len iova flags e
        × ((do_dma_map ioctls pagesize v vaddr len iova flags).0.container ≡ v.container)
  unfolding do_dma_map
  do_dma_map_err v vaddr len iova flags e h = ground arith

  dma_map_add_err :
      (ctx : Context) (vaddr len iova flags : ℕ) (e : Errno)
      → 0 < len
      → translate_vaddr (vfio_ops ioctls pagesize) ctx vaddr ≡ none
      → (dma_map_add (vfio_ops ioctls pagesize) ctx vaddr len iova flags).1 ≡ err e
      → ((do_dma_map ioctls pagesize ctx.state vaddr len iova flags).1 ≡ err e)
        × (dma_map_add (vfio_ops ioctls pagesize) ctx vaddr len iova flags ≡ (
          record ctx { state = (do_dma_map ioctls pagesize ctx.state vaddr len iova flags).0 },
          err e,
        ))
  unfolding dma_map_add translate_vaddr iova_map_find
  dma_map_add_err ctx vaddr len iova flags e pos free h =
      ground (arith, iova_map_add-free ctx.map vaddr len)

  -- The context after a reservation.
  abbrev after : Context → Container → Context
  after ctx c = record ctx { state = record { container = c; kernel = ctx.state.kernel } }

  map_vaddr-dma_map_add :
      (ctx : Context) (vaddr len flags iova : ℕ)
      → translate_vaddr (vfio_ops ioctls pagesize) ctx vaddr ≡ none
      → is_fixed flags ≡ false
      → (iova_reserve pagesize ctx.state.container len flags).1 ≡ ok iova
      → map_vaddr (vfio_ops ioctls pagesize) ctx vaddr len 0 flags
        ≡ dma_map_add
            (vfio_ops ioctls pagesize)
            (after ctx (iova_reserve pagesize ctx.state.container len flags).0)
            vaddr
            len
            iova
            flags
  unfolding map_vaddr
  map_vaddr-dma_map_add ctx vaddr len flags iova free loose r =
      rw (map_vaddr, free, loose)
        (ap
          (λ (p : Result ℕ). elim p as (λ _. Context × Result ℕ) [
            | err e ↦ (after ctx (iova_reserve pagesize ctx.state.container len flags).0, err e)
            | ok i ↦
                dma_map_add (vfio_ops ioctls pagesize)
                  (after ctx (iova_reserve pagesize ctx.state.container len flags).0) vaddr len i
                  flags
          ])
          r)

  -- `iommu_map_vaddr` over the VFIO backend, after any run of reservations and their releases, for at
  -- least one byte at an address that is not mapped and not fixed to an I/O address, and not
  -- ephemeral, where the reservation succeeds and the mapping fails. The kernel has not mapped the
  -- range: it was not asked, and the error is EINVAL, as the address, the length or the reserved address
  -- is not aligned to the page size; or it has refused with that error. The context maps what it mapped
  -- before. But the allocator is as after a run that has made the reservation too and not given it
  -- back.
  pub map_vaddr-reserved :
      (ctx : Context) (first : Container) (live : List FreeRange) (vaddr len flags iova : ℕ)
      (e : Errno)
      → Run pagesize first ctx.state.container live
      → 0 < len
      → translate_vaddr (vfio_ops ioctls pagesize) ctx vaddr ≡ none
      → is_fixed flags ≡ false
      → is_ephemeral flags ≡ false
      → (iova_reserve pagesize ctx.state.container len flags).1 ≡ ok iova
      → (map_vaddr (vfio_ops ioctls pagesize) ctx vaddr len 0 flags).1 ≡ err e
      → let (ctx', ret) = map_vaddr (vfio_ops ioctls pagesize) ctx vaddr len 0 flags in
        Refused ctx.state ctx'.state vaddr len iova flags e
        × (ctx'.map ≡ ctx.map)
        × Run pagesize first ctx'.state.container (record { start = iova; len = len } ∷ live)
  map_vaddr-reserved ctx first live vaddr len flags iova e run pos free loose plain r failed =
      let c = (iova_reserve pagesize ctx.state.container len flags).0 in
      let made = map_vaddr-dma_map_add ctx vaddr len flags iova free loose r in
      let free' : translate_vaddr (vfio_ops ioctls pagesize) (after ctx c) vaddr ≡ none =
        translate_by_map (vfio_ops ioctls pagesize) ctx (after ctx c) vaddr refl ∙ free in
      let (refused, left) =
        dma_map_add_err (after ctx c) vaddr len iova flags e pos free'
          (ap (λ (p : Context × Result ℕ). p.1) (sym made) ∙ failed) in
      let (why, kept) = do_dma_map_err (after ctx c).state vaddr len iova flags e refused in
      let to = ap (λ (p : Context × Result ℕ). p.0) (sym (made ∙ left)) in
      (
        subst (λ (x : Context). Refused ctx.state x.state vaddr len iova flags e) to why,
        ap (λ (x : Context). x.map) (sym to),
        subst (λ (x : Container). Run pagesize first x (record { start = iova; len = len } ∷ live))
            (sym kept ∙ ap (λ (x : Context). x.state.container) to)
            (Run.reserve iova len flags run pos plain r),
      )
