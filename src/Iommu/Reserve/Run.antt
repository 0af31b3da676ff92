-- ===== src/Iommu/Reserve/Run.antt =====
-- Runs of `vfio_iommu_type1_iova_reserve`, `vfio_iova_put` and `vfio_iommu_type1_iova_put_ephemeral` of
-- src/iommu/vfio.c.
use libvfn.Base.{
  ℕ, ◌+◌, ◌<◌, ◌≡◌, refl, ap, ◌∙◌, true, false, not, some, List, [], ◌∷◌, ◌++◌, arith, Bool-cases,
  Option-cases, inl, inr, ok,
}
use libvfn.Support.Word.{u64}
use libvfn.Support.Align.{aligned}
use libvfn.Iommu.Dma.{is_ephemeral}
use libvfn.Iommu.Reserve.{
  FreeRange, Container, bump, get_free, iova_reserve, iova_put, put_ephemeral,
}
use libvfn.Iommu.Reserve.Live.{
  Bounded, Inv, reserved, taken-Inv, bumped-Inv, put-Inv, ephemeral-Inv, put_ephemeral-Inv,
}

-- A reservation outside the ephemeral range, and one in it.
reserve-Inv :
    (pagesize : ℕ) (c : Container) (live : List FreeRange) (iova len flags : ℕ)
    → Inv c live
    → 0 < len
    → is_ephemeral flags ≡ false
    → (iova_reserve pagesize c len flags).1 ≡ ok iova
    → Inv (iova_reserve pagesize c len flags).0 (reserved iova len ∷ live)
unfolding iova_reserve
reserve-Inv pagesize c live iova len flags v h plain e =
    elim (Bool-cases (not (aligned len pagesize))) [
      | inl b ↦ absurd (ground (arith, b, e))
      | inr b ↦ elim (Option-cases (get_free c.free_iovas len).1) [
        | inr (x, g) ↦
            let at : x ≡ iova = ground (arith, b, plain, g, e) in
            rw (b, plain, g)
              (taken-Inv c live (get_free c.free_iovas len).0 iova len v h
                (λ i. ((get_free c.free_iovas len).0, (g ∙ ap some at) i)))
        | inl g ↦ elim (Option-cases (bump c.ranges c.next len)) [
          | inl q ↦ absurd (ground (arith, b, plain, g, q, e))
          | inr ((x, next), q) ↦
              let at : x ≡ iova = ground (arith, b, plain, g, q, e) in
              rw (b, plain, g, q)
                (bumped-Inv c live iova len next v h (q ∙ ap (λ y. some (y, next)) at))
        ]
      ]
    ]

reserve_ephemeral-Inv :
    (pagesize : ℕ) (c : Container) (live : List FreeRange) (len flags : ℕ)
    → Inv c live
    → is_ephemeral flags ≡ true
    → Inv (iova_reserve pagesize c len flags).0 live
unfolding iova_reserve
reserve_ephemeral-Inv pagesize c live len flags v eph =
    elim (Bool-cases (not (aligned len pagesize))) [
      | inl b ↦ rw b v
      | inr b ↦ elim (Option-cases (bump (c.ephemerals ∷ []) c.next_ephemeral len)) [
        | inl q ↦ rw (b, eph, q) v
        | inr ((x, next), q) ↦ rw (b, eph, q) (ephemeral-Inv c live next (c.nephemerals + 1) v)
      ]
    ]

-- A run of reservations and their releases, from the start: the container, and the reservations that
-- are out. Ephemeral reservations come and go as well.
pub data Run (pagesize : ℕ) (first : Container) : Container → List FreeRange → Type 0 where
  start : Run pagesize first first []
  reserve :
      {c : Container} {live : List FreeRange} (iova len flags : ℕ)
      → Run pagesize first c live
      → 0 < len
      → is_ephemeral flags ≡ false
      → (iova_reserve pagesize c len flags).1 ≡ ok iova
      → Run pagesize first
          (iova_reserve pagesize c len flags).0
          (record { start = iova; len = len } ∷ live)
  put :
      {c : Container} (before : List FreeRange) (r : FreeRange) (behind : List FreeRange)
      → Run pagesize first c (before ++ r ∷ behind)
      → Run pagesize first (iova_put c r.start r.len) (before ++ behind)
  reserve_ephemeral :
      {c : Container} {live : List FreeRange} (len flags : ℕ)
      → Run pagesize first c live
      → is_ephemeral flags ≡ true
      → Run pagesize first (iova_reserve pagesize c len flags).0 live
  put_ephemerals :
      {c : Container} {live : List FreeRange}
      → Run pagesize first c live
      → Run pagesize first (put_ephemeral c) live

-- In whatever order reservations are made and given back, from a container whose ranges end before the
-- last 64-bit address, that has nothing in its free list, and whose next address is behind its
-- ephemeral range: at every time no address is in two of the reservations that are out, or in one of
-- them and in the free list, and the reservations lie between the ephemeral range and the next
-- address. Each reservation has at least one byte; ephemeral ones come and go as well, and those with
-- an alignment are left aside.
pub Run-Inv :
    (pagesize : ℕ) (first c : Container) (live : List FreeRange)
    → Bounded first.ranges
    → first.free_iovas ≡ []
    → first.next < u64
    → first.ephemerals.last < first.next
    → Run pagesize first c live
    → Inv c live
Run-Inv pagesize first c live hb hf hn he start = record {
  bounded = hb;
  next_lem = hn;
  spaced = rw hf tt;
  sizes = tt;
  once = λ u. rw hf (omega arith);
  below = λ u q. rw hf refl;
  above = λ u q. rw hf refl;
  ephemeral = he;
}
Run-Inv pagesize first c live hb hf hn he
      (reserve {c = b} {live = l} iova len flags run pos plain e) =
    reserve-Inv pagesize b l iova len flags (Run-Inv pagesize first b l hb hf hn he run) pos plain e
Run-Inv pagesize first c live hb hf hn he (put {c = b} before r behind run) =
    put-Inv b before r behind (Run-Inv pagesize first b (before ++ r ∷ behind) hb hf hn he run)
Run-Inv pagesize first c live hb hf hn he (reserve_ephemeral {c = b} len flags run eph) =
    reserve_ephemeral-Inv pagesize b live len flags (Run-Inv pagesize first b live hb hf hn he run)
      eph
Run-Inv pagesize first c live hb hf hn he (put_ephemerals {c = b} run) =
    put_ephemeral-Inv b live (Run-Inv pagesize first b live hb hf hn he run)
