-- ===== src/Iommu/Reserve/Live.antt =====
-- The reservations of src/iommu/vfio.c that are out at a time, and what one more or one less does.
use libvfn.Base.{
  ℕ, suc, ◌+◌, ◌-◌, ◌≤◌, ◌<◌, ◌≡◌, refl, ◌∙◌, Bool, true, false, ◌&&◌, some, List, [], ◌∷◌, ◌++◌,
  All, arith, leb, ◌==◌, if◌then◌else◌, Bool-cases, inl, inr, le-cases,
}
use libvfn.Support.Word.{u64}
use libvfn.Iommu.Reserve.{
  Range, FreeRange, Container, bump, get_free, put_free, iova_put, put_ephemeral,
  recycle_ephemerals,
}
use libvfn.Iommu.Reserve.Bump.{Words, Within, bump-Reserved}
use libvfn.Iommu.Reserve.Bytes.{within, covers, Spaced, Apart}
use libvfn.Iommu.Reserve.FreeList.{put_free-Added}
use libvfn.Iommu.Reserve.BestFit.{get_free-Taken}

-- In how many of the reservations an address is, and whether it is free.
abbrev pub count : ℕ → List FreeRange → ℕ
count u [] = 0
count u (r ∷ rs) = (if within u r.start r.len then 1 else 0) + count u rs

abbrev pub one_if : Bool → ℕ
one_if b = if b then 1 else 0

count-append :
    (u : ℕ) (before : List FreeRange) (r : FreeRange) (behind : List FreeRange)
    → count u (before ++ r ∷ behind)
      ≡ (if within u r.start r.len then 1 else 0) + count u (before ++ behind)
count-append u [] r behind = refl
count-append u (x ∷ before) r behind = omega (arith, count-append u before r behind)

-- The ranges end before the last 64-bit address.
abbrev pub Bounded : List Range → Type 0
Bounded rs = All (λ (r : Range). (r.start < u64) × (r.last < u64 - 1)) rs

Bounded-Words : (rs : List Range) → Bounded rs → Words rs
Bounded-Words [] b = tt
Bounded-Words (r ∷ rs) b = ((b.0.0, omega (arith, b.0.1)), Bounded-Words rs b.1)

Within-lt : (rs : List Range) (iova len : ℕ) → Bounded rs → Within rs iova len → iova + len < u64
unfolding Within
Within-lt [] iova len b w = absurd w
Within-lt (r ∷ rs) iova len b (inl w) = omega (arith, b.0.1, w.1)
Within-lt (r ∷ rs) iova len b (inr w) = Within-lt rs iova len b.1 w

-- Bytes that are in no free range, a byte at a time and as a whole.
Apart-covers :
    (u start len : ℕ) (rs : List FreeRange)
    → Apart start len rs
    → within u start len ≡ true
    → covers u rs ≡ false
Apart-covers u start len [] a w = refl
Apart-covers u start len (r ∷ rs) a w = ground (arith, a.0, w, Apart-covers u start len rs a.1 w)

covers-Apart :
    (lo start len : ℕ) (rs : List FreeRange)
    → Spaced lo rs
    → 0 < len
    → ((u : ℕ) → within u start len ≡ true → covers u rs ≡ false)
    → Apart start len rs
covers-Apart lo start len [] d b h = tt
covers-Apart lo start len (r ∷ rs) d b h = (
  ground (arith, h start, h r.start, d.0.1, b),
  covers-Apart (suc (r.start + r.len)) start len rs d.1.1 b (λ u w. ground (arith, h u w)),
)

-- A container and its reservations: the free ranges are in order, no address is in two reservations,
-- or in one and free, and all of these are above the ephemeral range and below the next address.
pub record Inv (c : Container) (live : List FreeRange) : Type 0 where
  pub bounded : Bounded c.ranges
  pub next_lem : c.next < u64
  pub spaced : Spaced 0 c.free_iovas
  pub sizes : All (λ (r : FreeRange). (0 < r.len) × (r.start + r.len < u64)) live
  pub once : (u : ℕ) → count u live + one_if (covers u c.free_iovas) ≤ 1
  pub below : (u : ℕ) → c.next ≤ u → count u live + one_if (covers u c.free_iovas) ≡ 0
  pub above : (u : ℕ) → u ≤ c.ephemerals.last → count u live + one_if (covers u c.free_iovas) ≡ 0
  pub ephemeral : c.ephemerals.last < c.next

abbrev pub reserved : ℕ → ℕ → FreeRange
reserved iova len = record { start = iova; len = len }

-- A reservation that the free list gives.
pub taken-Inv :
    (c : Container) (live free : List FreeRange) (iova len : ℕ)
    → Inv c live
    → 0 < len
    → get_free c.free_iovas len ≡ (free, some iova)
    → Inv (record c { free_iovas = free }) (reserved iova len ∷ live)
taken-Inv c live free iova len v h e =
    let t = get_free-Taken len iova c.free_iovas free v.spaced h e in
    let same : (u : ℕ)
        → count u (reserved iova len ∷ live) + one_if (covers u free)
          ≡ count u live + one_if (covers u c.free_iovas) =
      λ u. ground (arith, t.covers_lem u, Apart-covers u iova len free t.apart) in
    let last = iova + len - 1 in
    let inside : within last iova len ≡ true = ground arith in
    record {
      bounded = v.bounded;
      next_lem = v.next_lem;
      spaced = t.spaced;
      sizes = ((h, ground (arith, inside, t.covers_lem last, v.below last, v.next_lem)), v.sizes);
      once = λ u. omega (arith, same u, v.once u);
      below = λ u q. omega (arith, same u, v.below u q);
      above = λ u q. omega (arith, same u, v.above u q);
      ephemeral = v.ephemeral;
    }

-- A reservation at the next address.
pub bumped-Inv :
    (c : Container) (live : List FreeRange) (iova len next : ℕ)
    → Inv c live
    → 0 < len
    → bump c.ranges c.next len ≡ some (iova, next)
    → Inv (record c { next = next }) (reserved iova len ∷ live)
bumped-Inv c live iova len next v h e =
    let r =
      bump-Reserved c.ranges c.next len iova next (Bounded-Words c.ranges v.bounded) v.next_lem h
        e in
    let lt = Within-lt c.ranges iova len v.bounded r.within in
    let at : next ≡ iova + len = r.next_lem ∙ omega arith in
    let from = r.from in
    record {
      bounded = v.bounded;
      next_lem = omega (arith, at, lt);
      spaced = v.spaced;
      sizes = ((h, lt), v.sizes);
      once = λ u. elim (le-cases c.next u) [
        | inl q ↦ ground (arith, v.below u q)
        | inr q ↦ ground (arith, v.once u)
      ];
      below = λ u q. ground (arith, v.below u);
      above = λ u q. ground (arith, v.above u q, v.ephemeral);
      ephemeral = omega (arith, at, v.ephemeral);
    }

-- A reservation that is given back.
All-at :
    (P : FreeRange → Type 0) (before : List FreeRange) (r : FreeRange) (behind : List FreeRange)
    → All P (before ++ r ∷ behind)
    → P r × All P (before ++ behind)
All-at P [] r behind h = h
All-at P (x ∷ before) r behind h =
    let (at, others) = All-at P before r behind h.1 in (at, (h.0, others))

not_ephemeral :
    (c : Container) (before : List FreeRange) (r : FreeRange) (behind : List FreeRange)
    → Inv c (before ++ r ∷ behind)
    → 0 < r.len
    → (leb c.ephemerals.start r.start && leb r.start c.ephemerals.last) ≡ false
not_ephemeral c before r behind v h =
    ground (arith, v.above r.start, count-append r.start before r behind)

pub put-Inv :
    (c : Container) (before : List FreeRange) (r : FreeRange) (behind : List FreeRange)
    → Inv c (before ++ r ∷ behind)
    → Inv (iova_put c r.start r.len) (before ++ behind)
unfolding iova_put
put-Inv c before r behind v =
    let (size, sizes) =
      All-at (λ (r : FreeRange). (0 < r.len) × (r.start + r.len < u64)) before r behind v.sizes in
    let apart =
      covers-Apart 0 r.start r.len c.free_iovas v.spaced size.0
        (λ u w. ground (arith, v.once u, count-append u before r behind, w)) in
    let a = put_free-Added r.start r.len c.free_iovas v.spaced size.0 size.1 apart in
    let same : (u : ℕ)
        → count u (before ++ behind) + one_if (covers u (put_free c.free_iovas r.start r.len))
          ≡ count u (before ++ r ∷ behind) + one_if (covers u c.free_iovas) =
      λ u. ground (
        arith,
        a.covers_lem u,
        count-append u before r behind,
        Apart-covers u r.start r.len c.free_iovas apart,
      ) in
    rw (not_ephemeral c before r behind v size.0) (record {
      bounded = v.bounded;
      next_lem = v.next_lem;
      spaced = a.spaced;
      sizes = sizes;
      once = λ u. omega (arith, same u, v.once u);
      below = λ u q. omega (arith, same u, v.below u q);
      above = λ u q. omega (arith, same u, v.above u q);
      ephemeral = v.ephemeral;
    })

-- What an ephemeral reservation changes.
pub ephemeral-Inv :
    (c : Container) (live : List FreeRange) (next n : ℕ)
    → Inv c live
    → Inv (record c { next_ephemeral = next; nephemerals = n }) live
ephemeral-Inv c live next n v = record {
  bounded = v.bounded;
  next_lem = v.next_lem;
  spaced = v.spaced;
  sizes = v.sizes;
  once = v.once;
  below = v.below;
  above = v.above;
  ephemeral = v.ephemeral;
}

pub put_ephemeral-Inv :
    (c : Container) (live : List FreeRange) → Inv c live → Inv (put_ephemeral c) live
unfolding put_ephemeral recycle_ephemerals
put_ephemeral-Inv c live v = elim (Bool-cases (c.nephemerals - 1 == 0)) [
  | inl b ↦ rw b (ephemeral-Inv c live c.ephemerals.start (c.nephemerals - 1) v)
  | inr b ↦ rw b (ephemeral-Inv c live c.next_ephemeral (c.nephemerals - 1) v)
]
