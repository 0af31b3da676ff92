-- ===== src/Iommu/Reserve.antt =====
-- The allocator of I/O virtual addresses in src/iommu/vfio.c: the usable ranges, taken from the
-- front, and the list of ranges that were given back, which is the list of its nodes in the order
-- of level 0 of the skip list. Addresses and lengths are 64-bit words.
mod Tests
pub mod Bump
pub mod Bytes
pub mod FreeList
pub mod BestFit
pub mod Live
pub mod Run
use libvfn.Base.{
  ℕ, zero, suc, ◌+◌, ◌-◌, ◌*◌, ◌/◌, ◌%◌, ◌^◌, Bool, true, false, not, ◌&&◌, ◌||◌, Option, none,
  some, List, [], ◌∷◌, ltb, leb, ◌==◌, if◌then◌else◌, max, einval, enomem, Result, ok, err,
}
use libvfn.Support.Word.{u64, add64, sub64}
use libvfn.Support.Align.{align_up, aligned}
use libvfn.Iommu.Dma.{is_ephemeral}

-- `struct iommu_iova_range`
pub record Range : Type 0 where
  pub start : ℕ
  pub last : ℕ

-- `struct vfio_iova_free_range`
pub record FreeRange : Type 0 where
  pub start : ℕ
  pub len : ℕ

-- `__iova_reserve`: the address, and what it leaves in `*next`.
unfoldable pub bump : List Range → ℕ → ℕ → Option (ℕ × ℕ)
bump [] next len = none
bump (r ∷ rs) next len =
    let next' = max next r.start in
    let skip = bump rs next len in
    let on = bump rs next' len in
    if ltb r.last next
    then skip
    else if ltb r.last next' || ltb (add64 (sub64 r.last next') 1) len
    then on
    else some (next', add64 next' len)

-- `__iova_reserve_align`
pub bump_align : List Range → ℕ → ℕ → ℕ → Option (ℕ × ℕ)
bump_align [] next len align = none
bump_align (r ∷ rs) next len align =
    let next' = max next r.start in
    let start = align_up next' align in
    let skip = bump_align rs next len align in
    let on = bump_align rs next' len align in
    if ltb r.last next
    then skip
    else if ltb start next' || ltb r.last start || ltb (add64 (sub64 r.last start) 1) len
    then on
    else some (start, add64 start len)

-- `__iova_get_free_range` from a node on, with the best fit so far and its size.
pub best_fit : List FreeRange → ℕ → Option FreeRange → ℕ → Option FreeRange
best_fit [] len best size = best
best_fit (r ∷ rs) len best size =
    let better = best_fit rs len (some r) r.len in
    let rest = best_fit rs len best size in
    if leb len r.len && ltb r.len size then (if r.len == len then some r else better) else rest

abbrev pub size_max : ℕ
size_max = 2 ^ 64 - 1

-- `__iova_get_free_range`
pub get_free_range : List FreeRange → ℕ → Option FreeRange
unfolding best_fit
get_free_range free len = best_fit free len none size_max

-- The range with a start, taken out, as `skiplist_find` and `skiplist_erase` do.
pub drop_range : List FreeRange → ℕ → List FreeRange
drop_range [] start = []
drop_range (r ∷ rs) start = if r.start == start then rs else r ∷ drop_range rs start

-- The range with a start, with the first `len` bytes cut off.
pub cut_range : List FreeRange → ℕ → ℕ → List FreeRange
cut_range [] start len = []
cut_range (r ∷ rs) start len =
    if r.start == start
    then record { start = add64 r.start len; len = sub64 r.len len } ∷ rs
    else r ∷ cut_range rs start len

-- `__iova_get_free`
pub get_free : List FreeRange → ℕ → List FreeRange × Option ℕ
unfolding get_free_range drop_range cut_range
get_free free len = elim (get_free_range free len) [
  | none ↦ (free, none)
  | some r ↦
      (if r.len == len then drop_range free r.start else cut_range free r.start len, some r.start)
]

-- The end of `__iova_put_free`, with the nodes from `find_ge` on: the range is joined to the first
-- of them, or put in before it.
pub put_before : List FreeRange → ℕ → ℕ → List FreeRange
put_before [] start len = record { start = start; len = len } ∷ []
put_before (n ∷ ns) start len =
    if add64 start len == n.start
    then record { start = start; len = add64 n.len len } ∷ ns
    else record { start = start; len = len } ∷ n ∷ ns

-- Its branch for a range that begins at the end of the one before it: that is made longer, and
-- joined to the next if it now meets it.
pub extend_prev : FreeRange → List FreeRange → ℕ → List FreeRange
extend_prev p [] len = record p { len = add64 p.len len } ∷ []
extend_prev p (n ∷ ns) len =
    let joined = add64 p.len len in
    if add64 p.start joined == n.start
    then record p { len = add64 joined n.len } ∷ ns
    else record p { len = joined } ∷ n ∷ ns

-- `__iova_put_free` with the node that `find_le` has found. The node that `find_ge` finds is the
-- same where its start is that of the range, and the next one otherwise.
pub put_at : FreeRange → List FreeRange → ℕ → ℕ → List FreeRange
unfolding put_before extend_prev
put_at p ns start len =
    if add64 p.start p.len == start
    then extend_prev p ns len
    else if p.start == start
    then put_before (p ∷ ns) start len
    else p ∷ put_before ns start len

-- `__iova_put_free` from a node with a start of at most that of the range on.
pub put_behind : FreeRange → List FreeRange → ℕ → ℕ → List FreeRange
unfolding put_at
put_behind p [] start len = put_at p [] start len
put_behind p (n ∷ ns) start len =
    let rest = put_behind n ns start len in
    if leb n.start start then p ∷ rest else put_at p (n ∷ ns) start len

-- `__iova_put_free`
pub put_free : List FreeRange → ℕ → ℕ → List FreeRange
unfolding put_behind put_before
put_free [] start len = put_before [] start len
put_free (n ∷ ns) start len =
    if leb n.start start then put_behind n ns start len else put_before (n ∷ ns) start len

-- The best fit of `__iova_get_free_align`: the node, the aligned address in it and the bytes there.
pub record AlignFit : Type 0 where
  pub range : FreeRange
  pub start : ℕ
  pub avail : ℕ

pub best_fit_align : List FreeRange → ℕ → ℕ → Option AlignFit → ℕ → Option AlignFit
best_fit_align [] len align best size = best
best_fit_align (r ∷ rs) len align best size =
    let start = align_up r.start align in
    let pad = sub64 start r.start in
    let avail = sub64 r.len pad in
    let fit : AlignFit = record { range = r; start = start; avail = avail } in
    let better = best_fit_align rs len align (some fit) avail in
    let rest = best_fit_align rs len align best size in
    if ltb start r.start || leb r.len pad || ltb avail len
    then rest
    else if ltb avail size
    then (if avail == len then some fit else better)
    else rest

-- `__iova_get_free_align`
pub get_free_align : List FreeRange → ℕ → ℕ → List FreeRange × Option ℕ
unfolding best_fit_align drop_range put_free
get_free_align free len align = elim (best_fit_align free len align none size_max) [
  | none ↦ (free, none)
  | some f ↦
      let end = add64 f.range.start f.range.len in
      let pad = sub64 f.start f.range.start in
      let stop = add64 f.start len in
      let less = drop_range free f.range.start in
      let padded = if pad == 0 then less else put_free less f.range.start pad in
      (if ltb stop end then put_free padded stop (sub64 end stop) else padded, some f.start)
]

-- The members of `struct vfio_container` that the allocator uses; `ranges` is `ctx->iova_ranges`.
pub record Container : Type 0 where
  pub ranges : List Range
  pub next : ℕ
  pub ephemerals : Range
  pub next_ephemeral : ℕ
  pub nephemerals : ℕ
  pub free_iovas : List FreeRange

-- `vfio_iommu_type1_iova_reserve`, with `__VFN_PAGESIZE`
unfoldable pub iova_reserve : ℕ → Container → ℕ → ℕ → Container × Result ℕ
unfolding bump get_free
iova_reserve pagesize c len flags =
    if not (aligned len pagesize)
    then (c, err einval)
    else if is_ephemeral flags
    then elim (bump (c.ephemerals ∷ []) c.next_ephemeral len) [
      | none ↦ (c, err enomem)
      | some (iova, next) ↦
          (record c { next_ephemeral = next; nephemerals = c.nephemerals + 1 }, ok iova)
    ]
    else let (free, got) = get_free c.free_iovas len in
      elim got [
        | some iova ↦ (record c { free_iovas = free }, ok iova)
        | none ↦ elim (bump c.ranges c.next len) [
          | none ↦ (c, err enomem)
          | some (iova, next) ↦ (record c { next = next }, ok iova)
        ]
      ]

-- `vfio_iommu_type1_iova_reserve_align`
pub iova_reserve_align : ℕ → Container → ℕ → ℕ → ℕ → Container × Result ℕ
unfolding bump_align get_free_align
iova_reserve_align pagesize c len align flags =
    if not (aligned len pagesize)
    then (c, err einval)
    else if (align == 0) || not (aligned align pagesize)
    then (c, err einval)
    else let (free, got) = get_free_align c.free_iovas len align in
      elim got [
        | some iova ↦ (record c { free_iovas = free }, ok iova)
        | none ↦ elim (bump_align c.ranges c.next len align) [
          | none ↦ (c, err enomem)
          | some (iova, next) ↦ (record c { next = next }, ok iova)
        ]
      ]

-- `vfio_iova_put`
pub iova_put : Container → ℕ → ℕ → Container
unfolding put_free
iova_put c iova len =
    if leb c.ephemerals.start iova && leb iova c.ephemerals.last
    then c
    else record c { free_iovas = put_free c.free_iovas iova len }

-- `vfio_iommu_type1_recycle_ephemeral_iovas`
pub recycle_ephemerals : Container → Container
recycle_ephemerals c = record c { next_ephemeral = c.ephemerals.start }

-- `vfio_iommu_type1_iova_put_ephemeral`, for a counter above 0
pub put_ephemeral : Container → Container
unfolding recycle_ephemerals
put_ephemeral c =
    let c' = record c { nephemerals = c.nephemerals - 1 } in
    if c.nephemerals - 1 == 0 then recycle_ephemerals c' else c'
