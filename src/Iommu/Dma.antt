-- ===== src/Iommu/Dma.antt =====
-- src/iommu/dma.c: the map of a context and the calls that map and unmap memory. The map is the
-- list of its mappings in the order of level 0 of its skip list; `Util.Skiplist` shows what the
-- operations of a skip list do to that level. Addresses are below 2^64, and no mapping goes round
-- the end of the address space.
mod Tests
pub mod Places
pub mod Map
pub mod Remove
pub mod Translate
pub mod Unmap
pub mod Reverse
pub mod Errors
pub mod Undo
pub mod Keep
use Prim.Native.Nat.{Ordering, compare}
use libvfn.Base.{
  ℕ, zero, suc, ◌+◌, ◌-◌, ◌*◌, ◌/◌, ◌%◌, ◌^◌, Bool, true, false, ◌&&◌, ◌||◌, Option, none, some,
  List, [], ◌∷◌, ltb, leb, ◌==◌, if◌then◌else◌, min, Errno, einval, eexist, enoent, enomem,
  eopnotsupp, Result, ok, err,
}
use libvfn.Support.Align.{align_up}

-- `struct iova_mapping`
pub record Mapping : Type 0 where
  pub vaddr : ℕ
  pub len : ℕ
  pub iova : ℕ
  pub flags : ℕ

-- `iova_cmp`
unfoldable pub iova_cmp : ℕ → Mapping → Ordering
iova_cmp vaddr m =
    if ltb vaddr m.vaddr
    then Ordering.lt
    else if leb (m.vaddr + m.len) vaddr
    then Ordering.gt
    else Ordering.eq

-- `skiplist_find` on level 0: the first mapping that the key is not larger than, if it is equal to
-- it.
unfoldable pub find : ℕ → List Mapping → Option Mapping
unfolding iova_cmp
find vaddr [] = none
find vaddr (m ∷ ms) = elim (iova_cmp vaddr m) [
  | Ordering.gt ↦ find vaddr ms
  | Ordering.eq ↦ some m
  | Ordering.lt ↦ none
]

-- `skiplist_link` on level 0, with the path of that search.
unfoldable pub link : ℕ → Mapping → List Mapping → List Mapping
unfolding iova_cmp
link vaddr n [] = n ∷ []
link vaddr n (m ∷ ms) = elim (iova_cmp vaddr m) [
  | Ordering.gt ↦ m ∷ link vaddr n ms
  | _ ↦ n ∷ m ∷ ms
]

-- `skiplist_erase` on level 0, with the path of that search, for the mapping that it has found.
pub erase : ℕ → List Mapping → List Mapping
unfolding iova_cmp
erase vaddr [] = []
erase vaddr (m ∷ ms) = elim (iova_cmp vaddr m) [ Ordering.gt ↦ m ∷ erase vaddr ms | _ ↦ ms ]

-- `iova_map_add`
unfoldable pub iova_map_add : List Mapping → ℕ → ℕ → ℕ → ℕ → List Mapping × Result {0} Unit
unfolding find link
iova_map_add map vaddr len iova flags =
    if len == 0 then (map, err einval) else elim (find vaddr map) [
      | some m ↦ (map, err eexist)
      | none ↦
          (link vaddr (record { vaddr = vaddr; len = len; iova = iova; flags = flags }) map, ok tt)
    ]

-- `iova_map_remove`
pub iova_map_remove : List Mapping → ℕ → List Mapping
unfolding find erase
iova_map_remove map vaddr = elim (find vaddr map) [ none ↦ map | some m ↦ erase vaddr map ]

-- `iova_map_find`
unfoldable pub iova_map_find : List Mapping → ℕ → Option Mapping
unfolding find
iova_map_find map vaddr = find vaddr map

-- `flags & IOMMU_MAP_FIXED_IOVA` and `flags & IOMMU_MAP_EPHEMERAL`
abbrev pub is_fixed : ℕ → Bool
is_fixed flags = flags % 2 == 1

abbrev pub is_ephemeral : ℕ → Bool
is_ephemeral flags = flags / 2 % 2 == 1

-- The backend behind `struct iommu_ctx_ops`: its state, which the calls change, and the calls,
-- those in `Option` where the pointer may be NULL.
pub record Backend : Type 1 where
  pub State : Type 0
  pub iova_reserve : Option (State → ℕ → ℕ → State × Result ℕ)
  pub iova_reserve_align : Option (State → ℕ → ℕ → ℕ → State × Result ℕ)
  pub iova_put_ephemeral : Option (State → State)
  pub dma_map : State → ℕ → ℕ → ℕ → ℕ → State × Result ℕ
  pub dma_unmap : State → ℕ → ℕ → State × Result {0} Unit
  pub dma_unmap_all : Option (State → State × Result {0} Unit)

module _ (backend : Backend) where
  open backend use {State}

  -- `struct iommu_ctx`
  pub record Ctx : Type 0 where
    pub map : List Mapping
    pub state : State
    pub iova_max : ℕ
    pub iova_next_same : ℕ

  -- `iommu_translate_vaddr`
  unfoldable pub translate_vaddr : Ctx → ℕ → Option ℕ
  unfolding iova_map_find
  translate_vaddr ctx vaddr = elim (iova_map_find ctx.map vaddr) [
    | none ↦ none
    | some m ↦ some (m.iova + (vaddr - m.vaddr))
  ]

  -- From the call of `dma_map` on, in both of the next.
  unfoldable pub dma_map_add : Ctx → ℕ → ℕ → ℕ → ℕ → Ctx × Result ℕ
  unfolding iova_map_add
  dma_map_add ctx vaddr len iova flags =
      let (state, ret) = backend.dma_map ctx.state vaddr len iova flags in
      elim ret [
        | err e ↦ (record ctx { state = state }, err e)
        | ok iova' ↦
            let (map, ret') = iova_map_add ctx.map vaddr len iova' flags in
            elim ret' [
              | err e ↦ (record ctx { state = state; map = map }, err e)
              | ok _ ↦ (record ctx { state = state; map = map }, ok iova')
            ]
      ]

  -- `iommu_map_vaddr`; `iova` is what the pointer of that name points to.
  unfoldable pub map_vaddr : Ctx → ℕ → ℕ → ℕ → ℕ → Ctx × Result ℕ
  unfolding translate_vaddr dma_map_add
  map_vaddr ctx vaddr len iova flags = elim (translate_vaddr ctx vaddr) [
    | some found ↦ (ctx, ok found)
    | none ↦
        if is_fixed flags then dma_map_add ctx vaddr len iova flags else elim backend.iova_reserve [
          | none ↦ dma_map_add ctx vaddr len 0 flags
          | some reserve ↦
              let (state, ret) = reserve ctx.state len flags in
              elim ret [
                | err e ↦ (record ctx { state = state }, err e)
                | ok iova' ↦ dma_map_add (record ctx { state = state }) vaddr len iova' flags
              ]
        ]
  ]

  -- `iommu_map_vaddr_align`
  pub map_vaddr_align : Ctx → ℕ → ℕ → ℕ → ℕ → Ctx × Result ℕ
  unfolding translate_vaddr dma_map_add
  map_vaddr_align ctx vaddr len align flags =
      if is_fixed flags then (ctx, err einval) else elim (translate_vaddr ctx vaddr) [
        | some found ↦ (ctx, ok found)
        | none ↦ elim backend.iova_reserve_align [
          | none ↦ (ctx, err eopnotsupp)
          | some reserve ↦
              let (state, ret) = reserve ctx.state len align flags in
              elim ret [
                | err e ↦ (record ctx { state = state }, err e)
                | ok iova' ↦ dma_map_add (record ctx { state = state }) vaddr len iova' flags
              ]
        ]
      ]

  abbrev put_ephemeral : ℕ → State → State
  put_ephemeral flags state = elim backend.iova_put_ephemeral [
    | none ↦ state
    | some put ↦ if is_ephemeral flags then put state else state
  ]

  -- `iommu_unmap_vaddr`: the length of the mapping.
  pub unmap_vaddr : Ctx → ℕ → Ctx × Result ℕ
  unfolding iova_map_find iova_map_remove
  unmap_vaddr ctx vaddr = elim (iova_map_find ctx.map vaddr) [
    | none ↦ (ctx, err enoent)
    | some m ↦
        let (state, ret) = backend.dma_unmap ctx.state m.iova m.len in
        elim ret [
          | err e ↦ (record ctx { state = state }, err e)
          | ok _ ↦ (
            record ctx {
              state = put_ephemeral m.flags state;
              map = iova_map_remove ctx.map m.vaddr;
            },
            ok m.len,
          )
        ]
  ]

  -- `__unmap_mapping` for each mapping; `none` where `log_fatal_if` ends the program.
  pub unmap_mappings : State → List Mapping → Option State
  unmap_mappings state [] = some state
  unmap_mappings state (m ∷ ms) =
      let (state', ret) = backend.dma_unmap state m.iova m.len in
      elim ret [ err e ↦ none | ok _ ↦ unmap_mappings state' ms ]

  -- `iommu_unmap_all`
  pub unmap_all : Ctx → Option (Ctx × Result {0} Unit)
  unfolding unmap_mappings
  unmap_all ctx = elim backend.dma_unmap_all [
    | some all ↦
        let (state, ret) = all ctx.state in
        elim ret [
          | err e ↦ some (record ctx { state = state }, err e)
          | ok _ ↦ some (record ctx { state = state; map = [] }, ok tt)
        ]
    | none ↦ elim (unmap_mappings ctx.state ctx.map) [
      | none ↦ none
      | some state ↦ some (record ctx { state = state; map = [] }, ok tt)
    ]
  ]

-- The loop of `iommu_translate_iova`.
pub first_holding : List Mapping → ℕ → Result (ℕ × ℕ)
first_holding [] iova = err einval
first_holding (m ∷ ms) iova =
    if leb m.iova iova && ltb iova (m.iova + m.len)
    then ok (m.vaddr + (iova - m.iova), m.len - (iova - m.iova))
    else first_holding ms iova

-- `iommu_translate_iova`: the virtual address, and the bytes that are left of the mapping. The loop
-- meets the sentinel first and takes it for a mapping, too: `front` is what it reads there, which
-- are the bytes of the lock in front of the list.
pub translate_iova : Mapping → List Mapping → ℕ → Result (ℕ × ℕ)
unfolding first_holding
translate_iova front map iova = first_holding (front ∷ map) iova
