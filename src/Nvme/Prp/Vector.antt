-- ===== src/Nvme/Prp/Vector.antt =====
-- src/nvme/util.c: the functions that describe a vector of buffers by physical region pages.
use libvfn.Base.{
  ℕ, ◌+◌, ◌-◌, ◌^◌, Bool, true, false, not, ◌&&◌, ◌||◌, Option, none, some, List, [], ◌∷◌, ltb,
  ◌==◌, if◌then◌else◌, Errno, einval, efault, Result, ok, err,
}
use libvfn.Support.Word.{add64}
use libvfn.Support.Int.{pos, negsuc}
use libvfn.Support.Align.{aligned}
use libvfn.Nvme.Cmd.{Cmd}
use libvfn.Nvme.Prp.{
  mps_to_pageshift, PrpCursor, prp_cursor_init, First, map_prp_first, map_prp_append, set_prp2,
  Mapped, with_prp1, with_prp2,
}

-- `struct iova_vec` and `struct iovec`. The vector of a call is its first element and the others.
pub record IovaVec : Type 0 where
  pub iova : ℕ
  pub len : ℕ

pub record Iovec : Type 0 where
  pub iov_base : ℕ
  pub iov_len : ℕ

abbrev pub is_empty {ℓ} : {A : Type ℓ} → List A → Bool
is_empty [] = true
is_empty (x ∷ xs) = false

-- The loop of `nvme_mapv_iova_prp` over the elements after the first: the cursor, and the number
-- of entries with those that it has put.
pub append_iova : ℕ → List IovaVec → PrpCursor → ℕ → PrpCursor × Result ℕ
append_iova s [] c prpcount = (c, ok prpcount)
append_iova s (v ∷ vs) c prpcount =
    let (c', ret) = map_prp_append c v.iova v.len (2 ^ (s - 3)) s (is_empty vs) in
    let rest : PrpCursor × Result ℕ = elim ret [
      | none ↦ (c', err einval)
      | some n ↦ append_iova s vs c' (prpcount + n)
    ] in
    if not (is_empty vs) && not (aligned v.len (2 ^ s)) then (c, err einval) else rest

-- The loop of `nvme_mapv_prp`, which translates each element first.
pub append_vaddr : (ℕ → Option ℕ) → ℕ → List Iovec → PrpCursor → ℕ → PrpCursor × Result ℕ
append_vaddr translate s [] c prpcount = (c, ok prpcount)
append_vaddr translate s (v ∷ vs) c prpcount = elim (translate v.iov_base) [
  | none ↦ (c, err efault)
  | some iova ↦
      let (c', ret) = map_prp_append c iova v.iov_len (2 ^ (s - 3)) s (is_empty vs) in
      let rest : PrpCursor × Result ℕ = elim ret [
        | none ↦ (c', err einval)
        | some n ↦ append_vaddr translate s vs c' (prpcount + n)
      ] in
      if not (is_empty vs) && not (aligned v.iov_len (2 ^ s)) then (c, err einval) else rest
]

-- The check between the first element and the others: one entry, one element, or an end on a page.
pub first_allowed : ℕ → Bool → ℕ → ℕ → Bool
first_allowed prpcount single last pagesize = (prpcount == 1) || single || aligned last pagesize

-- The end of the two functions: EINVAL or EFAULT after `*prp1`, or `*prp2` as well.
pub finish_mapv : Cmd → ℕ → ℕ → PrpCursor × Result ℕ → Mapped
finish_mapv cmd prplist_iova prp1 (c, err e) = record {
  cmd = with_prp1 cmd prp1;
  prplists = c.prplists;
  result = err e;
}
finish_mapv cmd prplist_iova prp1 (c, ok prpcount) = record {
  cmd = with_prp2 (with_prp1 cmd prp1) (set_prp2 prplist_iova c.prplists (pos prpcount));
  prplists = c.prplists;
  result = ok tt;
}

-- What the two functions do with the first element, and with the others by `append`.
pub mapv_from :
    ℕ
    → ℕ
    → ℕ
    → Bool
    → PrpCursor
    → (PrpCursor → ℕ → PrpCursor × Result ℕ)
    → First × (PrpCursor × Result ℕ)
mapv_from s iova len single c append =
    let f = map_prp_first c iova len s single in
    (
      f,
      elim f.count [
        | negsuc _ ↦ (f.cursor, err einval)
        | pos n ↦
            let rest = append f.cursor n in
            if first_allowed n single (add64 iova len) (2 ^ s) then rest else (f.cursor, err einval)
      ],
    )

-- `nvme_mapv_iova_prp`
pub mapv_iova_prp : ℕ → (ℕ → Option ℕ) → ℕ → (ℕ → ℕ) → ℕ → Cmd → IovaVec → List IovaVec → Mapped
unfolding mapv_from first_allowed finish_mapv
mapv_iova_prp mps translate prplists lists nprplists cmd v vs =
    let s = mps_to_pageshift mps in
    if ltb nprplists 1
    then record { cmd = cmd; prplists = lists; result = err einval }
    else elim (translate prplists) [
      | none ↦ record { cmd = cmd; prplists = lists; result = err efault }
      | some prplist_iova ↦
          let (f, out) =
            mapv_from s v.iova v.len (is_empty vs) (prp_cursor_init lists prplist_iova nprplists)
              (append_iova s vs) in
          finish_mapv cmd prplist_iova f.prp1 out
    ]

-- `nvme_mapv_prp`
pub mapv_prp : ℕ → (ℕ → Option ℕ) → ℕ → (ℕ → ℕ) → ℕ → Cmd → Iovec → List Iovec → Mapped
unfolding mapv_from first_allowed finish_mapv
mapv_prp mps translate prplists lists nprplists cmd v vs =
    let s = mps_to_pageshift mps in
    let failed =
      λ (e : Errno). let m : Mapped = record { cmd = cmd; prplists = lists; result = err e } in m in
    if ltb nprplists 1 then failed einval else elim (translate v.iov_base) [
      | none ↦ failed efault
      | some iova ↦ elim (translate prplists) [
        | none ↦ failed efault
        | some prplist_iova ↦
            let (f, out) =
              mapv_from s iova v.iov_len (is_empty vs)
                (prp_cursor_init lists prplist_iova nprplists) (append_vaddr translate s vs) in
            finish_mapv cmd prplist_iova f.prp1 out
      ]
    ]
