-- ===== src/Nvme/Prp.antt =====
-- src/nvme/util.c, the part that describes a data buffer by physical region pages: the chained PRP
-- lists and the functions that fill them. `prplists` is the array of 64-bit entries as a function
-- of the index. A C `int` that the code shifts or negates is an integer; sums of such values that
-- would overflow are undefined in C and are computed exactly here.
mod Tests
pub mod Spec
pub mod Entries
pub mod Cursor
pub mod Page
pub mod Single
pub mod Append
pub mod Vector
use libvfn.Base.{
  ℕ, zero, suc, ◌+◌, ◌-◌, ◌*◌, ◌/◌, ◌%◌, ◌^◌, max, Bool, true, false, not, ◌&&◌, ◌||◌, Option, none,
  some, List, [], ◌∷◌, length, update, ltb, leb, ◌==◌, if◌then◌else◌, Errno, einval, efault, Result,
  ok, err,
}
use libvfn.Support.Word.{u64, add64, sub64}
use libvfn.Support.Int.{ℤ, pos, negsuc, int32, shr_ℤ, succ_ℤ, pos_part}
use libvfn.Support.Align.{align_up, align_down, aligned}
use libvfn.Nvme.Cmd.{Cmd, Dptr}

-- `__mps_to_pageshift`
abbrev pub mps_to_pageshift : ℕ → ℕ
mps_to_pageshift mps = 12 + mps

-- `struct __prp_cursor`
pub record PrpCursor : Type 0 where
  pub prplists : ℕ → ℕ
  pub prplist_iova : ℕ
  pub nprplists : ℕ
  pub page : ℕ
  pub slot : ℕ

-- `__prp_cursor_init`
unfoldable pub prp_cursor_init : (ℕ → ℕ) → ℕ → ℕ → PrpCursor
prp_cursor_init lists iova n = record {
  prplists = lists;
  prplist_iova = iova;
  nprplists = n;
  page = 0;
  slot = 0;
}

-- `__prplist_capacity`
unfoldable pub prplist_capacity : ℕ → ℕ → ℕ
prplist_capacity nprplists max_prps = (nprplists - 1) * (max_prps - 1) + max_prps

-- The index in `prplists` of a slot of a page.
pub entry : ℕ → ℕ → ℕ → ℕ
entry pageshift page slot = page * 2 ^ (pageshift - 3) + slot

-- The two writes of `__prp_cursor_put`: the link to the next page, and the entry.
pub link : PrpCursor → ℕ → ℕ → PrpCursor
link c max_prps pageshift = record c {
  prplists =
      update c.prplists (entry pageshift c.page (max_prps - 1))
        (add64 c.prplist_iova ((c.page + 1) * 2 ^ pageshift % u64));
  page = c.page + 1;
  slot = 0;
}

pub store : PrpCursor → ℕ → ℕ → PrpCursor
store c iova pageshift = record c {
  prplists = update c.prplists (entry pageshift c.page c.slot) iova;
  slot = c.slot + 1;
}

pub needs_link : PrpCursor → ℕ → Bool → Bool
needs_link c max_prps is_last =
    (c.slot == max_prps - 1) && ltb (c.page + 1) c.nprplists && not is_last

-- `__prp_cursor_put`: the cursor after it, and whether it returned 0 (else -1 with EINVAL).
pub prp_cursor_put : PrpCursor → ℕ → ℕ → ℕ → Bool → PrpCursor × Bool
unfolding needs_link
prp_cursor_put c iova max_prps pageshift is_last =
    let c' = if needs_link c max_prps is_last then link c max_prps pageshift else c in
    if leb c'.nprplists c'.page || leb max_prps c'.slot
    then (c', false)
    else (store c' iova pageshift, true)

-- The loops of `__map_prp_first` and `__map_prp_append` over `i < prpcount`, with `rounds` of them
-- left; a failing put ends the loop.
unfoldable pub put_from : ℕ → ℕ → ℕ → ℕ → ℕ → ℕ → Bool → PrpCursor → PrpCursor × Bool
put_from zero i prpcount iova max_prps pageshift last_segment c = (c, true)
put_from (suc rounds) i prpcount iova max_prps pageshift last_segment c =
    let (c', done) =
      prp_cursor_put c (add64 iova (i * 2 ^ pageshift % u64)) max_prps pageshift
        (last_segment && (i + 1 == prpcount)) in
    let rest = put_from rounds (i + 1) prpcount iova max_prps pageshift last_segment c' in
    if done then rest else (c', false)

-- What `__map_prp_first` leaves: `*prp1`, the cursor, and the count that it returns (-1 on error).
pub record First : Type 0 where
  pub prp1 : ℕ
  pub cursor : PrpCursor
  pub count : ℤ

-- `len` once the part that the first PRP covers is taken off.
unfoldable pub residual : ℕ → ℕ → ℕ → ℕ
residual iova len pagesize = len - (pagesize - iova % pagesize)

-- `1 + ((int)ALIGN_UP(len, pagesize) >> pageshift)`, or 1 where nothing is left.
unfoldable pub prp_count : ℕ → ℕ → ℤ
prp_count len pageshift =
    if len == 0 then pos 1 else succ_ℤ (shr_ℤ (int32 (align_up len (2 ^ pageshift))) pageshift)

-- The address that the loop counts from.
unfoldable pub list_base : ℕ → ℕ → ℤ → ℕ
list_base iova pagesize prpcount =
    if ltb 1 (pos_part prpcount) && not (aligned iova pagesize)
    then align_down iova pagesize
    else iova

abbrev pub first_failed : ℕ → PrpCursor → First
first_failed iova c = record { prp1 = iova; cursor = c; count = negsuc 0 }

-- `__map_prp_first`
unfoldable pub map_prp_first : PrpCursor → ℕ → ℕ → ℕ → Bool → First
map_prp_first c iova len pageshift last_segment =
    let pagesize = 2 ^ pageshift in
    let max_prps = 2 ^ (pageshift - 3) in
    let prpcount = prp_count (residual iova len pagesize) pageshift in
    let n = pos_part prpcount in
    let (c', done) =
      put_from (n - 1) 1 n (list_base iova pagesize prpcount) max_prps pageshift last_segment c in
    if ltb (prplist_capacity c.nprplists max_prps) (n - 1)
    then first_failed iova c
    else if done
    then record { prp1 = iova; cursor = c'; count = prpcount }
    else first_failed iova c'

-- `max_t(int, 1, (int)len >> pageshift)`
pub append_count : ℕ → ℕ → ℕ
append_count len pageshift = max 1 (pos_part (shr_ℤ (int32 len) pageshift))

-- `__map_prp_append`: the cursor, and the count that it returns; `none` for -1.
pub map_prp_append : PrpCursor → ℕ → ℕ → ℕ → ℕ → Bool → PrpCursor × Option ℕ
unfolding append_count
map_prp_append c iova len max_prps pageshift last_segment =
    let prpcount = append_count len pageshift in
    let (c', done) = put_from prpcount 0 prpcount iova max_prps pageshift last_segment c in
    if not (aligned iova (2 ^ pageshift))
    then (c, none)
    else if done
    then (c', some prpcount)
    else (c', none)

-- `__set_prp2`: the new `*prp2`.
unfoldable pub set_prp2 : ℕ → (ℕ → ℕ) → ℤ → ℕ
set_prp2 prplist_iova prplist (pos (suc (suc zero))) = prplist 0
set_prp2 prplist_iova prplist (pos (suc (suc (suc n)))) = prplist_iova
set_prp2 prplist_iova prplist _ = 0

-- What a mapping call leaves: the command, the PRP list pages, and its outcome.
pub record Mapped : Type 0 where
  pub cmd : Cmd
  pub prplists : ℕ → ℕ
  pub result : Result (Unit {0})

abbrev pub with_prp1 : Cmd → ℕ → Cmd
with_prp1 cmd v = record cmd { dptr = record { prp1 = v; prp2 = cmd.dptr.prp2 } }

abbrev pub with_prp2 : Cmd → ℕ → Cmd
with_prp2 cmd v = record cmd { dptr = record { prp1 = cmd.dptr.prp1; prp2 = v } }

-- The end of the three PRP functions: `*prp1`, and by the count `*prp2` or EINVAL.
unfoldable pub finish_prp : Cmd → ℕ → ℕ → (ℕ → ℕ) → ℤ → Mapped
finish_prp cmd prplist_iova prp1 lists (negsuc _) = record {
  cmd = with_prp1 cmd prp1;
  prplists = lists;
  result = err einval;
}
finish_prp cmd prplist_iova prp1 lists (pos n) = record {
  cmd = with_prp2 (with_prp1 cmd prp1) (set_prp2 prplist_iova lists (pos n));
  prplists = lists;
  result = ok tt;
}

-- `nvme_map_prp`, with `translate` for `iommu_translate_vaddr` on the controller's context and
-- `lists` for the contents of the pages at `prplists`.
unfoldable pub map_prp : ℕ → (ℕ → Option ℕ) → ℕ → (ℕ → ℕ) → ℕ → Cmd → ℕ → ℕ → Mapped
unfolding finish_prp
map_prp mps translate prplists lists nprplists cmd iova len =
    if ltb nprplists 1
    then record { cmd = cmd; prplists = lists; result = err einval }
    else elim (translate prplists) [
      | none ↦ record { cmd = cmd; prplists = lists; result = err efault }
      | some prplist_iova ↦
          let f =
            map_prp_first (prp_cursor_init lists prplist_iova nprplists) iova len
              (mps_to_pageshift mps) true in
          finish_prp cmd prplist_iova f.prp1 f.cursor.prplists f.count
    ]
