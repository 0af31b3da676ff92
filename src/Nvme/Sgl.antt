-- ===== src/Nvme/Sgl.antt =====
-- src/nvme/util.c, the part that describes a data buffer by scatter/gather lists. `seg` is the
-- array of descriptors of the segment as a function of the index.
mod Tests
pub mod Laws
use Prim.Native.Nat.{bit_and, bit_or}
use libvfn.Base.{
  ℕ, zero, suc, ◌+◌, ◌-◌, ◌*◌, ◌%◌, ◌^◌, Bool, true, false, not, ◌&&◌, Option, none, some, List, [],
  ◌∷◌, length, update, ltb, ◌==◌, if◌then◌else◌, Errno, einval, efault, Result, ok, err,
}
use libvfn.Nvme.Cmd.{Cmd, Dptr, Sgld, sgl_of, dptr_of}
use libvfn.Nvme.Prp.{mps_to_pageshift}
use libvfn.Nvme.Prp.Vector.{IovaVec, Iovec, is_empty}

-- `__sgl_data`: a data block descriptor; the reserved bytes stay.
pub sgl_data : Sgld → ℕ → ℕ → Sgld
sgl_data d iova len = record d { addr = iova; len = len % 2 ^ 32; type = 0 * 2 ^ 4 }

-- `__sgl_segment`: a last-segment descriptor over `n` descriptors of 16 bytes.
pub sgl_segment : Sgld → ℕ → ℕ → Sgld
sgl_segment d iova n = record d { addr = iova; len = n * 2 ^ 4 % 2 ^ 32; type = 3 * 2 ^ 4 }

-- NVME_FIELD_SET(NVME_CMD_FLAGS_PSDT_SGL_MPTR_CONTIG, CMD_FLAGS_PSDT)
abbrev pub psdt_sgl : ℕ
psdt_sgl = 2 ^ 6

-- What a call leaves: the command, the segment and the outcome.
pub record SglMapped : Type 0 where
  pub cmd : Cmd
  pub seg : ℕ → Sgld
  pub result : Result (Unit {0})

abbrev pub with_sgl : Cmd → Sgld → Cmd
with_sgl cmd d = record cmd { dptr = dptr_of d }

-- The loop of `nvme_mapv_iova_sgl` from element `i` on: the segment, and whether it ended well.
pub fill_iova : Bool → ℕ → List IovaVec → (ℕ → Sgld) → (ℕ → Sgld) × Result (Unit {0})
fill_iova dword_align i [] seg = (seg, ok tt)
fill_iova dword_align i (v ∷ vs) seg =
    let rest = fill_iova dword_align (i + 1) vs (update seg i (sgl_data (seg i) v.iova v.len)) in
    if dword_align && not (bit_and v.iova 3 == 0) then (seg, err einval) else rest

-- The loop of `nvme_mapv_sgl`, which translates each element.
pub fill_vaddr :
    (ℕ → Option ℕ) → Bool → ℕ → List Iovec → (ℕ → Sgld) → (ℕ → Sgld) × Result (Unit {0})
fill_vaddr translate dword_align i [] seg = (seg, ok tt)
fill_vaddr translate dword_align i (v ∷ vs) seg = elim (translate v.iov_base) [
  | none ↦ (seg, err efault)
  | some iova ↦
      let rest =
        fill_vaddr translate dword_align (i + 1) vs
          (update seg i (sgl_data (seg i) iova v.iov_len)) in
      if dword_align && not (bit_and iova 3 == 0) then (seg, err einval) else rest
]

-- The end of the two functions: the flags of the command are set only after the whole loop.
pub finish_sgl : Cmd → (ℕ → Sgld) × Result (Unit {0}) → SglMapped
finish_sgl cmd (seg, err e) = record { cmd = cmd; seg = seg; result = err e }
finish_sgl cmd (seg, ok _) = record {
  cmd = record cmd { flags = bit_or cmd.flags psdt_sgl };
  seg = seg;
  result = ok tt;
}

-- `nvme_mapv_iova_sgl` on the elements `v ∷ vs`
pub mapv_iova_sgl : ℕ → Bool → (ℕ → Sgld) → ℕ → Cmd → IovaVec → List IovaVec → SglMapped
unfolding finish_sgl sgl_data sgl_segment
mapv_iova_sgl mps dword_align seg seg_iova cmd v vs =
    let d = sgl_of cmd.dptr in
    let niov = suc (length vs) in
    if is_empty vs
    then record { cmd = with_sgl cmd (sgl_data d v.iova v.len); seg = seg; result = ok tt }
    else if ltb (2 ^ (mps_to_pageshift mps - 4)) niov
    then record { cmd = cmd; seg = seg; result = err einval }
    else finish_sgl (with_sgl cmd (sgl_segment d seg_iova niov))
        (fill_iova dword_align 0 (v ∷ vs) seg)

-- `nvme_mapv_sgl`
pub mapv_sgl : ℕ → Bool → (ℕ → Option ℕ) → (ℕ → Sgld) → ℕ → Cmd → Iovec → List Iovec → SglMapped
unfolding finish_sgl sgl_data sgl_segment
mapv_sgl mps dword_align translate seg seg_iova cmd v vs =
    let d = sgl_of cmd.dptr in
    let niov = suc (length vs) in
    let single : SglMapped = elim (translate v.iov_base) [
      | none ↦ record { cmd = cmd; seg = seg; result = err efault }
      | some iova ↦ record {
        cmd = with_sgl cmd (sgl_data d iova v.iov_len);
        seg = seg;
        result = ok tt;
      }
    ] in
    if is_empty vs
    then single
    else if ltb (2 ^ (mps_to_pageshift mps - 4)) niov
    then record { cmd = cmd; seg = seg; result = err einval }
    else finish_sgl (with_sgl cmd (sgl_segment d seg_iova niov))
        (fill_vaddr translate dword_align 0 (v ∷ vs) seg)
