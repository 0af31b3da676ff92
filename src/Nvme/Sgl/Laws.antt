-- ===== src/Nvme/Sgl/Laws.antt =====
-- What the SGL functions of src/nvme/util.c leave in the command and in the segment.
use Prim.Native.Nat.{bit_and, bit_or}
use libvfn.Base.{
  ℕ, zero, suc, ◌+◌, ◌-◌, ◌*◌, ◌%◌, ◌^◌, ◌≤◌, ◌<◌, ◌≡◌, refl, sym, ap, ap₂, subst, ◌∙◌, Bool, true,
  false, not, ◌&&◌, List, [], ◌∷◌, map, arith, length, update, update_self, update_ne, le→ltb,
  lt→ltb, Bool-cases, inl, inr, Result, ok, err, einval, ◌==◌, ◌⊎◌,
}
use libvfn.Support.Bits.{bit_and-low}
use libvfn.Nvme.Cmd.{Cmd, Dptr, Sgld, sgl_of, dptr_of}
use libvfn.Nvme.Prp.{mps_to_pageshift}
use libvfn.Nvme.Prp.Vector.{IovaVec}
use libvfn.Nvme.Sgl.{
  sgl_data, sgl_segment, fill_iova, finish_sgl, mapv_iova_sgl, psdt_sgl, with_sgl,
}

-- The fields of a descriptor that a controller reads: address, length and type.
abbrev pub fields : Sgld → ℕ × ℕ × ℕ
fields d = (d.addr, d.len, d.type)

-- The descriptors of a segment, from an index on.
pub descriptors : (ℕ → Sgld) → ℕ → ℕ → List (ℕ × ℕ × ℕ)
descriptors seg i zero = []
descriptors seg i (suc n) = fields (seg i) ∷ descriptors seg (i + 1) n

-- A data block descriptor (type 0) of one element.
abbrev pub data_block : IovaVec → ℕ × ℕ × ℕ
data_block v = (v.iova, v.len % 2 ^ 32, 0)

-- The address test of the loop.
abbrev pub allowed : Bool → IovaVec → Bool
allowed dword_align v = not (dword_align && not (v.iova % 4 == 0))

abbrev pub all_allowed : Bool → List IovaVec → Bool
all_allowed dword_align [] = true
all_allowed dword_align (v ∷ vs) = allowed dword_align v && all_allowed dword_align vs

low_two : (a : ℕ) → bit_and a 3 ≡ a % 4
low_two a = bit_and-low 2 a

-- The loop leaves what lies before its index alone.
fill_iova_kept :
    (b : Bool) (i j : ℕ) (vs : List IovaVec) (seg : ℕ → Sgld)
    → j < i
    → (fill_iova b i vs seg).0 j ≡ seg j
unfolding fill_iova
fill_iova_kept b i j [] seg h = refl
fill_iova_kept b i j (v ∷ vs) seg h = elim (Bool-cases (b && not (bit_and v.iova 3 == 0))) [
  | inl bad ↦ rw bad
  | inr good ↦ rw good (
      fill_iova_kept b (i + 1) j vs _ (omega arith)
      ∙ update_ne seg i j (sgl_data (seg i) v.iova v.len) (omega arith))
]

fill_iova_step :
    (b : Bool) (i : ℕ) (v : IovaVec) (vs : List IovaVec) (seg : ℕ → Sgld)
    → allowed b v ≡ true
    → fill_iova b i (v ∷ vs) seg
      ≡ fill_iova b (i + 1) vs (update seg i (sgl_data (seg i) v.iova v.len))
unfolding fill_iova
fill_iova_step b i v vs seg h = ground (arith, low_two v.iova)

fill_iova-descriptors :
    (b : Bool) (i : ℕ) (vs : List IovaVec) (seg : ℕ → Sgld)
    → all_allowed b vs ≡ true
    → ((fill_iova b i vs seg).1 ≡ ok tt)
      × (descriptors (fill_iova b i vs seg).0 i (length vs) ≡ map data_block vs)
unfolding descriptors
fill_iova-descriptors b i [] seg h = (unfold fill_iova in refl, refl)
fill_iova-descriptors b i (v ∷ vs) seg h =
    let (done, rest) = fill_iova-descriptors b (i + 1) vs (update seg i d) (ground arith) in
    subst
      (λ (out : (ℕ → Sgld) × Result (Unit {0})).
        (out.1 ≡ ok tt) × (descriptors out.0 i (suc (length vs)) ≡ map data_block (v ∷ vs)))
      (sym (fill_iova_step b i v vs seg (ground arith)))
      (
        done,
        ap₂ ◌∷◌
            (ap fields
                (fill_iova_kept b (i + 1) i vs (update seg i d) (omega arith) ∙ update_self seg i d)
              ∙ unfold sgl_data in refl)
            rest,
      )
  where
    d : Sgld
    d = sgl_data (seg i) v.iova v.len

fill_iova_refused :
    (b : Bool) (i : ℕ) (vs : List IovaVec) (seg : ℕ → Sgld)
    → all_allowed b vs ≡ false
    → (fill_iova b i vs seg).1 ≡ err einval
unfolding fill_iova
fill_iova_refused b i [] seg h = cc
fill_iova_refused b i (v ∷ vs) seg h = ground (
  arith,
  low_two v.iova,
  fill_iova_refused b (i + 1) vs (update seg i (sgl_data (seg i) v.iova v.len)),
)

-- A descriptor whose fields fit survives the union.
pub sgl_of-dptr_of : (d : Sgld) → d.len < 2 ^ 32 → d.rsvd12 < 2 ^ 24 → sgl_of (dptr_of d) ≡ d
unfolding sgl_of dptr_of
sgl_of-dptr_of d hl hr = ground arith

reserved : (d : Dptr) → (sgl_of d).rsvd12 < 2 ^ 24
unfolding sgl_of
reserved d = omega arith

segment_fields :
    (d : Sgld) (a n : ℕ)
    → n < 2 ^ 28
    → d.rsvd12 < 2 ^ 24
    → fields (sgl_of (dptr_of (sgl_segment d a n))) ≡ (a, n * 16, 48)
unfolding sgl_segment
segment_fields d a n h hr = rw (sgl_of-dptr_of (sgl_segment d a n) (omega arith) hr) (ground arith)

data_fields :
    (d : Sgld) (v : IovaVec)
    → d.rsvd12 < 2 ^ 24
    → fields (sgl_of (dptr_of (sgl_data d v.iova v.len))) ≡ data_block v
unfolding sgl_data
data_fields d v hr = rw (sgl_of-dptr_of (sgl_data d v.iova v.len) (omega arith) hr) (ground arith)

finish_sgl_ok :
    (cmd : Cmd) (p : (ℕ → Sgld) × Result (Unit {0}))
    → p.1 ≡ ok tt
    → finish_sgl cmd p
      ≡ record { cmd = record cmd { flags = bit_or cmd.flags psdt_sgl }; seg = p.0; result = ok tt }
unfolding finish_sgl
finish_sgl_ok cmd p h = ground arith

finish_sgl_err :
    (cmd : Cmd) (p : (ℕ → Sgld) × Result (Unit {0}))
    → p.1 ≡ err einval
    → finish_sgl cmd p ≡ record { cmd = cmd; seg = p.0; result = err einval }
unfolding finish_sgl
finish_sgl_err cmd p h = ground arith

module _ (mps seg_iova : ℕ) (dword_align : Bool) (seg : ℕ → Sgld) (cmd : Cmd) (v w : IovaVec)
    (ws : List IovaVec) where
  -- `nvme_mapv_iova_sgl` on two elements or more, no more than the segment page holds, succeeds
  -- exactly if every address passes the dword test (where the controller asks for it), and fails
  -- with EINVAL and unchanged command flags otherwise. On success the segment holds one data block
  -- descriptor for each element, in order, and the command describes the segment: its address, 16
  -- bytes for each descriptor, the type of a last segment; and its flags say so: bit 6, PSDT for a
  -- data pointer that is a descriptor, is set, and the other bits stay.
  pub mapv_iova_sgl-segment :
      length ws + 2 ≤ 2 ^ (mps_to_pageshift mps - 4)
      → length ws + 2 < 2 ^ 28
      → let m = mapv_iova_sgl mps dword_align seg seg_iova cmd v (w ∷ ws) in
        let n = length (v ∷ w ∷ ws) in
        ((all_allowed dword_align (v ∷ w ∷ ws) ≡ false)
          × (m.result ≡ err einval)
          × (m.cmd.flags ≡ cmd.flags))
        ⊎ ((all_allowed dword_align (v ∷ w ∷ ws) ≡ true)
            × (m.result ≡ ok tt)
            × (descriptors m.seg 0 n ≡ map data_block (v ∷ w ∷ ws))
            × (fields (sgl_of m.cmd.dptr) ≡ (seg_iova, n * 16, 48))
            × (m.cmd.flags ≡ bit_or cmd.flags (2 ^ 6)))
  unfolding mapv_iova_sgl
  mapv_iova_sgl-segment h h' =
      rw (le→ltb (2 ^ (mps_to_pageshift mps - 4)) (suc (suc (length ws))) (omega arith))
        (elim (Bool-cases (all_allowed dword_align vs)) [
          | inl good ↦
              let (done, rest) = fill_iova-descriptors dword_align 0 vs seg good in
              rw (finish_sgl_ok cmd' (fill_iova dword_align 0 vs seg) done) (
                inr (
                  good,
                  refl,
                  rest,
                  segment_fields (sgl_of cmd.dptr) seg_iova (suc (suc (length ws))) (omega arith)
                      (reserved cmd.dptr),
                  refl,
                ))
          | inr bad ↦
              rw
                (finish_sgl_err cmd' (fill_iova dword_align 0 vs seg)
                  (fill_iova_refused dword_align 0 vs seg bad))
                (inl (bad, refl, refl))
        ])
    where
      vs : List IovaVec
      vs = v ∷ w ∷ ws

      cmd' : Cmd
      cmd' = with_sgl cmd (sgl_segment (sgl_of cmd.dptr) seg_iova (suc (suc (length ws))))

  -- `nvme_mapv_iova_sgl` on more elements than descriptors fit into a page fails with EINVAL, and
  -- writes nothing.
  pub mapv_iova_sgl_full :
      2 ^ (mps_to_pageshift mps - 4) < length ws + 2
      → let m = mapv_iova_sgl mps dword_align seg seg_iova cmd v (w ∷ ws) in
        (m.result ≡ err einval) × (m.cmd ≡ cmd) × (m.seg ≡ seg)
  unfolding mapv_iova_sgl
  mapv_iova_sgl_full h =
      rw (lt→ltb (2 ^ (mps_to_pageshift mps - 4)) (suc (suc (length ws))) (omega arith))
        (refl, refl, refl)

-- `nvme_mapv_iova_sgl` on a single element puts the data block descriptor of the element into the
-- command and leaves the command's flags as they are, so that these do not say that the data
-- pointer is a descriptor. The address is not tested, and the segment is not written.
pub mapv_iova_sgl_single :
    (mps seg_iova : ℕ) (dword_align : Bool) (seg : ℕ → Sgld) (cmd : Cmd) (v : IovaVec)
    → let m = mapv_iova_sgl mps dword_align seg seg_iova cmd v [] in
      (m.result ≡ ok tt)
      × (fields (sgl_of m.cmd.dptr) ≡ data_block v)
      × (m.cmd.flags ≡ cmd.flags)
      × (m.seg ≡ seg)
unfolding mapv_iova_sgl
mapv_iova_sgl_single mps seg_iova dword_align seg cmd v =
    (refl, data_fields (sgl_of cmd.dptr) v (reserved cmd.dptr), refl, refl)
