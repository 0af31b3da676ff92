-- ===== src/Nvme/Sgl/Tests.antt =====
-- The SGL functions at concrete vectors.
use libvfn.Base.{ℕ, zero, suc, ◌≡◌, ◌⊎◌, true, false, List, [], ◌∷◌, map, arith, ok, err, einval}
use libvfn.Nvme.Cmd.{zero_cmd, Sgld, sgl_of}
use libvfn.Nvme.Prp.Vector.{IovaVec}
use libvfn.Nvme.Sgl.Laws.{mapv_iova_sgl-segment, fields, descriptors, data_block, all_allowed}
use libvfn.Nvme.Sgl.{mapv_iova_sgl}

abbrev empty_segment : ℕ → Sgld
empty_segment i = record { addr = 0; len = 0; rsvd12 = 0; type = 0 }

abbrev first : IovaVec
first = record { iova = 0x1000; len = 512 }

abbrev second : IovaVec
second = record { iova = 0x4004; len = 16 }

abbrev repeated : ℕ → List IovaVec
repeated zero = []
repeated (suc n) = second ∷ repeated n

mapv_iova_sgl-segment_example :
    let m = mapv_iova_sgl 0 true empty_segment 0x8000 zero_cmd first (second ∷ []) in
    let vs = first ∷ second ∷ [] in
    ((all_allowed true vs ≡ false) × (m.result ≡ err einval) × (m.cmd.flags ≡ 0))
    ⊎ ((all_allowed true vs ≡ true)
        × (m.result ≡ ok tt)
        × (descriptors m.seg 0 2 ≡ map data_block vs)
        × (fields (sgl_of m.cmd.dptr) ≡ (0x8000, 32, 48))
        × (m.cmd.flags ≡ 64))
mapv_iova_sgl-segment_example =
    mapv_iova_sgl-segment 0 0x8000 true empty_segment zero_cmd first second [] (omega arith)
      (omega arith)
