-- ===== src/Nvme/Prp/Tests.antt =====
-- The PRP functions at concrete buffers.
use libvfn.Base.{ℕ, ◌*◌, ◌^◌, ◌≡◌, refl, Option, some, arith, ok, err, einval}
use libvfn.Nvme.Cmd.{zero_cmd}
use libvfn.Nvme.Prp.Spec.{described, pages, page_count}
use libvfn.Nvme.Prp.Single.{map_prp-described, map_prp_full}
use libvfn.Nvme.Prp.{map_prp, prplist_capacity}

abbrev translated : ℕ → Option ℕ
translated v = some 0x10_0000

abbrev zeroed : ℕ → ℕ
zeroed i = 0

-- A buffer of 12 KiB that begins inside a page touches four pages.
map_prp-described_example :
    let m = map_prp 0 translated 0 zeroed 1 zero_cmd 0x1234 0x3000 in
    let n = page_count 0x1234 0x3000 (2 ^ 12) in
    (m.result ≡ ok tt)
    × (described m.prplists 0x10_0000 (2 ^ 9) m.cmd.dptr n ≡ pages 0x1234 12 n)
    × (m.cmd ≡ record zero_cmd { dptr = m.cmd.dptr })
map_prp-described_example =
    map_prp-described 0 0x1234 0x3000 1 0 0x10_0000 zeroed translated zero_cmd (omega arith)
      (omega arith) (omega arith) (omega arith) (omega arith) (omega arith) (omega arith) refl
      (unfold page_count prplist_capacity in omega arith)

-- One list page holds 512 entries; a buffer of 514 pages has one too many.
map_prp_full_example :
    let m = map_prp 0 translated 0 zeroed 1 zero_cmd 0x1000 (514 * 2 ^ 12) in
    (m.result ≡ err einval) × (m.prplists ≡ zeroed)
map_prp_full_example =
    map_prp_full 0 0x1000 (514 * 2 ^ 12) 1 0 0x10_0000 zeroed translated zero_cmd (omega arith)
      (omega arith) (omega arith) (omega arith) (omega arith) (omega arith) (omega arith) refl
      (unfold page_count prplist_capacity in omega arith)
