-- ===== src/Nvme/Prp/Spec.antt =====
-- How a controller reads PRP lists, by the NVMe base specification: a list page holds entries from
-- a slot on, and where more than one entry is still to come, the last slot of the page is the
-- address of the next page. Memory at the PRP list pages is the array that src/nvme/util.c fills.
use libvfn.Base.{
  ℕ, zero, suc, ◌+◌, ◌-◌, ◌*◌, ◌/◌, ◌%◌, ◌^◌, ◌&&◌, List, [], ◌∷◌, ltb, ◌==◌, if◌then◌else◌,
}
use libvfn.Support.Word.{u64, add64, sub64}
use libvfn.Nvme.Cmd.{Dptr}

-- The 64-bit word at slot `slot` of the list page at address `a`; the array begins at `base`.
abbrev pub read : (ℕ → ℕ) → ℕ → ℕ → ℕ → ℕ
read lists base a slot = lists (sub64 a base / 8 + slot)

-- The next `rest` data entries, from a slot of the list page at `a`.
unfoldable pub walk : (ℕ → ℕ) → ℕ → ℕ → ℕ → ℕ → ℕ → List ℕ
walk lists base max_prps zero a slot = []
walk lists base max_prps (suc rest) a slot =
    let a' = read lists base a (max_prps - 1) in
    let chained = read lists base a' 0 ∷ walk lists base max_prps rest a' 1 in
    let plain = read lists base a slot ∷ walk lists base max_prps rest a (slot + 1) in
    if (slot == max_prps - 1) && ltb 0 rest then chained else plain

-- `count` successive page addresses, from page `i` of a buffer at `iova`.
unfoldable pub page_addresses : ℕ → ℕ → ℕ → ℕ → List ℕ
page_addresses iova pageshift i zero = []
page_addresses iova pageshift i (suc count) =
    add64 iova (i * 2 ^ pageshift % u64) ∷ page_addresses iova pageshift (i + 1) count

-- The number of pages that a buffer touches.
unfoldable pub page_count : ℕ → ℕ → ℕ → ℕ
page_count iova len pagesize = (iova % pagesize + len + pagesize - 1) / pagesize

-- The page addresses that a controller takes from the data pointer of a command whose buffer
-- touches `count` pages: PRP1, then PRP2 as the second entry or as the address of the list.
unfoldable pub described : (ℕ → ℕ) → ℕ → ℕ → Dptr → ℕ → List ℕ
described lists base max_prps d zero = []
described lists base max_prps d (suc zero) = d.prp1 ∷ []
described lists base max_prps d (suc (suc zero)) = d.prp1 ∷ d.prp2 ∷ []
described lists base max_prps d (suc (suc (suc rest))) =
    d.prp1 ∷ walk lists base max_prps (suc (suc rest)) d.prp2 0

-- The pages of a buffer: the first from the address of the buffer on, the others whole.
unfoldable pub pages : ℕ → ℕ → ℕ → List ℕ
pages iova pageshift zero = []
pages iova pageshift (suc rest) =
    iova ∷ page_addresses (iova / 2 ^ pageshift * 2 ^ pageshift) pageshift 1 rest
