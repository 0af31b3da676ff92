-- ===== src/Nvme/Ctrl/Fields.antt =====
-- The register fields of src/nvme/types.h.
use Prim.Native.Nat.{bit_and}
use libvfn.Base.{ℕ, ◌*◌, ◌/◌, ◌%◌, ◌^◌, ◌≡◌, ◌-◌}
use libvfn.Support.Bits.{bit_and-low}

-- `NVME_FIELD_GET` and `NVME_FIELD_SET`, with the shift and the mask that the name stands for
unfoldable pub field_get : ℕ → ℕ → ℕ → ℕ
field_get value shift mask = bit_and (value / 2 ^ shift) mask

unfoldable pub field_set : ℕ → ℕ → ℕ → ℕ
field_set value shift mask = bit_and value mask * 2 ^ shift

pub field_get_lem :
    (value shift k : ℕ) → field_get value shift (2 ^ k - 1) ≡ value / 2 ^ shift % 2 ^ k
unfolding field_get
field_get_lem value shift k = bit_and-low k (value / 2 ^ shift)

-- The fields of CAP: `CAP_TO`, `CAP_DSTRD`, `CAP_CSS`, `CAP_MPSMIN`, `CAP_MPSMAX` and `CAP_MQES`.
abbrev pub cap_to : ℕ → ℕ
cap_to cap = field_get cap 24 0xff

abbrev pub cap_dstrd : ℕ → ℕ
cap_dstrd cap = field_get cap 32 0xf

abbrev pub cap_css : ℕ → ℕ
cap_css cap = field_get cap 37 0xff

abbrev pub cap_mpsmin : ℕ → ℕ
cap_mpsmin cap = field_get cap 48 0xf

abbrev pub cap_mpsmax : ℕ → ℕ
cap_mpsmax cap = field_get cap 52 0xf

abbrev pub cap_mqes : ℕ → ℕ
cap_mqes cap = field_get cap 0 0xffff

-- `CSTS_RDY`
abbrev pub csts_rdy : ℕ → ℕ
csts_rdy csts = field_get csts 0 1
