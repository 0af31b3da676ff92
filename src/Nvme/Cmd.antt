-- ===== src/Nvme/Cmd.antt =====
-- include/vfn/nvme/types.h: the submission queue entry, its data pointer and SGL descriptors.
-- Little-endian fields (`leint64_t` and the like) hold the number that they encode.
use libvfn.Base.{ℕ, ◌+◌, ◌*◌, ◌/◌, ◌%◌, ◌^◌}

-- `struct nvme_sgld`; the three reserved bytes are one number.
pub record Sgld : Type 0 where
  pub addr : ℕ
  pub len : ℕ
  pub rsvd12 : ℕ
  pub type : ℕ

-- `union nvme_dptr`: the 16 bytes as its two PRP words.
pub record Dptr : Type 0 where
  pub prp1 : ℕ
  pub prp2 : ℕ

-- The `sgl` member of the union, read from the same bytes and written to them.
unfoldable pub sgl_of : Dptr → Sgld
sgl_of d = record {
  addr = d.prp1;
  len = d.prp2 % 2 ^ 32;
  rsvd12 = d.prp2 / 2 ^ 32 % 2 ^ 24;
  type = d.prp2 / 2 ^ 56;
}

unfoldable pub dptr_of : Sgld → Dptr
dptr_of s = record { prp1 = s.addr; prp2 = s.len + s.rsvd12 * 2 ^ 32 + s.type * 2 ^ 56 }

-- `union nvme_cmd`
pub record Cmd : Type 0 where
  pub opcode : ℕ
  pub flags : ℕ
  pub cid : ℕ
  pub nsid : ℕ
  pub cdw2 : ℕ
  pub cdw3 : ℕ
  pub mptr : ℕ
  pub dptr : Dptr
  pub cdw10 : ℕ
  pub cdw11 : ℕ
  pub cdw12 : ℕ
  pub cdw13 : ℕ
  pub cdw14 : ℕ
  pub cdw15 : ℕ

-- A command with all fields zero, `union nvme_cmd cmd = {}`.
abbrev pub zero_cmd : Cmd
zero_cmd = record {
  opcode = 0;
  flags = 0;
  cid = 0;
  nsid = 0;
  cdw2 = 0;
  cdw3 = 0;
  mptr = 0;
  dptr = record { prp1 = 0; prp2 = 0 };
  cdw10 = 0;
  cdw11 = 0;
  cdw12 = 0;
  cdw13 = 0;
  cdw14 = 0;
  cdw15 = 0;
}

-- `struct nvme_cqe`
pub record Cqe : Type 0 where
  pub dw0 : ℕ
  pub dw1 : ℕ
  pub sqhd : ℕ
  pub sqid : ℕ
  pub cid : ℕ
  pub sfp : ℕ
