-- ===== src/Nvme/Ctrl/Tests/Data.antt =====
-- A controller, its memory and its I/O addresses for the tests.
use libvfn.Base.{ℕ, ◌+◌, ◌^◌, some, none, [], ltb, if◌then◌else◌, ok, err, enomem}
use libvfn.Iommu.Dma.{Backend}
use libvfn.Iommu.Dmabuf.{Pages, zero_dmabuf}
use libvfn.Nvme.Cmd.{Cqe}
use libvfn.Nvme.Ctrl.Queues.{Controller, zero_cqe, zero_cq, zero_sq}

-- A timeout of one unit and the NVM command set only.
abbrev pub cap : ℕ
cap = 2 ^ 24 + 2 ^ 37 + 63

-- I/O addresses, and memory from the kernel, one after another.
abbrev pub backend : Backend
backend = record {
  State = ℕ;
  iova_reserve = some (λ next len flags. (next + len, ok next));
  iova_reserve_align = none;
  iova_put_ephemeral = none;
  dma_map = λ next vaddr len iova flags. (next, ok iova);
  dma_unmap = λ next iova len. (next, ok tt);
  dma_unmap_all = none;
}

abbrev pub full : Backend
full = record backend { dma_map = λ next vaddr len iova flags. (next, err enomem) }

abbrev pub pages : Pages
pages = record {
  State = ℕ;
  mmap = λ next len. (next + len, ok next);
  munmap = λ next vaddr len. next;
}

abbrev pub start : Controller backend pages 4096
start = record {
  memory = record {
    ctx = record { map = []; state = 65536; iova_max = 1000000; iova_next_same = 0 };
    state = 2 ^ 20;
  };
  cap = cap;
  doorbells = 4096;
  dbbuf_doorbells = zero_dmabuf;
  dbbuf_eventidxs = zero_dmabuf;
  words = λ i. 0;
  nsqa = 63;
  ncqa = 63;
  mqes = 63;
  mps = 0;
  cq = λ i. zero_cq;
  sq = λ i. zero_sq;
}

abbrev pub refused : Controller full pages 4096
refused = record {
  memory = record {
    ctx = record { map = []; state = 65536; iova_max = 1000000; iova_next_same = 0 };
    state = 2 ^ 20;
  };
  cap = cap;
  doorbells = 4096;
  dbbuf_doorbells = zero_dmabuf;
  dbbuf_eventidxs = zero_dmabuf;
  words = λ i. 0;
  nsqa = 63;
  ncqa = 63;
  mqes = 63;
  mps = 0;
  cq = λ i. zero_cq;
  sq = λ i. zero_sq;
}

-- The admin queues, with a free tracker, and the entry of its command pending.
abbrev pub entries : ℕ → Cqe
entries i = if ltb i 1 then record zero_cqe { sfp = 1 } else zero_cqe

abbrev pub set_up : Controller backend pages 4096
set_up = record start {
  sq = λ i. record zero_sq {
    queue = record zero_sq.queue { qsize = 4 };
    trackers = record zero_sq.trackers { rq_top = some 0 };
  };
  cq = λ i. record zero_cq { queue = record zero_cq.queue { qsize = 4; mem = entries } };
}
