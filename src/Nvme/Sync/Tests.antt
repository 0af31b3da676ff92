-- ===== src/Nvme/Sync/Tests.antt =====
-- `nvme_sync` with a buffer of 512 bytes, on a queue of two entries.
use libvfn.Base.{
  ℕ, ◌+◌, ◌^◌, ◌≡◌, refl, some, none, [], ◌∷◌, arith, ltb, if◌then◌else◌, ok, err, ebusy, inr,
}
use libvfn.Iommu.Dma.{
  Mapping, Backend, Ctx, iova_cmp, find, link, iova_map_add, iova_map_find, translate_vaddr,
  dma_map_add, map_vaddr,
}
use libvfn.Iommu.Dma.Translate.{Mapped}
use libvfn.Nvme.Cmd.{Cqe, zero_cmd}
use libvfn.Nvme.Prp
use libvfn.Nvme.Prp.{
  map_prp, map_prp_first, prp_cursor_init, finish_prp, set_prp2, prp_count, residual, list_base,
  prplist_capacity, put_from,
}
use libvfn.Nvme.Queue.Ring.{Holds, Pending}
use libvfn.Nvme.Rq.{Rq, rq_map_prp, rq_exec}
use libvfn.Nvme.Rq.Free.{Chain}
use libvfn.Nvme.Sync.{Queues, returns, sync}
use libvfn.Nvme.Sync.Spin.{status}
use libvfn.Nvme.Sync.Laws.{sync_lem, sync_busy}

abbrev backend : Backend
backend = record {
  State = ℕ;
  iova_reserve = some (λ next len flags. (next + len, ok next));
  iova_reserve_align = none;
  iova_put_ephemeral = none;
  dma_map = λ next vaddr len iova flags. (next, ok iova);
  dma_unmap = λ next iova len. (next, ok tt);
  dma_unmap_all = none;
}

-- The page of the tracker is mapped.
abbrev page : Mapping
page = record { vaddr = 65536; len = 4096; iova = 131072; flags = 0 }

abbrev before : Ctx backend
before = record { map = page ∷ []; state = 2 ^ 20; iova_max = 2 ^ 30; iova_next_same = 0 }

abbrev during : Ctx backend
during = record before {
  map = page ∷ record { vaddr = 2 ^ 21; len = 512; iova = 2 ^ 20; flags = 2 } ∷ [];
  state = 2 ^ 20 + 512;
}

abbrev entry : ℕ → ℕ → Cqe
entry cid sfp = record { dw0 = 0; dw1 = 0; sqhd = 0; sqid = 1; cid = cid; sfp = sfp }

abbrev tracker : Rq
tracker = record { opaque = 0; cid = 0; page_vaddr = 65536; page_iova = 131072; rq_next = none }

-- The entry of a command 7 is pending, and that of the command to come behind it.
abbrev queues : Queues
queues = record {
  sq = record {
    id = 1;
    tail = 0;
    ptail = 0;
    qsize = 2;
    mem = λ i. zero_cmd;
    dbbuf = none;
    doorbell = [];
  };
  trackers = record { rqs = λ i. tracker; rq_top = some 0 };
  lists = λ i j. 0;
  cq = record {
    id = 1;
    head = 0;
    qsize = 4;
    phase = 0;
    mem = λ i. if ltb i 1 then entry 7 1 else if ltb i 2 then entry 0 1 else entry 0 0;
    dbbuf = none;
    doorbell = [];
  };
}

two-Pending : Pending queues.cq (entry 7 1 ∷ entry 0 1 ∷ [])
unfolding Holds
two-Pending = record {
  within = omega arith;
  small = omega arith;
  bit = omega arith;
  holds = (refl, omega arith, (refl, omega arith, (refl, (refl, tt))));
}

abbrev described : Prp.Mapped
described = record {
  cmd = record zero_cmd { dptr = record { prp1 = 2 ^ 20; prp2 = 0 } };
  prplists = λ j. 0;
  result = ok tt;
}

map_run : map_vaddr backend before (2 ^ 21) 512 0 2 ≡ (during, ok (2 ^ 20))
unfolding map_vaddr translate_vaddr iova_map_find find dma_map_add iova_map_add link iova_cmp
map_run = refl

describe_run :
    rq_map_prp 0 (translate_vaddr backend during) tracker (λ j. 0) zero_cmd (2 ^ 20) 512 ≡ described
unfolding rq_map_prp map_prp map_prp_first prp_cursor_init finish_prp set_prp2 prp_count residual
    list_base prplist_capacity put_from translate_vaddr iova_map_find find iova_cmp
describe_run = refl

sync_lem_example :
    (ctx'' : Ctx backend) × (q' : Queues) × (sync backend
        (λ t. queues.cq.mem)
        (λ t. t)
        1000000
        1
        2
        0
        0
        before
        queues
        zero_cmd
        (some (2 ^ 21, 512))
      ≡ returns (ctx'', q', some (entry 0 1), status (entry 0 1)))
    × (q'.sq ≡ rq_exec queues.sq tracker described.cmd)
    × Pending q'.cq []
    × Chain q'.trackers.rqs q'.trackers.rq_top (0 ∷ [])
    × ((u : ℕ) → translate_vaddr backend ctx'' u ≡ translate_vaddr backend before u)
sync_lem_example =
    sync_lem backend (λ t. queues.cq.mem) (λ t. t) 1000000 1 2 0 0 before during queues zero_cmd
      (2 ^ 21) 512 (2 ^ 20) 0 [] (entry 7 1 ∷ []) (entry 0 1) [] (ground arith) (omega arith)
      (inr (omega arith), tt) map_run refl (refl, refl) refl described describe_run refl (λ t. refl)
      two-Pending (omega arith) refl (omega arith) (omega arith)

abbrev no_tracker : Queues
no_tracker = record queues { trackers = record { rqs = λ i. tracker; rq_top = none } }

sync_busy_example :
    (sync backend
        (λ t. queues.cq.mem)
        (λ t. t)
        1000000
        1
        2
        0
        0
        before
        no_tracker
        zero_cmd
        (some (2 ^ 21, 512))
      ≡ returns (during, no_tracker, none, err ebusy))
    × Mapped backend before during (2 ^ 21) 512 (2 ^ 20)
sync_busy_example =
    sync_busy backend (λ t. queues.cq.mem) (λ t. t) 1000000 1 2 0 0 before during no_tracker
      zero_cmd (2 ^ 21) 512 (2 ^ 20) (ground arith) (omega arith) (inr (omega arith), tt) map_run
      refl
