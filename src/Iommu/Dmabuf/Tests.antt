-- ===== src/Iommu/Dmabuf/Tests.antt =====
-- DMA buffers over a backend and a kernel that hand out addresses one after another.
use libvfn.Base.{ℕ, ◌+◌, ◌%◌, ◌^◌, ◌≤◌, ◌≡◌, refl, some, none, [], ◌∷◌, arith, ok, err, enomem}
use libvfn.Support.Align.{align_up}
use libvfn.Iommu.Dma.{
  Backend, find, link, iova_map_add, iova_map_find, translate_vaddr, dma_map_add, map_vaddr,
  unmap_vaddr,
}
use libvfn.Iommu.Dma.Places.{Disjoint}
use libvfn.Iommu.Dma.Translate.{Mapped}
use libvfn.Iommu.Dma.Errors.{map, call, call_err-translate_vaddr}
use libvfn.Iommu.Dma.Undo.{map_vaddr-unmap_vaddr}
use libvfn.Iommu.Dmabuf.{Pages, Dmabuf, zero_dmabuf, Memory, get_dmabuf, put_dmabuf, pgmap}
use libvfn.Iommu.Dmabuf.Laws.{get_dmabuf-put_dmabuf}

-- Up to 1 MiB of I/O addresses.
abbrev backend : Backend
backend = record {
  State = ℕ;
  iova_reserve = some (λ next len flags. (next + len, ok next));
  iova_reserve_align = none;
  iova_put_ephemeral = none;
  dma_map = λ next vaddr len iova flags. (next, ok iova);
  dma_unmap = λ next iova len. (next, ok tt);
  dma_unmap_all = none;
}

abbrev full : Backend
full = record backend { dma_map = λ next vaddr len iova flags. (next, err enomem) }

abbrev pages : Pages
pages = record {
  State = ℕ;
  mmap = λ next len. (next + len, ok next);
  munmap = λ next vaddr len. next;
}

abbrev start : Memory backend pages 4096
start = record {
  ctx = record { map = []; state = 65536; iova_max = 1000000; iova_next_same = 0 };
  state = 2 ^ 20;
}

abbrev got : Memory backend pages 4096
got = record {
  ctx = record {
    map = record { vaddr = 2 ^ 20; len = 8192; iova = 65536; flags = 0 } ∷ [];
    state = 73728;
    iova_max = 1000000;
    iova_next_same = 0;
  };
  state = 2 ^ 20 + 8192;
}

abbrev buffer : Dmabuf
buffer = record { vaddr = 2 ^ 20; iova = 65536; len = 8192 }

got_run : get_dmabuf backend pages 4096 start zero_dmabuf 8000 0 ≡ (got, buffer, ok tt)
unfolding get_dmabuf pgmap align_up map_vaddr translate_vaddr iova_map_find find dma_map_add
    iova_map_add link
got_run = refl

get_dmabuf-put_dmabuf_example :
    ((8000 ≤ buffer.len) × (buffer.len % 4096 ≡ 0))
    × Mapped backend start.ctx got.ctx buffer.vaddr buffer.len buffer.iova
    × ((m'' : Memory backend pages 4096) × (put_dmabuf backend pages 4096 got buffer
          ≡ some (m'', zero_dmabuf))
        × ((u : ℕ) → translate_vaddr backend m''.ctx u ≡ translate_vaddr backend start.ctx u))
unfolding align_up
get_dmabuf-put_dmabuf_example =
    get_dmabuf-put_dmabuf backend pages 12 start got zero_dmabuf buffer 8000 0 (2 ^ 20)
      (omega arith) (omega arith) (omega arith) tt refl tt got_run refl

map_vaddr-unmap_vaddr_example :
    let (ctx'', ret) = unmap_vaddr backend got.ctx (2 ^ 20) in
    (ret ≡ ok 8192)
    × Disjoint ctx''.map
    × ((u : ℕ) → translate_vaddr backend ctx'' u ≡ translate_vaddr backend start.ctx u)
unfolding map_vaddr translate_vaddr iova_map_find find dma_map_add iova_map_add link
map_vaddr-unmap_vaddr_example =
    map_vaddr-unmap_vaddr backend start.ctx got.ctx (2 ^ 20) 8192 0 0 65536 tt (omega arith) tt refl
      refl

-- The backend refuses the mapping.
abbrev refused : Memory full pages 4096
refused = record {
  ctx = record { map = []; state = 65536; iova_max = 1000000; iova_next_same = 0 };
  state = 2 ^ 20;
}

call_err-translate_vaddr_example :
    translate_vaddr full (call full refused.ctx (map (2 ^ 20) 8192 0 0)).0 5
    ≡ translate_vaddr full refused.ctx 5
unfolding map_vaddr translate_vaddr iova_map_find find dma_map_add
call_err-translate_vaddr_example =
    call_err-translate_vaddr full refused.ctx (map (2 ^ 20) 8192 0 0) enomem 5 refl
