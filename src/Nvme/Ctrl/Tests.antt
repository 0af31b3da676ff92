-- ===== src/Nvme/Ctrl/Tests.antt =====
-- Registers, names and page sizes of a controller, run on concrete values.
pub mod Data
mod Queues
mod Start
use Prim.Native.String.{String}
use libvfn.Base.{
  ℕ, ◌+◌, ◌*◌, ◌^◌, ◌≤◌, ◌≡◌, ◌≢◌, refl, ap, ◌∙◌, some, none, [], ◌∷◌, arith, ltb, if◌then◌else◌,
  Result, ok, err, enomem, einval, ◌<◌,
}
use libvfn.Support.Align.{align_up}
use libvfn.Iommu.Dma.{
  Backend, find, link, iova_map_add, iova_map_find, translate_vaddr, dma_map_add, map_vaddr,
}
use libvfn.Iommu.Dma.Translate.{Mapped}
use libvfn.Iommu.Dmabuf.{Pages, zero_dmabuf, get_dmabuf, pgmap}
use libvfn.Nvme.Cmd.{Cmd, Cqe}
use libvfn.Nvme.Queue.Ring.{Pending, Holds}
use libvfn.Nvme.Rq.{rq_exec}
use libvfn.Nvme.Rq.Free.{Chain}
use libvfn.Nvme.Sync.{returns}
use libvfn.Nvme.Sync.Spin.{status}
use libvfn.Nvme.Ctrl.Fields.{field_get, cap_css, cap_dstrd, cap_mpsmin}
use libvfn.Nvme.Ctrl.Ready.{deadline_at, Outcome}
use libvfn.Nvme.Ctrl.Enable.{enable, Selected, Fields, enable_lem}
use libvfn.Nvme.Ctrl.Registry.{Ctrl, get_ctrl, Unique, call, add, expected, call-expected}
use libvfn.Nvme.Ctrl.Queues.{
  Controller, zero_cqe, zero_cq, zero_sq, check_queue, configure_cq, discard_cq,
}
use libvfn.Nvme.Ctrl.Queues.Completion.{configure_cq_lem}
use libvfn.Nvme.Ctrl.Admin.{create_iocq}
use libvfn.Nvme.Ctrl.Admin.Create.{CreateCq, create_iocq_lem}
use libvfn.Nvme.Ctrl.Queues.Discard.{configure_cq-discard_cq, configure_cq_err-discard_cq}
use libvfn.Nvme.Ctrl.Tests.Data.{cap}
use libvfn.Nvme.Ctrl.Start.{init_mps}
use libvfn.Nvme.Ctrl.Start.PageSize.{Clamp, Largest, init_mps-Largest}

-- A look takes 300 ms, and the controller is ready at the third.
abbrev clock : ℕ → ℕ
clock t = t * 300000000

abbrev csts : ℕ → ℕ
csts t = if ltb t 3 then 0 else 1

enable_lem_example :
    let (cc, ret) = enable clock csts cap 0 4 0 in
    ((css : ℕ) × Selected cap css × Fields cc 1 css 0 0 0 6 4)
    × ((r : Result {0} Unit) × (last : ℕ) × (ret ≡ some (r, last))
        × (last ≤ 4)
        × Outcome clock csts (deadline_at clock cap 0) 1 1 last r)
unfolding field_get
enable_lem_example = enable_lem clock csts cap 0 3 0 (omega arith)

abbrev first : Ctrl
first = record { bdf = "0000:01:00.0"; id = 1 }

abbrev second : Ctrl
second = record { bdf = "0000:02:00.0"; id = 2 }

call-expected_example :
    let (cs', ret) = call (first ∷ []) (add second) in
    Unique cs'
    × (ret ≡ (expected (get_ctrl (first ∷ [])) (add second)).1)
    × ((b : String) → get_ctrl cs' b ≡ (expected (get_ctrl (first ∷ [])) (add second)).0 b)
unfolding get_ctrl
call-expected_example = call-expected (first ∷ []) (add second) (refl, tt)

abbrev clamp : ℕ → ℕ → ℕ → ℕ
clamp v low high = if ltb v low then low else if ltb high v then high else v

clamp-Clamp : Clamp clamp
clamp-Clamp = record {
  below = λ v low high h b. ground arith;
  within = λ v low high b a. ground arith;
  above = λ v low high h a. ground arith;
}

-- Page sizes of 4 KiB to 64 KiB, on a host with pages of 16 KiB.
abbrev sizes : ℕ
sizes = 4 * 2 ^ 52

init_mps-Largest_example :
    (12 + cap_mpsmin sizes ≤ 14 → (n : ℕ) × (init_mps clamp 14 sizes ≡ ok n) × Largest 14 sizes n)
    × (14 < 12 + cap_mpsmin sizes → init_mps clamp 14 sizes ≡ err einval)
unfolding field_get
init_mps-Largest_example = init_mps-Largest clamp 14 sizes clamp-Clamp (omega arith) (omega arith)
