-- ===== src/Iommu/Reserve/Tests.antt =====
-- Runs of the allocator of src/iommu/vfio.c.
use libvfn.Base.{ℕ, ap, subst, Result, ok, ◌≡◌, refl, some, List, [], ◌∷◌, arith}
use libvfn.Iommu.Reserve.{
  Range, FreeRange, Container, iova_reserve, iova_put, bump, put_free, put_behind, put_at,
  put_before, extend_prev, get_free, get_free_range, best_fit, drop_range,
}
use libvfn.Iommu.Reserve.Bytes.{Added}
use libvfn.Iommu.Reserve.FreeList.{put_free-Added}
use libvfn.Iommu.Reserve.BestFit.{Taken, get_free-Taken}
use libvfn.Support.Align.{aligned, align_down}
use libvfn.Iommu.Reserve.Live.{Inv}
use libvfn.Iommu.Reserve.Run.{Run, start, reserve, put, Run-Inv}

abbrev ranges : List Range
ranges = record { start = 65536; last = 131071 } ∷ record { start = 1048576; last = 2097151 } ∷ []

bump_run : bump ranges 126976 8192 ≡ some (1048576, 1056768)
unfolding bump
bump_run = refl

abbrev free : List FreeRange
free = record { start = 4096; len = 4096 } ∷ record { start = 12288; len = 4096 } ∷ []

-- Three ranges become one when the one between them comes back.
joined : put_free free 8192 4096 ≡ record { start = 4096; len = 12288 } ∷ []
unfolding put_free put_behind put_at extend_prev put_before
joined = refl

put_free-Added_example : Added 0 8192 4096 free (put_free free 8192 4096)
put_free-Added_example =
    put_free-Added 8192 4096 free (ground arith) (omega arith) (omega arith) (ground arith)

get_free_run : get_free free 4096 ≡ (record { start = 12288; len = 4096 } ∷ [], some 4096)
unfolding get_free get_free_range best_fit drop_range
get_free_run = refl

get_free-Taken_example : Taken 0 4096 4096 free (record { start = 12288; len = 4096 } ∷ [])
get_free-Taken_example =
    get_free-Taken 4096 4096 free (record { start = 12288; len = 4096 } ∷ []) (ground arith)
      (omega arith) get_free_run

-- A container whose ephemeral range is the first range.
abbrev first : Container
first = record {
  ranges = ranges;
  next = 131072;
  ephemerals = record { start = 65536; last = 131071 };
  next_ephemeral = 65536;
  nephemerals = 0;
  free_iovas = [];
}

abbrev second : Container
second = record first { next = 1056768 }

reserve_run : iova_reserve 4096 first 8192 0 ≡ (second, ok 1048576)
unfolding iova_reserve get_free get_free_range best_fit bump aligned align_down
reserve_run = refl

abbrev reservation : FreeRange
reservation = record { start = 1048576; len = 8192 }

two_steps : Run 4096 first second (reservation ∷ [])
two_steps =
    subst (λ (c : Container). Run 4096 first c (reservation ∷ []))
      (ap (λ (p : Container × Result ℕ). p.0) reserve_run)
      (reserve 1048576 8192 0 start (omega arith) refl
        (ap (λ (p : Container × Result ℕ). p.1) reserve_run))

-- Given back again.
Run-Inv_example : Inv (iova_put second 1048576 8192) []
Run-Inv_example =
    Run-Inv 4096 first (iova_put second 1048576 8192) [] (ground arith) refl (omega arith)
      (omega arith) (put [] reservation [] two_steps)
