-- ===== src/Nvme/Rq/Atomic/Tests.antt =====
-- The lock-free tracker operations in concrete interleavings.
use libvfn.Base.{◌≡◌, refl, none, some, List, [], ◌∷◌, arith}
use libvfn.Nvme.Rq.{init_rqs, rq_reset}
use libvfn.Nvme.Rq.Free.{count}
use libvfn.Nvme.Rq.Atomic.{
  Acquire, test, acquire_step, Release, release_step, System, begin_acquire, acquire, begin_release,
  release, initial, Reach, here, later,
}
use libvfn.Nvme.Rq.Atomic.Invariant.{Apart}
use libvfn.Nvme.Rq.Atomic.Safety.{Reach-Apart}
use libvfn.Nvme.Rq.Atomic.Alone.{acquire-Returns, Returns}

-- Two trackers, of which 1 is at the top.
abbrev queue : System
queue = initial 3 12 0 0

-- A client has read 1 and its successor 0 and is about to exchange. Meanwhile others acquire 1 and 0
-- and release 1, so that 1 is at the top again. The exchange succeeds, and puts 0 at the top, which
-- is held: the next client gets it, too.
held_twice : (s : System) × Reach 2 queue s × (count 0 s.held ≡ 2)
unfolding acquire_step release_step rq_reset init_rqs
held_twice =
    let r0 : Reach 2 queue queue = here in
    let r1 = later r0 (begin_acquire (omega arith)) in
    let r2 = later r1 (acquire [] Acquire.load [] refl) in
    let r3 = later r2 (acquire [] (test (some 1)) [] refl) in
    let r4 = later r3 (begin_acquire (omega arith)) in
    let waiting : List Acquire = Acquire.swap 1 (some 0) ∷ [] in
    let r5 = later r4 (acquire [] Acquire.load waiting refl) in
    let r6 = later r5 (acquire [] (test (some 1)) waiting refl) in
    let r7 = later r6 (acquire [] (Acquire.swap 1 (some 0)) waiting refl) in
    let r8 = later r7 (begin_acquire (omega arith)) in
    let r9 = later r8 (acquire [] Acquire.load waiting refl) in
    let r10 = later r9 (acquire [] (test (some 0)) waiting refl) in
    let r11 = later r10 (acquire [] (Acquire.swap 0 none) waiting refl) in
    let r12 = later r11 (begin_release (0 ∷ []) 1 [] refl) in
    let r13 = later r12 (release [] 1 Release.reset [] refl) in
    let r14 = later r13 (release [] 1 Release.load [] refl) in
    let r15 = later r14 (release [] 1 Release.swap [] refl) in
    let r16 = later r15 (acquire [] (Acquire.swap 1 (some 0)) [] refl) in
    let r17 = later r16 (begin_acquire (omega arith)) in
    let r18 = later r17 (acquire [] Acquire.load [] refl) in
    let r19 = later r18 (acquire [] (test (some 0)) [] refl) in
    let r20 = later r19 (acquire [] (Acquire.swap 0 none) [] refl) in (_, r20, refl)

-- One client has acquired 1 and is about to release it, while another has loaded the top.
abbrev crossing : System
unfolding acquire_step release_step rq_reset init_rqs
crossing = record {
  trackers = record queue.trackers { rq_top = some 0 };
  held = [];
  acquires = test (some 0) ∷ [];
  releases = (1, Release.reset) ∷ [];
}

crossing-Reach : Reach 1 queue crossing
unfolding acquire_step release_step rq_reset init_rqs
crossing-Reach =
    let r0 : Reach 1 queue queue = here in
    let r1 = later r0 (begin_acquire (omega arith)) in
    let r2 = later r1 (acquire [] Acquire.load [] refl) in
    let r3 = later r2 (acquire [] (test (some 1)) [] refl) in
    let r4 = later r3 (acquire [] (Acquire.swap 1 (some 0)) [] refl) in
    let r5 = later r4 (begin_release [] 1 [] refl) in
    let r6 = later r5 (begin_acquire (omega arith)) in later r6 (acquire [] Acquire.load [] refl)

Reach-Apart_example : Apart 3 crossing
Reach-Apart_example = Reach-Apart 3 12 0 0 crossing (omega arith) crossing-Reach

acquire-Returns_example : Returns 5 crossing.trackers (Acquire.swap 1 (some 0))
acquire-Returns_example = acquire-Returns crossing.trackers (Acquire.swap 1 (some 0))
