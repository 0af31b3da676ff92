-- ===== src/Support/Tests.antt =====
-- The alignment macros at concrete values.
use libvfn.Base.{◌≡◌, refl}
use libvfn.Support.Align.{round}

round_halfway : (round 6 4 ≡ 8) × (round 5 4 ≡ 4)
unfolding round
round_halfway = (refl, refl)
