-- ===== src/Nvme/Ctrl/Start/PageSize.antt =====
-- The memory page size that `nvme_ctrl_init` of src/nvme/core.c chooses.
use libvfn.Base.{
  ℕ, ◌+◌, ◌-◌, ◌≤◌, ◌<◌, ◌≡◌, refl, arith, lt→ltb, le→ltb, le-cases, inl, inr, einval, ok, err,
}
use libvfn.Nvme.Ctrl.Fields.{cap_mpsmin, cap_mpsmax}
use libvfn.Nvme.Ctrl.Start.{init_mps}

-- What ccan documents of `clamp_t`: the value within both bounds, or the bound that it is outside of.
pub record Clamp (clamp : ℕ → ℕ → ℕ → ℕ) : Type 0 where
  pub below : (v low high : ℕ) → low ≤ high → v ≤ low → clamp v low high ≡ low
  pub within : (v low high : ℕ) → low ≤ v → v ≤ high → clamp v low high ≡ v
  pub above : (v low high : ℕ) → low ≤ high → high ≤ v → clamp v low high ≡ high

-- `n` is the largest page size that both the controller has and the host's pages are large enough for.
pub record Largest (pageshift cap n : ℕ) : Type 0 where
  pub offered : (cap_mpsmin cap ≤ n) × (n ≤ cap_mpsmax cap)
  pub fits : 12 + n ≤ pageshift
  pub largest : (m : ℕ) → m ≤ cap_mpsmax cap → 12 + m ≤ pageshift → m ≤ n

-- The memory page size, for a host page of at least 4096 bytes and a controller whose smallest page
-- size is at most its largest, with `clamp_t` as documented: where the smallest is at most the host's,
-- it is the largest one of the controller that is; otherwise the controller is refused with EINVAL.
pub init_mps-Largest :
    (clamp : ℕ → ℕ → ℕ → ℕ) (pageshift cap : ℕ)
    → Clamp clamp
    → 12 ≤ pageshift
    → cap_mpsmin cap ≤ cap_mpsmax cap
    → (12 + cap_mpsmin cap ≤ pageshift
        → (n : ℕ) × (init_mps clamp pageshift cap ≡ ok n) × Largest pageshift cap n)
      × (pageshift < 12 + cap_mpsmin cap → init_mps clamp pageshift cap ≡ err einval)
unfolding init_mps
init_mps-Largest clamp pageshift cap c hp h = (
  λ fits. elim (le-cases (cap_mpsmax cap) (pageshift - 12)) [
    | inl high ↦
        let e = c.above (pageshift - 12) (cap_mpsmin cap) (cap_mpsmax cap) h high in
        (
          cap_mpsmax cap,
          rw (init_mps, e, le→ltb pageshift (12 + cap_mpsmax cap) (omega arith)) refl,
          record { offered = (h, omega arith); fits = omega arith; largest = λ m hm hf. hm },
        )
    | inr low ↦
        let e =
          c.within (pageshift - 12) (cap_mpsmin cap) (cap_mpsmax cap) (omega arith) (omega arith) in
        (
          pageshift - 12,
          rw (init_mps, e, le→ltb pageshift (12 + (pageshift - 12)) (omega arith)) refl,
          record {
            offered = (omega arith, omega arith);
            fits = omega arith;
            largest = λ m hm hf. omega arith;
          },
        )
  ],
  λ small.
      let e = c.below (pageshift - 12) (cap_mpsmin cap) (cap_mpsmax cap) h (omega arith) in
      rw (init_mps, e, lt→ltb pageshift (12 + cap_mpsmin cap) small) refl,
)
