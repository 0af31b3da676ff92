-- ===== src/Nvme/Prp/Entries.antt =====
-- The slots of the PRP lists of src/nvme/util.c and what a put writes there: the lemmas the mapping loops share.
use native.Mathlib.Nat.{pow-suc}
use libvfn.Base.{
  ℕ, zero, suc, ◌+◌, ◌-◌, ◌*◌, ◌%◌, ◌^◌, ◌≤◌, ◌<◌, ◌≡◌, ◌≢◌, refl, ap, ◌∙◌, true, false, ◌∷◌, arith,
  ◌==◌, ◌&&◌, ltb,
}
use libvfn.Support.Word.{u64, add64}
use libvfn.Nvme.Prp.Spec.{read, walk}
use libvfn.Nvme.Prp.{entry}

-- The address of a list page.
abbrev pub page_address : ℕ → ℕ → ℕ → ℕ
page_address base pageshift page = add64 base (page * 2 ^ pageshift % u64)

pub pow-eight : (s : ℕ) → 3 ≤ s → 2 ^ s ≡ 2 ^ (s - 3) * 8
pow-eight s h =
    let s' : s ≡ suc (suc (suc (s - 3))) = omega arith in
    ap (λ t. 2 ^ t) s'
    ∙ omega (arith, pow-suc 2 (s - 3), pow-suc 2 (suc (s - 3)), pow-suc 2 (suc (suc (s - 3))))

-- A list page that lies within the address space is read at its index in the array.
pub read_at :
    (lists : ℕ → ℕ) (base s page slot : ℕ)
    → 3 ≤ s
    → base < u64
    → page * 2 ^ s < u64
    → read lists base (page_address base s page) slot ≡ lists (entry s page slot)
unfolding entry
read_at lists base s page slot hs hb hp =
    ap (λ t. lists (t + slot)) (omega (arith, ap (λ t. page * t) (pow-eight s hs)))

pub entry_suc : (s page slot : ℕ) → entry s page (slot + 1) ≡ entry s page slot + 1
unfolding entry
entry_suc s page slot = omega arith

pub entry_last :
    (s m page : ℕ) → 2 ^ (s - 3) ≡ suc m → entry s page (2 ^ (s - 3) - 1) + 1 ≡ entry s (page + 1) 0
unfolding entry
entry_last s m page e = omega (arith, e)

pub mul_pred : (q m : ℕ) → q ≢ 0 → q * m ≡ (q - 1) * m + m
mul_pred zero m h = absurd (h refl)
mul_pred (suc q) m h = let p : suc q - 1 ≡ q = omega arith in omega (arith, ap (λ t. t * m) p)

-- One step of the controller, where the entry is data and where it is a link.
pub walk_plain :
    (lists : ℕ → ℕ) (base max_prps rest a slot : ℕ)
    → ((slot == max_prps - 1) && ltb 0 rest) ≡ false
    → walk lists base max_prps (suc rest) a slot
      ≡ read lists base a slot ∷ walk lists base max_prps rest a (slot + 1)
unfolding walk
walk_plain lists base max_prps rest a slot h = rw h refl

pub walk_chain :
    (lists : ℕ → ℕ) (base max_prps rest a slot : ℕ)
    → ((slot == max_prps - 1) && ltb 0 rest) ≡ true
    → walk lists base max_prps (suc rest) a slot
      ≡ read lists base (read lists base a (max_prps - 1)) 0
        ∷ walk lists base max_prps rest (read lists base a (max_prps - 1)) 1
unfolding walk
walk_chain lists base max_prps rest a slot h = rw h refl
