-- ===== src/Iommu/Reserve/Bump.antt =====
-- Addresses taken from the front of the usable ranges.
use libvfn.Base.{
  ℕ, ◌+◌, ◌%◌, ◌≤◌, ◌<◌, ◌≡◌, ◌⊎◌, refl, sym, ap, ◌∙◌, Bool, false, ◌||◌, some, none, Option, List,
  [], ◌∷◌, arith, inl, inr, All, Bool-cases, ltb, ltb→le, max,
}
use libvfn.Support.Word.{u64, add64, sub64}
use libvfn.Iommu.Reserve.{Range, bump}

-- A range of the list that the addresses from `iova` on lie in.
unfoldable pub Within : List Range → ℕ → ℕ → Type 0
Within [] iova len = ⊥
Within (r ∷ rs) iova len = ((r.start ≤ iova) × (iova + len ≤ r.last + 1)) ⊎ Within rs iova len

abbrev pub Words : List Range → Type 0
Words rs = All (λ (r : Range). (r.start < u64) × (r.last < u64)) rs

-- What a reservation of `len` bytes from `next` on gives: an address at or behind `next`, in one of
-- the ranges with all of its bytes, and the address behind them.
pub record Reserved (rs : List Range) (next len iova next' : ℕ) : Type 0 where
  pub from : next ≤ iova
  pub within : Within rs iova len
  pub next_lem : next' ≡ (iova + len) % u64

some_inj : {p q : ℕ × ℕ} → some p ≡ some q → p ≡ q
some_inj {p = p} h = ap (λ (o : Option (ℕ × ℕ)). elim o [ some x ↦ x | none ↦ p ]) h

-- The room that the code computes in a range, against its bound.
or_false : (a b : Bool) → (a || b) ≡ false → (a ≡ false) × (b ≡ false)
or_false a b e = ground (arith, e)

room_bound :
    (start last len : ℕ)
    → start < u64
    → last < u64
    → 0 < len
    → start ≤ last
    → len ≤ add64 (sub64 last start) 1
    → start + len ≤ last + 1
room_bound start last len h h' hl a b = omega arith

room :
    (start last len : ℕ)
    → start < u64
    → last < u64
    → 0 < len
    → (ltb last start || ltb (add64 (sub64 last start) 1) len) ≡ false
    → start + len ≤ last + 1
room start last len h h' hl e =
    let (a, b) = or_false (ltb last start) (ltb (add64 (sub64 last start) 1) len) e in
    room_bound start last len h h' hl (ltb→le last start a)
      (ltb→le (add64 (sub64 last start) 1) len b)

abbrev pair : ℕ → ℕ → Option (ℕ × ℕ)
pair a b = some (a, b)

Reserved-here :
    (r : Range) (rs : List Range) (next len iova next' iova' next'' : ℕ)
    → next ≤ iova
    → r.start ≤ iova
    → iova + len ≤ r.last + 1
    → next' ≡ (iova + len) % u64
    → pair iova next' ≡ pair iova' next''
    → Reserved (r ∷ rs) next len iova' next''
unfolding Within
Reserved-here r rs next len iova next' iova' next'' hf hs hl hn e =
    let i : iova ≡ iova' = ap (λ (p : ℕ × ℕ). p.0) (some_inj e) in
    let n : next' ≡ next'' = ap (λ (p : ℕ × ℕ). p.1) (some_inj e) in
    record {
      from = omega arith;
      within = inl (omega arith, omega arith);
      next_lem = sym n ∙ hn ∙ ap (λ x. (x + len) % u64) i;
    }

Reserved-behind :
    (r : Range) (rs : List Range) (next next1 len iova next' : ℕ)
    → next ≤ next1
    → Reserved rs next1 len iova next'
    → Reserved (r ∷ rs) next len iova next'
unfolding Within
Reserved-behind r rs next next1 len iova next' h x = record {
  from = omega (arith, x.from);
  within = inr x.within;
  next_lem = x.next_lem;
}

-- `__iova_reserve` of at least one byte, from ranges and `*next` that are 64-bit words, where it
-- succeeds: the bytes are in one of the ranges, at or behind
-- `*next`, and `*next` becomes the address behind them, as a 64-bit word.
pub bump-Reserved :
    (rs : List Range) (next len iova next' : ℕ)
    → Words rs
    → next < u64
    → 0 < len
    → bump rs next len ≡ some (iova, next')
    → Reserved rs next len iova next'
unfolding bump
bump-Reserved [] next len iova next' w h hl e = absurd (ground (arith, e))
bump-Reserved (r ∷ rs) next len iova next' w h hl e =
    let start = max next r.start in
    elim (Bool-cases (ltb r.last next)) [
      | inl t ↦
          let q : bump (r ∷ rs) next len ≡ bump rs next len = rw (bump, t) refl in
          Reserved-behind r rs next next len iova next' (omega arith)
            (bump-Reserved rs next len iova next' w.1 h hl (sym q ∙ e))
      | inr t ↦ elim (Bool-cases (ltb r.last start || ltb (add64 (sub64 r.last start) 1) len)) [
        | inl b ↦
            let q : bump (r ∷ rs) next len ≡ bump rs start len = rw (bump, t, b) refl in
            Reserved-behind r rs next start len iova next' (omega arith)
              (bump-Reserved rs start len iova next' w.1 (omega (arith, w.0.0)) hl (sym q ∙ e))
        | inr b ↦
            let q : bump (r ∷ rs) next len ≡ some (start, add64 start len) = rw (bump, t, b) refl in
            Reserved-here r rs next len start (add64 start len) iova next' (omega arith)
              (omega arith) (room start r.last len (omega (arith, w.0.0)) w.0.1 hl b) refl
              (sym q ∙ e)
      ]
    ]
