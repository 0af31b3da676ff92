-- ===== src/Iommu/Reserve/BestFit.antt =====
-- The best fit in the list of free ranges of src/iommu/vfio.c, and its removal.
use libvfn.Base.{
  ℕ, suc, ◌+◌, ◌-◌, ◌≤◌, ◌<◌, ◌≡◌, ◌⊎◌, refl, sym, ap, subst, ◌∙◌, Bool, true, ◌&&◌, ◌||◌, Option,
  none, some, List, [], ◌∷◌, arith, inl, inr, Bool-cases, Option-cases, eq-cases, ltb, leb, ◌==◌,
  eq→==, ne→==,
}
use libvfn.Support.Word.{add64, sub64}
use libvfn.Iommu.Reserve.{
  FreeRange, best_fit, get_free_range, drop_range, cut_range, get_free, size_max,
}
use libvfn.Iommu.Reserve.Bytes.{within, covers, Spaced, Apart, or_swap, joined_within}

-- A range of the list.
abbrev Picked : FreeRange → List FreeRange → Type 0
Picked r [] = ⊥
Picked r (x ∷ xs) = (x ≡ r) ⊎ Picked r xs

-- The bytes have been taken out of the ranges.
pub record Taken (lo start len : ℕ) (rs rs' : List FreeRange) : Type 0 where
  pub spaced : Spaced lo rs'
  pub covers_lem : (u : ℕ) → covers u rs ≡ (within u start len || covers u rs')
  pub apart : Apart start len rs'

Picked-lo :
    (lo : ℕ) (r : FreeRange) (rs : List FreeRange) → Spaced lo rs → Picked r rs → lo ≤ r.start
Picked-lo lo r [] d p = absurd p
Picked-lo lo r (x ∷ xs) d (inl e) = subst (λ (y : FreeRange). lo ≤ y.start) e d.0.0
Picked-lo lo r (x ∷ xs) d (inr p) =
    omega (arith, Picked-lo (suc (x.start + x.len)) r xs d.1.1 p, d.0.0)

lower : (lo lo' : ℕ) (rs : List FreeRange) → lo ≤ lo' → Spaced lo' rs → Spaced lo rs
lower lo lo' [] h d = tt
lower lo lo' (r ∷ rs) h d = ((omega (arith, d.0.0), d.0.1), d.1)

Spaced-Apart :
    (lo start len : ℕ) (rs : List FreeRange) → start + len ≤ lo → Spaced lo rs → Apart start len rs
Spaced-Apart lo start len [] h d = tt
Spaced-Apart lo start len (r ∷ rs) h d = (
  inl (omega (arith, d.0.0)),
  Spaced-Apart (suc (r.start + r.len)) start len rs (omega (arith, d.0.0)) d.1.1,
)

Taken-cons :
    (lo start len : ℕ) (x : FreeRange) (xs out : List FreeRange)
    → Spaced lo (x ∷ xs)
    → x.start + x.len ≤ start
    → Taken (suc (x.start + x.len)) start len xs out
    → Taken lo start len (x ∷ xs) (x ∷ out)
Taken-cons lo start len x xs out d h t = record {
  spaced = (d.0, (d.1.0, t.spaced));
  covers_lem = λ u.
      ap (λ b. within u x.start x.len || b) (t.covers_lem u)
      ∙ or_swap (within u x.start x.len) (within u start len) (covers u out);
  apart = (inr h, t.apart);
}

-- The whole range.
drop_range-Taken :
    (lo : ℕ) (r : FreeRange) (rs : List FreeRange)
    → Spaced lo rs
    → Picked r rs
    → Taken lo r.start r.len rs (drop_range rs r.start)
unfolding drop_range
drop_range-Taken lo r [] d p = absurd p
drop_range-Taken lo r (x ∷ xs) d (inl e) =
    rw (drop_range, eq→== x.start r.start (ap (λ (y : FreeRange). y.start) e))
      (record {
        spaced = lower lo (suc (x.start + x.len)) xs (omega (arith, d.0.0)) d.1.1;
        covers_lem = λ u. ap (λ (y : FreeRange). within u y.start y.len || covers u xs) e;
        apart =
            Spaced-Apart (suc (x.start + x.len)) r.start r.len xs
              (subst (λ (y : FreeRange). y.start + y.len ≤ suc (x.start + x.len)) e (omega arith))
              d.1.1;
      })
drop_range-Taken lo r (x ∷ xs) d (inr p) =
    let behind = Picked-lo (suc (x.start + x.len)) r xs d.1.1 p in
    rw (drop_range, ne→== x.start r.start (λ e. omega (arith, e, behind)))
      (Taken-cons lo r.start r.len x xs (drop_range xs r.start) d (omega (arith, behind))
        (drop_range-Taken (suc (x.start + x.len)) r xs d.1.1 p))

cut_within :
    (u a l len a' l' s : ℕ) (c : Bool)
    → a' ≡ a + len
    → l' ≡ l - len
    → len < l
    → a ≡ s
    → (within u a l || c) ≡ (within u s len || (within u a' l' || c))
cut_within u a l len a' l' s c e h lt q =
    let whole : l ≡ len + (l - len) = omega arith in
    ap (λ x. within u a x || c) whole
    ∙ joined_within u a len (l - len) c
    ∙ or_swap (within u (a + len) (l - len)) (within u a len) c
    ∙ ap (λ x. within u x len || (within u (a + len) (l - len) || c)) q
    ∙ ap (λ x. within u s len || (within u x (l - len) || c)) (sym e)
    ∙ ap (λ x. within u s len || (within u a' x || c)) (sym h)

-- The first bytes of a longer range.
cut_range-Taken :
    (lo len : ℕ) (r : FreeRange) (rs : List FreeRange)
    → Spaced lo rs
    → len < r.len
    → Picked r rs
    → Taken lo r.start len rs (cut_range rs r.start len)
unfolding cut_range
cut_range-Taken lo len r [] d h p = absurd p
cut_range-Taken lo len r (x ∷ xs) d h (inl e) =
    let starts = ap (λ (y : FreeRange). y.start) e in
    let lens = ap (λ (y : FreeRange). y.len) e in
    let a : add64 x.start len ≡ x.start + len = omega (arith, d.1.0, lens) in
    let b : sub64 x.len len ≡ x.len - len = omega (arith, d.1.0, lens) in
    rw (cut_range, eq→== x.start r.start starts)
      (record {
        spaced = (
          (omega (arith, a, d.0.0), omega (arith, b, lens)),
          (
            omega (arith, a, b, lens, d.1.0),
            subst (λ y. Spaced (suc y) xs) (omega (arith, a, b, lens)) d.1.1,
          ),
        );
        covers_lem = λ u.
            cut_within u x.start x.len len (add64 x.start len) (sub64 x.len len) r.start
              (covers u xs) a b (omega (arith, lens)) starts;
        apart = (
          inl (omega (arith, a, starts)),
          Spaced-Apart (suc (x.start + x.len)) r.start len xs (omega (arith, starts, lens)) d.1.1,
        );
      })
cut_range-Taken lo len r (x ∷ xs) d h (inr p) =
    let behind = Picked-lo (suc (x.start + x.len)) r xs d.1.1 p in
    rw (cut_range, ne→== x.start r.start (λ e. omega (arith, e, behind)))
      (Taken-cons lo r.start len x xs (cut_range xs r.start len) d (omega (arith, behind))
        (cut_range-Taken (suc (x.start + x.len)) len r xs d.1.1 h p))

some_inj : {a b : FreeRange} → some a ≡ some b → a ≡ b
some_inj e = ground (arith, e)

fits : (len l size : ℕ) → (leb len l && ltb l size) ≡ true → len ≤ l
fits len l size h = ground arith

-- The best fit is a range of the list, with room for the bytes.
best_fit-Picked :
    (rs : List FreeRange) (len : ℕ) (best : Option FreeRange) (size : ℕ) (r : FreeRange)
    → best_fit rs len best size ≡ some r
    → (best ≡ some r) ⊎ (Picked r rs × (len ≤ r.len))
unfolding best_fit
best_fit-Picked [] len best size r e = inl e
best_fit-Picked (x ∷ xs) len best size r e = elim (Bool-cases (leb len x.len && ltb x.len size)) [
  | inl t ↦ elim (Bool-cases (x.len == len)) [
    | inl q ↦
        let w : best_fit (x ∷ xs) len best size ≡ some x = rw (best_fit, t, q) refl in
        let xr = some_inj (sym w ∙ e) in
        inr (inl xr, subst (λ (y : FreeRange). len ≤ y.len) xr (fits len x.len size t))
    | inr q ↦
        let w : best_fit (x ∷ xs) len best size ≡ best_fit xs len (some x) x.len =
          rw (best_fit, t, q) refl in
        elim (best_fit-Picked xs len (some x) x.len r (sym w ∙ e)) [
          | inl y ↦ inr (
            inl (some_inj y),
            subst (λ (y : FreeRange). len ≤ y.len) (some_inj y) (fits len x.len size t),
          )
          | inr y ↦ inr (inr y.0, y.1)
        ]
  ]
  | inr t ↦
      let w : best_fit (x ∷ xs) len best size ≡ best_fit xs len best size = rw (best_fit, t) refl in
      elim (best_fit-Picked xs len best size r (sym w ∙ e)) [
        | inl y ↦ inl y
        | inr y ↦ inr (inr y.0, y.1)
      ]
]

abbrev fst_some : List FreeRange → ℕ → List FreeRange × Option ℕ
fst_some free iova = (free, some iova)

move :
    (out out' : List FreeRange) (start start' len : ℕ) (free : List FreeRange)
    → out ≡ out'
    → start ≡ start'
    → Taken 0 start len free out
    → Taken 0 start' len free out'
move out out' start start' len free a b t =
    subst (λ o. Taken 0 start' len free o) a (subst (λ i. Taken 0 i len free out) b t)

pair_inj : {a b : List FreeRange} {x y : ℕ} → fst_some a x ≡ fst_some b y → (a ≡ b) × (x ≡ y)
pair_inj {a = a} {x = x} e = (
  ap (λ (p : List FreeRange × Option ℕ). p.0) e,
  ap (λ (p : List FreeRange × Option ℕ). elim p.1 [ some z ↦ z | none ↦ x ]) e,
)

-- `__iova_get_free` of at least one byte from free ranges that are in order with a gap between each
-- two, where it succeeds: the bytes from the address on were free and are so no more,
-- every other address is free as before, and the free ranges stay in order with a gap between each
-- two.
pub get_free-Taken :
    (len iova : ℕ) (free free' : List FreeRange)
    → Spaced 0 free
    → 0 < len
    → get_free free len ≡ (free', some iova)
    → Taken 0 iova len free free'
unfolding get_free get_free_range
get_free-Taken len iova free free' d h e = elim (Option-cases (best_fit free len none size_max)) [
  | inl q ↦
      let w : (get_free free len).1 ≡ none = rw (get_free, q) refl in
      absurd (ground (arith, sym w ∙ ap (λ (p : List FreeRange × Option ℕ). p.1) e))
  | inr (r, q) ↦ elim (best_fit-Picked free len none size_max r q) [
    | inl y ↦ absurd (ground (arith, y))
    | inr (p, fit) ↦ elim (eq-cases r.len len) [
      | inl s ↦
          let w : get_free free len ≡ fst_some (drop_range free r.start) r.start =
            rw (get_free, q, eq→== r.len len s) refl in
          let (a, b) = pair_inj (sym w ∙ e) in
          move (drop_range free r.start) free' r.start iova len free a b (
            subst (λ l. Taken 0 r.start l free (drop_range free r.start)) s
              (drop_range-Taken 0 r free d p))
      | inr s ↦
          let w : get_free free len ≡ fst_some (cut_range free r.start len) r.start =
            rw (get_free, q, ne→== r.len len s) refl in
          let (a, b) = pair_inj (sym w ∙ e) in
          move (cut_range free r.start len) free' r.start iova len free a b
            (cut_range-Taken 0 len r free d (omega arith) p)
    ]
  ]
]
