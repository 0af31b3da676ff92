-- ===== src/Util/Skiplist/Remove.antt =====
-- Lists without a node, as levels of src/util/skiplist.c: against the levels above and below, and
-- against the nodes that a search passes.
use libvfn.Base.{
  ℕ, ◌≡◌, ◌≢◌, ◌⊎◌, refl, sym, ap, subst, ◌∙◌, Bool, true, false, Option, none, some, List, [], ◌∷◌,
  arith, Bool-cases, inl, inr, eq-cases, eq→==, ne→==,
}
use libvfn.Util.Links.{head?, remove}
use libvfn.Util.Skiplist.Order.{
  Sub, done, keep, skip, Sub-Apart, Sub-refl, Split, Distinct, Apart, drop_while, true-false,
}

pub remove-Sub : (n : ℕ) (l : List ℕ) → Sub (remove n l) l
remove-Sub n [] = done
remove-Sub n (x ∷ l) = elim (eq-cases x n) [
  | inl e ↦ rw (eq→== x n e) (skip x (Sub-refl l))
  | inr e ↦ rw (ne→== x n e) (keep x (remove-Sub n l))
]

pub remove_step : (n x : ℕ) (l : List ℕ) → x ≢ n → remove n (x ∷ l) ≡ x ∷ remove n l
remove_step n x l h = rw (ne→== x n h) refl

pub remove-Apart : (n : ℕ) (l : List ℕ) → Apart n l → remove n l ≡ l
remove-Apart n [] h = refl
remove-Apart n (x ∷ l) h = remove_step n x l h.0 ∙ ap (◌∷◌ x) (remove-Apart n l h.1)

pub Sub-remove : (n : ℕ) {l m : List ℕ} → Sub l m → Distinct m → Sub (remove n l) (remove n m)
Sub-remove n done d = done
Sub-remove n (keep x s) d = elim (eq-cases x n) [
  | inl e ↦ rw (eq→== x n e) s
  | inr e ↦ rw (ne→== x n e) (keep x (Sub-remove n s d.1))
]
Sub-remove n {l = l} (skip y {ys = ys} s) d = elim (eq-cases y n) [
  | inl e ↦ rw (eq→== y n e, remove-Apart n l (Sub-Apart n s (subst (λ t. Apart t ys) e d.0))) s
  | inr e ↦ rw (ne→== y n e) (skip y (Sub-remove n s d.1))
]

some_inj : {a b : ℕ} → some a ≡ some b → a ≡ b
some_inj e = ground (arith, e)

module _ (pass : ℕ → Bool) where
  passed :
      (x : ℕ) (l : List ℕ)
      → pass x ≡ true
      → head? (drop_while pass (x ∷ l)) ≡ head? (drop_while pass l)
  passed x l e = rw e refl

  stopped : (x : ℕ) (l : List ℕ) → pass x ≡ false → head? (drop_while pass (x ∷ l)) ≡ some x
  stopped x l e = rw e refl

  first_fails :
      (n : ℕ) (l : List ℕ) → Split pass l → head? (drop_while pass l) ≡ some n → pass n ≡ false
  first_fails n [] d e = absurd (ground (arith, e))
  first_fails n (x ∷ l) (inl (h, d)) e = first_fails n l d (sym (passed x l h) ∙ e)
  first_fails n (x ∷ l) (inr (h, d)) e =
      subst (λ y. pass y ≡ false) (some_inj (sym (stopped x l h) ∙ e)) h

  -- A level above one that has the node first behind those passed has it there, too, or not at all.
  pub first-Sub :
      (n : ℕ) {l m : List ℕ}
      → Sub l m
      → Split pass m
      → Distinct m
      → head? (drop_while pass m) ≡ some n
      → (head? (drop_while pass l) ≡ some n) ⊎ Apart n l
  first-Sub n done d u e = inr tt
  first-Sub n (keep x {xs = xs} {ys = ys} s) (inl (h, d)) u e =
      let f = first_fails n ys d (sym (passed x ys h) ∙ e) in
      elim (first-Sub n s d u.1 (sym (passed x ys h) ∙ e)) [
        | inl i ↦ inl (passed x xs h ∙ i)
        | inr i ↦ inr ((λ q. true-false h (ap pass q ∙ f)), i)
      ]
  first-Sub n (keep x {xs = xs} {ys = ys} s) (inr (h, d)) u e =
      inl (stopped x xs h ∙ sym (stopped x ys h) ∙ e)
  first-Sub n (skip y {ys = ys} s) (inl (h, d)) u e = first-Sub n s d u.1 (sym (passed y ys h) ∙ e)
  first-Sub n {l = l} (skip y {ys = ys} s) (inr (h, d)) u e =
      inr (subst (λ t. Apart t l) (some_inj (sym (stopped y ys h) ∙ e)) (Sub-Apart y s u.0))

  pub Apart-first : (n : ℕ) (l : List ℕ) → Apart n l → head? (drop_while pass l) ≢ some n
  Apart-first n [] h e = ground (arith, e)
  Apart-first n (x ∷ l) h e = elim (Bool-cases (pass x)) [
    | inl b ↦ Apart-first n l h.1 (sym (passed x l b) ∙ e)
    | inr b ↦ h.0 (some_inj (sym (stopped x l b) ∙ e))
  ]

pub some-cases : (o : Option ℕ) (n : ℕ) → (o ≡ some n) ⊎ (o ≢ some n)
some-cases none n = inr (λ e. ground (arith, e))
some-cases (some m) n = elim (eq-cases m n) [
  | inl e ↦ inl (ap some e)
  | inr e ↦ inr (λ h. e (some_inj h))
]

-- A level where the loop finds the node, and one that does not have it.
abbrev pub Meets : (ℕ → Bool) → ℕ → List ℕ → Type 0
Meets pass n l = (head? (drop_while pass l) ≡ some n) ⊎ Apart n l
