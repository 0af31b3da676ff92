-- ===== src/Util/Skiplist/Order.antt =====
-- Levels of a skip list as lists of nodes: a level is a part of the one below it, and a search
-- passes a beginning of each.
use libvfn.Base.{
  ℕ, ◌≤◌, ◌≡◌, ◌≢◌, ◌⊎◌, refl, sym, ap, ◌∙◌, Bool, true, false, List, [], ◌∷◌, arith, Bool-cases,
  inl, inr, if◌then◌else◌, ne→==, ==_refl, All, length,
}
use libvfn.Util.Links.{head?, next_of, insert_after}

-- `xs` is `ys` with nodes left out.
pub data Sub : List ℕ → List ℕ → Type 0 where
  done : Sub [] []
  keep : (x : ℕ) {xs ys : List ℕ} → Sub xs ys → Sub (x ∷ xs) (x ∷ ys)
  skip : (y : ℕ) {xs ys : List ℕ} → Sub xs ys → Sub xs (y ∷ ys)

-- No two nodes are the same.
abbrev pub Apart : ℕ → List ℕ → Type 0
Apart x ys = All (λ y. y ≢ x) ys

abbrev pub Distinct : List ℕ → Type 0
Distinct [] = Unit
Distinct (x ∷ xs) = Apart x xs × Distinct xs

pub Sub-Apart : (x : ℕ) {xs ys : List ℕ} → Sub xs ys → Apart x ys → Apart x xs
Sub-Apart x done d = tt
Sub-Apart x (keep y s) d = (d.0, Sub-Apart x s d.1)
Sub-Apart x (skip y s) d = Sub-Apart x s d.1

pub Sub-Distinct : {xs ys : List ℕ} → Sub xs ys → Distinct ys → Distinct xs
Sub-Distinct done d = tt
Sub-Distinct (keep x s) d = (Sub-Apart x s d.0, Sub-Distinct s d.1)
Sub-Distinct (skip y s) d = Sub-Distinct s d.1

pub Sub-trans : {xs ys zs : List ℕ} → Sub xs ys → Sub ys zs → Sub xs zs
Sub-trans s done = s
Sub-trans (keep _ s) (keep y t) = keep y (Sub-trans s t)
Sub-trans (skip _ s) (keep y t) = skip y (Sub-trans s t)
Sub-trans s (skip z t) = skip z (Sub-trans s t)

pub Sub-nil : (ys : List ℕ) → Sub [] ys
Sub-nil [] = done
Sub-nil (y ∷ ys) = skip y (Sub-nil ys)

pub Sub-refl : (ys : List ℕ) → Sub ys ys
Sub-refl [] = done
Sub-refl (y ∷ ys) = keep y (Sub-refl ys)

pub true-false : {b : Bool} → b ≡ true → b ≡ false → ⊥
true-false e h = ground (arith, e, h)

module _ (pass : ℕ → Bool) where
  -- No node is passed.
  abbrev pub Stops : List ℕ → Type 0
  Stops ys = All (λ y. pass y ≡ false) ys

  -- The nodes that are passed stand before the others.
  abbrev pub Split : List ℕ → Type 0
  Split [] = Unit
  Split (x ∷ xs) = ((pass x ≡ true) × Split xs) ⊎ ((pass x ≡ false) × Stops xs)

  abbrev pub take_while : List ℕ → List ℕ
  take_while [] = []
  take_while (x ∷ xs) = if pass x then x ∷ take_while xs else []

  abbrev pub drop_while : List ℕ → List ℕ
  drop_while [] = []
  drop_while (x ∷ xs) = if pass x then drop_while xs else x ∷ xs

  -- A node put between the two.
  abbrev pub insert : ℕ → List ℕ → List ℕ
  insert n [] = n ∷ []
  insert n (x ∷ xs) = if pass x then x ∷ insert n xs else n ∷ x ∷ xs

  -- The last node passed, from `p` on.
  abbrev pub last_passed : ℕ → List ℕ → ℕ
  last_passed p [] = p
  last_passed p (x ∷ xs) = if pass x then last_passed x xs else p

  pub Sub-Stops : {xs ys : List ℕ} → Sub xs ys → Stops ys → Stops xs
  Sub-Stops done d = tt
  Sub-Stops (keep y s) d = (d.0, Sub-Stops s d.1)
  Sub-Stops (skip y s) d = Sub-Stops s d.1

  pub Stops-Split : (xs : List ℕ) → Stops xs → Split xs
  Stops-Split [] d = tt
  Stops-Split (x ∷ xs) d = inr d

  pub Sub-Split : {xs ys : List ℕ} → Sub xs ys → Split ys → Split xs
  Sub-Split done d = tt
  Sub-Split (keep y s) (inl (p, d)) = inl (p, Sub-Split s d)
  Sub-Split (keep y s) (inr (p, d)) = inr (p, Sub-Stops s d)
  Sub-Split (skip y s) (inl (p, d)) = Sub-Split s d
  Sub-Split (skip y s) (inr (p, d)) = Stops-Split _ (Sub-Stops s d)

  -- Where a search stands in a level that begins behind `s`: at `p`, with `rest` behind it, and all
  -- between passed.
  pub data At : ℕ → List ℕ → ℕ → List ℕ → Type 0 where
    here : (s : ℕ) (rest : List ℕ) → At s rest s rest
    there :
        (s x : ℕ) {xs : List ℕ} {p : ℕ} {rest : List ℕ}
        → pass x ≡ true
        → At x xs p rest
        → At s (x ∷ xs) p rest

  pub At-last : {s p : ℕ} {l rest : List ℕ} → At s l p rest → last_passed s l ≡ last_passed p rest
  At-last (here s rest) = refl
  At-last (there s x e a) = rw e (At-last a)

  pub At-drop : {s p : ℕ} {l rest : List ℕ} → At s l p rest → drop_while l ≡ drop_while rest
  At-drop (here s rest) = refl
  At-drop (there s x e a) = rw e (At-drop a)

  At-ne : (t : ℕ) {s p : ℕ} {l rest : List ℕ} → At s l p rest → Apart t (s ∷ l) → p ≢ t
  At-ne t (here s rest) d = d.0
  At-ne t (there s x e a) d = At-ne t a d.1

  pub At-next :
      {s p : ℕ} {l rest : List ℕ}
      → At s l p rest
      → Distinct (s ∷ l)
      → next_of p (s ∷ l) ≡ head? rest
  At-next (here s rest) d = rw (==_refl s)
  At-next (there s x {xs = xs} {p = p} e a) d =
      rw (ne→== s p (λ h. At-ne s a d.0 (sym h))) (At-next a d.1)

  pub At-snoc : {s p n : ℕ} {l rest : List ℕ} → At s l p (n ∷ rest) → pass n ≡ true → At s l n rest
  At-snoc (here s (n ∷ rest)) h = there s n h (here n rest)
  At-snoc (there s x e a) h = there s x e (At-snoc a h)

  -- Down to the next level, which has the passed node, too.
  pub At-down :
      (s x : ℕ) {l m : List ℕ} {p : ℕ} {rest : List ℕ}
      → pass x ≡ true
      → At x l p rest
      → Sub (x ∷ l) m
      → Split m
      → (rest' : List ℕ) × At s m p rest'
  At-down s x e (here _ l) (keep _ {ys = ys} sub) d = (ys, there s x e (here x ys))
  At-down s x e (there _ y e' a) (keep _ sub) (inl (_, d)) =
      let rec = At-down x y e' a sub d in (rec.0, there s x e rec.1)
  At-down s x e (there _ y e' a) (keep _ sub) (inr (h, d)) = absurd (true-false e h)
  At-down s x e a (skip y sub) (inl (h, d)) =
      let rec = At-down y x e a sub d in (rec.0, there s y h rec.1)
  At-down s x e a (skip y sub) (inr (h, d)) = absurd (true-false e (Sub-Stops sub d).0)

  -- The end of the search.
  pub At-end : (s : ℕ) (l : List ℕ) → At s l (last_passed s l) (drop_while l)
  At-end s [] = here s []
  At-end s (x ∷ l) = elim (Bool-cases (pass x)) [
    | inl e ↦ rw e (there s x e (At-end x l))
    | inr e ↦ rw e (here s (x ∷ l))
  ]

  pub next_of-last_passed :
      (s : ℕ) (l : List ℕ)
      → Distinct (s ∷ l)
      → next_of (last_passed s l) (s ∷ l) ≡ head? (drop_while l)
  next_of-last_passed s l d = At-next (At-end s l) d

  last_passed-ne : (t s : ℕ) (l : List ℕ) → Apart t (s ∷ l) → last_passed s l ≢ t
  last_passed-ne t s l d = At-ne t (At-end s l) d

  last_passed_step :
      (s x : ℕ) (l : List ℕ) → pass x ≡ true → last_passed s (x ∷ l) ≡ last_passed x l
  last_passed_step s x l e = rw e refl

  insert_step : (n x : ℕ) (l : List ℕ) → pass x ≡ true → insert n (x ∷ l) ≡ x ∷ insert n l
  insert_step n x l e = rw e refl

  insert_after_step :
      (p n s : ℕ) (l : List ℕ) → s ≢ p → insert_after p n (s ∷ l) ≡ s ∷ insert_after p n l
  insert_after_step p n s l h = rw (ne→== s p h) refl

  pub insert_after-last_passed :
      (n s : ℕ) (l : List ℕ)
      → Distinct (s ∷ l)
      → insert_after (last_passed s l) n (s ∷ l) ≡ s ∷ insert n l
  insert_after-last_passed n s [] d = rw (==_refl s)
  insert_after-last_passed n s (x ∷ l) d = elim (Bool-cases (pass x)) [
    | inl e ↦
        ap (λ p. insert_after p n (s ∷ x ∷ l)) (last_passed_step s x l e)
        ∙ insert_after_step (last_passed x l) n s (x ∷ l) (λ h. last_passed-ne s x l d.0 (sym h))
        ∙ ap (◌∷◌ s) (insert_after-last_passed n x l d.1)
        ∙ sym (ap (◌∷◌ s) (insert_step n x l e))
    | inr e ↦ rw (e, ==_refl s)
  ]

  insert-Stops : (n : ℕ) (l : List ℕ) → Stops l → insert n l ≡ n ∷ l
  insert-Stops n [] d = refl
  insert-Stops n (x ∷ l) d = rw d.0

  pub Sub-insert_right : (n : ℕ) {l m : List ℕ} → Sub l m → Sub l (insert n m)
  Sub-insert_right n done = skip n done
  Sub-insert_right n (keep x s) = elim (Bool-cases (pass x)) [
    | inl e ↦ rw e (keep x (Sub-insert_right n s))
    | inr e ↦ rw e (skip n (keep x s))
  ]
  Sub-insert_right n (skip y s) = elim (Bool-cases (pass y)) [
    | inl e ↦ rw e (skip y (Sub-insert_right n s))
    | inr e ↦ rw e (skip n (skip y s))
  ]

  pub Sub-insert : (n : ℕ) {l m : List ℕ} → Sub l m → Split m → Sub (insert n l) (insert n m)
  Sub-insert n done d = keep n done
  Sub-insert n (keep x s) (inl (e, d)) = rw e (keep x (Sub-insert n s d))
  Sub-insert n (keep x s) (inr (e, d)) = rw e (keep n (keep x s))
  Sub-insert n (skip y s) (inl (e, d)) = rw e (skip y (Sub-insert n s d))
  Sub-insert n {l = l} (skip y s) (inr (e, d)) =
      rw (e, insert-Stops n l (Sub-Stops s d)) (keep n (skip y s))

  pub insert-Apart : (t n : ℕ) (l : List ℕ) → n ≢ t → Apart t l → Apart t (insert n l)
  insert-Apart t n [] h d = (h, tt)
  insert-Apart t n (x ∷ l) h d = ground (arith, insert-Apart t n l h)

  pub insert-Distinct : (n : ℕ) (l : List ℕ) → Apart n l → Distinct l → Distinct (insert n l)
  insert-Distinct n [] h d = (tt, tt)
  insert-Distinct n (x ∷ l) h d = elim (Bool-cases (pass x)) [
    | inl e ↦ rw e (insert-Apart x n l (λ q. h.0 (sym q)) d.0, insert-Distinct n l h.1 d.1)
    | inr e ↦ rw e (h, d)
  ]

pub length-Sub : {xs ys : List ℕ} → Sub xs ys → length xs ≤ length ys
length-Sub done = omega arith
length-Sub (keep x s) = omega (arith, length-Sub s)
length-Sub (skip y s) = omega (arith, length-Sub s)

pub length-At :
    (pass : ℕ → Bool) {s p : ℕ} {l rest : List ℕ} → At pass s l p rest → length rest ≤ length l
length-At pass (here s rest) = omega arith
length-At pass (there s x e a) = omega (arith, length-At pass a)

-- Down to the next level, from wherever the search stands.
pub At-below :
    (pass : ℕ → Bool) {s p : ℕ} {l m rest : List ℕ}
    → At pass s l p rest
    → Sub l m
    → Split pass m
    → (rest' : List ℕ) × At pass s m p rest'
At-below pass {m = m} (here s rest) sub d = (m, here s m)
At-below pass (there s x e a) sub d = At-down pass s x e a sub d
