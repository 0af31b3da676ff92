-- ===== src/Util/Skiplist/Scan.antt =====
-- The three searches of src/util/skiplist.c against a scan of level 0.
use Prim.Native.Nat.{Ordering}
use libvfn.Base.{
  ℕ, ◌≤◌, ◌<◌, ◌≡◌, ◌≢◌, ◌⊎◌, refl, sym, ap, subst, ◌∙◌, Bool, false, not, Option, none, some, List,
  [], ◌∷◌, arith, Bool-cases, inl, inr, ◌==◌, if◌then◌else◌, length,
}
use libvfn.Util.Links.{ListOps, head?}
use libvfn.Util.Skiplist.{
  sentinel, Cmp, is_gt, is_ge, is_eq, LevelPath, Skiplist, skiplist_find, skiplist_find_le,
  skiplist_find_ge,
}
use libvfn.Util.Skiplist.Order.{
  Split, Stops, Apart, Stops-Split, true-false, drop_while, last_passed,
}
use libvfn.Util.Skiplist.Search.{Valid, search-Searched}

Ordering-cases : (o : Ordering) → (o ≡ Ordering.lt) ⊎ ((o ≡ Ordering.eq) ⊎ (o ≡ Ordering.gt))
Ordering-cases Ordering.lt = inl refl
Ordering-cases Ordering.eq = inr (inl refl)
Ordering-cases Ordering.gt = inr (inr refl)

-- A scan of a list: the first node that passes a test, and the last one, or `d`.
abbrev pub first_where : (ℕ → Bool) → List ℕ → Option ℕ
first_where test [] = none
first_where test (x ∷ xs) = if test x then some x else first_where test xs

abbrev pub last_where : (ℕ → Bool) → Option ℕ → List ℕ → Option ℕ
last_where test d [] = d
last_where test d (x ∷ xs) = last_where test (if test x then some x else d) xs

-- The nodes stand in the order of the comparison: those that the key is larger than, those that it
-- is equal to, and those that it is smaller than.
abbrev pub Ordered : Cmp → List ℕ → Type 0
Ordered cmp l = Split (λ n. is_gt (cmp n)) l × Split (λ n. is_ge (cmp n)) l

first_where-Stops :
    (cmp : Cmp) (l : List ℕ)
    → Stops (λ n. is_ge (cmp n)) l
    → first_where (λ n. is_eq (cmp n)) l ≡ none
first_where-Stops cmp [] d = refl
first_where-Stops cmp (x ∷ xs) d = elim (Ordering-cases (cmp x)) [
  | inl e ↦ rw e (first_where-Stops cmp xs d.1)
  | inr (inl e) ↦ absurd (ground (arith, subst (λ o. is_ge o ≡ false) e d.0))
  | inr (inr e) ↦ absurd (ground (arith, subst (λ o. is_ge o ≡ false) e d.0))
]

module _ (pass : ℕ → Bool) where
  Split-behind : (x : ℕ) (xs : List ℕ) → Split pass (x ∷ xs) → Split pass xs
  Split-behind x xs (inl (e, d)) = d
  Split-behind x xs (inr (e, d)) = Stops-Split pass xs d

  Stops-behind : (x : ℕ) (xs : List ℕ) → Split pass (x ∷ xs) → pass x ≡ false → Stops pass xs
  Stops-behind x xs (inl (e, d)) h = absurd (true-false e h)
  Stops-behind x xs (inr (e, d)) h = d

abbrev equal : Cmp → Option ℕ → Option ℕ
equal cmp none = none
equal cmp (some n) = if is_eq (cmp n) then some n else none

equal_path :
    (cmp : Cmp) (path : LevelPath) (o : Option ℕ)
    → elim o as (λ _. Option (Option ℕ × LevelPath)) [
      | none ↦ some (none, path)
      | some n ↦ some (if is_eq (cmp n) then some n else none, path)
    ]
      ≡ some (equal cmp o, path)
equal_path cmp path none = refl
equal_path cmp path (some n) = refl

first_where-drop_while :
    (cmp : Cmp) (l : List ℕ)
    → Ordered cmp l
    → equal cmp (head? (drop_while (λ n. is_gt (cmp n)) l)) ≡ first_where (λ n. is_eq (cmp n)) l
first_where-drop_while cmp [] d = refl
first_where-drop_while cmp (x ∷ xs) d = elim (Ordering-cases (cmp x)) [
  | inl e ↦
      rw (e, e)
        (sym (first_where-Stops cmp xs (Stops-behind (λ n. is_ge (cmp n)) x xs d.1 (ap is_ge e))))
  | inr (inl e) ↦ rw (e, e) refl
  | inr (inr e) ↦ rw e (
      first_where-drop_while cmp xs
        (Split-behind (λ n. is_gt (cmp n)) x xs d.0, Split-behind (λ n. is_ge (cmp n)) x xs d.1))
]

-- `skiplist_find` in a list whose levels are in form: with fuel for the nodes of level 0, in the
-- order of the comparison, it returns the first node that is equal to the key, as a scan of level 0
-- would find it, or NULL if there is none, and on each level up to the height the path is the last
-- node there that the key is larger than, or the sentinel.
pub skiplist_find-scan :
    (ops : ListOps) (s : Skiplist ops) (lvl : ℕ → List ℕ) (cmp : Cmp) (fuel : ℕ)
    → Valid ops s lvl
    → Ordered cmp (lvl 0)
    → length (lvl 0) < fuel
    → (path : LevelPath) × ((skiplist_find ops s cmp fuel
          ≡ some (first_where (λ n. is_eq (cmp n)) (lvl 0), path))
        × ((k : ℕ) → k ≤ s.height → path k ≡ last_passed (λ n. is_gt (cmp n)) sentinel (lvl k)))
unfolding skiplist_find
skiplist_find-scan ops s lvl cmp fuel v d hf =
    let r = search-Searched ops v (λ n. is_gt (cmp n)) d.0 fuel hf in
    (
      r.f.path,
      (
        rw (skiplist_find, r.found_lem, r.next_lem)
            (equal_path cmp r.f.path (head? (drop_while (λ n. is_gt (cmp n)) (lvl 0)))
              ∙ ap (λ o. some (o, r.f.path)) (first_where-drop_while cmp (lvl 0) d)),
        r.path_lem,
      ),
    )

last_where-Stops :
    (pass : ℕ → Bool) (d : Option ℕ) (l : List ℕ) → Stops pass l → last_where pass d l ≡ d
last_where-Stops pass d [] h = refl
last_where-Stops pass d (x ∷ xs) h = rw h.0 (last_where-Stops pass d xs h.1)

-- A node, or `none` for the sentinel.
abbrev node_of : ℕ → Option ℕ
node_of p = if p == sentinel then none else some p

node_lem : (x : ℕ) → x ≢ sentinel → some x ≡ node_of x
node_lem x h = ground (arith, h)

last_where-last_passed :
    (pass : ℕ → Bool) (p : ℕ) (l : List ℕ)
    → Split pass l
    → Apart sentinel l
    → node_of (last_passed pass p l) ≡ last_where pass (node_of p) l
last_where-last_passed pass p [] d h = refl
last_where-last_passed pass p (x ∷ xs) (inl (e, d)) h =
    rw e (
      last_where-last_passed pass x xs d h.1
      ∙ ap (λ q. last_where pass q xs) (sym (node_lem x h.0)))
last_where-last_passed pass p (x ∷ xs) (inr (e, d)) h =
    rw e (sym (last_where-Stops pass (node_of p) xs d))

-- `skiplist_find_le` in a list whose levels are in form: with fuel for the nodes of level 0, in the
-- order of the comparison, it returns the last node that the key is not smaller than, as a scan of
-- level 0 would find it, or NULL if there is none, and on each level up to the height the path is
-- the last such node there, or the sentinel.
pub skiplist_find_le-scan :
    (ops : ListOps) (s : Skiplist ops) (lvl : ℕ → List ℕ) (cmp : Cmp) (fuel : ℕ)
    → Valid ops s lvl
    → Ordered cmp (lvl 0)
    → length (lvl 0) < fuel
    → (path : LevelPath) × ((skiplist_find_le ops s cmp fuel
          ≡ some (last_where (λ n. is_ge (cmp n)) none (lvl 0), path))
        × ((k : ℕ) → k ≤ s.height → path k ≡ last_passed (λ n. is_ge (cmp n)) sentinel (lvl k)))
unfolding skiplist_find_le
skiplist_find_le-scan ops s lvl cmp fuel v d hf =
    let r = search-Searched ops v (λ n. is_ge (cmp n)) d.1 fuel hf in
    (
      r.f.path,
      (
        rw (skiplist_find_le, r.found_lem, r.p_lem)
            (ap (λ o. some (o, r.f.path))
              (last_where-last_passed (λ n. is_ge (cmp n)) sentinel (lvl 0) d.1 v.distinct.0)),
        r.path_lem,
      ),
    )

first_where-head :
    (pass : ℕ → Bool) (l : List ℕ) → head? (drop_while pass l) ≡ first_where (λ n. not (pass n)) l
first_where-head pass [] = refl
first_where-head pass (x ∷ xs) = elim (Bool-cases (pass x)) [
  | inl e ↦ rw e (first_where-head pass xs)
  | inr e ↦ rw e refl
]

-- `skiplist_find_ge` in a list whose levels are in form: with fuel for the nodes of level 0, in the
-- order of the comparison, it returns the first node that the key is not larger than, as a scan of
-- level 0 would find it, or NULL if there is none, and on each level up to the height the path is
-- the last node there that the key is larger than, or the sentinel.
pub skiplist_find_ge-scan :
    (ops : ListOps) (s : Skiplist ops) (lvl : ℕ → List ℕ) (cmp : Cmp) (fuel : ℕ)
    → Valid ops s lvl
    → Ordered cmp (lvl 0)
    → length (lvl 0) < fuel
    → (path : LevelPath) × ((skiplist_find_ge ops s cmp fuel
          ≡ some (first_where (λ n. not (is_gt (cmp n))) (lvl 0), path))
        × ((k : ℕ) → k ≤ s.height → path k ≡ last_passed (λ n. is_gt (cmp n)) sentinel (lvl k)))
unfolding skiplist_find_ge
skiplist_find_ge-scan ops s lvl cmp fuel v d hf =
    let r = search-Searched ops v (λ n. is_gt (cmp n)) d.0 fuel hf in
    (
      r.f.path,
      (
        rw (skiplist_find_ge, r.found_lem, r.next_lem)
            (ap (λ o. some (o, r.f.path)) (first_where-head (λ n. is_gt (cmp n)) (lvl 0))),
        r.path_lem,
      ),
    )
