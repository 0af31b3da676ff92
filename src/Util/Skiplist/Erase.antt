-- ===== src/Util/Skiplist/Erase.antt =====
-- `skiplist_erase` of src/util/skiplist.c: the node leaves every level.
use libvfn.Base.{
  ℕ, zero, suc, ◌+◌, ◌≤◌, ◌<◌, ◌≡◌, ◌≢◌, refl, sym, ap, ap₂, subst, ◌∙◌, Bool, none, some, List, [],
  ◌∷◌, arith, Option-cases, inl, inr, eq-cases, le-cases, update, update_self, update_ne, ==_refl,
  ne→==,
}
use libvfn.Util.Links.{ListOps, head?, next_of, remove}
use libvfn.Util.Skiplist.{sentinel, LevelPath, Skiplist, del_levels, reduce_height, skiplist_erase}
use libvfn.Util.Skiplist.Order.{
  Sub, Sub-Apart, Sub-Distinct, Sub-refl, Sub-trans, Sub-Split, Split, last_passed, drop_while,
  next_of-last_passed,
}
use libvfn.Util.Skiplist.Search.{Valid, Valid-Sub, Valid-Distinct}
use libvfn.Util.Skiplist.Remove.{
  remove-Sub, remove_step, remove-Apart, Sub-remove, first-Sub, Apart-first, some-cases, Meets,
}

module _ (ops : ListOps) where
  open ops use {Head, nodes, next_lem, list_next, list_del_from, nodes-del_from}

  -- Where the loop goes on, and where it stops.
  del_levels-on :
      (heads : ℕ → Head) (path : LevelPath) (n rounds k : ℕ)
      → list_next (heads k) (path k) ≡ some n
      → del_levels ops heads path n (suc rounds) k
        ≡ del_levels ops (update heads k (list_del_from (heads k) n)) path n rounds (suc k)
  unfolding del_levels
  del_levels-on heads path n rounds k e = rw (del_levels, e, ==_refl n) refl

  del_levels-off :
      (heads : ℕ → Head) (path : LevelPath) (n rounds k : ℕ)
      → list_next (heads k) (path k) ≢ some n
      → del_levels ops heads path n (suc rounds) k ≡ heads
  unfolding del_levels
  del_levels-off heads path n rounds k h = elim (Option-cases (list_next (heads k) (path k))) [
    | inl e ↦ rw (del_levels, e) refl
    | inr (m, e) ↦ rw (del_levels, e, ne→== m n (λ q. h (e ∙ ap some q))) refl
  ]

  del_levels-below :
      (heads : ℕ → Head) (path : LevelPath) (n rounds k j : ℕ)
      → j < k
      → del_levels ops heads path n rounds k j ≡ heads j
  unfolding del_levels
  del_levels-below heads path n zero k j h = refl
  del_levels-below heads path n (suc rounds) k j h =
      elim (some-cases (list_next (heads k) (path k)) n) [
        | inl e ↦
            ap (λ f. f j) (del_levels-on heads path n rounds k e)
            ∙ del_levels-below (update heads k (list_del_from (heads k) n)) path n rounds (suc k) j
                (omega arith)
            ∙ update_ne heads k j (list_del_from (heads k) n) (omega arith)
        | inr e ↦ ap (λ f. f j) (del_levels-off heads path n rounds k e)
      ]

  next-path :
      {s : Skiplist ops} {lvl : ℕ → List ℕ}
      → Valid ops s lvl
      → (pass : ℕ → Bool) (h : Head) (k p : ℕ) → nodes h ≡ sentinel ∷ lvl k
      → p ≡ last_passed pass sentinel (lvl k)
      → list_next h p ≡ head? (drop_while pass (lvl k))
  next-path {lvl = lvl} v pass h k p e hp =
      next_lem h p
      ∙ ap₂ next_of hp e
      ∙ next_of-last_passed pass sentinel (lvl k) (Valid-Distinct ops v k)

  del-nodes :
      {s : Skiplist ops} {lvl : ℕ → List ℕ}
      → Valid ops s lvl
      → (h : Head) (n k : ℕ) → sentinel ≢ n
      → nodes h ≡ sentinel ∷ lvl k
      → nodes (list_del_from h n) ≡ sentinel ∷ remove n (lvl k)
  del-nodes {lvl = lvl} v h n k hn e =
      nodes-del_from h n ∙ ap (remove n) e ∙ remove_step n sentinel (lvl k) hn

  Sub-between :
      {s : Skiplist ops} {lvl : ℕ → List ℕ}
      → Valid ops s lvl
      → (k j : ℕ) → k ≤ j
      → Sub (lvl j) (lvl k)
  Sub-between {lvl = lvl} v k zero h =
      let e : 0 ≡ k = omega arith in subst (λ i. Sub (lvl 0) (lvl i)) e (Sub-refl (lvl 0))
  Sub-between {lvl = lvl} v k (suc j) h = elim (eq-cases (suc j) k) [
    | inl e ↦ subst (λ i. Sub (lvl (suc j)) (lvl i)) e (Sub-refl (lvl (suc j)))
    | inr e ↦ Sub-trans (v.sub j) (Sub-between v k j (omega arith))
  ]

  -- The loop from level `k` on.
  del_levels-nodes :
      {s : Skiplist ops} {lvl : ℕ → List ℕ}
      → Valid ops s lvl
      → (pass : ℕ → Bool) (path : LevelPath) (n rounds k : ℕ) (heads : ℕ → Head)
      → Split pass (lvl 0)
      → sentinel ≢ n
      → ((j : ℕ) → j < rounds + k → path j ≡ last_passed pass sentinel (lvl j))
      → s.height < rounds + k
      → Meets pass n (lvl k)
      → ((i : ℕ) → k ≤ i → nodes (heads i) ≡ sentinel ∷ lvl i)
      → (j : ℕ) → k ≤ j
      → nodes (del_levels ops heads path n rounds k j) ≡ sentinel ∷ remove n (lvl j)
  unfolding del_levels
  del_levels-nodes v pass path n zero k heads d hn hp hh m hi j hk =
      let e = v.above j (omega arith) in hi j hk ∙ ap (◌∷◌ sentinel) (e ∙ sym (ap (remove n) e))
  del_levels-nodes {lvl = lvl} v pass path n (suc rounds) k heads d hn hp hh (inl e) hi j hk =
      let head = list_del_from (heads k) n in
      let next = next-path v pass (heads k) k (path k) (hi k (omega arith)) (hp k (omega arith)) in
      ap (λ f. nodes (f j)) (del_levels-on heads path n rounds k (next ∙ e)) ∙ elim (eq-cases j k) [
        | inl q ↦
            ap nodes (
              del_levels-below (update heads k head) path n rounds (suc k) j (omega arith)
              ∙ ap (update heads k head) q
              ∙ update_self heads k head)
            ∙ del-nodes v (heads k) n k hn (hi k (omega arith))
            ∙ ap (λ i. sentinel ∷ remove n (lvl i)) (sym q)
        | inr q ↦
            del_levels-nodes v pass path n rounds (suc k) (update heads k head) d hn
              (λ i h. hp i (omega arith)) (omega arith)
              (first-Sub pass n (v.sub k) (Sub-Split pass (Valid-Sub ops v k) d)
                (Sub-Distinct (Valid-Sub ops v k) v.distinct.1) e)
              (λ i h. ap nodes (update_ne heads k i head (omega arith)) ∙ hi i (omega arith)) j
              (omega arith)
      ]
  del_levels-nodes {lvl = lvl} v pass path n (suc rounds) k heads d hn hp hh (inr a) hi j hk =
      let next = next-path v pass (heads k) k (path k) (hi k (omega arith)) (hp k (omega arith)) in
      ap (λ f. nodes (f j))
        (del_levels-off heads path n rounds k (λ e. Apart-first pass n (lvl k) a (sym next ∙ e)))
      ∙ hi j hk
      ∙ ap (◌∷◌ sentinel) (sym (remove-Apart n (lvl j) (Sub-Apart n (Sub-between v k j hk) a)))

  reduce_height-le : (heads : ℕ → Head) (h : ℕ) → reduce_height ops heads h ≤ h
  unfolding reduce_height
  reduce_height-le heads zero = omega arith
  reduce_height-le heads (suc h) = elim (Option-cases (list_next (heads (suc h)) sentinel)) [
    | inl e ↦ rw (reduce_height, e) (omega (arith, reduce_height-le heads h))
    | inr (m, e) ↦ rw (reduce_height, e) (omega arith)
  ]

  -- The levels that the height is reduced by are empty.
  reduce_height-above :
      (heads : ℕ → Head) (h k : ℕ)
      → reduce_height ops heads h < k
      → k ≤ h
      → list_next (heads k) sentinel ≡ none
  unfolding reduce_height
  reduce_height-above heads zero k i j = absurd (omega arith)
  reduce_height-above heads (suc h) k i j =
      elim (Option-cases (list_next (heads (suc h)) sentinel)) [
        | inl e ↦
            let q : reduce_height ops heads (suc h) ≡ reduce_height ops heads h =
              rw (reduce_height, e) refl in
            elim (eq-cases k (suc h)) [
              | inl r ↦ ap (λ i. list_next (heads i) sentinel) r ∙ e
              | inr r ↦ reduce_height-above heads h k (subst (λ x. x < k) q i) (omega arith)
            ]
        | inr (m, e) ↦
            let q : reduce_height ops heads (suc h) ≡ suc h = rw (reduce_height, e) refl in
            absurd (omega (arith, subst (λ x. x < k) q i))
      ]

  next-nil : (h : Head) (l : List ℕ) → nodes h ≡ sentinel ∷ l → list_next h sentinel ≡ none → l ≡ []
  next-nil h [] e q = refl
  next-nil h (x ∷ l) e q =
      absurd (ground (arith, sym q ∙ next_lem h sentinel ∙ ap (next_of sentinel) e))

  -- `skiplist_erase` in a list whose levels are in form: given the path that a search has left, for
  -- the node that the search has stopped at on level 0, the node is taken out of every level that
  -- has it; the levels keep their form, and none above the new height has a node.
  pub skiplist_erase-Valid :
      (s : Skiplist ops) (lvl : ℕ → List ℕ) (pass : ℕ → Bool) (n : ℕ) (path : LevelPath)
      → Valid ops s lvl
      → Split pass (lvl 0)
      → head? (drop_while pass (lvl 0)) ≡ some n
      → ((k : ℕ) → k ≤ s.height → path k ≡ last_passed pass sentinel (lvl k))
      → Valid ops (skiplist_erase ops s n path) (λ k. remove n (lvl k))
  unfolding skiplist_erase
  skiplist_erase-Valid s lvl pass n path v d e hp =
      let hn : sentinel ≢ n =
        λ q. Apart-first pass sentinel (lvl 0) v.distinct.0 (e ∙ ap some (sym q)) in
      let heads = del_levels ops s.heads path n (s.height + 1) 0 in
      let lem : (j : ℕ) → nodes (heads j) ≡ sentinel ∷ remove n (lvl j) = λ j.
        del_levels-nodes v pass path n (s.height + 1) 0 s.heads d hn (λ i h. hp i (omega arith))
          (omega arith) (inl e) (λ i h. v.heads_lem i) j (omega arith) in
      record {
        heads_lem = lem;
        sub = λ k. Sub-remove n (v.sub k) (Sub-Distinct (Valid-Sub ops v k) v.distinct.1);
        distinct = (
          Sub-Apart sentinel (remove-Sub n (lvl 0)) v.distinct.0,
          Sub-Distinct (remove-Sub n (lvl 0)) v.distinct.1,
        );
        above = λ k h. elim (le-cases k s.height) [
          | inl i ↦
              next-nil (heads k) (remove n (lvl k)) (lem k)
                (reduce_height-above heads s.height k h i)
          | inr i ↦ ap (remove n) (v.above k i)
        ];
      }
