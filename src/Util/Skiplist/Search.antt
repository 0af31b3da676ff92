-- ===== src/Util/Skiplist/Search.antt =====
-- The searches of src/util/skiplist.c against a scan of level 0.
use libvfn.Base.{
  ℕ, zero, suc, ◌≤◌, ◌<◌, ◌≡◌, refl, sym, ap, ap₂, ◌∙◌, Bool, Option, some, List, [], ◌∷◌, arith,
  Bool-cases, inl, inr, eq-cases, length, update, update_self, update_ne,
}
use libvfn.Util.Links.{ListOps, head?, next_of}
use libvfn.Util.Skiplist.{null, sentinel, LevelPath, Found, Skiplist, advance, descend, search_from}
use libvfn.Util.Skiplist.Order.{
  Sub, keep, Sub-Distinct, Sub-Split, Sub-refl, Sub-trans, length-Sub, Distinct, Split, At, here,
  At-last, At-drop, At-next, At-snoc, At-end, At-below, length-At, drop_while, last_passed,
}

module _ (ops : ListOps) where
  open ops use {Head, nodes, next_lem, list_next}

  -- The levels of a list: each has the sentinel first, each is a part of the one below it, and
  -- those above the height have no node. No node is in a level twice.
  pub record Valid (s : Skiplist ops) (lvl : ℕ → List ℕ) : Type 0 where
    pub heads_lem : (k : ℕ) → nodes (s.heads k) ≡ sentinel ∷ lvl k
    pub sub : (k : ℕ) → Sub (lvl (suc k)) (lvl k)
    pub distinct : Distinct (sentinel ∷ lvl 0)
    pub above : (k : ℕ) → s.height < k → lvl k ≡ []

  pub Valid-Sub :
      {s : Skiplist ops} {lvl : ℕ → List ℕ} → Valid s lvl → (k : ℕ) → Sub (lvl k) (lvl 0)
  Valid-Sub {lvl = lvl} v zero = Sub-refl (lvl 0)
  Valid-Sub v (suc k) = Sub-trans (v.sub k) (Valid-Sub v k)

  pub Valid-Distinct :
      {s : Skiplist ops} {lvl : ℕ → List ℕ} → Valid s lvl → (k : ℕ) → Distinct (sentinel ∷ lvl k)
  Valid-Distinct v k = Sub-Distinct (keep sentinel (Valid-Sub v k)) v.distinct

  next-At :
      (h : Head) (pass : ℕ → Bool) (s : ℕ) (l : List ℕ) {p : ℕ} {rest : List ℕ}
      → nodes h ≡ s ∷ l
      → Distinct (s ∷ l)
      → At pass s l p rest
      → list_next h p ≡ head? rest
  next-At h pass s l {p = p} e d a = next_lem h p ∙ ap (next_of p) e ∙ At-next pass a d

  advance-At :
      (h : Head) (pass : ℕ → Bool) (s : ℕ) (l : List ℕ) (fuel p : ℕ) (rest : List ℕ)
      → nodes h ≡ s ∷ l
      → Distinct (s ∷ l)
      → At pass s l p rest
      → length rest < fuel
      → advance ops h pass fuel p ≡ some (last_passed pass p rest, head? (drop_while pass rest))
  unfolding advance
  advance-At h pass s l zero p rest e d a hf = absurd (omega arith)
  advance-At h pass s l (suc fuel) p [] e d a hf = rw (advance, next-At h pass s l e d a) refl
  advance-At h pass s l (suc fuel) p (n ∷ rest) e d a hf = elim (Bool-cases (pass n)) [
    | inl t ↦
        rw (advance, next-At h pass s l e d a, t)
          (advance-At h pass s l fuel n rest e d (At-snoc pass a t) (omega arith))
    | inr t ↦ rw (advance, next-At h pass s l e d a, t) refl
  ]

  -- What a search has found: the last node passed on level 0 and the one behind it, and on each
  -- level from `k` down the last node passed there.
  pub record Searched (s : Skiplist ops) (lvl : ℕ → List ℕ) (pass : ℕ → Bool) (k : ℕ)
      (found : Option Found) : Type 0 where
    pub f : Found
    pub found_lem : found ≡ some f
    pub p_lem : f.p ≡ last_passed pass sentinel (lvl 0)
    pub next_lem : f.next ≡ head? (drop_while pass (lvl 0))
    pub path_lem : (j : ℕ) → j ≤ k → f.path j ≡ last_passed pass sentinel (lvl j)

  advance-level :
      {s : Skiplist ops} {lvl : ℕ → List ℕ}
      → Valid s lvl
      → (pass : ℕ → Bool) (fuel k p : ℕ) {rest : List ℕ} → At pass sentinel (lvl k) p rest
      → length (lvl 0) < fuel
      → advance ops (s.heads k) pass fuel p
        ≡ some (last_passed pass sentinel (lvl k), head? (drop_while pass (lvl k)))
  advance-level {s = s} {lvl = lvl} v pass fuel k p {rest = rest} a hf =
      advance-At (s.heads k) pass sentinel (lvl k) fuel p rest (v.heads_lem k) (Valid-Distinct v k)
        a (omega (arith, length-At pass a, length-Sub (Valid-Sub v k)))
      ∙ ap₂ (λ x y. some (x, head? y)) (sym (At-last pass a)) (sym (At-drop pass a))

  update_path :
      (path : LevelPath) (k m : ℕ) (g : ℕ → ℕ)
      → ((j : ℕ) → k < j → j ≤ m → path j ≡ g j)
      → (j : ℕ) → k ≤ j
      → j ≤ m
      → update path k (g k) j ≡ g j
  update_path path k m g h j hk hm = elim (eq-cases j k) [
    | inl e ↦ ap (update path k (g k)) e ∙ update_self path k (g k) ∙ ap g (sym e)
    | inr e ↦ update_ne path k j (g k) e ∙ h j (omega arith) hm
  ]

  -- The levels below `k`; the path holds what was found on those above.
  descend-Searched :
      {s : Skiplist ops} {lvl : ℕ → List ℕ}
      → Valid s lvl
      → (pass : ℕ → Bool) → Split pass (lvl 0)
      → (fuel k m p : ℕ) (path : LevelPath) {rest : List ℕ} → At pass sentinel (lvl k) p rest
      → length (lvl 0) < fuel
      → ((j : ℕ) → k < j → j ≤ m → path j ≡ last_passed pass sentinel (lvl j))
      → Searched s lvl pass m (descend ops s.heads pass fuel k p path)
  unfolding descend
  descend-Searched {s = s} {lvl = lvl} v pass d fuel zero m p path a hf hp =
      rw (descend, advance-level v pass fuel 0 p a hf)
        (record {
          f = record {
            p = last_passed pass sentinel (lvl 0);
            next = head? (drop_while pass (lvl 0));
            path = update path 0 (last_passed pass sentinel (lvl 0));
          };
          found_lem = refl;
          p_lem = refl;
          next_lem = refl;
          path_lem = λ j h.
              update_path path 0 m (λ i. last_passed pass sentinel (lvl i)) hp j (omega arith) h;
        })
  descend-Searched {s = s} {lvl = lvl} v pass d fuel (suc k) m p path a hf hp =
      let below =
        At-below pass (At-end pass sentinel (lvl (suc k))) (v.sub k)
          (Sub-Split pass (Valid-Sub v k) d) in
      rw (descend, advance-level v pass fuel (suc k) p a hf)
        (descend-Searched v pass d fuel k m (last_passed pass sentinel (lvl (suc k)))
          (update path (suc k) (last_passed pass sentinel (lvl (suc k)))) below.1 hf
          (update_path path (suc k) m (λ i. last_passed pass sentinel (lvl i)) hp))

  -- A search with fuel for the nodes of level 0.
  pub search-Searched :
      {s : Skiplist ops} {lvl : ℕ → List ℕ}
      → Valid s lvl
      → (pass : ℕ → Bool) → Split pass (lvl 0)
      → (fuel : ℕ) → length (lvl 0) < fuel
      → Searched s lvl pass s.height (search_from ops s pass fuel)
  search-Searched {s = s} {lvl = lvl} v pass d fuel hf =
      descend-Searched v pass d fuel s.height s.height sentinel (λ k. null)
        (here sentinel (lvl s.height)) hf (λ j h h'. absurd (omega arith))
