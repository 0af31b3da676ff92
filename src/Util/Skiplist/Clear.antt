-- ===== src/Util/Skiplist/Clear.antt =====
-- `skiplist_init` and `skiplist_clear_with` of src/util/skiplist.c.
use libvfn.Base.{
  ℕ, zero, suc, ◌≤◌, ◌<◌, ◌≡◌, ◌≢◌, refl, sym, ap, subst, ◌∙◌, false, List, [], ◌∷◌, arith, inl,
  inr, eq-cases, le-cases, ◌==◌, ◌||◌, update, update_self, update_ne, ne→==, ==_refl,
}
use libvfn.Util.Links.{ListOps, remove}
use libvfn.Util.Skiplist.{
  null, sentinel, Skiplist, skiplist_init, clear_nodes, clear_levels, visited, skiplist_clear_with,
}
use libvfn.Util.Skiplist.Order.{done, Sub-Apart, Apart}
use libvfn.Util.Skiplist.Search.{Valid, Valid-Sub, Valid-Distinct}

not_skipped : (n : ℕ) → n ≢ null → n ≢ sentinel → ((n == null) || (n == sentinel)) ≡ false
not_skipped n h h' = rw (ne→== n null h, ne→== n sentinel h') refl

visited-id : (l : List ℕ) → Apart null l → Apart sentinel l → visited l ≡ l
unfolding visited
visited-id [] h h' = refl
visited-id (n ∷ l) h h' = rw (visited, not_skipped n h.0 h'.0) (ap (◌∷◌ n) (visited-id l h.1 h'.1))

visited_rest : (l : List ℕ) → visited (sentinel ∷ l) ≡ visited l
unfolding visited
visited_rest l = refl

remove_second : (n s : ℕ) (l : List ℕ) → n ≢ s → remove n (s ∷ n ∷ l) ≡ s ∷ l
remove_second n s l h = rw (ne→== s n (λ e. h (sym e)), ==_refl n) refl

module _ (ops : ListOps) where
  open ops use {Head, nodes, nodes-init, nodes-add, nodes-del_from, list_del_from}

  -- `skiplist_init` gives a list whose levels have no node.
  pub skiplist_init-Valid : Valid ops (skiplist_init ops) (λ k. [])
  unfolding skiplist_init
  skiplist_init-Valid = record {
    heads_lem = λ k. nodes-add ops.list_head_init sentinel ∙ ap (◌∷◌ sentinel) nodes-init;
    sub = λ k. done;
    distinct = (tt, tt);
    above = λ k h. refl;
  }

  clear_nodes-nil :
      (h : Head) (l : List ℕ)
      → nodes h ≡ sentinel ∷ l
      → Apart null l
      → Apart sentinel l
      → nodes (clear_nodes ops h l) ≡ sentinel ∷ []
  unfolding clear_nodes
  clear_nodes-nil h [] e a b = e
  clear_nodes-nil h (n ∷ l) e a b = rw (not_skipped n a.0 b.0) (
      clear_nodes-nil (list_del_from h n) l
        (nodes-del_from h n ∙ ap (remove n) e ∙ remove_second n sentinel l b.0) a.1 b.1)

  -- One level: it has the sentinel first, which the loop leaves in.
  clear_level :
      (h : Head) (l : List ℕ)
      → nodes h ≡ sentinel ∷ l
      → Apart null l
      → Apart sentinel l
      → nodes (clear_nodes ops h (nodes h)) ≡ sentinel ∷ []
  unfolding clear_nodes
  clear_level h l e a b = ap (λ ns. nodes (clear_nodes ops h ns)) e ∙ clear_nodes-nil h l e a b

  clear_levels-above : (heads : ℕ → Head) (m k : ℕ) → m < k → clear_levels ops heads m k ≡ heads k
  unfolding clear_levels
  clear_levels-above heads zero k h =
      update_ne heads 0 k (clear_nodes ops (heads 0) (nodes (heads 0))) (omega arith)
  clear_levels-above heads (suc m) k h =
      let head = clear_nodes ops (heads (suc m)) (nodes (heads (suc m))) in
      clear_levels-above (update heads (suc m) head) m k (omega arith)
      ∙ update_ne heads (suc m) k head (omega arith)

  clear_levels-below :
      (heads : ℕ → Head) (m k : ℕ)
      → k ≤ m
      → clear_levels ops heads m k ≡ clear_nodes ops (heads k) (nodes (heads k))
  unfolding clear_levels
  clear_levels-below heads zero k h =
      let head = clear_nodes ops (heads 0) (nodes (heads 0)) in
      let e : 0 ≡ k = omega arith in
      subst (λ k. update heads 0 head k ≡ clear_nodes ops (heads k) (nodes (heads k))) e
        (update_self heads 0 head)
  clear_levels-below heads (suc m) k h =
      let head = clear_nodes ops (heads (suc m)) (nodes (heads (suc m))) in
      elim (eq-cases (suc m) k) [
        | inl e ↦
            subst
              (λ k.
                clear_levels ops (update heads (suc m) head) m k
                ≡ clear_nodes ops (heads k) (nodes (heads k)))
              e
              (clear_levels-above (update heads (suc m) head) m (suc m) (omega arith)
                ∙ update_self heads (suc m) head)
        | inr e ↦
            clear_levels-below (update heads (suc m) head) m k (omega arith)
            ∙ ap (λ h. clear_nodes ops h (nodes h))
                (update_ne heads (suc m) k head (λ h. e (sym h)))
      ]

  -- `skiplist_clear_with` in a list whose levels are in form: every level is emptied, and the
  -- callback sees each node of the list once, in the order of level 0. NULL is not a node of the
  -- list.
  pub skiplist_clear_with-Valid :
      (s : Skiplist ops) (lvl : ℕ → List ℕ)
      → Valid ops s lvl
      → Apart null (lvl 0)
      → Valid ops (skiplist_clear_with ops s).0 (λ k. []) × ((skiplist_clear_with ops s).1 ≡ lvl 0)
  unfolding skiplist_clear_with
  skiplist_clear_with-Valid s lvl v h = (
    record {
      heads_lem = λ k. elim (le-cases k s.height) [
        | inl i ↦
            ap nodes (clear_levels-below s.heads s.height k i)
            ∙ clear_level (s.heads k) (lvl k) (v.heads_lem k) (Sub-Apart null (Valid-Sub ops v k) h)
                (Valid-Distinct ops v k).0
        | inr i ↦
            ap nodes (clear_levels-above s.heads s.height k i)
            ∙ v.heads_lem k
            ∙ ap (◌∷◌ sentinel) (v.above k i)
      ];
      sub = λ k. done;
      distinct = (tt, tt);
      above = λ k h. refl;
    },
    ap visited (v.heads_lem 0) ∙ visited_rest (lvl 0) ∙ visited-id (lvl 0) h v.distinct.0,
  )
