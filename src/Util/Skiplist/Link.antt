-- ===== src/Util/Skiplist/Link.antt =====
-- `skiplist_link` of src/util/skiplist.c: the node goes into every level up to the one drawn.
use libvfn.Base.{
  ℕ, zero, suc, ◌+◌, ◌≤◌, ◌<◌, ◌≡◌, ◌⊎◌, refl, sym, ap, ap₂, subst, ◌∙◌, Bool, List, ◌∷◌, arith,
  Bool-cases, inl, inr, eq-cases, le-cases, if◌then◌else◌, update, update_self, update_ne, ltb, leb,
  le→leb, lt→leb, ltb→le,
}
use libvfn.Util.Links.{ListOps, insert_after}
use libvfn.Util.Skiplist.{sentinel, LevelPath, Skiplist, add_levels, skiplist_link}
use libvfn.Util.Skiplist.Order.{
  Sub, Sub-Split, Split, Distinct, Apart, insert, last_passed, insert_after-last_passed,
  Sub-insert_right, Sub-insert, insert-Apart, insert-Distinct,
}
use libvfn.Util.Skiplist.Search.{Valid, Valid-Sub, Valid-Distinct}

-- The levels with the node in those up to `m`.
abbrev pub linked : (ℕ → Bool) → ℕ → ℕ → (ℕ → List ℕ) → ℕ → List ℕ
linked pass n m lvl k = if leb k m then insert pass n (lvl k) else lvl k

linked_le :
    (pass : ℕ → Bool) (n m : ℕ) (lvl : ℕ → List ℕ) (k : ℕ)
    → k ≤ m
    → linked pass n m lvl k ≡ insert pass n (lvl k)
linked_le pass n m lvl k h = rw (le→leb k m h) refl

linked_gt :
    (pass : ℕ → Bool) (n m : ℕ) (lvl : ℕ → List ℕ) (k : ℕ) → m < k → linked pass n m lvl k ≡ lvl k
linked_gt pass n m lvl k h = rw (lt→leb k m h) refl

Sub-eq : {xs xs' ys ys' : List ℕ} → xs ≡ xs' → ys ≡ ys' → Sub xs' ys' → Sub xs ys
Sub-eq {xs = xs} {ys' = ys'} e h s =
    subst (λ z. Sub xs z) (sym h) (subst (λ z. Sub z ys') (sym e) s)

module _ (ops : ListOps) where
  open ops use {Head, nodes, nodes-add_after}

  add-nodes :
      (h : Head) (pass : ℕ → Bool) (n p : ℕ) (l : List ℕ)
      → nodes h ≡ sentinel ∷ l
      → Distinct (sentinel ∷ l)
      → p ≡ last_passed pass sentinel l
      → nodes (ops.list_add_after h p n) ≡ sentinel ∷ insert pass n l
  add-nodes h pass n p l e d hp =
      nodes-add_after h p n
      ∙ ap₂ (λ q l. insert_after q n l) hp e
      ∙ insert_after-last_passed pass n sentinel l d

  -- The loop from level `m` down.
  add_levels-above :
      (heads : ℕ → Head) (path : LevelPath) (n m k : ℕ)
      → m < k
      → add_levels ops heads path n m k ≡ heads k
  unfolding add_levels
  add_levels-above heads path n zero k h =
      update_ne heads 0 k (ops.list_add_after (heads 0) (path 0) n) (omega arith)
  add_levels-above heads path n (suc m) k h =
      let head = ops.list_add_after (heads (suc m)) (path (suc m)) n in
      add_levels-above (update heads (suc m) head) path n m k (omega arith)
      ∙ update_ne heads (suc m) k head (omega arith)

  add_levels-below :
      (heads : ℕ → Head) (path : LevelPath) (n m k : ℕ)
      → k ≤ m
      → add_levels ops heads path n m k ≡ ops.list_add_after (heads k) (path k) n
  unfolding add_levels
  add_levels-below heads path n zero k h =
      let e : 0 ≡ k = omega arith in
      subst
        (λ k.
          update heads 0 (ops.list_add_after (heads 0) (path 0) n) k
          ≡ ops.list_add_after (heads k) (path k) n)
        e (update_self heads 0 (ops.list_add_after (heads 0) (path 0) n))
  add_levels-below heads path n (suc m) k h =
      let head = ops.list_add_after (heads (suc m)) (path (suc m)) n in
      elim (eq-cases (suc m) k) [
        | inl e ↦
            subst
              (λ k.
                add_levels ops (update heads (suc m) head) path n m k
                ≡ ops.list_add_after (heads k) (path k) n)
              e
              (add_levels-above (update heads (suc m) head) path n m (suc m) (omega arith)
                ∙ update_self heads (suc m) head)
        | inr e ↦
            add_levels-below (update heads (suc m) head) path n m k (omega arith)
            ∙ ap (λ h. ops.list_add_after h (path k) n)
                (update_ne heads (suc m) k head (λ h. e (sym h)))
      ]

  add_levels-nodes :
      (heads : ℕ → Head) (path : LevelPath) (pass : ℕ → Bool) (n m k : ℕ) (l : List ℕ)
      → nodes (heads k) ≡ sentinel ∷ l
      → Distinct (sentinel ∷ l)
      → (k ≤ m → path k ≡ last_passed pass sentinel l)
      → nodes (add_levels ops heads path n m k)
        ≡ sentinel ∷ (if leb k m then insert pass n l else l)
  add_levels-nodes heads path pass n m k l e d hp = elim (le-cases k m) [
    | inl h ↦ rw (le→leb k m h) (
        ap nodes (add_levels-below heads path n m k h)
        ∙ add-nodes (heads k) pass n (path k) l e d (hp h))
    | inr h ↦ rw (lt→leb k m h) (ap nodes (add_levels-above heads path n m k h) ∙ e)
  ]

  Valid-linked :
      {s : Skiplist ops} {lvl : ℕ → List ℕ}
      → Valid ops s lvl
      → (pass : ℕ → Bool) (n m height : ℕ) (heads : ℕ → Head) → Split pass (lvl 0)
      → Apart n (sentinel ∷ lvl 0)
      → m ≤ height
      → s.height ≤ height
      → ((k : ℕ) → nodes (heads k) ≡ sentinel ∷ linked pass n m lvl k)
      → Valid ops (record { height = height; heads = heads }) (linked pass n m lvl)
  Valid-linked {lvl = lvl} v pass n m height heads d h hm hh e = record {
    heads_lem = e;
    sub = λ k. elim (le-cases (suc k) m) [
      | inl i ↦
          Sub-eq (linked_le pass n m lvl (suc k) i) (linked_le pass n m lvl k (omega arith))
            (Sub-insert pass n (v.sub k) (Sub-Split pass (Valid-Sub ops v k) d))
      | inr i ↦ elim (le-cases k m) [
        | inl j ↦
            Sub-eq (linked_gt pass n m lvl (suc k) i) (linked_le pass n m lvl k j)
              (Sub-insert_right pass n (v.sub k))
        | inr j ↦ Sub-eq (linked_gt pass n m lvl (suc k) i) (linked_gt pass n m lvl k j) (v.sub k)
      ]
    ];
    distinct =
        subst (λ l. Distinct (sentinel ∷ l)) (sym (linked_le pass n m lvl 0 (omega arith)))
          (
            insert-Apart pass sentinel n (lvl 0) (λ q. h.0 (sym q)) v.distinct.0,
            insert-Distinct pass n (lvl 0) h.1 v.distinct.1,
          );
    above = λ k i. linked_gt pass n m lvl k (omega arith) ∙ v.above k (omega arith);
  }

  -- The level that the node goes up to: the one drawn, or the first above the height.
  abbrev pub top : Skiplist ops → ℕ → ℕ
  top s level = if ltb s.height level then s.height + 1 else level

  new_level :
      {s : Skiplist ops} {lvl : ℕ → List ℕ}
      → Valid ops s lvl
      → (pass : ℕ → Bool) (path : LevelPath)
      → ((k : ℕ) → k ≤ s.height → path k ≡ last_passed pass sentinel (lvl k))
      → (k : ℕ) → k ≤ s.height + 1
      → update path (s.height + 1) sentinel k ≡ last_passed pass sentinel (lvl k)
  new_level {s = s} {lvl = lvl} v pass path hp k h = elim (eq-cases k (s.height + 1)) [
    | inl e ↦
        ap (update path (s.height + 1) sentinel) e
        ∙ update_self path (s.height + 1) sentinel
        ∙ ap (last_passed pass sentinel) (sym (v.above k (omega arith)))
    | inr e ↦ update_ne path (s.height + 1) k sentinel e ∙ hp k (omega arith)
  ]

  -- `skiplist_link` in a list whose levels are in form: given the path that a search has left, for
  -- a node that is not in the list, the node goes into each level up to the one drawn, or to the
  -- first level above the height, behind the nodes that the search has passed there; the levels
  -- keep their form. The height grows by 1 where the level drawn is above it, and stays otherwise.
  pub skiplist_link-Valid :
      (s : Skiplist ops) (lvl : ℕ → List ℕ) (pass : ℕ → Bool) (n level : ℕ) (path : LevelPath)
      → Valid ops s lvl
      → Split pass (lvl 0)
      → Apart n (sentinel ∷ lvl 0)
      → ((k : ℕ) → k ≤ s.height → path k ≡ last_passed pass sentinel (lvl k))
      → Valid ops (skiplist_link ops s n path level) (linked pass n (top s level) lvl)
        × (((s.height < level) × ((skiplist_link ops s n path level).height ≡ s.height + 1))
            ⊎ ((level ≤ s.height) × ((skiplist_link ops s n path level).height ≡ s.height)))
  unfolding skiplist_link
  skiplist_link-Valid s lvl pass n level path v d h hp = elim (Bool-cases (ltb s.height level)) [
    | inl e ↦ rw e (
      Valid-linked v pass n (s.height + 1) (s.height + 1)
          (add_levels ops s.heads (update path (s.height + 1) sentinel) n (s.height + 1)) d h
          (omega arith) (omega arith)
          (λ k.
            add_levels-nodes s.heads (update path (s.height + 1) sentinel) pass n (s.height + 1) k
              (lvl k) (v.heads_lem k) (Valid-Distinct ops v k) (new_level v pass path hp k)),
      inl (ground (arith, e), refl),
    )
    | inr e ↦ rw e (
      Valid-linked v pass n level s.height (add_levels ops s.heads path n level) d h
          (ltb→le s.height level e) (omega arith)
          (λ k.
            add_levels-nodes s.heads path pass n level k (lvl k) (v.heads_lem k)
              (Valid-Distinct ops v k) (λ i. hp k (omega (arith, ltb→le s.height level e)))),
      inr (ltb→le s.height level e, refl),
    )
  ]
