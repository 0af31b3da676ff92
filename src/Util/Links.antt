-- ===== src/Util/Links.antt =====
-- The doubly linked lists of ccan/list/list.h, which is another project's library: the operations
-- that src/util/skiplist.h takes from it, with their documented behaviour in terms of the nodes of
-- a list from the front to the back. A node is its address.
use libvfn.Base.{ℕ, Option, none, some, List, [], ◌∷◌, ◌≡◌, refl, ◌==◌, if◌then◌else◌}

abbrev pub head? : List ℕ → Option ℕ
head? [] = none
head? (x ∷ xs) = some x

-- The node behind `p`.
abbrev pub next_of : ℕ → List ℕ → Option ℕ
next_of p [] = none
next_of p (x ∷ xs) = if x == p then head? xs else next_of p xs

abbrev pub insert_after : ℕ → ℕ → List ℕ → List ℕ
insert_after p n [] = []
insert_after p n (x ∷ xs) = if x == p then x ∷ n ∷ xs else x ∷ insert_after p n xs

abbrev pub remove : ℕ → List ℕ → List ℕ
remove n [] = []
remove n (x ∷ xs) = if x == n then xs else x ∷ remove n xs

pub record ListOps : Type 1 where
  pub Head : Type 0
  pub nodes : Head → List ℕ
  pub list_head_init : Head
  pub list_add : Head → ℕ → Head
  pub list_add_after : Head → ℕ → ℕ → Head
  pub list_del_from : Head → ℕ → Head
  pub list_next : Head → ℕ → Option ℕ
  pub nodes-init : nodes list_head_init ≡ []
  pub nodes-add : (h : Head) (n : ℕ) → nodes (list_add h n) ≡ n ∷ nodes h
  pub nodes-add_after :
      (h : Head) (p n : ℕ) → nodes (list_add_after h p n) ≡ insert_after p n (nodes h)
  pub nodes-del_from : (h : Head) (n : ℕ) → nodes (list_del_from h n) ≡ remove n (nodes h)
  pub next_lem : (h : Head) (p : ℕ) → list_next h p ≡ next_of p (nodes h)

-- Plain lists meet them.
abbrev pub plain : ListOps
plain = record {
  Head = List ℕ;
  nodes = λ h. h;
  list_head_init = [];
  list_add = λ h n. n ∷ h;
  list_add_after = λ h p n. insert_after p n h;
  list_del_from = λ h n. remove n h;
  list_next = λ h p. next_of p h;
  nodes-init = refl;
  nodes-add = λ h n. refl;
  nodes-add_after = λ h p n. refl;
  nodes-del_from = λ h n. refl;
  next_lem = λ h p. refl;
}
