-- ===== src/Util/Skiplist.antt =====
-- src/util/skiplist.c and skiplist.h. A node is its address; the sentinel has one of its own, and 0
-- is NULL. The loops along a level take fuel, and give `none` where it runs out. `rand` is a
-- sequence of coins, whether its value is above RAND_MAX / 2.
pub mod Order
pub mod Search
pub mod Scan
pub mod Link
pub mod Remove
pub mod Erase
pub mod Clear
mod Tests
use Prim.Native.Nat.{Ordering}
use libvfn.Base.{
  ℕ, zero, suc, ◌+◌, ◌-◌, Bool, true, false, not, ◌&&◌, ◌||◌, Option, none, some, List, [], ◌∷◌,
  update, ltb, ◌==◌, if◌then◌else◌,
}
use libvfn.Util.Links.{ListOps}

abbrev pub null : ℕ
null = 0

abbrev pub sentinel : ℕ
sentinel = 1

-- SKIPLIST_LEVELS
abbrev pub levels : ℕ
levels = 8

-- A comparison of the key with a node; the three tests that the loops and the callers make of it.
abbrev pub Cmp : Type 0
Cmp = ℕ → Ordering

abbrev pub is_gt : Ordering → Bool
is_gt o = elim o [ Ordering.gt ↦ true | _ ↦ false ]

abbrev pub is_ge : Ordering → Bool
is_ge o = elim o [ Ordering.lt ↦ false | _ ↦ true ]

abbrev pub is_eq : Ordering → Bool
is_eq o = elim o [ Ordering.eq ↦ true | _ ↦ false ]

-- The array `path` (or `update`) of the code.
abbrev pub LevelPath : Type 0
LevelPath = ℕ → ℕ

-- Where a search ends: at `p`, with `next` behind it on level 0.
pub record Found : Type 0 where
  pub p : ℕ
  pub next : Option ℕ
  pub path : LevelPath

-- `__skiplist_random_level` with `rounds` coins left to toss
pub random_level : (ℕ → Bool) → ℕ → ℕ → ℕ
random_level coin zero k = k
random_level coin (suc rounds) k =
    let rest = random_level coin rounds (k + 1) in if ltb k (levels - 1) && coin k then rest else k

-- The nodes that the callback sees, in order: those of level 0.
pub visited : List ℕ → List ℕ
visited [] = []
visited (n ∷ ns) = if (n == null) || (n == sentinel) then visited ns else n ∷ visited ns

module _ (ops : ListOps) where
  open ops use {Head, nodes, list_head_init, list_add, list_add_after, list_del_from, list_next}

  -- `struct skiplist`
  pub record Skiplist : Type 0 where
    pub height : ℕ
    pub heads : ℕ → Head

  -- `skiplist_init`
  pub skiplist_init : Skiplist
  skiplist_init = record { height = 0; heads = λ k. list_add list_head_init sentinel }

  -- The inner loop of the three searches, which passes the nodes that `pass` admits: where it
  -- stops, and the node behind.
  pub advance : Head → (ℕ → Bool) → ℕ → ℕ → Option (ℕ × Option ℕ)
  advance h pass zero p = none
  advance h pass (suc fuel) p = elim (list_next h p) [
    | none ↦ some (p, none)
    | some n ↦ elim (pass n) [ true ↦ advance h pass fuel n | false ↦ some (p, some n) ]
  ]

  -- Their outer loop, from level `k` down to level 0.
  pub descend : (ℕ → Head) → (ℕ → Bool) → ℕ → ℕ → ℕ → LevelPath → Option Found
  descend heads pass fuel zero p path = elim (advance (heads 0) pass fuel p) [
    | none ↦ none
    | some (p', next) ↦ some (record { p = p'; next = next; path = update path 0 p' })
  ]
  descend heads pass fuel (suc k) p path = elim (advance (heads (suc k)) pass fuel p) [
    | none ↦ none
    | some (p', next) ↦ descend heads pass fuel k p' (update path (suc k) p')
  ]

  abbrev pub search_from : Skiplist → (ℕ → Bool) → ℕ → Option Found
  search_from s pass fuel = descend s.heads pass fuel s.height sentinel (λ k. null)

  -- `skiplist_find`: the node, or `none` for NULL, and the path
  pub skiplist_find : Skiplist → Cmp → ℕ → Option (Option ℕ × LevelPath)
  skiplist_find s cmp fuel = elim (search_from s (λ n. is_gt (cmp n)) fuel) [
    | none ↦ none
    | some f ↦ elim f.next [
      | none ↦ some (none, f.path)
      | some n ↦ some (if is_eq (cmp n) then some n else none, f.path)
    ]
  ]

  -- `skiplist_find_le`
  pub skiplist_find_le : Skiplist → Cmp → ℕ → Option (Option ℕ × LevelPath)
  skiplist_find_le s cmp fuel = elim (search_from s (λ n. is_ge (cmp n)) fuel) [
    | none ↦ none
    | some f ↦ some (if f.p == sentinel then none else some f.p, f.path)
  ]

  -- `skiplist_find_ge`
  pub skiplist_find_ge : Skiplist → Cmp → ℕ → Option (Option ℕ × LevelPath)
  skiplist_find_ge s cmp fuel = elim (search_from s (λ n. is_gt (cmp n)) fuel) [
    | none ↦ none
    | some f ↦ some (f.next, f.path)
  ]

  -- The loop of `skiplist_link`, from level `k` down to level 0.
  pub add_levels : (ℕ → Head) → LevelPath → ℕ → ℕ → ℕ → Head
  add_levels heads path n zero = update heads 0 (list_add_after (heads 0) (path 0) n)
  add_levels heads path n (suc k) =
      add_levels (update heads (suc k) (list_add_after (heads (suc k)) (path (suc k)) n)) path n k

  -- `skiplist_link`, with the level that was drawn
  pub skiplist_link : Skiplist → ℕ → LevelPath → ℕ → Skiplist
  skiplist_link s n path level =
      if ltb s.height level
      then record {
        height = s.height + 1;
        heads = add_levels s.heads (update path (s.height + 1) sentinel) n (s.height + 1);
      }
      else record s { heads = add_levels s.heads path n level }

  -- The first loop of `skiplist_erase`, from level `k` on with `rounds` levels left.
  pub del_levels : (ℕ → Head) → LevelPath → ℕ → ℕ → ℕ → ℕ → Head
  del_levels heads path n zero k = heads
  del_levels heads path n (suc rounds) k =
      let rest = del_levels (update heads k (list_del_from (heads k) n)) path n rounds (suc k) in
      elim (list_next (heads k) (path k)) [ none ↦ heads | some m ↦ if m == n then rest else heads ]

  -- Its second loop: the new height.
  pub reduce_height : (ℕ → Head) → ℕ → ℕ
  reduce_height heads zero = 0
  reduce_height heads (suc h) =
      let rest = reduce_height heads h in
      elim (list_next (heads (suc h)) sentinel) [ none ↦ rest | some m ↦ suc h ]

  -- `skiplist_erase`
  pub skiplist_erase : Skiplist → ℕ → LevelPath → Skiplist
  skiplist_erase s n path =
      let heads = del_levels s.heads path n (s.height + 1) 0 in
      record { height = reduce_height heads s.height; heads = heads }

  -- One level of `skiplist_clear_with`: every node but the sentinel is taken out.
  pub clear_nodes : Head → List ℕ → Head
  clear_nodes h [] = h
  clear_nodes h (n ∷ ns) =
      clear_nodes (if (n == null) || (n == sentinel) then h else list_del_from h n) ns

  pub clear_levels : (ℕ → Head) → ℕ → ℕ → Head
  clear_levels heads zero = update heads 0 (clear_nodes (heads 0) (nodes (heads 0)))
  clear_levels heads (suc k) =
      clear_levels (update heads (suc k) (clear_nodes (heads (suc k)) (nodes (heads (suc k))))) k

  -- `skiplist_clear_with`: the list, and the nodes that the callback was called with.
  pub skiplist_clear_with : Skiplist → Skiplist × List ℕ
  skiplist_clear_with s =
      (record { height = 0; heads = clear_levels s.heads s.height }, visited (nodes (s.heads 0)))
