-- ===== src/Nvme/Ctrl/Registry.antt =====
-- The registry of controllers in src/nvme/core.c. A handle is the name of the controller's device (its
-- bus, device and function) and the controller, in the order of the list.
use libvfn.Base.{
  ℕ, ◌≡◌, refl, Option, none, some, Bool-cases, Option-cases, inl, inr, List, [], ◌∷◌, ◌++◌, arith,
  if◌then◌else◌, eexist, enodev, Result, ok, err,
}
use Prim.Native.String.{String}
use text.Mathlib.Text.{◌==◌}
use text.Mathlib.TextEquality.{eq_iff}

pub record Ctrl : Type 0 where
  pub bdf : String
  pub id : ℕ

-- `nvme_get_ctrl_handle` and `nvme_get_ctrl`: the first with the name.
unfoldable pub get_ctrl : List Ctrl → String → Option Ctrl
get_ctrl [] bdf = none
get_ctrl (c ∷ cs) bdf = if c.bdf == bdf then some c else get_ctrl cs bdf

-- `nvme_add_ctrl`
pub add_ctrl : List Ctrl → Ctrl → List Ctrl × Result {0} Unit
unfolding get_ctrl
add_ctrl cs ctrl = elim (get_ctrl cs ctrl.bdf) [
  | some c ↦ (cs, err eexist)
  | none ↦ (cs ++ ctrl ∷ [], ok tt)
]

-- `list_del` of the first handle with the name.
pub del_first : List Ctrl → String → List Ctrl
del_first [] bdf = []
del_first (c ∷ cs) bdf = if c.bdf == bdf then cs else c ∷ del_first cs bdf

-- `nvme_del_ctrl`
pub del_ctrl : List Ctrl → Ctrl → List Ctrl × Result {0} Unit
unfolding get_ctrl del_first
del_ctrl cs ctrl = elim (get_ctrl cs ctrl.bdf) [
  | none ↦ (cs, err enodev)
  | some c ↦ (del_first cs ctrl.bdf, ok tt)
]

-- No name stands twice.
abbrev pub Unique : List Ctrl → Type 0
unfolding get_ctrl
Unique [] = Unit
Unique (c ∷ cs) = (get_ctrl cs c.bdf ≡ none) × Unique cs

-- The calls, and what they do to a registry as a function from names.
pub data Call : Type 0 where
  add del : Ctrl → Call

abbrev pub call : List Ctrl → Call → List Ctrl × Result {0} Unit
call cs (add c) = add_ctrl cs c
call cs (del c) = del_ctrl cs c

abbrev assign : (String → Option Ctrl) → String → Option Ctrl → String → Option Ctrl
assign m name v b = if name == b then v else m b

abbrev pub expected : (String → Option Ctrl) → Call → (String → Option Ctrl) × Result {0} Unit
expected m (add c) = elim (m c.bdf) [
  | some _ ↦ (m, err eexist)
  | none ↦ (assign m c.bdf (some c), ok tt)
]
expected m (del c) = elim (m c.bdf) [
  | none ↦ (m, err enodev)
  | some _ ↦ (assign m c.bdf none, ok tt)
]

get_ctrl-append :
    (cs : List Ctrl) (c : Ctrl) (b : String)
    → get_ctrl cs c.bdf ≡ none
    → get_ctrl (cs ++ c ∷ []) b ≡ (if c.bdf == b then some c else get_ctrl cs b)
unfolding get_ctrl
get_ctrl-append [] c b h = refl
get_ctrl-append (x ∷ cs) c b h =
    ground (arith, eq_iff c.bdf b, eq_iff x.bdf b, eq_iff x.bdf c.bdf, get_ctrl-append cs c b)

append-Unique :
    (cs : List Ctrl) (c : Ctrl) → get_ctrl cs c.bdf ≡ none → Unique cs → Unique (cs ++ c ∷ [])
unfolding get_ctrl
append-Unique [] c h u = (refl, tt)
append-Unique (x ∷ cs) c h u = (
  ground (arith, eq_iff c.bdf x.bdf, eq_iff x.bdf c.bdf, get_ctrl-append cs c x.bdf, u.0, h),
  append-Unique cs c (ground (arith, h)) u.1,
)

get_ctrl-del :
    (cs : List Ctrl) (name b : String)
    → Unique cs
    → get_ctrl (del_first cs name) b ≡ (if name == b then none else get_ctrl cs b)
unfolding get_ctrl del_first
get_ctrl-del [] name b u = ground arith
get_ctrl-del (x ∷ cs) name b u =
    ground
      (arith, eq_iff name b, eq_iff x.bdf b, eq_iff x.bdf name, get_ctrl-del cs name b u.1, u.0)

del-Unique : (cs : List Ctrl) (name : String) → Unique cs → Unique (del_first cs name)
unfolding get_ctrl del_first
del-Unique [] name u = u
del-Unique (x ∷ cs) name u = elim (Bool-cases (x.bdf == name)) [
  | inl b ↦ rw b (u.1)
  | inr b ↦ rw b (ground (arith, u.0, get_ctrl-del cs name x.bdf u.1), del-Unique cs name u.1)
]

-- `nvme_add_ctrl` and `nvme_del_ctrl` on a registry in which no name stands twice keep it so, and do
-- to what `nvme_get_ctrl` finds what they do to a partial function from names: the name of a new
-- controller is assigned, a name that has one is refused with EEXIST, the name of a controller that
-- is there is cleared, and another is refused with ENODEV. No other name changes.
pub call-expected :
    (cs : List Ctrl) (c : Call)
    → Unique cs
    → let (cs', ret) = call cs c in
      Unique cs'
      × (ret ≡ (expected (get_ctrl cs) c).1)
      × ((b : String) → get_ctrl cs' b ≡ (expected (get_ctrl cs) c).0 b)
unfolding add_ctrl del_ctrl
call-expected cs (add c) u = elim (Option-cases (get_ctrl cs c.bdf)) [
  | inl e ↦ rw (e, add_ctrl, expected) (append-Unique cs c e u, refl, λ b. get_ctrl-append cs c b e)
  | inr (x, e) ↦ rw (e, add_ctrl, expected) (u, refl, λ b. refl)
]
call-expected cs (del c) u = elim (Option-cases (get_ctrl cs c.bdf)) [
  | inl e ↦ rw (e, del_ctrl, expected) (u, refl, λ b. refl)
  | inr (x, e) ↦
      rw (e, del_ctrl, expected) (del-Unique cs c.bdf u, refl, λ b. get_ctrl-del cs c.bdf b u)
]
