-- ===== src/Todo/Done.antt =====
-- `is_todo_done`, `all_descendants_todo_done`, `collect_descendant_ids` and `check_done_constraints` of
-- src-tauri/src/agent/todo_tree.rs. The recursions follow edges, which may have cycles: they take
-- fuel, and `none` says that it ran out.
pub mod Spec
pub mod Decides
pub mod Constraints
use agent_squire.Base.{
  ℕ, zero, suc, ◌+◌, String, Bool, true, false, Option, none, some, List, [], ◌∷◌, if◌then◌else◌,
  contains, unwrap_or,
}
use agent_squire.Base.Dict.{Dict, lookup, keys}
use agent_squire.Graph.{Edges}
use agent_squire.Graph.Collect.{collect, weight}
use agent_squire.Tool.{Result, ok, err}

-- `iter().all(…)`, which stops at the first `false`.
unfoldable pub all_of : (String → Option Bool) → List String → Option Bool
all_of p [] = some true
all_of p (c ∷ cs) = elim (p c) [
  | none ↦ none
  | some b ↦ let rest = all_of p cs in if b then rest else some false
]

-- One round of the loop in `all_descendants_todo_done`: a child that is not done ends it.
unfoldable pub and_then : Option Bool → (String → Option Bool) → String → Option Bool
and_then none rec c = none
and_then (some done) rec c = let rest = rec c in if done then rest else some false

module _ (marked : List String) (outgoing : Dict (List String)) where
  unfoldable pub is_todo_done : ℕ → String → Option Bool
  is_todo_done zero id = none
  is_todo_done (suc fuel) id = elim (contains marked id) [
    | true ↦ some true
    | false ↦ elim (lookup id outgoing) [
      | none ↦ some false
      | some children ↦ all_of (is_todo_done fuel) children
    ]
  ]

  unfoldable pub all_descendants_todo_done : ℕ → String → Option Bool
  all_descendants_todo_done zero id = none
  all_descendants_todo_done (suc fuel) id = elim (lookup id outgoing) [
    | none ↦ some true
    | some children ↦
        all_of (λ c. and_then (is_todo_done fuel c) (all_descendants_todo_done fuel) c) children
  ]

-- The first loop of `check_done_constraints`: the child at which it returns an error.
unfoldable pub first_open : (String → Option Bool) → List String → Option (Option String)
first_open p [] = some none
first_open p (c ∷ cs) = elim (p c) [
  | none ↦ none
  | some done ↦ let rest = first_open p cs in if done then rest else some (some c)
]

-- "Cannot mark '{id}' as done: child '{c}' is not done", and "… not all descendants are done".
pub data ConstraintError : Type 0 where
  child_open : String → String → ConstraintError
  descendant_open : String → ConstraintError

abbrev pub Check : Type 0
Check = Result ConstraintError (Unit {0})

unfoldable pub check_done_constraints : List String → Dict (List String) → ℕ → String → Option Check
check_done_constraints marked outgoing fuel id = elim (lookup id outgoing) [
  | none ↦ some (ok tt)
  | some children ↦ elim (first_open (is_todo_done marked outgoing fuel) children) [
    | none ↦ none
    | some (some c) ↦ some (err (child_open id c))
    | some none ↦ elim (all_descendants_todo_done marked outgoing fuel id) [
      | none ↦ none
      | some all ↦ if all then some (ok tt) else some (err (descendant_open id))
    ]
  ]
]

-- The children of a node; a node with no entry has none.
abbrev pub kids_of : Dict (List String) → Edges
kids_of outgoing id = unwrap_or [] (lookup id outgoing)

unfoldable pub collect_descendant_ids : String → Dict (List String) → Option (List String)
collect_descendant_ids id outgoing =
    collect (kids_of outgoing) (1 + weight (kids_of outgoing) (keys outgoing) []) (id ∷ []) []
