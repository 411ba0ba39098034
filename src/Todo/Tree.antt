-- ===== src/Todo/Tree.antt =====
-- The trees that the todo tool shows: `build_tree_json` of src-tauri/src/agent/todo_tree.rs, for a
-- token-backed tree. An item is the JSON object with the keys id, title, status and children.
use agent_squire.Base.{
  ℕ, zero, suc, String, Bool, Option, none, some, List, [], ◌∷◌, if◌then◌else◌, ◌>>=◌,
}
use agent_squire.Base.Dict.{Dict}
use agent_squire.Store.Ops.{SquireState, token_detail}
use agent_squire.Todo.Done.{is_todo_done, kids_of}

mutual
  pub data Item : Type 0 where
    item : (id title status : String) → Items → Item

  pub data Items : Type 0 where
    nil : Items
    cons : Item → Items → Items

abbrev pub status_text : Bool → String
status_text b = if b then "done" else "in_progress"

-- The loop over the identifiers; `tree` is the recursive call for the children.
module _ (s : SquireState) (done : String → Option Bool) (kids : String → List String) where
  unfoldable pub build_items : (List String → Option Items) → List String → Option Items
  build_items tree [] = some nil
  build_items tree (id ∷ ids) = elim (token_detail s id) [
    | none ↦ build_items tree ids
    | some d ↦ do
      b ← done id
      children ← tree (kids id)
      rest ← build_items tree ids
      some (cons (item id d.short_desc (status_text b) children) rest)
  ]

-- The fuel bounds the depth of the recursion; `none` says that it ran out.
unfoldable pub build_tree_json :
    SquireState → Dict (List String) → List String → ℕ → List String → Option Items
build_tree_json s outgoing marked zero ids = none
build_tree_json s outgoing marked (suc fuel) ids =
    build_items s (is_todo_done marked outgoing fuel) (kids_of outgoing)
      (build_tree_json s outgoing marked fuel) ids
