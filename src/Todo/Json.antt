-- ===== src/Todo/Json.antt =====
-- The JSON-file todo store: `TodoStore` of src-tauri/src/agent/todo_tree.rs and its methods. The time
-- of a change is an argument, `now`. The recursions follow the children that the file lists, which
-- may have cycles: they take fuel, and `none` says that it ran out.
pub mod Tool
pub mod Disk
pub mod Views
pub mod Walk
pub mod Forest
pub mod Add
pub mod Remove
pub mod Below
pub mod Update
pub mod Bulk
use agent_squire.Base.{
  ℕ, zero, suc, ◌+◌, String, ◌==◌, Bool, true, false, not, ◌&&◌, Option, none, some, List, [], ◌∷◌,
  ◌++◌, if◌then◌else◌, retain, unwrap_or, ◌>>=◌,
}
use agent_squire.Base.Dict.{Dict, lookup, insert, modify, remove, contains_key, keys}
use agent_squire.Graph.{Edges}
use agent_squire.Graph.Collect.{collect, weight}
use agent_squire.Tool.{Result, ok, err}
use agent_squire.Todo.Done.{all_of}

pub data TodoStatus : Type 0 where
  todo : TodoStatus
  in_progress : TodoStatus
  done : TodoStatus

pub record TodoNode : Type 0 where
  pub id : String
  pub title : String
  pub status : TodoStatus
  pub children : List String
  pub parent : Option String
  pub created_at : String
  pub updated_at : String

pub record TodoStore : Type 0 where
  pub nodes : Dict TodoNode
  pub root_items : List String

abbrev pub default_store : TodoStore
default_store = record { nodes = []; root_items = [] }

-- The texts of the errors, in the order of the code.
pub data StoreError : Type 0 where
  node_exists : String → StoreError
  parent_missing : String → StoreError
  node_missing : String → StoreError
  child_missing : String → StoreError
  child_not_done : (title child_title : String) → TodoStatus → StoreError
  descendant_not_done : String → StoreError

-- `status == TodoStatus::Done`.
unfoldable pub is_done : TodoStatus → Bool
is_done todo = false
is_done in_progress = false
is_done done = true

-- The loop body of `all_descendants_done`; a child without a node is passed over.
unfoldable pub child_done : Dict TodoNode → (String → Option Bool) → String → Option Bool
child_done nodes rec c = elim (lookup c nodes) [
  | none ↦ some true
  | some n ↦ let rest = rec c in if is_done n.status then rest else some false
]

unfoldable pub all_descendants_done : Dict TodoNode → ℕ → String → Option Bool
all_descendants_done nodes zero id = none
all_descendants_done nodes (suc fuel) id = elim (lookup id nodes) [
  | none ↦ some false
  | some n ↦ all_of (child_done nodes (all_descendants_done nodes fuel)) n.children
]

-- The children that a store lists for a node.
unfoldable pub kids : Dict TodoNode → Edges
kids nodes id = elim (lookup id nodes) [ none ↦ [] | some n ↦ n.children ]

unfoldable pub collect_descendants : Dict TodoNode → String → Option (List String)
collect_descendants nodes id =
    collect (kids nodes) (1 + weight (kids nodes) (keys nodes) []) (id ∷ []) []

abbrev pub push_child : String → String → TodoNode → TodoNode
push_child now id p = record p { children = p.children ++ id ∷ []; updated_at = now }

abbrev pub fresh_node : String → String → String → Option String → TodoNode
fresh_node now id title parent = record {
  id = id;
  title = title;
  status = todo;
  children = [];
  parent = parent;
  created_at = now;
  updated_at = now;
}

unfoldable pub add_node :
    String → String → String → Option String → TodoStore → Result StoreError TodoStore
add_node now id title parent st =
    if contains_key id st.nodes then err (node_exists id) else elim parent [
      | none ↦ ok record {
        nodes = insert id (fresh_node now id title none) st.nodes;
        root_items = st.root_items ++ id ∷ [];
      }
      | some pid ↦
          if contains_key pid st.nodes
          then ok record {
            nodes =
                insert id (fresh_node now id title (some pid))
                  (modify pid (push_child now id) st.nodes);
            root_items = st.root_items;
          }
          else err (parent_missing pid)
    ]

-- The loop over the children in `update_status`: the error at which it returns.
unfoldable pub child_problem : String → Dict TodoNode → List String → Option StoreError
child_problem title nodes [] = none
child_problem title nodes (c ∷ cs) = elim (lookup c nodes) [
  | none ↦ some (child_missing c)
  | some n ↦
      let rest = child_problem title nodes cs in
      if is_done n.status then rest else some (child_not_done title n.title n.status)
]

-- The checks behind `new_status == Done && node.status != Done`.
unfoldable pub done_problem :
    ℕ → String → TodoNode → TodoStatus → Dict TodoNode → Option (Option StoreError)
done_problem fuel id n new_status nodes = elim (is_done new_status && not (is_done n.status)) [
  | false ↦ some none
  | true ↦ elim (child_problem n.title nodes n.children) [
    | some e ↦ some (some e)
    | none ↦ do
      all ← all_descendants_done nodes fuel id
      some (if all then none else some (descendant_not_done n.title))
  ]
]

abbrev pub set_status : String → TodoStatus → TodoNode → TodoNode
set_status now new_status n = record n { status = new_status; updated_at = now }

unfoldable pub update_status :
    ℕ → String → String → TodoStatus → TodoStore → Option (Result StoreError TodoStore)
update_status fuel now id new_status st = elim (lookup id st.nodes) [
  | none ↦ some (err (node_missing id))
  | some n ↦ do
    problem ← done_problem fuel id n new_status st.nodes
    some (elim problem [
      | some e ↦ err e
      | none ↦ ok (record st { nodes = modify id (set_status now new_status) st.nodes })
    ])
]

-- `for did in &descendants { self.nodes.remove(did); }`.
unfoldable pub remove_all : List String → Dict TodoNode → Dict TodoNode
remove_all [] nodes = nodes
remove_all (d ∷ ds) nodes = remove_all ds (remove d nodes)

abbrev pub drop_child : String → TodoNode → TodoNode
drop_child id p = record p { children = retain (λ c. not (c == id)) p.children }

-- `self.nodes.get(id).and_then(|n| n.parent.clone())`.
unfoldable pub stored_parent : Dict TodoNode → String → Option String
stored_parent nodes id = elim (lookup id nodes) [ none ↦ none | some n ↦ n.parent ]

-- `remove_node`, which never returns an error.
unfoldable pub remove_node : String → TodoStore → Option (TodoStore × List String)
remove_node id st = do
  descendants ← collect_descendants st.nodes id
  some (elim (stored_parent st.nodes id) [
    | some pid ↦ (
      record st { nodes = remove_all descendants (modify pid (drop_child id) st.nodes) },
      descendants,
    )
    | none ↦ (
      record {
        nodes = remove_all descendants st.nodes;
        root_items = retain (λ r. not (r == id)) st.root_items;
      },
      descendants,
    )
  ])
