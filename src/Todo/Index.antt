-- ===== src/Todo/Index.antt =====
-- `load_todo_indices` of src-tauri/src/agent/todo_tree.rs: the relationships of the store, indexed.
pub mod Laws
use text.Mathlib.Text.{starts_with}
use agent_squire.Base.{
  String, ◌==◌, Bool, true, false, not, List, [], ◌∷◌, ◌++◌, if◌then◌else◌, Option, none, retain,
  insert_set,
}
use agent_squire.Base.Dict.{Dict, upsert, contains_key}
use agent_squire.Store.Types.{Relationship, subtask, marked_done}
use agent_squire.Store.Ops.{SquireState, get_relationships, list_token_ids}

pub record Edges : Type 0 where
  pub outgoing : Dict (List String)
  pub incoming : Dict (List String)
  pub marked : List String

-- `map.entry(k).or_default().push(v)`.
abbrev pub push_at : String → String → Dict (List String) → Dict (List String)
push_at k v = upsert k [] (λ vs. vs ++ v ∷ [])

-- The body of the loop over the relationships, its two tests in order.
unfoldable pub index_one : Edges → Relationship → Edges
index_one e r =
    let e' =
      if r.predicate == subtask
      then record e {
        outgoing = push_at r.subject r.object e.outgoing;
        incoming = push_at r.object r.subject e.incoming;
      }
      else e in
    if r.predicate == marked_done then record e' { marked = insert_set e'.marked r.subject } else e'

unfoldable pub index_from : Edges → List Relationship → Edges
index_from e [] = e
index_from e (r ∷ rels) = index_from (index_one e r) rels

abbrev pub no_edges : Edges
no_edges = record { outgoing = []; incoming = []; marked = [] }

pub record TodoIndices : Type 0 where
  pub root_ids : List String
  pub edges : Edges

-- The part behind the loop: the identifiers of the todo items that are no child.
unfoldable pub find_roots : List String → Edges → TodoIndices
find_roots all_ids edges =
    let todo_ids = retain (λ id. starts_with id "TODO_") all_ids in
    record {
      root_ids = retain (λ id. not (contains_key id edges.incoming)) todo_ids;
      edges = edges;
    }

unfoldable pub load_todo_indices : SquireState → TodoIndices
unfolding find_roots
load_todo_indices s =
    find_roots (list_token_ids s) (index_from no_edges (get_relationships s none none none))
