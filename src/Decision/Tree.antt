-- ===== src/Decision/Tree.antt =====
-- Reading decision trees: `load_dt_indices`, `dt_children`, `dt_build_tree` and `find_dt_root` of
-- src-tauri/src/agent/decision_tree.rs.
use text.Mathlib.Text.{starts_with}
use agent_squire.Base.{
  ℕ, zero, suc, String, ◌==◌, Bool, not, ◌&&◌, ◌||◌, Option, none, some, List, [], ◌∷◌, ◌++◌, map,
  if◌then◌else◌, retain, find, contains, insert_set,
}
use agent_squire.Store.Types.{
  Relationship, considers, selects, driven_by, confirmed_by, invalidated_by, abandoned, resolves,
}
use agent_squire.Store.Ops.{SquireState, token_detail, get_relationships, list_token_ids}
use agent_squire.Todo.Tree.{Item, Items, item, nil, cons}

-- The sets that the loop of `load_dt_indices` fills.
pub record Sets : Type 0 where
  pub incoming : List String
  pub considers_set : List String
  pub selects_set : List String
  pub confirmed_set : List String
  pub invalidated_set : List String
  pub abandoned_set : List String
  pub resolves_set : List String
  pub driven_by_assumptions : List String

abbrev pub no_sets : Sets
no_sets = record {
  incoming = [];
  considers_set = [];
  selects_set = [];
  confirmed_set = [];
  invalidated_set = [];
  abandoned_set = [];
  resolves_set = [];
  driven_by_assumptions = [];
}

-- The `match` on the predicate.
unfoldable pub sort_one : Sets → Relationship → Sets
sort_one e r =
    if r.predicate == considers || r.predicate == selects
    then (let e' = record e { incoming = insert_set e.incoming r.object } in
        if r.predicate == considers
        then record e' { considers_set = insert_set e.considers_set r.subject }
        else record e' { selects_set = insert_set e.selects_set r.subject })
    else if r.predicate == confirmed_by
    then record e { confirmed_set = insert_set e.confirmed_set r.subject }
    else if r.predicate == invalidated_by
    then record e { invalidated_set = insert_set e.invalidated_set r.subject }
    else if r.predicate == abandoned
    then record e { abandoned_set = insert_set e.abandoned_set r.subject }
    else if r.predicate == resolves
    then record e { resolves_set = insert_set e.resolves_set r.subject }
    else e

-- The body of the loop: that `match`, and the test for `drivenBy` behind it.
unfoldable pub dt_one : Sets → Relationship → Sets
dt_one e r =
    let e' = sort_one e r in
    if r.predicate == driven_by
    then record e' { driven_by_assumptions = e'.driven_by_assumptions ++ r.subject ∷ [] }
    else e'

unfoldable pub dt_from : Sets → List Relationship → Sets
dt_from e [] = e
dt_from e (r ∷ rels) = dt_from (dt_one e r) rels

pub record DtIndices : Type 0 where
  pub roots : List String
  pub dt_token_ids : List String
  pub sets : Sets

unfoldable pub load_dt_indices : SquireState → DtIndices
load_dt_indices s =
    let sets = dt_from no_sets (get_relationships s none none none) in
    let ids = retain (λ id. starts_with id "CONCEPT_DT_") (list_token_ids s) in
    record {
      roots = retain (λ id. not (contains sets.incoming id)) ids;
      dt_token_ids = ids;
      sets = sets;
    }

abbrev pub is_tree_edge : Relationship → Bool
is_tree_edge r = r.predicate == considers || r.predicate == selects

unfoldable pub dt_children : String → List Relationship → List String
dt_children parent rels =
    map (λ r. r.object) (retain (λ r. r.subject == parent && is_tree_edge r) rels)

-- The ladder of tests in `dt_build_tree`.
unfoldable pub status_of : Sets → String → String
status_of e id =
    if contains e.resolves_set id
    then "resolved"
    else if contains e.confirmed_set id
    then "confirmed"
    else if contains e.invalidated_set id
    then "invalidated"
    else if contains e.abandoned_set id
    then "abandoned"
    else if contains e.selects_set id
    then "active"
    else "considered"

-- The loop over the children; `tree` is the recursive call.
unfoldable pub dt_forest : (String → Option Item) → List String → Option Items
dt_forest tree [] = some nil
dt_forest tree (c ∷ cs) = elim (tree c) [
  | none ↦ none
  | some t ↦ elim (dt_forest tree cs) [ none ↦ none | some ts ↦ some (cons t ts) ]
]

unfoldable pub dt_build_tree : List Relationship → SquireState → Sets → ℕ → String → Option Item
dt_build_tree rels s e zero id = none
dt_build_tree rels s e (suc fuel) id =
    let title : String = elim (token_detail s id) [ none ↦ id | some d ↦ d.short_desc ] in
    elim (dt_forest (dt_build_tree rels s e fuel) (dt_children id rels)) [
      | none ↦ none
      | some children ↦ some (item id title (status_of e id) children)
    ]

-- The first `considers` or `selects` relationship that leads to a node.
unfoldable pub parent_of : String → List Relationship → Option Relationship
parent_of id rels = find (λ r. r.object == id && is_tree_edge r) rels

-- The loop of `find_dt_root` has no bound.
unfoldable pub find_dt_root : ℕ → String → List Relationship → Option String
find_dt_root zero current rels = none
find_dt_root (suc fuel) current rels = elim (parent_of current rels) [
  | none ↦ some current
  | some p ↦ find_dt_root fuel p.subject rels
]
