-- ===== src/Store/Process.antt =====
-- compute_active_process_state of src-tauri/crates/squire-store/src/store.rs, and effective_priority.
-- The recursions and the loop along relationships take fuel, and give `none` when it runs out.
pub mod Agree
use agent_squire.Base.{
  ℕ, zero, suc, ◌+◌, ◌-◌, String, Bool, true, false, not, ◌&&◌, ◌||◌, ◌==◌, Option, none, some,
  List, [], ◌∷◌, ◌++◌, retain, find, contains, insert_set, unwrap_or, if◌then◌else◌, leb, ◌>>=◌,
}
use agent_squire.Base.Dict.{Dict, lookup, upsert}
use agent_squire.Store.Types.{
  Relationship, subtask, considers, selects, marked_done, resolves, confirmed_by, invalidated_by,
  abandoned, driven_by,
}
use agent_squire.Store.Ops.{SquireState, get_relationships, list_token_ids_by_session}
use text.Mathlib.Text.{starts_with}

pub record LastDecision : Type 0 where
  pub node : String
  pub assumption : String
  pub status : String

pub record ActiveProcessState : Type 0 where
  pub todo_root : Option String
  pub open_leaves : List String
  pub dt_root : Option String
  pub last_decision : Option LastDecision

pub record ProcessIndex : Type 0 where
  pub outgoing_subtask : Dict (List String)
  pub incoming_dt_edge : List String
  pub done_set : List String
  pub resolved_set : List String

abbrev pub add_if : Bool → List String → String → List String
add_if b xs x = if b then insert_set xs x else xs

-- One round of the loop over the relationships.
unfoldable pub index_rel : ProcessIndex → Relationship → ProcessIndex
index_rel i rel = record {
  outgoing_subtask =
      if rel.predicate == subtask
      then upsert rel.subject [] (λ ids. ids ++ rel.object ∷ []) i.outgoing_subtask
      else i.outgoing_subtask;
  incoming_dt_edge =
      add_if (rel.predicate == considers || rel.predicate == selects) i.incoming_dt_edge rel.object;
  done_set = add_if (rel.predicate == marked_done) i.done_set rel.subject;
  resolved_set = add_if (rel.predicate == resolves) i.resolved_set rel.subject;
}

unfoldable pub index_rels : ProcessIndex → List Relationship → ProcessIndex
index_rels i [] = i
index_rels i (rel ∷ rels) = index_rels (index_rel i rel) rels

abbrev pub no_index : ProcessIndex
no_index = record { outgoing_subtask = []; incoming_dt_edge = []; done_set = []; resolved_set = [] }

-- `all` with a test that may run out of fuel; it stops at the first that fails.
unfoldable pub all_by : (String → Option Bool) → List String → Option Bool
all_by p [] = some true
all_by p (c ∷ cs) = let rest = all_by p cs in p c >>= λ b. if b then rest else some false

unfoldable pub is_done : ℕ → ProcessIndex → String → Option Bool
is_done zero i id = none
is_done (suc fuel) i id = elim (contains i.done_set id) [
  | true ↦ some true
  | false ↦ elim (lookup id i.outgoing_subtask) [
    | none ↦ some false
    | some children ↦ all_by (is_done fuel i) children
  ]
]

unfoldable pub concat_by : (String → Option (List String)) → List String → Option (List String)
concat_by f [] = some []
concat_by f (c ∷ cs) =
    let rest = concat_by f cs in f c >>= λ here. rest >>= λ more. some (here ++ more)

-- The function `open_leaves`, with the leaves as its result.
unfoldable pub leaves_of : ℕ → ProcessIndex → String → Option (List String)
leaves_of zero i id = none
leaves_of (suc fuel) i id = elim (contains i.done_set id) [
  | true ↦ some []
  | false ↦ elim (lookup id i.outgoing_subtask) [
    | none ↦ some (id ∷ [])
    | some [] ↦ some (id ∷ [])
    | some (c ∷ cs) ↦ concat_by (leaves_of fuel i) (c ∷ cs)
  ]
]

abbrev pub has_incoming : List Relationship → String → Bool
has_incoming [] id = false
has_incoming (r ∷ rs) id = r.predicate == subtask && r.object == id || has_incoming rs id

-- The first root that is not done, with its open leaves.
unfoldable pub first_open_root :
    ℕ → ProcessIndex → List String → Option (Option (String × List String))
first_open_root fuel i [] = some none
first_open_root fuel i (root ∷ roots) =
    let rest = first_open_root fuel i roots in
    is_done fuel i root >>= λ done.
    if done then rest else leaves_of fuel i root >>= λ leaves. some (some (root, leaves))

-- The loop that walks to the deepest selected node.
unfoldable pub deepest : ℕ → List Relationship → String → Option String
deepest zero rels current = none
deepest (suc fuel) rels current =
    elim (find (λ r. r.subject == current && r.predicate == selects) rels) [
      | none ↦ some current
      | some r ↦ deepest fuel rels r.object
    ]

abbrev pub has_edge : List Relationship → String → String → Bool
has_edge [] current predicate = false
has_edge (r ∷ rs) current predicate =
    r.subject == current && r.predicate == predicate || has_edge rs current predicate

unfoldable pub leaf_status : List Relationship → String → String
leaf_status rels current =
    if has_edge rels current confirmed_by
    then "confirmed"
    else if has_edge rels current invalidated_by
    then "invalidated"
    else if has_edge rels current abandoned
    then "abandoned"
    else "under_consideration"

unfoldable pub assumption_of : List Relationship → String
assumption_of rels =
    elim (find (λ r. r.predicate == driven_by && starts_with r.object "CONCEPT_Assumption_") rels) [
      | none ↦ ""
      | some r ↦ r.object
    ]

abbrev pub decision_at : List Relationship → String → LastDecision
decision_at rels current = record {
  node = current;
  assumption = assumption_of rels;
  status = leaf_status rels current;
}

-- The first root that is not resolved, with the decision below it.
unfoldable pub first_decision :
    ℕ → ProcessIndex → List Relationship → List String → Option (Option (String × LastDecision))
first_decision fuel i rels [] = some none
first_decision fuel i rels (root ∷ roots) =
    let rest = first_decision fuel i rels roots in
    if contains i.resolved_set root
    then rest
    else deepest fuel rels root >>= λ current. some (some (root, decision_at rels current))

abbrev pub state_of :
    Option (String × List String) → Option (String × LastDecision) → ActiveProcessState
state_of todo decision = record {
  todo_root = elim todo [ none ↦ none | some t ↦ some t.0 ];
  open_leaves = elim todo [ none ↦ [] | some t ↦ t.1 ];
  dt_root = elim decision [ none ↦ none | some d ↦ some d.0 ];
  last_decision = elim decision [ none ↦ none | some d ↦ some d.1 ];
}

unfoldable pub compute_active_process_state : ℕ → SquireState → String → Option ActiveProcessState
compute_active_process_state fuel s session_id =
    let rels = get_relationships s none none none in
    let ids = list_token_ids_by_session s session_id in
    let i = index_rels no_index rels in
    let todo_roots =
      retain (λ id. not (has_incoming rels id)) (retain (λ id. starts_with id "TODO_") ids) in
    let dt_roots =
      retain (λ id. not (contains i.incoming_dt_edge id))
        (retain (λ id. starts_with id "CONCEPT_DT_") ids) in
    first_open_root fuel i todo_roots >>= λ todo.
    first_decision fuel i rels dt_roots >>= λ decision. some (state_of todo decision)
