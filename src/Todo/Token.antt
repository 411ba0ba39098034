-- ===== src/Todo/Token.antt =====
-- The operations of the todo tool on the memory store: `TodoTreeTool::execute_token` and its
-- `token_…` methods, src-tauri/src/agent/todo_tree.rs. `fuel` bounds the recursions along edges, and
-- `none` says that it ran out. The arguments `call_id`, `session` and the state are those of `self`.
pub mod Bulk
pub mod Delete
pub mod Update
pub mod Create
pub mod Loop
pub mod Forest
pub mod Keeps
use agent_squire.Base.{
  ℕ, suc, ◌+◌, ◌-◌, String, ◌==◌, Bool, true, false, ◌&&◌, ◌||◌, Option, none, some, List, [], ◌∷◌,
  ◌++◌, if◌then◌else◌, unwrap_or, is_some, ◌>>=◌, append, length, contains,
}
use agent_squire.Store.Types.{
  NewTokenSpec, TokenDetail, TokenSummary, Relationship, subtask, marked_done,
}
use agent_squire.Store.Ops.{
  SquireState, is_empty, token_exists, upsert_token, insert_relationship, token_detail,
  current_turn, get_relationships, get_root,
}
use agent_squire.Slug.Chars.{trim}
use agent_squire.Slug.Defs.{todo_slug}
use agent_squire.Tool.{ToolResult, Args, Request, ok, err, failed, succeeded}
use agent_squire.Todo.Done.{ConstraintError, check_done_constraints, collect_descendant_ids}
use agent_squire.Todo.Index.{TodoIndices, load_todo_indices}
use agent_squire.Todo.Tree.{Items, build_tree_json}

-- One entry of the array `results` of a bulk call.
pub data BulkEntry : Type 0 where
  changed : ℕ → String → BulkEntry
  listed : ℕ → Items → BulkEntry
  got : ℕ → String → Items → BulkEntry

-- The outputs, in the order of the code.
pub data Output : Type 0 where
  missing_argument : String → Output
  title_empty : Output
  created : (title id : String) → Output
  todo_tree : Items → Output
  constraint : ConstraintError → Output
  updated : (title id status : String) → Output
  status_computed : (status title id : String) → Output
  invalid_status : String → Output
  node_not_found : String → Output
  deleted : (title id : String) → ℕ → Output
  missing_operations : Output
  bulk_missing : ℕ → String → Output
  bulk_unsupported : ℕ → String → Output
  todo_tree_bulk : List BulkEntry → Output
  unknown_operation : String → Output

abbrev pub Reply : Type 0
Reply = SquireState × ToolResult Output

abbrev pub nil_uuid : String
nil_uuid = "00000000-0000-0000-0000-000000000000"

abbrev pub concept_token : String → String → NewTokenSpec
concept_token id title = record {
  id = id;
  token_type = "concept";
  short_desc = title;
  full_desc = none;
  endpoint = none;
  ranges = [];
  tags = [];
  properties = [];
}

abbrev pub edge : String → String → String → Relationship
edge subject predicate object = record { subject = subject; predicate = predicate; object = object }

-- `trim().is_empty()`.
abbrev pub is_blank : String → Bool
is_blank t = t == ""

-- The turn that a new item is stored under.
abbrev pub turn_of : Option String → SquireState → ℕ
turn_of none s = 0
turn_of (some sid) s = current_turn s sid

-- The store after `token_create` found the identifier.
unfoldable pub create_item :
    Option String → String → String → Option String → SquireState → SquireState
create_item session title id parent s =
    let s' =
      upsert_token s (concept_token id title) (turn_of session s) (unwrap_or nil_uuid session) in
    elim parent [ none ↦ s' | some pid ↦ insert_relationship s' (edge pid subtask id) ]

abbrev pub title_of : SquireState → String → String
title_of s id = elim (token_detail s id) [ none ↦ "" | some d ↦ d.short_desc ]

-- `get_root(id).map(|r| r.token_id).unwrap_or(id)`.
unfoldable pub root_of : ℕ → SquireState → String → Option String
root_of fuel s id = do
  found ← get_root fuel s id
  some (elim found [ none ↦ id | some r ↦ r.token_id ])

-- The tree of the root of an item.
unfoldable pub tree_of : ℕ → SquireState → String → Option Items
tree_of fuel s root =
    let ix = load_todo_indices s in
    build_tree_json s ix.edges.outgoing ix.edges.marked fuel (root ∷ [])

-- The test of the loop of `token_delete`.
abbrev pub touches : String → List String → Relationship → Bool
touches id descendants r =
    r.predicate == subtask
    && (r.subject == id
        || (r.object == id || (contains descendants r.subject || contains descendants r.object)))

-- The body of that loop.
unfoldable pub delete_one : String → List String → Relationship → SquireState → SquireState
delete_one id descendants r s =
    if touches id descendants r
    then insert_relationship s (edge r.subject "deleted" r.object)
    else s

unfoldable pub delete_edges : String → List String → List Relationship → SquireState → SquireState
delete_edges id descendants [] s = s
delete_edges id descendants (r ∷ rels) s =
    delete_edges id descendants rels (delete_one id descendants r s)

module _ (fuel : ℕ) (session : Option String) (call_id : String) where
  unfoldable pub token_create : Args → SquireState → Option Reply
  token_create args s = elim args.title [
    | none ↦ some (s, failed call_id (missing_argument "title"))
    | some raw ↦
        let title = trim raw in
        if is_blank title then some (s, failed call_id title_empty) else do
          id ← todo_slug title s
          some (create_item session title id args.parent_id s, succeeded call_id (created title id))
  ]

  unfoldable pub token_list : SquireState → Option Reply
  token_list s =
      let ix = load_todo_indices s in
      do
        items ← build_tree_json s ix.edges.outgoing ix.edges.marked fuel ix.root_ids
        some (s, succeeded call_id (todo_tree items))

  -- The arm "done" of `token_update`.
  unfoldable pub mark_done : String → SquireState → Option Reply
  mark_done id s =
      let ix = load_todo_indices s in
      elim (check_done_constraints ix.edges.marked ix.edges.outgoing fuel id) [
        | none ↦ none
        | some (err e) ↦ some (s, failed call_id (constraint e))
        | some (ok _) ↦ some (
          insert_relationship s (edge id marked_done (append "TRT_" id)),
          succeeded call_id (updated (title_of s id) id "done"),
        )
      ]

  unfoldable pub token_update : Args → SquireState → Option Reply
  token_update args s = elim args.id [
    | none ↦ some (s, failed call_id (missing_argument "id"))
    | some id ↦ elim args.status [
      | none ↦ some (s, failed call_id (missing_argument "status"))
      | some status ↦
          if status == "done"
          then mark_done id s
          else if status == "todo" || status == "in_progress"
          then some (s, succeeded call_id (status_computed status (title_of s id) id))
          else some (s, failed call_id (invalid_status status))
    ]
  ]

  unfoldable pub token_get : Args → SquireState → Option Reply
  token_get args s = elim args.id [
    | none ↦ some (s, failed call_id (missing_argument "id"))
    | some id ↦ elim (token_detail s id) [
      | none ↦ some (s, failed call_id (node_not_found id))
      | some _ ↦ do
        root ← root_of fuel s id
        items ← tree_of fuel s root
        some (s, succeeded call_id (todo_tree items))
    ]
  ]

  unfoldable pub token_delete : Args → SquireState → Option Reply
  token_delete args s = elim args.id [
    | none ↦ some (s, failed call_id (missing_argument "id"))
    | some id ↦ do
      descendants ← collect_descendant_ids id (load_todo_indices s).edges.outgoing
      some (
        delete_edges id descendants (get_relationships s none none none) s,
        succeeded call_id (deleted id id (length descendants - 1)),
      )
  ]
