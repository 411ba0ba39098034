-- ===== src/Todo/Token/Bulk.antt =====
-- `token_bulk` and `execute_token` of src-tauri/src/agent/todo_tree.rs.
use agent_squire.Base.{
  ℕ, ◌+◌, String, ◌==◌, Option, none, some, List, [], ◌∷◌, ◌++◌, if◌then◌else◌, ◌>>=◌,
}
use agent_squire.Store.Ops.{SquireState}
use agent_squire.Tool.{ToolResult, Args, Request, failed, succeeded}
use agent_squire.Todo.Index.{load_todo_indices}
use agent_squire.Todo.Tree.{build_tree_json}
use agent_squire.Todo.Token.{
  BulkEntry, changed, listed, got, Output, missing_operations, bulk_missing, bulk_unsupported,
  todo_tree_bulk, unknown_operation, Reply, token_create, token_list, token_update, token_get,
  token_delete, root_of, tree_of,
}

-- How one operation of a bulk call ends: by a return from the whole call, or with an entry.
pub data Step : Type 0 where
  stop : ToolResult Output → Step
  entry : BulkEntry → Step

abbrev pub StepReply : Type 0
StepReply = SquireState × Step

-- `if result.is_error { return result; }`, and the entry that is pushed otherwise.
abbrev pub step_of : ℕ → String → Reply → StepReply
step_of idx name (s, r) = (s, if r.is_error then stop r else entry (changed idx name))

module _ (fuel : ℕ) (session : Option String) (call_id : String) where
  unfoldable pub bulk_create : ℕ → Args → SquireState → Option StepReply
  bulk_create idx op s = do
    reply ← token_create fuel session call_id op s
    some (step_of idx "create" reply)

  unfoldable pub bulk_list : ℕ → SquireState → Option StepReply
  bulk_list idx s =
      let ix = load_todo_indices s in
      do
        items ← build_tree_json s ix.edges.outgoing ix.edges.marked fuel ix.root_ids
        some (s, entry (listed idx items))

  unfoldable pub bulk_get : ℕ → Args → SquireState → Option StepReply
  bulk_get idx op s = elim op.id [
    | none ↦ some (s, stop (failed call_id (bulk_missing idx "id")))
    | some id ↦ do
      root ← root_of fuel s id
      items ← tree_of fuel s root
      some (s, entry (got idx root items))
  ]

  unfoldable pub bulk_update : ℕ → Args → SquireState → Option StepReply
  bulk_update idx op s = do
    reply ← token_update fuel session call_id op s
    some (step_of idx "update" reply)

  unfoldable pub bulk_delete : ℕ → Args → SquireState → Option StepReply
  bulk_delete idx op s = do
    reply ← token_delete fuel session call_id op s
    some (step_of idx "delete" reply)

  -- The `match op_name`.
  unfoldable pub bulk_step : ℕ → String → Args → SquireState → Option StepReply
  bulk_step idx name op s =
      if name == "create"
      then bulk_create idx op s
      else if name == "list"
      then bulk_list idx s
      else if name == "get"
      then bulk_get idx op s
      else if name == "update"
      then bulk_update idx op s
      else if name == "delete"
      then bulk_delete idx op s
      else some (s, stop (failed call_id (bulk_unsupported idx name)))

  unfoldable pub bulk_loop : List Args → ℕ → List BulkEntry → SquireState → Option Reply
  bulk_loop [] idx results s = some (s, succeeded call_id (todo_tree_bulk results))
  bulk_loop (op ∷ ops) idx results s = elim op.operation [
    | none ↦ some (s, failed call_id (bulk_missing idx "operation"))
    | some name ↦ elim (bulk_step idx name op s) [
      | none ↦ none
      | some (s', stop r) ↦ some (s', r)
      | some (s', entry e) ↦ bulk_loop ops (idx + 1) (results ++ e ∷ []) s'
    ]
  ]

  unfoldable pub token_bulk : Request → SquireState → Option Reply
  token_bulk req s = elim req.operations [
    | none ↦ some (s, failed call_id missing_operations)
    | some [] ↦ some (s, failed call_id missing_operations)
    | some (op ∷ ops) ↦ bulk_loop (op ∷ ops) 0 [] s
  ]

  unfoldable pub execute_token : String → Request → SquireState → Option Reply
  execute_token operation req s =
      if operation == "create"
      then token_create fuel session call_id req.args s
      else if operation == "list"
      then token_list fuel session call_id s
      else if operation == "update"
      then token_update fuel session call_id req.args s
      else if operation == "get"
      then token_get fuel session call_id req.args s
      else if operation == "delete"
      then token_delete fuel session call_id req.args s
      else if operation == "bulk"
      then token_bulk req s
      else some (s, failed call_id (unknown_operation operation))
