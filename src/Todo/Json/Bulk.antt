-- ===== src/Todo/Json/Bulk.antt =====
-- The operation "bulk" of `TodoTreeTool::execute_legacy`, src-tauri/src/agent/todo_tree.rs, and the
-- choice of the operation. The file is read once before the loop and written once behind it.
pub mod Rounds
pub mod Atomic
use agent_squire.Base.{
  ℕ, zero, suc, ◌+◌, String, ◌==◌, Bool, true, false, Option, none, some, List, [], ◌∷◌, ◌++◌,
  if◌then◌else◌, unwrap_or, ◌>>=◌, length,
}
use agent_squire.Base.Dict.{contains_key}
use agent_squire.Slug.Chars.{trim}
use agent_squire.Tool.{ToolResult, Result, ok, err, Args, Request, failed, succeeded}
use agent_squire.Todo.Token.{is_blank}
use agent_squire.Todo.Json.{TodoStore, node_missing, add_node, update_status, remove_node}
use agent_squire.Todo.Json.Tool.{
  Files, Codec, BulkOutcome, bulk_created, bulk_listed, bulk_got, bulk_updated, bulk_deleted,
  LegacyOutput, missing_operations, bulk_required, bulk_title_empty, bulk_invalid_status,
  bulk_failed, bulk_unsupported, todo_tree_bulk, unknown_operation, parse_status, build_tree_json,
  walk_up, load, LegacyReply, save_then, legacy_create, legacy_list, legacy_update, legacy_get,
  legacy_delete,
}

-- How a round of the loop ends: with a return of an error, or with the store, whether the round
-- sets `mutated`, and the entry that it pushes.
pub data Round : Type 0 where
  stop : LegacyOutput → Round
  next : TodoStore → Bool → BulkOutcome → Round

module _ (fuel : ℕ) (now uuid : String) (idx : ℕ) (op : Args) (st : TodoStore) where
  unfoldable pub round_create : Round
  round_create = elim op.title [
    | none ↦ stop (bulk_required idx "title" "create")
    | some raw ↦
        let title = trim raw in
        if is_blank title
        then stop (bulk_title_empty idx)
        else elim (add_node now uuid title op.parent_id st) [
          | err e ↦ stop (bulk_failed idx "create" e)
          | ok st' ↦ next st' true (bulk_created idx uuid title op.parent_id)
        ]
  ]

  unfoldable pub round_list : Option Round
  round_list = do
    items ← build_tree_json st.nodes fuel st.root_items
    some (next st false (bulk_listed idx items))

  unfoldable pub round_get : Option Round
  round_get = elim op.id [
    | none ↦ some (stop (bulk_required idx "id" "get"))
    | some id ↦ elim (contains_key id st.nodes) [
      | false ↦ some (stop (bulk_failed idx "get" (node_missing id)))
      | true ↦ do
        root ← walk_up st.nodes fuel id
        items ← build_tree_json st.nodes fuel (root ∷ [])
        some (next st false (bulk_got idx items))
    ]
  ]

  unfoldable pub round_update : Option Round
  round_update = elim op.id [
    | none ↦ some (stop (bulk_required idx "id" "update"))
    | some id ↦ elim op.status [
      | none ↦ some (stop (bulk_required idx "status" "update"))
      | some status ↦ elim (parse_status status) [
        | none ↦ some (stop (bulk_invalid_status idx status))
        | some new_status ↦ do
          r ← update_status fuel now id new_status st
          some (elim r [
            | err e ↦ stop (bulk_failed idx "update" e)
            | ok st' ↦ next st' true (bulk_updated idx id status)
          ])
      ]
    ]
  ]

  unfoldable pub round_delete : Option Round
  round_delete = elim op.id [
    | none ↦ some (stop (bulk_required idx "id" "delete"))
    | some id ↦ do
      (st', removed) ← remove_node id st
      some (next st' true (bulk_deleted idx id (length removed)))
  ]

  -- `match op_name`.
  unfoldable pub bulk_round : String → Option Round
  bulk_round name =
      if name == "create"
      then some round_create
      else if name == "list"
      then round_list
      else if name == "get"
      then round_get
      else if name == "update"
      then round_update
      else if name == "delete"
      then round_delete
      else some (stop (bulk_unsupported idx name))

-- How the loop ends: with an error, or with the store, `mutated` and the results.
pub data Bulk : Type 0 where
  aborted : LegacyOutput → Bulk
  finished : TodoStore → Bool → List BulkOutcome → Bulk

-- The loop over the operations; the clock and the generator are asked once for each.
unfoldable pub legacy_bulk_loop :
    ℕ
    → (ℕ → String)
    → (ℕ → String)
    → List Args
    → ℕ
    → TodoStore
    → Bool
    → List BulkOutcome
    → Option Bulk
legacy_bulk_loop fuel now uuid [] idx st mutated results = some (finished st mutated results)
legacy_bulk_loop fuel now uuid (op ∷ ops) idx st mutated results = elim op.operation [
  | none ↦ some (aborted (bulk_required idx "operation" ""))
  | some name ↦ elim (bulk_round fuel (now idx) (uuid idx) idx op st name) [
    | none ↦ none
    | some (stop e) ↦ some (aborted e)
    | some (next st' changed entry) ↦
        legacy_bulk_loop fuel now uuid ops (idx + 1) st' (if changed then true else mutated)
          (results ++ entry ∷ [])
  ]
]

module _ {D : Type 0} (files : Files D) (codec : Codec) (fuel : ℕ) where
  module _ (now uuid : ℕ → String) (path call_id : String) where
    -- What stands behind the loop: the one write.
    unfoldable pub finish_bulk : Bulk → D → LegacyReply files codec
    finish_bulk (aborted e) d = (d, failed call_id e)
    finish_bulk (finished st true results) d =
        save_then files codec path call_id st (todo_tree_bulk results) d
    finish_bulk (finished st false results) d = (d, succeeded call_id (todo_tree_bulk results))

    unfoldable pub legacy_bulk : Request → D → Option (LegacyReply files codec)
    legacy_bulk req d = elim (unwrap_or [] req.operations) [
      | [] ↦ some (d, failed call_id missing_operations)
      | op ∷ ops ↦ do
        bulk ← legacy_bulk_loop fuel now uuid (op ∷ ops) 0 (load files codec path d) false []
        some (finish_bulk bulk d)
    ]

  -- `store_path_for`.
  unfoldable pub store_path_for : String → Args → String
  store_path_for store_path args = unwrap_or store_path args.path

  unfoldable pub execute_legacy :
      (ℕ → String)
      → (ℕ → String)
      → String
      → String
      → String
      → Request
      → D
      → Option (LegacyReply files codec)
  execute_legacy now uuid store_path call_id operation req d =
      let path = store_path_for store_path req.args in
      if operation == "create"
      then some (legacy_create files codec path call_id (now 0) (uuid 0) req.args d)
      else if operation == "bulk"
      then legacy_bulk now uuid path call_id req d
      else if operation == "list"
      then legacy_list files codec path call_id fuel d
      else if operation == "update"
      then legacy_update files codec path call_id fuel (now 0) req.args d
      else if operation == "get"
      then legacy_get files codec path call_id fuel req.args d
      else if operation == "delete"
      then legacy_delete files codec path call_id req.args d
      else some (d, failed call_id (unknown_operation operation))
