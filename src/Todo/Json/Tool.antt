-- ===== src/Todo/Json/Tool.antt =====
-- The single operations of the todo tool on the JSON file: `TodoTreeTool::execute_legacy` of
-- src-tauri/src/agent/todo_tree.rs, and what it reads and writes. The files, the text format of
-- serde_json, the generator of identifiers and the clock are arguments.
use agent_squire.Base.{
  ℕ, zero, suc, ◌-◌, String, ◌==◌, true, false, Option, none, some, List, [], ◌∷◌, if◌then◌else◌,
  unwrap_or, ◌>>=◌, length, append,
}
use agent_squire.Base.Dict.{Dict, lookup, contains_key}
use agent_squire.Slug.Chars.{trim}
use agent_squire.Tool.{ToolResult, Result, ok, err, Args, failed, succeeded}
use agent_squire.Todo.Tree.{Items, nil, cons, item}
use agent_squire.Todo.Token.{is_blank}
use agent_squire.Todo.Json.{
  TodoStatus, todo, in_progress, done, TodoNode, TodoStore, default_store, StoreError, add_node,
  update_status, remove_node, stored_parent,
}

-- `read_file` and `write_file` of src-tauri/src/fs/ops.rs on files of type D, as `load` and `save` use
-- them: a read without its error, and a write with the new files and the text of its error, which
-- begins with "write: ". `disk` in Todo/Json/Disk builds them from the code.
pub record Files (D : Type 0) : Type 0 where
  pub read_file : String → D → Option String
  pub write_file : String → String → D → D × Option String

-- `serde_json::to_string_pretty` and `serde_json::from_str` at `TodoStore`.
pub record Codec : Type 0 where
  pub encode : TodoStore → Result String String
  pub decode : String → Option TodoStore

pub data BulkOutcome : Type 0 where
  bulk_created : ℕ → (id title : String) → Option String → BulkOutcome
  bulk_listed : ℕ → Items → BulkOutcome
  bulk_got : ℕ → Items → BulkOutcome
  bulk_updated : ℕ → (id status : String) → BulkOutcome
  bulk_deleted : ℕ → String → ℕ → BulkOutcome

-- The texts of the results.
pub data LegacyOutput : Type 0 where
  missing_argument : String → LegacyOutput
  title_empty : LegacyOutput
  store_error : StoreError → LegacyOutput
  save_failed : String → LegacyOutput
  created : (title id : String) → LegacyOutput
  todo_tree : Items → LegacyOutput
  invalid_status : String → LegacyOutput
  updated : (title id status : String) → LegacyOutput
  node_not_found : String → LegacyOutput
  deleted : (title id : String) → ℕ → LegacyOutput
  unknown_operation : String → LegacyOutput
  missing_operations : LegacyOutput
  bulk_required : ℕ → (field operation : String) → LegacyOutput
  bulk_title_empty : ℕ → LegacyOutput
  bulk_invalid_status : ℕ → String → LegacyOutput
  bulk_failed : ℕ → String → StoreError → LegacyOutput
  bulk_unsupported : ℕ → String → LegacyOutput
  todo_tree_bulk : List BulkOutcome → LegacyOutput

unfoldable pub status_str : TodoStatus → String
status_str todo = "todo"
status_str in_progress = "in_progress"
status_str done = "done"

-- `match status_str` in the operation "update".
unfoldable pub parse_status : String → Option TodoStatus
parse_status s =
    if s == "todo"
    then some todo
    else if s == "in_progress"
    then some in_progress
    else if s == "done"
    then some done
    else none

-- The loop of `build_tree_json`; `tree` is the recursive call for the children.
unfoldable pub json_items :
    Dict TodoNode → (List String → Option Items) → List String → Option Items
json_items nodes tree [] = some nil
json_items nodes tree (id ∷ ids) = elim (lookup id nodes) [
  | none ↦ json_items nodes tree ids
  | some n ↦ do
    children ← tree n.children
    rest ← json_items nodes tree ids
    some (cons (item n.id n.title (status_str n.status) children) rest)
]

unfoldable pub build_tree_json : Dict TodoNode → ℕ → List String → Option Items
build_tree_json nodes zero ids = none
build_tree_json nodes (suc fuel) ids = json_items nodes (build_tree_json nodes fuel) ids

-- "Walk up parent chain to root".
unfoldable pub walk_up : Dict TodoNode → ℕ → String → Option String
walk_up nodes zero cur = none
walk_up nodes (suc fuel) cur = elim (stored_parent nodes cur) [
  | some p ↦ walk_up nodes fuel p
  | none ↦ some cur
]

-- `nodes.get(id).map(|n| n.title.clone()).unwrap_or_default()`.
abbrev pub stored_title : TodoStore → String → String
stored_title st id = elim (lookup id st.nodes) [ none ↦ "" | some n ↦ n.title ]

module _ {D : Type 0} (files : Files D) (codec : Codec) where
  unfoldable pub load : String → D → TodoStore
  load path d = elim (files.read_file path d) [
    | none ↦ default_store
    | some content ↦ unwrap_or default_store (codec.decode content)
  ]

  -- `save`, with the error it returns.
  unfoldable pub save : String → TodoStore → D → D × Option String
  save path st d = elim (codec.encode st) [
    | err e ↦ (d, some (append "serialization: " e))
    | ok content ↦ files.write_file path content d
  ]

  abbrev pub LegacyReply : Type 0
  LegacyReply = D × ToolResult LegacyOutput

  module _ (path call_id : String) where
    -- `if let Err(e) = store.save(…)`, and the result otherwise.
    unfoldable pub save_then : TodoStore → LegacyOutput → D → LegacyReply
    save_then st output d =
        let (d', e) = save path st d in
        elim e [
          | some why ↦ (d', failed call_id (save_failed why))
          | none ↦ (d', succeeded call_id output)
        ]

    unfoldable pub legacy_create : String → String → Args → D → LegacyReply
    legacy_create now uuid args d = elim args.title [
      | none ↦ (d, failed call_id (missing_argument "title"))
      | some raw ↦
          let title = trim raw in
          if is_blank title
          then (d, failed call_id title_empty)
          else elim (add_node now uuid title args.parent_id (load path d)) [
            | err e ↦ (d, failed call_id (store_error e))
            | ok st ↦ save_then st (created title uuid) d
          ]
    ]

    unfoldable pub legacy_list : ℕ → D → Option LegacyReply
    legacy_list fuel d =
        let st = load path d in
        do
          items ← build_tree_json st.nodes fuel st.root_items
          some (d, succeeded call_id (todo_tree items))

    unfoldable pub legacy_update : ℕ → String → Args → D → Option LegacyReply
    legacy_update fuel now args d = elim args.id [
      | none ↦ some (d, failed call_id (missing_argument "id"))
      | some id ↦ elim args.status [
        | none ↦ some (d, failed call_id (missing_argument "status"))
        | some status ↦ elim (parse_status status) [
          | none ↦ some (d, failed call_id (invalid_status status))
          | some new_status ↦
              let st = load path d in
              do
                r ← update_status fuel now id new_status st
                some (elim r [
                  | err e ↦ (d, failed call_id (store_error e))
                  | ok st' ↦ save_then st' (updated (stored_title st id) id status) d
                ])
        ]
      ]
    ]

    unfoldable pub legacy_get : ℕ → Args → D → Option LegacyReply
    legacy_get fuel args d = elim args.id [
      | none ↦ some (d, failed call_id (missing_argument "id"))
      | some id ↦
          let st = load path d in
          elim (contains_key id st.nodes) [
            | false ↦ some (d, failed call_id (node_not_found id))
            | true ↦ do
              root ← walk_up st.nodes fuel id
              items ← build_tree_json st.nodes fuel (root ∷ [])
              some (d, succeeded call_id (todo_tree items))
          ]
    ]

    unfoldable pub legacy_delete : Args → D → Option LegacyReply
    legacy_delete args d = elim args.id [
      | none ↦ some (d, failed call_id (missing_argument "id"))
      | some id ↦
          let st = load path d in
          do
            (st', removed) ← remove_node id st
            some (save_then st' (deleted (stored_title st id) id (length removed - 1)) d)
    ]
