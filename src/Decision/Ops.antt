-- ===== src/Decision/Ops.antt =====
-- The operations of the decision-tree tool: `execute` and the `op_…` methods of
-- src-tauri/src/agent/decision_tree.rs.
use agent_squire.Base.{
  ℕ, String, ◌==◌, Option, none, some, List, if◌then◌else◌, unwrap_or, append, ◌>>=◌,
}
use agent_squire.Store.Types.{
  Relationship, considers, selects, driven_by, confirmed_by, invalidated_by, abandoned, resolves,
}
use agent_squire.Store.Ops.{
  SquireState, upsert_token, insert_relationship, token_detail, current_turn, get_relationships,
}
use agent_squire.Slug.Chars.{trim}
use agent_squire.Slug.Defs.{dt_slugify, dt_slug, assumption_slug}
use agent_squire.Tool.{ToolResult, Args, failed, succeeded}
use agent_squire.Todo.Token.{concept_token, edge, is_blank}
use agent_squire.Todo.Tree.{Items, nil, cons}
use agent_squire.Decision.Tree.{load_dt_indices, dt_build_tree, dt_forest, parent_of, find_dt_root}

pub data Output : Type 0 where
  missing_argument : String → Output
  title_empty : Output
  created : (title id : String) → Output
  added : (parent title id : String) → Output
  selected : String → Output
  confirmed : String → Output
  invalidated : String → Output
  abandoned_option : String → Output
  resolved : (root id : String) → Output
  decision_tree : Items → Output
  not_found : String → Output
  unknown_operation : String → Output

abbrev pub Reply : Type 0
Reply = SquireState × ToolResult Output

-- `upsert_token` of a concept, as all operations call it.
unfoldable pub put_concept : String → String → String → SquireState → SquireState
put_concept session id title s =
    upsert_token s (concept_token id title) (current_turn s session) session

abbrev pub all_relationships : SquireState → List Relationship
all_relationships s = get_relationships s none none none

-- The parts of `op_select`: the relationship, and the assumption behind it.
unfoldable pub select_edge : String → SquireState → Relationship
select_edge id s = elim (parent_of id (all_relationships s)) [
  | none ↦ edge id selects id
  | some p ↦ edge p.subject selects id
]

unfoldable pub link_assumption : String → String → String → SquireState → Option SquireState
link_assumption session id text s = if is_blank (trim text) then some s else (do
  ass_id ← assumption_slug (trim text) s
  some (insert_relationship (put_concept session ass_id (trim text) s) (edge id driven_by ass_id)))

module _ (fuel : ℕ) (session call_id : String) where
  unfoldable pub op_create_decision : Args → SquireState → Option Reply
  op_create_decision args s = elim args.title [
    | none ↦ some (s, failed call_id (missing_argument "title"))
    | some raw ↦ if is_blank (trim raw) then some (s, failed call_id title_empty) else (do
      id ← dt_slug (trim raw) s
      some (put_concept session id (trim raw) s, succeeded call_id (created (trim raw) id)))
  ]

  unfoldable pub op_consider : Args → SquireState → Option Reply
  op_consider args s = elim args.parent_id [
    | none ↦ some (s, failed call_id (missing_argument "parent_id"))
    | some parent ↦ elim args.title [
      | none ↦ some (s, failed call_id (missing_argument "title"))
      | some raw ↦ if is_blank (trim raw) then some (s, failed call_id title_empty) else (do
        id ← dt_slug (trim raw) s
        some (
          insert_relationship (put_concept session id (trim raw) s) (edge parent considers id),
          succeeded call_id (added parent (trim raw) id),
        ))
    ]
  ]

  unfoldable pub op_select : Args → SquireState → Option Reply
  op_select args s = elim args.id [
    | none ↦ some (s, failed call_id (missing_argument "id"))
    | some id ↦
        let s' = insert_relationship s (select_edge id s) in
        elim args.assumption [
          | none ↦ some (s', succeeded call_id (selected id))
          | some text ↦ do
            s'' ← link_assumption session id text s'
            some (s'', succeeded call_id (selected id))
        ]
  ]

  unfoldable pub op_confirm : Args → SquireState → Option Reply
  op_confirm args s = elim args.id [
    | none ↦ some (s, failed call_id (missing_argument "id"))
    | some id ↦
        let text = unwrap_or "confirmed" args.evidence in
        some (
          insert_relationship s (edge id confirmed_by (append "TRT_evidence_" (dt_slugify text))),
          succeeded call_id (confirmed id),
        )
  ]

  unfoldable pub op_invalidate : Args → SquireState → Option Reply
  op_invalidate args s = elim args.id [
    | none ↦ some (s, failed call_id (missing_argument "id"))
    | some id ↦
        let text = unwrap_or "invalidated" args.evidence in
        some (
          insert_relationship s (edge id invalidated_by (append "TRT_evidence_" (dt_slugify text))),
          succeeded call_id (invalidated id),
        )
  ]

  unfoldable pub op_abandon : Args → SquireState → Option Reply
  op_abandon args s = elim args.id [
    | none ↦ some (s, failed call_id (missing_argument "id"))
    | some id ↦
        let text = unwrap_or "" args.assumption in
        let object : String =
          if text == ""
          then append "TRT_abandoned_" id
          else append "CONCEPT_Assumption_" (dt_slugify text) in
        some (
          insert_relationship s (edge id abandoned object),
          succeeded call_id (abandoned_option id),
        )
  ]

  unfoldable pub op_resolve : Args → SquireState → Option Reply
  op_resolve args s = elim args.id [
    | none ↦ some (s, failed call_id (missing_argument "id"))
    | some id ↦ do
      root ← find_dt_root fuel id (all_relationships s)
      some (insert_relationship s (edge id resolves root), succeeded call_id (resolved root id))
  ]

  unfoldable pub op_list : SquireState → Option Reply
  op_list s =
      let ix = load_dt_indices s in
      do
        items ← dt_forest (dt_build_tree (all_relationships s) s ix.sets fuel) ix.roots
        some (s, succeeded call_id (decision_tree items))

  unfoldable pub op_get : Args → SquireState → Option Reply
  op_get args s = elim args.id [
    | none ↦ some (s, failed call_id (missing_argument "id"))
    | some id ↦ elim (token_detail s id) [
      | none ↦ some (s, failed call_id (not_found id))
      | some _ ↦ do
        root ← find_dt_root fuel id (all_relationships s)
        tree ← dt_build_tree (all_relationships s) s (load_dt_indices s).sets fuel root
        some (s, succeeded call_id (decision_tree (cons tree nil)))
    ]
  ]

  unfoldable pub execute : Args → SquireState → Option Reply
  execute args s = elim args.operation [
    | none ↦ some (s, failed call_id (missing_argument "operation"))
    | some operation ↦
        if operation == "create_decision"
        then op_create_decision args s
        else if operation == "consider"
        then op_consider args s
        else if operation == "select"
        then op_select args s
        else if operation == "confirm"
        then op_confirm args s
        else if operation == "invalidate"
        then op_invalidate args s
        else if operation == "abandon"
        then op_abandon args s
        else if operation == "resolve"
        then op_resolve args s
        else if operation == "list"
        then op_list s
        else if operation == "get"
        then op_get args s
        else some (s, failed call_id (unknown_operation operation))
  ]
