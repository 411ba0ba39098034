-- ===== src/Memory/Run.antt =====
-- The tools explore and batch of src-tauri/src/agent/squire/tools.rs, with exec_pipeline and exec_func.
use Prim.Native.Nat.{Ordering}
use agent_squire.Base.{
  ℕ, suc, String, Bool, true, false, not, ◌&&◌, ◌||◌, ◌==◌, Option, none, some, List, [], ◌∷◌, ◌++◌,
  if◌then◌else◌, ltb, unwrap_or, map, contains,
}
use agent_squire.Store.Types.{TokenSummary}
use agent_squire.Store.Ops.{SquireState, token_detail, record_hit, current_turn}
use agent_squire.Tool.{ok, err, failed, succeeded}
use agent_squire.Protocol.{is_empty_text}
use agent_squire.Response.Lines.{holds}
use agent_squire.Memory.Batch.{BatchFunc, explore, rdf, token_to_detail, parse_batch_expr}
use agent_squire.Memory.Tools.{
  found, missing_expression, parse_error, ToolArgs, ToolDefinition, as_u32, check_batch_cap, Called,
  full_or_short, truncate, any_digit, walk_from,
}

-- The method of the store's interface: resource type, query, hops, results, turn, session and vector.
abbrev pub ExploreMemory : Type 0 → Type 0
ExploreMemory S =
    SquireState → String → String → ℕ → ℕ → ℕ → String → String → List (TokenSummary × S)

abbrev pub tool_summary : ToolDefinition → TokenSummary
tool_summary d = record {
  token_id = d.name;
  token_type = "tool";
  short_desc = d.description;
  accumulated_hits = 0;
  hop_distance = 0;
  via_token_id = none;
  tags = [];
  properties = [];
}

module _ {S : Type 0} (halved : S → ℕ → S) (compare_scores : S → S → Ordering) (one : S)
    (lowercase : String → String) (explore_memory : ExploreMemory S)
    (tool_defs : List ToolDefinition) (session_id : String) where
  abbrev pub is_match : String → ToolDefinition → Bool
  is_match ql d =
      is_empty_text ql || (holds (lowercase d.name) ql || holds (lowercase d.description) ql)

  -- The loop over the registry, with the number of results that are pushed.
  unfoldable pub tool_hits :
      String → (max_results pushed : ℕ) → List ToolDefinition → List (TokenSummary × S)
  tool_hits ql max_results pushed [] = []
  tool_hits ql max_results pushed (d ∷ ds) = elim (is_match ql d && ltb pushed max_results) [
    | true ↦ (tool_summary d, one) ∷ tool_hits ql max_results (suc pushed) ds
    | false ↦ tool_hits ql max_results pushed ds
  ]

  -- The search of a resource type: the registry for tools, the store for the others and for skills.
  unfoldable pub search_resources :
      SquireState
      → String
      → (query effective_query : String) → (num_hops max_results turn : ℕ) → (vector : String)
      → List (TokenSummary × S)
  search_resources s resource_type query effective_query num_hops max_results turn vector =
      let hits = tool_hits (lowercase query) max_results 0 tool_defs in
      if resource_type == "tool"
      then hits
      else if resource_type == "tool_skill"
      then hits
        ++ explore_memory s "skill" effective_query num_hops max_results turn session_id vector
      else explore_memory s resource_type effective_query num_hops max_results turn session_id
          vector

  -- A query that looks like an identifier is replaced by the text of its token.
  unfoldable pub effective_query : SquireState → String → String → String
  effective_query s resource_type query =
      if (holds query "_T" && any_digit query) && not (resource_type == "tool")
      then elim (token_detail s query) [ none ↦ query | some d ↦ full_or_short d ]
      else query

  unfoldable pub explore_call : String → ToolArgs → ℕ → SquireState → Called S
  explore_call call_id args count s =
      let resource_type = unwrap_or "all" args.resource_type in
      let query = unwrap_or "" args.query in
      (
        count,
        s,
        succeeded call_id (
            found (
              search_resources s resource_type query (effective_query s resource_type query)
                (as_u32 (unwrap_or 0 args.num_hops)) (as_u32 (unwrap_or 10 args.max_results))
                (current_turn s session_id) (unwrap_or "content" args.vector))),
      )

  -- `SquireExploreTool::execute`.
  unfoldable pub execute_explore : String → ToolArgs → (count cap : ℕ) → SquireState → Called S
  execute_explore call_id args count cap s =
      let (count', refused) = check_batch_cap count cap in
      elim refused [
        | some refusal ↦ (count', s, refusal)
        | none ↦ explore_call call_id args count' s
      ]

  abbrev pub detail_summary : String → String → TokenSummary
  detail_summary token_id desc = record {
    token_id = token_id;
    token_type = "detail";
    short_desc = desc;
    accumulated_hits = 0;
    hop_distance = 0;
    via_token_id = none;
    tags = [];
    properties = [];
  }

  unfoldable pub exec_func :
      SquireState → BatchFunc → List (TokenSummary × S) → ℕ → SquireState × List (TokenSummary × S)
  exec_func s (explore resource_type query num_hops max_results vector) seeds turn =
      (s, search_resources s resource_type query query num_hops max_results turn vector)
  exec_func s (rdf hops max_results) [] turn = (s, [])
  exec_func s (rdf hops max_results) (seed ∷ seeds) turn = (
    s,
    walk_from halved compare_scores s
        (map (λ (t : TokenSummary × S). (t.0.token_id, t.1)) (seed ∷ seeds)) hops max_results,
  )
  exec_func s (token_to_detail token_id) seeds turn = elim (token_detail s token_id) [
    | none ↦ (s, [])
    | some d ↦ (record_hit s token_id, (detail_summary token_id (full_or_short d), one) ∷ [])
  ]

  -- The loop over the functions behind the first.
  unfoldable pub exec_rest :
      SquireState
      → List BatchFunc
      → List (TokenSummary × S)
      → ℕ
      → SquireState × List (TokenSummary × S)
  exec_rest s [] seeds turn = (s, seeds)
  exec_rest s (f ∷ fs) seeds turn =
      let (s', seeds') = exec_func s f seeds turn in exec_rest s' fs seeds' turn

  unfoldable pub exec_pipeline :
      SquireState → List BatchFunc → ℕ → SquireState × List (TokenSummary × S)
  exec_pipeline s [] turn = (s, [])
  exec_pipeline s (f ∷ fs) turn =
      let (s', seeds) = exec_func s f [] turn in exec_rest s' fs seeds turn

  -- The results of a group whose identifiers are not yet seen.
  unfoldable pub merge_new :
      List String → List (TokenSummary × S) → List String × List (TokenSummary × S)
  merge_new seen [] = (seen, [])
  merge_new seen (t ∷ ts) = elim (contains seen t.0.token_id) [
    | true ↦ merge_new seen ts
    | false ↦ let (seen', rest) = merge_new (seen ++ t.0.token_id ∷ []) ts in (seen', t ∷ rest)
  ]

  -- The loop over the groups.
  unfoldable pub exec_groups :
      SquireState → List String → List (List BatchFunc) → ℕ → SquireState × List (TokenSummary × S)
  exec_groups s seen [] turn = (s, [])
  exec_groups s seen (g ∷ gs) turn =
      let (s', results) = exec_pipeline s g turn in
      let (seen', new) = merge_new seen results in
      let (s'', rest) = exec_groups s' seen' gs turn in (s'', new ++ rest)

  -- `SquireBatchTool::execute`; `none` is the panic of the parser.
  unfoldable pub execute_batch :
      String → ToolArgs → (count cap : ℕ) → SquireState → Option (Called S)
  execute_batch call_id args count cap s =
      let (count', refused) = check_batch_cap count cap in
      let expr = unwrap_or "" args.expression in
      elim refused [
        | some refusal ↦ some (count', s, refusal)
        | none ↦
            if is_empty_text expr
            then some (count', s, failed call_id missing_expression)
            else elim (parse_batch_expr expr) [
              | none ↦ none
              | some (err e) ↦ some (count', s, failed call_id (parse_error e))
              | some (ok groups) ↦
                  let (s', all) = exec_groups s [] groups (current_turn s session_id) in
                  some (count', s', succeeded call_id (found (truncate 200 all)))
            ]
      ]
