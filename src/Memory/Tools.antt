-- ===== src/Memory/Tools.antt =====
-- The tools explore, token_to_detail and rdf of src-tauri/src/agent/squire/tools.rs. Each takes the
-- counter of discovery calls and the store, and returns both with its result. Parameters are the scores
-- (`one` is 1.0, `halved` as in the walk, `compare_scores` is partial_cmp with Equal for None),
-- str::to_lowercase, and explore_memory, the search of the store behind its interface. The
-- traces that the code records on the side are left out.
use Prim.Native.Nat.{Ordering, compare}
use Prim.Native.String.{[], ◌∷◌}
use agent_squire.Base.{
  ℕ, zero, suc, ◌+◌, ◌%◌, ◌^◌, String, code, Bool, true, false, ◌&&◌, ◌||◌, ◌==◌, Option, none,
  some, List, if◌then◌else◌, leb, unwrap_or, map,
}
use agent_squire.Base.Dict.{Dict}
use agent_squire.Store.Types.{TokenSummary, TokenDetail, Relationship}
use agent_squire.Store.Ops.{
  SquireState, token_detail, record_hit, get_relationships, list_token_ids, get_type,
}
use agent_squire.Tool.{ToolResult, failed, succeeded}
use agent_squire.Protocol.{is_empty_text}
use agent_squire.Memory.Batch.{BatchError}
use agent_squire.Memory.Traverse.{TraversalNode, traverse_relationships}

pub data Output (S : Type 0) : Type 0 where
  cap_exceeded : (cap count : ℕ) → Output S
  missing_token_id : Output S
  unknown_token : String → Output S
  unknown_seed : String → Output S
  described : String → Output S
  found : List (TokenSummary × S) → Output S
  missing_expression : Output S
  parse_error : BatchError → Output S

-- The arguments of a call, as `as_str` and `as_u64` read them.
pub record ToolArgs : Type 0 where
  pub resource_type : Option String
  pub query : Option String
  pub vector : Option String
  pub token_id : Option String
  pub detail_level : Option String
  pub expression : Option String
  pub num_hops : Option ℕ
  pub hops : Option ℕ
  pub max_results : Option ℕ

-- The empty object.
abbrev pub no_tool_args : ToolArgs
no_tool_args = record {
  resource_type = none;
  query = none;
  vector = none;
  token_id = none;
  detail_level = none;
  expression = none;
  num_hops = none;
  hops = none;
  max_results = none;
}

pub record ToolDefinition : Type 0 where
  pub name : String
  pub description : String

-- `as u32`.
abbrev pub as_u32 : ℕ → ℕ
as_u32 n = n % 2 ^ 32

-- The counter behind the call, and the result that refuses it.
unfoldable pub check_batch_cap : {S : Type 0} → ℕ → ℕ → ℕ × Option (ToolResult (Output S))
check_batch_cap count cap =
    if leb cap count
    then (cap, some (failed "" (cap_exceeded cap count)))
    else (as_u32 (count + 1), none)

-- The counter, the store and the result.
abbrev pub Called : Type 0 → Type 0
Called S = ℕ × SquireState × ToolResult (Output S)

abbrev pub full_or_short : TokenDetail → String
full_or_short d = unwrap_or d.short_desc d.full_desc

unfoldable pub detail_call : {S : Type 0} → String → ToolArgs → ℕ → SquireState → Called S
detail_call call_id args count s =
    let token_id = unwrap_or "" args.token_id in
    if is_empty_text token_id
    then (count, s, failed call_id missing_token_id)
    else elim (token_detail s token_id) [
      | none ↦ (count, s, failed call_id (unknown_token token_id))
      | some d ↦ (
        count,
        record_hit s token_id,
        succeeded call_id (
            described (
              if unwrap_or "short" args.detail_level == "full"
              then full_or_short d
              else d.short_desc)),
      )
    ]

-- `SquireTokenToDetailTool::execute`.
unfoldable pub execute_detail :
    {S : Type 0} → String → ToolArgs → (count cap : ℕ) → SquireState → Called S
execute_detail call_id args count cap s =
    let (count', refused) = check_batch_cap count cap in
    elim refused [ some refusal ↦ (count', s, refusal) | none ↦ detail_call call_id args count' s ]

-- The node map over the listed tokens.
unfoldable pub nodes_of : SquireState → List String → Dict TraversalNode
nodes_of s List.[] = List.[]
nodes_of s (List.◌∷◌ id ids) =
    let rest = nodes_of s ids in
    elim (token_detail s id) [
      | none ↦ rest
      | some d ↦
          List.◌∷◌
            (
              id,
              record {
                token_id = id;
                token_type = unwrap_or "unknown" (get_type s id);
                short_desc = d.short_desc;
                tags = d.tags;
                properties = d.properties;
              },
            )
            rest
    ]

abbrev pub edges_of : SquireState → List (String × String)
edges_of s = map (λ (r : Relationship). (r.subject, r.object)) (get_relationships s none none none)

-- `Vec::truncate`.
unfoldable pub truncate : {A : Type 0} → ℕ → List A → List A
truncate zero xs = List.[]
truncate (suc n) List.[] = List.[]
truncate (suc n) (List.◌∷◌ x xs) = List.◌∷◌ x (truncate n xs)

abbrev pub at_least_one : ℕ → ℕ
at_least_one n = if leb 1 n then n else 1

-- The first character test of `looks_like_token_id`: some ASCII digit.
unfoldable pub any_digit : String → Bool
any_digit [] = false
any_digit (c ∷ s) = leb b'0' (code c) && leb (code c) b'9' || any_digit s

module _ {S : Type 0} (halved : S → ℕ → S) (compare_scores : S → S → Ordering) where
  -- The order of the results: by hops, then by falling score.
  unfoldable pub after : TokenSummary × S → TokenSummary × S → Bool
  after a b = elim (compare a.0.hop_distance b.0.hop_distance) [
    | Ordering.lt ↦ false
    | Ordering.gt ↦ true
    | Ordering.eq ↦ elim (compare_scores b.1 a.1) [
      | Ordering.lt ↦ false
      | Ordering.eq ↦ false
      | Ordering.gt ↦ true
    ]
  ]

  unfoldable pub insert_by : TokenSummary × S → List (TokenSummary × S) → List (TokenSummary × S)
  insert_by a List.[] = List.◌∷◌ a List.[]
  insert_by a (List.◌∷◌ b bs) =
      let rest = insert_by a bs in if after a b then List.◌∷◌ b rest else List.◌∷◌ a (List.◌∷◌ b bs)

  -- `sort_by`, which keeps the order of equals.
  unfoldable pub sort_results : List (TokenSummary × S) → List (TokenSummary × S)
  sort_results List.[] = List.[]
  sort_results (List.◌∷◌ a more) = insert_by a (sort_results more)

  -- The walk from seeds over the store.
  unfoldable pub walk_from :
      SquireState → List (String × S) → (hops max_results : ℕ) → List (TokenSummary × S)
  walk_from s direct hops max_results = truncate (at_least_one max_results) (
      sort_results (
        traverse_relationships halved (nodes_of s (list_token_ids s)) (λ t. true) direct
          (edges_of s) hops))

  module _ (one : S) where
    unfoldable pub rdf_call : String → ToolArgs → ℕ → SquireState → Called S
    rdf_call call_id args count s =
        let token_id = unwrap_or "" args.token_id in
        let hops = as_u32 (unwrap_or 1 args.hops) in
        let max_results = as_u32 (unwrap_or 20 args.max_results) in
        if is_empty_text token_id
        then (count, s, failed call_id missing_token_id)
        else elim (token_detail s token_id) [
          | none ↦ (count, s, failed call_id (unknown_seed token_id))
          | some d ↦
              let s' = record_hit s token_id in
              let direct = List.◌∷◌ (token_id, one) List.[] in
              (count, s', succeeded call_id (found (walk_from s' direct hops max_results)))
        ]

    -- `SquireRdfTool::execute`.
    unfoldable pub execute_rdf : String → ToolArgs → (count cap : ℕ) → SquireState → Called S
    execute_rdf call_id args count cap s =
        let (count', refused) = check_batch_cap count cap in
        elim refused [ some refusal ↦ (count', s, refusal) | none ↦ rdf_call call_id args count' s ]
