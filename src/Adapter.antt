-- ===== src/Adapter.antt =====
-- The adapter between the protocol and the providers: its phases, the rejection of a response and the
-- expansion of a text for display, of src-tauri/src/agent/squire/adapter.rs. The messages are those of
-- src-tauri/crates/provider-core/src/lib.rs, the outcomes those of src-tauri/src/agent/context_adapter.rs.
pub mod Record
pub mod Retries
use Prim.Native.String.{[], ◌∷◌}
use agent_squire.Base.{
  ℕ, ◌+◌, ◌%◌, ◌^◌, String, code, Bool, true, false, Option, none, some, List, ◌++◌, append, nat_eq,
  ltb, if◌then◌else◌,
}
use agent_squire.Store.Types.{TokenDetail}
use agent_squire.Store.Ops.{SquireState, token_detail, is_empty}
use agent_squire.Protocol.{strip_span_markers, split_sign, take_token_id, after_id}
use agent_squire.Protocol.Ranges.{resolve_ranges}

pub data SquirePhase : Type 0 where
  phase1 : SquirePhase
  phase2 : SquirePhase

-- `SquireContextAdapter`; the store is passed beside it, and `P` is the configuration of the prefetch.
pub record SquireContextAdapter (P : Type 0) : Type 0 where
  pub prefetch : P
  pub max_retries : ℕ
  pub retry_count : ℕ
  pub phase : SquirePhase
  pub user_request_text : String

pub data ChatRole : Type 0 where
  system : ChatRole
  user : ChatRole
  assistant : ChatRole
  tool : ChatRole

-- `ToolCall`, of which `V` is the JSON value of the arguments.
pub record ToolCall (V : Type 0) : Type 0 where
  pub id : String
  pub name : String
  pub arguments : V

pub record ChatMessage (V : Type 0) : Type 0 where
  pub role : ChatRole
  pub content : String
  pub tool_call_id : Option String
  pub tool_calls : Option (List (ToolCall V))
  pub reasoning_content : Option String

pub data TurnOutcome : Type 0 where
  done : TurnOutcome
  retry : TurnOutcome
  failed : (reason failed_content : String) → TurnOutcome
  ask_user : (question : String) → TurnOutcome
  begin_phase2 : (phase1_content user_request : String) → TurnOutcome
  phase2_done :
      (tokens_accepted relationships_accepted : ℕ)
      → (tokens_rejected relationships_rejected : List String) → TurnOutcome

-- The text that stands for a token.
unfoldable pub displayed : SquireState → String → Option String
displayed s token_id = elim (token_detail s token_id) [
  | none ↦ some token_id
  | some d ↦ if is_empty d.ranges then some d.short_desc else resolve_ranges d.ranges s
]

-- The loop over the parts behind the first one; a range that cuts a character panics.
unfoldable pub expand_parts : SquireState → List String → Option String
expand_parts s List.[] = some []
expand_parts s (List.◌∷◌ [] parts) = elim (expand_parts s parts) [
  | none ↦ none
  | some out ↦ some (append "§" out)
]
expand_parts s (List.◌∷◌ (c ∷ rest) parts) = elim (expand_parts s parts) [
  | none ↦ none
  | some out ↦ elim (nat_eq (code c) b'!') [
    | true ↦ elim (displayed s (take_token_id rest)) [
      | none ↦ none
      | some resolved ↦ some (append resolved (append (after_id rest) out))
    ]
    | false ↦ some (append "§" (append (c ∷ rest) out))
  ]
]

unfoldable pub expand_for_display : SquireState → String → Option String
expand_for_display s content =
    let (first, others) = split_sign (strip_span_markers content) in
    elim (expand_parts s others) [ none ↦ none | some out ↦ some (append first out) ]

unfoldable pub new_with_prefetch : {P : Type 0} → P → SquireContextAdapter P
new_with_prefetch prefetch = record {
  prefetch = prefetch;
  max_retries = 2;
  retry_count = 0;
  phase = phase1;
  user_request_text = "";
}

unfoldable pub set_phase2 : {P : Type 0} → SquireContextAdapter P → String → SquireContextAdapter P
set_phase2 a user_request_text = record a {
  phase = phase2;
  user_request_text = user_request_text;
  retry_count = 0;
}

abbrev pub message : {V : Type 0} → ChatRole → String → ChatMessage V
message role content = record {
  role = role;
  content = content;
  tool_call_id = none;
  tool_calls = none;
  reasoning_content = none;
}

-- `rejected_json` writes the JSON text with the reason, as serde_json does.
unfoldable pub reject :
    {P V : Type 0}
    → (rejected_json : String → String) → SquireContextAdapter P
    → List (ChatMessage V)
    → (failed_content reason : String) → SquireContextAdapter P × List (ChatMessage V) × TurnOutcome
reject rejected_json a messages failed_content reason =
    let count = (a.retry_count + 1) % 2 ^ 32 in
    let a' = record a { retry_count = count } in
    if ltb a.max_retries count then (a', messages, failed reason failed_content) else (
      a',
      messages
          ++ List.◌∷◌ (message assistant failed_content)
              (List.◌∷◌ (message user (rejected_json reason)) List.[]),
      retry,
    )
