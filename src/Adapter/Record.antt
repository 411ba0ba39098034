-- ===== src/Adapter/Record.antt =====
-- The end of a turn whose responses were all rejected: reject_and_record and classify_rejection_rule of
-- src-tauri/src/agent/squire/adapter.rs. The message is that of src-tauri/src/storage/conversation_store.rs.
use text.Mathlib.Text.{find?, starts_with}
use agent_squire.Base.{
  ℕ, ◌+◌, ◌%◌, ◌^◌, String, Bool, Option, none, some, List, is_some, append, if◌then◌else◌,
}
use agent_squire.Tool.{Result, ok, err}
use agent_squire.Store.Ops.{SquireState, record_compliance_failure}
use agent_squire.Adapter.{
  SquireContextAdapter, ChatMessage, TurnOutcome, done, retry, failed, ask_user, begin_phase2,
  phase2_done, reject,
}

abbrev pub contains_text : String → String → Bool
contains_text s t = is_some (find? s t)

unfoldable pub classify_rejection_rule : String → String
classify_rejection_rule reason =
    if contains_text reason "not valid Squire protocol JSON"
    then "malformed_json"
    else if contains_text reason "ask_user and content cannot coexist"
    then "ask_user_content_conflict"
    else if contains_text reason "empty close response"
    then "empty_close_response"
    else if starts_with reason "undisplayable token"
    then "undisplayable_token"
    else if starts_with reason "undisplayable span reference"
    then "undisplayable_span_reference"
    else if starts_with reason "malformed sigil"
    then "malformed_sigil"
    else if starts_with reason "unclosed"
    then "unclosed_span"
    else if contains_text reason "preserved token does not exist"
    then "preserve_token_unknown"
    else if contains_text reason "relationship references unknown token"
    then "relationship_unknown_token"
    else if contains_text reason "non-invocable token"
    then "non_invocable_token"
    else if contains_text reason "unrecognized section"
    then "unrecognized_section"
    else "other"

pub data MessageRole : Type 0 where
  user_message : MessageRole
  assistant_message : MessageRole
  system_message : MessageRole

pub record NewMessage : Type 0 where
  pub session_id : String
  pub role : MessageRole
  pub content : String
  pub thinking_content : Option String

unfoldable pub visible : String → String → String
visible reason failed_content =
    append "**Squire compliance failure — turn closed without a stored response**\n\nReason: " (
      append reason (
        append
          "\n\nThe model's final (rejected) response is shown below for reference. Consider adjusting your next message to avoid the same issue.\n\n---\n"
          failed_content))

-- `append_message` is that of the interface ConversationStore, with the text of its error.
module _ {C : Type 0} (append_message : NewMessage → C → C × Option String) where
  -- The effects of a final failure, with the count before it.
  unfoldable pub record_failure :
      SquireState
      → C
      → (session_id : String) (now count : ℕ) (reason failed_content : String)
      → SquireState × C × Option String
  record_failure s conv session_id now count reason failed_content =
      let s' = record_compliance_failure s (record {
        session_id = session_id;
        rule = classify_rejection_rule reason;
        reason = reason;
        retry_count = (count + 1) % 2 ^ 32;
        failed_content = failed_content;
        timestamp = now;
      }) in
      let (conv', error) =
        append_message
          (record {
            session_id = session_id;
            role = assistant_message;
            content = visible reason failed_content;
            thinking_content = none;
          })
          conv in
      (s', conv', error)

  unfoldable pub reject_and_record :
      {P V : Type 0}
      → (rejected_json : String → String) → SquireContextAdapter P
      → SquireState
      → C
      → (session_id : String) (now : ℕ) → List (ChatMessage V)
      → (failed_content reason : String)
      → SquireContextAdapter P × SquireState × C × List (ChatMessage V) × Result String TurnOutcome
  reject_and_record rejected_json a s conv session_id now messages failed_content reason =
      let (a', messages', outcome) = reject rejected_json a messages failed_content reason in
      let closed = record_failure s conv session_id now a.retry_count reason failed_content in
      elim outcome [
        | failed r c ↦ (
          record a' { retry_count = 0 },
          closed.0,
          closed.1,
          messages',
          elim closed.2 [ none ↦ ok (failed r c) | some e ↦ err e ],
        )
        | done ↦ (a', s, conv, messages', ok done)
        | retry ↦ (a', s, conv, messages', ok retry)
        | ask_user q ↦ (a', s, conv, messages', ok (ask_user q))
        | begin_phase2 p u ↦ (a', s, conv, messages', ok (begin_phase2 p u))
        | phase2_done t r ts rs ↦ (a', s, conv, messages', ok (phase2_done t r ts rs))
      ]
