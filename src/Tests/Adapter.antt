-- ===== src/Tests/Adapter.antt =====
-- The adapter on a small store and a row of rejections.
use agent_squire.Base.{none, ℕ, ◌+◌, ◌*◌, String, ◌≡◌, refl, some, List, [], ◌∷◌, length, All}
use native.Mathlib.Omega.{arith}
use agent_squire.Store.Ops.{token_detail, record_compliance_failure}
use agent_squire.Base.Dict.{lookup}
use agent_squire.Protocol.{
  strip_span_markers, split_sign, split_marker, strip_parts, take_token_id, skip, size,
  is_valid_token_id_char,
}
use agent_squire.Adapter.{
  SquireContextAdapter, ChatMessage, TurnOutcome, retry, failed, new_with_prefetch, reject,
  expand_for_display, expand_parts, displayed,
}
use agent_squire.Adapter.Record.{reject_and_record, record_failure, classify_rejection_rule}
use agent_squire.Adapter.Retries.{reject_all, reject_budget}
use agent_squire.Tests.Sample.{sample}

expand_run : expand_for_display sample "see §!TODO_plan, §!TODO_none" ≡ some "see plan, TODO_none"
unfolding expand_for_display expand_parts displayed token_detail lookup strip_span_markers
    split_sign split_marker strip_parts take_token_id skip size is_valid_token_id_char
expand_run = refl

abbrev adapter : SquireContextAdapter ℕ
unfolding new_with_prefetch
adapter = new_with_prefetch 0

abbrev rows : List (String × String)
rows = ("a", "no close") ∷ ("b", "no close") ∷ []

abbrev no_messages : List (ChatMessage ℕ)
no_messages = []

reject_budget_example :
    All (λ (o : TurnOutcome). o ≡ retry) (reject_all (λ r. r) adapter no_messages rows).2
    × (length (reject_all (λ r. r) adapter no_messages rows).1
        ≡ length no_messages + 2 * adapter.max_retries)
    × ((reject
          (λ r. r)
          (reject_all (λ r. r) adapter no_messages rows).0
          (reject_all (λ r. r) adapter no_messages rows).1
          "c"
          "unclosed").2
        ≡ failed "unclosed" "c")
    × ((reject
          (λ r. r)
          (reject_all (λ r. r) adapter no_messages rows).0
          (reject_all (λ r. r) adapter no_messages rows).1
          "c"
          "unclosed").1
        ≡ (reject_all (λ r. r) adapter no_messages rows).1)
unfolding new_with_prefetch
reject_budget_example =
    reject_budget (λ r. r) adapter no_messages rows "c" "unclosed" refl refl (omega arith)

-- With a count of 2 the next rejection closes the turn; the conversation is a list of contents.
record_run :
    (reject_and_record
      (λ m c. (m.content ∷ c, none))
      (λ r. r)
      (record adapter { retry_count = 2 })
      sample
      []
      "s"
      7
      no_messages
      "c"
      "unclosed span").1.compliance_failures
    ≡ record {
      session_id = "s";
      rule = "unclosed_span";
      reason = "unclosed span";
      retry_count = 3;
      failed_content = "c";
      timestamp = 7;
    }
      ∷ []
unfolding new_with_prefetch reject_and_record record_failure record_compliance_failure reject
    classify_rejection_rule
record_run = refl
