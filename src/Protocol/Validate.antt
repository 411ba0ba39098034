-- ===== src/Protocol/Validate.antt =====
-- validate_squire_response of src-tauri/src/agent/squire/protocol.rs.
use agent_squire.Base.{
  String, Bool, true, false, not, ◌&&◌, ◌||◌, ◌==◌, none, some, List, [], ◌∷◌, find, if◌then◌else◌,
}
use agent_squire.Store.Types.{NewTokenSpec, Relationship}
use agent_squire.Tool.{Result, ok, err}
use agent_squire.Response.{SquireResponse}
use agent_squire.Protocol.{
  is_empty_text, SigilError, extract_inline_refs, extract_spans, check_malformed_sigils,
}
use agent_squire.Protocol.Bookmarks.{extract_span_refs}

-- The reason of a failure, a constructor for each text that the code formats.
pub data ComplianceFailure : Type 0 where
  ask_and_content : ComplianceFailure
  empty_close : ComplianceFailure
  sigil : SigilError → ComplianceFailure
  undisplayable : String → ComplianceFailure
  unclosed_span : String → ComplianceFailure
  undisplayable_span : String → ComplianceFailure
  not_preserved : String → ComplianceFailure
  unknown_end : String → ComplianceFailure

abbrev pub Verdict : Type 0
Verdict = Result ComplianceFailure (Unit {0})

abbrev pub is_empty : {A : Type 0} → List A → Bool
is_empty [] = true
is_empty (x ∷ xs) = false

-- `new_tokens.iter().any(|t| t.id == token_id)`.
unfoldable pub defined_inline : List NewTokenSpec → String → Bool
defined_inline [] id = false
defined_inline (t ∷ ts) id = t.id == id || defined_inline ts id

-- The ends of the relationships, in the order in which the two loops visit them.
unfoldable pub ends : List Relationship → List String
ends [] = []
ends (r ∷ rs) = r.subject ∷ r.object ∷ ends rs

-- A loop that returns an error for the first identifier that is not known, and goes on otherwise.
abbrev pub all_known :
    (known : String → Bool) → (String → ComplianceFailure) → List String → Verdict → Verdict
all_known known fail ids next = elim (find (λ id. not (known id)) ids) [
  | none ↦ next
  | some id ↦ err (fail id)
]

-- Nothing to store.
abbrev pub stores_nothing : SquireResponse → Bool
stores_nothing resp =
    is_empty_text resp.content
    && (is_empty resp.new_tokens && (is_empty resp.relationships && is_empty resp.preserve))

module _ (token_known : String → Bool) (resp : SquireResponse) where
  abbrev pub known_here : String → Bool
  known_here id = defined_inline resp.new_tokens id || token_known id

  -- The checks 8 and 9.
  unfoldable pub check_store : Verdict
  check_store =
      all_known known_here not_preserved resp.preserve
        (all_known known_here unknown_end (ends resp.relationships) (ok tt))

  -- The checks 6 and 7.
  unfoldable pub check_spans : Verdict
  check_spans = elim (extract_spans resp.content).1 [
    | some id ↦ err (unclosed_span id)
    | none ↦ all_known known_here undisplayable_span (extract_span_refs resp.content) check_store
  ]

  -- The checks 4 and 5.
  unfoldable pub check_content : Verdict
  check_content = elim (check_malformed_sigils resp.content) [
    | err e ↦ err (sigil e)
    | ok u ↦ all_known known_here undisplayable (extract_inline_refs resp.content) check_spans
  ]

  unfoldable pub validate_squire_response : Verdict
  validate_squire_response =
      if not (is_empty_text resp.ask_user) && not (is_empty_text resp.content)
      then err ask_and_content
      else if not (is_empty_text resp.ask_user)
      then ok tt
      else if stores_nothing resp
      then err empty_close
      else check_content
