-- ===== src/Response/Detect.antt =====
-- detect_and_parse and parse_formatter_json of src-tauri/src/agent/squire/types.rs, over
-- clean_deepseek_json of src-tauri/src/commands/utils.rs. The crates that they call are parameters:
-- `repair` is safe_json_repair::repair, and the two readers are serde_json::from_str, with its error.
pub mod Total
use Prim.Native.String.{[], ◌∷◌, len}
use text.Mathlib.Text.{get?}
use agent_squire.Base.{
  ℕ, zero, suc, ◌+◌, String, Bool, true, false, not, ◌==◌, Option, none, some, List, if◌then◌else◌,
  ltb, nat_eq, code, map,
}
use agent_squire.Slug.Chars.{trim}
use agent_squire.Store.Types.{NewTokenSpec, Relationship}
use agent_squire.Tool.{Result, ok, err}
use agent_squire.Protocol.{utf8_len}
use agent_squire.Response.{SquireResponse, default_response}
use agent_squire.Response.Lines.{begins, split_text, count_char}
use agent_squire.Response.Parse.{parse_bookmark_protocol}
use agent_squire.Response.Repair.{
  fix_unclosed_spans, fix_concatenated_rel_lines, strip_empty_predicates,
}
use agent_squire.Response.Headers.{normalize_section_headers}

unfoldable pub normalize_bookmark_protocol : ℕ → String → Option String
normalize_bookmark_protocol fuel raw =
    elim (fix_concatenated_rel_lines fuel (fix_unclosed_spans raw)) [
      | none ↦ none
      | some text ↦ some (strip_empty_predicates (normalize_section_headers text))
    ]

pub record FormatterJsonToken : Type 0 where
  pub id : String
  pub token_type : String
  pub short_desc : String
  pub full_desc : Option String

pub record FormatterJsonRelationship : Type 0 where
  pub subject : String
  pub predicate : String
  pub object : String

pub record FormatterOutput : Type 0 where
  pub new_tokens : List FormatterJsonToken
  pub relationships : List FormatterJsonRelationship
  pub preserve : List String

-- `find` and `rfind` of a character, from the byte `i`.
unfoldable pub find_char : ℕ → ℕ → String → Option ℕ
find_char at i [] = none
find_char at i (c ∷ s) =
    let rest = find_char at (i + utf8_len (code c)) s in if nat_eq (code c) at then some i else rest

unfoldable pub rfind_char : ℕ → ℕ → String → Option ℕ
rfind_char at i [] = none
rfind_char at i (c ∷ s) = elim (rfind_char at (i + utf8_len (code c)) s) [
  | some j ↦ some j
  | none ↦ if nat_eq (code c) at then some i else none
]

-- Case 3: the text from the first { to the last }. The outer `none` is the panic of the slice where the
-- last } stands before the first {.
unfoldable pub braced : String → Option (Option String)
braced text = elim (find_char b'{' 0 text) [
  | none ↦ some none
  | some start ↦ elim (rfind_char b'}' 0 text) [
    | none ↦ some none
    | some end ↦ elim (get? text start (suc end)) [
      | none ↦ none
      | some candidate ↦ some (if ltb 10 (len candidate) then some candidate else none)
    ]
  ]
]

-- The fence without a language, and case 3 behind it.
unfoldable pub fenced : String → Option (Option String)
fenced text = elim (split_text "```" text) [
  | none ↦ braced text
  | some (left, after_fence) ↦ elim (split_text "```" after_fence) [
    | none ↦ braced text
    | some (inside, right) ↦ some (some (trim inside))
  ]
]

unfoldable pub try_extract_json : String → Option (Option String)
try_extract_json s =
    let text = trim s in
    if begins text "{" then some (some text) else elim (split_text "```json" text) [
      | none ↦ fenced text
      | some (left, after_fence) ↦ elim (split_text "```" after_fence) [
        | none ↦ some (some (trim after_fence))
        | some (inside, right) ↦ some (some (trim inside))
      ]
    ]

-- "response is not valid Squire protocol JSON: {}", and the text of `parse_formatter_json`.
pub data ParseError (E : Type 0) : Type 0 where
  not_protocol_json : E → ParseError E
  formatter_failed : E → ParseError E

unfoldable pub of_formatter : FormatterOutput → SquireResponse
of_formatter output = record default_response {
  new_tokens =
      map
        (λ (ft : FormatterJsonToken). record {
          id = ft.id;
          token_type = ft.token_type;
          short_desc = ft.short_desc;
          full_desc = ft.full_desc;
          endpoint = none;
          ranges = List.[];
          tags = List.[];
          properties = List.[];
        })
        output.new_tokens;
  relationships =
      map
        (λ (fr : FormatterJsonRelationship). record {
          subject = fr.subject;
          predicate = fr.predicate;
          object = fr.object;
        })
        output.relationships;
  preserve = output.preserve;
}

module _ {E : Type 0} (repair : String → String) (read_response : String → Result E SquireResponse)
    (read_formatter : String → Result E FormatterOutput) where
  unfoldable pub clean_deepseek_json : String → String
  clean_deepseek_json raw = repair raw

  -- The outer `none` says that the fuel of the repair ran out.
  unfoldable pub detect_and_parse : ℕ → String → Option (Result (ParseError E) SquireResponse)
  detect_and_parse fuel text =
      if begins (trim text) "{"
      then some (elim (read_response (clean_deepseek_json (trim text))) [
        | ok resp ↦ ok resp
        | err e ↦ err (not_protocol_json e)
      ])
      else elim (normalize_bookmark_protocol fuel text) [
        | none ↦ none
        | some normalized ↦ some (ok (parse_bookmark_protocol normalized))
      ]

  -- The match on the outcome of serde_json.
  unfoldable pub formatter_result :
      ℕ → String → Result E FormatterOutput → Option (Result (ParseError E) SquireResponse)
  formatter_result fuel text (ok output) = some (ok (of_formatter output))
  formatter_result fuel text (err json_err) = elim (detect_and_parse fuel text) [
    | none ↦ none
    | some (ok resp) ↦ some (ok resp)
    | some (err e) ↦ some (err (formatter_failed json_err))
  ]

  -- The outer `none` is also the panic of `try_extract_json`.
  unfoldable pub parse_formatter_json : ℕ → String → Option (Result (ParseError E) SquireResponse)
  parse_formatter_json fuel text =
      if not (begins (trim text) "{")
      then detect_and_parse fuel text
      else elim (try_extract_json text) [
        | none ↦ none
        | some none ↦ detect_and_parse fuel text
        | some (some json_str) ↦
            formatter_result fuel text (read_formatter (clean_deepseek_json json_str))
      ]
