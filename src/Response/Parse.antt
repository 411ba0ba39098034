-- ===== src/Response/Parse.antt =====
-- parse_bookmark_protocol of src-tauri/src/agent/squire/types.rs.
use agent_squire.Base.{
  String, Bool, ◌||◌, ◌==◌, Option, none, some, List, if◌then◌else◌, append, ◌++◌,
}
use agent_squire.Slug.Chars.{trim}
use agent_squire.Store.Types.{NewTokenSpec, Relationship}
use agent_squire.Protocol.{is_empty_text}
use agent_squire.Response.{SquireResponse, default_response}
use agent_squire.Response.Lines.{lines, join_lines, split_on, begins}

-- `SECTION_KEYS`.
pub data Section : Type 0 where
  new_tokens : Section
  relationships : Section
  preserve : Section
  ask_user : Section

abbrev pub key : Section → String
key new_tokens = "new_tokens"
key relationships = "relationships"
key preserve = "preserve"
key ask_user = "ask_user"

abbrev pub section_keys : List Section
section_keys =
    List.◌∷◌ new_tokens (List.◌∷◌ relationships (List.◌∷◌ preserve (List.◌∷◌ ask_user List.[])))

abbrev pub is_pattern : String → String → Bool
is_pattern line p = line == p || begins line p

-- The patterns of a key.
unfoldable pub is_header : String → Section → Bool
is_header line s =
    is_pattern line (append "§#" (key s))
    || (is_pattern line (append "§#" (append (key s) ":"))
        || (is_pattern line (append "#" (key s))
            || is_pattern line (append "#" (append (key s) ":"))))

unfoldable pub header_of : List Section → String → Option Section
header_of List.[] line = none
header_of (List.◌∷◌ s ss) line =
    let rest = header_of ss line in if is_header line s then some s else rest

pub record Parsing : Type 0 where
  pub section : Option Section
  pub resp : SquireResponse
  pub content_lines : List String

-- The token of a line `id | type | short | full`.
unfoldable pub token_of : List String → Option NewTokenSpec
token_of List.[] = none
token_of (List.◌∷◌ a List.[]) = none
token_of (List.◌∷◌ a (List.◌∷◌ b List.[])) = none
token_of (List.◌∷◌ a (List.◌∷◌ b (List.◌∷◌ c more))) = some (record {
  id = trim a;
  token_type = trim b;
  short_desc = trim c;
  full_desc = elim more [ List.[] ↦ none | List.◌∷◌ d rest ↦ some (trim d) ];
  endpoint = none;
  ranges = List.[];
  tags = List.[];
  properties = List.[];
})

-- The relationship of a line `subject | predicate | object`.
unfoldable pub relationship_of : List String → Option Relationship
relationship_of List.[] = none
relationship_of (List.◌∷◌ a List.[]) = none
relationship_of (List.◌∷◌ a (List.◌∷◌ b List.[])) = none
relationship_of (List.◌∷◌ a (List.◌∷◌ b (List.◌∷◌ c more))) =
    some (record { subject = trim a; predicate = trim b; object = trim c })

abbrev pub fields : String → List String
fields line = let (first, others) = split_on b'|' line in List.◌∷◌ first others

abbrev pub push_some : {A : Type 0} → List A → Option A → List A
push_some xs none = xs
push_some xs (some x) = xs ++ (List.◌∷◌ x List.[])

-- The match on the section, with the line trimmed.
unfoldable pub put_line : Section → String → SquireResponse → SquireResponse
put_line new_tokens t r =
    if is_empty_text t
    then r
    else record r { new_tokens = push_some r.new_tokens (token_of (fields t)) }
put_line relationships t r =
    if is_empty_text t
    then r
    else record r { relationships = push_some r.relationships (relationship_of (fields t)) }
put_line preserve t r =
    if is_empty_text t then r else record r { preserve = r.preserve ++ (List.◌∷◌ t List.[]) }
put_line ask_user t r =
    if is_empty_text t then r else record r { ask_user = append r.ask_user (append t "\n") }

-- One round of the loop over the lines.
unfoldable pub parse_line : Parsing → String → Parsing
parse_line p line = elim (header_of section_keys (trim line)) [
  | some s ↦ record p { section = some s }
  | none ↦ elim p.section [
    | none ↦ record p { content_lines = p.content_lines ++ (List.◌∷◌ line List.[]) }
    | some s ↦ record p { resp = put_line s (trim line) p.resp }
  ]
]

unfoldable pub parse_lines : Parsing → List String → Parsing
parse_lines p List.[] = p
parse_lines p (List.◌∷◌ line more) = parse_lines (parse_line p line) more

unfoldable pub parse_bookmark_protocol : String → SquireResponse
parse_bookmark_protocol text =
    let p =
      parse_lines (record { section = none; resp = default_response; content_lines = List.[] })
        (lines text) in
    record (p.resp) { content = trim (join_lines p.content_lines); ask_user = trim p.resp.ask_user }
