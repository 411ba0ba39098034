-- ===== src/Ingest.antt =====
-- The splitting of texts into chunks and their ingestion as tokens, of
-- src-tauri/src/agent/squire/ingestion.rs.
mod Chunks
pub mod Stored
use Prim.Native.String.{[], ◌∷◌, len}
use agent_squire.Base.{
  ℕ, zero, suc, ◌+◌, String, Char, code, Bool, true, false, ◌&&◌, ◌||◌, none, some, List,
  if◌then◌else◌, nat_eq, leb, ltb, append, ◌++◌,
}
use agent_squire.Base.Dict.{Dict, lookup}
use agent_squire.Slug.Chars.{trim, is_whitespace}
use agent_squire.Slug.Decimal.{decimal}
use agent_squire.Store.Types.{ToolEndpoint, NewTokenSpec}
use agent_squire.Store.Ops.{SquireState, upsert_token, insert_relationship}
use agent_squire.Protocol.{Parts, put, is_empty_text}
use agent_squire.Protocol.Resolve.{nil_session}
use agent_squire.Memory.Tools.{ToolDefinition}

-- `CHUNK_SOFT_LIMIT_CHARS`.
abbrev pub chunk_soft_limit_chars : ℕ
chunk_soft_limit_chars = 400

-- `split("\n\n")`.
unfoldable pub split_blank : String → Parts
split_blank [] = ([], List.[])
split_blank (c ∷ []) = (c ∷ [], List.[])
split_blank (c ∷ d ∷ s) = elim (nat_eq (code c) 0xa && nat_eq (code d) 0xa) [
  | true ↦ let (first, others) = split_blank s in ([], List.◌∷◌ first others)
  | false ↦ put c (split_blank (d ∷ s))
]

abbrev pub is_ending : Char → Bool
is_ending c = nat_eq (code c) b'.' || (nat_eq (code c) b'!' || nat_eq (code c) b'?')

-- The next character is a white space, or there is none.
abbrev pub is_boundary : String → Bool
is_boundary [] = true
is_boundary (c ∷ s) = is_whitespace (code c)

abbrev pub push_text : String → List String → List String
push_text s ss = if is_empty_text s then ss else List.◌∷◌ s ss

-- The loop of `split_into_sentences`.
unfoldable pub sentences_from : String → String → List String
sentences_from current [] = push_text (trim current) List.[]
sentences_from current (c ∷ s) = elim (is_ending c && is_boundary s) [
  | true ↦ push_text (trim (append current (c ∷ []))) (sentences_from [] s)
  | false ↦ sentences_from (append current (c ∷ [])) s
]

unfoldable pub split_into_sentences : String → List String
split_into_sentences paragraph = elim (sentences_from [] paragraph) [
  | List.[] ↦ List.◌∷◌ paragraph List.[]
  | List.◌∷◌ s ss ↦ List.◌∷◌ s ss
]

-- The loop over the paragraphs.
unfoldable pub chunks_of : List String → List String
chunks_of List.[] = List.[]
chunks_of (List.◌∷◌ para paras) =
    let rest = chunks_of paras in
    if leb (len para) chunk_soft_limit_chars
    then List.◌∷◌ para rest
    else split_into_sentences para ++ rest

-- The paragraphs, trimmed, without the empty ones.
unfoldable pub paragraphs_of : List String → List String
paragraphs_of List.[] = List.[]
paragraphs_of (List.◌∷◌ p ps) = push_text (trim p) (paragraphs_of ps)

unfoldable pub chunk_user_input : String → List String
chunk_user_input text =
    let (first, others) = split_blank text in chunks_of (paragraphs_of (List.◌∷◌ first others))

-- The text up to the end of the first sentence or line, with that end.
unfoldable pub sentence_prefix : String → String
sentence_prefix [] = []
sentence_prefix (c ∷ s) =
    let rest = sentence_prefix s in
    if nat_eq (code c) 0xa || is_ending c && is_boundary s then c ∷ [] else c ∷ rest

unfoldable pub first_sentence : String → String
first_sentence chunk = trim (sentence_prefix chunk)

-- `{:03}`.
unfoldable pub padded : ℕ → String
padded n =
    if ltb n 10
    then append "00" (decimal n)
    else if ltb n 100
    then append "0" (decimal n)
    else decimal n

unfoldable pub take_chars : ℕ → String → String
take_chars zero s = []
take_chars (suc n) [] = []
take_chars (suc n) (c ∷ s) = c ∷ take_chars n s

-- `{prefix}_T{turn}_{NNN}_{session_short}`; the first eight digits of a UUID stand before its hyphens.
unfoldable pub chunk_id : String → ℕ → ℕ → String → String
chunk_id prefix turn number session_id = append prefix (
    append "_T" (
      append (decimal turn)
        (append "_" (append (padded number) (append "_" (take_chars 8 session_id))))))

-- The text of a chunk behind its bookmark.
unfoldable pub bookmarked : ℕ → String → String
bookmarked i chunk = append "§^chunk_" (append (decimal i) (append "§^" chunk))

abbrev pub chunk_token : String → ℕ → String → NewTokenSpec
chunk_token id i chunk = record {
  id = id;
  token_type = "source";
  short_desc = first_sentence chunk;
  full_desc = some (bookmarked i chunk);
  endpoint = none;
  ranges = List.[];
  tags = List.[];
  properties = List.[];
}

-- The loop of `ingest_text_chunks` from the chunk `i`.
unfoldable pub ingest_from :
    SquireState → String → ℕ → String → ℕ → List String → SquireState × List String
ingest_from s prefix turn session_id i List.[] = (s, List.[])
ingest_from s prefix turn session_id i (List.◌∷◌ chunk chunks) =
    let id = chunk_id prefix turn (i + 1) session_id in
    let s' = upsert_token s (chunk_token id i chunk) turn session_id in
    let (s'', ids) = ingest_from s' prefix turn session_id (suc i) chunks in (s'', List.◌∷◌ id ids)

unfoldable pub ingest_text_chunks :
    String → ℕ → String → SquireState → String → SquireState × List String
ingest_text_chunks text turn prefix s session_id =
    ingest_from s prefix turn session_id 0 (chunk_user_input text)

-- `predicates::IS_A_TOOL`.
abbrev pub is_a_tool : String
is_a_tool = "IS_A_TOOL"

abbrev pub tool_token_id : String → String
tool_token_id registry_name = registry_name

-- `tool_full_desc` is the JSON text of a definition, which serde_json writes.
unfoldable pub ingest_tool_registry :
    (tool_full_desc : ToolDefinition → String)
    → List ToolDefinition
    → SquireState
    → Dict ToolEndpoint
    → SquireState
ingest_tool_registry tool_full_desc List.[] s endpoints = s
ingest_tool_registry tool_full_desc (List.◌∷◌ def defs) s endpoints =
    let id = tool_token_id def.name in
    let token : NewTokenSpec = record {
      id = id;
      token_type = "source";
      short_desc = def.description;
      full_desc = some (tool_full_desc def);
      endpoint = lookup def.name endpoints;
      ranges = List.[];
      tags = List.[];
      properties = List.[];
    } in
    ingest_tool_registry tool_full_desc defs
      (insert_relationship (upsert_token s token 0 nil_session)
        (record { subject = id; predicate = is_a_tool; object = id }))
      endpoints

unfoldable pub ingest_user_input_chunks :
    String → ℕ → SquireState → String → SquireState × List String
ingest_user_input_chunks text turn s session_id = ingest_text_chunks text turn "USR" s session_id

unfoldable pub ingest_response_chunks : String → ℕ → SquireState → String → SquireState
ingest_response_chunks text turn s session_id =
    let (s', ids) = ingest_text_chunks text turn "RESP" s session_id in s'
