-- ===== src/Protocol.antt =====
-- The sigils and span markers of src-tauri/src/agent/squire/protocol.rs: §!id refers to a token inline,
-- §^id text §^ is a span. A text is walked by its characters; `code c` is the code point of one.
pub mod Sigils
pub mod Spans
pub mod Bookmarks
pub mod Validate
pub mod Verdict
pub mod References
pub mod Ranges
pub mod Resolve
use Prim.Native.String.{[], ◌∷◌}
use agent_squire.Base.{
  ℕ, zero, suc, ◌+◌, String, Char, code, Bool, true, false, not, ◌||◌, Option, none, some, List,
  if◌then◌else◌, nat_eq, leb, append, length, retain, map,
}
use agent_squire.Slug.Chars.{is_ascii_alphanumeric, trim}
use agent_squire.Tool.{Result, ok, err}

abbrev pub is_sign : Char → Bool
is_sign c = nat_eq (code c) 0xa7

-- `str::is_empty`.
abbrev pub is_empty_text : String → Bool
is_empty_text [] = true
is_empty_text (c ∷ s) = false

unfoldable pub is_valid_token_id_char : Char → Bool
is_valid_token_id_char c =
    is_ascii_alphanumeric (code c) || (nat_eq (code c) b'_' || nat_eq (code c) b'-')

unfoldable pub take_token_id : String → String
take_token_id [] = []
take_token_id (c ∷ s) =
    let rest = take_token_id s in if is_valid_token_id_char c then c ∷ rest else []

-- `&opening[token_id.len()..]`: the characters of a token id are ASCII, of one byte each.
unfoldable pub skip : ℕ → String → String
skip zero s = s
skip (suc n) [] = []
skip (suc n) (c ∷ s) = skip n s

unfoldable pub size : String → ℕ
size [] = 0
size (c ∷ s) = suc (size s)

abbrev pub after_id : String → String
after_id s = skip (size (take_token_id s)) s

-- The parts of a text between separators: the first, and the others.
abbrev pub Parts : Type 0
Parts = String × List String

abbrev pub put : Char → Parts → Parts
put c (first, others) = (c ∷ first, others)

-- `split("§^")`. With `held` a § was read, and what follows decides whether it begins a marker.
unfoldable pub split_marker : Bool → String → Parts
split_marker held [] = (if held then "§" else [], List.[])
split_marker false (c ∷ s) = elim (is_sign c) [
  | true ↦ split_marker true s
  | false ↦ put c (split_marker false s)
]
split_marker true (c ∷ s) = elim (nat_eq (code c) b'^') [
  | true ↦ let (first, others) = split_marker false s in ([], List.◌∷◌ first others)
  | false ↦ elim (is_sign c) [
    | true ↦ put "§" (split_marker true s)
    | false ↦ put "§" (put c (split_marker false s))
  ]
]

-- `split('§')`.
unfoldable pub split_sign : String → Parts
split_sign [] = ([], List.[])
split_sign (c ∷ s) =
    let (first, others) = split_sign s in
    if is_sign c then ([], List.◌∷◌ first others) else (c ∷ first, others)

-- `strip_prefix('!')`, the id, and the filter, for each part.
unfoldable pub inline_refs : List String → List String
inline_refs List.[] = List.[]
inline_refs (List.◌∷◌ [] parts) = inline_refs parts
inline_refs (List.◌∷◌ (c ∷ s) parts) =
    let rest = inline_refs parts in
    if nat_eq (code c) b'!'
    then (if is_empty_text (take_token_id s) then rest else List.◌∷◌ (take_token_id s) rest)
    else rest

unfoldable pub extract_inline_refs : String → List String
extract_inline_refs content = inline_refs (split_sign content).1

abbrev pub Extracted : Type 0
Extracted = List (String × String) × Option String

-- The loop of `extract_spans` over the parts behind the first.
unfoldable pub spans_of : List String → Extracted
spans_of List.[] = (List.[], none)
spans_of (List.◌∷◌ opening List.[]) =
    (List.[], if is_empty_text (take_token_id opening) then none else some (take_token_id opening))
spans_of (List.◌∷◌ opening (List.◌∷◌ next parts)) = elim (is_empty_text (take_token_id opening)) [
  | true ↦ spans_of (List.◌∷◌ next parts)
  | false ↦
      let (spans, unclosed) = spans_of parts in
      (List.◌∷◌ (take_token_id opening, trim (after_id opening)) spans, unclosed)
]

unfoldable pub extract_spans : String → Extracted
extract_spans content = spans_of (split_marker false content).1

-- The loop of `strip_span_markers`.
unfoldable pub strip_parts : List String → String
strip_parts List.[] = []
strip_parts (List.◌∷◌ opening List.[]) =
    if is_empty_text (take_token_id opening) then [] else trim (after_id opening)
strip_parts (List.◌∷◌ opening (List.◌∷◌ next parts)) =
    elim (is_empty_text (take_token_id opening)) [
      | true ↦ strip_parts (List.◌∷◌ next parts)
      | false ↦ append (trim (after_id opening)) (append next (strip_parts parts))
    ]

unfoldable pub strip_span_markers : String → String
strip_span_markers content =
    let (first, others) = split_marker false content in append first (strip_parts others)

-- The loop of `unmarked_residual`: the segments outside the spans.
unfoldable pub residual_parts : List String → List String
residual_parts List.[] = List.[]
residual_parts (List.◌∷◌ opening List.[]) =
    if is_empty_text (take_token_id opening) then List.◌∷◌ opening List.[] else List.[]
residual_parts (List.◌∷◌ opening (List.◌∷◌ next parts)) =
    elim (is_empty_text (take_token_id opening)) [
      | true ↦ List.◌∷◌ opening (residual_parts (List.◌∷◌ next parts))
      | false ↦ List.◌∷◌ next (residual_parts parts)
    ]

-- `join(" ")`.
unfoldable pub join : List String → String
join List.[] = []
join (List.◌∷◌ s List.[]) = s
join (List.◌∷◌ s (List.◌∷◌ t rest)) = append s (append " " (join (List.◌∷◌ t rest)))

unfoldable pub unmarked_residual : String → String
unmarked_residual content =
    let (first, others) = split_marker false content in
    join (retain (λ s. not (is_empty_text s)) (map trim (List.◌∷◌ first (residual_parts others))))

-- The bytes of a character in UTF-8, as `char_indices` counts them.
abbrev pub utf8_len : ℕ → ℕ
utf8_len c = if leb c 0x7f then 1 else if leb c 0x7ff then 2 else if leb c 0xffff then 3 else 4

-- "malformed sigil: §{} at position {}" and "… bare § at end of content at position {}".
pub data SigilError : Type 0 where
  malformed : Char → ℕ → SigilError
  bare : ℕ → SigilError

-- The characters that may follow a §.
unfoldable pub is_sigil : Char → Bool
is_sigil c = nat_eq (code c) b'!' || (nat_eq (code c) b'^' || nat_eq (code c) b'#')

abbrev pub Checked : Type 0
Checked = Result SigilError (Unit {0})

-- The loop of `check_malformed_sigils` at byte `i`. With `held`, the character before was a §.
unfoldable pub check_from : Bool → ℕ → String → Checked
check_from false i [] = ok tt
check_from true i [] = err (bare i)
check_from false i (c ∷ s) = elim (is_sign c) [
  | true ↦ check_from true i s
  | false ↦ check_from false (i + utf8_len (code c)) s
]
check_from true i (c ∷ s) =
    let rest = check_from false (i + 2 + utf8_len (code c)) s in
    if is_sigil c then rest else err (malformed c i)

unfoldable pub check_malformed_sigils : String → Checked
check_malformed_sigils content = check_from false 0 content
