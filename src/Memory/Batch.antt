-- ===== src/Memory/Batch.antt =====
-- The parser of batch expressions of src-tauri/src/agent/squire/tools.rs.
use Prim.Native.String.{[], ◌∷◌}
use text.Mathlib.Text.{get?}
use agent_squire.Base.{
  ℕ, zero, suc, ◌^◌, String, Char, code, Bool, true, false, not, ◌&&◌, ◌||◌, ◌==◌, Option, none,
  some, List, if◌then◌else◌, nat_eq, ltb, unwrap_or, append, ◌>>=◌,
}
use agent_squire.Slug.Chars.{trim}
use agent_squire.Tool.{Result, ok, err}
use agent_squire.Protocol.{is_empty_text}
use agent_squire.Protocol.Ranges.{parse_usize}
use agent_squire.Response.Detect.{find_char, rfind_char}

pub data BatchFunc : Type 0 where
  explore :
      (resource_type query : String) → (num_hops max_results : ℕ) → (vector : String) → BatchFunc
  rdf : (hops max_results : ℕ) → BatchFunc
  token_to_detail : (token_id : String) → BatchFunc

pub data BatchError : Type 0 where
  unmatched_in_batch : BatchError
  unmatched_in_pipeline : BatchError
  empty_stage : BatchError
  empty_pipeline : BatchError
  missing_open : String → BatchError
  missing_close : String → BatchError
  explore_args : BatchError
  rdf_args : BatchError
  detail_args : BatchError
  unknown_function : String → BatchError
  unclosed_quote : BatchError
  empty_batch : BatchError

-- The depth of parentheses and the quote, behind a character; `none` at an unmatched parenthesis.
unfoldable pub scan : ℕ → Bool → Char → Option (ℕ × Bool)
scan depth in_single c =
    if nat_eq (code c) 0x27
    then some (depth, not in_single)
    else if in_single
    then some (depth, in_single)
    else if nat_eq (code c) b'('
    then some (suc depth, in_single)
    else if nat_eq (code c) b')'
    then elim depth [ zero ↦ none | suc d ↦ some (d, in_single) ]
    else some (depth, in_single)

abbrev pub is_separator : Char → Bool
is_separator c = nat_eq (code c) b'&' || (nat_eq (code c) b';' || nat_eq (code c) 0xa)

abbrev pub Texts : Type 0
Texts = Result BatchError (List String)

abbrev pub push_piece : String → Texts → Texts
push_piece piece (err e) = err e
push_piece piece (ok more) = ok (if is_empty_text piece then more else List.◌∷◌ piece more)

-- The loop of `split_groups`.
unfoldable pub groups_from : ℕ → Bool → String → String → Texts
groups_from depth in_single current [] = push_piece (trim current) (ok List.[])
groups_from depth in_single current (c ∷ s) = elim (scan depth in_single c) [
  | none ↦ err unmatched_in_batch
  | some (depth', in_single') ↦ elim (nat_eq depth' 0 && (not in_single' && is_separator c)) [
    | true ↦ push_piece (trim current) (groups_from depth' in_single' [] s)
    | false ↦ groups_from depth' in_single' (append current (c ∷ [])) s
  ]
]

unfoldable pub split_groups : String → Texts
split_groups text = groups_from 0 false [] text

-- The loop of `split_pipeline`.
unfoldable pub stages_from : ℕ → Bool → String → String → Texts
stages_from depth in_single current [] = push_piece (trim current) (ok List.[])
stages_from depth in_single current (c ∷ s) = elim (scan depth in_single c) [
  | none ↦ err unmatched_in_pipeline
  | some (depth', in_single') ↦ elim (nat_eq depth' 0 && (not in_single' && nat_eq (code c) b'|')) [
    | true ↦ elim (is_empty_text (trim current)) [
      | true ↦ err empty_stage
      | false ↦ push_piece (trim current) (stages_from depth' in_single' [] s)
    ]
    | false ↦ stages_from depth' in_single' (append current (c ∷ [])) s
  ]
]

unfoldable pub split_pipeline : String → Texts
split_pipeline text = elim (stages_from 0 false [] text) [
  | err e ↦ err e
  | ok List.[] ↦ err empty_pipeline
  | ok (List.◌∷◌ s ss) ↦ ok (List.◌∷◌ s ss)
]

abbrev pub push_arg : String → Texts → Texts
push_arg arg (err e) = err e
push_arg arg (ok more) = ok (List.◌∷◌ arg more)

-- The loop of `parse_args`.
unfoldable pub args_from : Bool → String → String → Texts
args_from in_quote current [] =
    if in_quote then err unclosed_quote else push_piece (trim current) (ok List.[])
args_from in_quote current (c ∷ s) = elim (nat_eq (code c) 0x27) [
  | true ↦ args_from (not in_quote) current s
  | false ↦ elim (nat_eq (code c) b',' && not in_quote) [
    | true ↦ push_arg (trim current) (args_from in_quote [] s)
    | false ↦ args_from in_quote (append current (c ∷ [])) s
  ]
]

unfoldable pub parse_args : String → Texts
parse_args s = args_from false [] s

-- `parse()` of a `u32`.
abbrev pub parse_u32 : String → Option ℕ
parse_u32 s = parse_usize s >>= λ n. if ltb n (2 ^ 32) then some n else none

unfoldable pub get : ℕ → List String → Option String
get n List.[] = none
get zero (List.◌∷◌ x xs) = some x
get (suc n) (List.◌∷◌ x xs) = get n xs

-- The arms of the match on the name.
unfoldable pub func_of : String → List String → Result BatchError BatchFunc
func_of name args =
    if name == "explore"
    then elim (get 0 args) [
      | none ↦ err explore_args
      | some resource_type ↦ elim (get 1 args) [
        | none ↦ err explore_args
        | some query ↦ ok (
            explore resource_type query (unwrap_or 0 (get 2 args >>= parse_u32))
              (unwrap_or 10 (get 3 args >>= parse_u32)) (unwrap_or "content" (get 4 args)))
      ]
    ]
    else if name == "rdf"
    then elim (get 0 args) [
      | none ↦ err rdf_args
      | some hops ↦
          ok (rdf (unwrap_or 1 (parse_u32 hops)) (unwrap_or 20 (get 1 args >>= parse_u32)))
    ]
    else if name == "token_to_detail"
    then elim (get 0 args) [
      | none ↦ err detail_args
      | some token_id ↦ ok (token_to_detail token_id)
    ]
    else err (unknown_function name)

-- `none` is a panic: the slice between the parentheses, where the last `)` stands before the first `(`.
unfoldable pub parse_func_call : String → Option (Result BatchError BatchFunc)
parse_func_call s =
    let text = trim s in
    elim (find_char b'(' 0 text) [
      | none ↦ some (err (missing_open text))
      | some open_at ↦ elim (rfind_char b')' 0 text) [
        | none ↦ some (err (missing_close text))
        | some close_at ↦ get? text 0 open_at >>= λ name.
            get? text (suc open_at) close_at >>= λ args_str. elim (parse_args (trim args_str)) [
              | err e ↦ some (err e)
              | ok args ↦ some (func_of (trim name) args)
            ]
      ]
    ]

-- The stages of a group, up to the first that fails.
unfoldable pub parse_stages : List String → Option (Result BatchError (List BatchFunc))
parse_stages List.[] = some (ok List.[])
parse_stages (List.◌∷◌ stage stages) =
    let rest = parse_stages stages in
    parse_func_call stage >>= λ r. elim r [
      | err e ↦ some (err e)
      | ok f ↦ rest >>= λ q. elim q [ err e ↦ some (err e) | ok fs ↦ some (ok (List.◌∷◌ f fs)) ]
    ]

unfoldable pub parse_groups : List String → Option (Result BatchError (List (List BatchFunc)))
parse_groups List.[] = some (ok List.[])
parse_groups (List.◌∷◌ group groups) =
    let rest = parse_groups groups in
    elim (split_pipeline group) [
      | err e ↦ some (err e)
      | ok pipeline ↦ parse_stages pipeline >>= λ r. elim r [
        | err e ↦ some (err e)
        | ok funcs ↦
            rest >>= λ q. elim q [ err e ↦ some (err e) | ok gs ↦ some (ok (List.◌∷◌ funcs gs)) ]
      ]
    ]

unfoldable pub parse_batch_expr : String → Option (Result BatchError (List (List BatchFunc)))
parse_batch_expr expr = elim (split_groups expr) [
  | err e ↦ some (err e)
  | ok groups ↦ parse_groups groups >>= λ r. elim r [
    | err e ↦ some (err e)
    | ok List.[] ↦ some (err empty_batch)
    | ok (List.◌∷◌ g gs) ↦ some (ok (List.◌∷◌ g gs))
  ]
]
