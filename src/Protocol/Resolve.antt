-- ===== src/Protocol/Resolve.antt =====
-- The source of a range spec, and the range that it denotes: resolve_range_spec,
-- find_token_with_bookmark and resolve_all_range_specs of src-tauri/src/agent/squire/protocol.rs.
pub mod Source
pub mod Decides
pub mod All
use Prim.Native.String.{len}
use text.Mathlib.Text.{find?}
use agent_squire.Base.{
  ℕ, ◌-◌, String, Bool, true, false, not, ◌&&◌, ◌==◌, Option, none, some, List, [], ◌∷◌, ◌++◌,
  if◌then◌else◌, leb, is_some,
}
use agent_squire.Store.Types.{TokenRange, NewTokenSpec}
use agent_squire.Store.Ops.{SquireState, token_detail, list_token_ids_by_session}
use agent_squire.Tool.{Result, ok, err}
use agent_squire.Protocol.{is_empty_text}
use agent_squire.Protocol.Bookmarks.{insert_sorted}
use agent_squire.Protocol.Ranges.{
  add_usize, bookmark_tag, bookmark_pos, full_desc_of, RangeSpec, parse_range_spec, is_range_spec,
}

pub data RangeError : Type 0 where
  cross_namespace : String → String → RangeError
  no_text : String → RangeError
  no_bookmark : String → String → RangeError
  empty_range : ℕ → ℕ → RangeError
  not_in_session : String → RangeError
  invalid_spec : String → String → RangeError

-- `sort` and `dedup`.
unfoldable pub sort_dedup : List String → List String
sort_dedup [] = []
sort_dedup (x ∷ xs) = insert_sorted (sort_dedup xs) x

-- The loop over the candidates.
unfoldable pub first_with_tag : SquireState → String → List String → Option String
first_with_tag s tag [] = none
first_with_tag s tag (tid ∷ tids) =
    let rest = first_with_tag s tag tids in
    elim (full_desc_of (token_detail s tid)) [
      | none ↦ rest
      | some desc ↦ if is_some (find? desc tag) then some tid else rest
    ]

-- The text of the nil UUID.
abbrev pub nil_session : String
nil_session = "00000000-0000-0000-0000-000000000000"

unfoldable pub find_token_with_bookmark : String → SquireState → String → Result RangeError String
find_token_with_bookmark bookmark s session_id =
    let candidates =
      sort_dedup
        (list_token_ids_by_session s session_id ++ list_token_ids_by_session s nil_session) in
    elim (first_with_tag s (bookmark_tag bookmark) candidates) [
      | none ↦ err (not_in_session bookmark)
      | some tid ↦ ok tid
    ]

-- The namespace that both positions are looked up in.
unfoldable pub source_namespace : RangeSpec → SquireState → String → Result RangeError String
source_namespace spec s session_id =
    if not (is_empty_text spec.start.namespace)
    then ok spec.start.namespace
    else if not (is_empty_text spec.end.namespace)
    then ok spec.end.namespace
    else find_token_with_bookmark spec.start.bookmark s session_id

-- The end of the range: a bookmark with itself reaches to the end of the text.
unfoldable pub effective_end : RangeSpec → String → ℕ → ℕ → ℕ
effective_end spec text range_start range_end =
    if leb range_end range_start
      && (spec.start.bookmark == spec.end.bookmark && spec.start.namespace == spec.end.namespace)
    then len text
    else range_end

unfoldable pub measured : RangeSpec → String → String → ℕ → ℕ → Result RangeError (List TokenRange)
measured spec source_ns text range_start range_end =
    let end = effective_end spec text range_start range_end in
    if leb end range_start
    then err (empty_range range_start end)
    else ok (
        record {
          namespace = source_ns;
          bookmark = spec.start.bookmark;
          offset = spec.start.offset;
          length = some (end - range_start);
        }
        ∷ [])

-- The range in the text of the source.
unfoldable pub range_in : RangeSpec → String → String → Result RangeError (List TokenRange)
range_in spec source_ns text = elim (bookmark_pos text (bookmark_tag spec.start.bookmark)) [
  | none ↦ err (no_bookmark spec.start.bookmark source_ns)
  | some start_pos ↦ elim (bookmark_pos text (bookmark_tag spec.end.bookmark)) [
    | none ↦ err (no_bookmark spec.end.bookmark source_ns)
    | some end_pos ↦
        measured spec source_ns text (add_usize start_pos spec.start.offset)
          (add_usize end_pos spec.end.offset)
  ]
]

abbrev pub crosses : RangeSpec → Bool
crosses spec =
    not (is_empty_text spec.start.namespace)
    && (not (is_empty_text spec.end.namespace) && not (spec.start.namespace == spec.end.namespace))

unfoldable pub resolve_range_spec :
    RangeSpec → SquireState → String → Result RangeError (List TokenRange)
resolve_range_spec spec s session_id =
    if crosses spec
    then err (cross_namespace spec.start.namespace spec.end.namespace)
    else elim (source_namespace spec s session_id) [
      | err e ↦ err e
      | ok source_ns ↦ elim (full_desc_of (token_detail s source_ns)) [
        | none ↦ err (no_text source_ns)
        | some text ↦ range_in spec source_ns text
      ]
    ]

-- One round of `resolve_all_range_specs`.
unfoldable pub resolve_token : SquireState → String → NewTokenSpec → Result RangeError NewTokenSpec
resolve_token s session_id token = elim token.full_desc [
  | none ↦ ok token
  | some desc ↦
      if is_range_spec desc
      then elim (parse_range_spec desc) [
        | none ↦ err (invalid_spec token.id desc)
        | some spec ↦ elim (resolve_range_spec spec s session_id) [
          | err e ↦ err e
          | ok ranges ↦ ok (record token { ranges = ranges; full_desc = none })
        ]
      ]
      else ok token
]

-- The tokens as the loop leaves them, and its result: an error ends it, with the tokens before resolved.
unfoldable pub resolve_all_range_specs :
    List NewTokenSpec → SquireState → String → List NewTokenSpec × Result RangeError (Unit {0})
resolve_all_range_specs [] s session_id = ([], ok tt)
resolve_all_range_specs (token ∷ tokens) s session_id =
    let (rest, result) = resolve_all_range_specs tokens s session_id in
    elim (resolve_token s session_id token) [
      | err e ↦ (token ∷ tokens, err e)
      | ok t ↦ (t ∷ rest, result)
    ]
