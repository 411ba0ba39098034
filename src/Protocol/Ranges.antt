-- ===== src/Protocol/Ranges.antt =====
-- Ranges of stored texts between bookmarks, and their written form: resolve_ranges, parse_range_spec,
-- resolve_range_spec and resolve_all_range_specs of src-tauri/src/agent/squire/protocol.rs.
-- A position is a number of bytes. A sum of positions wraps as in a release build; a slice that is out
-- of bounds, or that cuts a character, panics, which is `none`.
pub mod Trim
pub mod ReadBack
pub mod Written
use Prim.Native.String.{[], ◌∷◌, len}
use text.Mathlib.Text.{find?, get?}
use agent_squire.Base.{
  ℕ, zero, suc, ◌+◌, ◌-◌, ◌*◌, ◌%◌, ◌^◌, String, Char, code, Bool, true, false, not, ◌&&◌, ◌==◌,
  Option, none, some, List, if◌then◌else◌, ltb, leb, nat_eq, is_some, unwrap_or, append, ◌++◌,
  ◌>>=◌,
}
use agent_squire.Slug.Chars.{trim}
use agent_squire.Store.Types.{TokenRange, NewTokenSpec, TokenDetail}
use agent_squire.Store.Ops.{SquireState, token_detail, list_token_ids_by_session}
use agent_squire.Tool.{Result, ok, err}
use agent_squire.Protocol.{is_empty_text}
use agent_squire.Protocol.Bookmarks.{at_marker, insert_sorted}

-- A sum of `usize`.
abbrev pub add_usize : ℕ → ℕ → ℕ
add_usize a b = (a + b) % 2 ^ 64

-- `trim_start_matches("§^")`.
unfoldable pub trim_markers : String → String
trim_markers [] = []
trim_markers (c ∷ []) = c ∷ []
trim_markers (c ∷ d ∷ s) =
    let rest = trim_markers s in if at_marker (c ∷ d ∷ []) then rest else c ∷ d ∷ s

-- `format!("§^{}§^", bookmark.trim_start_matches("§^"))`.
unfoldable pub bookmark_tag : String → String
bookmark_tag bookmark = append "§^" (append (trim_markers bookmark) "§^")

-- The position behind a tag.
unfoldable pub bookmark_pos : String → String → Option ℕ
bookmark_pos text tag = elim (find? text tag) [
  | none ↦ none
  | some pos ↦ some (add_usize pos (len tag))
]

abbrev pub full_desc_of : Option TokenDetail → Option String
full_desc_of none = none
full_desc_of (some d) = d.full_desc

abbrev pub range_end : String → ℕ → Option ℕ → ℕ
range_end text start none = len text
range_end text start (some n) = add_usize start n

-- The slice from `start` up to `end`, or to the end of the text if that is nearer, on a line.
unfoldable pub slice_line : String → ℕ → ℕ → Option String
slice_line text start end =
    if ltb start (len text)
    then elim (get? text start (if leb end (len text) then end else len text)) [
      | none ↦ none
      | some slice ↦ some (append slice "\n")
    ]
    else some []

-- What one round of `resolve_ranges` appends.
unfoldable pub range_text : String → TokenRange → Option String
range_text text range = elim (bookmark_pos text (bookmark_tag range.bookmark)) [
  | none ↦ some []
  | some pos ↦
      let start = add_usize pos range.offset in
      slice_line text start (range_end text start range.length)
]

-- The loop of `resolve_ranges`.
unfoldable pub range_texts : SquireState → List TokenRange → Option String
range_texts s List.[] = some []
range_texts s (List.◌∷◌ range ranges) =
    let rest = range_texts s ranges in
    elim (full_desc_of (token_detail s range.namespace)) [
      | none ↦ rest
      | some text ↦ elim (range_text text range) [
        | none ↦ none
        | some piece ↦ elim rest [ none ↦ none | some more ↦ some (append piece more) ]
      ]
    ]

unfoldable pub resolve_ranges : List TokenRange → SquireState → Option String
resolve_ranges ranges s = elim (range_texts s ranges) [
  | none ↦ none
  | some result ↦ some (trim result)
]

pub record RangePosition : Type 0 where
  pub namespace : String
  pub bookmark : String
  pub offset : ℕ

pub record RangeSpec : Type 0 where
  pub start : RangePosition
  pub end : RangePosition

-- The texts around the first character of the code point `at`.
unfoldable pub split_once : ℕ → String → Option (String × String)
split_once at [] = none
split_once at (c ∷ s) = elim (nat_eq (code c) at) [
  | true ↦ some ([], s)
  | false ↦ elim (split_once at s) [ none ↦ none | some (left, right) ↦ some (c ∷ left, right) ]
]

-- The number that digits stand for behind the number `n`.
unfoldable pub parse_digits : ℕ → String → Option ℕ
parse_digits n [] = some n
parse_digits n (c ∷ s) =
    let rest = parse_digits (10 * n + (code c - b'0')) s in
    if leb b'0' (code c) && leb (code c) b'9' then rest else none

abbrev pub checked : Option ℕ → Option ℕ
checked none = none
checked (some n) = if ltb n (2 ^ 64) then some n else none

-- `parse::<usize>()`: digits, with a sign + allowed before them, that stand for a number in range.
unfoldable pub parse_usize : String → Option ℕ
parse_usize [] = none
parse_usize (c ∷ s) =
    if nat_eq (code c) b'+'
    then if is_empty_text s then none else checked (parse_digits 0 s)
    else checked (parse_digits 0 (c ∷ s))

abbrev pub position : String → String → ℕ → RangePosition
position namespace bookmark offset = record {
  namespace = namespace;
  bookmark = bookmark;
  offset = offset;
}

-- The arms 1 and _ of the match, behind the first piece.
unfoldable pub position_behind : String → String → Option RangePosition
position_behind first rest = elim (split_once b':' rest) [
  | none ↦
      if is_empty_text first
      then none
      else if is_empty_text rest
      then none
      else elim (parse_usize rest) [
        | some offset ↦ some (position "" first offset)
        | none ↦ some (position first rest 0)
      ]
  | some (bookmark, third) ↦
      if is_empty_text first
      then none
      else if is_empty_text bookmark
      then none
      else some (position first bookmark (unwrap_or 0 (parse_usize third)))
]

unfoldable pub parse_range_position : String → Option RangePosition
parse_range_position s =
    let t = trim s in
    if is_empty_text t then none else elim (split_once b':' t) [
      | none ↦ some (position "" t 0)
      | some (first, rest) ↦ position_behind first rest
    ]

-- The code point of the character →.
abbrev pub range_arrow : ℕ
range_arrow = 0x2192

unfoldable pub parse_range_spec : String → Option RangeSpec
parse_range_spec s = elim (split_once range_arrow (trim s)) [
  | none ↦ none
  | some (start_str, end_str) ↦ elim (parse_range_position start_str) [
    | none ↦ none
    | some start ↦ elim (parse_range_position end_str) [
      | none ↦ none
      | some end ↦ some (record { start = start; end = end })
    ]
  ]
]

unfoldable pub is_range_spec : String → Bool
is_range_spec s = is_some (split_once range_arrow s)
