-- ===== src/Tests/Ranges.antt =====
-- Range specs and ranges on a token with two bookmarks.
use agent_squire.Base.{◌≡◌, refl, true, none, some, List, [], ◌∷◌, arith}
use agent_squire.Slug.Chars.{trim, trim_by, trim_start, trim_end, is_whitespace}
use agent_squire.Store.Types.{TokenRange, NewTokenSpec}
use agent_squire.Store.Ops.{SquireState, token_detail}
use agent_squire.Base.Dict.{lookup}
use agent_squire.Tool.{ok}
use agent_squire.Protocol.{is_valid_token_id_char}
use agent_squire.Protocol.Spans.{all_id_chars}
use agent_squire.Protocol.Bookmarks.{at_marker}
use agent_squire.Protocol.Ranges.{
  RangePosition, RangeSpec, position, trim_markers, bookmark_tag, bookmark_pos, slice_line,
  range_text, resolve_ranges, parse_range_position, parse_range_spec, is_range_spec,
}
use agent_squire.Protocol.Ranges.ReadBack.{resolve_ranges-resolve_range_spec}
use agent_squire.Protocol.Ranges.Written.{
  show_position, show_spec, IsPosition, parse_range_spec-show_spec,
}
use agent_squire.Protocol.Resolve.{
  resolve_range_spec, source_namespace, range_in, measured, effective_end,
}
use agent_squire.Protocol.Resolve.Decides.{IsResolution, resolve_range_spec_decides}
use agent_squire.Tests.Sample.{token}

abbrev chunks : SquireState
chunks = record {
  tokens = ("USR_T1", record (token "input") { full_desc = some "§^a§^ the text §^b§^ end" }) ∷ [];
  relationships = [];
  preserve_lists = [];
  turns = [];
  compliance_failures = [];
  raw_partition = [];
}

abbrev from_a : RangePosition
from_a = position "USR_T1" "a" 0

abbrev to_b : RangePosition
to_b = position "USR_T1" "b" 2

abbrev a_to_b : RangeSpec
a_to_b = record { start = from_a; end = position "USR_T1" "b" 0 }

abbrev up_to_b : TokenRange
up_to_b = record { namespace = "USR_T1"; bookmark = "a"; offset = 0; length = some 17 }

resolve_ranges-resolve_range_spec_example :
    (ranges : List TokenRange) × (resolve_range_spec a_to_b chunks "s" ≡ ok ranges)
    × (resolve_ranges ranges chunks ≡ some "the text §^b§^")
unfolding token_detail lookup bookmark_tag trim_markers at_marker trim trim_by trim_start trim_end
    is_whitespace
resolve_ranges-resolve_range_spec_example =
    resolve_ranges-resolve_range_spec chunks "s" "USR_T1" "a" "b" "" " the text " " end" refl refl
      refl refl (omega arith)

abbrev positions : RangeSpec
positions = record { start = from_a; end = to_b }

from_a-IsPosition : IsPosition from_a
unfolding all_id_chars is_valid_token_id_char
from_a-IsPosition = record {
  namespace_chars = refl;
  namespace_named = refl;
  bookmark_chars = refl;
  bookmark_named = refl;
  offset_small = omega arith;
}

to_b-IsPosition : IsPosition to_b
unfolding all_id_chars is_valid_token_id_char
to_b-IsPosition = record {
  namespace_chars = refl;
  namespace_named = refl;
  bookmark_chars = refl;
  bookmark_named = refl;
  offset_small = omega arith;
}

parse_range_spec-show_spec_example :
    (parse_range_position (show_position from_a) ≡ some from_a)
    × (parse_range_spec (show_spec positions) ≡ some positions)
    × (is_range_spec (show_spec positions) ≡ true)
parse_range_spec-show_spec_example =
    parse_range_spec-show_spec positions from_a-IsPosition to_b-IsPosition

-- A range that the spec resolves to.
a_to_b-IsResolution : IsResolution a_to_b chunks "s" (up_to_b ∷ [])
unfolding resolve_range_spec source_namespace range_in measured effective_end bookmark_pos
    bookmark_tag trim_markers at_marker token_detail lookup
a_to_b-IsResolution = (resolve_range_spec_decides a_to_b chunks "s" (up_to_b ∷ [])).0 refl

abbrev referential : NewTokenSpec
referential = record {
  id = "REF_a";
  token_type = "referential";
  short_desc = "a";
  full_desc = some "USR_T1:a→USR_T1:b";
  endpoint = none;
  ranges = [];
  tags = [];
  properties = [];
}

-- An offset that cuts a character panics.
cut_run :
    range_text "§^a§^é" (record { namespace = "USR_T1"; bookmark = "a"; offset = 1; length = none })
    ≡ none
unfolding range_text slice_line bookmark_pos bookmark_tag trim_markers at_marker
cut_run = refl
