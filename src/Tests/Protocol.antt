-- ===== src/Tests/Protocol.antt =====
-- The protocol's parsers on short texts.
use agent_squire.Base.{◌≡◌, refl, ◌↔◌, none, some, List, [], ◌∷◌}
use agent_squire.Slug.Chars.{trim, trim_by, trim_start, trim_end, is_whitespace}
use agent_squire.Tool.{ok, err}
use agent_squire.Protocol.{
  check_from, check_malformed_sigils, bare, extract_spans, strip_span_markers, unmarked_residual,
  strip_parts, residual_parts, join, extract_inline_refs, inline_refs, split_sign, split_marker,
  spans_of, take_token_id, is_valid_token_id_char,
}
use agent_squire.Protocol.Sigils.{IsWellSigned, check_malformed_sigils_decides}
use agent_squire.Protocol.Spans.{Span, no_sign, all_id_chars, spans-render}

refs_run : extract_inline_refs "see §!a_b, §!c" ≡ "a_b" ∷ "c" ∷ []
unfolding extract_inline_refs inline_refs split_sign take_token_id is_valid_token_id_char
refs_run = refl

bare_run : check_malformed_sigils "ab§" ≡ err (bare 2)
unfolding check_malformed_sigils check_from
bare_run = refl

unclosed_run : extract_spans "x §^tok body" ≡ ([], some "tok")
unfolding extract_spans spans_of split_marker take_token_id is_valid_token_id_char
unclosed_run = refl

abbrev spans : List Span
spans = record { id = "tok"; body = " the body "; gap = " end" } ∷ []

check_malformed_sigils_decides_example :
    (check_malformed_sigils "a §!x" ≡ ok tt) ↔ IsWellSigned "a §!x"
check_malformed_sigils_decides_example = check_malformed_sigils_decides "a §!x"

spans-render_example :
    (extract_spans "say §^tok the body §^ end" ≡ (("tok", "the body") ∷ [], none))
    × (strip_span_markers "say §^tok the body §^ end" ≡ "say the body end")
    × (unmarked_residual "say §^tok the body §^ end" ≡ "say end")
unfolding no_sign all_id_chars is_valid_token_id_char take_token_id trim trim_by trim_start trim_end
    is_whitespace join
spans-render_example =
    spans-render "say " spans refl
      (record { named = refl; valid = refl; apart = refl; body_plain = refl; gap_plain = refl }, tt)

-- The text behind a marker that opens no span is not shown.
stray_run : strip_span_markers "a §^ b" ≡ "a "
unfolding strip_span_markers split_marker strip_parts take_token_id is_valid_token_id_char
stray_run = refl

-- It does count as unmarked.
stray_residual_run : unmarked_residual "a §^ b" ≡ "a b"
unfolding unmarked_residual split_marker residual_parts take_token_id is_valid_token_id_char trim
    trim_by trim_start trim_end is_whitespace join
stray_residual_run = refl
