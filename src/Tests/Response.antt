-- ===== src/Tests/Response.antt =====
-- Runs of the repair passes and of the parsers.
use agent_squire.Base.{String, true, ◌%◌, ◌≡◌, ◌≢◌, ◌⊎◌, refl, none, some, [], ◌∷◌, arith}
use agent_squire.Slug.Chars.{trim, trim_by, trim_start, trim_end, is_whitespace}
use agent_squire.Tool.{Result, err}
use agent_squire.Protocol.Bookmarks.{at_marker}
use agent_squire.Protocol.Ranges.Written.{without}
use agent_squire.Response.{SquireResponse}
use agent_squire.Response.Lines.{
  lines, write_lines, count_char, split_on, strip_prefix, split_text, take_white, join_lines,
}
use agent_squire.Response.Parse.{
  parse_bookmark_protocol, parse_lines, parse_line, header_of, is_header, put_line, token_of,
}
use agent_squire.Response.Repair.{
  count_markers, fix_unclosed_spans, after_pipe, cut_lines, fix_line, fix_lines,
  fix_concatenated_rel_lines, strip_line, strip_lines, strip_empty_predicates,
}
use agent_squire.Response.Repair.Even.{fix_unclosed_spans_even}
use agent_squire.Response.Repair.Solid.{begins_plain}
use agent_squire.Response.Repair.Fields.{IsField, token_line}
use agent_squire.Response.Repair.Cut.{fix_concatenated_rel_lines_token}
use agent_squire.Response.Headers.{
  normalize_section_headers, normalize_lines, normalize_line, marked_section, markdown_header,
  step_header, colon_header, bare_header, title_header,
}
use agent_squire.Response.Detect.{
  try_extract_json, fenced, braced, find_char, rfind_char, FormatterOutput, parse_formatter_json,
}
use agent_squire.Response.Detect.Total.{IsParsed, parse_formatter_json_total}

-- Two relationships on one line: the first loses its object, and the second gets it in its subject.
concatenated_run :
    fix_concatenated_rel_lines 5 "A | HasParent | xB | HasParent | y"
    ≡ some "A | HasParent |\nxB | HasParent | y"
unfolding fix_concatenated_rel_lines fix_lines fix_line cut_lines after_pipe lines write_lines
    count_char take_white trim trim_by trim_start trim_end is_whitespace
concatenated_run = refl

headers_run :
    normalize_section_headers "### Step 2 — Define referential tokens\n### Preserve\n§#preserve:"
    ≡ "§#new_tokens\n§#preserve\n§#preserve"
unfolding normalize_section_headers normalize_lines normalize_line marked_section markdown_header
    step_header colon_header bare_header title_header lines write_lines strip_prefix split_text trim
    trim_by trim_start trim_end is_whitespace
headers_run = refl

predicate_run : strip_empty_predicates "A | | B" ≡ "A | B"
unfolding strip_empty_predicates strip_lines strip_line lines write_lines split_on trim trim_by
    trim_start trim_end is_whitespace
predicate_run = refl

parsed_run :
    (parse_bookmark_protocol "hi\n§#new_tokens\nREF_a | referential | intro | chunk_0").new_tokens
    ≡ token_line "REF_a" "referential" "intro" (some "chunk_0") ∷ []
unfolding parse_bookmark_protocol parse_lines parse_line header_of is_header put_line token_of lines
    join_lines split_on strip_prefix trim trim_by trim_start trim_end is_whitespace
parsed_run = refl

-- A text without a first brace before its last one would panic behind the fences.
braces_run : try_extract_json "} {" ≡ none
unfolding try_extract_json fenced braced find_char rfind_char strip_prefix split_text trim trim_by
    trim_start trim_end is_whitespace
braces_run = refl

fix_unclosed_spans_even_example :
    (count_markers (fix_unclosed_spans "§^a text") % 2 ≡ 0)
    × ((count_markers "§^a text" % 2 ≢ 0) ⊎ (fix_unclosed_spans "§^a text" ≡ "§^a text"))
fix_unclosed_spans_even_example = fix_unclosed_spans_even "§^a text"

word :
    (s : String)
    → begins_plain s ≡ true
    → trim_end is_whitespace s ≡ s
    → without b'|' s ≡ true
    → without 0xa s ≡ true
    → without 0xd s ≡ true
    → IsField s
word s h g k l m = record { begins = h; ends = g; no_pipe = k; no_feed = l; no_return = m }

fix_concatenated_rel_lines_token_example :
    ((parse_bookmark_protocol "§#new_tokens\nREF_a | concept | the intro | chunk 0").new_tokens
      ≡ token_line "REF_a" "concept" "the intro" (some "chunk 0") ∷ [])
    × (fix_concatenated_rel_lines 2 "§#new_tokens\nREF_a | concept | the intro | chunk 0"
        ≡ some "§#new_tokens\nREF_a | concept |\nthe intro | chunk 0")
    × ((parse_bookmark_protocol "§#new_tokens\nREF_a | concept |\nthe intro | chunk 0").new_tokens
        ≡ token_line "REF_a" "concept" "" none ∷ [])
unfolding without begins_plain trim_end is_whitespace
fix_concatenated_rel_lines_token_example =
    fix_concatenated_rel_lines_token "REF_a" "concept" "the intro" "chunk 0"
      (word "REF_a" refl refl refl refl refl) (word "concept" refl refl refl refl refl)
      (word "the intro" refl refl refl refl refl) (word "chunk 0" refl refl refl refl refl) 0

abbrev no_response : String → Result String SquireResponse
no_response s = err s

abbrev no_output : String → Result String FormatterOutput
no_output s = err s

abbrev unrepaired : String → String
unrepaired s = s

parse_formatter_json_total_example :
    IsParsed unrepaired no_response no_output 1 "{x"
      (parse_formatter_json unrepaired no_response no_output 1 "{x")
unfolding fix_unclosed_spans count_markers count_char at_marker
parse_formatter_json_total_example =
    parse_formatter_json_total unrepaired no_response no_output 1 "{x" (omega arith)
