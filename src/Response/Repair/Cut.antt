-- ===== src/Response/Repair/Cut.antt =====
-- What fix_concatenated_rel_lines does to a token line with four fields, and the parser to the result.
use Prim.Native.String.{[], ◌∷◌}
use agent_squire.Base.{
  ℕ, suc, ◌≡◌, refl, ◌∙◌, ap, String, true, false, none, some, List, ltb, append,
}
use agent_squire.Slug.Chars.{trim, trim_by, trim_start, trim_end, is_whitespace}
use agent_squire.Protocol.{is_empty_text}
use agent_squire.Protocol.Ranges.Written.{without}
use agent_squire.Response.Lines.{count_char, split_on, take_white, lines, write_lines, strip_prefix}
use agent_squire.Response.{SquireResponse, default_response}
use agent_squire.Response.Parse.{
  Parsing, new_tokens, section_keys, push_some, fields, token_of, header_of, is_header, put_line,
  parse_line, parse_lines, parse_bookmark_protocol,
}
use agent_squire.Response.Repair.{
  after_pipe, cut_lines, fix_line, fix_lines, fix_concatenated_rel_lines,
}
use agent_squire.Response.Repair.Solid.{
  begins_plain, begins_plain-append, Ends, Ends-append, Ends-cons, trim_end-cons, trim_end-append,
  trim_end-white, trim_solid, trim_start-plain, take_white-plain, lines-line, lines-last,
  header_of-plain,
}
use agent_squire.Response.Repair.Fields.{
  IsField, ◌⊓◌, ◌⊔◌, OneLine, token_line, count_field, count_bar, after_bar, split_field, split_bar,
  bar-Ends, bar-OneLine, field-Ends, trim_behind, trim_before, trim_around, trim_line,
}

-- A text with the section of new tokens, and what stands in it.
abbrev pub new_tokens_text : String → String
new_tokens_text rest = append "§#new_tokens" ("\n" ∷ rest)

-- The header and a line of the section, in the loop of the parser.
abbrev in_section : SquireResponse → List String → Parsing
in_section r ls = record { section = some new_tokens; resp = r; content_lines = ls }

abbrev start : Parsing
start = record { section = none; resp = default_response; content_lines = List.[] }

parse_header : parse_line start "§#new_tokens" ≡ in_section default_response List.[]
unfolding parse_line header_of is_header strip_prefix trim trim_by trim_start trim_end is_whitespace
parse_header = refl

put_token_line :
    (l : String) (r : SquireResponse) (ls : List String)
    → trim l ≡ l
    → header_of section_keys l ≡ none
    → is_empty_text l ≡ false
    → parse_line (in_section r ls) l
      ≡ in_section (record r { new_tokens = push_some r.new_tokens (token_of (fields l)) }) ls
unfolding parse_line put_line
put_token_line l r ls h header filled = rw (parse_line, h, header, h, filled) refl

fix_line_header : (fuel : ℕ) → fix_line fuel "§#new_tokens" ≡ some (List.◌∷◌ "§#new_tokens" List.[])
unfolding fix_line count_char trim trim_by trim_start trim_end is_whitespace
fix_line_header fuel = refl

module _ (a b c d : String) (fa : IsField a) (fb : IsField b) (fc : IsField c)
    (fd : IsField d) where
  abbrev pub four_fields : String
  four_fields = a ⊔ b ⊔ c ⊔ d

  -- The two lines that it is cut into.
  abbrev pub first_line : String
  first_line = a ⊔ b ⊓ []

  abbrev pub second_line : String
  second_line = c ⊔ d

  second-Ends : Ends second_line
  second-Ends = bar-Ends c d (field-Ends d fd)

  four_fields-Ends : Ends four_fields
  four_fields-Ends = bar-Ends a (b ⊔ c ⊔ d) (bar-Ends b (c ⊔ d) second-Ends)

  first-Ends : Ends first_line
  unfolding trim_end is_whitespace
  first-Ends = bar-Ends a (b ⊓ []) (Ends-append b " |" (refl, refl))

  second-OneLine : OneLine second_line
  unfolding without
  second-OneLine = bar-OneLine c (" " ∷ d) fc (fd.no_feed, fd.no_return)

  first-OneLine : OneLine first_line
  unfolding without
  first-OneLine = bar-OneLine a (" " ∷ (b ⊓ [])) fa (bar-OneLine b [] fb (refl, refl))

  four_fields-OneLine : OneLine four_fields
  unfolding without
  four_fields-OneLine =
      bar-OneLine a (" " ∷ (b ⊔ c ⊔ d)) fa (bar-OneLine b (" " ∷ (c ⊔ d)) fb second-OneLine)

  trim_whole : trim four_fields ≡ four_fields
  trim_whole = trim_line a fa (" " ∷ "|" ∷ " " ∷ (b ⊔ c ⊔ d)) four_fields-Ends

  trim_first : trim first_line ≡ first_line
  trim_first = trim_line a fa (" " ∷ "|" ∷ " " ∷ (b ⊓ [])) first-Ends

  trim_second : trim second_line ≡ second_line
  trim_second = trim_line c fc (" " ∷ "|" ∷ " " ∷ d) second-Ends

  one_bar : count_char b'|' second_line ≡ 1
  unfolding count_char
  one_bar = count_bar c (" " ∷ d) fc.no_pipe ∙ ap suc (count_field d fd.no_pipe)

  three_bars : count_char b'|' four_fields ≡ 3
  unfolding count_char
  three_bars =
      count_bar a (" " ∷ (b ⊔ c ⊔ d)) fa.no_pipe
      ∙ ap suc (count_bar b (" " ∷ (c ⊔ d)) fb.no_pipe ∙ ap suc one_bar)

  cut_pipes : after_pipe 2 four_fields ≡ some (first_line, " " ∷ second_line)
  unfolding after_pipe
  cut_pipes =
      let inner = after_bar 0 b (" " ∷ second_line) [] (" " ∷ second_line) fb.no_pipe refl in
      after_bar 1 a (" " ∷ (b ⊔ c ⊔ d)) (" " ∷ (b ⊓ [])) (" " ∷ second_line) fa.no_pipe
        (rw (after_pipe, inner) refl)

  second_begins : begins_plain second_line ≡ true
  second_begins = begins_plain-append c (" " ∷ "|" ∷ " " ∷ d) fc.begins

  first_begins : begins_plain first_line ≡ true
  first_begins = begins_plain-append a (" " ∷ "|" ∷ " " ∷ (b ⊓ [])) fa.begins

  -- What is left of the line when its first part is cut off, and that part.
  trim_rest : trim (trim_start is_whitespace (" " ∷ second_line)) ≡ second_line
  unfolding trim_start is_whitespace
  trim_rest = ap trim (trim_start-plain second_line second_begins) ∙ trim_second

  trim_cut : trim (append first_line (take_white (" " ∷ second_line))) ≡ first_line
  unfolding take_white is_whitespace
  trim_cut =
      ap (λ u. trim (append first_line (" " ∷ u))) (take_white-plain second_line second_begins)
      ∙ trim_solid (append first_line " ") (begins_plain-append first_line " " first_begins)
      ∙ trim_end-white " " first_line refl
      ∙ first-Ends.0

  cut_whole :
      (fuel : ℕ)
      → cut_lines (suc (suc fuel)) four_fields ≡ some (List.◌∷◌ first_line List.[], second_line)
  unfolding cut_lines
  cut_whole fuel =
      let many : ltb 2 (count_char b'|' four_fields) ≡ true = rw three_bars refl in
      let filled = first-Ends.1 in
      rw (cut_lines, many, cut_pipes, trim_rest, one_bar, trim_cut, filled) refl

  fix_line_whole :
      (fuel : ℕ)
      → fix_line (suc (suc fuel)) four_fields
        ≡ some (List.◌∷◌ first_line (List.◌∷◌ second_line List.[]))
  unfolding fix_line
  fix_line_whole fuel =
      let filled = second-Ends.1 in
      rw (fix_line, trim_whole, three_bars, cut_whole fuel, filled, one_bar) refl

  lines_whole :
      lines (new_tokens_text four_fields) ≡ List.◌∷◌ "§#new_tokens" (List.◌∷◌ four_fields List.[])
  unfolding without
  lines_whole =
      lines-line "§#new_tokens" four_fields refl refl
      ∙ ap (λ ls. List.◌∷◌ "§#new_tokens" ls)
          (lines-last four_fields four_fields-Ends.1 four_fields-OneLine.0 four_fields-OneLine.1)

  abbrev pub cut_text : String
  cut_text = new_tokens_text (append first_line ("\n" ∷ second_line))

  lines_cut :
      lines cut_text ≡ List.◌∷◌ "§#new_tokens" (List.◌∷◌ first_line (List.◌∷◌ second_line List.[]))
  unfolding without
  lines_cut =
      lines-line "§#new_tokens" (append first_line ("\n" ∷ second_line)) refl refl
      ∙ ap (λ ls. List.◌∷◌ "§#new_tokens" ls)
          (lines-line first_line second_line first-OneLine.0 first-OneLine.1
            ∙ ap (λ ls. List.◌∷◌ first_line ls)
                (lines-last second_line second-Ends.1 second-OneLine.0 second-OneLine.1))

  written :
      trim_end is_whitespace
        (write_lines (List.◌∷◌ "§#new_tokens" (List.◌∷◌ first_line (List.◌∷◌ second_line List.[]))))
      ≡ cut_text
  unfolding write_lines is_whitespace
  written =
      let tail = append second_line "\n" in
      let end = trim_end-white "\n" second_line refl ∙ second-Ends.0 in
      let last = trim_end-cons "\n" tail second_line end second-Ends.1 in
      let inner = trim_end-append first_line ("\n" ∷ tail) ("\n" ∷ second_line) last refl in
      trim_end-append "§#new_tokens" ("\n" ∷ append first_line ("\n" ∷ tail))
        ("\n" ∷ append first_line ("\n" ∷ second_line))
        (trim_end-cons "\n" (append first_line ("\n" ∷ tail))
          (append first_line ("\n" ∷ second_line)) inner
          (Ends-append first_line ("\n" ∷ second_line) (Ends-cons "\n" second_line second-Ends)).1)
        refl

  fix_text :
      (fuel : ℕ)
      → fix_concatenated_rel_lines (suc (suc fuel)) (new_tokens_text four_fields) ≡ some cut_text
  unfolding fix_concatenated_rel_lines fix_lines
  fix_text fuel =
      rw
        (
          fix_concatenated_rel_lines,
          lines_whole,
          fix_lines,
          fix_line_header (suc (suc fuel)),
          fix_line_whole fuel,
        )
        (ap some written)

  fields_whole : token_of (fields four_fields) ≡ some (token_line a b c (some d))
  unfolding token_of split_on
  fields_whole =
      rw
        (
          split_bar a (" " ∷ (b ⊔ c ⊔ d)) fa.no_pipe,
          split_bar b (" " ∷ (c ⊔ d)) fb.no_pipe,
          split_bar c (" " ∷ d) fc.no_pipe,
          split_field d fd.no_pipe,
          trim_behind a fa,
          trim_around b fb,
          trim_around c fc,
          trim_before d fd,
        )
        refl

  fields_first : token_of (fields first_line) ≡ some (token_line a b "" none)
  unfolding token_of split_on trim trim_by trim_start trim_end
  fields_first =
      rw
        (
          split_bar a (" " ∷ (b ⊓ [])) fa.no_pipe,
          split_bar b [] fb.no_pipe,
          trim_behind a fa,
          trim_around b fb,
        )
        refl

  fields_second : token_of (fields second_line) ≡ none
  unfolding token_of split_on
  fields_second = rw (split_bar c (" " ∷ d) fc.no_pipe, split_field d fd.no_pipe) refl

  -- A section of new tokens with one line `id | type | short | full` is read as a token with all four
  -- fields. `fix_concatenated_rel_lines` cuts the line behind its second |, and in the text that it returns
  -- the parser finds one token instead, with an empty short_desc and no full_desc. The fields are any texts
  -- that are trimmed, not empty, without | and line ends, and do not begin with # or §.
  pub fix_concatenated_rel_lines_token :
      (fuel : ℕ)
      → ((parse_bookmark_protocol (new_tokens_text four_fields)).new_tokens
          ≡ List.◌∷◌ (token_line a b c (some d)) List.[])
        × (fix_concatenated_rel_lines (suc (suc fuel)) (new_tokens_text four_fields)
            ≡ some cut_text)
        × ((parse_bookmark_protocol cut_text).new_tokens
            ≡ List.◌∷◌ (token_line a b "" none) List.[])
  unfolding parse_bookmark_protocol parse_lines
  fix_concatenated_rel_lines_token fuel =
      let whole_header = header_of-plain four_fields (begins_plain-append a _ fa.begins) in
      let first_header = header_of-plain first_line first_begins in
      let second_header = header_of-plain second_line second_begins in
      (
        ap (λ ls. (parse_lines start ls).resp.new_tokens) lines_whole
            ∙ rw
                (
                  parse_lines,
                  parse_header,
                  put_token_line four_fields default_response List.[] trim_whole whole_header
                      four_fields-Ends.1,
                  fields_whole,
                )
                refl,
        fix_text fuel,
        ap (λ ls. (parse_lines start ls).resp.new_tokens) lines_cut
            ∙ rw
                (
                  parse_lines,
                  parse_header,
                  put_token_line first_line default_response List.[] trim_first first_header
                      first-Ends.1,
                  fields_first,
                  put_token_line second_line
                      (record default_response {
                        new_tokens = List.◌∷◌ (token_line a b "" none) List.[];
                      })
                      List.[] trim_second second_header second-Ends.1,
                  fields_second,
                )
                refl,
      )
