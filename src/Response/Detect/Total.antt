-- ===== src/Response/Detect/Total.antt =====
-- That parsing a response ends, and that the cases of try_extract_json behind the first are not reached.
use agent_squire.Base.{
  ℕ, ◌<◌, ◌≡◌, refl, sym, subst, ◌⊎◌, inl, inr, String, true, false, Option, some, Bool-cases,
}
use agent_squire.Slug.Chars.{trim}
use agent_squire.Tool.{Result, ok, err, Result-cases}
use agent_squire.Response.{SquireResponse}
use agent_squire.Response.Lines.{begins}
use agent_squire.Response.Parse.{parse_bookmark_protocol}
use agent_squire.Response.Repair.{fix_unclosed_spans, strip_empty_predicates}
use agent_squire.Response.Headers.{normalize_section_headers}
use agent_squire.Response.Repair.Total.{pipes, fix_concatenated_rel_lines_total}
use agent_squire.Response.Detect.{
  normalize_bookmark_protocol, FormatterOutput, of_formatter, formatter_failed, try_extract_json,
  ParseError, clean_deepseek_json, detect_and_parse, formatter_result, parse_formatter_json,
}

normalize_total :
    (fuel : ℕ) (raw : String)
    → pipes (fix_unclosed_spans raw) < fuel
    → (normalized : String) × (normalize_bookmark_protocol fuel raw ≡ some normalized)
unfolding normalize_bookmark_protocol
normalize_total fuel raw h =
    let (fixed, e) = fix_concatenated_rel_lines_total fuel (fix_unclosed_spans raw) h in
    (
      strip_empty_predicates (normalize_section_headers fixed),
      rw (normalize_bookmark_protocol, e) refl,
    )

module _ {E : Type 0} (repair : String → String) (read_response : String → Result E SquireResponse)
    (read_formatter : String → Result E FormatterOutput) (fuel : ℕ) (raw : String) where
  -- The text is taken for JSON, and neither reader accepts it.
  abbrev pub IsRefused : E → Type 0
  IsRefused json_err =
      (begins (trim raw) "{" ≡ true)
      × (read_formatter (repair (trim raw)) ≡ err json_err)
      × ((e : E) × (read_response (repair (trim raw)) ≡ err e))

  -- A result: a response, or the error of a text that is refused.
  abbrev pub IsParsed : Option (Result (ParseError E) SquireResponse) → Type 0
  IsParsed out =
      ((resp : SquireResponse) × (out ≡ some (ok resp)))
      ⊎ ((json_err : E) × (out ≡ some (err (formatter_failed json_err))) × IsRefused json_err)

  bookmark_parsed :
      pipes (fix_unclosed_spans raw) < fuel
      → begins (trim raw) "{" ≡ false
      → (resp : SquireResponse) × (detect_and_parse repair read_response read_formatter fuel raw
          ≡ some (ok resp))
  unfolding detect_and_parse
  bookmark_parsed h plain =
      let (normalized, e) = normalize_total fuel raw h in
      (parse_bookmark_protocol normalized, rw (detect_and_parse, plain, e) refl)

  -- The fallback on a text that begins with a brace.
  json-IsParsed :
      (json_err : E)
      → begins (trim raw) "{" ≡ true
      → read_formatter (repair (trim raw)) ≡ err json_err
      → IsParsed (formatter_result repair read_response read_formatter fuel raw (err json_err))
  unfolding detect_and_parse formatter_result clean_deepseek_json
  json-IsParsed json_err brace bad = elim (Result-cases (read_response (repair (trim raw)))) [
    | inl (resp, good) ↦ inl (resp, rw (formatter_result, detect_and_parse, brace, good) refl)
    | inr (e, worse) ↦ inr (
      json_err,
      rw (formatter_result, detect_and_parse, brace, worse) refl,
      (brace, bad, (e, worse)),
    )
  ]

  -- With more fuel than the repaired text has |, `parse_formatter_json` returns: with a response, or
  -- with an error, the latter only for a text that begins with a brace, after trimming, and that
  -- serde_json reads neither as a formatter's output nor as a response once it is repaired.
  pub parse_formatter_json_total :
      pipes (fix_unclosed_spans raw) < fuel
      → IsParsed (parse_formatter_json repair read_response read_formatter fuel raw)
  unfolding parse_formatter_json try_extract_json formatter_result clean_deepseek_json
  parse_formatter_json_total h = elim (Bool-cases (begins (trim raw) "{")) [
    | inr plain ↦
        let (resp, e) = bookmark_parsed h plain in inl (resp, rw (parse_formatter_json, plain) e)
    | inl brace ↦ elim (Result-cases (read_formatter (repair (trim raw)))) [
      | inl (output, good) ↦
          inl (of_formatter output, rw (parse_formatter_json, try_extract_json, brace, good) refl)
      | inr (json_err, bad) ↦
          let same : parse_formatter_json repair read_response read_formatter fuel raw
              ≡ formatter_result repair read_response read_formatter fuel raw (err json_err) =
            rw (parse_formatter_json, try_extract_json, brace, bad) refl in
          subst IsParsed (sym same) (json-IsParsed json_err brace bad)
    ]
  ]
