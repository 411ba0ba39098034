-- ===== src/Tests/Validate.antt =====
-- The validation of two responses.
use agent_squire.Base.{◌≡◌, refl, ◌↔◌, ◌∈◌, String, Bool, ◌==◌, none, List, [], ◌∷◌}
use agent_squire.Slug.Chars.{is_whitespace}
use agent_squire.Tool.{ok}
use agent_squire.Store.Types.{NewTokenSpec, Relationship}
use agent_squire.Response.{SquireResponse}
use agent_squire.Protocol.{
  is_sigil, check_malformed_sigils, check_from, extract_inline_refs, inline_refs, split_sign,
  extract_spans, spans_of, split_marker, take_token_id, is_valid_token_id_char, skip, size,
}
use agent_squire.Protocol.Bookmarks.{
  extract_span_refs, extract_bare_bookmarks, bookmarks_from, bookmark_round, take_name, at_marker,
  insert_named,
}
use agent_squire.Protocol.Validate.{
  validate_squire_response, check_content, check_spans, check_store, defined_inline, ends,
  unknown_end,
}
use agent_squire.Protocol.Verdict.{IsCompliant, IsFault}
use agent_squire.Protocol.Verdict.Decides.{
  validate_squire_response_decides, validate_squire_response-IsFault,
}
use agent_squire.Protocol.References.{IsAscending, IsNamed, extract_span_refs_lem}

abbrev knows_user : String → Bool
knows_user id = id == "USR"

abbrev concept : NewTokenSpec
concept = record {
  id = "CON_a";
  token_type = "concept";
  short_desc = "a";
  full_desc = none;
  endpoint = none;
  ranges = [];
  tags = [];
  properties = [];
}

abbrev response : List Relationship → SquireResponse
response rels = record {
  ask_user = "";
  content = "see §!CON_a";
  preserve = "USR" ∷ [];
  new_tokens = concept ∷ [];
  relationships = rels;
}

validate_squire_response_decides_example :
    (validate_squire_response knows_user (response []) ≡ ok tt)
    ↔ IsCompliant knows_user (response [])
validate_squire_response_decides_example = validate_squire_response_decides knows_user (response [])

abbrev dangling : Relationship
dangling = record { subject = "CON_a"; predicate = "relatesTo"; object = "CON_b" }

validate_squire_response-IsFault_example :
    IsFault knows_user (response (dangling ∷ [])) (unknown_end "CON_b")
unfolding validate_squire_response check_content check_spans check_store defined_inline ends
    check_malformed_sigils check_from is_sigil extract_inline_refs inline_refs split_sign
    extract_spans spans_of split_marker take_token_id is_valid_token_id_char extract_span_refs
    extract_bare_bookmarks bookmarks_from bookmark_round at_marker insert_named
validate_squire_response-IsFault_example =
    validate_squire_response-IsFault knows_user (response (dangling ∷ [])) (unknown_end "CON_b")
      refl

extract_span_refs_lem_example :
    IsAscending (extract_span_refs "§^b text§^ §^a§^")
    × (("a" ∈ extract_span_refs "§^b text§^ §^a§^") ↔ IsNamed "§^b text§^ §^a§^" "a")
extract_span_refs_lem_example = extract_span_refs_lem "§^b text§^ §^a§^" "a" refl

-- A bookmark is given with a number of characters: the § before it takes two bytes.
bookmark_run : extract_bare_bookmarks "§§^a§^" ≡ ("a", 6) ∷ []
unfolding extract_bare_bookmarks bookmarks_from bookmark_round at_marker take_name is_whitespace
    skip size
bookmark_run = refl
