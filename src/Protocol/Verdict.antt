-- ===== src/Protocol/Verdict.antt =====
-- What a response is judged by: the conditions of acceptance, what each reason says, and that each check
-- of validate_squire_response ends in one or the other.
pub mod Decides
use agent_squire.Base.{
  ◌≡◌, refl, sym, ◌∙◌, subst, ◌↔◌, ◌⊎◌, inl, inr, String, Bool, true, false, not, ◌||◌, ◌==◌,
  Option, none, some, List, [], ◌∷◌, find, All, ◌∈◌, Bool-cases, Option-cases, if◌then◌else◌,
  eq_iff, arith,
}
use agent_squire.Tool.{ok, err, Result-cases, err-injective}
use agent_squire.Response.{SquireResponse}
use agent_squire.Protocol.{
  is_empty_text, extract_inline_refs, extract_spans, check_malformed_sigils,
}
use agent_squire.Protocol.Bookmarks.{extract_span_refs}
use agent_squire.Protocol.Sigils.{IsWellSigned, check_malformed_sigils_decides}
use agent_squire.Protocol.Validate.{
  ComplianceFailure, ask_and_content, empty_close, sigil, undisplayable, unclosed_span,
  undisplayable_span, not_preserved, unknown_end, Verdict, ends, all_known, known_here, check_store,
  check_spans, check_content, stores_nothing, validate_squire_response,
}

abbrev pub AllKnown : (String → Bool) → List String → Type 0
AllKnown known ids = All (λ id. known id ≡ true) ids

first_unknown :
    (known : String → Bool) (ids : List String)
    → ((find (λ id. not (known id)) ids ≡ none) × AllKnown known ids)
      ⊎ ((id : String) × (find (λ id. not (known id)) ids ≡ some id)
          × (id ∈ ids)
          × (known id ≡ false))
first_unknown known [] = inl (refl, tt)
first_unknown known (x ∷ xs) = elim (Bool-cases (known x)) [
  | inr bad ↦ inr (x, rw (find, bad) refl, inl refl, bad)
  | inl good ↦ elim (first_unknown known xs) [
    | inl (e, all) ↦ inl (rw (find, good) e, (good, all))
    | inr (id, e, m, bad) ↦ inr (id, rw (find, good) e, inr m, bad)
  ]
]

pub all_known_blocks :
    (known : String → Bool) (ids : List String) (id : String)
    → id ∈ ids
    → known id ≡ false
    → AllKnown known ids
    → ⊥
all_known_blocks known [] id m bad all = m
all_known_blocks known (x ∷ xs) id (inl e) bad (good, all) = cc
all_known_blocks known (x ∷ xs) id (inr m) bad (good, all) = all_known_blocks known xs id m bad all

module _ (token_known : String → Bool) (resp : SquireResponse) where
  abbrev known : String → Bool
  known = known_here token_known resp

  -- A response that closes the turn.
  pub record IsClose : Type 0 where
    pub stores : stores_nothing resp ≡ false
    pub signed : IsWellSigned resp.content
    pub inline : AllKnown known (extract_inline_refs resp.content)
    pub closed : (extract_spans resp.content).1 ≡ none
    pub spans : AllKnown known (extract_span_refs resp.content)
    pub preserved : AllKnown known resp.preserve
    pub related : AllKnown known (ends resp.relationships)

  -- A question alone, or a response that closes the turn and asks nothing.
  abbrev pub IsCompliant : Type 0
  IsCompliant =
      ((is_empty_text resp.ask_user ≡ false) × (is_empty_text resp.content ≡ true))
      ⊎ ((is_empty_text resp.ask_user ≡ true) × IsClose)

  -- An identifier among these that is not known.
  abbrev Unknown : List String → String → Type 0
  Unknown ids id = (id ∈ ids) × (known id ≡ false)

  -- What each reason says of the response.
  abbrev pub IsFault : ComplianceFailure → Type 0
  IsFault ask_and_content =
      (is_empty_text resp.ask_user ≡ false) × (is_empty_text resp.content ≡ false)
  IsFault empty_close = (is_empty_text resp.ask_user ≡ true) × (stores_nothing resp ≡ true)
  IsFault (sigil e) =
      (is_empty_text resp.ask_user ≡ true) × (check_malformed_sigils resp.content ≡ err e)
  IsFault (undisplayable id) =
      (is_empty_text resp.ask_user ≡ true) × Unknown (extract_inline_refs resp.content) id
  IsFault (unclosed_span id) =
      (is_empty_text resp.ask_user ≡ true) × ((extract_spans resp.content).1 ≡ some id)
  IsFault (undisplayable_span id) =
      (is_empty_text resp.ask_user ≡ true) × Unknown (extract_span_refs resp.content) id
  IsFault (not_preserved id) = (is_empty_text resp.ask_user ≡ true) × Unknown resp.preserve id
  IsFault (unknown_end id) =
      (is_empty_text resp.ask_user ≡ true) × Unknown (ends resp.relationships) id

  -- A verdict: accepted with what was checked, or refused for a fault.
  abbrev Judged : Verdict → Type 0 → Type 0
  Judged v P = ((v ≡ ok tt) × P) ⊎ ((f : ComplianceFailure) × (v ≡ err f) × IsFault f)

  module _ (asks : is_empty_text resp.ask_user ≡ true) where
    -- A loop over identifiers, and what is checked behind it.
    all_known_judged :
        (fail : String → ComplianceFailure) (ids : List String) (next : Verdict) {P : Type 0}
        → ((id : String) → Unknown ids id → IsFault (fail id))
        → Judged next P
        → Judged (all_known known fail ids next) (AllKnown known ids × P)
    all_known_judged fail ids next fault judged = elim (first_unknown known ids) [
      | inr (id, e, m, bad) ↦ inr (fail id, rw (all_known, e) refl, fault id (m, bad))
      | inl (e, all) ↦ elim judged [
        | inl (good, p) ↦ inl (rw (all_known, e) good, (all, p))
        | inr (f, bad, p) ↦ inr (f, rw (all_known, e) bad, p)
      ]
    ]

    check_store_judged :
        Judged
          (check_store token_known resp)
          (AllKnown known resp.preserve × (AllKnown known (ends resp.relationships) × Unit {0}))
    unfolding check_store
    check_store_judged =
        all_known_judged not_preserved resp.preserve _ (λ id u. (asks, u))
          (all_known_judged unknown_end (ends resp.relationships) (ok tt) (λ id u. (asks, u))
            (inl (refl, tt)))

    abbrev SpansChecked : Type 0
    SpansChecked =
        ((extract_spans resp.content).1 ≡ none)
        × (AllKnown known (extract_span_refs resp.content)
            × (AllKnown known resp.preserve
                × (AllKnown known (ends resp.relationships) × Unit {0})))

    check_spans_judged : Judged (check_spans token_known resp) SpansChecked
    unfolding check_spans
    check_spans_judged = elim (Option-cases (extract_spans resp.content).1) [
      | inr (id, e) ↦ inr (unclosed_span id, rw (check_spans, e) refl, (asks, e))
      | inl e ↦
          elim (all_known_judged undisplayable_span (extract_span_refs resp.content) _
            (λ id u. (asks, u)) check_store_judged) [
              | inl (good, p) ↦ inl (rw (check_spans, e) good, (e, p))
              | inr (f, bad, p) ↦ inr (f, rw (check_spans, e) bad, p)
            ]
    ]

    abbrev ContentChecked : Type 0
    ContentChecked =
        IsWellSigned resp.content
        × (AllKnown known (extract_inline_refs resp.content) × SpansChecked)

    check_content_judged : Judged (check_content token_known resp) ContentChecked
    unfolding check_content
    check_content_judged = elim (Result-cases (check_malformed_sigils resp.content)) [
      | inr (e, bad) ↦ inr (sigil e, rw (check_content, bad) refl, (asks, bad))
      | inl (tt, signed) ↦
          elim (all_known_judged undisplayable (extract_inline_refs resp.content) _
            (λ id u. (asks, u)) check_spans_judged) [
              | inl (good, p) ↦ inl (
                rw (check_content, signed) good,
                ((check_malformed_sigils_decides resp.content).0 signed, p),
              )
              | inr (f, bad, p) ↦ inr (f, rw (check_content, signed) bad, p)
            ]
    ]

    close_of : stores_nothing resp ≡ false → ContentChecked → IsClose
    close_of stores (signed, (inline, (closed, (spans, (preserved, (related, u)))))) = record {
      stores = stores;
      signed = signed;
      inline = inline;
      closed = closed;
      spans = spans;
      preserved = preserved;
      related = related;
    }

  pub judged : Judged (validate_squire_response token_known resp) IsCompliant
  unfolding validate_squire_response
  judged = elim (Bool-cases (is_empty_text resp.ask_user)) [
    | inr asked ↦ elim (Bool-cases (is_empty_text resp.content)) [
      | inr said ↦
          inr (ask_and_content, rw (validate_squire_response, asked, said) refl, (asked, said))
      | inl silent ↦ inl (rw (validate_squire_response, asked, silent) refl, inl (asked, silent))
    ]
    | inl asks ↦ elim (Bool-cases (stores_nothing resp)) [
      | inl nothing ↦
          inr (empty_close, rw (validate_squire_response, asks, nothing) refl, (asks, nothing))
      | inr stores ↦ elim (check_content_judged asks) [
        | inl (good, p) ↦
            inl
              (rw (validate_squire_response, asks, stores) good, inr (asks, close_of asks stores p))
        | inr (f, bad, p) ↦ inr (f, rw (validate_squire_response, asks, stores) bad, p)
      ]
    ]
  ]
