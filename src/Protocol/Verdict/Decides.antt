-- ===== src/Protocol/Verdict/Decides.antt =====
-- What validate_squire_response accepts, and what its errors say.
use agent_squire.Base.{◌≡◌, sym, ◌∙◌, subst, ◌↔◌, inl, inr, String, Bool}
use agent_squire.Tool.{ok, err, err-injective}
use agent_squire.Response.{SquireResponse}
use agent_squire.Protocol.Sigils.{check_malformed_sigils_decides}
use agent_squire.Protocol.Validate.{
  ComplianceFailure, ask_and_content, empty_close, sigil, undisplayable, unclosed_span,
  undisplayable_span, not_preserved, unknown_end, known_here, validate_squire_response,
}
use agent_squire.Protocol.Verdict.{IsCompliant, IsFault, all_known_blocks, judged}

module _ (token_known : String → Bool) (resp : SquireResponse) where
  close_blocks :
      (f : ComplianceFailure) → IsFault token_known resp f → IsCompliant token_known resp → ⊥
  close_blocks ask_and_content (asked, said) (inl (a, silent)) = cc
  close_blocks ask_and_content (asked, said) (inr (asks, c)) = cc
  close_blocks empty_close (asks, nothing) (inl (asked, silent)) = cc
  close_blocks empty_close (asks, nothing) (inr (a, c)) = cc (nothing, c.stores)
  close_blocks (sigil e) (asks, bad) (inl (asked, silent)) = cc
  close_blocks (sigil e) (asks, bad) (inr (a, c)) =
      cc (bad, (check_malformed_sigils_decides resp.content).1 c.signed)
  close_blocks (undisplayable id) (asks, u) (inl (asked, silent)) = cc
  close_blocks (undisplayable id) (asks, u) (inr (a, c)) =
      all_known_blocks (known_here token_known resp) _ id u.0 u.1 c.inline
  close_blocks (unclosed_span id) (asks, e) (inl (asked, silent)) = cc
  close_blocks (unclosed_span id) (asks, e) (inr (a, c)) = cc (e, c.closed)
  close_blocks (undisplayable_span id) (asks, u) (inl (asked, silent)) = cc
  close_blocks (undisplayable_span id) (asks, u) (inr (a, c)) =
      all_known_blocks (known_here token_known resp) _ id u.0 u.1 c.spans
  close_blocks (not_preserved id) (asks, u) (inl (asked, silent)) = cc
  close_blocks (not_preserved id) (asks, u) (inr (a, c)) =
      all_known_blocks (known_here token_known resp) _ id u.0 u.1 c.preserved
  close_blocks (unknown_end id) (asks, u) (inl (asked, silent)) = cc
  close_blocks (unknown_end id) (asks, u) (inr (a, c)) =
      all_known_blocks (known_here token_known resp) _ id u.0 u.1 c.related

  -- `validate_squire_response` accepts exactly the questions without content, and the responses that
  -- ask nothing and: store something; have each § of their content begin a sigil; leave no span open;
  -- and name in their inline references, span references, preserved tokens and ends of relationships
  -- only tokens that they define or that the store knows.
  pub validate_squire_response_decides :
      (validate_squire_response token_known resp ≡ ok tt) ↔ IsCompliant token_known resp
  validate_squire_response_decides = elim (judged token_known resp) [
    | inl (good, p) ↦ (λ h. p, λ (c : IsCompliant token_known resp). good)
    | inr (f, bad, p) ↦
        (λ h. cc (bad, h), λ (c : IsCompliant token_known resp). absurd (close_blocks f p c))
  ]

  -- If `validate_squire_response` refuses a response, its reason is true of it: a reason that names a
  -- token is about one that stands in the place the reason says, and that the response does not define
  -- and the store does not know; one that names a span is about the span that was left open.
  pub validate_squire_response-IsFault :
      (f : ComplianceFailure)
      → validate_squire_response token_known resp ≡ err f
      → IsFault token_known resp f
  validate_squire_response-IsFault f h = elim (judged token_known resp) [
    | inl (good, p) ↦ cc (good, h)
    | inr (g, bad, p) ↦ subst (IsFault token_known resp) (err-injective (sym bad ∙ h)) p
  ]
