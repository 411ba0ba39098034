-- ===== src/Protocol/Spans.antt =====
-- The span markers read back what a well-formed text is put together from.
use Prim.Native.String.{[], ◌∷◌}
use text.Mathlib.TextLemmas.{nil-append, cons-append, append-nil}
use agent_squire.Base.{
  ◌≡◌, refl, sym, ap, ◌∙◌, String, Bool, true, false, not, ◌&&◌, none, List, All, map, retain,
  append, arith,
}
use agent_squire.Slug.Chars.{trim}
use agent_squire.Protocol.{
  is_sign, is_empty_text, is_valid_token_id_char, take_token_id, skip, size, after_id, Parts,
  split_marker, spans_of, extract_spans, strip_parts, strip_span_markers, residual_parts, join,
  unmarked_residual,
}

-- A span, and the text behind it up to the next one.
pub record Span : Type 0 where
  pub id : String
  pub body : String
  pub gap : String

-- The text with its spans marked.
abbrev pub render : String → List Span → String
render first List.[] = first
render first (List.◌∷◌ s rest) =
    append first (append "§^" (append (append s.id s.body) (append "§^" (render s.gap rest))))

unfoldable pub no_sign : String → Bool
no_sign [] = true
no_sign (c ∷ s) = not (is_sign c) && no_sign s

unfoldable pub all_id_chars : String → Bool
all_id_chars [] = true
all_id_chars (c ∷ s) = is_valid_token_id_char c && all_id_chars s

-- The id is one, and ends where the body begins; there is no § in the body or behind the span.
pub record IsSpan (s : Span) : Type 0 where
  pub named : is_empty_text s.id ≡ false
  pub valid : all_id_chars s.id ≡ true
  pub apart : take_token_id s.body ≡ []
  pub body_plain : no_sign s.body ≡ true
  pub gap_plain : no_sign s.gap ≡ true

split-append :
    (a t : String)
    → no_sign a ≡ true
    → split_marker false (append a t)
      ≡ (append a (split_marker false t).0, (split_marker false t).1)
unfolding no_sign split_marker
split-append [] t h = rw (nil-append t, nil-append (split_marker false t).0) refl
split-append (c ∷ a) t h =
    let other : is_sign c ≡ false = ground arith in
    let rest = split-append a t (ground arith) in
    let step : split_marker false (c ∷ append a t)
        ≡ (c ∷ append a (split_marker false t).0, (split_marker false t).1) =
      rw (split_marker, other, rest) refl in
    ap (split_marker false) (cons-append c a t)
    ∙ step
    ∙ ap (λ (u : String). (u, (split_marker false t).1))
        (sym (cons-append c a (split_marker false t).0))

split_plain : (a : String) → no_sign a ≡ true → split_marker false a ≡ (a, List.[])
unfolding no_sign split_marker
split_plain [] h = refl
split_plain (c ∷ a) h =
    let other : is_sign c ≡ false = ground arith in
    let rest = split_plain a (ground arith) in rw (split_marker, other, rest) refl

marker-append : (t : String) → append "§^" t ≡ "§" ∷ ("^" ∷ t)
marker-append t =
    cons-append "§" "^" t
    ∙ ap (λ (u : String). "§" ∷ u)
        (cons-append "^" [] t ∙ ap (λ (u : String). "^" ∷ u) (nil-append t))

split_at_marker :
    (t : String)
    → split_marker false (append "§^" t)
      ≡ ([], List.◌∷◌ (split_marker false t).0 (split_marker false t).1)
unfolding split_marker
split_at_marker t = rw (marker-append t) refl

no_sign-append : (a t : String) → no_sign a ≡ true → no_sign t ≡ true → no_sign (append a t) ≡ true
unfolding no_sign
no_sign-append [] t h g = rw (nil-append t) g
no_sign-append (c ∷ a) t h g = rw (cons-append c a t) (ground (arith, no_sign-append a t))

no_sign_id : (a : String) → all_id_chars a ≡ true → no_sign a ≡ true
unfolding no_sign all_id_chars is_valid_token_id_char
no_sign_id [] h = refl
no_sign_id (c ∷ a) h = ground (arith, no_sign_id a)

take_id :
    (a t : String) → all_id_chars a ≡ true → take_token_id t ≡ [] → take_token_id (append a t) ≡ a
unfolding all_id_chars take_token_id
take_id [] t h g = rw (nil-append t) g
take_id (c ∷ a) t h g = rw (cons-append c a t) (ground (arith, take_id a t))

skip-size : (a t : String) → skip (size a) (append a t) ≡ t
unfolding skip size
skip-size [] t = nil-append t
skip-size (c ∷ a) t = rw (cons-append c a t) (skip-size a t)

after_take :
    (a t : String) → all_id_chars a ≡ true → take_token_id t ≡ [] → after_id (append a t) ≡ t
after_take a t h g = rw (take_id a t h g) (skip-size a t)

-- A piece up to a marker.
split_piece :
    (a t : String)
    → no_sign a ≡ true
    → split_marker false (append a (append "§^" t))
      ≡ (a, List.◌∷◌ (split_marker false t).0 (split_marker false t).1)
split_piece a t h =
    split-append a (append "§^" t) h
    ∙ ap (λ (q : Parts). (append a q.0, q.1)) (split_at_marker t)
    ∙ ap (λ (u : String). (u, List.◌∷◌ (split_marker false t).0 (split_marker false t).1))
        (append-nil a)

-- The parts that the markers of a text bound.
abbrev pieces : List Span → List String
pieces List.[] = List.[]
pieces (List.◌∷◌ s rest) = List.◌∷◌ (append s.id s.body) (List.◌∷◌ s.gap (pieces rest))

opening_plain : (s : Span) → IsSpan s → no_sign (append s.id s.body) ≡ true
opening_plain s i = no_sign-append s.id s.body (no_sign_id s.id i.valid) i.body_plain

split-render :
    (first : String) (ss : List Span)
    → no_sign first ≡ true
    → All IsSpan ss
    → split_marker false (render first ss) ≡ (first, pieces ss)
split-render first List.[] h all = split_plain first h
split-render first (List.◌∷◌ s rest) h (i, all) =
    split_piece first _ h
    ∙ ap (λ (q : Parts). (first, List.◌∷◌ q.0 q.1))
        (split_piece (append s.id s.body) (render s.gap rest) (opening_plain s i)
          ∙ ap (λ (q : Parts). (append s.id s.body, List.◌∷◌ q.0 q.1))
              (split-render s.gap rest i.gap_plain all))

module _ (opening next : String) (parts : List String) where
  module _ (h : is_empty_text (take_token_id opening) ≡ false) where
    spans_of_step : spans_of (List.◌∷◌ opening (List.◌∷◌ next parts)) ≡ (
      List.◌∷◌ (take_token_id opening, trim (after_id opening)) (spans_of parts).0,
      (spans_of parts).1,
    )
    unfolding spans_of
    spans_of_step = rw (spans_of, h) refl

    strip_step :
        strip_parts (List.◌∷◌ opening (List.◌∷◌ next parts))
        ≡ append (trim (after_id opening)) (append next (strip_parts parts))
    unfolding strip_parts
    strip_step = rw (strip_parts, h) refl

    residual_step :
        residual_parts (List.◌∷◌ opening (List.◌∷◌ next parts))
        ≡ List.◌∷◌ next (residual_parts parts)
    unfolding residual_parts
    residual_step = rw (residual_parts, h) refl

opening_named : (s : Span) → IsSpan s → is_empty_text (take_token_id (append s.id s.body)) ≡ false
opening_named s i = ap is_empty_text (take_id s.id s.body i.valid i.apart) ∙ i.named

spans_of-pieces :
    (ss : List Span)
    → All IsSpan ss
    → spans_of (pieces ss) ≡ (map (λ (s : Span). (s.id, trim s.body)) ss, none)
unfolding spans_of
spans_of-pieces List.[] all = refl
spans_of-pieces (List.◌∷◌ s rest) (i, all) =
    let id = take_id s.id s.body i.valid i.apart in
    let body = after_take s.id s.body i.valid i.apart in
    spans_of_step (append s.id s.body) s.gap (pieces rest) (opening_named s i)
    ∙ rw (body, id, spans_of-pieces rest all) refl

-- The text for display: the bodies, trimmed, between the plain texts.
abbrev pub shown : List Span → String
shown List.[] = []
shown (List.◌∷◌ s rest) = append (trim s.body) (append s.gap (shown rest))

strip-pieces : (ss : List Span) → All IsSpan ss → strip_parts (pieces ss) ≡ shown ss
unfolding strip_parts
strip-pieces List.[] all = refl
strip-pieces (List.◌∷◌ s rest) (i, all) =
    let id = take_id s.id s.body i.valid i.apart in
    let body = after_take s.id s.body i.valid i.apart in
    strip_step (append s.id s.body) s.gap (pieces rest) (opening_named s i)
    ∙ rw (body, strip-pieces rest all) refl

residual-pieces :
    (ss : List Span) → All IsSpan ss → residual_parts (pieces ss) ≡ map (λ (s : Span). s.gap) ss
unfolding residual_parts
residual-pieces List.[] all = refl
residual-pieces (List.◌∷◌ s rest) (i, all) =
    let id = take_id s.id s.body i.valid i.apart in
    residual_step (append s.id s.body) s.gap (pieces rest) (opening_named s i)
    ∙ rw (residual-pieces rest all) refl

-- On a text with marked spans, each with an id that ends where its body begins, and no § otherwise:
-- `extract_spans` returns the ids and the trimmed bodies in order, with no span left open;
-- `strip_span_markers` returns the plain texts with the trimmed bodies between them; and
-- `unmarked_residual` returns the plain texts alone, trimmed, without the blank ones.
pub spans-render :
    (first : String) (ss : List Span)
    → no_sign first ≡ true
    → All IsSpan ss
    → (extract_spans (render first ss) ≡ (map (λ (s : Span). (s.id, trim s.body)) ss, none))
      × (strip_span_markers (render first ss) ≡ append first (shown ss))
      × (unmarked_residual (render first ss)
          ≡ join (
              retain
                (λ t. not (is_empty_text t))
                (map trim (List.◌∷◌ first (map (λ (s : Span). s.gap) ss)))))
unfolding extract_spans strip_span_markers unmarked_residual
spans-render first ss h all = (
  rw (split-render first ss h all) (spans_of-pieces ss all),
  rw (split-render first ss h all) (ap (append first) (strip-pieces ss all)),
  rw (split-render first ss h all, residual-pieces ss all) refl,
)
