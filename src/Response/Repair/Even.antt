-- ===== src/Response/Repair/Even.antt =====
-- The markers of what fix_unclosed_spans returns.
use Prim.Native.String.{[], ◌∷◌}
use text.Mathlib.TextEquality.{Char-path}
use text.Mathlib.TextLemmas.{nil-append, cons-append}
use agent_squire.Base.{
  suc, ◌+◌, ◌%◌, ◌≡◌, ◌≢◌, ◌⊎◌, refl, sym, ◌∙◌, ap, inl, inr, String, Char, code, true, false, none,
  some, if◌then◌else◌, nat_eq, Bool-cases, Option-cases, append, arith,
}
use agent_squire.Slug.Chars.{trim, trim_end, is_whitespace}
use agent_squire.Protocol.{is_sign, is_empty_text, skip}
use agent_squire.Protocol.Bookmarks.{at_marker}
use agent_squire.Protocol.Ranges.Trim.{keep}
use agent_squire.Response.Repair.{count_markers, split_last, fix_unclosed_spans}

count_cons :
    (c : Char) (s : String)
    → count_markers (c ∷ s) ≡ (if at_marker (c ∷ s) then suc (count_markers s) else count_markers s)
unfolding count_markers
count_cons c s = refl

count_nil : count_markers [] ≡ 0
unfolding count_markers
count_nil = refl

-- Whether a marker begins at a character is seen from the two characters.
marker_front : (c : Char) (a t : String) → at_marker (c ∷ append a ("§" ∷ t)) ≡ at_marker (c ∷ a)
unfolding at_marker
marker_front c [] t = rw (nil-append ("§" ∷ t)) (ground arith)
marker_front c (d ∷ a) t = rw (cons-append d a ("§" ∷ t)) refl

no_marker : (c : Char) (r : String) → is_sign c ≡ false → at_marker (c ∷ r) ≡ false
unfolding at_marker
no_marker c [] h = refl
no_marker c (d ∷ r) h = rw h refl

count_plain : (c : Char) (r : String) → is_sign c ≡ false → count_markers (c ∷ r) ≡ count_markers r
count_plain c r h = count_cons c r ∙ rw (no_marker c r h) refl

count_marker : (r : String) → count_markers ("§" ∷ "^" ∷ r) ≡ suc (count_markers r)
unfolding at_marker
count_marker r = count_cons "§" ("^" ∷ r) ∙ ap suc (count_plain "^" r refl)

count-append :
    (a r : String)
    → count_markers (append a ("§" ∷ "^" ∷ r)) ≡ count_markers a + suc (count_markers r)
count-append [] r =
    ap count_markers (nil-append ("§" ∷ "^" ∷ r)) ∙ count_marker r ∙ omega (arith, count_nil)
count-append (c ∷ a) r =
    ap count_markers (cons-append c a ("§" ∷ "^" ∷ r))
    ∙ count_cons c (append a ("§" ∷ "^" ∷ r))
    ∙ rw (marker_front c a ("^" ∷ r), count-append a r) (ground (arith, count_cons c a))

-- `split_last` cuts at the last marker.
split_last-none : (s : String) → split_last s ≡ none → count_markers s ≡ 0
unfolding split_last
split_last-none [] h = count_nil
split_last-none (c ∷ s) h = elim (Option-cases (split_last s)) [
  | inr (p, e) ↦ cc (rw (split_last, e) at h)
  | inl e ↦ elim (Bool-cases (at_marker (c ∷ s))) [
    | inl here ↦ cc (rw (split_last, e, here) at h)
    | inr not_here ↦ count_cons c s ∙ rw not_here (split_last-none s e)
  ]
]

marker_text : (c : Char) (s : String) → at_marker (c ∷ s) ≡ true → (c ∷ s ≡ "§" ∷ "^" ∷ skip 1 s)
unfolding at_marker skip
marker_text c [] h = cc h
marker_text c (d ∷ s) h =
    let first : c ≡ "§" = Char-path c "§" (ground arith) in
    let second : d ≡ "^" = Char-path d "^" (ground arith) in rw (first, second) refl

marker_tail : (c : Char) (s : String) → at_marker (c ∷ s) ≡ true → s ≡ "^" ∷ skip 1 s
unfolding at_marker skip
marker_tail c [] h = cc h
marker_tail c (d ∷ s) h = let second : d ≡ "^" = Char-path d "^" (ground arith) in rw second refl

split_last-some :
    (s left right : String)
    → split_last s ≡ some (left, right)
    → (s ≡ append left ("§" ∷ "^" ∷ right)) × (count_markers right ≡ 0)
unfolding split_last
split_last-some [] left right h = cc h
split_last-some (c ∷ s) left right h = elim (Option-cases (split_last s)) [
  | inr ((l, r), e) ↦
      let same : some (c ∷ l, r) ≡ some (left, right) = rw (split_last, e) at h in
      let (parts, none_behind) = split_last-some s l r e in
      let at_left : c ∷ l ≡ left = cc same in
      let at_right : r ≡ right = cc same in
      (
        ap (λ (u : String). c ∷ u) parts
            ∙ sym (cons-append c l ("§" ∷ "^" ∷ r))
            ∙ ap (λ (u : String). append u ("§" ∷ "^" ∷ r)) at_left
            ∙ ap (λ (u : String). append left ("§" ∷ "^" ∷ u)) at_right,
        ap count_markers (sym at_right) ∙ none_behind,
      )
  | inl e ↦ elim (Bool-cases (at_marker (c ∷ s))) [
    | inr not_here ↦ cc (rw (split_last, e, not_here) at h)
    | inl here ↦
        let same : some ([], skip 1 s) ≡ some (left, right) = rw (split_last, e, here) at h in
        let at_left : [] ≡ left = cc same in
        let at_right : skip 1 s ≡ right = cc same in
        (
          marker_text c s here
              ∙ ap (λ (u : String). "§" ∷ "^" ∷ u) at_right
              ∙ sym (nil-append ("§" ∷ "^" ∷ right))
              ∙ ap (λ (u : String). append u ("§" ∷ "^" ∷ right)) at_left,
          ap count_markers (sym at_right)
              ∙ sym (count_plain "^" (skip 1 s) refl)
              ∙ ap count_markers (sym (marker_tail c s here))
              ∙ split_last-none s e,
        )
  ]
]

-- White space at the end holds no marker.
white_plain : (c : Char) → is_whitespace (code c) ≡ true → is_sign c ≡ false
unfolding is_whitespace
white_plain c h = ground arith

white_second :
    (c d : Char) (r : String) → is_whitespace (code d) ≡ true → at_marker (c ∷ d ∷ r) ≡ false
unfolding at_marker is_whitespace
white_second c d r h = ground arith

-- What `keep` leaves begins a marker where the text does.
keep_front : (c d : Char) (s r : String) → at_marker (c ∷ keep d r) ≡ at_marker (c ∷ d ∷ s)
unfolding keep at_marker is_whitespace
keep_front c d s [] = elim (Bool-cases (is_whitespace (code d))) [
  | inl white ↦ rw white (sym (white_second c d s white))
  | inr black ↦ rw black refl
]
keep_front c d s (e ∷ r) = refl

-- Trimming keeps what begins at a character.
trim_front : (c : Char) (s : String) → at_marker (c ∷ trim_end is_whitespace s) ≡ at_marker (c ∷ s)
unfolding trim_end keep
trim_front c [] = refl
trim_front c (d ∷ s) = keep_front c d s (trim_end is_whitespace s)

count-keep : (c : Char) (r : String) → count_markers (keep c r) ≡ count_markers (c ∷ r)
unfolding keep
count-keep c [] = elim (Bool-cases (is_whitespace (code c))) [
  | inl white ↦ rw white (sym (count_plain c [] (white_plain c white)))
  | inr black ↦ rw black refl
]
count-keep c (d ∷ r) = refl

count-trim_end : (s : String) → count_markers (trim_end is_whitespace s) ≡ count_markers s
unfolding trim_end keep
count-trim_end [] = refl
count-trim_end (c ∷ s) =
    count-keep c (trim_end is_whitespace s)
    ∙ count_cons c (trim_end is_whitespace s)
    ∙ rw (trim_front c s, count-trim_end s) (sym (count_cons c s))

-- `fix_unclosed_spans` returns a text in which the number of §^ markers is even, and returns a text
-- in which it is even as it is.
pub fix_unclosed_spans_even :
    (s : String)
    → (count_markers (fix_unclosed_spans s) % 2 ≡ 0)
      × ((count_markers s % 2 ≢ 0) ⊎ (fix_unclosed_spans s ≡ s))
unfolding fix_unclosed_spans
fix_unclosed_spans_even s = elim (Bool-cases (nat_eq (count_markers s % 2) 0)) [
  | inl even ↦
      (rw (fix_unclosed_spans, even) (ground arith), inr (rw (fix_unclosed_spans, even) refl))
  | inr odd ↦ elim (Option-cases (split_last s)) [
    | inl e ↦ absurd (ground (arith, split_last-none s e))
    | inr ((left, right), e) ↦
        let (parts, behind) = split_last-some s left right e in
        let total : count_markers s ≡ count_markers left + suc (count_markers right) =
          ap count_markers parts ∙ count-append left right in
        (
          elim (Bool-cases (is_empty_text (trim right))) [
            | inl bare ↦
                rw (fix_unclosed_spans, odd, e, bare)
                  (ap (λ n. n % 2) (count-trim_end left) ∙ ground (arith, total, behind))
            | inr body ↦
                rw (fix_unclosed_spans, odd, e, body)
                  (ap (λ n. n % 2) (count-append s []) ∙ ground (arith, count_nil))
          ],
          inl (λ h. ground arith),
        )
  ]
]
