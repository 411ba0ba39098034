-- ===== src/Response/Repair/Solid.antt =====
-- What trim and lines do to texts that neither begin nor end with white space.
use Prim.Native.Nat.{Ordering, compare}
use Prim.Native.String as Text
use Prim.Native.String.{[], ◌∷◌}
use text.Mathlib.Text.{is_eq}
use text.Mathlib.TextLemmas.{nil-append, cons-append}
use agent_squire.Base.{
  ℕ, ◌≡◌, ◌||◌, refl, sym, ◌∙◌, ap, String, Char, code, Bool, true, false, not, ◌&&◌, ◌==◌, none,
  List, nat_eq, append, arith,
}
use agent_squire.Slug.Chars.{trim, trim_start, trim_end, is_whitespace}
use agent_squire.Protocol.{is_empty_text}
use agent_squire.Protocol.Ranges.Trim.{keep, trim_black}
use agent_squire.Protocol.Ranges.Written.{without}
use agent_squire.Response.Lines.{lines, strip_prefix, take_white}
use agent_squire.Response.Parse.{
  Section, new_tokens, relationships, preserve, ask_user, section_keys, header_of, is_header,
  is_pattern,
}

-- The text begins with a character that is no white space and no mark of a header.
unfoldable pub begins_plain : String → Bool
begins_plain [] = false
begins_plain (c ∷ s) =
    not (is_whitespace (code c)) && (not (nat_eq (code c) b'#') && not (nat_eq (code c) 0xa7))

pub begins_plain-append : (s t : String) → begins_plain s ≡ true → begins_plain (append s t) ≡ true
unfolding begins_plain
begins_plain-append [] t h = cc
begins_plain-append (c ∷ s) t h = ap begins_plain (cons-append c s t) ∙ h

-- The text is not empty and does not end with white space.
abbrev pub Ends : String → Type 0
Ends s = (trim_end is_whitespace s ≡ s) × (is_empty_text s ≡ false)

keep_filled : (c : Char) (s : String) → is_empty_text s ≡ false → keep c s ≡ c ∷ s
unfolding keep
keep_filled c [] h = cc
keep_filled c (d ∷ s) h = refl

empty-append : (s t : String) → is_empty_text t ≡ false → is_empty_text (append s t) ≡ false
empty-append [] t h = ap is_empty_text (nil-append t) ∙ h
empty-append (c ∷ s) t h = ap is_empty_text (cons-append c s t)

-- What is trimmed at the end is trimmed from the last of several texts, unless that is blank.
pub trim_end-cons :
    (c : Char) (s u : String)
    → trim_end is_whitespace s ≡ u
    → is_empty_text u ≡ false
    → trim_end is_whitespace (c ∷ s) ≡ c ∷ u
unfolding trim_end is_whitespace keep
trim_end-cons c s u h filled = ap (keep c) h ∙ keep_filled c u filled

pub trim_end-append :
    (s t u : String)
    → trim_end is_whitespace t ≡ u
    → is_empty_text u ≡ false
    → trim_end is_whitespace (append s t) ≡ append s u
trim_end-append [] t u h filled =
    ap (trim_end is_whitespace) (nil-append t) ∙ h ∙ sym (nil-append u)
trim_end-append (c ∷ s) t u h filled =
    ap (trim_end is_whitespace) (cons-append c s t)
    ∙ trim_end-cons c (append s t) (append s u) (trim_end-append s t u h filled)
        (empty-append s u filled)
    ∙ sym (cons-append c s u)

pub Ends-append : (s t : String) → Ends t → Ends (append s t)
Ends-append s t (h, filled) = (trim_end-append s t t h filled, empty-append s t filled)

pub Ends-cons : (c : Char) (t : String) → Ends t → Ends (c ∷ t)
Ends-cons c t (h, filled) = (trim_end-cons c t t h filled, refl)

-- White space behind a text is trimmed away.
pub trim_end-white :
    (w : Char) (s : String)
    → is_whitespace (code w) ≡ true
    → trim_end is_whitespace (append s (w ∷ [])) ≡ trim_end is_whitespace s
unfolding trim_end keep
trim_end-white w [] h = ap (trim_end is_whitespace) (nil-append (w ∷ [])) ∙ rw (trim_end, h) refl
trim_end-white w (c ∷ s) h =
    ap (trim_end is_whitespace) (cons-append c s (w ∷ [])) ∙ ap (keep c) (trim_end-white w s h)

pub trim_solid : (s : String) → begins_plain s ≡ true → trim s ≡ trim_end is_whitespace s
unfolding begins_plain
trim_solid [] h = cc
trim_solid (c ∷ s) h = trim_black c s (ground arith)

pub trim_start-plain : (s : String) → begins_plain s ≡ true → trim_start is_whitespace s ≡ s
unfolding begins_plain trim_start
trim_start-plain [] h = refl
trim_start-plain (c ∷ s) h =
    let black : is_whitespace (code c) ≡ false = ground arith in rw (trim_start, black) refl

pub take_white-plain : (s : String) → begins_plain s ≡ true → take_white s ≡ []
unfolding begins_plain take_white
take_white-plain [] h = refl
take_white-plain (c ∷ s) h =
    let black : is_whitespace (code c) ≡ false = ground arith in rw (take_white, black) refl

pub lines-line :
    (l t : String)
    → without 0xa l ≡ true
    → without 0xd l ≡ true
    → lines (append l ("\n" ∷ t)) ≡ List.◌∷◌ l (lines t)
unfolding lines without
lines-line [] t h g = ap lines (nil-append ("\n" ∷ t))
lines-line (c ∷ l) t h g =
    let feed : nat_eq (code c) 0xa ≡ false = ground arith in
    let return : nat_eq (code c) 0xd ≡ false = ground arith in
    let rest = lines-line l t (ground arith) (ground arith) in
    ap lines (cons-append c l ("\n" ∷ t)) ∙ rw (lines, feed, return, rest) refl

pub lines-last :
    (l : String)
    → is_empty_text l ≡ false
    → without 0xa l ≡ true
    → without 0xd l ≡ true
    → lines l ≡ List.◌∷◌ l List.[]
unfolding lines without
lines-last [] e h g = cc
lines-last (c ∷ []) e h g =
    let feed : nat_eq (code c) 0xa ≡ false = ground arith in
    let return : nat_eq (code c) 0xd ≡ false = ground arith in rw (lines, feed, return) refl
lines-last (c ∷ d ∷ l) e h g =
    let feed : nat_eq (code c) 0xa ≡ false = ground arith in
    let return : nat_eq (code c) 0xd ≡ false = ground arith in
    let rest = lines-last (d ∷ l) refl (ground arith) (ground arith) in
    ap (λ ls. lines (c ∷ d ∷ l)) rest ∙ rw (lines, feed, return, rest) refl

-- Texts that begin with different characters are different.
eq_head :
    (c d : Char) (s t : String) → nat_eq (code c) (code d) ≡ false → ((c ∷ s) == (d ∷ t)) ≡ false
eq_head c d s t h = ap is_eq (Text.compare.cons-cons c d s t) ∙ apart _ _ _ h
  where
    apart :
        (m n : ℕ) (p : Ordering) → nat_eq m n ≡ false → is_eq (Text.then (compare m n) p) ≡ false
    apart m n p e =
        elim (compare m n) as (λ o. compare m n ≡ o → is_eq (Text.then o p) ≡ false) [
          | Ordering.lt ↦ λ at. refl
          | Ordering.eq ↦ λ at. absurd (ground arith)
          | Ordering.gt ↦ λ at. refl
        ]
          refl

other_pattern :
    (c d : Char) (s t : String)
    → nat_eq (code c) (code d) ≡ false
    → is_pattern (c ∷ s) (d ∷ t) ≡ false
unfolding strip_prefix
other_pattern c d s t h =
    let other : nat_eq (code d) (code c) ≡ false = ground arith in
    rw (eq_head c d s t h, strip_prefix, other) refl

no_pattern :
    {a b c d : Bool}
    → a ≡ false
    → b ≡ false
    → c ≡ false
    → d ≡ false
    → (a || (b || (c || d))) ≡ false
no_pattern h g k l = rw (h, g, k, l) refl

is_header-other :
    (c : Char) (s : String) (at : Section)
    → nat_eq (code c) b'#' ≡ false
    → nat_eq (code c) 0xa7 ≡ false
    → is_header (c ∷ s) at ≡ false
unfolding is_header
is_header-other c s new_tokens h g =
    no_pattern (other_pattern c "§" s "#new_tokens" g) (other_pattern c "§" s "#new_tokens:" g)
      (other_pattern c "#" s "new_tokens" h) (other_pattern c "#" s "new_tokens:" h)
is_header-other c s relationships h g =
    no_pattern (other_pattern c "§" s "#relationships" g)
      (other_pattern c "§" s "#relationships:" g) (other_pattern c "#" s "relationships" h)
      (other_pattern c "#" s "relationships:" h)
is_header-other c s preserve h g =
    no_pattern (other_pattern c "§" s "#preserve" g) (other_pattern c "§" s "#preserve:" g)
      (other_pattern c "#" s "preserve" h) (other_pattern c "#" s "preserve:" h)
is_header-other c s ask_user h g =
    no_pattern (other_pattern c "§" s "#ask_user" g) (other_pattern c "§" s "#ask_user:" g)
      (other_pattern c "#" s "ask_user" h) (other_pattern c "#" s "ask_user:" h)

pub header_of-plain : (s : String) → begins_plain s ≡ true → header_of section_keys s ≡ none
unfolding begins_plain header_of
header_of-plain [] h = cc
header_of-plain (c ∷ s) h =
    let hash : nat_eq (code c) b'#' ≡ false = ground arith in
    let sign : nat_eq (code c) 0xa7 ≡ false = ground arith in
    rw
      (
        header_of,
        is_header-other c s new_tokens hash sign,
        is_header-other c s relationships hash sign,
        is_header-other c s preserve hash sign,
        is_header-other c s ask_user hash sign,
      )
      refl
