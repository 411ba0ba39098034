-- ===== src/Protocol/Ranges/Trim.antt =====
-- What `trim` does to a text with a line feed at its end, and to one without white space.
use Prim.Native.String.{[], ◌∷◌}
use text.Mathlib.TextLemmas.{nil-append, cons-append}
use agent_squire.Base.{
  ◌≡◌, refl, sym, ◌∙◌, ap, inl, inr, String, Char, code, Bool, true, false, not, ◌&&◌,
  if◌then◌else◌, Bool-cases, append, arith,
}
use agent_squire.Slug.Chars.{trim, trim_by, trim_start, trim_end, is_whitespace}

-- `trim_end` at a character, from what it leaves of the text behind.
unfoldable pub keep : Char → String → String
keep c [] = if is_whitespace (code c) then [] else c ∷ []
keep c (d ∷ r) = c ∷ d ∷ r

-- A line feed at the end is trimmed away.
trim_end-newline : (s : String) → trim_end is_whitespace (append s "\n") ≡ trim_end is_whitespace s
unfolding trim_end is_whitespace keep
trim_end-newline [] = refl
trim_end-newline (c ∷ s) =
    ap (trim_end is_whitespace) (cons-append c s "\n") ∙ ap (keep c) (trim_end-newline s)

module _ (c : Char) (s : String) where
  pub trim_white : is_whitespace (code c) ≡ true → trim (c ∷ s) ≡ trim s
  unfolding trim trim_by trim_start
  trim_white h = rw (trim_start, h) refl

  pub trim_black : is_whitespace (code c) ≡ false → trim (c ∷ s) ≡ trim_end is_whitespace (c ∷ s)
  unfolding trim trim_by trim_start
  trim_black h = rw (trim_start, h) refl

pub trim-newline : (s : String) → trim (append s "\n") ≡ trim s
unfolding trim trim_by trim_start trim_end is_whitespace
trim-newline [] = refl
trim-newline (c ∷ s) = ap trim (cons-append c s "\n") ∙ elim (Bool-cases (is_whitespace (code c))) [
  | inl white ↦ trim_white c (append s "\n") white ∙ trim-newline s ∙ sym (trim_white c s white)
  | inr black ↦
      trim_black c (append s "\n") black
      ∙ ap (trim_end is_whitespace) (sym (cons-append c s "\n"))
      ∙ trim_end-newline (c ∷ s)
      ∙ sym (trim_black c s black)
]

unfoldable pub no_space : String → Bool
no_space [] = true
no_space (c ∷ s) = not (is_whitespace (code c)) && no_space s

keep_plain : (c : Char) (s : String) → is_whitespace (code c) ≡ false → keep c s ≡ c ∷ s
unfolding keep
keep_plain c [] h = rw h refl
keep_plain c (d ∷ s) h = refl

pub trim_end_plain : (s : String) → no_space s ≡ true → trim_end is_whitespace s ≡ s
unfolding trim_end no_space keep
trim_end_plain [] h = refl
trim_end_plain (c ∷ s) h =
    let black : is_whitespace (code c) ≡ false = ground arith in
    ap (keep c) (trim_end_plain s (ground arith)) ∙ keep_plain c s black

pub trim_plain : (s : String) → no_space s ≡ true → trim s ≡ s
unfolding trim trim_by trim_start no_space
trim_plain [] h = refl
trim_plain (c ∷ s) h =
    let black : is_whitespace (code c) ≡ false = ground arith in
    trim_black c s black ∙ trim_end_plain (c ∷ s) h

pub no_space-append :
    (a b : String) → no_space a ≡ true → no_space b ≡ true → no_space (append a b) ≡ true
unfolding no_space
no_space-append [] b h g = rw (nil-append b) g
no_space-append (c ∷ a) b h g = rw (cons-append c a b) (ground (arith, no_space-append a b))
