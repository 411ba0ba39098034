-- ===== src/Slug/Defs.antt =====
-- `slugify`, and the search for an identifier that no token has.
use Prim.Native.String.{[], ◌∷◌}
use agent_squire.Base.{
  ℕ, zero, suc, ◌+◌, String, Char, code, Bool, ◌||◌, Option, none, some, if◌then◌else◌, nat_eq,
  append, length, ◌≡◌, refl,
}
use agent_squire.Store.Ops.{SquireState, token_exists}
use agent_squire.Slug.Chars.{is_ascii_alphanumeric, is_ascii_whitespace, trim_by}
use agent_squire.Slug.Decimal.{decimal}

-- The characters that `slugify` keeps.
abbrev pub is_slug_char : ℕ → Bool
is_slug_char c = is_ascii_alphanumeric c || (nat_eq c b'-' || nat_eq c b'_')

-- The body of the loop over the title: `slug` is what the later characters give.
unfoldable pub push_slug : Char → String → String
push_slug c slug =
    if is_slug_char (code c)
    then c ∷ slug
    else if is_ascii_whitespace (code c) || nat_eq (code c) b'-'
    then "_" ∷ slug
    else slug

unfoldable pub slug_chars : String → String
slug_chars [] = []
slug_chars (c ∷ s) = push_slug c (slug_chars s)

abbrev pub is_underscore : ℕ → Bool
is_underscore c = nat_eq c b'_'

unfoldable pub or_untitled : String → String
or_untitled [] = "untitled"
or_untitled (c ∷ s) = c ∷ s

-- `slugify` of todo_tree.rs.
unfoldable pub slugify : String → String
unfolding slug_chars push_slug trim_by or_untitled
slugify title = or_untitled (trim_by is_underscore (slug_chars title))

-- `slugify` of decision_tree.rs, a second copy of the same text.
unfoldable pub dt_slugify : String → String
unfolding slug_chars push_slug trim_by or_untitled
dt_slugify title = or_untitled (trim_by is_underscore (slug_chars title))

-- `{base}-{i}`.
abbrev pub candidate : String → ℕ → String
candidate base i = append base (append "-" (decimal i))

-- The loop over i = 2, 3, … of the three functions below.
unfoldable pub fresh_loop : ℕ → SquireState → String → ℕ → Option String
fresh_loop zero s base i = none
fresh_loop (suc fuel) s base i =
    let more = fresh_loop fuel s base (i + 1) in
    if token_exists s (candidate base i) then more else some (candidate base i)

-- One round for each token and one more are enough: see `Fresh`.
abbrev pub fresh_id : SquireState → String → Option String
fresh_id s base =
    if token_exists s base then fresh_loop (suc (length s.tokens)) s base 2 else some base

unfoldable pub todo_slug : String → SquireState → Option String
todo_slug title s = fresh_id s (append "TODO_" (slugify title))

unfoldable pub dt_slug : String → SquireState → Option String
dt_slug title s = fresh_id s (append "CONCEPT_DT_" (dt_slugify title))

unfoldable pub assumption_slug : String → SquireState → Option String
assumption_slug title s = fresh_id s (append "CONCEPT_Assumption_" (dt_slugify title))

slugify_test : slugify " _Fix the: bug-1 _" ≡ "Fix_the_bug-1"
unfolding slugify
slugify_test = refl
