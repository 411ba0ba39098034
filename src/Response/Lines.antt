-- ===== src/Response/Lines.antt =====
-- The methods of `str` that the parsers of src-tauri/src/agent/squire/types.rs use, as the standard
-- library documents them.
use Prim.Native.String.{[], ◌∷◌}
use agent_squire.Base.{
  ℕ, suc, String, Char, code, Bool, false, Option, none, some, List, if◌then◌else◌, nat_eq, is_some,
  append,
}
use agent_squire.Slug.Chars.{is_whitespace}
use agent_squire.Protocol.{Parts}

abbrev pub starts_at : ℕ → String → Bool
starts_at at [] = false
starts_at at (c ∷ s) = nat_eq (code c) at

-- A character in front of the first line.
abbrev pub push_first : Char → List String → List String
push_first c List.[] = List.◌∷◌ (c ∷ []) List.[]
push_first c (List.◌∷◌ l ls) = List.◌∷◌ (c ∷ l) ls

-- `lines`: a line ends with a line feed, or with a carriage return and a line feed, or with the text.
unfoldable pub lines : String → List String
lines [] = List.[]
lines (c ∷ s) =
    let rest = lines s in
    if nat_eq (code c) 0xa
    then List.◌∷◌ [] rest
    else if nat_eq (code c) 0xd
    then if starts_at 0xa s then rest else push_first c rest
    else push_first c rest

-- `join("\n")`.
unfoldable pub join_lines : List String → String
join_lines List.[] = []
join_lines (List.◌∷◌ s List.[]) = s
join_lines (List.◌∷◌ s (List.◌∷◌ t rest)) = append s ("\n" ∷ join_lines (List.◌∷◌ t rest))

-- Each line with a line feed behind it, as `push_str(line)` and `push('\n')` in a loop write them.
unfoldable pub write_lines : List String → String
write_lines List.[] = []
write_lines (List.◌∷◌ s rest) = append s ("\n" ∷ write_lines rest)

-- `matches(c).count()`.
unfoldable pub count_char : ℕ → String → ℕ
count_char at [] = 0
count_char at (c ∷ s) = let rest = count_char at s in if nat_eq (code c) at then suc rest else rest

-- `split(c)`.
unfoldable pub split_on : ℕ → String → Parts
split_on at [] = ([], List.[])
split_on at (c ∷ s) =
    let (first, others) = split_on at s in
    if nat_eq (code c) at then ([], List.◌∷◌ first others) else (c ∷ first, others)

-- `strip_prefix`.
unfoldable pub strip_prefix : String → String → Option String
strip_prefix [] s = some s
strip_prefix (d ∷ prefix) [] = none
strip_prefix (d ∷ prefix) (c ∷ s) =
    let rest = strip_prefix prefix s in if nat_eq (code d) (code c) then rest else none

abbrev pub begins : String → String → Bool
begins s prefix = is_some (strip_prefix prefix s)

-- `find(sep)`, as the texts before and behind it.
unfoldable pub split_text : String → String → Option (String × String)
split_text sep [] = elim (strip_prefix sep []) [ none ↦ none | some rest ↦ some ([], rest) ]
split_text sep (c ∷ s) = elim (strip_prefix sep (c ∷ s)) [
  | some rest ↦ some ([], rest)
  | none ↦ elim (split_text sep s) [ none ↦ none | some (left, right) ↦ some (c ∷ left, right) ]
]

-- `contains`.
abbrev pub holds : String → String → Bool
holds s sep = is_some (split_text sep s)

-- The white space that a text begins with.
unfoldable pub take_white : String → String
take_white [] = []
take_white (c ∷ s) = let rest = take_white s in if is_whitespace (code c) then c ∷ rest else []
