-- ===== src/Response/Repair.antt =====
-- The passes that repair the output of a model before it is parsed, of
-- src-tauri/src/agent/squire/types.rs.
pub mod Even
pub mod Total
pub mod Solid
pub mod Fields
pub mod Cut
use Prim.Native.String.{[], ◌∷◌}
use agent_squire.Base.{
  ℕ, zero, suc, ◌+◌, ◌%◌, String, Bool, code, true, false, not, ◌&&◌, ◌||◌, ◌==◌, Option, none,
  some, List, if◌then◌else◌, nat_eq, ltb, leb, append, ◌++◌, length,
}
use agent_squire.Slug.Chars.{trim, trim_start, trim_end, is_whitespace}
use agent_squire.Protocol.{is_empty_text, skip}
use agent_squire.Protocol.Bookmarks.{at_marker}
use agent_squire.Response.Lines.{
  lines, write_lines, count_char, split_on, strip_prefix, begins, holds, take_white,
}
use agent_squire.Response.Parse.{fields}

-- `match_indices("§^").count()`.
unfoldable pub count_markers : String → ℕ
count_markers [] = 0
count_markers (c ∷ s) = let rest = count_markers s in if at_marker (c ∷ s) then suc rest else rest

-- `rfind("§^")`, as the texts before and behind the marker.
unfoldable pub split_last : String → Option (String × String)
split_last [] = none
split_last (c ∷ s) = elim (split_last s) [
  | some (left, right) ↦ some (c ∷ left, right)
  | none ↦ if at_marker (c ∷ s) then some ([], skip 1 s) else none
]

unfoldable pub fix_unclosed_spans : String → String
fix_unclosed_spans text =
    if nat_eq (count_markers text % 2) 0 then text else elim (split_last text) [
      | none ↦ text
      | some (left, right) ↦
          if is_empty_text (trim right) then trim_end is_whitespace left else append text "§^"
    ]

-- The texts up to the `n`-th | and behind it.
unfoldable pub after_pipe : ℕ → String → Option (String × String)
after_pipe zero s = some ([], s)
after_pipe (suc n) [] = none
after_pipe (suc n) (c ∷ s) = elim (after_pipe (if nat_eq (code c) b'|' then n else suc n) s) [
  | none ↦ none
  | some (left, right) ↦ some (c ∷ left, right)
]

abbrev pub push_filled : String → List String → List String
push_filled s ls = if is_empty_text s then ls else List.◌∷◌ s ls

-- The inner loop: the lines it cuts off, and what remains. `none` says that the fuel ran out.
unfoldable pub cut_lines : ℕ → String → Option (List String × String)
cut_lines zero remaining = none
cut_lines (suc fuel) remaining =
    if ltb 2 (count_char b'|' remaining)
    then elim (after_pipe 2 remaining) [
      | none ↦ some (List.[], remaining)
      | some (left, right) ↦ elim (cut_lines fuel (trim (trim_start is_whitespace right))) [
        | none ↦ none
        | some (cut, rest) ↦ some (push_filled (trim (append left (take_white right))) cut, rest)
      ]
    ]
    else some (List.[], remaining)

-- The lines that one line becomes.
unfoldable pub fix_line : ℕ → String → Option (List String)
fix_line fuel line =
    let t = trim line in
    if leb (count_char b'|' t) 2 then some (List.◌∷◌ line List.[]) else elim (cut_lines fuel t) [
      | none ↦ none
      | some (cut, rest) ↦
          let fixed =
            if not (is_empty_text rest) && leb (count_char b'|' rest) 2
            then cut ++ (List.◌∷◌ rest List.[])
            else cut in
          some (elim fixed [ List.[] ↦ List.◌∷◌ line List.[] | List.◌∷◌ l ls ↦ List.◌∷◌ l ls ])
    ]

unfoldable pub fix_lines : ℕ → List String → Option (List String)
fix_lines fuel List.[] = some List.[]
fix_lines fuel (List.◌∷◌ line more) =
    let rest = fix_lines fuel more in
    elim (fix_line fuel line) [
      | none ↦ none
      | some fixed ↦ elim rest [ none ↦ none | some out ↦ some (fixed ++ out) ]
    ]

unfoldable pub fix_concatenated_rel_lines : ℕ → String → Option String
fix_concatenated_rel_lines fuel text = elim (fix_lines fuel (lines text)) [
  | none ↦ none
  | some fixed ↦ some (trim_end is_whitespace (write_lines fixed))
]

-- `format!("{} | {}", …)` where the middle of three fields is blank.
unfoldable pub strip_line : String → String
strip_line line = elim (fields (trim line)) [
  | List.◌∷◌ a (List.◌∷◌ b (List.◌∷◌ c List.[])) ↦
      if is_empty_text (trim b) then append (trim a) (append " | " (trim c)) else line
  | _ ↦ line
]

unfoldable pub strip_lines : List String → List String
strip_lines List.[] = List.[]
strip_lines (List.◌∷◌ line more) = List.◌∷◌ (strip_line line) (strip_lines more)

unfoldable pub strip_empty_predicates : String → String
strip_empty_predicates text = trim_end is_whitespace (write_lines (strip_lines (lines text)))
