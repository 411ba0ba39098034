-- ===== src/Response/Headers.antt =====
-- normalize_section_headers of src-tauri/src/agent/squire/types.rs.
use agent_squire.Base.{
  String, Bool, not, ◌&&◌, ◌||◌, ◌==◌, Option, none, some, List, if◌then◌else◌, nat_eq, append,
}
use agent_squire.Slug.Chars.{trim, trim_end, is_whitespace}
use agent_squire.Response.Lines.{lines, write_lines, strip_prefix, begins, holds}

-- `Option::or_else`.
abbrev pub or_else : Option String → Option String → Option String
or_else none o = o
or_else (some s) o = some s

-- A line that Markdown marks as a header.
unfoldable pub markdown_header : String → Option String
markdown_header t =
    or_else (strip_prefix "### " t) (or_else (strip_prefix "## " t) (strip_prefix "# " t))

-- Case 1.
unfoldable pub marked_section : String → Option String
marked_section t = elim (markdown_header t) [
  | none ↦ none
  | some stripped ↦ if begins stripped "§#" then some stripped else none
]

-- Case 2: the line that replaces an instruction.
unfoldable pub step_header : String → String → Option String
step_header line t =
    if (begins t "### Step " || begins t "Step ") && not (holds t "§#")
    then some (
        if holds t "referential"
        then "§#new_tokens"
        else if holds t "relationship"
        then "§#relationships"
        else if holds t "preserve"
        then "§#preserve"
        else if holds t "concept"
        then "§#new_tokens"
        else line)
    else none

abbrev pub is_keyword : String → Bool
is_keyword t = t == "new_tokens" || (t == "relationships" || (t == "preserve" || t == "ask_user"))

-- Case 3, a section with colons behind it.
unfoldable pub colon_header : String → Option String
colon_header t = elim (strip_prefix "§#" t) [
  | none ↦ none
  | some rest ↦
      let name = trim (trim_end (λ c. nat_eq c b':') rest) in
      if is_keyword name then some (append "§#" name) else none
]

-- Case 4, a bare keyword.
unfoldable pub bare_header : String → Option String
bare_header t = if is_keyword t then some (append "§#" t) else none

-- Case 5, a title.
unfoldable pub title_header : String → Option String
title_header t =
    if t == "### Preserve"
    then some "§#preserve"
    else if t == "### Relationships"
    then some "§#relationships"
    else if t == "### New Tokens" || t == "### New tokens"
    then some "§#new_tokens"
    else none

-- The cases in order; a line that none applies to stays.
unfoldable pub normalize_line : String → String
normalize_line line =
    let t = trim line in
    elim (or_else (marked_section t) (
      or_else (step_header line t)
        (or_else (colon_header t) (or_else (bare_header t) (title_header t))))) [
          | none ↦ line
          | some header ↦ header
        ]

unfoldable pub normalize_lines : List String → List String
normalize_lines List.[] = List.[]
normalize_lines (List.◌∷◌ line more) = List.◌∷◌ (normalize_line line) (normalize_lines more)

unfoldable pub normalize_section_headers : String → String
normalize_section_headers text = trim_end is_whitespace (write_lines (normalize_lines (lines text)))
