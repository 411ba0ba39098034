-- ===== src/Protocol/Bookmarks.antt =====
-- The bare bookmarks of a content, and the identifiers that its §^ markers name: extract_bare_bookmarks
-- and extract_span_refs of src-tauri/src/agent/squire/protocol.rs.
use Prim.Native.Nat.{Ordering}
use Prim.Native.String as Text
use Prim.Native.String.{[], ◌∷◌}
use agent_squire.Base.{
  ℕ, zero, suc, ◌+◌, String, code, Bool, true, false, ◌&&◌, ◌||◌, Option, none, some, List,
  if◌then◌else◌, nat_eq, map,
}
use agent_squire.Slug.Chars.{is_whitespace}
use agent_squire.Protocol.{is_sign, is_empty_text, skip, size, extract_spans}

-- The characters up to a white space or a §.
unfoldable pub take_name : String → String
take_name [] = []
take_name (c ∷ s) =
    let rest = take_name s in if is_whitespace (code c) || is_sign c then [] else c ∷ rest

unfoldable pub at_marker : String → Bool
at_marker [] = false
at_marker (c ∷ []) = false
at_marker (c ∷ d ∷ s) = is_sign c && nat_eq (code d) b'^'

-- `windows(2).position(|w| w == ['§', '^'])`.
unfoldable pub marker_position : String → Option ℕ
marker_position [] = none
marker_position (c ∷ s) = elim (at_marker (c ∷ s)) [
  | true ↦ some 0
  | false ↦ elim (marker_position s) [ none ↦ none | some n ↦ some (suc n) ]
]

-- What a round of the loop finds: `stay` goes on at the next character, the others that many behind.
pub data Round : Type 0 where
  stay : Round
  bookmark : String → ℕ → Round
  span : ℕ → Round

unfoldable pub bookmark_round : String → Round
bookmark_round s =
    let rest = skip 2 s in
    let name = take_name rest in
    let behind = skip (size name) rest in
    if at_marker s
    then (if is_empty_text name
        then stay
        else if at_marker behind
        then bookmark name (2 + size name + 2)
        else elim (marker_position behind) [
          | none ↦ stay
          | some close ↦ span (2 + size name + close + 2)
        ])
    else stay

abbrev pub before : ℕ → ℕ
before zero = zero
before (suc n) = n

-- The loop at the character `i`, after `passed` more characters.
unfoldable pub bookmarks_from : (passed i : ℕ) → String → List (String × ℕ)
bookmarks_from passed i [] = List.[]
bookmarks_from (suc passed) i (c ∷ s) = bookmarks_from passed (suc i) s
bookmarks_from zero i (c ∷ s) = elim (bookmark_round (c ∷ s)) [
  | stay ↦ bookmarks_from zero (suc i) s
  | bookmark name n ↦ List.◌∷◌ (name, i + n) (bookmarks_from (before n) (suc i) s)
  | span n ↦ bookmarks_from (before n) (suc i) s
]

unfoldable pub extract_bare_bookmarks : String → List (String × ℕ)
extract_bare_bookmarks content = bookmarks_from 0 0 content

-- `BTreeSet::insert`, on the set as its elements in order.
unfoldable pub insert_sorted : List String → String → List String
insert_sorted List.[] a = List.◌∷◌ a List.[]
insert_sorted (List.◌∷◌ x xs) a = elim (Text.compare a x) [
  | Ordering.lt ↦ List.◌∷◌ a (List.◌∷◌ x xs)
  | Ordering.eq ↦ List.◌∷◌ x xs
  | Ordering.gt ↦ List.◌∷◌ x (insert_sorted xs a)
]

-- `if !id.is_empty() { ids.insert(id) }`, for each.
unfoldable pub insert_named : List String → List String → List String
insert_named ids List.[] = ids
insert_named ids (List.◌∷◌ a more) =
    insert_named (if is_empty_text a then ids else insert_sorted ids a) more

abbrev pub opt_list : Option String → List String
opt_list none = List.[]
opt_list (some a) = List.◌∷◌ a List.[]

unfoldable pub extract_span_refs : String → List String
extract_span_refs content =
    let (spans, unclosed) = extract_spans content in
    let closed = insert_named List.[] (map (λ (p : String × String). p.0) spans) in
    let opened = insert_named closed (opt_list unclosed) in
    insert_named opened (map (λ (p : String × ℕ). p.0) (extract_bare_bookmarks content))
