-- ===== src/Stream.antt =====
-- The texts that the engine streams: strip_protocol_markers and split_into_chunks of
-- src-tauri/src/engine/squire.rs.
pub mod Joined
use Prim.Native.String.{[], ◌∷◌, len}
use text.Mathlib.Text.{get?}
use agent_squire.Base.{
  ℕ, zero, suc, ◌+◌, String, Char, code, Bool, true, false, ◌||◌, ◌==◌, Option, none, some, List,
  if◌then◌else◌, nat_eq, ltb, leb,
}
use agent_squire.Tool.{Result, ok, err}
use agent_squire.Protocol.{is_sign}
use agent_squire.Protocol.Bookmarks.{at_marker}

-- What the loop of `strip_protocol_markers` is in: the text, an identifier behind §!, a span behind §^, and
-- the marker of either, of which the second character is still to be read.
pub data Mode : Type 0 where
  plain : Mode
  in_ref : Mode
  in_span : Mode
  enter_ref : Mode
  enter_span : Mode
  leave_span : Mode

abbrev pub starts_with_char : ℕ → String → Bool
starts_with_char at [] = false
starts_with_char at (c ∷ s) = nat_eq (code c) at

-- `is_alphanumeric` is that of `char`, a property of Unicode.
module _ (is_alphanumeric : ℕ → Bool) where
  abbrev pub is_ref_char : Char → Bool
  is_ref_char c = is_alphanumeric (code c) || (nat_eq (code c) b'_' || nat_eq (code c) b'-')

  -- A character of the text itself, or behind an identifier.
  abbrev pub text_mode : Char → String → Mode
  text_mode c s =
      if is_sign c
      then if starts_with_char b'!' s
        then enter_ref
        else if starts_with_char b'^' s
        then enter_span
        else plain
      else plain

  abbrev pub is_shown : Mode → Bool
  is_shown plain = true
  is_shown in_ref = false
  is_shown in_span = false
  is_shown enter_ref = false
  is_shown enter_span = false
  is_shown leave_span = false

  unfoldable pub strip_from : Mode → String → String
  strip_from mode [] = []
  strip_from plain (c ∷ s) =
      let rest = strip_from (text_mode c s) s in if is_shown (text_mode c s) then c ∷ rest else rest
  strip_from enter_ref (c ∷ s) = strip_from in_ref s
  strip_from in_ref (c ∷ s) = elim (is_ref_char c) [
    | true ↦ strip_from in_ref s
    | false ↦
        let rest = strip_from (text_mode c s) s in
        if is_shown (text_mode c s) then c ∷ rest else rest
  ]
  strip_from enter_span (c ∷ s) = strip_from in_span s
  strip_from in_span (c ∷ s) = elim (at_marker (c ∷ s)) [
    | true ↦ strip_from leave_span s
    | false ↦ strip_from in_span s
  ]
  strip_from leave_span (c ∷ s) = strip_from plain s

  unfoldable pub strip_protocol_markers : String → String
  strip_protocol_markers text = strip_from plain text

-- The loop back to a line feed, from `newline_pos`, with the number of steps down to `start`.
unfoldable pub newline_before : String → (start steps : ℕ) → Option ℕ
newline_before text start zero = none
newline_before text start (suc steps) =
    let rest = newline_before text start steps in
    elim (get? text (start + suc steps) (suc (start + suc steps))) [
      | none ↦ rest
      | some c ↦ if c == "\n" then some (start + suc steps) else rest
    ]

pub data Stop : Type 0 where
  out_of_fuel : Stop
  panics : Stop

unfoldable pub split_at : String → (start max_len : ℕ) → ℕ
split_at text start max_len =
    if ltb (start + max_len) (len text)
    then elim (newline_before text start max_len) [
      | none ↦ start + max_len
      | some newline_pos ↦ suc newline_pos
    ]
    else len text

-- The loop of `split_into_chunks`. A slice that cuts a character panics.
unfoldable pub chunks_from : ℕ → String → (start max_len : ℕ) → Result Stop (List String)
chunks_from zero text start max_len = err out_of_fuel
chunks_from (suc fuel) text start max_len =
    let rest = chunks_from fuel text (split_at text start max_len) max_len in
    if ltb start (len text)
    then elim (get? text start (split_at text start max_len)) [
      | none ↦ err panics
      | some chunk ↦ elim rest [ err e ↦ err e | ok chunks ↦ ok (List.◌∷◌ chunk chunks) ]
    ]
    else ok List.[]

unfoldable pub split_into_chunks : ℕ → String → ℕ → Result Stop (List String)
split_into_chunks fuel text max_len =
    if leb (len text) max_len then ok (List.◌∷◌ text List.[]) else chunks_from fuel text 0 max_len
