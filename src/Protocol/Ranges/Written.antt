-- ===== src/Protocol/Ranges/Written.antt =====
-- The written form of a range spec, and that it is read back.
use Prim.Native.String.{[], ◌∷◌}
use text.Mathlib.TextLemmas.{nil-append, cons-append}
use agent_squire.Base.{
  ℕ, ◌+◌, ◌-◌, ◌*◌, ◌^◌, ◌<◌, ◌≡◌, refl, sym, ◌∙◌, ap, String, Char, code, Bool, true, false, not,
  ◌&&◌, some, unwrap_or, ltb, leb, nat_eq, append, arith,
}
use agent_squire.Slug.Chars.{is_whitespace}
use agent_squire.Slug.Decimal.{
  decimal, read_from, read-decimal, all_digits, decimal-all_digits, decimal_filled,
}
use agent_squire.Protocol.{is_empty_text, is_valid_token_id_char}
use agent_squire.Protocol.Spans.{all_id_chars}
use agent_squire.Protocol.Ranges.{
  split_once, parse_digits, parse_usize, RangePosition, RangeSpec, position_behind,
  parse_range_position, parse_range_spec, is_range_spec,
}
use agent_squire.Protocol.Ranges.Trim.{no_space, no_space-append, trim_plain}

-- `namespace:bookmark:offset`.
abbrev pub show_position : RangePosition → String
show_position p = append p.namespace (":" ∷ append p.bookmark (":" ∷ decimal p.offset))

-- `namespace:bookmark:offset→namespace:bookmark:offset`.
abbrev pub show_spec : RangeSpec → String
show_spec spec = append (show_position spec.start) ("→" ∷ show_position spec.end)

-- The names are made of the characters of identifiers, and the offset is a `usize`.
pub record IsPosition (p : RangePosition) : Type 0 where
  pub namespace_chars : all_id_chars p.namespace ≡ true
  pub namespace_named : is_empty_text p.namespace ≡ false
  pub bookmark_chars : all_id_chars p.bookmark ≡ true
  pub bookmark_named : is_empty_text p.bookmark ≡ false
  pub offset_small : p.offset < 2 ^ 64

unfoldable pub without : ℕ → String → Bool
without at [] = true
without at (c ∷ s) = not (nat_eq (code c) at) && without at s

pub without-append :
    (at : ℕ) (a b : String)
    → without at a ≡ true
    → without at b ≡ true
    → without at (append a b) ≡ true
unfolding without
without-append at [] b h g = rw (nil-append b) g
without-append at (c ∷ a) b h g = rw (cons-append c a b) (ground (arith, without-append at a b))

split_once-append :
    (at : ℕ) (a : String) (c : Char) (t : String)
    → without at a ≡ true
    → nat_eq (code c) at ≡ true
    → split_once at (append a (c ∷ t)) ≡ some (a, t)
unfolding without split_once
split_once-append at [] c t h g = rw (nil-append (c ∷ t), split_once, g) refl
split_once-append at (d ∷ a) c t h g =
    let other : nat_eq (code d) at ≡ false = ground arith in
    rw (cons-append d a (c ∷ t), split_once, other, split_once-append at a c t (ground arith) g)
      refl

-- The characters of identifiers are neither a colon nor an arrow nor white space.
id_chars_plain :
    (s : String)
    → all_id_chars s ≡ true
    → (without b':' s ≡ true) × ((without 0x2192 s ≡ true) × (no_space s ≡ true))
unfolding all_id_chars is_valid_token_id_char is_whitespace without no_space
id_chars_plain [] h = (refl, (refl, refl))
id_chars_plain (c ∷ s) h =
    let rest = id_chars_plain s (ground arith) in (ground arith, (ground arith, ground arith))

digits_plain : (s : String) → all_digits s ≡ true → (without 0x2192 s ≡ true) × (no_space s ≡ true)
unfolding all_digits is_whitespace without no_space
digits_plain [] h = (refl, refl)
digits_plain (c ∷ s) h = let rest = digits_plain s (ground arith) in (ground arith, ground arith)

parse-digits : (n : ℕ) (s : String) → all_digits s ≡ true → parse_digits n s ≡ some (read_from n s)
unfolding parse_digits all_digits read_from
parse-digits n [] h = refl
parse-digits n (c ∷ s) h =
    let good : (leb b'0' (code c) && leb (code c) b'9') ≡ true = ground arith in
    rw (parse_digits, good) (parse-digits (10 * n + (code c - b'0')) s (ground arith))

parse_usize-digits :
    (c : Char) (s : String)
    → all_digits (c ∷ s) ≡ true
    → read_from 0 (c ∷ s) < 2 ^ 64
    → parse_usize (c ∷ s) ≡ some (read_from 0 (c ∷ s))
unfolding all_digits parse_usize
parse_usize-digits c s h small =
    let plain : nat_eq (code c) b'+' ≡ false = ground arith in
    let fits : ltb (read_from 0 (c ∷ s)) (2 ^ 64) ≡ true = ground arith in
    rw (parse_usize, plain, parse-digits 0 (c ∷ s) h, fits) refl

parse_usize-decimal : (n : ℕ) → n < 2 ^ 64 → parse_usize (decimal n) ≡ some n
parse_usize-decimal n h =
    let (d, s, e) = decimal_filled n in
    let number : read_from 0 (d ∷ s) ≡ n = ap (read_from 0) (sym e) ∙ read-decimal n in
    ap parse_usize e
    ∙ parse_usize-digits d s (ap all_digits (sym e) ∙ decimal-all_digits n) (omega (arith, number))
    ∙ ap some number

filled-append : (a b : String) → is_empty_text a ≡ false → is_empty_text (append a b) ≡ false
filled-append [] b h = absurd (cc h)
filled-append (c ∷ a) b h = ap is_empty_text (cons-append c a b)

module _ (p : RangePosition) (i : IsPosition p) where
  abbrev tail_text : String
  tail_text = append p.bookmark (":" ∷ decimal p.offset)

  shown_plain : (without 0x2192 (show_position p) ≡ true) × (no_space (show_position p) ≡ true)
  unfolding without no_space is_whitespace
  shown_plain =
      let first = id_chars_plain p.namespace i.namespace_chars in
      let second = id_chars_plain p.bookmark i.bookmark_chars in
      let third = digits_plain (decimal p.offset) (decimal-all_digits p.offset) in
      (
        without-append 0x2192 p.namespace (":" ∷ tail_text) first.1.0
            (without-append 0x2192 p.bookmark (":" ∷ decimal p.offset) second.1.0 third.0),
        no_space-append p.namespace (":" ∷ tail_text) first.1.1
            (no_space-append p.bookmark (":" ∷ decimal p.offset) second.1.1 third.1),
      )

  read_tail : position_behind p.namespace tail_text ≡ some p
  unfolding position_behind
  read_tail =
      let plain = (id_chars_plain p.bookmark i.bookmark_chars).0 in
      let split = split_once-append b':' p.bookmark ":" (decimal p.offset) plain refl in
      rw (position_behind, split, i.namespace_named, i.bookmark_named)
        (ap (λ k. some (record p { offset = unwrap_or 0 k }))
          (parse_usize-decimal p.offset i.offset_small))

  shown_filled : is_empty_text (show_position p) ≡ false
  shown_filled = filled-append p.namespace (":" ∷ tail_text) i.namespace_named

  read_position : parse_range_position (show_position p) ≡ some p
  unfolding parse_range_position
  read_position =
      let plain = (id_chars_plain p.namespace i.namespace_chars).0 in
      let trimmed = trim_plain (show_position p) shown_plain.1 in
      let split = split_once-append b':' p.namespace ":" tail_text plain refl in
      rw (parse_range_position, trimmed, shown_filled, split) read_tail

arrow_plain :
    (spec : RangeSpec)
    → IsPosition spec.start
    → IsPosition spec.end
    → no_space (show_spec spec) ≡ true
unfolding no_space is_whitespace
arrow_plain spec i j =
    no_space-append (show_position spec.start) ("→" ∷ show_position spec.end)
      (shown_plain spec.start i).1 (shown_plain spec.end j).1

-- Positions whose names are made of the characters of identifiers, and whose offsets are below 2^64:
-- `parse_range_position` reads one back from `namespace:bookmark:offset`, and a spec of two is read
-- back by `parse_range_spec` from the two texts with the arrow between them, which `is_range_spec`
-- takes for one.
pub parse_range_spec-show_spec :
    (spec : RangeSpec)
    → IsPosition spec.start
    → IsPosition spec.end
    → (parse_range_position (show_position spec.start) ≡ some spec.start)
      × (parse_range_spec (show_spec spec) ≡ some spec)
      × (is_range_spec (show_spec spec) ≡ true)
unfolding parse_range_spec is_range_spec
parse_range_spec-show_spec spec i j =
    let first = shown_plain spec.start i in
    let second = shown_plain spec.end j in
    let split =
      split_once-append 0x2192 (show_position spec.start) "→" (show_position spec.end) first.0
        refl in
    let trimmed = trim_plain (show_spec spec) (arrow_plain spec i j) in
    (
      read_position spec.start i,
      rw (parse_range_spec, trimmed, split, read_position spec.start i, read_position spec.end j)
          refl,
      rw (is_range_spec, split) refl,
    )
