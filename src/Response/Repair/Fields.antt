-- ===== src/Response/Repair/Fields.antt =====
-- Lines of fields: how they are counted, split and trimmed.
use Prim.Native.String.{[], ◌∷◌}
use text.Mathlib.TextLemmas.{nil-append, cons-append}
use agent_squire.Base.{
  ℕ, suc, ◌≡◌, refl, sym, ◌∙◌, ap, String, code, true, false, Option, none, some, List, nat_eq,
  append, arith,
}
use agent_squire.Slug.Chars.{trim, trim_end, is_whitespace}
use agent_squire.Store.Types.{NewTokenSpec}
use agent_squire.Protocol.{is_empty_text}
use agent_squire.Protocol.Ranges.Trim.{trim_white}
use agent_squire.Protocol.Ranges.Written.{without, without-append}
use agent_squire.Response.Lines.{count_char, split_on}
use agent_squire.Response.Repair.{after_pipe}
use agent_squire.Response.Repair.Solid.{
  begins_plain, begins_plain-append, Ends, Ends-append, Ends-cons, trim_end-white, trim_solid,
}

-- A field of a line: it is not empty, neither begins nor ends with white space, does not begin with the #
-- or § of a header, and has no | and no end of a line.
pub record IsField (a : String) : Type 0 where
  pub begins : begins_plain a ≡ true
  pub ends : trim_end is_whitespace a ≡ a
  pub no_pipe : without b'|' a ≡ true
  pub no_feed : without 0xa a ≡ true
  pub no_return : without 0xd a ≡ true

-- A field, a blank and a | in front of a text.
infixr 30 ◌⊓◌
abbrev pub ◌⊓◌ : String → String → String
a ⊓ t = append a (" " ∷ "|" ∷ t)

-- Fields as the protocol writes them, with a blank on either side of each |.
infixr 30 ◌⊔◌
abbrev pub ◌⊔◌ : String → String → String
a ⊔ t = a ⊓ (" " ∷ t)

pub count_field : (a : String) → without b'|' a ≡ true → count_char b'|' a ≡ 0
unfolding without count_char
count_field [] h = refl
count_field (c ∷ a) h = ground (arith, count_field a)

pub count_bar :
    (a t : String) → without b'|' a ≡ true → count_char b'|' (a ⊓ t) ≡ suc (count_char b'|' t)
unfolding without count_char
count_bar [] t h = ap (count_char b'|') (nil-append (" " ∷ "|" ∷ t))
count_bar (c ∷ a) t h =
    ap (count_char b'|') (cons-append c a (" " ∷ "|" ∷ t)) ∙ ground (arith, count_bar a t)

pub after_bar :
    (n : ℕ) (a t left right : String)
    → without b'|' a ≡ true
    → after_pipe n t ≡ some (left, right)
    → after_pipe (suc n) (a ⊓ t) ≡ some (a ⊓ left, right)
unfolding without after_pipe
after_bar n [] t left right h e =
    ap (after_pipe (suc n)) (nil-append (" " ∷ "|" ∷ t))
    ∙ rw (after_pipe, e)
        (ap (λ (u : String). some (u, right)) (sym (nil-append (" " ∷ "|" ∷ left))))
after_bar n (c ∷ a) t left right h e =
    let other : nat_eq (code c) b'|' ≡ false = ground arith in
    let rest = after_bar n a t left right (ground arith) e in
    ap (after_pipe (suc n)) (cons-append c a (" " ∷ "|" ∷ t))
    ∙ rw (after_pipe, other, rest)
        (ap (λ (u : String). some (u, right)) (sym (cons-append c a (" " ∷ "|" ∷ left))))

pub split_field : (a : String) → without b'|' a ≡ true → split_on b'|' a ≡ (a, List.[])
unfolding without split_on
split_field [] h = refl
split_field (c ∷ a) h =
    let other : nat_eq (code c) b'|' ≡ false = ground arith in
    let rest = split_field a (ground arith) in rw (split_on, other, rest) refl

pub split_bar :
    (a t : String)
    → without b'|' a ≡ true
    → split_on b'|' (a ⊓ t) ≡ (append a " ", List.◌∷◌ (split_on b'|' t).0 (split_on b'|' t).1)
unfolding without split_on
split_bar [] t h =
    ap (split_on b'|') (nil-append (" " ∷ "|" ∷ t))
    ∙ ap (λ (u : String). (u, List.◌∷◌ (split_on b'|' t).0 (split_on b'|' t).1))
        (sym (nil-append " "))
split_bar (c ∷ a) t h =
    let other : nat_eq (code c) b'|' ≡ false = ground arith in
    let rest = split_bar a t (ground arith) in
    ap (split_on b'|') (cons-append c a (" " ∷ "|" ∷ t))
    ∙ rw (split_on, other, rest)
        (ap (λ (u : String). (u, List.◌∷◌ (split_on b'|' t).0 (split_on b'|' t).1))
          (sym (cons-append c a " ")))

pub bar-Ends : (a t : String) → Ends t → Ends (a ⊔ t)
bar-Ends a t h =
    Ends-append a (" " ∷ "|" ∷ " " ∷ t)
      (Ends-cons " " ("|" ∷ " " ∷ t) (Ends-cons "|" (" " ∷ t) (Ends-cons " " t h)))

-- The text of a line is one line.
abbrev pub OneLine : String → Type 0
OneLine l = (without 0xa l ≡ true) × (without 0xd l ≡ true)

pub bar-OneLine : (a t : String) → IsField a → OneLine t → OneLine (a ⊓ t)
unfolding without
bar-OneLine a t f (feed, return) = (
  without-append 0xa a (" " ∷ "|" ∷ t) f.no_feed feed,
  without-append 0xd a (" " ∷ "|" ∷ t) f.no_return return,
)

pub begins_filled : (s : String) → begins_plain s ≡ true → is_empty_text s ≡ false
unfolding begins_plain
begins_filled [] h = cc
begins_filled (c ∷ s) h = refl

module _ (a : String) (f : IsField a) where
  pub field_filled : is_empty_text a ≡ false
  field_filled = begins_filled a f.begins

  pub field-Ends : Ends a
  field-Ends = (f.ends, field_filled)

  pub trim_field : trim a ≡ a
  trim_field = trim_solid a f.begins ∙ f.ends

  pub trim_behind : trim (append a " ") ≡ a
  unfolding is_whitespace
  trim_behind =
      trim_solid (append a " ") (begins_plain-append a " " f.begins)
      ∙ trim_end-white " " a refl
      ∙ f.ends

  pub trim_before : trim (" " ∷ a) ≡ a
  unfolding is_whitespace
  trim_before = trim_white " " a refl ∙ trim_field

  pub trim_around : trim (" " ∷ append a " ") ≡ a
  unfolding is_whitespace
  trim_around = trim_white " " (append a " ") refl ∙ trim_behind

  -- A line that begins with the field, and ends with no white space.
  pub trim_line : (t : String) → Ends (append a t) → trim (append a t) ≡ append a t
  trim_line t h = trim_solid (append a t) (begins_plain-append a t f.begins) ∙ h.0

abbrev pub token_line : String → String → String → Option String → NewTokenSpec
token_line id token_type short_desc full_desc = record {
  id = id;
  token_type = token_type;
  short_desc = short_desc;
  full_desc = full_desc;
  endpoint = none;
  ranges = List.[];
  tags = List.[];
  properties = List.[];
}
