-- ===== src/Slug/Shape.antt =====
-- What `slugify` returns, whatever the title is.
use Prim.Native.String.{[], ◌∷◌}
use text.Mathlib.TextLemmas.{cons≢nil}
use agent_squire.Base.{
  ℕ, String, Char, code, ◌≡◌, refl, sym, ap, ◌∙◌, ◌≢◌, ◌⊎◌, inl, inr, Bool, true, false, Bool-cases,
  arith,
}
use agent_squire.Slug.Chars.{trim_start, trim_end, trim_by}
use agent_squire.Slug.Defs.{
  is_slug_char, is_underscore, push_slug, slug_chars, or_untitled, slugify,
}

abbrev pub AllChars : (ℕ → Bool) → String → Type 0
AllChars p [] = Unit
AllChars p (c ∷ s) = (p (code c) ≡ true) × AllChars p s

pub String-cases : (s : String) → (s ≡ []) ⊎ ((c : Char) × (r : String) × (s ≡ c ∷ r))
String-cases [] = inl refl
String-cases (c ∷ r) = inr (c, r, refl)

module _ (p : ℕ → Bool) where
  abbrev StartsOutside : String → Type 0
  StartsOutside [] = Unit
  StartsOutside (c ∷ s) = p (code c) ≡ false

  trim_start-StartsOutside : (s : String) → StartsOutside (trim_start p s)
  unfolding trim_start
  trim_start-StartsOutside [] = tt
  trim_start-StartsOutside (c ∷ s) = elim (Bool-cases (p (code c))) [
    | inl e ↦ rw e (trim_start-StartsOutside s)
    | inr e ↦ rw e e
  ]

  trim_start_self : (s : String) → StartsOutside s → trim_start p s ≡ s
  unfolding trim_start
  trim_start_self [] h = refl
  trim_start_self (c ∷ s) h = rw h

  trim_end-cons :
      (c : Char) (s : String) → p (code c) ≡ false → (r : String) × (trim_end p (c ∷ s) ≡ c ∷ r)
  unfolding trim_end
  trim_end-cons c s h = elim (String-cases (trim_end p s)) [
    | inl e ↦ ([], rw (e, trim_end, h))
    | inr (d, r, e) ↦ (d ∷ r, rw (e, trim_end))
  ]

  trim_end-StartsOutside : (s : String) → StartsOutside s → StartsOutside (trim_end p s)
  trim_end-StartsOutside [] h = unfold trim_end in tt
  trim_end-StartsOutside (c ∷ s) h = let (r, e) = trim_end-cons c s h in rw e h

  pub trim_end_idem : (s : String) → trim_end p (trim_end p s) ≡ trim_end p s
  unfolding trim_end
  trim_end_idem [] = refl
  trim_end_idem (c ∷ s) = elim (String-cases (trim_end p s)) [
    | inl e ↦ elim (Bool-cases (p (code c))) [
      | inl h ↦ rw (e, trim_end, h)
      | inr h ↦ rw (e, trim_end, h, h)
    ]
    | inr (d, r, e) ↦
        let same : trim_end p (d ∷ r) ≡ d ∷ r = ap (trim_end p) (sym e) ∙ trim_end_idem s ∙ e in
        rw (e, trim_end, same)
  ]

  -- Trimming twice is trimming once.
  pub trim_by_idem : (s : String) → trim_by p (trim_by p s) ≡ trim_by p s
  unfolding trim_by
  trim_by_idem s =
      ap (trim_end p) (
        trim_start_self (trim_end p (trim_start p s))
          (trim_end-StartsOutside (trim_start p s) (trim_start-StartsOutside s)))
      ∙ trim_end_idem (trim_start p s)

  module _ (q : ℕ → Bool) where
    trim_start-AllChars : (s : String) → AllChars q s → AllChars q (trim_start p s)
    unfolding trim_start
    trim_start-AllChars [] h = h
    trim_start-AllChars (c ∷ s) h = elim (Bool-cases (p (code c))) [
      | inl e ↦ rw e (trim_start-AllChars s h.1)
      | inr e ↦ rw e h
    ]

    trim_end-AllChars : (s : String) → AllChars q s → AllChars q (trim_end p s)
    unfolding trim_end
    trim_end-AllChars [] h = h
    trim_end-AllChars (c ∷ s) h = elim (String-cases (trim_end p s)) [
      | inl e ↦ elim (Bool-cases (p (code c))) [
        | inl f ↦ rw (e, trim_end, f) tt
        | inr f ↦ rw (e, trim_end, f) (h.0, tt)
      ]
      | inr (d, r, e) ↦ rw (e, trim_end) (h.0, rw e at (trim_end-AllChars s h.1))
    ]

    pub trim_by-AllChars : (s : String) → AllChars q s → AllChars q (trim_by p s)
    unfolding trim_by
    trim_by-AllChars s h = trim_end-AllChars (trim_start p s) (trim_start-AllChars s h)

slug_chars-AllChars : (s : String) → AllChars is_slug_char (slug_chars s)
unfolding slug_chars push_slug
slug_chars-AllChars [] = tt
slug_chars-AllChars (c ∷ s) = ground (arith, slug_chars-AllChars s)

slug_chars_self : (s : String) → AllChars is_slug_char s → slug_chars s ≡ s
unfolding slug_chars push_slug
slug_chars_self [] h = refl
slug_chars_self (c ∷ s) h = rw (h.0, slug_chars_self s h.1)

-- A slug: slug characters only, at least one, and no underscore at either end.
pub record IsSlug (s : String) : Type 0 where
  pub chars : AllChars is_slug_char s
  pub nonempty : s ≢ []
  pub trimmed : trim_by is_underscore s ≡ s

or_untitled-IsSlug :
    (s : String) → AllChars is_slug_char s → trim_by is_underscore s ≡ s → IsSlug (or_untitled s)
unfolding or_untitled trim_by trim_start trim_end
or_untitled-IsSlug [] h t = record {
  chars = ground arith;
  nonempty = λ e. cons≢nil e;
  trimmed = refl;
}
or_untitled-IsSlug (c ∷ s) h t = record { chars = h; nonempty = λ e. cons≢nil e; trimmed = t }

-- The result of `slugify` is a slug, for every title.
pub slugify-IsSlug : (title : String) → IsSlug (slugify title)
unfolding slugify
slugify-IsSlug title =
    or_untitled-IsSlug (trim_by is_underscore (slug_chars title))
      (trim_by-AllChars is_underscore is_slug_char (slug_chars title) (slug_chars-AllChars title))
      (trim_by_idem is_underscore (slug_chars title))

or_untitled_self : (s : String) → s ≢ [] → or_untitled s ≡ s
unfolding or_untitled
or_untitled_self [] h = absurd (h refl)
or_untitled_self (c ∷ s) h = refl

-- `slugify` leaves a slug as it is, so slugs of slugs are the same.
pub slugify_self : (s : String) → IsSlug s → slugify s ≡ s
unfolding slugify
slugify_self s h =
    ap or_untitled (ap (trim_by is_underscore) (slug_chars_self s h.chars) ∙ h.trimmed)
    ∙ or_untitled_self s h.nonempty
