-- ===== src/Protocol/Sigils.antt =====
-- What `check_malformed_sigils` accepts.
use Prim.Native.String.{[], ◌∷◌}
use agent_squire.Base.{
  ℕ, ◌≡◌, refl, ◌↔◌, String, Char, code, true, false, Bool-cases, inl, inr, ◌+◌,
}
use agent_squire.Tool.{ok}
use agent_squire.Protocol.{is_sign, is_sigil, check_from, check_malformed_sigils, utf8_len}

-- Each § stands before one of !, ^ and #, which belongs to it.
pub data IsWellSigned : String → Type 0 where
  end : IsWellSigned []
  plain : {c : Char} {s : String} → is_sign c ≡ false → IsWellSigned s → IsWellSigned (c ∷ s)
  sigil :
      {c d : Char} {s : String}
      → is_sign c ≡ true
      → is_sigil d ≡ true
      → IsWellSigned s
      → IsWellSigned (c ∷ d ∷ s)

check_from_sound : (i : ℕ) (s : String) → check_from false i s ≡ ok tt → IsWellSigned s
unfolding check_from
check_from_sound i [] e = end
check_from_sound i (c ∷ []) e = elim (Bool-cases (is_sign c)) [
  | inl sign ↦ cc (rw (sign, check_from) at e)
  | inr other ↦ plain other end
]
check_from_sound i (c ∷ d ∷ s) e = elim (Bool-cases (is_sign c)) [
  | inl sign ↦ elim (Bool-cases (is_sigil d)) [
    | inl good ↦
        sigil sign good
          (check_from_sound (i + 2 + utf8_len (code d)) s (rw (sign, check_from, good) at e))
    | inr bad ↦ cc (rw (sign, check_from, bad) at e)
  ]
  | inr other ↦
      plain other (check_from_sound (i + utf8_len (code c)) (d ∷ s) (rw (other, check_from) at e))
]

check_from_complete : (i : ℕ) (s : String) → IsWellSigned s → check_from false i s ≡ ok tt
unfolding check_from
check_from_complete i s end = refl
check_from_complete i s (plain {c = c} other w) =
    rw (check_from, other) (check_from_complete (i + utf8_len (code c)) _ w)
check_from_complete i s (sigil {d = d} sign good w) =
    rw (check_from, sign, check_from, good) (check_from_complete (i + 2 + utf8_len (code d)) _ w)

-- `check_malformed_sigils` accepts a content exactly when each § in it is the first character of a
-- sigil, the second of which is !, ^ or #.
pub check_malformed_sigils_decides :
    (content : String) → (check_malformed_sigils content ≡ ok tt) ↔ IsWellSigned content
unfolding check_malformed_sigils
check_malformed_sigils_decides content = (check_from_sound 0 content, check_from_complete 0 content)
