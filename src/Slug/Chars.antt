-- ===== src/Slug/Chars.antt =====
-- Character classes and trimming, as the standard library of Rust documents them.
use Prim.Native.String.{[], ◌∷◌}
use agent_squire.Base.{ℕ, String, code, Bool, ◌&&◌, ◌||◌, leb, nat_eq, if◌then◌else◌, ◌≡◌, refl}

abbrev pub is_ascii_alphanumeric : ℕ → Bool
is_ascii_alphanumeric c =
    leb b'0' c && leb c b'9' || (leb b'A' c && leb c b'Z' || leb b'a' c && leb c b'z')

-- `char::is_ascii_whitespace`: space, tab, line feed, form feed, carriage return.
abbrev pub is_ascii_whitespace : ℕ → Bool
is_ascii_whitespace c =
    nat_eq c 0x20 || (nat_eq c 0x9 || (nat_eq c 0xa || (nat_eq c 0xc || nat_eq c 0xd)))

-- `char::is_whitespace`: the characters of Unicode's property White_Space.
unfoldable pub is_whitespace : ℕ → Bool
is_whitespace c =
    leb 0x9 c && leb c 0xd
    || (nat_eq c 0x20
        || (nat_eq c 0x85
            || (nat_eq c 0xa0
                || (nat_eq c 0x1680
                    || (leb 0x2000 c && leb c 0x200a
                        || (nat_eq c 0x2028
                            || (nat_eq c 0x2029
                                || (nat_eq c 0x202f || (nat_eq c 0x205f || nat_eq c 0x3000)))))))))

unfoldable pub trim_start : (ℕ → Bool) → String → String
trim_start p [] = []
trim_start p (c ∷ s) = let rest = trim_start p s in if p (code c) then rest else c ∷ s

-- A character is dropped if it and all behind it are.
unfoldable pub trim_end : (ℕ → Bool) → String → String
trim_end p [] = []
trim_end p (c ∷ s) = elim (trim_end p s) [
  | [] ↦ if p (code c) then [] else c ∷ []
  | d ∷ r ↦ c ∷ d ∷ r
]

unfoldable pub trim_by : (ℕ → Bool) → String → String
unfolding trim_start trim_end
trim_by p s = trim_end p (trim_start p s)

-- `str::trim`.
unfoldable pub trim : String → String
unfolding trim_by is_whitespace
trim s = trim_by is_whitespace s

trim_test : trim " a b " ≡ "a b"
unfolding trim
trim_test = refl
