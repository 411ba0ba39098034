-- ===== src/Slug/Decimal.antt =====
-- The decimal numeral that `format!("{}", i)` writes, and that different numbers have different ones.
use Prim.Native.String.{[], ◌∷◌}
use agent_squire.Base.{
  ℕ, zero, suc, ◌+◌, ◌-◌, ◌*◌, ◌/◌, ◌%◌, ◌<◌, ◌≡◌, refl, sym, ◌∙◌, ap, inl, inr, String, Char, code,
  Bool, true, ◌&&◌, leb, if◌then◌else◌, Bool-cases, nat_eq, arith,
}

abbrev digit : ℕ → Char
digit zero = "0"
digit (suc zero) = "1"
digit (suc (suc zero)) = "2"
digit (suc (suc (suc zero))) = "3"
digit (suc (suc (suc (suc zero)))) = "4"
digit (suc (suc (suc (suc (suc zero))))) = "5"
digit (suc (suc (suc (suc (suc (suc zero)))))) = "6"
digit (suc (suc (suc (suc (suc (suc (suc zero))))))) = "7"
digit (suc (suc (suc (suc (suc (suc (suc (suc zero)))))))) = "8"
digit (suc (suc (suc (suc (suc (suc (suc (suc n)))))))) = "9"

-- The digits of `n` in front of `acc`. One round for each digit, so a number above `n` is enough fuel.
decimal_loop : ℕ → ℕ → String → String
decimal_loop zero n acc = acc
decimal_loop (suc fuel) n acc =
    let acc' = digit (n % 10) ∷ acc in
    let more = decimal_loop fuel (n / 10) acc' in if nat_eq (n / 10) 0 then acc' else more

unfoldable pub decimal : ℕ → String
unfolding decimal_loop
decimal n = decimal_loop (suc n) n []

-- The number that a numeral stands for, behind the digits that were read.
unfoldable pub read_from : ℕ → String → ℕ
read_from a [] = a
read_from a (c ∷ s) = read_from (10 * a + (code c - b'0')) s

digit-code : (d : ℕ) → d < 10 → code (digit d) ≡ b'0' + d
digit-code zero h = refl
digit-code (suc zero) h = refl
digit-code (suc (suc zero)) h = refl
digit-code (suc (suc (suc zero))) h = refl
digit-code (suc (suc (suc (suc zero)))) h = refl
digit-code (suc (suc (suc (suc (suc zero))))) h = refl
digit-code (suc (suc (suc (suc (suc (suc zero)))))) h = refl
digit-code (suc (suc (suc (suc (suc (suc (suc zero))))))) h = refl
digit-code (suc (suc (suc (suc (suc (suc (suc (suc zero)))))))) h = refl
digit-code (suc (suc (suc (suc (suc (suc (suc (suc (suc zero))))))))) h = refl
digit-code (suc (suc (suc (suc (suc (suc (suc (suc (suc (suc n)))))))))) h = absurd (omega arith)

read-digit :
    (n a : ℕ) (s : String) → read_from a (digit (n % 10) ∷ s) ≡ read_from (10 * a + n % 10) s
unfolding read_from
read-digit n a s = ap (λ k. read_from k s) (omega (arith, digit-code (n % 10) (omega arith)))

read-decimal_loop :
    (fuel n : ℕ) (acc : String) → n < fuel → read_from 0 (decimal_loop fuel n acc) ≡ read_from n acc
unfolding decimal_loop
read-decimal_loop zero n acc h = absurd (omega arith)
read-decimal_loop (suc fuel) n acc h = elim (Bool-cases (nat_eq (n / 10) 0)) [
  | inl done ↦
      let small : n / 10 ≡ 0 = ground arith in
      rw done (read-digit n 0 acc ∙ ap (λ k. read_from k acc) (omega arith))
  | inr more ↦
      let big : 0 < n / 10 = ground arith in
      rw more (
        read-decimal_loop fuel (n / 10) (digit (n % 10) ∷ acc) (omega arith)
        ∙ read-digit n (n / 10) acc
        ∙ ap (λ k. read_from k acc) (omega arith))
]

-- Numerals determine their numbers.
pub decimal_inj : (m n : ℕ) → decimal m ≡ decimal n → m ≡ n
unfolding decimal read_from
decimal_inj m n e =
    sym (read-decimal_loop (suc m) m [] (omega arith))
    ∙ ap (read_from 0) e
    ∙ read-decimal_loop (suc n) n [] (omega arith)

-- The number that a numeral stands for is the one that it was written for.
pub read-decimal : (n : ℕ) → read_from 0 (decimal n) ≡ n
unfolding decimal read_from
read-decimal n = read-decimal_loop (suc n) n [] (omega arith)

abbrev pub is_digit : Char → Bool
is_digit c = leb b'0' (code c) && leb (code c) b'9'

unfoldable pub all_digits : String → Bool
all_digits [] = true
all_digits (c ∷ s) = is_digit c && all_digits s

digit-is_digit : (n : ℕ) → is_digit (digit (n % 10)) ≡ true
digit-is_digit n = ground (arith, digit-code (n % 10) (omega arith))

digits-decimal_loop :
    (fuel n : ℕ) (acc : String)
    → all_digits acc ≡ true
    → all_digits (decimal_loop fuel n acc) ≡ true
unfolding decimal_loop all_digits
digits-decimal_loop zero n acc h = h
digits-decimal_loop (suc fuel) n acc h =
    let here : all_digits (digit (n % 10) ∷ acc) ≡ true = rw (digit-is_digit n, h) refl in
    elim (Bool-cases (nat_eq (n / 10) 0)) [
      | inl done ↦ rw done here
      | inr more ↦ rw more (digits-decimal_loop fuel (n / 10) (digit (n % 10) ∷ acc) here)
    ]

pub decimal-all_digits : (n : ℕ) → all_digits (decimal n) ≡ true
unfolding decimal all_digits
decimal-all_digits n = digits-decimal_loop (suc n) n [] refl

-- A numeral has a first digit.
filled-decimal_loop :
    (fuel n : ℕ) (c : Char) (acc : String)
    → (d : Char) × (s : String) × (decimal_loop fuel n (c ∷ acc) ≡ d ∷ s)
unfolding decimal_loop
filled-decimal_loop zero n c acc = (c, acc, refl)
filled-decimal_loop (suc fuel) n c acc = elim (Bool-cases (nat_eq (n / 10) 0)) [
  | inl done ↦ (digit (n % 10), c ∷ acc, rw done refl)
  | inr more ↦
      let (d, s, e) = filled-decimal_loop fuel (n / 10) (digit (n % 10)) (c ∷ acc) in
      (d, s, rw more e)
]

pub decimal_filled : (n : ℕ) → (d : Char) × (s : String) × (decimal n ≡ d ∷ s)
unfolding decimal decimal_loop
decimal_filled n = elim (Bool-cases (nat_eq (n / 10) 0)) [
  | inl done ↦ (digit (n % 10), [], rw done refl)
  | inr more ↦
      let (d, s, e) = filled-decimal_loop n (n / 10) (digit (n % 10)) [] in (d, s, rw more e)
]

decimal_test : decimal 2026 ≡ "2026"
unfolding decimal
decimal_test = refl
