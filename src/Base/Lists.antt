-- ===== src/Base/Lists.antt =====
-- Lists measured by native numbers, lists filtered by Boolean tests, and lists of texts as sets.
use Prim.Native.Nat.{ℕ, zero, suc, ◌+◌}
use Prim.Native.String.{String}
use text.Mathlib.Text.{◌==◌}
use text.Mathlib.TextEquality.{eq_iff}
use mathlib.Core.Path.{◌≡◌, refl}
use mathlib.Core.Logic.{◌↔◌, ◌⊎◌, inl, inr}
use mathlib.Core.Bool.{Bool, true, false, ◌||◌}
use mathlib.Core.Option.{Option, none, some}
use mathlib.Core.List.{List, [], ◌∷◌, ◌++◌}
use native.Mathlib.Omega.{arith}
use agent_squire.Base.Tests.{if◌then◌else◌}

module _ {ℓ} {A : Type ℓ} where
  abbrev pub length : List A → ℕ
  length [] = 0
  length (x ∷ xs) = suc (length xs)

  -- `Vec::retain`, and `filter` with a Boolean test.
  abbrev pub retain : (A → Bool) → List A → List A
  retain p [] = []
  retain p (x ∷ xs) = let rest = retain p xs in if p x then x ∷ rest else rest

  abbrev pub find : (A → Bool) → List A → Option A
  find p [] = none
  find p (x ∷ xs) = if p x then some x else find p xs

  abbrev pub get_elem? : List A → ℕ → Option A
  get_elem? [] n = none
  get_elem? (x ∷ xs) zero = some x
  get_elem? (x ∷ xs) (suc n) = get_elem? xs n

  abbrev pub All {κ} : (A → Type κ) → List A → Type κ
  All P [] = Unit
  All P (x ∷ xs) = P x × All P xs

  pub length-append : (xs ys : List A) → length (xs ++ ys) ≡ length xs + length ys
  length-append [] ys = omega arith
  length-append (x ∷ xs) ys = omega (arith, length-append xs ys)

-- `a ∈ xs`, as a type that computes to a sum.
infix 40 ◌∈◌
abbrev pub ◌∈◌ : {A : Type 0} → A → List A → Type 0
a ∈ [] = ⊥
a ∈ (x ∷ xs) = (x ≡ a) ⊎ (a ∈ xs)

-- `HashSet::contains` on a set of texts that is held as a list.
abbrev pub contains : List String → String → Bool
contains [] a = false
contains (x ∷ xs) a = x == a || contains xs a

-- `HashSet::insert`, without its result.
unfoldable pub insert_set : List String → String → List String
insert_set xs a = if contains xs a then xs else xs ++ a ∷ []

pub contains_iff : (xs : List String) (a : String) → (contains xs a ≡ true) ↔ (a ∈ xs)
contains_iff [] a = (λ h. cc, λ h. absurd h)
contains_iff (x ∷ xs) a =
    (ground (arith, eq_iff x a, contains_iff xs a), ground (arith, eq_iff x a, contains_iff xs a))

pub contains-append :
    (xs : List String) (b a : String) → contains (xs ++ b ∷ []) a ≡ (contains xs a || b == a)
contains-append [] b a = ground arith
contains-append (x ∷ xs) b a = ground (arith, contains-append xs b a)

pub contains-insert_set :
    (xs : List String) (b a : String) → contains (insert_set xs b) a ≡ (contains xs a || b == a)
unfolding insert_set
contains-insert_set xs b a = ground (arith, contains-append xs b a, eq_iff b a)

pub mem-append_left : {A : Type 0} (a : A) (xs ys : List A) → a ∈ xs → a ∈ (xs ++ ys)
mem-append_left a [] ys h = absurd h
mem-append_left a (x ∷ xs) ys (inl e) = inl e
mem-append_left a (x ∷ xs) ys (inr h) = inr (mem-append_left a xs ys h)

pub mem-append_right : {A : Type 0} (a : A) (xs ys : List A) → a ∈ ys → a ∈ (xs ++ ys)
mem-append_right a [] ys h = h
mem-append_right a (x ∷ xs) ys h = inr (mem-append_right a xs ys h)

pub mem-append_cases : {A : Type 0} (a : A) (xs ys : List A) → a ∈ (xs ++ ys) → (a ∈ xs) ⊎ (a ∈ ys)
mem-append_cases a [] ys h = inr h
mem-append_cases a (x ∷ xs) ys (inl e) = inl (inl e)
mem-append_cases a (x ∷ xs) ys (inr h) = elim (mem-append_cases a xs ys h) [
  | inl m ↦ inl (inr m)
  | inr m ↦ inr m
]

-- No text stands in the list twice.
abbrev pub IsDistinct : List String → Type 0
IsDistinct [] = Unit
IsDistinct (x ∷ xs) = (contains xs x ≡ false) × IsDistinct xs

append-IsDistinct :
    (xs : List String) (a : String)
    → IsDistinct xs
    → contains xs a ≡ false
    → IsDistinct (xs ++ a ∷ [])
append-IsDistinct [] a h new = (refl, tt)
append-IsDistinct (x ∷ xs) a (fresh, h) new = (
  ground (arith, contains-append xs a x, eq_iff a x, eq_iff x a),
  append-IsDistinct xs a h (ground arith),
)

pub insert_set-IsDistinct :
    (xs : List String) (a : String) → IsDistinct xs → IsDistinct (insert_set xs a)
unfolding insert_set
insert_set-IsDistinct xs a h =
    elim (contains xs a) as (λ b. contains xs a ≡ b → IsDistinct (if b then xs else xs ++ a ∷ [])) [
      | true ↦ λ old. h
      | false ↦ λ new. append-IsDistinct xs a h new
    ]
      refl
