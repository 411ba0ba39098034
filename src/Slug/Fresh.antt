-- ===== src/Slug/Fresh.antt =====
-- The search for a fresh identifier ends, and what it finds is fresh.

use text.Mathlib.TextLemmas.{append_cancel_left}
use agent_squire.Base.{
  ℕ, zero, suc, ◌+◌, ◌≤◌, ◌<◌, ◌≡◌, refl, ap, ◌≢◌, ◌⊎◌, inl, inr, String, ◌==◌, eq_iff, true, false,
  none, some, List, [], ◌∷◌, if◌then◌else◌, Bool-cases, Option-cases, append, length, arith,
  is_some,
}
use agent_squire.Base.{◌∈◌}
use agent_squire.Base.Dict.{Dict, lookup, keys}
use agent_squire.Store.Ops.{SquireState, token_exists}
use agent_squire.Slug.Decimal.{decimal, decimal_inj}
use agent_squire.Slug.Defs.{
  slugify, candidate, fresh_loop, fresh_id, todo_slug, dt_slug, dt_slugify, assumption_slug,
}

candidate_inj : (base : String) (i j : ℕ) → candidate base i ≡ candidate base j → i ≡ j
candidate_inj base i j e = decimal_inj i j (
    append_cancel_left "-" (decimal i) (decimal j)
      (append_cancel_left base (append "-" (decimal i)) (append "-" (decimal j)) e))

-- A list of texts less every `k`.
without : String → List String → List String
without k [] = []
without k (x ∷ xs) = let rest = without k xs in if x == k then rest else x ∷ rest

length-without_le : (k : String) (xs : List String) → length (without k xs) ≤ length xs
unfolding without
length-without_le k [] = omega arith
length-without_le k (x ∷ xs) = ground (arith, length-without_le k xs)

length-without_lt : (k : String) (xs : List String) → k ∈ xs → length (without k xs) < length xs
unfolding without
length-without_lt k [] h = absurd h
length-without_lt k (x ∷ xs) (inl e) = ground (arith, eq_iff x k, length-without_le k xs)
length-without_lt k (x ∷ xs) (inr h) = ground (arith, length-without_lt k xs h)

mem-without : (k a : String) (xs : List String) → a ∈ xs → k ≢ a → a ∈ without k xs
unfolding without
mem-without k a [] h ne = h
mem-without k a (x ∷ xs) (inl e) ne = ground (arith, eq_iff x k)
mem-without k a (x ∷ xs) (inr h) ne = ground (arith, mem-without k a xs h ne)

mem_at :
    (base : String) (a b : ℕ) (xs : List String)
    → a ≡ b
    → candidate base a ∈ xs
    → candidate base b ∈ xs
mem_at base a b xs e h = rw (← e) h

-- No list holds more of the candidates than it is long.
candidates_bound :
    (m : ℕ) (base : String) (i : ℕ) (xs : List String)
    → ((j : ℕ) → j < m → candidate base (i + j) ∈ xs)
    → m ≤ length xs
candidates_bound zero base i xs all = omega arith
candidates_bound (suc m) base i xs all =
    let k = candidate base (i + 0) in
    let smaller = candidates_bound m base (i + 1) (without k xs) λ j hj.
      mem-without k (candidate base (i + 1 + j)) xs
        (mem_at base (i + suc j) (i + 1 + j) xs (omega arith) (all (suc j) (omega arith)))
        (λ e. absurd (omega (arith, candidate_inj base (i + 0) (i + 1 + j) e))) in
    omega (arith, smaller, length-without_lt k xs (all 0 (omega arith)))

mem-keys_of_lookup {ℓ} :
    {V : Type ℓ} (k : String) (m : Dict V) → is_some (lookup k m) ≡ true → k ∈ keys m
unfolding lookup keys
mem-keys_of_lookup k [] h = cc
mem-keys_of_lookup k ((j, v) ∷ m) h = ground (arith, eq_iff j k, mem-keys_of_lookup k m)

length-keys {ℓ} : {V : Type ℓ} (m : Dict V) → length (keys m) ≡ length m
unfolding keys
length-keys [] = refl
length-keys ((j, v) ∷ m) = ap suc (length-keys m)

-- If the loop finds nothing, then it met a token at each of its rounds.
fresh_loop-none :
    (fuel : ℕ) (s : SquireState) (base : String) (i j : ℕ)
    → fresh_loop fuel s base i ≡ none
    → j < fuel
    → candidate base (i + j) ∈ keys s.tokens
unfolding fresh_loop token_exists
fresh_loop-none zero s base i j e h = absurd (omega arith)
fresh_loop-none (suc fuel) s base i j e h = elim (Bool-cases (token_exists s (candidate base i))) [
  | inl old ↦ round old (fresh_loop-none fuel s base (i + 1)) j h
  | inr new ↦ cc (rw new at e)
]
  where
    round :
        token_exists s (candidate base i) ≡ true
        → ((k : ℕ)
            → fresh_loop fuel s base (i + 1) ≡ none
            → k < fuel
            → candidate base (i + 1 + k) ∈ keys s.tokens)
        → (j : ℕ) → j < suc fuel
        → candidate base (i + j) ∈ keys s.tokens
    round old later zero h =
        mem_at base i (i + 0) (keys s.tokens) (omega arith)
          (mem-keys_of_lookup (candidate base i) s.tokens old)
    round old later (suc j) h =
        mem_at base (i + 1 + j) (i + suc j) (keys s.tokens) (omega arith)
          (later j (rw old at e) (omega arith))

fresh_loop-some :
    (fuel : ℕ) (s : SquireState) (base : String) (i : ℕ) (id : String)
    → fresh_loop fuel s base i ≡ some id
    → (token_exists s id ≡ false) × (j : ℕ) × (id ≡ candidate base j) × (i ≤ j)
unfolding fresh_loop
fresh_loop-some zero s base i id e = cc
fresh_loop-some (suc fuel) s base i id e = elim (Bool-cases (token_exists s (candidate base i))) [
  | inl old ↦
      let (new, j, is, le) = fresh_loop-some fuel s base (i + 1) id (rw old at e) in
      (new, j, is, omega arith)
  | inr new ↦ (ground arith, i, ground arith, omega arith)
]

-- The identifier is the base, or the base with a number behind it.
abbrev pub IsNumbered : String → String → Type 0
IsNumbered base id = (id ≡ base) ⊎ (j : ℕ) × (id ≡ candidate base j) × (2 ≤ j)

pub fresh_id_total :
    (s : SquireState) (base : String)
    → (id : String) × (fresh_id s base ≡ some id) × (token_exists s id ≡ false) × IsNumbered base id
fresh_id_total s base = elim (Bool-cases (token_exists s base)) [
  | inr new ↦ (base, rw new, new, inl refl)
  | inl old ↦ elim (Option-cases (fresh_loop (suc (length s.tokens)) s base 2)) [
    | inl nothing ↦ absurd (
        omega (
          arith,
          length-keys s.tokens,
          candidates_bound (suc (length s.tokens)) base 2 (keys s.tokens)
              (λ j h. fresh_loop-none (suc (length s.tokens)) s base 2 j nothing h),
        ))
    | inr (id, e) ↦
        let (new, j, is, le) = fresh_loop-some (suc (length s.tokens)) s base 2 id e in
        (id, rw old e, new, inr (j, is, le))
  ]
]

-- Whatever the store holds, the loop of `todo_slug` ends. Its result is no token's identifier, and is
-- TODO_ and the slug, or that with a number of at least 2 behind it.
pub todo_slug_fresh :
    (title : String) (s : SquireState)
    → (id : String) × (todo_slug title s ≡ some id)
      × (token_exists s id ≡ false)
      × IsNumbered (append "TODO_" (slugify title)) id
unfolding todo_slug
todo_slug_fresh title s = fresh_id_total s (append "TODO_" (slugify title))

pub dt_slug_fresh :
    (title : String) (s : SquireState)
    → (id : String) × (dt_slug title s ≡ some id)
      × (token_exists s id ≡ false)
      × IsNumbered (append "CONCEPT_DT_" (dt_slugify title)) id
unfolding dt_slug
dt_slug_fresh title s = fresh_id_total s (append "CONCEPT_DT_" (dt_slugify title))

pub assumption_slug_fresh :
    (title : String) (s : SquireState)
    → (id : String) × (assumption_slug title s ≡ some id)
      × (token_exists s id ≡ false)
      × IsNumbered (append "CONCEPT_Assumption_" (dt_slugify title)) id
unfolding assumption_slug
assumption_slug_fresh title s = fresh_id_total s (append "CONCEPT_Assumption_" (dt_slugify title))
