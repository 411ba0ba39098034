-- ===== src/Base/Dict.antt =====
-- A `HashMap` with text keys, as an association list. The order of the list stands for the order in
-- which the map is iterated, which Rust leaves open.
use Prim.Native.String.{String}
use text.Mathlib.Text.{◌==◌}
use text.Mathlib.TextEquality.{eq_iff}
use mathlib.Core.Path.{◌≡◌, refl}
use mathlib.Core.Bool.{Bool}
use mathlib.Core.Option
use mathlib.Core.Option.{Option, none, some}
use mathlib.Core.List.{List, [], ◌∷◌}
use native.Mathlib.Omega.{arith}
use agent_squire.Base.Tests.{if◌then◌else◌, is_some}

abbrev pub Dict {ℓ} : Type ℓ → Type ℓ
Dict V = List (String × V)

module _ {ℓ} {V : Type ℓ} where
  unfoldable pub lookup : String → Dict V → Option V
  lookup key [] = none
  lookup key ((at, new) ∷ dict) = if at == key then some new else lookup key dict

  abbrev pub contains_key : String → Dict V → Bool
  contains_key key dict = is_some (lookup key dict)

  unfoldable pub insert : String → V → Dict V → Dict V
  insert key new [] = (key, new) ∷ []
  insert key new ((at, old) ∷ dict) =
      if at == key then (key, new) ∷ dict else (at, old) ∷ insert key new dict

  -- A write through `get_mut`; nothing happens where the key is missing.
  unfoldable pub modify : String → (V → V) → Dict V → Dict V
  modify key f [] = []
  modify key f ((at, old) ∷ dict) =
      if at == key then (at, f old) ∷ dict else (at, old) ∷ modify key f dict

  unfoldable pub remove : String → Dict V → Dict V
  remove key [] = []
  remove key ((at, old) ∷ dict) =
      let rest = remove key dict in if at == key then rest else (at, old) ∷ rest

  unfoldable pub keys : Dict V → List String
  keys [] = []
  keys ((at, old) ∷ dict) = at ∷ keys dict

  -- `entry(k).or_default()` with an update: the default is changed where the key is missing.
  unfoldable pub upsert : String → V → (V → V) → Dict V → Dict V
  upsert key d f [] = (key, f d) ∷ []
  upsert key d f ((at, old) ∷ dict) =
      if at == key then (at, f old) ∷ dict else (at, old) ∷ upsert key d f dict

  pub lookup-insert :
      (key at : String) (new : V) (dict : Dict V)
      → lookup at (insert key new dict) ≡ (if key == at then some new else lookup at dict)
  unfolding lookup insert
  lookup-insert key at new [] = refl
  lookup-insert key at new ((first, old) ∷ dict) =
      ground
        (arith, eq_iff key at, eq_iff first key, eq_iff first at, lookup-insert key at new dict)

  pub lookup-modify :
      (key at : String) (f : V → V) (dict : Dict V)
      → lookup at (modify key f dict)
        ≡ (if key == at then Option.map f (lookup at dict) else lookup at dict)
  unfolding lookup modify
  lookup-modify key at f [] = ground arith
  lookup-modify key at f ((first, old) ∷ dict) =
      ground (arith, eq_iff key at, eq_iff first key, eq_iff first at, lookup-modify key at f dict)

  pub lookup-remove :
      (key at : String) (dict : Dict V)
      → lookup at (remove key dict) ≡ (if key == at then none else lookup at dict)
  unfolding lookup remove
  lookup-remove key at [] = ground arith
  lookup-remove key at ((first, old) ∷ dict) =
      ground (arith, eq_iff key at, eq_iff first key, eq_iff first at, lookup-remove key at dict)

  pub lookup-upsert :
      (key at : String) (d : V) (f : V → V) (dict : Dict V)
      → lookup at (upsert key d f dict) ≡ (
          if key == at
          then some (elim (lookup at dict) [ none ↦ f d | some old ↦ f old ])
          else lookup at dict)
  unfolding lookup upsert
  lookup-upsert key at d f [] = ground (arith, eq_iff key at)
  lookup-upsert key at d f ((first, old) ∷ dict) =
      ground
        (arith, eq_iff key at, eq_iff first key, eq_iff first at, lookup-upsert key at d f dict)
