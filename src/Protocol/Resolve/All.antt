-- ===== src/Protocol/Resolve/All.antt =====
-- The tokens that resolve_all_range_specs leaves.
use agent_squire.Base.{◌≡◌, ◌⊎◌, String, Bool, false, none, some, List, [], ◌∷◌}
use agent_squire.Store.Types.{TokenRange, NewTokenSpec}
use agent_squire.Store.Ops.{SquireState}
use agent_squire.Protocol.Ranges.{RangeSpec, parse_range_spec, is_range_spec}
use agent_squire.Protocol.Resolve.Decides.{IsResolution}

abbrev pub has_range_spec : NewTokenSpec → Bool
has_range_spec token = elim token.full_desc [ none ↦ false | some desc ↦ is_range_spec desc ]

module _ (s : SquireState) (session_id : String) where
  -- A token that is left as it was, whose description is no range spec, or one whose description was a
  -- spec that is replaced by its range.
  abbrev pub IsRound : NewTokenSpec → NewTokenSpec → Type 0
  IsRound before after =
      ((after ≡ before) × (has_range_spec before ≡ false))
      ⊎ ((desc : String) × (spec : RangeSpec) × (ranges : List TokenRange) × (before.full_desc
            ≡ some desc)
          × (parse_range_spec desc ≡ some spec)
          × IsResolution spec s session_id ranges
          × (after ≡ record before { ranges = ranges; full_desc = none }))

  -- Two lists of tokens of the same length, that a predicate relates in order.
  abbrev pub Pointwise :
      (NewTokenSpec → NewTokenSpec → Type 0) → List NewTokenSpec → List NewTokenSpec → Type 0
  Pointwise R [] [] = Unit
  Pointwise R [] (b ∷ bs) = ⊥
  Pointwise R (a ∷ more) [] = ⊥
  Pointwise R (a ∷ more) (b ∷ bs) = R a b × Pointwise R more bs
