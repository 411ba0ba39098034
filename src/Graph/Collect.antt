-- ===== src/Graph/Collect.antt =====
-- The worklist, and that its fuel is enough.
use agent_squire.Base.{
  ℕ, zero, suc, ◌+◌, ◌≤◌, ◌≡◌, refl, ap, ◌⊎◌, inl, inr, ◌∈◌, String, eq_iff, false, Option, none,
  some, List, [], ◌∷◌, if◌then◌else◌, Bool-cases, length, contains, contains-insert_set, insert_set,
  arith, subst, IsDistinct, insert_set-IsDistinct,
}
use mathlib.Core.Option.{some-injective}
use agent_squire.Graph.{Edges}

-- `for c in children { stack.push(c) }`.
abbrev pub push_all : List String → List String → List String
push_all [] stack = stack
push_all (c ∷ cs) stack = push_all cs (c ∷ stack)

-- `while let Some(cur) = stack.pop()`: the head of the list is the top of the stack, and `none`
-- says that the fuel ran out.
unfoldable pub collect : Edges → ℕ → List String → List String → Option (List String)
collect kids fuel [] set = some set
collect kids zero (cur ∷ stack) set = none
collect kids (suc fuel) (cur ∷ stack) set =
    let skip = collect kids fuel stack set in
    let push = collect kids fuel (push_all (kids cur) stack) (insert_set set cur) in
    if contains set cur then skip else push

-- The children that are still to be pushed, of the nodes in a list.
unfoldable pub weight : Edges → List String → List String → ℕ
weight kids [] set = 0
weight kids (k ∷ ks) set = (if contains set k then 0 else length (kids k)) + weight kids ks set

length-push_all : (cs stack : List String) → length (push_all cs stack) ≡ length cs + length stack
length-push_all [] stack = omega arith
length-push_all (c ∷ cs) stack = omega (arith, length-push_all cs (c ∷ stack))

-- The nodes with children all stand in the list.
abbrev pub Covers : Edges → List String → Type 0
Covers kids ks = (k : String) → (kids k ≡ []) ⊎ (k ∈ ks)

module _ (kids : Edges) where
  weight-insert_le :
      (ks set : List String) (cur : String)
      → weight kids ks (insert_set set cur) ≤ weight kids ks set
  unfolding weight
  weight-insert_le [] set cur = omega arith
  weight-insert_le (k ∷ ks) set cur =
      ground (arith, weight-insert_le ks set cur, contains-insert_set set cur k)

  weight-insert :
      (ks set : List String) (cur : String)
      → cur ∈ ks
      → contains set cur ≡ false
      → weight kids ks (insert_set set cur) + length (kids cur) ≤ weight kids ks set
  unfolding weight
  weight-insert [] set cur m new = absurd m
  weight-insert (k ∷ ks) set cur (inl at) new = ground (
    arith,
    weight-insert_le ks set cur,
    contains-insert_set set cur cur,
    contains-insert_set set cur k,
    eq_iff cur cur,
    ap kids at,
  )
  weight-insert (k ∷ ks) set cur (inr m) new =
      ground (arith, weight-insert ks set cur m new, contains-insert_set set cur k)

  -- The loop ends: each round lowers the height of the stack and the children to be pushed together.
  pub collect_total :
      (ks : List String)
      → Covers kids ks
      → (fuel : ℕ) (stack set : List String) → length stack + weight kids ks set ≤ fuel
      → (out : List String) × (collect kids fuel stack set ≡ some out)
  unfolding collect
  collect_total ks cov fuel [] set h = (set, unfold collect in refl)
  collect_total ks cov zero (cur ∷ stack) set h = absurd (omega arith)
  collect_total ks cov (suc fuel) (cur ∷ stack) set h = elim (Bool-cases (contains set cur)) [
    | inl old ↦ let (out, e) = collect_total ks cov fuel stack set (omega arith) in (out, rw old e)
    | inr new ↦
        let less : weight kids ks (insert_set set cur) + length (kids cur) ≤ weight kids ks set =
          elim (cov cur) [
            | inl leaf ↦ rw leaf (omega (arith, weight-insert_le ks set cur))
            | inr m ↦ weight-insert ks set cur m new
          ] in
        let (out, e) =
          collect_total ks cov fuel (push_all (kids cur) stack) (insert_set set cur)
            (omega (arith, length-push_all (kids cur) stack)) in
        (out, rw new e)
  ]

pub collect-IsDistinct :
    (kids : Edges) (fuel : ℕ) (stack set out : List String)
    → IsDistinct set
    → collect kids fuel stack set ≡ some out
    → IsDistinct out
unfolding collect
collect-IsDistinct kids fuel [] set out h e = subst IsDistinct (some-injective set out e) h
collect-IsDistinct kids zero (cur ∷ stack) set out h e = absurd (ground arith)
collect-IsDistinct kids (suc fuel) (cur ∷ stack) set out h e =
    elim (Bool-cases (contains set cur)) [
      | inl old ↦ collect-IsDistinct kids fuel stack set out h (rw old at e)
      | inr new ↦
          collect-IsDistinct kids fuel (push_all (kids cur) stack) (insert_set set cur) out
            (insert_set-IsDistinct set cur h) (rw new at e)
    ]
