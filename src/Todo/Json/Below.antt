-- ===== src/Todo/Json/Below.antt =====
-- The checks of `update_status` of the JSON-file store against what is below a node.
use agent_squire.Base.{
  ℕ, zero, suc, ◌<◌, ◌≡◌, refl, ◌⊎◌, inl, inr, ◌∈◌, String, Bool, true, false, Option, none, some,
  List, [], ◌∷◌, if◌then◌else◌, Bool-cases, Option-cases, arith,
}
use agent_squire.Base.Dict.{Dict, lookup, contains_key}
use agent_squire.Graph.{Below, direct, deeper, IsRanked}
use agent_squire.Todo.Done.Decides.{all_of-true, all_of-false, all_of_total}
use agent_squire.Todo.Json.Views.{kids-hit}
use agent_squire.Todo.Json.{
  StoreError, is_done, TodoNode, kids, child_done, all_descendants_done, child_problem,
}

-- A node that is stored as done.
abbrev pub done_node : Dict TodoNode → String → Bool
done_node nodes d = elim (lookup d nodes) [ none ↦ false | some n ↦ is_done n.status ]

-- Each proper descendant is stored as done.
abbrev pub AllDone : Dict TodoNode → String → Type 0
AllDone nodes id = (d : String) → Below (kids nodes) id d → done_node nodes d ≡ true

-- The children that a node lists have nodes.
abbrev pub HasChildren : Dict TodoNode → Type 0
HasChildren nodes = (p c : String) → c ∈ kids nodes p → contains_key c nodes ≡ true

child_done-true :
    (nodes : Dict TodoNode) (rec : String → Option Bool) (c : String)
    → contains_key c nodes ≡ true
    → child_done nodes rec c ≡ some true
    → (done_node nodes c ≡ true) × (rec c ≡ some true)
unfolding child_done
child_done-true nodes rec c k e = elim (Option-cases (lookup c nodes)) [
  | inl miss ↦ cc (rw miss at k)
  | inr (n, hit) ↦ (ground arith, ground arith)
]

child_done-false :
    (nodes : Dict TodoNode) (rec : String → Option Bool) (c : String)
    → child_done nodes rec c ≡ some false
    → (done_node nodes c ≡ false) ⊎ (rec c ≡ some false)
unfolding child_done
child_done-false nodes rec c e = elim (Option-cases (lookup c nodes)) [
  | inl miss ↦ inl (ground arith)
  | inr (n, hit) ↦ ground arith
]

child_done_total :
    (nodes : Dict TodoNode) (rec : String → Option Bool) (c : String)
    → ((b : Bool) × (rec c ≡ some b))
    → (b : Bool) × (child_done nodes rec c ≡ some b)
unfolding child_done
child_done_total nodes rec c (b, e) = elim (Option-cases (lookup c nodes)) [
  | inl miss ↦ (true, ground arith)
  | inr (n, hit) ↦ (if is_done n.status then b else false, ground arith)
]

module _ (nodes : Dict TodoNode) where
  pub all_done_total :
      (rank : String → ℕ)
      → IsRanked (kids nodes) rank
      → (fuel : ℕ) (id : String) → rank id < fuel
      → (b : Bool) × (all_descendants_done nodes fuel id ≡ some b)
  unfolding all_descendants_done
  all_done_total rank ranked zero id h = absurd (omega arith)
  all_done_total rank ranked (suc fuel) id h = elim (Option-cases (lookup id nodes)) [
    | inl miss ↦ (false, ground arith)
    | inr (n, hit) ↦
        let (b, e) =
          all_of_total (child_done nodes (all_descendants_done nodes fuel)) n.children λ c m.
            child_done_total nodes (all_descendants_done nodes fuel) c (
              all_done_total rank ranked fuel c
                (omega (arith, ranked id c (rw (kids-hit nodes id n hit) m)))) in
        (b, ground arith)
  ]

  module _ (has : HasChildren nodes) where
    children_done :
        (fuel : ℕ) (id c : String)
        → all_descendants_done nodes (suc fuel) id ≡ some true
        → c ∈ kids nodes id
        → (done_node nodes c ≡ true) × (all_descendants_done nodes fuel c ≡ some true)
    unfolding all_descendants_done
    children_done fuel id c e m = elim (Option-cases (lookup id nodes)) [
      | inl miss ↦ cc (rw (miss, all_descendants_done) at e)
      | inr (n, hit) ↦ child_done-true nodes (all_descendants_done nodes fuel) c (has id c m) (
          all_of-true (child_done nodes (all_descendants_done nodes fuel)) n.children
            (rw (hit, all_descendants_done) at e) c (rw (kids-hit nodes id n hit) at m))
    ]

    pub AllDone-true :
        (fuel : ℕ) (id : String) → all_descendants_done nodes fuel id ≡ some true → AllDone nodes id
    unfolding all_descendants_done
    AllDone-true zero id e d below = cc
    AllDone-true (suc fuel) id e d (direct m) = (children_done fuel id d e m).0
    AllDone-true (suc fuel) id e d (deeper {c = c} m b) =
        AllDone-true fuel c (children_done fuel id c e m).1 d b

    pub all_done-false :
        (fuel : ℕ) (id : String)
        → contains_key id nodes ≡ true
        → all_descendants_done nodes fuel id ≡ some false
        → (d : String) × Below (kids nodes) id d × (done_node nodes d ≡ false)
    unfolding all_descendants_done
    all_done-false zero id k e = cc
    all_done-false (suc fuel) id k e = elim (Option-cases (lookup id nodes)) [
      | inl miss ↦ cc (rw miss at k)
      | inr (n, hit) ↦
          let (c, m, undone) =
            all_of-false (child_done nodes (all_descendants_done nodes fuel)) n.children
              (rw (hit, all_descendants_done) at e) in
          let at : c ∈ kids nodes id = rw (kids-hit nodes id n hit) m in
          elim (child_done-false nodes (all_descendants_done nodes fuel) c undone) [
            | inl itself ↦ (c, direct at, itself)
            | inr more ↦
                let (d, b, open_one) = all_done-false fuel c (has id c at) more in
                (d, deeper at b, open_one)
          ]
    ]

  -- The first loop of `update_status` finds an error exactly when some child is not done.
  pub child_problem-none :
      (title : String) (cs : List String)
      → child_problem title nodes cs ≡ none
      → (c : String) → c ∈ cs
      → done_node nodes c ≡ true
  unfolding child_problem
  child_problem-none title [] e c m = absurd m
  child_problem-none title (x ∷ cs) e c m = elim (Option-cases (lookup x nodes)) [
    | inl miss ↦ cc (rw (miss, child_problem) at e)
    | inr (n, hit) ↦ elim (Bool-cases (is_done n.status)) [
      | inl good ↦ elim m [
        | inl at ↦ rw (← at) (ground arith)
        | inr more ↦ child_problem-none title cs (rw (hit, child_problem, good) at e) c more
      ]
      | inr bad ↦ cc (rw (hit, child_problem, bad) at e)
    ]
  ]

  pub child_problem-some :
      (title : String) (cs : List String) (why : StoreError)
      → child_problem title nodes cs ≡ some why
      → (c : String) × (c ∈ cs) × (done_node nodes c ≡ false)
  unfolding child_problem
  child_problem-some title [] why e = cc
  child_problem-some title (x ∷ cs) why e = elim (Option-cases (lookup x nodes)) [
    | inl miss ↦ (x, inl refl, ground arith)
    | inr (n, hit) ↦ elim (Bool-cases (is_done n.status)) [
      | inl good ↦
          let (c, m, undone) =
            child_problem-some title cs why (rw (hit, child_problem, good) at e) in
          (c, inr m, undone)
      | inr bad ↦ (x, inl refl, ground arith)
    ]
  ]
