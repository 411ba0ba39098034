-- ===== src/Todo/Done/Constraints.antt =====
-- `check_done_constraints` and `collect_descendant_ids` against their descriptions.
use agent_squire.Base.{
  ℕ, zero, suc, ◌<◌, ◌≡◌, refl, ◌↔◌, ◌⊎◌, inl, inr, ◌∈◌, String, eq_iff, Bool, true, false, Option,
  none, some, List, [], ◌∷◌, Bool-cases, Option-cases, contains, arith,
}
use agent_squire.Base.Dict.{Dict, lookup, keys}
use agent_squire.Graph.{Below, direct, deeper, Under, IsRanked}
use agent_squire.Graph.Sound.{collect_correct}
use agent_squire.Tool.{ok, err}
use agent_squire.Todo.Done.{
  is_todo_done, all_descendants_todo_done, and_then, first_open, child_open, descendant_open,
  ConstraintError, Check, check_done_constraints, kids_of, collect_descendant_ids,
}
use agent_squire.Todo.Done.Spec.{IsDone}
use agent_squire.Todo.Done.Decides.{
  all_of-true, all_of-false, all_of_total, is_todo_done-true, is_todo_done-false,
  is_todo_done_total,
}

first_open-none :
    (p : String → Option Bool) (cs : List String)
    → first_open p cs ≡ some none
    → (c : String) → c ∈ cs
    → p c ≡ some true
unfolding first_open
first_open-none p [] e c m = absurd m
first_open-none p (d ∷ cs) e c (inl at) = rw (← at) (ground arith)
first_open-none p (d ∷ cs) e c (inr m) = first_open-none p cs (ground arith) c m

first_open-some :
    (p : String → Option Bool) (cs : List String) (c : String)
    → first_open p cs ≡ some (some c)
    → (c ∈ cs) × (p c ≡ some false)
unfolding first_open
first_open-some p [] c e = cc
first_open-some p (d ∷ cs) c e = elim (Option-cases (p d)) [
  | inl stuck ↦ cc (rw (stuck, first_open) at e)
  | inr (true, holds) ↦
      let (m, f) = first_open-some p cs c (rw (holds, first_open) at e) in (inr m, f)
  | inr (false, fails) ↦
      let at : d ≡ c = cc (rw (fails, first_open) at e) in (inl at, rw at at fails)
]

first_open_total :
    (p : String → Option Bool) (cs : List String)
    → ((c : String) → c ∈ cs → (b : Bool) × (p c ≡ some b))
    → (o : Option String) × (first_open p cs ≡ some o)
unfolding first_open
first_open_total p [] h = (none, refl)
first_open_total p (d ∷ cs) h =
    let (b, e) = h d (inl refl) in
    let (o, rest) = first_open_total p cs (λ c m. h c (inr m)) in
    elim (Bool-cases b) [
      | inl holds ↦ (o, rw (e, first_open, holds) rest)
      | inr fails ↦ (some d, rw (e, first_open, fails))
    ]

and_then-true :
    (o : Option Bool) (rec : String → Option Bool) (c : String)
    → and_then o rec c ≡ some true
    → (o ≡ some true) × (rec c ≡ some true)
unfolding and_then
and_then-true none rec c e = cc
and_then-true (some true) rec c e = (refl, e)
and_then-true (some false) rec c e = cc

and_then-false :
    (o : Option Bool) (rec : String → Option Bool) (c : String)
    → and_then o rec c ≡ some false
    → (o ≡ some false) ⊎ (rec c ≡ some false)
unfolding and_then
and_then-false none rec c e = cc
and_then-false (some true) rec c e = inr e
and_then-false (some false) rec c e = inl refl

and_then_total :
    (o : Option Bool) (rec : String → Option Bool) (c : String)
    → (a : Bool) × (o ≡ some a)
    → (b : Bool) × (rec c ≡ some b)
    → (r : Bool) × (and_then o rec c ≡ some r)
unfolding and_then
and_then_total none rec c (a, p) (b, q) = cc
and_then_total (some true) rec c (a, p) (b, q) = (b, q)
and_then_total (some false) rec c (a, p) (b, q) = (false, refl)

module _ (marked : List String) (outgoing : Dict (List String)) where
  abbrev Open : String → Type 0
  Open d = ¬ IsDone marked outgoing d

  round-true :
      (fuel : ℕ) (id c : String)
      → all_descendants_todo_done marked outgoing (suc fuel) id ≡ some true
      → c ∈ kids_of outgoing id
      → (is_todo_done marked outgoing fuel c ≡ some true)
        × (all_descendants_todo_done marked outgoing fuel c ≡ some true)
  unfolding all_descendants_todo_done
  round-true fuel id c e m = elim (Option-cases (lookup id outgoing)) [
    | inl leaf ↦ absurd (rw leaf at m)
    | inr (cs, at) ↦
        and_then-true (is_todo_done marked outgoing fuel c)
          (all_descendants_todo_done marked outgoing fuel) c
          (all_of-true _ cs (rw (at, all_descendants_todo_done) at e) c (rw at at m))
  ]

  round-false :
      (fuel : ℕ) (id : String)
      → all_descendants_todo_done marked outgoing (suc fuel) id ≡ some false
      → (c : String) × (c ∈ kids_of outgoing id)
        × ((is_todo_done marked outgoing fuel c ≡ some false)
            ⊎ (all_descendants_todo_done marked outgoing fuel c ≡ some false))
  unfolding all_descendants_todo_done
  round-false fuel id e = elim (Option-cases (lookup id outgoing)) [
    | inl leaf ↦ cc (rw (leaf, all_descendants_todo_done) at e)
    | inr (cs, at) ↦
        let (c, m, f) = all_of-false _ cs (rw (at, all_descendants_todo_done) at e) in
        (
          c,
          rw at m,
          and_then-false (is_todo_done marked outgoing fuel c)
              (all_descendants_todo_done marked outgoing fuel) c f,
        )
  ]

  all_descendants-true :
      (fuel : ℕ) (id d : String)
      → all_descendants_todo_done marked outgoing fuel id ≡ some true
      → Below (kids_of outgoing) id d
      → IsDone marked outgoing d
  all_descendants-true zero id d e b = unfold all_descendants_todo_done in cc e
  all_descendants-true (suc fuel) id d e (direct m) =
      is_todo_done-true marked outgoing fuel d (round-true fuel id d e m).0
  all_descendants-true (suc fuel) id d e (deeper {c} m b) =
      all_descendants-true fuel c d (round-true fuel id c e m).1 b

  all_descendants-false :
      (fuel : ℕ) (id : String)
      → all_descendants_todo_done marked outgoing fuel id ≡ some false
      → (d : String) × Below (kids_of outgoing) id d × Open d
  all_descendants-false zero id e = unfold all_descendants_todo_done in cc e
  all_descendants-false (suc fuel) id e =
      let (c, m, f) = round-false fuel id e in
      elim f [
        | inl undone ↦ (c, direct m, is_todo_done-false marked outgoing fuel c undone)
        | inr lower ↦
            let (d, b, undone) = all_descendants-false fuel c lower in (d, deeper m b, undone)
      ]

  module _ (rank : String → ℕ) (ranked : IsRanked (kids_of outgoing) rank) where
    all_descendants_total :
        (fuel : ℕ) (id : String)
        → rank id < fuel
        → (b : Bool) × (all_descendants_todo_done marked outgoing fuel id ≡ some b)
    unfolding all_descendants_todo_done
    all_descendants_total zero id h = absurd (omega arith)
    all_descendants_total (suc fuel) id h = elim (Option-cases (lookup id outgoing)) [
      | inl leaf ↦ (true, ground arith)
      | inr (cs, at) ↦
          let (b, e) =
            all_of_total
              (λ c.
                and_then (is_todo_done marked outgoing fuel c)
                  (all_descendants_todo_done marked outgoing fuel) c)
              cs
              (λ c m.
                let lower : rank c < fuel = omega (arith, ranked id c (rw at m)) in
                and_then_total (is_todo_done marked outgoing fuel c)
                  (all_descendants_todo_done marked outgoing fuel) c
                  (is_todo_done_total marked outgoing rank ranked fuel c lower)
                  (all_descendants_total fuel c lower)) in
          (b, rw (at, all_descendants_todo_done) e)
    ]

-- All proper descendants are done.
abbrev pub AllBelowDone : List String → Dict (List String) → String → Type 0
AllBelowDone marked outgoing id =
    (d : String) → Below (kids_of outgoing) id d → IsDone marked outgoing d

Below-none :
    (outgoing : Dict (List String)) (id d : String)
    → lookup id outgoing ≡ none
    → ¬ Below (kids_of outgoing) id d
Below-none outgoing id d leaf (direct m) = absurd (rw leaf at m)
Below-none outgoing id d leaf (deeper m b) = absurd (rw leaf at m)

-- Whatever fuel it is given, `check_done_constraints` accepts an item only if all its proper
-- descendants are done, on any edges.
pub check_done_sound :
    (marked : List String) (outgoing : Dict (List String)) (fuel : ℕ) (id : String)
    → check_done_constraints marked outgoing fuel id ≡ some (ok tt)
    → AllBelowDone marked outgoing id
unfolding check_done_constraints
check_done_sound marked outgoing fuel id e d b = elim (Option-cases (lookup id outgoing)) [
  | inl leaf ↦ absurd (Below-none outgoing id d leaf b)
  | inr (cs, at) ↦ all_descendants-true marked outgoing fuel id d (ground arith) b
]

-- A refusal names an item that is not done.
check-IsDone-err :
    (marked : List String) (outgoing : Dict (List String)) (fuel : ℕ) (id : String)
    (why : ConstraintError)
    → check_done_constraints marked outgoing fuel id ≡ some (err why)
    → (d : String) × Below (kids_of outgoing) id d × ¬ IsDone marked outgoing d
unfolding check_done_constraints
check-IsDone-err marked outgoing fuel id why e = elim (Option-cases (lookup id outgoing)) [
  | inl leaf ↦ cc (rw (leaf, check_done_constraints) at e)
  | inr (cs, at) ↦ elim (Option-cases (first_open (is_todo_done marked outgoing fuel) cs)) [
    | inl stuck ↦ absurd (ground arith)
    | inr (some c, found) ↦
        let (m, f) = first_open-some (is_todo_done marked outgoing fuel) cs c found in
        (c, direct (rw at m), is_todo_done-false marked outgoing fuel c f)
    | inr (none, clear) ↦ all_descendants-false marked outgoing fuel id (ground arith)
  ]
]

check_done_total :
    (marked : List String) (outgoing : Dict (List String)) (rank : String → ℕ)
    → IsRanked (kids_of outgoing) rank
    → (fuel : ℕ) (id : String) → rank id < fuel
    → (r : Check) × (check_done_constraints marked outgoing fuel id ≡ some r)
unfolding check_done_constraints
check_done_total marked outgoing rank ranked fuel id h = elim (Option-cases (lookup id outgoing)) [
  | inl leaf ↦ (ok tt, ground arith)
  | inr (cs, at) ↦
      let (o, e) = first_open_total (is_todo_done marked outgoing fuel) cs (λ c m.
        is_todo_done_total marked outgoing rank ranked fuel c
          (omega (arith, ranked id c (rw at m)))) in
      let (b, f) = all_descendants_total marked outgoing rank ranked fuel id h in
      elim (Option-cases o) [
        | inl clear ↦ elim (Bool-cases b) [
          | inl holds ↦ (ok tt, ground arith)
          | inr fails ↦ (err (descendant_open id), ground arith)
        ]
        | inr (c, found) ↦ (err (child_open id c), ground arith)
      ]
]

-- On a forest, with more fuel than the rank of the item, `check_done_constraints` returns, and it
-- accepts the item exactly when all its proper descendants are done.
pub check_done_decides :
    (marked : List String) (outgoing : Dict (List String)) (rank : String → ℕ)
    → IsRanked (kids_of outgoing) rank
    → (fuel : ℕ) (id : String) → rank id < fuel
    → (r : Check) × (check_done_constraints marked outgoing fuel id ≡ some r)
      × ((r ≡ ok tt) ↔ AllBelowDone marked outgoing id)
check_done_decides marked outgoing rank ranked fuel id h =
    let (r, e) = check_done_total marked outgoing rank ranked fuel id h in
    (
      r,
      e,
      (
        λ holds. check_done_sound marked outgoing fuel id (rw holds at e),
        λ all. elim (Check-cases r) [
          | inl holds ↦ holds
          | inr (why, fails) ↦
              let (d, b, undone) = check-IsDone-err marked outgoing fuel id why (rw fails at e) in
              absurd (undone (all d b))
        ],
      ),
    )
  where
    Check-cases : (r : Check) → (r ≡ ok tt) ⊎ ((why : ConstraintError) × (r ≡ err why))
    Check-cases (ok x) = inl refl
    Check-cases (err why) = inr (why, refl)

mem-keys : (m : Dict (List String)) (k : String) → (kids_of m k ≡ []) ⊎ (k ∈ keys m)
unfolding lookup keys
mem-keys [] k = inl refl
mem-keys ((j, v) ∷ m) k = ground (arith, eq_iff j k, mem-keys m k)

-- Whatever the edges are, cycles included, `collect_descendant_ids` returns the item and its
-- descendants and nothing else.
pub collect_descendant_ids_correct :
    (id : String) (outgoing : Dict (List String))
    → (out : List String) × (collect_descendant_ids id outgoing ≡ some out)
      × ((d : String) → (contains out d ≡ true) ↔ Under (kids_of outgoing) id d)
unfolding collect_descendant_ids
collect_descendant_ids_correct id outgoing =
    collect_correct (kids_of outgoing) id (keys outgoing) (mem-keys outgoing) _ (omega arith)
