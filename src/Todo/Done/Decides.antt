-- ===== src/Todo/Done/Decides.antt =====
-- The recursive checks decide what they are meant to, and return on trees.
use agent_squire.Base.{
  ℕ, zero, suc, ◌<◌, ◌≡◌, refl, ◌↔◌, inl, inr, ◌∈◌, String, Bool, true, false, Option, some, List,
  [], ◌∷◌, Bool-cases, Option-cases, contains, arith,
}
use agent_squire.Base.Dict.{Dict, lookup}
use agent_squire.Graph.{IsRanked}
use agent_squire.Todo.Done.{all_of, is_todo_done, kids_of}
use agent_squire.Todo.Done.Spec.{IsDone, by_mark, by_children}

pub all_of-true :
    (p : String → Option Bool) (cs : List String)
    → all_of p cs ≡ some true
    → (c : String) → c ∈ cs
    → p c ≡ some true
unfolding all_of
all_of-true p [] e c m = absurd m
all_of-true p (d ∷ cs) e c (inl at) = rw (← at) (ground arith)
all_of-true p (d ∷ cs) e c (inr m) = all_of-true p cs (ground arith) c m

pub all_of-false :
    (p : String → Option Bool) (cs : List String)
    → all_of p cs ≡ some false
    → (c : String) × (c ∈ cs) × (p c ≡ some false)
unfolding all_of
all_of-false p [] e = cc
all_of-false p (d ∷ cs) e = elim (Option-cases (p d)) [
  | inl stuck ↦ cc (rw (stuck, all_of) at e)
  | inr (true, holds) ↦ let (c, m, f) = all_of-false p cs (rw (holds, all_of) at e) in (c, inr m, f)
  | inr (false, fails) ↦ (d, inl refl, fails)
]

pub all_of_total :
    (p : String → Option Bool) (cs : List String)
    → ((c : String) → c ∈ cs → (b : Bool) × (p c ≡ some b))
    → (b : Bool) × (all_of p cs ≡ some b)
unfolding all_of
all_of_total p [] h = (true, refl)
all_of_total p (d ∷ cs) h =
    let (b, e) = h d (inl refl) in
    let (r, rest) = all_of_total p cs (λ c m. h c (inr m)) in
    elim (Bool-cases b) [
      | inl holds ↦ (r, rw (e, all_of, holds) rest)
      | inr fails ↦ (false, rw (e, all_of, fails))
    ]

module _ (marked : List String) (outgoing : Dict (List String)) where
  pub is_todo_done-true :
      (fuel : ℕ) (id : String)
      → is_todo_done marked outgoing fuel id ≡ some true
      → IsDone marked outgoing id
  unfolding is_todo_done
  is_todo_done-true zero id e = cc
  is_todo_done-true (suc fuel) id e = elim (Bool-cases (contains marked id)) [
    | inl m ↦ by_mark m
    | inr u ↦ elim (Option-cases (lookup id outgoing)) [
      | inl leaf ↦ cc (rw (u, is_todo_done, leaf) at e)
      | inr (cs, at) ↦ by_children cs at λ c m.
          is_todo_done-true fuel c
            (all_of-true (is_todo_done marked outgoing fuel) cs (ground arith) c m)
    ]
  ]

  pub is_todo_done-false :
      (fuel : ℕ) (id : String)
      → is_todo_done marked outgoing fuel id ≡ some false
      → ¬ IsDone marked outgoing id
  unfolding is_todo_done
  is_todo_done-false zero id e d = cc
  is_todo_done-false (suc fuel) id e (by_mark m) = ground arith
  is_todo_done-false (suc fuel) id e (by_children cs at all) =
      let (c, m, undone) = all_of-false (is_todo_done marked outgoing fuel) cs (ground arith) in
      is_todo_done-false fuel c undone (all c m)

  module _ (rank : String → ℕ) (ranked : IsRanked (kids_of outgoing) rank) where
    pub is_todo_done_total :
        (fuel : ℕ) (id : String)
        → rank id < fuel
        → (b : Bool) × (is_todo_done marked outgoing fuel id ≡ some b)
    unfolding is_todo_done
    is_todo_done_total zero id h = absurd (omega arith)
    is_todo_done_total (suc fuel) id h = elim (Bool-cases (contains marked id)) [
      | inl m ↦ (true, ground arith)
      | inr u ↦ elim (Option-cases (lookup id outgoing)) [
        | inl leaf ↦ (false, ground arith)
        | inr (cs, at) ↦
            let (b, e) =
              all_of_total (is_todo_done marked outgoing fuel) cs
                λ c m. is_todo_done_total fuel c (omega (arith, ranked id c (rw at m))) in
            (b, ground arith)
      ]
    ]

-- On a forest, with more fuel than the rank of the item, `is_todo_done` returns, and its answer is
-- whether the item is done.
pub is_todo_done_decides :
    (marked : List String) (outgoing : Dict (List String)) (rank : String → ℕ)
    → IsRanked (kids_of outgoing) rank
    → (fuel : ℕ) (id : String) → rank id < fuel
    → (b : Bool) × (is_todo_done marked outgoing fuel id ≡ some b)
      × ((b ≡ true) ↔ IsDone marked outgoing id)
is_todo_done_decides marked outgoing rank ranked fuel id h =
    let (b, e) = is_todo_done_total marked outgoing rank ranked fuel id h in
    (
      b,
      e,
      (
        λ holds. is_todo_done-true marked outgoing fuel id (rw holds at e),
        λ done. elim (Bool-cases b) [
          | inl holds ↦ holds
          | inr fails ↦ absurd (is_todo_done-false marked outgoing fuel id (rw fails at e) done)
        ],
      ),
    )
