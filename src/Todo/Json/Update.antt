-- ===== src/Todo/Json/Update.antt =====
-- When `update_status` of the JSON-file store accepts a status.
use agent_squire.Base.{
  ℕ, ◌<◌, ◌≡◌, refl, sym, ap, ◌∙◌, subst, ◌↔◌, ◌⊎◌, inl, inr, String, eq_iff, ◌==◌, true, false,
  not, ◌&&◌, Option, none, some, if◌then◌else◌, Bool-cases, Option-cases, arith,
}
use agent_squire.Base.Dict.{Dict, lookup, modify, lookup-modify}
use agent_squire.Graph.{direct}
use agent_squire.Tool.{Result, ok, err, ok-injective}
use agent_squire.Todo.Json.Below.{
  AllDone, HasChildren, all_done_total, AllDone-true, all_done-false, child_problem-some,
}
use agent_squire.Todo.Json.Views.{kids-hit, stored_parent-key}
use agent_squire.Todo.Json.Forest.{IsForest, set_status-IsForest}
use agent_squire.Todo.Json.{
  StoreError, node_missing, descendant_not_done, TodoStatus, is_done, TodoNode, TodoStore,
  child_problem, done_problem, update_status, set_status,
}

-- What the status asks for: nothing unless it newly is `done`, then that all below is done.
abbrev pub Allowed : Dict TodoNode → String → TodoNode → TodoStatus → Type 0
Allowed nodes id n new_status =
    is_done new_status ≡ true → is_done n.status ≡ false → AllDone nodes id

module _ (st : TodoStore) (b : ℕ) (f : IsForest b st) (fuel : ℕ) (enough : b < fuel) where
  forest_has : HasChildren st.nodes
  forest_has p c m = stored_parent-key st.nodes p c (f.child p c m).0

  done_problem_decides :
      (id : String) (n : TodoNode) (new_status : TodoStatus)
      → lookup id st.nodes ≡ some n
      → (o : Option StoreError) × (done_problem fuel id n new_status st.nodes ≡ some o)
        × ((o ≡ none) ↔ Allowed st.nodes id n new_status)
  unfolding done_problem
  done_problem_decides id n new_status hit =
      let nodes = st.nodes in
      elim (Bool-cases (is_done new_status && not (is_done n.status))) [
        | inr off ↦ (none, rw (done_problem, off) refl, (λ _ a c. absurd (ground arith), λ _. refl))
        | inl on ↦ elim (Option-cases (child_problem n.title nodes n.children)) [
          | inr (why, e) ↦
              let (c, m, undone) = child_problem-some nodes n.title n.children why e in
              (
                some why,
                rw (done_problem, on, done_problem, e) refl,
                (
                  λ x. cc,
                  λ all. cc (
                      sym undone
                      ∙ all (ground arith) (ground arith) c
                          (direct (rw (kids-hit nodes id n hit) m))),
                ),
              )
          | inl fine ↦
              let (r, e) =
                all_done_total nodes f.rank (λ p c m. (f.child p c m).1) fuel id
                  (omega (arith, f.rank_le id)) in
              elim (Bool-cases r) [
                | inl yes_all ↦ (
                  none,
                  rw (done_problem, on, done_problem, fine, e, yes_all) refl,
                  (λ _ a c. AllDone-true nodes forest_has fuel id (e ∙ ap some yes_all), λ _. refl),
                )
                | inr not_all ↦
                    let (d, below, undone) =
                      all_done-false nodes forest_has fuel id (ground arith)
                        (e ∙ ap some not_all) in
                    (
                      some (descendant_not_done n.title),
                      rw (done_problem, on, done_problem, fine, e, not_all) refl,
                      (λ x. cc, λ all. cc (sym undone ∙ all (ground arith) (ground arith) d below)),
                    )
              ]
        ]
      ]

-- The two ways in which `update_status` of a node that is there ends.
abbrev pub Updated :
    String → String → TodoStatus → TodoNode → TodoStore → Result StoreError TodoStore → Type 0
Updated now id new_status n st r =
    (Allowed st.nodes id n new_status)
      × ((st' : TodoStore) × (r ≡ ok st')
          × (st'.root_items ≡ st.root_items)
          × ((k : String)
              → lookup k st'.nodes
                ≡ (if id == k then some (set_status now new_status n) else lookup k st.nodes)))
    ⊎ ¬ Allowed st.nodes id n new_status × ((why : StoreError) × (r ≡ err why))

-- On a forest, with more fuel than the length of its paths, `update_status` of a node that is there
-- returns. It refuses exactly when the node is newly to be done and some proper descendant is not
-- done; otherwise it sets the status and the time of this node, and changes no other node.
pub update_status_lem :
    (now id : String) (new_status : TodoStatus) (n : TodoNode) (st : TodoStore) (b : ℕ) (fuel : ℕ)
    → IsForest b st
    → b < fuel
    → lookup id st.nodes ≡ some n
    → (r : Result StoreError TodoStore) × (update_status fuel now id new_status st ≡ some r)
      × Updated now id new_status n st r
unfolding update_status
update_status_lem now id new_status n st b fuel f enough hit =
    let (o, e, exact) = done_problem_decides st b f fuel enough id n new_status hit in
    elim (Option-cases o) [
      | inl fine ↦
          let st' = record st { nodes = modify id (set_status now new_status) st.nodes } in
          (
            ok st',
            rw (hit, update_status, e, fine) refl,
            inl (
              exact.0 fine,
              (
                st',
                refl,
                refl,
                λ k. ground (
                  arith,
                  eq_iff id k,
                  ap (λ j. lookup j st.nodes),
                  lookup-modify id k (set_status now new_status) st.nodes,
                ),
              ),
            ),
          )
      | inr (why, bad) ↦ (
        err why,
        rw (hit, update_status, e, bad) refl,
        inr (λ a. cc (sym bad ∙ exact.1 a), (why, refl)),
      )
    ]

-- On a forest `update_status` returns, and what it accepts leaves a forest.
pub update_status_total :
    (now id : String) (new_status : TodoStatus) (st : TodoStore) (b : ℕ) (fuel : ℕ)
    → IsForest b st
    → b < fuel
    → (r : Result StoreError TodoStore) × (update_status fuel now id new_status st ≡ some r)
      × ((st' : TodoStore) → r ≡ ok st' → IsForest b st')
unfolding update_status
update_status_total now id new_status st b fuel f enough =
    elim (Option-cases (lookup id st.nodes)) [
      | inl miss ↦ (err (node_missing id), rw (update_status, miss) refl, λ st' e. cc)
      | inr (n, hit) ↦
          let (o, e, _) = done_problem_decides st b f fuel enough id n new_status hit in
          elim (Option-cases o) [
            | inl fine ↦ (
              ok (record st { nodes = modify id (set_status now new_status) st.nodes }),
              rw (update_status, hit, update_status, e, fine) refl,
              λ st' g.
                  subst (IsForest b) (ok-injective g)
                    (set_status-IsForest now id new_status b st f),
            )
            | inr (why, bad) ↦
                (err why, rw (update_status, hit, update_status, e, bad) refl, λ st' g. cc)
          ]
    ]
