-- ===== src/Todo/Json/Bulk/Rounds.antt =====
-- On forests the loop of the operation "bulk" returns, and `mutated` tells whether the store changed.
use agent_squire.Base.{
  ℕ, ◌+◌, ◌≤◌, ◌<◌, ◌≡◌, refl, inl, inr, String, ◌==◌, true, false, Option, some, [], ◌∷◌,
  Bool-cases, Option-cases, length, arith,
}
use agent_squire.Base.Dict.{contains_key}
use agent_squire.Slug.Chars.{trim}
use agent_squire.Tool.{Args, Result-cases}
use agent_squire.Todo.Token.{is_blank}
use agent_squire.Todo.Json.{TodoStore, node_missing, add_node}
use agent_squire.Todo.Json.Tool.{
  bulk_required, bulk_title_empty, bulk_invalid_status, bulk_failed, bulk_unsupported, bulk_created,
  bulk_listed, bulk_got, bulk_updated, bulk_deleted, parse_status,
}
use agent_squire.Todo.Json.Forest.{IsForest}
use agent_squire.Todo.Json.Add.Keeps.{add_node-IsForest}
use agent_squire.Todo.Json.Update.{update_status_total}
use agent_squire.Todo.Json.Remove.Keeps.{remove_node-IsForest}
use agent_squire.Todo.Json.Walk.{walk_up_lem, build_tree_total}
use agent_squire.Todo.Json.Bulk.{
  Round, stop, next, round_create, round_list, round_get, round_update, round_delete, bulk_round,
}

pub longer-IsForest : (b c : ℕ) (st : TodoStore) → b ≤ c → IsForest b st → IsForest c st
longer-IsForest b c st h f = record {
  rank = f.rank;
  depth = f.depth;
  rank_le = λ k. omega (arith, f.rank_le k);
  depth_le = λ k. omega (arith, f.depth_le k);
  child = f.child;
  parent = f.parent;
  roots = f.roots;
}

-- What a round leaves: a forest, and the same store unless it sets `mutated`.
abbrev pub RoundOk : ℕ → TodoStore → Round → Type 0
RoundOk b st (stop e) = Unit
RoundOk b st (next st' changed entry) = IsForest (1 + b) st' × (changed ≡ false → st' ≡ st)

abbrev pub Total : ℕ → TodoStore → Option Round → Type 0
Total b st o = (r : Round) × (o ≡ some r) × RoundOk b st r

module _ (fuel : ℕ) (now uuid : String) (idx : ℕ) (op : Args) (st : TodoStore) (b : ℕ) where
  module _ (f : IsForest b st) (enough : 1 + b < fuel) where
    same : IsForest (1 + b) st
    same = longer-IsForest b (1 + b) st (omega arith) f

    round_create-Total : Total b st (some (round_create fuel now uuid idx op st))
    unfolding round_create
    round_create-Total = elim (Option-cases op.title) [
      | inl miss ↦ (stop (bulk_required idx "title" "create"), rw (round_create, miss) refl, tt)
      | inr (raw, given) ↦ elim (Bool-cases (is_blank (trim raw))) [
        | inl blank ↦
            (stop (bulk_title_empty idx), rw (round_create, given, round_create, blank) refl, tt)
        | inr text ↦ elim (Result-cases (add_node now uuid (trim raw) op.parent_id st)) [
          | inl (st', e) ↦ (
            next st' true (bulk_created idx uuid (trim raw) op.parent_id),
            rw (round_create, given, round_create, text, e) refl,
            (add_node-IsForest now uuid (trim raw) op.parent_id b st st' f e, λ x. cc),
          )
          | inr (why, e) ↦ (
            stop (bulk_failed idx "create" why),
            rw (round_create, given, round_create, text, e) refl,
            tt,
          )
        ]
      ]
    ]

    round_list-Total : Total b st (round_list fuel now uuid idx op st)
    unfolding round_list
    round_list-Total =
        let (t, e) = build_tree_total st b fuel st.root_items f enough in
        (next st false (bulk_listed idx t), rw (round_list, e) refl, (same, λ _. refl))

    round_get-Total : Total b st (round_get fuel now uuid idx op st)
    unfolding round_get
    round_get-Total = elim (Option-cases op.id) [
      | inl miss ↦ (stop (bulk_required idx "id" "get"), rw (round_get, miss) refl, tt)
      | inr (id, given) ↦ elim (Bool-cases (contains_key id st.nodes)) [
        | inr unknown ↦ (
          stop (bulk_failed idx "get" (node_missing id)),
          rw (round_get, given, round_get, unknown) refl,
          tt,
        )
        | inl known ↦
            let (root, e, _, _) = walk_up_lem st b fuel id f known (omega arith) in
            let (t, g) = build_tree_total st b fuel (root ∷ []) f enough in
            (
              next st false (bulk_got idx t),
              rw (round_get, given, round_get, known, e, g) refl,
              (same, λ _. refl),
            )
      ]
    ]

    round_update-Total : Total b st (round_update fuel now uuid idx op st)
    unfolding round_update
    round_update-Total = elim (Option-cases op.id) [
      | inl miss ↦ (stop (bulk_required idx "id" "update"), rw (round_update, miss) refl, tt)
      | inr (id, given) ↦ elim (Option-cases op.status) [
        | inl miss ↦ (
          stop (bulk_required idx "status" "update"),
          rw (round_update, given, round_update, miss) refl,
          tt,
        )
        | inr (text, says) ↦ elim (Option-cases (parse_status text)) [
          | inl bad ↦ (
            stop (bulk_invalid_status idx text),
            rw (round_update, given, round_update, says, round_update, bad) refl,
            tt,
          )
          | inr (status, good) ↦
              let (r, e, keeps) = update_status_total now id status st b fuel f (omega arith) in
              elim (Result-cases r) [
                | inl (st', is) ↦ (
                  next st' true (bulk_updated idx id text),
                  rw
                      (
                        round_update, given, round_update, says, round_update, good, round_update,
                        e, is,
                      )
                      refl,
                  (longer-IsForest b (1 + b) st' (omega arith) (keeps st' is), λ x. cc),
                )
                | inr (why, is) ↦ (
                  stop (bulk_failed idx "update" why),
                  rw
                      (
                        round_update, given, round_update, says, round_update, good, round_update,
                        e, is,
                      )
                      refl,
                  tt,
                )
              ]
        ]
      ]
    ]

    round_delete-Total : Total b st (round_delete fuel now uuid idx op st)
    unfolding round_delete
    round_delete-Total = elim (Option-cases op.id) [
      | inl miss ↦ (stop (bulk_required idx "id" "delete"), rw (round_delete, miss) refl, tt)
      | inr (id, given) ↦
          let (st', out, e, f') = remove_node-IsForest id b st f in
          (
            next st' true (bulk_deleted idx id (length out)),
            rw (round_delete, given, round_delete, e) refl,
            (longer-IsForest b (1 + b) st' (omega arith) f', λ x. cc),
          )
    ]

    pub bulk_round-Total : (name : String) → Total b st (bulk_round fuel now uuid idx op st name)
    unfolding bulk_round
    bulk_round-Total name = elim (Bool-cases (name == "create")) [
      | inl a ↦ rw (bulk_round, a) round_create-Total
      | inr a ↦ elim (Bool-cases (name == "list")) [
        | inl c ↦ rw (bulk_round, a, c) round_list-Total
        | inr c ↦ elim (Bool-cases (name == "get")) [
          | inl d ↦ rw (bulk_round, a, c, d) round_get-Total
          | inr d ↦ elim (Bool-cases (name == "update")) [
            | inl g ↦ rw (bulk_round, a, c, d, g) round_update-Total
            | inr g ↦ elim (Bool-cases (name == "delete")) [
              | inl h ↦ rw (bulk_round, a, c, d, g, h) round_delete-Total
              | inr h ↦ (stop (bulk_unsupported idx name), rw (bulk_round, a, c, d, g, h) refl, tt)
            ]
          ]
        ]
      ]
    ]
