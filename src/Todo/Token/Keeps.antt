-- ===== src/Todo/Token/Keeps.antt =====
-- That the other todo operations keep a forest, and that a listing of one returns.
use agent_squire.Base.{
  ℕ, zero, suc, ◌≤◌, ◌<◌, String, ◌≡◌, refl, sym, ap, subst, inl, inr, ◌∈◌, Bool, Option, some,
  List, [], ◌∷◌, Option-cases, arith,
}
use agent_squire.Store.Ops.{SquireState, token_exists, token_detail}
use agent_squire.Tool.{Args, ToolResult, succeeded}
use agent_squire.Todo.Done.{kids_of}
use agent_squire.Todo.Done.Decides.{is_todo_done_total}
use agent_squire.Todo.Index.{load_todo_indices}
use agent_squire.Todo.Index.Laws.{edges_of}
use agent_squire.Todo.Tree.{Items, nil, cons, item, status_text, build_items, build_tree_json}
use agent_squire.Todo.Token.{Output, token_list, token_update, todo_tree}
use agent_squire.Todo.Token.Update.{token_update-done}
use agent_squire.Todo.Token.Forest.{IsTodoForest, kids_in}

-- A forest stays one when the children and the tokens are as they were.
same-IsTodoForest :
    (b : ℕ) (s s' : SquireState)
    → s'.tokens ≡ s.tokens
    → ((k : String) → kids_in s' k ≡ kids_in s k)
    → IsTodoForest b s
    → IsTodoForest b s'
unfolding token_exists
same-IsTodoForest b s s' tokens kids f = record {
  rank = f.rank;
  rank_lt = f.rank_lt;
  falls = λ p c m. f.falls p c (rw (kids p) at m);
  upper = λ p c m. rw tokens (f.upper p c (rw (kids p) at m));
  lower = λ p c m. rw tokens (f.lower p c (rw (kids p) at m));
}

-- Marking an item of a forest done returns, and keeps it a forest, be it accepted or refused.
pub token_update-IsTodoForest :
    (fuel : ℕ) (session : Option String) (call_id : String) (args : Args) (id : String)
    (s : SquireState) (b : ℕ)
    → args.id ≡ some id
    → args.status ≡ some "done"
    → IsTodoForest b s
    → b ≤ fuel
    → (s' : SquireState) × (r : ToolResult Output) × (token_update fuel session call_id args s
        ≡ some (s', r))
      × IsTodoForest b s'
token_update-IsTodoForest fuel session call_id args id s b e status f enough =
    let (s', r, done, ends) =
      token_update-done fuel session call_id args id s f.rank e status f.falls
        (omega (arith, f.rank_lt id)) in
    elim ends [
      | inl (_, same, _) ↦ (s', r, done, subst (IsTodoForest b) (sym same) f)
      | inr (_, marked) ↦ (
        s',
        r,
        done,
        same-IsTodoForest b s s' marked.tokens (λ k. ap (λ o. kids_of o k) marked.outgoing) f,
      )
    ]

build_items_total :
    (s : SquireState) (done : String → Option Bool) (kids : String → List String)
    (tree : List String → Option Items) (ids : List String)
    → ((id : String) → id ∈ ids → (d : Bool) × (done id ≡ some d))
    → ((id : String) → id ∈ ids → (t : Items) × (tree (kids id) ≡ some t))
    → (t : Items) × (build_items s done kids tree ids ≡ some t)
unfolding build_items
build_items_total s done kids tree [] h g = (nil, refl)
build_items_total s done kids tree (id ∷ ids) h g =
    let (rest, e) =
      build_items_total s done kids tree ids (λ k m. h k (inr m)) (λ k m. g k (inr m)) in
    elim (Option-cases (token_detail s id)) [
      | inl miss ↦ (rest, rw (build_items, miss) e)
      | inr (d, hit) ↦
          let (b, is) = h id (inl refl) in
          let (t, at) = g id (inl refl) in
          (
            cons (item id d.short_desc (status_text b) t) rest,
            rw (build_items, hit, build_items, is, at, e) refl,
          )
    ]

tree_total :
    (s : SquireState) (b : ℕ) (f : IsTodoForest b s) (fuel : ℕ) (ids : List String)
    → ((id : String) → id ∈ ids → f.rank id < fuel)
    → (t : Items) × (build_tree_json s (edges_of s).outgoing (edges_of s).marked (suc fuel) ids
        ≡ some t)
unfolding build_tree_json
tree_total s b f zero ids h =
    build_items_total s _ _ _ ids (λ id m. absurd (omega (arith, h id m)))
      (λ id m. absurd (omega (arith, h id m)))
tree_total s b f (suc fuel) ids h =
    build_items_total s _ _ _ ids
      (λ id m.
        is_todo_done_total (edges_of s).marked (edges_of s).outgoing f.rank f.falls (suc fuel) id
          (h id m))
      (λ id m.
        tree_total s b f fuel (kids_in s id) (λ c mc. omega (arith, h id m, f.falls id c mc)))

-- On a forest whose ranks are below the fuel, `token_list` returns and succeeds.
pub token_list_total :
    (fuel : ℕ) (session : Option String) (call_id : String) (s : SquireState) (b : ℕ)
    → IsTodoForest b s
    → b < fuel
    → (items : Items) × (token_list fuel session call_id s
        ≡ some (s, succeeded call_id (todo_tree items)))
unfolding token_list
token_list_total zero session call_id s b f h = absurd (omega arith)
token_list_total (suc fuel) session call_id s b f h =
    let (t, e) =
      tree_total s b f fuel (load_todo_indices s).root_ids (λ id m. omega (arith, f.rank_lt id)) in
    (t, rw (token_list, e) refl)
