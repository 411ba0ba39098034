-- ===== src/Todo/Token/Delete.antt =====
-- What `token_delete` changes.
use agent_squire.Base.{
  ℕ, zero, suc, String, eq_iff, ◌≡◌, ◌≢◌, refl, ap, ◌∙◌, Bool, Option, none, some, List, [], ◌∷◌,
  Bool-cases, arith, inl, inr, length, ◌-◌, true, contains, ◌↔◌, IsDistinct,
}
use agent_squire.Store.Types.{Relationship, subtask, marked_done}
use agent_squire.Store.Ops.{SquireState, token_detail, insert_relationship, get_relationships}
use agent_squire.Tool.{ToolResult, Args, succeeded}
use agent_squire.Base.Dict.{Dict, lookup}
use mathlib.Core.Option
use agent_squire.Todo.Index.{load_todo_indices}
use agent_squire.Todo.Index.Laws.{load_insert_other, edges_of}
use agent_squire.Todo.Tree.{Items, build_items, build_tree_json}
use agent_squire.Graph.{Under}
use agent_squire.Graph.Collect.{collect-IsDistinct}
use agent_squire.Todo.Done.{is_todo_done, kids_of, collect_descendant_ids}
use agent_squire.Todo.Done.Constraints.{collect_descendant_ids_correct}
use agent_squire.Todo.Token.{
  Output, Reply, edge, touches, delete_one, delete_edges, token_delete, token_list, deleted,
}

deleted_ne : ◌≢◌ {A = String} "deleted" subtask × ◌≢◌ {A = String} "deleted" marked_done
deleted_ne =
    (ground (arith, eq_iff "deleted" subtask), ground (arith, eq_iff "deleted" marked_done))

delete_one-load :
    (id : String) (descendants : List String) (r : Relationship) (s : SquireState)
    → load_todo_indices (delete_one id descendants r s) ≡ load_todo_indices s
unfolding delete_one
delete_one-load id descendants r s = elim (Bool-cases (touches id descendants r)) [
  | inl hit ↦
      rw hit (load_insert_other s (edge r.subject "deleted" r.object) deleted_ne.0 deleted_ne.1)
  | inr miss ↦ rw miss
]

delete_edges-load :
    (id : String) (descendants : List String) (rels : List Relationship) (s : SquireState)
    → load_todo_indices (delete_edges id descendants rels s) ≡ load_todo_indices s
unfolding delete_edges
delete_edges-load id descendants [] s = refl
delete_edges-load id descendants (r ∷ rels) s =
    delete_edges-load id descendants rels (delete_one id descendants r s)
    ∙ delete_one-load id descendants r s

delete_one-tokens :
    (id : String) (descendants : List String) (r : Relationship) (s : SquireState)
    → (delete_one id descendants r s).tokens ≡ s.tokens
unfolding delete_one insert_relationship
delete_one-tokens id descendants r s = ground arith

delete_edges-tokens :
    (id : String) (descendants : List String) (rels : List Relationship) (s : SquireState)
    → (delete_edges id descendants rels s).tokens ≡ s.tokens
unfolding delete_edges
delete_edges-tokens id descendants [] s = refl
delete_edges-tokens id descendants (r ∷ rels) s =
    delete_edges-tokens id descendants rels (delete_one id descendants r s)
    ∙ delete_one-tokens id descendants r s

-- A tree is built from the tokens and the edges alone.
build_items-tokens :
    (s t : SquireState) (done : String → Option Bool) (kids : String → List String)
    (tree tree' : List String → Option Items) (ids : List String)
    → s.tokens ≡ t.tokens
    → ((l : List String) → tree l ≡ tree' l)
    → build_items s done kids tree ids ≡ build_items t done kids tree' ids
unfolding build_items token_detail
build_items-tokens s t done kids tree tree' [] e f = refl
build_items-tokens s t done kids tree tree' (id ∷ ids) e f =
    ground
      (arith, f (kids id), build_items-tokens s t done kids tree tree' ids e f, ap (lookup id) e)

pub build_tree-tokens :
    (s t : SquireState) (outgoing : Dict (List String)) (marked : List String) (fuel : ℕ)
    (ids : List String)
    → s.tokens ≡ t.tokens
    → build_tree_json s outgoing marked fuel ids ≡ build_tree_json t outgoing marked fuel ids
unfolding build_tree_json
build_tree-tokens s t outgoing marked zero ids e = refl
build_tree-tokens s t outgoing marked (suc fuel) ids e =
    build_items-tokens s t (is_todo_done marked outgoing fuel) (kids_of outgoing)
      (build_tree_json s outgoing marked fuel) (build_tree_json t outgoing marked fuel) ids e
      (λ l. build_tree-tokens s t outgoing marked fuel l e)

-- The reply to a listing, without the store.
abbrev pub listing : ℕ → Option String → String → SquireState → Option (ToolResult Output)
listing fuel session call_id s = Option.map (λ (q : Reply). q.1) (token_list fuel session call_id s)

listing-eq :
    (fuel : ℕ) (session : Option String) (call_id : String) (s t : SquireState)
    → s.tokens ≡ t.tokens
    → load_todo_indices s ≡ load_todo_indices t
    → listing fuel session call_id s ≡ listing fuel session call_id t
unfolding token_list
listing-eq fuel session call_id s t e f = ground (
  arith,
  f,
  build_tree-tokens s t (load_todo_indices t).edges.outgoing (load_todo_indices t).edges.marked fuel
      (load_todo_indices t).root_ids e,
)

collect_descendant_ids-IsDistinct :
    (id : String) (outgoing : Dict (List String)) (out : List String)
    → collect_descendant_ids id outgoing ≡ some out
    → IsDistinct out
unfolding collect_descendant_ids
collect_descendant_ids-IsDistinct id outgoing out e =
    collect-IsDistinct (kids_of outgoing) _ (id ∷ []) [] out tt e

-- `token_delete` of an identifier always returns and reports success. The number that it reports is that
-- of the item and all its descendants, each counted once, less one; but a listing afterwards shows what a
-- listing before it showed, and no token is lost.
pub token_delete-keeps :
    (fuel : ℕ) (session : Option String) (call_id : String) (args : Args) (id : String)
    (s : SquireState)
    → args.id ≡ some id
    → (s' : SquireState) × (out : List String) × (token_delete fuel session call_id args s
        ≡ some (s', succeeded call_id (deleted id id (length out - 1))))
      × IsDistinct out
      × ((d : String) → (contains out d ≡ true) ↔ Under (kids_of (edges_of s).outgoing) id d)
      × (s'.tokens ≡ s.tokens)
      × ((fuel' : ℕ) → listing fuel' session call_id s' ≡ listing fuel' session call_id s)
unfolding token_delete
token_delete-keeps fuel session call_id args id s e =
    let (out, found, exact) = collect_descendant_ids_correct id (edges_of s).outgoing in
    let rels = get_relationships s none none none in
    let s' = delete_edges id out rels s in
    let same = delete_edges-tokens id out rels s in
    (
      s',
      out,
      rw (e, found),
      collect_descendant_ids-IsDistinct id (edges_of s).outgoing out found,
      exact,
      same,
      λ fuel'. listing-eq fuel' session call_id s' s same (delete_edges-load id out rels s),
    )
