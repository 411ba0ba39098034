-- ===== src/Todo/Token/Loop.antt =====
-- A new item that is given as its own parent.
use agent_squire.Base.{
  ℕ, zero, suc, String, eq_iff, ◌≡◌, refl, sym, ap, ◌∙◌, false, Option, none, some, List, [], ◌∷◌,
  contains, Option-cases, inl, inr, arith,
}
use agent_squire.Base.Dict.{Dict, lookup}
use agent_squire.Store.Ops.{SquireState, token_detail, detail_of}
use agent_squire.Store.Types.{TokenDetail, subtask, marked_done}
use agent_squire.Slug.Chars.{trim}
use agent_squire.Slug.Defs.{todo_slug}
use agent_squire.Slug.Fresh.{todo_slug_fresh}
use agent_squire.Tool.{Args, succeeded}
use agent_squire.Todo.Done.{is_todo_done, all_of, kids_of}
use agent_squire.Todo.Tree.{build_tree_json, build_items}
use agent_squire.Todo.Index.{Edges, index_one}
use agent_squire.Todo.Index.Laws.{edges_of, edges_of-relationships}
use agent_squire.Todo.Token.{token_create, create_item, created, is_blank, tree_of, edge}
use agent_squire.Todo.Token.Create.{Created, create_item-Created, Created-kids}

-- On an item that is its own only child the recursion of `is_todo_done` does not end.
own_child_diverges :
    (marked : List String) (outgoing : Dict (List String)) (id : String)
    → contains marked id ≡ false
    → kids_of outgoing id ≡ id ∷ []
    → (fuel : ℕ) → is_todo_done marked outgoing fuel id ≡ none
unfolding is_todo_done all_of
own_child_diverges marked outgoing id free own zero = refl
own_child_diverges marked outgoing id free own (suc fuel) =
    elim (Option-cases (lookup id outgoing)) [
      | inl miss ↦ cc (rw miss at own)
      | inr (cs, hit) ↦
          let at : cs ≡ id ∷ [] = rw hit at own in
          rw
            (
              is_todo_done,
              free,
              is_todo_done,
              hit,
              at,
              all_of,
              own_child_diverges marked outgoing id free own fuel,
            )
            refl
    ]

own_tree_diverges :
    (s : SquireState) (id : String) (d : TokenDetail)
    → token_detail s id ≡ some d
    → contains (edges_of s).marked id ≡ false
    → kids_of (edges_of s).outgoing id ≡ id ∷ []
    → (fuel : ℕ) → tree_of fuel s id ≡ none
unfolding tree_of build_tree_json build_items
own_tree_diverges s id d known free own zero = refl
own_tree_diverges s id d known free own (suc fuel) =
    rw
      (
        tree_of,
        build_tree_json,
        build_items,
        known,
        build_items,
        own_child_diverges (edges_of s).marked (edges_of s).outgoing id free own fuel,
      )
      refl

marked_same : (e : Edges) (pid id : String) → (index_one e (edge pid subtask id)).marked ≡ e.marked
unfolding index_one
marked_same e pid id = ground (arith, eq_iff subtask subtask, eq_iff subtask marked_done)

known_after :
    (s s' : SquireState) (id title : String) (parent : Option String)
    → Created s s' id title parent
    → (d : TokenDetail) × (token_detail s' id ≡ some d)
unfolding token_detail
known_after s s' id title parent c = (detail_of c.token, ground (arith, c.tokens id, eq_iff id id))

-- `token_create` with a parent that is the very identifier that the new item will get succeeds, as the
-- parent is not looked up. If no relationship names that identifier yet, the item is its own only
-- child then, and with no amount of fuel its status is computed or its tree is built.
pub token_create-diverges :
    (session : Option String) (call_id : String) (args : Args) (raw id : String) (s : SquireState)
    → args.title ≡ some raw
    → is_blank (trim raw) ≡ false
    → todo_slug (trim raw) s ≡ some id
    → args.parent_id ≡ some id
    → kids_of (edges_of s).outgoing id ≡ []
    → contains (edges_of s).marked id ≡ false
    → (s' : SquireState) × ((fuel : ℕ)
        → token_create fuel session call_id args s
          ≡ some (s', succeeded call_id (created (trim raw) id)))
      × (kids_of (edges_of s').outgoing id ≡ id ∷ [])
      × ((fuel : ℕ) → is_todo_done (edges_of s').marked (edges_of s').outgoing fuel id ≡ none)
      × ((fuel : ℕ) → tree_of fuel s' id ≡ none)
unfolding token_create
token_create-diverges session call_id args raw id s e blank found own none_yet free =
    let (id', found', new', _) = todo_slug_fresh (trim raw) s in
    let same : id' ≡ id = cc (sym found' ∙ found) in
    let s' = create_item session (trim raw) id (some id) s in
    let made = create_item-Created session (trim raw) id (some id) s (rw same at new') in
    let (d, known) = known_after s s' id (trim raw) (some id) made in
    let kids : kids_of (edges_of s').outgoing id ≡ id ∷ [] =
      Created-kids s s' id (trim raw) (some id) id made ∙ ground (arith, eq_iff id id) in
    let unmarked : contains (edges_of s').marked id ≡ false =
      ap (λ (x : Edges). contains x.marked id)
        (edges_of-relationships s' s (edge id subtask id) made.relationships)
      ∙ ap (λ m. contains m id) (marked_same (edges_of s) id id)
      ∙ free in
    (
      s',
      λ fuel. rw (e, token_create, blank, found, own) refl,
      kids,
      own_child_diverges (edges_of s').marked (edges_of s').outgoing id unmarked kids,
      own_tree_diverges s' id d known unmarked kids,
    )
