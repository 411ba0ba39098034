-- ===== src/Todo/Token/Create.antt =====
-- What `token_create` changes.
use agent_squire.Base.{
  ℕ, String, ◌==◌, eq_iff, ◌≡◌, refl, sym, ap, ◌∙◌, false, Option, none, some, List, [], ◌∷◌, ◌++◌,
  if◌then◌else◌, unwrap_or, append-nil, append, arith, Option-cases, inl, inr,
}
use agent_squire.Base.Dict.{lookup, lookup-insert, lookup-upsert}
use agent_squire.Store.Types.{StoredToken, NewTokenSpec, Relationship, subtask, marked_done}
use agent_squire.Store.Ops.{SquireState, token_exists, upsert_token, insert_relationship, new_token}
use agent_squire.Slug.Chars.{trim}
use agent_squire.Slug.Defs.{slugify}
use agent_squire.Slug.Fresh.{todo_slug_fresh, IsNumbered}
use agent_squire.Tool.{Args, succeeded}
use agent_squire.Todo.Done.{kids_of}
use agent_squire.Todo.Index.{Edges, index_one}
use agent_squire.Todo.Index.Laws.{edges_of, edges_of-relationships, edges_of-same}
use agent_squire.Todo.Token.{
  concept_token, edge, create_item, token_create, created, nil_uuid, is_blank, turn_of,
}

-- A token under an identifier that is not in use is added, and no other token changes.
pub upsert_token-fresh :
    (s : SquireState) (n : NewTokenSpec) (turn : ℕ) (session : String) (k : String)
    → token_exists s n.id ≡ false
    → lookup k (upsert_token s n turn session).tokens
      ≡ (if n.id == k then some (new_token n turn session) else lookup k s.tokens)
unfolding upsert_token token_exists
upsert_token-fresh s n turn session k new =
    rw new (lookup-insert n.id k (new_token n turn session) s.tokens)

-- The relationships after an item was created under a parent, or under none.
abbrev pub with_parent : Option String → String → List Relationship → List Relationship
with_parent none id rels = rels
with_parent (some pid) id rels = rels ++ edge pid subtask id ∷ []

-- The children that a new item adds to those of a node.
abbrev pub new_child : Option String → String → String → List String
new_child none id k = []
new_child (some pid) id k = if pid == k then id ∷ [] else []

-- What `token_create` promises of the new store.
pub record Created (s s' : SquireState) (id title : String) (parent : Option String) : Type 0 where
  pub fresh : token_exists s id ≡ false
  pub token : StoredToken
  pub titled : token.short_desc ≡ title
  pub tokens :
      (k : String) → lookup k s'.tokens ≡ (if id == k then some token else lookup k s.tokens)
  pub relationships : s'.relationships ≡ with_parent parent id s.relationships

upserted-Created :
    (s : SquireState) (id title session : String) (turn : ℕ)
    → token_exists s id ≡ false
    → Created s (upsert_token s (concept_token id title) turn session) id title none
upserted-Created s id title session turn new =
    let n = concept_token id title in
    record {
      fresh = new;
      token = new_token n turn session;
      titled = unfold new_token in refl;
      tokens = λ k. upsert_token-fresh s n turn session k new;
      relationships = unfold upsert_token in refl;
    }

pub create_item-Created :
    (session : Option String) (title id : String) (parent : Option String) (s : SquireState)
    → token_exists s id ≡ false
    → Created s (create_item session title id parent s) id title parent
unfolding create_item
create_item-Created session title id none s new =
    upserted-Created s id title (unwrap_or nil_uuid session) (turn_of session s) new
create_item-Created session title id (some pid) s new =
    let c = upserted-Created s id title (unwrap_or nil_uuid session) (turn_of session s) new in
    record {
      fresh = new;
      token = c.token;
      titled = c.titled;
      tokens = unfold insert_relationship in c.tokens;
      relationships =
          unfold insert_relationship in ap (λ l. l ++ edge pid subtask id ∷ []) c.relationships;
    }

kids_of-push :
    (e : Edges) (pid id k : String)
    → kids_of (index_one e (edge pid subtask id)).outgoing k
      ≡ kids_of e.outgoing k ++ (if pid == k then id ∷ [] else [])
unfolding index_one
kids_of-push e pid id k = elim (Option-cases (lookup k e.outgoing)) [
  | inl leaf ↦ ground (
    arith,
    eq_iff subtask subtask,
    eq_iff subtask marked_done,
    lookup-upsert pid k [] (λ vs. vs ++ id ∷ []) e.outgoing,
  )
  | inr (cs, at) ↦ ground (
    arith,
    append-nil cs,
    eq_iff subtask subtask,
    eq_iff subtask marked_done,
    lookup-upsert pid k [] (λ vs. vs ++ id ∷ []) e.outgoing,
  )
]

pub Created-kids :
    (s s' : SquireState) (id title : String) (parent : Option String) (k : String)
    → Created s s' id title parent
    → kids_of (edges_of s').outgoing k ≡ kids_of (edges_of s).outgoing k ++ new_child parent id k
Created-kids s s' id title none k c =
    ap (λ (x : Edges). kids_of x.outgoing k) (edges_of-same s' s c.relationships)
    ∙ sym (append-nil (kids_of (edges_of s).outgoing k))
Created-kids s s' id title (some pid) k c =
    ap (λ (x : Edges). kids_of x.outgoing k)
      (edges_of-relationships s' s (edge pid subtask id) c.relationships)
    ∙ kids_of-push (edges_of s) pid id k

-- With a title that is not blank `token_create` always returns and succeeds. The new item has an
-- identifier that no token had, built from the slug of the trimmed title, and carries that title; all
-- other tokens are as they were. It becomes the last child of the parent, if one is given, and no
-- node's children change otherwise.
pub token_create_lem :
    (fuel : ℕ) (session : Option String) (call_id : String) (args : Args) (raw : String)
    (s : SquireState)
    → args.title ≡ some raw
    → is_blank (trim raw) ≡ false
    → (s' : SquireState) × (id : String) × (token_create fuel session call_id args s
        ≡ some (s', succeeded call_id (created (trim raw) id)))
      × IsNumbered (append "TODO_" (slugify (trim raw))) id
      × Created s s' id (trim raw) args.parent_id
      × ((k : String)
          → kids_of (edges_of s').outgoing k
            ≡ kids_of (edges_of s).outgoing k ++ new_child args.parent_id id k)
unfolding token_create
token_create_lem fuel session call_id args raw s e blank =
    let (id, found, new, shape) = todo_slug_fresh (trim raw) s in
    let s' = create_item session (trim raw) id args.parent_id s in
    let made = create_item-Created session (trim raw) id args.parent_id s new in
    (
      s',
      id,
      rw (e, token_create, blank, found),
      shape,
      made,
      λ k. Created-kids s s' id (trim raw) args.parent_id k made,
    )
