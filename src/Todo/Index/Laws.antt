-- ===== src/Todo/Index/Laws.antt =====
-- What a new relationship changes in the indices.
use agent_squire.Base.{
  eq_iff, ◌≡◌, ◌≢◌, refl, sym, ap, ◌∙◌, true, List, [], ◌∷◌, ◌++◌, none, retain, arith,
}
use agent_squire.Store.Types.{Relationship, subtask, marked_done}
use agent_squire.Store.Ops.{SquireState, get_relationships, insert_relationship, list_token_ids}
use agent_squire.Todo.Index.{Edges, index_one, index_from, no_edges, find_roots, load_todo_indices}

pub index_from-append :
    (e : Edges) (xs : List Relationship) (r : Relationship)
    → index_from e (xs ++ r ∷ []) ≡ index_one (index_from e xs) r
unfolding index_from
index_from-append e [] r = refl
index_from-append e (x ∷ xs) r = index_from-append (index_one e x) xs r

retain_all {ℓ} : {A : Type ℓ} (xs : List A) → retain (λ _. true) xs ≡ xs
retain_all [] = refl
retain_all (x ∷ xs) = ap (λ l. x ∷ l) (retain_all xs)

-- With no filter, all relationships are returned.
pub get_relationships_all : (s : SquireState) → get_relationships s none none none ≡ s.relationships
unfolding get_relationships
get_relationships_all s = retain_all s.relationships

-- The edges that are read from a store.
abbrev pub edges_of : SquireState → Edges
edges_of s = (load_todo_indices s).edges

pub index-insert :
    (s : SquireState) (r : Relationship)
    → index_from no_edges (get_relationships (insert_relationship s r) none none none)
      ≡ index_one (index_from no_edges (get_relationships s none none none)) r
unfolding insert_relationship
index-insert s r =
    ap (index_from no_edges) (get_relationships_all (insert_relationship s r))
    ∙ index_from-append no_edges s.relationships r
    ∙ ap (λ l. index_one (index_from no_edges l) r) (sym (get_relationships_all s))

pub edges_of-insert :
    (s : SquireState) (r : Relationship)
    → edges_of (insert_relationship s r) ≡ index_one (edges_of s) r
unfolding load_todo_indices
edges_of-insert s r = index-insert s r

-- The edges depend on the relationships alone.
pub edges_of-same :
    (s' s : SquireState) → s'.relationships ≡ s.relationships → edges_of s' ≡ edges_of s
unfolding load_todo_indices
edges_of-same s' s e =
    ap (index_from no_edges) (get_relationships_all s' ∙ e ∙ sym (get_relationships_all s))

pub edges_of-relationships :
    (s' s : SquireState) (r : Relationship)
    → s'.relationships ≡ s.relationships ++ r ∷ []
    → edges_of s' ≡ index_one (edges_of s) r
unfolding load_todo_indices
edges_of-relationships s' s r e =
    ap (index_from no_edges) (get_relationships_all s' ∙ e)
    ∙ index_from-append no_edges s.relationships r
    ∙ ap (λ l. index_one (index_from no_edges l) r) (sym (get_relationships_all s))

-- A relationship of another predicate is not indexed.
pub index_one_other :
    (e : Edges) (r : Relationship)
    → r.predicate ≢ subtask
    → r.predicate ≢ marked_done
    → index_one e r ≡ e
unfolding index_one
index_one_other e r a b = ground (arith, eq_iff r.predicate subtask, eq_iff r.predicate marked_done)

-- Such a relationship leaves all that is read from the store as it was.
pub load_insert_other :
    (s : SquireState) (r : Relationship)
    → r.predicate ≢ subtask
    → r.predicate ≢ marked_done
    → load_todo_indices (insert_relationship s r) ≡ load_todo_indices s
unfolding load_todo_indices insert_relationship list_token_ids
load_insert_other s r a b =
    ap (find_roots (list_token_ids s)) (index-insert s r ∙ index_one_other _ r a b)
