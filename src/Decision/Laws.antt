-- ===== src/Decision/Laws.antt =====
-- What a new relationship changes in what the decision-tree tool reads.
use agent_squire.Base.{
  String, ◌==◌, ◌≡◌, refl, sym, ap, ◌∙◌, Bool, false, ◌&&◌, none, some, List, [], ◌∷◌, ◌++◌, map,
  retain, find, if◌then◌else◌, insert_set, arith,
}
use agent_squire.Store.Types.{
  Relationship, considers, selects, confirmed_by, invalidated_by, abandoned, resolves,
}
use agent_squire.Store.Ops.{SquireState, insert_relationship}
use agent_squire.Todo.Index.Laws.{get_relationships_all}
use agent_squire.Todo.Token.{edge}
use agent_squire.Decision.Tree.{
  Sets, no_sets, sort_one, dt_one, dt_from, load_dt_indices, is_tree_edge, dt_children, parent_of,
}

dt_from-append :
    (e : Sets) (xs : List Relationship) (r : Relationship)
    → dt_from e (xs ++ r ∷ []) ≡ dt_one (dt_from e xs) r
unfolding dt_from
dt_from-append e [] r = refl
dt_from-append e (x ∷ xs) r = dt_from-append (dt_one e x) xs r

-- The sets that are read from a store.
abbrev pub sets_of : SquireState → Sets
sets_of s = (load_dt_indices s).sets

pub sets_of-insert :
    (s : SquireState) (r : Relationship) → sets_of (insert_relationship s r) ≡ dt_one (sets_of s) r
unfolding load_dt_indices insert_relationship
sets_of-insert s r =
    ap (dt_from no_sets) (get_relationships_all (insert_relationship s r))
    ∙ dt_from-append no_sets s.relationships r
    ∙ ap (λ l. dt_one (dt_from no_sets l) r) (sym (get_relationships_all s))

find-append {ℓ} :
    {A : Type ℓ} (p : A → Bool) (xs : List A) (y : A)
    → find p xs ≡ none
    → find p (xs ++ y ∷ []) ≡ (if p y then some y else none)
find-append p [] y e = refl
find-append p (x ∷ xs) y e = ground (arith, find-append p xs y)

-- The parent of a node that had none, after a relationship is added.
pub parent_of-append :
    (id : String) (rels : List Relationship) (r : Relationship)
    → parent_of id rels ≡ none
    → parent_of id (rels ++ r ∷ []) ≡ (if r.object == id && is_tree_edge r then some r else none)
unfolding parent_of
parent_of-append id rels r e = find-append (λ q. q.object == id && is_tree_edge q) rels r e

map-retain-append {ℓ κ} :
    {A : Type ℓ} {B : Type κ} (f : A → B) (p : A → Bool) (xs : List A) (y : A)
    → map f (retain p (xs ++ y ∷ [])) ≡ map f (retain p xs) ++ (if p y then f y ∷ [] else [])
map-retain-append f p [] y = ground arith
map-retain-append f p (x ∷ xs) y = ground (arith, map-retain-append f p xs y)

pub dt_children-append :
    (parent : String) (rels : List Relationship) (r : Relationship)
    → dt_children parent (rels ++ r ∷ [])
      ≡ dt_children parent rels
        ++ (if r.subject == parent && is_tree_edge r then r.object ∷ [] else [])
unfolding dt_children
dt_children-append parent rels r =
    map-retain-append (λ (q : Relationship). q.object) (λ q. q.subject == parent && is_tree_edge q)
      rels r

-- The predicates of the tool are different texts.
select_tests : (selects == considers) ≡ false
select_tests = refl

module _ (e : Sets) (subject object : String) where
  pub dt_one-selects : dt_one e (edge subject selects object) ≡ record e {
    incoming = insert_set e.incoming object;
    selects_set = insert_set e.selects_set subject;
  }
  unfolding dt_one sort_one
  dt_one-selects = refl

  pub dt_one-considers : dt_one e (edge subject considers object) ≡ record e {
    incoming = insert_set e.incoming object;
    considers_set = insert_set e.considers_set subject;
  }
  unfolding dt_one sort_one
  dt_one-considers = refl

  pub dt_one-confirmed :
      dt_one e (edge subject confirmed_by object)
      ≡ record e { confirmed_set = insert_set e.confirmed_set subject }
  unfolding dt_one sort_one
  dt_one-confirmed = refl

  pub dt_one-invalidated :
      dt_one e (edge subject invalidated_by object)
      ≡ record e { invalidated_set = insert_set e.invalidated_set subject }
  unfolding dt_one sort_one
  dt_one-invalidated = refl

  pub dt_one-abandoned :
      dt_one e (edge subject abandoned object)
      ≡ record e { abandoned_set = insert_set e.abandoned_set subject }
  unfolding dt_one sort_one
  dt_one-abandoned = refl

  pub dt_one-resolves :
      dt_one e (edge subject resolves object)
      ≡ record e { resolves_set = insert_set e.resolves_set subject }
  unfolding dt_one sort_one
  dt_one-resolves = refl
