-- ===== src/Decision/Select.antt =====
-- What `op_select` changes.
use agent_squire.Base.{
  ℕ, zero, suc, String, ◌==◌, eq_iff, ◌≡◌, ◌≢◌, refl, sym, ap, ◌∙◌, ◌||◌, Option, none, some, List,
  [], ◌∷◌, ◌++◌, contains, insert_set, contains-insert_set, arith, inl, inr, ◌∈◌, mem-append_right,
}
use agent_squire.Store.Types.{Relationship, TokenDetail, selects}
use agent_squire.Store.Ops.{SquireState, insert_relationship, token_detail}
use agent_squire.Todo.Index.Laws.{get_relationships_all}
use agent_squire.Tool.{Args, succeeded}
use agent_squire.Todo.Token.{edge}
use agent_squire.Todo.Tree.{Item}
use agent_squire.Decision.Tree.{
  Sets, dt_one, dt_children, parent_of, find_dt_root, dt_build_tree, dt_forest, status_of,
}
use agent_squire.Decision.Laws.{
  sets_of, sets_of-insert, parent_of-append, dt_children-append, dt_one-selects,
}
use agent_squire.Decision.Ops.{
  all_relationships, select_edge, op_select, op_resolve, op_get, selected,
}

all_relationships-insert :
    (s : SquireState) (r : Relationship)
    → all_relationships (insert_relationship s r) ≡ all_relationships s ++ r ∷ []
unfolding insert_relationship
all_relationships-insert s r =
    get_relationships_all (insert_relationship s r)
    ∙ ap (λ l. l ++ r ∷ []) (sym (get_relationships_all s))

-- The store after a selection with no assumption.
after_select : String → SquireState → SquireState
after_select id s = insert_relationship s (select_edge id s)

op_select-no_assumption :
    (session call_id : String) (fuel : ℕ) (args : Args) (id : String) (s : SquireState)
    → args.id ≡ some id
    → args.assumption ≡ none
    → op_select fuel session call_id args s
      ≡ some (after_select id s, succeeded call_id (selected id))
unfolding op_select after_select
op_select-no_assumption session call_id fuel args id s e f = rw (e, op_select, f, op_select)

same_detail :
    (id k : String) (s : SquireState) → token_detail (after_select id s) k ≡ token_detail s k
unfolding after_select insert_relationship token_detail
same_detail id k s = refl

rels_after_parent :
    (id : String) (p : Relationship) (s : SquireState)
    → parent_of id (all_relationships s) ≡ some p
    → (after_select id s).relationships ≡ s.relationships ++ edge p.subject selects id ∷ []
unfolding after_select insert_relationship select_edge
rels_after_parent id p s at = rw (at, select_edge)

-- The relationship that a selection of a root adds leads from the root to itself.
module _ (id : String) (s : SquireState) (root : parent_of id (all_relationships s) ≡ none) where
  select_edge_root : select_edge id s ≡ edge id selects id
  unfolding select_edge
  select_edge_root = rw (root, select_edge)

  rels_after :
      all_relationships (after_select id s) ≡ all_relationships s ++ edge id selects id ∷ []
  unfolding after_select
  rels_after =
      all_relationships-insert s (select_edge id s)
      ∙ ap (λ r. all_relationships s ++ r ∷ []) select_edge_root

  parent_after : parent_of id (all_relationships (after_select id s)) ≡ some (edge id selects id)
  parent_after =
      ap (parent_of id) rels_after
      ∙ parent_of-append id (all_relationships s) (edge id selects id) root
      ∙ ground (arith, eq_iff id id)

  find_dt_root_loops :
      (fuel : ℕ) → find_dt_root fuel id (all_relationships (after_select id s)) ≡ none
  unfolding find_dt_root
  find_dt_root_loops zero = refl
  find_dt_root_loops (suc fuel) = rw (parent_after, find_dt_root) (find_dt_root_loops fuel)

  own_child : id ∈ dt_children id (all_relationships (after_select id s))
  own_child =
      let e : dt_children id (all_relationships (after_select id s))
          ≡ dt_children id (all_relationships s) ++ id ∷ [] =
        ap (dt_children id) rels_after
        ∙ dt_children-append id (all_relationships s) (edge id selects id)
        ∙ ground (arith, eq_iff id id) in
      rw e (mem-append_right id (dt_children id (all_relationships s)) (id ∷ []) (inl refl))

dt_forest-none :
    (tree : String → Option Item) (c : String) (cs : List String)
    → c ∈ cs
    → tree c ≡ none
    → dt_forest tree cs ≡ none
unfolding dt_forest
dt_forest-none tree c [] m e = absurd m
dt_forest-none tree c (d ∷ cs) (inl at) e = rw (at, dt_forest, e)
dt_forest-none tree c (d ∷ cs) (inr m) e = ground (arith, dt_forest-none tree c cs m e)

dt_build_tree_loops :
    (rels : List Relationship) (s : SquireState) (e : Sets) (id : String)
    → id ∈ dt_children id rels
    → (fuel : ℕ) → dt_build_tree rels s e fuel id ≡ none
unfolding dt_build_tree
dt_build_tree_loops rels s e id m zero = refl
dt_build_tree_loops rels s e id m (suc fuel) = rw (
  dt_forest-none (dt_build_tree rels s e fuel) id (dt_children id rels) m
      (dt_build_tree_loops rels s e id m fuel),
  dt_build_tree,
)

-- Selecting a known node that no `considers` or `selects` relationship leads to, such as the root of a
-- decision, succeeds and makes the node its own child. From then on neither resolving that node nor
-- getting it ever returns, and neither does building a tree that starts at it.
pub op_select-root_diverges :
    (session call_id : String) (fuel : ℕ) (args : Args) (id : String) (d : TokenDetail)
    (s : SquireState)
    → args.id ≡ some id
    → args.assumption ≡ none
    → token_detail s id ≡ some d
    → parent_of id (all_relationships s) ≡ none
    → (s' : SquireState) × (op_select fuel session call_id args s
        ≡ some (s', succeeded call_id (selected id)))
      × (id ∈ dt_children id (all_relationships s'))
      × ((fuel' : ℕ) → op_resolve fuel' session call_id args s' ≡ none)
      × ((fuel' : ℕ) → op_get fuel' session call_id args s' ≡ none)
      × ((fuel' : ℕ) → dt_build_tree (all_relationships s') s' (sets_of s') fuel' id ≡ none)
unfolding op_resolve op_get
op_select-root_diverges session call_id fuel args id d s e f known root =
    let s' = after_select id s in
    (
      s',
      op_select-no_assumption session call_id fuel args id s e f,
      own_child id s root,
      λ fuel'. rw (e, op_resolve, find_dt_root_loops id s root fuel'),
      λ fuel'.
          rw (e, op_get, same_detail id id s, known, op_get, find_dt_root_loops id s root fuel'),
      dt_build_tree_loops (all_relationships s') s' (sets_of s') id (own_child id s root),
    )

-- The sets after a selection below a parent.
abbrev with_select : Sets → String → String → Sets
with_select e parent id = record e {
  incoming = insert_set e.incoming id;
  selects_set = insert_set e.selects_set parent;
}

sets_after :
    (id : String) (p : Relationship) (s : SquireState)
    → parent_of id (all_relationships s) ≡ some p
    → sets_of (after_select id s) ≡ with_select (sets_of s) p.subject id
unfolding after_select select_edge
sets_after id p s at =
    sets_of-insert s (select_edge id s)
    ∙ ap (dt_one (sets_of s)) (rw (at, select_edge))
    ∙ dt_one-selects (sets_of s) p.subject id

status-with_select :
    (e : Sets) (parent id k : String)
    → parent ≢ k
    → status_of (with_select e parent id) k ≡ status_of e k
unfolding status_of
status-with_select e parent id k ne =
    ground (arith, contains-insert_set e.selects_set parent k, eq_iff parent k)

-- Selecting an option below a parent with no assumption succeeds. It marks the parent as a subject of
-- `selects` and no other node; the relationships that were there stay, earlier selections of the same
-- parent among them, and one is added; and the status that is shown for the selected option does not
-- change.
pub op_select-parent :
    (session call_id : String) (fuel : ℕ) (args : Args) (id : String) (p : Relationship)
    (s : SquireState)
    → args.id ≡ some id
    → args.assumption ≡ none
    → parent_of id (all_relationships s) ≡ some p
    → p.subject ≢ id
    → (s' : SquireState) × (op_select fuel session call_id args s
        ≡ some (s', succeeded call_id (selected id)))
      × ((k : String)
          → contains (sets_of s').selects_set k
            ≡ (contains (sets_of s).selects_set k || p.subject == k))
      × (s'.relationships ≡ s.relationships ++ edge p.subject selects id ∷ [])
      × (status_of (sets_of s') id ≡ status_of (sets_of s) id)
op_select-parent session call_id fuel args id p s e f at ne =
    let s' = after_select id s in
    let sets = sets_after id p s at in
    (
      s',
      op_select-no_assumption session call_id fuel args id s e f,
      λ k.
          ap (λ (x : Sets). contains x.selects_set k) sets
          ∙ contains-insert_set (sets_of s).selects_set p.subject k,
      rels_after_parent id p s at,
      ap (λ x. status_of x id) sets ∙ status-with_select (sets_of s) p.subject id id ne,
    )
