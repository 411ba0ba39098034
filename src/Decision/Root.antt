-- ===== src/Decision/Root.antt =====
-- `find_dt_root` and `dt_build_tree` on forests: they return, and the root is one.
use agent_squire.Base.{
  ℕ, zero, suc, ◌+◌, ◌≤◌, ◌<◌, String, ◌==◌, eq_iff, ◌≡◌, refl, true, ◌&&◌, Option, none, some,
  List, [], ◌∷◌, ◌∈◌, inl, inr, arith, Option-cases, Bool-cases,
}
use agent_squire.Graph.{IsRanked, Under, here, below}
use agent_squire.Store.Types.{Relationship}
use agent_squire.Store.Ops.{SquireState, token_detail}
use agent_squire.Todo.Tree.{Item, Items, item, nil, cons}
use agent_squire.Decision.Tree.{
  Sets, is_tree_edge, dt_children, parent_of, find_dt_root, dt_build_tree, dt_forest, status_of,
}

-- The tree that the relationships draw.
abbrev pub dt_kids : List Relationship → String → List String
dt_kids rels id = dt_children id rels

mem-dt_children :
    (rels : List Relationship) (r : Relationship)
    → r ∈ rels
    → is_tree_edge r ≡ true
    → r.object ∈ dt_children r.subject rels
unfolding dt_children
mem-dt_children [] r m e = absurd m
mem-dt_children (q ∷ rels) r (inl at) e = rw at (
    let holds : (r.subject == r.subject && is_tree_edge r) ≡ true =
      ground (arith, eq_iff r.subject r.subject) in
    rw holds (inl refl))
mem-dt_children (q ∷ rels) r (inr m) e =
    elim (Bool-cases (q.subject == r.subject && is_tree_edge q)) [
      | inl hit ↦ rw hit (inr (mem-dt_children rels r m e))
      | inr miss ↦ rw miss (mem-dt_children rels r m e)
    ]

parent_of-some :
    (id : String) (rels : List Relationship) (p : Relationship)
    → parent_of id rels ≡ some p
    → (p ∈ rels) × (p.object ≡ id) × (is_tree_edge p ≡ true)
unfolding parent_of
parent_of-some id [] p e = cc
parent_of-some id (r ∷ rels) p e = elim (Bool-cases (r.object == id && is_tree_edge r)) [
  | inl hit ↦
      let at : r ≡ p = cc (rw hit at e) in
      let o : r.object ≡ id = ground (arith, eq_iff r.object id) in
      let t : is_tree_edge r ≡ true = ground arith in (inl at, rw at at o, rw at at t)
  | inr miss ↦ let (m, o, t) = parent_of-some id rels p (rw miss at e) in (inr m, o, t)
]

-- The relationship that `parent_of` finds makes the node a child of its subject.
parent_of-child :
    (id : String) (rels : List Relationship) (p : Relationship)
    → parent_of id rels ≡ some p
    → id ∈ dt_kids rels p.subject
parent_of-child id rels p e =
    let (m, o, t) = parent_of-some id rels p e in rw o at (mem-dt_children rels p m t)

-- In a forest, with more fuel than the largest rank of an ancestor, `find_dt_root` returns a node
-- that no `considers` or `selects` relationship leads to, and from which the given node is reached.
pub find_dt_root_correct :
    (rels : List Relationship) (rank : String → ℕ) (bound : ℕ)
    → IsRanked (dt_kids rels) rank
    → ((k : String) → rank k ≤ bound)
    → (fuel : ℕ) (id : String) → bound < rank id + fuel
    → (root : String) × (find_dt_root fuel id rels ≡ some root)
      × (parent_of root rels ≡ none)
      × Under (dt_kids rels) root id
unfolding find_dt_root
find_dt_root_correct rels rank bound ranked top zero id h = absurd (omega (arith, top id))
find_dt_root_correct rels rank bound ranked top (suc fuel) id h =
    elim (Option-cases (parent_of id rels)) [
      | inl none' ↦ (id, rw (none', find_dt_root), none', here)
      | inr (p, e) ↦
          let child = parent_of-child id rels p e in
          let (root, found, last, under) =
            find_dt_root_correct rels rank bound ranked top fuel p.subject
              (omega (arith, ranked p.subject id child)) in
          (root, rw (e, find_dt_root) found, last, below under child)
    ]

dt_forest_total :
    (tree : String → Option Item) (cs : List String)
    → ((c : String) → c ∈ cs → (t : Item) × (tree c ≡ some t))
    → (ts : Items) × (dt_forest tree cs ≡ some ts)
unfolding dt_forest
dt_forest_total tree [] h = (nil, refl)
dt_forest_total tree (c ∷ cs) h =
    let (t, e) = h c (inl refl) in
    let (ts, f) = dt_forest_total tree cs (λ d m. h d (inr m)) in (cons t ts, rw (e, dt_forest, f))

-- In a forest, with more fuel than the rank of the node, `dt_build_tree` returns the object of the
-- node, with its computed status.
pub dt_build_tree_total :
    (rels : List Relationship) (s : SquireState) (e : Sets) (rank : String → ℕ)
    → IsRanked (dt_kids rels) rank
    → (fuel : ℕ) (id : String) → rank id < fuel
    → (title : String) × (children : Items) × (dt_build_tree rels s e fuel id
        ≡ some (item id title (status_of e id) children))
unfolding dt_build_tree
dt_build_tree_total rels s e rank ranked zero id h = absurd (omega arith)
dt_build_tree_total rels s e rank ranked (suc fuel) id h =
    let (ts, built) = dt_forest_total (dt_build_tree rels s e fuel) (dt_children id rels) (λ c m.
      let (title, children, b) =
        dt_build_tree_total rels s e rank ranked fuel c (omega (arith, ranked id c m)) in
      (item c title (status_of e c) children, b)) in
    (elim (token_detail s id) [ none ↦ id | some d ↦ d.short_desc ], ts, rw (built, dt_build_tree))
