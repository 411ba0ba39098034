-- ===== src/Todo/Json/Walk.antt =====
-- The walk to the root and the tree of a JSON-file store return on forests.
use agent_squire.Base.{
  ℕ, zero, suc, ◌+◌, ◌<◌, ◌≡◌, refl, sym, ap, ◌∙◌, inl, inr, ◌∈◌, String, true, Option, some, List,
  [], ◌∷◌, Option-cases, arith,
}
use agent_squire.Base.Dict.{Dict, lookup, contains_key}
use agent_squire.Graph.{Under, here, below}
use agent_squire.Todo.Tree.{Items, nil, cons, item}
use agent_squire.Todo.Json.{TodoNode, TodoStore, kids, stored_parent}
use agent_squire.Todo.Json.Tool.{json_items, build_tree_json, walk_up, status_str}
use agent_squire.Todo.Json.Views.{kids-hit, kids-key}
use agent_squire.Todo.Json.Forest.{IsForest, IsRoot}

walk_up-IsRoot :
    (st : TodoStore) (b : ℕ) (f : IsForest b st) (fuel : ℕ) (id : String)
    → contains_key id st.nodes ≡ true
    → f.depth id < fuel
    → (root : String) × (walk_up st.nodes fuel id ≡ some root)
      × IsRoot st.nodes root
      × Under (kids st.nodes) root id
unfolding walk_up
walk_up-IsRoot st b f zero id k h = absurd (omega arith)
walk_up-IsRoot st b f (suc fuel) id k h = elim (Option-cases (stored_parent st.nodes id)) [
  | inl top ↦ (id, rw (walk_up, top) refl, (k, top), here)
  | inr (p, up) ↦
      let (m, lt) = f.parent p id up in
      let (root, e, is, u) =
        walk_up-IsRoot st b f fuel p (kids-key st.nodes p id m) (omega arith) in
      (root, rw (walk_up, up) e, is, below u m)
]

-- On a forest, with more fuel than the length of its paths, the walk from a node that is there
-- returns the root item of the tree that the node stands in.
pub walk_up_lem :
    (st : TodoStore) (b : ℕ) (fuel : ℕ) (id : String)
    → IsForest b st
    → contains_key id st.nodes ≡ true
    → b < fuel
    → (root : String) × (walk_up st.nodes fuel id ≡ some root)
      × (root ∈ st.root_items)
      × Under (kids st.nodes) root id
walk_up_lem st b fuel id f k h =
    let (root, e, is, u) = walk_up-IsRoot st b f fuel id k (omega (arith, f.depth_le id)) in
    (root, e, (f.roots root).1 is, u)

json_items_total :
    (nodes : Dict TodoNode) (tree : List String → Option Items) (ids : List String)
    → ((id : String) → id ∈ ids → (t : Items) × (tree (kids nodes id) ≡ some t))
    → (t : Items) × (json_items nodes tree ids ≡ some t)
unfolding json_items
json_items_total nodes tree [] h = (nil, refl)
json_items_total nodes tree (id ∷ ids) h =
    let (rest, e) = json_items_total nodes tree ids (λ k m. h k (inr m)) in
    elim (Option-cases (lookup id nodes)) [
      | inl miss ↦ (rest, rw (json_items, miss) e)
      | inr (n, hit) ↦
          let (t, g) = h id (inl refl) in
          let at : tree n.children ≡ some t = ap tree (sym (kids-hit nodes id n hit)) ∙ g in
          (cons (item n.id n.title (status_str n.status) t) rest, rw (json_items, hit, at, e) refl)
    ]

tree_total_from :
    (st : TodoStore) (b : ℕ) (f : IsForest b st) (fuel : ℕ) (ids : List String)
    → ((id : String) → id ∈ ids → f.rank id < fuel)
    → (t : Items) × (build_tree_json st.nodes (suc fuel) ids ≡ some t)
unfolding build_tree_json
tree_total_from st b f zero ids h =
    json_items_total st.nodes (build_tree_json st.nodes zero) ids
      (λ id m. absurd (omega (arith, h id m)))
tree_total_from st b f (suc fuel) ids h =
    json_items_total st.nodes (build_tree_json st.nodes (suc fuel)) ids (λ id m.
      tree_total_from st b f fuel (kids st.nodes id)
        (λ c mc. omega (arith, h id m, (f.child id c mc).1)))

-- On a forest the tree of any nodes is built.
pub build_tree_total :
    (st : TodoStore) (b : ℕ) (fuel : ℕ) (ids : List String)
    → IsForest b st
    → 1 + b < fuel
    → (t : Items) × (build_tree_json st.nodes fuel ids ≡ some t)
build_tree_total st b zero ids f h = absurd (omega arith)
build_tree_total st b (suc fuel) ids f h =
    tree_total_from st b f fuel ids (λ id m. omega (arith, f.rank_le id))
