-- ===== src/Todo/Json/Remove.antt =====
-- What `remove_node` of the JSON-file store removes.
pub mod Keeps
use agent_squire.Base.{
  ◌≡◌, ◌≢◌, refl, sym, ap, ◌∙◌, ◌↔◌, ◌⊎◌, inl, inr, ◌∈◌, String, ◌==◌, eq_iff, Bool, true, false,
  not, Option, none, some, List, [], ◌∷◌, if◌then◌else◌, Bool-cases, Option-cases, contains, retain,
  arith,
}
use agent_squire.Base.Dict.{
  Dict, lookup, modify, remove, keys, contains_key, lookup-modify, lookup-remove,
}
use mathlib.Core.Option
use agent_squire.Graph.{Under, here, below}
use agent_squire.Graph.Sound.{collect_correct}
use agent_squire.Todo.Json.{
  TodoNode, TodoStore, kids, stored_parent, collect_descendants, remove_all, remove_node,
  drop_child,
}

lookup-remove_all :
    (ds : List String) (nodes : Dict TodoNode) (k : String)
    → lookup k (remove_all ds nodes) ≡ (if contains ds k then none else lookup k nodes)
unfolding remove_all
lookup-remove_all [] nodes k = refl
lookup-remove_all (d ∷ ds) nodes k =
    ground (arith, lookup-remove_all ds (remove d nodes) k, lookup-remove d k nodes)

mem-keys : (nodes : Dict TodoNode) (k : String) → (lookup k nodes ≡ none) ⊎ (k ∈ keys nodes)
unfolding lookup keys
mem-keys [] k = inl refl
mem-keys ((j, v) ∷ m) k = ground (arith, eq_iff j k, mem-keys m k)

kids_cover : (nodes : Dict TodoNode) (k : String) → (kids nodes k ≡ []) ⊎ (k ∈ keys nodes)
unfolding kids
kids_cover nodes k = elim (mem-keys nodes k) [ inl miss ↦ inl (ground arith) | inr m ↦ inr m ]

collect_descendants_correct :
    (nodes : Dict TodoNode) (id : String)
    → (out : List String) × (collect_descendants nodes id ≡ some out)
      × ((d : String) → (contains out d ≡ true) ↔ Under (kids nodes) id d)
unfolding collect_descendants
collect_descendants_correct nodes id =
    collect_correct (kids nodes) id (keys nodes) (kids_cover nodes) _ (omega arith)

-- The store after `remove_node`, by what is under the node.
pub record Removed (st st' : TodoStore) (id : String) (out : List String) : Type 0 where
  pub exact : (d : String) → (contains out d ≡ true) ↔ Under (kids st.nodes) id d
  pub gone : (k : String) → contains out k ≡ true → lookup k st'.nodes ≡ none
  pub kept :
      (k : String)
      → contains out k ≡ false
      → stored_parent st.nodes id ≢ some k
      → lookup k st'.nodes ≡ lookup k st.nodes
  pub pruned :
      (k : String)
      → contains out k ≡ false
      → stored_parent st.nodes id ≡ some k
      → lookup k st'.nodes ≡ Option.map (drop_child id) (lookup k st.nodes)
  pub roots_kept :
      (p : String) → stored_parent st.nodes id ≡ some p → st'.root_items ≡ st.root_items
  pub roots_pruned :
      stored_parent st.nodes id ≡ none → st'.root_items ≡ retain (λ r. not (r == id)) st.root_items

-- `remove_node` always returns, whatever the children in the store are, cycles included. It removes
-- the nodes that are under the given one, itself included, and no other; it takes the node from the
-- children of its parent, or from the root items if it has none; and it leaves all else as it was.
pub remove_node_lem :
    (id : String) (st : TodoStore)
    → (st' : TodoStore) × (out : List String) × (remove_node id st ≡ some (st', out))
      × Removed st st' id out
unfolding remove_node
remove_node_lem id st =
    let (out, found, exact) = collect_descendants_correct st.nodes id in
    elim (Option-cases (stored_parent st.nodes id)) [
      | inl top ↦ (
        record {
          nodes = remove_all out st.nodes;
          root_items = retain (λ r. not (r == id)) st.root_items;
        },
        out,
        rw (remove_node, found, top) refl,
        record {
          exact = exact;
          gone = λ k h. ground (arith, lookup-remove_all out st.nodes k);
          kept = λ k h ne. ground (arith, lookup-remove_all out st.nodes k);
          pruned = λ k h e. cc;
          roots_kept = λ p e. cc;
          roots_pruned = λ e. refl;
        },
      )
      | inr (pid, up) ↦
          let nodes' = modify pid (drop_child id) st.nodes in
          (
            record st { nodes = remove_all out nodes' },
            out,
            rw (remove_node, found, up) refl,
            record {
              exact = exact;
              gone = λ k h. ground (arith, lookup-remove_all out nodes' k);
              kept = λ k h ne.
                  let other : pid ≢ k = λ e. ne (up ∙ ap some e) in
                  ground (
                    arith,
                    eq_iff pid k,
                    lookup-remove_all out nodes' k,
                    lookup-modify pid k (drop_child id) st.nodes,
                  );
              pruned = λ k h e.
                  let same : pid ≡ k = cc (sym up ∙ e) in
                  ground (
                    arith,
                    eq_iff pid k,
                    lookup-remove_all out nodes' k,
                    lookup-modify pid k (drop_child id) st.nodes,
                  );
              roots_kept = λ p e. refl;
              roots_pruned = λ e. cc;
            },
          )
    ]
