-- ===== src/Memory/Traverse.antt =====
-- The walk along relationships: traverse_relationships of src-tauri/crates/squire-store/src/store.rs.
-- A score is a value of a parameter `S`; `halved s h` stands for `s * 0.5f32.powi(h)`.
pub mod Sound
pub mod Results
use agent_squire.Base.{
  ℕ, zero, suc, String, Bool, true, false, not, ◌||◌, Option, none, some, List, [], ◌∷◌, ◌++◌, map,
  contains, if◌then◌else◌, nat_eq,
}
use agent_squire.Base.Dict.{Dict, lookup, contains_key, upsert}
use agent_squire.Store.Types.{TokenSummary}

pub record TraversalNode : Type 0 where
  pub token_id : String
  pub token_type : String
  pub short_desc : String
  pub tags : List String
  pub properties : Dict String

-- The loop over the edges.
unfoldable pub adjacency_from : Dict (List String) → List (String × String) → Dict (List String)
adjacency_from adjacency [] = adjacency
adjacency_from adjacency ((s, o) ∷ edges) =
    adjacency_from (upsert o [] (λ ns. ns ++ s ∷ []) (upsert s [] (λ ns. ns ++ o ∷ []) adjacency))
      edges

-- The values of `discovered`, and the elements of `frontier` and `direct`.
pub record Found (S : Type 0) : Type 0 where
  pub hop : ℕ
  pub via : String
  pub base : S

pub record Front (S : Type 0) : Type 0 where
  pub node_id : String
  pub origin_id : String
  pub base : S

-- `discovered` and `next_frontier`.
pub record Walking (S : Type 0) : Type 0 where
  pub discovered : Dict (Found S)
  pub next : List (Front S)

module _ {S : Type 0} where
  module _ (direct_ids : List String) (hop : ℕ) where
    -- The loop over the neighbors of a node.
    unfoldable pub visit_neighbors : Front S → List String → Walking S → Walking S
    visit_neighbors f [] w = w
    visit_neighbors f (n ∷ ns) w = visit_neighbors f ns (
        if contains direct_ids n || contains_key n w.discovered then w else record {
          discovered =
              w.discovered ++ (n, record { hop = hop; via = f.origin_id; base = f.base }) ∷ [];
          next = w.next ++ record { node_id = n; origin_id = f.origin_id; base = f.base } ∷ [];
        })

    -- The loop over the frontier.
    unfoldable pub visit_frontier : Dict (List String) → List (Front S) → Walking S → Walking S
    visit_frontier adjacency [] w = w
    visit_frontier adjacency (f ∷ fs) w =
        visit_frontier adjacency fs (elim (lookup f.node_id adjacency) [
          | none ↦ w
          | some neighbors ↦ visit_neighbors f neighbors w
        ])

  -- The loop over the hops from `hop`, with the number of those that are left.
  unfoldable pub walk_hops :
      List String
      → Dict (List String)
      → (left hop : ℕ) → List (Front S)
      → Dict (Found S)
      → Dict (Found S)
  walk_hops direct_ids adjacency zero hop frontier discovered = discovered
  walk_hops direct_ids adjacency (suc left) hop frontier discovered =
      let w =
        visit_frontier direct_ids hop adjacency frontier
          (record { discovered = discovered; next = [] }) in
      let rest = walk_hops direct_ids adjacency left (suc hop) w.next w.discovered in
      elim w.next [ [] ↦ w.discovered | f ∷ fs ↦ rest ]

  abbrev pub found_summary : TraversalNode → Found S → TokenSummary
  found_summary node f = record {
    token_id = node.token_id;
    token_type = node.token_type;
    short_desc = node.short_desc;
    accumulated_hits = 0;
    hop_distance = f.hop;
    via_token_id = some f.via;
    tags = node.tags;
    properties = node.properties;
  }

  module _ (halved : S → ℕ → S) (all_nodes : Dict TraversalNode)
      (type_matches : String → Bool) where
    -- The `filter_map` at the end, with the score beside the summary.
    unfoldable pub summaries : Dict (Found S) → List (TokenSummary × S)
    summaries [] = []
    summaries ((id, f) ∷ found) =
        let rest = summaries found in
        elim (lookup id all_nodes) [
          | none ↦ rest
          | some node ↦
              if type_matches node.token_type
              then (found_summary node f, halved f.base f.hop) ∷ rest
              else rest
        ]

    unfoldable pub traverse_relationships :
        List (String × S) → List (String × String) → ℕ → List (TokenSummary × S)
    traverse_relationships [] edges num_hops = []
    traverse_relationships (d ∷ ds) edges num_hops = summaries (
        walk_hops (map (λ (p : String × S). p.0) (d ∷ ds)) (adjacency_from [] edges) num_hops 1
          (map (λ (p : String × S). record { node_id = p.0; origin_id = p.0; base = p.1 }) (d ∷ ds))
          [])
