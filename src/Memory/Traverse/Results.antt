-- ===== src/Memory/Traverse/Results.antt =====
-- What the results of traverse_relationships are.
use agent_squire.Base.{
  ℕ, ◌+◌, ◌≤◌, ◌≡◌, refl, ap, arith, String, Bool, true, false, some, inl, inr, List, [], ◌∷◌, map,
  contains, ◌∈◌, All, Bool-cases, Option-cases,
}
use agent_squire.Base.Dict.{Dict, lookup}
use agent_squire.Store.Types.{TokenSummary}
use agent_squire.Memory.Traverse.{
  TraversalNode, adjacency_from, Found, Front, summaries, found_summary, traverse_relationships,
}
use agent_squire.Memory.Traverse.Sound.{
  Walk, start, later, All-map, adjacency-IsNear, IsReached, IsFront, walk_hops-IsReached,
}

mem-map :
    {S : Type 0} (p : String × S) (ps : List (String × S))
    → p ∈ ps
    → p.0 ∈ map (λ (q : String × S). q.0) ps
mem-map {S = S} p [] m = m
mem-map {S = S} p (q ∷ ps) (inl e) = inl (ap (λ (u : String × S). u.0) e)
mem-map {S = S} p (q ∷ ps) (inr m) = inr (mem-map p ps m)

module _ {S : Type 0} (halved : S → ℕ → S) (all_nodes : Dict TraversalNode)
    (type_matches : String → Bool) (edges : List (String × String)) (num_hops : ℕ) where
  -- A result: the node of a token that is no direct match, of a type that is asked for, at the end of a
  -- walk from a direct match with as many edges as the result says.
  pub record IsFinding (direct_ids : List String) (r : TokenSummary × S) : Type 0 where
    pub id : String
    pub via : String
    pub node : TraversalNode
    pub known : lookup id all_nodes ≡ some node
    pub asked : type_matches node.token_type ≡ true
    pub named : r.0.token_id ≡ node.token_id
    pub origin : r.0.via_token_id ≡ some via
    pub from_direct : via ∈ direct_ids
    pub not_direct : contains direct_ids id ≡ false
    pub walk : Walk edges via id r.0.hop_distance
    pub far : 1 ≤ r.0.hop_distance
    pub near : r.0.hop_distance ≤ num_hops

  summaries-IsFinding :
      (direct_ids : List String) (found : Dict (Found S))
      → All (IsReached edges direct_ids num_hops) found
      → All (IsFinding direct_ids) (summaries halved all_nodes type_matches found)
  unfolding summaries
  summaries-IsFinding direct_ids [] all = tt
  summaries-IsFinding direct_ids ((id, f) ∷ found) ((away, via, walk, low, high), all) =
      elim (Option-cases (lookup id all_nodes)) [
        | inl e ↦ rw (summaries, e) (summaries-IsFinding direct_ids found all)
        | inr (node, e) ↦ elim (Bool-cases (type_matches node.token_type)) [
          | inr other ↦ rw (summaries, e, other) (summaries-IsFinding direct_ids found all)
          | inl asked ↦
              let here : IsFinding direct_ids (found_summary node f, halved f.base f.hop) = record {
                id = id;
                via = f.via;
                node = node;
                known = e;
                asked = asked;
                named = refl;
                origin = refl;
                from_direct = via;
                not_direct = away;
                walk = walk;
                far = low;
                near = high;
              } in
              rw (summaries, e, asked) (here, summaries-IsFinding direct_ids found all)
        ]
      ]

  -- Each result of `traverse_relationships` is the node of a token that is no direct match and whose type
  -- is asked for, and from the direct match that it names as its origin a walk leads there, along edges in
  -- either direction, of just the hops that the result says: at least one, and at most `num_hops`.
  pub traverse_relationships_sound :
      (direct : List (String × S))
      → All
          (IsFinding (map (λ (p : String × S). p.0) direct))
          (traverse_relationships halved all_nodes type_matches direct edges num_hops)
  unfolding traverse_relationships
  traverse_relationships_sound [] = tt
  traverse_relationships_sound (d ∷ ds) =
      let ids = map (λ (p : String × S). p.0) (d ∷ ds) in
      let fronts : List (Front S) =
        map (λ (p : String × S). record { node_id = p.0; origin_id = p.0; base = p.1 }) (d ∷ ds) in
      let at_start =
        All-map (IsFront edges ids 0) _ (d ∷ ds) (λ p m. (mem-map p (d ∷ ds) m, start)) in
      let near = adjacency-IsNear edges edges [] (λ e m. m) tt in
      summaries-IsFinding ids _ (
        later edges ids (0 + num_hops) num_hops _ (omega arith) (
          walk_hops-IsReached edges ids (adjacency_from [] edges) num_hops 0 fronts [] near at_start
            tt))
