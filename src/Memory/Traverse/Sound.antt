-- ===== src/Memory/Traverse/Sound.antt =====
-- What traverse_relationships finds is connected to a direct match.
use agent_squire.Base.{
  ℕ, zero, suc, ◌+◌, ◌≤◌, ◌≡◌, refl, sym, ◌∙◌, ap, ◌⊎◌, inl, inr, subst, String, false, ◌||◌, ◌==◌,
  eq_iff, some, List, [], ◌∷◌, ◌++◌, map, contains, ◌∈◌, All, Bool-cases, Option-cases, arith,
}
use agent_squire.Base.Dict.{Dict, lookup, contains_key, upsert}
use agent_squire.Memory.Traverse.{
  adjacency_from, Found, Front, Walking, visit_neighbors, visit_frontier, walk_hops,
}

-- An edge in either direction.
abbrev pub Joined : List (String × String) → String → String → Type 0
Joined edges a b = ((a, b) ∈ edges) ⊎ ((b, a) ∈ edges)

-- A walk of so many edges.
pub data Walk (edges : List (String × String)) : String → String → ℕ → Type 0 where
  start : {a : String} → Walk edges a a 0
  step : {a b c : String} {n : ℕ} → Walk edges a b n → Joined edges b c → Walk edges a c (suc n)

All-append : {A : Type 0} (P : A → Type 0) (xs ys : List A) → All P xs → All P ys → All P (xs ++ ys)
All-append P [] ys p q = q
All-append P (x ∷ xs) ys (h, p) q = (h, All-append P xs ys p q)

pub All-map :
    {A B : Type 0} (P : B → Type 0) (f : A → B) (xs : List A)
    → ((x : A) → x ∈ xs → P (f x))
    → All P (map f xs)
All-map P f [] h = tt
All-map P f (x ∷ xs) h = (h x (inl refl), All-map P f xs (λ y m. h y (inr m)))

All-lookup :
    {V : Type 0} (P : String × V → Type 0) (d : Dict V) (k : String) (v : V)
    → All P d
    → lookup k d ≡ some v
    → P (k, v)
unfolding lookup
All-lookup P [] k v all h = cc h
All-lookup P ((at, old) ∷ d) k v (here, all) h = elim (Bool-cases (at == k)) [
  | inl same ↦
      let key : at ≡ k = (eq_iff at k).0 same in
      let value : some old ≡ some v = rw (lookup, same) at h in
      let value' : old ≡ v = cc value in
      subst P (ap (λ (u : String). (u, old)) key ∙ ap (λ u. (k, u)) value') here
  | inr other ↦ All-lookup P d k v all (rw (lookup, other) at h)
]

module _ (all_edges : List (String × String)) where
  abbrev pub IsNear : String × List String → Type 0
  IsNear p = All (λ n. Joined all_edges p.0 n) p.1

  upsert-IsNear :
      (a b : String) (adjacency : Dict (List String))
      → Joined all_edges a b
      → All IsNear adjacency
      → All IsNear (upsert a [] (λ ns. ns ++ b ∷ []) adjacency)
  unfolding upsert
  upsert-IsNear a b [] j all = ((j, tt), tt)
  upsert-IsNear a b ((at, ns) ∷ adjacency) j (here, all) = elim (Bool-cases (at == a)) [
    | inl same ↦
        let key : a ≡ at = sym ((eq_iff at a).0 same) in
        rw (upsert, same)
          (
            All-append (λ n. Joined all_edges at n) ns (b ∷ []) here
                (subst (λ u. Joined all_edges u b) key j, tt),
            all,
          )
    | inr other ↦ rw (upsert, other) (here, upsert-IsNear a b adjacency j all)
  ]

  pub adjacency-IsNear :
      (edges : List (String × String)) (adjacency : Dict (List String))
      → ((e : String × String) → e ∈ edges → e ∈ all_edges)
      → All IsNear adjacency
      → All IsNear (adjacency_from adjacency edges)
  unfolding adjacency_from
  adjacency-IsNear [] adjacency sub all = all
  adjacency-IsNear ((s, o) ∷ edges) adjacency sub all =
      let edge = sub (s, o) (inl refl) in
      adjacency-IsNear edges _ (λ e m. sub e (inr m))
        (upsert-IsNear o s _ (inr edge) (upsert-IsNear s o adjacency (inl edge) all))

  module _ {S : Type 0} (direct_ids : List String) where
    -- A discovered token: not a direct match, and joined to one by a walk of its number of hops.
    abbrev pub IsReached : ℕ → String × Found S → Type 0
    IsReached bound (id, f) =
        (contains direct_ids id ≡ false)
        × (f.via ∈ direct_ids)
        × Walk all_edges f.via id f.hop
        × (1 ≤ f.hop)
        × (f.hop ≤ bound)

    abbrev pub IsFront : ℕ → Front S → Type 0
    IsFront n f = (f.origin_id ∈ direct_ids) × Walk all_edges f.origin_id f.node_id n

    abbrev IsWalking : ℕ → Walking S → Type 0
    IsWalking n w = All (IsReached (suc n)) w.discovered × All (IsFront (suc n)) w.next

    visit_neighbors-IsWalking :
        (n : ℕ) (f : Front S) (ns : List String) (w : Walking S)
        → IsFront n f
        → All (λ m. Joined all_edges f.node_id m) ns
        → IsWalking n w
        → IsWalking n (visit_neighbors direct_ids (suc n) f ns w)
    unfolding visit_neighbors
    visit_neighbors-IsWalking n f [] w front near walking = walking
    visit_neighbors-IsWalking n f (m ∷ ns) w front (j, near) walking =
        visit_neighbors-IsWalking n f ns _ front near
          (elim (Bool-cases (contains direct_ids m || contains_key m w.discovered)) [
            | inl seen ↦ rw seen walking
            | inr fresh ↦
                let away : contains direct_ids m ≡ false = ground arith in
                let joined = step front.1 j in
                rw fresh (
                  All-append (IsReached (suc n)) w.discovered _ walking.0
                      ((away, front.0, joined, omega arith, omega arith), tt),
                  All-append (IsFront (suc n)) w.next _ walking.1 ((front.0, joined), tt),
                )
          ])

    visit_frontier-IsWalking :
        (n : ℕ) (adjacency : Dict (List String)) (fs : List (Front S)) (w : Walking S)
        → All IsNear adjacency
        → All (IsFront n) fs
        → IsWalking n w
        → IsWalking n (visit_frontier direct_ids (suc n) adjacency fs w)
    unfolding visit_frontier
    visit_frontier-IsWalking n adjacency [] w near fronts walking = walking
    visit_frontier-IsWalking n adjacency (f ∷ fs) w near (front, fronts) walking =
        visit_frontier-IsWalking n adjacency fs _ near fronts
          (elim (Option-cases (lookup f.node_id adjacency)) [
            | inl e ↦ rw e walking
            | inr (ns, e) ↦ rw e (
                visit_neighbors-IsWalking n f ns w front
                  (All-lookup IsNear adjacency f.node_id ns near e) walking)
          ])

    pub later :
        (m n : ℕ) (found : Dict (Found S))
        → m ≤ n
        → All (IsReached m) found
        → All (IsReached n) found
    later m n [] h all = tt
    later m n (p ∷ found) h ((away, via, walk, low, high), all) =
        ((away, via, walk, low, omega arith), later m n found h all)

    -- The loop ends at an empty frontier, and goes on at another.
    ends :
        (n : ℕ) (next : List (Front S)) (found rest : Dict (Found S))
        → All (IsReached n) found
        → All (IsReached n) rest
        → All (IsReached n) (elim next as (λ u. Dict (Found S)) [ [] ↦ found | f ∷ fs ↦ rest ])
    ends n [] found rest h g = h
    ends n (f ∷ fs) found rest h g = g

    pub walk_hops-IsReached :
        (adjacency : Dict (List String)) (left n : ℕ) (fs : List (Front S)) (found : Dict (Found S))
        → All IsNear adjacency
        → All (IsFront n) fs
        → All (IsReached n) found
        → All (IsReached (n + left)) (walk_hops direct_ids adjacency left (suc n) fs found)
    unfolding walk_hops
    walk_hops-IsReached adjacency zero n fs found near fronts all =
        later n (n + 0) found (omega arith) all
    walk_hops-IsReached adjacency (suc left) n fs found near fronts all =
        let begin : Walking S = record { discovered = found; next = [] } in
        let w = visit_frontier direct_ids (suc n) adjacency fs begin in
        let walking =
          visit_frontier-IsWalking n adjacency fs begin near fronts
            (later n (suc n) found (omega arith) all, tt) in
        let rest =
          walk_hops-IsReached adjacency left (suc n) w.next w.discovered near walking.1 walking.0 in
        ends (n + suc left) w.next w.discovered _
          (later (suc n) (n + suc left) w.discovered (omega arith) walking.0)
          (later (suc n + left) (n + suc left) _ (omega arith) rest)
