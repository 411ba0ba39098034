-- ===== src/Todo/Json/Add/Keeps.antt =====
-- That `add_node` of the JSON-file store keeps a forest one.
use agent_squire.Base.{
  ℕ, ◌+◌, ◌≤◌, ◌<◌, ◌≡◌, ◌≢◌, refl, sym, ap, ◌∙◌, ◌↔◌, inl, inr, ◌∈◌, String, ◌==◌, eq_iff, true,
  Option, none, some, if◌then◌else◌, Bool-cases, mem-append_left, mem-append_right,
  mem-append_cases, arith,
}
use agent_squire.Base.Dict.{contains_key}
use agent_squire.Tool.{ok}
use agent_squire.Todo.Json.{TodoStore, kids, stored_parent, add_node}
use agent_squire.Todo.Json.Forest.{IsForest, IsRoot}
use agent_squire.Todo.Json.Add.{new_kid, new_root, Added, add_node-Added}
use agent_squire.Todo.Json.Views.{kids-key, stored_parent-key}

mem-new_kid :
    (parent : Option String) (id p c : String)
    → (c ∈ new_kid parent id p) ↔ ((parent ≡ some p) × (id ≡ c))
mem-new_kid none id p c = (λ m. absurd m, λ (e, _). cc)
mem-new_kid (some pid) id p c =
    (λ m. ground (arith, eq_iff pid p), λ (e, at). ground (arith, eq_iff pid p))

mem-new_root :
    (parent : Option String) (id r : String)
    → (r ∈ new_root parent id) ↔ ((parent ≡ none) × (id ≡ r))
mem-new_root none id r = (λ m. (refl, ground arith), λ (e, at). inl at)
mem-new_root (some pid) id r = (λ m. absurd m, λ (e, at). cc)

module _ (b : ℕ) (st st' : TodoStore) (id : String) (parent : Option String) where
  module _ (f : IsForest b st) (a : Added st st' id parent) where
    not_new : (k : String) → contains_key k st.nodes ≡ true → id ≢ k
    not_new k h e = cc (sym a.new ∙ ap (λ j. contains_key j st.nodes) e ∙ h)

    above : Option String → ℕ
    above none = 0
    above (some pid) = 1 + f.depth pid

    above_le : (o : Option String) → above o ≤ 1 + b
    unfolding above
    above_le none = omega arith
    above_le (some pid) = omega (arith, f.depth_le pid)

    rank_after : String → ℕ
    rank_after k = if id == k then 0 else 1 + f.rank k

    depth_after : String → ℕ
    depth_after k = if id == k then above parent else f.depth k

    child_after :
        (p c : String)
        → c ∈ kids st'.nodes p
        → (stored_parent st'.nodes c ≡ some p) × (rank_after c < rank_after p)
    unfolding rank_after
    child_after p c m = elim (mem-append_cases c (kids st.nodes p) _ (rw (a.kids_after p) at m)) [
      | inl old ↦
          let (e, lt) = f.child p c old in
          let nc = not_new c (stored_parent-key st.nodes p c e) in
          let np = not_new p (kids-key st.nodes p c old) in
          ground (arith, a.parent_after c, eq_iff id c, eq_iff id p)
      | inr added ↦
          let (e, at) = (mem-new_kid parent id p c).0 added in
          let np = not_new p (a.known p e) in
          ground (arith, a.parent_after c, eq_iff id c, eq_iff id p)
    ]

    parent_below :
        (p c : String)
        → stored_parent st'.nodes c ≡ some p
        → (c ∈ kids st'.nodes p) × (depth_after p < depth_after c)
    unfolding depth_after above
    parent_below p c e = elim (Bool-cases (id == c)) [
      | inl same ↦
          let up : parent ≡ some p = sym (rw same at (a.parent_after c)) ∙ e in
          let np = not_new p (a.known p up) in
          let deep : above parent ≡ 1 + f.depth p = ap above up in
          let new_one = (mem-new_kid parent id p c).1 (up, ground (arith, eq_iff id c)) in
          (
            rw (a.kids_after p)
                (mem-append_right c (kids st.nodes p) (new_kid parent id p) new_one),
            ground (arith, eq_iff id p),
          )
      | inr other ↦
          let up : stored_parent st.nodes c ≡ some p = sym (rw other at (a.parent_after c)) ∙ e in
          let (m, lt) = f.parent p c up in
          let np = not_new p (kids-key st.nodes p c m) in
          (
            rw (a.kids_after p) (mem-append_left c (kids st.nodes p) (new_kid parent id p) m),
            ground (arith, eq_iff id p),
          )
    ]

    roots_match : (r : String) → (r ∈ st'.root_items) ↔ IsRoot st'.nodes r
    roots_match r = (
      λ m. elim (mem-append_cases r st.root_items _ (rw a.roots_after at m)) [
        | inl old ↦
            let (k, e) = (f.roots r).0 old in
            let nr = not_new r k in
            (ground (arith, a.keys_after r), ground (arith, a.parent_after r, eq_iff id r))
        | inr added ↦
            let (e, at) = (mem-new_root parent id r).0 added in
            (
              ground (arith, a.keys_after r, eq_iff id r),
              ground (arith, a.parent_after r, eq_iff id r),
            )
      ],
      λ (k, e). elim (Bool-cases (id == r)) [
        | inl same ↦
            let top : parent ≡ none = sym (rw same at (a.parent_after r)) ∙ e in
            let new_one = (mem-new_root parent id r).1 (top, ground (arith, eq_iff id r)) in
            rw a.roots_after (mem-append_right r st.root_items (new_root parent id) new_one)
        | inr other ↦
            let old =
              (f.roots r).1
                (ground (arith, a.keys_after r), sym (rw other at (a.parent_after r)) ∙ e) in
            rw a.roots_after (mem-append_left r st.root_items (new_root parent id) old)
      ],
    )

    pub Added-IsForest : IsForest (1 + b) st'
    unfolding rank_after depth_after
    Added-IsForest = record {
      rank = rank_after;
      depth = depth_after;
      rank_le = λ k. ground (arith, f.rank_le k);
      depth_le = λ k. ground (arith, f.depth_le k, above_le parent);
      child = child_after;
      parent = parent_below;
      roots = roots_match;
    }

-- An `add_node` that is accepted keeps a forest one, with paths that are longer by one step at most.
pub add_node-IsForest :
    (now id title : String) (parent : Option String) (b : ℕ) (st st' : TodoStore)
    → IsForest b st
    → add_node now id title parent st ≡ ok st'
    → IsForest (1 + b) st'
add_node-IsForest now id title parent b st st' f e =
    Added-IsForest b st st' id parent f (add_node-Added now id title parent st st' e)
