-- ===== src/Todo/Json/Forest.antt =====
-- When a JSON-file store is a forest, and that a change of a status keeps it one.
use agent_squire.Base.{ℕ, ◌≤◌, ◌<◌, ◌≡◌, refl, sym, ◌∙◌, ◌↔◌, ◌∈◌, String, true, none, some, arith}
use agent_squire.Base.Dict.{Dict, modify, contains_key}
use agent_squire.Todo.Json.{TodoStatus, TodoNode, TodoStore, kids, stored_parent, set_status}
use agent_squire.Todo.Json.Views.{contains_key-modify, stored_parent-modify, kids-modify}

-- A node with no parent.
abbrev pub IsRoot : Dict TodoNode → String → Type 0
IsRoot nodes r = (contains_key r nodes ≡ true) × (stored_parent nodes r ≡ none)

-- Children and parents agree, the root items are the nodes without a parent, no path is a cycle, and
-- none is longer than `b` in either direction.
pub record IsForest (b : ℕ) (st : TodoStore) : Type 0 where
  pub rank : String → ℕ
  pub depth : String → ℕ
  pub rank_le : (k : String) → rank k ≤ b
  pub depth_le : (k : String) → depth k ≤ b
  pub child :
      (p c : String) → c ∈ kids st.nodes p → (stored_parent st.nodes c ≡ some p) × (rank c < rank p)
  pub parent :
      (p c : String)
      → stored_parent st.nodes c ≡ some p
      → (c ∈ kids st.nodes p) × (depth p < depth c)
  pub roots : (r : String) → (r ∈ st.root_items) ↔ IsRoot st.nodes r

-- A forest stays one when children, parents and roots are as they were.
pub same-IsForest :
    (b : ℕ) (st st' : TodoStore)
    → ((k : String) → kids st'.nodes k ≡ kids st.nodes k)
    → ((k : String) → stored_parent st'.nodes k ≡ stored_parent st.nodes k)
    → ((k : String) → contains_key k st'.nodes ≡ contains_key k st.nodes)
    → st'.root_items ≡ st.root_items
    → IsForest b st
    → IsForest b st'
same-IsForest b st st' same_kids same_parent same_keys same_roots f = record {
  rank = f.rank;
  depth = f.depth;
  rank_le = f.rank_le;
  depth_le = f.depth_le;
  child = λ p c m. let (e, lt) = f.child p c (rw (same_kids p) at m) in (same_parent c ∙ e, lt);
  parent =
      λ p c e. let (m, lt) = f.parent p c (sym (same_parent c) ∙ e) in (rw (same_kids p) m, lt);
  roots = λ r. (
    λ m. let (k, e) = (f.roots r).0 (rw same_roots at m) in (same_keys r ∙ k, same_parent r ∙ e),
    λ (k, e). rw same_roots ((f.roots r).1 (sym (same_keys r) ∙ k, sym (same_parent r) ∙ e)),
  );
}

pub set_status-IsForest :
    (now id : String) (new_status : TodoStatus) (b : ℕ) (st : TodoStore)
    → IsForest b st
    → IsForest b (record st { nodes = modify id (set_status now new_status) st.nodes })
set_status-IsForest now id new_status b st =
    same-IsForest b st (record st { nodes = modify id (set_status now new_status) st.nodes })
      (λ k.
        ground
          (arith, kids-modify id k (set_status now new_status) st.nodes (λ x. x) (λ n. refl) refl))
      (λ k. stored_parent-modify id k (set_status now new_status) st.nodes (λ n. refl))
      (λ k. contains_key-modify id k (set_status now new_status) st.nodes) refl
