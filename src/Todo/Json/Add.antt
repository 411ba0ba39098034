-- ===== src/Todo/Json/Add.antt =====
-- What `add_node` of the JSON-file store changes.
pub mod Keeps
use agent_squire.Base.{
  ℕ, ◌+◌, ◌≤◌, ◌<◌, ◌≡◌, ◌≢◌, refl, sym, ap, ◌∙◌, subst, ◌↔◌, inl, inr, ◌∈◌, String, ◌==◌, eq_iff,
  true, false, ◌||◌, Option, none, some, List, [], ◌∷◌, ◌++◌, if◌then◌else◌, append-nil, Bool-cases,
  mem-append_left, mem-append_right, mem-append_cases, arith,
}
use agent_squire.Base.Dict.{insert, modify, contains_key}
use agent_squire.Tool.{ok, ok-injective}
use agent_squire.Todo.Json.{TodoStore, kids, stored_parent, add_node, fresh_node, push_child}
use agent_squire.Todo.Json.Forest.{IsForest, IsRoot}
use agent_squire.Todo.Json.Views.{
  kids-no_key, kids-insert, stored_parent-insert, contains_key-insert, contains_key-modify,
  stored_parent-modify, kids-push, kids-key, stored_parent-key,
}

-- What `add_node` makes of the children of a node.
abbrev pub new_kid : Option String → String → String → List String
new_kid none id k = []
new_kid (some pid) id k = if pid == k then id ∷ [] else []

abbrev pub new_root : Option String → String → List String
new_root none id = id ∷ []
new_root (some pid) id = []

-- What an accepted `add_node` changes.
pub record Added (st st' : TodoStore) (id : String) (parent : Option String) : Type 0 where
  pub new : contains_key id st.nodes ≡ false
  pub known : (pid : String) → parent ≡ some pid → contains_key pid st.nodes ≡ true
  pub kids_after : (k : String) → kids st'.nodes k ≡ kids st.nodes k ++ new_kid parent id k
  pub parent_after :
      (k : String)
      → stored_parent st'.nodes k ≡ (if id == k then parent else stored_parent st.nodes k)
  pub keys_after : (k : String) → contains_key k st'.nodes ≡ (id == k || contains_key k st.nodes)
  pub roots_after : st'.root_items ≡ st.root_items ++ new_root parent id

add_root-Added :
    (now id title : String) (st : TodoStore)
    → contains_key id st.nodes ≡ false
    → Added st
        (record {
          nodes = insert id (fresh_node now id title none) st.nodes;
          root_items = st.root_items ++ id ∷ [];
        })
        id
        none
add_root-Added now id title st new = record {
  new = new;
  known = λ pid e. cc;
  kids_after = λ k. ground (
    arith,
    eq_iff id k,
    append-nil (kids st.nodes k),
    kids-no_key st.nodes id new,
    ap (kids st.nodes),
    kids-insert id k (fresh_node now id title none) st.nodes,
  );
  parent_after = λ k. stored_parent-insert id k (fresh_node now id title none) st.nodes;
  keys_after = λ k. contains_key-insert id k (fresh_node now id title none) st.nodes;
  roots_after = refl;
}

add_child-Added :
    (now id title pid : String) (st : TodoStore)
    → contains_key id st.nodes ≡ false
    → contains_key pid st.nodes ≡ true
    → Added st
        (record st {
          nodes =
              insert id
                (fresh_node now id title (some pid))
                (modify pid (push_child now id) st.nodes);
        })
        id
        (some pid)
add_child-Added now id title pid st new known =
    let pushed = modify pid (push_child now id) st.nodes in
    let node = fresh_node now id title (some pid) in
    let ne : pid ≢ id = λ e. cc (sym new ∙ ap (λ j. contains_key j st.nodes) (sym e) ∙ known) in
    record {
      new = new;
      known = λ p e. let at : pid ≡ p = cc in rw at at known;
      kids_after = λ k. ground (
        arith,
        eq_iff id k,
        eq_iff pid k,
        ne,
        append-nil (kids st.nodes k),
        kids-no_key st.nodes id new,
        ap (kids st.nodes),
        kids-insert id k node pushed,
        kids-push now id pid k st.nodes known,
      );
      parent_after = λ k. ground (
        arith,
        stored_parent-insert id k node pushed,
        stored_parent-modify pid k (push_child now id) st.nodes (λ n. refl),
      );
      keys_after = λ k. ground (
        arith,
        contains_key-insert id k node pushed,
        contains_key-modify pid k (push_child now id) st.nodes,
      );
      roots_after = sym (append-nil st.root_items);
    }

pub add_node-Added :
    (now id title : String) (parent : Option String) (st st' : TodoStore)
    → add_node now id title parent st ≡ ok st'
    → Added st st' id parent
unfolding add_node
add_node-Added now id title none st st' e = elim (Bool-cases (contains_key id st.nodes)) [
  | inl old ↦ cc (rw (old, add_node) at e)
  | inr new ↦
      let at : ok _ ≡ ok st' = rw (new, add_node) at e in
      subst (λ x. Added st x id none) (ok-injective at) (add_root-Added now id title st new)
]
add_node-Added now id title (some pid) st st' e = elim (Bool-cases (contains_key id st.nodes)) [
  | inl old ↦ cc (rw (old, add_node) at e)
  | inr new ↦ elim (Bool-cases (contains_key pid st.nodes)) [
    | inl known ↦
        let at : ok _ ≡ ok st' = rw (new, add_node, known) at e in
        subst (λ x. Added st x id (some pid)) (ok-injective at)
          (add_child-Added now id title pid st new known)
    | inr unknown ↦ cc (rw (new, add_node, unknown) at e)
  ]
]
