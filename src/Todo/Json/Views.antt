-- ===== src/Todo/Json/Views.antt =====
-- The children, the parent and the presence of a node after a write to the dictionary of nodes.
use agent_squire.Base.{
  ◌≡◌, ap, inl, inr, String, ◌==◌, eq_iff, true, false, not, ◌&&◌, ◌||◌, none, List, [], ◌∷◌, ◌++◌,
  if◌then◌else◌, append-nil, Option-cases, ◌∈◌, some, Bool-cases, arith,
}
use agent_squire.Base.Dict.{
  Dict, lookup, insert, modify, remove, contains_key, lookup-insert, lookup-modify, lookup-remove,
}
use agent_squire.Todo.Json.{TodoNode, kids, stored_parent, push_child}

pub kids-no_key :
    (nodes : Dict TodoNode) (k : String) → contains_key k nodes ≡ false → kids nodes k ≡ []
unfolding kids
kids-no_key nodes k h = elim (Option-cases (lookup k nodes)) [
  | inl miss ↦ ground arith
  | inr (n, hit) ↦ cc (rw hit at h)
]

module _ (id k : String) (n : TodoNode) (nodes : Dict TodoNode) where
  pub kids-insert : kids (insert id n nodes) k ≡ (if id == k then n.children else kids nodes k)
  unfolding kids
  kids-insert = ground (arith, lookup-insert id k n nodes)

  pub stored_parent-insert :
      stored_parent (insert id n nodes) k ≡ (if id == k then n.parent else stored_parent nodes k)
  unfolding stored_parent
  stored_parent-insert = ground (arith, lookup-insert id k n nodes)

  pub contains_key-insert : contains_key k (insert id n nodes) ≡ (id == k || contains_key k nodes)
  contains_key-insert = ground (arith, lookup-insert id k n nodes)

module _ (id k : String) (f : TodoNode → TodoNode) (nodes : Dict TodoNode) where
  pub contains_key-modify : contains_key k (modify id f nodes) ≡ contains_key k nodes
  contains_key-modify = elim (Option-cases (lookup k nodes)) [
    | inl miss ↦ ground (arith, lookup-modify id k f nodes)
    | inr (n, hit) ↦ ground (arith, lookup-modify id k f nodes)
  ]

  pub stored_parent-modify :
      ((n : TodoNode) → (f n).parent ≡ n.parent)
      → stored_parent (modify id f nodes) k ≡ stored_parent nodes k
  unfolding stored_parent
  stored_parent-modify same = elim (Option-cases (lookup k nodes)) [
    | inl miss ↦ ground (arith, lookup-modify id k f nodes)
    | inr (n, hit) ↦ ground (arith, lookup-modify id k f nodes, same n)
  ]

  -- A change `g` of the children.
  pub kids-modify :
      (g : List String → List String)
      → ((n : TodoNode) → (f n).children ≡ g n.children)
      → g [] ≡ []
      → kids (modify id f nodes) k ≡ (if id == k then g (kids nodes k) else kids nodes k)
  unfolding kids
  kids-modify g change nil = elim (Option-cases (lookup k nodes)) [
    | inl miss ↦ ground (arith, lookup-modify id k f nodes)
    | inr (n, hit) ↦ ground (arith, lookup-modify id k f nodes, change n)
  ]

module _ (id k : String) (nodes : Dict TodoNode) where
  pub kids-remove : kids (remove id nodes) k ≡ (if id == k then [] else kids nodes k)
  unfolding kids
  kids-remove = ground (arith, lookup-remove id k nodes)

  pub stored_parent-remove :
      stored_parent (remove id nodes) k ≡ (if id == k then none else stored_parent nodes k)
  unfolding stored_parent
  stored_parent-remove = ground (arith, lookup-remove id k nodes)

  pub contains_key-remove :
      contains_key k (remove id nodes) ≡ (not (id == k) && contains_key k nodes)
  contains_key-remove = ground (arith, lookup-remove id k nodes)

-- A pushed child stands behind those that are there.
pub kids-push :
    (now id pid k : String) (nodes : Dict TodoNode)
    → contains_key pid nodes ≡ true
    → kids (modify pid (push_child now id) nodes) k
      ≡ kids nodes k ++ (if pid == k then id ∷ [] else [])
unfolding kids
kids-push now id pid k nodes known = elim (Option-cases (lookup k nodes)) [
  | inl miss ↦
      ground (
        arith,
        eq_iff pid k,
        lookup-modify pid k (push_child now id) nodes,
        ap (λ j. lookup j nodes),
      )
  | inr (n, hit) ↦
      ground (arith, append-nil n.children, lookup-modify pid k (push_child now id) nodes)
]

pub kids-key :
    (nodes : Dict TodoNode) (p c : String) → c ∈ kids nodes p → contains_key p nodes ≡ true
unfolding kids
kids-key nodes p c m = elim (Bool-cases (contains_key p nodes)) [
  | inl hit ↦ hit
  | inr miss ↦ absurd (rw (kids-no_key nodes p miss) at m)
]

pub stored_parent-key :
    (nodes : Dict TodoNode) (p c : String)
    → stored_parent nodes c ≡ some p
    → contains_key c nodes ≡ true
unfolding stored_parent
stored_parent-key nodes p c e = elim (Option-cases (lookup c nodes)) [
  | inl miss ↦ cc (rw (miss, stored_parent) at e)
  | inr (n, hit) ↦ ground arith
]

pub kids-hit :
    (nodes : Dict TodoNode) (id : String) (n : TodoNode)
    → lookup id nodes ≡ some n
    → kids nodes id ≡ n.children
unfolding kids
kids-hit nodes id n hit = ground arith
