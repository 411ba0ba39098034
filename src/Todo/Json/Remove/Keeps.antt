-- ===== src/Todo/Json/Remove/Keeps.antt =====
-- That `remove_node` of the JSON-file store keeps a forest one.
use agent_squire.Base.{
  ℕ, ◌≡◌, ◌≢◌, refl, sym, ap, ◌∙◌, ◌↔◌, ◌⊎◌, inl, inr, ◌∈◌, String, ◌==◌, eq_iff, true, false, not,
  none, some, List, [], ◌∷◌, if◌then◌else◌, Bool-cases, Option-cases, contains, retain, arith,
}
use agent_squire.Base.Dict.{lookup, contains_key}
use agent_squire.Graph.{Under, here, below}
use agent_squire.Todo.Json.{TodoStore, kids, stored_parent, remove_node}
use agent_squire.Todo.Json.Forest.{IsForest}
use agent_squire.Todo.Json.Remove.{Removed, remove_node_lem}

mem-retain :
    (xs : List String) (id c : String)
    → (c ∈ retain (λ x. not (x == id)) xs) ↔ ((c ∈ xs) × (c ≢ id))
mem-retain [] id c = (λ m. absurd m, λ (m, ne). absurd m)
mem-retain (x ∷ xs) id c = elim (Bool-cases (x == id)) [
  | inl same ↦ (
    λ m. let (old, ne) = (mem-retain xs id c).0 (rw same at m) in (inr old, ne),
    λ (m, ne). rw same ((mem-retain xs id c).1 (ground (arith, eq_iff x id), ne)),
  )
  | inr other ↦ (
    λ m. elim (rw other at m) [
      | inl at ↦ (inl at, ground (arith, eq_iff x id))
      | inr more ↦ let (old, ne) = (mem-retain xs id c).0 more in (inr old, ne)
    ],
    λ (m, ne).
        rw other (elim m [ inl at ↦ inl at | inr more ↦ inr ((mem-retain xs id c).1 (more, ne)) ]),
  )
]

Under-cases :
    (nodes : String → List String) (id c : String)
    → Under nodes id c
    → (id ≡ c) ⊎ ((p : String) × Under nodes id p × (c ∈ nodes p))
Under-cases nodes id c here = inl refl
Under-cases nodes id c (below {p = p} u m) = inr (p, u, m)

module _ (b : ℕ) (st st' : TodoStore) (id : String) (out : List String) where
  module _ (f : IsForest b st) (r : Removed st st' id out) where
    parent_is :
        (k : String) → (stored_parent st.nodes id ≡ some k) ⊎ (stored_parent st.nodes id ≢ some k)
    parent_is k = elim (Option-cases (stored_parent st.nodes id)) [
      | inl top ↦ inr (λ e. cc)
      | inr (pid, up) ↦ elim (Bool-cases (pid == k)) [
        | inl same ↦ inl (up ∙ ap some (ground (arith, eq_iff pid k)))
        | inr other ↦ inr (λ e. let at : pid ≡ k = cc in ground (arith, eq_iff pid k))
      ]
    ]

    key_after :
        (k : String)
        → contains_key k st'.nodes ≡ (if contains out k then false else contains_key k st.nodes)
    key_after k = elim (Bool-cases (contains out k)) [
      | inl h ↦ ground (arith, r.gone k h)
      | inr h ↦ elim (parent_is k) [
        | inl e ↦ elim (Option-cases (lookup k st.nodes)) [
          | inl miss ↦ ground (arith, r.pruned k h e)
          | inr (n, hit) ↦ ground (arith, r.pruned k h e)
        ]
        | inr ne ↦ ground (arith, r.kept k h ne)
      ]
    ]

    parent_after :
        (k : String)
        → stored_parent st'.nodes k ≡ (if contains out k then none else stored_parent st.nodes k)
    unfolding stored_parent
    parent_after k = elim (Bool-cases (contains out k)) [
      | inl h ↦ ground (arith, r.gone k h)
      | inr h ↦ elim (parent_is k) [
        | inl e ↦ elim (Option-cases (lookup k st.nodes)) [
          | inl miss ↦ ground (arith, r.pruned k h e)
          | inr (n, hit) ↦ ground (arith, r.pruned k h e)
        ]
        | inr ne ↦ ground (arith, r.kept k h ne)
      ]
    ]

    kids_gone : (k : String) → contains out k ≡ true → kids st'.nodes k ≡ []
    unfolding kids
    kids_gone k h = ground (arith, r.gone k h)

    kids_kept :
        (k : String)
        → contains out k ≡ false
        → stored_parent st.nodes id ≢ some k
        → kids st'.nodes k ≡ kids st.nodes k
    unfolding kids
    kids_kept k h ne = ground (arith, r.kept k h ne)

    kids_pruned :
        (k : String)
        → contains out k ≡ false
        → stored_parent st.nodes id ≡ some k
        → kids st'.nodes k ≡ retain (λ x. not (x == id)) (kids st.nodes k)
    unfolding kids
    kids_pruned k h e = elim (Option-cases (lookup k st.nodes)) [
      | inl miss ↦ ground (arith, r.pruned k h e)
      | inr (n, hit) ↦ ground (arith, r.pruned k h e)
    ]

    kids_after :
        (p c : String)
        → (c ∈ kids st'.nodes p) ↔ ((contains out p ≡ false) × (c ∈ kids st.nodes p) × (c ≢ id))
    kids_after p c = elim (Bool-cases (contains out p)) [
      | inl h ↦ (λ m. absurd (rw (kids_gone p h) at m), λ (k, _, _). cc)
      | inr h ↦ elim (parent_is p) [
        | inl e ↦ (
          λ m.
              let (old, ne) = (mem-retain (kids st.nodes p) id c).0 (rw (kids_pruned p h e) at m) in
              (h, old, ne),
          λ (_, m, ne). rw (kids_pruned p h e) ((mem-retain (kids st.nodes p) id c).1 (m, ne)),
        )
        | inr ne ↦ (
          λ m.
              let old : c ∈ kids st.nodes p = rw (kids_kept p h ne) at m in
              (h, old, λ at. ne (rw at at ((f.child p c old).0))),
          λ (_, m, _). rw (kids_kept p h ne) m,
        )
      ]
    ]

    root_after : (k : String) → (k ∈ st'.root_items) ↔ ((k ∈ st.root_items) × (k ≢ id))
    root_after k = elim (Option-cases (stored_parent st.nodes id)) [
      | inl top ↦ (
        λ m. (mem-retain st.root_items id k).0 (rw (r.roots_pruned top) at m),
        λ m. rw (r.roots_pruned top) ((mem-retain st.root_items id k).1 m),
      )
      | inr (p, up) ↦ (
        λ m.
            let old : k ∈ st.root_items = rw (r.roots_kept p up) at m in
            (old, λ at. cc (sym ((f.roots k).0 old).1 ∙ ap (stored_parent st.nodes) at ∙ up)),
        λ (m, _). rw (r.roots_kept p up) m,
      )
    ]

    -- What is not removed has no parent that is.
    out_child : (p c : String) → c ∈ kids st.nodes p → c ≢ id → contains out c ≡ contains out p
    out_child p c m ne = elim (Bool-cases (contains out p)) [
      | inl h ↦ (r.exact c).1 (below ((r.exact p).0 h) m) ∙ sym h
      | inr h ↦ elim (Bool-cases (contains out c)) [
        | inr g ↦ g ∙ sym h
        | inl g ↦ elim (Under-cases (kids st.nodes) id c ((r.exact c).0 g)) [
          | inl at ↦ absurd (ne (sym at))
          | inr (q, u, mq) ↦
              let same : q ≡ p = cc (sym (f.child q c mq).0 ∙ (f.child p c m).0) in
              cc (sym h ∙ ap (contains out) (sym same) ∙ (r.exact q).1 u)
        ]
      ]
    ]

    out_root : (k : String) → stored_parent st.nodes k ≡ none → k ≢ id → contains out k ≡ false
    out_root k top ne = elim (Bool-cases (contains out k)) [
      | inr h ↦ h
      | inl h ↦ elim (Under-cases (kids st.nodes) id k ((r.exact k).0 h)) [
        | inl at ↦ absurd (ne (sym at))
        | inr (q, u, mq) ↦ cc (sym top ∙ (f.child q k mq).0)
      ]
    ]

    not_it : (k : String) → contains out k ≡ false → k ≢ id
    not_it k h at = cc (sym h ∙ ap (contains out) at ∙ (r.exact id).1 here)

    pub Removed-IsForest : IsForest b st'
    Removed-IsForest = record {
      rank = f.rank;
      depth = f.depth;
      rank_le = f.rank_le;
      depth_le = f.depth_le;
      child = λ p c m.
          let (h, old, ne) = (kids_after p c).0 m in
          let (e, lt) = f.child p c old in (rw (parent_after c, out_child p c old ne, h) e, lt);
      parent = λ p c e. elim (Bool-cases (contains out c)) [
        | inl h ↦ cc (sym (rw h at (parent_after c)) ∙ e)
        | inr h ↦
            let up : stored_parent st.nodes c ≡ some p = sym (rw h at (parent_after c)) ∙ e in
            let (m, lt) = f.parent p c up in
            let ne = not_it c h in ((kids_after p c).1 (sym (out_child p c m ne) ∙ h, m, ne), lt)
      ];
      roots = λ k. (
        λ m.
            let (old, ne) = (root_after k).0 m in
            let (key, top) = (f.roots k).0 old in
            let h = out_root k top ne in (rw (key_after k, h) key, rw (parent_after k, h) top),
        λ (key, top). elim (Bool-cases (contains out k)) [
          | inl h ↦ cc (sym (rw h at (key_after k)) ∙ key)
          | inr h ↦ (root_after k).1 (
            (f.roots k).1 (sym (rw h at (key_after k)) ∙ key, sym (rw h at (parent_after k)) ∙ top),
            not_it k h,
          )
        ],
      );
    }

-- `remove_node` always returns on a forest, and leaves one with paths that are no longer.
pub remove_node-IsForest :
    (id : String) (b : ℕ) (st : TodoStore)
    → IsForest b st
    → (st' : TodoStore) × (out : List String) × (remove_node id st ≡ some (st', out))
      × IsForest b st'
remove_node-IsForest id b st f =
    let (st', out, e, r) = remove_node_lem id st in
    (st', out, e, Removed-IsForest b st st' id out f r)
