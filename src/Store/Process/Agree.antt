-- ===== src/Store/Process/Agree.antt =====
-- The bootstrap summary and the todo tool agree on what is done.
use agent_squire.Base.{
  ℕ, zero, suc, ◌≡◌, refl, ap, inl, inr, String, Bool, ◌==◌, Option, none, List, [], ◌∷◌, contains,
  insert_set, Bool-cases, Option-cases,
}
use agent_squire.Base.Dict.{lookup}
use agent_squire.Store.Types.{Relationship, subtask, marked_done}
use agent_squire.Store.Ops.{SquireState, get_relationships}
use agent_squire.Store.Process.{ProcessIndex, index_rel, index_rels, no_index, all_by, is_done}
use agent_squire.Todo.Index.{
  Edges, index_one, index_from, no_edges, push_at, find_roots, load_todo_indices,
}
use agent_squire.Todo.Done.{all_of, is_todo_done}

-- Two indices with the same children and the same marks.
pub record IsAgreed (i : ProcessIndex) (e : Edges) : Type 0 where
  pub children : i.outgoing_subtask ≡ e.outgoing
  pub marks : i.done_set ≡ e.marked

index_rel-IsAgreed :
    (i : ProcessIndex) (e : Edges) (r : Relationship)
    → IsAgreed i e
    → IsAgreed (index_rel i r) (index_one e r)
unfolding index_rel index_one
index_rel-IsAgreed i e r a =
    let more = ap (push_at r.subject r.object) a.children in
    let marked = ap (λ ids. insert_set ids r.subject) a.marks in
    elim (Bool-cases (r.predicate == subtask)) [
      | inl sub ↦ elim (Bool-cases (r.predicate == marked_done)) [
        | inl done ↦ rw (sub, done) (record { children = more; marks = marked })
        | inr other ↦ rw (sub, other) (record { children = more; marks = a.marks })
      ]
      | inr plain ↦ elim (Bool-cases (r.predicate == marked_done)) [
        | inl done ↦ rw (plain, done) (record { children = a.children; marks = marked })
        | inr other ↦ rw (plain, other) (record { children = a.children; marks = a.marks })
      ]
    ]

index_rels-IsAgreed :
    (i : ProcessIndex) (e : Edges) (rels : List Relationship)
    → IsAgreed i e
    → IsAgreed (index_rels i rels) (index_from e rels)
unfolding index_rels index_from
index_rels-IsAgreed i e [] a = a
index_rels-IsAgreed i e (r ∷ rels) a =
    index_rels-IsAgreed (index_rel i r) (index_one e r) rels (index_rel-IsAgreed i e r a)

all_by-all_of :
    (p q : String → Option Bool) (cs : List String)
    → ((c : String) → p c ≡ q c)
    → all_by p cs ≡ all_of q cs
unfolding all_by all_of
all_by-all_of p q [] h = refl
all_by-all_of p q (c ∷ cs) h = elim (Option-cases (q c)) [
  | inl stuck ↦ rw (all_by, all_of, h c, stuck) refl
  | inr (b, e) ↦ rw (all_by, all_of, h c, e, all_by-all_of p q cs h) refl
]

is_done-is_todo_done :
    (fuel : ℕ) (i : ProcessIndex) (e : Edges) (id : String)
    → IsAgreed i e
    → is_done fuel i id ≡ is_todo_done e.marked e.outgoing fuel id
unfolding is_done is_todo_done
is_done-is_todo_done zero i e id a = refl
is_done-is_todo_done (suc fuel) i e id a = elim (Bool-cases (contains e.marked id)) [
  | inl done ↦ rw (is_done, is_todo_done, a.marks, done) refl
  | inr not_done ↦ elim (Option-cases (lookup id e.outgoing)) [
    | inl leaf ↦ rw (is_done, is_todo_done, a.marks, not_done, a.children, leaf) refl
    | inr (cs, at) ↦
        rw (is_done, is_todo_done, a.marks, not_done, a.children, at)
          (all_by-all_of (is_done fuel i) (is_todo_done e.marked e.outgoing fuel) cs
            (λ c. is_done-is_todo_done fuel i e c a))
  ]
]

-- On every store, `compute_active_process_state` takes the same items for done as the todo tool: over
-- its index of the relationships, and with the same fuel, `is_done` gives what `is_todo_done` gives
-- over the indices that `load_todo_indices` makes.
pub is_done_agrees :
    (fuel : ℕ) (s : SquireState) (id : String)
    → is_done fuel (index_rels no_index (get_relationships s none none none)) id
      ≡ is_todo_done (load_todo_indices s).edges.marked (load_todo_indices s).edges.outgoing fuel id
unfolding load_todo_indices find_roots
is_done_agrees fuel s id = is_done-is_todo_done fuel _ _ id (
    index_rels-IsAgreed no_index no_edges (get_relationships s none none none)
      (record { children = refl; marks = refl }))
