-- ===== src/Decision/Status.antt =====
-- What adding options and judging them changes.
use agent_squire.Base.{
  ℕ, ◌<◌, ◌≤◌, ◌+◌, String, ◌==◌, eq_iff, ◌≡◌, refl, sym, ap, ◌∙◌, false, ◌&&◌, none, some, [], ◌∷◌,
  ◌++◌, if◌then◌else◌, contains, insert_set, contains-insert_set, arith, append, unwrap_or,
}
use agent_squire.Graph.{IsRanked, Under}
use agent_squire.Store.Types.{considers, confirmed_by, invalidated_by, resolves}
use agent_squire.Store.Ops.{SquireState, insert_relationship, upsert_token, token_exists}
use agent_squire.Slug.Chars.{trim}
use agent_squire.Slug.Defs.{dt_slugify}
use agent_squire.Slug.Fresh.{dt_slug_fresh, IsNumbered}
use agent_squire.Todo.Index.Laws.{get_relationships_all}
use agent_squire.Todo.Token.{edge, is_blank}
use agent_squire.Tool.{Args, succeeded}
use agent_squire.Decision.Tree.{Sets, dt_children, status_of, parent_of, is_tree_edge}
use agent_squire.Decision.Laws.{
  sets_of, sets_of-insert, dt_one-confirmed, dt_one-invalidated, dt_one-resolves,
  dt_children-append,
}
use agent_squire.Decision.Root.{dt_kids, find_dt_root_correct}
use agent_squire.Decision.Ops.{
  all_relationships, put_concept, op_consider, op_confirm, op_invalidate, op_resolve, added,
  confirmed, invalidated, resolved,
}

module _ (e : Sets) (id : String) where
  status-confirmed :
      status_of (record e { confirmed_set = insert_set e.confirmed_set id }) id
      ≡ (if contains e.resolves_set id then "resolved" else "confirmed")
  unfolding status_of
  status-confirmed = ground (arith, contains-insert_set e.confirmed_set id id, eq_iff id id)

  status-invalidated :
      status_of (record e { invalidated_set = insert_set e.invalidated_set id }) id ≡ (
        if contains e.resolves_set id
        then "resolved"
        else if contains e.confirmed_set id
        then "confirmed"
        else "invalidated")
  unfolding status_of
  status-invalidated = ground (arith, contains-insert_set e.invalidated_set id id, eq_iff id id)

  status-abandoned : status_of (record e { abandoned_set = insert_set e.abandoned_set id }) id ≡ (
      if contains e.resolves_set id
      then "resolved"
      else if contains e.confirmed_set id
      then "confirmed"
      else if contains e.invalidated_set id
      then "invalidated"
      else "abandoned")
  unfolding status_of
  status-abandoned = ground (arith, contains-insert_set e.abandoned_set id id, eq_iff id id)

  status-resolved :
      status_of (record e { resolves_set = insert_set e.resolves_set id }) id ≡ "resolved"
  unfolding status_of
  status-resolved = ground (arith, contains-insert_set e.resolves_set id id, eq_iff id id)

-- The status that the tool shows for a node of a store.
abbrev pub shown : SquireState → String → String
shown s id = status_of (sets_of s) id

-- After `op_confirm` a node is shown as confirmed, unless it was resolved before.
pub op_confirm-status :
    (session call_id : String) (fuel : ℕ) (args : Args) (id : String) (s : SquireState)
    → args.id ≡ some id
    → (s' : SquireState) × (op_confirm fuel session call_id args s
        ≡ some (s', succeeded call_id (confirmed id)))
      × (s'.tokens ≡ s.tokens)
      × (shown s' id ≡ (if contains (sets_of s).resolves_set id then "resolved" else "confirmed"))
unfolding op_confirm
op_confirm-status session call_id fuel args id s e =
    let object = append "TRT_evidence_" (dt_slugify (unwrap_or "confirmed" args.evidence)) in
    let r = edge id confirmed_by object in
    (
      insert_relationship s r,
      rw (e, op_confirm),
      unfold insert_relationship in refl,
      ap (λ x. status_of x id) (sets_of-insert s r ∙ dt_one-confirmed (sets_of s) id object)
          ∙ status-confirmed (sets_of s) id,
    )

-- After `op_invalidate` a node is shown as invalidated, unless it was resolved or confirmed before: a
-- confirmation is never taken back.
pub op_invalidate-status :
    (session call_id : String) (fuel : ℕ) (args : Args) (id : String) (s : SquireState)
    → args.id ≡ some id
    → (s' : SquireState) × (op_invalidate fuel session call_id args s
        ≡ some (s', succeeded call_id (invalidated id)))
      × (s'.tokens ≡ s.tokens)
      × (shown s' id ≡ (
          if contains (sets_of s).resolves_set id
          then "resolved"
          else if contains (sets_of s).confirmed_set id
          then "confirmed"
          else "invalidated"))
unfolding op_invalidate
op_invalidate-status session call_id fuel args id s e =
    let object = append "TRT_evidence_" (dt_slugify (unwrap_or "invalidated" args.evidence)) in
    let r = edge id invalidated_by object in
    (
      insert_relationship s r,
      rw (e, op_invalidate),
      unfold insert_relationship in refl,
      ap (λ x. status_of x id) (sets_of-insert s r ∙ dt_one-invalidated (sets_of s) id object)
          ∙ status-invalidated (sets_of s) id,
    )

-- In a forest, with more fuel than the largest rank, `op_resolve` returns and succeeds; the reply
-- names a root above the node, and the node is shown as resolved.
pub op_resolve-status :
    (session call_id : String) (fuel : ℕ) (args : Args) (id : String) (s : SquireState)
    (rank : String → ℕ) (bound : ℕ)
    → args.id ≡ some id
    → IsRanked (dt_kids (all_relationships s)) rank
    → ((k : String) → rank k ≤ bound)
    → bound < rank id + fuel
    → (s' : SquireState) × (root : String) × (op_resolve fuel session call_id args s
        ≡ some (s', succeeded call_id (resolved root id)))
      × (parent_of root (all_relationships s) ≡ none)
      × Under (dt_kids (all_relationships s)) root id
      × (shown s' id ≡ "resolved")
unfolding op_resolve
op_resolve-status session call_id fuel args id s rank bound e ranked top h =
    let (root, found, last, under) =
      find_dt_root_correct (all_relationships s) rank bound ranked top fuel id h in
    let r = edge id resolves root in
    (
      insert_relationship s r,
      root,
      rw (e, op_resolve, found),
      last,
      under,
      ap (λ x. status_of x id) (sets_of-insert s r ∙ dt_one-resolves (sets_of s) id root)
          ∙ status-resolved (sets_of s) id,
    )

tree_test :
    (parent k id : String)
    → (if parent == k && is_tree_edge (edge parent considers id) then id ∷ [] else [])
      ≡ (if parent == k then id ∷ [] else [])
tree_test parent k id = ground arith

consider-children :
    (s : SquireState) (session id title parent k : String)
    → dt_children k (
        all_relationships
          (insert_relationship (put_concept session id title s) (edge parent considers id)))
      ≡ dt_children k (all_relationships s) ++ (if parent == k then id ∷ [] else [])
unfolding insert_relationship put_concept upsert_token
consider-children s session id title parent k =
    let r = edge parent considers id in
    ap (dt_children k) (
      get_relationships_all (insert_relationship (put_concept session id title s) r)
      ∙ ap (λ l. l ++ r ∷ []) (sym (get_relationships_all s)))
    ∙ dt_children-append k (all_relationships s) r
    ∙ ap (λ l. dt_children k (all_relationships s) ++ l) (tree_test parent k id)

-- With a title that is not blank `op_consider` always returns and succeeds: the option has an
-- identifier that no token had, built from the slug of the trimmed title, and it is the last child of
-- the parent; the children of other nodes are as they were.
pub op_consider-children :
    (session call_id : String) (fuel : ℕ) (args : Args) (parent raw : String) (s : SquireState)
    → args.parent_id ≡ some parent
    → args.title ≡ some raw
    → is_blank (trim raw) ≡ false
    → (s' : SquireState) × (id : String) × (op_consider fuel session call_id args s
        ≡ some (s', succeeded call_id (added parent (trim raw) id)))
      × (token_exists s id ≡ false)
      × IsNumbered (append "CONCEPT_DT_" (dt_slugify (trim raw))) id
      × ((k : String)
          → dt_children k (all_relationships s')
            ≡ dt_children k (all_relationships s) ++ (if parent == k then id ∷ [] else []))
unfolding op_consider
op_consider-children session call_id fuel args parent raw s e f blank =
    let (id, found, new, shape) = dt_slug_fresh (trim raw) s in
    let s1 = put_concept session id (trim raw) s in
    (
      insert_relationship s1 (edge parent considers id),
      id,
      rw (e, op_consider, f, op_consider, blank, found),
      new,
      shape,
      λ k. consider-children s session id (trim raw) parent k,
    )
