-- ===== src/Todo/Token/Update.antt =====
-- What `token_update` changes.
use agent_squire.Graph.{IsRanked}
use agent_squire.Base.{
  ℕ, ◌<◌, String, eq_iff, ◌≡◌, refl, sym, ap, ◌∙◌, subst, ◌⊎◌, inl, inr, true, false, Option, some,
  append, arith, contains-insert_set, insert_set,
}
use agent_squire.Store.Types.{subtask, marked_done}
use agent_squire.Store.Ops.{SquireState, insert_relationship}
use agent_squire.Tool.{ToolResult, Args, ok, err, succeeded, failed}
use agent_squire.Todo.Done.{ConstraintError, Check, kids_of}
use agent_squire.Todo.Done.Spec.{IsDone, by_mark, IsDone-mono}
use agent_squire.Todo.Done.Constraints.{AllBelowDone, check_done_decides}
use agent_squire.Todo.Index.{Edges, index_one}
use agent_squire.Todo.Index.Laws.{edges_of, edges_of-insert}
use agent_squire.Todo.Token.{Output, edge, updated, constraint, title_of, mark_done, token_update}

-- An item is done, as the store says.
abbrev pub IsDoneIn : SquireState → String → Type 0
IsDoneIn s = IsDone (edges_of s).marked (edges_of s).outgoing

-- What a new mark changes in the indices.
abbrev with_mark : Edges → String → Edges
with_mark e id = record e { marked = insert_set e.marked id }

index_one_mark :
    (e : Edges) (id object : String) → index_one e (edge id marked_done object) ≡ with_mark e id
unfolding index_one
index_one_mark e id object =
    ground (arith, eq_iff marked_done subtask, eq_iff marked_done marked_done)

edges_of_mark :
    (s : SquireState) (id object : String)
    → edges_of (insert_relationship s (edge id marked_done object)) ≡ with_mark (edges_of s) id
edges_of_mark s id object =
    edges_of-insert s (edge id marked_done object) ∙ index_one_mark (edges_of s) id object

-- After the mark the item is done, and so is all that was done before.
pub record Marked (s s' : SquireState) (id : String) : Type 0 where
  pub done : IsDoneIn s' id
  pub kept : (d : String) → IsDoneIn s d → IsDoneIn s' d
  pub below : AllBelowDone (edges_of s).marked (edges_of s).outgoing id
  pub outgoing : (edges_of s').outgoing ≡ (edges_of s).outgoing
  pub tokens : s'.tokens ≡ s.tokens

mark-Marked :
    (s : SquireState) (id object : String)
    → AllBelowDone (edges_of s).marked (edges_of s).outgoing id
    → Marked s (insert_relationship s (edge id marked_done object)) id
mark-Marked s id object all =
    let e = edges_of_mark s id object in
    record {
      done =
          subst (λ (x : Edges). IsDone x.marked x.outgoing id) (sym e)
            (by_mark (ground (arith, contains-insert_set (edges_of s).marked id id, eq_iff id id)));
      kept = λ d h.
          subst (λ (x : Edges). IsDone x.marked x.outgoing d) (sym e)
            (IsDone-mono (λ a m. ground (arith, contains-insert_set (edges_of s).marked id a)) h);
      below = all;
      outgoing = ap (λ (x : Edges). x.outgoing) e;
      tokens = unfold insert_relationship in refl;
    }

-- The two ways in which the arm "done" of `token_update` ends.
abbrev pub MarkReply : SquireState → SquireState → ToolResult Output → String → Type 0
MarkReply s s' r id =
    (r.is_error ≡ true) × (s' ≡ s) × ¬ AllBelowDone (edges_of s).marked (edges_of s).outgoing id
    ⊎ (r.is_error ≡ false) × Marked s s' id

Check-cases : (c : Check) → (c ≡ ok tt) ⊎ ((why : ConstraintError) × (c ≡ err why))
Check-cases (ok x) = inl refl
Check-cases (err why) = inr (why, refl)

-- `token_update` to "done" on a forest, with more fuel than the rank of the item: it returns. Either
-- some proper descendant is not done, an error is reported and the store is as it was; or all are,
-- success is reported, the item is done now, whatever was done still is, and neither the tokens nor
-- the tree changed.
pub token_update-done :
    (fuel : ℕ) (session : Option String) (call_id : String) (args : Args) (id : String)
    (s : SquireState) (rank : String → ℕ)
    → args.id ≡ some id
    → args.status ≡ some "done"
    → IsRanked (kids_of (edges_of s).outgoing) rank
    → rank id < fuel
    → (s' : SquireState) × (r : ToolResult Output) × (token_update fuel session call_id args s
        ≡ some (s', r))
      × MarkReply s s' r id
unfolding token_update mark_done
token_update-done fuel session call_id args id s rank e f ranked h =
    let (c, checked, exact) =
      check_done_decides (edges_of s).marked (edges_of s).outgoing rank ranked fuel id h in
    elim (Check-cases c) [
      | inl holds ↦ (
        insert_relationship s (edge id marked_done (append "TRT_" id)),
        succeeded call_id (updated (title_of s id) id "done"),
        rw (e, token_update, f, token_update, checked, mark_done, holds, mark_done),
        inr (refl, mark-Marked s id (append "TRT_" id) (exact.0 holds)),
      )
      | inr (why, fails) ↦ (
        s,
        failed call_id (constraint why),
        rw (e, token_update, f, token_update, checked, mark_done, fails, mark_done),
        inl (refl, refl, λ all. cc (sym fails ∙ exact.1 all)),
      )
    ]
