-- ===== src/Tests/Todo.antt =====
-- The todo tool on the sample store.
use agent_squire.Base.{
  ℕ, ◌++◌, length, ◌-◌, IsDistinct, String, Bool, true, false, none, some, List, [], ◌∷◌, ◌≡◌, ◌↔◌,
  ◌∈◌, refl, ◌==◌, eq_iff, append, contains, arith, Bool-cases, inl, inr,
}
use agent_squire.Base.Dict.{Dict, lookup, upsert}
use agent_squire.Graph.{IsRanked, Under}
use agent_squire.Store.Ops.{SquireState, get_root, get_relationships, token_exists}
use agent_squire.Slug.Chars.{trim}
use agent_squire.Slug.Defs.{slugify, todo_slug, fresh_loop}
use agent_squire.Slug.Decimal.{decimal}
use agent_squire.Slug.Fresh.{todo_slug_fresh, IsNumbered}
use agent_squire.Slug.Shape.{IsSlug, slugify-IsSlug}
use agent_squire.Tool.{Args, ToolResult, ok, succeeded}
use agent_squire.Todo.Done.{
  is_todo_done, all_of, check_done_constraints, collect_descendant_ids, kids_of, Check,
}
use agent_squire.Todo.Done.Spec.{IsDone}
use agent_squire.Todo.Done.Decides.{is_todo_done_decides}
use agent_squire.Todo.Done.Constraints.{
  AllBelowDone, check_done_decides, collect_descendant_ids_correct,
}
use agent_squire.Todo.Index.{load_todo_indices, index_from, index_one}
use agent_squire.Todo.Index.Laws.{edges_of}
use agent_squire.Todo.Token.{
  Output, token_create, token_update, token_delete, created, deleted, tree_of, root_of,
}
use agent_squire.Todo.Token.Create.{Created, new_child, token_create_lem}
use agent_squire.Todo.Token.Loop.{token_create-diverges}
use agent_squire.Todo.Token.Update.{MarkReply, token_update-done}
use agent_squire.Todo.Token.Delete.{listing, token_delete-keeps}
use agent_squire.Tests.Sample.{sample, no_args, todo_rank}

abbrev children : Dict (List String)
children = ("TODO_plan", "TODO_step" ∷ []) ∷ []

edges_sample : (edges_of sample).outgoing ≡ children
unfolding load_todo_indices get_relationships upsert index_from index_one
edges_sample = refl

-- One parent with one child.
children-IsRanked : IsRanked (kids_of children) todo_rank
unfolding lookup
children-IsRanked p c m = elim (Bool-cases ("TODO_plan" == p)) [
  | inl e ↦
      let step : c ∈ ("TODO_step" ∷ []) = rw e at m in
      elim step [
        | inl f ↦ rw (← (eq_iff "TODO_plan" p).0 e, ← f) (omega arith)
        | inr nowhere ↦ absurd nowhere
      ]
  | inr e ↦ absurd (rw e at m)
]

sample-IsRanked : IsRanked (kids_of (edges_of sample).outgoing) todo_rank
sample-IsRanked = rw edges_sample children-IsRanked

todo_slug_fresh_example :
    (id : String) × (todo_slug "plan" sample ≡ some id)
    × (token_exists sample id ≡ false)
    × IsNumbered (append "TODO_" (slugify "plan")) id
todo_slug_fresh_example = todo_slug_fresh "plan" sample

todo_slug_taken : todo_slug "plan" sample ≡ some "TODO_plan-2"
unfolding todo_slug slugify fresh_loop token_exists lookup decimal
todo_slug_taken = refl

slugify-IsSlug_example : IsSlug (slugify "a b")
slugify-IsSlug_example = slugify-IsSlug "a b"

is_todo_done_decides_example :
    (b : Bool) × (is_todo_done ("TODO_step" ∷ []) children 2 "TODO_plan" ≡ some b)
    × ((b ≡ true) ↔ IsDone ("TODO_step" ∷ []) children "TODO_plan")
is_todo_done_decides_example =
    is_todo_done_decides ("TODO_step" ∷ []) children todo_rank children-IsRanked 2 "TODO_plan"
      (omega arith)

plan_done : is_todo_done ("TODO_step" ∷ []) children 2 "TODO_plan" ≡ some true
unfolding is_todo_done all_of lookup
plan_done = refl

-- A marked item counts as done whatever its children are.
marked_above_open : is_todo_done ("TODO_plan" ∷ []) children 2 "TODO_plan" ≡ some true
unfolding is_todo_done
marked_above_open = refl

check_done_decides_example :
    (r : Check) × (check_done_constraints [] children 2 "TODO_plan" ≡ some r)
    × ((r ≡ ok tt) ↔ AllBelowDone [] children "TODO_plan")
check_done_decides_example =
    check_done_decides [] children todo_rank children-IsRanked 2 "TODO_plan" (omega arith)

collect_descendant_ids_correct_example :
    (out : List String) × (collect_descendant_ids "TODO_plan" children ≡ some out)
    × ((d : String) → (contains out d ≡ true) ↔ Under (kids_of children) "TODO_plan" d)
collect_descendant_ids_correct_example = collect_descendant_ids_correct "TODO_plan" children

abbrev create_args : Args
create_args = record no_args { title = some " plan "; parent_id = some "TODO_step" }

token_create_lem_example :
    (s' : SquireState) × (id : String) × (token_create 0 (some "s") "c" create_args sample
      ≡ some (s', succeeded "c" (created (trim " plan ") id)))
    × IsNumbered (append "TODO_" (slugify (trim " plan "))) id
    × Created sample s' id (trim " plan ") (some "TODO_step")
    × ((k : String)
        → kids_of (edges_of s').outgoing k
          ≡ kids_of (edges_of sample).outgoing k ++ new_child (some "TODO_step") id k)
token_create_lem_example =
    token_create_lem 0 (some "s") "c" create_args " plan " sample refl (unfold trim in refl)

abbrev done_args : Args
done_args = record no_args { id = some "TODO_step"; status = some "done" }

token_update-done_example :
    (s' : SquireState) × (r : ToolResult Output) × (token_update 1 (some "s") "c" done_args sample
      ≡ some (s', r))
    × MarkReply sample s' r "TODO_step"
token_update-done_example =
    token_update-done 1 (some "s") "c" done_args "TODO_step" sample todo_rank refl refl
      sample-IsRanked (omega arith)

token_delete-keeps_example :
    (s' : SquireState) × (out : List String) × (token_delete 2 (some "s") "c" done_args sample
      ≡ some (s', succeeded "c" (deleted "TODO_step" "TODO_step" (length out - 1))))
    × IsDistinct out
    × ((d : String)
        → (contains out d ≡ true) ↔ Under (kids_of (edges_of sample).outgoing) "TODO_step" d)
    × (s'.tokens ≡ sample.tokens)
    × ((fuel' : ℕ) → listing fuel' (some "s") "c" s' ≡ listing fuel' (some "s") "c" sample)
token_delete-keeps_example = token_delete-keeps 2 (some "s") "c" done_args "TODO_step" sample refl

abbrev loop_args : Args
loop_args = record no_args { title = some "loop"; parent_id = some "TODO_loop" }

loop_slug : todo_slug (trim "loop") sample ≡ some "TODO_loop"
unfolding todo_slug slugify fresh_loop token_exists lookup decimal trim
loop_slug = refl

no_loop_yet : kids_of (edges_of sample).outgoing "TODO_loop" ≡ []
unfolding load_todo_indices get_relationships upsert index_from index_one lookup
no_loop_yet = refl

no_loop_mark : contains (edges_of sample).marked "TODO_loop" ≡ false
unfolding load_todo_indices get_relationships upsert index_from index_one
no_loop_mark = refl

token_create-diverges_example :
    (s' : SquireState) × ((fuel : ℕ)
      → token_create fuel (some "s") "c" loop_args sample
        ≡ some (s', succeeded "c" (created (trim "loop") "TODO_loop")))
    × (kids_of (edges_of s').outgoing "TODO_loop" ≡ "TODO_loop" ∷ [])
    × ((fuel : ℕ)
        → is_todo_done (edges_of s').marked (edges_of s').outgoing fuel "TODO_loop" ≡ none)
    × ((fuel : ℕ) → tree_of fuel s' "TODO_loop" ≡ none)
token_create-diverges_example =
    token_create-diverges (some "s") "c" loop_args "loop" "TODO_loop" sample refl
      (unfold trim in refl) loop_slug refl no_loop_yet no_loop_mark

-- The item stands below another, and is taken for a root.
root_run : root_of 3 sample "TODO_step" ≡ some "TODO_step"
unfolding root_of get_root get_relationships lookup
root_run = refl
