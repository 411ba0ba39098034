-- ===== src/Tests/Forest.antt =====
-- The sample store as a forest of todo items.
use agent_squire.Base.{
  ℕ, ◌<◌, String, ◌==◌, eq_iff, ◌≡◌, refl, sym, ap, ◌∙◌, ◌∈◌, some, if◌then◌else◌, arith,
}
use agent_squire.Base.Dict.{lookup, upsert}
use agent_squire.Store.Ops.{SquireState, token_exists, get_relationships}
use agent_squire.Slug.Chars.{trim}
use agent_squire.Tool.{Args, succeeded}
use agent_squire.Todo.Index.{load_todo_indices, index_from, index_one}
use agent_squire.Todo.Tree.{Items}
use agent_squire.Todo.Token.{token_create, token_list, created, todo_tree}
use agent_squire.Todo.Token.Forest.{IsTodoForest, kids_in, token_create-IsTodoForest}
use agent_squire.Todo.Token.Keeps.{token_list_total}
use agent_squire.Tests.Sample.{sample, no_args}

kids_sample : (p c : String) → c ∈ kids_in sample p → (("TODO_plan" ≡ p) × ("TODO_step" ≡ c))
unfolding load_todo_indices get_relationships upsert index_from index_one lookup
kids_sample p c m = ground (arith, eq_iff "TODO_plan" p)

abbrev rank : String → ℕ
rank k = if k == "TODO_plan" then 1 else 0

sample-IsTodoForest : IsTodoForest 2 sample
unfolding token_exists lookup
sample-IsTodoForest = record {
  rank = rank;
  rank_lt = λ k. ground arith;
  falls = λ p c m. let (ep, ec) = kids_sample p c m in falls_at ep ec;
  upper = λ p c m. ap (token_exists sample) (sym (kids_sample p c m).0) ∙ refl;
  lower = λ p c m. ap (token_exists sample) (sym (kids_sample p c m).1) ∙ refl;
}
  where
    falls_at : {p c : String} → "TODO_plan" ≡ p → "TODO_step" ≡ c → rank c < rank p
    falls_at ep ec = rw (← ep, ← ec) (omega arith)

abbrev create_args : Args
create_args = record no_args { title = some "more"; parent_id = some "TODO_step" }

abbrev done_args : Args
done_args = record no_args { id = some "TODO_plan"; status = some "done" }

token_create-IsTodoForest_example :
    (s' : SquireState) × (id : String) × (token_create 0 (some "s") "c" create_args sample
      ≡ some (s', succeeded "c" (created (trim "more") id)))
    × IsTodoForest 3 s'
unfolding token_exists lookup
token_create-IsTodoForest_example =
    token_create-IsTodoForest 0 (some "s") "c" create_args "more" sample 2 refl
      (unfold trim in refl)
      (λ pid e. let at : "TODO_step" ≡ pid = cc in ap (token_exists sample) (sym at) ∙ refl)
      sample-IsTodoForest

token_list_total_example :
    (items : Items) × (token_list 3 (some "s") "c" sample
      ≡ some (sample, succeeded "c" (todo_tree items)))
token_list_total_example =
    token_list_total 3 (some "s") "c" sample 2 sample-IsTodoForest (omega arith)
