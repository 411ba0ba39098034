-- ===== src/Tests/Memory.antt =====
-- The discovery tools and the bootstrap summary on small stores.
use agent_squire.Base.{ℕ, String, Bool, true, ◌≡◌, refl, none, some, List, [], ◌∷◌, All}
use agent_squire.Base.Dict.{Dict, keys}
use agent_squire.Slug.Chars.{trim, trim_by, trim_start, trim_end, is_whitespace}
use agent_squire.Store.Types.{driven_by}
use agent_squire.Store.Ops.{
  SquireState, get_relationships, list_token_ids, list_token_ids_by_session,
}
use agent_squire.Store.Process.{
  is_done, index_rels, no_index, compute_active_process_state, index_rel, first_open_root,
  first_decision, deepest, leaf_status, assumption_of,
}
use agent_squire.Store.Process.Agree.{is_done_agrees}
use agent_squire.Todo.Index.{load_todo_indices}
use agent_squire.Todo.Done.{is_todo_done}
use agent_squire.Tool.{ok, failed}
use agent_squire.Protocol.Ranges.{parse_usize, parse_digits}
use agent_squire.Response.Detect.{find_char, rfind_char}
use agent_squire.Memory.Batch.{
  explore, rdf, scan, groups_from, split_groups, stages_from, split_pipeline, args_from, parse_args,
  get, func_of, parse_func_call, parse_stages, parse_groups, parse_batch_expr,
}
use agent_squire.Memory.Traverse.{TraversalNode, traverse_relationships}
use agent_squire.Memory.Traverse.Results.{IsFinding, traverse_relationships_sound}
use agent_squire.Memory.Tools.{cap_exceeded, no_tool_args, check_batch_cap, execute_detail}
use agent_squire.Tests.Sample.{sample, token}

piped_run :
    parse_batch_expr "explore(memory, 'a, b', 1) | rdf(2); rdf(3, 4)"
    ≡ some (ok ((explore "memory" "a, b" 1 10 "content" ∷ rdf 2 20 ∷ []) ∷ (rdf 3 4 ∷ []) ∷ []))
unfolding parse_batch_expr split_groups groups_from scan split_pipeline stages_from parse_groups
    parse_stages parse_func_call find_char rfind_char parse_args args_from get func_of parse_usize
    parse_digits trim trim_by trim_start trim_end is_whitespace
piped_run = refl

-- A closing parenthesis inside a quote, before the opening one: the slice between them panics.
quoted_run : parse_batch_expr "')'(" ≡ none
unfolding parse_batch_expr split_groups groups_from scan split_pipeline stages_from parse_groups
    parse_stages parse_func_call find_char rfind_char trim trim_by trim_start trim_end is_whitespace
quoted_run = refl

-- A call at the cap is refused, and leaves the store alone.
cap_run :
    execute_detail {S = ℕ} "c" (record no_tool_args { token_id = some "TODO_plan" }) 3 3 sample
    ≡ (3, sample, failed "" (cap_exceeded 3 3))
unfolding execute_detail check_batch_cap
cap_run = refl

abbrev same_score : ℕ → ℕ → ℕ
same_score s h = s

abbrev any_type : String → Bool
any_type t = true

abbrev node : String → TraversalNode
node id = record {
  token_id = id;
  token_type = "concept";
  short_desc = id;
  tags = [];
  properties = [];
}

abbrev nodes : Dict TraversalNode
nodes = ("a", node "a") ∷ ("b", node "b") ∷ ("c", node "c") ∷ []

abbrev chain : List (String × String)
chain = ("a", "b") ∷ ("c", "b") ∷ []

abbrev seeds : List (String × ℕ)
seeds = ("a", 1) ∷ []

traverse_relationships_sound_example :
    All
      (IsFinding same_score nodes any_type chain 2 ("a" ∷ []))
      (traverse_relationships same_score nodes any_type seeds chain 2)
traverse_relationships_sound_example =
    traverse_relationships_sound same_score nodes any_type chain 2 seeds

is_done_agrees_example :
    is_done 3 (index_rels no_index (get_relationships sample none none none)) "TODO_plan"
    ≡ is_todo_done
        (load_todo_indices sample).edges.marked
        (load_todo_indices sample).edges.outgoing
        3
        "TODO_plan"
is_done_agrees_example = is_done_agrees 3 sample "TODO_plan"

-- Two decisions; the second one was driven by an assumption.
abbrev decisions : SquireState
decisions = record {
  tokens = ("CONCEPT_DT_db", token "db") ∷ ("CONCEPT_DT_ui", token "ui") ∷ [];
  relationships =
      record { subject = "CONCEPT_DT_ui"; predicate = driven_by; object = "CONCEPT_Assumption_web" }
      ∷ [];
  preserve_lists = [];
  turns = [];
  compliance_failures = [];
  raw_partition = [];
}

-- The summary names the first decision with the assumption of the second one.
assumption_run :
    compute_active_process_state 2 decisions "s"
    ≡ some (record {
      todo_root = none;
      open_leaves = [];
      dt_root = some "CONCEPT_DT_db";
      last_decision = some (record {
        node = "CONCEPT_DT_db";
        assumption = "CONCEPT_Assumption_web";
        status = "under_consideration";
      });
    })
unfolding compute_active_process_state get_relationships list_token_ids list_token_ids_by_session
    index_rels index_rel first_open_root first_decision deepest leaf_status assumption_of keys
assumption_run = refl
