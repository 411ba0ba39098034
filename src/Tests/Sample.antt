-- ===== src/Tests/Sample.antt =====
-- A store with a todo item above another, and a decision with an option.
use agent_squire.Base.{ℕ, String, none, [], ◌∷◌, ◌==◌, if◌then◌else◌}
use agent_squire.Store.Types.{StoredToken, subtask, considers}
use agent_squire.Store.Ops.{SquireState}
use agent_squire.Tool.{Args}

abbrev pub token : String → StoredToken
token title = record {
  token_type = "concept";
  short_desc = title;
  full_desc = none;
  creation_turn = 1;
  accumulated_hits = 1;
  endpoint = none;
  ranges = [];
  session_id = "s";
  tags = [];
  properties = [];
}

abbrev pub sample : SquireState
sample = record {
  tokens =
      ("TODO_plan", token "plan")
      ∷ ("TODO_step", token "step")
      ∷ ("CONCEPT_DT_db", token "db")
      ∷ ("CONCEPT_DT_sql", token "sql")
      ∷ [];
  relationships =
      record { subject = "TODO_plan"; predicate = subtask; object = "TODO_step" }
      ∷ record { subject = "CONCEPT_DT_db"; predicate = considers; object = "CONCEPT_DT_sql" }
      ∷ [];
  preserve_lists = [];
  turns = [];
  compliance_failures = [];
  raw_partition = [];
}

abbrev pub no_args : Args
no_args = record {
  operation = none;
  id = none;
  title = none;
  parent_id = none;
  status = none;
  path = none;
  assumption = none;
  evidence = none;
}

abbrev pub todo_rank : String → ℕ
todo_rank k = if k == "TODO_plan" then 1 else 0

abbrev pub dt_rank : String → ℕ
dt_rank k = if k == "CONCEPT_DT_db" then 1 else 0
