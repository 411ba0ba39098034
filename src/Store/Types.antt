-- ===== src/Store/Types.antt =====
-- The records of src-tauri/crates/squire-store/src/types.rs, and the names of the predicates.
-- A session id is the text of its UUID. A time stamp is a number.
use agent_squire.Base.{ℕ, String, Bool, Option, List}
use agent_squire.Base.Dict.{Dict}

pub record McpServerConfig : Type 0 where
  pub id : String
  pub name : String
  pub transport : String
  pub command : String
  pub args : List String
  pub url : Option String
  pub enabled : Bool
  pub env : Dict String
  pub headers : Dict String

pub data ToolEndpoint : Type 0 where
  mcp : McpServerConfig → String → ToolEndpoint

pub record TokenRange : Type 0 where
  pub namespace : String
  pub bookmark : String
  pub offset : ℕ
  pub length : Option ℕ

pub record NewTokenSpec : Type 0 where
  pub id : String
  pub token_type : String
  pub short_desc : String
  pub full_desc : Option String
  pub endpoint : Option ToolEndpoint
  pub ranges : List TokenRange
  pub tags : List String
  pub properties : Dict String

pub record TokenDetail : Type 0 where
  pub short_desc : String
  pub full_desc : Option String
  pub endpoint : Option ToolEndpoint
  pub ranges : List TokenRange
  pub tags : List String
  pub properties : Dict String

pub record StoredToken : Type 0 where
  pub token_type : String
  pub short_desc : String
  pub full_desc : Option String
  pub creation_turn : ℕ
  pub accumulated_hits : ℕ
  pub endpoint : Option ToolEndpoint
  pub ranges : List TokenRange
  pub session_id : String
  pub tags : List String
  pub properties : Dict String

-- The field `score` is left out: it is the literal 0.0 wherever this model builds a summary.
pub record TokenSummary : Type 0 where
  pub token_id : String
  pub token_type : String
  pub short_desc : String
  pub accumulated_hits : ℕ
  pub hop_distance : ℕ
  pub via_token_id : Option String
  pub tags : List String
  pub properties : Dict String

pub record Relationship : Type 0 where
  pub subject : String
  pub predicate : String
  pub object : String

pub record ComplianceFailureRecord : Type 0 where
  pub session_id : String
  pub rule : String
  pub reason : String
  pub retry_count : ℕ
  pub failed_content : String
  pub timestamp : ℕ

pub record RawPartitionRecord : Type 0 where
  pub session_id : String
  pub turn : ℕ
  pub content : String
  pub timestamp : ℕ

-- `pub mod predicates`.
abbrev pub subtask : String
subtask = "subtask"

abbrev pub marked_done : String
marked_done = "marked_done"

abbrev pub considers : String
considers = "considers"

abbrev pub selects : String
selects = "selects"

abbrev pub driven_by : String
driven_by = "drivenBy"

abbrev pub confirmed_by : String
confirmed_by = "confirmedBy"

abbrev pub invalidated_by : String
invalidated_by = "invalidatedBy"

abbrev pub abandoned : String
abandoned = "abandoned"

abbrev pub resolves : String
resolves = "resolves"

abbrev pub has_parent : String
has_parent = "HasParent"

abbrev pub contains_edge : String
contains_edge = "Contains"
