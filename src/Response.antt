-- ===== src/Response.antt =====
-- The records of the protocol in src-tauri/src/agent/squire/types.rs.
pub mod Lines
pub mod Parse
pub mod Repair
pub mod Headers
pub mod Detect
use agent_squire.Base.{String, List, []}
use agent_squire.Store.Types.{NewTokenSpec, Relationship}

pub record SquireResponse : Type 0 where
  pub ask_user : String
  pub content : String
  pub preserve : List String
  pub new_tokens : List NewTokenSpec
  pub relationships : List Relationship

-- `SquireResponse::default`.
abbrev pub default_response : SquireResponse
default_response = record {
  ask_user = "";
  content = "";
  preserve = [];
  new_tokens = [];
  relationships = [];
}
