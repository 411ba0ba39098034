-- ===== src/Memory.antt =====
-- The built-in discovery tools of src-tauri/src/agent/squire/tools.rs: explore, token_to_detail, rdf and
-- batch, with the cap on their number in a turn.
pub mod Batch
pub mod Traverse
pub mod Tools
pub mod Run
