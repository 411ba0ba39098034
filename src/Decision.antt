-- ===== src/Decision.antt =====
-- The decision-tree tool, src-tauri/src/agent/decision_tree.rs, on the memory store. The recursions
-- along edges take fuel, and `none` says that it ran out.
pub mod Tree
pub mod Ops
pub mod Laws
pub mod Select
pub mod Root
pub mod Status
