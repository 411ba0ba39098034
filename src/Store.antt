-- ===== src/Store.antt =====
-- The state of the memory store and its operations: `InMemorySquireStore` in
-- src-tauri/src/agent/squire/store.rs, over the types of src-tauri/crates/squire-store/src/types.rs.
-- Each method locks, changes and unlocks one map, so a method is one function on the whole state.
-- A `u64` counter wraps, as it does in a release build.
pub mod Types
pub mod Ops
pub mod Process
