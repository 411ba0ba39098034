-- ===== src/Todo.antt =====
-- The todo tool, src-tauri/src/agent/todo_tree.rs: `Done` has the computed status of a token-backed
-- item, `Index` what is read from the store's relationships, `Token` the token-backed operations.
pub mod Done
pub mod Index
pub mod Tree
pub mod Token
pub mod Json
