-- ===== src/Slug.antt =====
-- The identifiers that the tree tools derive from titles: `slugify`, `todo_slug`, `dt_slug` and
-- `assumption_slug` in src-tauri/src/agent/todo_tree.rs and src-tauri/src/agent/decision_tree.rs,
-- with what they use of the standard library.
pub mod Chars
pub mod Decimal
pub mod Defs
pub mod Shape
pub mod Fresh
