-- ===== src/Graph.antt =====
-- Trees that are given by their edges: descendants, and the worklist that collects them, which the
-- two todo stores share (`collect_descendant_ids` and `collect_descendants` in
-- src-tauri/src/agent/todo_tree.rs).
pub mod Collect
pub mod Sound
use agent_squire.Base.{ℕ, zero, suc, ◌<◌, ◌∈◌, String, List}

-- The children of a node, in order.
abbrev pub Edges : Type 0
Edges = String → List String

-- `Under kids a d`: `d` is `a`, or is reached from it by going to a child again and again.
pub data Under (kids : Edges) (a : String) : String → Type 0 where
  here : Under kids a a
  below : {p c : String} → Under kids a p → c ∈ kids p → Under kids a c

-- `Below kids a d`: `d` is a proper descendant of `a`.
pub data Below (kids : Edges) : String → String → Type 0 where
  direct : {a c : String} → c ∈ kids a → Below kids a c
  deeper : {a c d : String} → c ∈ kids a → Below kids c d → Below kids a d

-- A child has a smaller rank than its parent, so there is no cycle.
abbrev pub IsRanked : Edges → (String → ℕ) → Type 0
IsRanked kids rank = (p c : String) → c ∈ kids p → rank c < rank p
