-- ===== src/Lib.antt =====
-- Squire: the memory store of an agent and the two tree tools on it.
--
-- The program is a desktop agent. Its memory is a store of tokens (concepts with a short text, kept by
-- identifier) and of relationships (triples of subject, predicate, object). Two tools that the model
-- calls keep trees in that store as relationships: the todo tool (predicates subtask and marked_done)
-- and the decision tool (considers, selects, driven_by, confirmed_by and others). The todo tool has a
-- second form that keeps its tree in a JSON file. A tool call is an operation name with JSON
-- arguments, and gives a ToolResult, a text with a flag for errors.
--
-- Which file models which part (paths from the root of the repository):
--   Store, Store/Types, Store/Ops: InMemorySquireStore of src-tauri/src/agent/squire/store.rs, the data
--     types of src-tauri/crates/squire-store/src/types.rs and StoredToken of .../src/store.rs. The
--     state is one record with the maps and vectors of the struct, and each method is a function from
--     the state, under the name of the method.
--   Slug and its children: slugify, todo_slug, dt_slug and assumption_slug of
--     src-tauri/src/agent/todo_tree.rs and src-tauri/src/agent/decision_tree.rs.
--   Tool: ToolResult of src-tauri/src/agent/mod.rs and the arguments of a call. A text that the code
--     formats is a constructor with the values that it shows.
--   Todo/Index: load_todo_indices; Todo/Done: is_todo_done, all_descendants_todo_done,
--     check_done_constraints, collect_descendant_ids; Todo/Tree: build_tree_json; Todo/Token and
--     Todo/Token/Bulk: TodoTreeTool::execute_token with token_create, token_list, token_update,
--     token_get, token_delete, token_bulk; all of src-tauri/src/agent/todo_tree.rs.
--   Todo/Json: TodoStore of the same file (add_node, update_status, remove_node and what they call);
--     Todo/Json/Tool and Todo/Json/Bulk: TodoTreeTool::execute_legacy with load, save and the loop of
--     the operation bulk. Todo/Json/Disk: read_file and write_file of src-tauri/src/fs/ops.rs.
--   Decision/Tree, Decision/Ops: load_dt_indices, dt_children, dt_build_tree, find_dt_root and the
--     operations of DecisionTreeTool, src-tauri/src/agent/decision_tree.rs.
--   Protocol: the sigils and span markers of src-tauri/src/agent/squire/protocol.rs. Protocol/Bookmarks:
--     extract_bare_bookmarks and extract_span_refs; Protocol/Validate: validate_squire_response;
--     Protocol/Ranges: range specs as texts, and resolve_ranges, which reads ranges of stored texts;
--     Protocol/Resolve: resolve_range_spec and resolve_all_range_specs; all of the same file.
--   Response: SquireResponse of src-tauri/src/agent/squire/types.rs. Response/Lines: the methods of str;
--     Response/Parse: parse_bookmark_protocol; Response/Repair and Response/Headers: the four passes of
--     normalize_bookmark_protocol; Response/Detect: detect_and_parse, try_extract_json and
--     parse_formatter_json, with clean_deepseek_json of src-tauri/src/commands/utils.rs.
--   Memory/Batch: the parser of batch expressions of src-tauri/src/agent/squire/tools.rs;
--     Memory/Traverse: traverse_relationships of src-tauri/crates/squire-store/src/store.rs;
--     Memory/Tools, Memory/Run: the cap and the tools token_to_detail, rdf, explore and batch.
--   Ingest: the chunks of a text and their tokens, of src-tauri/src/agent/squire/ingestion.rs.
--   Stream: strip_protocol_markers and split_into_chunks of src-tauri/src/engine/squire.rs.
--   Adapter: reject, set_phase2 and expand_for_display of src-tauri/src/agent/squire/adapter.rs;
--     Adapter/Record: reject_and_record and classify_rejection_rule of the same file.
--   Store/Process: compute_active_process_state of src-tauri/crates/squire-store/src/store.rs.
--   Graph: descendants of a tree that is given by its edges, and the worklist that the two todo stores
--     share. Base: lists, sets of texts and dictionaries.
-- The other children of these modules hold proofs. Tests runs the code on small stores and applies the
-- theorems to them.
--
-- State is passed explicitly: an operation takes the store, or the files, and returns the new one with
-- its reply. Where a slice of a text can panic, the function gives an Option, and none is the panic. A
-- position in a text is a number of bytes, and a usize wraps, as in a release build. A HashMap is an
-- association list, whose order stands for the order of iteration that Rust leaves open; a HashSet of
-- texts is a list without repetition. Text is the native String. The counter of the loops that look for
-- an unused identifier, an i32 in the source, is a natural number; they differ above 2^31 tokens.
--
-- Fuel. The recursions along relationships need not end when these form a cycle, as the code does not
-- exclude cycles. Such a function takes fuel and gives none when it runs out. On a forest, a graph on
-- which some rank falls from each parent to its children, fuel above the rank is enough, and the
-- theorems say so; the worklists take the number of listed children and one more, which is enough on
-- every graph; the pass that cuts lines takes more than the number of | in the text, which falls in each
-- round; the chunks of a streamed text take its length and one more, as each chunk has a byte or more;
-- the loops that look for an unused identifier take the number of stored tokens and one
-- more, which is enough as there are more candidates than tokens.
--
-- Parameters of the model, as their code is not in the repository: serde_json, safe_json_repair,
-- std::fs, str::to_lowercase, the floating-point scores of search results, the clock and the generator
-- of uuids. The search explore_memory is a parameter of the tools that call it, as the method of the
-- store's interface that it is: its implementations rank by embeddings or by floating-point scores, and
-- are not modelled. is_alphanumeric of char, a table of Unicode, is a parameter where it is called.
-- Locks are not modelled: an operation runs alone. Not modelled are the LanceDB store and its
-- embeddings, the model providers and their streams, the engine that drives the turns, the turns of
-- the adapter between the protocol and the providers, the MCP client, the commands of the desktop shell
-- and the user interface, which perform input and output around the parts above.
pub mod Base
pub mod Store
pub mod Slug
pub mod Tool
pub mod Graph
pub mod Todo
pub mod Decision
pub mod Response
pub mod Memory
pub mod Ingest
pub mod Stream
pub mod Adapter
pub mod Protocol
mod Tests
