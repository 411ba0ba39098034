-- ===== src/Tests/Json.antt =====
-- The JSON-file store on a node above another, and on a file system that holds one file.
use agent_squire.Base.{
  String, ◌==◌, eq_iff, ◌≡◌, refl, sym, ap, subst, ◌∈◌, false, Option, none, some, List, [], ◌∷◌,
  if◌then◌else◌, arith,
}
use agent_squire.Base.Dict.{contains_key, Dict, lookup, lookup-insert, insert, modify}
use agent_squire.Graph.{Under}
use agent_squire.Tool.{ToolResult, Result, ok, ok-injective, err, Request}
use agent_squire.Todo.Json.{
  TodoNode, done, TodoStore, default_store, StoreError, add_node, remove_node, update_status, kids,
  stored_parent, fresh_node, push_child,
}
use agent_squire.Todo.Json.Tool.{Files, Codec, LegacyOutput, load, walk_up}
use agent_squire.Todo.Json.Disk.{Std, read_file, write_file}
use agent_squire.Todo.Json.Forest.{IsForest}
use agent_squire.Todo.Json.Add.Keeps.{add_node-IsForest}
use agent_squire.Todo.Json.Update.{Updated, update_status_lem}
use agent_squire.Todo.Json.Remove.{Removed, remove_node_lem}
use agent_squire.Todo.Json.Remove.Keeps.{remove_node-IsForest}
use agent_squire.Todo.Json.Walk.{walk_up_lem}
use agent_squire.Todo.Json.Bulk.{legacy_bulk, legacy_bulk_loop}
use agent_squire.Todo.Json.Bulk.Atomic.{IsDurable, BulkEnd, legacy_bulk_atomic}
use agent_squire.Tests.Sample.{no_args}

abbrev one : TodoStore
one = record { nodes = ("a", fresh_node "t" "a" "plan" none) ∷ []; root_items = "a" ∷ [] }

abbrev two : TodoStore
two = record {
  nodes =
      ("a", push_child "u" "b" (fresh_node "t" "a" "plan" none))
      ∷ ("b", fresh_node "u" "b" "step" (some "a"))
      ∷ [];
  root_items = "a" ∷ [];
}

empty-IsForest : IsForest 0 default_store
unfolding kids stored_parent lookup
empty-IsForest = record {
  rank = λ k. 0;
  depth = λ k. 0;
  rank_le = λ k. omega arith;
  depth_le = λ k. omega arith;
  child = λ p c m. absurd m;
  parent = λ p c e. cc;
  roots = λ r. (λ m. absurd m, λ (k, e). cc);
}

one_made : add_node "t" "a" "plan" none default_store ≡ ok one
unfolding add_node insert lookup
one_made = refl

two_made : add_node "u" "b" "step" (some "a") one ≡ ok two
unfolding add_node insert lookup modify
two_made = refl

one-IsForest : IsForest 1 one
one-IsForest = add_node-IsForest "t" "a" "plan" none 0 default_store one empty-IsForest one_made

two-IsForest : IsForest 2 two
two-IsForest = add_node-IsForest "u" "b" "step" (some "a") 1 one two one-IsForest two_made

add_node-IsForest_example : IsForest 2 two
add_node-IsForest_example =
    add_node-IsForest "u" "b" "step" (some "a") 1 one two one-IsForest two_made

update_status_lem_example :
    (r : Result StoreError TodoStore) × (update_status 4 "v" "a" done two ≡ some r)
    × Updated "v" "a" done (push_child "u" "b" (fresh_node "t" "a" "plan" none)) two r
unfolding lookup
update_status_lem_example =
    update_status_lem "v" "a" done (push_child "u" "b" (fresh_node "t" "a" "plan" none)) two 2 4
      two-IsForest (omega arith) refl

remove_node_lem_example :
    (st' : TodoStore) × (out : List String) × (remove_node "b" two ≡ some (st', out))
    × Removed two st' "b" out
remove_node_lem_example = remove_node_lem "b" two

remove_node-IsForest_example :
    (st' : TodoStore) × (out : List String) × (remove_node "b" two ≡ some (st', out))
    × IsForest 2 st'
remove_node-IsForest_example = remove_node-IsForest "b" 2 two two-IsForest

walk_up_lem_example :
    (root : String) × (walk_up two.nodes 4 "b" ≡ some root)
    × (root ∈ two.root_items)
    × Under (kids two.nodes) root "b"
unfolding lookup
walk_up_lem_example = walk_up_lem two 2 4 "b" two-IsForest refl (omega arith)

-- Files as a dictionary; each write succeeds.
abbrev memory : Files (Dict String)
memory = record {
  read_file = λ path d. lookup path d;
  write_file = λ path content d. (insert path content d, none);
}

-- A format for the empty store alone.
abbrev encode_empty : TodoStore → Result String String
encode_empty st = elim st.nodes [
  | [] ↦ elim st.root_items [ [] ↦ ok "{}" | r ∷ rs ↦ err "not empty" ]
  | n ∷ ns ↦ err "not empty"
]

abbrev empty_only : Codec
empty_only = record {
  encode = encode_empty;
  decode = λ s. if s == "{}" then some default_store else none;
}

encode_read :
    (nodes : Dict TodoNode) (roots : List String) (content : String)
    → encode_empty (record { nodes = nodes; root_items = roots }) ≡ ok content
    → empty_only.decode content ≡ some (record { nodes = nodes; root_items = roots })
encode_read [] [] content e =
    subst (λ c. empty_only.decode c ≡ some default_store) (ok-injective e) refl
encode_read [] (r ∷ rs) content e = cc
encode_read (n ∷ ns) roots content e = cc

memory-IsDurable : IsDurable memory empty_only
memory-IsDurable = record {
  read_back = λ path content d d' e.
      subst (λ (x : Dict String). lookup path x ≡ some content)
        (ap (λ (x : Dict String × Option String). x.0) e)
        (ground (arith, lookup-insert path path content d, eq_iff path path));
  decode_encode = λ st content e. encode_read st.nodes st.root_items content e;
}

abbrev make_and_delete : Request
make_and_delete = record {
  args = no_args;
  operations = some (
      record no_args { operation = some "create"; title = some "plan" }
      ∷ record no_args { operation = some "delete"; id = some "a" }
      ∷ []);
}

load_nothing : load memory empty_only "p" [] ≡ default_store
unfolding load lookup
load_nothing = refl

legacy_bulk_atomic_example :
    (d' : Dict String) × (r : ToolResult LegacyOutput) × (legacy_bulk memory empty_only 5
        (λ _. "t")
        (λ _. "a")
        "p"
        "call"
        make_and_delete
        []
      ≡ some (d', r))
    × BulkEnd memory empty_only "call" "p"
        (legacy_bulk_loop 5
          (λ _. "t")
          (λ _. "a")
          (record no_args { operation = some "create"; title = some "plan" }
            ∷ record no_args { operation = some "delete"; id = some "a" }
            ∷ [])
          0
          (load memory empty_only "p" [])
          false
          [])
        []
        d'
        r
legacy_bulk_atomic_example =
    legacy_bulk_atomic memory empty_only memory-IsDurable 5 (λ _. "t") (λ _. "a") "p" "call"
      make_and_delete (record no_args { operation = some "create"; title = some "plan" })
      (record no_args { operation = some "delete"; id = some "a" } ∷ []) [] 0 refl
      (subst (IsForest 0) (sym load_nothing) empty-IsForest) (omega arith)

-- A disk on which each path without a content is missing, and each write succeeds.
abbrev ram : Std (Dict String)
ram = record {
  exists = λ path d. contains_key path d;
  is_file = λ path d. contains_key path d;
  read_to_string = λ path d. elim (lookup path d) [ none ↦ err "missing" | some c ↦ ok c ];
  parent = λ path. if path == "/x" then some "/" else none;
  create_dir_all = λ path d. (d, none);
  write = λ path content d. (insert path content d, none);
}

-- `write_file` makes the directory, and `read_file` finds the content.
disk_run : read_file ram "/x" (write_file ram "/x" "text" []).0 ≡ ok "text"
unfolding write_file read_file insert lookup
disk_run = refl
