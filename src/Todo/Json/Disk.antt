-- ===== src/Todo/Json/Disk.antt =====
-- `read_file` and `write_file` of src-tauri/src/fs/ops.rs, on the operations of Rust's std::fs and
-- std::path, which are an argument.
use agent_squire.Base.{String, Bool, true, false, Option, none, some, append}
use mathlib.Core.Option
use agent_squire.Tool.{Result, ok, err}
use agent_squire.Todo.Json.Tool.{Files}

-- What the code calls, on files of type D: `exists`, `is_file` and `parent` of a path, and
-- `read_to_string`, `create_dir_all` and `write`, with the text of an error.
pub record Std (D : Type 0) : Type 0 where
  pub exists : String → D → Bool
  pub is_file : String → D → Bool
  pub read_to_string : String → D → Result String String
  pub parent : String → Option String
  pub create_dir_all : String → D → D × Option String
  pub write : String → String → D → D × Option String

pub data FsError : Type 0 where
  not_found : String → FsError
  is_not_file : String → FsError
  is_not_directory : String → FsError
  already_exists : String → FsError
  io : String → FsError

-- The texts of the attribute `error` of each variant.
unfoldable pub display : FsError → String
display (not_found p) = append "Path not found: " p
display (is_not_file p) = append "Path is not a file: " p
display (is_not_directory p) = append "Path is not a directory: " p
display (already_exists p) = append "Already exists: " p
display (io e) = append "IO error: " e

module _ {D : Type 0} (std : Std D) where
  unfoldable pub read_file : String → D → Result FsError String
  read_file path d = elim (std.exists path d) [
    | false ↦ err (not_found path)
    | true ↦ elim (std.is_file path d) [
      | false ↦ err (is_not_file path)
      | true ↦ elim (std.read_to_string path d) [ ok content ↦ ok content | err e ↦ err (io e) ]
    ]
  ]

  -- The new files, and the error if there is one.
  unfoldable pub write_file : String → String → D → D × Option FsError
  write_file path content d = elim (std.parent path) [
    | none ↦ let (d', e) = std.write path content d in (d', Option.map io e)
    | some dir ↦
        let (d', made) = std.create_dir_all dir d in
        elim made [
          | some e ↦ (d', some (io e))
          | none ↦ let (d'', e) = std.write path content d' in (d'', Option.map io e)
        ]
  ]

  -- `load` drops the error of a read, and `save` prints that of a write.
  abbrev pub disk : Files D
  disk = record {
    read_file = λ path d. elim (read_file path d) [ ok content ↦ some content | err e ↦ none ];
    write_file = λ path content d.
        let (d', e) = write_file path content d in
        (d', Option.map (λ x. append "write: " (display x)) e);
  }
