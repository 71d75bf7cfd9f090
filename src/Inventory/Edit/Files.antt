-- ===== src/Inventory/Edit/Files.antt =====
-- The editor's operations on an inventory file: read, parse, change, write (src/inventory/edit.rs).
-- Files are texts by path; the YAML library and what the file system answers are parameters.
pub mod Laws
pub mod Counts
pub mod Examples
use mathlib.Core.Option
use color_ssh.Base.{
  ℕ, ◌==◌, Text, codes, text_eq, trim, is_empty, contains, decimal, digits, join, Result, ok, err,
  Option, none, some, Bool, true, false, ◌&&◌, List, [], ◌∷◌, ◌++◌, if◌then◌else◌, guard, ◌>>=◌,
  ◌>>◌,
}
use color_ssh.Inventory.Value.{
  Value, null, bool, number, string, sequence, mapping, Items, Fields, end,
}
use color_ssh.Inventory.Edit.{EditableInventoryHost}
use color_ssh.Inventory.Edit.Folders.{
  EditError, Edit, inventory_nodes_mut, update_entry, delete_entry, create_entry, create_folder,
  checked_name, move_entry, relocate, delete_folder, split_last, paths_eq, starts_with, root_folder,
  into_itself, root_not_mapping,
}

pub data FileError : Type 0 where
  io : Text → FileError
  invalid_yaml : Text → FileError
  cannot_serialize : Text → FileError
  refused : EditError → FileError

pub record Yaml : Type 0 where
  pub from_str : Text → Result Text Value
  pub to_string : Value → Result Text Text
  -- `Mapping::remove`
  pub remove : Text → Fields → Fields

-- What the calls of the file system answer, and what a write that fails leaves behind.
pub record FileSystem : Type 0 where
  pub read_to_string : Result Text (Unit {0})
  pub create_dir_all : Result Text (Unit {0})
  pub write : Result Text (Unit {0})
  pub rename : Result Text (Unit {0})
  pub remove_file : Result Text (Unit {0})
  pub left_behind : Option Text
  pub process_id : ℕ
  pub nanos : ℕ

abbrev pub Files : Type 0
Files = Text → Option Text

unfoldable pub set : Text → Option Text → Files → Files
set path contents files other = if text_eq other path then contents else files other

-- A path by its parent and its last component.
pub record SourceFile : Type 0 where
  pub parent : Text
  pub file_name : Text

abbrev pub path_of : SourceFile → Text
path_of source_file = join source_file.parent source_file.file_name

-- A process id has 32 bits and the time 128, so at most 10 and 39 digits.
unfoldable pub temporary_suffix : FileSystem → Text
unfolding digits
temporary_suffix fs = codes ".tmp-" ++ digits 10 fs.process_id ++ b'-' ∷ digits 39 fs.nanos

abbrev pub temporary_name : FileSystem → SourceFile → Text
temporary_name fs source_file = b'.' ∷ source_file.file_name ++ temporary_suffix fs

unfoldable pub temporary_inventory_path : FileSystem → SourceFile → Text
unfolding join temporary_suffix
temporary_inventory_path fs source_file = join source_file.parent (temporary_name fs source_file)

abbrev pub as_io : {A : Type 0} → Result Text A → Result FileError A
as_io (ok a) = ok a
as_io (err text) = err (io text)

abbrev pub as_refused : {A : Type 0} → Result EditError A → Result FileError A
as_refused (ok a) = ok a
as_refused (err e) = err (refused e)

abbrev pub must_be_mapping : Value → Result FileError Value
must_be_mapping (mapping root) = ok (mapping root)
must_be_mapping _ = err (refused root_not_mapping)

abbrev pub parsed : Result Text Value → Result FileError Value
parsed (ok value) = must_be_mapping value
parsed (err text) = err (invalid_yaml text)

abbrev pub rendered : Result Text Text → Result FileError Text
rendered (ok text) = ok text
rendered (err text) = err (cannot_serialize text)

unfoldable pub ends_with_newline : Text → Bool
ends_with_newline [] = false
ends_with_newline (c ∷ []) = c == 10
ends_with_newline (c ∷ d ∷ s) = ends_with_newline (d ∷ s)

unfoldable pub finish_line : Text → Text
unfolding ends_with_newline
finish_line text = if ends_with_newline text then text else text ++ 10 ∷ []

module _ (yaml : Yaml) (fs : FileSystem) (source_file : SourceFile) where
  unfoldable pub load_inventory_document : Files → Result FileError Value
  unfolding join trim
  load_inventory_document files = elim (files (path_of source_file)) [
    | none ↦ ok (mapping end)
    | some contents ↦
        as_io fs.read_to_string
        >> (if is_empty (trim contents) then ok (mapping end) else parsed (yaml.from_str contents))
  ]

  abbrev pub kept : Result Text (Unit {0}) → Text → Option Text
  kept (ok _) text = none
  kept (err e) text = some text

  -- The rename, or its failure, behind which the temporary file is removed.
  abbrev pub rename_temporary : Text → Files → Result FileError (Unit {0}) × Files
  rename_temporary text files =
      let temporary = temporary_inventory_path fs source_file in
      elim fs.rename [
        | ok _ ↦ (ok tt, set (path_of source_file) (some text) (set temporary none files))
        | err e ↦ (err (io e), set temporary (kept fs.remove_file text) files)
      ]

  abbrev pub write_text : Text → Files → Result FileError (Unit {0}) × Files
  write_text text files =
      let temporary = temporary_inventory_path fs source_file in
      elim fs.create_dir_all [
        | err e ↦ (err (io e), files)
        | ok _ ↦ elim fs.write [
          | err e ↦ (err (io e), set temporary fs.left_behind files)
          | ok _ ↦ rename_temporary text (set temporary (some text) files)
        ]
      ]

  unfoldable pub write_inventory_document : Value → Files → Result FileError (Unit {0}) × Files
  unfolding set temporary_inventory_path finish_line
  write_inventory_document document files = elim (rendered (yaml.to_string document)) [
    | err e ↦ (err e, files)
    | ok text ↦ write_text (finish_line text) files
  ]

  -- The document behind a change of its nodes.
  unfoldable pub changed_document : {A : Type 0} → Edit A → Files → Result FileError (A × Value)
  unfolding load_inventory_document inventory_nodes_mut
  changed_document edit files =
      load_inventory_document files >>= λ document. as_refused (inventory_nodes_mut edit document)

  abbrev pub answer :
      {A : Type 0} → A → Result FileError (Unit {0}) × Files → Result FileError A × Files
  answer a (ok _, files) = (ok a, files)
  answer a (err e, files) = (err e, files)

  unfoldable pub with_document : {A : Type 0} → Edit A → Files → Result FileError A × Files
  unfolding changed_document write_inventory_document
  with_document edit files = elim (changed_document edit files) [
    | err e ↦ (err e, files)
    | ok (a, document) ↦ answer a (write_inventory_document document files)
  ]

  abbrev pub update_inventory_host_entry :
      Text → EditableInventoryHost → Files → Result FileError (Unit {0}) × Files
  update_inventory_host_entry original_name host =
      with_document (update_entry yaml.remove original_name host)

  abbrev pub delete_inventory_host_entry : Text → Files → Result FileError (Unit {0}) × Files
  delete_inventory_host_entry host_name = with_document (delete_entry host_name)

  abbrev pub create_inventory_host_entry :
      List Text → EditableInventoryHost → Files → Result FileError (Unit {0}) × Files
  create_inventory_host_entry folder_path host = with_document (create_entry folder_path host)

  unfoldable pub create_inventory_folder :
      List Text → Text → Files → Result FileError (Unit {0}) × Files
  unfolding checked_name with_document create_folder
  create_inventory_folder parent_folder_path folder_name files = elim (checked_name folder_name) [
    | err e ↦ (err (refused e), files)
    | ok sanitized_name ↦ with_document (create_folder parent_folder_path sanitized_name) files
  ]

  -- Nothing is written where the host is in the folder already.
  unfoldable pub move_inventory_host_entry :
      Text → List Text → Files → Result FileError (Unit {0}) × Files
  unfolding changed_document write_inventory_document move_entry
  move_inventory_host_entry host_name target_folder_path files =
      elim (changed_document (move_entry host_name target_folder_path) files) [
        | err e ↦ (err e, files)
        | ok (false, document) ↦ (ok tt, files)
        | ok (true, document) ↦ write_inventory_document document files
      ]

  unfoldable pub relocate_inventory_folder :
      List Text → List Text → Text → Files → Result FileError (Unit {0}) × Files
  unfolding split_last checked_name with_document relocate
  relocate_inventory_folder folder_path target_parent_path new_name files =
      elim (split_last folder_path) [
        | none ↦ (err (refused root_folder), files)
        | some (parent, current_name) ↦ elim (checked_name new_name) [
          | err e ↦ (err (refused e), files)
          | ok name ↦
              if paths_eq parent target_parent_path && text_eq current_name name
              then (ok tt, files)
              else if starts_with target_parent_path folder_path
              then (err (refused into_itself), files)
              else with_document (relocate yaml.remove parent current_name target_parent_path name)
                  files
        ]
      ]

  unfoldable pub delete_inventory_folder : List Text → Files → Result FileError ℕ × Files
  unfolding split_last with_document delete_folder
  delete_inventory_folder folder_path files = elim (split_last folder_path) [
    | none ↦ (err (refused root_folder), files)
    | some (parent_path, folder_name) ↦ with_document (delete_folder parent_path folder_name) files
  ]
