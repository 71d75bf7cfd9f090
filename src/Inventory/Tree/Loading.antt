-- ===== src/Inventory/Tree/Loading.antt =====
-- The documents of an inventory are loaded, each once (src/inventory/tree.rs).
pub mod Steps
pub mod Bounded
pub mod Unique
pub mod Places
pub mod Built
pub mod Examples
use color_ssh.Base.{
  ℕ, zero, suc, Text, codes, text_eq, length, Result, ok, err, Option, none, some, Bool, true,
  false, ◌||◌, List, [], ◌∷◌, ◌++◌, if◌then◌else◌, any,
}
use color_ssh.Inventory.Model.{
  InventoryHost, InventoryHostRaw, InventoryIncludeRaw, InventoryNodeRaw, host, folder, Nodes,
  none_left, node, ParsedInventoryDocument,
}
use color_ssh.Inventory.Patterns.{Paths, resolve_include_pattern, expand_include_pattern}
use color_ssh.Inventory.Normalize.{
  InventoryError, invalid_inventory, duplicate, normalize_inventory_host,
}
use color_ssh.Inventory.Tree.Folders.{
  Folder, new, push_index, Step, in_child, in_path, child_mut, TreeFolder, finalize_folder,
  sort_tree_folder_by_host_name,
}

-- An error of the inventory, or the model's own fuel is used up.
pub data LoadError : Type 0 where
  invalid : InventoryError → LoadError
  out_of_fuel : LoadError

-- The hosts that are loaded, their names with their files, and the files that are loaded.
pub record Loaded : Type 0 where
  pub hosts : List InventoryHost
  pub seen_host_names : List (Text × Text)
  pub visited : List Text

abbrev pub Load : Type 0
Load = Step LoadError Loaded

unfoldable pub lookup : Text → List (Text × Text) → Option Text
lookup name [] = none
lookup name ((n, path) ∷ seen) = if text_eq n name then some path else lookup name seen

abbrev pub is_visited : Text → List Text → Bool
is_visited path visited = any (λ p. text_eq p path) visited

abbrev pub continued :
    Load → Result LoadError (Folder × Loaded) → Result LoadError (Folder × Loaded)
continued second (ok (g, r)) = second g r
continued second (err e) = err e

abbrev pub and_then : Load → Load → Load
and_then first second f s = continued second (first f s)

abbrev pub done : Load
done f s = ok (f, s)

-- A host is added unless its name is taken.
unfoldable pub add_host : InventoryHost → Text → Load
unfolding lookup
add_host added source_file f s = elim (lookup added.name s.seen_host_names) [
  | some previous_path ↦
      err (invalid (invalid_inventory source_file (duplicate added.name previous_path)))
  | none ↦ ok (
    push_index (length s.hosts) f,
    record s {
      hosts = s.hosts ++ added ∷ [];
      seen_host_names = (added.name, added.source_file) ∷ s.seen_host_names;
    },
  )
]

pub record InventoryTreeModel : Type 0 where
  pub root : TreeFolder
  pub hosts : List InventoryHost

module _ (paths : Paths)
    (parse_inventory_document : Text → Result InventoryError ParsedInventoryDocument) where
  abbrev pub add_normalized : Result InventoryError InventoryHost → Text → Load
  add_normalized (err e) source_file f s = err (invalid e)
  add_normalized (ok added) source_file f s = add_host added source_file f s

  unfoldable mutual
    unfolding normalize_inventory_host add_host child_mut

    pub add_inventory_node : InventoryNodeRaw → Text → List Text → Load
    add_inventory_node (host raw) source_file folder_path =
        add_normalized (normalize_inventory_host paths.home_dir raw source_file folder_path)
          source_file
    add_inventory_node (folder name items) source_file folder_path =
        in_child name source_file (add_inventory_nodes items source_file (folder_path ++ name ∷ []))

    pub add_inventory_nodes : Nodes → Text → List Text → Load
    add_inventory_nodes none_left source_file folder_path = done
    add_inventory_nodes (node item items) source_file folder_path =
        and_then (add_inventory_node item source_file folder_path)
          (add_inventory_nodes items source_file folder_path)

  abbrev pub or_else : Option Text → Option Text → Option Text
  or_else (some text) other = some text
  or_else none other = other

  abbrev pub or_include : Option Text → Text
  or_include (some text) = text
  or_include none = codes "include"

  abbrev pub inventory_folder_name : Text → Text
  inventory_folder_name path = or_include (or_else (paths.file_stem path) (paths.file_name path))

  -- The functions on includes take the function that loads a document.
  module _ (load : Text → List Text → Load) where
    unfoldable pub load_include_document : List Text → Text → Load
    unfolding child_mut
    load_include_document folder_path inventory_path f s =
        let canonical = paths.canonicalize inventory_path in
        let folder_name = inventory_folder_name canonical in
        elim (is_visited canonical s.visited) [
          | true ↦ ok (f, s)
          | false ↦
              in_child folder_name canonical (load canonical (folder_path ++ folder_name ∷ [])) f s
        ]

    unfoldable pub load_paths : List Text → List Text → Load
    unfolding load_include_document
    load_paths folder_path [] = done
    load_paths folder_path (path ∷ include_paths) =
        and_then (load_include_document folder_path path) (load_paths folder_path include_paths)

    unfoldable pub load_includes : Text → List Text → List InventoryIncludeRaw → Load
    unfolding load_paths in_path expand_include_pattern resolve_include_pattern
    load_includes canonical folder_path [] = done
    load_includes canonical folder_path (entry ∷ include) =
        let resolved =
          resolve_include_pattern paths.home_dir entry.pattern (paths.parent canonical) in
        and_then
          (in_path entry.folder_path canonical
            (load_paths (folder_path ++ entry.folder_path) (expand_include_pattern paths resolved)))
          (load_includes canonical folder_path include)

    abbrev pub load_parsed : Text → List Text → Result InventoryError ParsedInventoryDocument → Load
    load_parsed canonical folder_path (err e) f s = err (invalid e)
    load_parsed canonical folder_path (ok document) f s =
        and_then (load_includes canonical folder_path document.include)
          (add_inventory_nodes document.inventory canonical folder_path) f s

  -- `load_document_recursive`, on fuel.
  unfoldable pub load_document_recursive : ℕ → Text → List Text → Load
  unfolding load_includes add_inventory_nodes
  load_document_recursive zero inventory_path folder_path f s = err out_of_fuel
  load_document_recursive (suc fuel) inventory_path folder_path f s =
      let canonical = paths.canonicalize inventory_path in
      elim (is_visited canonical s.visited) [
        | true ↦ ok (f, s)
        | false ↦
            load_parsed (load_document_recursive fuel) canonical folder_path
              (parse_inventory_document canonical) f (record s { visited = canonical ∷ s.visited })
      ]

  abbrev pub or_default : Option Text → Text
  or_default (some name) = name
  or_default none = codes "cossh-inventory.yaml"

  abbrev pub finished : Result LoadError (Folder × Loaded) → Result LoadError InventoryTreeModel
  finished (err e) = err e
  finished (ok (root, s)) = ok (record {
    root = sort_tree_folder_by_host_name s.hosts (λ host. host.name) (finalize_folder root 0).0;
    hosts = s.hosts;
  })

  unfoldable pub build_inventory_tree : ℕ → Text → Result LoadError InventoryTreeModel
  unfolding load_document_recursive finalize_folder sort_tree_folder_by_host_name
  build_inventory_tree fuel inventory_path = finished (
      load_document_recursive fuel inventory_path []
        (new (or_default (paths.file_name inventory_path)) inventory_path)
        (record { hosts = []; seen_host_names = []; visited = [] }))
