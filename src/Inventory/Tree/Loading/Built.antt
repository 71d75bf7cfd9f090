-- ===== src/Inventory/Tree/Loading/Built.antt =====
-- The tree that is built: its hosts, their places and the numbers of its folders
-- (src/inventory/tree.rs).
use color_ssh.Base.{
  ℕ, suc, ◌+◌, ◌≤◌, ◌<◌, ltb, leb, ◌&&◌, ◌==◌, Text, Result, ok, Option, none, some, List, [], ◌∷◌,
  if◌then◌else◌, length, ◌≡◌, refl, inl, inr, arith, subst, Result-cases,
}
use color_ssh.Inventory.Model.{ParsedInventoryDocument}
use color_ssh.Inventory.Patterns.{Paths}
use color_ssh.Inventory.Normalize.{InventoryError}
use color_ssh.Inventory.Tree.Folders.{
  Folder, Folders, folder, no_folder, child, new, TreeFolder, tree_folder, TreeFolders, none_left,
  tree, finalize_folder, finalize_folders, sorted_index, sorted_indices, sorted_folder,
  sort_tree_folder_by_host_name, sort_tree_folders,
}
use color_ssh.Inventory.Tree.Loading.{
  Loaded, load_document_recursive, InventoryTreeModel, build_inventory_tree, finished, or_default,
  lookup,
}
use color_ssh.Inventory.Tree.Loading.Unique.{
  occurrences, places, places_below, named, IsUnique, IsKept, present,
}
use color_ssh.Inventory.Tree.Loading.Places.{load-Keeps}

-- How often a number stands in the lists of host indices, and how many folders have it.
unfoldable mutual
  unfolding occurrences

  pub tree_places : ℕ → TreeFolder → ℕ
  tree_places i (tree_folder id name path children host_indices) =
      occurrences i host_indices + trees_places i children

  pub trees_places : ℕ → TreeFolders → ℕ
  trees_places i none_left = 0
  trees_places i (tree f rest) = tree_places i f + trees_places i rest

unfoldable mutual
  pub tree_ids : ℕ → TreeFolder → ℕ
  tree_ids i (tree_folder id name path children host_indices) =
      (if id == i then 1 else 0) + trees_ids i children

  pub trees_ids : ℕ → TreeFolders → ℕ
  trees_ids i none_left = 0
  trees_ids i (tree f rest) = tree_ids i f + trees_ids i rest

mutual
  unfolding finalize_folder tree_places places

  places-finalize :
      (i : ℕ) (f : Folder) (n : ℕ) → tree_places i (finalize_folder f n).0 ≡ places i f
  places-finalize i (folder name path children host_indices) n =
      ground (arith, places-finalize_folders i children (suc n))

  places-finalize_folders :
      (i : ℕ) (fs : Folders) (n : ℕ) → trees_places i (finalize_folders fs n).0 ≡ places_below i fs
  places-finalize_folders i no_folder n = refl
  places-finalize_folders i (child f rest) n =
      ground (arith, places-finalize i f n, places-finalize_folders i rest (finalize_folder f n).1)

-- The numbers from `n` to below `m`.
abbrev between : ℕ → ℕ → ℕ → ℕ
between n m i = if leb n i && ltb i m then 1 else 0

mutual
  unfolding finalize_folder tree_ids

  ids-finalize :
      (i : ℕ) (f : Folder) (n : ℕ)
      → (tree_ids i (finalize_folder f n).0 ≡ between n (finalize_folder f n).1 i)
        × (n < (finalize_folder f n).1)
  ids-finalize i (folder name path children host_indices) n =
      let below = ids-finalize_folders i children (suc n) in
      (ground (arith, below.0, below.1), ground (arith, below.1))

  ids-finalize_folders :
      (i : ℕ) (fs : Folders) (n : ℕ)
      → (trees_ids i (finalize_folders fs n).0 ≡ between n (finalize_folders fs n).1 i)
        × (n ≤ (finalize_folders fs n).1)
  ids-finalize_folders i no_folder n = (ground arith, omega arith)
  ids-finalize_folders i (child f rest) n =
      let first = ids-finalize i f n in
      let others = ids-finalize_folders i rest (finalize_folder f n).1 in
      (ground (arith, first.0, first.1, others.0, others.1), ground (arith, first.1, others.1))

module _ {A : Type 0} (hosts : List A) (host_name : A → Text) (i : ℕ) where
  occurrences-sorted_index :
      (j : ℕ) (js : List ℕ)
      → occurrences i (sorted_index hosts host_name j js)
        ≡ (if j == i then 1 else 0) + occurrences i js
  unfolding sorted_index occurrences
  occurrences-sorted_index j [] = refl
  occurrences-sorted_index j (k ∷ js) = ground (arith, occurrences-sorted_index j js)

  occurrences-sorted :
      (js : List ℕ) → occurrences i (sorted_indices hosts host_name js) ≡ occurrences i js
  unfolding sorted_indices occurrences
  occurrences-sorted [] = refl
  occurrences-sorted (j ∷ js) =
      ground (
        arith,
        occurrences-sorted_index j (sorted_indices hosts host_name js),
        occurrences-sorted js,
      )

  places-sorted_folder :
      (f : TreeFolder) (fs : TreeFolders)
      → trees_places i (sorted_folder hosts host_name f fs) ≡ tree_places i f + trees_places i fs
  unfolding sorted_folder tree_places
  places-sorted_folder f none_left = refl
  places-sorted_folder f (tree g rest) = ground (arith, places-sorted_folder f rest)

  ids-sorted_folder :
      (f : TreeFolder) (fs : TreeFolders)
      → trees_ids i (sorted_folder hosts host_name f fs) ≡ tree_ids i f + trees_ids i fs
  unfolding sorted_folder tree_ids
  ids-sorted_folder f none_left = refl
  ids-sorted_folder f (tree g rest) = ground (arith, ids-sorted_folder f rest)

  mutual
    unfolding sort_tree_folder_by_host_name tree_places tree_ids

    sort-keeps :
        (f : TreeFolder)
        → let sorted = sort_tree_folder_by_host_name hosts host_name f in
          (tree_places i sorted ≡ tree_places i f) × (tree_ids i sorted ≡ tree_ids i f)
    sort-keeps (tree_folder id name path children host_indices) =
        let below = sort_all-keeps children in
        (ground (arith, below.0, occurrences-sorted host_indices), ground (arith, below.1))

    sort_all-keeps :
        (fs : TreeFolders)
        → let sorted = sort_tree_folders hosts host_name fs in
          (trees_places i sorted ≡ trees_places i fs) × (trees_ids i sorted ≡ trees_ids i fs)
    sort_all-keeps none_left = (refl, refl)
    sort_all-keeps (tree f rest) =
        let first = sort-keeps f in
        let others = sort_all-keeps rest in
        let g = sort_tree_folder_by_host_name hosts host_name f in
        let gs = sort_tree_folders hosts host_name rest in
        (
          ground (arith, first.0, others.0, places-sorted_folder g gs),
          ground (arith, first.1, others.1, ids-sorted_folder g gs),
        )

-- What holds of a tree with its hosts: no two hosts have a name in common, each index of a host
-- stands at one place of the tree and no other index at any, and no two folders have one number.
pub record IsTree (model : InventoryTreeModel) : Type 0 where
  pub one_name : (name : Text) → named name model.hosts ≤ 1
  pub one_place : (i : ℕ) → tree_places i model.root ≡ (if ltb i (length model.hosts) then 1 else 0)
  pub one_number : (i : ℕ) → tree_ids i model.root ≤ 1

module _ (paths : Paths)
    (parse_inventory_document : Text → Result InventoryError ParsedInventoryDocument) where
  abbrev start : Loaded
  start = record { hosts = []; seen_host_names = []; visited = [] }

  start-IsUnique : IsUnique start
  unfolding named lookup
  start-IsUnique = record { once = λ name. refl }

  present-le : (o : Option Text) → present o ≤ 1
  present-le none = omega arith
  present-le (some path) = omega arith

  finished-IsTree :
      (f : Folder) (path name : Text) (s : Loaded) (model : InventoryTreeModel)
      → finished paths parse_inventory_document (ok (f, s)) ≡ ok model
      → IsKept places (new name path) start (ok (f, s))
      → IsTree model
  unfolding IsKept places occurrences
  finished-IsTree f path name s model h kept =
      let root = (finalize_folder f 0).0 in
      let built : InventoryTreeModel = record {
        root = sort_tree_folder_by_host_name s.hosts (λ host. host.name) root;
        hosts = s.hosts;
      } in
      let is : built ≡ model = ground (arith, h) in
      subst (λ model. IsTree model) is
        (record {
          one_name = λ name.
              let once = (kept.1 start-IsUnique).once name in
              ground (arith, once, present-le (lookup name s.seen_host_names));
          one_place = λ i.
              let k = kept.0 i in
              ground (
                arith,
                k,
                (sort-keeps s.hosts (λ host. host.name) i root).0,
                places-finalize i f 0,
              );
          one_number = λ i.
              ground
                (arith, (sort-keeps s.hosts (λ host. host.name) i root).1, (ids-finalize i f 0).0);
        })

  -- A tree that is built is in order: no two of its hosts have a name in common, each host stands at
  -- one place of the tree and nothing else does, and no two folders have the same number.
  pub build_inventory_tree-IsTree :
      (fuel : ℕ) (path : Text) (model : InventoryTreeModel)
      → build_inventory_tree paths parse_inventory_document fuel path ≡ ok model
      → IsTree model
  unfolding build_inventory_tree
  build_inventory_tree-IsTree fuel path model h =
      let name = or_default paths parse_inventory_document (paths.file_name path) in
      elim (Result-cases (
        load_document_recursive paths parse_inventory_document fuel path [] (new name path)
          start)) [
            | inr (e, r) ↦ absurd (ground (arith, r))
            | inl ((f, s), r) ↦ finished-IsTree f path name s model (ground (arith, h, r)) (
                subst (λ r. IsKept places (new name path) start r) r
                  ((load-Keeps paths parse_inventory_document fuel path []).kept (new name path)
                    start))
          ]
