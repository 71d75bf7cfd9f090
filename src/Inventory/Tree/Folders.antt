-- ===== src/Inventory/Tree/Folders.antt =====
-- The folders of the tree, while it is built and behind that (src/inventory/tree.rs).
use color_ssh.Base.{
  ℕ, ltb, suc, Text, text_eq, to_ascii_lowercase, lower, Result, ok, err, Option, none, some, Bool,
  true, false, List, [], ◌∷◌, ◌++◌, if◌then◌else◌, get_elem?,
}
use color_ssh.Inventory.Patterns.{text_leb}

-- `FolderAccumulator`, with its child folders.
mutual
  pub data Folder : Type 0 where
    folder : (name : Text) (path : Text) → Folders → (host_indices : List ℕ) → Folder

  pub data Folders : Type 0 where
    no_folder : Folders
    child : Folder → Folders → Folders

abbrev pub new : Text → Text → Folder
new name path = folder name path no_folder []

abbrev pub name_of : Folder → Text
name_of (folder name path children host_indices) = name

abbrev pub push_index : ℕ → Folder → Folder
push_index index (folder name path children host_indices) =
    folder name path children (host_indices ++ index ∷ [])

-- A change of a folder, which may fail, with a state.
abbrev pub Step : Type 0 → Type 0 → Type 0
Step E S = Folder → S → Result E (Folder × S)

abbrev pub beside : {A B E S : Type 0} → (A → B) → Result E (A × S) → Result E (B × S)
beside f (ok (a, s)) = ok (f a, s)
beside f (err e) = err e

-- `child_mut`: the first child with the name, or one that is made behind the others.
unfoldable pub child_mut :
    {E S : Type 0} → Text → Text → Step E S → Folders → S → Result E (Folders × S)
child_mut name path step no_folder s =
    beside (λ made. child made no_folder) (step (new name path) s)
child_mut name path step (child f rest) s = elim (text_eq (name_of f) name) [
  | true ↦ beside (λ g. child g rest) (step f s)
  | false ↦ beside (λ others. child f others) (child_mut name path step rest s)
]

abbrev pub in_child : {E S : Type 0} → Text → Text → Step E S → Step E S
in_child name path step (folder n p children host_indices) s =
    beside (λ changed. folder n p changed host_indices) (child_mut name path step children s)

-- `child_mut` for each segment
unfoldable pub in_path : {E S : Type 0} → List Text → Text → Step E S → Step E S
unfolding child_mut
in_path [] path step = step
in_path (segment ∷ segments) path step = in_child segment path (in_path segments path step)

-- `TreeFolder`
mutual
  pub data TreeFolder : Type 0 where
    tree_folder :
        (id : ℕ) (name : Text) (path : Text) → TreeFolders → (host_indices : List ℕ) → TreeFolder

  pub data TreeFolders : Type 0 where
    none_left : TreeFolders
    tree : TreeFolder → TreeFolders → TreeFolders

-- The folder with its number, and the next number.
unfoldable mutual
  pub finalize_folder : Folder → ℕ → TreeFolder × ℕ
  finalize_folder (folder name path children host_indices) next_id =
      let (done, after) = finalize_folders children (suc next_id) in
      (tree_folder next_id name path done host_indices, after)

  pub finalize_folders : Folders → ℕ → TreeFolders × ℕ
  finalize_folders no_folder next_id = (none_left, next_id)
  finalize_folders (child f rest) next_id =
      let (done, after) = finalize_folder f next_id in
      let (others, last) = finalize_folders rest after in (tree done others, last)

-- The order of two hosts, or of two folders: by name without case, by name, by number.
unfoldable pub key_leb : Text × ℕ → Text × ℕ → Bool
unfolding text_leb lower
key_leb (left, i) (right, j) =
    let left_key = to_ascii_lowercase left in
    let right_key = to_ascii_lowercase right in
    if text_eq left_key right_key
    then if text_eq left right then ltb i (suc j) else text_leb left right
    else text_leb left_key right_key

module _ {A : Type 0} (hosts : List A) (host_name : A → Text) where
  abbrev pub name_or_empty : Option A → Text
  name_or_empty none = []
  name_or_empty (some host) = host_name host

  abbrev pub index_key : ℕ → Text × ℕ
  index_key index = (name_or_empty (get_elem? hosts index), index)

  unfoldable pub sorted_index : ℕ → List ℕ → List ℕ
  unfolding key_leb
  sorted_index index [] = index ∷ []
  sorted_index index (i ∷ indices) =
      if key_leb (index_key index) (index_key i)
      then index ∷ i ∷ indices
      else i ∷ sorted_index index indices

  unfoldable pub sorted_indices : List ℕ → List ℕ
  unfolding sorted_index
  sorted_indices [] = []
  sorted_indices (i ∷ indices) = sorted_index i (sorted_indices indices)

  abbrev pub folder_key : TreeFolder → Text × ℕ
  folder_key (tree_folder id name path children host_indices) = (name, id)

  unfoldable pub sorted_folder : TreeFolder → TreeFolders → TreeFolders
  unfolding key_leb
  sorted_folder f none_left = tree f none_left
  sorted_folder f (tree g rest) =
      if key_leb (folder_key f) (folder_key g)
      then tree f (tree g rest)
      else tree g (sorted_folder f rest)

  unfoldable mutual
    unfolding sorted_indices sorted_folder

    pub sort_tree_folder_by_host_name : TreeFolder → TreeFolder
    sort_tree_folder_by_host_name (tree_folder id name path children host_indices) =
        tree_folder id name path (sort_tree_folders children) (sorted_indices host_indices)

    pub sort_tree_folders : TreeFolders → TreeFolders
    sort_tree_folders none_left = none_left
    sort_tree_folders (tree f rest) =
        sorted_folder (sort_tree_folder_by_host_name f) (sort_tree_folders rest)
