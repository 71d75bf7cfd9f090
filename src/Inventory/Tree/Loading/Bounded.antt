-- ===== src/Inventory/Tree/Loading/Bounded.antt =====
-- Loading ends: no document is loaded twice, so fuel for the files that can be read is enough.
use color_ssh.Base.{
  ℕ, zero, suc, ◌≤◌, ◌<◌, Text, Result, ok, err, true, false, List, [], ◌∷◌, length, ◌≡◌, ◌≢◌, inl,
  inr, arith, Bool-cases, Result-cases,
}
use color_ssh.Inventory.Model.{ParsedInventoryDocument}
use color_ssh.Inventory.Patterns.{Paths}
use color_ssh.Inventory.Normalize.{InventoryError}
use color_ssh.Inventory.Tree.Folders.{Folder, new}
use color_ssh.Inventory.Tree.Loading.{
  LoadError, invalid, out_of_fuel, Loaded, is_visited, load_parsed, load_document_recursive,
  build_inventory_tree, finished, or_default,
}
use color_ssh.Inventory.Tree.Loading.Steps.{left, left-cons-lt, IsFine, Fine, parsed-Fine}

module _ (files : List Text) (paths : Paths)
    (parse_inventory_document : Text → Result InventoryError ParsedInventoryDocument)
    (readable : (path : Text) (document : ParsedInventoryDocument)
      → parse_inventory_document path ≡ ok document
      → is_visited path files ≡ true) where
  IsFine-le :
      (k m : ℕ) (r : Result LoadError (Folder × Loaded))
      → k ≤ m
      → IsFine files k r
      → IsFine files m r
  unfolding IsFine
  IsFine-le k m (ok (f, s)) le h = ground (arith, le, h)
  IsFine-le k m (err (invalid e)) le h = tt
  IsFine-le k m (err out_of_fuel) le h = h

  unvisited-IsFine :
      (n m : ℕ) (path : Text) (folder_path : List Text)
      → m < suc n
      → ((k : ℕ) (path : Text) (folder_path : List Text)
          → k < n
          → Fine files k
              (load_document_recursive paths parse_inventory_document n path folder_path))
      → (f : Folder) (s : Loaded) → left s.visited files ≤ m
      → is_visited path s.visited ≡ false
      → IsFine files m (
          load_parsed paths parse_inventory_document
            (load_document_recursive paths parse_inventory_document n)
            path
            folder_path
            (parse_inventory_document path)
            f
            (record s { visited = path ∷ s.visited }))
  unfolding IsFine
  unvisited-IsFine n m path folder_path lt ih f s h new_file =
      elim (Result-cases (parse_inventory_document path)) [
        | inr (e, r) ↦ rw (r, IsFine) tt
        | inl (document, r) ↦
            let fewer = left-cons-lt path s.visited files (readable path document r) new_file in
            let k = left (path ∷ s.visited) files in
            IsFine-le k m _ (ground (arith, fewer, h)) (
              (parsed-Fine files paths parse_inventory_document k
                  (load_document_recursive paths parse_inventory_document n)
                  (λ p q. ih k p q (ground (arith, fewer, h, lt))) path folder_path
                  (parse_inventory_document path)).fine
                f (record s { visited = path ∷ s.visited }) (omega arith))
      ]

  load-Fine :
      (n m : ℕ) (path : Text) (folder_path : List Text)
      → m < n
      → Fine files m (load_document_recursive paths parse_inventory_document n path folder_path)
  unfolding load_document_recursive IsFine
  load-Fine zero m path folder_path lt = absurd (omega arith)
  load-Fine (suc n) m path folder_path lt = record {
    fine = λ f s h. elim (Bool-cases (is_visited (paths.canonicalize path) s.visited)) [
      | inl e ↦ rw (e, IsFine, load_document_recursive) h
      | inr e ↦
          rw (e, load_document_recursive)
            (unvisited-IsFine n m (paths.canonicalize path) folder_path lt
              (λ k p q l. load-Fine n k p q l) f s h e)
    ];
  }

  left-nil : (fs : List Text) → left [] fs ≤ length fs
  unfolding left
  left-nil [] = omega arith
  left-nil (file ∷ fs) = let le = left-nil fs in ground (arith, le)

  finished-ends :
      (m : ℕ) (r : Result LoadError (Folder × Loaded))
      → IsFine files m r
      → finished paths parse_inventory_document r ≢ err out_of_fuel
  unfolding IsFine
  finished-ends m (ok (f, s)) h e = cc
  finished-ends m (err (invalid problem)) h e = cc
  finished-ends m (err out_of_fuel) h e = h

  -- Loading ends: where every document that can be read is one of some files, fuel for one more
  -- than those gives the tree or an error of the inventory, whatever the includes are and
  -- however they go round.
  pub build_inventory_tree-ends :
      (path : Text)
      → build_inventory_tree paths parse_inventory_document (suc (length files)) path
        ≢ err out_of_fuel
  unfolding build_inventory_tree
  build_inventory_tree-ends path = finished-ends (length files) _ (
      (load-Fine (suc (length files)) (length files) path [] (omega arith)).fine
        (new (or_default paths parse_inventory_document (paths.file_name path)) path)
        (record { hosts = []; seen_host_names = []; visited = [] }) (left-nil files))
