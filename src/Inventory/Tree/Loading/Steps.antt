-- ===== src/Inventory/Tree/Loading/Steps.antt =====
-- The steps of loading end, and leave no more files to visit than they were given.
use color_ssh.Base.{
  ℕ, suc, ◌≤◌, ◌<◌, Text, text_eq, text_eq_iff, Result, ok, err, true, false, List, [], ◌∷◌, ◌++◌,
  if◌then◌else◌, ◌≡◌, inl, inr, arith, sym, Bool-cases, Option-cases,
}
use color_ssh.Inventory.Model.{
  InventoryHost, InventoryIncludeRaw, InventoryNodeRaw, host, folder, Nodes, none_left, node,
  ParsedInventoryDocument,
}
use color_ssh.Inventory.Patterns.{Paths}
use color_ssh.Inventory.Normalize.{InventoryError}
use color_ssh.Inventory.Tree.Folders.{
  Folder, Folders, folder, no_folder, child, child_mut, in_child, in_path, name_of, beside, new,
}
use color_ssh.Inventory.Tree.Loading.{
  LoadError, invalid, out_of_fuel, Loaded, Load, lookup, is_visited, continued, and_then, done,
  add_host, add_normalized, add_inventory_node, add_inventory_nodes, inventory_folder_name,
  load_include_document, load_paths, load_includes, load_parsed,
}

-- The number of files that are not visited.
unfoldable pub left : List Text → List Text → ℕ
left visited [] = 0
left visited (file ∷ files) =
    if is_visited file visited then left visited files else suc (left visited files)

left-cons-le :
    (path : Text) (visited files : List Text) → left (path ∷ visited) files ≤ left visited files
unfolding left
left-cons-le path visited [] = ground arith
left-cons-le path visited (file ∷ files) = ground (arith, left-cons-le path visited files)

pub left-cons-lt :
    (path : Text) (visited files : List Text)
    → is_visited path files ≡ true
    → is_visited path visited ≡ false
    → left (path ∷ visited) files < left visited files
unfolding left
left-cons-lt path visited [] h n = cc
left-cons-lt path visited (file ∷ files) h n = elim (Bool-cases (text_eq file path)) [
  | inl e ↦
      let is = (text_eq_iff file path).0 e in
      let le = left-cons-le path visited files in
      ground (arith, is, le, n, (text_eq_iff path file).1 (sym is))
  | inr e ↦ let lt = left-cons-lt path visited files (ground (arith, e)) n in ground (arith, lt)
]

module _ (files : List Text) where
  unfoldable pub IsFine : {A : Type 0} → ℕ → Result LoadError (A × Loaded) → Type 0
  IsFine m (ok (a, s)) = left s.visited files ≤ m
  IsFine m (err (invalid e)) = Unit
  IsFine m (err out_of_fuel) = ⊥

  -- A step that ends, with at most `m` files left behind it where no more were left before.
  pub record Fine (m : ℕ) (step : Load) : Type 0 where
    pub fine : (f : Folder) (s : Loaded) → left s.visited files ≤ m → IsFine m (step f s)

  beside-IsFine :
      {A B : Type 0} (m : ℕ) (g : A → B) (r : Result LoadError (A × Loaded))
      → IsFine m r
      → IsFine m (beside g r)
  unfolding IsFine
  beside-IsFine m g (ok (a, s)) h = h
  beside-IsFine m g (err (invalid e)) h = tt
  beside-IsFine m g (err out_of_fuel) h = h

  continued-IsFine :
      (m : ℕ) (second : Load)
      → Fine m second
      → (r : Result LoadError (Folder × Loaded)) → IsFine m r
      → IsFine m (continued second r)
  unfolding IsFine
  continued-IsFine m second q (ok (g, t)) h = q.fine g t h
  continued-IsFine m second q (err (invalid e)) h = tt
  continued-IsFine m second q (err out_of_fuel) h = h

  and_then-Fine :
      (m : ℕ) (first second : Load) → Fine m first → Fine m second → Fine m (and_then first second)
  and_then-Fine m first second p q = record {
    fine = λ f s h. continued-IsFine m second q (first f s) (p.fine f s h);
  }

  done-Fine : (m : ℕ) → Fine m done
  unfolding IsFine
  done-Fine m = record { fine = λ f s h. h }

  child_mut-IsFine :
      (m : ℕ) (name path : Text) (step : Load)
      → Fine m step
      → (children : Folders) (s : Loaded) → left s.visited files ≤ m
      → IsFine m (child_mut name path step children s)
  unfolding child_mut
  child_mut-IsFine m name path step p no_folder s h =
      beside-IsFine m _ _ (p.fine (new name path) s h)
  child_mut-IsFine m name path step p (child f rest) s h =
      elim (Bool-cases (text_eq (name_of f) name)) [
        | inl e ↦ rw (e, child_mut) (beside-IsFine m _ _ (p.fine f s h))
        | inr e ↦
            rw (e, child_mut) (beside-IsFine m _ _ (child_mut-IsFine m name path step p rest s h))
      ]

  in_child-IsFine :
      (m : ℕ) (name path : Text) (step : Load)
      → Fine m step
      → (f : Folder) (s : Loaded) → left s.visited files ≤ m
      → IsFine m (in_child name path step f s)
  in_child-IsFine m name path step p (folder n q children host_indices) s h =
      beside-IsFine m _ _ (child_mut-IsFine m name path step p children s h)

  in_child-Fine :
      (m : ℕ) (name path : Text) (step : Load) → Fine m step → Fine m (in_child name path step)
  in_child-Fine m name path step p = record { fine = in_child-IsFine m name path step p }

  in_path-Fine :
      (m : ℕ) (segments : List Text) (path : Text) (step : Load)
      → Fine m step
      → Fine m (in_path segments path step)
  unfolding in_path
  in_path-Fine m [] path step p = record { fine = p.fine }
  in_path-Fine m (segment ∷ segments) path step p =
      let q =
        in_child-Fine m segment path (in_path segments path step)
          (in_path-Fine m segments path step p) in
      record { fine = q.fine }

  add_host-Fine :
      (m : ℕ) (added : InventoryHost) (source_file : Text) → Fine m (add_host added source_file)
  unfolding add_host IsFine
  add_host-Fine m added source_file = record {
    fine = λ f s h. elim (Option-cases (lookup added.name s.seen_host_names)) [
      | inl n ↦ rw (n, IsFine, add_host) h
      | inr (p, n) ↦ rw (n, IsFine, add_host) tt
    ];
  }

  module _ (paths : Paths)
      (parse_inventory_document : Text → Result InventoryError ParsedInventoryDocument) where
    add_normalized-Fine :
        (m : ℕ) (r : Result InventoryError InventoryHost) (source_file : Text)
        → Fine m (add_normalized paths parse_inventory_document r source_file)
    unfolding IsFine
    add_normalized-Fine m (ok added) source_file =
        let p = add_host-Fine m added source_file in record { fine = p.fine }
    add_normalized-Fine m (err e) source_file = record { fine = λ f s h. tt }

    mutual
      unfolding add_inventory_node

      add_node-Fine :
          (m : ℕ) (item : InventoryNodeRaw) (source_file : Text) (folder_path : List Text)
          → Fine m (add_inventory_node paths parse_inventory_document item source_file folder_path)
      add_node-Fine m (host raw) source_file folder_path = add_normalized-Fine m _ source_file
      add_node-Fine m (folder name items) source_file folder_path =
          in_child-Fine m name source_file _
            (add_nodes-Fine m items source_file (folder_path ++ name ∷ []))

      add_nodes-Fine :
          (m : ℕ) (items : Nodes) (source_file : Text) (folder_path : List Text)
          → Fine m
              (add_inventory_nodes paths parse_inventory_document items source_file folder_path)
      add_nodes-Fine m none_left source_file folder_path = done-Fine m
      add_nodes-Fine m (node item items) source_file folder_path =
          and_then-Fine m _ _ (add_node-Fine m item source_file folder_path)
            (add_nodes-Fine m items source_file folder_path)

    module _ (m : ℕ) (load : Text → List Text → Load)
        (load-Fine : (path : Text) (folder_path : List Text) → Fine m (load path folder_path)) where
      include_document-Fine :
          (folder_path : List Text) (path : Text)
          → Fine m (load_include_document paths parse_inventory_document load folder_path path)
      unfolding load_include_document IsFine
      include_document-Fine folder_path path =
          let canonical = paths.canonicalize path in
          let name = inventory_folder_name paths parse_inventory_document canonical in
          record {
            fine = λ f s h. elim (Bool-cases (is_visited canonical s.visited)) [
              | inl e ↦ rw (e, IsFine, load_include_document) h
              | inr e ↦
                  rw (e, load_include_document)
                    ((in_child-Fine m name canonical (load canonical (folder_path ++ name ∷ []))
                        (load-Fine canonical (folder_path ++ name ∷ []))).fine
                      f s h)
            ];
          }

      paths-Fine :
          (folder_path : List Text) (include_paths : List Text)
          → Fine m (load_paths paths parse_inventory_document load folder_path include_paths)
      unfolding load_paths
      paths-Fine folder_path [] = done-Fine m
      paths-Fine folder_path (path ∷ include_paths) =
          and_then-Fine m _ _ (include_document-Fine folder_path path)
            (paths-Fine folder_path include_paths)

      includes-Fine :
          (canonical : Text) (folder_path : List Text) (include : List InventoryIncludeRaw)
          → Fine m (load_includes paths parse_inventory_document load canonical folder_path include)
      unfolding load_includes
      includes-Fine canonical folder_path [] = done-Fine m
      includes-Fine canonical folder_path (entry ∷ include) =
          and_then-Fine m _ _ (in_path-Fine m entry.folder_path canonical _ (paths-Fine _ _))
            (includes-Fine canonical folder_path include)

      pub parsed-Fine :
          (canonical : Text) (folder_path : List Text)
          (r : Result InventoryError ParsedInventoryDocument)
          → Fine m (load_parsed paths parse_inventory_document load canonical folder_path r)
      unfolding IsFine
      parsed-Fine canonical folder_path (err e) = record { fine = λ f s h. tt }
      parsed-Fine canonical folder_path (ok document) =
          let p =
            and_then-Fine m _ _ (includes-Fine canonical folder_path document.include)
              (add_nodes-Fine m document.inventory canonical folder_path) in
          record { fine = p.fine }
