-- ===== src/Inventory/Tree/Loading/Places.antt =====
-- What loading puts into the tree (src/inventory/tree.rs).
use color_ssh.Base.{
  ℕ, zero, suc, Text, text_eq, Result, ok, err, List, [], ◌∷◌, ◌++◌, refl, inl, inr, arith, subst,
  Bool-cases, Result-cases,
}
use color_ssh.Inventory.Model.{
  InventoryHost, InventoryIncludeRaw, InventoryNodeRaw, host, folder, Nodes, none_left, node,
  ParsedInventoryDocument,
}
use color_ssh.Inventory.Patterns.{Paths}
use color_ssh.Inventory.Normalize.{InventoryError}
use color_ssh.Inventory.Tree.Folders.{
  Folder, Folders, folder, no_folder, child, child_mut, in_child, in_path, name_of, new, none_left,
}
use color_ssh.Inventory.Tree.Loading.{
  LoadError, Loaded, Load, is_visited, add_normalized, add_inventory_node, add_inventory_nodes,
  inventory_folder_name, load_include_document, load_paths, load_includes, load_parsed,
  load_document_recursive,
}
use color_ssh.Inventory.Tree.Loading.Unique.{
  places, places_below, IsKept, Keeps, done-Keeps, and_then-Keeps, add_host-Keeps,
}

child_mut-IsKept :
    (name path : Text) (step : Load)
    → Keeps step
    → (children : Folders) (s : Loaded)
    → IsKept places_below children s (child_mut name path step children s)
unfolding child_mut IsKept places
child_mut-IsKept name path step p no_folder s = elim (Result-cases (step (new name path) s)) [
  | inr (e, r) ↦ rw (r, IsKept, child_mut) tt
  | inl ((g, t), r) ↦
      let k : IsKept places (new name path) s (ok (g, t)) =
        subst (λ r. IsKept places (new name path) s r) r (p.kept (new name path) s) in
      rw (r, IsKept, child_mut) ((λ i. let c = k.0 i in ground (arith, c)), k.1)
]
child_mut-IsKept name path step p (child f rest) s = elim (Bool-cases (text_eq (name_of f) name)) [
  | inl e ↦ elim (Result-cases (step f s)) [
    | inr (x, r) ↦ rw (e, r, IsKept, child_mut) tt
    | inl ((g, t), r) ↦
        let k : IsKept places f s (ok (g, t)) = subst (λ r. IsKept places f s r) r (p.kept f s) in
        rw (e, r, IsKept, child_mut) ((λ i. let c = k.0 i in ground (arith, c)), k.1)
  ]
  | inr e ↦ elim (Result-cases (child_mut name path step rest s)) [
    | inr (x, r) ↦ rw (e, r, IsKept, child_mut) tt
    | inl ((g, t), r) ↦
        let k : IsKept places_below rest s (ok (g, t)) =
          subst (λ r. IsKept places_below rest s r) r (child_mut-IsKept name path step p rest s) in
        rw (e, r, IsKept, child_mut) ((λ i. let c = k.0 i in ground (arith, c)), k.1)
  ]
]

in_child-IsKept :
    (name path : Text) (step : Load)
    → Keeps step
    → (f : Folder) (s : Loaded) → IsKept places f s (in_child name path step f s)
unfolding IsKept places
in_child-IsKept name path step p (folder n q children host_indices) s =
    elim (Result-cases (child_mut name path step children s)) [
      | inr (x, r) ↦ rw (r, IsKept) tt
      | inl ((g, t), r) ↦
          let k : IsKept places_below children s (ok (g, t)) =
            subst (λ r. IsKept places_below children s r) r
              (child_mut-IsKept name path step p children s) in
          rw (r, IsKept) ((λ i. let c = k.0 i in ground (arith, c)), k.1)
    ]

in_child-Keeps : (name path : Text) (step : Load) → Keeps step → Keeps (in_child name path step)
in_child-Keeps name path step p = record { kept = in_child-IsKept name path step p }

in_path-Keeps :
    (segments : List Text) (path : Text) (step : Load)
    → Keeps step
    → Keeps (in_path segments path step)
unfolding in_path
in_path-Keeps [] path step p = record { kept = p.kept }
in_path-Keeps (segment ∷ segments) path step p =
    let q =
      in_child-Keeps segment path (in_path segments path step)
        (in_path-Keeps segments path step p) in
    record { kept = q.kept }

module _ (paths : Paths)
    (parse_inventory_document : Text → Result InventoryError ParsedInventoryDocument) where
  add_normalized-Keeps :
      (r : Result InventoryError InventoryHost) (source_file : Text)
      → Keeps (add_normalized paths parse_inventory_document r source_file)
  unfolding IsKept
  add_normalized-Keeps (ok added) source_file =
      let p = add_host-Keeps added source_file in record { kept = p.kept }
  add_normalized-Keeps (err e) source_file = record { kept = λ f s. tt }

  mutual
    unfolding add_inventory_node

    add_node-Keeps :
        (item : InventoryNodeRaw) (source_file : Text) (folder_path : List Text)
        → Keeps (add_inventory_node paths parse_inventory_document item source_file folder_path)
    add_node-Keeps (host raw) source_file folder_path = add_normalized-Keeps _ source_file
    add_node-Keeps (folder name items) source_file folder_path =
        in_child-Keeps name source_file _
          (add_nodes-Keeps items source_file (folder_path ++ name ∷ []))

    add_nodes-Keeps :
        (items : Nodes) (source_file : Text) (folder_path : List Text)
        → Keeps (add_inventory_nodes paths parse_inventory_document items source_file folder_path)
    add_nodes-Keeps none_left source_file folder_path = done-Keeps
    add_nodes-Keeps (node item items) source_file folder_path =
        and_then-Keeps _ _ (add_node-Keeps item source_file folder_path)
          (add_nodes-Keeps items source_file folder_path)

  module _ (load : Text → List Text → Load)
      (load-Keeps : (path : Text) (folder_path : List Text) → Keeps (load path folder_path)) where
    include_document-Keeps :
        (folder_path : List Text) (path : Text)
        → Keeps (load_include_document paths parse_inventory_document load folder_path path)
    unfolding load_include_document IsKept
    include_document-Keeps folder_path path =
        let canonical = paths.canonicalize path in
        let name = inventory_folder_name paths parse_inventory_document canonical in
        let below = load canonical (folder_path ++ name ∷ []) in
        record {
          kept = λ f s. elim (Bool-cases (is_visited canonical s.visited)) [
            | inl e ↦ rw (e, IsKept, load_include_document) ((λ i. refl), λ u. u)
            | inr e ↦
                rw (e, load_include_document)
                  ((in_child-Keeps name canonical below
                      (load-Keeps canonical (folder_path ++ name ∷ []))).kept
                    f s)
          ];
        }

    paths-Keeps :
        (folder_path : List Text) (include_paths : List Text)
        → Keeps (load_paths paths parse_inventory_document load folder_path include_paths)
    unfolding load_paths
    paths-Keeps folder_path [] = done-Keeps
    paths-Keeps folder_path (path ∷ include_paths) =
        and_then-Keeps _ _ (include_document-Keeps folder_path path)
          (paths-Keeps folder_path include_paths)

    includes-Keeps :
        (canonical : Text) (folder_path : List Text) (include : List InventoryIncludeRaw)
        → Keeps (load_includes paths parse_inventory_document load canonical folder_path include)
    unfolding load_includes
    includes-Keeps canonical folder_path [] = done-Keeps
    includes-Keeps canonical folder_path (entry ∷ include) =
        and_then-Keeps _ _ (in_path-Keeps entry.folder_path canonical _ (paths-Keeps _ _))
          (includes-Keeps canonical folder_path include)

    parsed-Keeps :
        (canonical : Text) (folder_path : List Text)
        (r : Result InventoryError ParsedInventoryDocument)
        → Keeps (load_parsed paths parse_inventory_document load canonical folder_path r)
    unfolding IsKept
    parsed-Keeps canonical folder_path (err e) = record { kept = λ f s. tt }
    parsed-Keeps canonical folder_path (ok document) =
        let p =
          and_then-Keeps _ _ (includes-Keeps canonical folder_path document.include)
            (add_nodes-Keeps document.inventory canonical folder_path) in
        record { kept = p.kept }

  visited-IsKept :
      (f : Folder) (s : Loaded) (visited : List Text) (r : Result LoadError (Folder × Loaded))
      → IsKept places f (record s { visited = visited }) r
      → IsKept places f s r
  unfolding IsKept
  visited-IsKept f s visited (err e) h = tt
  visited-IsKept f s visited (ok (g, t)) h = (h.0, λ u. h.1 (record { once = u.once }))

  pub load-Keeps :
      (fuel : ℕ) (path : Text) (folder_path : List Text)
      → Keeps (load_document_recursive paths parse_inventory_document fuel path folder_path)
  unfolding load_document_recursive IsKept
  load-Keeps zero path folder_path = record { kept = λ f s. tt }
  load-Keeps (suc fuel) path folder_path =
      let canonical = paths.canonicalize path in
      record {
        kept = λ f s. elim (Bool-cases (is_visited canonical s.visited)) [
          | inl e ↦ rw (e, IsKept, load_document_recursive) ((λ i. refl), λ u. u)
          | inr e ↦
              rw (e, load_document_recursive)
                (visited-IsKept f s (canonical ∷ s.visited) _ (
                  (parsed-Keeps (load_document_recursive paths parse_inventory_document fuel)
                      (load-Keeps fuel) canonical folder_path
                      (parse_inventory_document canonical)).kept
                    f (record s { visited = canonical ∷ s.visited })))
        ];
      }
