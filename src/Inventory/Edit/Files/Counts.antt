-- ===== src/Inventory/Edit/Files/Counts.antt =====
-- The host entries of an inventory file, before and behind a change (src/inventory/edit.rs).
use color_ssh.Base.{
  ℕ, ◌+◌, Text, codes, text_eq, trim, is_empty, Result, ok, err, some, Bool, false, List,
  if◌then◌else◌, ◌≡◌, subst, >>=-eq-ok, inl, inr, arith, Bool-cases, Option-cases,
}
use color_ssh.Inventory.Value.{
  Value, null, bool, number, string, sequence, mapping, nil, Fields, end, field,
  canonical_top_level_key,
}
use color_ssh.Inventory.Edit.Hosts.{tally_node, tally_list, any_host}
use color_ssh.Inventory.Edit.Folders.{
  EditError, Edit, inventory_nodes_mut, in_inventory_value, in_inventory_field, delete_folder,
  split_last,
}
use color_ssh.Inventory.Edit.Folders.Tallies.{Shifts, behind-eq-ok}
use color_ssh.Inventory.Edit.Folders.Laws.{delete_folder_count}
use color_ssh.Inventory.Edit.Files.{
  FileError, as_refused, Yaml, FileSystem, Files, SourceFile, path_of, finish_line,
  load_inventory_document, changed_document, with_document, delete_inventory_folder,
  must_be_mapping,
}
use color_ssh.Inventory.Edit.Files.Laws.{IsAtomic, IsAtomic-with_document}

module _ (p : Fields → Bool) where
  unfoldable tally_root : Fields → ℕ
  unfolding tally_list canonical_top_level_key
  tally_root end = 0
  tally_root (field k v rest) =
      if text_eq (canonical_top_level_key k) (codes "inventory")
      then tally_list p v
      else tally_root rest

  -- The host entries of a document that pass a test.
  unfoldable pub tally_document : Value → ℕ
  unfolding tally_root
  tally_document (mapping root) = tally_root root
  tally_document _ = 0

  module _ {A : Type 0} (w : A → ℕ) (d : ℕ) (f : Edit A) (s : Shifts p w d f) where
    tally-in_inventory_value :
        (v left : Value) (x : A)
        → in_inventory_value f v ≡ ok (x, left)
        → tally_list p left + w x ≡ tally_list p v + d
    unfolding tally_node
    tally-in_inventory_value null left x h =
        let (l, m, e) = behind-eq-ok sequence (f nil) x left h in
        ground (arith, s.shift nil l x m, m, e)
    tally-in_inventory_value (sequence items) left x h =
        let (l, m, e) = behind-eq-ok sequence (f items) x left h in
        ground (arith, s.shift items l x m, m, e)
    tally-in_inventory_value (bool b) left x h = cc
    tally-in_inventory_value (number b) left x h = cc
    tally-in_inventory_value (string b) left x h = cc
    tally-in_inventory_value (mapping b) left x h = cc

    tally-in_inventory_field :
        (root left : Fields) (x : A)
        → in_inventory_field f root ≡ ok (x, left)
        → tally_root left + w x ≡ tally_root root + d
    unfolding in_inventory_field tally_root tally_node canonical_top_level_key
    tally-in_inventory_field end left x h =
        let (l, m, e) =
          behind-eq-ok (λ nodes. field (codes "inventory") (sequence nodes) end) (f nil) x left h in
        ground (arith, s.shift nil l x m, m, e)
    tally-in_inventory_field (field k v rest) left x h =
        elim (Bool-cases (text_eq (canonical_top_level_key k) (codes "inventory"))) [
          | inl n ↦
              let (l, m, e) =
                behind-eq-ok (λ u. field k u rest) (in_inventory_value f v) x left
                  (ground (arith, n)) in
              ground (arith, tally-in_inventory_value v l x m, n, e)
          | inr n ↦
              let (l, m, e) =
                behind-eq-ok (λ others. field k v others) (in_inventory_field f rest) x left
                  (ground (arith, n)) in
              ground (arith, tally-in_inventory_field rest l x m, n, e)
        ]

    pub tally-inventory_nodes_mut :
        (document left : Value) (x : A)
        → inventory_nodes_mut f document ≡ ok (x, left)
        → tally_document left + w x ≡ tally_document document + d
    unfolding inventory_nodes_mut tally_document
    tally-inventory_nodes_mut (mapping root) left x h =
        let (l, m, e) = behind-eq-ok mapping (in_inventory_field f root) x left h in
        ground (arith, tally-in_inventory_field root l x m, m, e)
    tally-inventory_nodes_mut null left x h = cc
    tally-inventory_nodes_mut (sequence items) left x h = cc
    tally-inventory_nodes_mut (bool b) left x h = cc
    tally-inventory_nodes_mut (number b) left x h = cc
    tally-inventory_nodes_mut (string b) left x h = cc

  mapping-must_be_mapping :
      {A : Type 0} (f : Edit A) (document left : Value) (x : A)
      → inventory_nodes_mut f document ≡ ok (x, left)
      → must_be_mapping left ≡ ok left
  unfolding inventory_nodes_mut
  mapping-must_be_mapping f (mapping root) left x h =
      let (l, m, e) = behind-eq-ok mapping (in_inventory_field f root) x left h in ground (arith, e)
  mapping-must_be_mapping f null left x h = cc
  mapping-must_be_mapping f (sequence items) left x h = cc
  mapping-must_be_mapping f (bool b) left x h = cc
  mapping-must_be_mapping f (number b) left x h = cc
  mapping-must_be_mapping f (string b) left x h = cc

as_refused-eq-ok : {A : Type 0} (r : Result EditError A) (a : A) → as_refused r ≡ ok a → r ≡ ok a
as_refused-eq-ok (ok b) a h = cc
as_refused-eq-ok (err e) a h = cc

-- The library reads a text that it wrote as the value that was written, and writes no blank text.
pub record ReadsBack (yaml : Yaml) : Type 0 where
  pub reads_back :
      (document : Value) (text : Text)
      → yaml.to_string document ≡ ok text
      → (yaml.from_str (finish_line text) ≡ ok document)
        × (is_empty (trim (finish_line text)) ≡ false)

module _ (yaml : Yaml) (lawful : ReadsBack yaml) (fs : FileSystem)
    (readable : fs.read_to_string ≡ ok tt) (source_file : SourceFile) where
  -- The host entries of the file that pass a test.
  abbrev pub tally_loaded : (Fields → Bool) → Result FileError Value → ℕ
  tally_loaded p (ok document) = tally_document p document
  tally_loaded p (err e) = 0

  abbrev pub tally_file : (Fields → Bool) → Files → ℕ
  tally_file p files = tally_loaded p (load_inventory_document yaml fs source_file files)

  load-written :
      (after : Files) (document : Value) (text : Text)
      → after (path_of source_file) ≡ some (finish_line text)
      → yaml.to_string document ≡ ok text
      → must_be_mapping document ≡ ok document
      → load_inventory_document yaml fs source_file after ≡ ok document
  unfolding load_inventory_document
  load-written after document text at n is =
      let back = lawful.reads_back document text n in
      ground (arith, at, readable, back.0, back.1, is)

  with_document-tally :
      {A : Type 0} (p : Fields → Bool) (w : A → ℕ) (d : ℕ) (f : Edit A)
      → Shifts p w d f
      → (files after : Files) (x : A) → with_document yaml fs source_file f files ≡ (ok x, after)
      → tally_file p after + w x ≡ tally_file p files + d
  unfolding changed_document load_inventory_document
  with_document-tally p w d f s files after x h =
      let atomic =
        subst (λ r. IsAtomic yaml fs source_file f files r) h
          (IsAtomic-with_document yaml fs source_file f files) in
      let (document, text, m, n, at) = atomic.1 in
      let (before, loaded, edited) =
        >>=-eq-ok (load_inventory_document yaml fs source_file files)
          (λ document. as_refused (inventory_nodes_mut f document)) m in
      let edit = as_refused-eq-ok (inventory_nodes_mut f before) (x, document) edited in
      let reloaded =
        load-written after document text at n
          (mapping-must_be_mapping p f before document x edit) in
      rw (reloaded, loaded) (tally-inventory_nodes_mut p w d f s before document x edit)

  -- The count that the deletion of a folder returns is the number of hosts that the file has fewer
  -- when it is read again, with a library that reads what it writes.
  pub delete_inventory_folder_count :
      (folder_path : List Text) (files after : Files) (n : ℕ)
      → delete_inventory_folder yaml fs source_file folder_path files ≡ (ok n, after)
      → tally_file any_host after + n ≡ tally_file any_host files
  unfolding delete_inventory_folder
  delete_inventory_folder_count folder_path files after n h =
      elim (Option-cases (split_last folder_path)) [
        | inl m ↦ absurd (ground (arith, m))
        | inr ((parent_path, name), m) ↦
            let s : Shifts any_host (λ n. n) 0 (delete_folder parent_path name) = record {
              shift = λ nodes left x g.
                  ground (arith, delete_folder_count parent_path name nodes left x g);
            } in
            ground (
              arith,
              with_document-tally any_host (λ n. n) 0 (delete_folder parent_path name) s files after
                  n (ground (arith, h, m)),
            )
      ]
