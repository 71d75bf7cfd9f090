-- ===== src/Inventory/Edit/Files/Laws.antt =====
-- A change of an inventory file is made in full or not at all, and touches no other file.
use color_ssh.Base.{
  ℕ, Text, codes, Option, text_eq, text_eq_iff, ne_of_text_eq, Bool-cases, if◌then◌else◌,
  text_eq_refl, join_relative, strip_prefix, Result, ok, err, none, some, [], ◌∷◌, ◌++◌, ◌≡◌, ◌≢◌,
  refl, sym, ◌∙◌, separator, inl, inr, arith, Result-cases, append_cancel_left,
}
use color_ssh.Inventory.Value.{Value}
use color_ssh.Inventory.Edit.Folders.{Edit}
use color_ssh.Inventory.Edit.Files.{
  FileError, cannot_serialize, Yaml, FileSystem, Files, set, SourceFile, path_of, temporary_suffix,
  temporary_name, temporary_inventory_path, finish_line, write_inventory_document, changed_document,
  with_document, answer, write_text,
}

not_longer : (c : ℕ) (s t : Text) → s ≢ c ∷ s ++ t
not_longer c [] t h = cc
not_longer c (d ∷ s) t h = not_longer d s t (ground (arith, h))

pub temporary-ne-path :
    (fs : FileSystem) (source_file : SourceFile)
    → strip_prefix (codes "/") source_file.file_name ≡ none
    → temporary_inventory_path fs source_file ≢ path_of source_file
unfolding temporary_inventory_path strip_prefix
temporary-ne-path fs source_file relative h =
    let parent = source_file.parent in
    let name = source_file.file_name in
    let both : parent ++ (separator parent ++ temporary_name fs source_file)
        ≡ parent ++ (separator parent ++ name) =
      sym (join_relative parent (temporary_name fs source_file) refl)
      ∙ h
      ∙ join_relative parent name relative in
    not_longer b'.' name (temporary_suffix fs)
      (sym (append_cancel_left (separator parent) _ _ (append_cancel_left parent _ _ both)))

module _ (yaml : Yaml) (fs : FileSystem) (source_file : SourceFile) where
  -- What an operation on the file may leave: after an error, no file is changed but the temporary
  -- one; after a success, the document that the change makes stands at the path, in full.
  abbrev pub IsAtomic : {A : Type 0} → Edit A → Files → Result FileError A × Files → Type 0
  IsAtomic edit files (err e, after) =
      (path : Text) → path ≢ temporary_inventory_path fs source_file → after path ≡ files path
  IsAtomic edit files (ok a, after) =
      ((path : Text)
        → path ≢ temporary_inventory_path fs source_file
        → path ≢ path_of source_file
        → after path ≡ files path)
      × ((document : Value) × (text : Text) × (changed_document yaml fs source_file edit files
            ≡ ok (a, document))
          × (yaml.to_string document ≡ ok text)
          × (after (path_of source_file) ≡ some (finish_line text)))

  IsWritten : Text → Files → Result FileError (Unit {0}) × Files → Type 0
  IsWritten text files (err e, after) =
      (path : Text) → path ≢ temporary_inventory_path fs source_file → after path ≡ files path
  IsWritten text files (ok done, after) =
      ((path : Text)
        → path ≢ temporary_inventory_path fs source_file
        → path ≢ path_of source_file
        → after path ≡ files path)
      × (after (path_of source_file) ≡ some text)

  write_text-IsWritten :
      (text : Text) (files : Files)
      → IsWritten text files (write_text yaml fs source_file text files)
  unfolding set IsWritten
  write_text-IsWritten text files = elim (Result-cases fs.create_dir_all) [
    | inr (e, m) ↦ rw m (λ path other. refl)
    | inl (_, m) ↦ elim (Result-cases fs.write) [
      | inr (e, n) ↦
          rw (m, n)
            (λ path other.
              ground (arith, text_eq_iff path (temporary_inventory_path fs source_file)))
      | inl (_, n) ↦ elim (Result-cases fs.rename) [
        | inr (e, r) ↦
            rw (m, n, r)
              (λ path other.
                ground (arith, text_eq_iff path (temporary_inventory_path fs source_file)))
        | inl (_, r) ↦
            rw (m, n, r)
              (
                (λ path other apart. ground (
                  arith,
                  text_eq_iff path (temporary_inventory_path fs source_file),
                  text_eq_iff path (path_of source_file),
                )),
                ground (arith, text_eq_refl (path_of source_file)),
              )
      ]
    ]
  ]

  module _ {A : Type 0} (edit : Edit A) (files : Files) where
    answer-IsAtomic :
        (a : A) (document : Value) (text : Text) (r : Result FileError (Unit {0}) × Files)
        → changed_document yaml fs source_file edit files ≡ ok (a, document)
        → yaml.to_string document ≡ ok text
        → IsWritten (finish_line text) files r
        → IsAtomic edit files (answer yaml fs source_file a r)
    unfolding IsWritten
    answer-IsAtomic a document text (err e, after) m n w = w
    answer-IsAtomic a document text (ok done, after) m n w = (w.0, (document, text, m, n, w.1))

    pub IsAtomic-with_document : IsAtomic edit files (with_document yaml fs source_file edit files)
    unfolding with_document write_inventory_document
    IsAtomic-with_document = elim (Result-cases (changed_document yaml fs source_file edit files)) [
      | inr (e, m) ↦
          let same : with_document yaml fs source_file edit files ≡ (err e, files) =
            ground (arith, m) in
          rw same (λ path other. refl)
      | inl ((a, document), m) ↦ elim (Result-cases (yaml.to_string document)) [
        | inr (e, n) ↦
            let same : with_document yaml fs source_file edit files
                ≡ (err (cannot_serialize e), files) =
              ground (arith, m, n) in
            rw same (λ path other. refl)
        | inl (text, n) ↦
            let same : with_document yaml fs source_file edit files
                ≡ answer yaml fs source_file a
                    (write_text yaml fs source_file (finish_line text) files) =
              ground (arith, m, n) in
            rw same (
              answer-IsAtomic a document text _ m n (write_text-IsWritten (finish_line text) files))
      ]
    ]

  -- The text that a change would write.
  abbrev pub text_of : Result Text Text → Option Text
  text_of (ok text) = some (finish_line text)
  text_of (err e) = none

  abbrev pub new_contents : {A : Type 0} → Result FileError (A × Value) → Option Text
  new_contents (ok (a, document)) = text_of (yaml.to_string document)
  new_contents (err e) = none

  -- The contents of a path behind a change.
  abbrev pub IsAtomicAt : {A : Type 0} → Text → Edit A → Files → Result FileError A × Files → Type 0
  IsAtomicAt path edit files (err e, after) = after path ≡ files path
  IsAtomicAt path edit files (ok a, after) = after path ≡ (
      if text_eq path (path_of source_file)
      then new_contents (changed_document yaml fs source_file edit files)
      else files path)

  at_path :
      {A : Type 0} (edit : Edit A) (files : Files) (path : Text) (r : Result FileError A × Files)
      → path ≢ temporary_inventory_path fs source_file
      → IsAtomic edit files r
      → IsAtomicAt path edit files r
  at_path edit files path (err e, after) other h = h path other
  at_path edit files path (ok a, after) other h =
      let (document, text, m, n, at) = h.1 in
      elim (Bool-cases (text_eq path (path_of source_file))) [
        | inl e ↦ let is = (text_eq_iff path (path_of source_file)).0 e in rw (e, m, n, is) at
        | inr e ↦ rw e (h.0 path other (ne_of_text_eq path (path_of source_file) e))
      ]

  -- A change of an inventory file touches no file but the inventory and the temporary file beside
  -- it. Where it fails, the inventory is as it was; where it succeeds, it is the whole rendering
  -- of the changed document.
  pub with_document-IsAtomicAt :
      {A : Type 0} (edit : Edit A) (files : Files) (path : Text)
      → path ≢ temporary_inventory_path fs source_file
      → IsAtomicAt path edit files (with_document yaml fs source_file edit files)
  with_document-IsAtomicAt edit files path other =
      at_path edit files path (with_document yaml fs source_file edit files) other
        (IsAtomic-with_document edit files)
