-- ===== src/Inventory/Edit/Files/Examples.antt =====
-- An inventory file with one folder, and a library that reads and writes two documents.
use color_ssh.Base.{
  ◌+◌, Text, codes, text_eq, text_eq_iff, trim, is_empty, Result, ok, err, none, some, true, false,
  [], ◌∷◌, ◌≡◌, refl, arith, if◌then◌else◌, sym, strip_prefix, separator, Bool-cases, inl, inr,
}
use color_ssh.Inventory.Value.{
  Value, null, bool, number, string, sequence, mapping, Items, nil, cons, Fields, end, field,
  canonical_host_key, canonical_top_level_key,
}
use color_ssh.Inventory.Edit.Hosts.{any_host, tally_node}
use color_ssh.Inventory.Edit.Folders.{delete_folder}
use color_ssh.Inventory.Edit.Files.{
  Yaml, FileSystem, Files, set, SourceFile, path_of, delete_inventory_folder, finish_line,
  with_document, temporary_inventory_path,
}
use color_ssh.Inventory.Edit.Files.Laws.{IsAtomicAt, with_document-IsAtomicAt, temporary-ne-path}
use color_ssh.Inventory.Edit.Files.Counts.{ReadsBack, tally_file, delete_inventory_folder_count}

abbrev inventory : Items → Value
inventory items = mapping (field (codes "inventory") (sequence items) end)

abbrev lab : Items
lab =
    cons
      (mapping (
        field (codes "lab")
          (sequence (cons (mapping (field (codes "name") (string (codes "db")) end)) nil)) end))
      nil

abbrev empty_text : Text
empty_text = codes "inventory: []"

unfoldable from_str : Text → Result Text Value
unfolding finish_line
from_str text =
    if text_eq text (finish_line empty_text) then ok (inventory nil) else ok (inventory lab)

unfoldable to_string : Value → Result Text Text
to_string (mapping (field k (sequence nil) end)) =
    if text_eq k (codes "inventory") then ok empty_text else err []
to_string _ = err []

unfoldable remove : Text → Fields → Fields
remove key end = end
remove key (field k v rest) = elim (text_eq k key) [
  | true ↦ rest
  | false ↦ field k v (remove key rest)
]

abbrev yaml : Yaml
yaml = record { from_str = from_str; to_string = to_string; remove = remove }

abbrev fs : FileSystem
fs = record {
  read_to_string = ok tt;
  create_dir_all = ok tt;
  write = ok tt;
  rename = ok tt;
  remove_file = ok tt;
  left_behind = none;
  process_id = 7;
  nanos = 0;
}

abbrev source : SourceFile
source = record { parent = codes "/home"; file_name = codes "inventory.yaml" }

unfoldable before : Files
before path = if text_eq path (codes "/home/inventory.yaml") then some (codes "lab") else none

reads :
    (document : Value) (text : Text)
    → to_string document ≡ ok text
    → (from_str (finish_line text) ≡ ok document) × (is_empty (trim (finish_line text)) ≡ false)
unfolding to_string from_str finish_line trim
reads (mapping (field k (sequence nil) end)) text h =
    elim (Bool-cases (text_eq k (codes "inventory"))) [
      | inr e ↦ absurd (ground (arith, e))
      | inl e ↦
          let is : empty_text ≡ text = ground (arith, e) in
          let key = (text_eq_iff k (codes "inventory")).0 e in rw (sym is, key) (refl, refl)
    ]
reads null text h = cc
reads (bool x) text h = cc
reads (number x) text h = cc
reads (string x) text h = cc
reads (sequence x) text h = cc
reads (mapping end) text h = cc
reads (mapping (field k null r)) text h = cc
reads (mapping (field k (bool x) r)) text h = cc
reads (mapping (field k (number x) r)) text h = cc
reads (mapping (field k (string x) r)) text h = cc
reads (mapping (field k (mapping x) r)) text h = cc
reads (mapping (field k (sequence (cons x y)) r)) text h = cc
reads (mapping (field k (sequence nil) (field l w r))) text h = cc

yaml-ReadsBack : ReadsBack yaml
yaml-ReadsBack = record { reads_back = reads }

unfoldable after : Files
unfolding before set temporary_inventory_path
after = set (path_of source) (some (finish_line empty_text)) (
    set (temporary_inventory_path fs source) none
      (set (temporary_inventory_path fs source) (some (finish_line empty_text)) before))

delete_inventory_folder_count_example :
    tally_file yaml yaml-ReadsBack fs refl source any_host after + 1
    ≡ tally_file yaml yaml-ReadsBack fs refl source any_host before
unfolding delete_inventory_folder before after set canonical_host_key canonical_top_level_key
    strip_prefix separator from_str to_string tally_node
delete_inventory_folder_count_example =
    delete_inventory_folder_count yaml yaml-ReadsBack fs refl source (codes "lab" ∷ []) before after
      1 refl

with_document-IsAtomicAt_example :
    IsAtomicAt yaml fs source
      (path_of source)
      (delete_folder [] (codes "lab"))
      before
      (with_document yaml fs source (delete_folder [] (codes "lab")) before)
unfolding strip_prefix
with_document-IsAtomicAt_example =
    with_document-IsAtomicAt yaml fs source (delete_folder [] (codes "lab")) before (path_of source)
      (λ h. temporary-ne-path fs source refl (sym h))
