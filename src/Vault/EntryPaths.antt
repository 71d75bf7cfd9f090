-- ===== src/Vault/EntryPaths.antt =====
-- Where the files of a vault lie: apart from one another, and inside the entries directory.
use color_ssh.Base.{
  ℕ, arith, text_eq, text_eq_iff, Text, codes, strip_prefix, separator, join_relative,
  name-relative, ok, true, [], ◌∷◌, ◌++◌, ◌≡◌, ◌≢◌, refl, sym, ap, ok_injective, ◌∙◌, append_assoc,
  append_cancel_left, append_cancel_right,
}
use color_ssh.Args.Validation.{validate_vault_entry_name}
use color_ssh.Args.Validation.Names.{no_slash}
use color_ssh.Vault.Disk.{VaultPaths, vault_dir, metadata_path, entries_dir, entry_path}

valid-ne-nil : (name : Text) → validate_vault_entry_name name ≡ true → name ≢ []
unfolding validate_vault_entry_name
valid-ne-nil [] h = cc
valid-ne-nil (c ∷ s) h = cc

-- The file of a name, directly in the entries directory.
pub entry_file : VaultPaths → Text → Text
entry_file paths name =
    entries_dir paths ++ (separator (entries_dir paths) ++ (name ++ codes ".json"))

pub entry_path-eq-ok :
    (paths : VaultPaths) (name : Text)
    → validate_vault_entry_name name ≡ true
    → entry_path paths name ≡ ok (entry_file paths name)
unfolding entry_path entry_file
entry_path-eq-ok paths name h =
    let apart = name-relative name (codes ".json") (valid-ne-nil name h) (no_slash name h) in
    rw h (ap ok (join_relative _ _ apart))

in_vault : VaultPaths → Text → Text
in_vault paths part = vault_dir paths ++ (separator (vault_dir paths) ++ part)

metadata_path_lem :
    (paths : VaultPaths) → metadata_path paths ≡ in_vault paths (codes "metadata.json")
unfolding in_vault strip_prefix
metadata_path_lem paths = join_relative _ _ refl

entries_dir_lem : (paths : VaultPaths) → entries_dir paths ≡ in_vault paths (codes "entries")
unfolding in_vault strip_prefix
entries_dir_lem paths = join_relative _ _ refl

entry_file-in_vault :
    (paths : VaultPaths) (name : Text)
    → entry_file paths name
      ≡ in_vault paths
          (codes "entries" ++ (separator (entries_dir paths) ++ (name ++ codes ".json")))
unfolding entry_file in_vault
entry_file-in_vault paths name =
    ap (λ t. t ++ (separator (entries_dir paths) ++ (name ++ codes ".json")))
      (entries_dir_lem paths)
    ∙ (append_assoc (vault_dir paths) (separator (vault_dir paths) ++ codes "entries")
          (separator (entries_dir paths) ++ (name ++ codes ".json"))
        ∙ ap (λ t. vault_dir paths ++ t)
            (append_assoc (separator (vault_dir paths)) (codes "entries")
              (separator (entries_dir paths) ++ (name ++ codes ".json"))))

abbrev first : Text → ℕ
first [] = 0
first (c ∷ _) = c

pub entry_file-ne-metadata_path :
    (paths : VaultPaths) (name : Text) → entry_file paths name ≢ metadata_path paths
unfolding in_vault
entry_file-ne-metadata_path paths name e =
    let same = sym (entry_file-in_vault paths name) ∙ (e ∙ metadata_path_lem paths) in
    let tails =
      append_cancel_left (separator (vault_dir paths)) _ _
        (append_cancel_left (vault_dir paths) _ _ same) in
    absurd (let apart : 101 ≡ first (codes "metadata.json") = ap first tails in omega arith)

pub entry_file_injective :
    (paths : VaultPaths) (a b : Text) → entry_file paths a ≡ entry_file paths b → a ≡ b
unfolding entry_file
entry_file_injective paths a b e = append_cancel_right a b (codes ".json") (
    append_cancel_left (separator (entries_dir paths)) _ _
      (append_cancel_left (entries_dir paths) _ _ e))

pub text_eq-entry_file :
    (paths : VaultPaths) (a b : Text)
    → text_eq (entry_file paths a) (entry_file paths b) ≡ text_eq a b
text_eq-entry_file paths a b = ground (
  arith,
  text_eq_iff a b,
  text_eq_iff (entry_file paths a) (entry_file paths b),
  entry_file_injective paths a b,
)

-- Two entry names that pass the validation never share a file.
pub entry_path_injective :
    (paths : VaultPaths) (a b : Text)
    → validate_vault_entry_name a ≡ true
    → validate_vault_entry_name b ≡ true
    → entry_path paths a ≡ entry_path paths b
    → a ≡ b
entry_path_injective paths a b va vb e =
    entry_file_injective paths a b
      (ok_injective (sym (entry_path-eq-ok paths a va) ∙ (e ∙ entry_path-eq-ok paths b vb)))

-- The file of an entry name that passes the validation is not the metadata file.
pub entry_path-ne-metadata_path :
    (paths : VaultPaths) (name : Text)
    → validate_vault_entry_name name ≡ true
    → entry_path paths name ≢ ok (metadata_path paths)
entry_path-ne-metadata_path paths name v e =
    entry_file-ne-metadata_path paths name (ok_injective (sym (entry_path-eq-ok paths name v) ∙ e))
