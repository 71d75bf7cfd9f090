-- ===== src/Vault/Reading.antt =====
-- The operations that only read the files: unlocking, entry lookup and decryption.
use color_ssh.Base.{
  Text, codes, is_empty, text_eq, Result, ok, err, ◌>>=◌, ◌>>◌, guard, ok_or, Option, none, some,
  Bool, true, false, not, ◌++◌, ◌==◌,
}
use color_ssh.Args.Validation.{validate_vault_entry_name}
use color_ssh.Vault.Types.{
  Bytes, VaultEntry, VaultError, invalid_entry_name, vault_not_initialized, entry_not_found,
  invalid_master_password, invalid_vault_format, io, Crates, vault_version, entry_nonce_len,
  entry_aad_prefix,
}
use color_ssh.Vault.Disk.{Disk, read, VaultPaths, metadata_path, entry_path}
use color_ssh.Vault.Keys.{decode_bytes, decode_fixed, decrypt_wrapped_data_key}

pub record UnlockedVault : Type 0 where
  pub paths : VaultPaths
  pub data_key : Bytes

abbrev is_some : {A : Type 0} → Option A → Bool
is_some none = false
is_some (some _) = true

-- `is_file` and `exists`: `Disk` holds regular files only.
abbrev pub is_file : Text → Disk → Bool
is_file path d = is_some (read path d)

unfoldable pub entry_aad : Text → Text
entry_aad name = entry_aad_prefix ++ name

unfoldable pub parse_json : {A : Type 0} → Result Text A → Result VaultError A
parse_json (ok a) = ok a
parse_json (err text) = err (invalid_vault_format (codes "failed to parse JSON: " ++ text))

-- `fs::read` fails on a missing file with the system's error.
unfoldable pub read_json :
    {A : Type 0} → (Bytes → Result Text A) → Option Bytes → Result VaultError A
unfolding parse_json
read_json parse none = err (io (codes "No such file or directory (os error 2)"))
read_json parse (some bytes) = parse_json (parse bytes)

unfoldable pub entry_exists_with_paths : VaultPaths → Text → Disk → Result VaultError Bool
entry_exists_with_paths paths name d = do
  guard (validate_vault_entry_name name) invalid_entry_name
  guard (is_file (metadata_path paths) d) vault_not_initialized
  path ← entry_path paths name
  ok (is_file path d)

module _ (c : Crates) where
  unfoldable pub unlock_with_password_and_paths :
      VaultPaths → Text → Disk → Result VaultError UnlockedVault
  unlock_with_password_and_paths paths master_password d = do
    guard (not (is_empty master_password)) invalid_master_password
    guard (is_file (metadata_path paths) d) vault_not_initialized
    metadata ← read_json c.metadata_from_json (read (metadata_path paths) d)
    data_key ← decrypt_wrapped_data_key c master_password metadata
    ok (record { paths = paths; data_key = data_key })

  -- The part of `get_secret` behind the reading of the file.
  unfoldable pub open_entry : Bytes → Text → VaultEntry → Result VaultError Text
  open_entry data_key name entry = do
    guard (entry.version == vault_version)
        (invalid_vault_format (codes "unsupported entry version"))
    guard (text_eq entry.name name)
        (invalid_vault_format (codes "entry name did not match file name"))
    nonce ← decode_fixed c entry_nonce_len entry.nonce (codes "entry nonce")
    ciphertext ← decode_bytes c entry.ciphertext (codes "entry ciphertext")
    guard (not (is_empty ciphertext)) (invalid_vault_format (codes "entry ciphertext was empty"))
    plaintext ←
        ok_or (c.decrypt data_key nonce (c.as_bytes (entry_aad name)) ciphertext)
          invalid_master_password
    ok_or (c.from_utf8 plaintext)
        (invalid_vault_format (codes "entry plaintext was not valid UTF-8"))

  unfoldable pub get_secret : UnlockedVault → Text → Disk → Result VaultError Text
  get_secret vault name d = do
    guard (validate_vault_entry_name name) invalid_entry_name
    path ← entry_path vault.paths name
    guard (is_file path d) entry_not_found
    entry ← read_json c.entry_from_json (read path d)
    open_entry vault.data_key name entry
