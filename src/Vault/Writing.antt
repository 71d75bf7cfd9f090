-- ===== src/Vault/Writing.antt =====
-- The operations that write the files: creating a vault, rotating its password, storing and
-- removing entries.
use color_ssh.Base.{Text, codes, is_empty, ok, guard, ok_or, not}
use color_ssh.Args.Validation.{validate_vault_entry_name}
use color_ssh.Vault.Types.{
  Bytes, VaultMetadata, VaultEntry, invalid_entry_name, vault_already_initialized, entry_not_found,
  invalid_master_password, encrypt_failed, Crates, Env, vault_version,
}
use color_ssh.Vault.Disk.{
  Disk, read, remove, VaultPaths, metadata_path, entry_path, Op, ◌>>=◌, ◌>>◌, lift, from_io,
  write_json_atomic,
}
use color_ssh.Vault.Keys.{random_fill, build_metadata_from_data_key}
use color_ssh.Vault.Reading.{
  UnlockedVault, is_file, entry_aad, read_json, unlock_with_password_and_paths,
}

-- The files as they are now.
abbrev pub get_disk : Op Disk
get_disk d = (ok d, d)

abbrev pub set_disk : Disk → Op Unit
set_disk d _ = (ok tt, d)

unfoldable pub remove_entry : UnlockedVault → Text → Op Unit
remove_entry vault name = do
  path ← lift (entry_path vault.paths name)
  d ← get_disk
  lift (guard (is_file path d) entry_not_found)
  set_disk (remove path d)

-- The new metadata keeps the time of creation.
abbrev pub rewrapped : Env → VaultMetadata → VaultMetadata → VaultMetadata
rewrapped env existing updated = record updated {
  created_at = existing.created_at;
  updated_at = env.now;
}

module _ (c : Crates) where
  abbrev pub new_entry : Env → Text → Bytes → Bytes → VaultEntry
  new_entry env name nonce ciphertext = record {
    version = vault_version;
    name = name;
    nonce = c.base64_encode nonce;
    ciphertext = c.base64_encode ciphertext;
    updated_at = env.now;
  }

  unfoldable pub store_secret : Env → UnlockedVault → Text → Text → Op Unit
  store_secret env vault name secret = do
    lift (guard (validate_vault_entry_name name) invalid_entry_name)
    lift (from_io env.make_layout)
    nonce ← lift (random_fill env.entry_nonce)
    ciphertext ← lift (
        ok_or (c.encrypt vault.data_key nonce (c.as_bytes (entry_aad name)) (c.as_bytes secret))
          (encrypt_failed (codes "failed to encrypt vault entry")))
    path ← lift (entry_path vault.paths name)
    write_json_atomic env path (c.entry_to_json (new_entry env name nonce ciphertext))
    lift (from_io env.protect)

  unfoldable pub initialize_vault_with_paths : Env → VaultPaths → Text → Op Unit
  initialize_vault_with_paths env paths master_password = do
    lift (guard (not (is_empty master_password)) invalid_master_password)
    d ← get_disk
    lift (guard (not (is_file (metadata_path paths) d)) vault_already_initialized)
    lift (from_io env.make_layout)
    data_key ← lift (random_fill env.data_key)
    metadata ← lift (build_metadata_from_data_key c env master_password data_key)
    write_json_atomic env (metadata_path paths) (c.metadata_to_json metadata)
    lift (from_io env.protect)

  unfoldable pub rotate_master_password_with_paths : Env → VaultPaths → Text → Text → Op Unit
  rotate_master_password_with_paths env paths current_password new_password = do
    lift (guard (not (is_empty new_password)) invalid_master_password)
    d ← get_disk
    unlocked ← lift (unlock_with_password_and_paths c paths current_password d)
    existing ← lift (read_json c.metadata_from_json (read (metadata_path paths) d))
    updated ← lift (build_metadata_from_data_key c env new_password unlocked.data_key)
    write_json_atomic env (metadata_path paths)
        (c.metadata_to_json (rewrapped env existing updated))
    lift (from_io env.protect)
