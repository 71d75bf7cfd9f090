-- ===== src/Vault/Keys.antt =====
-- Wrapping the data key under the master password, and unwrapping it.
use color_ssh.Base.{
  ℕ, Text, codes, Result, ok, err, ◌>>=◌, ◌>>◌, guard, ok_or, ◌++◌, ◌==◌, not, ◌||◌, length,
}
use color_ssh.Vault.Types.{
  Bytes, VaultMetadata, VaultError, invalid_vault_format, encrypt_failed, invalid_master_password,
  Crates, Env, vault_version, data_key_len, kdf_salt_len, wrapped_key_nonce_len, kdf_memory_kib,
  kdf_time_cost, kdf_parallelism, wrapped_key_aad,
}

-- `map_err(|err| make(format!("{context}: {err}")))`
abbrev pub in_context :
    {A : Type 0} → (Text → VaultError) → Text → Result Text A → Result VaultError A
in_context make context (ok a) = ok a
in_context make context (err text) = err (make (context ++ codes ": " ++ text))

abbrev pub random_fill : Result Text Bytes → Result VaultError Bytes
random_fill r = in_context encrypt_failed (codes "secure random generation failed") r

module _ (c : Crates) where
  unfoldable pub decode_bytes : Text → Text → Result VaultError Bytes
  decode_bytes encoded label =
      in_context invalid_vault_format (codes "failed to decode " ++ label) (c.base64_decode encoded)

  unfoldable pub decode_fixed : ℕ → Text → Text → Result VaultError Bytes
  decode_fixed n encoded label = do
    decoded ← decode_bytes encoded label
    guard (length decoded == n) (invalid_vault_format (label ++ codes " had the wrong length"))
    ok decoded

  unfoldable pub derive_key : Bytes → Bytes → Result VaultError Bytes
  derive_key passphrase salt = do
    in_context encrypt_failed (codes "invalid KDF parameters")
        (c.kdf_params kdf_memory_kib kdf_time_cost kdf_parallelism)
    in_context encrypt_failed (codes "failed to derive encryption key")
        (c.hash_password kdf_memory_kib kdf_time_cost kdf_parallelism passphrase salt)

  -- The cipher of a 32-byte key always exists, so `new_from_slice` has no error here.
  unfoldable pub build_metadata_from_data_key : Env → Text → Bytes → Result VaultError VaultMetadata
  build_metadata_from_data_key env master_password data_key = do
    salt ← random_fill env.kdf_salt
    nonce ← random_fill env.wrap_nonce
    wrapping_key ← derive_key (c.as_bytes master_password) salt
    ciphertext ←
        ok_or (c.encrypt wrapping_key nonce (c.as_bytes wrapped_key_aad) data_key)
          (encrypt_failed (codes "failed to wrap data key"))
    ok (record {
      version = vault_version;
      kdf_salt = c.base64_encode salt;
      kdf_memory_kib = kdf_memory_kib;
      kdf_time_cost = kdf_time_cost;
      kdf_parallelism = kdf_parallelism;
      wrapped_dek_nonce = c.base64_encode nonce;
      wrapped_dek_ciphertext = c.base64_encode ciphertext;
      created_at = env.now;
      updated_at = env.now;
    })

  -- `map_err(|_| VaultError::InvalidMasterPassword)` on the hash
  unfoldable pub hash_or_invalid : Result Text Bytes → Result VaultError Bytes
  hash_or_invalid (ok key) = ok key
  hash_or_invalid (err text) = err invalid_master_password

  unfoldable pub decrypt_wrapped_data_key : Text → VaultMetadata → Result VaultError Bytes
  unfolding hash_or_invalid
  decrypt_wrapped_data_key master_password metadata = do
    guard (metadata.version == vault_version)
        (invalid_vault_format (codes "unsupported vault version"))
    guard
        (not (
          metadata.kdf_memory_kib == 0
          || metadata.kdf_time_cost == 0
          || metadata.kdf_parallelism == 0))
        (invalid_vault_format (codes "invalid KDF parameters"))
    salt ← decode_fixed kdf_salt_len metadata.kdf_salt (codes "KDF salt")
    nonce ←
        decode_fixed wrapped_key_nonce_len metadata.wrapped_dek_nonce (codes "wrapped DEK nonce")
    ciphertext ← decode_bytes metadata.wrapped_dek_ciphertext (codes "wrapped DEK ciphertext")
    in_context invalid_vault_format (codes "invalid KDF parameters")
        (c.kdf_params metadata.kdf_memory_kib metadata.kdf_time_cost metadata.kdf_parallelism)
    wrapping_key ← hash_or_invalid (
        c.hash_password metadata.kdf_memory_kib metadata.kdf_time_cost metadata.kdf_parallelism
          (c.as_bytes master_password) salt)
    plaintext ←
        ok_or (c.decrypt wrapping_key nonce (c.as_bytes wrapped_key_aad) ciphertext)
          invalid_master_password
    guard (length plaintext == data_key_len)
        (invalid_vault_format (codes "wrapped DEK plaintext had the wrong length"))
    ok plaintext
