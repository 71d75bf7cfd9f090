-- ===== src/Vault/Types.antt =====
-- The vault's data, its errors, and what it takes from other crates.
use color_ssh.Base.{ℕ, Text, codes, Result, ok, Option, some, List, [], ◌++◌, ◌≡◌, ◌≢◌, length}

abbrev pub Bytes : Type 0
Bytes = List ℕ

abbrev pub vault_version : ℕ
vault_version = 1

abbrev pub data_key_len : ℕ
data_key_len = 32

abbrev pub kdf_salt_len : ℕ
kdf_salt_len = 16

abbrev pub wrapped_key_nonce_len : ℕ
wrapped_key_nonce_len = 24

abbrev pub entry_nonce_len : ℕ
entry_nonce_len = 24

abbrev pub kdf_memory_kib : ℕ
kdf_memory_kib = 65536

abbrev pub kdf_time_cost : ℕ
kdf_time_cost = 3

abbrev pub kdf_parallelism : ℕ
kdf_parallelism = 1

abbrev pub wrapped_key_aad : Text
wrapped_key_aad = codes "color-ssh/vault-metadata/v1"

abbrev pub entry_aad_prefix : Text
entry_aad_prefix = codes "color-ssh/vault-entry/v1:"

pub record VaultMetadata : Type 0 where
  pub version : ℕ
  pub kdf_salt : Text
  pub kdf_memory_kib : ℕ
  pub kdf_time_cost : ℕ
  pub kdf_parallelism : ℕ
  pub wrapped_dek_nonce : Text
  pub wrapped_dek_ciphertext : Text
  pub created_at : Text
  pub updated_at : Text

pub record VaultEntry : Type 0 where
  pub version : ℕ
  pub name : Text
  pub nonce : Text
  pub ciphertext : Text
  pub updated_at : Text

pub data VaultError : Type 0 where
  missing_home_directory invalid_entry_name vault_already_initialized : VaultError
  vault_not_initialized entry_not_found invalid_master_password : VaultError
  invalid_vault_format encrypt_failed io : Text → VaultError

-- `Display`
pub message : VaultError → Text
message missing_home_directory = codes "could not determine home directory"
message invalid_entry_name =
    codes "invalid pass entry name; use only letters, numbers, '.', '_' or '-'"
message vault_already_initialized = codes "password vault is already initialized"
message vault_not_initialized = codes "password vault is not initialized"
message entry_not_found = codes "password vault entry was not found"
message invalid_master_password = codes "invalid master password"
message (invalid_vault_format text) = codes "invalid vault data: " ++ text
message (encrypt_failed text) = codes "vault encryption failed: " ++ text
message (io text) = text

-- Argon2id, XChaCha20-Poly1305, base64, UTF-8 and JSON, as the code calls them. Where the code
-- shows an error's text, the call gives that text.
pub record Crates : Type 0 where
  -- `Params::new`: memory, time cost and parallelism
  pub kdf_params : ℕ → ℕ → ℕ → Result Text (Unit {0})
  -- `hash_password_into` under these parameters: password, salt
  pub hash_password : ℕ → ℕ → ℕ → Bytes → Bytes → Result Text Bytes
  -- key, nonce, associated data, text
  pub encrypt : Bytes → Bytes → Bytes → Bytes → Option Bytes
  pub decrypt : Bytes → Bytes → Bytes → Bytes → Option Bytes
  pub base64_encode : Bytes → Text
  pub base64_decode : Text → Result Text Bytes
  pub as_bytes : Text → Bytes
  pub from_utf8 : Bytes → Option Text
  pub metadata_to_json : VaultMetadata → Bytes
  pub metadata_from_json : Bytes → Result Text VaultMetadata
  pub entry_to_json : VaultEntry → Bytes
  pub entry_from_json : Bytes → Result Text VaultEntry

-- Their documented behaviour: decoding inverts encoding, decryption under the same key, nonce and
-- associated data inverts encryption, and a ciphertext carries its tag.
pub record IsSound (c : Crates) : Type 0 where
  pub decrypt-encrypt :
      (key nonce aad text cipher : Bytes)
      → c.encrypt key nonce aad text ≡ some cipher
      → c.decrypt key nonce aad cipher ≡ some text
  pub encrypt-ne-nil :
      (key nonce aad text cipher : Bytes) → c.encrypt key nonce aad text ≡ some cipher → cipher ≢ []
  pub base64_decode-encode : (bytes : Bytes) → c.base64_decode (c.base64_encode bytes) ≡ ok bytes
  pub from_utf8-as_bytes : (text : Text) → c.from_utf8 (c.as_bytes text) ≡ some text
  pub metadata-json : (m : VaultMetadata) → c.metadata_from_json (c.metadata_to_json m) ≡ ok m
  pub entry-json : (e : VaultEntry) → c.entry_from_json (c.entry_to_json e) ≡ ok e

-- What one operation finds outside the disk: the outcomes of `random_fill`, of the file system
-- calls, and the clock's text.
pub record Env : Type 0 where
  pub data_key : Result Text Bytes
  pub kdf_salt : Result Text Bytes
  pub wrap_nonce : Result Text Bytes
  pub entry_nonce : Result Text Bytes
  pub now : Text
  pub make_layout : Result Text (Unit {0})
  pub write : Result Text (Unit {0})
  pub protect : Result Text (Unit {0})

-- `random_fill` fills the whole of its buffer.
pub record Fills (env : Env) : Type 0 where
  pub data_key : (b : Bytes) → env.data_key ≡ ok b → length b ≡ data_key_len
  pub kdf_salt : (b : Bytes) → env.kdf_salt ≡ ok b → length b ≡ kdf_salt_len
  pub wrap_nonce : (b : Bytes) → env.wrap_nonce ≡ ok b → length b ≡ wrapped_key_nonce_len
  pub entry_nonce : (b : Bytes) → env.entry_nonce ≡ ok b → length b ≡ entry_nonce_len
