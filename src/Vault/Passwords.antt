-- ===== src/Vault/Passwords.antt =====
-- The master password: creating a vault, unlocking it, and changing the password.
use color_ssh.Base.{
  Text, codes, ok, err, some, Option-cases, Result-cases, true, ◌≡◌, ◌≢◌, sym, ap, ◌∙◌, inl, inr,
  arith, ==_iff, length, is_empty_of_ne-nil, [], text_eq_iff, text_eq_refl,
}
use color_ssh.Vault.Types.{
  Bytes, VaultMetadata, Crates, IsSound, Env, Fills, data_key_len, kdf_salt_len,
  wrapped_key_nonce_len, kdf_memory_kib, kdf_time_cost, kdf_parallelism, wrapped_key_aad,
  vault_version, vault_already_initialized,
}
use color_ssh.Vault.Disk.{
  Disk, VaultPaths, read, write, read-write, metadata_path, write_json_atomic,
}
use color_ssh.Vault.Keys.{
  decode_bytes, decode_fixed, derive_key, build_metadata_from_data_key, decrypt_wrapped_data_key,
}
use color_ssh.Vault.Reading.{
  UnlockedVault, is_file, read_json, get_secret, unlock_with_password_and_paths,
}
use color_ssh.Vault.Writing.{
  initialize_vault_with_paths, rotate_master_password_with_paths, rewrapped,
}
use color_ssh.Vault.EntryPaths.{entry_file-ne-metadata_path, entry_file}
use color_ssh.Vault.Secrets.{decode_bytes-encode, decode_fixed-encode, get_secret-cong}

module _ (c : Crates) (env : Env) (password : Text) (key : Bytes) where
  abbrev wrapped : Bytes → Bytes → Bytes → VaultMetadata
  wrapped salt nonce cipher = record {
    version = vault_version;
    kdf_salt = c.base64_encode salt;
    kdf_memory_kib = kdf_memory_kib;
    kdf_time_cost = kdf_time_cost;
    kdf_parallelism = kdf_parallelism;
    wrapped_dek_nonce = c.base64_encode nonce;
    wrapped_dek_ciphertext = c.base64_encode cipher;
    created_at = env.now;
    updated_at = env.now;
  }

  -- How metadata for a password and a key came about.
  record Built (m : VaultMetadata) : Type 0 where
    salt : Bytes
    nonce : Bytes
    wrapping_key : Bytes
    cipher : Bytes
    salted : env.kdf_salt ≡ ok salt
    filled : env.wrap_nonce ≡ ok nonce
    params : c.kdf_params kdf_memory_kib kdf_time_cost kdf_parallelism ≡ ok tt
    hashed :
        c.hash_password kdf_memory_kib kdf_time_cost kdf_parallelism (c.as_bytes password) salt
        ≡ ok wrapping_key
    sealed : c.encrypt wrapping_key nonce (c.as_bytes wrapped_key_aad) key ≡ some cipher
    is : m ≡ wrapped salt nonce cipher

  build-Built :
      (m : VaultMetadata) → build_metadata_from_data_key c env password key ≡ ok m → Built m
  unfolding build_metadata_from_data_key derive_key
  build-Built m h = elim (Result-cases env.kdf_salt) [
    | inr (text, e) ↦ absurd (ground arith)
    | inl (salt, salted) ↦ elim (Result-cases env.wrap_nonce) [
      | inr (text, e) ↦ absurd (ground arith)
      | inl (nonce, filled) ↦
          elim (Result-cases (
            c.hash_password kdf_memory_kib kdf_time_cost kdf_parallelism (c.as_bytes password)
              salt)) [
                | inr (text, e) ↦ absurd (ground arith)
                | inl (wrapping_key, hashed) ↦
                    elim (Option-cases
                      (c.encrypt wrapping_key nonce (c.as_bytes wrapped_key_aad) key)) [
                        | inl e ↦ absurd (ground arith)
                        | inr (cipher, sealed) ↦ record {
                          salt = salt;
                          nonce = nonce;
                          wrapping_key = wrapping_key;
                          cipher = cipher;
                          salted = salted;
                          filled = filled;
                          params = ground arith;
                          hashed = hashed;
                          sealed = sealed;
                          is = ground arith;
                        }
                      ]
              ]
    ]
  ]

-- Metadata built for a password unwraps, under that password, to the key that was wrapped; the
-- two times in it do not matter.
decrypt-Built :
    (c : Crates) (sound : IsSound c) (env : Env) (password : Text) (key : Bytes) (m : VaultMetadata)
    (created updated : Text)
    → Fills env
    → length key ≡ data_key_len
    → Built c env password key m
    → decrypt_wrapped_data_key c password (record m { created_at = created; updated_at = updated })
      ≡ ok key
unfolding decrypt_wrapped_data_key
decrypt-Built c sound env password key m created updated fills len b = rw b.is (
    rw
      (
        decode_fixed-encode c sound kdf_salt_len b.salt (codes "KDF salt")
            (fills.kdf_salt b.salt b.salted),
        decode_fixed-encode c sound wrapped_key_nonce_len b.nonce (codes "wrapped DEK nonce")
            (fills.wrap_nonce b.nonce b.filled),
        decode_bytes-encode c sound b.cipher (codes "wrapped DEK ciphertext"),
        b.params,
        b.hashed,
        sound.decrypt-encrypt _ _ _ _ _ b.sealed,
      )
      (rw ((==_iff (length key) data_key_len).1 len)))

-- Unlocking computes to unwrapping, where the metadata file is there and parses.
unlock-eq :
    (c : Crates) (paths : VaultPaths) (password : Text) (d : Disk) {bytes : Bytes}
    {m : VaultMetadata} {key : Bytes}
    → password ≢ []
    → read (metadata_path paths) d ≡ some bytes
    → c.metadata_from_json bytes ≡ ok m
    → decrypt_wrapped_data_key c password m ≡ ok key
    → unlock_with_password_and_paths c paths password d
      ≡ ok (record { paths = paths; data_key = key })
unfolding unlock_with_password_and_paths read_json
unlock-eq c paths password d ne r j k = rw (is_empty_of_ne-nil password ne, r, j, k)

read_written :
    (path : Text) (bytes : Bytes) (d : Disk) → read path (write path bytes d) ≡ some bytes
read_written path bytes d = rw text_eq_refl at (read-write path path bytes d)

-- When `initialize_vault` reports success, the given master password unlocks the vault that it
-- left, with the data key that was drawn.
pub unlock-initialize :
    (c : Crates) (sound : IsSound c) (env : Env) (paths : VaultPaths) (password : Text) (d : Disk)
    → Fills env
    → (initialize_vault_with_paths c env paths password d).0 ≡ ok tt
    → (key : Bytes) × (env.data_key ≡ ok key)
      × (unlock_with_password_and_paths c paths password
            (initialize_vault_with_paths c env paths password d).1
          ≡ ok (record { paths = paths; data_key = key }))
unfolding initialize_vault_with_paths write_json_atomic
unlock-initialize c sound env paths password d fills h = elim (Result-cases env.data_key) [
  | inr (text, e) ↦ absurd (ground arith)
  | inl (key, drawn) ↦ elim (Result-cases (build_metadata_from_data_key c env password key)) [
    | inr (e, built) ↦ absurd (ground arith)
    | inl (m, built) ↦
        let written : (initialize_vault_with_paths c env paths password d).1
            ≡ write (metadata_path paths) (c.metadata_to_json m) d =
          ground arith in
        let ne : password ≢ [] = ground arith in
        (
          key,
          drawn,
          rw written (
              unlock-eq c paths password _ ne (read_written _ _ d) (sound.metadata-json m) (
                decrypt-Built c sound env password key m m.created_at m.updated_at fills
                  (fills.data_key key drawn) (build-Built c env password key m built))),
        )
  ]
]

-- An initialised vault is not initialised again: the call reports it and changes no file.
pub initialize_again :
    (c : Crates) (env : Env) (paths : VaultPaths) (password : Text) (d : Disk)
    → password ≢ []
    → is_file (metadata_path paths) d ≡ true
    → initialize_vault_with_paths c env paths password d ≡ (err vault_already_initialized, d)
unfolding initialize_vault_with_paths
initialize_again c env paths password d ne h = rw (is_empty_of_ne-nil password ne, h)

-- The facts behind a successful rotation.
record Rotated (c : Crates) (env : Env) (paths : VaultPaths) (current new : Text) (d : Disk)
    : Type 0 where
  vault : UnlockedVault
  existing : VaultMetadata
  updated : VaultMetadata
  not_empty : new ≢ []
  unlocked : unlock_with_password_and_paths c paths current d ≡ ok vault
  built : build_metadata_from_data_key c env new vault.data_key ≡ ok updated
  written :
      (rotate_master_password_with_paths c env paths current new d).1
      ≡ write (metadata_path paths) (c.metadata_to_json (rewrapped env existing updated)) d

rotate-Rotated :
    (c : Crates) (env : Env) (paths : VaultPaths) (current new : Text) (d : Disk)
    → (rotate_master_password_with_paths c env paths current new d).0 ≡ ok tt
    → Rotated c env paths current new d
unfolding rotate_master_password_with_paths write_json_atomic
rotate-Rotated c env paths current new d h =
    elim (Result-cases (unlock_with_password_and_paths c paths current d)) [
      | inr (e, p) ↦ absurd (ground arith)
      | inl (vault, unlocked) ↦
          elim (Result-cases (read_json c.metadata_from_json (read (metadata_path paths) d))) [
            | inr (e, p) ↦ absurd (ground arith)
            | inl (existing, p) ↦
                elim (Result-cases (build_metadata_from_data_key c env new vault.data_key)) [
                  | inr (e, q) ↦ absurd (ground arith)
                  | inl (updated, built) ↦ record {
                    vault = vault;
                    existing = existing;
                    updated = updated;
                    not_empty = ground arith;
                    unlocked = unlocked;
                    built = built;
                    written = ground arith;
                  }
                ]
          ]
    ]

decrypt-length :
    (c : Crates) (password : Text) (m : VaultMetadata) (key : Bytes)
    → decrypt_wrapped_data_key c password m ≡ ok key
    → length key ≡ data_key_len
unfolding decrypt_wrapped_data_key decode_fixed decode_bytes
decrypt-length c password m key h = ground arith

-- An unlocked data key has the cipher's length.
unlocked-length :
    (c : Crates) (paths : VaultPaths) (password : Text) (d : Disk) (vault : UnlockedVault)
    → unlock_with_password_and_paths c paths password d ≡ ok vault
    → (length vault.data_key ≡ data_key_len) × (vault.paths ≡ paths)
unfolding unlock_with_password_and_paths
unlocked-length c paths password d vault h =
    elim (Result-cases (read_json c.metadata_from_json (read (metadata_path paths) d))) [
      | inr (e, p) ↦ absurd (ground arith)
      | inl (m, p) ↦ ground (arith, decrypt-length c password m vault.data_key)
    ]

read-metadata_written :
    (paths : VaultPaths) (name : Text) (bytes : Bytes) (d : Disk)
    → read (entry_file paths name) (write (metadata_path paths) bytes d)
      ≡ read (entry_file paths name) d
read-metadata_written paths name bytes d = ground (
  arith,
  read-write (metadata_path paths) (entry_file paths name) bytes d,
  text_eq_iff (metadata_path paths) (entry_file paths name),
  entry_file-ne-metadata_path paths name,
)

-- When a rotation reports success, the current password unlocked some vault, the new password
-- unlocks the same one from the files that the rotation left, and in it every name reads as before.
pub unlock-rotate :
    (c : Crates) (sound : IsSound c) (env : Env) (paths : VaultPaths) (current new name : Text)
    (d : Disk)
    → Fills env
    → (rotate_master_password_with_paths c env paths current new d).0 ≡ ok tt
    → let after = (rotate_master_password_with_paths c env paths current new d).1 in
      (vault : UnlockedVault) × (unlock_with_password_and_paths c paths current d ≡ ok vault)
      × (unlock_with_password_and_paths c paths new after ≡ ok vault)
      × (get_secret c vault name after ≡ get_secret c vault name d)
unlock-rotate c sound env paths current new name d fills h =
    let r = rotate-Rotated c env paths current new d h in
    let (len, same) = unlocked-length c paths current d r.vault r.unlocked in
    let opened = unlock-eq c paths new _ r.not_empty (read_written _ _ d) (sound.metadata-json _) (
      decrypt-Built c sound env new r.vault.data_key r.updated r.existing.created_at env.now fills
        len (build-Built c env new r.vault.data_key r.updated r.built)) in
    (
      r.vault,
      r.unlocked,
      rw r.written
          (opened ∙ ap (λ p. ok (record { paths = p; data_key = r.vault.data_key })) (sym same)),
      rw r.written
          (get_secret-cong c r.vault name _ d (rw same (read-metadata_written paths name _ d))),
    )
