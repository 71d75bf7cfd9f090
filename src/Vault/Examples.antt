-- ===== src/Vault/Examples.antt =====
-- A toy instance of the crates, which keeps their laws, and the vault's theorems at it.
use color_ssh.Base.{
  ℕ, Text, codes, ok_injective, length-replicate, take, drop, take-append, drop-append, replicate,
  length, Result, ok, err, none, is_ascii_alphanumeric, join, strip_prefix, separator, some, Option,
  [], ◌∷◌, ◌++◌, ◌≡◌, ◌≢◌, refl, ap₂, ne_of_text_eq,
}
use color_ssh.Vault.Types.{
  Bytes, VaultMetadata, VaultEntry, Crates, IsSound, Env, Fills, entry_not_found,
}
use color_ssh.Args.Validation.{validate_vault_entry_name}
use color_ssh.Vault.Disk.{Disk, VaultPaths, entry_path, write_json_atomic, read, write, remove}
use color_ssh.Vault.Keys.{
  derive_key, build_metadata_from_data_key, decrypt_wrapped_data_key, decode_fixed, decode_bytes,
}
use color_ssh.Vault.Reading.{
  UnlockedVault, get_secret, read_json, open_entry, unlock_with_password_and_paths,
}
use color_ssh.Vault.Writing.{
  store_secret, remove_entry, initialize_vault_with_paths, rotate_master_password_with_paths,
}
use color_ssh.Vault.Secrets.{
  get_secret-store_secret, get_secret-store_secret_ne, get_secret-remove_entry,
}
use color_ssh.Vault.EntryPaths.{entry_path_injective}
use color_ssh.Vault.Passwords.{unlock-initialize, unlock-rotate}

-- Length-prefixed fields.
unfoldable pub frame : Text → Bytes → Bytes
frame s rest = length s ∷ (s ++ rest)

unfoldable pub unframe : Bytes → Text × Bytes
unframe [] = ([], [])
unframe (n ∷ rest) = (take n rest, drop n rest)

unframe-frame : (s : Text) (rest : Bytes) → unframe (frame s rest) ≡ (s, rest)
unfolding frame unframe
unframe-frame s rest = ap₂ (λ a b. (a, b)) (take-append s rest) (drop-append s rest)

unfoldable pub metadata_bytes : VaultMetadata → Bytes
unfolding frame
metadata_bytes m =
    m.version
    ∷ m.kdf_memory_kib
    ∷ m.kdf_time_cost
    ∷ m.kdf_parallelism
    ∷ frame m.kdf_salt (
        frame m.wrapped_dek_nonce
          (frame m.wrapped_dek_ciphertext (frame m.created_at (frame m.updated_at []))))

unfoldable pub metadata_of : Bytes → Result Text VaultMetadata
unfolding unframe
metadata_of (v ∷ mem ∷ time ∷ par ∷ r) =
    let (salt, r₁) = unframe r in
    let (nonce, r₂) = unframe r₁ in
    let (cipher, r₃) = unframe r₂ in
    let (created, r₄) = unframe r₃ in
    let (updated, r₅) = unframe r₄ in
    ok (record {
      version = v;
      kdf_salt = salt;
      kdf_memory_kib = mem;
      kdf_time_cost = time;
      kdf_parallelism = par;
      wrapped_dek_nonce = nonce;
      wrapped_dek_ciphertext = cipher;
      created_at = created;
      updated_at = updated;
    })
metadata_of _ = err (codes "short")

unfoldable pub entry_bytes : VaultEntry → Bytes
unfolding frame
entry_bytes e =
    e.version ∷ frame e.name (frame e.nonce (frame e.ciphertext (frame e.updated_at [])))

unfoldable pub entry_of : Bytes → Result Text VaultEntry
unfolding unframe
entry_of [] = err (codes "short")
entry_of (v ∷ r) =
    let (name, r₁) = unframe r in
    let (nonce, r₂) = unframe r₁ in
    let (cipher, r₃) = unframe r₂ in
    let (updated, r₄) = unframe r₃ in
    ok (record {
      version = v;
      name = name;
      nonce = nonce;
      ciphertext = cipher;
      updated_at = updated;
    })

unfoldable pub toy_decrypt : Bytes → Option Bytes
toy_decrypt [] = none
toy_decrypt (_ ∷ text) = some text

abbrev pub toy : Crates
toy = record {
  kdf_params = λ m t p. ok tt;
  hash_password = λ m t p password salt. ok (password ++ salt);
  encrypt = λ key nonce aad text. some (7 ∷ text);
  decrypt = λ key nonce aad cipher. toy_decrypt cipher;
  base64_encode = λ b. b;
  base64_decode = λ t. ok t;
  as_bytes = λ t. t;
  from_utf8 = λ b. some b;
  metadata_to_json = metadata_bytes;
  metadata_from_json = metadata_of;
  entry_to_json = entry_bytes;
  entry_from_json = entry_of;
}

metadata_of-bytes : (m : VaultMetadata) → metadata_of (metadata_bytes m) ≡ ok m
unfolding metadata_of metadata_bytes
metadata_of-bytes m = simp (take-append, drop-append)

entry_of-bytes : (e : VaultEntry) → entry_of (entry_bytes e) ≡ ok e
unfolding entry_of entry_bytes
entry_of-bytes e = simp (take-append, drop-append)

decrypt_of_sealed :
    (text cipher : Bytes) → some (7 ∷ text) ≡ some cipher → toy_decrypt cipher ≡ some text
unfolding toy_decrypt
decrypt_of_sealed text [] h = cc
decrypt_of_sealed text (c ∷ cipher) h = cc

sealed-ne-nil : (text cipher : Bytes) → some (7 ∷ text) ≡ some cipher → cipher ≢ []
sealed-ne-nil text [] h e = cc
sealed-ne-nil text (c ∷ cipher) h e = cc

toy-IsSound : IsSound toy
toy-IsSound = record {
  decrypt-encrypt = λ key nonce aad text cipher h. decrypt_of_sealed text cipher h;
  encrypt-ne-nil = λ key nonce aad text cipher h. sealed-ne-nil text cipher h;
  base64_decode-encode = λ b. refl;
  from_utf8-as_bytes = λ t. refl;
  metadata-json = metadata_of-bytes;
  entry-json = entry_of-bytes;
}

abbrev calm : Env
calm = record {
  data_key = ok (replicate 32 5);
  kdf_salt = ok (replicate 16 6);
  wrap_nonce = ok (replicate 24 8);
  entry_nonce = ok (replicate 24 9);
  now = codes "2026-01-01";
  make_layout = ok tt;
  write = ok tt;
  protect = ok tt;
}

ok_length :
    (n a : ℕ) (b : Bytes) → ◌≡◌ {A = Result Text Bytes} (ok (replicate n a)) (ok b) → length b ≡ n
ok_length n a b h = rw (← ok_injective h) (length-replicate n a)

calm-Fills : Fills calm
calm-Fills = record {
  data_key = λ b h. ok_length 32 5 b h;
  kdf_salt = λ b h. ok_length 16 6 b h;
  wrap_nonce = λ b h. ok_length 24 8 b h;
  entry_nonce = λ b h. ok_length 24 9 b h;
}

abbrev pub home : VaultPaths
home = record { base_dir = codes "/home/u/.color-ssh" }

abbrev vault : UnlockedVault
vault = record { paths = home; data_key = replicate 32 5 }

-- All that a run of the vault's operations computes with.
unfoldable pub running : Unit {0}
unfolding store_secret remove_entry initialize_vault_with_paths rotate_master_password_with_paths
    get_secret read_json open_entry unlock_with_password_and_paths derive_key
    build_metadata_from_data_key decrypt_wrapped_data_key decode_fixed decode_bytes entry_path
    write_json_atomic read write remove validate_vault_entry_name is_ascii_alphanumeric join
    strip_prefix separator metadata_bytes metadata_of entry_bytes entry_of toy_decrypt
running = tt

abbrev stored : Disk
stored = (store_secret toy calm vault (codes "fw") (codes "s3cret") []).1

get_secret-store_secret_example : get_secret toy vault (codes "fw") stored ≡ ok (codes "s3cret")
unfolding running
get_secret-store_secret_example =
    get_secret-store_secret toy toy-IsSound calm vault (codes "fw") (codes "s3cret") [] calm-Fills
      refl

get_secret-store_secret_ne_example :
    get_secret toy vault
      (codes "fw")
      (store_secret toy calm vault (codes "sw") (codes "other") stored).1
    ≡ get_secret toy vault (codes "fw") stored
get_secret-store_secret_ne_example =
    get_secret-store_secret_ne toy calm vault (codes "sw") (codes "fw") (codes "other") stored
      (ne_of_text_eq (codes "sw") (codes "fw") refl)

get_secret-remove_entry_example :
    get_secret toy vault (codes "fw") (remove_entry vault (codes "fw") stored).1
    ≡ err entry_not_found
unfolding running
get_secret-remove_entry_example =
    get_secret-remove_entry toy vault (codes "fw") (codes "fw") stored refl

abbrev created : Disk
created = (initialize_vault_with_paths toy calm home (codes "pw") []).1

-- A vault with a password and one entry.
abbrev pub filled : Disk
filled = (store_secret toy calm vault (codes "fw") (codes "s3cret") created).1

unlock-initialize_example :
    (key : Bytes) × (calm.data_key ≡ ok key)
    × (unlock_with_password_and_paths toy home (codes "pw") created
        ≡ ok (record { paths = home; data_key = key }))
unfolding running
unlock-initialize_example =
    unlock-initialize toy toy-IsSound calm home (codes "pw") [] calm-Fills refl

unlock-rotate_example :
    let after =
      (rotate_master_password_with_paths toy calm home (codes "pw") (codes "new") created).1 in
    (v : UnlockedVault) × (unlock_with_password_and_paths toy home (codes "pw") created ≡ ok v)
    × (unlock_with_password_and_paths toy home (codes "new") after ≡ ok v)
    × (get_secret toy v (codes "fw") after ≡ get_secret toy v (codes "fw") created)
unfolding running
unlock-rotate_example =
    unlock-rotate toy toy-IsSound calm home (codes "pw") (codes "new") (codes "fw") created
      calm-Fills refl

entry_path_injective_example : codes "fw" ≡ codes "fw"
unfolding running
entry_path_injective_example = entry_path_injective home (codes "fw") (codes "fw") refl refl refl
