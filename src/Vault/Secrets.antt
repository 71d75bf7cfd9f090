-- ===== src/Vault/Secrets.antt =====
-- Storing a secret and reading it back.
use color_ssh.Base.{
  ℕ, Text, codes, text_eq, text_eq_iff, text_eq_refl, ok, err, none, some, Bool-cases, Option-cases,
  Result-cases, is_empty_of_ne-nil, true, ◌≡◌, ◌≢◌, ◌∙◌, inl, inr, arith, ==_iff, length,
  if◌then◌else◌,
}
use color_ssh.Args.Validation.{validate_vault_entry_name}
use color_ssh.Vault.Types.{
  Bytes, VaultEntry, Crates, IsSound, entry_not_found, Env, Fills, entry_nonce_len,
}
use color_ssh.Vault.Disk.{
  Disk, read, write, read-write, read-remove, remove, entry_path, write_json_atomic,
}
use color_ssh.Vault.Keys.{decode_bytes, decode_fixed}
use color_ssh.Vault.Reading.{UnlockedVault, entry_aad, read_json, open_entry, get_secret}
use color_ssh.Vault.Writing.{new_entry, store_secret, remove_entry}
use color_ssh.Vault.EntryPaths.{
  entry_file, entry_path-eq-ok, entry_file_injective, text_eq-entry_file,
}

module _ (c : Crates) (sound : IsSound c) where
  pub decode_bytes-encode :
      (b : Bytes) (label : Text) → decode_bytes c (c.base64_encode b) label ≡ ok b
  unfolding decode_bytes
  decode_bytes-encode b label = rw (sound.base64_decode-encode b)

  pub decode_fixed-encode :
      (n : ℕ) (b : Bytes) (label : Text)
      → length b ≡ n
      → decode_fixed c n (c.base64_encode b) label ≡ ok b
  unfolding decode_fixed
  decode_fixed-encode n b label h =
      rw (decode_bytes-encode b label) (rw ((==_iff (length b) n).1 h))

  open_entry-new_entry :
      (env : Env) (key nonce cipher : Bytes) (name secret : Text)
      → length nonce ≡ entry_nonce_len
      → c.encrypt key nonce (c.as_bytes (entry_aad name)) (c.as_bytes secret) ≡ some cipher
      → open_entry c key name (new_entry c env name nonce cipher) ≡ ok secret
  unfolding open_entry
  open_entry-new_entry env key nonce cipher name secret h e =
      rw
        (
          text_eq_refl name,
          decode_fixed-encode entry_nonce_len nonce (codes "entry nonce") h,
          decode_bytes-encode cipher (codes "entry ciphertext"),
        )
        (rw (
          is_empty_of_ne-nil cipher (sound.encrypt-ne-nil _ _ _ _ _ e),
          sound.decrypt-encrypt _ _ _ _ _ e,
          sound.from_utf8-as_bytes secret,
        ))

module _ (c : Crates) (env : Env) (vault : UnlockedVault) (name secret : Text) (d : Disk) where
  -- What `store_secret` did when it reports success.
  pub record Stored : Type 0 where
    pub nonce : Bytes
    pub cipher : Bytes
    pub valid : validate_vault_entry_name name ≡ true
    pub filled : env.entry_nonce ≡ ok nonce
    pub sealed :
        c.encrypt vault.data_key nonce (c.as_bytes (entry_aad name)) (c.as_bytes secret)
        ≡ some cipher
    pub written :
        (store_secret c env vault name secret d).1
        ≡ write
            (entry_file vault.paths name)
            (c.entry_to_json (new_entry c env name nonce cipher))
            d

  pub store_secret-Stored : (store_secret c env vault name secret d).0 ≡ ok tt → Stored
  unfolding store_secret write_json_atomic
  store_secret-Stored h = elim (Result-cases env.entry_nonce) [
    | inr (text, e) ↦ absurd (ground arith)
    | inl (nonce, filled) ↦
        elim (Option-cases
          (c.encrypt vault.data_key nonce (c.as_bytes (entry_aad name)) (c.as_bytes secret))) [
            | inl e ↦ absurd (ground arith)
            | inr (cipher, sealed) ↦ record {
              nonce = nonce;
              cipher = cipher;
              valid = ground arith;
              filled = filled;
              sealed = sealed;
              written = ground (arith, entry_path-eq-ok vault.paths name);
            }
          ]
  ]

-- The file that `get_secret` reads, for a valid name.
get_secret-eq-open :
    (c : Crates) (vault : UnlockedVault) (name : Text) (d : Disk) {bytes : Bytes}
    {entry : VaultEntry}
    → validate_vault_entry_name name ≡ true
    → read (entry_file vault.paths name) d ≡ some bytes
    → c.entry_from_json bytes ≡ ok entry
    → get_secret c vault name d ≡ open_entry c vault.data_key name entry
unfolding get_secret read_json
get_secret-eq-open c vault name d v r j = rw (v, entry_path-eq-ok vault.paths name v, r, j)

-- For crates that keep their documented laws and a `random_fill` that fills its buffer: when
-- `store_secret` reports success, `get_secret` under the same name returns the stored secret.
pub get_secret-store_secret :
    (c : Crates) (sound : IsSound c) (env : Env) (vault : UnlockedVault) (name secret : Text)
    (d : Disk)
    → Fills env
    → (store_secret c env vault name secret d).0 ≡ ok tt
    → get_secret c vault name (store_secret c env vault name secret d).1 ≡ ok secret
get_secret-store_secret c sound env vault name secret d fills h =
    let s = store_secret-Stored c env vault name secret d h in
    let file = entry_file vault.paths name in
    let there = read-write file file (c.entry_to_json (new_entry c env name s.nonce s.cipher)) d in
    rw s.written (
      get_secret-eq-open c vault name _ s.valid (rw text_eq_refl at there) (sound.entry-json _)
      ∙ open_entry-new_entry c sound env vault.data_key s.nonce s.cipher name secret
          (fills.entry_nonce s.nonce s.filled) s.sealed)

-- `get_secret` of a name looks at that name's file only.
pub get_secret-cong :
    (c : Crates) (vault : UnlockedVault) (name : Text) (d d' : Disk)
    → read (entry_file vault.paths name) d ≡ read (entry_file vault.paths name) d'
    → get_secret c vault name d ≡ get_secret c vault name d'
unfolding get_secret
get_secret-cong c vault name d d' e = elim (Bool-cases (validate_vault_entry_name name)) [
  | inl v ↦ rw (v, entry_path-eq-ok vault.paths name v, e)
  | inr v ↦ rw v
]

-- Whatever its result, `store_secret` changes at most the file of its name.
pub store_secret-read :
    (c : Crates) (env : Env) (vault : UnlockedVault) (name secret path : Text) (d : Disk)
    → entry_file vault.paths name ≢ path
    → read path (store_secret c env vault name secret d).1 ≡ read path d
unfolding store_secret write_json_atomic
store_secret-read c env vault name secret path d ne = elim (Result-cases env.entry_nonce) [
  | inr (text, e) ↦ ground arith
  | inl (nonce, e) ↦
      elim (Option-cases
        (c.encrypt vault.data_key nonce (c.as_bytes (entry_aad name)) (c.as_bytes secret))) [
          | inl n ↦ ground arith
          | inr (cipher, n) ↦ ground (
            arith,
            entry_path-eq-ok vault.paths name,
            read-write (entry_file vault.paths name) path
                (c.entry_to_json (new_entry c env name nonce cipher)) d,
            text_eq_iff (entry_file vault.paths name) path,
          )
        ]
]

-- Storing under one name, with success or not, does not change what another name reads.
pub get_secret-store_secret_ne :
    (c : Crates) (env : Env) (vault : UnlockedVault) (name other secret : Text) (d : Disk)
    → name ≢ other
    → get_secret c vault other (store_secret c env vault name secret d).1
      ≡ get_secret c vault other d
get_secret-store_secret_ne c env vault name other secret d ne = get_secret-cong c vault other _ d (
    store_secret-read c env vault name secret (entry_file vault.paths other) d
      (λ e. ne (entry_file_injective vault.paths name other e)))

remove_entry-eq :
    (vault : UnlockedVault) (name : Text) (d : Disk)
    → (remove_entry vault name d).0 ≡ ok tt
    → (validate_vault_entry_name name ≡ true)
      × ((remove_entry vault name d).1 ≡ remove (entry_file vault.paths name) d)
unfolding remove_entry entry_path
remove_entry-eq vault name d h =
    let valid : validate_vault_entry_name name ≡ true = ground arith in
    (valid, ground (arith, entry_path-eq-ok vault.paths name valid))

get_secret-not_found :
    (c : Crates) (vault : UnlockedVault) (name : Text) (d : Disk)
    → validate_vault_entry_name name ≡ true
    → read (entry_file vault.paths name) d ≡ none
    → get_secret c vault name d ≡ err entry_not_found
unfolding get_secret
get_secret-not_found c vault name d v e = rw (v, entry_path-eq-ok vault.paths name v, e)

-- After a successful removal the entry is not found, and every other name reads what it did.
pub get_secret-remove_entry :
    (c : Crates) (vault : UnlockedVault) (name other : Text) (d : Disk)
    → (remove_entry vault name d).0 ≡ ok tt
    → get_secret c vault other (remove_entry vault name d).1
      ≡ (if text_eq name other then err entry_not_found else get_secret c vault other d)
get_secret-remove_entry c vault name other d h =
    let (valid, e) = remove_entry-eq vault name d h in
    let left =
      rw (text_eq-entry_file vault.paths name other) at
        (read-remove (entry_file vault.paths name) (entry_file vault.paths other) d) in
    rw e (elim (Bool-cases (text_eq name other)) [
      | inl same ↦ rw same (
          get_secret-not_found c vault other _ (rw ((text_eq_iff name other).0 same) at valid)
            (rw same at left))
      | inr apart ↦ rw apart (get_secret-cong c vault other _ d (rw apart at left))
    ])
