-- ===== src/Vault/Disk.antt =====
-- The vault's files and their paths, and operations that read and write them and may fail.
use color_ssh.Base.{
  Text, codes, text_eq, text_eq_iff, if◌then◌else◌, join, Result, ok, err, Option, none, some, List,
  [], ◌∷◌, ◌++◌, ◌≡◌, refl, arith,
}
use color_ssh.Args.Validation.{validate_vault_entry_name}
use color_ssh.Vault.Types.{Bytes, VaultError, invalid_entry_name, io, Env}

-- The regular files, by path.
abbrev pub Disk : Type 0
Disk = List (Text × Bytes)

unfoldable pub read : Text → Disk → Option Bytes
read path [] = none
read path ((p, b) ∷ d) = if text_eq p path then some b else read path d

unfoldable pub write : Text → Bytes → Disk → Disk
write path b [] = (path, b) ∷ []
write path b ((p, a) ∷ d) = if text_eq p path then (path, b) ∷ d else (p, a) ∷ write path b d

unfoldable pub remove : Text → Disk → Disk
remove path [] = []
remove path ((p, a) ∷ d) =
    let rest = remove path d in if text_eq p path then rest else (p, a) ∷ rest

module _ (path other : Text) where
  pub read-write :
      (b : Bytes) (d : Disk)
      → read other (write path b d) ≡ (if text_eq path other then some b else read other d)
  unfolding read write
  read-write b [] = refl
  read-write b ((p, a) ∷ d) =
      ground
        (arith, text_eq_iff path other, text_eq_iff p path, text_eq_iff p other, read-write b d)

  pub read-remove :
      (d : Disk) → read other (remove path d) ≡ (if text_eq path other then none else read other d)
  unfolding read remove
  read-remove [] = ground arith
  read-remove ((p, a) ∷ d) =
      ground (arith, text_eq_iff path other, text_eq_iff p path, text_eq_iff p other, read-remove d)

-- `VaultPaths`, by its base directory.
pub record VaultPaths : Type 0 where
  pub base_dir : Text

abbrev pub vault_dir : VaultPaths → Text
vault_dir paths = join paths.base_dir (codes "vault")

abbrev pub metadata_path : VaultPaths → Text
metadata_path paths = join (vault_dir paths) (codes "metadata.json")

abbrev pub entries_dir : VaultPaths → Text
entries_dir paths = join (vault_dir paths) (codes "entries")

unfoldable pub entry_path : VaultPaths → Text → Result VaultError Text
entry_path paths name =
    if validate_vault_entry_name name
    then ok (join (entries_dir paths) (name ++ codes ".json"))
    else err invalid_entry_name

-- An operation returns its result and the files as it leaves them, after an error too.
abbrev pub Op : Type 0 → Type 0
Op A = Disk → Result VaultError A × Disk

abbrev pub continue : {A B : Type 0} → Result VaultError A → (A → Op B) → Op B
continue (ok a) f d = f a d
continue (err e) f d = (err e, d)

infixl 5 ◌>>=◌ ◌>>◌
abbrev pub ◌>>=◌ : {A B : Type 0} → Op A → (A → Op B) → Op B
◌>>=◌ m f d = continue (m d).0 f (m d).1

abbrev pub ◌>>◌ : {B : Type 0} → Op Unit → Op B → Op B
m >> k = m >>= λ _. k

abbrev pub lift : {A : Type 0} → Result VaultError A → Op A
lift r d = (r, d)

-- An error of the file system becomes `VaultError::Io`.
abbrev pub from_io : {A : Type 0} → Result Text A → Result VaultError A
from_io (ok a) = ok a
from_io (err text) = err (io text)

-- `write_json_atomic`: a temporary file is written and renamed, so `path` has the new contents or
-- is as it was.
unfoldable pub write_json_atomic : Env → Text → Bytes → Op Unit
write_json_atomic env path json d = elim env.write [
  | ok _ ↦ (ok tt, write path json d)
  | err text ↦ (err (io text), d)
]
