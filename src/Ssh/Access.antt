-- ===== src/Ssh/Access.antt =====
-- src/process/vault.rs: how a launch gets at an entry of the vault. The client of the agent, the prompt
-- and the terminal are one interface over a state, that each request may change.
pub mod Attempts
pub mod Passwords
pub mod Served
use color_ssh.Base.{
  ℕ, ◌==◌, Text, codes, Result, ok, err, Option, none, some, Bool, true, false, not, if◌then◌else◌,
  is_empty, List, [], ◌∷◌, ◌++◌,
}
use color_ssh.Args.Validation.{validate_vault_entry_name}
use color_ssh.Agent.Types.{UnlockPolicy, VaultStatus}
use color_ssh.Agent.Client.{
  AgentError, wrong_master_password, uninitialized, error_text, AgentEntryStatus,
}

pub data ErrorKind : Type 0 where
  invalid_input not_found permission_denied other_kind : ErrorKind

-- `io::Error` with its kind and its message
pub record IoError : Type 0 where
  pub kind : ErrorKind
  pub text : Text

abbrev pub io_error : ErrorKind → Text → IoError
io_error kind text = record { kind = kind; text = text }

abbrev pub Run : Type 0 → Type 0 → Type 0 → Type 0
Run S E A = S → Result E A × S

pub record VaultClient (S : Type 0) : Type 0 where
  pub connect : Result AgentError (Unit {0})
  pub entry_status : Text → Run S AgentError AgentEntryStatus
  pub unlock : Text → UnlockPolicy → Run S AgentError VaultStatus
  pub authorize_askpass : Text → Run S AgentError Text
  pub get_secret : Text → Run S AgentError Text
  pub prompt_hidden_secret : Run S IoError Text
  pub is_terminal : Bool

-- `VaultAccessError`
pub data VaultAccessError : Type 0 where
  no_vault authorization_requires_terminal : VaultAccessError
  no_entry query unlock_failed : Text → VaultAccessError

abbrev pub terminal_text : Text
terminal_text =
    codes
      "password vault auto-login requires an unlocked vault or an interactive master-password prompt"

abbrev pub missing_text : Text → Text
missing_text name = codes "password vault entry '" ++ name ++ codes "' was not found"

abbrev pub access_error_text : VaultAccessError → Text
access_error_text no_vault = codes "password vault is not initialized"
access_error_text (no_entry name) = missing_text name
access_error_text (query message) = message
access_error_text (unlock_failed message) = message
access_error_text authorization_requires_terminal = terminal_text

abbrev pub no_vault_text : Text
no_vault_text =
    codes "password vault is not initialized; run `cossh vault init` or `cossh vault add <name>`"

abbrev pub three_attempts : IoError
three_attempts =
    io_error permission_denied (codes "failed to unlock password vault after 3 attempts")

-- What a step that succeeds is followed by.
abbrev pub after : {S E A B : Type 0} → Result E A × S → (A → Run S E B) → Result E B × S
after (ok a, s) next = next a s
after (err e, s) next = (err e, s)

abbrev pub and_then : {S E A B : Type 0} → Run S E A → (A → Run S E B) → Run S E B
and_then first next s = after (first s) next

abbrev pub fail : {S E A : Type 0} → E → Run S E A
fail e s = (err e, s)

abbrev pub give : {S E A : Type 0} → A → Run S E A
give a s = (ok a, s)

-- `map_err`
abbrev pub with_error : {S E F A : Type 0} → (E → F) → Result E A × S → Result F A × S
with_error f (ok a, s) = (ok a, s)
with_error f (err e, s) = (err (f e), s)

abbrev pub map_err : {S E F A : Type 0} → (E → F) → Run S E A → Run S F A
map_err f run s = with_error f (run s)

abbrev pub query_error : AgentError → VaultAccessError
query_error uninitialized = no_vault
query_error e = query (error_text e)

abbrev pub launch_error : VaultAccessError → IoError
launch_error no_vault = io_error not_found no_vault_text
launch_error (no_entry name) = io_error not_found (missing_text name)
launch_error authorization_requires_terminal = io_error permission_denied terminal_text
launch_error e = io_error permission_denied (access_error_text e)

abbrev pub on_connect :
    {S A : Type 0} → Result AgentError (Unit {0}) → Run S IoError A → Run S IoError A
on_connect (ok _) next s = next s
on_connect (err e) next s = (err (io_error other_kind (error_text e)), s)

module _ {S : Type 0} (client : VaultClient S) where
  -- The answer to an attempt; `again` is the loop's next turn.
  abbrev pub attempt_answer :
      ℕ → Run S IoError VaultStatus → Result AgentError VaultStatus → Run S IoError VaultStatus
  attempt_answer attempt again (ok status) = give status
  attempt_answer attempt again (err wrong_master_password) =
      if attempt == 3 then fail three_attempts else again
  attempt_answer attempt again (err uninitialized) = fail (io_error not_found no_vault_text)
  attempt_answer attempt again (err e) = fail (io_error permission_denied (error_text e))

  abbrev pub answered :
      ℕ
      → Run S IoError VaultStatus
      → Result AgentError VaultStatus × S
      → Result IoError VaultStatus × S
  answered attempt again (answer, s) = attempt_answer attempt again answer s

  abbrev pub try_password :
      UnlockPolicy → ℕ → Run S IoError VaultStatus → Text → Run S IoError VaultStatus
  try_password policy attempt again master_password s =
      if is_empty master_password
      then (err (io_error permission_denied (codes "master password cannot be empty")), s)
      else answered attempt again (client.unlock master_password policy s)

  unfoldable pub unlock_attempts : UnlockPolicy → List ℕ → Run S IoError VaultStatus
  unlock_attempts policy [] = fail three_attempts
  unlock_attempts policy (attempt ∷ attempts) =
      and_then client.prompt_hidden_secret
        (try_password policy attempt (unlock_attempts policy attempts))

  unfoldable pub unlock_agent_interactively : UnlockPolicy → Run S IoError VaultStatus
  unfolding unlock_attempts
  unlock_agent_interactively policy = unlock_attempts policy (1 ∷ 2 ∷ 3 ∷ [])

  abbrev pub checked_unlocked : AgentEntryStatus → Run S VaultAccessError AgentEntryStatus
  checked_unlocked again =
      if again.status.unlocked
      then give again
      else fail (unlock_failed (codes "password vault remains locked after unlock attempt"))

  abbrev pub unlock_then_query : Text → UnlockPolicy → Run S VaultAccessError AgentEntryStatus
  unlock_then_query pass_entry_name policy =
      and_then (map_err (λ e. unlock_failed e.text) (unlock_agent_interactively policy)) (λ _.
        and_then (map_err (λ e. unlock_failed (error_text e)) (client.entry_status pass_entry_name))
          checked_unlocked)

  abbrev pub use_status :
      Text → UnlockPolicy → AgentEntryStatus → Run S VaultAccessError AgentEntryStatus
  use_status pass_entry_name policy entry =
      if not entry.exists
      then fail (no_entry pass_entry_name)
      else if entry.status.unlocked
      then give entry
      else if not client.is_terminal
      then fail authorization_requires_terminal
      else unlock_then_query pass_entry_name policy

  unfoldable pub query_vault_entry_status_with_policy :
      Text → UnlockPolicy → Run S VaultAccessError AgentEntryStatus
  unfolding unlock_agent_interactively
  query_vault_entry_status_with_policy pass_entry_name policy =
      and_then (map_err query_error (client.entry_status pass_entry_name))
        (use_status pass_entry_name policy)

  unfoldable pub resolve_vault_password_with_status : Text → AgentEntryStatus → Run S IoError Text
  resolve_vault_password_with_status pass_entry_name entry =
      if not entry.exists
      then fail (io_error not_found (missing_text pass_entry_name))
      else and_then
          (map_err (λ e. io_error permission_denied (error_text e))
            (client.authorize_askpass pass_entry_name))
          (λ token.
            map_err (λ e. io_error permission_denied (error_text e)) (client.get_secret token))

  -- `AgentClient::new()?`
  abbrev pub connected : {A : Type 0} → Run S IoError A → Run S IoError A
  connected next = on_connect client.connect next

  unfoldable pub resolve_vault_password_with_policy : Text → UnlockPolicy → Run S IoError Text
  unfolding query_vault_entry_status_with_policy resolve_vault_password_with_status
      validate_vault_entry_name
  resolve_vault_password_with_policy pass_entry_name policy =
      if not (validate_vault_entry_name pass_entry_name)
      then fail (io_error invalid_input (codes "invalid password vault entry name for RDP launch"))
      else connected (
          and_then
            (map_err launch_error (query_vault_entry_status_with_policy pass_entry_name policy))
            (resolve_vault_password_with_status pass_entry_name))
