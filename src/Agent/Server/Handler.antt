-- ===== src/Agent/Server/Handler.antt =====
-- `handle_request`: what the agent does with one request.
use color_ssh.Base.{
  ℕ, Text, codes, Result, ok, err, Option, none, some, Bool, true, false, List, [], ◌∷◌,
  if◌then◌else◌,
}
use color_ssh.Vault.Types.{
  Crates, VaultError, entry_not_found, vault_not_initialized, invalid_master_password,
  invalid_entry_name, message,
}
use color_ssh.Vault.Disk.{Disk, VaultPaths, metadata_path}
use color_ssh.Vault.Reading
use color_ssh.Vault.Reading.{UnlockedVault, is_file}
use color_ssh.Agent.Types.{
  AgentPeerTrust, is_trusted, UnlockPolicy, VaultStatus, VaultStatusEventKind, to_locked,
  to_unlocked, AgentRequestPayload, AgentResponse, entry_status, askpass_authorized, secret,
  success, error,
}
use color_ssh.Agent.Runtime
use color_ssh.Agent.Runtime.{AgentRuntime}

-- The readings of the clocks that one request makes, and the token that `random_secret` draws.
pub record Moment : Type 0 where
  pub pruned_at : ℕ
  pub issued_at : ℕ
  pub touched_at : ℕ
  pub unlocked_at : ℕ
  pub wall : ℕ
  pub status_at : ℕ
  pub drawn : Result Text Text

abbrev pub Broadcast : Type 0
Broadcast = VaultStatusEventKind × VaultStatus

pub record Reply : Type 0 where
  pub runtime : AgentRuntime
  pub response : AgentResponse
  pub broadcasts : List Broadcast

-- The code of an error that the agent answers with.
unfoldable pub error_code : VaultError → Text
error_code entry_not_found = codes "entry_not_found"
error_code vault_not_initialized = codes "vault_not_initialized"
error_code invalid_master_password = codes "invalid_master_password"
error_code invalid_entry_name = codes "invalid_entry_name"
error_code _ = codes "vault_error"

abbrev pub locked_code : Text
locked_code = codes "locked"

module _ (c : Crates) (paths : VaultPaths) (d : Disk) (m : Moment) where
  -- `runtime.status(paths)`
  abbrev pub snapshot : AgentRuntime → VaultStatus
  snapshot r = Runtime.status (is_file (metadata_path paths) d) m.status_at r

  abbrev pub answer : AgentRuntime → AgentResponse → Reply
  answer r response = record { runtime = r; response = response; broadcasts = [] }

  abbrev pub refuse : AgentRuntime → Text → Text → Reply
  refuse r code text = answer r (error (snapshot r) code text)

  abbrev pub agent_error_response : AgentRuntime → VaultError → Reply
  agent_error_response r e = refuse r (error_code e) (message e)

  abbrev pub unauthorized_client_response : AgentRuntime → Reply
  unauthorized_client_response r =
      refuse r (codes "unauthorized_client")
        (codes "password vault secrets can only be requested by a trusted cossh process")

  abbrev pub locked_response : AgentRuntime → Reply
  locked_response r = refuse r locked_code (codes "password vault is locked")

  -- The request `Lock`
  unfoldable pub handle_lock : AgentRuntime → Reply
  handle_lock r =
      let (locked, was_unlocked) = Runtime.lock r in
      record {
        runtime = locked;
        response = success (snapshot locked) (codes "password vault locked");
        broadcasts = if was_unlocked then (to_locked, snapshot locked) ∷ [] else [];
      }

  -- The request `Unlock`, by the result of unlocking the vault
  unfoldable pub handle_unlock :
      UnlockPolicy → AgentRuntime → Result VaultError UnlockedVault → Reply
  handle_unlock policy r (err e) = agent_error_response r e
  handle_unlock policy r (ok vault) =
      let opened = Runtime.unlock m.unlocked_at m.wall vault.data_key policy r in
      record {
        runtime = opened;
        response = success (snapshot opened) (codes "password vault unlocked");
        broadcasts = (to_unlocked, snapshot opened) ∷ [];
      }

  -- The request `AuthorizeAskpass`, behind the test that the entry exists
  unfoldable pub issue_for : Text → AgentRuntime × Result Text Text → Reply
  issue_for name (r, err text) = refuse r (codes "askpass_token_error") text
  issue_for name (r, ok token) =
      let touched = Runtime.touch m.touched_at r in
      answer touched (askpass_authorized (snapshot touched) token)

  unfoldable pub authorize_found : Text → AgentRuntime → Result VaultError Bool → Reply
  authorize_found name r (err e) = agent_error_response r e
  authorize_found name r (ok false) =
      refuse r (codes "entry_not_found") (codes "password vault entry was not found")
  authorize_found name r (ok true) =
      issue_for name (Runtime.issue_askpass_token m.pruned_at m.issued_at m.drawn name r)

  unfoldable pub handle_authorize : Text → Bool → AgentRuntime → Option UnlockedVault → Reply
  unfolding issue_for authorize_found
  handle_authorize name false r vault = unauthorized_client_response r
  handle_authorize name true r none = locked_response r
  handle_authorize name true r (some vault) =
      authorize_found name r (Reading.entry_exists_with_paths paths name d)

  unfoldable pub handle_entry_status : Text → AgentRuntime → Result VaultError Bool → Reply
  handle_entry_status name r (err e) = agent_error_response r e
  handle_entry_status name r (ok exists) = answer r (entry_status (snapshot r) name exists)

  -- The request `GetSecret`: the lease is consumed before the entry is read.
  unfoldable pub serve_entry : Text → AgentRuntime → Result VaultError Text → Reply
  serve_entry name r (err e) = agent_error_response r e
  serve_entry name r (ok value) =
      let touched = Runtime.touch m.touched_at r in
      answer touched (secret (snapshot touched) name value)

  unfoldable pub serve_lease : UnlockedVault → AgentRuntime × Option Text → Reply
  serve_lease vault (r, none) =
      refuse r (codes "invalid_or_expired_askpass_token") (codes "invalid or expired askpass token")
  serve_lease vault (r, some name) = serve_entry name r (Reading.get_secret c vault name d)

  unfoldable pub handle_get_secret : Text → Bool → AgentRuntime → Option UnlockedVault → Reply
  unfolding serve_entry serve_lease
  handle_get_secret token false r vault = unauthorized_client_response r
  handle_get_secret token true r none = locked_response r
  handle_get_secret token true r (some vault) =
      serve_lease vault (Runtime.take_askpass_entry m.pruned_at token r)

  unfoldable pub handle_request : AgentRuntime → AgentRequestPayload → AgentPeerTrust → Reply
  unfolding handle_lock handle_unlock handle_authorize handle_entry_status handle_get_secret
  handle_request r AgentRequestPayload.status trust = answer r (AgentResponse.status (snapshot r))
  handle_request r AgentRequestPayload.lock trust = handle_lock r
  handle_request r (AgentRequestPayload.unlock master_password policy) trust =
      handle_unlock policy r (Reading.unlock_with_password_and_paths c paths master_password d)
  handle_request r (AgentRequestPayload.authorize_askpass name) trust =
      handle_authorize name (is_trusted trust) r (Runtime.unlocked_vault paths r)
  handle_request r (AgentRequestPayload.entry_status name) trust =
      handle_entry_status name r (Reading.entry_exists_with_paths paths name d)
  handle_request r (AgentRequestPayload.get_secret token) trust =
      handle_get_secret token (is_trusted trust) r (Runtime.unlocked_vault paths r)
