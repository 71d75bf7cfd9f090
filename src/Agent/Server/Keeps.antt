-- ===== src/Agent/Server/Keeps.antt =====
-- What every request keeps: a property of the runtime that its methods keep.
use color_ssh.Base.{
  ℕ, Text, Result, ok, err, Option, none, some, Bool, true, false, ◌≡◌, ◌≢◌, arith, Option-cases,
  inl, inr,
}
use color_ssh.Vault.Types.{Bytes, Crates, VaultError}
use color_ssh.Vault.Disk.{Disk, VaultPaths}
use color_ssh.Vault.Reading.{
  UnlockedVault, entry_exists_with_paths, get_secret, unlock_with_password_and_paths,
}
use color_ssh.Agent.Types.{AgentPeerTrust, UnlockPolicy, AgentRequestPayload, is_trusted}
use color_ssh.Agent.Runtime
use color_ssh.Agent.Runtime.{
  AgentRuntime, unlocked_vault, issue_askpass_token, take_askpass_entry, touch,
  prune_expired_askpass_leases,
}
use color_ssh.Agent.Server.Handler.{
  Moment, handle_request, issue_for, authorize_found, serve_entry, serve_lease, handle_unlock,
  handle_authorize, handle_entry_status, handle_get_secret,
}

-- `P` holds of every locked and of every newly unlocked runtime, and an unlocked one keeps it
-- through a lookup, an issue and a touch.
pub record IsKept (P : AgentRuntime → Type 0) : Type 0 where
  pub locks : (r : AgentRuntime) → P (Runtime.lock r).0
  pub unlocks :
      (now wall : ℕ) (key : Bytes) (policy : UnlockPolicy) (r : AgentRuntime)
      → P (Runtime.unlock now wall key policy r)
  pub issues :
      (pruned_at issued_at : ℕ) (drawn : Result Text Text) (name : Text) (r : AgentRuntime)
      → r.data_key ≢ none
      → P r
      → P (issue_askpass_token pruned_at issued_at drawn name r).0
  pub takes :
      (now : ℕ) (token : Text) (r : AgentRuntime)
      → r.data_key ≢ none
      → P r
      → P (take_askpass_entry now token r).0
  pub touches : (now : ℕ) (r : AgentRuntime) → r.data_key ≢ none → P r → P (touch now r)

key-issue :
    (pruned_at issued_at : ℕ) (drawn : Result Text Text) (name : Text) (r : AgentRuntime)
    → (issue_askpass_token pruned_at issued_at drawn name r).0.data_key ≡ r.data_key
unfolding issue_askpass_token
key-issue pruned_at issued_at drawn name r = ground arith

key-take :
    (now : ℕ) (token : Text) (r : AgentRuntime)
    → (take_askpass_entry now token r).0.data_key ≡ r.data_key
unfolding take_askpass_entry
key-take now token r = ground arith

key_of_vault :
    (paths : VaultPaths) (r : AgentRuntime) {vault : UnlockedVault}
    → unlocked_vault paths r ≡ some vault
    → r.data_key ≢ none
unfolding unlocked_vault
key_of_vault paths r h e = ground arith

module _ (c : Crates) (paths : VaultPaths) (d : Disk) (m : Moment) {P : AgentRuntime → Type 0}
    (k : IsKept P) where
  unlock-keeps :
      (policy : UnlockPolicy) (r : AgentRuntime) (res : Result VaultError UnlockedVault)
      → P r
      → P (handle_unlock c paths d m policy r res).runtime
  unfolding handle_unlock
  unlock-keeps policy r (err e) h = h
  unlock-keeps policy r (ok vault) h = k.unlocks m.unlocked_at m.wall vault.data_key policy r

  entry_status-keeps :
      (name : Text) (r : AgentRuntime) (res : Result VaultError Bool)
      → P r
      → P (handle_entry_status c paths d m name r res).runtime
  unfolding handle_entry_status
  entry_status-keeps name r (err e) h = h
  entry_status-keeps name r (ok exists) h = h

  issue_for-keeps :
      (name : Text) (r : AgentRuntime) (out : Result Text Text)
      → r.data_key ≢ none
      → P r
      → P (issue_for c paths d m name (r, out)).runtime
  unfolding issue_for
  issue_for-keeps name r (err text) n h = h
  issue_for-keeps name r (ok token) n h = k.touches m.touched_at r n h

  authorize-keeps :
      (name : Text) (r : AgentRuntime) (res : Result VaultError Bool)
      → r.data_key ≢ none
      → P r
      → P (authorize_found c paths d m name r res).runtime
  unfolding authorize_found
  authorize-keeps name r (err e) n h = h
  authorize-keeps name r (ok false) n h = h
  authorize-keeps name r (ok true) n h =
      issue_for-keeps name _ _ (rw key-issue n)
        (k.issues m.pruned_at m.issued_at m.drawn name r n h)

  serve_entry-keeps :
      (name : Text) (r : AgentRuntime) (res : Result VaultError Text)
      → r.data_key ≢ none
      → P r
      → P (serve_entry c paths d m name r res).runtime
  unfolding serve_entry
  serve_entry-keeps name r (err e) n h = h
  serve_entry-keeps name r (ok value) n h = k.touches m.touched_at r n h

  serve_lease-keeps :
      (vault : UnlockedVault) (r : AgentRuntime) (found : Option Text)
      → r.data_key ≢ none
      → P r
      → P (serve_lease c paths d m vault (r, found)).runtime
  unfolding serve_lease
  serve_lease-keeps vault r none n h = h
  serve_lease-keeps vault r (some name) n h =
      serve_entry-keeps name r (get_secret c vault name d) n h

  get_secret-keeps :
      (token : Text) (trusted : Bool) (r : AgentRuntime)
      → P r
      → P (handle_get_secret c paths d m token trusted r (unlocked_vault paths r)).runtime
  unfolding handle_get_secret
  get_secret-keeps token false r h = h
  get_secret-keeps token true r h = elim (Option-cases (unlocked_vault paths r)) [
    | inl e ↦ rw e h
    | inr (vault, e) ↦
        let n = key_of_vault paths r e in
        rw e (serve_lease-keeps vault _ _ (rw key-take n) (k.takes m.pruned_at token r n h))
  ]

  authorize_any-keeps :
      (name : Text) (trusted : Bool) (r : AgentRuntime)
      → P r
      → P (handle_authorize c paths d m name trusted r (unlocked_vault paths r)).runtime
  unfolding handle_authorize
  authorize_any-keeps name false r h = h
  authorize_any-keeps name true r h = elim (Option-cases (unlocked_vault paths r)) [
    | inl e ↦ rw e h
    | inr (vault, e) ↦
        rw e
          (authorize-keeps name r (entry_exists_with_paths paths name d) (key_of_vault paths r e) h)
  ]

  -- A request keeps `P`.
  pub handle_request-keeps :
      (r : AgentRuntime) (payload : AgentRequestPayload) (trust : AgentPeerTrust)
      → P r
      → P (handle_request c paths d m r payload trust).runtime
  unfolding handle_request
  handle_request-keeps r AgentRequestPayload.status trust h = h
  handle_request-keeps r AgentRequestPayload.lock trust h = k.locks r
  handle_request-keeps r (AgentRequestPayload.unlock password policy) trust h =
      unlock-keeps policy r (unlock_with_password_and_paths c paths password d) h
  handle_request-keeps r (AgentRequestPayload.entry_status name) trust h =
      entry_status-keeps name r (entry_exists_with_paths paths name d) h
  handle_request-keeps r (AgentRequestPayload.authorize_askpass name) trust h =
      authorize_any-keeps name (is_trusted trust) r h
  handle_request-keeps r (AgentRequestPayload.get_secret token) trust h =
      get_secret-keeps token (is_trusted trust) r h
