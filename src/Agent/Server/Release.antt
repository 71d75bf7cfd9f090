-- ===== src/Agent/Server/Release.antt =====
-- When the agent lets a secret or a token out, and what a request leaves behind.
use color_ssh.Base.{
  Text, Result, ok, err, some, Bool, true, false, [], ◌≡◌, refl, ap, ◌⊎◌, inl, inr, arith,
  Option-cases,
}
use color_ssh.Vault.Types.{Bytes, Crates, VaultError}
use color_ssh.Vault.Disk.{Disk, VaultPaths}
use color_ssh.Vault.Reading
use color_ssh.Vault.Reading.{UnlockedVault}
use color_ssh.Agent.Types.{
  AgentPeerTrust, trusted_cossh, untrusted, is_trusted, AgentRequestPayload, AgentResponse, secret,
  askpass_authorized, VaultStatus, UnlockPolicy,
}
use color_ssh.Agent.Runtime
use color_ssh.Agent.Runtime.{
  AgentRuntime, is_some, take_askpass_entry, issue_askpass_token, unlocked_vault,
}
use color_ssh.Agent.Runtime.Session.{
  IsValid, lock-IsValid, unlock-IsValid, touch-IsValid, issue-IsValid, take-IsValid,
}
use color_ssh.Agent.Runtime.Leases.{IsLeased, take-IsLeased}
use color_ssh.Agent.Server.Keeps.{IsKept, handle_request-keeps}
use color_ssh.Agent.Server.Handler.{Moment, handle_request, handle_unlock, handle_entry_status}

IsValid-IsKept : IsKept IsValid
IsValid-IsKept = record {
  locks = lock-IsValid;
  unlocks = unlock-IsValid;
  issues = λ p i drawn name r n v. issue-IsValid p i drawn name n v;
  takes = λ now token r n v. take-IsValid now token n v;
  touches = λ now r n v. touch-IsValid now n v;
}

-- The answers that carry a secret or a token.
abbrev pub lets_out : AgentResponse → Bool
lets_out (secret s name value) = true
lets_out (askpass_authorized s token) = true
lets_out (AgentResponse.status s) = false
lets_out (AgentResponse.entry_status s name exists) = false
lets_out (AgentResponse.success s text) = false
lets_out (AgentResponse.error s code text) = false

module _ (c : Crates) (paths : VaultPaths) (d : Disk) (m : Moment) where
  -- What has to hold for a secret to be answered.
  pub record IsReleased (r : AgentRuntime) (payload : AgentRequestPayload) (trust : AgentPeerTrust)
      (name value : Text) : Type 0 where
    pub token : Text
    pub key : Bytes
    pub asked : payload ≡ AgentRequestPayload.get_secret token
    pub peer : trust ≡ trusted_cossh
    pub unlocked : r.data_key ≡ some key
    pub leased : IsLeased m.pruned_at token name r
    pub decrypted :
        Reading.get_secret c (record { paths = paths; data_key = key }) name d ≡ ok value

  -- A secret is answered only to a trusted peer that asked for it with the token of a live lease of
  -- that entry, while the agent holds a key, and it is what that key decrypts.
  pub handle_request-IsReleased :
      (r : AgentRuntime) (payload : AgentRequestPayload) (trust : AgentPeerTrust) (s : VaultStatus)
      (name value : Text)
      → (handle_request c paths d m r payload trust).response ≡ secret s name value
      → IsReleased r payload trust name value
  unfolding handle_request is_trusted unlocked_vault
  handle_request-IsReleased r (AgentRequestPayload.get_secret token) trusted_cossh s name value h =
      elim (Option-cases r.data_key) [
        | inl e ↦ absurd (ground arith)
        | inr (key, unlocked) ↦ elim (Option-cases (take_askpass_entry m.pruned_at token r).1) [
          | inl e ↦ absurd (ground arith)
          | inr (entry, taken) ↦ record {
            token = token;
            key = key;
            asked = refl;
            peer = refl;
            unlocked = unlocked;
            leased = take-IsLeased m.pruned_at token name r (ground arith);
            decrypted = ground arith;
          }
        ]
      ]
  handle_request-IsReleased r (AgentRequestPayload.get_secret token) untrusted s name value h = cc
  handle_request-IsReleased r _ trust s name value h = ground arith

  -- Every request keeps the parts of the runtime together.
  pub handle_request-IsValid :
      {r : AgentRuntime} (payload : AgentRequestPayload) (trust : AgentPeerTrust)
      → IsValid r
      → IsValid (handle_request c paths d m r payload trust).runtime
  handle_request-IsValid {r} payload trust v =
      handle_request-keeps c paths d m IsValid-IsKept r payload trust v

  unlock_gives_nothing :
      (policy : UnlockPolicy) (r : AgentRuntime) (res : Result VaultError UnlockedVault)
      → let reply = handle_unlock c paths d m policy r res in
        (lets_out reply.response ≡ false)
        × ((reply.runtime.askpass_leases ≡ r.askpass_leases) ⊎ (reply.runtime.askpass_leases ≡ []))
  unfolding handle_unlock Runtime.unlock
  unlock_gives_nothing policy r (err e) = (refl, inl refl)
  unlock_gives_nothing policy r (ok vault) = (refl, inr refl)

  entry_status_gives_nothing :
      (name : Text) (r : AgentRuntime) (res : Result VaultError Bool)
      → let reply = handle_entry_status c paths d m name r res in
        (lets_out reply.response ≡ false) × (reply.runtime ≡ r)
  unfolding handle_entry_status
  entry_status_gives_nothing name r (err e) = (refl, refl)
  entry_status_gives_nothing name r (ok exists) = (refl, refl)

  -- An untrusted peer gets neither a secret nor a token, and makes no lease: of the leases, its
  -- request leaves what was there, or nothing.
  pub untrusted_gives_nothing :
      (r : AgentRuntime) (payload : AgentRequestPayload)
      → let reply = handle_request c paths d m r payload untrusted in
        (lets_out reply.response ≡ false)
        × ((reply.runtime.askpass_leases ≡ r.askpass_leases) ⊎ (reply.runtime.askpass_leases ≡ []))
  unfolding handle_request is_trusted Runtime.lock
  untrusted_gives_nothing r AgentRequestPayload.status = (refl, inl refl)
  untrusted_gives_nothing r AgentRequestPayload.lock = (refl, inr refl)
  untrusted_gives_nothing r (AgentRequestPayload.unlock password policy) =
      unlock_gives_nothing policy r (Reading.unlock_with_password_and_paths c paths password d)
  untrusted_gives_nothing r (AgentRequestPayload.authorize_askpass name) = (refl, inl refl)
  untrusted_gives_nothing r (AgentRequestPayload.entry_status name) =
      let (quiet, same) =
        entry_status_gives_nothing name r (Reading.entry_exists_with_paths paths name d) in
      (quiet, inl (ap (λ (q : AgentRuntime). q.askpass_leases) same))
  untrusted_gives_nothing r (AgentRequestPayload.get_secret token) = (refl, inl refl)
