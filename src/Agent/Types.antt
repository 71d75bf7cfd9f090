-- ===== src/Agent/Types.antt =====
-- What the agent and its clients exchange (src/auth/ipc.rs).
use color_ssh.Base.{ℕ, Text, Option, none, Bool, true, false}

pub data AgentPeerTrust : Type 0 where
  trusted_cossh untrusted : AgentPeerTrust

unfoldable pub is_trusted : AgentPeerTrust → Bool
is_trusted trusted_cossh = true
is_trusted untrusted = false

pub record UnlockPolicy : Type 0 where
  pub idle_timeout_seconds : ℕ
  pub session_timeout_seconds : ℕ

pub record VaultStatus : Type 0 where
  pub vault_exists : Bool
  pub unlocked : Bool
  pub unlock_expires_in_seconds : Option ℕ
  pub idle_timeout_seconds : Option ℕ
  pub absolute_timeout_seconds : Option ℕ
  pub absolute_timeout_at_epoch_seconds : Option ℕ

-- `VaultStatus::locked`
abbrev pub locked_status : Bool → VaultStatus
locked_status exists = record {
  vault_exists = exists;
  unlocked = false;
  unlock_expires_in_seconds = none;
  idle_timeout_seconds = none;
  absolute_timeout_seconds = none;
  absolute_timeout_at_epoch_seconds = none;
}

pub data VaultStatusEventKind : Type 0 where
  to_locked to_unlocked : VaultStatusEventKind

pub data AgentRequestPayload : Type 0 where
  status lock : AgentRequestPayload
  unlock : (master_password : Text) → UnlockPolicy → AgentRequestPayload
  authorize_askpass entry_status : (name : Text) → AgentRequestPayload
  get_secret : (token : Text) → AgentRequestPayload

pub data AgentResponse : Type 0 where
  status : VaultStatus → AgentResponse
  entry_status : VaultStatus → (name : Text) → (exists : Bool) → AgentResponse
  askpass_authorized : VaultStatus → (token : Text) → AgentResponse
  secret : VaultStatus → (name value : Text) → AgentResponse
  success : VaultStatus → (message : Text) → AgentResponse
  error : VaultStatus → (code message : Text) → AgentResponse

-- `AgentResponse::status`
unfoldable pub status_of : AgentResponse → VaultStatus
status_of (AgentResponse.status s) = s
status_of (AgentResponse.entry_status s name exists) = s
status_of (askpass_authorized s token) = s
status_of (secret s name value) = s
status_of (success s message) = s
status_of (error s code message) = s
