-- ===== src/Agent/Client.antt =====
-- src/auth/agent/client.rs and src/auth/agent/error.rs: what the client makes of the agent's answers.
-- The exchange over the socket and the start of the agent's process are parameters.
use color_ssh.Base.{
  Text, codes, text_eq, ◌++◌, Result, ok, err, Bool, true, false, if◌then◌else◌, ◌≡◌, refl,
}
use color_ssh.Vault.Types.{VaultError, message, Crates}
use color_ssh.Vault.Disk.{Disk, VaultPaths, metadata_path}
use color_ssh.Vault.Reading.{is_file}
use color_ssh.Agent.Types.{
  AgentPeerTrust, untrusted, is_trusted, UnlockPolicy, VaultStatus, locked_status,
  AgentRequestPayload, AgentResponse, askpass_authorized, secret, success, error, entry_status,
}
use color_ssh.Agent.Runtime.{AgentRuntime}
use color_ssh.Agent.Server.Handler.{Moment, handle_request}

pub data AgentError : Type 0 where
  of_vault : VaultError → AgentError
  io : Text → AgentError
  locked missing_entry wrong_master_password invalid_or_expired_askpass_token : AgentError
  unauthorized_client uninitialized : AgentError
  protocol : Text → AgentError

-- `Display`
abbrev pub error_text : AgentError → Text
error_text (of_vault e) = message e
error_text (io text) = text
error_text locked = codes "password vault is locked"
error_text missing_entry = codes "password vault entry was not found"
error_text wrong_master_password = codes "invalid master password"
error_text invalid_or_expired_askpass_token = codes "invalid or expired askpass token"
error_text unauthorized_client =
    codes "password vault agent refused secret access from an untrusted client process"
error_text uninitialized = codes "password vault is not initialized"
error_text (protocol text) = text

abbrev pub map_remote_error : Text → Text → AgentError
map_remote_error code text =
    if text_eq code (codes "locked")
    then locked
    else if text_eq code (codes "entry_not_found")
    then missing_entry
    else if text_eq code (codes "invalid_master_password")
    then wrong_master_password
    else if text_eq code (codes "invalid_or_expired_askpass_token")
    then invalid_or_expired_askpass_token
    else if text_eq code (codes "unauthorized_client")
    then unauthorized_client
    else if text_eq code (codes "vault_not_initialized")
    then uninitialized
    else protocol text

pub record AgentEntryStatus : Type 0 where
  pub status : VaultStatus
  pub exists : Bool

-- The two attempts to exchange a message, the start of the agent between them, and the `Debug` text
-- of a response.
pub record Link : Type 0 where
  pub first_send : AgentRequestPayload → Result Text AgentResponse
  pub spawn_server : Result AgentError (Unit {0})
  pub second_send : AgentRequestPayload → Result Text AgentResponse
  pub debug : AgentResponse → Text

module _ (link : Link) where
  -- The second attempt, by the outcome of the start of the agent.
  abbrev pub resend :
      Text → AgentRequestPayload → Result AgentError (Unit {0}) → Result AgentError AgentResponse
  resend first_err payload (err e) = err e
  resend first_err payload (ok _) = elim (link.second_send payload) [
    | ok response ↦ ok response
    | err second_err ↦ err (
        protocol (
          codes "failed to contact password vault agent after restart: "
          ++ (first_err ++ (codes "; " ++ second_err))))
  ]

  unfoldable pub request : AgentRequestPayload → Bool → Result AgentError AgentResponse
  request payload auto_start = elim (link.first_send payload) [
    | ok response ↦ ok response
    | err first_err ↦
        if auto_start then resend first_err payload link.spawn_server else err (io first_err)
  ]

  abbrev pub unexpected : Text → AgentResponse → AgentError
  unexpected what response =
      protocol (codes "unexpected " ++ (what ++ (codes " response: " ++ link.debug response)))

  abbrev pub status_answer :
      VaultStatus → Result AgentError AgentResponse → Result AgentError VaultStatus
  status_answer fallback (ok (AgentResponse.status s)) = ok s
  status_answer fallback (ok response) = err (unexpected (codes "status") response)
  status_answer fallback (err (io text)) = ok fallback
  status_answer fallback (err e) = err e

  unfoldable pub request_status : VaultPaths → Disk → Result AgentError VaultStatus
  unfolding request
  request_status paths d =
      status_answer (locked_status (is_file (metadata_path paths) d))
        (request AgentRequestPayload.status false)

  -- `unlock` and `lock` read their answers alike.
  abbrev pub success_answer : Text → Result AgentError AgentResponse → Result AgentError VaultStatus
  success_answer what (ok (success s text)) = ok s
  success_answer what (ok (AgentResponse.status s)) = ok s
  success_answer what (ok (error s code text)) = err (map_remote_error code text)
  success_answer what (ok response) = err (unexpected what response)
  success_answer what (err e) = err e

  unfoldable pub request_unlock : Text → UnlockPolicy → Result AgentError VaultStatus
  unfolding request
  request_unlock master_password policy =
      success_answer (codes "unlock")
        (request (AgentRequestPayload.unlock master_password policy) true)

  unfoldable pub request_lock : Result AgentError VaultStatus
  unfolding request
  request_lock = success_answer (codes "lock") (request AgentRequestPayload.lock false)

  abbrev pub entry_answer : Result AgentError AgentResponse → Result AgentError AgentEntryStatus
  entry_answer (ok (entry_status s name exists)) = ok (record { status = s; exists = exists })
  entry_answer (ok (error s code text)) = err (map_remote_error code text)
  entry_answer (ok response) = err (unexpected (codes "entry-status") response)
  entry_answer (err e) = err e

  unfoldable pub request_entry_status : Text → Result AgentError AgentEntryStatus
  unfolding request
  request_entry_status name = entry_answer (request (AgentRequestPayload.entry_status name) true)

  abbrev pub token_answer : Result AgentError AgentResponse → Result AgentError Text
  token_answer (ok (askpass_authorized s token)) = ok token
  token_answer (ok (error s code text)) = err (map_remote_error code text)
  token_answer (ok response) = err (unexpected (codes "askpass authorization") response)
  token_answer (err e) = err e

  unfoldable pub request_askpass : Text → Result AgentError Text
  unfolding request
  request_askpass name = token_answer (request (AgentRequestPayload.authorize_askpass name) true)

  abbrev pub secret_answer : Result AgentError AgentResponse → Result AgentError Text
  secret_answer (ok (secret s name value)) = ok value
  secret_answer (ok (error s code text)) = err (map_remote_error code text)
  secret_answer (ok response) = err (unexpected (codes "get-secret") response)
  secret_answer (err e) = err e

  unfoldable pub request_secret : Text → Result AgentError Text
  unfolding request
  request_secret token = secret_answer (request (AgentRequestPayload.get_secret token) true)

-- A client whose requests a running agent answers.
abbrev pub answered_by :
    Crates
    → VaultPaths
    → Disk
    → Moment
    → AgentRuntime
    → AgentPeerTrust
    → (AgentResponse → Text)
    → Link
answered_by c paths d m r trust debug = record {
  first_send = λ payload. ok (handle_request c paths d m r payload trust).response;
  spawn_server = ok tt;
  second_send = λ payload. ok (handle_request c paths d m r payload trust).response;
  debug = debug;
}

-- A client that the agent does not trust is told so, for a token as for a secret.
pub untrusted_client :
    (c : Crates) (paths : VaultPaths) (d : Disk) (m : Moment) (r : AgentRuntime)
    (debug : AgentResponse → Text) (name token : Text)
    → let link = answered_by c paths d m r untrusted debug in
      (request_askpass link name ≡ err unauthorized_client)
      × (request_secret link token ≡ err unauthorized_client)
unfolding request_askpass request_secret handle_request is_trusted
untrusted_client c paths d m r debug name token = (refl, refl)
