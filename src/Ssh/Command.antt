-- ===== src/Ssh/Command.antt =====
-- `build_ssh_command` and `build_ssh_command_for_host` of src/process/ssh_builder.rs. The path
-- of the program and the inventory on the disk are parameters.
pub mod Completed
pub mod Launches
use color_ssh.Base.{
  Text, codes, Result, ok, err, Option, none, some, Bool, true, false, not, if◌then◌else◌, List, [],
  ◌∷◌, ◌++◌,
}
use color_ssh.Args.Ssh.{extract_destination_host}
use color_ssh.Args.Validation.{validate_vault_entry_name}
use color_ssh.Agent.Types.{UnlockPolicy}
use color_ssh.Agent.Client.{AgentError, AgentEntryStatus, error_text}
use color_ssh.Config.{AuthSettings}
use color_ssh.Inventory.Model.{InventoryHost, ConnectionProtocol, ssh}
use color_ssh.Rdp.Launch.{
  PreparedCommand, new_command, with_notice, or_else, unlock_policy, resolve_host_by_destination,
}
use color_ssh.Ssh.Synthesis.{synthesize_ssh_args}
use color_ssh.Ssh.Access.{
  VaultClient, IoError, io_error, invalid_input, not_found, permission_denied, other_kind,
  VaultAccessError, no_vault, no_entry, query, authorization_requires_terminal, unlock_failed, Run,
  after, and_then, fail, give, map_err, connected, no_vault_text, missing_text, terminal_text,
  query_vault_entry_status_with_policy,
}

-- `build_plain_ssh_command`
abbrev pub build_plain_ssh_command : List Text → PreparedCommand
build_plain_ssh_command args = new_command (codes "ssh") args

abbrev pub is_ssh : ConnectionProtocol → Bool
is_ssh ssh = true
is_ssh protocol = false

abbrev pub only_ssh : Option InventoryHost → Option InventoryHost
only_ssh none = none
only_ssh (some host) = if is_ssh host.protocol then some host else none

abbrev pub host_named : Option Text → List InventoryHost → Option InventoryHost
host_named none hosts = none
host_named (some destination) hosts = resolve_host_by_destination destination hosts

unfoldable pub resolved_host : List Text → List InventoryHost → Option InventoryHost
resolved_host args hosts = only_ssh (host_named (extract_destination_host args) hosts)

abbrev pub effective_args : List Text → Option InventoryHost → List Text
effective_args args none = args
effective_args args (some host) = synthesize_ssh_args args host

abbrev pub pass_of : Option InventoryHost → Option Text
pass_of none = none
pass_of (some host) = host.vault_pass

abbrev pub invalid_entry_name : IoError
invalid_entry_name =
    io_error invalid_input (codes "password auto-login requires a valid vault entry name")

abbrev pub fallback_text : Text
fallback_text =
    codes
      "Password auto-login is unavailable because vault unlock failed after multiple attempts; continuing with the standard SSH password prompt."

-- `configure_internal_askpass_env` of src/auth/transport.rs: what is added to the environment.
abbrev pub internal_askpass_env : Result Text Text → Text → Result Text (List (Text × Text))
internal_askpass_env (err e) token = err e
internal_askpass_env (ok path) token = ok (
    (codes "SSH_ASKPASS", path)
    ∷ (codes "SSH_ASKPASS_REQUIRE", codes "force")
    ∷ (codes "COSSH_INTERNAL_ASKPASS", codes "1")
    ∷ (codes "COSSH_INTERNAL_ASKPASS_TOKEN", token)
    ∷ [])

module _ {S : Type 0} (client : VaultClient S) (cossh_path : Result Text Text) where
  abbrev pub with_env :
      PreparedCommand → Result Text (List (Text × Text)) → Run S IoError PreparedCommand
  with_env command (ok env) = give (record command { env = command.env ++ env })
  with_env command (err e) =
      fail (io_error other_kind (codes "failed to configure internal askpass helper: " ++ e))

  abbrev pub denied : AgentError → IoError
  denied e =
      io_error permission_denied (codes "failed to authorize vault askpass token: " ++ error_text e)

  unfoldable pub configure_internal_askpass_for_entry :
      PreparedCommand → Text → Run S IoError PreparedCommand
  unfolding validate_vault_entry_name
  configure_internal_askpass_for_entry command pass_entry_name =
      if not (validate_vault_entry_name pass_entry_name)
      then fail invalid_entry_name
      else connected client (
          and_then (map_err denied (client.authorize_askpass pass_entry_name))
            (λ token. with_env command (internal_askpass_env cossh_path token)))

  -- What becomes of the launch when the vault has answered.
  abbrev pub authorized :
      PreparedCommand
      → Text
      → Result VaultAccessError AgentEntryStatus
      → Run S IoError PreparedCommand
  authorized command name (ok entry) = configure_internal_askpass_for_entry command name
  authorized command name (err no_vault) = fail (io_error not_found no_vault_text)
  authorized command name (err (no_entry missing)) =
      fail (io_error not_found (missing_text missing))
  authorized command name (err (query e)) = fail (io_error permission_denied e)
  authorized command name (err authorization_requires_terminal) =
      fail (io_error permission_denied terminal_text)
  authorized command name (err (unlock_failed e)) = give (with_notice command (some fallback_text))

  abbrev pub when_answered :
      PreparedCommand
      → Text
      → Result VaultAccessError AgentEntryStatus × S
      → Result IoError PreparedCommand × S
  when_answered command name (answer, s) = authorized command name answer s

  -- `authorize_vault_entry`
  abbrev pub authorize_vault_entry : AuthSettings → Text → Run S VaultAccessError AgentEntryStatus
  authorize_vault_entry settings name =
      query_vault_entry_status_with_policy client name (unlock_policy settings)

  abbrev pub with_entry :
      AuthSettings → PreparedCommand → Option Text → Run S IoError PreparedCommand
  with_entry settings command none = give command
  with_entry settings command (some name) =
      if not (validate_vault_entry_name name)
      then fail invalid_entry_name
      else connected client
          (λ s. when_answered command name (authorize_vault_entry settings name s))

  -- `disabled` is whether the environment disables auto-login, `hosts` what the inventory has.
  unfoldable pub build_ssh_command :
      (disabled : Bool) (settings : AuthSettings) (hosts : List InventoryHost) (args : List Text)
      (explicit_pass_entry : Option Text)
      → Run S IoError PreparedCommand
  unfolding resolved_host configure_internal_askpass_for_entry validate_vault_entry_name
  build_ssh_command disabled settings hosts args explicit_pass_entry =
      let host = resolved_host args hosts in
      let command = build_plain_ssh_command (effective_args args host) in
      if disabled
      then give command
      else if not settings.direct_password_autologin
      then give command
      else with_entry settings command (or_else explicit_pass_entry (pass_of host))

  abbrev pub configure_entry : PreparedCommand → Option Text → Run S IoError PreparedCommand
  configure_entry command none = give command
  configure_entry command (some name) = configure_internal_askpass_for_entry command name

  unfoldable pub build_ssh_command_for_host :
      InventoryHost → Option Text → Run S IoError PreparedCommand
  unfolding configure_internal_askpass_for_entry
  build_ssh_command_for_host host explicit_pass_entry =
      configure_entry (build_plain_ssh_command (synthesize_ssh_args (host.name ∷ []) host))
        (or_else explicit_pass_entry host.vault_pass)
