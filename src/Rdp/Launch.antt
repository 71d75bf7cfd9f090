-- ===== src/Rdp/Launch.antt =====
-- How the client is started: with a password of the vault, or with its own prompt
-- (src/process/rdp_builder.rs, src/process/command_spec.rs).
use color_ssh.Base.{
  Text, codes, text_eq, Result, ok, err, Option, none, some, Bool, true, false, not, List, [], ◌∷◌,
  ◌++◌, if◌then◌else◌, guard, ◌>>=◌, ◌>>◌,
}
use color_ssh.Agent.Types.{UnlockPolicy}
use color_ssh.Config.{AuthSettings}
use color_ssh.Inventory.Model.{InventoryHost}
use color_ssh.Rdp.Arguments.{
  Checked, validate_rdp_password_for_startup, build_rdp_args, build_rdp_stdin_payload,
}

pub record PreparedCommand : Type 0 where
  pub program : Text
  pub args : List Text
  pub env : List (Text × Text)
  pub stdin_payload : Option Text
  pub fallback_notice : Option Text

abbrev pub new_command : Text → List Text → PreparedCommand
new_command program args = record {
  program = program;
  args = args;
  env = [];
  stdin_payload = none;
  fallback_notice = none;
}

pub data RdpLaunchMode : Type 0 where
  pty captured_output : RdpLaunchMode

pub data RdpCredentialSource : Type 0 where
  from_native_prompt vault_entry manual_prompt : RdpCredentialSource

pub record PreparedRdpLaunch : Type 0 where
  pub command : PreparedCommand
  pub launch_mode : RdpLaunchMode
  pub credential_source : RdpCredentialSource

pub data RdpAuthMode : Type 0 where
  native_prompt : RdpAuthMode
  supplied_password : (password : Text) → RdpCredentialSource → RdpAuthMode

abbrev pub rdp_prompt_fallback_notice : Text → Text
rdp_prompt_fallback_notice detail =
    codes "Password auto-login is unavailable because "
    ++ detail
    ++ codes "; continuing with the FreeRDP password prompt."

abbrev pub with_notice : PreparedCommand → Option Text → PreparedCommand
with_notice command notice = record command { fallback_notice = notice }

unfoldable pub build_prepared_rdp_command :
    InventoryHost → RdpAuthMode → Option Text → Checked PreparedRdpLaunch
unfolding build_rdp_args build_rdp_stdin_payload
build_prepared_rdp_command host native_prompt fallback_notice = build_rdp_args host true >>= λ args.
    ok (record {
      command = with_notice (new_command (codes "xfreerdp") args) fallback_notice;
      launch_mode = pty;
      credential_source = from_native_prompt;
    })
build_prepared_rdp_command host (supplied_password password source) fallback_notice =
    build_rdp_stdin_payload host password >>= λ payload. ok (record {
      command =
          record (with_notice (new_command (codes "xfreerdp") (codes "/args-from:stdin" ∷ []))
            fallback_notice) { stdin_payload = some payload };
      launch_mode = captured_output;
      credential_source = source;
    })

abbrev pub or_else : Option Text → Option Text → Option Text
or_else (some text) o = some text
or_else none o = o

abbrev pub is_some : Option Text → Bool
is_some none = false
is_some (some text) = true

abbrev pub Mode : Type 0
Mode = RdpAuthMode × Option Text

abbrev pub explicit_failure : Text → Text
explicit_failure detail =
    codes "Password auto-login failed for explicit --pass-entry because " ++ detail ++ codes "."

abbrev pub no_terminal : Text → Text
no_terminal detail =
    codes "Password auto-login is unavailable because "
    ++ detail
    ++ codes ", and no interactive terminal is available for the FreeRDP password prompt."

unfoldable pub direct_rdp_vault_autologin_failure : Text → Bool → Bool → Checked Mode
direct_rdp_vault_autologin_failure detail explicit_pass_entry terminal_prompting_enabled =
    guard (not explicit_pass_entry) (explicit_failure detail)
    >> guard terminal_prompting_enabled (no_terminal detail)
    >> ok (native_prompt, some (rdp_prompt_fallback_notice detail))

-- `resolve_rdp_auth_mode_with`: a password that is not at hand, or not fit, leaves the client's prompt.
abbrev pub startup_mode : Text → Checked (Unit {0}) → Mode
startup_mode password (ok _) = (supplied_password password vault_entry, none)
startup_mode password (err e) = (native_prompt, some (rdp_prompt_fallback_notice e))

abbrev pub resolved_mode : Result Text Text → Mode
resolved_mode (ok password) = startup_mode password (validate_rdp_password_for_startup password)
resolved_mode (err e) = (native_prompt, some (rdp_prompt_fallback_notice e))

unfoldable pub resolve_rdp_auth_mode_with :
    InventoryHost → Option Text → (Text → Result Text Text) → Mode
unfolding validate_rdp_password_for_startup
resolve_rdp_auth_mode_with host explicit_pass_entry resolve_password =
    elim (or_else explicit_pass_entry host.vault_pass) [
      | none ↦ (native_prompt, none)
      | some pass_entry_name ↦ resolved_mode (resolve_password pass_entry_name)
    ]

-- `resolve_direct_rdp_auth_mode_with`; the vault answers with a password or with why there is none.
abbrev pub direct_startup_mode : Bool → Bool → Text → Checked (Unit {0}) → Checked Mode
direct_startup_mode explicit terminal password (ok _) =
    ok (supplied_password password vault_entry, none)
direct_startup_mode explicit terminal password (err e) =
    direct_rdp_vault_autologin_failure e explicit terminal

abbrev pub direct_resolved_mode : Bool → Bool → Result Text Text → Checked Mode
direct_resolved_mode explicit terminal (ok password) =
    direct_startup_mode explicit terminal password (validate_rdp_password_for_startup password)
direct_resolved_mode explicit terminal (err e) =
    direct_rdp_vault_autologin_failure e explicit terminal

abbrev pub unlock_policy : AuthSettings → UnlockPolicy
unlock_policy settings = record {
  idle_timeout_seconds = settings.idle_timeout_seconds;
  session_timeout_seconds = settings.session_timeout_seconds;
}

module _ (resolve_vault_password_with_policy : Text → UnlockPolicy → Result Text Text) where
  unfoldable pub resolve_direct_rdp_auth_mode_with :
      InventoryHost → Option Text → AuthSettings → Bool → Checked Mode
  unfolding validate_rdp_password_for_startup direct_rdp_vault_autologin_failure
  resolve_direct_rdp_auth_mode_with host explicit_pass_entry auth_settings
        terminal_prompting_enabled =
      if auth_settings.direct_password_autologin
      then elim (or_else explicit_pass_entry host.vault_pass) [
        | none ↦ ok (native_prompt, none)
        | some pass_entry_name ↦
            direct_resolved_mode (is_some explicit_pass_entry) terminal_prompting_enabled
              (resolve_vault_password_with_policy pass_entry_name (unlock_policy auth_settings))
      ]
      else ok (native_prompt, none)

  unfoldable pub build_rdp_command_for_host_with_auth_settings :
      InventoryHost → Option Text → AuthSettings → Checked PreparedRdpLaunch
  unfolding resolve_rdp_auth_mode_with build_prepared_rdp_command
  build_rdp_command_for_host_with_auth_settings host explicit_pass_entry auth_settings =
      let mode =
        resolve_rdp_auth_mode_with host explicit_pass_entry
          (λ name. resolve_vault_password_with_policy name (unlock_policy auth_settings)) in
      build_prepared_rdp_command host mode.0 mode.1

abbrev pub build_rdp_command_for_host_with_manual_password :
    InventoryHost → Text → Checked PreparedRdpLaunch
build_rdp_command_for_host_with_manual_password host password =
    build_prepared_rdp_command host (supplied_password password manual_prompt) none

-- `resolve_host_by_destination` of src/process/ssh_builder.rs
unfoldable pub find_by : (InventoryHost → Bool) → List InventoryHost → Option InventoryHost
find_by p [] = none
find_by p (host ∷ hosts) = if p host then some host else find_by p hosts

unfoldable pub find_only : (InventoryHost → Bool) → List InventoryHost → Option InventoryHost
unfolding find_by
find_only p [] = none
find_only p (host ∷ hosts) =
    let later = find_only p hosts in
    if p host then elim (find_by p hosts) [ none ↦ some host | some second ↦ none ] else later

unfoldable pub resolve_host_by_destination : Text → List InventoryHost → Option InventoryHost
unfolding find_by find_only
resolve_host_by_destination destination hosts =
    elim (find_by (λ host. text_eq host.name destination) hosts) [
      | some host ↦ some host
      | none ↦ find_only (λ host. text_eq host.host destination) hosts
    ]
