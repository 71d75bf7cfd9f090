-- ===== src/Ssh/Command/Launches.antt =====
-- What a command for ssh that is ready is made of.
use color_ssh.Base.{
  Text, codes, ◌∷◌, [], Result, ok, err, Option, none, some, Bool, true, false, not, List, ◌++◌,
  ◌≡◌, refl, sym, ap, ◌∙◌, inl, inr, Bool-cases, ok_injective, if◌then◌else◌, ◌||◌,
}
use color_ssh.Args.Ssh.{extract_destination_host}
use color_ssh.Args.Validation.{validate_vault_entry_name}
use color_ssh.Agent.Client.{AgentEntryStatus}
use color_ssh.Ssh.Command.Completed.{IsCompleted, destination-IsCompleted}
use color_ssh.Config.{AuthSettings}
use color_ssh.Inventory.Model.{InventoryHost}
use color_ssh.Rdp.Launch.{PreparedCommand, or_else, unlock_policy}
use color_ssh.Ssh.Access.{
  VaultClient, VaultAccessError, no_vault, no_entry, query, authorization_requires_terminal,
  unlock_failed, with_error, give, query_vault_entry_status_with_policy,
}
use color_ssh.Ssh.Access.Attempts.{err-not_ok}
use color_ssh.Ssh.Access.Passwords.{query-unlocked, after-ok, with_error-ok, on_connect-ok}
use color_ssh.Ssh.Command.{
  build_plain_ssh_command, effective_args, resolved_host, pass_of, fallback_text,
  internal_askpass_env, with_env, denied, configure_internal_askpass_for_entry, authorized,
  authorize_vault_entry, with_entry, build_ssh_command,
}

-- The command is ssh with the arguments, and with the four variables of the askpass helper, where the
-- program's path is known, the entry has a valid name, and the agent granted the token for it.
pub record IsHelped {S : Type 0} (client : VaultClient S) (cossh_path : Result Text Text)
    (args : List Text) (name : Text) (command : PreparedCommand) (s end : S) : Type 0 where
  pub token : Text
  pub path : Text
  pub valid : validate_vault_entry_name name ≡ true
  pub granted : client.authorize_askpass name s ≡ (ok token, end)
  pub known : cossh_path ≡ ok path
  pub command_is : command ≡ record {
    program = codes "ssh";
    args = args;
    env =
        (codes "SSH_ASKPASS", path)
        ∷ (codes "SSH_ASKPASS_REQUIRE", codes "force")
        ∷ (codes "COSSH_INTERNAL_ASKPASS", codes "1")
        ∷ (codes "COSSH_INTERNAL_ASKPASS_TOKEN", token)
        ∷ [];
    stdin_payload = none;
    fallback_notice = none;
  }

module _ {S : Type 0} (client : VaultClient S) (cossh_path : Result Text Text) (args : List Text)
    (name : Text) where
  abbrev plain : PreparedCommand
  plain = build_plain_ssh_command args

  env-known :
      (r : Result Text Text) (token : Text) (env : List (Text × Text))
      → internal_askpass_env r token ≡ ok env
      → (path : Text) × (r ≡ ok path)
        × (env
            ≡ (codes "SSH_ASKPASS", path)
              ∷ (codes "SSH_ASKPASS_REQUIRE", codes "force")
              ∷ (codes "COSSH_INTERNAL_ASKPASS", codes "1")
              ∷ (codes "COSSH_INTERNAL_ASKPASS_TOKEN", token)
              ∷ [])
  env-known (ok path) token env h = (path, refl, sym (ok_injective h))
  env-known (err e) token env h = cc

  with_env-ok :
      (r : Result Text (List (Text × Text))) (command : PreparedCommand) (s end : S)
      → with_env client cossh_path plain r s ≡ (ok command, end)
      → (env : List (Text × Text)) × (r ≡ ok env)
        × (command ≡ record plain { env = plain.env ++ env })
        × (s ≡ end)
  with_env-ok (ok env) command s end h =
      (env, refl, sym (ok_injective (ap (λ r. r.0) h)), ap (λ r. r.1) h)
  with_env-ok (err e) command s end h = absurd (err-not_ok h)

  configure-IsHelped :
      (command : PreparedCommand) (s end : S)
      → configure_internal_askpass_for_entry client cossh_path plain name s ≡ (ok command, end)
      → IsHelped client cossh_path args name command s end
  unfolding configure_internal_askpass_for_entry
  configure-IsHelped command s end h = elim (Bool-cases (validate_vault_entry_name name)) [
    | inr v ↦ absurd (err-not_ok (rw v at h))
    | inl v ↦
        let (token, middle, answered, used) =
          after-ok (with_error (denied client cossh_path) (client.authorize_askpass name s)) _
            (on_connect-ok client.connect _ s (rw v at h)) in
        let (env, is, command_is, same) =
          with_env-ok (internal_askpass_env cossh_path token) command middle end used in
        let (path, known, env_is) = env-known cossh_path token env is in
        record {
          token = token;
          path = path;
          valid = v;
          granted =
              with_error-ok _ (client.authorize_askpass name s) answered
              ∙ ap (λ s. (ok token, s)) same;
          known = known;
          command_is = command_is ∙ ap (λ env. record plain { env = env }) env_is;
        }
  ]

module _ {S : Type 0} (client : VaultClient S) (cossh_path : Result Text Text)
    (settings : AuthSettings) where
  -- The ways to a command for ssh with the arguments `args`: with no entry to use nothing is asked; where
  -- the vault could not be unlocked, the command carries the notice and no token; else the vault is
  -- unlocked and the helper set up.
  pub data IsLaunch (args : List Text) (entry : Option Text) (s end : S) (command : PreparedCommand)
      : Type 0 where
    without_entry :
        entry ≡ none
        → s ≡ end
        → command ≡ record {
          program = codes "ssh";
          args = args;
          env = [];
          stdin_payload = none;
          fallback_notice = none;
        }
        → IsLaunch args entry s end command
    still_locked :
        (name e : Text)
        → entry ≡ some name
        → query_vault_entry_status_with_policy client name (unlock_policy settings) s
          ≡ (err (unlock_failed e), end)
        → command ≡ record {
          program = codes "ssh";
          args = args;
          env = [];
          stdin_payload = none;
          fallback_notice = some fallback_text;
        }
        → IsLaunch args entry s end command
    helped :
        (name : Text) (found : AgentEntryStatus) (middle : S)
        → entry ≡ some name
        → query_vault_entry_status_with_policy client name (unlock_policy settings) s
          ≡ (ok found, middle)
        → found.status.unlocked ≡ true
        → IsHelped client cossh_path args name command middle end
        → IsLaunch args entry s end command

  module _ (args : List Text) (name : Text) (command : PreparedCommand) where
    authorized-IsLaunch :
        (answer : Result VaultAccessError AgentEntryStatus) (s middle end : S)
        → authorize_vault_entry client cossh_path settings name s ≡ (answer, middle)
        → authorized client cossh_path (build_plain_ssh_command args) name answer middle
          ≡ (ok command, end)
        → IsLaunch args (some name) s end command
    authorized-IsLaunch (ok found) s middle end asked h =
        helped name found middle refl asked
          (query-unlocked client name (unlock_policy settings) found s middle asked)
          (configure-IsHelped client cossh_path args name command middle end h)
    authorized-IsLaunch (err no_vault) s middle end asked h = absurd (err-not_ok h)
    authorized-IsLaunch (err (no_entry missing)) s middle end asked h = absurd (err-not_ok h)
    authorized-IsLaunch (err (query e)) s middle end asked h = absurd (err-not_ok h)
    authorized-IsLaunch (err authorization_requires_terminal) s middle end asked h =
        absurd (err-not_ok h)
    authorized-IsLaunch (err (unlock_failed e)) s middle end asked h =
        still_locked name e refl (asked ∙ ap (λ s. (err (unlock_failed e), s)) (ap (λ r. r.1) h))
          (sym (ok_injective (ap (λ r. r.0) h)))

  with_entry-IsLaunch :
      (args : List Text) (entry : Option Text) (command : PreparedCommand) (s end : S)
      → with_entry client cossh_path settings (build_plain_ssh_command args) entry s
        ≡ (ok command, end)
      → IsLaunch args entry s end command
  with_entry-IsLaunch args none command s end h =
      without_entry refl (ap (λ r. r.1) h) (sym (ok_injective (ap (λ r. r.0) h)))
  with_entry-IsLaunch args (some name) command s end h =
      elim (Bool-cases (validate_vault_entry_name name)) [
        | inr v ↦ absurd (err-not_ok (rw v at h))
        | inl v ↦
            let done = authorize_vault_entry client cossh_path settings name s in
            authorized-IsLaunch args name command (done.0) s (done.1) end refl
              (on_connect-ok client.connect _ s (rw v at h))
      ]

  entered-IsLaunch :
      (disabled enabled : Bool) (args : List Text) (entry : Option Text) (command : PreparedCommand)
      (s end : S)
      → (if disabled
            then give (build_plain_ssh_command args)
            else if not enabled
            then give (build_plain_ssh_command args)
            else with_entry client cossh_path settings (build_plain_ssh_command args) entry)
          s
        ≡ (ok command, end)
      → IsLaunch args (if disabled || not enabled then none else entry) s end command
  entered-IsLaunch true enabled args entry command s end h =
      with_entry-IsLaunch args none command s end h
  entered-IsLaunch false false args entry command s end h =
      with_entry-IsLaunch args none command s end h
  entered-IsLaunch false true args entry command s end h =
      with_entry-IsLaunch args entry command s end h

-- The entry that a launch looks for: none where auto-login is off, else that of the call, else the host's.
abbrev pub chosen : Option Text → Option InventoryHost → Option Text
chosen (some name) host = some name
chosen none (some host) = host.vault_pass
chosen none none = none

abbrev pub wanted : Bool → AuthSettings → Option Text → Option InventoryHost → Option Text
wanted disabled settings explicit host =
    if disabled || not settings.direct_password_autologin then none else chosen explicit host

or_else-chosen :
    (explicit : Option Text) (host : Option InventoryHost)
    → or_else explicit (pass_of host) ≡ chosen explicit host
or_else-chosen (some name) host = refl
or_else-chosen none (some host) = refl
or_else-chosen none none = refl

-- A launch that succeeds runs ssh with the caller's arguments, completed for the host for ssh that the
-- inventory has under their destination. Without an entry to use, it asks nothing and has no
-- environment of its own; where the vault could not be unlocked, it has a notice; else the vault is
-- unlocked, and its environment is that of the askpass helper, with the program's path and the token
-- that the agent granted for the entry, whose name is valid. The entry is that of the call or else of
-- the host, and there is none where auto-login is off.
pub build_ssh_command-IsLaunch :
    {S : Type 0} (client : VaultClient S) (cossh_path : Result Text Text) (disabled : Bool)
    (settings : AuthSettings) (hosts : List InventoryHost) (args : List Text)
    (explicit_pass_entry : Option Text) (s end : S) (command : PreparedCommand)
    → build_ssh_command client cossh_path disabled settings hosts args explicit_pass_entry s
      ≡ (ok command, end)
    → (host : Option InventoryHost) × (given : List Text) × IsCompleted args hosts host given
      × IsLaunch client cossh_path settings given
          (wanted disabled settings explicit_pass_entry host)
          s
          end
          command
unfolding build_ssh_command resolved_host
build_ssh_command-IsLaunch client cossh_path disabled settings hosts args explicit_pass_entry s end
      command h =
    let host = resolved_host args hosts in
    (
      host,
      effective_args args host,
      destination-IsCompleted args hosts (extract_destination_host args) refl,
      entered-IsLaunch client cossh_path settings disabled settings.direct_password_autologin
          (effective_args args host) (chosen explicit_pass_entry host) command s end
          (rw (or_else-chosen explicit_pass_entry host) at h),
    )
