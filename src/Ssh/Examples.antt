-- ===== src/Ssh/Examples.antt =====
-- Arguments of ssh, and launches with one host and one vault.
use color_ssh.Base.{
  Option, ◌≤◌, Text, codes, strip_prefix, after_first, is_ascii_alphanumeric, text_eq,
  if◌then◌else◌, Result, ok, err, none, some, Bool, true, false, List, [], ◌∷◌, ◌++◌, ◌≡◌, ◌↔◌, inl,
  refl,
}
use color_ssh.Args.Ssh.{extract_destination_host, is_flag, takes_value, scan, host_part}
use color_ssh.Args.Ssh.Destination.{done, paired}
use color_ssh.Agent.Types.{UnlockPolicy, VaultStatus, locked_status}
use color_ssh.Agent.Client.{AgentError, wrong_master_password}
use color_ssh.Config.{default_auth_settings}
use color_ssh.Inventory.Model.{InventoryHost, ssh}
use color_ssh.Rdp.Launch.{PreparedCommand, unlock_policy, resolve_host_by_destination}
use color_ssh.Ssh.Flags.{port_flag}
use color_ssh.Ssh.Inspection.{inspect_ssh_args}
use color_ssh.Ssh.Inspection.Scans.{inspect_ssh_args_agrees}
use color_ssh.Ssh.Synthesis.{synthesize_ssh_args}
use color_ssh.Ssh.Synthesis.Overrides.{separate, port_letter}
use color_ssh.Ssh.Synthesis.Caller.{without, caller_wins}
use color_ssh.Ssh.Access.{
  VaultClient, IoError, io_error, other_kind, unlock_agent_interactively,
  query_vault_entry_status_with_policy, resolve_vault_password_with_policy,
}
use color_ssh.Ssh.Access.Attempts.{
  counted, Guesses, unlock_agent_interactively-bounded, unlock_agent_interactively_iff,
}
use color_ssh.Ssh.Access.Passwords.{IsGiven, resolve_vault_password_with_policy-IsGiven}
use color_ssh.Ssh.Command.{build_plain_ssh_command, build_ssh_command}
use color_ssh.Ssh.Command.Completed.{IsCompleted}
use color_ssh.Ssh.Command.Launches.{IsLaunch, wanted, build_ssh_command-IsLaunch}

abbrev web : InventoryHost
web = record {
  name = codes "web";
  description = none;
  protocol = ssh;
  host = codes "10.0.0.7";
  user = some (codes "ann");
  port = some 2200;
  profile = none;
  vault_pass = some (codes "web");
  hidden = false;
  ssh = record {
    identity_files = codes "id" ∷ [];
    identities_only = some true;
    proxy_jump = none;
    proxy_command = none;
    forward_agent = none;
    local_forward = codes "80 a:80" ∷ [];
    remote_forward = [];
    extra_options = (codes "Compression", codes "yes" ∷ []) ∷ [];
  };
  rdp = record { domain = none; args = [] };
  source_file = [];
  source_folder_path = [];
}

-- A user in the destination, a port and a compression flag of the caller's own.
abbrev args : List Text
args = codes "-C" ∷ codes "-p" ∷ codes "22" ∷ codes "bob@web" ∷ codes "uptime" ∷ []

synthesized :
    synthesize_ssh_args args web
    ≡ codes "-C"
      ∷ codes "-p"
      ∷ codes "22"
      ∷ codes "-i"
      ∷ codes "id"
      ∷ codes "-o"
      ∷ codes "IdentitiesOnly=yes"
      ∷ codes "-L"
      ∷ codes "80:a:80"
      ∷ codes "bob@10.0.0.7"
      ∷ codes "uptime"
      ∷ []
unfolding synthesize_ssh_args
synthesized = refl

-- A cluster of flags whose last takes a value: its value is read as the destination.
clustered :
    extract_destination_host (codes "-vp" ∷ codes "2222" ∷ codes "web" ∷ []) ≡ some (codes "2222")
unfolding extract_destination_host scan is_flag strip_prefix takes_value host_part after_first
clustered = refl

inspect_ssh_args_agrees_example :
    (inspect_ssh_args args).destination_host ≡ extract_destination_host args
inspect_ssh_args_agrees_example = inspect_ssh_args_agrees args

abbrev port_given : List Text
port_given = codes "-p" ∷ codes "22" ∷ []

caller_wins_example :
    synthesize_ssh_args (port_given ++ codes "web" ∷ []) web
    ≡ synthesize_ssh_args (port_given ++ codes "web" ∷ []) (without port_flag web)
unfolding is_flag takes_value strip_prefix
caller_wins_example =
    caller_wins port_flag port_given (codes "web") [] web
      (paired (codes "-p") (codes "22") refl refl done) refl
      (inl (separate b'p' (codes "22") port_letter done))

-- A vault with the password `pw`, and a user who enters the wrong one first. The state is what the user
-- enters next and whether the vault is unlocked.
abbrev status_of : Bool → VaultStatus
status_of opened = record (locked_status true) { unlocked = opened }

abbrev World : Type 0
World = List Text × Bool

abbrev tried : Text → World → Result AgentError VaultStatus × World
tried password (words, opened) =
    if text_eq password (codes "pw")
    then (ok (status_of true), (words, true))
    else (err wrong_master_password, (words, opened))

abbrev next_word : World → Result IoError Text × World
next_word ([], opened) = (err (io_error other_kind (codes "end of input")), ([], opened))
next_word (word ∷ words, opened) = (ok word, (words, opened))

abbrev client : VaultClient World
client = record {
  connect = ok tt;
  entry_status = λ name w. (ok (record { status = status_of w.1; exists = true }), w);
  unlock = λ password policy w. tried password w;
  authorize_askpass = λ name w. (ok (codes "token"), w);
  get_secret = λ token w. (ok (codes "secret"), w);
  prompt_hidden_secret = next_word;
  is_terminal = true;
}

abbrev policy : UnlockPolicy
policy = unlock_policy default_auth_settings

abbrev start : World
start = (codes "no" ∷ codes "pw" ∷ [], false)

abbrev opened : World
opened = ([], true)

unlock_agent_interactively-bounded_example :
    (unlock_agent_interactively (counted client) policy (start, 0)).1.1 ≤ 3
unlock_agent_interactively-bounded_example =
    unlock_agent_interactively-bounded client policy start 0

unlock_agent_interactively_iff_example :
    (unlock_agent_interactively client policy start ≡ (ok (status_of true), opened))
    ↔ Guesses client policy (status_of true) opened 3 start
unlock_agent_interactively_iff_example =
    unlock_agent_interactively_iff client policy (status_of true) start opened

resolve_vault_password_with_policy-IsGiven_example :
    IsGiven client (codes "web") policy start opened (codes "secret")
unfolding resolve_vault_password_with_policy is_ascii_alphanumeric
resolve_vault_password_with_policy-IsGiven_example =
    resolve_vault_password_with_policy-IsGiven client (codes "web") policy start opened
      (codes "secret") refl

abbrev path : Result Text Text
path = ok (codes "/bin/cossh")

abbrev hosts : List InventoryHost
hosts = web ∷ []

abbrev command : PreparedCommand
command = record (build_plain_ssh_command (synthesize_ssh_args args web)) {
  env =
      (codes "SSH_ASKPASS", codes "/bin/cossh")
      ∷ (codes "SSH_ASKPASS_REQUIRE", codes "force")
      ∷ (codes "COSSH_INTERNAL_ASKPASS", codes "1")
      ∷ (codes "COSSH_INTERNAL_ASKPASS_TOKEN", codes "token")
      ∷ [];
}

build_ssh_command-IsLaunch_example :
    (host : Option InventoryHost) × (given : List Text) × IsCompleted args hosts host given
    × IsLaunch client path default_auth_settings given
        (wanted false default_auth_settings none host)
        start
        opened
        command
unfolding build_ssh_command extract_destination_host scan is_flag strip_prefix takes_value
    resolve_host_by_destination host_part after_first is_ascii_alphanumeric
    query_vault_entry_status_with_policy
build_ssh_command-IsLaunch_example =
    build_ssh_command-IsLaunch client path false default_auth_settings hosts args none start opened
      command refl
