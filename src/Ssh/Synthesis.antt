-- ===== src/Ssh/Synthesis.antt =====
-- `synthesize_ssh_args` of src/process/ssh_builder.rs: the arguments of `ssh`, with the settings of the
-- inventory's host that the caller does not override.
pub mod Placed
pub mod Target
pub mod Overrides
pub mod Overriding
pub mod Caller
use color_ssh.Base.{
  ℕ, ◌+◌, Text, codes, text_eq, Bool, true, false, not, ◌&&◌, ◌||◌, if◌then◌else◌, Option, none,
  some, List, [], ◌∷◌, ◌++◌, any, is_empty, trim, to_ascii_lowercase, lower, decimal, digits, take,
  drop, split_whitespace,
}
use color_ssh.Args.Ssh.{listed}
use color_ssh.Inventory.Model.{InventoryHost, SshOptionMap}
use color_ssh.Inventory.Edit.{normalize_ssh_forward_spec}
use color_ssh.Ssh.Flags.{SshArgInspection}
use color_ssh.Ssh.Inspection.{inspect_ssh_args}

abbrev pub inject_ssh_option : Text → Text → List Text
inject_ssh_option key value = codes "-o" ∷ (key ++ b'=' ∷ value) ∷ []

abbrev pub is_set : Option Text → Bool
is_set none = false
is_set (some value) = true

-- A user that is not blank.
unfoldable pub user_value : Option Text → List Text
unfolding trim
user_value none = []
user_value (some user) = if is_empty (trim user) then [] else codes "-l" ∷ user ∷ []

unfoldable pub port_value : Option ℕ → List Text
port_value none = []
port_value (some port) = codes "-p" ∷ decimal port ∷ []

-- A flag and a value for each value.
unfoldable pub each : Text → (Text → Text) → List Text → List Text
each flag f [] = []
each flag f (value ∷ values) = flag ∷ f value ∷ each flag f values

unfoldable pub option_value : Text → Option Text → List Text
option_value key none = []
option_value key (some value) = inject_ssh_option key value

abbrev pub yes_no : Option Bool → Option Text
yes_no none = none
yes_no (some enabled) = some (if enabled then codes "yes" else codes "no")

abbrev pub own_keys : List Text
own_keys =
    codes "user"
    ∷ codes "port"
    ∷ codes "identityfile"
    ∷ codes "proxyjump"
    ∷ codes "proxycommand"
    ∷ codes "forwardagent"
    ∷ codes "identitiesonly"
    ∷ codes "localforward"
    ∷ codes "remoteforward"
    ∷ []

abbrev pub is_overridden : List Text → Text → Bool
is_overridden option_keys key =
    listed option_keys (to_ascii_lowercase (trim key))
    || listed own_keys (to_ascii_lowercase (trim key))

unfoldable pub option_values : Text → List Text → List Text
option_values key [] = []
option_values key (value ∷ values) = inject_ssh_option key value ++ option_values key values

unfoldable pub extra_option_args : List Text → SshOptionMap → List Text
unfolding trim lower option_values
extra_option_args option_keys [] = []
extra_option_args option_keys ((key, values) ∷ options) =
    let later = extra_option_args option_keys options in
    if is_overridden option_keys key then later else option_values key values ++ later

-- `if !inspection.has_…`
abbrev pub unless : Bool → List Text → List Text
unless true args = []
unless false args = args

unfoldable pub injected_args : SshArgInspection → InventoryHost → List Text
unfolding user_value port_value each option_value extra_option_args normalize_ssh_forward_spec
injected_args st host =
    unless (st.has_user_flag || is_set st.explicit_destination_user) (user_value host.user)
    ++ unless st.has_port_flag (port_value host.port)
    ++ unless st.has_identity_flag (each (codes "-i") (λ file. file) host.ssh.identity_files)
    ++ unless st.has_proxy_jump (option_value (codes "ProxyJump") host.ssh.proxy_jump)
    ++ unless st.has_proxy_command (option_value (codes "ProxyCommand") host.ssh.proxy_command)
    ++ unless st.has_forward_agent (option_value (codes "ForwardAgent") host.ssh.forward_agent)
    ++ unless st.has_identities_only
        (option_value (codes "IdentitiesOnly") (yes_no host.ssh.identities_only))
    ++ unless st.has_local_forward
        (each (codes "-L") normalize_ssh_forward_spec host.ssh.local_forward)
    ++ unless st.has_remote_forward
        (each (codes "-R") normalize_ssh_forward_spec host.ssh.remote_forward)
    ++ extra_option_args st.option_keys host.ssh.extra_options

-- The destination keeps a user that the caller gave in it.
abbrev pub destination_of : Option Text → InventoryHost → Text
destination_of none host = host.host
destination_of (some explicit_user) host = explicit_user ++ b'@' ∷ host.host

abbrev pub synthesize_at : Option ℕ → List Text → SshArgInspection → InventoryHost → List Text
synthesize_at none args st host = args
synthesize_at (some destination_index) args st host =
    take destination_index args
    ++ injected_args st host
    ++ destination_of st.explicit_destination_user host ∷ drop (destination_index + 1) args

unfoldable pub synthesize_ssh_args : List Text → InventoryHost → List Text
unfolding inspect_ssh_args injected_args
synthesize_ssh_args args host =
    let inspection = inspect_ssh_args args in
    synthesize_at inspection.destination_index args inspection host
