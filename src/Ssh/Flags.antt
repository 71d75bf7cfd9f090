-- ===== src/Ssh/Flags.antt =====
-- The fields of an inspection of arguments, and the flags that set them (src/process/ssh_builder.rs).
use color_ssh.Base.{
  ℕ, Text, codes, ◌==◌, Bool, true, false, ◌||◌, Option, none, List, [], ◌∷◌, to_ascii_lowercase,
  lower,
}

-- The fields `has_…` of an inspection.
pub data Override : Type 0 where
  user_flag port_flag identity_flag proxy_jump proxy_command forward_agent : Override
  identities_only local_forward remote_forward no_flag : Override

pub record SshArgInspection : Type 0 where
  pub destination_index : Option ℕ
  pub destination_host : Option Text
  pub explicit_destination_user : Option Text
  pub has_user_flag : Bool
  pub has_port_flag : Bool
  pub has_identity_flag : Bool
  pub has_proxy_jump : Bool
  pub has_proxy_command : Bool
  pub has_forward_agent : Bool
  pub has_identities_only : Bool
  pub has_local_forward : Bool
  pub has_remote_forward : Bool
  pub option_keys : List Text

abbrev pub default_inspection : SshArgInspection
default_inspection = record {
  destination_index = none;
  destination_host = none;
  explicit_destination_user = none;
  has_user_flag = false;
  has_port_flag = false;
  has_identity_flag = false;
  has_proxy_jump = false;
  has_proxy_command = false;
  has_forward_agent = false;
  has_identities_only = false;
  has_local_forward = false;
  has_remote_forward = false;
  option_keys = [];
}

abbrev rank : Override → ℕ
rank user_flag = 0
rank port_flag = 1
rank identity_flag = 2
rank proxy_jump = 3
rank proxy_command = 4
rank forward_agent = 5
rank identities_only = 6
rank local_forward = 7
rank remote_forward = 8
rank no_flag = 9

abbrev is : Override → Override → Bool
is o p = rank o == rank p

-- `inspection.has_… = true` for the field that `o` names.
unfoldable pub set_override : Override → SshArgInspection → SshArgInspection
set_override o st = record st {
  has_user_flag = st.has_user_flag || is o user_flag;
  has_port_flag = st.has_port_flag || is o port_flag;
  has_identity_flag = st.has_identity_flag || is o identity_flag;
  has_proxy_jump = st.has_proxy_jump || is o proxy_jump;
  has_proxy_command = st.has_proxy_command || is o proxy_command;
  has_forward_agent = st.has_forward_agent || is o forward_agent;
  has_identities_only = st.has_identities_only || is o identities_only;
  has_local_forward = st.has_local_forward || is o local_forward;
  has_remote_forward = st.has_remote_forward || is o remote_forward;
}

abbrev pub insert_key : Text → SshArgInspection → SshArgInspection
insert_key key st = record st { option_keys = key ∷ st.option_keys }

unfoldable pub mark_option_key : Text → SshArgInspection → SshArgInspection
unfolding lower
mark_option_key key st = insert_key (to_ascii_lowercase key) st

-- An arm of the loop: its flag, its field, its key, and whether the next argument is its value.
pub record Arm : Type 0 where
  pub flag : Text
  pub sets : Override
  pub key : Text
  pub skips : Bool

abbrev arm : Text → Override → Text → Bool → Arm
arm flag sets key skips = record { flag = flag; sets = sets; key = key; skips = skips }

abbrev pub exact_arms : List Arm
exact_arms =
    arm (codes "-A") forward_agent (codes "ForwardAgent") false
    ∷ arm (codes "-a") forward_agent (codes "ForwardAgent") false
    ∷ arm (codes "-C") no_flag (codes "Compression") false
    ∷ arm (codes "-f") no_flag (codes "ForkAfterAuthentication") false
    ∷ arm (codes "-g") no_flag (codes "GatewayPorts") false
    ∷ arm (codes "-l") user_flag (codes "User") true
    ∷ arm (codes "-M") no_flag (codes "ControlMaster") false
    ∷ arm (codes "-N") no_flag (codes "SessionType") false
    ∷ arm (codes "-n") no_flag (codes "StdinNull") false
    ∷ arm (codes "-p") port_flag (codes "Port") true
    ∷ arm (codes "-P") no_flag (codes "Tag") true
    ∷ arm (codes "-q") no_flag (codes "LogLevel") false
    ∷ arm (codes "-s") no_flag (codes "SessionType") false
    ∷ arm (codes "-T") no_flag (codes "RequestTTY") false
    ∷ arm (codes "-t") no_flag (codes "RequestTTY") false
    ∷ arm (codes "-X") no_flag (codes "ForwardX11") false
    ∷ arm (codes "-x") no_flag (codes "ForwardX11") false
    ∷ arm (codes "-Y") no_flag (codes "ForwardX11Trusted") false
    ∷ arm (codes "-i") identity_flag (codes "IdentityFile") true
    ∷ arm (codes "-J") proxy_jump (codes "ProxyJump") true
    ∷ arm (codes "-b") no_flag (codes "BindAddress") true
    ∷ arm (codes "-B") no_flag (codes "BindInterface") true
    ∷ arm (codes "-c") no_flag (codes "Ciphers") true
    ∷ arm (codes "-D") no_flag (codes "DynamicForward") true
    ∷ arm (codes "-I") no_flag (codes "PKCS11Provider") true
    ∷ arm (codes "-L") local_forward (codes "LocalForward") true
    ∷ arm (codes "-m") no_flag (codes "MACs") true
    ∷ arm (codes "-R") remote_forward (codes "RemoteForward") true
    ∷ arm (codes "-S") no_flag (codes "ControlPath") true
    ∷ arm (codes "-w") no_flag (codes "Tunnel") true
    ∷ []

-- The arms for a flag with its value in the same argument; `-o` is not among them.
abbrev pub joined_arms : List Arm
joined_arms =
    arm (codes "-l") user_flag (codes "User") false
    ∷ arm (codes "-p") port_flag (codes "Port") false
    ∷ arm (codes "-i") identity_flag (codes "IdentityFile") false
    ∷ arm (codes "-J") proxy_jump (codes "ProxyJump") false
    ∷ arm (codes "-L") local_forward (codes "LocalForward") false
    ∷ arm (codes "-R") remote_forward (codes "RemoteForward") false
    ∷ arm (codes "-b") no_flag (codes "BindAddress") false
    ∷ arm (codes "-B") no_flag (codes "BindInterface") false
    ∷ arm (codes "-c") no_flag (codes "Ciphers") false
    ∷ arm (codes "-D") no_flag (codes "DynamicForward") false
    ∷ arm (codes "-I") no_flag (codes "PKCS11Provider") false
    ∷ arm (codes "-m") no_flag (codes "MACs") false
    ∷ arm (codes "-S") no_flag (codes "ControlPath") false
    ∷ arm (codes "-w") no_flag (codes "Tunnel") false
    ∷ arm (codes "-P") no_flag (codes "Tag") false
    ∷ []
