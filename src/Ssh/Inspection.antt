-- ===== src/Ssh/Inspection.antt =====
-- src/process/ssh_builder.rs: what the caller's arguments say already, and where the destination is.
-- The arms of the loop that only differ in their flag, their field and their key are rows of a table.
pub mod Kept
pub mod Agreement
pub mod Walk
pub mod Scans
use color_ssh.Base.{
  ℕ, ◌+◌, Text, codes, text_eq, ◌==◌, Bool, true, false, not, ◌&&◌, ◌||◌, if◌then◌else◌, Option,
  none, some, List, [], ◌∷◌, is_empty, trim, to_ascii_lowercase, lower, strip_prefix, split_first,
  split_once,
}
use color_ssh.Args.Ssh.{ssh_flags_with_separate_values, listed, is_flag}
use color_ssh.Ssh.Flags.{
  Arm, Override, SshArgInspection, default_inspection, exact_arms, forward_agent, identities_only,
  identity_flag, insert_key, joined_arms, local_forward, mark_option_key, no_flag, port_flag,
  proxy_command, proxy_jump, remote_forward, set_override, user_flag,
}

unfoldable pub find_arm : (Arm → Bool) → List Arm → Option Arm
find_arm p [] = none
find_arm p (a ∷ arms) = if p a then some a else find_arm p arms

-- `arg.starts_with(flag) && arg.len() > flag.len()`: what is behind the flag, if anything is.
abbrev pub is_some_text : Option Text → Bool
is_some_text none = false
is_some_text (some value) = true

abbrev pub not_blank : Option Text → Option Text
not_blank none = none
not_blank (some []) = none
not_blank (some (c ∷ rest)) = some (c ∷ rest)

unfoldable pub joined_value : Text → Text → Option Text
unfolding strip_prefix
joined_value flag arg = not_blank (strip_prefix flag arg)

-- The first half of `split_once` at a character, or the whole text.
unfoldable pub before_first : ℕ → Text → Text
before_first c [] = []
before_first c (d ∷ s) = if c == d then [] else d ∷ before_first c s

abbrev pub option_override : Text → Override
option_override key =
    if text_eq key (codes "user")
    then user_flag
    else if text_eq key (codes "port")
    then port_flag
    else if text_eq key (codes "identityfile")
    then identity_flag
    else if text_eq key (codes "proxyjump")
    then proxy_jump
    else if text_eq key (codes "proxycommand")
    then proxy_command
    else if text_eq key (codes "forwardagent")
    then forward_agent
    else if text_eq key (codes "identitiesonly")
    then identities_only
    else if text_eq key (codes "localforward")
    then local_forward
    else if text_eq key (codes "remoteforward")
    then remote_forward
    else no_flag

unfoldable pub option_key : Text → Text
unfolding before_first trim lower
option_key option_arg = to_ascii_lowercase (trim (before_first b'=' option_arg))

unfoldable pub record_ssh_option : Text → SshArgInspection → SshArgInspection
unfolding option_key set_override
record_ssh_option option_arg st =
    let key = option_key option_arg in
    if is_empty key then st else set_override (option_override key) (insert_key key st)

-- An arm of `mark_short_flag_override`.
abbrev pub short_key : ℕ → Text
short_key c =
    if c == b'A' || c == b'a'
    then codes "ForwardAgent"
    else if c == b'C'
    then codes "Compression"
    else if c == b'f'
    then codes "ForkAfterAuthentication"
    else if c == b'g'
    then codes "GatewayPorts"
    else if c == b'M'
    then codes "ControlMaster"
    else if c == b'N' || c == b's'
    then codes "SessionType"
    else if c == b'n'
    then codes "StdinNull"
    else if c == b'q' || c == b'v'
    then codes "LogLevel"
    else if c == b'T' || c == b't'
    then codes "RequestTTY"
    else if c == b'X' || c == b'x'
    then codes "ForwardX11"
    else if c == b'Y'
    then codes "ForwardX11Trusted"
    else []

abbrev pub short_override : ℕ → Override
short_override c = if c == b'A' || c == b'a' then forward_agent else no_flag

unfoldable pub mark_short_flags : Text → SshArgInspection → SshArgInspection
unfolding mark_option_key set_override
mark_short_flags [] st = st
mark_short_flags (c ∷ flags) st = mark_short_flags flags (
    if is_empty (short_key c)
    then st
    else mark_option_key (short_key c) (set_override (short_override c) st))

-- `chars().skip(1)`
unfoldable pub mark_short_flag_override : Text → SshArgInspection → SshArgInspection
unfolding mark_short_flags
mark_short_flag_override [] st = st
mark_short_flag_override (c ∷ flags) st = mark_short_flags flags st

abbrev pub apply_arm : Arm → SshArgInspection → SshArgInspection
apply_arm a st = mark_option_key a.key (set_override a.sets st)

abbrev pub record_next : List Text → SshArgInspection → SshArgInspection
record_next [] st = st
record_next (value ∷ args) st = record_ssh_option value st

-- `arg.starts_with('-') && !arg.starts_with("--") && arg.len() > 2`
unfoldable pub is_cluster : Text → Bool
is_cluster (dash ∷ c ∷ d ∷ flags) = (dash == b'-') && not (c == b'-')
is_cluster arg = false

abbrev pub cluster_step : Text → SshArgInspection → SshArgInspection
cluster_step arg st = if is_cluster arg then mark_short_flag_override arg st else st

-- The tests behind the `match` and the joined `-o`: another joined flag, a cluster, another flag.
abbrev pub flag_test : Text → SshArgInspection → Bool → Option (SshArgInspection × Bool)
flag_test arg st true = some (cluster_step arg st, listed ssh_flags_with_separate_values arg)
flag_test arg st false = none

abbrev pub joined_test : Text → SshArgInspection → Option Arm → Option (SshArgInspection × Bool)
joined_test arg st (some a) = some (apply_arm a st, false)
joined_test arg st none = flag_test arg st (is_flag arg)

abbrev pub find_joined : Text → Option Arm
find_joined arg = find_arm (λ a. is_some_text (joined_value a.flag arg)) joined_arms

abbrev pub joined_option_test :
    Text → SshArgInspection → Option Text → Option (SshArgInspection × Bool)
joined_option_test arg st (some option_arg) = some (record_ssh_option option_arg st, false)
joined_option_test arg st none = joined_test arg st (find_joined arg)

abbrev pub option_test :
    Text → List Text → SshArgInspection → Bool → Option (SshArgInspection × Bool)
option_test arg args st true = some (record_next args st, true)
option_test arg args st false = joined_option_test arg st (joined_value (codes "-o") arg)

abbrev pub exact_test :
    Text → List Text → SshArgInspection → Option Arm → Option (SshArgInspection × Bool)
exact_test arg args st (some a) = some (apply_arm a st, a.skips)
exact_test arg args st none = option_test arg args st (text_eq arg (codes "-o"))

-- One turn of the loop at a flag: the new inspection and `skip_next`; none at the destination.
unfoldable pub flag_step : Text → List Text → SshArgInspection → Option (SshArgInspection × Bool)
unfolding find_arm joined_value mark_option_key set_override record_ssh_option is_cluster
    mark_short_flag_override is_flag
flag_step arg args st = exact_test arg args st (find_arm (λ a. text_eq arg a.flag) exact_arms)

abbrev pub explicit_user : Text → Option Text → Option Text
explicit_user [] set = set
explicit_user (c ∷ user) set = some (c ∷ user)

abbrev pub at_parts : ℕ → Text → Option (Text × Text) → SshArgInspection → SshArgInspection
at_parts idx arg none st = record st { destination_index = some idx; destination_host = some arg }
at_parts idx arg (some (user, host)) st = record st {
  destination_index = some idx;
  destination_host = some host;
  explicit_destination_user = explicit_user user st.explicit_destination_user;
}

unfoldable pub inspect_from : SshArgInspection → ℕ → Bool → List Text → SshArgInspection
unfolding flag_step split_first
inspect_from st idx skip_next [] = st
inspect_from st idx true (arg ∷ args) = inspect_from st (idx + 1) false args
inspect_from st idx false (arg ∷ args) = elim (flag_step arg args st) [
  | some (next, skip_next) ↦ inspect_from next (idx + 1) skip_next args
  | none ↦ at_parts idx arg (split_once b'@' arg) st
]

unfoldable pub inspect_ssh_args : List Text → SshArgInspection
unfolding inspect_from
inspect_ssh_args args = inspect_from default_inspection 0 false args
