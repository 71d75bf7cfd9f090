-- ===== src/Args/Ssh.antt =====
-- src/args/ssh.rs: the destination among forwarded SSH arguments.
pub mod Destination
use color_ssh.Base.{
  ℕ, Text, codes, Bool, true, false, ◌&&◌, ◌||◌, if◌then◌else◌, any, text_eq, strip_prefix,
  after_first, Option, none, some, List, [], ◌∷◌,
}

abbrev pub ssh_flags_with_separate_values : List Text
ssh_flags_with_separate_values =
    codes "-b"
    ∷ codes "-B"
    ∷ codes "-c"
    ∷ codes "-D"
    ∷ codes "-E"
    ∷ codes "-e"
    ∷ codes "-F"
    ∷ codes "-I"
    ∷ codes "-i"
    ∷ codes "-J"
    ∷ codes "-L"
    ∷ codes "-l"
    ∷ codes "-m"
    ∷ codes "-O"
    ∷ codes "-o"
    ∷ codes "-p"
    ∷ codes "-P"
    ∷ codes "-Q"
    ∷ codes "-R"
    ∷ codes "-S"
    ∷ codes "-w"
    ∷ codes "-W"
    ∷ []

abbrev pub non_interactive_flags : List Text
non_interactive_flags = codes "-G" ∷ codes "-V" ∷ codes "-O" ∷ codes "-Q" ∷ []

-- `slice::contains`
abbrev pub listed : List Text → Text → Bool
listed flags arg = any (text_eq arg) flags

-- `arg.starts_with('-')`
unfoldable pub is_flag : Text → Bool
is_flag arg = elim (strip_prefix (codes "-") arg) [ some _ ↦ true | none ↦ false ]

unfoldable pub takes_value : Text → Bool
takes_value arg = listed ssh_flags_with_separate_values arg

unfoldable pub host_part : Text → Text
host_part arg = elim (after_first b'@' arg) [ some host ↦ host | none ↦ arg ]

-- The loop over the arguments, with its variable `skip_next`.
unfoldable pub scan : Bool → List Text → Option Text
scan skip_next [] = none
scan true (arg ∷ args) = scan false args
scan false (arg ∷ args) =
    let next = scan (takes_value arg) args in if is_flag arg then next else some (host_part arg)

unfoldable pub extract_destination_host : List Text → Option Text
extract_destination_host ssh_args = scan false ssh_args

pub is_non_interactive_ssh_invocation : List Text → Bool
is_non_interactive_ssh_invocation ssh_args = any (listed non_interactive_flags) ssh_args
