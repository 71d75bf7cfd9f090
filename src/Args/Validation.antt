-- ===== src/Args/Validation.antt =====
-- src/args/validation.rs: which names a profile and a vault entry may have.
pub mod Names
use color_ssh.Base.{
  ℕ, Text, codes, Bool, not, ◌&&◌, ◌||◌, ◌==◌, if◌then◌else◌, all, is_empty, is_ascii_alphanumeric,
  trim, Result, ok, err,
}

abbrev pub profile_char : ℕ → Bool
profile_char ch = is_ascii_alphanumeric ch || (ch == b'_' || ch == b'-')

abbrev pub vault_entry_char : ℕ → Bool
vault_entry_char ch = is_ascii_alphanumeric ch || (ch == b'.' || (ch == b'_' || ch == b'-'))

pub validate_profile_name : Text → Bool
validate_profile_name name = not (is_empty name) && all profile_char name

abbrev pub invalid_profile_name_message : Text
invalid_profile_name_message = codes "invalid profile name: use only letters, numbers, '_' or '-'"

abbrev pub invalid_vault_entry_name_message : Text
invalid_vault_entry_name_message =
    codes "invalid pass entry name: use only letters, numbers, '.', '_' or '-'"

pub parse_profile_name : Text → Result Text Text
parse_profile_name value =
    if not (validate_profile_name (trim value))
    then err invalid_profile_name_message
    else ok (trim value)

unfoldable pub validate_vault_entry_name : Text → Bool
validate_vault_entry_name name = not (is_empty name) && all vault_entry_char name

pub parse_vault_entry_name : Text → Result Text Text
parse_vault_entry_name value =
    if not (validate_vault_entry_name (trim value))
    then err invalid_vault_entry_name_message
    else ok (trim value)
