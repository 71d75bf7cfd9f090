-- ===== src/Config.antt =====
-- src/config/schema.rs: the settings that bound a session and the layout, with their defaults and
-- the ranges that a loaded value is brought into.
use color_ssh.Base.{ℕ, min, max, Text, Option, none, Bool, true, false, List}

pub record AuthSettings : Type 0 where
  pub idle_timeout_seconds : ℕ
  pub session_timeout_seconds : ℕ
  pub direct_password_autologin : Bool
  pub tui_password_autologin : Bool

abbrev pub default_idle_timeout_seconds : ℕ
default_idle_timeout_seconds = 900

abbrev pub default_session_timeout_seconds : ℕ
default_session_timeout_seconds = 3600

abbrev pub default_auth_settings : AuthSettings
default_auth_settings = record {
  idle_timeout_seconds = default_idle_timeout_seconds;
  session_timeout_seconds = default_session_timeout_seconds;
  direct_password_autologin = true;
  tui_password_autologin = true;
}

pub record Settings : Type 0 where
  pub remove_secrets : Option (List Text)
  pub show_title : Bool
  pub debug_mode : Bool
  pub ssh_logging : Bool

abbrev pub default_settings : Settings
default_settings = record {
  remove_secrets = none;
  show_title = true;
  debug_mode = false;
  ssh_logging = false;
}

-- A value of a setting, brought into its range.
abbrev pub deserialize_host_view_size : ℕ → ℕ
deserialize_host_view_size value = min (max value 10) 70

abbrev pub deserialize_info_view_size : ℕ → ℕ
deserialize_info_view_size value = min (max value 10) 80

abbrev pub deserialize_remote_clipboard_max_bytes : ℕ → ℕ
deserialize_remote_clipboard_max_bytes value = min (max value 64) 1048576

pub data HighlightOverlayMode : Type 0 where
  auto always off : HighlightOverlayMode

pub data HighlightOverlayAutoPolicy : Type 0 where
  safe reduced relaxed : HighlightOverlayAutoPolicy

pub record InteractiveSettings : Type 0 where
  pub history_buffer : ℕ
  pub host_tree_uncollapsed : Bool
  pub info_view : Bool
  pub host_view_size : ℕ
  pub info_view_size : ℕ
  pub allow_remote_clipboard_write : Bool
  pub remote_clipboard_max_bytes : ℕ
  pub overlay_highlighting : HighlightOverlayMode
  pub overlay_auto_policy : HighlightOverlayAutoPolicy
