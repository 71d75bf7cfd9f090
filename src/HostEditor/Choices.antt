-- ===== src/HostEditor/Choices.antt =====
-- The profiles and vault entries that the form goes through (src/tui/state/host_editor.rs).
pub mod Profiles
use mathlib.Core.Option
use color_ssh.Base.{
  ℕ, ◌+◌, Text, codes, Option, none, some, Bool, true, false, not, ◌&&◌, ◌||◌, List, [], ◌∷◌, ◌++◌,
  if◌then◌else◌, any, is_empty, trim, lower, get_elem?, length, ◌==◌,
}
use color_ssh.HostEditor.Menu.{next_of, prev_of}
use color_ssh.HostEditor.Fields.{HostEditorState, same_word, input}

-- A trimmed option is added unless it is blank or there, in any case of its letters.
unfoldable pub push_option : List Text → Text → List Text
unfolding trim lower
push_option normalized option =
    let trimmed = trim option in
    if is_empty trimmed || any (λ existing. same_word existing trimmed) normalized
    then normalized
    else normalized ++ trimmed ∷ []

unfoldable pub push_options : List Text → List Text → List Text
unfolding push_option
push_options normalized [] = normalized
push_options normalized (option ∷ options) = push_options (push_option normalized option) options

abbrev pub with_empty : List Text → List Text
with_empty [] = [] ∷ []
with_empty (option ∷ options) = option ∷ options

unfoldable pub normalize_cycle_options : List Text → Bool → List Text
unfolding push_options
normalize_cycle_options options true = with_empty (push_options ([] ∷ []) options)
normalize_cycle_options options false = push_options [] options

-- The first element that passes a test, and the list without it.
unfoldable pub take_first : (Text → Bool) → List Text → Option (Text × List Text)
take_first p [] = none
take_first p (option ∷ options) =
    let later = take_first p options in
    if p option
    then some (option, options)
    else elim later [ none ↦ none | some found ↦ some (found.0, option ∷ found.1) ]

abbrev pub is_default : Text → Bool
is_default profile = same_word profile (codes "default")

abbrev pub default_first : List Text → Option (Text × List Text) → List Text
default_first normalized (some (profile, others)) = profile ∷ others
default_first normalized none = codes "default" ∷ normalized

unfoldable pub normalize_profile_options : List Text → List Text
unfolding normalize_cycle_options take_first lower
normalize_profile_options profile_options =
    let normalized = normalize_cycle_options profile_options false in
    default_first normalized (take_first is_default normalized)

-- A current value that is not blank, trimmed.
abbrev pub given_value : Text → Option Text
given_value trimmed = if is_empty trimmed then none else some trimmed

unfoldable pub current_value : Option Text → Option Text
unfolding trim
current_value none = none
current_value (some current) = given_value (trim current)

abbrev pub first_or_empty : List Text → Text
first_or_empty [] = []
first_or_empty (option ∷ options) = option

unfoldable pub initial_profile_value : Option Text → List Text → Text
unfolding current_value take_first lower
initial_profile_value current profile_options = elim (current_value current) [
  | some value ↦ value
  | none ↦ elim (take_first is_default profile_options) [
    | some found ↦ found.0
    | none ↦ first_or_empty profile_options
  ]
]

unfoldable pub initial_vault_pass_value : Option Text → List Text → Text
unfolding current_value
initial_vault_pass_value current vault_pass_options = elim (current_value current) [
  | some value ↦ value
  | none ↦ first_or_empty vault_pass_options
]

unfoldable pub index_of : Text → List Text → Option ℕ
unfolding lower
index_of word [] = none
index_of word (option ∷ options) =
    let later = index_of word options in
    if same_word option word
    then some 0
    else elim later [ none ↦ none | some index ↦ some (index + 1) ]

-- The index of the value among the options; without one, the first, if there is any.
abbrev pub synced : Option ℕ → List Text → ℕ → ℕ
synced (some index) options previous = index
synced none [] previous = previous
synced none (option ∷ options) previous = 0

unfoldable pub sync_profile_index_from_value : HostEditorState → HostEditorState
unfolding index_of trim
sync_profile_index_from_value s = record s {
  profile_index =
      synced (index_of (trim s.profile.text) s.profile_options) s.profile_options s.profile_index;
}

unfoldable pub sync_vault_pass_index_from_value : HostEditorState → HostEditorState
unfolding index_of trim
sync_vault_pass_index_from_value s = record s {
  vault_pass_index =
      synced (index_of (trim s.vault_pass.text) s.vault_pass_options) s.vault_pass_options
        s.vault_pass_index;
}

abbrev pub finish_mouse_selection : HostEditorState → HostEditorState
finish_mouse_selection s = record s { drag_anchor = none }

-- The option at an index, where the code indexes the list.
abbrev pub option_at : List Text → ℕ → Text
option_at options index = elim (get_elem? options index) [ none ↦ [] | some option ↦ option ]

-- A step of the profile; `finish_mouse_selection` comes first.
abbrev pub profile_step : (ℕ → ℕ → ℕ) → HostEditorState → List Text → HostEditorState
profile_step step s [] = s
profile_step step s (option ∷ options) =
    let index = step (length (option ∷ options)) s.profile_index in
    record s { profile_index = index; profile = input (option_at (option ∷ options) index) }

unfoldable pub select_next_profile : HostEditorState → HostEditorState
unfolding next_of
select_next_profile s = profile_step next_of (finish_mouse_selection s) s.profile_options

unfoldable pub select_prev_profile : HostEditorState → HostEditorState
unfolding prev_of
select_prev_profile s = profile_step prev_of (finish_mouse_selection s) s.profile_options

abbrev pub vault_pass_step : (ℕ → ℕ → ℕ) → HostEditorState → List Text → HostEditorState
vault_pass_step step s [] = s
vault_pass_step step s (option ∷ options) =
    let index = step (length (option ∷ options)) s.vault_pass_index in
    record s { vault_pass_index = index; vault_pass = input (option_at (option ∷ options) index) }

unfoldable pub select_next_vault_pass : HostEditorState → HostEditorState
unfolding next_of
select_next_vault_pass s = vault_pass_step next_of (finish_mouse_selection s) s.vault_pass_options

unfoldable pub select_prev_vault_pass : HostEditorState → HostEditorState
unfolding prev_of
select_prev_vault_pass s = vault_pass_step prev_of (finish_mouse_selection s) s.vault_pass_options

unfoldable pub cycle_identities_only_forward : HostEditorState → HostEditorState
cycle_identities_only_forward s = record s {
  identities_only = elim (s.identities_only) [
    | none ↦ some true
    | some true ↦ some false
    | some false ↦ none
  ];
}

unfoldable pub cycle_identities_only_backward : HostEditorState → HostEditorState
cycle_identities_only_backward s = record s {
  identities_only = elim (s.identities_only) [
    | none ↦ some false
    | some false ↦ some true
    | some true ↦ none
  ];
}
