-- ===== src/HostEditor/Examples.antt =====
-- A form for a new host, and one for a host of the inventory.
use color_ssh.Base.{
  ◌+◌, ◌≤◌, ◌<◌, min, Text, codes, Result, ok, some, false, List, [], ◌∷◌, ◌≡◌, refl, arith,
  is_ascii_alphanumeric,
}
use color_ssh.Inventory.Value.{Value, null}
use color_ssh.Inventory.Model.{ssh, SshOptionMap}
use color_ssh.HostEditor.Fields.{HostEditorField, field_item, HostEditorState, input, item_eq}
use color_ssh.HostEditor.Selecting.{select_next_field, select_prev_field}
use color_ssh.HostEditor.Selecting.Shown.{IsShown}
use color_ssh.HostEditor.Selecting.Steps.{select_next_field-select_prev_field}
use color_ssh.HostEditor.Choices.{normalize_profile_options}
use color_ssh.HostEditor.Choices.Profiles.{IsProfileList, normalize_profile_options-IsProfileList}
use color_ssh.HostEditor.Typing.{field_horizontal_scroll_offset, text_field}
use color_ssh.HostEditor.Typing.Scrolled.{field_horizontal_scroll_offset-shows}
use color_ssh.HostEditor.Submission.{build_submission, HostEditorSubmission, submission, host_from}
use color_ssh.HostEditor.Submission.Handed.{IsHandedOn, build_submission-IsHandedOn}
use color_ssh.HostEditor.Opening.{new_create}
use color_ssh.HostEditor.Layout.{Rect}
use color_ssh.HostEditor.Mouse.{MouseEvent, left_down, handle_host_editor_mouse}
use color_ssh.HostEditor.Runs.{moves_mouse, created, turns, next, Reach-IsShown}

abbrev profiles : List Text
profiles = codes "work" ∷ codes " Default " ∷ codes "WORK" ∷ []

abbrev entries : List Text
entries = codes "web" ∷ []

abbrev fresh : HostEditorState
fresh = new_create (codes "hosts.yml") profiles entries

abbrev filled : HostEditorState
filled = record fresh {
  name = input (codes " web ");
  host = input (codes "10.0.0.7");
  port = input (codes "0");
}

abbrev no_json : List Text → Text
no_json texts = []

abbrev no_options : SshOptionMap → Text
no_options options = []

abbrev from_str : Text → Result Text Value
from_str text = ok null

offered : normalize_profile_options profiles ≡ codes "Default" ∷ codes "work" ∷ []
unfolding normalize_profile_options
offered = refl

normalize_profile_options-IsProfileList_example : IsProfileList (normalize_profile_options profiles)
normalize_profile_options-IsProfileList_example = normalize_profile_options-IsProfileList profiles

-- A click at the second field of the form, the description, in a tab of 40 by 20 cells.
abbrev click : MouseEvent
click = record { kind = left_down; column = 1; row = 5 }

abbrev tab : Rect
tab = record { x = 0; y = 0; width = 40; height = 20 }

abbrev clicked_form : HostEditorState
clicked_form = (handle_host_editor_mouse click tab false fresh).form

clicked_form-selected : clicked_form.selected ≡ field_item HostEditorField.description
unfolding handle_host_editor_mouse new_create text_field item_eq
clicked_form-selected = refl

Reach-IsShown_example : IsShown (select_next_field clicked_form)
Reach-IsShown_example = Reach-IsShown no_json no_options (
    turns (turns (created (codes "hosts.yml") profiles entries) (moves_mouse click tab false fresh))
      (next clicked_form))

select_next_field-select_prev_field_example :
    ((select_prev_field (select_next_field fresh)).selected ≡ fresh.selected)
    × ((select_next_field (select_prev_field fresh)).selected ≡ fresh.selected)
select_next_field-select_prev_field_example =
    select_next_field-select_prev_field fresh
      (Reach-IsShown no_json no_options (created (codes "hosts.yml") profiles entries))

field_horizontal_scroll_offset-shows_example :
    (field_horizontal_scroll_offset HostEditorField.name 2 filled ≤ min 5 5)
    × (min 5 5 < field_horizontal_scroll_offset HostEditorField.name 2 filled + 2)
unfolding new_create text_field item_eq
field_horizontal_scroll_offset-shows_example =
    field_horizontal_scroll_offset-shows HostEditorField.name 2 filled (input (codes " web ")) refl
      refl (omega arith)

abbrev handed : HostEditorSubmission
handed = submission filled [] (host_from filled ssh (some 0) (some (codes "web")) [] [] [] [] [])

build_submission-IsHandedOn_example : IsHandedOn filled handed
unfolding build_submission new_create is_ascii_alphanumeric
build_submission-IsHandedOn_example = build_submission-IsHandedOn from_str filled handed refl
