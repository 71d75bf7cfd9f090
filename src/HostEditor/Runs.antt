-- ===== src/HostEditor/Runs.antt =====
-- Any run of a form, from the moment it is opened: the operations that its keys lead to, each event of
-- the mouse, the folder that it is opened with or that is picked for it, and the messages it is told.
-- What is pasted is typed a character at a time.
use mathlib.Core.Option
use color_ssh.Base.{
  ℕ, Text, Option, none, some, Bool, true, false, List, [], ◌∷◌, ◌≡◌, refl, sym, subst, inl, inr,
  Option-cases,
}
use color_ssh.TextEdit.{Field}
use color_ssh.Inventory.Model.{InventoryHost, SshOptionMap}
use color_ssh.HostEditor.Menu.{next_of, prev_of}
use color_ssh.HostEditor.Fields.{
  HostEditorMode, create, edit, HostEditorField, HostEditorSection, HostEditorState, field_item,
  item_eq, is_rdp,
}
use color_ssh.HostEditor.Selecting.{
  items_of, visible_items, select_next_field, select_prev_field, toggle_section,
  toggle_protocol_forward, shows,
}
use color_ssh.HostEditor.Selecting.Shown.{
  IsShown, select_next_field-IsShown, select_prev_field-IsShown, toggle_section-IsShown,
  toggle_protocol-IsShown,
}
use color_ssh.HostEditor.Choices.{
  select_next_profile, select_prev_profile, select_next_vault_pass, select_prev_vault_pass,
  profile_step, vault_pass_step, finish_mouse_selection, cycle_identities_only_forward,
  cycle_identities_only_backward,
}
use color_ssh.HostEditor.Choices.{sync_profile_index_from_value, sync_vault_pass_index_from_value}
use color_ssh.HostEditor.Typing.{
  text_field, set_text_field, apply_to, with_text_field, sync_of, typed,
}
use color_ssh.HostEditor.Layout.{Rect}
use color_ssh.HostEditor.Mouse.{MouseEvent, handle_host_editor_mouse, with_folder, place_in_folder}
use color_ssh.HostEditor.Mouse.Kept.{mouse-IsShown, with_folder-IsShown, place_in_folder-IsShown}
use color_ssh.HostEditor.Opening.{new_create, new_edit, new_duplicate}

pub data Turn : HostEditorState → HostEditorState → Type 0 where
  next : (s : HostEditorState) → Turn s (select_next_field s)
  prev : (s : HostEditorState) → Turn s (select_prev_field s)
  toggle : (section : HostEditorSection) (s : HostEditorState) → Turn s (toggle_section section s)
  protocol : (s : HostEditorState) → Turn s (toggle_protocol_forward s)
  next_profile : (s : HostEditorState) → Turn s (select_next_profile s)
  prev_profile : (s : HostEditorState) → Turn s (select_prev_profile s)
  next_entry : (s : HostEditorState) → Turn s (select_next_vault_pass s)
  prev_entry : (s : HostEditorState) → Turn s (select_prev_vault_pass s)
  forward : (s : HostEditorState) → Turn s (cycle_identities_only_forward s)
  backward : (s : HostEditorState) → Turn s (cycle_identities_only_backward s)
  -- Any key ends a selection by the mouse first.
  lets_go : (s : HostEditorState) → Turn s (finish_mouse_selection s)
  -- A key that moves the cursor in the text of the selected field, or selects all of it.
  edits :
      (op : Field → Option Field) (field : HostEditorField) {s t : HostEditorState}
      → s.selected ≡ field_item field
      → with_text_field op field (finish_mouse_selection s) ≡ some t
      → Turn s t
  -- A key that changes the text of the selected field.
  types :
      (op : Field → Option Field) (field : HostEditorField) {s t : HostEditorState}
      → s.selected ≡ field_item field
      → typed op field s ≡ some t
      → Turn s t
  -- An event of the mouse, in the area of the tab.
  moves_mouse :
      (mouse : MouseEvent) (content : Rect) (dragging : Bool) (s : HostEditorState)
      → Turn s (handle_host_editor_mouse mouse content dragging s).form
  given_folder : (path : Text) (s : HostEditorState) → Turn s (with_folder path s)
  picks_folder :
      (source_file path : Text) (s : HostEditorState) → Turn s (place_in_folder source_file path s)
  told : (message : Option Text) (s : HostEditorState) → Turn s (record s { error = message })

module _ (json : List Text → Text) (json_options : SshOptionMap → Text) where
  pub data Reach : HostEditorState → Type 0 where
    created :
        (source_file : Text) (profiles entries : List Text)
        → Reach (new_create source_file profiles entries)
    edited :
        (host : InventoryHost) (profiles entries : List Text)
        → Reach (new_edit json json_options host profiles entries)
    copied :
        (host : InventoryHost) (profiles entries : List Text)
        → Reach (new_duplicate json json_options host profiles entries)
    turns : {s t : HostEditorState} → Reach s → Turn s t → Reach t

module _ (collapsed : HostEditorSection → Bool) where
  name-shown :
      (rdp : Bool) (mode : HostEditorMode)
      → shows (items_of rdp mode collapsed) (field_item HostEditorField.name) ≡ true
  unfolding items_of item_eq
  name-shown true create = refl
  name-shown true edit = refl
  name-shown false create = refl
  name-shown false edit = refl

  protocol-shown :
      (rdp : Bool) (mode : HostEditorMode)
      → shows (items_of rdp mode collapsed) (field_item HostEditorField.protocol) ≡ true
  unfolding items_of item_eq
  protocol-shown true create = refl
  protocol-shown true edit = refl
  protocol-shown false create = refl
  protocol-shown false edit = refl

name-IsShown : (s : HostEditorState) → s.selected ≡ field_item HostEditorField.name → IsShown s
unfolding visible_items
name-IsShown s e =
    subst (λ item. shows (visible_items s) item ≡ true) (sym e)
      (name-shown s.collapsed_sections (is_rdp s) s.mode)

profile_step-IsShown :
    (step : ℕ → ℕ → ℕ) (s : HostEditorState) (options : List Text)
    → IsShown s
    → IsShown (profile_step step s options)
unfolding visible_items
profile_step-IsShown step s [] h = h
profile_step-IsShown step s (option ∷ options) h = h

entry_step-IsShown :
    (step : ℕ → ℕ → ℕ) (s : HostEditorState) (options : List Text)
    → IsShown s
    → IsShown (vault_pass_step step s options)
unfolding visible_items
entry_step-IsShown step s [] h = h
entry_step-IsShown step s (option ∷ options) h = h

sync_of-IsShown :
    (field : HostEditorField) (s : HostEditorState) → IsShown s → IsShown (sync_of field s)
unfolding visible_items sync_profile_index_from_value sync_vault_pass_index_from_value
sync_of-IsShown HostEditorField.profile s h = h
sync_of-IsShown HostEditorField.vault_pass s h = h
sync_of-IsShown field s h = h

-- What is typed may change what is shown only in the protocol, which is shown in any form.
set_text_field-IsShown :
    (field : HostEditorField) (f : Field) (s : HostEditorState)
    → s.selected ≡ field_item field
    → IsShown s
    → IsShown (set_text_field field f s)
unfolding visible_items set_text_field
set_text_field-IsShown HostEditorField.protocol f s e h =
    let t : HostEditorState = record s { protocol = f } in
    subst (λ item. shows (visible_items t) item ≡ true) (sym e)
      (protocol-shown s.collapsed_sections (is_rdp t) s.mode)
set_text_field-IsShown field f s e h = h

some_injective : {a b : HostEditorState} → some a ≡ some b → a ≡ b
some_injective h = cc

edited-IsShown :
    (op : Field → Option Field) (field : HostEditorField) (s t : HostEditorState)
    (text : Option Field)
    → s.selected ≡ field_item field
    → IsShown s
    → apply_to field s op text ≡ some t
    → IsShown t
edited-IsShown op field s t none e h done = subst IsShown (some_injective done) h
edited-IsShown op field s t (some f) e h done = elim (Option-cases (op f)) [
  | inl n ↦ cc (rw n at done)
  | inr (g, n) ↦
      subst IsShown (some_injective (rw n at done)) (set_text_field-IsShown field g s e h)
]

synced-IsShown :
    (field : HostEditorField) (edited : Option HostEditorState) (t : HostEditorState)
    → ((s : HostEditorState) → edited ≡ some s → IsShown s)
    → Option.map (sync_of field) edited ≡ some t
    → IsShown t
synced-IsShown field none t h done = cc
synced-IsShown field (some s) t h done =
    subst IsShown (some_injective done) (sync_of-IsShown field s (h s refl))

turn-IsShown : {s t : HostEditorState} → Turn s t → IsShown s → IsShown t
unfolding select_next_profile select_prev_profile select_next_vault_pass select_prev_vault_pass
    cycle_identities_only_forward cycle_identities_only_backward visible_items with_text_field
turn-IsShown (next s) h = select_next_field-IsShown s
turn-IsShown (prev s) h = select_prev_field-IsShown s
turn-IsShown (toggle section s) h = toggle_section-IsShown section s h
turn-IsShown (protocol s) h = toggle_protocol-IsShown s
turn-IsShown (next_profile s) h =
    profile_step-IsShown next_of (finish_mouse_selection s) s.profile_options h
turn-IsShown (prev_profile s) h =
    profile_step-IsShown prev_of (finish_mouse_selection s) s.profile_options h
turn-IsShown (next_entry s) h =
    entry_step-IsShown next_of (finish_mouse_selection s) s.vault_pass_options h
turn-IsShown (prev_entry s) h =
    entry_step-IsShown prev_of (finish_mouse_selection s) s.vault_pass_options h
turn-IsShown (forward s) h = h
turn-IsShown (backward s) h = h
turn-IsShown (types op field {s} {t} e done) h =
    let at_rest = finish_mouse_selection s in
    synced-IsShown field (apply_to field at_rest op (text_field field at_rest)) t
      (λ u. edited-IsShown op field at_rest u (text_field field at_rest) e h) done
turn-IsShown (edits op field {s} {t} e done) h =
    let at_rest = finish_mouse_selection s in
    edited-IsShown op field at_rest t (text_field field at_rest) e h done
turn-IsShown (lets_go s) h = h
turn-IsShown (moves_mouse mouse content dragging s) h = mouse-IsShown mouse content dragging s h
turn-IsShown (given_folder path s) h = with_folder-IsShown path s h
turn-IsShown (picks_folder source_file path s) h = place_in_folder-IsShown source_file path s h
turn-IsShown (told message s) h = h

module _ (json : List Text → Text) (json_options : SshOptionMap → Text) where
  -- In any run of a form, from its opening on, by its keys, by the mouse with its clicks, drags and
  -- wheel, and by the choice of a folder, the selected item is one of those that are shown.
  pub Reach-IsShown : {s : HostEditorState} → Reach json json_options s → IsShown s
  unfolding new_create new_edit new_duplicate
  Reach-IsShown (created source_file profiles entries) =
      name-IsShown (new_create source_file profiles entries) refl
  Reach-IsShown (edited host profiles entries) =
      name-IsShown (new_edit json json_options host profiles entries) refl
  Reach-IsShown (copied host profiles entries) =
      name-IsShown (new_duplicate json json_options host profiles entries) refl
  Reach-IsShown (turns r t) = turn-IsShown t (Reach-IsShown r)
