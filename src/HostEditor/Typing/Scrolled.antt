-- ===== src/HostEditor/Typing/Scrolled.antt =====
-- The cursor of a scrolled field is in view.
use color_ssh.Base.{ℕ, ◌+◌, ◌≤◌, ◌<◌, min, some, true, ◌≡◌, arith}
use color_ssh.TextEdit.{Field, char_len}
use color_ssh.HostEditor.Fields.{HostEditorField, HostEditorState, field_item, item_eq}
use color_ssh.HostEditor.Typing.{text_field, scroll_offset, field_horizontal_scroll_offset}

scroll_offset-shows :
    (len cursor width : ℕ)
    → cursor ≤ len
    → 2 ≤ width
    → (scroll_offset len cursor width ≤ cursor) × (cursor < scroll_offset len cursor width + width)
unfolding scroll_offset
scroll_offset-shows len cursor width c w = ground (arith, c, w)

-- In the selected field, with at least two cells, the cell of the cursor is one of those that are shown,
-- also behind the last character.
pub field_horizontal_scroll_offset-shows :
    (field : HostEditorField) (width : ℕ) (s : HostEditorState) (f : Field)
    → text_field field s ≡ some f
    → item_eq s.selected (field_item field) ≡ true
    → 2 ≤ width
    → (field_horizontal_scroll_offset field width s ≤ min f.cursor (char_len f.text))
      × (min f.cursor (char_len f.text) < field_horizontal_scroll_offset field width s + width)
unfolding field_horizontal_scroll_offset
field_horizontal_scroll_offset-shows field width s f t e w =
    rw (t, e, field_horizontal_scroll_offset)
      (scroll_offset-shows (char_len f.text) (min f.cursor (char_len f.text)) width (omega arith) w)
