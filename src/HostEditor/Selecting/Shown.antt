-- ===== src/HostEditor/Selecting/Shown.antt =====
-- The selected item is one that is shown, and a step forward and one back lead to it again.
use color_ssh.Base.{
  ℕ, zero, suc, ◌<◌, ◌==◌, codes, trim, is_empty, text_eq, Option, none, some, Bool, true, false,
  not, ◌||◌, List, [], ◌∷◌, ◌++◌, if◌then◌else◌, any, length, ◌≡◌, refl, inl, inr, arith,
  Bool-cases, Option-cases,
}
use color_ssh.HostEditor.Menu.{next_of, prev_of, next_of-lt, prev_of-lt}
use color_ssh.HostEditor.Fields.{
  HostEditorMode, create, edit, HostEditorField, HostEditorSection, is_collapsible, section_eq,
  HostEditorVisibleItem, field_item, item_rank, item_eq, HostEditorState, is_rdp, input,
}
use color_ssh.HostEditor.Selecting.{
  section_items, sections_of, action_items, items_of, visible_items, shows, position, item_at,
  step_from, select_next_field, select_prev_field, header_of, fallback_item, header_or_fallback,
  visible_or, ensure_selected_item_visible, toggle_section, set_protocol_value, visible_sections,
  toggled, default_port, toggle_protocol_forward, apply_default_port_for_protocol_switch,
}

-- The form's selection is shown.
abbrev pub IsShown : HostEditorState → Type 0
IsShown s = shows (visible_items s) s.selected ≡ true

abbrev NotEmpty : List HostEditorVisibleItem → Type 0
NotEmpty items = 0 < length items

append-NotEmpty :
    (items : List HostEditorVisibleItem) (mode : HostEditorMode)
    → NotEmpty (items ++ action_items mode)
append-NotEmpty [] create = omega arith
append-NotEmpty [] edit = omega arith
append-NotEmpty (item ∷ items) mode = omega arith

visible-NotEmpty : (s : HostEditorState) → NotEmpty (visible_items s)
unfolding visible_items items_of
visible-NotEmpty s =
    append-NotEmpty
      (section_items (is_rdp s) s.mode s.collapsed_sections (sections_of (is_rdp s) s.mode)) s.mode

rank_refl : (n : ℕ) → (n == n) ≡ true
rank_refl n = ground arith

pub item_eq_refl : (item : HostEditorVisibleItem) → item_eq item item ≡ true
unfolding item_eq
item_eq_refl item = rank_refl (item_rank item)

pub or_right : (a b : Bool) → b ≡ true → (a || b) ≡ true
or_right a b h = ground (arith, h)

pub shows-item_at :
    (items : List HostEditorVisibleItem) (index : ℕ)
    → index < length items
    → shows items (item_at items index) ≡ true
shows-item_at [] index h = ground (arith, h)
shows-item_at (item ∷ items) zero h = rw (item_eq_refl item) refl
shows-item_at (item ∷ items) (suc index) h =
    or_right _ _ (shows-item_at items index (omega (arith, h)))

pub position-lt :
    (item : HostEditorVisibleItem) (items : List HostEditorVisibleItem) (index : ℕ)
    → position item items ≡ some index
    → index < length items
unfolding position
position-lt item [] index h = cc
position-lt item (first ∷ items) index h = elim (Bool-cases (item_eq first item)) [
  | inl e ↦ ground (arith, h, e)
  | inr e ↦ elim (Option-cases (position item items)) [
    | inl n ↦ absurd (ground (arith, h, e, n))
    | inr (below, n) ↦ let b = position-lt item items below n in ground (arith, h, e, n, b)
  ]
]

step_from-shown :
    (step : ℕ → ℕ → ℕ) (item : HostEditorVisibleItem) (items : List HostEditorVisibleItem)
    → ((count index : ℕ) → index < count → step count index < count)
    → NotEmpty items
    → shows items (step_from step item items) ≡ true
unfolding step_from
step_from-shown step item items within some_item = elim (Option-cases (position item items)) [
  | inl n ↦ rw (n, step_from) (shows-item_at items 0 some_item)
  | inr (index, n) ↦
      rw (n, step_from)
        (shows-item_at items (step (length items) index)
          (within (length items) index (position-lt item items index n)))
]

fallback-shown :
    (items : List HostEditorVisibleItem) → NotEmpty items → shows items (fallback_item items) ≡ true
fallback-shown items some_item =
    elim (Bool-cases (shows items (field_item HostEditorField.protocol))) [
      | inl e ↦ rw e e
      | inr e ↦ rw e (shows-item_at items 0 some_item)
    ]

header-shown :
    (items : List HostEditorVisibleItem) (header : Option HostEditorVisibleItem)
    → NotEmpty items
    → shows items (header_or_fallback items header) ≡ true
header-shown items none some_item = fallback-shown items some_item
header-shown items (some header) some_item = elim (Bool-cases (shows items header)) [
  | inl e ↦ rw e e
  | inr e ↦ rw e (fallback-shown items some_item)
]

visible_or-shown :
    (items : List HostEditorVisibleItem) (item : HostEditorVisibleItem)
    → NotEmpty items
    → shows items (visible_or items item) ≡ true
visible_or-shown items item some_item = elim (Bool-cases (shows items item)) [
  | inl e ↦ rw e e
  | inr e ↦ rw e (header-shown items (header_of item) some_item)
]

ensure-IsShown : (s : HostEditorState) → IsShown (ensure_selected_item_visible s)
unfolding ensure_selected_item_visible
ensure-IsShown s = visible_or-shown (visible_items s) s.selected (visible-NotEmpty s)

pub select_next_field-IsShown : (s : HostEditorState) → IsShown (select_next_field s)
unfolding select_next_field
select_next_field-IsShown s =
    step_from-shown next_of s.selected (visible_items s) next_of-lt (visible-NotEmpty s)

pub select_prev_field-IsShown : (s : HostEditorState) → IsShown (select_prev_field s)
unfolding select_prev_field
select_prev_field-IsShown s =
    step_from-shown prev_of s.selected (visible_items s) prev_of-lt (visible-NotEmpty s)

pub kept : (b : Bool) (s t : HostEditorState) → IsShown s → IsShown t → IsShown (if b then s else t)
kept true s t h g = h
kept false s t h g = g

pub toggle_section-IsShown :
    (section : HostEditorSection) (s : HostEditorState)
    → IsShown s
    → IsShown (toggle_section section s)
unfolding toggle_section
toggle_section-IsShown section s h =
    kept (not (is_collapsible section) || not (any (section_eq section) (visible_sections s))) s _ h
      (ensure-IsShown (record s { collapsed_sections = toggled section s.collapsed_sections }))

default_port-IsShown :
    (was_rdp : Bool) (s : HostEditorState)
    → IsShown s
    → IsShown (apply_default_port_for_protocol_switch was_rdp s)
unfolding apply_default_port_for_protocol_switch visible_items
default_port-IsShown was_rdp s h =
    let current = trim s.port.text in
    kept (is_empty current || text_eq current (default_port was_rdp))
      (record s { port = input (default_port (is_rdp s)) }) s h h

pub toggle_protocol-IsShown : (s : HostEditorState) → IsShown (toggle_protocol_forward s)
unfolding toggle_protocol_forward set_protocol_value
toggle_protocol-IsShown s =
    default_port-IsShown (is_rdp s)
      (ensure_selected_item_visible
        (record s { protocol = input (if is_rdp s then codes "ssh" else codes "rdp") }))
      (ensure-IsShown
        (record s { protocol = input (if is_rdp s then codes "ssh" else codes "rdp") }))
