-- ===== src/HostEditor/Menu.antt =====
-- The context menu of the host tree (`HostContextMenuState` of src/tui/state/host_editor.rs).
use native.Mathlib.Nat.{mod_self, mod-eq_of_lt}
use color_ssh.Base.{
  ℕ, zero, suc, ◌+◌, ◌-◌, ◌%◌, ◌<◌, ◌==◌, Text, codes, Option, List, [], ◌∷◌, if◌then◌else◌, length,
  get_elem?, ◌≡◌, arith, Bool-cases, inl, inr, ◌⊎◌,
}

pub data HostContextMenuAction : Type 0 where
  edit_entry duplicate_entry move_to_folder delete_entry connect_host : HostContextMenuAction
  new_entry_in_folder new_folder rename_folder delete_folder : HostContextMenuAction

abbrev pub label : HostContextMenuAction → Text
label edit_entry = codes "Edit Entry"
label duplicate_entry = codes "Duplicate Entry"
label move_to_folder = codes "Move to Folder..."
label delete_entry = codes "Delete Entry"
label connect_host = codes "Connect"
label new_entry_in_folder = codes "New Entry in this Folder"
label new_folder = codes "New Folder"
label rename_folder = codes "Rename Folder"
label delete_folder = codes "Delete Folder"

pub data HostContextMenuTarget : Type 0 where
  host_at : (host_idx : ℕ) → HostContextMenuTarget
  folder_at : (folder_id : ℕ) (source_file : Text) → HostContextMenuTarget
  background : (source_file : Text) → HostContextMenuTarget

pub record HostContextMenuState : Type 0 where
  pub column : ℕ
  pub row : ℕ
  pub actions : List HostContextMenuAction
  pub selected : ℕ
  pub target : HostContextMenuTarget

abbrev pub host_actions : List HostContextMenuAction
host_actions = edit_entry ∷ duplicate_entry ∷ move_to_folder ∷ delete_entry ∷ connect_host ∷ []

abbrev pub folder_actions : List HostContextMenuAction
folder_actions = new_entry_in_folder ∷ new_folder ∷ rename_folder ∷ delete_folder ∷ []

abbrev menu : ℕ → ℕ → List HostContextMenuAction → HostContextMenuTarget → HostContextMenuState
menu column row actions target = record {
  column = column;
  row = row;
  actions = actions;
  selected = 0;
  target = target;
}

abbrev pub for_host : ℕ → ℕ → ℕ → HostContextMenuState
for_host column row host_idx = menu column row host_actions (host_at host_idx)

abbrev pub for_folder : ℕ → ℕ → ℕ → Text → HostContextMenuState
for_folder column row folder_id source_file =
    menu column row folder_actions (folder_at folder_id source_file)

abbrev pub for_new_entry : ℕ → ℕ → Text → HostContextMenuState
for_new_entry column row source_file =
    menu column row (new_entry_in_folder ∷ new_folder ∷ []) (background source_file)

abbrev pub selected_action : HostContextMenuState → Option HostContextMenuAction
selected_action m = get_elem? m.actions m.selected

-- The step to the next and to the previous of so many, that goes round.
unfoldable pub next_of : ℕ → ℕ → ℕ
next_of zero index = 0
next_of (suc count) index = (index + 1) % suc count

unfoldable pub prev_of : ℕ → ℕ → ℕ
prev_of zero index = 0
prev_of (suc count) index = if index == 0 then count else index - 1

unfoldable pub select_next : HostContextMenuState → HostContextMenuState
unfolding next_of
select_next m = record m { selected = next_of (length m.actions) m.selected }

unfoldable pub select_prev : HostContextMenuState → HostContextMenuState
unfolding prev_of
select_prev m = record m { selected = prev_of (length m.actions) m.selected }

abbrev pub title : HostContextMenuTarget → Text
title (host_at host_idx) = codes " Host Menu "
title (folder_at folder_id source_file) = codes " Folder Menu "
title (background source_file) = codes " Inventory Menu "

next_of-cases :
    (count index : ℕ)
    → index < suc count
    → ((index ≡ count) × (next_of (suc count) index ≡ 0))
      ⊎ ((index < count) × (next_of (suc count) index ≡ index + 1))
unfolding next_of
next_of-cases count index h = elim (Bool-cases (index == count)) [
  | inl e ↦ inl (
    ground (arith, e),
    (let same : index + 1 ≡ suc count = ground (arith, e) in rw same (mod_self (suc count))),
  )
  | inr e ↦ inr (ground (arith, e, h), mod-eq_of_lt (ground (arith, e, h)))
]

-- The two steps undo each other, and stay within the count.
pub prev_of-next_of :
    (count index : ℕ) → index < count → prev_of count (next_of count index) ≡ index
unfolding prev_of
prev_of-next_of zero index h = omega (arith, h)
prev_of-next_of (suc count) index h = elim (next_of-cases count index h) [
  | inl (e, n) ↦ ground (arith, e, n)
  | inr (l, n) ↦ ground (arith, l, n)
]

pub next_of-prev_of :
    (count index : ℕ) → index < count → next_of count (prev_of count index) ≡ index
unfolding prev_of
next_of-prev_of zero index h = omega (arith, h)
next_of-prev_of (suc count) zero h = elim (next_of-cases count count (omega arith)) [
  | inl (e, n) ↦ n
  | inr (l, n) ↦ omega (arith, l)
]
next_of-prev_of (suc count) (suc index) h = elim (next_of-cases count index (omega (arith, h))) [
  | inl (e, n) ↦ omega (arith, e, h)
  | inr (l, n) ↦ ground (arith, n)
]

pub next_of-lt : (count index : ℕ) → index < count → next_of count index < count
next_of-lt zero index h = omega (arith, h)
next_of-lt (suc count) index h = elim (next_of-cases count index h) [
  | inl (e, n) ↦ omega (arith, n)
  | inr (l, n) ↦ omega (arith, n, l)
]

pub prev_of-lt : (count index : ℕ) → index < count → prev_of count index < count
unfolding prev_of
prev_of-lt zero index h = omega (arith, h)
prev_of-lt (suc count) index h = ground (arith, h)
