-- ===== src/TextEdit.antt =====
-- src/tui/text_edit.rs: editing of a one-line field. Positions count characters; a string is cut at
-- byte positions of its UTF-8 form, which panics inside a character. `none` is such a panic.
pub mod Cuts
pub mod Laws
pub mod Spans
mod Examples
use mathlib.Core.Option
use color_ssh.Base.{
  ℕ, zero, suc, ◌+◌, ◌-◌, min, Text, Option, none, some, Bool, true, false, List, [], ◌∷◌, ◌++◌,
  length, ltb, leb, ◌==◌, if◌then◌else◌, is_empty,
}

-- A string with the variables that the functions change with it.
pub record Field : Type 0 where
  pub text : Text
  pub cursor : ℕ
  pub selection : Option (ℕ × ℕ)

-- `char::len_utf8`
abbrev pub len_utf8 : ℕ → ℕ
len_utf8 c = if ltb c 128 then 1 else if ltb c 2048 then 2 else if ltb c 65536 then 3 else 4

-- `str::len`
unfoldable pub byte_len : Text → ℕ
byte_len [] = 0
byte_len (c ∷ s) = len_utf8 c + byte_len s

abbrev pub char_len : Text → ℕ
char_len text = length text

-- The byte position that `char_indices().nth(index)` gives, from an offset on.
unfoldable pub nth_offset : ℕ → Text → ℕ → Option ℕ
nth_offset offset [] index = none
nth_offset offset (c ∷ s) zero = some offset
nth_offset offset (c ∷ s) (suc index) = nth_offset (offset + len_utf8 c) s index

unfoldable pub byte_index_for_char : Text → ℕ → ℕ
unfolding nth_offset
byte_index_for_char text char_index =
    if char_index == 0
    then 0
    else let clamped = min char_index (char_len text) in
      if clamped == char_len text
      then byte_len text
      else elim (nth_offset 0 text clamped) [ none ↦ byte_len text | some index ↦ index ]

-- A string, cut at a byte position; `none` where that is not the start of a character or the end.
unfoldable pub split_at : Text → ℕ → Option (Text × Text)
split_at s zero = some ([], s)
split_at [] (suc n) = none
split_at (c ∷ s) (suc n) =
    if leb (len_utf8 c) (suc n)
    then Option.map (λ cut. (c ∷ cut.0, cut.1)) (split_at s (suc n - len_utf8 c))
    else none

-- What stands before, between and behind two byte positions.
unfoldable pub cut_range : Text → ℕ → ℕ → Option (Text × Text × Text)
unfolding split_at
cut_range text start end = elim (split_at text end) [
  | none ↦ none
  | some (whole, after) ↦ Option.map (λ cut. (cut.0, cut.1, after)) (split_at whole start)
]

-- `text[start..end]`
unfoldable pub slice : Text → ℕ → ℕ → Option Text
unfolding cut_range
slice text start end = Option.map (λ cut. cut.1) (cut_range text start end)

-- `text.replace_range(start..end, "")`
unfoldable pub remove_range : Text → ℕ → ℕ → Option Text
unfolding cut_range
remove_range text start end = Option.map (λ cut. cut.0 ++ cut.2) (cut_range text start end)

-- `text.insert(at, ch)`
unfoldable pub insert : Text → ℕ → ℕ → Option Text
unfolding split_at
insert text at ch = Option.map (λ cut. cut.0 ++ ch ∷ cut.1) (split_at text at)

abbrev pub clamp_cursor : Field → Field
clamp_cursor f = record f { cursor = min f.cursor (char_len f.text) }

abbrev pub ordered : ℕ → ℕ → Option (ℕ × ℕ)
ordered start end =
    if start == end then none else if ltb start end then some (start, end) else some (end, start)

unfoldable pub normalized_selection : Text → Option (ℕ × ℕ) → Option (ℕ × ℕ)
normalized_selection text none = none
normalized_selection text (some (start, end)) =
    ordered (min start (char_len text)) (min end (char_len text))

-- The outer option is the panic.
unfoldable pub selected_text : Text → Option (ℕ × ℕ) → Option (Option Text)
unfolding slice normalized_selection byte_index_for_char
selected_text text selection = elim (normalized_selection text selection) [
  | none ↦ some none
  | some (start, end) ↦
      Option.map some (slice text (byte_index_for_char text start) (byte_index_for_char text end))
]

unfoldable pub delete_selection : Field → Option (Field × Bool)
unfolding remove_range normalized_selection byte_index_for_char
delete_selection f = elim (normalized_selection f.text f.selection) [
  | none ↦ some (record f { selection = none }, false)
  | some (start, end) ↦
      Option.map (λ text. (record { text = text; cursor = start; selection = none }, true))
        (remove_range f.text (byte_index_for_char f.text start) (byte_index_for_char f.text end))
]

unfoldable pub move_cursor_left : Field → Field
unfolding normalized_selection
move_cursor_left f =
    let clamped = clamp_cursor f in
    elim (normalized_selection f.text f.selection) [
      | none ↦ record clamped { selection = none; cursor = clamped.cursor - 1 }
      | some (start, end) ↦ record clamped { selection = none; cursor = start }
    ]

unfoldable pub move_cursor_right : Field → Field
unfolding normalized_selection
move_cursor_right f =
    let clamped = clamp_cursor f in
    elim (normalized_selection f.text f.selection) [
      | none ↦ record clamped {
        selection = none;
        cursor =
            if ltb clamped.cursor (char_len f.text) then clamped.cursor + 1 else clamped.cursor;
      }
      | some (start, end) ↦ record clamped { selection = none; cursor = end }
    ]

abbrev pub move_cursor_home : Field → Field
move_cursor_home f = record f { cursor = 0; selection = none }

abbrev pub move_cursor_end : Field → Field
move_cursor_end f = record f { cursor = char_len f.text; selection = none }

unfoldable pub select_all : Field → Field
select_all f =
    if char_len f.text == 0
    then record f { selection = none; cursor = 0 }
    else record f { selection = some (0, char_len f.text); cursor = char_len f.text }

unfoldable pub put_char : ℕ → Field → Option Field
unfolding insert byte_index_for_char
put_char ch f =
    let clamped = clamp_cursor f in
    Option.map (λ text. record { text = text; cursor = clamped.cursor + 1; selection = none })
      (insert f.text (byte_index_for_char f.text clamped.cursor) ch)

unfoldable pub insert_char : ℕ → Field → Option Field
unfolding delete_selection put_char
insert_char ch f = elim (delete_selection f) [ none ↦ none | some (g, _) ↦ put_char ch g ]

-- `backspace` and `delete_char` where there was no selection to delete
unfoldable pub erase_before : Field → Option Field
unfolding remove_range byte_index_for_char
erase_before f =
    let clamped = clamp_cursor f in
    if clamped.cursor == 0
    then some clamped
    else Option.map (λ text. record { text = text; cursor = clamped.cursor - 1; selection = none })
        (remove_range f.text (byte_index_for_char f.text (clamped.cursor - 1))
          (byte_index_for_char f.text clamped.cursor))

unfoldable pub erase_after : Field → Option Field
unfolding remove_range byte_index_for_char
erase_after f =
    let clamped = clamp_cursor f in
    if leb (char_len f.text) clamped.cursor
    then some clamped
    else Option.map (λ text. record { text = text; cursor = clamped.cursor; selection = none })
        (remove_range f.text (byte_index_for_char f.text clamped.cursor)
          (byte_index_for_char f.text (clamped.cursor + 1)))

unfoldable pub backspace : Field → Option Field
unfolding delete_selection erase_before
backspace f = elim (delete_selection f) [
  | none ↦ none
  | some (g, true) ↦ some g
  | some (g, false) ↦ erase_before g
]

unfoldable pub delete_char : Field → Option Field
unfolding delete_selection erase_after
delete_char f = elim (delete_selection f) [
  | none ↦ none
  | some (g, true) ↦ some g
  | some (g, false) ↦ erase_after g
]
