-- ===== src/TextEdit/Examples.antt =====
-- A field with characters of several widths, and the laws of editing at it.
use color_ssh.Base.{none, some, [], ◌∷◌, ◌≡◌}
use color_ssh.TextEdit.{Field, insert_char, backspace, normalized_selection}
use color_ssh.TextEdit.Laws.{insert_char_lem, backspace_lem}

abbrev field : Field
field = record { text = 233 ∷ 8364 ∷ 97 ∷ []; cursor = 1; selection = none }

abbrev marked : Field
marked = record { text = 233 ∷ 8364 ∷ 97 ∷ []; cursor = 3; selection = some (9, 1) }

insert_char_lem_example :
    insert_char 98 marked ≡ some (record { text = 233 ∷ 98 ∷ []; cursor = 2; selection = none })
unfolding normalized_selection
insert_char_lem_example = insert_char_lem 98 marked

backspace_lem_example :
    backspace field ≡ some (record { text = 8364 ∷ 97 ∷ []; cursor = 0; selection = none })
unfolding normalized_selection
backspace_lem_example = backspace_lem field

abbrev typed : Field
typed = record { text = 233 ∷ 98 ∷ []; cursor = 2; selection = none }
