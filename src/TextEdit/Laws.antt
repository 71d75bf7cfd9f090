-- ===== src/TextEdit/Laws.antt =====
-- What editing does to a field, on characters.
use color_ssh.Base.{
  ℕ, zero, suc, ◌+◌, ◌-◌, ◌≤◌, ◌<◌, min, Text, Option, none, some, true, false, [], ◌∷◌, ◌++◌, ◌≡◌,
  refl, sym, ◌∙◌, length, take, drop, take-append-drop, length-take, length-drop, length-append,
  leb, arith, Option-cases, Bool-cases, leb→le, inl, inr,
}
use color_ssh.TextEdit.{
  Field, char_len, clamp_cursor, normalized_selection, selected_text, delete_selection, insert_char,
  put_char, backspace, delete_char, erase_before, erase_after, move_cursor_left, move_cursor_right,
  select_all,
}
use color_ssh.TextEdit.Cuts.{slice_lem, remove_range_lem, insert_lem}

-- The field without what is selected, the cursor where that began and inside the text.
abbrev pub cleared_by : Field → Option (ℕ × ℕ) → Field
cleared_by f none = clamp_cursor (record f { selection = none })
cleared_by f (some (start, end)) = record {
  text = take start f.text ++ drop end f.text;
  cursor = start;
  selection = none;
}

abbrev pub cleared : Field → Field
cleared f = cleared_by f (normalized_selection f.text f.selection)

-- A selection runs forward, is not empty, and ends inside the text.
selection-bounds :
    (text : Text) (selection : Option (ℕ × ℕ)) (start end : ℕ)
    → normalized_selection text selection ≡ some (start, end)
    → (start < end) × (end ≤ char_len text)
unfolding normalized_selection
selection-bounds text none start end h = cc
selection-bounds text (some (a, b)) start end h = ground arith

delete_lem :
    (f : Field) (start end : ℕ)
    → normalized_selection f.text f.selection ≡ some (start, end)
    → delete_selection f ≡ some (cleared f, true)
unfolding delete_selection
delete_lem f start end h =
    let bounds = selection-bounds f.text f.selection start end h in
    ground (arith, remove_range_lem f.text start end (omega (arith, bounds.0)))

keep_lem :
    (f : Field)
    → normalized_selection f.text f.selection ≡ none
    → delete_selection f ≡ some (record f { selection = none }, false)
unfolding delete_selection
keep_lem f h = ground arith

put_lem :
    (ch : ℕ) (f : Field)
    → put_char ch f ≡ (
        let c = min f.cursor (char_len f.text) in
        some
          (record { text = take c f.text ++ ch ∷ drop c f.text; cursor = c + 1; selection = none }))
unfolding put_char
put_lem ch f = ground (arith, insert_lem f.text (min f.cursor (char_len f.text)) ch)

cursor-in :
    (f : Field) (start end : ℕ)
    → normalized_selection f.text f.selection ≡ some (start, end)
    → min start (char_len (take start f.text ++ drop end f.text)) ≡ start
cursor-in f start end h =
    let bounds = selection-bounds f.text f.selection start end h in
    omega (
      arith,
      bounds.0,
      bounds.1,
      length-append (take start f.text) (drop end f.text),
      length-take start f.text,
    )

-- Typing a character never panics: it replaces the selection, or goes in at the cursor, which is
-- first brought into the text, and the cursor stands behind it.
pub insert_char_lem :
    (ch : ℕ) (f : Field)
    → let g = cleared f in
      insert_char ch f
      ≡ some (record {
        text = take g.cursor g.text ++ ch ∷ drop g.cursor g.text;
        cursor = g.cursor + 1;
        selection = none;
      })
unfolding insert_char
insert_char_lem ch f = elim (Option-cases (normalized_selection f.text f.selection)) [
  | inl e ↦ ground (arith, keep_lem f e, put_lem ch (record f { selection = none }))
  | inr ((start, end), e) ↦
      ground (arith, delete_lem f start end e, put_lem ch (cleared f), cursor-in f start end e)
]

-- A backspace never panics: it removes the selection, or else the character before the cursor,
-- if there is one.
pub backspace_lem :
    (f : Field)
    → backspace f ≡ (
        let g = cleared f in
        elim (normalized_selection f.text f.selection) [
          | some _ ↦ some g
          | none ↦ some (record {
            text = take (g.cursor - 1) g.text ++ drop g.cursor g.text;
            cursor = g.cursor - 1;
            selection = none;
          })
        ])
unfolding backspace erase_before
backspace_lem f = elim (Option-cases (normalized_selection f.text f.selection)) [
  | inl e ↦
      let c = min f.cursor (char_len f.text) in
      ground (arith, keep_lem f e, remove_range_lem f.text (c - 1) c (omega arith))
  | inr ((start, end), e) ↦ ground (arith, delete_lem f start end e)
]

cut_past_end : (text : Text) (i : ℕ) → length text ≤ i → take i text ++ drop (i + 1) text ≡ text
cut_past_end [] zero h = refl
cut_past_end [] (suc i) h = ground arith
cut_past_end (c ∷ s) zero h = absurd (omega arith)
cut_past_end (c ∷ s) (suc i) h = ground (arith, cut_past_end s i)

erase_after_lem :
    (f : Field)
    → f.selection ≡ none
    → let c = min f.cursor (char_len f.text) in
      erase_after f
      ≡ some (record { text = take c f.text ++ drop (c + 1) f.text; cursor = c; selection = none })
unfolding erase_after
erase_after_lem f n =
    let c = min f.cursor (char_len f.text) in
    elim (Bool-cases (leb (char_len f.text) c)) [
      | inl e ↦ let whole = cut_past_end f.text c (leb→le _ _ e) in rw (e, whole, n)
      | inr e ↦ rw (e, remove_range_lem f.text c (c + 1) (omega arith))
    ]

-- Delete never panics: it removes the selection, or else the character behind the cursor, if
-- there is one.
pub delete_char_lem :
    (f : Field)
    → delete_char f ≡ (
        let g = cleared f in
        elim (normalized_selection f.text f.selection) [
          | some _ ↦ some g
          | none ↦ some (record {
            text = take g.cursor g.text ++ drop (g.cursor + 1) g.text;
            cursor = g.cursor;
            selection = none;
          })
        ])
unfolding delete_char
delete_char_lem f = elim (Option-cases (normalized_selection f.text f.selection)) [
  | inl e ↦ ground (arith, keep_lem f e, erase_after_lem (record f { selection = none }) refl)
  | inr ((start, end), e) ↦ ground (arith, delete_lem f start end e)
]

module _ (c : ℕ) where
  take-insert :
      (text : Text) (i : ℕ)
      → i ≤ length text
      → take i (take i text ++ c ∷ drop i text) ≡ take i text
  take-insert text zero h = refl
  take-insert [] (suc i) h = absurd (omega arith)
  take-insert (d ∷ s) (suc i) h = ground (arith, take-insert s i)

  drop-insert :
      (text : Text) (i : ℕ)
      → i ≤ length text
      → drop (suc i) (take i text ++ c ∷ drop i text) ≡ drop i text
  drop-insert text zero h = refl
  drop-insert [] (suc i) h = absurd (omega arith)
  drop-insert (d ∷ s) (suc i) h = ground (arith, drop-insert s i)

  length-insert :
      (text : Text) (i : ℕ)
      → i ≤ length text
      → length (take i text ++ c ∷ drop i text) ≡ suc (length text)
  length-insert text i h =
      omega (
        arith,
        length-append (take i text) (c ∷ drop i text),
        length-take i text,
        length-drop i text,
      )

cleared-cursor : (f : Field) → (cleared f).cursor ≤ char_len (cleared f).text
cleared-cursor f = elim (Option-cases (normalized_selection f.text f.selection)) [
  | inl e ↦ ground arith
  | inr ((start, end), e) ↦ ground (arith, cursor-in f start end e)
]

cleared-selection : (f : Field) → (cleared f).selection ≡ none
cleared-selection f = ground arith

backspace-typed :
    (ch : ℕ) (text : Text) (i : ℕ)
    → i ≤ length text
    → backspace
        (record { text = take i text ++ ch ∷ drop i text; cursor = i + 1; selection = none })
      ≡ some (record { text = text; cursor = i; selection = none })
unfolding normalized_selection
backspace-typed ch text i h =
    let typed = take i text ++ ch ∷ drop i text in
    let whole = length-insert ch text i h in
    let at : min (i + 1) (length typed) ≡ suc i = omega (arith, whole) in
    let before : suc i - 1 ≡ i = omega arith in
    backspace_lem (record { text = typed; cursor = i + 1; selection = none })
    ∙ rw (at, before, take-insert ch text i h, drop-insert ch text i h, take-append-drop i text)

some_injective {ℓ} : {A : Type ℓ} {a b : A} → some a ≡ some b → a ≡ b
some_injective h = cc

-- A backspace right behind a typed character leaves the field as it was, its cursor brought into
-- the text, without what was selected.
pub backspace-insert_char :
    (ch : ℕ) (f g : Field) → insert_char ch f ≡ some g → backspace g ≡ some (cleared f)
backspace-insert_char ch f g h =
    let k = cleared f in
    let typed = some_injective (sym (insert_char_lem ch f) ∙ h) in
    rw (← typed, backspace-typed ch k.text k.cursor (cleared-cursor f), ← cleared-selection f)

-- Each of the moves leaves the cursor inside the text, whatever cursor and selection it starts
-- from.
pub move_cursor_bounds :
    (f : Field)
    → ((move_cursor_left f).cursor ≤ char_len f.text)
      × ((move_cursor_right f).cursor ≤ char_len f.text)
      × ((select_all f).cursor ≤ char_len f.text)
unfolding move_cursor_left move_cursor_right select_all
move_cursor_bounds f = elim (Option-cases (normalized_selection f.text f.selection)) [
  | inl e ↦ (ground arith, ground arith, ground arith)
  | inr ((start, end), e) ↦
      let bounds = selection-bounds f.text f.selection start end e in
      (ground (arith, bounds.0, bounds.1), ground (arith, bounds.0, bounds.1), ground arith)
]

-- A selection that covers something shows exactly those characters, and never panics.
pub selected_text_lem :
    (text : Text) (start end : ℕ)
    → start < end
    → end ≤ char_len text
    → (selected_text text (some (start, end)) ≡ some (some (drop start (take end text))))
      × (selected_text text (some (end, start)) ≡ some (some (drop start (take end text))))
unfolding selected_text normalized_selection
selected_text_lem text start end a b =
    let cut = slice_lem text start end (omega arith) in (ground (arith, cut), ground (arith, cut))
