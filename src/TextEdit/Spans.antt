-- ===== src/TextEdit/Spans.antt =====
-- `build_edit_value_spans` (src/tui/text_edit.rs): the field as styled pieces. A style is a value
-- of the widget library, of which the code only passes three on.
use mathlib.Core.Option
use color_ssh.Base.{
  ℕ, ◌+◌, ◌≤◌, min, Text, codes, Option, none, some, List, [], ◌∷◌, ◌++◌, ◌≡◌, refl, ap, ◌∙◌, sym,
  append_assoc, append-nil, take, drop, take-append-drop, ltb, leb, ◌==◌, if◌then◌else◌, is_empty,
  arith, Option-cases, Bool-cases, inl, inr, ◌⊎◌,
}
use color_ssh.TextEdit.{char_len, byte_index_for_char, cut_range}
use color_ssh.TextEdit.Cuts.{cut_range_lem, take-take}

-- `Span::styled`
pub record Span (S : Type 0) : Type 0 where
  pub content : Text
  pub style : S

-- What is selected, from its lower to its upper end inside the text.
unfoldable pub selected_range : Text → Option (ℕ × ℕ) → Option (ℕ × ℕ)
selected_range text none = none
selected_range text (some (start_raw, end_raw)) =
    let start = min start_raw (char_len text) in
    let end = min end_raw (char_len text) in
    let low = if leb start end then start else end in
    let high = if leb start end then end else start in
    if ltb low high then some (low, high) else none

cut_whole :
    (text : Text) (i j : ℕ) → i ≤ j → (take i text ++ drop i (take j text)) ++ drop j text ≡ text
cut_whole text i j h =
    ap (λ t. t ++ drop j text)
      (ap (λ t. t ++ drop i (take j text)) (sym (take-take text i j h))
        ∙ take-append-drop i (take j text))
    ∙ take-append-drop j text

range-le :
    (text : Text) (selection : Option (ℕ × ℕ)) (start end : ℕ)
    → selected_range text selection ≡ some (start, end)
    → start ≤ end
unfolding selected_range
range-le text none start end h = cc
range-le text (some (a, b)) start end h = ground arith

module _ {S : Type 0} where
  unfoldable pub push_if_non_empty : List (Span S) → Text → S → List (Span S)
  push_if_non_empty spans text style =
      if is_empty text then spans else spans ++ record { content = text; style = style } ∷ []

  -- The three pieces of a text around two byte positions.
  unfoldable pub pieces : Text → S → S → ℕ → ℕ → Option (List (Span S))
  unfolding push_if_non_empty
  pieces text outer inner start end =
      Option.map
        (λ cut.
          push_if_non_empty (push_if_non_empty (push_if_non_empty [] cut.0 outer) cut.1 inner) cut.2
            outer)
        (cut_range text start end)

  -- The cursor, where nothing is selected
  unfoldable pub cursor_spans : Text → ℕ → S → S → Option (List (Span S))
  unfolding pieces
  cursor_spans text cursor value_style cursor_style =
      if char_len text == 0
      then some (record { content = codes " "; style = cursor_style } ∷ [])
      else if ltb cursor (char_len text)
      then pieces text value_style cursor_style (byte_index_for_char text cursor)
          (byte_index_for_char text (cursor + 1))
      else some (
          record { content = text; style = value_style }
          ∷ record { content = codes " "; style = cursor_style }
          ∷ [])

  unfoldable pub build_edit_value_spans :
      Text → ℕ → Option (ℕ × ℕ) → S → S → S → Option (List (Span S))
  unfolding cursor_spans pieces selected_range
  build_edit_value_spans text cursor selection value_style cursor_style selection_style =
      elim (selected_range text selection) [
        | none ↦ cursor_spans text (min cursor (char_len text)) value_style cursor_style
        | some (start, end) ↦
            pieces text value_style selection_style (byte_index_for_char text start)
              (byte_index_for_char text end)
      ]

  -- What the spans show.
  unfoldable pub shown : List (Span S) → Text
  shown [] = []
  shown (s ∷ spans) = s.content ++ shown spans

  shown-append : (xs ys : List (Span S)) → shown (xs ++ ys) ≡ shown xs ++ shown ys
  unfolding shown
  shown-append [] ys = refl
  shown-append (x ∷ xs) ys =
      ap (λ t. x.content ++ t) (shown-append xs ys)
      ∙ sym (append_assoc x.content (shown xs) (shown ys))

  shown-push :
      (spans : List (Span S)) (text : Text) (style : S)
      → shown (push_if_non_empty spans text style) ≡ shown spans ++ text
  unfolding push_if_non_empty shown
  shown-push spans [] style = sym (append-nil (shown spans))
  shown-push spans (c ∷ s) style =
      shown-append spans (record { content = c ∷ s; style = style } ∷ [])
      ∙ ap (λ t. shown spans ++ t) (append-nil (c ∷ s))

  pieces_lem :
      (text : Text) (outer inner : S) (i j : ℕ)
      → i ≤ j
      → (spans : List (Span S)) × (pieces text outer inner
            (byte_index_for_char text i)
            (byte_index_for_char text j)
          ≡ some spans)
        × (shown spans ≡ text)
  unfolding pieces shown
  pieces_lem text outer inner i j h =
      let a = push_if_non_empty [] (take i text) outer in
      let b = push_if_non_empty a (drop i (take j text)) inner in
      (
        push_if_non_empty b (drop j text) outer,
        rw (cut_range_lem text i j h),
        shown-push b (drop j text) outer
            ∙ (ap (λ t. t ++ drop j text) (shown-push a (drop i (take j text)) inner)
                ∙ (ap (λ t. (t ++ drop i (take j text)) ++ drop j text)
                      (shown-push [] (take i text) outer)
                    ∙ cut_whole text i j h)),
      )

  cursor_spans_lem :
      (text : Text) (cursor : ℕ) (value_style cursor_style : S)
      → (spans : List (Span S)) × (cursor_spans text cursor value_style cursor_style ≡ some spans)
        × ((shown spans ≡ text) ⊎ (shown spans ≡ text ++ codes " "))
  unfolding cursor_spans shown
  cursor_spans_lem [] cursor value_style cursor_style = (_, refl, inr refl)
  cursor_spans_lem (c ∷ s) cursor value_style cursor_style =
      elim (Bool-cases (ltb cursor (char_len (c ∷ s)))) [
        | inl e ↦
            let (spans, eq, all) =
              pieces_lem (c ∷ s) value_style cursor_style cursor (cursor + 1) (omega arith) in
            (spans, ground (arith, e, eq), inl all)
        | inr e ↦ (
          record { content = c ∷ s; style = value_style }
              ∷ record { content = codes " "; style = cursor_style }
              ∷ [],
          ground (arith, e),
          inr refl,
        )
      ]

  -- The spans are built for any cursor and selection, without a panic, and show the text, or the
  -- text with a blank behind it for the cursor.
  pub build_edit_value_spans_lem :
      (text : Text) (cursor : ℕ) (selection : Option (ℕ × ℕ))
      (value_style cursor_style selection_style : S)
      → (spans : List (Span S)) × (build_edit_value_spans text cursor selection value_style
            cursor_style selection_style
          ≡ some spans)
        × ((shown spans ≡ text) ⊎ (shown spans ≡ text ++ codes " "))
  unfolding build_edit_value_spans
  build_edit_value_spans_lem text cursor selection value_style cursor_style selection_style =
      elim (Option-cases (selected_range text selection)) [
        | inl e ↦
            let (spans, eq, all) =
              cursor_spans_lem text (min cursor (char_len text)) value_style cursor_style in
            (spans, ground (arith, e, eq), all)
        | inr ((start, end), e) ↦
            let (spans, eq, all) =
              pieces_lem text value_style selection_style start end
                (range-le text selection start end e) in
            (spans, ground (arith, e, eq), inl all)
      ]
