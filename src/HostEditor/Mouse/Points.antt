-- ===== src/HostEditor/Mouse/Points.antt =====
-- What stands at a point of the form, or at a place of its scrollbar, is shown.
use color_ssh.Base.{
  ℕ, ltb, leb, ◌==◌, zero, suc, ◌+◌, ◌-◌, min, max, Option, none, some, Bool, true, false, ◌||◌,
  List, [], ◌∷◌, ◌++◌, if◌then◌else◌, length, get_elem?, retain, ◌≡◌, refl, sym, subst, inl, inr,
  arith, Bool-cases, ◌⊎◌,
}
use color_ssh.HostEditor.Fields.{
  HostEditorMode, create, edit, save, delete, cancel, HostEditorVisibleItem, field_item, item_eq,
  HostEditorState, is_rdp,
}
use color_ssh.HostEditor.Selecting.{
  section_items, sections_of, action_items, items_of, visible_items, shows,
}
use color_ssh.HostEditor.Selecting.Shown.{item_eq_refl, or_right, shows-item_at}
use color_ssh.HostEditor.Layout.{
  Rect, body_viewport_height, body_scroll_offset, is_body, body_items, host_editor_action_hit,
  host_editor_item_at_point, delete_hit, cancel_hit, cancel_width, delete_width, save_width,
  is_within,
}
use color_ssh.HostEditor.Mouse.{item_of_offset}

either : {A : Type 0} (b : Bool) (x y z : A) → (if b then x else y) ≡ z → (x ≡ z) ⊎ (y ≡ z)
either true x y z h = inl h
either false x y z h = inr h

of_two :
    (a b c d : Bool) (x y : Option HostEditorVisibleItem) (item : HostEditorVisibleItem)
    → (if a then none else if b then x else if c then none else if d then none else y) ≡ some item
    → (x ≡ some item) ⊎ (y ≡ some item)
of_two true b c d x y item h = cc
of_two false true c d x y item h = inl h
of_two false false true d x y item h = cc
of_two false false false true x y item h = cc
of_two false false false false x y item h = inr h

pub shows-retain :
    (items : List HostEditorVisibleItem) (item : HostEditorVisibleItem)
    → shows (retain is_body items) item ≡ true
    → shows items item ≡ true
shows-retain [] item h = h
shows-retain (first ∷ items) item h = elim (Bool-cases (is_body first)) [
  | inr e ↦ or_right _ _ (shows-retain items item (rw e at h))
  | inl e ↦ elim (Bool-cases (item_eq item first)) [
    | inl same ↦ rw same refl
    | inr differs ↦ or_right _ _ (shows-retain items item (rw (e, differs) at h))
  ]
]

shows-get :
    (items : List HostEditorVisibleItem) (index : ℕ) (item : HostEditorVisibleItem)
    → get_elem? items index ≡ some item
    → shows items item ≡ true
shows-get [] index item h = cc
shows-get (first ∷ items) zero item h =
    let same : first ≡ item = cc in rw (sym same) (rw (item_eq_refl first) refl)
shows-get (first ∷ items) (suc index) item h = or_right _ _ (shows-get items index item h)

shows-append :
    (xs ys : List HostEditorVisibleItem) (item : HostEditorVisibleItem)
    → shows ys item ≡ true
    → shows (xs ++ ys) item ≡ true
shows-append [] ys item h = h
shows-append (x ∷ xs) ys item h = or_right _ _ (shows-append xs ys item h)

save-shown : (mode : HostEditorMode) → shows (action_items mode) (field_item save) ≡ true
unfolding item_eq
save-shown create = refl
save-shown edit = refl

cancel-shown : (mode : HostEditorMode) → shows (action_items mode) (field_item cancel) ≡ true
unfolding item_eq
cancel-shown create = refl
cancel-shown edit = refl

action-shown :
    (s : HostEditorState) (item : HostEditorVisibleItem)
    → shows (action_items s.mode) item ≡ true
    → shows (visible_items s) item ≡ true
unfolding visible_items items_of
action-shown s item h =
    shows-append
      (section_items (is_rdp s) s.mode s.collapsed_sections (sections_of (is_rdp s) s.mode))
      (action_items s.mode) item h

module _ (s : HostEditorState) where
  cancel_hit-shown :
      (mouse_col col : ℕ) (item : HostEditorVisibleItem)
      → cancel_hit mouse_col col ≡ some item
      → shows (visible_items s) item ≡ true
  cancel_hit-shown mouse_col col item h = elim (Bool-cases (is_within mouse_col col cancel_width)) [
    | inr e ↦ cc (rw e at h)
    | inl e ↦
        let same : field_item cancel ≡ item = cc (rw e at h) in
        subst (λ item. shows (visible_items s) item ≡ true) same
          (action-shown s (field_item cancel) (cancel-shown s.mode))
  ]

  delete_hit-shown :
      (mouse_col col : ℕ) (include_delete : Bool) (item : HostEditorVisibleItem)
      → shows (visible_items s) (field_item delete) ≡ include_delete
      → delete_hit mouse_col col include_delete ≡ some item
      → shows (visible_items s) item ≡ true
  delete_hit-shown mouse_col col false item there h = cancel_hit-shown mouse_col col item h
  delete_hit-shown mouse_col col true item there h =
      elim (Bool-cases (is_within mouse_col col delete_width)) [
        | inr e ↦ cancel_hit-shown mouse_col _ item (rw e at h)
        | inl e ↦
            let same : field_item delete ≡ item = cc (rw e at h) in
            subst (λ item. shows (visible_items s) item ≡ true) same there
      ]

  action_hit-shown :
      (inner_area : Rect) (mouse_col : ℕ) (item : HostEditorVisibleItem)
      → host_editor_action_hit inner_area mouse_col (shows (visible_items s) (field_item delete))
        ≡ some item
      → shows (visible_items s) item ≡ true
  unfolding host_editor_action_hit
  action_hit-shown inner_area mouse_col item h =
      elim (either (is_within mouse_col inner_area.x save_width) _ _ _ h) [
        | inr away ↦ delete_hit-shown mouse_col _ _ item refl away
        | inl on ↦
            let same : field_item save ≡ item = cc on in
            subst (λ item. shows (visible_items s) item ≡ true) same
              (action-shown s (field_item save) (save-shown s.mode))
      ]

  body-shown :
      (index : ℕ) (item : HostEditorVisibleItem)
      → get_elem? (body_items s) index ≡ some item
      → shows (visible_items s) item ≡ true
  unfolding body_items
  body-shown index item h =
      shows-retain (visible_items s) item (shows-get (body_items s) index item h)

  pub item_at_point-shown :
      (local_row mouse_col : ℕ) (inner_area : Rect) (item : HostEditorVisibleItem)
      → host_editor_item_at_point s local_row mouse_col inner_area ≡ some item
      → shows (visible_items s) item ≡ true
  unfolding host_editor_item_at_point
  item_at_point-shown local_row mouse_col inner_area item h =
      let viewport_height = body_viewport_height inner_area.height in
      let absolute_row =
        body_scroll_offset s (length (body_items s) + 2) viewport_height + local_row in
      elim (of_two (inner_area.height == 0) (local_row == inner_area.height - 1)
        (viewport_height == 0 || leb viewport_height local_row) (ltb absolute_row 2)
        (host_editor_action_hit inner_area mouse_col (shows (visible_items s) (field_item delete)))
        (get_elem? (body_items s) (absolute_row - 2)) item h) [
          | inl at_action ↦ action_hit-shown inner_area mouse_col item at_action
          | inr at_body ↦ body-shown (absolute_row - 2) item at_body
        ]

pub item_of_offset-shown :
    (first : HostEditorVisibleItem) (items : List HostEditorVisibleItem)
    (viewport_height target_offset : ℕ)
    → shows (first ∷ items) (item_of_offset (first ∷ items) viewport_height target_offset) ≡ true
item_of_offset-shown first items viewport_height target_offset =
    shows-item_at (first ∷ items)
      (min
        (min (max 2 (target_offset + (viewport_height - 1))) (length (first ∷ items) + 2 - 1) - 2)
        (length (first ∷ items) - 1))
      (omega arith)
