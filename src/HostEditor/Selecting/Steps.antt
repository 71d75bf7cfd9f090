-- ===== src/HostEditor/Selecting/Steps.antt =====
-- The steps of the selection go round the shown items, one after the other.
use color_ssh.Base.{
  ℕ, zero, suc, ◌+◌, ◌<◌, some, Bool, true, false, not, ◌&&◌, List, [], ◌∷◌, any, length, ◌≡◌, refl,
  sym, ap, subst, ◌∙◌, inl, inr, arith, Bool-cases,
}
use color_ssh.HostEditor.Menu.{
  next_of, prev_of, next_of-lt, prev_of-lt, prev_of-next_of, next_of-prev_of,
}
use color_ssh.HostEditor.Fields.{
  HostEditorMode, create, edit, HostEditorField, HostEditorSection, basic, authentication,
  proxy_forwarding, advanced_ssh, rdp_section, placement, HostEditorVisibleItem, section_header,
  field_item, item_rank, item_eq, HostEditorState, is_rdp, save, delete, cancel,
}
use color_ssh.HostEditor.Selecting.{
  items_of, visible_items, shows, position, item_at, step_from, select_next_field,
  select_prev_field,
}
use color_ssh.HostEditor.Selecting.Shown.{IsShown, position-lt, item_eq_refl}

abbrev distinct : List HostEditorVisibleItem → Bool
distinct [] = true
distinct (item ∷ items) = not (any (item_eq item) items) && distinct items

-- Every choice of five Booleans passes a test.
abbrev every : (Bool → Bool) → Bool
every test = test true && test false

every-holds : (test : Bool → Bool) → every test ≡ true → (b : Bool) → test b ≡ true
every-holds test h true = ground (arith, h)
every-holds test h false = ground (arith, h)

abbrev every5 : (Bool → Bool → Bool → Bool → Bool → Bool) → Bool
every5 test = every (λ a. every (λ b. every (λ c. every (λ d. every (λ e. test a b c d e)))))

every5-holds :
    (test : Bool → Bool → Bool → Bool → Bool → Bool)
    → every5 test ≡ true
    → (a b c d e : Bool) → test a b c d e ≡ true
every5-holds test h a b c d e =
    every-holds (λ e. test a b c d e)
      (every-holds (λ d. every (λ e. test a b c d e))
        (every-holds (λ c. every (λ d. every (λ e. test a b c d e)))
          (every-holds (λ b. every (λ c. every (λ d. every (λ e. test a b c d e))))
            (every-holds (λ a. every (λ b. every (λ c. every (λ d. every (λ e. test a b c d e))))) h
              a)
            b)
          c)
        d)
      e

abbrev table : Bool → Bool → Bool → Bool → Bool → HostEditorSection → Bool
table a b c d e basic = false
table a b c d e authentication = a
table a b c d e proxy_forwarding = b
table a b c d e advanced_ssh = c
table a b c d e rdp_section = d
table a b c d e placement = e

all_distinct :
    (rdp : Bool) (mode : HostEditorMode)
    → every5 (λ a b c d e. distinct (items_of rdp mode (table a b c d e))) ≡ true
unfolding items_of item_eq
all_distinct true create = refl
all_distinct true edit = refl
all_distinct false create = refl
all_distinct false edit = refl

abbrev table_of : (HostEditorSection → Bool) → HostEditorSection → Bool
table_of collapsed =
    table (collapsed authentication) (collapsed proxy_forwarding) (collapsed advanced_ssh)
      (collapsed rdp_section) (collapsed placement)

items_of-table :
    (rdp : Bool) (mode : HostEditorMode) (collapsed : HostEditorSection → Bool)
    → items_of rdp mode collapsed ≡ items_of rdp mode (table_of collapsed)
unfolding items_of
items_of-table true create collapsed = refl
items_of-table true edit collapsed = refl
items_of-table false create collapsed = refl
items_of-table false edit collapsed = refl

items_of-distinct :
    (rdp : Bool) (mode : HostEditorMode) (collapsed : HostEditorSection → Bool)
    → distinct (items_of rdp mode collapsed) ≡ true
items_of-distinct rdp mode collapsed =
    subst (λ items. distinct items ≡ true) (sym (items_of-table rdp mode collapsed))
      (every5-holds (λ a b c d e. distinct (items_of rdp mode (table a b c d e)))
        (all_distinct rdp mode) (collapsed authentication) (collapsed proxy_forwarding)
        (collapsed advanced_ssh) (collapsed rdp_section) (collapsed placement))

-- No item is shown twice.
visible_items-distinct : (s : HostEditorState) → distinct (visible_items s) ≡ true
unfolding visible_items
visible_items-distinct s = items_of-distinct (is_rdp s) s.mode s.collapsed_sections

absent-item_at :
    (item : HostEditorVisibleItem) (items : List HostEditorVisibleItem) (index : ℕ)
    → any (item_eq item) items ≡ false
    → index < length items
    → item_eq item (item_at items index) ≡ false
absent-item_at item [] index a h = absurd (omega (arith, h))
absent-item_at item (first ∷ items) zero a h = ground (arith, a)
absent-item_at item (first ∷ items) (suc index) a h =
    absent-item_at item items index (ground (arith, a)) (omega (arith, h))

position-item_at :
    (items : List HostEditorVisibleItem) (index : ℕ)
    → distinct items ≡ true
    → index < length items
    → position (item_at items index) items ≡ some index
unfolding position
position-item_at [] index d h = absurd (omega (arith, h))
position-item_at (item ∷ items) zero d h = rw (item_eq_refl item, position) refl
position-item_at (item ∷ items) (suc index) d h =
    let other = absent-item_at item items index (ground (arith, d)) (omega (arith, h)) in
    let below = position-item_at items index (ground (arith, d)) (omega (arith, h)) in
    let last : index + 1 ≡ suc index = omega arith in
    rw (other, below, position) (ap (λ i. some i) last)

abbrev all_items : List HostEditorVisibleItem
all_items =
    field_item HostEditorField.name
    ∷ field_item HostEditorField.description
    ∷ field_item HostEditorField.protocol
    ∷ field_item HostEditorField.host_field
    ∷ field_item HostEditorField.user
    ∷ field_item HostEditorField.port
    ∷ field_item HostEditorField.profile
    ∷ field_item HostEditorField.vault_pass
    ∷ field_item HostEditorField.identity_file
    ∷ field_item HostEditorField.identities_only
    ∷ field_item HostEditorField.proxy_jump
    ∷ field_item HostEditorField.proxy_command
    ∷ field_item HostEditorField.forward_agent
    ∷ field_item HostEditorField.local_forward
    ∷ field_item HostEditorField.remote_forward
    ∷ field_item HostEditorField.ssh_options
    ∷ field_item HostEditorField.rdp_domain
    ∷ field_item HostEditorField.rdp_args
    ∷ field_item HostEditorField.folder_path
    ∷ field_item save
    ∷ field_item delete
    ∷ field_item cancel
    ∷ section_header basic
    ∷ section_header authentication
    ∷ section_header proxy_forwarding
    ∷ section_header advanced_ssh
    ∷ section_header rdp_section
    ∷ section_header placement
    ∷ []

item_at-item_rank : (item : HostEditorVisibleItem) → item_at all_items (item_rank item) ≡ item
unfolding item_rank
item_at-item_rank (field_item HostEditorField.name) = refl
item_at-item_rank (field_item HostEditorField.description) = refl
item_at-item_rank (field_item HostEditorField.protocol) = refl
item_at-item_rank (field_item HostEditorField.host_field) = refl
item_at-item_rank (field_item HostEditorField.user) = refl
item_at-item_rank (field_item HostEditorField.port) = refl
item_at-item_rank (field_item HostEditorField.profile) = refl
item_at-item_rank (field_item HostEditorField.vault_pass) = refl
item_at-item_rank (field_item HostEditorField.identity_file) = refl
item_at-item_rank (field_item HostEditorField.identities_only) = refl
item_at-item_rank (field_item HostEditorField.proxy_jump) = refl
item_at-item_rank (field_item HostEditorField.proxy_command) = refl
item_at-item_rank (field_item HostEditorField.forward_agent) = refl
item_at-item_rank (field_item HostEditorField.local_forward) = refl
item_at-item_rank (field_item HostEditorField.remote_forward) = refl
item_at-item_rank (field_item HostEditorField.ssh_options) = refl
item_at-item_rank (field_item HostEditorField.rdp_domain) = refl
item_at-item_rank (field_item HostEditorField.rdp_args) = refl
item_at-item_rank (field_item HostEditorField.folder_path) = refl
item_at-item_rank (field_item save) = refl
item_at-item_rank (field_item delete) = refl
item_at-item_rank (field_item cancel) = refl
item_at-item_rank (section_header basic) = refl
item_at-item_rank (section_header authentication) = refl
item_at-item_rank (section_header proxy_forwarding) = refl
item_at-item_rank (section_header advanced_ssh) = refl
item_at-item_rank (section_header rdp_section) = refl
item_at-item_rank (section_header placement) = refl

eq_of_item_eq : (a b : HostEditorVisibleItem) → item_eq a b ≡ true → a ≡ b
unfolding item_eq
eq_of_item_eq a b h =
    let same : item_rank a ≡ item_rank b = ground (arith, h) in
    sym (item_at-item_rank a) ∙ ap (item_at all_items) same ∙ item_at-item_rank b

item_eq_sym : (a b : HostEditorVisibleItem) → item_eq a b ≡ item_eq b a
unfolding item_eq
item_eq_sym a b = ground arith

behind :
    (item first : HostEditorVisibleItem) (items : List HostEditorVisibleItem)
    → item_eq first item ≡ false
    → shows (first ∷ items) item ≡ true
    → shows items item ≡ true
behind item first items e h =
    let other : item_eq item first ≡ false = item_eq_sym item first ∙ e in rw other at h

position-found :
    (item : HostEditorVisibleItem) (items : List HostEditorVisibleItem)
    → shows items item ≡ true
    → (index : ℕ) × (position item items ≡ some index) × (item_at items index ≡ item)
unfolding position
position-found item [] h = cc
position-found item (first ∷ items) h = elim (Bool-cases (item_eq first item)) [
  | inl e ↦ (0, rw (e, position) refl, eq_of_item_eq first item e)
  | inr e ↦
      let (index, at, is) = position-found item items (behind item first items e h) in
      let last : index + 1 ≡ suc index = omega arith in
      (suc index, rw (e, at, position) (ap (λ i. some i) last), is)
]

step_from-at :
    (step : ℕ → ℕ → ℕ) (item : HostEditorVisibleItem) (items : List HostEditorVisibleItem)
    (index : ℕ)
    → position item items ≡ some index
    → step_from step item items ≡ item_at items (step (length items) index)
unfolding step_from
step_from-at step item items index at = rw (at, step_from) refl

module _ (step back : ℕ → ℕ → ℕ)
    (within : (count index : ℕ) → index < count → step count index < count)
    (undone : (count index : ℕ) → index < count → back count (step count index) ≡ index) where
  items-round_trip :
      (items : List HostEditorVisibleItem) (item : HostEditorVisibleItem)
      → distinct items ≡ true
      → shows items item ≡ true
      → step_from back (step_from step item items) items ≡ item
  items-round_trip items item d h =
      let (index, at, is) = position-found item items h in
      let in_range = position-lt item items index at in
      let next =
        position-item_at items (step (length items) index) d
          (within (length items) index in_range) in
      rw
        (
          step_from-at step item items index at,
          step_from-at back (item_at items (step (length items) index)) items _ next,
          undone (length items) index in_range,
        )
        is

-- Where a selected item is shown, a step forward and one back lead to it again, and so do a step back
-- and one forward.
pub select_next_field-select_prev_field :
    (s : HostEditorState)
    → IsShown s
    → ((select_prev_field (select_next_field s)).selected ≡ s.selected)
      × ((select_next_field (select_prev_field s)).selected ≡ s.selected)
unfolding select_next_field select_prev_field
select_next_field-select_prev_field s h = (
  items-round_trip next_of prev_of next_of-lt prev_of-next_of (visible_items s) s.selected
      (visible_items-distinct s) h,
  items-round_trip prev_of next_of prev_of-lt next_of-prev_of (visible_items s) s.selected
      (visible_items-distinct s) h,
)
