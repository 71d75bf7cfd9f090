-- ===== src/TabBar.antt =====
-- src/tui/features/terminal_tabs/scroll.rs: the scrolling of the tab bar. The tabs stand by the
-- widths that `tab_display_width` gives them.
pub mod Starts
pub mod Laws
mod Examples
use color_ssh.Base.{
  ℕ, zero, suc, ◌+◌, ◌-◌, min, Option, none, some, Bool, true, false, List, [], ◌∷◌, take, length,
  ltb, leb, ◌==◌, ◌||◌, if◌then◌else◌,
}

pub record TabBarViewportMetrics : Type 0 where
  pub scroll_offset : ℕ
  pub has_left_overflow : Bool
  pub has_right_overflow : Bool
  pub left_slot : ℕ
  pub right_slot : ℕ
  pub visible_tab_width : ℕ

unfoldable pub sum : List ℕ → ℕ
sum [] = 0
sum (w ∷ ws) = w + sum ws

abbrev pub no_tabs : List ℕ → Bool
no_tabs [] = true
no_tabs (_ ∷ _) = false

-- The guard of every function: no tabs, or no room.
abbrev pub nothing_to_show : List ℕ → ℕ → Bool
nothing_to_show tabs available_width = no_tabs tabs || (available_width == 0)

unfoldable pub tab_start_offset : List ℕ → ℕ → ℕ
unfolding sum
tab_start_offset tabs tab_idx = sum (take (min tab_idx (length tabs)) tabs)

abbrev pub total_tab_width : List ℕ → ℕ
total_tab_width tabs = sum tabs

-- The loop of `final_right_tab_scroll_offset`
unfoldable pub first_past : ℕ → ℕ → ℕ → List ℕ → ℕ
first_past threshold start last_start [] = last_start
first_past threshold start last_start (w ∷ ws) =
    if leb threshold start then start else first_past threshold (start + w) start ws

unfoldable pub final_right_tab_scroll_offset : List ℕ → ℕ → ℕ
unfolding first_past
final_right_tab_scroll_offset tabs available_width =
    if nothing_to_show tabs available_width || leb (total_tab_width tabs) available_width
    then 0
    else first_past (total_tab_width tabs - (available_width - 1)) 0 0 tabs

-- The loop of `normalize_tab_scroll_offset`
unfoldable pub snap : ℕ → ℕ → ℕ → List ℕ → ℕ
snap clamped start snapped [] = snapped
snap clamped start snapped (w ∷ ws) =
    if ltb clamped start then snapped else snap clamped (start + w) start ws

unfoldable pub normalize_tab_scroll_offset : List ℕ → ℕ → ℕ → ℕ
unfolding snap final_right_tab_scroll_offset
normalize_tab_scroll_offset tabs raw_offset available_width =
    if nothing_to_show tabs available_width
    then 0
    else snap (min raw_offset (final_right_tab_scroll_offset tabs available_width)) 0 0 tabs

-- The loop of `prev_tab_scroll_offset`
unfoldable pub last_before : ℕ → ℕ → ℕ → List ℕ → ℕ
last_before current start previous [] = previous
last_before current start previous (w ∷ ws) =
    if leb current start then previous else last_before current (start + w) start ws

unfoldable pub prev_tab_scroll_offset : List ℕ → ℕ → ℕ → Option ℕ
unfolding last_before normalize_tab_scroll_offset
prev_tab_scroll_offset tabs raw_offset available_width =
    let current = normalize_tab_scroll_offset tabs raw_offset available_width in
    if nothing_to_show tabs available_width || (current == 0)
    then none
    else some (last_before current 0 0 tabs)

-- The loop of `next_tab_scroll_offset`
unfoldable pub first_after : ℕ → ℕ → ℕ → List ℕ → ℕ
first_after current final_offset start [] = final_offset
first_after current final_offset start (w ∷ ws) =
    if ltb current start
    then min start final_offset
    else first_after current final_offset (start + w) ws

unfoldable pub next_tab_scroll_offset : List ℕ → ℕ → ℕ → Option ℕ
unfolding first_after normalize_tab_scroll_offset final_right_tab_scroll_offset
next_tab_scroll_offset tabs raw_offset available_width =
    let current = normalize_tab_scroll_offset tabs raw_offset available_width in
    let final_offset = final_right_tab_scroll_offset tabs available_width in
    if nothing_to_show tabs available_width || leb (total_tab_width tabs) available_width
    then none
    else if leb final_offset current
    then none
    else some (first_after current final_offset 0 tabs)

abbrev pub is_some : Option ℕ → Bool
is_some none = false
is_some (some _) = true

-- `usize::from` of a flag
abbrev pub slot : Bool → ℕ
slot b = if b then 1 else 0

unfoldable pub tab_bar_viewport_metrics : List ℕ → ℕ → ℕ → TabBarViewportMetrics
unfolding normalize_tab_scroll_offset prev_tab_scroll_offset next_tab_scroll_offset
tab_bar_viewport_metrics tabs raw_offset available_width =
    if nothing_to_show tabs available_width
    then record {
      scroll_offset = 0;
      has_left_overflow = false;
      has_right_overflow = false;
      left_slot = 0;
      right_slot = 0;
      visible_tab_width = 0;
    }
    else let scroll_offset = normalize_tab_scroll_offset tabs raw_offset available_width in
      let left = is_some (prev_tab_scroll_offset tabs scroll_offset available_width) in
      let right = is_some (next_tab_scroll_offset tabs scroll_offset available_width) in
      record {
        scroll_offset = scroll_offset;
        has_left_overflow = left;
        has_right_overflow = right;
        left_slot = slot left;
        right_slot = slot right;
        visible_tab_width = available_width - (slot left + slot right);
      }
