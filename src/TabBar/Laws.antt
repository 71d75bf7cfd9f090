-- ===== src/TabBar/Laws.antt =====
-- The scroll offsets of the tab bar: what they are snapped to, and where the markers lead.
use color_ssh.Base.{
  ℕ, zero, suc, ◌+◌, ◌-◌, ◌≤◌, ◌<◌, min, some, List, [], ◌∷◌, ◌≡◌, refl, ◌⊎◌, inl, inr, take,
  length, arith,
}
use color_ssh.TabBar.{
  sum, snap, total_tab_width, final_right_tab_scroll_offset, normalize_tab_scroll_offset,
  prev_tab_scroll_offset, next_tab_scroll_offset,
}
use color_ssh.TabBar.Starts.{
  snap-le, snap_greatest, IsStart, snap-IsStart, first_past_least, last_before-lt,
  first_after-between,
}

-- What an offset is snapped to: a start of a tab that is neither past it nor past the final
-- offset, and the last such start.
pub record IsSnapped (tabs : List ℕ) (raw_offset available_width result : ℕ) : Type 0 where
  pub start : IsStart 0 tabs result
  pub within : result ≤ raw_offset
  pub in_range : result ≤ final_right_tab_scroll_offset tabs available_width
  pub last :
      (i : ℕ)
      → i < length tabs
      → sum (take i tabs) ≤ raw_offset
      → sum (take i tabs) ≤ final_right_tab_scroll_offset tabs available_width
      → sum (take i tabs) ≤ result

first-IsStart : (w : ℕ) (ws : List ℕ) → IsStart 0 (w ∷ ws) 0
unfolding sum
first-IsStart w ws = (0, omega arith, refl)

start_of :
    (w : ℕ) (ws : List ℕ) (result : ℕ)
    → (result ≡ 0) ⊎ IsStart 0 (w ∷ ws) result
    → IsStart 0 (w ∷ ws) result
start_of w ws result (inl e) = rw e (first-IsStart w ws)
start_of w ws result (inr s) = s

-- With tabs and room for them, an offset is normalised to the last start of a tab that is neither
-- past the offset nor past the final offset.
pub normalize-IsSnapped :
    (w : ℕ) (ws : List ℕ) (raw_offset available_width : ℕ)
    → 1 ≤ available_width
    → IsSnapped
        (w ∷ ws)
        raw_offset
        available_width
        (normalize_tab_scroll_offset (w ∷ ws) raw_offset available_width)
unfolding normalize_tab_scroll_offset
normalize-IsSnapped w ws raw_offset available_width room =
    let tabs = w ∷ ws in
    let clamped = min raw_offset (final_right_tab_scroll_offset tabs available_width) in
    let known : normalize_tab_scroll_offset tabs raw_offset available_width
        ≡ snap clamped 0 0 tabs =
      ground arith in
    let low = snap-le clamped 0 0 tabs (omega arith) in
    record {
      start = rw known (start_of w ws _ (snap-IsStart clamped 0 0 tabs));
      within = omega (arith, known, low);
      in_range = omega (arith, known, low);
      last = λ i l a b.
          omega (arith, known, snap_greatest clamped 0 0 tabs i (omega arith) l (omega arith));
    }

-- Normalising twice is normalising once.
pub normalize_idempotent :
    (tabs : List ℕ) (raw_offset available_width : ℕ)
    → let once = normalize_tab_scroll_offset tabs raw_offset available_width in
      normalize_tab_scroll_offset tabs once available_width ≡ once
unfolding normalize_tab_scroll_offset
normalize_idempotent [] raw_offset available_width = refl
normalize_idempotent (w ∷ ws) raw_offset zero = refl
normalize_idempotent (w ∷ ws) raw_offset (suc width) =
    let first = normalize-IsSnapped w ws raw_offset (suc width) (omega arith) in
    let once = normalize_tab_scroll_offset (w ∷ ws) raw_offset (suc width) in
    let second = normalize-IsSnapped w ws once (suc width) (omega arith) in
    let (i, l, e) = first.start in
    let back = second.last i l (omega (arith, e)) (omega (arith, e, first.in_range)) in
    omega (arith, e, back, second.within)

-- The right marker leads past the current offset, and not past the final one.
pub next-between :
    (tabs : List ℕ) (raw_offset available_width next : ℕ)
    → next_tab_scroll_offset tabs raw_offset available_width ≡ some next
    → (normalize_tab_scroll_offset tabs raw_offset available_width < next)
      × (next ≤ final_right_tab_scroll_offset tabs available_width)
unfolding next_tab_scroll_offset
next-between tabs raw_offset available_width next h =
    let current = normalize_tab_scroll_offset tabs raw_offset available_width in
    let final = final_right_tab_scroll_offset tabs available_width in
    ground (arith, first_after-between current final 0 tabs)

-- The left marker leads before the current offset.
pub prev-lt :
    (tabs : List ℕ) (raw_offset available_width previous : ℕ)
    → prev_tab_scroll_offset tabs raw_offset available_width ≡ some previous
    → previous < normalize_tab_scroll_offset tabs raw_offset available_width
unfolding prev_tab_scroll_offset
prev-lt tabs raw_offset available_width previous h =
    let current = normalize_tab_scroll_offset tabs raw_offset available_width in
    ground (arith, last_before-lt current 0 0 tabs)

-- A bar that is scrolled to a start before the final offset, with one column for the left marker,
-- does not reach the end of the tabs.
pub final_right_least :
    (tabs : List ℕ) (available_width i : ℕ)
    → i < length tabs
    → sum (take i tabs) < final_right_tab_scroll_offset tabs available_width
    → sum (take i tabs) + (available_width - 1) < total_tab_width tabs
unfolding final_right_tab_scroll_offset
final_right_least tabs available_width i l h =
    let threshold = total_tab_width tabs - (available_width - 1) in
    ground (arith, first_past_least threshold 0 0 tabs i)
