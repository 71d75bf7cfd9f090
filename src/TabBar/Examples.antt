-- ===== src/TabBar/Examples.antt =====
-- Three tabs of ten columns in a terminal of fifteen.
use color_ssh.Base.{ℕ, List, [], ◌∷◌, arith}
use color_ssh.TabBar.{normalize_tab_scroll_offset}
use color_ssh.TabBar.Laws.{IsSnapped, normalize-IsSnapped}

abbrev tabs : List ℕ
tabs = 10 ∷ 10 ∷ 10 ∷ []

normalize-IsSnapped_example : IsSnapped tabs 17 15 (normalize_tab_scroll_offset tabs 17 15)
normalize-IsSnapped_example = normalize-IsSnapped 10 (10 ∷ 10 ∷ []) 17 15 (omega arith)
