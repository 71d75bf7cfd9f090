-- ===== src/TabBar/Starts.antt =====
-- What the loops over the starts of the tabs return.
use color_ssh.Base.{
  ℕ, zero, suc, ◌+◌, ◌≤◌, ◌<◌, List, [], ◌∷◌, ◌≡◌, refl, ◌⊎◌, inl, inr, take, length, ltb, leb,
  arith, Bool-cases,
}
use color_ssh.TabBar.{sum, first_past, snap, last_before, first_after}

pub snap-le :
    (clamped start snapped : ℕ) (ws : List ℕ)
    → snapped ≤ clamped
    → snap clamped start snapped ws ≤ clamped
unfolding snap
snap-le clamped start snapped [] h = h
snap-le clamped start snapped (w ∷ ws) h = ground (arith, snap-le clamped (start + w) start ws)

snap-ge :
    (clamped start snapped : ℕ) (ws : List ℕ)
    → snapped ≤ start
    → snapped ≤ snap clamped start snapped ws
unfolding snap
snap-ge clamped start snapped [] h = omega arith
snap-ge clamped start snapped (w ∷ ws) h = ground (arith, snap-ge clamped (start + w) start ws)

-- The loop snaps to the last start that is not past the offset.
pub snap_greatest :
    (clamped start snapped : ℕ) (ws : List ℕ) (i : ℕ)
    → snapped ≤ start
    → i < length ws
    → start + sum (take i ws) ≤ clamped
    → start + sum (take i ws) ≤ snap clamped start snapped ws
unfolding snap sum
snap_greatest clamped start snapped [] i o l h = absurd (omega arith)
snap_greatest clamped start snapped (w ∷ ws) zero o l h =
    ground (arith, snap-ge clamped (start + w) start ws)
snap_greatest clamped start snapped (w ∷ ws) (suc i) o l h =
    ground (arith, snap_greatest clamped (start + w) start ws i)

-- An offset is the start of a tab.
abbrev pub IsStart : ℕ → List ℕ → ℕ → Type 0
IsStart start ws offset = (i : ℕ) × (i < length ws) × (start + sum (take i ws) ≡ offset)

pub IsStart-cons :
    (start w : ℕ) (ws : List ℕ) (offset : ℕ)
    → IsStart (start + w) ws offset
    → IsStart start (w ∷ ws) offset
unfolding sum
IsStart-cons start w ws offset (i, l, e) = (suc i, omega arith, omega (arith, e))

IsStart-head : (start w : ℕ) (ws : List ℕ) → IsStart start (w ∷ ws) start
unfolding sum
IsStart-head start w ws = (0, omega arith, omega arith)

either :
    (start w result : ℕ) (ws : List ℕ)
    → (result ≡ start) ⊎ IsStart (start + w) ws result
    → IsStart start (w ∷ ws) result
either start w result ws (inl e) = rw e (IsStart-head start w ws)
either start w result ws (inr s) = IsStart-cons start w ws result s

pub snap-IsStart :
    (clamped start snapped : ℕ) (ws : List ℕ)
    → (snap clamped start snapped ws ≡ snapped) ⊎ IsStart start ws (snap clamped start snapped ws)
unfolding snap
snap-IsStart clamped start snapped [] = inl refl
snap-IsStart clamped start snapped (w ∷ ws) = elim (Bool-cases (ltb clamped start)) [
  | inl e ↦ inl (ground arith)
  | inr e ↦ inr (rw e (either start w _ ws (snap-IsStart clamped (start + w) start ws)))
]

pub first_past-IsStart :
    (threshold start last : ℕ) (ws : List ℕ)
    → (first_past threshold start last ws ≡ last)
      ⊎ IsStart start ws (first_past threshold start last ws)
unfolding first_past
first_past-IsStart threshold start last [] = inl refl
first_past-IsStart threshold start last (w ∷ ws) = elim (Bool-cases (leb threshold start)) [
  | inl e ↦ inr (rw e (IsStart-head start w ws))
  | inr e ↦ inr (rw e (either start w _ ws (first_past-IsStart threshold (start + w) start ws)))
]

-- No start before the result reaches the threshold.
pub first_past_least :
    (threshold start last : ℕ) (ws : List ℕ) (i : ℕ)
    → i < length ws
    → start + sum (take i ws) < first_past threshold start last ws
    → start + sum (take i ws) < threshold
unfolding first_past sum
first_past_least threshold start last [] i l h = absurd (omega arith)
first_past_least threshold start last (w ∷ ws) zero l h =
    ground (arith, first_past_least threshold (start + w) start ws zero)
first_past_least threshold start last (w ∷ ws) (suc i) l h =
    ground (arith, first_past_least threshold (start + w) start ws i)

pub last_before-lt :
    (current start previous : ℕ) (ws : List ℕ)
    → previous < current
    → last_before current start previous ws < current
unfolding last_before
last_before-lt current start previous [] h = h
last_before-lt current start previous (w ∷ ws) h =
    ground (arith, last_before-lt current (start + w) start ws)

pub first_after-between :
    (current final start : ℕ) (ws : List ℕ)
    → current < final
    → (current < first_after current final start ws) × (first_after current final start ws ≤ final)
unfolding first_after
first_after-between current final start [] h = (h, omega arith)
first_after-between current final start (w ∷ ws) h =
    ground (arith, first_after-between current final (start + w) ws)
