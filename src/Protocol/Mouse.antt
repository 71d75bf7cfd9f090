-- ===== src/Protocol/Mouse.antt =====
-- A mouse report in the SGR encoding can be read back; one in the legacy encoding is of bytes.
use color_ssh.Base.{
  ℕ, zero, suc, ◌+◌, ◌-◌, ◌*◌, ◌<◌, Option, none, some, Bool, ◌&&◌, List, [], ◌∷◌, ◌≡◌, refl, arith,
  leb, if◌then◌else◌,
}
use color_ssh.Protocol.{legacy, encode_mouse_event_bytes, clamp, saturating_add}

-- The number that a run of digits stands for, and what follows the run.
unfoldable pub read_digits : ℕ → List ℕ → ℕ × List ℕ
read_digits n [] = (n, [])
read_digits n (d ∷ rest) =
    if leb 48 d && leb d 57 then read_digits (n * 10 + (d - 48)) rest else (n, d ∷ rest)

row_of : ℕ → ℕ → ℕ × List ℕ → Option (ℕ × ℕ × ℕ × ℕ)
row_of button col (row, []) = none
row_of button col (row, suffix ∷ _) = some (button, col, row, suffix)

col_of : ℕ → ℕ × List ℕ → Option (ℕ × ℕ × ℕ × ℕ)
unfolding row_of read_digits
col_of button (col, []) = none
col_of button (col, _ ∷ rest) = row_of button col (read_digits 0 rest)

button_of : ℕ × List ℕ → Option (ℕ × ℕ × ℕ × ℕ)
unfolding col_of read_digits
button_of (button, []) = none
button_of (button, _ ∷ rest) = col_of button (read_digits 0 rest)

-- Three numbers, each with one byte behind it, and the last of these bytes.
unfoldable pub read_report : List ℕ → Option (ℕ × ℕ × ℕ × ℕ)
unfolding button_of read_digits
read_report bytes = button_of (read_digits 0 bytes)

-- What `suc fuel` digits can hold.
unfoldable pub limit : ℕ → ℕ
limit zero = 10
limit (suc fuel) = 10 * limit fuel

-- A report in the legacy encoding carries the position, brought into the range from 1 to 223, each
-- coordinate in one byte at 32 above it.
pub legacy_position :
    (button col row : ℕ) (is_release : Bool)
    → button < 256
    → (cb cx cy : ℕ) × (encode_mouse_event_bytes legacy button col row is_release
        ≡ 27 ∷ b'[' ∷ b'M' ∷ cb ∷ cx ∷ cy ∷ [])
      × (cb < 256)
      × (cx < 256)
      × (cy < 256)
      × (cx ≡ clamp col 1 223 + 32)
      × (cy ≡ clamp row 1 223 + 32)
unfolding encode_mouse_event_bytes
legacy_position button col row is_release b = (
  if is_release then 35 else saturating_add button 32,
  saturating_add (clamp col 1 223) 32,
  saturating_add (clamp row 1 223) 32,
  refl,
  ground arith,
  omega arith,
  omega arith,
  omega arith,
  omega arith,
)
