-- ===== src/Protocol.antt =====
-- src/terminal/protocol.rs: the bytes that keys, mouse events and pasted text send to a terminal.
pub mod Mouse
pub mod Keys
mod Examples
use color_ssh.Base.{
  digits, decimal, ℕ, zero, suc, ◌+◌, ◌-◌, ◌*◌, ◌/◌, ◌%◌, min, max, Text, codes, Option, none, some,
  Bool, true, false, not, ◌&&◌, ◌||◌, List, [], ◌∷◌, ◌++◌, ltb, leb, ◌==◌, if◌then◌else◌,
}

-- A character as UTF-8.
abbrev pub encode_utf8 : ℕ → List ℕ
encode_utf8 c =
    if ltb c 128
    then c ∷ []
    else if ltb c 2048
    then (192 + c / 64) ∷ (128 + c % 64) ∷ []
    else if ltb c 65536
    then (224 + c / 4096) ∷ (128 + c / 64 % 64) ∷ (128 + c % 64) ∷ []
    else (240 + c / 262144) ∷ (128 + c / 4096 % 64) ∷ (128 + c / 64 % 64) ∷ (128 + c % 64) ∷ []

-- `u8::saturating_add`
abbrev pub saturating_add : ℕ → ℕ → ℕ
saturating_add a b = min (a + b) 255

abbrev pub encode_paste_bytes : List ℕ → Bool → List ℕ
encode_paste_bytes pasted false = pasted
encode_paste_bytes pasted true = 27 ∷ codes "[200~" ++ pasted ++ 27 ∷ codes "[201~"

pub data MouseProtocolEncoding : Type 0 where
  sgr legacy : MouseProtocolEncoding

abbrev pub clamp : ℕ → ℕ → ℕ → ℕ
clamp n low high = min (max n low) high

unfoldable pub encode_mouse_event_bytes : MouseProtocolEncoding → ℕ → ℕ → ℕ → Bool → List ℕ
unfolding digits
encode_mouse_event_bytes sgr button col row is_release =
    27
    ∷ b'['
    ∷ b'<'
    ∷ (decimal button
        ++ b';' ∷ (decimal col ++ b';' ∷ (decimal row ++ (if is_release then b'm' else b'M') ∷ [])))
encode_mouse_event_bytes legacy button col row is_release =
    27
    ∷ b'['
    ∷ b'M'
    ∷ (if is_release then 35 else saturating_add button 32)
    ∷ saturating_add (clamp col 1 223) 32
    ∷ saturating_add (clamp row 1 223) 32
    ∷ []

-- The modifiers that count: the others are masked out first.
pub record KeyModifiers : Type 0 where
  pub shift : Bool
  pub alt : Bool
  pub control : Bool

abbrev pub plain : KeyModifiers
plain = record { shift = false; alt = false; control = false }

abbrev pub only_alt : KeyModifiers
only_alt = record { shift = false; alt = true; control = false }

abbrev pub is_plain : KeyModifiers → Bool
is_plain m = not m.shift && (not m.alt && not m.control)

abbrev pub is_only_alt : KeyModifiers → Bool
is_only_alt m = not m.shift && (m.alt && not m.control)

unfoldable pub modifier_parameter : KeyModifiers → ℕ
modifier_parameter m =
    let with_shift = if m.shift then saturating_add 1 1 else 1 in
    let with_alt = if m.alt then saturating_add with_shift 2 else with_shift in
    if m.control then saturating_add with_alt 4 else with_alt

abbrev pub prefix_with_escape : List ℕ → List ℕ
prefix_with_escape bytes = 27 ∷ bytes

unfoldable pub encode_csi_cursor_key : ℕ → KeyModifiers → List ℕ
unfolding modifier_parameter digits
encode_csi_cursor_key final_byte m =
    let base = 27 ∷ b'[' ∷ final_byte ∷ [] in
    if is_plain m
    then base
    else if is_only_alt m
    then prefix_with_escape base
    else 27 ∷ codes "[1;" ++ decimal (modifier_parameter m) ++ encode_utf8 final_byte

unfoldable pub encode_csi_tilde_key : ℕ → KeyModifiers → List ℕ
unfolding modifier_parameter digits
encode_csi_tilde_key code m =
    let base = 27 ∷ b'[' ∷ decimal code ++ codes "~" in
    if is_plain m
    then base
    else if is_only_alt m
    then prefix_with_escape base
    else 27 ∷ b'[' ∷ decimal code ++ b';' ∷ decimal (modifier_parameter m) ++ codes "~"

-- The keys that the encoder tells apart; `other` is any other.
pub data KeyCode : Type 0 where
  char : ℕ → KeyCode
  enter backspace tab esc up down right left home end page_up page_down delete insert : KeyCode
  other : KeyCode

abbrev pub control_byte : ℕ → ℕ
control_byte ch =
    if (ch == b'@') || (ch == b' ')
    then 0
    else if leb b'a' ch && leb ch b'z'
    then ch - b'a' + 1
    else if leb b'A' ch && leb ch b'Z'
    then ch - b'A' + 1
    else if leb b'[' ch && leb ch b'_'
    then ch - b'[' + 27
    else if ch == b'?'
    then 127
    else ch % 256

abbrev pub with_alt : KeyModifiers → List ℕ → List ℕ
with_alt m out = if m.alt then prefix_with_escape out else out

unfoldable pub encode_key_event_bytes : KeyCode → KeyModifiers → Option (List ℕ)
unfolding encode_csi_cursor_key encode_csi_tilde_key
encode_key_event_bytes (char ch) m =
    some (with_alt m (if m.control then control_byte ch ∷ [] else encode_utf8 ch))
encode_key_event_bytes enter m = some (with_alt m (13 ∷ []))
encode_key_event_bytes backspace m = some (with_alt m (127 ∷ []))
encode_key_event_bytes tab m = some (with_alt m (9 ∷ []))
encode_key_event_bytes esc m = some (with_alt m (27 ∷ []))
encode_key_event_bytes up m = some (encode_csi_cursor_key b'A' m)
encode_key_event_bytes down m = some (encode_csi_cursor_key b'B' m)
encode_key_event_bytes right m = some (encode_csi_cursor_key b'C' m)
encode_key_event_bytes left m = some (encode_csi_cursor_key b'D' m)
encode_key_event_bytes home m = some (encode_csi_cursor_key b'H' m)
encode_key_event_bytes end m = some (encode_csi_cursor_key b'F' m)
encode_key_event_bytes page_up m = some (encode_csi_tilde_key 5 m)
encode_key_event_bytes page_down m = some (encode_csi_tilde_key 6 m)
encode_key_event_bytes delete m = some (encode_csi_tilde_key 3 m)
encode_key_event_bytes insert m = some (encode_csi_tilde_key 2 m)
encode_key_event_bytes other m = none
