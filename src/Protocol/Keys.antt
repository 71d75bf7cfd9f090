-- ===== src/Protocol/Keys.antt =====
-- What modifiers do to the bytes of a key.
use mathlib.Core.Option
use color_ssh.Base.{◌≡◌, refl, arith}
use color_ssh.Protocol.{
  KeyCode, char, enter, backspace, tab, esc, up, down, right, left, home, end, page_up, page_down,
  delete, insert, other, KeyModifiers, plain, only_alt, modifier_parameter, prefix_with_escape,
  encode_key_event_bytes,
}

-- Every key with Alt alone sends an escape and then what the key alone sends, and a key that sends
-- nothing alone sends nothing with Alt.
pub encode_alt :
    (code : KeyCode)
    → encode_key_event_bytes code only_alt
      ≡ Option.map prefix_with_escape (encode_key_event_bytes code plain)
unfolding encode_key_event_bytes
encode_alt (char c) = refl
encode_alt enter = refl
encode_alt backspace = refl
encode_alt tab = refl
encode_alt esc = refl
encode_alt up = refl
encode_alt down = refl
encode_alt right = refl
encode_alt left = refl
encode_alt home = refl
encode_alt end = refl
encode_alt page_up = refl
encode_alt page_down = refl
encode_alt delete = refl
encode_alt insert = refl
encode_alt other = refl

-- The parameter of two sets of modifiers is the same only if they are.
pub modifier_parameter_injective :
    (m n : KeyModifiers) → modifier_parameter m ≡ modifier_parameter n → m ≡ n
unfolding modifier_parameter
modifier_parameter_injective m n h = ground arith
