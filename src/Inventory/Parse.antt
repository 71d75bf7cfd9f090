-- ===== src/Inventory/Parse.antt =====
-- src/inventory/parse.rs: an inventory document is read from a YAML value. An error is its message,
-- without the value that the message quotes and the file that it names.
pub mod HostFields
pub mod Documents
use mathlib.Core.Option
use color_ssh.Base.{
  ℕ, ◌==◌, ltb, ◌^◌, Text, codes, text_eq, trim, is_empty, to_ascii_lowercase, lower, Result, ok,
  err, Option, none, some, Bool, true, false, ◌||◌, List, [], ◌∷◌, ◌++◌, if◌then◌else◌, any, ◌>>=◌,
  ◌>>◌,
}
use color_ssh.Inventory.Value.{
  Value, null, bool, number, string, sequence, mapping, Items, nil, cons, Fields, end, field,
}

-- The readings of one value. The text of a message names the field.
abbrev pub Reading : Type 0 → Type 0
Reading A = Result Text A

abbrev pub text_of_bool : Bool → Text
text_of_bool true = codes "true"
text_of_bool false = codes "false"

abbrev pub not_null : Text → Text
not_null name = name ++ codes " cannot be null"

abbrev pub not_scalar : Text → Text
not_scalar name = name ++ codes " must be a scalar string, boolean, or number"

abbrev pub scalar_to_string : Value → Text → Reading Text
scalar_to_string (string text) name = ok text
scalar_to_string (bool b) name = ok (text_of_bool b)
scalar_to_string (number n) name = ok n.text
scalar_to_string null name = err (not_null name)
scalar_to_string (sequence items) name = err (not_scalar name)
scalar_to_string (mapping fields) name = err (not_scalar name)

abbrev pub unless_blank : Text → Option Text
unless_blank text = if is_empty (trim text) then none else some text

abbrev pub mapped : {A B : Type 0} → (A → B) → Reading A → Reading B
mapped f (ok a) = ok (f a)
mapped f (err e) = err e

unfoldable pub optional_scalar_to_string : Value → Text → Reading (Option Text)
unfolding trim
optional_scalar_to_string null name = ok none
optional_scalar_to_string value name = mapped unless_blank (scalar_to_string value name)

abbrev pub yes_words : List Text
yes_words = codes "1" ∷ codes "true" ∷ codes "yes" ∷ codes "on" ∷ []

abbrev pub no_words : List Text
no_words = codes "0" ∷ codes "false" ∷ codes "no" ∷ codes "off" ∷ []

abbrev pub among : Text → List Text → Bool
among text words = any (text_eq text) words

-- `normalize_yes_no_string`
unfoldable pub normalize_yes_no_string : Text → Text
unfolding trim lower
normalize_yes_no_string value =
    let normalized = to_ascii_lowercase (trim value) in
    if among normalized yes_words
    then codes "yes"
    else if among normalized no_words
    then codes "no"
    else trim value

unfoldable pub parse_forward_agent : Value → Reading (Option Text)
unfolding optional_scalar_to_string normalize_yes_no_string
parse_forward_agent value =
    mapped (Option.map normalize_yes_no_string)
      (optional_scalar_to_string value (codes "forward_agent"))

abbrev pub not_0_or_1 : Text → Text
not_0_or_1 name = name ++ codes " numeric value must be 0 or 1"

-- `as_i64` gives a value below `2 ^ 63`.
abbrev pub bool_of_number : Bool → Option ℕ → Text → Reading (Option Bool)
bool_of_number true value name = err (not_0_or_1 name)
bool_of_number false none name = err (name ++ codes " numeric value is invalid")
bool_of_number false (some n) name =
    if ltb n (2 ^ 63)
    then if n == 0
      then ok (some false)
      else if n == 1
      then ok (some true)
      else err (not_0_or_1 name)
    else err (name ++ codes " numeric value is invalid")

unfoldable pub parse_bool : Value → Text → Reading (Option Bool)
unfolding trim lower
parse_bool null name = ok none
parse_bool (bool b) name = ok (some b)
parse_bool (number n) name = bool_of_number n.negative n.as_u64 name
parse_bool (string text) name =
    let normalized = to_ascii_lowercase (trim text) in
    if is_empty normalized
    then ok none
    else if among normalized yes_words
    then ok (some true)
    else if among normalized no_words
    then ok (some false)
    else err (name ++ codes " is not a valid boolean")
parse_bool (sequence items) name = err (name ++ codes " must be a boolean-like scalar")
parse_bool (mapping fields) name = err (name ++ codes " must be a boolean-like scalar")

abbrev pub port_of_number : Option ℕ → Text → Reading (Option ℕ)
port_of_number none name = err (name ++ codes " must be an unsigned integer")
port_of_number (some raw) name =
    if ltb raw 65536 then ok (some raw) else err (name ++ codes " is out of range")

abbrev pub port_of_text : Option ℕ → Text → Reading (Option ℕ)
port_of_text none name = err (name ++ codes " is not a valid port number")
port_of_text (some port) name = ok (some port)

-- `str::parse::<u16>` is the standard library's.
unfoldable pub parse_u16 : (Text → Option ℕ) → Value → Text → Reading (Option ℕ)
unfolding trim
parse_u16 parse null name = ok none
parse_u16 parse (number n) name = port_of_number n.as_u64 name
parse_u16 parse (string text) name =
    let trimmed = trim text in
    if is_empty trimmed then ok none else port_of_text (parse trimmed) name
parse_u16 parse (bool b) name = err (name ++ codes " must be a string or integer")
parse_u16 parse (sequence items) name = err (name ++ codes " must be a string or integer")
parse_u16 parse (mapping fields) name = err (name ++ codes " must be a string or integer")

unfoldable pub scalars : (Value → Text → Reading Text) → Items → Text → Reading (List Text)
scalars read nil name = ok []
scalars read (cons v rest) name =
    read v name >>= λ text. mapped (λ texts. text ∷ texts) (scalars read rest name)

-- `parse_string_list`, which every call asks not to split a scalar
unfoldable pub parse_string_list : Value → Text → Reading (List Text)
unfolding scalars
parse_string_list null name = ok []
parse_string_list (sequence items) name = scalars scalar_to_string items name
parse_string_list value name = mapped (λ text. text ∷ []) (scalar_to_string value name)

abbrev pub ssh_option_scalar_to_string : Value → Text → Reading Text
ssh_option_scalar_to_string (bool b) name = ok (if b then codes "yes" else codes "no")
ssh_option_scalar_to_string (number n) name = ok n.text
ssh_option_scalar_to_string (string text) name = ok text
ssh_option_scalar_to_string null name = err (not_null name)
ssh_option_scalar_to_string (sequence items) name = err (not_scalar name)
ssh_option_scalar_to_string (mapping fields) name = err (not_scalar name)

unfoldable pub parse_ssh_option_values : Value → Text → Reading (List Text)
unfolding scalars
parse_ssh_option_values null name = err (not_null name)
parse_ssh_option_values (sequence items) name = scalars ssh_option_scalar_to_string items name
parse_ssh_option_values value name =
    mapped (λ text. text ∷ []) (ssh_option_scalar_to_string value name)
