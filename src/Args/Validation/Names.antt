-- ===== src/Args/Validation/Names.antt =====
-- What an accepted name is: not empty, free of blanks and of path separators.
use color_ssh.Base.{
  ℕ, Text, true, false, ◌==◌, all, is_ascii_alphanumeric, is_whitespace, NoBlanks, contains, ◌≡◌,
  refl, arith, [], ◌∷◌,
}
use color_ssh.Args.Validation.{vault_entry_char, validate_vault_entry_name}

vault_entry_char-not_blank : (c : ℕ) → vault_entry_char c ≡ true → is_whitespace c ≡ false
unfolding is_whitespace is_ascii_alphanumeric
vault_entry_char-not_blank c h = ground arith

all-not_blank : (s : Text) → all vault_entry_char s ≡ true → NoBlanks s
all-not_blank [] h = refl
all-not_blank (c ∷ s) h = ground (arith, vault_entry_char-not_blank c, all-not_blank s)

slash_not_entry_char : (c : ℕ) → vault_entry_char c ≡ true → (b'/' == c) ≡ false
unfolding is_ascii_alphanumeric
slash_not_entry_char c h = ground arith

all-no_slash : (s : Text) → all vault_entry_char s ≡ true → contains b'/' s ≡ false
all-no_slash [] h = refl
all-no_slash (c ∷ s) h = ground (arith, slash_not_entry_char c, all-no_slash s)

pub no_slash : (name : Text) → validate_vault_entry_name name ≡ true → contains b'/' name ≡ false
unfolding validate_vault_entry_name
no_slash name h = ground (arith, all-no_slash name)

pub vault_entry_name-NoBlanks :
    (name : Text) → validate_vault_entry_name name ≡ true → NoBlanks name
unfolding validate_vault_entry_name
vault_entry_name-NoBlanks name h = ground (arith, all-not_blank name)
