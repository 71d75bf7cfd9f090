-- ===== src/TextEdit/Cuts.antt =====
-- A cut at the byte position of a character is a cut at that character.
use mathlib.Core.Option
use color_ssh.Base.{
  ℕ, zero, suc, ◌+◌, ◌-◌, ◌≤◌, Text, some, [], ◌∷◌, ◌++◌, ◌≡◌, refl, ◌∙◌, length, take, drop, arith,
}
use color_ssh.TextEdit.{
  len_utf8, byte_len, nth_offset, byte_index_for_char, split_at, cut_range, slice, remove_range,
  insert,
}

nth_offset_lem :
    (offset : ℕ) (text : Text) (i : ℕ)
    → suc i ≤ length text
    → nth_offset offset text i ≡ some (offset + byte_len (take i text))
unfolding nth_offset byte_len
nth_offset_lem offset [] i h = absurd (omega arith)
nth_offset_lem offset (c ∷ s) zero h = ground arith
nth_offset_lem offset (c ∷ s) (suc i) h = ground (arith, nth_offset_lem (offset + len_utf8 c) s i)

take_all : (text : Text) (i : ℕ) → length text ≤ i → take i text ≡ text
take_all [] zero h = refl
take_all [] (suc i) h = refl
take_all (c ∷ s) zero h = absurd (omega arith)
take_all (c ∷ s) (suc i) h = ground (arith, take_all s i)

pub byte_index_lem : (text : Text) (i : ℕ) → byte_index_for_char text i ≡ byte_len (take i text)
unfolding byte_index_for_char byte_len
byte_index_lem text zero = refl
byte_index_lem text (suc i) = ground (arith, take_all text (suc i), nth_offset_lem 0 text (suc i))

split_at_cons :
    (c : ℕ) (s : Text) (n : ℕ)
    → 1 ≤ n
    → len_utf8 c ≤ n
    → split_at (c ∷ s) n ≡ Option.map (λ cut. (c ∷ cut.0, cut.1)) (split_at s (n - len_utf8 c))
unfolding split_at
split_at_cons c s zero h e = absurd (omega arith)
split_at_cons c s (suc n) h e = ground arith

len_utf8_positive : (c : ℕ) → 1 ≤ len_utf8 c
len_utf8_positive c = ground arith

split_at-byte_len :
    (text : Text) (i : ℕ) → split_at text (byte_len (take i text)) ≡ some (take i text, drop i text)
unfolding split_at byte_len
split_at-byte_len [] zero = refl
split_at-byte_len [] (suc i) = refl
split_at-byte_len (c ∷ s) zero = refl
split_at-byte_len (c ∷ s) (suc i) =
    let rest = split_at-byte_len s i in
    let n = byte_len (take i s) in
    let cons =
      split_at_cons c s (len_utf8 c + n) (omega (arith, len_utf8_positive c)) (omega arith) in
    let back : (len_utf8 c + n) - len_utf8 c ≡ n = omega arith in cons ∙ (rw (back, rest))

pub take-take : (text : Text) (i j : ℕ) → i ≤ j → take i (take j text) ≡ take i text
take-take [] zero zero h = refl
take-take [] zero (suc j) h = refl
take-take [] (suc i) zero h = refl
take-take [] (suc i) (suc j) h = refl
take-take (c ∷ s) zero zero h = refl
take-take (c ∷ s) zero (suc j) h = refl
take-take (c ∷ s) (suc i) zero h = absurd (omega arith)
take-take (c ∷ s) (suc i) (suc j) h = ground (arith, take-take s i j)

pub cut_range_lem :
    (text : Text) (i j : ℕ)
    → i ≤ j
    → cut_range text (byte_index_for_char text i) (byte_index_for_char text j)
      ≡ some (take i text, drop i (take j text), drop j text)
unfolding cut_range
cut_range_lem text i j h =
    let before : split_at (take j text) (byte_len (take i text))
        ≡ some (take i text, drop i (take j text)) =
      rw (take-take text i j h) at (split_at-byte_len (take j text) i) in
    ground (arith, byte_index_lem text i, byte_index_lem text j, split_at-byte_len text j, before)

-- `text[start..end]` at two characters never panics, and is what stands between them.
pub slice_lem :
    (text : Text) (i j : ℕ)
    → i ≤ j
    → slice text (byte_index_for_char text i) (byte_index_for_char text j)
      ≡ some (drop i (take j text))
unfolding slice
slice_lem text i j h = rw (slice, cut_range_lem text i j h)

pub remove_range_lem :
    (text : Text) (i j : ℕ)
    → i ≤ j
    → remove_range text (byte_index_for_char text i) (byte_index_for_char text j)
      ≡ some (take i text ++ drop j text)
unfolding remove_range
remove_range_lem text i j h = rw (remove_range, cut_range_lem text i j h)

pub insert_lem :
    (text : Text) (i ch : ℕ)
    → insert text (byte_index_for_char text i) ch ≡ some (take i text ++ ch ∷ drop i text)
unfolding insert
insert_lem text i ch = rw (insert, byte_index_lem text i, split_at-byte_len text i)
