-- ===== src/Base/Words.antt =====
-- `split_whitespace`, and the splits of a text at its first blank or character.
use Prim.Native.Nat.{ℕ}
use mathlib.Core.Bool.{Bool, true, false}
use mathlib.Core.Option.{Option, none, some}
use mathlib.Core.Option
use mathlib.Core.List.{List, [], ◌∷◌, ◌++◌}
use color_ssh.Base.Tests.{◌==◌}
use color_ssh.Base.Texts.{Text}
use color_ssh.Base.Chars.{is_whitespace}

-- The words of a text, with the word that is being read.
abbrev pub finish_word : Text → List Text → List Text
finish_word [] words = words
finish_word (c ∷ s) words = (c ∷ s) ∷ words

unfoldable pub words_from : Text → Text → List Text
words_from word [] = finish_word word []
words_from word (c ∷ s) = elim (is_whitespace c) [
  | true ↦ finish_word word (words_from [] s)
  | false ↦ words_from (word ++ c ∷ []) s
]

unfoldable pub split_whitespace : Text → List Text
unfolding words_from is_whitespace
split_whitespace s = words_from [] s

-- What comes before the first character that passes a test, and what comes behind it.
unfoldable pub split_first : (ℕ → Bool) → Text → Option (Text × Text)
split_first p [] = none
split_first p (c ∷ s) = elim (p c) [
  | true ↦ some ([], s)
  | false ↦ Option.map (λ parts. (c ∷ parts.0, parts.1)) (split_first p s)
]

-- `split_once` at a character
abbrev pub split_once : ℕ → Text → Option (Text × Text)
split_once c s = split_first (λ d. d == c) s
