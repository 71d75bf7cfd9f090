-- ===== src/Base/Paths.antt =====
-- `Path::join` on Unix, over the text of a path.
use color_ssh.Base.Tests.{◌==◌}
use color_ssh.Base.Texts.{Text, codes}
use color_ssh.Base.Chars.{strip_prefix, contains}
use mathlib.Core.Bool.{true, false}
use mathlib.Core.Logic.{◌≢◌}
use mathlib.Core.Path.{◌≡◌, refl}
use mathlib.Core.Option.{none, some}
use mathlib.Core.List.{[], ◌∷◌, ◌++◌}
use native.Mathlib.Omega.{arith}

-- What `join` puts between: nothing behind an empty path or a final slash.
unfoldable pub separator : Text → Text
separator [] = []
separator (c ∷ []) = elim (c == b'/') [ true ↦ [] | false ↦ codes "/" ]
separator (c ∷ d ∷ s) = separator (d ∷ s)

-- An absolute second path replaces the first.
unfoldable pub join : Text → Text → Text
join base part = elim (strip_prefix (codes "/") part) [
  | some _ ↦ part
  | none ↦ base ++ (separator base ++ part)
]

pub join_relative :
    (base part : Text)
    → strip_prefix (codes "/") part ≡ none
    → join base part ≡ base ++ (separator base ++ part)
unfolding join
join_relative base part h = rw (h, join)

-- A name with no slash, with a suffix, is a relative path.
pub name-relative :
    (name suffix : Text)
    → name ≢ []
    → contains b'/' name ≡ false
    → strip_prefix (codes "/") (name ++ suffix) ≡ none
unfolding strip_prefix
name-relative [] suffix e h = absurd (e refl)
name-relative (c ∷ s) suffix e h = ground arith
