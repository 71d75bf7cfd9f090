-- ===== src/Base/Numbers.antt =====
-- Numbers in decimal digits.
use Prim.Native.Nat.{ℕ, zero, suc, ◌+◌, ◌/◌, ◌%◌}
use mathlib.Core.List.{List, [], ◌∷◌, ◌++◌}
use color_ssh.Base.Tests.{ltb, if◌then◌else◌}

-- A number in decimal digits; the fuel bounds their count.
unfoldable pub digits : ℕ → ℕ → List ℕ
digits zero n = []
digits (suc fuel) n =
    let rest = digits fuel (n / 10) in
    if ltb n 10 then (48 + n) ∷ [] else rest ++ (48 + n % 10) ∷ []

-- Numbers of 16 bits have five digits at most.
abbrev pub decimal : ℕ → List ℕ
decimal n = digits 5 n
