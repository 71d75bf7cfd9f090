-- ===== src/Ssh/Synthesis/Target.antt =====
-- What ssh takes for its destination among the synthesized arguments.
use mathlib.Core.Option
use color_ssh.Base.{ℕ, Text, false, Option, none, some, List, ◌∷◌, ◌++◌, ◌≡◌, contains}
use color_ssh.Args.Ssh.{is_flag, host_part}
use color_ssh.Args.Ssh.Destination.{Options}
use color_ssh.Inventory.Model.{InventoryHost}

-- An address that ssh reads as it stands: not a flag, and with no user in it.
abbrev pub IsPlain : Text → Type 0
IsPlain address = (is_flag address ≡ false) × (contains b'@' address ≡ false)

abbrev IsCut : ℕ → Text → Option (Text × Text) → Type 0
IsCut c s none = Unit
IsCut c s (some (user, rest)) = (s ≡ user ++ c ∷ rest) × (contains c user ≡ false)

module _ (host : InventoryHost) (plain : IsPlain host.host) where
  abbrev IsTarget : Text → Type 0
  IsTarget target = (is_flag target ≡ false) × (host_part target ≡ host.host)

-- How the synthesized arguments come from the caller's: the options before the destination stay,
-- whole options follow, the destination names the host's address, and what is behind it stays.
pub record Synthesized (args : List Text) (host : InventoryHost) (result : List Text) : Type 0 where
  pub before : List Text
  pub target : Text
  pub injected : List Text
  pub destination : Text
  pub after : List Text
  pub before_is : Options before
  pub injected_is : Options injected
  pub split : args ≡ before ++ target ∷ after
  pub not_flag : is_flag destination ≡ false
  pub host_is : host_part destination ≡ host.host
  pub result_is : result ≡ before ++ injected ++ destination ∷ after
