-- ===== src/Inventory/Value.antt =====
-- A YAML value as `serde_yml` gives it, and the keys of the inventory (src/inventory/parse.rs).
-- A mapping is its entries in their order; `insert` replaces an entry in place or appends it.
use color_ssh.Base.{
  ℕ, Text, codes, text_eq, Option, Bool, false, ◌||◌, List, [], ◌∷◌, if◌then◌else◌,
  is_ascii_alphanumeric, lower, retain, map,
}

-- What the code reads of a number: its text, its value where that is unsigned, and whether it is a
-- negative integer.
pub record Number : Type 0 where
  pub text : Text
  pub as_u64 : Option ℕ
  pub negative : Bool

mutual
  pub data Value : Type 0 where
    null : Value
    bool : Bool → Value
    number : Number → Value
    string : Text → Value
    sequence : Items → Value
    mapping : Fields → Value

  pub data Items : Type 0 where
    nil : Items
    cons : Value → Items → Items

  pub data Fields : Type 0 where
    end : Fields
    field : Text → Value → Fields → Fields

unfoldable pub insert : Text → Value → Fields → Fields
insert key value end = field key value end
insert key value (field k v rest) =
    if text_eq k key then field k value rest else field k v (insert key value rest)

unfoldable pub push : Value → Items → Items
push value nil = cons value nil
push value (cons v rest) = cons v (push value rest)

unfoldable pub items_of : List Value → Items
items_of [] = nil
items_of (v ∷ vs) = cons v (items_of vs)

unfoldable pub compact_key : Text → Text
unfolding is_ascii_alphanumeric lower
compact_key key = map lower (retain is_ascii_alphanumeric key)

unfoldable pub canonical_top_level_key : Text → Text
unfolding compact_key
canonical_top_level_key key =
    let compact = compact_key key in
    if text_eq compact (codes "include")
    then codes "include"
    else if text_eq compact (codes "inventory")
    then codes "inventory"
    else key

-- The arms of `canonical_host_key`: a compact key and the key that stands for it.
abbrev pub host_keys : List (Text × Text)
host_keys =
    (codes "name", codes "name")
    ∷ (codes "description", codes "description")
    ∷ (codes "protocol", codes "protocol")
    ∷ (codes "host", codes "host")
    ∷ (codes "hostname", codes "host")
    ∷ (codes "user", codes "user")
    ∷ (codes "port", codes "port")
    ∷ (codes "profile", codes "profile")
    ∷ (codes "vaultpass", codes "vault_pass")
    ∷ (codes "hidden", codes "hidden")
    ∷ (codes "identityfile", codes "identity_file")
    ∷ (codes "identitiesonly", codes "identities_only")
    ∷ (codes "proxyjump", codes "proxy_jump")
    ∷ (codes "proxycommand", codes "proxy_command")
    ∷ (codes "forwardagent", codes "forward_agent")
    ∷ (codes "localforward", codes "local_forward")
    ∷ (codes "remoteforward", codes "remote_forward")
    ∷ (codes "sshoptions", codes "ssh_options")
    ∷ (codes "rdpdomain", codes "rdp_domain")
    ∷ (codes "rdpargs", codes "rdp_args")
    ∷ []

unfoldable pub find_key : Text → Text → List (Text × Text) → Text
find_key compact key [] = key
find_key compact key ((k, canonical) ∷ keys) =
    if text_eq compact k then canonical else find_key compact key keys

unfoldable pub canonical_host_key : Text → Text
unfolding compact_key find_key
canonical_host_key key = find_key (compact_key key) key host_keys

-- `mapping_has_key(mapping, "name")`, and `is_host_mapping`
unfoldable pub is_host_mapping : Fields → Bool
is_host_mapping end = false
is_host_mapping (field k v rest) =
    text_eq (canonical_host_key k) (codes "name") || is_host_mapping rest
