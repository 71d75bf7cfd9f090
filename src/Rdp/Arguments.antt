-- ===== src/Rdp/Arguments.antt =====
-- The arguments of the client, and the payload that hands them over on its standard input
-- (src/process/rdp_builder.rs). An error is its message.
use color_ssh.Base.{
  ℕ, ◌==◌, Text, codes, text_eq, trim, is_empty, contains, digits, decimal, Result, ok, err, Option,
  none, some, Bool, true, false, not, ◌&&◌, ◌||◌, List, [], ◌∷◌, ◌++◌, if◌then◌else◌, any, guard,
  ◌>>=◌, ◌>>◌,
}
use color_ssh.Inventory.Model.{InventoryHost}

abbrev pub Checked : Type 0 → Type 0
Checked A = Result Text A

abbrev pub breaks_line : ℕ → Bool
breaks_line c = c == 0 || (c == 10 || c == 13)

unfoldable pub validate_rdp_value : Text → Text → Checked (Unit {0})
validate_rdp_value label value =
    guard (not (any breaks_line value)) (
      codes "RDP "
      ++ label
      ++ codes " cannot contain carriage returns, newlines, or NUL characters")

unfoldable pub validate_rdp_password_for_startup : Text → Checked (Unit {0})
unfolding validate_rdp_value
validate_rdp_password_for_startup password = validate_rdp_value (codes "password") password

unfoldable pub validated_rdp_extra_args : List Text → Checked (List Text)
unfolding validate_rdp_value trim
validated_rdp_extra_args [] = ok []
validated_rdp_extra_args (arg ∷ args) =
    guard (not (is_empty (trim arg))) (codes "RDP extra arguments cannot be empty")
    >> validate_rdp_value (codes "extra argument") arg
    >> validated_rdp_extra_args args
    >>= λ others. ok (arg ∷ others)

abbrev pub starts_with : Text → Text → Bool
starts_with [] s = true
starts_with (p ∷ ps) [] = false
starts_with (p ∷ ps) (c ∷ s) = p == c && starts_with ps s

abbrev pub with_port : Text → Text → Text
with_port destination port =
    if contains b':' destination && not (starts_with (codes "[") destination)
    then codes "[" ++ destination ++ codes "]:" ++ port
    else destination ++ codes ":" ++ port

unfoldable pub address_of : Text → Option ℕ → Text
unfolding digits
address_of destination none = destination
address_of destination (some port) = with_port destination (decimal port)

unfoldable pub rdp_server_address : InventoryHost → Checked Text
unfolding trim validate_rdp_value address_of
rdp_server_address host =
    let destination = trim host.host in
    guard (not (is_empty destination))
      (codes "RDP host destination is required; set `host` in the inventory or pass a target")
    >> validate_rdp_value (codes "host") destination
    >> ok (address_of destination host.port)

abbrev pub has_rdp_cert_flag : List Text → Bool
has_rdp_cert_flag args =
    any (λ arg. starts_with (codes "/cert:") arg || text_eq arg (codes "/cert")) args

abbrev pub filled : Text → Option Text
filled text = if is_empty text then none else some text

-- A value without its blanks, where something is left.
unfoldable pub stated : Option Text → Option Text
unfolding trim
stated none = none
stated (some value) = filled (trim value)

unfoldable pub domain_args : Option Text → Checked (List Text)
unfolding validate_rdp_value
domain_args none = ok []
domain_args (some domain) =
    validate_rdp_value (codes "domain") domain >> ok ((codes "/d:" ++ domain) ∷ [])

abbrev pub prompt_args : Bool → List Text
prompt_args true = codes "+force-console-callbacks" ∷ codes "/from-stdin:force" ∷ []
prompt_args false = []

abbrev pub cert_args : List Text → List Text
cert_args extra_args = if has_rdp_cert_flag extra_args then [] else codes "/cert:tofu" ∷ []

abbrev pub no_user : Text
no_user = codes "RDP username is required; set `user` in the inventory or pass `--user`"

unfoldable pub args_of_user : InventoryHost → Bool → Text → Checked (List Text)
unfolding validate_rdp_value rdp_server_address validated_rdp_extra_args domain_args stated
args_of_user host force_native_prompt user =
    validate_rdp_value (codes "username") user >> rdp_server_address host >>= λ server.
    validated_rdp_extra_args host.rdp.args >>= λ extra_args.
    domain_args (stated host.rdp.domain) >>= λ domain. ok (
      (codes "/u:" ++ user) ∷ domain
      ++ (codes "/v:" ++ server) ∷ prompt_args force_native_prompt
      ++ cert_args extra_args
      ++ extra_args)

unfoldable pub build_rdp_args : InventoryHost → Bool → Checked (List Text)
unfolding args_of_user stated
build_rdp_args host force_native_prompt = elim (stated host.user) [
  | none ↦ err no_user
  | some user ↦ args_of_user host force_native_prompt user
]

abbrev pub push_rdp_stdin_arg : Text → Text → Text
push_rdp_stdin_arg payload arg = if is_empty payload then arg else payload ++ 10 ∷ arg

unfoldable pub push_all : Text → List Text → Text
push_all payload [] = payload
push_all payload (arg ∷ args) = push_all (push_rdp_stdin_arg payload arg) args

unfoldable pub build_rdp_stdin_payload : InventoryHost → Text → Checked Text
unfolding validate_rdp_password_for_startup build_rdp_args push_all
build_rdp_stdin_payload host password =
    validate_rdp_password_for_startup password >> build_rdp_args host false >>= λ args.
    ok (push_rdp_stdin_arg (push_all [] args) (codes "/p:") ++ password)
