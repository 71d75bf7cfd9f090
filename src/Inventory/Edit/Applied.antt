-- ===== src/Inventory/Edit/Applied.antt =====
-- A host entry that the editor writes is a host entry, with the name that it was given.
use color_ssh.Base.{
  ℕ, Text, codes, text_eq, text_eq_iff, text_eq_refl, Option, none, some, Bool, true, ◌||◌, List,
  [], ◌∷◌, ◌≡◌, refl, arith, map, Bool-cases, inl, inr,
}
use color_ssh.Inventory.Value.{
  Value, string, bool, Fields, end, field, insert, is_host_mapping, canonical_host_key,
}
use color_ssh.Inventory.Model.{as_str}
use color_ssh.Inventory.Edit.{
  EditableInventoryHost, put_text, put_list, put_bool, put_port, put_options, option_fields,
  trimmed_option, normalize_ssh_forward_spec, editable_host_mapping, insert_all, remove_all,
  apply_editable_host_to_mapping, keys_to_remove,
}

-- Whether a key reads as the name of a host.
abbrev pub names_host : Text → Bool
names_host key = text_eq (canonical_host_key key) (codes "name")

insert-is_host_mapping :
    (key : Text) (value : Value) (fields : Fields)
    → is_host_mapping (insert key value fields) ≡ (names_host key || is_host_mapping fields)
unfolding insert is_host_mapping
insert-is_host_mapping key value end = refl
insert-is_host_mapping key value (field k v rest) = elim (Bool-cases (text_eq k key)) [
  | inl e ↦ let same = (text_eq_iff k key).0 e in rw same (ground (arith, text_eq_refl key))
  | inr e ↦ ground (arith, e, insert-is_host_mapping key value rest)
]

insert_all-is_host_mapping :
    (new fields : Fields)
    → is_host_mapping (insert_all new fields) ≡ (is_host_mapping new || is_host_mapping fields)
unfolding insert_all is_host_mapping
insert_all-is_host_mapping end fields = refl
insert_all-is_host_mapping (field k v rest) fields =
    ground (
      arith,
      insert_all-is_host_mapping rest (insert k v fields),
      insert-is_host_mapping k v fields,
    )

record IsHost (fields : Fields) : Type 0 where
  is_host : is_host_mapping fields ≡ true

module _ {fields : Fields} (h : IsHost fields) where
  keeps_insert : (key : Text) (value : Value) → IsHost (insert key value fields)
  keeps_insert key value = record {
    is_host = ground (arith, insert-is_host_mapping key value fields, h.is_host);
  }

  put_text-keeps : (key : Text) (value : Option Text) → IsHost (put_text key value fields)
  put_text-keeps key none = h
  put_text-keeps key (some value) = keeps_insert key (string value)

  put_list-keeps : (key : Text) (values : List Text) → IsHost (put_list key values fields)
  put_list-keeps key [] = h
  put_list-keeps key (value ∷ values) = keeps_insert key _

  put_bool-keeps : (key : Text) (value : Option Bool) → IsHost (put_bool key value fields)
  put_bool-keeps key none = h
  put_bool-keeps key (some value) = keeps_insert key (bool value)

  put_port-keeps : (port : Option ℕ) → IsHost (put_port port fields)
  put_port-keeps none = h
  put_port-keeps (some port) = keeps_insert (codes "port") _

  put_options-keeps : (options : Fields) → IsHost (put_options options fields)
  put_options-keeps end = h
  put_options-keeps (field k v rest) = keeps_insert (codes "ssh_options") _

pub editable-is_host_mapping :
    (host : EditableInventoryHost) → is_host_mapping (editable_host_mapping host) ≡ true
unfolding editable_host_mapping is_host_mapping canonical_host_key
editable-is_host_mapping host =
    let named : IsHost (insert (codes "name") (string host.name) end) = record { is_host = refl } in
    let f₁ = keeps_insert named (codes "protocol") (string (as_str host.protocol)) in
    let f₂ = keeps_insert f₁ (codes "host") (string host.host) in
    let f₃ = keeps_insert f₂ (codes "hidden") (bool host.hidden) in
    let f₄ = put_text-keeps f₃ (codes "description") (trimmed_option host.description) in
    let f₅ = put_text-keeps f₄ (codes "user") (trimmed_option host.user) in
    let f₆ = put_port-keeps f₅ host.port in
    let f₇ = put_text-keeps f₆ (codes "profile") (trimmed_option host.profile) in
    let f₈ = put_text-keeps f₇ (codes "vault_pass") (trimmed_option host.vault_pass) in
    let f₉ = put_list-keeps f₈ (codes "identity_file") host.ssh_identity_files in
    let g₀ = put_bool-keeps f₉ (codes "identities_only") host.ssh_identities_only in
    let g₁ = put_text-keeps g₀ (codes "proxy_jump") (trimmed_option host.ssh_proxy_jump) in
    let g₂ = put_text-keeps g₁ (codes "proxy_command") (trimmed_option host.ssh_proxy_command) in
    let g₃ = put_text-keeps g₂ (codes "forward_agent") (trimmed_option host.ssh_forward_agent) in
    let g₄ =
      put_list-keeps g₃ (codes "local_forward")
        (map normalize_ssh_forward_spec host.ssh_local_forward) in
    let g₅ =
      put_list-keeps g₄ (codes "remote_forward")
        (map normalize_ssh_forward_spec host.ssh_remote_forward) in
    let g₆ = put_options-keeps g₅ (option_fields host.ssh_options end) in
    let g₇ = put_text-keeps g₆ (codes "rdp_domain") (trimmed_option host.rdp_domain) in
    let g₈ = put_list-keeps g₇ (codes "rdp_args") host.rdp_args in g₈.is_host

-- Whatever the mapping held, it is a host entry behind an update.
pub apply-is_host_mapping :
    (remove : Text → Fields → Fields) (fields : Fields) (host : EditableInventoryHost)
    → is_host_mapping (apply_editable_host_to_mapping remove fields host) ≡ true
unfolding apply_editable_host_to_mapping
apply-is_host_mapping remove fields host = ground (
  arith,
  insert_all-is_host_mapping (editable_host_mapping host)
      (remove_all remove (keys_to_remove fields) fields),
  editable-is_host_mapping host,
)
