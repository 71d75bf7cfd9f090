-- ===== src/HostEditor/Submission/Handed.antt =====
-- The host that the form hands on is one that the inventory accepts.
use color_ssh.Base.{
  ℕ, ◌≤◌, ◌-◌, leb, Text, text_eq, codes, Option, none, some, Bool, true, false, not, List, [],
  ◌||◌, any, is_empty, trim, to_ascii_lowercase, contains, Result, ok, err, guard, >>=-eq-ok, ◌≡◌,
  refl, sym, subst, ◌⊎◌, inl, inr, arith, Bool-cases, if◌then◌else◌, ok_injective, length, take,
  drop, map,
}
use color_ssh.Args.Validation.{validate_vault_entry_name}
use color_ssh.Inventory.Value.{Value}
use color_ssh.Inventory.Model.{ConnectionProtocol, ssh, rdp}
use color_ssh.Inventory.Edit.{EditableInventoryHost}
use color_ssh.HostEditor.Fields.{HostEditorMode, create, edit, HostEditorState}
use color_ssh.HostEditor.Parsing.{
  port_of, port_found, in_range, parse_u16, digits_value, unsigned, protocol_of, parse_folder_path,
  checked_segments, split, starts_with, ends_with, optional_trimmed_string,
  parse_yaml_string_list_field, parse_yaml_ssh_options_field, invalid_folder_path,
}
use color_ssh.HostEditor.Submission.{
  HostEditorSubmission, build_submission, with_texts, with_protocol, with_port, with_entry,
  with_folder, with_identity, with_local, with_remote, with_options, build_host, host_from,
  submission, is_rdp_host, checked_entry, folder_of,
}

-- Settings stand only with their protocol.
pub IsSeparate : EditableInventoryHost → Bool → Type 0
IsSeparate host true =
    (host.profile ≡ none)
    × (host.ssh_identity_files ≡ [])
    × (host.ssh_identities_only ≡ none)
    × (host.ssh_proxy_jump ≡ none)
    × (host.ssh_proxy_command ≡ none)
    × (host.ssh_forward_agent ≡ none)
    × (host.ssh_local_forward ≡ [])
    × (host.ssh_remote_forward ≡ [])
    × (host.ssh_options ≡ [])
IsSeparate host false = (host.rdp_domain ≡ none) × (host.rdp_args ≡ [])

pub IsPort : Option ℕ → Type 0
IsPort none = Unit
IsPort (some port) = port ≤ 65535

pub IsEntry : Option Text → Type 0
unfolding validate_vault_entry_name
IsEntry none = Unit
IsEntry (some name) = validate_vault_entry_name name ≡ true

-- A segment of a folder's path that names nothing.
abbrev is_bad : Text → Bool
is_bad segment = is_empty segment || contains b'/' segment

pub record IsHandedOn (s : HostEditorState) (sub : HostEditorSubmission) : Type 0 where
  pub name_is : sub.host.name ≡ trim s.name.text
  pub named : is_empty sub.host.name ≡ false
  pub host_is : sub.host.host ≡ trim s.host.text
  pub addressed : is_empty sub.host.host ≡ false
  pub protocol_is : (sub.host.protocol ≡ ssh) ⊎ (sub.host.protocol ≡ rdp)
  pub separate : IsSeparate sub.host (is_rdp_host sub.host.protocol)
  pub port_fits : IsPort sub.host.port
  pub entry_valid : IsEntry sub.host.vault_pass
  pub folders_named : any is_bad sub.folder_path ≡ false

guard-ok : {E : Type 0} (b : Bool) (e : E) {u : Unit {0}} → guard b e ≡ ok u → b ≡ true
guard-ok true e h = refl
guard-ok false e h = cc

in_range-IsPort :
    (value : Option ℕ) (port : Option ℕ) → port_found (in_range value) ≡ ok port → IsPort port
unfolding IsPort
in_range-IsPort none port h = cc
in_range-IsPort (some value) port h = elim (Bool-cases (leb value 65535)) [
  | inl e ↦
      let is : some value ≡ port = ok_injective (rw e at h) in subst IsPort is (ground (arith, e))
  | inr e ↦ cc (rw e at h)
]

parsed-IsPort :
    (b : Bool) (value : Option ℕ) (port : Option ℕ)
    → port_found (if b then none else in_range value) ≡ ok port
    → IsPort port
parsed-IsPort true value port h = cc
parsed-IsPort false value port h = in_range-IsPort value port h

given-IsPort :
    (b c : Bool) (value : Option ℕ) (port : Option ℕ)
    → (if b then ok none else port_found (if c then none else in_range value)) ≡ ok port
    → IsPort port
unfolding IsPort
given-IsPort true c value port h = subst IsPort (ok_injective h) tt
given-IsPort false c value port h = parsed-IsPort c value port h

port_of-IsPort : (text : Text) (port : Option ℕ) → port_of text ≡ ok port → IsPort port
unfolding port_of parse_u16
port_of-IsPort text port h =
    given-IsPort (is_empty text) (is_empty (unsigned text)) (digits_value 0 (unsigned text)) port h

checked_entry-IsEntry : (entry given : Option Text) → checked_entry entry ≡ ok given → IsEntry given
unfolding IsEntry
checked_entry-IsEntry none given h = subst IsEntry (ok_injective h) tt
checked_entry-IsEntry (some name) given h = elim (Bool-cases (validate_vault_entry_name name)) [
  | inl e ↦ subst IsEntry (ok_injective (rw e at h)) e
  | inr e ↦ cc (rw e at h)
]

protocol_of-cases :
    (text : Text) (protocol : ConnectionProtocol)
    → protocol_of text ≡ ok protocol
    → (protocol ≡ ssh) ⊎ (protocol ≡ rdp)
unfolding protocol_of
protocol_of-cases text protocol h =
    elim (Bool-cases (text_eq (to_ascii_lowercase text) (codes "ssh"))) [
      | inl e ↦ inl (sym (ok_injective (rw e at h)))
      | inr e ↦ elim (Bool-cases (text_eq (to_ascii_lowercase text) (codes "rdp"))) [
        | inl f ↦ inr (sym (ok_injective (rw (e, f) at h)))
        | inr f ↦ cc (rw (e, f) at h)
      ]
    ]

segments-named :
    (segments path : List Text) → checked_segments segments ≡ ok path → any is_bad path ≡ false
segments-named segments path h = elim (Bool-cases (any is_bad segments)) [
  | inl e ↦ cc (rw e at h)
  | inr e ↦ subst (λ path. any is_bad path ≡ false) (ok_injective (rw e at h)) e
]

inner-named :
    (b : Bool) (segments path : List Text)
    → (if b then ok [] else checked_segments segments) ≡ ok path
    → any is_bad path ≡ false
inner-named true segments path h = subst (λ path. any is_bad path ≡ false) (ok_injective h) refl
inner-named false segments path h = segments-named segments path h

path-named :
    (b c d : Bool) (segments path : List Text)
    → (if b
        then ok []
        else if c
        then err invalid_folder_path
        else if d
        then ok []
        else checked_segments segments)
      ≡ ok path
    → any is_bad path ≡ false
path-named true c d segments path h = subst (λ path. any is_bad path ≡ false) (ok_injective h) refl
path-named false true d segments path h = cc
path-named false false d segments path h = inner-named d segments path h

folder_of-named :
    (mode : HostEditorMode) (text : Text) (path : List Text)
    → folder_of mode text ≡ ok path
    → any is_bad path ≡ false
unfolding parse_folder_path
folder_of-named create text path h =
    let trimmed = trim (trim text) in
    let inner = take (length trimmed - 2) (drop 1 trimmed) in
    path-named (is_empty trimmed || text_eq trimmed (codes "/"))
      (not (starts_with b'/' trimmed) || not (ends_with b'/' trimmed)) (is_empty inner)
      (map trim (split b'/' inner)) path h
folder_of-named edit text path h = subst (λ path. any is_bad path ≡ false) (ok_injective h) refl

module _ (from_str : Text → Result Text Value) (s : HostEditorState) (port : Option ℕ)
    (vault_pass : Option Text) where
  -- What a host that is built takes over.
  abbrev Takes : ConnectionProtocol → EditableInventoryHost → Type 0
  Takes protocol host =
      (host.name ≡ trim s.name.text)
      × (host.host ≡ trim s.host.text)
      × (host.port ≡ port)
      × (host.vault_pass ≡ vault_pass)
      × (host.protocol ≡ protocol)
      × IsSeparate host (is_rdp_host protocol)

  build_host-Takes :
      (protocol : ConnectionProtocol) (host : EditableInventoryHost)
      → build_host from_str s protocol port vault_pass ≡ ok host
      → Takes protocol host
  unfolding IsSeparate
  build_host-Takes rdp host h =
      let (args, a, made) =
        >>=-eq-ok (parse_yaml_string_list_field from_str s.rdp_args.text (codes "RDP Args"))
          (λ args. ok (host_from s rdp port vault_pass [] [] [] [] args)) h in
      subst (Takes rdp) (ok_injective made)
        (refl, refl, refl, refl, refl, (refl, refl, refl, refl, refl, refl, refl, refl, refl))
  build_host-Takes protocol host h =
      let (identity, a, h1) =
        >>=-eq-ok
          (parse_yaml_string_list_field from_str s.identity_file.text (codes "Identity File"))
          (with_identity from_str s protocol port vault_pass) h in
      let (local, b, h2) =
        >>=-eq-ok
          (parse_yaml_string_list_field from_str s.local_forward.text (codes "Local Forward"))
          (with_local from_str s protocol port vault_pass identity) h1 in
      let (remote, c, h3) =
        >>=-eq-ok
          (parse_yaml_string_list_field from_str s.remote_forward.text (codes "Remote Forward"))
          (with_remote from_str s protocol port vault_pass identity local) h2 in
      let (options, d, made) =
        >>=-eq-ok (parse_yaml_ssh_options_field from_str s.ssh_options.text)
          (with_options from_str s protocol port vault_pass identity local remote) h3 in
      subst (Takes protocol) (ok_injective made) (refl, refl, refl, refl, refl, (refl, refl))

texts-IsHandedOn :
    (from_str : Text → Result Text Value) (s : HostEditorState) (sub : HostEditorSubmission)
    → is_empty (trim s.name.text) ≡ false
    → is_empty (trim s.host.text) ≡ false
    → with_texts from_str s ≡ ok sub
    → IsHandedOn s sub
texts-IsHandedOn from_str s sub named addressed h =
    let (protocol, p, h1) =
      >>=-eq-ok (protocol_of (trim s.protocol.text)) (with_protocol from_str s) h in
    let (port, o, h2) = >>=-eq-ok (port_of (trim s.port.text)) (with_port from_str s protocol) h1 in
    let (vault_pass, e, h3) =
      >>=-eq-ok (checked_entry (optional_trimmed_string s.vault_pass.text))
        (with_entry from_str s protocol port) h2 in
    let (folder_path, f, h4) =
      >>=-eq-ok (folder_of s.mode s.folder_path.text)
        (with_folder from_str s protocol port vault_pass) h3 in
    let (host, b, made) =
      >>=-eq-ok (build_host from_str s protocol port vault_pass)
        (λ host. ok (submission s folder_path host)) h4 in
    let (name_is, host_is, port_is, entry_is, protocol_is, separate) =
      build_host-Takes from_str s port vault_pass protocol host b in
    subst (IsHandedOn s) (ok_injective made) (record {
      name_is = name_is;
      named = rw name_is named;
      host_is = host_is;
      addressed = rw host_is addressed;
      protocol_is = rw protocol_is (protocol_of-cases (trim s.protocol.text) protocol p);
      separate = rw protocol_is separate;
      port_fits = rw port_is (port_of-IsPort (trim s.port.text) port o);
      entry_valid =
          rw entry_is
            (checked_entry-IsEntry (optional_trimmed_string s.vault_pass.text) vault_pass e);
      folders_named = folder_of-named s.mode s.folder_path.text folder_path f;
    })

-- A form that is accepted hands on a host with a name and an address, as they stand trimmed in the form,
-- the protocol SSH or RDP, no setting of the other protocol, a port of 16 bits, a valid name of a vault
-- entry where it has one, and a path of folders whose names are not empty and have no slash.
pub build_submission-IsHandedOn :
    (from_str : Text → Result Text Value) (s : HostEditorState) (sub : HostEditorSubmission)
    → build_submission from_str s ≡ ok sub
    → IsHandedOn s sub
unfolding build_submission
build_submission-IsHandedOn from_str s sub h = elim (Bool-cases (is_empty (trim s.name.text))) [
  | inl e ↦ cc (rw e at h)
  | inr named ↦ elim (Bool-cases (is_empty (trim s.host.text))) [
    | inl e ↦ cc (rw (named, e) at h)
    | inr addressed ↦ elim (Bool-cases (is_empty (trim s.protocol.text))) [
      | inl e ↦ cc (rw (named, addressed, e) at h)
      | inr stated ↦
          texts-IsHandedOn from_str s sub named addressed (rw (named, addressed, stated) at h)
    ]
  ]
]
