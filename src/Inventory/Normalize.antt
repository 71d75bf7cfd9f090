-- ===== src/Inventory/Normalize.antt =====
-- src/inventory/normalize.rs and error.rs: a host of a document becomes a host of the inventory.
use color_ssh.Base.{
  Text, trim, is_empty, Result, ok, err, Option, none, some, Bool, true, false, List, [], map,
  if◌then◌else◌, guard, ◌>>◌, ◌≡◌, refl, inl, inr, arith, subst, Option-cases, Bool-cases,
}
use color_ssh.Args.Validation.{validate_vault_entry_name}
use color_ssh.Inventory.Model.{InventoryHost, InventoryHostRaw}
use color_ssh.Inventory.Edit.{normalize_ssh_forward_spec}
use color_ssh.Inventory.Patterns.{expand_tilde}

-- What the messages name; `duplicate` has the file of the host that was there first.
pub data Problem : Type 0 where
  unreadable : Text → Problem
  missing_host : (name : Text) → Problem
  invalid_vault_pass : (name : Text) → (vault_pass : Text) → Problem
  duplicate : (name : Text) → (previous : Text) → Problem

pub record InventoryError : Type 0 where
  pub source_file : Text
  pub problem : Problem

abbrev pub invalid_inventory : Text → Problem → InventoryError
invalid_inventory source_file problem = record { source_file = source_file; problem = problem }

-- The host field, where it is there and not blank.
unfoldable pub stated_host : Option Text → Option Text
unfolding trim
stated_host none = none
stated_host (some value) = if is_empty (trim value) then none else some value

stated_host-not_blank :
    (o : Option Text) (address : Text)
    → stated_host o ≡ some address
    → is_empty (trim address) ≡ false
unfolding stated_host
stated_host-not_blank none address h = cc
stated_host-not_blank (some value) address h = ground arith

abbrev pub valid_vault_pass : Option Text → Bool
valid_vault_pass none = true
valid_vault_pass (some vault_pass) = validate_vault_entry_name vault_pass

abbrev pub or_empty : Option Text → Text
or_empty none = []
or_empty (some text) = text

module _ (home : Option Text) (raw : InventoryHostRaw) (source_file : Text)
    (folder_path : List Text) where
  abbrev pub normalized : Text → InventoryHost
  normalized host = record {
    name = raw.name;
    description = raw.description;
    protocol = raw.protocol;
    host = host;
    user = raw.user;
    port = raw.port;
    profile = raw.profile;
    vault_pass = raw.vault_pass;
    hidden = raw.hidden;
    ssh = record {
      identity_files = map (expand_tilde home) raw.identity_files;
      identities_only = raw.identities_only;
      proxy_jump = raw.proxy_jump;
      proxy_command = raw.proxy_command;
      forward_agent = raw.forward_agent;
      local_forward = map normalize_ssh_forward_spec raw.local_forward;
      remote_forward = map normalize_ssh_forward_spec raw.remote_forward;
      extra_options = raw.ssh_options;
    };
    rdp = record { domain = raw.rdp_domain; args = raw.rdp_args };
    source_file = source_file;
    source_folder_path = folder_path;
  }

  unfoldable pub normalize_inventory_host : Result InventoryError InventoryHost
  unfolding stated_host expand_tilde normalize_ssh_forward_spec
  normalize_inventory_host = elim (stated_host raw.host) [
    | none ↦ err (invalid_inventory source_file (missing_host raw.name))
    | some host ↦
        guard (valid_vault_pass raw.vault_pass)
          (invalid_inventory source_file (invalid_vault_pass raw.name (or_empty raw.vault_pass)))
        >> ok (normalized host)
  ]

  -- A host that is accepted has an address that is not blank, a name of a vault entry that is valid
  -- where it has one, and the name, file and folder that it was read with.
  pub normalize_inventory_host_lem :
      (host : InventoryHost)
      → normalize_inventory_host ≡ ok host
      → (is_empty (trim host.host) ≡ false)
        × (valid_vault_pass host.vault_pass ≡ true)
        × (host.name ≡ raw.name)
        × (host.source_file ≡ source_file)
        × (host.source_folder_path ≡ folder_path)
  unfolding normalize_inventory_host stated_host
  normalize_inventory_host_lem host h = elim (Option-cases (stated_host raw.host)) [
    | inl n ↦ absurd (ground (arith, n))
    | inr (address, n) ↦ elim (Bool-cases (valid_vault_pass raw.vault_pass)) [
      | inr e ↦ absurd (ground (arith, n, e))
      | inl e ↦
          let is : normalized address ≡ host = ground (arith, n, e) in
          subst
            (λ host.
              (is_empty (trim host.host) ≡ false)
              × (valid_vault_pass host.vault_pass ≡ true)
              × (host.name ≡ raw.name)
              × (host.source_file ≡ source_file)
              × (host.source_folder_path ≡ folder_path))
            is (stated_host-not_blank raw.host address n, e, refl, refl, refl)
    ]
  ]
