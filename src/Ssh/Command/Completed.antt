-- ===== src/Ssh/Command/Completed.antt =====
-- The arguments that ssh is run with (src/process/ssh_builder.rs), described by the cases of the host
-- that stands under the caller's destination.
use color_ssh.Base.{
  Text, Option, none, some, true, if◌then◌else◌, List, ◌≡◌, refl, ap, inl, inr, Bool-cases,
}
use color_ssh.Args.Ssh.{extract_destination_host}
use color_ssh.Inventory.Model.{InventoryHost, ConnectionProtocol, ssh, rdp, other}
use color_ssh.Rdp.Launch.{resolve_host_by_destination}
use color_ssh.Ssh.Synthesis.{synthesize_ssh_args}
use color_ssh.Ssh.Command.{effective_args, is_ssh, only_ssh, host_named}

-- What ssh is run with, by the arguments of the caller: these as they are where no host for ssh is found
-- under the destination, else completed for that host.
pub data IsCompleted (args : List Text) (hosts : List InventoryHost)
    : Option InventoryHost → List Text → Type 0 where
  no_destination : extract_destination_host args ≡ none → IsCompleted args hosts none args
  no_host :
      (destination : Text)
      → extract_destination_host args ≡ some destination
      → resolve_host_by_destination destination hosts ≡ none
      → IsCompleted args hosts none args
  not_for_ssh :
      (destination : Text) (host : InventoryHost)
      → extract_destination_host args ≡ some destination
      → resolve_host_by_destination destination hosts ≡ some host
      → ¬ (host.protocol ≡ ssh)
      → IsCompleted args hosts none args
  completed :
      (destination : Text) (host : InventoryHost)
      → extract_destination_host args ≡ some destination
      → resolve_host_by_destination destination hosts ≡ some host
      → host.protocol ≡ ssh
      → IsCompleted args hosts (some host) (synthesize_ssh_args args host)

is_ssh-eq : (protocol : ConnectionProtocol) → is_ssh protocol ≡ true → protocol ≡ ssh
is_ssh-eq ssh h = refl
is_ssh-eq rdp h = cc
is_ssh-eq (other text) h = cc

module _ (args : List Text) (hosts : List InventoryHost) where
  host-IsCompleted :
      (destination : Text) (host : InventoryHost)
      → extract_destination_host args ≡ some destination
      → resolve_host_by_destination destination hosts ≡ some host
      → let found = if is_ssh host.protocol then some host else none in
        IsCompleted args hosts found (effective_args args found)
  host-IsCompleted destination host named found = elim (Bool-cases (is_ssh host.protocol)) [
    | inl e ↦ rw e (completed destination host named found (is_ssh-eq host.protocol e))
    | inr e ↦ rw e (not_for_ssh destination host named found (λ same. cc (e, ap is_ssh same)))
  ]

  named-IsCompleted :
      (destination : Text) (host : Option InventoryHost)
      → extract_destination_host args ≡ some destination
      → resolve_host_by_destination destination hosts ≡ host
      → IsCompleted args hosts (only_ssh host) (effective_args args (only_ssh host))
  named-IsCompleted destination none named found = no_host destination named found
  named-IsCompleted destination (some host) named found =
      host-IsCompleted destination host named found

  pub destination-IsCompleted :
      (destination : Option Text)
      → extract_destination_host args ≡ destination
      → let host = only_ssh (host_named destination hosts) in
        IsCompleted args hosts host (effective_args args host)
  destination-IsCompleted none named = no_destination named
  destination-IsCompleted (some destination) named =
      named-IsCompleted destination (resolve_host_by_destination destination hosts) named refl
