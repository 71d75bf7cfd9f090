-- ===== src/Rdp/Laws.antt =====
-- Which password is used, and which host (src/process/rdp_builder.rs, src/process/ssh_builder.rs).
use color_ssh.Base.{
  ℕ, ◌+◌, Text, text_eq, text_eq_iff, Result, ok, Option, none, some, Bool, true, List, [], ◌∷◌,
  if◌then◌else◌, ◌≡◌, refl, subst, ◌⊎◌, inl, inr, arith, Bool-cases, Option-cases, Result-cases,
}
use color_ssh.Agent.Types.{UnlockPolicy}
use color_ssh.Config.{AuthSettings}
use color_ssh.Inventory.Model.{InventoryHost}
use color_ssh.Rdp.Arguments.{validate_rdp_password_for_startup}
use color_ssh.Rdp.Launch.{
  RdpAuthMode, supplied_password, vault_entry, direct_rdp_vault_autologin_failure, unlock_policy,
  resolve_direct_rdp_auth_mode_with, find_by, find_only, resolve_host_by_destination,
}

-- With an entry that is asked for and auto-login on, the client is started with that entry's
-- password or not at all; it never falls back to a prompt.
pub explicit_never_prompts :
    (vault : Text → UnlockPolicy → Result Text Text) (host : InventoryHost) (entry : Text)
    (settings : AuthSettings) (terminal : Bool) (mode : RdpAuthMode) (notice : Option Text)
    → settings.direct_password_autologin ≡ true
    → resolve_direct_rdp_auth_mode_with vault host (some entry) settings terminal
      ≡ ok (mode, notice)
    → (password : Text) × (vault entry (unlock_policy settings) ≡ ok password)
      × (mode ≡ supplied_password password vault_entry)
      × (notice ≡ none)
unfolding resolve_direct_rdp_auth_mode_with direct_rdp_vault_autologin_failure
explicit_never_prompts vault host entry settings terminal mode notice on h =
    elim (Result-cases (vault entry (unlock_policy settings))) [
      | inr (e, m) ↦ absurd (ground (arith, on, h, m))
      | inl (password, m) ↦ elim (Result-cases (validate_rdp_password_for_startup password)) [
        | inr (e, n) ↦ absurd (ground (arith, on, h, m, n))
        | inl (u, n) ↦ (password, m, ground (arith, on, h, m, n), ground (arith, on, h, m, n))
      ]
    ]

-- How many hosts pass a test.
unfoldable pub passing : (InventoryHost → Bool) → List InventoryHost → ℕ
passing p [] = 0
passing p (host ∷ hosts) = (if p host then 1 else 0) + passing p hosts

module _ (p : InventoryHost → Bool) where
  find_by-none : (hosts : List InventoryHost) → find_by p hosts ≡ none → passing p hosts ≡ 0
  unfolding find_by passing
  find_by-none [] h = refl
  find_by-none (host ∷ hosts) h = ground (arith, find_by-none hosts)

  find_by-passes :
      (hosts : List InventoryHost) (found : InventoryHost)
      → find_by p hosts ≡ some found
      → p found ≡ true
  unfolding find_by
  find_by-passes [] found h = cc
  find_by-passes (host ∷ hosts) found h = elim (Bool-cases (p host)) [
    | inl e ↦ let is : host ≡ found = ground (arith, h, e) in subst (λ host. p host ≡ true) is e
    | inr e ↦ find_by-passes hosts found (ground (arith, h, e))
  ]

  find_only-passes :
      (hosts : List InventoryHost) (found : InventoryHost)
      → find_only p hosts ≡ some found
      → (p found ≡ true) × (passing p hosts ≡ 1)
  unfolding find_only passing
  find_only-passes [] found h = cc
  find_only-passes (host ∷ hosts) found h = elim (Bool-cases (p host)) [
    | inr e ↦
        let below = find_only-passes hosts found (ground (arith, h, e)) in
        (below.0, ground (arith, below.1, e))
    | inl e ↦ elim (Option-cases (find_by p hosts)) [
      | inr (second, n) ↦ absurd (ground (arith, h, e, n))
      | inl n ↦
          let is : host ≡ found = ground (arith, h, e, n) in
          (subst (λ host. p host ≡ true) is e, ground (arith, e, find_by-none hosts n))
    ]
  ]

-- A destination names a host by the host's name, or, where no host has that name, by an address
-- that a single host has.
pub resolve_host_by_destination_lem :
    (destination : Text) (hosts : List InventoryHost) (found : InventoryHost)
    → resolve_host_by_destination destination hosts ≡ some found
    → (found.name ≡ destination)
      ⊎ ((found.host ≡ destination)
          × (passing (λ host. text_eq host.name destination) hosts ≡ 0)
          × (passing (λ host. text_eq host.host destination) hosts ≡ 1))
unfolding resolve_host_by_destination
resolve_host_by_destination_lem destination hosts found h =
    elim (Option-cases (find_by (λ host. text_eq host.name destination) hosts)) [
      | inr (first, n) ↦
          let is : first ≡ found = ground (arith, h, n) in
          inl (
            (text_eq_iff found.name destination).0 (
              subst (λ host. text_eq host.name destination ≡ true) is
                (find_by-passes (λ host. text_eq host.name destination) hosts first n)))
      | inl n ↦
          let only =
            find_only-passes (λ host. text_eq host.host destination) hosts found
              (ground (arith, h, n)) in
          inr (
            (text_eq_iff found.host destination).0 only.0,
            find_by-none (λ host. text_eq host.name destination) hosts n,
            only.1,
          )
    ]
