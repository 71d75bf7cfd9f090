-- ===== src/Agent/Server/Provenance.antt =====
-- Where a lease comes from.
use mathlib.Core.List.{Memᴰ}
use color_ssh.Base.{
  ℕ, Text, Result, ok, err, Option, none, some, Bool, true, false, ◌≡◌, refl, sym, ap, ◌⊎◌, inl,
  inr, arith, Option-cases, ltb,
}
use color_ssh.Vault.Types.{Crates, VaultError}
use color_ssh.Vault.Disk.{Disk, VaultPaths}
use color_ssh.Vault.Reading
use color_ssh.Vault.Reading.{UnlockedVault}
use color_ssh.Agent.Types.{
  AgentPeerTrust, trusted_cossh, untrusted, is_trusted, AgentRequestPayload, AgentResponse,
  askpass_authorized, VaultStatus, UnlockPolicy,
}
use color_ssh.Agent.Runtime
use color_ssh.Agent.Runtime.{
  AgentRuntime, AskpassLease, new, set, pop, swap_remove, take_askpass_entry, issue_askpass_token,
  unlocked_vault, expire_if_needed, prune_expired_askpass_leases, position,
}
use color_ssh.Agent.Runtime.Members.{Memᴰ-retain, Memᴰ-swap_remove, Memᴰ-snoc}
use color_ssh.Agent.Server.Handler.{
  Moment, snapshot, handle_request, handle_unlock, handle_authorize, handle_get_secret,
  handle_entry_status, issue_for, authorize_found, serve_entry, serve_lease,
}

-- Where a lease behind a request comes from: it was there, or the request was a trusted peer's for
-- its entry, and was answered with its token.
abbrev pub IsIssued : AgentRequestPayload → AgentPeerTrust → AgentResponse → AskpassLease → Type 0
IsIssued payload trust response lease =
    (payload ≡ AgentRequestPayload.authorize_askpass lease.entry_name)
    × (trust ≡ trusted_cossh)
    × ((s : VaultStatus) × (response ≡ askpass_authorized s lease.token))

take-leases :
    (now : ℕ) (token : Text) (r : AgentRuntime)
    → let live = (prune_expired_askpass_leases now r).askpass_leases in
      let left = (take_askpass_entry now token r).0.askpass_leases in
      (left ≡ live) ⊎ ((i : ℕ) × (left ≡ swap_remove i live))
unfolding take_askpass_entry
take-leases now token r =
    elim (Option-cases (position token (prune_expired_askpass_leases now r).askpass_leases)) [
      | inl e ↦ inl (ground arith)
      | inr ((i, lease), e) ↦ inr (i, ground arith)
    ]

prune-Memᴰ :
    (now : ℕ) (r : AgentRuntime) {lease : AskpassLease}
    → Memᴰ lease (prune_expired_askpass_leases now r).askpass_leases
    → Memᴰ lease r.askpass_leases
unfolding prune_expired_askpass_leases
prune-Memᴰ now r m = Memᴰ-retain (λ l. ltb now l.expires_at) r.askpass_leases m

take-Memᴰ :
    (now : ℕ) (token : Text) (r : AgentRuntime) (lease : AskpassLease)
    → Memᴰ lease (take_askpass_entry now token r).0.askpass_leases
    → Memᴰ lease r.askpass_leases
take-Memᴰ now token r lease m = elim (take-leases now token r) [
  | inl e ↦ prune-Memᴰ now r (rw e at m)
  | inr (i, e) ↦ prune-Memᴰ now r (Memᴰ-swap_remove i _ (rw e at m))
]

module _ (c : Crates) (paths : VaultPaths) (d : Disk) (m : Moment) (lease : AskpassLease) where
  unlock-leases :
      (policy : UnlockPolicy) (r : AgentRuntime) (res : Result VaultError UnlockedVault)
      → Memᴰ lease (handle_unlock c paths d m policy r res).runtime.askpass_leases
      → Memᴰ lease r.askpass_leases
  unfolding handle_unlock Runtime.unlock
  unlock-leases policy r (err e) h = h
  unlock-leases policy r (ok vault) h = elim h [ ]

  entry_status-leases :
      (name : Text) (r : AgentRuntime) (res : Result VaultError Bool)
      → Memᴰ lease (handle_entry_status c paths d m name r res).runtime.askpass_leases
      → Memᴰ lease r.askpass_leases
  unfolding handle_entry_status
  entry_status-leases name r (err e) h = h
  entry_status-leases name r (ok exists) h = h

  serve_entry-leases :
      (name : Text) (r : AgentRuntime) (res : Result VaultError Text)
      → Memᴰ lease (serve_entry c paths d m name r res).runtime.askpass_leases
      → Memᴰ lease r.askpass_leases
  unfolding serve_entry Runtime.touch
  serve_entry-leases name r (err e) h = h
  serve_entry-leases name r (ok value) h = h

  serve_lease-leases :
      (vault : UnlockedVault) (r : AgentRuntime) (found : Option Text)
      → Memᴰ lease (serve_lease c paths d m vault (r, found)).runtime.askpass_leases
      → Memᴰ lease r.askpass_leases
  unfolding serve_lease
  serve_lease-leases vault r none h = h
  serve_lease-leases vault r (some name) h =
      serve_entry-leases name r (Reading.get_secret c vault name d) h

  get_secret-leases :
      (token : Text) (trusted : Bool) (r : AgentRuntime) (vault : Option UnlockedVault)
      → Memᴰ lease (handle_get_secret c paths d m token trusted r vault).runtime.askpass_leases
      → Memᴰ lease r.askpass_leases
  unfolding handle_get_secret
  get_secret-leases token false r vault h = h
  get_secret-leases token true r none h = h
  get_secret-leases token true r (some vault) h =
      take-Memᴰ m.pruned_at token r lease
        (serve_lease-leases vault _ (take_askpass_entry m.pruned_at token r).1 h)

  issued :
      (name : Text) (r : AgentRuntime) (drawn : Result Text Text)
      → let reply =
          issue_for c paths d m name (issue_askpass_token m.pruned_at m.issued_at drawn name r) in
        Memᴰ lease reply.runtime.askpass_leases
        → (Memᴰ lease r.askpass_leases)
          ⊎ ((lease.entry_name ≡ name)
              × ((s : VaultStatus) × (reply.response ≡ askpass_authorized s lease.token)))
  unfolding issue_for issue_askpass_token Runtime.touch
  issued name r (err text) h = inl (prune-Memᴰ m.pruned_at r h)
  issued name r (ok token) h =
      elim (Memᴰ-snoc (prune_expired_askpass_leases m.pruned_at r).askpass_leases h) [
        | inl n ↦ inl (prune-Memᴰ m.pruned_at r n)
        | inr e ↦
            let s = snapshot c paths d m (
              Runtime.touch m.touched_at
                (issue_askpass_token m.pruned_at m.issued_at (ok token) name r).0) in
            inr (
              ap (λ (l : AskpassLease). l.entry_name) e,
              (s, ap (λ (l : AskpassLease). askpass_authorized s l.token) (sym e)),
            )
      ]

  authorize_found-leases :
      (name : Text) (r : AgentRuntime) (res : Result VaultError Bool)
      → let reply = authorize_found c paths d m name r res in
        Memᴰ lease reply.runtime.askpass_leases
        → (Memᴰ lease r.askpass_leases)
          ⊎ ((lease.entry_name ≡ name)
              × ((s : VaultStatus) × (reply.response ≡ askpass_authorized s lease.token)))
  unfolding authorize_found
  authorize_found-leases name r (err e) h = inl h
  authorize_found-leases name r (ok false) h = inl h
  authorize_found-leases name r (ok true) h = issued name r m.drawn h

  authorize-leases :
      (name : Text) (trust : AgentPeerTrust) (r : AgentRuntime) (vault : Option UnlockedVault)
      → let reply = handle_authorize c paths d m name (is_trusted trust) r vault in
        Memᴰ lease reply.runtime.askpass_leases
        → (Memᴰ lease r.askpass_leases)
          ⊎ IsIssued (AgentRequestPayload.authorize_askpass name) trust reply.response lease
  unfolding handle_authorize is_trusted
  authorize-leases name untrusted r vault h = inl h
  authorize-leases name trusted_cossh r none h = inl h
  authorize-leases name trusted_cossh r (some vault) h =
      elim (authorize_found-leases name r (Reading.entry_exists_with_paths paths name d) h) [
        | inl n ↦ inl n
        | inr (e, out) ↦ inr (ap AgentRequestPayload.authorize_askpass (sym e), refl, out)
      ]

  -- A lease behind a request was there before, or the request was a trusted peer's for its entry
  -- and was answered with its token.
  pub handle_request-leases :
      (r : AgentRuntime) (payload : AgentRequestPayload) (trust : AgentPeerTrust)
      → let reply = handle_request c paths d m r payload trust in
        Memᴰ lease reply.runtime.askpass_leases
        → (Memᴰ lease r.askpass_leases) ⊎ IsIssued payload trust reply.response lease
  unfolding handle_request Runtime.lock
  handle_request-leases r AgentRequestPayload.status trust h = inl h
  handle_request-leases r AgentRequestPayload.lock trust h = elim h [ ]
  handle_request-leases r (AgentRequestPayload.unlock password policy) trust h =
      inl (unlock-leases policy r (Reading.unlock_with_password_and_paths c paths password d) h)
  handle_request-leases r (AgentRequestPayload.entry_status name) trust h =
      inl (entry_status-leases name r (Reading.entry_exists_with_paths paths name d) h)
  handle_request-leases r (AgentRequestPayload.authorize_askpass name) trust h =
      authorize-leases name trust r (unlocked_vault paths r) h
  handle_request-leases r (AgentRequestPayload.get_secret token) trust h =
      inl (get_secret-leases token (is_trusted trust) r (unlocked_vault paths r) h)
