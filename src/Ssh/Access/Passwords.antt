-- ===== src/Ssh/Access/Passwords.antt =====
-- What stands behind a password that a launch is given (src/process/vault.rs).
use color_ssh.Base.{
  sym, Text, Result, ok, err, true, ◌≡◌, refl, ap, Bool-cases, inl, inr, ok_injective,
}
use color_ssh.Args.Validation.{validate_vault_entry_name}
use color_ssh.Agent.Types.{UnlockPolicy}
use color_ssh.Agent.Client.{AgentError, AgentEntryStatus, error_text}
use color_ssh.Ssh.Access.{
  VaultClient, IoError, unlock_failed, Run, after, with_error, query_error, use_status,
  checked_unlocked, unlock_then_query, unlock_agent_interactively,
  query_vault_entry_status_with_policy, resolve_vault_password_with_status,
  resolve_vault_password_with_policy, launch_error, on_connect, io_error, permission_denied,
}
use color_ssh.Ssh.Access.Attempts.{err-not_ok}

module _ {S : Type 0} where
  pub after-ok :
      {E A B : Type 0} (first : Result E A × S) (next : A → Run S E B) {value : B} {end : S}
      → after first next ≡ (ok value, end)
      → (given : A) × (middle : S) × (first ≡ (ok given, middle))
        × (next given middle ≡ (ok value, end))
  after-ok (ok given, middle) next h = (given, middle, refl, h)
  after-ok (err e, middle) next h = absurd (err-not_ok h)

  pub with_error-ok :
      {E F A : Type 0} (f : E → F) (done : Result E A × S) {value : A} {end : S}
      → with_error f done ≡ (ok value, end)
      → done ≡ (ok value, end)
  with_error-ok f (ok a, s) h =
      let same : ◌≡◌ a _ = ok_injective (ap (λ r. r.0) h) in
      let last : ◌≡◌ s _ = ap (λ r. r.1) h in cc (same, last)
  with_error-ok f (err e, s) h = absurd (err-not_ok h)

  pub on_connect-ok :
      {A : Type 0} (r : Result AgentError (Unit {0})) (next : Run S IoError A) (s : S) {value : A}
      {end : S}
      → on_connect r next s ≡ (ok value, end)
      → next s ≡ (ok value, end)
  on_connect-ok (ok _) next s h = h
  on_connect-ok (err e) next s h = absurd (err-not_ok h)

module _ {S : Type 0} (client : VaultClient S) (name : Text) (policy : UnlockPolicy) where
  checked-unlocked :
      (again entry : AgentEntryStatus) (s end : S)
      → checked_unlocked client again s ≡ (ok entry, end)
      → entry.status.unlocked ≡ true
  checked-unlocked again entry s end h = elim (Bool-cases again.status.unlocked) [
    | inr e ↦ absurd (err-not_ok (rw e at h))
    | inl e ↦
        let given = rw e at h in
        sym (
          ap (λ (entry : AgentEntryStatus). entry.status.unlocked)
            (ok_injective (ap (λ r. r.0) given)))
  ]

  unlock_then-unlocked :
      (entry : AgentEntryStatus) (s end : S)
      → unlock_then_query client name policy s ≡ (ok entry, end)
      → entry.status.unlocked ≡ true
  unlock_then-unlocked entry s end h =
      let (status, unlocked, tried, later) =
        after-ok
          (with_error (λ (e : IoError). unlock_failed e.text)
            (unlock_agent_interactively client policy s))
          _ h in
      let (again, asked, answered, checked) =
        after-ok
          (with_error (λ e. unlock_failed (error_text e)) (client.entry_status name unlocked))
          (checked_unlocked client) later in
      checked-unlocked again entry asked end checked

  use_status-unlocked :
      (first entry : AgentEntryStatus) (s end : S)
      → use_status client name policy first s ≡ (ok entry, end)
      → entry.status.unlocked ≡ true
  unfolding unlock_agent_interactively
  use_status-unlocked first entry s end h = elim (Bool-cases first.exists) [
    | inr e ↦ absurd (err-not_ok (rw e at h))
    | inl e ↦ elim (Bool-cases first.status.unlocked) [
      | inl u ↦
          let given = rw (e, u) at h in
          sym (
            ap (λ (entry : AgentEntryStatus). entry.status.unlocked)
              (ok_injective (ap (λ r. r.0) given)))
      | inr u ↦ elim (Bool-cases client.is_terminal) [
        | inr t ↦ absurd (err-not_ok (rw (e, u, t) at h))
        | inl t ↦ unlock_then-unlocked entry s end (rw (e, u, t) at h)
      ]
    ]
  ]

  pub query-unlocked :
      (entry : AgentEntryStatus) (s end : S)
      → query_vault_entry_status_with_policy client name policy s ≡ (ok entry, end)
      → entry.status.unlocked ≡ true
  unfolding query_vault_entry_status_with_policy
  query-unlocked entry s end h =
      let (first, middle, asked, used) =
        after-ok (with_error query_error (client.entry_status name s))
          (use_status client name policy) h in
      use_status-unlocked first entry middle end used

  -- A password as the agent gave it out: for a token that it granted for this entry, while the vault
  -- was unlocked and had the entry.
  pub record IsGiven (s end : S) (password : Text) : Type 0 where
    pub entry : AgentEntryStatus
    pub asked : S
    pub token : Text
    pub granted : S
    pub valid : validate_vault_entry_name name ≡ true
    pub queried : query_vault_entry_status_with_policy client name policy s ≡ (ok entry, asked)
    pub exists : entry.exists ≡ true
    pub unlocked : entry.status.unlocked ≡ true
    pub authorized : client.authorize_askpass name asked ≡ (ok token, granted)
    pub fetched : client.get_secret token granted ≡ (ok password, end)

-- A password that a launch is given is that of an entry with a valid name, which the agent reports to
-- exist in an unlocked vault, fetched with the token that the agent then granted for that entry.
pub resolve_vault_password_with_policy-IsGiven :
    {S : Type 0} (client : VaultClient S) (name : Text) (policy : UnlockPolicy) (s end : S)
    (password : Text)
    → resolve_vault_password_with_policy client name policy s ≡ (ok password, end)
    → IsGiven client name policy s end password
unfolding resolve_vault_password_with_policy resolve_vault_password_with_status
resolve_vault_password_with_policy-IsGiven client name policy s end password h =
    elim (Bool-cases (validate_vault_entry_name name)) [
      | inr v ↦ absurd (err-not_ok (rw v at h))
      | inl v ↦
          let connected_is = on_connect-ok client.connect _ s (rw v at h) in
          let (entry, asked, answered, used) =
            after-ok
              (with_error launch_error (query_vault_entry_status_with_policy client name policy s))
              (resolve_vault_password_with_status client name) connected_is in
          let queried =
            with_error-ok launch_error (query_vault_entry_status_with_policy client name policy s)
              answered in
          elim (Bool-cases entry.exists) [
            | inr e ↦ absurd (err-not_ok (rw (e, resolve_vault_password_with_status) at used))
            | inl e ↦
                let (token, granted, authorized, fetched) =
                  after-ok
                    (with_error (λ e. io_error permission_denied (error_text e))
                      (client.authorize_askpass name asked))
                    _ (rw (e, resolve_vault_password_with_status) at used) in
                record {
                  entry = entry;
                  asked = asked;
                  token = token;
                  granted = granted;
                  valid = v;
                  queried = queried;
                  exists = e;
                  unlocked = query-unlocked client name policy entry s asked queried;
                  authorized = with_error-ok _ (client.authorize_askpass name asked) authorized;
                  fetched = with_error-ok _ (client.get_secret token granted) fetched;
                }
          ]
    ]
