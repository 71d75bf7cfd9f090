-- ===== src/Ssh/Access/Served.antt =====
-- The client of src/process/vault.rs with the agent of src/auth/agent behind it: each request is one
-- turn of `handle_request`, at the next of the moments.
use mathlib.Core.List.{Memᴰ}
use color_ssh.Base.{
  subst, ℕ, suc, sym, Text, Result, ok, Bool, ◌≡◌, ap, ◌⊎◌, inl, inr, ok_injective,
}
use color_ssh.Vault.Types.{Crates}
use color_ssh.Vault.Disk.{Disk, VaultPaths}
use color_ssh.Agent.Types.{
  AgentPeerTrust, UnlockPolicy, VaultStatus, AgentRequestPayload, AgentResponse, secret,
}
use color_ssh.Agent.Runtime.{AgentRuntime, AskpassLease}
use color_ssh.Agent.Client.{
  AgentError, Link, answered_by, request_entry_status, request_unlock, request_askpass,
  request_secret, secret_answer,
}
use color_ssh.Agent.Server.Handler.{Moment, handle_request}
use color_ssh.Agent.Server.Release.{IsReleased, handle_request-IsReleased}
use color_ssh.Agent.Server.Provenance.{handle_request-leases}
use color_ssh.Ssh.Access.{VaultClient, IoError, Run, resolve_vault_password_with_policy}
use color_ssh.Ssh.Access.Passwords.{IsGiven, resolve_vault_password_with_policy-IsGiven}

-- The agent's state, and the number of requests so far.
abbrev pub Session : Type 0
Session = AgentRuntime × ℕ

secret_answer-ok :
    (link : Link) (response : AgentResponse) {value : Text}
    → secret_answer link (ok response) ≡ ok value
    → (s : VaultStatus) × (name : Text) × (response ≡ secret s name value)
secret_answer-ok link (secret s name v) h = (s, name, ap (λ v. secret s name v) (ok_injective h))
secret_answer-ok link (AgentResponse.status s) h = cc
secret_answer-ok link (AgentResponse.success s text) h = cc
secret_answer-ok link (AgentResponse.error s code text) h = cc
secret_answer-ok link (AgentResponse.entry_status s name exists) h = cc
secret_answer-ok link (AgentResponse.askpass_authorized s token) h = cc

module _ (c : Crates) (paths : VaultPaths) (d : Disk) (moments : ℕ → Moment)
    (trust : AgentPeerTrust) (debug : AgentResponse → Text) where
  abbrev pub link_at : Session → Link
  link_at (r, n) = answered_by c paths d (moments n) r trust debug

  -- The agent behind a request.
  abbrev pub behind : AgentRequestPayload → Session → Session
  behind payload (r, n) = ((handle_request c paths d (moments n) r payload trust).runtime, suc n)

  abbrev pub asks :
      {A : Type 0} → AgentRequestPayload → (Link → Result AgentError A) → Run Session AgentError A
  asks payload read s = (read (link_at s), behind payload s)

  -- The requests of the client that the agent serves.
  abbrev pub served_client : Run Session IoError Text → Bool → VaultClient Session
  served_client prompt terminal = record {
    connect = ok tt;
    entry_status =
        λ name. asks (AgentRequestPayload.entry_status name) (λ l. request_entry_status l name);
    unlock = λ word policy.
        asks (AgentRequestPayload.unlock word policy) (λ l. request_unlock l word policy);
    authorize_askpass =
        λ name. asks (AgentRequestPayload.authorize_askpass name) (λ l. request_askpass l name);
    get_secret = λ token. asks (AgentRequestPayload.get_secret token) (λ l. request_secret l token);
    prompt_hidden_secret = prompt;
    is_terminal = terminal;
  }

  -- The secret that the agent released at the state `granted` of a launch, for a token that it gave at
  -- the state `asked`: for the entry `name`, unless the token was that of a lease it had before.
  pub record IsServedFor (name password token : Text) (asked granted end : Session) : Type 0 where
    pub entry : Text
    pub grants : behind (AgentRequestPayload.authorize_askpass name) asked ≡ granted
    pub serves : behind (AgentRequestPayload.get_secret token) granted ≡ end
    pub released :
        IsReleased c paths d
          (moments granted.1)
          granted.0
          (AgentRequestPayload.get_secret token)
          trust
          entry
          password
    pub requested :
        (entry ≡ name)
        ⊎ ((lease : AskpassLease) × Memᴰ lease asked.0.askpass_leases × (lease.token ≡ token))

  secret-IsReleased :
      (granted end : Session) (token password : Text)
      → asks (AgentRequestPayload.get_secret token) (λ l. request_secret l token) granted
        ≡ (ok password, end)
      → (entry : Text) × IsReleased c paths d
          (moments granted.1)
          granted.0
          (AgentRequestPayload.get_secret token)
          trust
          entry
          password
  unfolding request_secret
  secret-IsReleased (r, n) end token password h =
      let answered = ap (λ (x : Result AgentError Text × Session). x.0) h in
      let (s, entry, responded) = secret_answer-ok (link_at (r, n)) _ answered in
      (entry, handle_request-IsReleased c paths d (moments n) r _ trust s entry password responded)

  lease-origin :
      (asked : Session) (name : Text) (lease : AskpassLease)
      → Memᴰ lease (behind (AgentRequestPayload.authorize_askpass name) asked).0.askpass_leases
      → (lease.entry_name ≡ name) ⊎ Memᴰ lease asked.0.askpass_leases
  lease-origin (r, n) name lease held =
      elim (handle_request-leases c paths d (moments n) lease r
        (AgentRequestPayload.authorize_askpass name) trust held) [
          | inl before ↦ inr before
          | inr (asks_for, _, _) ↦ inl (cc asks_for)
        ]

  asks-IsServedFor :
      (name : Text) (asked granted end : Session) (token password : Text)
      → behind (AgentRequestPayload.authorize_askpass name) asked ≡ granted
      → asks (AgentRequestPayload.get_secret token) (λ l. request_secret l token) granted
        ≡ (ok password, end)
      → IsServedFor name password token asked granted end
  asks-IsServedFor name asked granted end token password e fetched =
      let (entry, released) = secret-IsReleased granted end token password fetched in
      let leased = released.leased in
      let held =
        subst (λ (t : Session). Memᴰ leased.lease t.0.askpass_leases) (sym e) leased.held in
      let same_token : leased.lease.token ≡ token = cc (leased.matches, released.asked) in
      record {
        entry = entry;
        grants = e;
        serves = ap (λ (x : Result AgentError Text × Session). x.1) fetched;
        released = released;
        requested = elim (lease-origin asked name leased.lease held) [
          | inl same ↦ inl (cc (same, leased.names))
          | inr before ↦ inr (leased.lease, before, same_token)
        ];
      }

  -- Where a launch from the state `s`, whose client is served by the agent, is given a password and ends
  -- in `end`: the launch went through the states of `IsGiven`, from `s` by its queries to the one in
  -- which it asks for the token, and from there by that request and the one for the secret to `end`. The
  -- peer is trusted, and the password is what the key that the agent holds at the last request
  -- decrypts for the entry of a lease that is live then. That is the entry asked for, unless the token
  -- given for it was already that of a lease when it was asked for.
  pub served_client-IsServedFor :
      (prompt : Run Session IoError Text) (terminal : Bool) (name : Text) (policy : UnlockPolicy)
      (s end : Session) (password : Text)
      → resolve_vault_password_with_policy (served_client prompt terminal) name policy s
        ≡ (ok password, end)
      → (g : IsGiven (served_client prompt terminal) name policy s end password) × IsServedFor name
          password g.token g.asked g.granted end
  served_client-IsServedFor prompt terminal name policy s end password h =
      let g =
        resolve_vault_password_with_policy-IsGiven (served_client prompt terminal) name policy s end
          password h in
      (
        g,
        asks-IsServedFor name g.asked g.granted end g.token password
            (ap (λ (x : Result AgentError Text × Session). x.1) g.authorized) g.fetched,
      )
