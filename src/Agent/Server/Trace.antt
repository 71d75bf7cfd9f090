-- ===== src/Agent/Server/Trace.antt =====
-- Any run of the agent: what its states satisfy, and what stands behind a secret that it serves.
use mathlib.Core.List.{Memᴰ}
use color_ssh.Base.{ℕ, Text, List, [], ◌∷◌, ◌≡◌, refl, sym, ap, inl, inr, ◌<◌, ◌∙◌}
use color_ssh.Vault.Types.{Crates}
use color_ssh.Vault.Disk.{Disk, VaultPaths}
use color_ssh.Agent.Types.{AgentPeerTrust, AgentRequestPayload, AgentResponse, secret, VaultStatus}
use color_ssh.Agent.Runtime.{AgentRuntime, AskpassLease, new, expire_if_needed}
use color_ssh.Agent.Runtime.Session.{IsValid, new-IsValid, expire-IsValid, expire_if_needed_cases}
use color_ssh.Agent.Runtime.Members.{not-nil}
use color_ssh.Agent.Server.Handler.{Moment, handle_request}
use color_ssh.Agent.Server.Release.{handle_request-IsReleased, handle_request-IsValid}
use color_ssh.Agent.Server.Provenance.{IsIssued, handle_request-leases}

-- A request with its answer.
pub record Exchange : Type 0 where
  pub payload : AgentRequestPayload
  pub trust : AgentPeerTrust
  pub response : AgentResponse

module _ (c : Crates) (paths : VaultPaths) where
  -- The exchanges of an agent so far, the last one first, and the runtime that they left.
  pub data Reach : List Exchange → AgentRuntime → Type 0 where
    begins : Reach [] new
    expires :
        (now : ℕ) {past : List Exchange} {r : AgentRuntime}
        → Reach past r
        → Reach past (expire_if_needed now r).0
    handles :
        (d : Disk) (m : Moment) (payload : AgentRequestPayload) (trust : AgentPeerTrust)
        {past : List Exchange} {r : AgentRuntime}
        → Reach past r
        → Reach
            (record {
              payload = payload;
              trust = trust;
              response = (handle_request c paths d m r payload trust).response;
            }
              ∷ past)
            (handle_request c paths d m r payload trust).runtime

  -- In any run of the agent, the key, its times and its policy are there together, and a locked
  -- runtime holds no lease.
  pub Reach-IsValid : {past : List Exchange} {r : AgentRuntime} → Reach past r → IsValid r
  Reach-IsValid begins = new-IsValid
  Reach-IsValid (expires now t) = expire-IsValid now (Reach-IsValid t)
  Reach-IsValid (handles d m payload trust t) =
      handle_request-IsValid c paths d m payload trust (Reach-IsValid t)

  -- An exchange in which a trusted peer was granted the lease.
  pub record IsGranted (past : List Exchange) (lease : AskpassLease) : Type 0 where
    pub exchange : Exchange
    pub listed : Memᴰ exchange past
    pub granted : IsIssued exchange.payload exchange.trust exchange.response lease

  IsGranted-cons :
      {e : Exchange} {past : List Exchange} {lease : AskpassLease}
      → IsGranted past lease
      → IsGranted (e ∷ past) lease
  IsGranted-cons g = record {
    exchange = g.exchange;
    listed = Memᴰ.tail g.listed;
    granted = g.granted;
  }

  expire-Memᴰ :
      (now : ℕ) (r : AgentRuntime) (lease : AskpassLease)
      → IsValid r
      → Memᴰ lease (expire_if_needed now r).0.askpass_leases
      → Memᴰ lease r.askpass_leases
  expire-Memᴰ now r lease v h = elim (expire_if_needed_cases now r v) [
    | inl (o, e) ↦ absurd (not-nil (rw e at h))
    | inr (o, e) ↦ rw e at h
  ]

  -- Every lease that a running agent holds was granted by an earlier exchange to a trusted peer.
  pub Reach-IsGranted :
      {past : List Exchange} {r : AgentRuntime} (t : Reach past r) (lease : AskpassLease)
      → Memᴰ lease r.askpass_leases
      → IsGranted past lease
  Reach-IsGranted begins lease h = absurd (not-nil h)
  Reach-IsGranted (expires now {r = r} t) lease h =
      Reach-IsGranted t lease (expire-Memᴰ now r lease (Reach-IsValid t) h)
  Reach-IsGranted (handles d m payload trust {r = r} t) lease h =
      elim (handle_request-leases c paths d m lease r payload trust h) [
        | inl n ↦ IsGranted-cons (Reach-IsGranted t lease n)
        | inr g ↦ record {
          exchange = record {
            payload = payload;
            trust = trust;
            response = (handle_request c paths d m r payload trust).response;
          };
          listed = Memᴰ.head refl;
          granted = g;
        }
      ]

  -- In any run of the agent, a secret is answered only for a token that an earlier answer gave to a
  -- trusted peer that asked to be authorised for that entry.
  pub secret-IsGranted :
      {past : List Exchange} {r : AgentRuntime} (d : Disk) (m : Moment)
      (payload : AgentRequestPayload) (trust : AgentPeerTrust) (s : VaultStatus) (name value : Text)
      → Reach past r
      → (handle_request c paths d m r payload trust).response ≡ secret s name value
      → (lease : AskpassLease) × (payload ≡ AgentRequestPayload.get_secret lease.token)
        × (lease.entry_name ≡ name)
        × (m.pruned_at < lease.expires_at)
        × IsGranted past lease
  secret-IsGranted {r = r} d m payload trust s name value t h =
      let rel = handle_request-IsReleased c paths d m r payload trust s name value h in
      let l = rel.leased in
      (
        l.lease,
        rel.asked ∙ ap AgentRequestPayload.get_secret (sym l.matches),
        l.names,
        l.live,
        Reach-IsGranted t l.lease l.held,
      )
