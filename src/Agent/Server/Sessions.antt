-- ===== src/Agent/Server/Sessions.antt =====
-- The loop of the agent (src/auth/agent/server.rs) serves secrets within a session only.
use color_ssh.Base.{ℕ, Text, some, ◌≡◌, refl, inl, inr, arith}
use color_ssh.Vault.Types.{Crates}
use color_ssh.Vault.Disk.{VaultPaths}
use color_ssh.Agent.Types.{AgentPeerTrust, AgentRequestPayload, secret, VaultStatus}
use color_ssh.Agent.Runtime.{AgentRuntime}
use color_ssh.Agent.Runtime.Session.{IsValid, IsOver, expire_if_needed_cases}
use color_ssh.Agent.Server.Handler.{handle_request}
use color_ssh.Agent.Server.Loop.{
  Arrival, Server, Round, turn, meet, request, would_block, interrupted, accept_error, unreadable,
}

module _ (c : Crates) (paths : VaultPaths) (round : Round) where
  -- The request behind a secret that a round answers, and the session that it was served in.
  pub record IsServed (r : AgentRuntime) (s : VaultStatus) (name value : Text) : Type 0 where
    pub payload : AgentRequestPayload
    pub trust : AgentPeerTrust
    pub arrived : round.arrival ≡ request payload trust
    pub open_at_start : ¬ IsOver round.started_at r
    pub open_at_read : ¬ IsOver round.read_at r
    pub answered :
        (handle_request c paths round.disk round.moment r payload trust).response
        ≡ secret s name value

  meet-IsServed :
      (interval : ℕ) (r : AgentRuntime) (a : Arrival) (s : VaultStatus) (name value : Text)
      → IsValid r
      → ¬ IsOver round.started_at r
      → round.arrival ≡ a
      → (meet c paths round interval r a).response ≡ some (secret s name value)
      → IsServed r s name value
  unfolding meet
  meet-IsServed interval r would_block s name value v o e h = cc
  meet-IsServed interval r interrupted s name value v o e h = cc
  meet-IsServed interval r (accept_error text) s name value v o e h = cc
  meet-IsServed interval r (unreadable text) s name value v o e h = ground arith
  meet-IsServed interval r (request payload trust) s name value v o e h =
      elim (expire_if_needed_cases round.read_at r v) [
        | inl (over, x) ↦ absurd (ground arith)
        | inr (open_still, x) ↦ record {
          payload = payload;
          trust = trust;
          arrived = e;
          open_at_start = o;
          open_at_read = open_still;
          answered = ground arith;
        }
      ]

  -- A round answers with a secret only to a request, and only in a session that is over neither
  -- when the round starts nor when the request has been read; the answer is the one of the handler
  -- on the unchanged runtime.
  pub turn-IsServed :
      (server : Server) (s : VaultStatus) (name value : Text)
      → IsValid server.runtime
      → (turn c paths server round).response ≡ some (secret s name value)
      → IsServed server.runtime s name value
  unfolding turn
  turn-IsServed server s name value v h =
      elim (expire_if_needed_cases round.started_at server.runtime v) [
        | inl (over, x) ↦ absurd (ground arith)
        | inr (o, x) ↦
            meet-IsServed server.idle_poll_interval server.runtime round.arrival s name value v o
              refl (ground arith)
      ]
