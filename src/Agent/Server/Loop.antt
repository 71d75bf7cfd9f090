-- ===== src/Agent/Server/Loop.antt =====
-- `run_server`: one round of the loop, and a run over what the listener meets.
use color_ssh.Base.{
  ℕ, Text, codes, Option, none, some, Bool, true, false, List, [], ◌∷◌, ◌++◌, if◌then◌else◌,
}
use color_ssh.Vault.Types.{Crates}
use color_ssh.Vault.Disk.{Disk, VaultPaths, metadata_path}
use color_ssh.Vault.Reading.{is_file}
use color_ssh.Agent.Types.{
  AgentPeerTrust, AgentRequestPayload, AgentResponse, error, VaultStatus, to_locked,
}
use color_ssh.Agent.Runtime
use color_ssh.Agent.Runtime.{
  AgentRuntime, expire_if_needed, next_idle_shutdown_poll_interval,
  agent_idle_shutdown_poll_interval_min,
}
use color_ssh.Agent.Server.Handler.{Moment, Broadcast, handle_request, locked_code}

-- What one round meets at the listener: nothing yet, an interruption, an error of `accept`, a
-- connection whose request cannot be read, or one with a request.
pub data Arrival : Type 0 where
  would_block interrupted : Arrival
  accept_error unreadable : Text → Arrival
  request : AgentRequestPayload → AgentPeerTrust → Arrival

-- A round: the files as they are then, the readings at its start and behind the reading of the
-- request, and those of the handler.
pub record Round : Type 0 where
  pub arrival : Arrival
  pub disk : Disk
  pub started_at : ℕ
  pub read_at : ℕ
  pub moment : Moment

pub record Server : Type 0 where
  pub runtime : AgentRuntime
  pub idle_poll_interval : ℕ

-- How `run_server` returns.
pub data Exit : Type 0 where
  finished : Exit
  io_error : Text → Exit

pub record Turn : Type 0 where
  pub server : Server
  pub response : Option AgentResponse
  pub broadcasts : List Broadcast
  pub exit : Option Exit

abbrev pub start : Server
start = record { runtime = Runtime.new; idle_poll_interval = agent_idle_shutdown_poll_interval_min }

abbrev pub is_lock : AgentRequestPayload → Bool
is_lock AgentRequestPayload.lock = true
is_lock AgentRequestPayload.status = false
is_lock (AgentRequestPayload.unlock p q) = false
is_lock (AgentRequestPayload.authorize_askpass n) = false
is_lock (AgentRequestPayload.entry_status n) = false
is_lock (AgentRequestPayload.get_secret t) = false

module _ (c : Crates) (paths : VaultPaths) where
  abbrev pub round_status : Round → AgentRuntime → VaultStatus
  round_status round r =
      Runtime.status (is_file (metadata_path paths) round.disk) round.moment.status_at r

  -- The request is handled only if the session has not expired while it was read.
  unfoldable pub answer_request :
      Round → ℕ → AgentRequestPayload → AgentPeerTrust → AgentRuntime × Bool → Turn
  answer_request round interval payload trust (r, true) = record {
    server = record { runtime = r; idle_poll_interval = interval };
    response =
        some (error (round_status round r) locked_code (codes "password vault session expired"));
    broadcasts = (to_locked, round_status round r) ∷ [];
    exit = some finished;
  }
  answer_request round interval payload trust (r, false) =
      let reply = handle_request c paths round.disk round.moment r payload trust in
      record {
        server = record { runtime = reply.runtime; idle_poll_interval = interval };
        response = some reply.response;
        broadcasts = reply.broadcasts;
        exit = if is_lock payload then some finished else none;
      }

  abbrev pub quiet : AgentRuntime → ℕ → Option Exit → Turn
  quiet r interval exit = record {
    server = record { runtime = r; idle_poll_interval = interval };
    response = none;
    broadcasts = [];
    exit = exit;
  }

  unfoldable pub meet : Round → ℕ → AgentRuntime → Arrival → Turn
  unfolding answer_request
  meet round interval r would_block = quiet r (next_idle_shutdown_poll_interval interval) none
  meet round interval r interrupted = quiet r interval none
  meet round interval r (accept_error text) = quiet r interval (some (io_error text))
  meet round interval r (unreadable text) = record {
    server = record { runtime = r; idle_poll_interval = agent_idle_shutdown_poll_interval_min };
    response = some (
        error (round_status round r) (codes "invalid_request")
          (codes "failed to read request: " ++ text));
    broadcasts = [];
    exit = none;
  }
  meet round interval r (request payload trust) =
      answer_request round agent_idle_shutdown_poll_interval_min payload trust
        (expire_if_needed round.read_at r)

  unfoldable pub begin : Round → ℕ → AgentRuntime × Bool → Turn
  unfolding meet
  begin round interval (r, true) = record {
    server = record { runtime = r; idle_poll_interval = interval };
    response = none;
    broadcasts = (to_locked, round_status round r) ∷ [];
    exit = some finished;
  }
  begin round interval (r, false) = meet round interval r round.arrival

  -- One round of the loop.
  unfoldable pub turn : Server → Round → Turn
  unfolding begin
  turn s round = begin round s.idle_poll_interval (expire_if_needed round.started_at s.runtime)

  -- The turns of a run, up to the one that returns.
  unfoldable pub run_server : Server → List Round → List Turn
  run_server s [] = []
  run_server s (round ∷ rounds) =
      let t = turn s round in
      let rest = run_server t.server rounds in elim t.exit [ some _ ↦ t ∷ [] | none ↦ t ∷ rest ]
