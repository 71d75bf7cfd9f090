-- ===== src/Agent/Examples.antt =====
-- A session of the agent over a vault with one entry, and the agent's theorems at it.
use mathlib.Core.List.{Memᴰ}
use color_ssh.Base.{
  ℕ, ◌+◌, ◌<◌, Text, codes, ok, err, none, true, false, List, [], ◌∷◌, ◌≡◌, ◌⊎◌, refl, arith,
  replicate,
}
use color_ssh.Vault.Examples.{toy, home, filled, running}
use color_ssh.Vault.Reading.{entry_exists_with_paths}
use color_ssh.Agent.Types.{trusted_cossh, untrusted, is_trusted, UnlockPolicy, AgentRequestPayload}
use color_ssh.Agent.Runtime
use color_ssh.Agent.Runtime.{
  AgentRuntime, AskpassLease, new, from_secs, elapsed, is_some, expire_if_needed,
  take_askpass_entry, issue_askpass_token, askpass_token_ttl, unlocked_vault, position,
}
use color_ssh.Agent.Runtime.Session.{IsValid, IsOver, unlock-IsValid, expire_if_needed_cases}
use color_ssh.Agent.Runtime.Leases.{count, take_twice}
use color_ssh.Agent.Server.Handler.{Moment, Reply, handle_request, snapshot}
use color_ssh.Agent.Server.Loop.{Round, Server, turn, request}
use color_ssh.Agent.Server.Release.{IsReleased, handle_request-IsReleased, handle_request-IsValid}
use color_ssh.Agent.Server.Trace.{
  Exchange, Reach, begins, handles, IsGranted, Reach-IsValid, secret-IsGranted,
}
use color_ssh.Agent.Client.{
  Link, answered_by, request_entry_status, request_askpass, request_secret,
}
use color_ssh.Agent.Server.Sessions.{IsServed, turn-IsServed}
use color_ssh.Ssh.Access.{
  VaultClient, Run, IoError, io_error, other_kind, resolve_vault_password_with_policy,
}
use color_ssh.Ssh.Access.Passwords.{IsGiven}
use color_ssh.Ssh.Access.Served.{Session, served_client, IsServedFor, served_client-IsServedFor}

abbrev token : Text
token = codes "tok"

abbrev name : Text
name = codes "fw"

abbrev policy : UnlockPolicy
policy = record { idle_timeout_seconds = 900; session_timeout_seconds = 28800 }

abbrev opened : AgentRuntime
opened = Runtime.unlock 0 0 (replicate 32 5) policy new

abbrev moment : Moment
moment = record {
  pruned_at = 1;
  issued_at = 1;
  touched_at = 2;
  unlocked_at = 0;
  wall = 0;
  status_at = 3;
  drawn = ok token;
}

abbrev ask : AgentRequestPayload
ask = AgentRequestPayload.authorize_askpass name

abbrev fetch : AgentRequestPayload
fetch = AgentRequestPayload.get_secret token

abbrev granted : AgentRuntime
granted = (handle_request toy home filled moment opened ask trusted_cossh).runtime

abbrev lease : AskpassLease
lease = record { token = token; entry_name = name; expires_at = 1 + askpass_token_ttl }

-- All that a run of the agent computes with.
serving : Unit {0}
unfolding running handle_request is_trusted unlocked_vault entry_exists_with_paths Runtime.unlock
    Runtime.touch Runtime.status expire_if_needed issue_askpass_token take_askpass_entry position
    turn
serving = tt

opened-IsValid : IsValid opened
opened-IsValid = unlock-IsValid 0 0 (replicate 32 5) policy new

granted_leases : granted.askpass_leases ≡ lease ∷ []
unfolding serving
granted_leases = refl

listed : Memᴰ lease granted.askpass_leases
unfolding serving
listed = Memᴰ.head refl

expire_if_needed_cases_example :
    (IsOver 5 opened × (expire_if_needed 5 opened ≡ (new, true)))
    ⊎ (¬ IsOver 5 opened × (expire_if_needed 5 opened ≡ (opened, false)))
expire_if_needed_cases_example = expire_if_needed_cases 5 opened opened-IsValid

take_twice_example : (take_askpass_entry 6 token (take_askpass_entry 5 token granted).0).1 ≡ none
unfolding serving count
take_twice_example = take_twice 5 6 token name granted (omega arith) refl

abbrev served : Reply
served = handle_request toy home filled moment granted fetch trusted_cossh

handle_request-IsReleased_example :
    IsReleased toy home filled moment granted fetch trusted_cossh name (codes "s3cret")
unfolding serving
handle_request-IsReleased_example =
    handle_request-IsReleased toy home filled moment granted fetch trusted_cossh
      (snapshot toy home filled moment served.runtime) name (codes "s3cret") refl

abbrev unlock_request : AgentRequestPayload
unlock_request = AgentRequestPayload.unlock (codes "pw") policy

abbrev after_grant : List Exchange
after_grant =
    record {
      payload = ask;
      trust = trusted_cossh;
      response = (handle_request toy home filled moment opened ask trusted_cossh).response;
    }
    ∷ record {
      payload = unlock_request;
      trust = untrusted;
      response = (handle_request toy home filled moment new unlock_request untrusted).response;
    }
    ∷ []

opened-eq : (handle_request toy home filled moment new unlock_request untrusted).runtime ≡ opened
unfolding serving
opened-eq = refl

granted-Reach : Reach toy home after_grant granted
unfolding serving
granted-Reach =
    handles filled moment ask trusted_cossh (handles filled moment unlock_request untrusted begins)

Reach-IsValid_example : IsValid granted
Reach-IsValid_example = Reach-IsValid toy home granted-Reach

secret-IsGranted_example :
    (l : AskpassLease) × (fetch ≡ AgentRequestPayload.get_secret l.token)
    × (l.entry_name ≡ name)
    × (moment.pruned_at < l.expires_at)
    × IsGranted toy home after_grant l
unfolding serving
secret-IsGranted_example =
    secret-IsGranted toy home filled moment fetch trusted_cossh
      (snapshot toy home filled moment served.runtime) name (codes "s3cret") granted-Reach refl

abbrev round : Round
round = record {
  arrival = request fetch trusted_cossh;
  disk = filled;
  started_at = 1;
  read_at = 2;
  moment = moment;
}

abbrev server : Server
server = record { runtime = granted; idle_poll_interval = 5 }

granted-IsValid : IsValid granted
granted-IsValid = handle_request-IsValid toy home filled moment ask trusted_cossh opened-IsValid

turn-IsServed_example :
    IsServed toy home round granted
      (snapshot toy home filled moment served.runtime)
      name
      (codes "s3cret")
unfolding serving
turn-IsServed_example =
    turn-IsServed toy home round server (snapshot toy home filled moment served.runtime) name
      (codes "s3cret") granted-IsValid refl

abbrev refused : Link
refused = answered_by toy home filled moment granted untrusted (λ r. [])

abbrev always : ℕ → Moment
always n = moment

abbrev no_prompt : Run Session IoError Text
no_prompt s = (err (io_error other_kind []), s)

abbrev asking : VaultClient Session
asking = served_client toy home filled always trusted_cossh (λ r. []) no_prompt false

abbrev behind_launch : Session
behind_launch = (resolve_vault_password_with_policy asking name policy (opened, 0)).1

served_client-IsServedFor_example :
    (g : IsGiven asking name policy (opened, 0) behind_launch (codes "s3cret")) × IsServedFor toy
      home filled always trusted_cossh
      (λ r. [])
      name
      (codes "s3cret")
      g.token
      g.asked
      g.granted
      behind_launch
unfolding serving resolve_vault_password_with_policy request_entry_status request_askpass
    request_secret
served_client-IsServedFor_example =
    served_client-IsServedFor toy home filled always trusted_cossh (λ r. []) no_prompt false name
      policy (opened, 0) behind_launch (codes "s3cret") refl
