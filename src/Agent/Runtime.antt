-- ===== src/Agent/Runtime.antt =====
-- src/auth/agent/runtime.rs: the unlock session and the askpass leases. Instants and the wall clock
-- are nanoseconds; a method takes the reading of the clock that it makes.
pub mod Session
pub mod Leases
pub mod Members
use color_ssh.Base.{
  ℕ, zero, suc, ◌+◌, ◌-◌, ◌*◌, ◌/◌, ◌^◌, min, Text, codes, text_eq, Result, ok, err, Option, none,
  some, Bool, true, false, ◌||◌, List, [], ◌∷◌, ◌++◌, ltb, leb, if◌then◌else◌, retain,
}
use mathlib.Core.Option
use color_ssh.Vault.Types.{Bytes}
use color_ssh.Vault.Disk.{VaultPaths}
use color_ssh.Vault.Reading.{UnlockedVault}
use color_ssh.Agent.Types.{UnlockPolicy, VaultStatus, locked_status}

abbrev pub nanos : ℕ
nanos = 1000000000

-- `Duration::from_secs`
abbrev pub from_secs : ℕ → ℕ
from_secs s = s * nanos

abbrev pub millis : ℕ → ℕ
millis m = m * 1000000

abbrev pub agent_idle_shutdown_poll_interval_min : ℕ
agent_idle_shutdown_poll_interval_min = millis 5

abbrev pub agent_idle_shutdown_poll_interval_max : ℕ
agent_idle_shutdown_poll_interval_max = millis 250

abbrev pub askpass_token_ttl : ℕ
askpass_token_ttl = from_secs 60

pub record AskpassLease : Type 0 where
  pub token : Text
  pub entry_name : Text
  pub expires_at : ℕ

pub record AgentRuntime : Type 0 where
  pub data_key : Option Bytes
  pub unlocked_at : Option ℕ
  pub last_activity_at : Option ℕ
  pub absolute_timeout_at : Option ℕ
  pub policy : Option UnlockPolicy
  pub askpass_leases : List AskpassLease

abbrev pub is_some {ℓ} : {A : Type ℓ} → Option A → Bool
is_some none = false
is_some (some _) = true

abbrev pub new : AgentRuntime
new = record {
  data_key = none;
  unlocked_at = none;
  last_activity_at = none;
  absolute_timeout_at = none;
  policy = none;
  askpass_leases = [];
}

-- A method that changes the runtime returns it with its result.
unfoldable pub lock : AgentRuntime → AgentRuntime × Bool
lock r = (
  record r {
    data_key = none;
    askpass_leases = [];
    unlocked_at = none;
    last_activity_at = none;
    absolute_timeout_at = none;
    policy = none;
  },
  is_some r.data_key,
)

-- `Instant::elapsed`, which is 0 for an instant in the future
abbrev pub elapsed : ℕ → ℕ → ℕ
elapsed now t = now - t

expire_session : ℕ → UnlockPolicy → ℕ → ℕ → AgentRuntime → AgentRuntime × Bool
unfolding lock
expire_session now policy unlocked_at last_activity_at r =
    let idle_expired = leb (from_secs policy.idle_timeout_seconds) (elapsed now last_activity_at) in
    let absolute_expired =
      leb (from_secs policy.session_timeout_seconds) (elapsed now unlocked_at) in
    if idle_expired || absolute_expired then ((lock r).0, true) else (r, false)

expire_by : ℕ → Option UnlockPolicy → Option ℕ → Option ℕ → AgentRuntime → AgentRuntime × Bool
unfolding expire_session
expire_by now none unlocked_at last_activity_at r = (r, false)
expire_by now (some policy) none last_activity_at r = ((lock r).0, false)
expire_by now (some policy) (some unlocked_at) none r = ((lock r).0, false)
expire_by now (some policy) (some unlocked_at) (some last_activity_at) r =
    expire_session now policy unlocked_at last_activity_at r

-- The result is true when the call locked an expired session.
unfoldable pub expire_if_needed : ℕ → AgentRuntime → AgentRuntime × Bool
unfolding expire_by
expire_if_needed now r = expire_by now r.policy r.unlocked_at r.last_activity_at r

session_status : Bool → ℕ → UnlockPolicy → ℕ → ℕ → Option Bytes → Option ℕ → VaultStatus
session_status exists now policy unlocked_at last_activity_at data_key absolute_timeout_at =
    let idle_remaining = from_secs policy.idle_timeout_seconds - elapsed now last_activity_at in
    let absolute_remaining = from_secs policy.session_timeout_seconds - elapsed now unlocked_at in
    record {
      vault_exists = exists;
      unlocked = is_some data_key;
      unlock_expires_in_seconds =
          Option.map (λ _. min idle_remaining absolute_remaining / nanos) data_key;
      idle_timeout_seconds = some policy.idle_timeout_seconds;
      absolute_timeout_seconds = some policy.session_timeout_seconds;
      absolute_timeout_at_epoch_seconds = elim data_key [
        | none ↦ none
        | some _ ↦ Option.map (λ t. t / nanos) absolute_timeout_at
      ];
    }

status_by : Bool → ℕ → Option UnlockPolicy → Option ℕ → Option ℕ → AgentRuntime → VaultStatus
unfolding session_status
status_by exists now none unlocked_at last_activity_at r = locked_status exists
status_by exists now (some policy) none last_activity_at r = locked_status exists
status_by exists now (some policy) (some unlocked_at) none r = locked_status exists
status_by exists now (some policy) (some unlocked_at) (some last_activity_at) r =
    session_status exists now policy unlocked_at last_activity_at r.data_key r.absolute_timeout_at

-- `vault_exists` is whether the metadata file is there. The wall clock stands at or past 1970.
unfoldable pub status : Bool → ℕ → AgentRuntime → VaultStatus
unfolding status_by
status exists now r = status_by exists now r.policy r.unlocked_at r.last_activity_at r

-- `SystemTime::checked_add`: the seconds of a time are a signed 64-bit number.
unfoldable pub checked_add : ℕ → ℕ → Option ℕ
checked_add time duration =
    if ltb ((time + duration) / nanos) (2 ^ 63) then some (time + duration) else none

unfoldable pub unlock : ℕ → ℕ → Bytes → UnlockPolicy → AgentRuntime → AgentRuntime
unfolding lock checked_add
unlock now wall data_key policy r = record ((lock r).0) {
  data_key = some data_key;
  unlocked_at = some now;
  last_activity_at = some now;
  absolute_timeout_at = checked_add wall (from_secs policy.session_timeout_seconds);
  policy = some policy;
}

unfoldable pub touch : ℕ → AgentRuntime → AgentRuntime
touch now r = record r { last_activity_at = some now }

unfoldable pub unlocked_vault : VaultPaths → AgentRuntime → Option UnlockedVault
unlocked_vault paths r = Option.map (λ key. record { paths = paths; data_key = key }) r.data_key

unfoldable pub prune_expired_askpass_leases : ℕ → AgentRuntime → AgentRuntime
prune_expired_askpass_leases now r = record r {
  askpass_leases = retain (λ lease. ltb now lease.expires_at) r.askpass_leases;
}

-- `drawn` is the outcome of `random_secret`; `pruned_at` and `issued_at` are the two readings.
unfoldable pub issue_askpass_token :
    ℕ → ℕ → Result Text Text → Text → AgentRuntime → AgentRuntime × Result Text Text
unfolding prune_expired_askpass_leases
issue_askpass_token pruned_at issued_at drawn entry_name r =
    let pruned = prune_expired_askpass_leases pruned_at r in
    elim drawn [
      | err text ↦ (pruned, err (codes "failed to generate askpass token: " ++ text))
      | ok token ↦ (
        record pruned {
          askpass_leases =
              pruned.askpass_leases
              ++ record {
                token = token;
                entry_name = entry_name;
                expires_at = issued_at + askpass_token_ttl;
              }
                ∷ [];
        },
        ok token,
      )
    ]

-- `position` of the lease with the token, and the lease
unfoldable pub position : Text → List AskpassLease → Option (ℕ × AskpassLease)
position token [] = none
position token (lease ∷ leases) =
    if text_eq lease.token token
    then some (0, lease)
    else Option.map (λ found. (suc found.0, found.1)) (position token leases)

module _ {ℓ} {A : Type ℓ} where
  unfoldable pub pop : List A → Option (List A × A)
  pop [] = none
  pop (x ∷ []) = some ([], x)
  pop (x ∷ y ∷ xs) = Option.map (λ r. (x ∷ r.0, r.1)) (pop (y ∷ xs))

  unfoldable pub set : List A → ℕ → A → List A
  set [] i v = []
  set (x ∷ xs) zero v = v ∷ xs
  set (x ∷ xs) (suc i) v = x ∷ set xs i v

  -- `Vec::swap_remove`: the last element takes the place of the removed one.
  unfoldable pub swap_remove : ℕ → List A → List A
  unfolding pop set
  swap_remove i xs = elim (pop xs) [ none ↦ [] | some (rest, last) ↦ set rest i last ]

unfoldable pub take_askpass_entry : ℕ → Text → AgentRuntime → AgentRuntime × Option Text
unfolding prune_expired_askpass_leases swap_remove position
take_askpass_entry now token r =
    let pruned = prune_expired_askpass_leases now r in
    elim (position token pruned.askpass_leases) [
      | none ↦ (pruned, none)
      | some (index, lease) ↦ (
        record pruned { askpass_leases = swap_remove index pruned.askpass_leases },
        some lease.entry_name,
      )
    ]

unfoldable pub next_idle_shutdown_poll_interval : ℕ → ℕ
next_idle_shutdown_poll_interval current = min (current * 2) agent_idle_shutdown_poll_interval_max
