-- ===== src/Agent/Runtime/Session.antt =====
-- The session: what is set together, and when it ends.
use color_ssh.Base.{
  ℕ, ◌+◌, ◌-◌, ◌≤◌, ◌<◌, Text, Result, none, some, Bool, true, false, [], ◌≡◌, ◌≢◌, ◌⊎◌, inl, inr,
  refl, arith, Option-cases, Bool-cases,
}
use color_ssh.Vault.Types.{Bytes}
use color_ssh.Agent.Types.{UnlockPolicy}
use color_ssh.Agent.Runtime.{
  AgentRuntime, new, lock, is_some, from_secs, elapsed, expire_if_needed, status, unlock, touch,
  issue_askpass_token, take_askpass_entry,
}

-- A key, its times and its policy are there together, and a locked runtime holds no lease.
pub record IsValid (r : AgentRuntime) : Type 0 where
  pub started : is_some r.unlocked_at ≡ is_some r.data_key
  pub active : is_some r.last_activity_at ≡ is_some r.data_key
  pub governed : is_some r.policy ≡ is_some r.data_key
  pub unleased :
      is_some r.data_key ≡ false → (r.askpass_leases ≡ []) × (r.absolute_timeout_at ≡ none)

pub new-IsValid : IsValid new
new-IsValid = record {
  started = refl;
  active = refl;
  governed = refl;
  unleased = λ h. (refl, refl);
}

pub lock-IsValid : (r : AgentRuntime) → IsValid (lock r).0
unfolding lock
lock-IsValid r = record {
  started = refl;
  active = refl;
  governed = refl;
  unleased = λ h. (refl, refl);
}

pub lock-eq-new : (r : AgentRuntime) → (lock r).0 ≡ new
unfolding lock
lock-eq-new r = refl

pub unlock-IsValid :
    (now wall : ℕ) (key : Bytes) (policy : UnlockPolicy) (r : AgentRuntime)
    → IsValid (unlock now wall key policy r)
unfolding unlock
unlock-IsValid now wall key policy r = record {
  started = refl;
  active = refl;
  governed = refl;
  unleased = λ h. cc;
}

pub touch-IsValid :
    {r : AgentRuntime} (now : ℕ) → r.data_key ≢ none → IsValid r → IsValid (touch now r)
unfolding touch
touch-IsValid now h v = ground arith

pub issue-IsValid :
    {r : AgentRuntime} (pruned_at issued_at : ℕ) (drawn : Result Text Text) (name : Text)
    → r.data_key ≢ none
    → IsValid r
    → IsValid (issue_askpass_token pruned_at issued_at drawn name r).0
unfolding issue_askpass_token
issue-IsValid pruned_at issued_at drawn name h v = ground arith

pub take-IsValid :
    {r : AgentRuntime} (now : ℕ) (token : Text)
    → r.data_key ≢ none
    → IsValid r
    → IsValid (take_askpass_entry now token r).0
unfolding take_askpass_entry
take-IsValid now token h v = ground arith

-- The session has lasted past its idle or its absolute limit.
pub record IsOver (now : ℕ) (r : AgentRuntime) : Type 0 where
  pub policy : UnlockPolicy
  pub unlocked_at : ℕ
  pub last_activity_at : ℕ
  pub governed : r.policy ≡ some policy
  pub started : r.unlocked_at ≡ some unlocked_at
  pub active : r.last_activity_at ≡ some last_activity_at
  pub late :
      (from_secs policy.idle_timeout_seconds ≤ elapsed now last_activity_at)
      ⊎ (from_secs policy.session_timeout_seconds ≤ elapsed now unlocked_at)

IsOver-expire : (now : ℕ) (r : AgentRuntime) → IsOver now r → expire_if_needed now r ≡ (new, true)
unfolding expire_if_needed
IsOver-expire now r o = ground arith

expire-IsOver : (now : ℕ) (r : AgentRuntime) → (expire_if_needed now r).1 ≡ true → IsOver now r
unfolding expire_if_needed
expire-IsOver now r h = elim (Option-cases r.policy) [
  | inl e ↦ absurd (ground arith)
  | inr (policy, governed) ↦ elim (Option-cases r.unlocked_at) [
    | inl e ↦ absurd (ground arith)
    | inr (start, started) ↦ elim (Option-cases r.last_activity_at) [
      | inl e ↦ absurd (ground arith)
      | inr (last, active) ↦ record {
        policy = policy;
        unlocked_at = start;
        last_activity_at = last;
        governed = governed;
        started = started;
        active = active;
        late = ground arith;
      }
    ]
  ]
]

kept :
    (now : ℕ) {r : AgentRuntime}
    → IsValid r
    → (expire_if_needed now r).1 ≡ false
    → expire_if_needed now r ≡ (r, false)
unfolding expire_if_needed
kept now v h = ground arith

-- For a runtime whose parts are there together: `expire_if_needed` reports an expiry exactly when
-- the session has reached its idle or its absolute limit, and then leaves a new, locked runtime;
-- otherwise it changes nothing.
pub expire_if_needed_cases :
    (now : ℕ) (r : AgentRuntime)
    → IsValid r
    → (IsOver now r × (expire_if_needed now r ≡ (new, true)))
      ⊎ (¬ IsOver now r × (expire_if_needed now r ≡ (r, false)))
expire_if_needed_cases now r v = elim (Bool-cases (expire_if_needed now r).1) [
  | inl e ↦ let o = expire-IsOver now r e in inl (o, IsOver-expire now r o)
  | inr e ↦ inr ((λ o. cc (IsOver-expire now r o)), kept now v e)
]

pub expire-IsValid : {r : AgentRuntime} (now : ℕ) → IsValid r → IsValid (expire_if_needed now r).0
expire-IsValid {r} now v = elim (expire_if_needed_cases now r v) [
  | inl (o, e) ↦ rw e new-IsValid
  | inr (o, e) ↦ rw e v
]

-- A status snapshot of a runtime whose parts are there together reports "unlocked", and a time
-- left, exactly when there is a key.
pub status-unlocked :
    (exists : Bool) (now : ℕ) (r : AgentRuntime)
    → IsValid r
    → ((status exists now r).unlocked ≡ is_some r.data_key)
      × (is_some (status exists now r).unlock_expires_in_seconds ≡ is_some r.data_key)
unfolding status
status-unlocked exists now r v = ground arith

-- The time left that a status reports is the smaller of what the idle limit and what the session
-- limit leave, in whole seconds rounded down.
pub status_remaining :
    (exists : Bool) (now left : ℕ) (r : AgentRuntime) (policy : UnlockPolicy) (start last : ℕ)
    → r.policy ≡ some policy
    → r.unlocked_at ≡ some start
    → r.last_activity_at ≡ some last
    → (status exists now r).unlock_expires_in_seconds ≡ some left
    → let idle = from_secs policy.idle_timeout_seconds - elapsed now last in
      let total = from_secs policy.session_timeout_seconds - elapsed now start in
      (from_secs left ≤ idle)
      × (from_secs left ≤ total)
      × ((idle < from_secs (left + 1)) ⊎ (total < from_secs (left + 1)))
unfolding status
status_remaining exists now left r policy start last g s a h = ground arith
