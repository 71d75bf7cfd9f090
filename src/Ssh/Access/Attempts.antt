-- ===== src/Ssh/Access/Attempts.antt =====
-- The three attempts to unlock the vault (`unlock_agent_interactively` of src/process/vault.rs).
use color_ssh.Base.{
  ℕ, suc, ◌+◌, ◌≤◌, ◌==◌, Text, Result, ok, err, false, List, [], ◌∷◌, length, is_empty, ◌≡◌, ◌↔◌,
  refl, ap, ok_injective, inl, inr, arith, Bool-cases,
}
use color_ssh.Agent.Types.{UnlockPolicy, VaultStatus}
use color_ssh.Agent.Client.{
  AgentError, of_vault, io, locked, missing_entry, wrong_master_password,
  invalid_or_expired_askpass_token, unauthorized_client, uninitialized, protocol,
}
use color_ssh.Ssh.Access.{
  VaultClient, IoError, Run, after, unlock_attempts, unlock_agent_interactively, try_password,
  attempt_answer,
}

-- A client that counts the passwords that it is given to try.
abbrev pub counted : {S : Type 0} → VaultClient S → VaultClient (S × ℕ)
counted {S} client = record {
  connect = client.connect;
  entry_status = λ name s. let done = client.entry_status name s.0 in (done.0, (done.1, s.1));
  unlock = λ password policy s.
      let done = client.unlock password policy s.0 in (done.0, (done.1, s.1 + 1));
  authorize_askpass =
      λ name s. let done = client.authorize_askpass name s.0 in (done.0, (done.1, s.1));
  get_secret = λ token s. let done = client.get_secret token s.0 in (done.0, (done.1, s.1));
  prompt_hidden_secret = λ s. let done = client.prompt_hidden_secret s.0 in (done.0, (done.1, s.1));
  is_terminal = client.is_terminal;
}

module _ {S : Type 0} (client : VaultClient S) (policy : UnlockPolicy) where
  abbrev Bounded : ℕ → Result IoError VaultStatus × (S × ℕ) → Type 0
  Bounded bound done = done.1.1 ≤ bound

  answer-Bounded :
      (bound attempt : ℕ) (again : Run (S × ℕ) IoError VaultStatus) (s : S × ℕ)
      (answered : Result AgentError VaultStatus)
      → s.1 ≤ bound
      → Bounded bound (again s)
      → Bounded bound (attempt_answer (counted client) attempt again answered s)
  answer-Bounded bound attempt again s (ok status) b h = b
  answer-Bounded bound attempt again s (err wrong_master_password) b h =
      elim (Bool-cases (attempt == 3)) [ inl e ↦ rw e b | inr e ↦ rw e h ]
  answer-Bounded bound attempt again s (err uninitialized) b h = b
  answer-Bounded bound attempt again s (err (of_vault e)) b h = b
  answer-Bounded bound attempt again s (err (io text)) b h = b
  answer-Bounded bound attempt again s (err locked) b h = b
  answer-Bounded bound attempt again s (err missing_entry) b h = b
  answer-Bounded bound attempt again s (err invalid_or_expired_askpass_token) b h = b
  answer-Bounded bound attempt again s (err unauthorized_client) b h = b
  answer-Bounded bound attempt again s (err (protocol text)) b h = b

  try-Bounded :
      (bound attempt : ℕ) (again : Run (S × ℕ) IoError VaultStatus) (password : Text) (s : S)
      (n : ℕ)
      → n + 1 ≤ bound
      → ((s : S) → Bounded bound (again (s, n + 1)))
      → Bounded bound (try_password (counted client) policy attempt again password (s, n))
  try-Bounded bound attempt again [] s n b h = omega (arith, b)
  try-Bounded bound attempt again (c ∷ password) s n b h =
      let done = client.unlock (c ∷ password) policy s in
      answer-Bounded bound attempt again (done.1, n + 1) (done.0) b (h done.1)

  prompt-Bounded :
      (bound attempt : ℕ) (again : Run (S × ℕ) IoError VaultStatus) (r : Result IoError Text)
      (s : S) (n : ℕ)
      → n + 1 ≤ bound
      → ((s : S) → Bounded bound (again (s, n + 1)))
      → Bounded bound (after (r, (s, n)) (try_password (counted client) policy attempt again))
  prompt-Bounded bound attempt again (err e) s n b h = omega (arith, b)
  prompt-Bounded bound attempt again (ok password) s n b h =
      try-Bounded bound attempt again password s n b h

  attempts-Bounded :
      (attempts : List ℕ) (bound : ℕ) (s : S) (n : ℕ)
      → n + length attempts ≤ bound
      → Bounded bound (unlock_attempts (counted client) policy attempts (s, n))
  unfolding unlock_attempts
  attempts-Bounded [] bound s n b = omega (arith, b)
  attempts-Bounded (attempt ∷ attempts) bound s n b =
      let done = client.prompt_hidden_secret s in
      prompt-Bounded bound attempt (unlock_attempts (counted client) policy attempts) (done.0)
        (done.1) n (omega (arith, b))
        (λ s. attempts-Bounded attempts bound s (n + 1) (omega (arith, b)))

-- The agent is given at most three passwords to try, whatever it and the prompt answer.
pub unlock_agent_interactively-bounded :
    {S : Type 0} (client : VaultClient S) (policy : UnlockPolicy) (s : S) (tried : ℕ)
    → (unlock_agent_interactively (counted client) policy (s, tried)).1.1 ≤ tried + 3
unfolding unlock_agent_interactively
unlock_agent_interactively-bounded client policy s tried =
    attempts-Bounded client policy (1 ∷ 2 ∷ 3 ∷ []) (tried + 3) s tried (omega arith)

-- Within so many attempts, a password that is not empty is entered and the agent unlocks with it; the
-- ones before it are not empty and are refused as wrong.
pub data Guesses {S : Type 0} (client : VaultClient S) (policy : UnlockPolicy)
    (status : VaultStatus) (end : S) : ℕ → S → Type 0 where
  guessed :
      {left : ℕ} {s prompted : S} (password : Text)
      → client.prompt_hidden_secret s ≡ (ok password, prompted)
      → is_empty password ≡ false
      → client.unlock password policy prompted ≡ (ok status, end)
      → Guesses client policy status end (suc left) s
  wrong :
      {left : ℕ} {s prompted next : S} (password : Text)
      → client.prompt_hidden_secret s ≡ (ok password, prompted)
      → is_empty password ≡ false
      → client.unlock password policy prompted ≡ (err wrong_master_password, next)
      → Guesses client policy status end left next
      → Guesses client policy status end (suc left) s

-- The attempts that are left, the third of which is the last.
data Left : List ℕ → ℕ → Type 0 where
  last : Left (3 ∷ []) 1
  before_last :
      {attempt : ℕ} {attempts : List ℕ} {left : ℕ}
      → (attempt == 3) ≡ false
      → Left attempts left
      → Left (attempt ∷ attempts) (suc left)

pub err-not_ok :
    {S E A : Type 0} {e : E} {a : A} {s t : S} → ◌≡◌ {A = Result E A × S} (err e, s) (ok a, t) → ⊥
err-not_ok h = cc (ap (λ r. r.0) h)

module _ {S : Type 0} (client : VaultClient S) (policy : UnlockPolicy) (status : VaultStatus)
    (end : S) where
  Guesses-ok :
      (attempts : List ℕ) (left : ℕ) (s : S)
      → Left attempts left
      → Guesses client policy status end left s
      → unlock_attempts client policy attempts s ≡ (ok status, end)
  unfolding unlock_attempts
  Guesses-ok attempts left s last (guessed password p n u) = rw (p, n, u, unlock_attempts) refl
  Guesses-ok attempts left s (before_last e l) (guessed password p n u) =
      rw (p, n, u, unlock_attempts) refl
  Guesses-ok attempts left s last (wrong password p n u g) = elim g [ ]
  Guesses-ok attempts left s (before_last {attempt} {attempts = later} {left = few} e l)
        (wrong {next = next} password p n u g) =
      rw (p, n, u, e, unlock_attempts) (Guesses-ok later few next l g)

  module _ (left attempt : ℕ) (again : Run S IoError VaultStatus)
      (back : (s : S)
        → (attempt == 3) ≡ false
        → again s ≡ (ok status, end)
        → Guesses client policy status end left s)
      (s : S) where
    answer-back :
        (password : Text) (prompted next : S) (r : Result AgentError VaultStatus)
        → client.prompt_hidden_secret s ≡ (ok password, prompted)
        → is_empty password ≡ false
        → client.unlock password policy prompted ≡ (r, next)
        → attempt_answer client attempt again r next ≡ (ok status, end)
        → Guesses client policy status end (suc left) s
    answer-back password prompted next (ok given) p n u h =
        let same : given ≡ status = ok_injective (ap (λ r. r.0) h) in
        let last : next ≡ end = ap (λ r. r.1) h in guessed password p n (cc (u, same, last))
    answer-back password prompted next (err wrong_master_password) p n u h =
        elim (Bool-cases (attempt == 3)) [
          | inl e ↦ absurd (err-not_ok (rw e at h))
          | inr e ↦ wrong password p n u (back next e (rw e at h))
        ]
    answer-back password prompted next (err uninitialized) p n u h = absurd (err-not_ok h)
    answer-back password prompted next (err (of_vault e)) p n u h = absurd (err-not_ok h)
    answer-back password prompted next (err (io text)) p n u h = absurd (err-not_ok h)
    answer-back password prompted next (err locked) p n u h = absurd (err-not_ok h)
    answer-back password prompted next (err missing_entry) p n u h = absurd (err-not_ok h)
    answer-back password prompted next (err invalid_or_expired_askpass_token) p n u h =
        absurd (err-not_ok h)
    answer-back password prompted next (err unauthorized_client) p n u h = absurd (err-not_ok h)
    answer-back password prompted next (err (protocol text)) p n u h = absurd (err-not_ok h)

    prompt-back :
        (r : Result IoError Text) (prompted : S)
        → client.prompt_hidden_secret s ≡ (r, prompted)
        → after (r, prompted) (try_password client policy attempt again) ≡ (ok status, end)
        → Guesses client policy status end (suc left) s
    prompt-back (err e) prompted p h = absurd (err-not_ok h)
    prompt-back (ok []) prompted p h = absurd (err-not_ok h)
    prompt-back (ok (c ∷ password)) prompted p h =
        let done = client.unlock (c ∷ password) policy prompted in
        answer-back (c ∷ password) prompted (done.1) (done.0) p refl refl h

  ok-Guesses :
      (attempts : List ℕ) (left : ℕ) (s : S)
      → Left attempts left
      → unlock_attempts client policy attempts s ≡ (ok status, end)
      → Guesses client policy status end left s
  unfolding unlock_attempts
  ok-Guesses attempts left s last h =
      let done = client.prompt_hidden_secret s in
      prompt-back 0 3 (unlock_attempts client policy []) (λ s e again. absurd (ground (arith, e))) s
        (done.0) (done.1) refl h
  ok-Guesses attempts left s (before_last {attempt} {attempts = later} {left = few} e l) h =
      let done = client.prompt_hidden_secret s in
      prompt-back few attempt (unlock_attempts client policy later)
        (λ s e again. ok-Guesses later few s l again) s (done.0) (done.1) refl h

-- The loop ends with an unlocked vault exactly when one of three passwords that the user enters is the
-- right one, those before it being refused as wrong.
pub unlock_agent_interactively_iff :
    {S : Type 0} (client : VaultClient S) (policy : UnlockPolicy) (status : VaultStatus) (s end : S)
    → (unlock_agent_interactively client policy s ≡ (ok status, end))
      ↔ Guesses client policy status end 3 s
unfolding unlock_agent_interactively
unlock_agent_interactively_iff client policy status s end =
    let left : Left (1 ∷ 2 ∷ 3 ∷ []) 3 = before_last refl (before_last refl last) in
    (
      λ h. ok-Guesses client policy status end (1 ∷ 2 ∷ 3 ∷ []) 3 s left h,
      λ g. Guesses-ok client policy status end (1 ∷ 2 ∷ 3 ∷ []) 3 s left g,
    )
