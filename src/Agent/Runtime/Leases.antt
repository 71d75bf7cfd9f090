-- ===== src/Agent/Runtime/Leases.antt =====
-- The askpass leases: what a lookup finds, what it removes, and that a token serves once.
use color_ssh.Base.{
  ℕ, zero, suc, ◌+◌, ◌≤◌, ◌<◌, Text, text_eq, text_eq_iff, text_eq_refl, ok, none, some, Bool, true,
  List, [], ◌∷◌, ◌++◌, ◌≡◌, refl, arith, length, append-nil, get_elem?, ltb, ltb→lt, retain,
  if◌then◌else◌, ◌⊎◌, inl, inr, Option-cases, Bool-cases,
}
use mathlib.Core.Option
use mathlib.Core.List.{Memᴰ}
use color_ssh.Agent.Runtime.{
  AgentRuntime, AskpassLease, position, pop, set, swap_remove, take_askpass_entry,
  issue_askpass_token, prune_expired_askpass_leases, askpass_token_ttl,
}

-- How many elements pass a test.
unfoldable pub count {ℓ} : {A : Type ℓ} → (A → Bool) → List A → ℕ
count p [] = 0
count p (x ∷ xs) = (if p x then 1 else 0) + count p xs

module _ {ℓ} {A : Type ℓ} where
  pub pop-eq : (xs rest : List A) (last : A) → pop xs ≡ some (rest, last) → xs ≡ rest ++ last ∷ []
  unfolding pop
  pop-eq [] rest last h = cc
  pop-eq (x ∷ []) rest last h = ground arith
  pop-eq (x ∷ y ∷ xs) rest last h = elim (Option-cases (pop (y ∷ xs))) [
    | inl e ↦ cc e
    | inr ((r, l), e) ↦ cc (pop-eq (y ∷ xs) r l e)
  ]

  pop-none : (xs : List A) → pop xs ≡ none → xs ≡ []
  unfolding pop
  pop-none [] h = refl
  pop-none (x ∷ []) h = cc
  pop-none (x ∷ y ∷ xs) h = elim (Option-cases (pop (y ∷ xs))) [
    | inl e ↦ cc (pop-none (y ∷ xs) e)
    | inr (r, e) ↦ cc e
  ]

  get-snoc :
      (rest : List A) (last : A) (i : ℕ) (a : A)
      → get_elem? (rest ++ last ∷ []) i ≡ some a
      → (get_elem? rest i ≡ some a) ⊎ ((a ≡ last) × (set rest i last ≡ rest))
  unfolding set
  get-snoc [] last zero a h = ground arith
  get-snoc [] last (suc i) a h = cc
  get-snoc (x ∷ rest) last zero a h = inl h
  get-snoc (x ∷ rest) last (suc i) a h = ground (arith, get-snoc rest last i a h)

module _ {ℓ} {A : Type ℓ} (p : A → Bool) where
  count-set :
      (xs : List A) (i : ℕ) (a v : A)
      → get_elem? xs i ≡ some a
      → (if p a then 1 else 0) + count p (set xs i v) ≡ (if p v then 1 else 0) + count p xs
  unfolding count set
  count-set [] i a v h = cc
  count-set (x ∷ xs) zero a v h = ground arith
  count-set (x ∷ xs) (suc i) a v h = ground (arith, count-set xs i a v)

  count-append : (xs ys : List A) → count p (xs ++ ys) ≡ count p xs + count p ys
  unfolding count
  count-append [] ys = omega arith
  count-append (x ∷ xs) ys = omega (arith, count-append xs ys)

  -- `swap_remove` drops the element at its index, and nothing else, as often as each occurs.
  pub count-swap_remove :
      (xs : List A) (i : ℕ) (a : A)
      → get_elem? xs i ≡ some a
      → (if p a then 1 else 0) + count p (swap_remove i xs) ≡ count p xs
  unfolding swap_remove count
  count-swap_remove xs i a h = elim (Option-cases (pop xs)) [
    | inl e ↦ cc (h, pop-none xs e)
    | inr ((rest, last), e) ↦
        let whole = pop-eq xs rest last e in
        ground (
          arith,
          count-append rest (last ∷ []),
          count-set rest i a last,
          get-snoc rest last i a (rw whole at h),
          whole,
        )
  ]

abbrev pub held_by : Text → AskpassLease → Bool
held_by token lease = text_eq lease.token token

position-get :
    (token : Text) (leases : List AskpassLease) (i : ℕ) (lease : AskpassLease)
    → position token leases ≡ some (i, lease)
    → (get_elem? leases i ≡ some lease) × (text_eq lease.token token ≡ true)
unfolding position
position-get token [] i lease h = cc
position-get token (l ∷ ls) i lease h = elim (Bool-cases (text_eq l.token token)) [
  | inl e ↦ ground arith
  | inr e ↦ elim (Option-cases (position token ls)) [
    | inl n ↦ absurd (ground arith)
    | inr ((j, k), f) ↦ ground (arith, position-get token ls j k f)
  ]
]

position-none :
    (token : Text) (leases : List AskpassLease)
    → count (held_by token) leases ≡ 0
    → position token leases ≡ none
unfolding position count
position-none token [] h = refl
position-none token (l ∷ ls) h = ground (arith, position-none token ls)

count-retain :
    (p q : AskpassLease → Bool) (leases : List AskpassLease)
    → count p (retain q leases) ≤ count p leases
unfolding count
count-retain p q [] = omega arith
count-retain p q (l ∷ ls) = ground (arith, count-retain p q ls)

retain-append :
    (q : AskpassLease → Bool) (xs ys : List AskpassLease)
    → retain q (xs ++ ys) ≡ retain q xs ++ retain q ys
retain-append q [] ys = refl
retain-append q (x ∷ xs) ys = ground (arith, retain-append q xs ys)

position-snoc :
    (token : Text) (leases : List AskpassLease) (lease : AskpassLease)
    → count (held_by token) leases ≡ 0
    → text_eq lease.token token ≡ true
    → position token (leases ++ lease ∷ []) ≡ some (length leases, lease)
unfolding position count
position-snoc token [] lease h e = rw e
position-snoc token (l ∷ ls) lease h e = ground (arith, position-snoc token ls lease)

-- What is found in a filtered list is in the list and passes the test.
get-retain :
    (q : AskpassLease → Bool) (xs : List AskpassLease) (i : ℕ) {a : AskpassLease}
    → get_elem? (retain q xs) i ≡ some a
    → Memᴰ a xs × (q a ≡ true)
get-retain q [] i h = cc
get-retain q (x ∷ xs) zero h = elim (Bool-cases (q x)) [
  | inl e ↦ (Memᴰ.head (ground arith), ground arith)
  | inr e ↦ let (m, t) = get-retain q xs zero (ground arith) in (Memᴰ.tail m, t)
]
get-retain q (x ∷ xs) (suc i) h = elim (Bool-cases (q x)) [
  | inl e ↦ let (m, t) = get-retain q xs i (ground arith) in (Memᴰ.tail m, t)
  | inr e ↦ let (m, t) = get-retain q xs (suc i) (ground arith) in (Memᴰ.tail m, t)
]

-- What backs a name that a lookup hands out: a lease with the token, held at that time and not
-- past its term.
pub record IsLeased (now : ℕ) (token name : Text) (r : AgentRuntime) : Type 0 where
  pub lease : AskpassLease
  pub held : Memᴰ lease r.askpass_leases
  pub matches : lease.token ≡ token
  pub names : lease.entry_name ≡ name
  pub live : now < lease.expires_at

-- The lease that a lookup finds among those that are left, and the runtime behind it.
record Taken (now : ℕ) (token name : Text) (r : AgentRuntime) : Type 0 where
  index : ℕ
  lease : AskpassLease
  found : position token (prune_expired_askpass_leases now r).askpass_leases ≡ some (index, lease)
  names : lease.entry_name ≡ name
  left :
      (take_askpass_entry now token r).0.askpass_leases
      ≡ swap_remove index (prune_expired_askpass_leases now r).askpass_leases

take-Taken :
    (now : ℕ) (token name : Text) (r : AgentRuntime)
    → (take_askpass_entry now token r).1 ≡ some name
    → Taken now token name r
unfolding take_askpass_entry
take-Taken now token name r h =
    elim (Option-cases (position token (prune_expired_askpass_leases now r).askpass_leases)) [
      | inl e ↦ absurd (ground arith)
      | inr ((i, lease), e) ↦ record {
        index = i;
        lease = lease;
        found = e;
        names = ground arith;
        left = ground arith;
      }
    ]

-- A lookup answers only with the entry of a lease that is held, has the token and has not expired.
pub take-IsLeased :
    (now : ℕ) (token name : Text) (r : AgentRuntime)
    → (take_askpass_entry now token r).1 ≡ some name
    → IsLeased now token name r
unfolding prune_expired_askpass_leases
take-IsLeased now token name r h =
    let t = take-Taken now token name r h in
    let (got, matches) = position-get token _ t.index t.lease t.found in
    let (held, live) = get-retain (λ l. ltb now l.expires_at) r.askpass_leases t.index got in
    record {
      lease = t.lease;
      held = held;
      matches = (text_eq_iff _ _).0 matches;
      names = t.names;
      live = ltb→lt _ _ live;
    }

abbrev live_at : ℕ → List AskpassLease → List AskpassLease
live_at now leases = retain (λ l. ltb now l.expires_at) leases

take-eq :
    (now : ℕ) (token : Text) (r : AgentRuntime)
    → (take_askpass_entry now token r).1
      ≡ Option.map (λ f. f.1.entry_name) (position token (live_at now r.askpass_leases))
unfolding take_askpass_entry
take-eq now token r = ground arith

prune-count :
    (p : AskpassLease → Bool) (now : ℕ) (r : AgentRuntime)
    → count p (prune_expired_askpass_leases now r).askpass_leases ≤ count p r.askpass_leases
unfolding prune_expired_askpass_leases
prune-count p now r = count-retain p (λ l. ltb now l.expires_at) r.askpass_leases

take-none :
    (now : ℕ) (token : Text) (r : AgentRuntime)
    → count (held_by token) r.askpass_leases ≡ 0
    → (take_askpass_entry now token r).1 ≡ none
take-none now token r h =
    let few = count-retain (held_by token) (λ l. ltb now l.expires_at) r.askpass_leases in
    let gone = position-none token (live_at now r.askpass_leases) (omega (arith, few)) in
    rw (take-eq, gone)

-- A token serves once: where at most one lease has it, a second lookup with it, at any time,
-- finds nothing.
pub take_twice :
    (now later : ℕ) (token name : Text) (r : AgentRuntime)
    → count (held_by token) r.askpass_leases ≤ 1
    → (take_askpass_entry now token r).1 ≡ some name
    → (take_askpass_entry later token (take_askpass_entry now token r).0).1 ≡ none
take_twice now later token name r once h =
    let t = take-Taken now token name r h in
    let leases = (prune_expired_askpass_leases now r).askpass_leases in
    let (got, matches) = position-get token leases t.index t.lease t.found in
    let dropped = count-swap_remove (held_by token) leases t.index t.lease got in
    let dropped_one : 1 + count (held_by token) (swap_remove t.index leases)
        ≡ count (held_by token) leases =
      rw matches at dropped in
    let rest : count (held_by token) (swap_remove t.index leases) ≡ 0 =
      omega (arith, prune-count (held_by token) now r) in
    take-none later token (take_askpass_entry now token r).0 (rw t.left rest)

issue-leases :
    (pruned_at issued_at : ℕ) (token name : Text) (r : AgentRuntime)
    → (issue_askpass_token pruned_at issued_at (ok token) name r).0.askpass_leases
      ≡ live_at pruned_at r.askpass_leases
        ++ record { token = token; entry_name = name; expires_at = issued_at + askpass_token_ttl }
          ∷ []
unfolding issue_askpass_token
issue-leases pruned_at issued_at token name r = refl

-- A token that no lease has, issued for an entry, serves that entry until its 60 seconds are
-- over, and nothing from then on.
pub take-issue :
    (pruned_at issued_at now : ℕ) (token name : Text) (r : AgentRuntime)
    → count (held_by token) r.askpass_leases ≡ 0
    → (take_askpass_entry now token (issue_askpass_token pruned_at issued_at (ok token) name r).0).1
      ≡ (if ltb now (issued_at + askpass_token_ttl) then some name else none)
take-issue pruned_at issued_at now token name r fresh =
    let kept = live_at pruned_at r.askpass_leases in
    let new : AskpassLease = record {
      token = token;
      entry_name = name;
      expires_at = issued_at + askpass_token_ttl;
    } in
    let few = count-retain (held_by token) (λ l. ltb pruned_at l.expires_at) r.askpass_leases in
    let fewer = count-retain (held_by token) (λ l. ltb now l.expires_at) kept in
    let gone : count (held_by token) (live_at now kept) ≡ 0 = omega (arith, few, fewer) in
    let found = position-snoc token (live_at now kept) new gone (text_eq_refl token) in
    let missed = position-none token (live_at now kept) gone in
    rw (take-eq, issue-leases, retain-append)
      (ground (arith, found, missed, append-nil (live_at now kept)))
