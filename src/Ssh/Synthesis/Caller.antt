-- ===== src/Ssh/Synthesis/Caller.antt =====
-- The caller's settings win over those of the inventory's host.
use mathlib.Core.Option
use color_ssh.Base.{
  ℕ, ◌==◌, Text, Bool, true, false, not, ◌||◌, ◌&&◌, Option, none, some, List, [], ◌∷◌, ◌++◌, ◌≡◌,
  refl, sym, ap, length, ◌⊎◌, inl, inr, arith, split_first, split_once, contains, ◌∙◌, subst,
}
use color_ssh.Args.Ssh.{is_flag}
use color_ssh.Args.Ssh.Destination.{Options}
use color_ssh.Inventory.Model.{InventoryHost}
use color_ssh.Ssh.Flags.{
  SshArgInspection, default_inspection, Override, user_flag, port_flag, identity_flag, proxy_jump,
  proxy_command, forward_agent, identities_only, local_forward, remote_forward, no_flag,
}
use color_ssh.Ssh.Inspection.{at_parts, explicit_user}
use color_ssh.Ssh.Inspection.Walk.{at, said}
use color_ssh.Ssh.Synthesis.{injected_args, synthesize_ssh_args, destination_of, is_set}
use color_ssh.Ssh.Synthesis.Placed.{synthesize_ssh_args-Options, found_at}
use color_ssh.Ssh.Synthesis.Overrides.{Says, has}
use color_ssh.Ssh.Synthesis.Overriding.{Says-has}

-- The host without one of its settings.
abbrev pub without : Override → InventoryHost → InventoryHost
without user_flag host = record host { user = none }
without port_flag host = record host { port = none }
without identity_flag host = record host { ssh = record (host.ssh) { identity_files = [] } }
without proxy_jump host = record host { ssh = record (host.ssh) { proxy_jump = none } }
without proxy_command host = record host { ssh = record (host.ssh) { proxy_command = none } }
without forward_agent host = record host { ssh = record (host.ssh) { forward_agent = none } }
without identities_only host = record host { ssh = record (host.ssh) { identities_only = none } }
without local_forward host = record host { ssh = record (host.ssh) { local_forward = [] } }
without remote_forward host = record host { ssh = record (host.ssh) { remote_forward = [] } }
without no_flag host = host

-- A destination with a user in front of its first `@`.
unfoldable pub names_user : Text → Bool
names_user [] = false
names_user (c ∷ rest) = not (c == b'@') && contains b'@' rest

abbrev place : Option ℕ → Option Text → Option Text → SshArgInspection → SshArgInspection
place idx host user st = record st {
  destination_index = idx;
  destination_host = host;
  explicit_destination_user = user;
}

has-place :
    (o : Override) (idx : Option ℕ) (host user : Option Text) (st : SshArgInspection)
    → has o (place idx host user st) ≡ has o st
has-place user_flag idx host user st = refl
has-place port_flag idx host user st = refl
has-place identity_flag idx host user st = refl
has-place proxy_jump idx host user st = refl
has-place proxy_command idx host user st = refl
has-place forward_agent idx host user st = refl
has-place identities_only idx host user st = refl
has-place local_forward idx host user st = refl
has-place remote_forward idx host user st = refl
has-place no_flag idx host user st = refl

has-at_parts :
    (o : Override) (idx : ℕ) (target : Text) (st : SshArgInspection) (parts : Option (Text × Text))
    → has o (at_parts idx target parts st) ≡ has o st
has-at_parts o idx target st none =
    has-place o (some idx) (some target) st.explicit_destination_user st
has-at_parts o idx target st (some (user, host)) =
    has-place o (some idx) (some host) (explicit_user user st.explicit_destination_user) st

abbrev holds : Override → SshArgInspection → Bool
holds user_flag st = st.has_user_flag || is_set st.explicit_destination_user
holds o st = has o st

injected-without :
    (o : Override) (st : SshArgInspection) (host : InventoryHost)
    → holds o st ≡ true
    → injected_args st host ≡ injected_args st (without o host)
unfolding injected_args
injected-without user_flag st host h = rw (h, injected_args) refl
injected-without port_flag st host h = rw (h, injected_args) refl
injected-without identity_flag st host h = rw (h, injected_args) refl
injected-without proxy_jump st host h = rw (h, injected_args) refl
injected-without proxy_command st host h = rw (h, injected_args) refl
injected-without forward_agent st host h = rw (h, injected_args) refl
injected-without identities_only st host h = rw (h, injected_args) refl
injected-without local_forward st host h = rw (h, injected_args) refl
injected-without remote_forward st host h = rw (h, injected_args) refl
injected-without no_flag st host h = refl

host-without : (o : Override) (host : InventoryHost) → (without o host).host ≡ host.host
host-without user_flag host = refl
host-without port_flag host = refl
host-without identity_flag host = refl
host-without proxy_jump host = refl
host-without proxy_command host = refl
host-without forward_agent host = refl
host-without identities_only host = refl
host-without local_forward host = refl
host-without remote_forward host = refl
host-without no_flag host = refl

destination-without :
    (o : Override) (user : Option Text) (host : InventoryHost)
    → destination_of user host ≡ destination_of user (without o host)
destination-without o none host = sym (host-without o host)
destination-without o (some user) host =
    ap (λ address. user ++ b'@' ∷ address) (sym (host-without o host))

holds-has : (o : Override) (st : SshArgInspection) → has o st ≡ true → holds o st ≡ true
holds-has user_flag st h = rw h refl
holds-has port_flag st h = h
holds-has identity_flag st h = h
holds-has proxy_jump st h = h
holds-has proxy_command st h = h
holds-has forward_agent st h = h
holds-has identities_only st h = h
holds-has local_forward st h = h
holds-has remote_forward st h = h
holds-has no_flag st h = h

said-has : (o : Override) (before : List Text) → Says o before → has o (said before) ≡ true
unfolding said
said-has o before says = Says-has o before default_inspection 0 says

abbrev is_cut : Option (Text × Text) → Bool
is_cut none = false
is_cut (some parts) = true

abbrev longer : ℕ → Option (Text × Text) → Option (Text × Text)
longer d cut = Option.map (λ parts. (d ∷ parts.0, parts.1)) cut

longer-is_cut :
    (d : ℕ) (cut : Option (Text × Text)) → is_cut cut ≡ true → is_cut (longer d cut) ≡ true
longer-is_cut d none h = cc
longer-is_cut d (some parts) h = refl

split_once-is_cut : (c : ℕ) (s : Text) → contains c s ≡ true → is_cut (split_once c s) ≡ true
unfolding split_first
split_once-is_cut c [] h = cc
split_once-is_cut c (d ∷ s) h =
    elim (d == c)
        as (λ b.
          (d == c) ≡ b
          → is_cut (elim b [
            | true ↦ some ([], s)
            | false ↦ Option.map (λ parts. (d ∷ parts.0, parts.1)) (split_once c s)
          ])
            ≡ true) [
              | true ↦ λ e. refl
              | false ↦ λ e.
                  longer-is_cut d (split_once c s) (split_once-is_cut c s (ground (arith, h, e)))
            ]
      refl

longer-user :
    (idx : ℕ) (target : Text) (st : SshArgInspection) (d : ℕ) (cut : Option (Text × Text))
    → is_cut cut ≡ true
    → is_set (at_parts idx target (longer d cut) st).explicit_destination_user ≡ true
longer-user idx target st d none h = cc
longer-user idx target st d (some parts) h = refl

or_right : (a b : Bool) → b ≡ true → (a || b) ≡ true
or_right a b h = ground (arith, h)

explicit-holds :
    (idx : ℕ) (target : Text) (st : SshArgInspection)
    → names_user target ≡ true
    → holds user_flag (at idx target st) ≡ true
unfolding at names_user split_first
explicit-holds idx [] st h = cc
explicit-holds idx (d ∷ rest) st h =
    let cut = split_once-is_cut b'@' rest (ground (arith, h)) in
    elim (d == b'@')
        as (λ b.
          (d == b'@') ≡ b
          → holds user_flag (
              at_parts idx (d ∷ rest)
                (elim b [ true ↦ some ([], rest) | false ↦ longer d (split_once b'@' rest) ]) st)
            ≡ true) [
              | true ↦ λ e. absurd (ground (arith, h, e))
              | false ↦
                  λ e. or_right _ _ (longer-user idx (d ∷ rest) st d (split_once b'@' rest) cut)
            ]
      refl

-- Among whole options before the destination, a setting that is said in one of these forms makes the
-- host's own value of it irrelevant to the arguments of ssh: the flag -l, -p, -i, -J, -L or -R with its
-- value in the next argument or joined to it, -o with a value that has the setting's name alone or in
-- front of its first `=`, in two arguments or in one, and -A or -a alone. So does a user in the
-- destination for the host's user. Nothing is said of flags in a cluster, or of a name and a value
-- with a space between them.
pub caller_wins :
    (o : Override) (before : List Text) (target : Text) (after : List Text) (host : InventoryHost)
    → Options before
    → is_flag target ≡ false
    → Says o before ⊎ ((o ≡ user_flag) × (names_user target ≡ true))
    → synthesize_ssh_args (before ++ target ∷ after) host
      ≡ synthesize_ssh_args (before ++ target ∷ after) (without o host)
unfolding at
caller_wins o before target after host options n says =
    let st = found_at before target after host in
    let held : holds o st ≡ true = elim says [
      | inl s ↦ holds-has o st (
          has-at_parts o (length before) target (said before) (split_once b'@' target)
          ∙ said-has o before s)
      | inr (e, names) ↦
          subst (λ o. holds o st ≡ true) (sym e)
            (explicit-holds (length before) target (said before) names)
    ] in
    rw
      (
        synthesize_ssh_args-Options before target after host options n,
        synthesize_ssh_args-Options before target after (without o host) options n,
        ← injected-without o st host held,
        ← destination-without o st.explicit_destination_user host,
      )
      refl
