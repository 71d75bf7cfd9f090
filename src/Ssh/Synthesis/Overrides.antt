-- ===== src/Ssh/Synthesis/Overrides.antt =====
-- What the caller says itself before the destination, in the forms that src/process/ssh_builder.rs reads.
-- Flags in a cluster, as in `-Cp22`, and a name and its value apart by a space, as in `-o "Port 22"`, are
-- options of ssh too, which it does not read as such, and are not among the forms of `Says`.
use color_ssh.Base.{
  ℕ, Text, codes, Bool, true, false, List, [], ◌∷◌, ◌≡◌, refl, ◌⊎◌, arith, is_empty,
}
use color_ssh.Args.Ssh.{is_flag, takes_value}
use color_ssh.Args.Ssh.Destination.{Options}
use color_ssh.Ssh.Flags.{
  SshArgInspection, Override, user_flag, port_flag, identity_flag, proxy_jump, proxy_command,
  forward_agent, identities_only, local_forward, remote_forward, no_flag, set_override, insert_key,
}
use color_ssh.Ssh.Inspection.{record_ssh_option, option_key, option_override}

-- The letter of a setting's flag, and the name of its option.
pub data Letter : Override → ℕ → Type 0 where
  user_letter : Letter user_flag b'l'
  port_letter : Letter port_flag b'p'
  identity_letter : Letter identity_flag b'i'
  jump_letter : Letter proxy_jump b'J'
  local_letter : Letter local_forward b'L'
  remote_letter : Letter remote_forward b'R'

abbrev pub option_name : Override → Text
option_name user_flag = codes "user"
option_name port_flag = codes "port"
option_name identity_flag = codes "identityfile"
option_name proxy_jump = codes "proxyjump"
option_name proxy_command = codes "proxycommand"
option_name forward_agent = codes "forwardagent"
option_name identities_only = codes "identitiesonly"
option_name local_forward = codes "localforward"
option_name remote_forward = codes "remoteforward"
option_name no_flag = []

-- Whole options that say a setting in a form that is read: by its flag with the value behind it or in the same argument, by
-- `-o Name=value` in two arguments or in one, or by `-A` and `-a`.
pub data Says (o : Override) : List Text → Type 0 where
  separate :
      (letter : ℕ) (value : Text) {args : List Text}
      → Letter o letter
      → Options args
      → Says o ((b'-' ∷ letter ∷ []) ∷ value ∷ args)
  joined :
      (letter c : ℕ) (value : Text) {args : List Text}
      → Letter o letter
      → Options args
      → Says o ((b'-' ∷ letter ∷ c ∷ value) ∷ args)
  option :
      (value : Text) {args : List Text}
      → option_key value ≡ option_name o
      → is_empty (option_name o) ≡ false
      → Options args
      → Says o (codes "-o" ∷ value ∷ args)
  joined_option :
      (c : ℕ) (value : Text) {args : List Text}
      → option_key (c ∷ value) ≡ option_name o
      → is_empty (option_name o) ≡ false
      → Options args
      → Says o ((b'-' ∷ b'o' ∷ c ∷ value) ∷ args)
  agent :
      (letter : ℕ) {args : List Text}
      → o ≡ forward_agent
      → (letter ≡ b'A') ⊎ (letter ≡ b'a')
      → Options args
      → Says o ((b'-' ∷ letter ∷ []) ∷ args)
  behind_lone :
      (arg : Text) {args : List Text}
      → is_flag arg ≡ true
      → takes_value arg ≡ false
      → Says o args
      → Says o (arg ∷ args)
  behind_paired :
      (arg value : Text) {args : List Text}
      → is_flag arg ≡ true
      → takes_value arg ≡ true
      → Says o args
      → Says o (arg ∷ value ∷ args)

-- The field of the inspection for a setting.
abbrev pub has : Override → SshArgInspection → Bool
has user_flag st = st.has_user_flag
has port_flag st = st.has_port_flag
has identity_flag st = st.has_identity_flag
has proxy_jump st = st.has_proxy_jump
has proxy_command st = st.has_proxy_command
has forward_agent st = st.has_forward_agent
has identities_only st = st.has_identities_only
has local_forward st = st.has_local_forward
has remote_forward st = st.has_remote_forward
has no_flag st = true

pub has_set : (o : Override) (st : SshArgInspection) → has o (set_override o st) ≡ true
unfolding set_override
has_set user_flag st = ground arith
has_set port_flag st = ground arith
has_set identity_flag st = ground arith
has_set proxy_jump st = ground arith
has_set proxy_command st = ground arith
has_set forward_agent st = ground arith
has_set identities_only st = ground arith
has_set local_forward st = ground arith
has_set remote_forward st = ground arith
has_set no_flag st = refl

pub has_still :
    (o p : Override) (st : SshArgInspection) → has o st ≡ true → has o (set_override p st) ≡ true
unfolding set_override
has_still user_flag p st h = rw h refl
has_still port_flag p st h = rw h refl
has_still identity_flag p st h = rw h refl
has_still proxy_jump p st h = rw h refl
has_still proxy_command p st h = rw h refl
has_still forward_agent p st h = rw h refl
has_still identities_only p st h = rw h refl
has_still local_forward p st h = rw h refl
has_still remote_forward p st h = rw h refl
has_still no_flag p st h = refl

pub has_keyed :
    (o : Override) (key : Text) (st : SshArgInspection)
    → has o st ≡ true
    → has o (insert_key key st) ≡ true
has_keyed user_flag key st h = h
has_keyed port_flag key st h = h
has_keyed identity_flag key st h = h
has_keyed proxy_jump key st h = h
has_keyed proxy_command key st h = h
has_keyed forward_agent key st h = h
has_keyed identities_only key st h = h
has_keyed local_forward key st h = h
has_keyed remote_forward key st h = h
has_keyed no_flag key st h = refl

option_name-override :
    (o : Override) → is_empty (option_name o) ≡ false → option_override (option_name o) ≡ o
option_name-override user_flag h = refl
option_name-override port_flag h = refl
option_name-override identity_flag h = refl
option_name-override proxy_jump h = refl
option_name-override proxy_command h = refl
option_name-override forward_agent h = refl
option_name-override identities_only h = refl
option_name-override local_forward h = refl
option_name-override remote_forward h = refl
option_name-override no_flag h = cc

pub recorded :
    (o : Override) (value : Text) (st : SshArgInspection)
    → option_key value ≡ option_name o
    → is_empty (option_name o) ≡ false
    → has o (record_ssh_option value st) ≡ true
unfolding record_ssh_option
recorded o value st k n =
    rw (k, n, option_name-override o n) (has_set o (insert_key (option_name o) st))
