-- ===== src/Ssh/Synthesis/Overriding.antt =====
-- A setting that the caller says is not taken from the inventory's host.
use color_ssh.Base.{
  ℕ, ◌+◌, Text, codes, Bool, true, false, Option, none, some, List, [], ◌∷◌, ◌≡◌, refl, sym, ◌⊎◌,
  inl, inr, arith, subst,
}
use color_ssh.Args.Ssh.Destination.{Options}
use color_ssh.Ssh.Flags.{
  SshArgInspection, Override, user_flag, port_flag, identity_flag, proxy_jump, forward_agent,
  local_forward, remote_forward, mark_option_key,
}
use color_ssh.Ssh.Inspection.{record_ssh_option, flag_step, inspect_from}
use color_ssh.Ssh.Inspection.Walk.{flag_next, inspect_from-keeps}
use color_ssh.Ssh.Synthesis.Overrides.{
  Letter, user_letter, port_letter, identity_letter, jump_letter, local_letter, remote_letter, Says,
  separate, joined, option, joined_option, agent, behind_lone, behind_paired, has, has_set,
  has_still, has_keyed, recorded,
}

-- A step that goes on with an inspection that has the setting.
abbrev Marks : Override → Bool → Option (SshArgInspection × Bool) → Type 0
Marks o skip none = ◌≡◌ {A = ℕ} 0 1
Marks o skip (some (st, b)) = (has o st ≡ true) × (b ≡ skip)

module _ (args : List Text) (st : SshArgInspection) where
  separate-Marks :
      (o : Override) (letter : ℕ)
      → Letter o letter
      → Marks o true (flag_step (b'-' ∷ letter ∷ []) args st)
  unfolding flag_step mark_option_key
  separate-Marks o letter user_letter = (has_set user_flag st, refl)
  separate-Marks o letter port_letter = (has_set port_flag st, refl)
  separate-Marks o letter identity_letter = (has_set identity_flag st, refl)
  separate-Marks o letter jump_letter = (has_set proxy_jump st, refl)
  separate-Marks o letter local_letter = (has_set local_forward st, refl)
  separate-Marks o letter remote_letter = (has_set remote_forward st, refl)

  joined-Marks :
      (o : Override) (letter c : ℕ) (value : Text)
      → Letter o letter
      → Marks o false (flag_step (b'-' ∷ letter ∷ c ∷ value) args st)
  unfolding flag_step mark_option_key
  joined-Marks o letter c value user_letter = (has_set user_flag st, refl)
  joined-Marks o letter c value port_letter = (has_set port_flag st, refl)
  joined-Marks o letter c value identity_letter = (has_set identity_flag st, refl)
  joined-Marks o letter c value jump_letter = (has_set proxy_jump st, refl)
  joined-Marks o letter c value local_letter = (has_set local_forward st, refl)
  joined-Marks o letter c value remote_letter = (has_set remote_forward st, refl)

  joined_option-Marks :
      (o : Override) (c : ℕ) (value : Text)
      → has o (record_ssh_option (c ∷ value) st) ≡ true
      → Marks o false (flag_step (b'-' ∷ b'o' ∷ c ∷ value) args st)
  unfolding flag_step
  joined_option-Marks o c value h = (h, refl)

  option-Marks :
      (o : Override) (value : Text)
      → has o (record_ssh_option value st) ≡ true
      → Marks o true (flag_step (codes "-o") (value ∷ args) st)
  unfolding flag_step
  option-Marks o value h = (h, refl)

  agent-Marks :
      (letter : ℕ)
      → (letter ≡ b'A') ⊎ (letter ≡ b'a')
      → Marks forward_agent false (flag_step (b'-' ∷ letter ∷ []) args st)
  unfolding flag_step mark_option_key
  agent-Marks letter (inl e) = rw e (has_set forward_agent st, refl)
  agent-Marks letter (inr e) = rw e (has_set forward_agent st, refl)

module _ (o : Override) where
  still :
      (before : List Text) (st : SshArgInspection) (idx : ℕ)
      → Options before
      → has o st ≡ true
      → has o (inspect_from st idx false before) ≡ true
  still before st idx options h =
      inspect_from-keeps (λ st. has o st ≡ true) (λ p st h. has_still o p st h)
        (λ key st h. has_keyed o key st h) before st idx options h

  after_lone :
      (arg : Text) (args : List Text) (st : SshArgInspection) (idx : ℕ)
      (r : Option (SshArgInspection × Bool))
      → flag_step arg args st ≡ r
      → Marks o false r
      → Options args
      → has o (inspect_from st idx false (arg ∷ args)) ≡ true
  unfolding inspect_from
  after_lone arg args st idx none e m options = ground (arith, m)
  after_lone arg args st idx (some (next, skip)) e m options =
      rw (e, m.1, inspect_from) (still args next (idx + 1) options m.0)

  after_paired :
      (arg value : Text) (args : List Text) (st : SshArgInspection) (idx : ℕ)
      (r : Option (SshArgInspection × Bool))
      → flag_step arg (value ∷ args) st ≡ r
      → Marks o true r
      → Options args
      → has o (inspect_from st idx false (arg ∷ value ∷ args)) ≡ true
  unfolding inspect_from
  after_paired arg value args st idx none e m options = ground (arith, m)
  after_paired arg value args st idx (some (next, skip)) e m options =
      rw (e, m.1, inspect_from) (still args next (idx + 1 + 1) options m.0)

pub Says-has :
    (o : Override) (before : List Text) (st : SshArgInspection) (idx : ℕ)
    → Says o before
    → has o (inspect_from st idx false before) ≡ true
unfolding inspect_from
Says-has o before st idx (separate letter value {args} l options) =
    after_paired o (b'-' ∷ letter ∷ []) value args st idx _ refl
      (separate-Marks (value ∷ args) st o letter l) options
Says-has o before st idx (joined letter c value {args} l options) =
    after_lone o (b'-' ∷ letter ∷ c ∷ value) args st idx _ refl
      (joined-Marks args st o letter c value l) options
Says-has o before st idx (option value {args} k n options) =
    after_paired o (codes "-o") value args st idx _ refl
      (option-Marks args st o value (recorded o value st k n)) options
Says-has o before st idx (joined_option c value {args} k n options) =
    after_lone o (b'-' ∷ b'o' ∷ c ∷ value) args st idx _ refl
      (joined_option-Marks args st o c value (recorded o (c ∷ value) st k n)) options
Says-has o before st idx (agent letter {args} e l options) =
    after_lone o (b'-' ∷ letter ∷ []) args st idx _ refl
      (subst (λ o. Marks o false (flag_step (b'-' ∷ letter ∷ []) args st)) (sym e)
        (agent-Marks args st letter l))
      options
Says-has o before st idx (behind_lone arg {args} f v says) =
    let step = flag_next arg args st false f v in
    rw (step.1, inspect_from) (Says-has o args step.0 (idx + 1) says)
Says-has o before st idx (behind_paired arg value {args} f v says) =
    let step = flag_next arg (value ∷ args) st true f v in
    rw (step.1, inspect_from) (Says-has o args step.0 (idx + 1 + 1) says)
