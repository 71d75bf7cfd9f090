-- ===== src/Ssh/Inspection/Walk.antt =====
-- The inspection of whole options and what stands behind them.
use color_ssh.Base.{
  ℕ, ◌+◌, Text, codes, text_eq, Bool, true, false, Option, none, some, List, ◌∷◌, ◌++◌, ◌≡◌, refl,
  length, Option-cases, inl, inr, arith, split_once, subst, ap, split_first, ◌∙◌,
}
use color_ssh.Args.Ssh.{is_flag, takes_value}
use color_ssh.Args.Ssh.Destination.{Options, done, lone, paired}
use color_ssh.Ssh.Flags.{
  SshArgInspection, default_inspection, Override, set_override, insert_key, Arm, exact_arms,
}
use color_ssh.Ssh.Inspection.{
  find_arm, flag_step, exact_test, inspect_from, inspect_ssh_args, at_parts,
}
use color_ssh.Ssh.Inspection.Agreement.{Fits, flag_step-Fits}
use color_ssh.Ssh.Inspection.Kept.{Keeps, flag_step-Keeps}

abbrev pub Unplaced : SshArgInspection → Type 0
Unplaced st =
    (st.destination_index ≡ none)
    × (st.destination_host ≡ none)
    × (st.explicit_destination_user ≡ none)

module _ (arg : Text) (args : List Text) (st : SshArgInspection) where
  pub flag_next :
      (b : Bool)
      → is_flag arg ≡ true
      → takes_value arg ≡ b
      → (next : SshArgInspection) × (flag_step arg args st ≡ some (next, b))
  flag_next b f v = elim (Option-cases (flag_step arg args st)) [
    | inl e ↦
        let fits : is_flag arg ≡ false = subst (Fits arg) e (flag_step-Fits arg st args) in
        absurd (ground (arith, f, fits))
    | inr ((next, skip), e) ↦
        let fits : (is_flag arg ≡ true) × (takes_value arg ≡ skip) =
          subst (Fits arg) e (flag_step-Fits arg st args) in
        (next, cc (e, fits.1, v))
  ]

  pub target_step : is_flag arg ≡ false → flag_step arg args st ≡ none
  target_step n = elim (Option-cases (flag_step arg args st)) [
    | inl e ↦ e
    | inr ((next, skip), e) ↦
        let fits : (is_flag arg ≡ true) × (takes_value arg ≡ skip) =
          subst (Fits arg) e (flag_step-Fits arg st args) in
        absurd (ground (arith, n, fits.0))
  ]

module _ (arg : Text) (st : SshArgInspection) where
  exact_same :
      (args other : List Text) (o : Option Arm)
      → text_eq arg (codes "-o") ≡ false
      → exact_test arg args st o ≡ exact_test arg other st o
  exact_same args other none e = rw e refl
  exact_same args other (some a) e = refl

  lone_step :
      (args other : List Text)
      → text_eq arg (codes "-o") ≡ false
      → flag_step arg args st ≡ flag_step arg other st
  unfolding flag_step
  lone_step args other e = exact_same args other (find_arm (λ a. text_eq arg a.flag) exact_arms) e

  exact_paired :
      (value : Text) (args other : List Text) (o : Option Arm) (b : Bool)
      → text_eq arg (codes "-o") ≡ b
      → exact_test arg (value ∷ args) st o ≡ exact_test arg (value ∷ other) st o
  exact_paired value args other none true e = rw e refl
  exact_paired value args other none false e = rw e refl
  exact_paired value args other (some a) b e = refl

  paired_step :
      (value : Text) (args other : List Text)
      → flag_step arg (value ∷ args) st ≡ flag_step arg (value ∷ other) st
  unfolding flag_step
  paired_step value args other =
      exact_paired value args other (find_arm (λ a. text_eq arg a.flag) exact_arms)
        (text_eq arg (codes "-o")) refl

no_option : (arg : Text) → takes_value arg ≡ false → text_eq arg (codes "-o") ≡ false
unfolding takes_value
no_option arg v = ground (arith, v)

unfoldable pub at : ℕ → Text → SshArgInspection → SshArgInspection
unfolding split_first
at idx target st = at_parts idx target (split_once b'@' target) st

-- The inspection ends at the first argument behind whole options, with what these say.
inspect_from-Options :
    (before : List Text) (target : Text) (after : List Text) (st : SshArgInspection) (idx : ℕ)
    → Options before
    → is_flag target ≡ false
    → inspect_from st idx false (before ++ target ∷ after)
      ≡ at (idx + length before) target (inspect_from st idx false before)
unfolding inspect_from at
inspect_from-Options before target after st idx done n =
    let start : idx ≡ idx + 0 = omega arith in
    rw (target_step target after st n, inspect_from) (ap (λ i. at i target st) start)
inspect_from-Options before target after st idx (lone arg {args} f v o) n =
    let step = flag_next arg args st false f v in
    let same = lone_step arg st (args ++ target ∷ after) args (no_option arg v) in
    let next : idx + 1 + length args ≡ idx + length (arg ∷ args) = omega arith in
    rw (same, step.1, inspect_from)
      (inspect_from-Options args target after step.0 (idx + 1) o n
        ∙ ap (λ i. at i target (inspect_from step.0 (idx + 1) false args)) next)
inspect_from-Options before target after st idx (paired arg value {args} f v o) n =
    let step = flag_next arg (value ∷ args) st true f v in
    let same = paired_step arg st value (args ++ target ∷ after) args in
    let next : idx + 1 + 1 + length args ≡ idx + length (arg ∷ value ∷ args) = omega arith in
    rw (same, step.1, inspect_from)
      (inspect_from-Options args target after step.0 (idx + 1 + 1) o n
        ∙ ap (λ i. at i target (inspect_from step.0 (idx + 1 + 1) false args)) next)

module _ (P : SshArgInspection → Type 0)
    (keep_override : (o : Override) (st : SshArgInspection) → P st → P (set_override o st))
    (keep_key : (key : Text) (st : SshArgInspection) → P st → P (insert_key key st)) where
  pub inspect_from-keeps :
      (before : List Text) (st : SshArgInspection) (idx : ℕ)
      → Options before
      → P st
      → P (inspect_from st idx false before)
  unfolding inspect_from
  inspect_from-keeps before st idx done h = h
  inspect_from-keeps before st idx (lone arg {args} f v o) h =
      let step = flag_next arg args st false f v in
      let kept : P step.0 =
        subst (Keeps P) step.1 (flag_step-Keeps P keep_override keep_key arg st h args) in
      rw (step.1, inspect_from) (inspect_from-keeps args step.0 (idx + 1) o kept)
  inspect_from-keeps before st idx (paired arg value {args} f v o) h =
      let step = flag_next arg (value ∷ args) st true f v in
      let kept : P step.0 =
        subst (Keeps P) step.1 (flag_step-Keeps P keep_override keep_key arg st h (value ∷ args)) in
      rw (step.1, inspect_from) (inspect_from-keeps args step.0 (idx + 1 + 1) o kept)

-- What the inspection has found before the destination.
unfoldable pub said : List Text → SshArgInspection
unfolding inspect_from
said before = inspect_from default_inspection 0 false before

pub Unplaced-override :
    (o : Override) (st : SshArgInspection) → Unplaced st → Unplaced (set_override o st)
unfolding set_override
Unplaced-override o st h = h

pub said-Unplaced : (before : List Text) → Options before → Unplaced (said before)
unfolding said
said-Unplaced before o =
    inspect_from-keeps Unplaced Unplaced-override (λ key st h. h) before default_inspection 0 o
      (refl, refl, refl)

pub inspect_ssh_args-Options :
    (before : List Text) (target : Text) (after : List Text)
    → Options before
    → is_flag target ≡ false
    → inspect_ssh_args (before ++ target ∷ after) ≡ at (length before) target (said before)
unfolding inspect_ssh_args said
inspect_ssh_args-Options before target after o n =
    let start : 0 + length before ≡ length before = omega arith in
    inspect_from-Options before target after default_inspection 0 o n
    ∙ ap (λ i. at i target (said before)) start
