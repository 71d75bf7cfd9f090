-- ===== src/Ssh/Inspection/Scans.antt =====
-- The scan of src/args/ssh.rs and the inspection of src/process/ssh_builder.rs.
use color_ssh.Base.{
  ℕ, ◌+◌, ◌==◌, Text, Bool, true, false, Option, none, some, List, [], ◌∷◌, ◌≡◌, refl, subst, ap,
  length, Bool-cases, Option-cases, inl, inr, arith, split_once, split_first, after_first, ◌∙◌,
}
use color_ssh.Args.Ssh.{is_flag, takes_value, host_part, scan, extract_destination_host}
use color_ssh.Args.Ssh.Destination.{extract_destination_host_iff}
use color_ssh.Ssh.Flags.{SshArgInspection, default_inspection}
use color_ssh.Ssh.Inspection.{inspect_from, inspect_ssh_args, at_parts}
use color_ssh.Ssh.Inspection.Kept.{Keeps, flag_step-Keeps}
use color_ssh.Ssh.Inspection.Walk.{
  flag_next, Unplaced, Unplaced-override, at, inspect_ssh_args-Options, said,
}

inspect_from-none :
    (st : SshArgInspection) (idx : ℕ) (skip_next : Bool) (args : List Text)
    → scan skip_next args ≡ none
    → Unplaced st
    → Unplaced (inspect_from st idx skip_next args)
unfolding scan inspect_from
inspect_from-none st idx skip_next [] h u = u
inspect_from-none st idx true (arg ∷ args) h u = inspect_from-none st (idx + 1) false args h u
inspect_from-none st idx false (arg ∷ args) h u = elim (Bool-cases (is_flag arg)) [
  | inr n ↦ absurd (ground (arith, h, n))
  | inl f ↦
      let step = flag_next arg args st (takes_value arg) f refl in
      let kept : Unplaced step.0 =
        subst (Keeps Unplaced) step.1
          (flag_step-Keeps Unplaced Unplaced-override (λ key st h. h) arg st u args) in
      rw (step.1, inspect_from)
        (inspect_from-none step.0 (idx + 1) (takes_value arg) args (ground (arith, h, f)) kept)
]

pub inspect_ssh_args-none :
    (args : List Text) → extract_destination_host args ≡ none → Unplaced (inspect_ssh_args args)
unfolding extract_destination_host inspect_ssh_args
inspect_ssh_args-none args h =
    inspect_from-none default_inspection 0 false args h (refl, refl, refl)

abbrev second : Option (Text × Text) → Option Text
second none = none
second (some parts) = some (parts.1)

-- `split_once` and the scan's own search for the character.
split_once-after_first : (c : ℕ) (s : Text) → after_first c s ≡ second (split_once c s)
unfolding after_first split_first
split_once-after_first c [] = refl
split_once-after_first c (d ∷ s) = elim (Bool-cases (d == c)) [
  | inl e ↦ let f : (c == d) ≡ true = ground (arith, e) in ground (arith, e, f)
  | inr e ↦
      let f : (c == d) ≡ false = ground (arith, e) in
      elim (Option-cases (split_once c s)) [
        | inl n ↦
            (let before = split_once-after_first c s ∙ ap second n in
              ground (arith, e, f, n, before))
        | inr (parts, n) ↦
            (let before = split_once-after_first c s ∙ ap second n in
              ground (arith, e, f, n, before))
      ]
]

parts-host :
    (idx : ℕ) (target : Text) (st : SshArgInspection) (parts : Option (Text × Text))
    → after_first b'@' target ≡ second parts
    → (at_parts idx target parts st).destination_host ≡ some (host_part target)
unfolding host_part
parts-host idx target st none e = rw (e, host_part) refl
parts-host idx target st (some (user, host)) e = rw (e, host_part) refl

pub at-host :
    (idx : ℕ) (target : Text) (st : SshArgInspection)
    → (at idx target st).destination_host ≡ some (host_part target)
unfolding at
at-host idx target st =
    parts-host idx target st (split_once b'@' target) (split_once-after_first b'@' target)

-- The inspection finds the destination that the scan of the arguments finds, or neither finds one.
pub inspect_ssh_args_agrees :
    (args : List Text) → (inspect_ssh_args args).destination_host ≡ extract_destination_host args
inspect_ssh_args_agrees args = elim (Option-cases (extract_destination_host args)) [
  | inl e ↦ rw e ((inspect_ssh_args-none args e).1)
  | inr (host, e) ↦
      let found = (extract_destination_host_iff args host).0 e in
      let walked =
        inspect_ssh_args-Options found.before found.target found.after found.options
          found.not_flag in
      rw (e, found.split, walked, ← found.host_is)
        (at-host (length found.before) found.target (said found.before))
]
