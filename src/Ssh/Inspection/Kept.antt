-- ===== src/Ssh/Inspection/Kept.antt =====
-- What every step of the inspection keeps: a property that setting a field and adding a key keep.
use color_ssh.Base.{
  ℕ, Text, codes, text_eq, Bool, true, false, Option, none, some, List, [], ◌∷◌, is_empty,
  if◌then◌else◌, to_ascii_lowercase,
}
use color_ssh.Args.Ssh.{is_flag}
use color_ssh.Ssh.Flags.{
  SshArgInspection, Override, set_override, mark_option_key, Arm, exact_arms, insert_key,
}
use color_ssh.Ssh.Inspection.{
  find_arm, joined_value, flag_step, record_ssh_option, mark_short_flags, mark_short_flag_override,
  apply_arm, record_next, option_override, option_key, short_key, short_override, is_cluster,
  flag_test, joined_test, find_joined, joined_option_test, option_test, exact_test,
}

abbrev pub Keeps : (SshArgInspection → Type 0) → Option (SshArgInspection × Bool) → Type 0
Keeps P none = Unit
Keeps P (some (st, skip)) = P st

module _ (P : SshArgInspection → Type 0)
    (keep_override : (o : Override) (st : SshArgInspection) → P st → P (set_override o st))
    (keep_key : (key : Text) (st : SshArgInspection) → P st → P (insert_key key st)) where
  apply_arm-keeps : (a : Arm) (st : SshArgInspection) → P st → P (apply_arm a st)
  unfolding mark_option_key
  apply_arm-keeps a st h =
      keep_key (to_ascii_lowercase a.key) (set_override a.sets st) (keep_override a.sets st h)

  option_kept :
      (key : Text) (st : SshArgInspection) (b : Bool)
      → P st
      → P (if b then st else set_override (option_override key) (insert_key key st))
  option_kept key st true h = h
  option_kept key st false h =
      keep_override (option_override key) (insert_key key st) (keep_key key st h)

  record_ssh_option-keeps :
      (arg : Text) (st : SshArgInspection) → P st → P (record_ssh_option arg st)
  unfolding record_ssh_option
  record_ssh_option-keeps arg st h = option_kept (option_key arg) st (is_empty (option_key arg)) h

  short_kept :
      (c : ℕ) (st : SshArgInspection) (b : Bool)
      → P st
      → P (if b then st else mark_option_key (short_key c) (set_override (short_override c) st))
  unfolding mark_option_key
  short_kept c st true h = h
  short_kept c st false h =
      keep_key (to_ascii_lowercase (short_key c)) (set_override (short_override c) st)
        (keep_override (short_override c) st h)

  mark_short_flags-keeps :
      (flags : Text) (st : SshArgInspection) → P st → P (mark_short_flags flags st)
  unfolding mark_short_flags
  mark_short_flags-keeps [] st h = h
  mark_short_flags-keeps (c ∷ flags) st h =
      mark_short_flags-keeps flags _ (short_kept c st (is_empty (short_key c)) h)

  cluster-keeps : (arg : Text) (st : SshArgInspection) → P st → P (mark_short_flag_override arg st)
  unfolding mark_short_flag_override
  cluster-keeps [] st h = h
  cluster-keeps (c ∷ flags) st h = mark_short_flags-keeps flags st h

  cluster_kept :
      (arg : Text) (st : SshArgInspection) (b : Bool)
      → P st
      → P (if b then mark_short_flag_override arg st else st)
  cluster_kept arg st true h = cluster-keeps arg st h
  cluster_kept arg st false h = h

  module _ (arg : Text) (st : SshArgInspection) (h : P st) where
    flag-Keeps : (b : Bool) → Keeps P (flag_test arg st b)
    flag-Keeps true = cluster_kept arg st (is_cluster arg) h
    flag-Keeps false = tt

    joined-Keeps : (o : Option Arm) → Keeps P (joined_test arg st o)
    joined-Keeps none = flag-Keeps (is_flag arg)
    joined-Keeps (some a) = apply_arm-keeps a st h

    joined_option-Keeps : (o : Option Text) → Keeps P (joined_option_test arg st o)
    joined_option-Keeps none = joined-Keeps (find_joined arg)
    joined_option-Keeps (some value) = record_ssh_option-keeps value st h

    next_keeps : (args : List Text) → P (record_next args st)
    next_keeps [] = h
    next_keeps (value ∷ args) = record_ssh_option-keeps value st h

    option-Keeps : (args : List Text) (b : Bool) → Keeps P (option_test arg args st b)
    option-Keeps args true = next_keeps args
    option-Keeps args false = joined_option-Keeps (joined_value (codes "-o") arg)

    exact-Keeps : (args : List Text) (o : Option Arm) → Keeps P (exact_test arg args st o)
    exact-Keeps args none = option-Keeps args (text_eq arg (codes "-o"))
    exact-Keeps args (some a) = apply_arm-keeps a st h

    pub flag_step-Keeps : (args : List Text) → Keeps P (flag_step arg args st)
    unfolding flag_step
    flag_step-Keeps args = exact-Keeps args (find_arm (λ a. text_eq arg a.flag) exact_arms)
