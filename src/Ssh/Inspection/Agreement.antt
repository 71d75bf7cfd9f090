-- ===== src/Ssh/Inspection/Agreement.antt =====
-- The two scans of the caller's arguments, of src/args/ssh.rs and of src/process/ssh_builder.rs, find
-- the same destination.
use color_ssh.Base.{
  Text, codes, text_eq, text_eq_iff, Bool, true, false, not, ◌&&◌, if◌then◌else◌, all, any, Option,
  none, some, List, [], ◌∷◌, ◌≡◌, refl, sym, subst, inl, inr, arith, Bool-cases, strip_prefix, ◌==◌,
}
use color_ssh.Args.Ssh.{is_flag, takes_value, ssh_flags_with_separate_values}
use color_ssh.Ssh.Flags.{SshArgInspection, Arm, exact_arms, joined_arms}
use color_ssh.Ssh.Inspection.{
  find_arm, is_some_text, joined_value, flag_step, flag_test, joined_test, find_joined,
  joined_option_test, option_test, exact_test,
}

pub find_arm-holds :
    (p q : Arm → Bool) (arms : List Arm) (a : Arm)
    → all q arms ≡ true
    → find_arm p arms ≡ some a
    → (p a ≡ true) × (q a ≡ true)
unfolding find_arm
find_arm-holds p q [] a all_hold h = cc
find_arm-holds p q (b ∷ arms) a all_hold h = elim (Bool-cases (p b)) [
  | inl e ↦
      let is : b ≡ a = ground (arith, h, e) in
      subst (λ a. (p a ≡ true) × (q a ≡ true)) is (e, ground (arith, all_hold))
  | inr e ↦ find_arm-holds p q arms a (ground (arith, all_hold)) (ground (arith, h, e))
]

-- An arm of the table is a flag, and skips the next argument where the other scan does.
exact_arms_fit :
    all (λ a. is_flag a.flag && (if takes_value a.flag then a.skips else not a.skips)) exact_arms
    ≡ true
unfolding is_flag takes_value strip_prefix
exact_arms_fit = refl

-- A dash and one character.
is_short : Text → Bool
is_short (dash ∷ c ∷ []) = dash == b'-'
is_short arg = false

joined_arms_short : all (λ a. is_short a.flag) joined_arms ≡ true
unfolding is_short
joined_arms_short = refl

values_short : all is_short ssh_flags_with_separate_values ≡ true
unfolding is_short
values_short = refl

-- At least three characters, the first a dash.
is_long : Text → Bool
is_long (dash ∷ c ∷ d ∷ rest) = dash == b'-'
is_long arg = false

long_not_listed :
    (arg : Text) (flags : List Text)
    → is_long arg ≡ true
    → all is_short flags ≡ true
    → any (text_eq arg) flags ≡ false
unfolding is_short is_long
long_not_listed [] flags l s = ground arith
long_not_listed (a ∷ []) flags l s = ground arith
long_not_listed (a ∷ b ∷ []) flags l s = ground arith
long_not_listed (a ∷ b ∷ c ∷ rest) [] l s = refl
long_not_listed (a ∷ b ∷ c ∷ rest) ([] ∷ flags) l s = ground arith
long_not_listed (a ∷ b ∷ c ∷ rest) ((d ∷ []) ∷ flags) l s = ground arith
long_not_listed (a ∷ b ∷ c ∷ rest) ((d ∷ e ∷ []) ∷ flags) l s =
    ground (arith, long_not_listed (a ∷ b ∷ c ∷ rest) flags l)
long_not_listed (a ∷ b ∷ c ∷ rest) ((d ∷ e ∷ f ∷ g) ∷ flags) l s = ground arith

joined_long :
    (flag arg : Text)
    → is_short flag ≡ true
    → is_some_text (joined_value flag arg) ≡ true
    → is_long arg ≡ true
unfolding is_short is_long joined_value strip_prefix
joined_long [] arg s h = ground arith
joined_long (a ∷ []) arg s h = ground arith
joined_long (a ∷ b ∷ c ∷ flag) arg s h = ground arith
joined_long (a ∷ b ∷ []) [] s h = ground arith
joined_long (a ∷ b ∷ []) (c ∷ []) s h = ground arith
joined_long (a ∷ b ∷ []) (c ∷ d ∷ []) s h = ground arith
joined_long (a ∷ b ∷ []) (c ∷ d ∷ e ∷ rest) s h = ground arith

-- What the other scan sees in such an argument.
long_fits : (arg : Text) → is_long arg ≡ true → (is_flag arg ≡ true) × (takes_value arg ≡ false)
unfolding is_flag takes_value strip_prefix is_long
long_fits [] l = ground arith
long_fits (a ∷ []) l = ground arith
long_fits (a ∷ b ∷ []) l = ground arith
long_fits (a ∷ b ∷ c ∷ rest) l = (
  ground (arith, l),
  long_not_listed (a ∷ b ∷ c ∷ rest) ssh_flags_with_separate_values l values_short,
)

abbrev pub Fits : Text → Option (SshArgInspection × Bool) → Type 0
Fits arg none = is_flag arg ≡ false
Fits arg (some (st, skip)) = (is_flag arg ≡ true) × (takes_value arg ≡ skip)

exact_fits :
    (arg : Text) (a : Arm)
    → find_arm (λ a. text_eq arg a.flag) exact_arms ≡ some a
    → (is_flag arg ≡ true) × (takes_value arg ≡ a.skips)
exact_fits arg a h =
    let holds =
      find_arm-holds (λ a. text_eq arg a.flag)
        (λ a. is_flag a.flag && (if takes_value a.flag then a.skips else not a.skips)) exact_arms a
        exact_arms_fit h in
    let same = sym ((text_eq_iff arg a.flag).0 holds.0) in
    subst (λ arg. (is_flag arg ≡ true) × (takes_value arg ≡ a.skips)) same
      (ground (arith, holds.1), ground (arith, holds.1))

module _ (arg : Text) (st : SshArgInspection) where
  flag-Fits : (b : Bool) → is_flag arg ≡ b → Fits arg (flag_test arg st b)
  unfolding takes_value
  flag-Fits true e = (e, refl)
  flag-Fits false e = e

  joined-Fits : (o : Option Arm) → find_joined arg ≡ o → Fits arg (joined_test arg st o)
  joined-Fits none e = flag-Fits (is_flag arg) refl
  joined-Fits (some a) e =
      let holds =
        find_arm-holds (λ a. is_some_text (joined_value a.flag arg)) (λ a. is_short a.flag)
          joined_arms a joined_arms_short e in
      long_fits arg (joined_long a.flag arg holds.1 holds.0)

  joined_option-Fits :
      (o : Option Text) → joined_value (codes "-o") arg ≡ o → Fits arg (joined_option_test arg st o)
  unfolding is_short
  joined_option-Fits none e = joined-Fits (find_joined arg) refl
  joined_option-Fits (some value) e = long_fits arg (joined_long (codes "-o") arg refl (rw e refl))

  option-Fits :
      (args : List Text) (b : Bool)
      → text_eq arg (codes "-o") ≡ b
      → Fits arg (option_test arg args st b)
  unfolding is_flag takes_value strip_prefix
  option-Fits args false e = joined_option-Fits (joined_value (codes "-o") arg) refl
  option-Fits args true e =
      subst (λ arg. (is_flag arg ≡ true) × (takes_value arg ≡ true))
        (sym ((text_eq_iff arg (codes "-o")).0 e)) (refl, refl)

  exact_test-Fits :
      (args : List Text) (o : Option Arm)
      → find_arm (λ a. text_eq arg a.flag) exact_arms ≡ o
      → Fits arg (exact_test arg args st o)
  exact_test-Fits args none e = option-Fits args (text_eq arg (codes "-o")) refl
  exact_test-Fits args (some a) e = exact_fits arg a e

  pub flag_step-Fits : (args : List Text) → Fits arg (flag_step arg args st)
  unfolding flag_step
  flag_step-Fits args = exact_test-Fits args (find_arm (λ a. text_eq arg a.flag) exact_arms) refl
