-- ===== src/Args/Ssh/Destination.antt =====
-- The destination is the first argument behind a run of options.
use color_ssh.Base.{
  Text, true, false, some, List, [], ◌∷◌, ◌++◌, ◌≡◌, ◌↔◌, refl, arith, Bool-cases, inl, inr,
}
use color_ssh.Args.Ssh.{is_flag, takes_value, host_part, scan, extract_destination_host}

-- A run of whole options: flags without a value, and flags with the argument behind them.
pub data Options : List Text → Type 0 where
  done : Options []
  lone :
      (arg : Text) {args : List Text}
      → is_flag arg ≡ true
      → takes_value arg ≡ false
      → Options args
      → Options (arg ∷ args)
  paired :
      (arg value : Text) {args : List Text}
      → is_flag arg ≡ true
      → takes_value arg ≡ true
      → Options args
      → Options (arg ∷ value ∷ args)

-- A destination behind whole options.
pub record Found (ssh_args : List Text) (host : Text) : Type 0 where
  pub before : List Text
  pub target : Text
  pub after : List Text
  pub options : Options before
  pub split : ssh_args ≡ before ++ target ∷ after
  pub not_flag : is_flag target ≡ false
  pub host_is : host_part target ≡ host

pub scan-Options :
    (before : List Text) (target : Text) (after : List Text)
    → Options before
    → is_flag target ≡ false
    → scan false (before ++ target ∷ after) ≡ some (host_part target)
unfolding scan
scan-Options before target after done n = rw n
scan-Options before target after (lone arg {args} f v o) n =
    rw (f, v) (scan-Options args target after o n)
scan-Options before target after (paired arg value {args} f v o) n =
    rw (f, v) (scan-Options args target after o n)

module _ {arg : Text} {args : List Text} {host : Text} (f : is_flag arg ≡ true) where
  Found-lone : takes_value arg ≡ false → Found args host → Found (arg ∷ args) host
  Found-lone v r = record {
    before = arg ∷ r.before;
    target = r.target;
    after = r.after;
    options = lone arg f v r.options;
    split = cc (r.split);
    not_flag = r.not_flag;
    host_is = r.host_is;
  }

  Found-paired :
      (value : Text) → takes_value arg ≡ true → Found args host → Found (arg ∷ value ∷ args) host
  Found-paired value v r = record {
    before = arg ∷ value ∷ r.before;
    target = r.target;
    after = r.after;
    options = paired arg value f v r.options;
    split = cc (r.split);
    not_flag = r.not_flag;
    host_is = r.host_is;
  }

Found-target :
    {arg : Text} {args : List Text} {host : Text}
    → is_flag arg ≡ false
    → host_part arg ≡ host
    → Found (arg ∷ args) host
Found-target {arg} {args} n h = record {
  before = [];
  target = arg;
  after = args;
  options = done;
  split = refl;
  not_flag = n;
  host_is = h;
}

scan-Found : (args : List Text) (host : Text) → scan false args ≡ some host → Found args host
unfolding scan
scan-Found [] host h = cc
scan-Found (arg ∷ []) host h = Found-target (ground arith) (ground arith)
scan-Found (arg ∷ value ∷ args) host h = elim (Bool-cases (is_flag arg)) [
  | inr n ↦ Found-target n (ground arith)
  | inl f ↦ elim (Bool-cases (takes_value arg)) [
    | inr v ↦ Found-lone f v (scan-Found (value ∷ args) host (ground arith))
    | inl v ↦ Found-paired f value v (scan-Found args host (ground arith))
  ]
]

-- The result is `host` exactly when the arguments are whole options, an argument that is no flag
-- and whose host part is `host`, and anything behind it.
pub extract_destination_host_iff :
    (ssh_args : List Text) (host : Text)
    → (extract_destination_host ssh_args ≡ some host) ↔ Found ssh_args host
unfolding extract_destination_host
extract_destination_host_iff ssh_args host = (
  scan-Found ssh_args host,
  λ r. rw (r.split, ← r.host_is) (scan-Options r.before r.target r.after r.options r.not_flag),
)
