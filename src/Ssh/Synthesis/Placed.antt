-- ===== src/Ssh/Synthesis/Placed.antt =====
-- What the synthesized arguments keep of the caller's, and what ssh will take for its destination.
use color_ssh.Base.{
  ℕ, suc, ◌+◌, Text, codes, Bool, true, false, ◌||◌, Option, none, some, List, [], ◌∷◌, ◌++◌, ◌≡◌,
  refl, length, drop, take-append, Bool-cases, inl, inr, arith, split_once, trim, is_empty, decimal,
  strip_prefix,
}
use color_ssh.Args.Ssh.{is_flag, takes_value}
use color_ssh.Args.Ssh.Destination.{Options, done, lone, paired}
use color_ssh.Inventory.Model.{InventoryHost, SshOptionMap}
use color_ssh.Inventory.Edit.{normalize_ssh_forward_spec}
use color_ssh.Ssh.Flags.{SshArgInspection}
use color_ssh.Ssh.Inspection.{at_parts}
use color_ssh.Ssh.Inspection.Walk.{at, said, inspect_ssh_args-Options}
use color_ssh.Ssh.Synthesis.{
  injected_args, synthesize_ssh_args, destination_of, user_value, port_value, each, option_value,
  option_values, extra_option_args, is_overridden, unless, yes_no, is_set,
}

pub Options-append : (xs ys : List Text) → Options xs → Options ys → Options (xs ++ ys)
Options-append xs ys done p = p
Options-append xs ys (lone arg {args} f v o) p = lone arg f v (Options-append args ys o p)
Options-append xs ys (paired arg value {args} f v o) p =
    paired arg value f v (Options-append args ys o p)

unless-Options : (b : Bool) (xs : List Text) → Options xs → Options (unless b xs)
unless-Options true xs o = done
unless-Options false xs o = o

module _ (flag : Text) (f : is_flag flag ≡ true) (v : takes_value flag ≡ true) where
  each-Options : (g : Text → Text) (values : List Text) → Options (each flag g values)
  unfolding each
  each-Options g [] = done
  each-Options g (value ∷ values) = paired flag (g value) f v (each-Options g values)

user-Options : (user : Option Text) → Options (user_value user)
unfolding user_value is_flag takes_value strip_prefix
user-Options none = done
user-Options (some user) = elim (Bool-cases (is_empty (trim user))) [
  | inl e ↦ rw e done
  | inr e ↦ rw e (paired (codes "-l") user refl refl done)
]

port-Options : (port : Option ℕ) → Options (port_value port)
unfolding port_value is_flag takes_value strip_prefix
port-Options none = done
port-Options (some port) = paired (codes "-p") (decimal port) refl refl done

option-Options : (key : Text) (value : Option Text) → Options (option_value key value)
unfolding option_value is_flag takes_value strip_prefix
option-Options key none = done
option-Options key (some value) = paired (codes "-o") (key ++ b'=' ∷ value) refl refl done

values-Options : (key : Text) (values : List Text) → Options (option_values key values)
unfolding option_values is_flag takes_value strip_prefix
values-Options key [] = done
values-Options key (value ∷ values) =
    paired (codes "-o") (key ++ b'=' ∷ value) refl refl (values-Options key values)

extra-Options :
    (keys : List Text) (options : SshOptionMap) → Options (extra_option_args keys options)
unfolding extra_option_args
extra-Options keys [] = done
extra-Options keys ((key, values) ∷ options) = elim (Bool-cases (is_overridden keys key)) [
  | inl e ↦ rw (e, extra_option_args) (extra-Options keys options)
  | inr e ↦
      rw (e, extra_option_args)
        (Options-append (option_values key values) (extra_option_args keys options)
          (values-Options key values) (extra-Options keys options))
]

pub injected_args-Options :
    (st : SshArgInspection) (host : InventoryHost) → Options (injected_args st host)
unfolding injected_args is_flag takes_value strip_prefix
injected_args-Options st host =
    let o = host.ssh in
    let user =
      unless-Options (st.has_user_flag || is_set st.explicit_destination_user)
        (user_value host.user) (user-Options host.user) in
    let port = unless-Options st.has_port_flag (port_value host.port) (port-Options host.port) in
    let identity =
      unless-Options st.has_identity_flag _
        (each-Options (codes "-i") refl refl (λ file. file) o.identity_files) in
    let jump =
      unless-Options st.has_proxy_jump _ (option-Options (codes "ProxyJump") o.proxy_jump) in
    let command =
      unless-Options st.has_proxy_command _
        (option-Options (codes "ProxyCommand") o.proxy_command) in
    let forward =
      unless-Options st.has_forward_agent _
        (option-Options (codes "ForwardAgent") o.forward_agent) in
    let only =
      unless-Options st.has_identities_only _
        (option-Options (codes "IdentitiesOnly") (yes_no o.identities_only)) in
    let local =
      unless-Options st.has_local_forward _
        (each-Options (codes "-L") refl refl normalize_ssh_forward_spec o.local_forward) in
    let remote =
      unless-Options st.has_remote_forward _
        (each-Options (codes "-R") refl refl normalize_ssh_forward_spec o.remote_forward) in
    let extra = extra-Options st.option_keys o.extra_options in
    Options-append _ _
      (Options-append _ _
        (Options-append _ _
          (Options-append _ _
            (Options-append _ _
              (Options-append _ _
                (Options-append _ _ (Options-append _ _ (Options-append _ _ user port) identity)
                  jump)
                command)
              forward)
            only)
          local)
        remote)
      extra

at-index :
    (idx : ℕ) (target : Text) (st : SshArgInspection) (parts : Option (Text × Text))
    → (at_parts idx target parts st).destination_index ≡ some idx
at-index idx target st none = refl
at-index idx target st (some (user, host)) = refl

drop-past :
    (before : List Text) (target : Text) (after : List Text)
    → drop (suc (length before)) (before ++ target ∷ after) ≡ after
drop-past [] target after = refl
drop-past (arg ∷ before) target after = drop-past before target after

drop-append-suc :
    (before : List Text) (target : Text) (after : List Text)
    → drop (length before + 1) (before ++ target ∷ after) ≡ after
drop-append-suc before target after =
    let plus : length before + 1 ≡ suc (length before) = omega arith in
    rw plus (drop-past before target after)

module _ (before : List Text) (target : Text) (after : List Text) (host : InventoryHost) where
  abbrev pub found_at : SshArgInspection
  found_at = at (length before) target (said before)

  pub synthesize_ssh_args-Options :
      Options before
      → is_flag target ≡ false
      → synthesize_ssh_args (before ++ target ∷ after) host
        ≡ before
          ++ injected_args found_at host
          ++ destination_of found_at.explicit_destination_user host ∷ after
  unfolding synthesize_ssh_args at
  synthesize_ssh_args-Options o n =
      rw
        (
          inspect_ssh_args-Options before target after o n,
          at-index (length before) target (said before) (split_once b'@' target),
          take-append before (target ∷ after),
          drop-append-suc before target after,
        )
        refl
