-- ===== src/Rdp/Payload.antt =====
-- The payload on the standard input is read line by line as the arguments that it was made of
-- (src/process/rdp_builder.rs).
use color_ssh.Base.{
  ℕ, zero, suc, ◌+◌, ◌/◌, ◌%◌, ◌==◌, Text, codes, trim, contains, digits, decimal, ok, Option, none,
  some, false, not, ◌&&◌, ◌||◌, List, [], ◌∷◌, ◌++◌, if◌then◌else◌, any, ◌≡◌, refl, inl, inr, arith,
  append_assoc, append-nil, Bool-cases, Option-cases, Result-cases, ap, sym, subst,
}
use color_ssh.Inventory.Model.{InventoryHost}
use color_ssh.Rdp.Arguments.{
  validate_rdp_value, validate_rdp_password_for_startup, validated_rdp_extra_args, starts_with,
  with_port, address_of, rdp_server_address, stated, domain_args, cert_args, args_of_user,
  build_rdp_args, push_rdp_stdin_arg, push_all, build_rdp_stdin_payload,
}

-- The first line of a text and the others.
unfoldable pub lines : Text → Text × List Text
lines [] = ([], [])
lines (c ∷ s) =
    let rest = lines s in if c == 10 then ([], rest.0 ∷ rest.1) else (c ∷ rest.0, rest.1)

abbrev pub all_lines : Text → List Text
all_lines s = (lines s).0 ∷ (lines s).1

lines-one : (s : Text) → contains 10 s ≡ false → lines s ≡ (s, [])
unfolding lines
lines-one [] h = refl
lines-one (c ∷ s) h = ground (arith, lines-one s)

lines-append :
    (s t : Text)
    → contains 10 t ≡ false
    → lines (s ++ 10 ∷ t) ≡ ((lines s).0, (lines s).1 ++ t ∷ [])
unfolding lines
lines-append [] t h = ground (arith, lines-one t h)
lines-append (c ∷ s) t h = ground (arith, lines-append s t h)

contains-append : (c : ℕ) (s t : Text) → contains c (s ++ t) ≡ (contains c s || contains c t)
contains-append c [] t = refl
contains-append c (d ∷ s) t = ground (arith, contains-append c s t)

any_append :
    (args others : List Text)
    → any (contains 10) (args ++ others) ≡ (any (contains 10) args || any (contains 10) others)
any_append [] others = refl
any_append (arg ∷ args) others = ground (arith, any_append args others)

lines-push_all :
    (args : List Text) (c : ℕ) (payload : Text)
    → any (contains 10) args ≡ false
    → all_lines (push_all (c ∷ payload) args) ≡ all_lines (c ∷ payload) ++ args
unfolding push_all
lines-push_all [] c payload h =
    ap (λ ls. (lines (c ∷ payload)).0 ∷ ls) (sym (append-nil (lines (c ∷ payload)).1))
lines-push_all (arg ∷ args) c payload h = ground (
  arith,
  lines-push_all args c (payload ++ 10 ∷ arg),
  lines-append (c ∷ payload) arg,
  append_assoc (all_lines (c ∷ payload)) (arg ∷ []) args,
)

-- What is checked is one line.
checked-one_line :
    (label value : Text) (u : Unit {0})
    → validate_rdp_value label value ≡ ok u
    → contains 10 value ≡ false
unfolding validate_rdp_value
checked-one_line label [] u h = refl
checked-one_line label (c ∷ value) u h = ground (arith, checked-one_line label value u)

digits-one_line : (fuel n : ℕ) → contains 10 (digits fuel n) ≡ false
unfolding digits
digits-one_line zero n = refl
digits-one_line (suc fuel) n = ground (
  arith,
  digits-one_line fuel (n / 10),
  contains-append 10 (digits fuel (n / 10)) ((48 + n % 10) ∷ []),
)

both-one_line :
    (s t : Text) → contains 10 s ≡ false → contains 10 t ≡ false → contains 10 (s ++ t) ≡ false
both-one_line s t h k = ground (arith, contains-append 10 s t, h, k)

port-one_line :
    (destination port : Text)
    → contains 10 destination ≡ false
    → contains 10 port ≡ false
    → contains 10 (with_port destination port) ≡ false
port-one_line destination port h k =
    elim (Bool-cases (contains b':' destination && not (starts_with (codes "[") destination))) [
      | inl e ↦ rw e (
          both-one_line (codes "[" ++ destination ++ codes "]:") port
            (both-one_line (codes "[" ++ destination) (codes "]:")
              (both-one_line (codes "[") destination refl h) refl)
            k)
      | inr e ↦ rw e (
          both-one_line (destination ++ codes ":") port
            (both-one_line destination (codes ":") h refl) k)
    ]

address-one_line :
    (destination : Text) (port : Option ℕ)
    → contains 10 destination ≡ false
    → contains 10 (address_of destination port) ≡ false
unfolding address_of
address-one_line destination none h = h
address-one_line destination (some port) h =
    port-one_line destination (decimal port) h (digits-one_line 5 port)

extra_args-one_line :
    (args extra : List Text)
    → validated_rdp_extra_args args ≡ ok extra
    → any (contains 10) extra ≡ false
unfolding validated_rdp_extra_args
extra_args-one_line [] extra h = ground arith
extra_args-one_line (arg ∷ args) extra h =
    elim (Result-cases (validate_rdp_value (codes "extra argument") arg)) [
      | inr (e, m) ↦ absurd (ground (arith, m))
      | inl (u, m) ↦ elim (Result-cases (validated_rdp_extra_args args)) [
        | inr (e, n) ↦ absurd (ground (arith, m, n))
        | inl (others, n) ↦ ground (
          arith,
          m,
          n,
          checked-one_line (codes "extra argument") arg u m,
          extra_args-one_line args others n,
        )
      ]
    ]

domain-one_line :
    (o : Option Text) (domain : List Text)
    → domain_args o ≡ ok domain
    → any (contains 10) domain ≡ false
unfolding domain_args
domain-one_line none domain h = ground arith
domain-one_line (some text) domain h =
    elim (Result-cases (validate_rdp_value (codes "domain") text)) [
      | inr (e, m) ↦ absurd (ground (arith, m))
      | inl (u, m) ↦ ground (arith, m, checked-one_line (codes "domain") text u m)
    ]

server-one_line :
    (host : InventoryHost) (server : Text)
    → rdp_server_address host ≡ ok server
    → contains 10 server ≡ false
unfolding rdp_server_address
server-one_line host server h =
    elim (Result-cases (validate_rdp_value (codes "host") (trim host.host))) [
      | inr (e, m) ↦ absurd (ground (arith, m))
      | inl (u, m) ↦ ground (
        arith,
        m,
        address-one_line (trim host.host) host.port
            (checked-one_line (codes "host") (trim host.host) u m),
      )
    ]

user_args-one_line :
    (host : InventoryHost) (user : Text) (args : List Text)
    → args_of_user host false user ≡ ok args
    → (any (contains 10) args ≡ false)
      × (c : ℕ) × (first : Text) × (rest : List Text) × (args ≡ (c ∷ first) ∷ rest)
unfolding args_of_user
user_args-one_line host user args h =
    elim (Result-cases (validate_rdp_value (codes "username") user)) [
      | inr (e, m) ↦ absurd (ground (arith, m))
      | inl (u, m) ↦ elim (Result-cases (rdp_server_address host)) [
        | inr (e, n) ↦ absurd (ground (arith, m, n))
        | inl (server, n) ↦ elim (Result-cases (validated_rdp_extra_args host.rdp.args)) [
          | inr (e, k) ↦ absurd (ground (arith, m, n, k))
          | inl (extra, k) ↦ elim (Result-cases (domain_args (stated host.rdp.domain))) [
            | inr (e, d) ↦ absurd (ground (arith, m, n, k, d))
            | inl (domain, d) ↦
                let others = domain ++ (codes "/v:" ++ server) ∷ cert_args extra ++ extra in
                let is : (codes "/u:" ++ user) ∷ others ≡ args = ground (arith, h, m, n, k, d) in
                let clean : any (contains 10) others ≡ false = ground (
                  arith,
                  server-one_line host server n,
                  extra_args-one_line host.rdp.args extra k,
                  domain-one_line (stated host.rdp.domain) domain d,
                  any_append domain ((codes "/v:" ++ server) ∷ cert_args extra ++ extra),
                  any_append (cert_args extra) extra,
                ) in
                (
                  ground (arith, is, clean, checked-one_line (codes "username") user u m),
                  b'/',
                  b'u' ∷ b':' ∷ user,
                  others,
                  sym is,
                )
          ]
        ]
      ]
    ]

push_all-cons :
    (args : List Text) (c : ℕ) (payload : Text) → (t : Text) × (push_all (c ∷ payload) args ≡ c ∷ t)
unfolding push_all
push_all-cons [] c payload = (payload, refl)
push_all-cons (arg ∷ args) c payload = push_all-cons args c (payload ++ 10 ∷ arg)

lines-pushed :
    (c : ℕ) (first : Text) (rest : List Text) (password : Text)
    → any (contains 10) ((c ∷ first) ∷ rest) ≡ false
    → contains 10 password ≡ false
    → all_lines (push_rdp_stdin_arg (push_all [] ((c ∷ first) ∷ rest)) (codes "/p:") ++ password)
      ≡ ((c ∷ first) ∷ rest) ++ (codes "/p:" ++ password) ∷ []
unfolding push_all
lines-pushed c first rest password h k =
    let (t, is) = push_all-cons rest c first in
    let text : push_rdp_stdin_arg (push_all (c ∷ first) rest) (codes "/p:") ++ password
        ≡ (c ∷ t) ++ 10 ∷ (codes "/p:" ++ password) =
      rw is (append_assoc (c ∷ t) (10 ∷ codes "/p:") password) in
    ground (
      arith,
      h,
      text,
      is,
      lines-append (c ∷ t) (codes "/p:" ++ password) k,
      lines-push_all rest c first (ground (arith, h)),
      lines-one (c ∷ first) (ground (arith, h)),
    )

-- What is handed to the client is what was meant: the lines of the payload are the arguments, and
-- behind them the password, whatever characters the values have.
pub lines-payload :
    (host : InventoryHost) (password payload : Text)
    → build_rdp_stdin_payload host password ≡ ok payload
    → (args : List Text) × (build_rdp_args host false ≡ ok args)
      × (all_lines payload ≡ args ++ (codes "/p:" ++ password) ∷ [])
unfolding build_rdp_stdin_payload build_rdp_args push_all
lines-payload host password payload h =
    elim (Result-cases (validate_rdp_password_for_startup password)) [
      | inr (e, m) ↦ absurd (ground (arith, m))
      | inl (u, m) ↦ elim (Option-cases (stated host.user)) [
        | inl n ↦ absurd (ground (arith, m, n))
        | inr (user, n) ↦ elim (Result-cases (args_of_user host false user)) [
          | inr (e, k) ↦ absurd (ground (arith, m, n, k))
          | inl (args, k) ↦
              let (clean, c, first, rest, is) = user_args-one_line host user args k in
              let payload_is : push_rdp_stdin_arg (push_all [] args) (codes "/p:") ++ password
                  ≡ payload =
                ground (arith, h, m, n, k) in
              (
                args,
                ground (arith, n, k),
                subst (λ t. all_lines t ≡ args ++ (codes "/p:" ++ password) ∷ []) payload_is
                    (rw is (
                      lines-pushed c first rest password (ground (arith, clean, is))
                        (checked-one_line (codes "password") password u (ground (arith, m))))),
              )
        ]
      ]
    ]
