-- ===== src/Rdp/Examples.antt =====
-- A client for one host.
use color_ssh.Base.{Text, codes, ok, none, some, false, List, [], ◌∷◌, ◌++◌, ◌≡◌, refl}
use color_ssh.Inventory.Model.{InventoryHost, rdp}
use color_ssh.Rdp.Arguments.{build_rdp_args, build_rdp_stdin_payload}
use color_ssh.Rdp.Payload.{all_lines, lines-payload}

abbrev desk : InventoryHost
desk = record {
  name = codes "desk";
  description = none;
  protocol = rdp;
  host = codes "fe80::1";
  user = some (codes "ann");
  port = some 3389;
  profile = none;
  vault_pass = none;
  hidden = false;
  ssh = record {
    identity_files = [];
    identities_only = none;
    proxy_jump = none;
    proxy_command = none;
    forward_agent = none;
    local_forward = [];
    remote_forward = [];
    extra_options = [];
  };
  rdp = record { domain = none; args = [] };
  source_file = [];
  source_folder_path = [];
}

abbrev payload : Text
payload =
    codes "/u:ann"
    ++ 10 ∷ codes "/v:[fe80::1]:3389"
    ++ 10 ∷ codes "/cert:tofu"
    ++ 10 ∷ codes "/p:pw"

lines-payload_example :
    (args : List Text) × (build_rdp_args desk false ≡ ok args)
    × (all_lines payload ≡ args ++ (codes "/p:" ++ codes "pw") ∷ [])
unfolding build_rdp_stdin_payload build_rdp_args
lines-payload_example = lines-payload desk (codes "pw") payload refl
