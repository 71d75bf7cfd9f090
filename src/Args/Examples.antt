-- ===== src/Args/Examples.antt =====
-- The scan for the destination at an invocation with options and a command.
use color_ssh.Base.{codes, Text, List, [], ◌∷◌, ◌≡◌, ◌↔◌, some}
use color_ssh.Args.Ssh.{extract_destination_host}
use color_ssh.Args.Ssh.Destination.{Found, extract_destination_host_iff}

abbrev ssh_args : List Text
ssh_args = codes "-p" ∷ codes "2222" ∷ codes "-v" ∷ codes "admin@fw01" ∷ codes "uptime" ∷ []

extract_destination_host_iff_example :
    (extract_destination_host ssh_args ≡ some (codes "fw01")) ↔ Found ssh_args (codes "fw01")
extract_destination_host_iff_example = extract_destination_host_iff ssh_args (codes "fw01")
