-- ===== src/Lib.antt =====
-- color-ssh (package cossh): a verification library for its core logic.
--
-- The program wraps the SSH client. It keeps passwords in an encrypted vault on disk; an agent
-- process holds the vault's key for the time of a session and hands passwords to the askpass helper
-- of an SSH process against single-use tokens. Names come in from the command line, which the
-- validators of src/args bound to a safe alphabet. The hosts to connect to stand in an inventory of
-- YAML files, which include each other and which the program edits. The rest modelled here is the
-- host editor, the text editing, the tab bar and the key and mouse encoding of its terminal interface.
--
-- * Base and the files under Base/: text as a list of code points, lists over the native numbers,
--   results, and the joining of paths.
-- * Args/Validation (src/args/validation.rs) and Args/Ssh (src/args/ssh.rs): the validators, and
--   the scan of SSH arguments for the destination. Args/Ssh/Destination describes what it finds by
--   an independent grammar of arguments.
-- * Vault/Types, Vault/Disk, Vault/Keys, Vault/Reading, Vault/Writing (src/auth/vault.rs): the
--   stored records, the files of a vault as an association list from paths to bytes, the wrapping
--   of the data key by a password, and the operations on entries. An operation that writes is a
--   function from the files to its result and the files behind it, also where it fails. Argon2,
--   XChaCha20-Poly1305, base64, UTF-8 and JSON are the record `Crates`; what the code relies on in
--   them is the record `IsSound`: that decryption inverts encryption, that a cipher text is not
--   empty, and that each encoding is decoded to what it encodes. `Env` holds what the system
--   answers: random bytes, the time, and the outcome of each write; `Fills` says that random bytes
--   come in the length that was asked for. Vault/EntryPaths, Vault/Secrets and Vault/Passwords
--   prove the theorems.
-- * Agent/Types (src/auth/ipc.rs), Agent/Runtime (src/auth/agent/runtime.rs), Agent/Server/Handler
--   and Agent/Server/Loop (src/auth/agent/server.rs): the messages, the session and the askpass
--   leases, `handle_request`, and one round of `run_server` with its runs. A method takes the
--   readings of the clock that it makes as arguments, in nanoseconds; two readings of one method
--   that follow each other are one. Agent/Runtime/Session, Agent/Runtime/Leases, Agent/Server/Keeps,
--   Agent/Server/Release, Agent/Server/Provenance, Agent/Server/Trace and Agent/Server/Sessions
--   prove the theorems; Trace describes the runs of an agent as an inductive family.
-- * Agent/Client (src/auth/agent/client.rs, src/auth/agent/error.rs): the requests of a client and
--   what it makes of the answers; the socket and the start of the agent are the record `Link`.
-- * Config (src/config/schema.rs): settings with their defaults and ranges.
-- * TextEdit and TextEdit/Spans (src/tui/text_edit.rs): the one-line editor of the forms. Strings are
--   lists of code points that are cut at byte positions of UTF-8, and a cut inside a character is the
--   result `none`. TextEdit/Cuts and TextEdit/Laws prove the theorems.
-- * TabBar (src/tui/features/terminal_tabs/scroll.rs): the scroll offsets of the tab bar, over the
--   list of the tabs' widths. TabBar/Starts and TabBar/Laws prove the theorems.
-- * Protocol (src/terminal/protocol.rs): the bytes of keys, mouse events and pasted text. Protocol/Keys
--   and Protocol/Mouse prove the theorems; Protocol/Mouse has a reader of mouse reports.
-- * Inventory/Value and Inventory/Model (src/inventory/parse.rs, src/inventory/model.rs): a YAML value,
--   the keys of a host, and the data of hosts. A mapping is its entries in their order.
-- * Inventory/Parse with Parse/HostFields and Parse/Documents (src/inventory/parse.rs): the reading of
--   hosts, folders and includes from a value. A message of an error is without the value that it
--   quotes. Parse/Documents/Laws proves the theorems.
-- * Inventory/Edit with Edit/Hosts and Edit/Folders (src/inventory/edit.rs): the changes of a document's
--   nodes; a function that returns a reference into the nodes takes what is done there as an argument.
--   Edit/Files puts a file around them: the files are a function from paths to texts, `Yaml` is the
--   YAML library and `FileSystem` what the system answers to one operation. `Mapping::remove` is a
--   field of `Yaml`, and a parameter elsewhere, for it may move the entries that stay. Edit/Applied,
--   Edit/Hosts/Laws, Edit/Hosts/Found, Edit/Hosts/Updates, Edit/Folders/Tallies, Edit/Folders/Laws,
--   Edit/Folders/Relocation, Edit/Files/Laws and Edit/Files/Counts prove the theorems, which count the
--   host entries that pass a test, for any test.
-- * Inventory/Patterns (src/inventory/include.rs, src/inventory/path.rs), Inventory/Normalize
--   (src/inventory/normalize.rs, src/inventory/error.rs), Inventory/Tree/Folders and Inventory/Tree/Loading
--   (src/inventory/tree.rs): the files that an include names, and the tree of folders that the files
--   are loaded into. Paths and directories are the record `Paths`; the parsed documents are a
--   parameter, which Parse/Documents gives. Loading/Steps, Loading/Bounded, Loading/Unique, Loading/Places and Loading/Built prove the theorems.
-- * Rdp/Arguments and Rdp/Launch (src/process/rdp_builder.rs, src/process/command_spec.rs, and
--   `resolve_host_by_destination` of src/process/ssh_builder.rs): the arguments of an RDP client, the
--   payload on its standard input, and the choice of a password. The vault's answer is a parameter.
--   Rdp/Payload and Rdp/Laws prove the theorems; Rdp/Payload has a reader of lines.
-- * Ssh/Flags, Ssh/Inspection and Ssh/Synthesis (src/process/ssh_builder.rs): what the caller's arguments of ssh say,
--   and the arguments completed with the settings of the inventory's host. The arms of the inspection
--   that differ only in their flag, field and key are rows of a table. Inspection/Kept,
--   Inspection/Agreement, Inspection/Walk, Inspection/Scans, Synthesis/Placed, Synthesis/Target,
--   Synthesis/Overrides, Synthesis/Overriding and Synthesis/Caller prove the theorems.
-- * Ssh/Access (src/process/vault.rs) and Ssh/Command (src/process/ssh_builder.rs, src/auth/transport.rs):
--   the way of a launch to an entry of the vault, with the prompts for its password, and the command
--   with its environment. The agent's client, the prompt and the terminal are the record `VaultClient`
--   over a state that every request may change; Access/Served fills it with the agent's handlers, without
--   other clients between the requests. Access/Attempts, Access/Passwords, Access/Served,
--   Command/Completed and Command/Launches prove the theorems.
-- * HostEditor (src/tui/state/host_editor.rs, src/tui/features/host_editor/mouse.rs and scroll.rs): the form for one host and the menu of the host tree.
--   HostEditor/Menu is the menu; HostEditor/Fields the fields, sections and the state of the form;
--   HostEditor/Selecting what it shows and the steps of its selection; HostEditor/Choices the profiles
--   and vault entries it goes through; HostEditor/Typing the text of its fields; HostEditor/Opening the
--   forms that are opened; HostEditor/Parsing the reading of its texts;
--   HostEditor/Submission the host that is handed on;
--   HostEditor/Layout what stands where in the form and HostEditor/Mouse the events of the mouse. A set of sections is a
--   test, a map of options the list of its entries in the order of the document. Selecting/Shown,
--   Selecting/Steps, Choices/Profiles, Typing/Scrolled, Submission/Handed,
--   Mouse/Points, Mouse/Kept and Runs prove the theorems;
--   Runs describes the runs of a form as an inductive family.
-- * Args/Examples, Ssh/Examples, HostEditor/Examples, Vault/Examples, Agent/Examples, TextEdit/Examples, TabBar/Examples,
--   Protocol/Examples, Rdp/Examples and the files named Examples under Inventory/ run the theorems at concrete
--   inputs, the vault's and the agent's at a toy instance of the parameters.
--
-- Most loops of the modelled code are recursion on a list or on the nodes of a document. The decimal
-- digits of a number run on fuel: 5, 10 and 39 for numbers of 16, 32 and 128 bits, which have no more
-- digits. The loading of inventory files runs on fuel too, for includes may go round: one more than there are
-- files that can be read is enough, as no file is loaded twice. A run of the agent is given by
-- the list of what its listener meets.
--
-- Not modelled: sockets and the test of a peer's process, locks and permissions of files, memory
-- wiping, prompts, logging, and the parts of the program that no file above names. The readings
-- of the wall clock are past 1970.
mod Base
pub mod Args
pub mod Vault
pub mod Agent
pub mod TextEdit
pub mod TabBar
pub mod Protocol
pub mod Config
pub mod Inventory
pub mod Rdp
pub mod Ssh
pub mod HostEditor
