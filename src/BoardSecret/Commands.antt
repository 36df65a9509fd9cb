-- ===== src/BoardSecret/Commands.antt =====
-- cmd/board-secret/main.go: runSeal and runOpen.
use mcp_symposium.Prelude.{
  String, not, ◌||◌, Option, none, some, List, [], ◌∷◌, length, take, nat_eq, ◌==◌, ◌/=◌,
}
use mcp_symposium.Encoding.{Bytes, mul64}
use mcp_symposium.Envelope.Format.{KeyBundle, Envelope, second}
use mcp_symposium.Envelope.Sealing.{Crypto, seal, open_envelope}
use mcp_symposium.BoardSecret.Host.{
  AgentKeys, Host, read_stdin, make_dest_dir, create_dest, chmod_dest, write_dest, sync_dest,
  close_dest, rename_dest, Process, CliError, usage, dest_exists, bad_stdin, wrong_sender, old_keys,
  not_written, wrong_actor, no_plaintext, bad_seconds, refused, Cmd, done, stop, ◌>>=◌, ◌>>◌,
  checked, require,
}
use mcp_symposium.BoardSecret.Flags.{flag_value, has_flag, atoi}
use mcp_symposium.BoardSecret.Seen.{attempt, check_seen_list, mark_seen}
use mcp_symposium.BoardSecret.Pins.{load_keys, load_verified_bundle}
use mcp_symposium.BoardSecret.Jail.{confine_to_secrets_dir}

unfoldable pub or_stop : {A : Type 0} → CliError → Option A → Cmd A
or_stop e none = stop e
or_stop e (some a) = done a

-- the file that takes the place of what was there
unfoldable pub put_secret : List String → Bytes → Cmd Unit
put_secret dest plaintext h = done tt (record h { secrets = (dest, plaintext) ∷ h.secrets })

module _ (crypto : Crypto) (p : Process) where
  -- runSeal: the envelope that is printed
  unfoldable pub run_seal : Cmd Envelope
  run_seal = do
    k ← load_keys p
    let path = flag_value p.args "--to-bundle" ""
    let to = flag_value p.args "--to" ""
    let label = flag_value p.args "--label" ""
    let class = flag_value p.args "--class" "routine"
    require (not (path == "" || to == "" || label == "")) usage
    b ← load_verified_bundle p crypto path k
    require (b.actor == to) wrong_actor
    require (k.actor_id /= "") old_keys
    attempt p read_stdin bad_stdin
    let plaintext = take 49152 p.plaintext
    require (not (nat_eq (length plaintext) 0)) no_plaintext
    seconds ← or_stop bad_seconds (atoi (flag_value p.args "--ttl" "900"))
    checked refused (
        seal crypto p.now p.draw plaintext p.new_id k.actor k.actor_id (some b) label class
          (mul64 seconds second) k.sign_priv)

  -- the plaintext goes to another file, which takes the place of the destination
  unfoldable pub write_secret : List String → Bytes → Cmd Unit
  write_secret dest plaintext =
      attempt p make_dest_dir not_written
      >> attempt p create_dest not_written
      >> attempt p chmod_dest not_written
      >> attempt p write_dest not_written
      >> attempt p sync_dest not_written
      >> attempt p close_dest not_written
      >> attempt p rename_dest not_written
      >> put_secret dest plaintext

  -- runOpen from the check of the seen list on: the steps that end with the file
  unfoldable pub accept : AgentKeys → KeyBundle → List String → Envelope → Cmd Unit
  unfolding write_secret
  accept k b dest e = do
    check_seen_list p e.header.secret_id
    require (k.actor_id /= "") old_keys
    plaintext ← checked refused (open_envelope crypto e k.actor_id b k.enc_pub k.enc_priv p.now)
    mark_seen p e.header.secret_id
    write_secret dest plaintext

  -- runOpen
  unfoldable pub run_open : Cmd Unit
  unfolding accept
  run_open = do
    k ← load_keys p
    let path = flag_value p.args "--from-bundle" ""
    let out = flag_value p.args "--out" ""
    require (not (path == "" || out == "")) usage
    b ← load_verified_bundle p crypto path k
    dest ← confine_to_secrets_dir p out
    require (has_flag p.args "--force" || not (p.exists dest)) dest_exists
    attempt p read_stdin bad_stdin
    e ← or_stop bad_stdin p.envelope
    require (b.actor == e.header.sender) wrong_sender
    accept k b dest e

-- A command that a process runs.
pub data Command : Type 0 where
  sealing opening : Process → Command

abbrev pub process_of : Command → Process
process_of (sealing p) = p
process_of (opening p) = p

-- what one command, and what one after the other, leave on the host
unfoldable pub run_command : Crypto → Command → Host → Host
run_command crypto (sealing p) h = (run_seal crypto p h).1
run_command crypto (opening p) h = (run_open crypto p h).1

unfoldable pub run_commands : Crypto → List Command → Host → Host
run_commands crypto [] h = h
run_commands crypto (c ∷ cs) h = run_commands crypto cs (run_command crypto c h)
