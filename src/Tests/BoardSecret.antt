-- ===== src/Tests/BoardSecret.antt =====
-- A host on which bob opens a letter of alice's.
use mcp_symposium.Prelude.{◌*◌, String, ◌≡◌, refl, false, none, some, [], ◌∷◌, trim_space}
use mcp_symposium.Encoding.{pos, negsuc, array, hex}
use mcp_symposium.Envelope.Format.{KeyBundle, second}
use mcp_symposium.Envelope.Sealing.{verify_bundle, open_signed, open_envelope}
use mcp_symposium.BoardSecret.Host.{
  AgentKeys, FileOf, absent, content, Host, Process, CliError, returned, failed, done, stop,
  require, checked, ◌>>=◌, ◌>>◌, outside_jail,
}
use mcp_symposium.BoardSecret.Flags.{flag_value, has_flag, last_positional, atoi}
use mcp_symposium.BoardSecret.Seen.{attempt, add_text, write_line, check_seen_list, mark_seen}
use mcp_symposium.BoardSecret.Pins.{
  pins_of, read_pins_file, save_pins, compare_pin, check_bundle_pin, write_file, decoded, load_keys,
  load_verified_bundle,
}
use mcp_symposium.BoardSecret.Jail.{confined, confine_to_secrets_dir}
use mcp_symposium.BoardSecret.Commands.{
  or_stop, put_secret, write_secret, accept, run_open, run_commands, sealing, opening,
}
use mcp_symposium.BoardSecret.Replay.{run_open-replayed}
use mcp_symposium.BoardSecret.Rollback.{load_verified_bundle_rollback}
use mcp_symposium.BoardSecret.Confined.{IsConfined, confine_to_secrets_dir-IsConfined}
use mcp_symposium.Tests.Envelope.{toy, fill, alice_bundle, letter, sealed_at}

abbrev bob_keys : AgentKeys
bob_keys = record {
  actor = "bob";
  actor_id = "b";
  enc_pub = fill 4 32;
  enc_priv = fill 4 32;
  sign_pub = fill 6 32;
  sign_priv = fill 6 64;
  operator_pub = fill 9 32;
  created_at = pos 0;
}

abbrev fresh_host : Host
fresh_host = record { keys = content bob_keys; pins = absent; seen = absent; secrets = [] }

abbrev bundle_file : String → FileOf KeyBundle
bundle_file path = content alice_bundle

abbrev opens : Process
opens = record {
  args = "--from-bundle" ∷ "alice.json" ∷ "--out=api/key" ∷ [];
  now = sealed_at;
  draw = 0;
  new_id = "s9";
  plaintext = [];
  envelope = some letter;
  bundle_at = bundle_file;
  home = "home" ∷ "bob" ∷ [];
  is_symlink = λ path. false;
  exists = λ path. false;
  refuses = λ op. false;
  torn = λ s. "";
}

flags :
    (flag_value opens.args "--out" "" ≡ "api/key")
    × (flag_value ("--ttl" ∷ []) "--ttl" "900" ≡ "900")
    × (has_flag opens.args "--force" ≡ false)
    × (last_positional ("--key" ∷ "-" ∷ "bundle.json" ∷ []) ≡ "bundle.json")
    × (atoi "-12" ≡ some (negsuc 11))
    × (atoi "9223372036854775808" ≡ none)
unfolding flag_value has_flag last_positional atoi
flags = (refl, refl, refl, refl, refl, refl)

opened : (run_open toy opens fresh_host).0 ≡ returned tt
unfolding run_open accept write_secret put_secret load_keys load_verified_bundle check_bundle_pin
    save_pins compare_pin read_pins_file pins_of write_file decoded attempt add_text write_line
    check_seen_list mark_seen or_stop confine_to_secrets_dir confined done stop require checked
    ◌>>=◌ ◌>>◌ flag_value has_flag verify_bundle open_signed open_envelope array hex trim_space
opened = refl

-- bob's host after the letter
abbrev opened_host : Host
opened_host = (run_open toy opens fresh_host).1

abbrev again : Process
again = record opens { args = "--from-bundle=alice.json" ∷ "--out=api/other" ∷ [] }

run_open-replayed_example :
    (err : CliError) × ((run_open toy again
        (run_commands toy (sealing opens ∷ opening opens ∷ []) opened_host)).0
      ≡ failed err)
unfolding trim_space
run_open-replayed_example =
    run_open-replayed toy opens again letter letter (sealing opens ∷ opening opens ∷ []) fresh_host
      (refl, refl, refl) refl (λ s. refl) ((λ s. refl), ((λ s. refl), tt)) refl refl refl refl
      opened

-- alice's bundle before she had new keys
abbrev old_bundle : KeyBundle
old_bundle = record alice_bundle { created_at = 63871100000 * second }

abbrev served : Process
served = record opens { bundle_at = λ path. content old_bundle }

accepted :
    (load_verified_bundle opens toy "alice.json" bob_keys fresh_host).0 ≡ returned alice_bundle
unfolding load_verified_bundle check_bundle_pin save_pins compare_pin read_pins_file pins_of
    write_file decoded attempt done stop require checked ◌>>=◌ ◌>>◌ verify_bundle
accepted = refl

load_verified_bundle_rollback_example :
    (err : CliError) × ((load_verified_bundle served toy "alice.json" bob_keys (
        run_commands toy
          (opening opens ∷ [])
          (load_verified_bundle opens toy "alice.json" bob_keys fresh_host).1)).0
      ≡ failed err)
load_verified_bundle_rollback_example =
    load_verified_bundle_rollback toy opens served "alice.json" "alice.json" bob_keys bob_keys
      alice_bundle old_bundle (opening opens ∷ []) fresh_host accepted refl refl refl

confined_key :
    (confine_to_secrets_dir opens "api/../key" fresh_host).0
    ≡ returned ("home" ∷ "bob" ∷ ".secrets" ∷ "key" ∷ [])
unfolding confine_to_secrets_dir confined attempt done stop require ◌>>◌
confined_key = refl

outside : (confine_to_secrets_dir opens "../../etc/passwd" fresh_host).0 ≡ failed outside_jail
unfolding confine_to_secrets_dir confined attempt done stop require ◌>>◌
outside = refl

confine_to_secrets_dir-IsConfined_example :
    IsConfined opens ("home" ∷ "bob" ∷ ".secrets" ∷ "key" ∷ [])
confine_to_secrets_dir-IsConfined_example =
    confine_to_secrets_dir-IsConfined opens "api/../key" fresh_host
      ("home" ∷ "bob" ∷ ".secrets" ∷ "key" ∷ []) ((refl, refl, refl), ((refl, refl, refl), tt))
      confined_key

-- A torn line swallows the next identifier: it is accepted twice.
abbrev torn_host : Host
torn_host = record fresh_host { seen = content "s0\nhalf" }

twice : (run_open toy opens (run_open toy opens torn_host).1).0 ≡ returned tt
unfolding run_open accept write_secret put_secret load_keys load_verified_bundle check_bundle_pin
    save_pins compare_pin read_pins_file pins_of write_file decoded attempt add_text write_line
    check_seen_list mark_seen or_stop confine_to_secrets_dir confined done stop require checked
    ◌>>=◌ ◌>>◌ flag_value has_flag verify_bundle open_signed open_envelope array hex trim_space
twice = refl
