-- ===== src/BoardSecret/Frames.antt =====
-- An invariant of the host that the writes keep is kept by the commands, however they end.
use mcp_symposium.Prelude.{◌≡◌, String, not, ◌||◌, Option, none, some, List, [], ◌∷◌, All}
use mcp_symposium.Encoding.{Bytes}
use mcp_symposium.Envelope.Format.{KeyBundle, Envelope}
use mcp_symposium.Envelope.Sealing.{Crypto}
use mcp_symposium.BoardSecret.Host.{
  AgentKeys, FileOf, absent, corrupt, content, Pin, Host, bad_stdin, read_pins, pins_unreadable,
  Done, returned, failed, read_keys, read_seen, Process, replayed, no_keys, bad_keys, Cmd, ◌>>◌,
  require,
}
use mcp_symposium.BoardSecret.Seen.{attempt, has_line, check_seen_list, mark_seen}
use mcp_symposium.BoardSecret.Pins.{
  decoded, pins_of, read_pins_file, compare_pin, save_pins, write_file, load_keys, check_bundle_pin,
  load_verified_bundle,
}
use mcp_symposium.BoardSecret.Jail.{confined, confine_to_secrets_dir}
use mcp_symposium.BoardSecret.Commands.{
  put_secret, run_seal, write_secret, accept, run_open, Command, sealing, opening, process_of,
  run_command, run_commands,
}
use mcp_symposium.BoardSecret.Triples.{
  Ends, Keeps, Post, Post-after, Post-then, Post-or_stop, keeps_steps,
}

module _ {I : Host → Type 0} (p : Process) where
  pub Keeps-load_keys : Keeps I (load_keys p)
  unfolding load_keys
  Keeps-load_keys = record {
    at = λ h i.
        let k : Keeps I (attempt p read_keys no_keys >> decoded p no_keys bad_keys h.keys) =
          search keeps_steps in
        k.at h i;
  }

  pub Keeps-check_seen_list : (id : String) → Keeps I (check_seen_list p id)
  unfolding check_seen_list
  Keeps-check_seen_list id = record {
    at = λ h i.
        let k : Keeps I (require (p.refuses read_seen || not (has_line id h.seen)) replayed) =
          search keeps_steps in
        k.at h i;
  }

  Keeps-confined : (dest : List String) (o : Option (List String)) → Keeps I (confined p dest o)
  unfolding confined
  Keeps-confined dest none = search keeps_steps
  Keeps-confined dest (some rest) = search keeps_steps

  pub Keeps-confine : (path : String) → Keeps I (confine_to_secrets_dir p path)
  unfolding confine_to_secrets_dir
  Keeps-confine path = search (keeps_steps, Keeps-confined)

  pub Keeps-load_verified_bundle :
      ((b : KeyBundle) → Keeps I (check_bundle_pin p b))
      → (crypto : Crypto) (path : String) (k : AgentKeys)
      → Keeps I (load_verified_bundle p crypto path k)
  unfolding load_verified_bundle
  Keeps-load_verified_bundle pins crypto path k = search keeps_steps depth 20

  module _ (pins : (b : KeyBundle) → Keeps I (check_bundle_pin p b)) (crypto : Crypto) where
    -- Sealing keeps what the check of the pins keeps.
    pub Keeps-run_seal : Keeps I (run_seal crypto p)
    unfolding run_seal
    Keeps-run_seal = search (keeps_steps, Keeps-load_keys, Keeps-load_verified_bundle pins) depth 40

    module _ (puts : (dest : List String) (s : Bytes) → Keeps I (put_secret dest s)) where
      pub Keeps-write_secret :
          (dest : List String) (s : Bytes) → Keeps I (write_secret crypto p dest s)
      unfolding write_secret
      Keeps-write_secret dest s = search (keeps_steps, puts) depth 30

      module _ (marks : (id : String) → Keeps I (mark_seen p id)) where
        pub Keeps-accept :
            (k : AgentKeys) (b : KeyBundle) (dest : List String) (e : Envelope)
            → Keeps I (accept crypto p k b dest e)
        unfolding accept
        Keeps-accept k b dest e =
            search (keeps_steps, Keeps-check_seen_list, marks, Keeps-write_secret) depth 30

        -- Opening keeps what the check of the pins, the record of the identifier and the writing
        -- of the file keep.
        pub Keeps-run_open : Keeps I (run_open crypto p)
        unfolding run_open
        Keeps-run_open =
            search
              (
                keeps_steps,
                Keeps-load_keys,
                Keeps-load_verified_bundle pins,
                Keeps-confine,
                Keeps-accept,
              )
              depth 40

module _ {I : Host → Type 0} (p : Process) where
  pins_of-Keeps : (f : FileOf (List Pin)) → Keeps I (pins_of p f)
  unfolding pins_of
  pins_of-Keeps absent = search keeps_steps
  pins_of-Keeps corrupt = search keeps_steps
  pins_of-Keeps (content pins) = search keeps_steps

  Keeps-read_pins_file : Keeps I (read_pins_file p)
  unfolding read_pins_file
  Keeps-read_pins_file = record {
    at = λ h i.
        let k : Keeps I (attempt p read_pins pins_unreadable >> pins_of p h.pins) =
          search (keeps_steps, pins_of-Keeps) in
        k.at h i;
  }

  -- What the writing of the pins keeps, the check of the pins keeps.
  pub Keeps-check_bundle_pin :
      ((pins : List Pin) → Keeps I (write_file pins))
      → (b : KeyBundle) → Keeps I (check_bundle_pin p b)
  unfolding check_bundle_pin compare_pin save_pins
  Keeps-check_bundle_pin writes b = search (keeps_steps, Keeps-read_pins_file, writes) depth 40

Ends-left : {A : Type 0} (I : Host → Type 0) (r : Done A × Host) → Ends (λ _. I) I r → I r.1
Ends-left I (returned a, h) x = x
Ends-left I (failed e, h) x = x

-- What the ends of a part keep, it leaves.
pub Keeps-left :
    {A : Type 0} {I : Host → Type 0} (m : Cmd A) → Keeps I m → (h : Host) → I h → I (m h).1
Keeps-left {A} {I} m k h i = Ends-left {A = A} I (m h) (k.at h i)

module _ {I : Host → Type 0} {Q : Unit → Host → Type 0} (p : Process) (crypto : Crypto) where
  -- Opening ends as the part of it from the check of the seen list on, whatever is loaded before.
  pub Post-run_open :
      ((b : KeyBundle) → Keeps I (check_bundle_pin p b))
      → (e : Envelope) → p.envelope ≡ some e
      → ((k : AgentKeys) (b : KeyBundle) (dest : List String)
          → Post I Q I (accept crypto p k b dest e))
      → Post I Q I (run_open crypto p)
  unfolding run_open
  Post-run_open pins e given k = Post-after (load_keys p) _ (Keeps-load_keys p) λ keys.
      Post-then _ _ (search keeps_steps) (
        Post-after (load_verified_bundle p crypto _ keys) _
          (Keeps-load_verified_bundle p pins crypto _ keys)
          λ b. Post-after (confine_to_secrets_dir p _) _ (Keeps-confine p _) λ dest.
            Post-then _ _ (search keeps_steps) (
              Post-then _ _ (search keeps_steps) (
                Post-or_stop bad_stdin p.envelope e _ given
                  (Post-then _ _ (search keeps_steps) (k keys b dest)))))

-- The writes of a process keep an invariant.
pub record KeepsWrites (I : Host → Type 0) (p : Process) : Type 0 where
  pub pins : (b : KeyBundle) → Keeps I (check_bundle_pin p b)
  pub puts : (dest : List String) (s : Bytes) → Keeps I (put_secret dest s)
  pub marks : (id : String) → Keeps I (mark_seen p id)

module _ {I : Host → Type 0} (crypto : Crypto) where
  run_command-left :
      (c : Command) → KeepsWrites I (process_of c) → (h : Host) → I h → I (run_command crypto c h)
  unfolding run_command
  run_command-left (sealing p) k h i =
      Keeps-left (run_seal crypto p) (Keeps-run_seal p k.pins crypto) h i
  run_command-left (opening p) k h i =
      Keeps-left (run_open crypto p) (Keeps-run_open p k.pins crypto k.puts k.marks) h i

  -- An invariant that the writes of each process keep holds after the commands.
  pub run_commands-left :
      (Ok : Process → Type 0)
      → ((p : Process) → Ok p → KeepsWrites I p)
      → (cs : List Command) → All (λ c. Ok (process_of c)) cs
      → (h : Host) → I h
      → I (run_commands crypto cs h)
  unfolding run_commands
  run_commands-left Ok k [] ok h i = i
  run_commands-left Ok k (c ∷ cs) ok h i =
      run_commands-left Ok k cs ok.1 (run_command crypto c h)
        (run_command-left c (k (process_of c) ok.0) h i)
