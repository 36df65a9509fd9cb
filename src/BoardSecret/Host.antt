-- ===== src/BoardSecret/Host.antt =====
-- cmd/board-secret/main.go: what the command keeps on a host, what one process of it is given, and
-- the sequence of its steps with the error that ends it.
use mcp_symposium.Prelude.{ℕ, String, Bool, Option, List, if◌then◌else◌}
use mcp_symposium.Encoding.{Bytes, ℤ}
use mcp_symposium.Envelope.Format.{KeyBundle, Envelope}
use mcp_symposium.Envelope.Sealing.{Fault, Checked, passed, fault}

-- agentKeys
pub record AgentKeys : Type 0 where
  pub actor : String
  pub actor_id : String
  pub enc_pub : Bytes
  pub enc_priv : Bytes
  pub sign_pub : Bytes
  pub sign_priv : Bytes
  pub operator_pub : Bytes
  pub created_at : ℤ

-- A file: what it holds once it is decoded, or that it cannot be decoded.
pub data FileOf (A : Type 0) : Type 0 where
  absent corrupt : FileOf A
  content : A → FileOf A

-- An entry of the map of pins: an actor and the Unix time of the newest bundle.
pub record Pin : Type 0 where
  pub actor : String
  pub time : ℤ

-- The files of ~/.board-secret and ~/.secrets. A path is its components from the root.
pub record Host : Type 0 where
  pub keys : FileOf AgentKeys
  pub pins : FileOf (List Pin)
  pub seen : FileOf String
  pub secrets : List (List String × Bytes)

-- The operations of the file system that can fail.
pub data Op : Type 0 where
  read_keys read_bundle read_pins make_keys_dir create_pins write_pins sync_pins close_pins : Op
  rename_pins read_seen open_seen write_seen sync_seen close_seen read_stdin find_home : Op
  make_dest_dir create_dest chmod_dest write_dest sync_dest close_dest rename_dest : Op
  write_keys write_bundle : Op

-- What one process sees of the world outside those files, and which operations fail in it; a
-- failing write may leave a part of its text behind.
pub record Process : Type 0 where
  pub args : List String
  pub now : ℕ
  pub draw : ℕ
  pub new_id : String
  pub plaintext : Bytes
  pub envelope : Option Envelope
  pub bundle_at : String → FileOf KeyBundle
  pub home : List String
  pub is_symlink : List String → Bool
  pub exists : List String → Bool
  pub refuses : Op → Bool
  pub torn : String → String

pub data CliError : Type 0 where
  usage no_keys bad_keys no_operator_pub no_bundle bad_bundle pins_corrupt pins_unreadable :
      CliError
  rollback pin_not_kept no_home outside_jail symlink dest_exists bad_stdin : CliError
  wrong_sender replayed old_keys not_marked not_written wrong_actor no_plaintext bad_seconds :
      CliError
  not_trusted refused : Fault → CliError

pub data Done (A : Type 0) : Type 0 where
  returned : A → Done A
  failed : CliError → Done A

-- A part of a process.
abbrev pub Cmd : Type 0 → Type 0
Cmd A = Host → Done A × Host

unfoldable pub done : {A : Type 0} → A → Cmd A
done a h = (returned a, h)

unfoldable pub stop : {A : Type 0} → CliError → Cmd A
stop e h = (failed e, h)

abbrev pub followed : {A B : Type 0} → (A → Cmd B) → Done A × Host → Done B × Host
followed f (returned a, h) = f a h
followed f (failed e, h) = (failed e, h)

infixl 20 ◌>>=◌ ◌>>◌
unfoldable pub ◌>>=◌ : {A B : Type 0} → Cmd A → (A → Cmd B) → Cmd B
(m >>= f) h = followed f (m h)

unfoldable pub ◌>>◌ : {A B : Type 0} → Cmd A → Cmd B → Cmd B
(m >> n) h = followed (λ _. n) (m h)

-- the result of a check of the package, with its error as it is reported
unfoldable pub checked : {A : Type 0} → (Fault → CliError) → Checked A → Cmd A
checked report (passed a) = done a
checked report (fault f) = stop (report f)

unfoldable pub require : Bool → CliError → Cmd Unit
require ok e = if ok then done tt else stop e
