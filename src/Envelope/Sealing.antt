-- ===== src/Envelope/Sealing.antt =====
-- internal/secrethandoff/envelope.go: sealing an envelope, and the checks before a bundle is trusted
-- and an envelope is opened. SHA-256, Ed25519 and the sealed box are parameters.
use Prim.Native.Nat.{◌/◌}
use mcp_symposium.Prelude.{
  ℕ, ◌+◌, ◌*◌, String, Bool, true, false, not, ◌&&◌, ◌||◌, Option, none, some, length, take, ltb,
  leb, nat_eq, ◌==◌, ◌/=◌, if◌then◌else◌,
}
use mcp_symposium.Encoding.{Bytes, ℤ, pos, negsuc, hex, array}
use mcp_symposium.Envelope.Format.{
  KeyBundle, EnvelopeHeader, Envelope, second, canonical_bundle_bytes, canonical_header_bytes,
}

-- The errors, and Ed25519's panic on a key of the wrong size.
pub data Fault : Type 0 where
  no_actor_id bad_enc_size bad_sign_size not_operator_signed : Fault
  bad_recipient no_ids bad_ttl bad_class no_randomness : Fault
  bad_version wrong_recipient expired bad_signature tampered not_decrypted : Fault
  panic : Fault

-- A result, or the first fault.
pub data Checked (A : Type 0) : Type 0 where
  passed : A → Checked A
  fault : Fault → Checked A

-- crypto/sha256, crypto/ed25519 and golang.org/x/crypto/nacl/box: a sealing draws on the source of
-- randomness, whose state is the first argument and which may fail.
pub record Crypto : Type 0 where
  pub sha256 : Bytes → Bytes
  pub sign : Bytes → Bytes → Bytes
  pub verify : Bytes → Bytes → Bytes → Bool
  pub seal_anonymous : ℕ → Bytes → Bytes → Option Bytes
  pub open_anonymous : Bytes → Bytes → Bytes → Option Bytes

-- MaxTTL, in seconds
abbrev pub max_ttl_seconds : ℕ
max_ttl_seconds = 3600

abbrev pub class_routine : String
class_routine = "routine"

abbrev pub class_admin : String
class_admin = "admin"

-- 0 < z ≤ m
abbrev pub within : ℤ → ℕ → Bool
within (pos n) m = ltb 0 n && leb n m
within (negsuc n) m = false

abbrev pub is_two : ℤ → Bool
is_two (pos n) = nat_eq n 2
is_two (negsuc n) = false

abbrev pub magnitude : ℤ → ℕ
magnitude (pos n) = n
magnitude (negsuc n) = 0

abbrev pub signed_or : Fault → Checked Bool → Checked Unit
signed_or f (passed true) = passed tt
signed_or f (passed false) = fault f
signed_or f (fault g) = fault g

-- the envelope of a header, once it is signed
abbrev pub with_sig : EnvelopeHeader → Bytes → Checked Bytes → Checked Envelope
with_sig h c (passed sig) = passed (record { header = h; sender_sig = sig; ciphertext = c })
with_sig h c (fault f) = fault f

abbrev pub opened : Option Bytes → Checked Bytes
opened none = fault not_decrypted
opened (some plaintext) = passed plaintext

abbrev pub if_signed : Checked Unit → Checked Bytes → Checked Bytes
if_signed (passed u) go = go
if_signed (fault f) go = fault f

-- before a minute ahead of the creation, or after the TTL
abbrev pub is_outside : EnvelopeHeader → ℕ → Bool
is_outside h now =
    ltb (now + 60 * second) h.created_at
    || ltb (h.created_at + magnitude h.ttl_seconds * second) now

module _ (crypto : Crypto) where
  -- ed25519.Verify, which panics on a key that is not 32 bytes long
  abbrev pub ed25519_verify : Bytes → Bytes → Bytes → Checked Bool
  ed25519_verify key message sig =
      if nat_eq (length key) 32 then passed (crypto.verify key message sig) else fault panic

  -- ed25519.Sign, which panics on a key that is not 64 bytes long
  abbrev pub ed25519_sign : Bytes → Bytes → Checked Bytes
  ed25519_sign key message =
      if nat_eq (length key) 64 then passed (crypto.sign key message) else fault panic

  -- VerifyBundle
  unfoldable pub verify_bundle : KeyBundle → Bytes → Checked Unit
  verify_bundle b operator_pub =
      if b.actor_id == ""
      then fault no_actor_id
      else if not (nat_eq (length b.enc_pub_key) 32)
      then fault bad_enc_size
      else if not (nat_eq (length b.sign_pub_key) 32)
      then fault bad_sign_size
      else signed_or not_operator_signed
          (ed25519_verify operator_pub (canonical_bundle_bytes b) b.operator_sig)

  -- Fingerprint
  unfoldable pub fingerprint : KeyBundle → String
  fingerprint b = hex (take 8 (crypto.sha256 (canonical_bundle_bytes b)))

  -- what Seal signs
  abbrev pub header_of :
      String → String → String → KeyBundle → String → String → ℤ → ℕ → Bytes → EnvelopeHeader
  header_of secret_id sender from_id to label class ttl now c = record {
    v = pos 2;
    secret_id = secret_id;
    sender = sender;
    recipient = to.actor;
    from_id = from_id;
    to_id = to.actor_id;
    label = label;
    class = class;
    created_at = now / second * second;
    ttl_seconds = pos (magnitude ttl / second);
    ciphertext_sha256 = hex (crypto.sha256 c);
  }

  abbrev pub seal_with : (Bytes → EnvelopeHeader) → Bytes → Option Bytes → Checked Envelope
  seal_with head key none = fault no_randomness
  seal_with head key (some c) =
      with_sig (head c) c (ed25519_sign key (canonical_header_bytes (head c)))

  -- Seal, at the time and with the randomness that are there; no recipient is a nil pointer
  unfoldable pub seal :
      ℕ
      → ℕ
      → Bytes
      → String
      → String
      → String
      → Option KeyBundle
      → String
      → String
      → ℤ
      → Bytes
      → Checked Envelope
  seal now draw plaintext secret_id sender from_id none label class ttl key = fault bad_recipient
  seal now draw plaintext secret_id sender from_id (some to) label class ttl key =
      if not (nat_eq (length to.enc_pub_key) 32)
      then fault bad_recipient
      else if to.actor_id == "" || from_id == ""
      then fault no_ids
      else if not (within ttl (max_ttl_seconds * second))
      then fault bad_ttl
      else if class /= class_routine && class /= class_admin
      then fault bad_class
      else seal_with (header_of secret_id sender from_id to label class ttl now) key
          (crypto.seal_anonymous draw plaintext (array 32 to.enc_pub_key))

  -- Open, from the check of the TTL on
  unfoldable pub open_signed : Envelope → Bytes → Bytes → ℕ → Checked Bytes
  open_signed e my_pub my_priv now =
      if not (within e.header.ttl_seconds max_ttl_seconds)
      then fault expired
      else if is_outside e.header now
      then fault expired
      else if hex (crypto.sha256 e.ciphertext) /= e.header.ciphertext_sha256
      then fault tampered
      else opened (crypto.open_anonymous e.ciphertext (array 32 my_pub) (array 32 my_priv))

  -- Open
  unfoldable pub open_envelope : Envelope → String → KeyBundle → Bytes → Bytes → ℕ → Checked Bytes
  open_envelope e my_actor_id from my_pub my_priv now =
      if not (is_two e.header.v)
      then fault bad_version
      else if e.header.to_id /= my_actor_id
      then fault wrong_recipient
      else if from.actor_id == "" || e.header.from_id /= from.actor_id
      then fault bad_signature
      else if_signed
          (signed_or bad_signature
            (ed25519_verify from.sign_pub_key (canonical_header_bytes e.header) e.sender_sig))
          (open_signed e my_pub my_priv now)
