-- ===== src/Envelope/Format.antt =====
-- internal/secrethandoff/envelope.go: key bundles, envelopes, and the bytes of them that are signed.
-- A time is a number of nanoseconds after Go's zero time.
use Prim.Native.Char.{nul}
use Prim.Native.Nat.{◌/◌, ◌^◌}
use Prim.Native.String
use mcp_symposium.Prelude.{ℕ, String}
use mcp_symposium.Encoding.{Bytes, ℤ, sub_ℕ, bytes_of, decimal, base64}

-- KeyBundle
pub record KeyBundle : Type 0 where
  pub actor : String
  pub actor_id : String
  pub enc_pub_key : Bytes
  pub sign_pub_key : Bytes
  pub created_at : ℕ
  pub operator_sig : Bytes

-- EnvelopeHeader
pub record EnvelopeHeader : Type 0 where
  pub v : ℤ
  pub secret_id : String
  pub sender : String
  pub recipient : String
  pub from_id : String
  pub to_id : String
  pub label : String
  pub class : String
  pub created_at : ℕ
  pub ttl_seconds : ℤ
  pub ciphertext_sha256 : String

-- Envelope
pub record Envelope : Type 0 where
  pub header : EnvelopeHeader
  pub sender_sig : Bytes
  pub ciphertext : Bytes

abbrev pub second : ℕ
second = 10 ^ 9

-- Time.Unix: 1970 is 62135596800 seconds after the zero time
abbrev pub unix : ℕ → ℤ
unix t = sub_ℕ (t / second) 62135596800

-- a verb of a format that follows a zero byte
abbrev field : String → String → String
field s rest = String.◌∷◌ nul (String.◌++◌ s rest)

-- CanonicalBundleBytes
unfoldable pub canonical_bundle_bytes : KeyBundle → Bytes
canonical_bundle_bytes b = bytes_of (
    String.◌++◌ "symposium-key-bundle-v2" (
      field b.actor (
        field b.actor_id (
          field (base64 b.enc_pub_key)
            (field (base64 b.sign_pub_key) (field (decimal (unix b.created_at)) ""))))))

-- CanonicalHeaderBytes
unfoldable pub canonical_header_bytes : EnvelopeHeader → Bytes
canonical_header_bytes h = bytes_of (
    String.◌++◌ "symposium-secret-envelope-v" (
      String.◌++◌ (decimal h.v) (
        field h.secret_id (
          field h.sender (
            field h.from_id (
              field h.recipient (
                field h.to_id (
                  field h.label (
                    field h.class (
                      field (decimal (unix h.created_at))
                        (field (decimal h.ttl_seconds) (field h.ciphertext_sha256 ""))))))))))))
