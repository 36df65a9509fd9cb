-- ===== src/Tests/Envelope.antt =====
-- Keys of a toy cryptography, an envelope under them, and a host that opens it.
use mcp_symposium.Prelude.{
  ℕ, zero, suc, ◌+◌, ◌*◌, ◌≡◌, refl, sym, ap, get_or, Option, none, some, [], ◌∷◌, arith, nat_eq,
}
use mcp_symposium.Encoding.{Bytes, pos, bytes_of, decimal, digits, base64, hex, array}
use mcp_symposium.Envelope.Format.{KeyBundle, Envelope, canonical_bundle_bytes, second}
use mcp_symposium.Envelope.Sealing.{Crypto, passed, seal, open_signed, open_envelope}
use mcp_symposium.Envelope.Checked.{IsVouched, IsInTime, open_envelope_sound}
use mcp_symposium.Envelope.RoundTrip.{seal-open}

abbrev head : Bytes → ℕ
head [] = 0
head (b ∷ bs) = b

abbrev tail : Bytes → Option Bytes
tail [] = none
tail (b ∷ bs) = some bs

abbrev pub fill : ℕ → ℕ → Bytes
fill b zero = []
fill b (suc n) = b ∷ fill b n

-- A signature is the first byte of the key, and a box has a byte in front.
abbrev pub toy : Crypto
toy = record {
  sha256 = λ bs. head bs ∷ 255 ∷ [];
  sign = λ key m. head key ∷ [];
  verify = λ key m sig. nat_eq (head key) (head sig);
  seal_anonymous = λ draw p key. some (7 ∷ p);
  open_anonymous = λ c key private. tail c;
}

abbrev pub alice_bundle : KeyBundle
alice_bundle = record {
  actor = "alice";
  actor_id = "a";
  enc_pub_key = fill 3 32;
  sign_pub_key = fill 5 32;
  created_at = 63871200000 * second;
  operator_sig = 9 ∷ [];
}

abbrev pub bob_bundle : KeyBundle
bob_bundle = record {
  actor = "bob";
  actor_id = "b";
  enc_pub_key = fill 4 32;
  sign_pub_key = fill 6 32;
  created_at = 63871200000 * second;
  operator_sig = 9 ∷ [];
}

-- the moment of the sealing: half a second after a whole one
abbrev pub sealed_at : ℕ
sealed_at = 63871300000 * second + 500000000

abbrev pub letter : Envelope
letter = record {
  header = record {
    v = pos 2;
    secret_id = "s1";
    sender = "alice";
    recipient = "bob";
    from_id = "a";
    to_id = "b";
    label = "token";
    class = "routine";
    created_at = 63871300000 * second;
    ttl_seconds = pos 900;
    ciphertext_sha256 = "07ff";
  };
  sender_sig = 5 ∷ [];
  ciphertext = 7 ∷ 1 ∷ 2 ∷ [];
}

pub letter_opens :
    open_envelope toy letter "b" alice_bundle (fill 4 32) (fill 4 32) sealed_at
    ≡ passed (1 ∷ 2 ∷ [])
unfolding open_envelope open_signed hex array
letter_opens = refl

-- the digits, the base64 and the bytes of a bundle that is signed
bundle_bytes :
    canonical_bundle_bytes
      (record alice_bundle { enc_pub_key = 77 ∷ 97 ∷ 110 ∷ []; sign_pub_key = 77 ∷ [] })
    ≡ bytes_of "symposium-key-bundle-v2\0alice\0a\0TWFu\0TQ==\01735603200"
unfolding canonical_bundle_bytes decimal digits bytes_of base64
bundle_bytes = refl

seal-open_example :
    (e : Envelope) × (seal toy sealed_at 0
        (1 ∷ 2 ∷ [])
        "s1"
        "alice"
        "a"
        (some bob_bundle)
        "token"
        "routine"
        (pos (900 * second))
        (fill 5 64)
      ≡ passed e)
    × (open_envelope toy e "b" alice_bundle (fill 4 32) (fill 4 32) (sealed_at + 10 * second)
        ≡ passed (1 ∷ 2 ∷ []))
seal-open_example =
    seal-open toy sealed_at 0 (sealed_at + 10 * second) (1 ∷ 2 ∷ []) "s1" "alice" alice_bundle
      bob_bundle "token" "routine" (pos (900 * second)) (fill 5 64) (fill 4 32) (7 ∷ 1 ∷ 2 ∷ [])
      (refl, refl, λ m. refl) (refl, refl, λ draw p c same. sym (ap (λ o. tail (get_or o [])) same))
      (refl, refl, refl, refl) refl (omega arith) (omega arith) (omega arith)

open_envelope_sound_example :
    IsVouched toy letter "b" alice_bundle
    × IsInTime toy letter sealed_at
    × (hex (toy.sha256 letter.ciphertext) ≡ "07ff")
    × (toy.open_anonymous letter.ciphertext (array 32 (fill 4 32)) (array 32 (fill 4 32))
        ≡ some (1 ∷ 2 ∷ []))
open_envelope_sound_example =
    open_envelope_sound toy letter "b" alice_bundle (fill 4 32) (fill 4 32) sealed_at (1 ∷ 2 ∷ [])
      letter_opens
