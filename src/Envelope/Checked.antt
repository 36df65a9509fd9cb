-- ===== src/Envelope/Checked.antt =====
-- What an opened envelope has passed.
use mcp_symposium.Prelude.{
  ℕ, ◌+◌, ◌*◌, ◌≤◌, ◌<◌, ◌≡◌, inl, inr, String, true, false, some, length, arith, nat_eq, ◌==◌,
  ◌/=◌, Bool-cases,
}
use mcp_symposium.Encoding.{Bytes, pos, hex, array}
use mcp_symposium.Envelope.Format.{KeyBundle, Envelope, second, canonical_header_bytes}
use mcp_symposium.Envelope.Sealing.{
  Crypto, passed, expired, tampered, bad_version, wrong_recipient, bad_signature, max_ttl_seconds,
  is_outside, ed25519_verify, open_signed, open_envelope,
}
use mcp_symposium.Envelope.Guards.{
  guard_passed, opened_passed, within_pos, is_two_pos, same_of, or_false, if_signed_passed,
  signed_or_passed,
}

module _ (crypto : Crypto) where
  -- what the opened envelope, the reader's id and the sender's bundle must satisfy
  abbrev pub IsVouched : Envelope → String → KeyBundle → Type 0
  IsVouched e me from =
      (e.header.v ≡ pos 2)
      × (e.header.to_id ≡ me)
      × (e.header.from_id ≡ from.actor_id)
      × ((from.actor_id == "") ≡ false)
      × (crypto.verify from.sign_pub_key (canonical_header_bytes e.header) e.sender_sig ≡ true)

  abbrev pub IsInTime : Envelope → ℕ → Type 0
  IsInTime e now =
      (t : ℕ) × (e.header.ttl_seconds ≡ pos t)
      × (0 < t)
      × (t ≤ 3600)
      × (e.header.created_at ≤ now + 60 * second)
      × (now ≤ e.header.created_at + t * second)

  verified_of :
      (key message sig : Bytes)
      → ed25519_verify crypto key message sig ≡ passed true
      → crypto.verify key message sig ≡ true
  verified_of key message sig h = elim (Bool-cases (nat_eq (length key) 32)) [
    | inl fits ↦ cc (rw fits at h)
    | inr wrong ↦ cc (rw wrong at h)
  ]

  open_signed_sound :
      (e : Envelope) (my_pub my_priv : Bytes) (now : ℕ) {p : Bytes}
      → open_signed crypto e my_pub my_priv now ≡ passed p
      → IsInTime e now
        × (hex (crypto.sha256 e.ciphertext) ≡ e.header.ciphertext_sha256)
        × (crypto.open_anonymous e.ciphertext (array 32 my_pub) (array 32 my_priv) ≡ some p)
  unfolding open_signed
  open_signed_sound e my_pub my_priv now {p} h =
      let (ttl_ok, h1) = guard_passed _ expired h in
      let (window, h2) = guard_passed (is_outside e.header now) expired h1 in
      let (hash, h3) = guard_passed _ tampered h2 in
      let (t, is_t, above, below) = within_pos e.header.ttl_seconds max_ttl_seconds ttl_ok in
      (
        (t, is_t, above, below, ground (arith, window), ground (arith, rw is_t at window)),
        same_of _ _ hash,
        opened_passed _ h3,
      )

  -- An envelope that opens is of version 2 and addressed to the reader; its header is signed with the
  -- key of the bundle whose actor it names as the sender; its TTL is between one second and an
  -- hour, and it is opened between a minute before its creation and the end of its TTL; its
  -- ciphertext has the hash of the signed header, and what is returned is what the box contains.
  pub open_envelope_sound :
      (e : Envelope) (me : String) (from : KeyBundle) (my_pub my_priv : Bytes) (now : ℕ) (p : Bytes)
      → open_envelope crypto e me from my_pub my_priv now ≡ passed p
      → IsVouched e me from
        × IsInTime e now
        × (hex (crypto.sha256 e.ciphertext) ≡ e.header.ciphertext_sha256)
        × (crypto.open_anonymous e.ciphertext (array 32 my_pub) (array 32 my_priv) ≡ some p)
  unfolding open_envelope
  open_envelope_sound e me from my_pub my_priv now p h =
      let (version, h1) = guard_passed _ bad_version h in
      let (to_me, h2) = guard_passed _ wrong_recipient h1 in
      let (from_ok, h3) = guard_passed _ bad_signature h2 in
      let (signed, h4) = if_signed_passed _ h3 in
      let (in_time, hash, plain) = open_signed_sound e my_pub my_priv now h4 in
      let checked = signed_or_passed bad_signature _ signed in
      let (named, same) =
        or_false (from.actor_id == "") (e.header.from_id /= from.actor_id) from_ok in
      (
        (
          is_two_pos e.header.v version,
          same_of _ _ to_me,
          same_of _ _ same,
          named,
          verified_of _ _ _ checked,
        ),
        in_time,
        hash,
        plain,
      )
