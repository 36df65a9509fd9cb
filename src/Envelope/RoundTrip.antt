-- ===== src/Envelope/RoundTrip.antt =====
-- What is sealed for a recipient opens there.
use Prim.Native.Nat.{◌/◌}
use mcp_symposium.Prelude.{
  ℕ, ◌+◌, ◌*◌, ◌≤◌, ◌≡◌, refl, String, true, false, ◌&&◌, ◌||◌, some, length, arith, ◌==◌, ◌/=◌,
  eq_refl, ltb,
}
use mcp_symposium.Encoding.{Bytes, ℤ, pos, negsuc, hex, array-length}
use mcp_symposium.Envelope.Format.{
  KeyBundle, EnvelopeHeader, Envelope, second, canonical_header_bytes,
}
use mcp_symposium.Envelope.Sealing.{
  Crypto, passed, class_routine, class_admin, max_ttl_seconds, magnitude, within, is_outside,
  header_of, seal, open_signed, open_envelope,
}

-- A TTL of a second and more is still within the bounds when it is cut to seconds.
whole_seconds :
    (ttl : ℤ)
    → within ttl (max_ttl_seconds * second) ≡ true
    → second ≤ magnitude ttl
    → within (pos (magnitude ttl / second)) max_ttl_seconds ≡ true
whole_seconds (pos n) h k = ground (arith, h)
whole_seconds (negsuc n) h k = cc

not_outside :
    (now later t : ℕ)
    → now ≤ later
    → later ≤ now / second * second + t * second
    → (ltb (later + 60 * second) (now / second * second)
        || ltb (now / second * second + t * second) later)
      ≡ false
not_outside now later t h k = ground arith

module _ (crypto : Crypto) where
  -- a pair of keys whose signatures verify
  abbrev pub IsSignPair : Bytes → Bytes → Type 0
  IsSignPair public private =
      (length public ≡ 32)
      × (length private ≡ 64)
      × ((m : Bytes) → crypto.verify public m (crypto.sign private m) ≡ true)

  -- a pair of keys whose boxes open
  abbrev pub IsBoxPair : Bytes → Bytes → Type 0
  IsBoxPair public private =
      (length public ≡ 32)
      × (length private ≡ 32)
      × ((draw : ℕ) (p c : Bytes)
          → crypto.seal_anonymous draw p public ≡ some c
          → crypto.open_anonymous c public private ≡ some p)

  -- a sender and a recipient with identifiers, a class that there is, and a TTL within the bounds
  abbrev pub IsSendable : String → KeyBundle → String → ℤ → Type 0
  IsSendable from_id to class ttl =
      ((to.actor_id == "") ≡ false)
      × ((from_id == "") ≡ false)
      × (within ttl (max_ttl_seconds * second) ≡ true)
      × ((class /= class_routine && class /= class_admin) ≡ false)

  signed_envelope : EnvelopeHeader → Bytes → Bytes → Envelope
  signed_envelope h key c = record {
    header = h;
    sender_sig = crypto.sign key (canonical_header_bytes h);
    ciphertext = c;
  }

  seal_passed :
      (now draw : ℕ) (plaintext : Bytes) (secret_id sender from_id : String) (to : KeyBundle)
      (label class : String) (ttl : ℤ) (key c : Bytes)
      → IsSendable from_id to class ttl
      → length to.enc_pub_key ≡ 32
      → length key ≡ 64
      → crypto.seal_anonymous draw plaintext to.enc_pub_key ≡ some c
      → seal crypto now draw plaintext secret_id sender from_id (some to) label class ttl key
        ≡ passed (
            signed_envelope
              (header_of crypto secret_id sender from_id to label class ttl now c)
              key
              c)
  unfolding seal signed_envelope
  seal_passed now draw plaintext secret_id sender from_id to label class ttl key c ok size key_size
        boxed =
      rw (size, ok.0, ok.1, ok.2, ok.3, array-length to.enc_pub_key 32 size, boxed, key_size) refl

  open_signed_passed :
      (e : Envelope) (public private p : Bytes) (later : ℕ)
      → within e.header.ttl_seconds max_ttl_seconds ≡ true
      → is_outside e.header later ≡ false
      → e.header.ciphertext_sha256 ≡ hex (crypto.sha256 e.ciphertext)
      → length public ≡ 32
      → length private ≡ 32
      → crypto.open_anonymous e.ciphertext public private ≡ some p
      → open_signed crypto e public private later ≡ passed p
  unfolding open_signed
  open_signed_passed e public private p later ttl_ok inside hash size size' plain =
      rw
        (
          ttl_ok,
          inside,
          hash,
          eq_refl (hex (crypto.sha256 e.ciphertext)),
          array-length public 32 size,
          array-length private 32 size',
          plain,
        )
        refl

  -- A secret that is sealed with at least a second to live is opened by its recipient, with the
  -- sender's bundle, at any time from then until the TTL has run from the whole second of the
  -- sealing; what is read is what was sealed. The sealing succeeds when both actors have
  -- identifiers, the class exists, the TTL is at most an hour, the keys have their sizes and the
  -- randomness is there.
  pub seal-open :
      (now draw later : ℕ) (plaintext : Bytes) (secret_id sender : String) (from to : KeyBundle)
      (label class : String) (ttl : ℤ) (key private c : Bytes)
      → IsSignPair from.sign_pub_key key
      → IsBoxPair to.enc_pub_key private
      → IsSendable from.actor_id to class ttl
      → crypto.seal_anonymous draw plaintext to.enc_pub_key ≡ some c
      → second ≤ magnitude ttl
      → now ≤ later
      → later ≤ now / second * second + magnitude ttl / second * second
      → (e : Envelope) × (seal crypto now draw plaintext secret_id sender from.actor_id
            (some to)
            label
            class
            ttl
            key
          ≡ passed e)
        × (open_envelope crypto e to.actor_id from to.enc_pub_key private later ≡ passed plaintext)
  unfolding open_envelope signed_envelope
  seal-open now draw later plaintext secret_id sender from to label class ttl key private c signs
        boxes ok boxed lives started ends =
      let h = header_of crypto secret_id sender from.actor_id to label class ttl now c in
      let e = signed_envelope h key c in
      (
        e,
        seal_passed now draw plaintext secret_id sender from.actor_id to label class ttl key c ok
            boxes.0 signs.1 boxed,
        rw
            (
              eq_refl to.actor_id,
              eq_refl from.actor_id,
              ok.1,
              signs.0,
              signs.2 (canonical_header_bytes h),
            )
            (open_signed_passed e to.enc_pub_key private plaintext later
              (whole_seconds ttl ok.2 lives)
              (not_outside now later (magnitude ttl / second) started ends) refl boxes.0 boxes.1
              (boxes.2 draw plaintext c boxed)),
      )
