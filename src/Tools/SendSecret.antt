-- ===== src/Tools/SendSecret.antt =====
-- internal/tools/rendezvous/tool_secret_handoff.go: the key bundles' handlers and sendSecretHandler.
-- What encoding/json makes of a text, and whether a text is a UUID, are parameters.
pub mod Sound
use Prim.Native.Char.{code}
use Prim.Native.Nat.{◌^◌}
use Prim.Native.String
use mcp_symposium.Prelude.{
  ℕ, ◌+◌, ◌*◌, String, Bool, true, false, not, ◌&&◌, ◌||◌, Option, none, some, List, [], ◌∷◌,
  length, ltb, leb, nat_eq, ◌==◌, ◌/=◌, if◌then◌else◌,
}
use mcp_symposium.Models.{Actor, SecretHandoff, KeyBundleRecord}
use mcp_symposium.Encoding.{Bytes, hex}
use mcp_symposium.Envelope.Format.{KeyBundle, Envelope, EnvelopeHeader, second}
use mcp_symposium.Envelope.Sealing.{
  Crypto, class_routine, class_admin, max_ttl_seconds, magnitude, within, is_two, fingerprint,
}
use mcp_symposium.Engine.{
  Env, Error, no_actor, oversized, malformed, incomplete_bundle, foreign_bundle, unpublished,
  unsupported_version, ttl_out_of_range, unknown_class, bad_secret_id, bad_label, hash_mismatch,
  foreign_sender, unknown_recipient, wrong_name, own_secret, Result, ok, err, Tx, pure, fail,
  attempt, ◌>>=◌, ◌>>◌, now,
}
use mcp_symposium.Engine.Tables.{first_where}
use mcp_symposium.Storage.Schema.{actors}
use mcp_symposium.Storage.Handoff.{create_secret_handoff, sweep_expired_secrets}
use mcp_symposium.Storage.Alerts.{find_actor_by_name, upsert_key_bundle, get_key_bundle}

-- json.Unmarshal at a bundle and at an envelope, and uuid.Parse
pub record Wire : Type 0 where
  pub bundle_of : String → Option KeyBundle
  pub envelope_of : String → Option Envelope
  pub is_uuid : String → Bool

-- SendSecretOutput, with the actor whom the hub is told to wake
pub record Sent : Type 0 where
  pub secret_id : String
  pub expires_at : ℕ
  pub woken : String

-- if !ok { return err }
unfoldable pub check : Bool → Error → Tx Unit
check holds e = if holds then pure tt else fail e

unfoldable pub parsed : {A : Type 0} → Option A → Tx A
parsed none = fail malformed
parsed (some a) = pure a

unfoldable pub no_error : Option Error → Tx Unit
no_error none = pure tt
no_error (some e) = fail e

-- an error of the call is reported as another one
unfoldable pub or_error : {A : Type 0} → Error → Result A → Tx A
or_error e (ok a) = pure a
or_error e (err f) = fail e

abbrev pub has_control : String → Bool
has_control String.[] = false
has_control (String.◌∷◌ c s) = ltb (code c) 0x20 || nat_eq (code c) 0x7f || has_control s

-- 1 to 128 bytes without a control character
abbrev pub is_label : String → Bool
is_label s = not (nat_eq (String.len s) 0) && leb (String.len s) 128 && not (has_control s)

module _ (env : Env) (crypto : Crypto) (wire : Wire) where
  -- FindActorByName, which must find the actor
  unfoldable pub names : String → String → Error → Tx Unit
  names name id e = do
    found ← attempt (find_actor_by_name env name)
    named ← or_error e found
    check (named.id == id) e

  -- setKeyBundleHandler: the actor and the fingerprint
  unfoldable pub set_key_bundle_handler : Option Actor → String → Tx (String × String)
  set_key_bundle_handler none bundle_json = fail no_actor
  set_key_bundle_handler (some actor) bundle_json = do
    check (leb (String.len bundle_json) (16 * 1024)) oversized
    b ← parsed (wire.bundle_of bundle_json)
    check
        (nat_eq (length b.enc_pub_key) 32
          && nat_eq (length b.sign_pub_key) 32
          && not (nat_eq (length b.operator_sig) 0))
        incomplete_bundle
    check (b.actor_id == actor.id) foreign_bundle
    names b.actor actor.id foreign_bundle
    upsert_key_bundle env actor.id bundle_json
    pure (actor.id, fingerprint crypto b)

  -- getKeyBundleHandler: the actor and the bundle
  unfoldable pub get_key_bundle_handler : String → Tx (String × String)
  get_key_bundle_handler name = do
    target ← find_actor_by_name env name
    found ← attempt (get_key_bundle env target.id)
    rec ← or_error unpublished found
    pure (target.id, rec.bundle_json)

  -- the row of an envelope that was sent at some time
  abbrev pub handoff_of : EnvelopeHeader → String → ℕ → SecretHandoff
  handoff_of h envelope_json at = record {
    id = h.secret_id;
    from_actor_id = h.from_id;
    to_actor_id = h.to_id;
    label = h.label;
    class = h.class;
    envelope_json = envelope_json;
    created_at = at;
    expires_at = at + magnitude h.ttl_seconds * second;
    fetched_at = none;
    fetched_by_actor = "";
    foreign_attempts = 0;
    approved_at = none;
    approved_by = "";
  }

  -- the first check of the header that fails, of those that need no table
  abbrev pub header_error : Envelope → String → Option Error
  header_error e actor_id =
      if not (is_two e.header.v)
      then some unsupported_version
      else if not (within e.header.ttl_seconds max_ttl_seconds)
      then some ttl_out_of_range
      else if e.header.class /= class_routine && e.header.class /= class_admin
      then some unknown_class
      else if not (wire.is_uuid e.header.secret_id)
      then some bad_secret_id
      else if not (is_label e.header.label)
      then some bad_label
      else if hex (crypto.sha256 e.ciphertext) /= e.header.ciphertext_sha256
      then some hash_mismatch
      else if e.header.from_id /= actor_id
      then some foreign_sender
      else none

  -- the checks of the recipient, and the row
  unfoldable pub store : EnvelopeHeader → String → String → String → Tx Sent
  store h actor_id to envelope_json = do
    found ← attempt (first_where env actors (λ a. a.id == h.to_id))
    recipient ← or_error unknown_recipient found
    names to recipient.id wrong_name
    check (recipient.id /= actor_id) own_secret
    swept_at ← now env
    attempt (sweep_expired_secrets env swept_at)
    at ← now env
    create_secret_handoff env (record (handoff_of h envelope_json at) {
      from_actor_id = actor_id;
      to_actor_id = recipient.id;
    })
    pure (record {
      secret_id = h.secret_id;
      expires_at = at + magnitude h.ttl_seconds * second;
      woken = recipient.id;
    })

  -- sendSecretHandler
  unfoldable pub send_secret_handler : Option Actor → String → String → Tx Sent
  send_secret_handler none to envelope_json = fail no_actor
  send_secret_handler (some actor) to envelope_json = do
    check (leb (String.len envelope_json) (64 * 1024)) oversized
    e ← parsed (wire.envelope_of envelope_json)
    no_error (header_error e actor.id)
    store e.header actor.id to envelope_json
