-- ===== src/Tools/SendSecret/Sound.antt =====
-- The rows that sendSecretHandler writes.
use mcp_symposium.Prelude.{
  ℕ, ◌+◌, ◌*◌, ◌≤◌, ◌≡◌, refl, String, Bool, true, false, not, ◌&&◌, Option, none, some, List, [],
  ◌∷◌, ◌++◌, All, rewrite, ltb, is_none, arith, ◌/=◌, if◌then◌else◌, inl, inr, Bool-cases,
}
use mcp_symposium.Models.{Actor, SecretHandoff, Db}
use mcp_symposium.Encoding.{hex, ℤ, pos, negsuc}
use mcp_symposium.Envelope.Format.{Envelope, second}
use mcp_symposium.Envelope.Sealing.{
  Crypto, is_two, within, magnitude, max_ttl_seconds, class_routine, class_admin,
}
use mcp_symposium.Engine.{
  Env, Error, unsupported_version, ttl_out_of_range, unknown_class, bad_secret_id, bad_label,
  hash_mismatch, foreign_sender, unknown_recipient, wrong_name, own_secret, oversized, Result, ok,
  err, Tx, pure, fail, ◌>>=◌,
}
use mcp_symposium.Engine.Keeps.{Keeps, keeps_rules, Keeps-bind, Keeps-create, Keeps-update_where}
use mcp_symposium.Engine.Tables.{update_where}
use mcp_symposium.Storage.Schema.{handoffs}
use mcp_symposium.Storage.Handoff.{blank, create_secret_handoff, sweep_expired_secrets}
use mcp_symposium.Storage.Mention.Frame.{resolve-Keeps}
use mcp_symposium.Storage.Alerts.{named, find_actor_by_name}
use mcp_symposium.Tools.SendSecret.{
  Wire, check, parsed, no_error, or_error, is_label, names, header_error, store,
  send_secret_handler,
}

-- the rows that the sweep blanks
abbrev expired : ℕ → SecretHandoff → Bool
expired t h = ltb h.expires_at t && is_none h.fetched_at && h.envelope_json /= ""

module _ (wire : Wire) where
  -- a handoff between two actors, of a known class, with a label that can be shown and at most an
  -- hour to live
  abbrev pub IsSound : SecretHandoff → Type 0
  IsSound h =
      ((h.to_actor_id /= h.from_actor_id) ≡ true)
      × ((h.class /= class_routine && h.class /= class_admin) ≡ false)
      × (wire.is_uuid h.id ≡ true)
      × (is_label h.label ≡ true)
      × (h.created_at + second ≤ h.expires_at)
      × (h.expires_at ≤ h.created_at + 3600 * second)

  abbrev pub HasSound : Db → Type 0
  HasSound d = All IsSound d.handoffs

  All-append :
      (hs : List SecretHandoff) (h : SecretHandoff)
      → All IsSound hs
      → IsSound h
      → All IsSound (hs ++ h ∷ [])
  All-append [] h a s = (s, tt)
  All-append (g ∷ hs) h a s = (a.0, All-append hs h a.1 s)

  All-rewrite :
      (p : SecretHandoff → Bool) (f : SecretHandoff → SecretHandoff)
      → ((h : SecretHandoff) → IsSound h → IsSound (f h))
      → (hs : List SecretHandoff) → All IsSound hs
      → All IsSound (rewrite p f hs)
  All-rewrite p f k [] a = tt
  All-rewrite p f k (h ∷ hs) a = elim (Bool-cases (p h)) [
    | inl hit ↦ rw hit (k h a.0, All-rewrite p f k hs a.1)
    | inr miss ↦ rw miss (a.0, All-rewrite p f k hs a.1)
  ]

no_error_of :
    (b : Bool) (e : Error) {go : Option Error}
    → (if b then some e else go) ≡ none
    → (b ≡ false) × (go ≡ none)
no_error_of true e h = cc
no_error_of false e h = (refl, h)

lives :
    (ttl : ℤ) (at : ℕ)
    → not (within ttl max_ttl_seconds) ≡ false
    → (at + second ≤ at + magnitude ttl * second)
      × (at + magnitude ttl * second ≤ at + 3600 * second)
lives (pos n) at h = (ground (arith, h), ground (arith, h))
lives (negsuc n) at h = cc

module _ {P : Db → Type 0} where
  -- What follows a check can rely on it.
  Keeps-check :
      {B : Type 0} (b : Bool) (e : Error) (f : Unit → Tx B)
      → (b ≡ true → Keeps P (f tt))
      → Keeps P (check b e >>= f)
  unfolding check ◌>>=◌ pure fail
  Keeps-check true e f k = record { at = λ w h. (k refl).at w h }
  Keeps-check false e f k = record { at = λ w h. h }

  Keeps-no_error :
      {B : Type 0} (o : Option Error) (f : Unit → Tx B)
      → (o ≡ none → Keeps P (f tt))
      → Keeps P (no_error o >>= f)
  unfolding no_error ◌>>=◌ pure fail
  Keeps-no_error none f k = record { at = λ w h. (k refl).at w h }
  Keeps-no_error (some e) f k = record { at = λ w h. h }

  Keeps-parsed : {A : Type 0} (o : Option A) → Keeps P (parsed o)
  unfolding parsed
  Keeps-parsed none = search keeps_rules
  Keeps-parsed (some a) = search keeps_rules

  Keeps-or_error : {A : Type 0} (e : Error) (r : Result A) → Keeps P (or_error e r)
  unfolding or_error
  Keeps-or_error e (ok a) = search keeps_rules
  Keeps-or_error e (err f) = search keeps_rules

  Keeps-named : (o : Option Actor) → Keeps P (named o)
  Keeps-named none = search keeps_rules
  Keeps-named (some a) = search keeps_rules

  Keeps-holds : (b : Bool) (e : Error) → Keeps P (check b e)
  unfolding check
  Keeps-holds b e = search keeps_rules

  module _ (env : Env) (crypto : Crypto) (wire : Wire) where
    Keeps-names : (name id : String) (e : Error) → Keeps P (names env crypto wire name id e)
    unfolding names find_actor_by_name
    Keeps-names name id e =
        search (keeps_rules, resolve-Keeps env, Keeps-named, Keeps-or_error, Keeps-holds) depth 20

module _ (env : Env) (crypto : Crypto) (wire : Wire) where
  sweep-Sound : (t : ℕ) → Keeps (HasSound wire) (sweep_expired_secrets env t)
  unfolding sweep_expired_secrets
  sweep-Sound t =
      let k : Keeps (HasSound wire) (update_where env handoffs (expired t) blank) =
        Keeps-update_where env handoffs (expired t) blank
          λ d a. All-rewrite wire (expired t) blank (λ h s. s) d.handoffs a in
      search (keeps_rules, k)

  abbrev rest : Envelope → String → Option Error
  rest e actor_id =
      if hex (crypto.sha256 e.ciphertext) /= e.header.ciphertext_sha256
      then some hash_mismatch
      else if e.header.from_id /= actor_id
      then some foreign_sender
      else none

  -- what a header without an error has passed
  header_error-none :
      (e : Envelope) (actor_id : String)
      → header_error env crypto wire e actor_id ≡ none
      → (not (within e.header.ttl_seconds max_ttl_seconds) ≡ false)
        × ((e.header.class /= class_routine && e.header.class /= class_admin) ≡ false)
        × (wire.is_uuid e.header.secret_id ≡ true)
        × (is_label e.header.label ≡ true)
  header_error-none e actor_id fine =
      let (version, h1) = no_error_of (not (is_two e.header.v)) unsupported_version fine in
      let (ttl, h2) = no_error_of _ ttl_out_of_range h1 in
      let (class, h3) = no_error_of _ unknown_class h2 in
      let (uuid, h4) = no_error_of (not (wire.is_uuid e.header.secret_id)) bad_secret_id h3 in
      let (label, h5) =
        no_error_of (not (is_label e.header.label)) bad_label {go = rest e actor_id} h4 in
      (ttl, class, ground (arith, uuid), ground (arith, label))

  store-Sound :
      (e : Envelope) (actor_id to envelope_json : String)
      → header_error env crypto wire e actor_id ≡ none
      → Keeps (HasSound wire) (store env crypto wire e.header actor_id to envelope_json)
  unfolding store create_secret_handoff
  store-Sound e actor_id to envelope_json fine =
      let (ttl, class, uuid, label) = header_error-none e actor_id fine in
      Keeps-bind _ _ (search keeps_rules) λ found.
        Keeps-bind _ _ (Keeps-or_error unknown_recipient found) λ recipient.
          Keeps-bind _ _ (Keeps-names env crypto wire to recipient.id wrong_name) λ _.
            Keeps-check (recipient.id /= actor_id) own_secret _ λ other.
              Keeps-bind _ _ (search keeps_rules) λ swept_at.
                Keeps-bind _ _ (search (keeps_rules, sweep-Sound)) λ _.
                  Keeps-bind _ _ (search keeps_rules) λ at.
                    Keeps-bind _ _
                      (Keeps-create env handoffs _ λ d a _. All-append wire d.handoffs _ a (
                        other,
                        class,
                        uuid,
                        label,
                        (lives e.header.ttl_seconds at ttl).0,
                        (lives e.header.ttl_seconds at ttl).1,
                      ))
                      (λ _. search keeps_rules)

  -- A handoff that sendSecretHandler writes goes from one actor to another, has a class that there
  -- is, a UUID, a label of 1 to 128 bytes without control characters, and expires between a
  -- second and an hour after its creation: if all rows are so before, all are so after, whatever
  -- the handler answers and whichever statements the driver refuses.
  pub send_secret_handler-HasSound :
      (actor : Option Actor) (to envelope_json : String)
      → Keeps (HasSound wire) (send_secret_handler env crypto wire actor to envelope_json)
  unfolding send_secret_handler
  send_secret_handler-HasSound none to envelope_json = search keeps_rules
  send_secret_handler-HasSound (some actor) to envelope_json =
      Keeps-bind _ _ (Keeps-holds _ oversized) λ _.
        Keeps-bind _ _ (Keeps-parsed (wire.envelope_of envelope_json)) λ e.
          Keeps-no_error (header_error env crypto wire e actor.id) _
            λ fine. store-Sound e actor.id to envelope_json fine
