-- ===== src/BoardSecret/Pins.antt =====
-- cmd/board-secret/main.go: loadKeys, loadVerifiedBundle and checkBundlePin.
use mcp_symposium.Prelude.{
  String, Bool, true, false, not, Option, none, some, List, [], ◌∷◌, find, length, nat_eq, ◌==◌,
  if◌then◌else◌,
}
use mcp_symposium.Prelude.Rows.{option_map}
use mcp_symposium.Encoding.{ℤ, ltb_ℤ}
use mcp_symposium.Envelope.Format.{KeyBundle, unix}
use mcp_symposium.Envelope.Sealing.{Crypto, verify_bundle}
use mcp_symposium.BoardSecret.Host.{
  AgentKeys, FileOf, absent, corrupt, content, Pin, read_keys, read_bundle, read_pins,
  make_keys_dir, create_pins, write_pins, sync_pins, close_pins, rename_pins, Process, CliError,
  no_keys, bad_keys, no_operator_pub, no_bundle, bad_bundle, pins_corrupt, pins_unreadable,
  rollback, pin_not_kept, not_trusted, Cmd, done, stop, ◌>>=◌, ◌>>◌, checked,
}
use mcp_symposium.BoardSecret.Seen.{attempt}

abbrev pub pinned : String → List Pin → Option ℤ
pinned actor pins = option_map (λ p. p.time) (find (λ p. p.actor == actor) pins)

-- pins[actor] = t
abbrev pub pin : String → ℤ → List Pin → List Pin
pin actor t [] = record { actor = actor; time = t } ∷ []
pin actor t (p ∷ ps) =
    let rest = pin actor t ps in
    if p.actor == actor then record { actor = actor; time = t } ∷ ps else p ∷ rest

abbrev pub is_older : ℤ → Option ℤ → Bool
is_older t none = false
is_older t (some s) = ltb_ℤ t s

abbrev pub is_newer : ℤ → Option ℤ → Bool
is_newer t none = true
is_newer t (some s) = ltb_ℤ s t

unfoldable pub write_file : List Pin → Cmd Unit
write_file pins h = done tt (record h { pins = content pins })

module _ (p : Process) where
  -- the pins of the file, none of them where there is no file yet
  unfoldable pub pins_of : FileOf (List Pin) → Cmd (List Pin)
  pins_of absent = done []
  pins_of corrupt = stop pins_corrupt
  pins_of (content pins) = done pins

  unfoldable pub read_pins_file : Cmd (List Pin)
  read_pins_file h = (attempt p read_pins pins_unreadable >> pins_of h.pins) h

  -- the new map goes to another file, which takes the place of the old one
  unfoldable pub save_pins : List Pin → Cmd Unit
  save_pins pins =
      attempt p make_keys_dir pin_not_kept
      >> attempt p create_pins pin_not_kept
      >> attempt p write_pins pin_not_kept
      >> attempt p sync_pins pin_not_kept
      >> attempt p close_pins pin_not_kept
      >> attempt p rename_pins pin_not_kept
      >> write_file pins

  unfoldable pub compare_pin : String → ℤ → List Pin → Cmd Unit
  compare_pin actor t pins =
      if is_older t (pinned actor pins)
      then stop rollback
      else if is_newer t (pinned actor pins)
      then save_pins (pin actor t pins)
      else done tt

  -- checkBundlePin
  unfoldable pub check_bundle_pin : KeyBundle → Cmd Unit
  unfolding save_pins
  check_bundle_pin b = read_pins_file >>= compare_pin b.actor (unix b.created_at)

  unfoldable pub decoded : {A : Type 0} → CliError → CliError → FileOf A → Cmd A
  decoded missing bad absent = stop missing
  decoded missing bad corrupt = stop bad
  decoded missing bad (content a) = done a

  -- loadKeys
  unfoldable pub load_keys : Cmd AgentKeys
  load_keys h = (attempt p read_keys no_keys >> decoded no_keys bad_keys h.keys) h

  -- loadVerifiedBundle
  unfoldable pub load_verified_bundle : Crypto → String → AgentKeys → Cmd KeyBundle
  unfolding check_bundle_pin
  load_verified_bundle crypto path k =
      if not (nat_eq (length k.operator_pub) 32) then stop no_operator_pub else (do
        attempt p read_bundle no_bundle
        b ← decoded no_bundle bad_bundle (p.bundle_at path)
        checked not_trusted (verify_bundle crypto b k.operator_pub)
        check_bundle_pin b
        done b)
