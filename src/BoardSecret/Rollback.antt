-- ===== src/BoardSecret/Rollback.antt =====
-- A bundle older than one that was accepted on a host for the same actor is refused there.
use mcp_symposium.Prelude.{
  String, ◌≡◌, refl, sym, ap, Bool, true, false, not, Option, none, some, List, [], ◌∷◌, All, ◌==◌,
  eq_iff, eq_refl, arith, if◌then◌else◌, inl, inr, Bool-cases,
}
use mcp_symposium.Encoding.{Bytes, ℤ, ltb_ℤ}
use mcp_symposium.Envelope.Format.{KeyBundle, unix}
use mcp_symposium.Envelope.Sealing.{Crypto}
use mcp_symposium.BoardSecret.Host.{
  AgentKeys, FileOf, absent, corrupt, content, Pin, Host, read_pins, Process, CliError,
  no_operator_pub, no_bundle, bad_bundle, returned, failed, done, stop, require, ◌>>◌,
}
use mcp_symposium.BoardSecret.Seen.{attempt, add_text, write_line, mark_seen}
use mcp_symposium.BoardSecret.Pins.{
  pinned, pin, is_older, is_newer, pins_of, read_pins_file, save_pins, compare_pin,
  check_bundle_pin, write_file, load_verified_bundle,
}
use mcp_symposium.BoardSecret.Commands.{put_secret, Command, process_of, run_commands}
use mcp_symposium.BoardSecret.Triples.{
  Keeps, Post, Post-if, Post-decoded, Ends, Ends-returned, Ends-failed, Post-bind, Post-seq,
  Post-after, Post-then, Post-stop, keeps_steps,
}
use mcp_symposium.BoardSecret.Frames.{KeepsWrites, run_commands-left}

-- the pin of an actor in the file
abbrev pub pin_at : String → FileOf (List Pin) → Option ℤ
pin_at actor absent = none
pin_at actor corrupt = none
pin_at actor (content pins) = pinned actor pins

-- a pin of at least t
abbrev pub reaches : ℤ → Option ℤ → Bool
reaches t none = false
reaches t (some s) = not (ltb_ℤ s t)

pinned-pin :
    (a actor : String) (t : ℤ) (ps : List Pin)
    → pinned a (pin actor t ps) ≡ (if actor == a then some t else pinned a ps)
pinned-pin a actor t [] = ground (arith)
pinned-pin a actor t (p ∷ ps) =
    ground (arith, pinned-pin a actor t ps, eq_iff p.actor actor, eq_iff actor a, eq_iff p.actor a)

reaches-newer :
    (t u : ℤ) (o : Option ℤ) → reaches t o ≡ true → is_newer u o ≡ true → reaches t (some u) ≡ true
reaches-newer t u none h k = cc
reaches-newer t u (some s) h k = ground (arith, h, k)

reaches-same : (t : ℤ) (o : Option ℤ) → is_newer t o ≡ false → reaches t o ≡ true
reaches-same t none h = cc
reaches-same t (some s) h = ground (arith, h)

reaches_self : (t : ℤ) → reaches t (some t) ≡ true
reaches_self t = ground arith

is_older_of : (t u : ℤ) (o : Option ℤ) → reaches t o ≡ true → ltb_ℤ u t ≡ true → is_older u o ≡ true
is_older_of t u none h k = cc
is_older_of t u (some s) h k = ground (arith, h, k)

-- the file as the map that is read from it
abbrev Views : List Pin → Host → Type 0
Views ps h = (a : String) → pin_at a h.pins ≡ pinned a ps

module _ (I : Host → Type 0) (p : Process) where
  pins_of-Views :
      (f : FileOf (List Pin)) (h : Host)
      → f ≡ h.pins
      → I h
      → Ends (λ ps h. Views ps h × I h) I (pins_of p f h)
  unfolding pins_of done stop
  pins_of-Views absent h same i = ((λ a. ap (pin_at a) (sym same)), i)
  pins_of-Views corrupt h same i = i
  pins_of-Views (content ps) h same i = ((λ a. ap (pin_at a) (sym same)), i)

  read_pins_file-Views : Post I (λ ps h. Views ps h × I h) I (read_pins_file p)
  unfolding read_pins_file ◌>>◌ attempt require done stop
  read_pins_file-Views = record {
    at = λ h i. elim (Bool-cases (p.refuses read_pins)) [
      | inl down ↦ rw down i
      | inr up ↦ rw up (pins_of-Views h.pins h refl i)
    ];
  }

save_pins-Post :
    (I Q : Host → Type 0) (p : Process) (ps : List Pin)
    → ((h : Host) → Q (record h { pins = content ps }))
    → Post I (λ _. Q) I (save_pins p ps)
unfolding save_pins write_file done
save_pins-Post I Q p ps k =
    Post-then _ (write_file ps) (search keeps_steps depth 20) (record { at = λ h i. k h })

-- the host pins at least t for the actor
abbrev pub IsPinned : String → ℤ → Host → Type 0
IsPinned actor t h = reaches t (pin_at actor h.pins) ≡ true

module _ (p : Process) (b : KeyBundle) where
  -- the time of the bundle
  abbrev time : ℤ
  time = unix b.created_at

  compare_pin-Ends :
      (Q E : Host → Type 0) (ps : List Pin) (h : Host)
      → E h
      → (is_newer time (pinned b.actor ps) ≡ true
          → (g : Host) → Q (record g { pins = content (pin b.actor time ps) }))
      → (is_newer time (pinned b.actor ps) ≡ false → Q h)
      → Ends (λ _. Q) E (compare_pin p b.actor time ps h)
  unfolding compare_pin stop done
  compare_pin-Ends Q E ps h e new seen = elim (Bool-cases (is_older time (pinned b.actor ps))) [
    | inl old ↦ rw old e
    | inr recent ↦ elim (Bool-cases (is_newer time (pinned b.actor ps))) [
      | inl newer ↦
          rw (recent, newer) ((save_pins-Post E Q p (pin b.actor time ps) (new newer)).at h e)
      | inr known ↦ rw (recent, known) (seen known)
    ]
  ]

  pin-reaches :
      (a : String) (t : ℤ) (ps : List Pin)
      → reaches t (pinned a ps) ≡ true
      → is_newer time (pinned b.actor ps) ≡ true
      → reaches t (pinned a (pin b.actor time ps)) ≡ true
  pin-reaches a t ps h newer = elim (Bool-cases (b.actor == a)) [
    | inl same ↦
        rw (pinned-pin a b.actor time ps, same)
          (reaches-newer t time (pinned b.actor ps) (rw (sym ((eq_iff b.actor a).0 same)) at h)
            newer)
    | inr other ↦ rw (pinned-pin a b.actor time ps, other) h
  ]

  -- What the host has pinned stays pinned when a bundle is checked.
  check_bundle_pin-IsPinned : (a : String) (t : ℤ) → Keeps (IsPinned a t) (check_bundle_pin p b)
  unfolding check_bundle_pin
  check_bundle_pin-IsPinned a t = record {
    at =
        (Post-bind {Q = λ _. IsPinned a t} {E = IsPinned a t} _ (read_pins_file p)
          (compare_pin p b.actor time) (read_pins_file-Views (IsPinned a t) p)
          λ ps. record {
            at = λ h r.
                compare_pin-Ends (IsPinned a t) (IsPinned a t) ps h r.1
                  (λ newer g. pin-reaches a t ps (rw (r.0 a) at r.1) newer) (λ _. r.1);
          }).at;
  }

  -- A bundle that passes is pinned.
  check_bundle_pin-pins :
      Post (λ _. Unit) (λ _. IsPinned b.actor time) (λ _. Unit) (check_bundle_pin p b)
  unfolding check_bundle_pin
  check_bundle_pin-pins =
      Post-bind _ (read_pins_file p) (compare_pin p b.actor time)
        (read_pins_file-Views (λ _. Unit) p)
        λ ps. record {
          at = λ h r.
              compare_pin-Ends (IsPinned b.actor time) (λ _. Unit) ps h tt
                (λ newer g.
                  rw (pinned-pin b.actor b.actor time ps, eq_refl b.actor) (reaches_self time))
                (λ known. rw (r.0 b.actor) (reaches-same time (pinned b.actor ps) known));
        }

  -- A bundle that is older than the pin of its actor does not pass.
  check_bundle_pin-older :
      (t : ℤ)
      → ltb_ℤ time t ≡ true
      → Post (IsPinned b.actor t) (λ _ _. ⊥) (IsPinned b.actor t) (check_bundle_pin p b)
  unfolding check_bundle_pin compare_pin stop
  check_bundle_pin-older t older =
      Post-bind _ (read_pins_file p) (compare_pin p b.actor time)
        (read_pins_file-Views (IsPinned b.actor t) p)
        λ ps. record {
          at = λ h r.
              rw (is_older_of t time (pinned b.actor ps) (rw (r.0 b.actor) at r.1) older) r.1;
        }

module _ (p : Process) (crypto : Crypto) (path : String) (k : AgentKeys) where
  load_verified_bundle-pins :
      Post
        (λ _. Unit)
        (λ b. IsPinned b.actor (unix b.created_at))
        (λ _. Unit)
        (load_verified_bundle p crypto path k)
  unfolding load_verified_bundle done
  load_verified_bundle-pins = Post-if _ _ _ (Post-stop no_operator_pub) (
      Post-then _ _ (search keeps_steps) (
        Post-after _ _ (search keeps_steps) λ b. Post-then _ _ (search keeps_steps) (
          Post-seq (IsPinned b.actor (unix b.created_at)) _ _ (check_bundle_pin-pins p b)
            (record { at = λ h i. i }))))

  load_verified_bundle-older :
      (t : ℤ) (b : KeyBundle)
      → p.bundle_at path ≡ content b
      → ltb_ℤ (unix b.created_at) t ≡ true
      → Post
          (IsPinned b.actor t)
          (λ _ _. ⊥)
          (IsPinned b.actor t)
          (load_verified_bundle p crypto path k)
  unfolding load_verified_bundle
  load_verified_bundle-older t b there older = Post-if _ _ _ (Post-stop no_operator_pub) (
      Post-then _ _ (search keeps_steps) (
        Post-decoded p no_bundle bad_bundle (p.bundle_at path) b _ there (
          Post-then _ _ (search keeps_steps) (
            Post-seq (λ _. ⊥) _ _ (check_bundle_pin-older p b t older)
              (record { at = λ h. absurd })))))

abbrev AnyProcess : Process → Type 0
AnyProcess p = Unit

module _ (a : String) (t : ℤ) where
  puts-IsPinned : (dest : List String) (s : Bytes) → Keeps (IsPinned a t) (put_secret dest s)
  unfolding put_secret done
  puts-IsPinned dest s = record { at = λ h i. i }

  add_text-IsPinned : (s : String) → Keeps (IsPinned a t) (add_text s)
  unfolding add_text done
  add_text-IsPinned s = record { at = λ h i. i }

  marks-IsPinned : (p : Process) (id : String) → Keeps (IsPinned a t) (mark_seen p id)
  unfolding mark_seen write_line
  marks-IsPinned p id = search (keeps_steps, add_text-IsPinned) depth 20

  IsPinned-KeepsWrites : (p : Process) → AnyProcess p → KeepsWrites (IsPinned a t) p
  IsPinned-KeepsWrites p _ = record {
    pins = λ b. check_bundle_pin-IsPinned p b a t;
    puts = puts-IsPinned;
    marks = marks-IsPinned p;
  }

any_processes : (cs : List Command) → All (λ c. AnyProcess (process_of c)) cs
any_processes [] = tt
any_processes (c ∷ cs) = (tt, any_processes cs)

module _ (crypto : Crypto) (p q : Process) (path path' : String) (k k' : AgentKeys) where
  -- After a bundle was accepted on a host, a bundle for the same actor's name with an older creation
  -- time, to the second, is refused there, whatever was sealed and opened in between and whichever
  -- operations of the file system failed.
  pub load_verified_bundle_rollback :
      (b b' : KeyBundle) (cs : List Command) (h : Host)
      → (load_verified_bundle p crypto path k h).0 ≡ returned b
      → q.bundle_at path' ≡ content b'
      → b'.actor ≡ b.actor
      → ltb_ℤ (unix b'.created_at) (unix b.created_at) ≡ true
      → (err : CliError) × ((load_verified_bundle q crypto path' k'
            (run_commands crypto cs (load_verified_bundle p crypto path k h).1)).0
          ≡ failed err)
  load_verified_bundle_rollback b b' cs h accepted there same older =
      let t = unix b.created_at in
      let pinned_now =
        Ends-returned (λ b. IsPinned b.actor (unix b.created_at)) (λ _. Unit)
          (load_verified_bundle p crypto path k h) b
          ((load_verified_bundle-pins p crypto path k).at h tt) accepted in
      let kept =
        run_commands-left crypto AnyProcess (IsPinned-KeepsWrites b.actor t) cs (any_processes cs)
          (load_verified_bundle p crypto path k h).1 pinned_now in
      Ends-failed (IsPinned b'.actor t)
        (load_verified_bundle q crypto path' k'
          (run_commands crypto cs (load_verified_bundle p crypto path k h).1))
        ((load_verified_bundle-older q crypto path' k' t b' there older).at
          (run_commands crypto cs (load_verified_bundle p crypto path k h).1) (rw same kept))
