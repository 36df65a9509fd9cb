-- ===== src/Activity/Wakes.antt =====
-- A signal is not lost between Register and Notify, whatever the others do in between.
use mcp_symposium.Prelude.{
  ℕ, suc, String, Bool, true, false, not, ◌≡◌, refl, ap, ◌∙◌, ◌||◌, List, [], ◌∷◌, ◌++◌, inl, inr,
  arith, ◌==◌, nat_eq, any, all, select, Bool-cases, eq_iff, eq_refl,
}
use mcp_symposium.Prelude.Cases.{any-append_old}
use mcp_symposium.Prelude.Rows.{any-append}
use mcp_symposium.Activity.{
  Hub, holds, set_waiters, send, send_all, notify, register, without, cancel, receive,
}

-- What happens at the hub. A cancel or a receive names the channel that it is about.
pub data Event : Type 0 where
  notified : List String → Event
  registered : String → Event
  cancelled : String → ℕ → Event
  received : ℕ → Event

pub happen : Event → Hub → Hub
happen (notified ids) h = notify ids h
happen (registered actor_id) h = (register actor_id h).1
happen (cancelled actor_id ch) h = cancel actor_id ch h
happen (received ch) h = receive ch h

pub run : List Event → Hub → Hub
unfolding happen
run [] h = h
run (e ∷ es) h = run es (happen e h)

-- The event is not about this channel.
unfoldable pub spares : ℕ → Event → Bool
spares ch (notified ids) = true
spares ch (registered actor_id) = true
spares ch (cancelled actor_id c) = not (nat_eq c ch)
spares ch (received c) = not (nat_eq c ch)

-- The channel waits for the actor, or holds a signal.
abbrev pub is_covered : String → ℕ → Hub → Bool
is_covered actor_id ch h = holds ch (h.waiters actor_id) || holds ch h.full

nat_eq_refl : (n : ℕ) → nat_eq n n ≡ true
nat_eq_refl n = ground arith

module _ (actor_id : String) (ch : ℕ) where
  send_all-full :
      (chs : List ℕ) (h : Hub) → holds ch h.full ≡ true → holds ch (send_all chs h).full ≡ true
  send_all-full [] h e = e
  send_all-full (c ∷ cs) h e = send_all-full cs (send c h) (ground (arith, e))

  send_all-holds :
      (chs : List ℕ) (h : Hub) → holds ch chs ≡ true → holds ch (send_all chs h).full ≡ true
  send_all-holds [] h e = cc
  send_all-holds (c ∷ cs) h e = elim (Bool-cases (nat_eq ch c)) [
    | inl same ↦ send_all-full cs (send c h) (ground (arith, same))
    | inr other ↦ send_all-holds cs (send c h) (ground (arith, other, e))
  ]

  waiters-send : (c : ℕ) (h : Hub) → (send c h).waiters ≡ h.waiters
  waiters-send c h = elim (Bool-cases (holds c h.full)) [
    | inl hit ↦ rw hit refl
    | inr miss ↦ rw miss refl
  ]

  waiters-send_all : (chs : List ℕ) (h : Hub) → (send_all chs h).waiters ≡ h.waiters
  waiters-send_all [] h = refl
  waiters-send_all (c ∷ cs) h = waiters-send_all cs (send c h) ∙ waiters-send c h

  -- one round of the loop in Notify
  abbrev wake : String → Hub → Hub
  wake id h = set_waiters id [] (send_all (h.waiters id) h)

  wake-full : (id : String) (h : Hub) → holds ch h.full ≡ true → holds ch (wake id h).full ≡ true
  wake-full id h e = send_all-full (h.waiters id) h e

  wake_own :
      (id : String) (h : Hub)
      → (actor_id == id) ≡ true
      → is_covered actor_id ch h ≡ true
      → holds ch (wake id h).full ≡ true
  wake_own id h own e = elim (Bool-cases (holds ch h.full)) [
    | inl full ↦ wake-full id h full
    | inr none ↦ send_all-holds (h.waiters id) h (rw ((eq_iff actor_id id).0 own) at waits none)
  ]
    where
      waits : holds ch h.full ≡ false → holds ch (h.waiters actor_id) ≡ true
      waits none = ground (arith, none, e)

  wake_other :
      (id : String) (h : Hub)
      → (actor_id == id) ≡ false
      → is_covered actor_id ch h ≡ true
      → is_covered actor_id ch (wake id h) ≡ true
  wake_other id h other e =
      rw (other, ap (λ f. f actor_id) (waiters-send_all (h.waiters id) h))
        (elim (Bool-cases (holds ch h.full)) [
          | inl full ↦ rw (send_all-full (h.waiters id) h full) (ground arith)
          | inr none ↦ ground (arith, none, e)
        ])

  notify-full :
      (ids : List String) (h : Hub) → holds ch h.full ≡ true → holds ch (notify ids h).full ≡ true
  unfolding notify
  notify-full [] h e = e
  notify-full (id ∷ ids) h e = notify-full ids (wake id h) (wake-full id h e)

  -- a covered channel stays covered, and holds a signal once its actor was notified
  notify-covered :
      (ids : List String) (h : Hub)
      → is_covered actor_id ch h ≡ true
      → (is_covered actor_id ch (notify ids h) ≡ true)
        × (any (λ id. actor_id == id) ids ≡ true → holds ch (notify ids h).full ≡ true)
  unfolding notify
  notify-covered [] h e = (e, cc)
  notify-covered (id ∷ ids) h e = elim (Bool-cases (actor_id == id)) [
    | inl own ↦
        let full = notify-full ids (wake id h) (wake_own id h own e) in
        (rw full (ground arith), λ _. full)
    | inr other ↦
        let (covered, signals) = notify-covered ids (wake id h) (wake_other id h other e) in
        (covered, λ named. signals (ground (arith, other, named)))
  ]

  without-holds :
      (c : ℕ) (chs : List ℕ)
      → nat_eq c ch ≡ false
      → holds ch chs ≡ true
      → holds ch (without c chs) ≡ true
  without-holds c [] other e = cc
  without-holds c (x ∷ xs) other e = ground (arith, without-holds c xs, other, e)

  receive-holds :
      (c : ℕ) (chs : List ℕ)
      → nat_eq c ch ≡ false
      → holds ch chs ≡ true
      → holds ch (select (λ x. not (nat_eq c x)) chs) ≡ true
  receive-holds c [] other e = cc
  receive-holds c (x ∷ xs) other e = ground (arith, receive-holds c xs, other, e)

  -- a new list of waiters that still has the channel
  set_waiters-covered :
      (a : String) (chs : List ℕ) (h : Hub)
      → (holds ch (h.waiters a) ≡ true → holds ch chs ≡ true)
      → is_covered actor_id ch h ≡ true
      → is_covered actor_id ch (set_waiters a chs h) ≡ true
  set_waiters-covered a chs h still c = elim (Bool-cases (actor_id == a)) [
    | inl own ↦ rw own (elim (Bool-cases (holds ch h.full)) [
      | inl full ↦ ground (arith, full)
      | inr none ↦
          let waits : holds ch (h.waiters actor_id) ≡ true = ground (arith, none, c) in
          ground (arith, still (rw ((eq_iff actor_id a).0 own) at waits))
    ])
    | inr other ↦ rw other c
  ]

  happen-covered :
      (e : Event) (h : Hub)
      → spares ch e ≡ true
      → is_covered actor_id ch h ≡ true
      → is_covered actor_id ch (happen e h) ≡ true
  unfolding happen spares register cancel receive
  happen-covered (notified ids) h free c = (notify-covered ids h c).0
  happen-covered (registered a) h free c =
      set_waiters-covered a (h.waiters a ++ h.made ∷ []) h
        (any-append_old (nat_eq ch) (h.waiters a) h.made) c
  happen-covered (cancelled a x) h free c =
      set_waiters-covered a (without x (h.waiters a)) h
        (without-holds x (h.waiters a) (ground (arith, free))) c
  happen-covered (received x) h free c = elim (Bool-cases (holds ch h.full)) [
    | inl full ↦ ground (arith, receive-holds x h.full (ground (arith, free)) full)
    | inr none ↦ ground (arith, none, c)
  ]

  run-covered :
      (es : List Event) (h : Hub)
      → all (spares ch) es ≡ true
      → is_covered actor_id ch h ≡ true
      → is_covered actor_id ch (run es h) ≡ true
  unfolding run
  run-covered [] h free c = c
  run-covered (e ∷ es) h free c =
      run-covered es (happen e h) (ground (arith, free))
        (happen-covered e h (ground (arith, free)) c)

-- Once a channel was registered for an actor, and whatever happens then but a cancel or a receive of
-- that channel: a Notify that names the actor leaves a signal in the channel.
pub notify-register :
    (actor_id : String) (ids : List String) (es : List Event) (h : Hub)
    → let (ch, h') = register actor_id h in
      all (spares ch) es ≡ true
      → any (λ id. actor_id == id) ids ≡ true
      → holds ch (notify ids (run es h')).full ≡ true
unfolding register
notify-register actor_id ids es h free named =
    (notify-covered actor_id h.made ids _
        (run-covered actor_id h.made es _ free registered_covered)).1
      named
  where
    registered_covered :
        is_covered actor_id h.made (
          set_waiters actor_id (h.waiters actor_id ++ h.made ∷ []) (record h { made = suc h.made }))
        ≡ true
    registered_covered =
        rw
          (
            eq_refl actor_id,
            any-append (nat_eq h.made) (h.waiters actor_id) h.made (nat_eq_refl h.made),
          )
          refl
