-- ===== src/Tools/WaitForActivity.antt =====
-- internal/tools/rendezvous/tool_wait_for_activity.go: the long poll.
pub mod Bounds
pub mod Select
pub mod Answers
pub mod Reports
use Prim.Native.Nat.{◌^◌}
use mcp_symposium.Prelude.{
  ℕ, ◌*◌, ◌-◌, String, Bool, true, false, not, ◌&&◌, Option, none, some, List, [], ◌∷◌, nat_eq, ltb,
  if◌then◌else◌,
}
use mcp_symposium.Models.{Actor, Db}
use mcp_symposium.Encoding.{ℤ, pos, negsuc, ltb_ℤ, mul64}
use mcp_symposium.Envelope.Format.{second}
use mcp_symposium.Engine.{
  Env, Error, no_actor, cancelled_call, Result, ok, err, World, Tx, pure, ◌>>=◌,
}
use mcp_symposium.Activity.{Hub, holds, register, cancel, receive}
use mcp_symposium.Storage.CatchUp.{CatchUpSummary, get_catch_up_summary}
use mcp_symposium.Storage.CatchUp.Latest.{latest_activity_at}

-- WaitMaxTimeout, in nanoseconds
abbrev pub wait_max_timeout : ℤ
wait_max_timeout = pos (90 * second)

abbrev pub is_positive : ℤ → Bool
is_positive (pos n) = ltb 0 n
is_positive (negsuc n) = false

abbrev pub at_most : ℤ → ℤ → ℤ
at_most bound t = if ltb_ℤ bound t then bound else t

-- the timeout for timeout_s, whose product with a second is an int64
unfoldable pub wait_timeout : ℤ → ℤ
wait_timeout seconds =
    if is_positive seconds
    then at_most wait_max_timeout (mul64 seconds second)
    else wait_max_timeout

-- WaitForActivityOutput
pub record WaitForActivityOutput : Type 0 where
  pub actor_id : String
  pub activity : Bool
  pub unread_reply_count : ℕ
  pub unseen_mention_count : ℕ
  pub max_created_at : Option ℕ

abbrev pub quiet : String → WaitForActivityOutput
quiet actor_id = record {
  actor_id = actor_id;
  activity = false;
  unread_reply_count = 0;
  unseen_mention_count = 0;
  max_created_at = none;
}

abbrev pub reported : String → CatchUpSummary → Option ℕ → WaitForActivityOutput
reported actor_id s max_at = record {
  actor_id = actor_id;
  activity = true;
  unread_reply_count = s.unread_reply_count;
  unseen_mention_count = s.unseen_mention_count;
  max_created_at = max_at;
}

abbrev pub is_quiet : CatchUpSummary → Bool
is_quiet s =
    nat_eq s.unread_reply_count 0
    && nat_eq s.unseen_mention_count 0
    && nat_eq s.unseen_handoff_alert_count 0

-- The cases of the select: the context's end, the deadline, the signal of the hub, the poll.
pub data Wake : Type 0 where
  context_done deadline signalled polled : Wake

-- One moment of the wait: its time, whether the context is done, whether a tick of the poll waits,
-- the case that the random choice of select falls on if it is ready, and what the others have made
-- of the tables and the hub until then.
pub record Turn : Type 0 where
  pub at : ℕ
  pub done : Bool
  pub tick : Bool
  pub draw : Wake
  pub db : Db
  pub hub : Hub → Hub

-- a timer that was started for this time has sent
abbrev pub is_due : ℤ → ℕ → ℕ → Bool
is_due timeout started at = not (ltb_ℤ (pos (at - started)) timeout)

abbrev pub first_ready : Bool → Bool → Bool → Bool → Option Wake
first_ready done due signal tick =
    if done
    then some context_done
    else if due
    then some deadline
    else if signal
    then some signalled
    else if tick
    then some polled
    else none

-- the select: a case that is ready, that of the random choice before others, or none yet
abbrev pub take_case : Wake → Bool → Bool → Bool → Bool → Option Wake
take_case context_done done due signal tick =
    if done then some context_done else first_ready done due signal tick
take_case deadline done due signal tick =
    if due then some deadline else first_ready done due signal tick
take_case signalled done due signal tick =
    if signal then some signalled else first_ready done due signal tick
take_case polled done due signal tick =
    if tick then some polled else first_ready done due signal tick

-- The answer, if there is one yet, with the hub.
abbrev pub Waited : Type 0
Waited = Option (Result WaitForActivityOutput) × Hub

module _ (env : Env) (actor_id : String) where
  unfoldable pub with_latest : CatchUpSummary → Tx (Option WaitForActivityOutput)
  with_latest s = do
    max_at ← latest_activity_at env actor_id
    pure (some (reported actor_id s max_at))

  -- check
  unfoldable pub look : Tx (Option WaitForActivityOutput)
  look = do s ← get_catch_up_summary env actor_id; if is_quiet s then pure none else with_latest s

  -- the deferred calls of cancel, one for each channel that was registered
  abbrev pub cancel_all : List ℕ → Hub → Hub
  cancel_all [] h = h
  cancel_all (ch ∷ chs) h = cancel_all chs (cancel actor_id ch h)

  -- an answer of the check ends the wait, else it goes on
  abbrev pub or_go_on : Result (Option WaitForActivityOutput) → List ℕ → Hub → Waited → Waited
  or_go_on (err e) chs h more = (some (err e), cancel_all chs h)
  or_go_on (ok (some out)) chs h more = (some (ok out), cancel_all chs h)
  or_go_on (ok none) chs h more = more

  -- a signal was received, and the one-shot registration is made anew
  abbrev pub rearm : ℕ → Hub → ℕ × Hub
  rearm ch h = register actor_id (cancel actor_id ch (receive ch h))

  -- what a moment comes to, with the rest of the wait after a signal, after a poll, and when
  -- nothing is ready
  abbrev pub on_wake :
      Option Wake
      → Result (Option WaitForActivityOutput)
      → ℕ
      → List ℕ
      → Hub
      → Waited
      → Waited
      → Waited
      → Waited
  on_wake (some context_done) r ch chs h rearmed again blocked =
      (some (err cancelled_call), cancel_all chs h)
  on_wake (some deadline) r ch chs h rearmed again blocked =
      (some (ok (quiet actor_id)), cancel_all chs h)
  on_wake (some signalled) r ch chs h rearmed again blocked = or_go_on r chs (receive ch h) rearmed
  on_wake (some polled) r ch chs h rearmed again blocked = or_go_on r chs h again
  on_wake none r ch chs h rearmed again blocked = blocked

  -- the loop, with the timer of the deadline, which is made once, the channel it listens on and all
  -- that were registered
  unfoldable pub wait_loop : ℤ → ℕ → List Turn → ℕ → List ℕ → Hub → World → Waited
  wait_loop timeout started [] ch chs h w = (none, h)
  wait_loop timeout started (t ∷ ts) ch chs h w =
      let h' = t.hub h in
      let due = is_due timeout started t.at in
      let taken = take_case t.draw t.done due (holds ch h'.full) t.tick in
      let (r, w') = look (record w { db = t.db }) in
      let blocked = wait_loop timeout started ts ch chs h' w in
      let again = wait_loop timeout started ts ch chs h' w' in
      let (ch', armed) = rearm ch h' in
      let rearmed = wait_loop timeout started ts ch' (ch' ∷ chs) armed w' in
      on_wake taken r ch chs h' rearmed again blocked

  -- registered, and looked for the first time
  abbrev pub wait_from : ℤ → ℕ → List Turn → ℕ × Hub → World → Waited
  wait_from timeout started turns (ch, h) w =
      let (r, w') = look w in
      let more = wait_loop timeout started turns ch (ch ∷ []) h w' in or_go_on r (ch ∷ []) h more

-- waitForActivityHandler, with timeout_s and the time at which the timer is made
unfoldable pub wait_for_activity_handler :
    Env → Option Actor → ℤ → ℕ → List Turn → Hub → World → Waited
wait_for_activity_handler env none seconds started turns h w = (some (err no_actor), h)
wait_for_activity_handler env (some actor) seconds started turns h w =
    wait_from env actor.id (wait_timeout seconds) started turns (register actor.id h) w
