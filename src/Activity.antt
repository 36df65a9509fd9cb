-- ===== src/Activity.antt =====
-- internal/activity/hub.go: who waits for news of an actor, and the signals that were sent. A channel
-- is its number; its buffer of one holds a signal or not.
pub mod Wakes
use mcp_symposium.Prelude.{
  ℕ, suc, String, Bool, List, [], ◌∷◌, ◌++◌, ◌==◌, nat_eq, not, any, select, if◌then◌else◌,
}

-- The map from actors to channels; a missing key is no channels. `full` has the channels that hold a
-- signal, and `made` is how many channels were made.
pub record Hub : Type 0 where
  pub waiters : String → List ℕ
  pub full : List ℕ
  pub made : ℕ

abbrev pub new_hub : Hub
new_hub = record { waiters = λ id. []; full = []; made = 0 }

abbrev pub holds : ℕ → List ℕ → Bool
holds ch chs = any (nat_eq ch) chs

-- h.waiters[id] = chs
abbrev pub set_waiters : String → List ℕ → Hub → Hub
set_waiters id chs h = record h { waiters = λ i. if i == id then chs else h.waiters i }

-- select with a default: a channel that is full stays as it is
abbrev pub send : ℕ → Hub → Hub
send ch h = if holds ch h.full then h else record h { full = ch ∷ h.full }

abbrev pub send_all : List ℕ → Hub → Hub
send_all [] h = h
send_all (ch ∷ chs) h = send_all chs (send ch h)

-- Notify
unfoldable pub notify : List String → Hub → Hub
notify [] h = h
notify (id ∷ ids) h = notify ids (set_waiters id [] (send_all (h.waiters id) h))

-- Register
unfoldable pub register : String → Hub → ℕ × Hub
register actor_id h = (
  h.made,
  set_waiters actor_id (h.waiters actor_id ++ h.made ∷ []) (record h { made = suc h.made }),
)

-- append(ws[:i], ws[i+1:]...) for the first i with ws[i] == ch
abbrev pub without : ℕ → List ℕ → List ℕ
without ch [] = []
without ch (c ∷ cs) = let rest = without ch cs in if nat_eq ch c then cs else c ∷ rest

-- the cancel function that Register returned with this channel
unfoldable pub cancel : String → ℕ → Hub → Hub
cancel actor_id ch h = set_waiters actor_id (without ch (h.waiters actor_id)) h

-- a waiter takes the signal out of its channel
unfoldable pub receive : ℕ → Hub → Hub
receive ch h = record h { full = select (λ c. not (nat_eq ch c)) h.full }
