-- ===== src/Tests/Handoff.antt =====
-- One handoff, fetched with a driver that works and with one that fails after the claim.
use mcp_symposium.Prelude.{true, false, ◌≡◌, ◌≤◌, refl, inl, inr, none, some, List, [], ◌∷◌, arith}
use mcp_symposium.Models.{SecretHandoff}
use mcp_symposium.Engine.{World, secret_needs_approval, ok, ◌>>=◌}
use mcp_symposium.Engine.Tables.{update_where, first_where}
use mcp_symposium.Storage.Handoff.{
  fetch_secret_handoff, approve_secret_handoff, sweep_expired_secrets,
}
use mcp_symposium.Storage.Handoff.Spec.{row, HasKeys, may_release, fetch_spec, Leaves}
use mcp_symposium.Storage.Handoff.Refine.{fetch-fetch_spec}
use mcp_symposium.Storage.Handoff.Once.{
  Call, fetch, releases, is_released, Released, releases-le-one, fetch-Released,
}
use mcp_symposium.Storage.Handoff.Sweep.{answered, fetch-sweep}
use mcp_symposium.Storage.Handoff.Approve.{fetch-approve}
use mcp_symposium.Storage.Handoff.Lost.{fetch_lost}
use mcp_symposium.Tests.World.{calm, calm-Works, refusing, empty, start}

abbrev sealed : SecretHandoff
sealed = record {
  id = "s1";
  from_actor_id = "alice";
  to_actor_id = "bob";
  label = "deploy key";
  class = "admin";
  envelope_json = "{}";
  created_at = 10;
  expires_at = 50;
  fetched_at = none;
  fetched_by_actor = "";
  foreign_attempts = 0;
  approved_at = none;
  approved_by = "";
}

abbrev approved : SecretHandoff
approved = record sealed { approved_at = some 12; approved_by = "carol" }

abbrev waiting : World
waiting = start (record empty { handoffs = sealed ∷ [] })

abbrev ready : World
ready = start (record empty { handoffs = approved ∷ [] })

waiting-HasKeys : HasKeys waiting.db
waiting-HasKeys = (tt, tt)

ready-HasKeys : HasKeys ready.db
ready-HasKeys = (tt, tt)

abbrev calls : List Call
calls = fetch "s1" "mallory" 20 ∷ fetch "s1" "bob" 21 ∷ fetch "s1" "bob" 22 ∷ []

releases-le-one_example : releases calm "s1" calls ready ≤ 1
releases-le-one_example = releases-le-one calm "s1" calls ready ready-HasKeys

fetch-fetch_spec_example :
    let (reply, o) = fetch_spec "bob" 20 (row "s1" ready.db) in
    let r = fetch_secret_handoff calm "s1" "bob" 20 ready in
    (r.0 ≡ ok reply) × Leaves "s1" ready.db o r.1.db
fetch-fetch_spec_example = fetch-fetch_spec calm calm-Works "s1" "bob" 20 ready ready-HasKeys

out : is_released (fetch_secret_handoff calm "s1" "bob" 20 ready).0 ≡ true
unfolding fetch_secret_handoff ◌>>=◌ update_where first_where
out = refl

fetch-Released_example :
    let r = fetch_secret_handoff calm "s1" "bob" 20 ready in
    Released "s1" "bob" 20 r.0 ready.db r.1.db
fetch-Released_example = fetch-Released calm "s1" "bob" 20 ready ready-HasKeys out

fetch-sweep_example :
    answered (fetch_secret_handoff calm "s1" "bob" 60 (sweep_expired_secrets calm 55 ready).1).0
    ≡ answered (fetch_secret_handoff calm "s1" "bob" 60 ready).0
fetch-sweep_example = fetch-sweep calm calm-Works "s1" "bob" 55 60 ready (omega arith) ready-HasKeys

fetch-approve_example :
    let a = approve_secret_handoff calm "s1" "carol" 12 waiting in
    (answered (fetch_secret_handoff calm "s1" "bob" 20 waiting).0
      ≡ some (inr secret_needs_approval))
    × (a.0 ≡ ok tt)
    × (answered (fetch_secret_handoff calm "s1" "bob" 20 a.1).0 ≡ some (inl "{}"))
fetch-approve_example =
    fetch-approve calm calm-Works "s1" "bob" "carol" 12 20 sealed waiting waiting-HasKeys refl refl
      refl refl refl refl (omega arith) (omega arith)

ready-may : may_release "bob" 20 approved ≡ true
unfolding may_release
ready-may = refl

fetch_lost_example :
    (is_released (fetch_secret_handoff (refusing 1) "s1" "bob" 20 ready).0 ≡ false)
    × (releases (refusing 1) "s1" calls (fetch_secret_handoff (refusing 1) "s1" "bob" 20 ready).1
        ≡ 0)
fetch_lost_example =
    fetch_lost (refusing 1) "s1" "bob" 20 approved ready refl refl refl ready-may ready-HasKeys
      calls
