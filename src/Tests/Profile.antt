-- ===== src/Tests/Profile.antt =====
-- A profile that is set, and one that a key bundle locks.
use mcp_symposium.Prelude.{true, false, ◌≡◌, refl, [], ◌∷◌, ◌==◌, trim_space}
use mcp_symposium.Models.{ActorProfile}
use mcp_symposium.Engine.{World}
use mcp_symposium.Engine.Ensures.{Outcome}
use mcp_symposium.Engine.Transactions.{is_err}
use mcp_symposium.Storage.Profile.{is_nickname, upsert_actor_profile}
use mcp_symposium.Storage.Profile.Nickname.{IsKnownAs, upsert_actor_profile-IsKnownAs}
use mcp_symposium.Storage.Profile.Lock.{upsert_actor_profile_locked}
use mcp_symposium.Tests.World.{calm, calm-Works, empty, start}

abbrev ann : ActorProfile
ann = record { actor_id = "a1"; name = "Ann"; nickname = "ann"; bio = ""; updated_at = 1 }

abbrev signed : World
signed = start (record empty {
  profiles = ann ∷ [];
  bundles = record { actor_id = "a1"; bundle_json = "{}"; updated_at = 1 } ∷ [];
})

upsert_actor_profile-IsKnownAs_example :
    Outcome
      (λ p d.
        IsKnownAs "a2" p d
        × (p.nickname ≡ trim_space " bob ")
        × ((trim_space " bob " == "") ≡ false)
        × (is_nickname (trim_space " bob ") ≡ true))
      (upsert_actor_profile calm "a2" "Bob" " bob " "" ("ops" ∷ []) signed)
upsert_actor_profile-IsKnownAs_example =
    upsert_actor_profile-IsKnownAs calm "a2" "Bob" " bob " "" ("ops" ∷ []) signed

another_name : (ann.nickname == trim_space "anna") ≡ false
unfolding trim_space
another_name = refl

upsert_actor_profile_locked_example :
    let r = upsert_actor_profile calm "a1" "Ann" "anna" "" [] signed in
    (is_err r.0 ≡ true) × (r.1.db ≡ signed.db)
upsert_actor_profile_locked_example =
    upsert_actor_profile_locked calm calm-Works "a1" "Ann" "anna" "" [] ann signed refl another_name
      refl
