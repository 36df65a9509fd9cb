-- ===== src/Storage/Profile/Lock.antt =====
-- The lock on a nickname that a published key bundle names.
use mcp_symposium.Prelude.{
  suc, String, Bool, true, false, ◌≡◌, refl, some, List, [], ◌∷◌, inl, inr, arith, ◌==◌, nat_eq,
  trim_space, find, any, count, Bool-cases, Option-cases,
}
use mcp_symposium.Models.{ActorProfile}
use mcp_symposium.Engine.{Env, World, tick, pure, fail, attempt, ◌>>=◌}
use mcp_symposium.Engine.Tables.{first_where, count_where}
use mcp_symposium.Engine.Transactions.{Works, is_err, transaction-err, transaction-fails}
use mcp_symposium.Storage.Profile.{
  is_nickname, is_rival, not_taken, not_locked, write_profile, upsert_actor_profile,
}
use mcp_symposium.Storage.Profile.Nickname.{profile_row}

count-any :
    {A : Type 0} (q : A → Bool) (xs : List A) → any q xs ≡ true → nat_eq (count q xs) 0 ≡ false
count-any q [] h = cc
count-any q (x ∷ xs) h = ground (arith, count-any q xs)

write_locked :
    (env : Env) (works : Works env) (actor_id name nickname bio : String) (names : List String)
    (own : ActorProfile) (v : World)
    → profile_row actor_id v.db ≡ some own
    → (own.nickname == nickname) ≡ false
    → any (λ b. b.actor_id == actor_id) v.db.bundles ≡ true
    → is_err (write_profile env actor_id name nickname bio names v).0 ≡ true
unfolding write_profile not_taken not_locked ◌>>=◌ attempt first_where count_where pure fail
write_locked env works actor_id name nickname bio names own v here differs published =
    elim (Option-cases (find (is_rival actor_id nickname) v.db.profiles)) [
      | inl missing ↦
          rw
            (
              works v.step,
              missing,
              works (suc v.step),
              here,
              differs,
              works (suc (suc v.step)),
              count-any (λ b. b.actor_id == actor_id) v.db.bundles published,
            )
            refl
      | inr (p, taken) ↦ rw (works v.step, taken) refl
    ]

-- While the driver works: an actor for whom a key bundle is published, and whose profile has another
-- nickname, cannot take the nickname of the call. The call returns an error and changes no table.
pub upsert_actor_profile_locked :
    (env : Env) (works : Works env) (actor_id name nickname bio : String) (names : List String)
    (own : ActorProfile) (w : World)
    → profile_row actor_id w.db ≡ some own
    → (own.nickname == trim_space nickname) ≡ false
    → any (λ b. b.actor_id == actor_id) w.db.bundles ≡ true
    → let r = upsert_actor_profile env actor_id name nickname bio names w in
      (is_err r.0 ≡ true) × (r.1.db ≡ w.db)
unfolding upsert_actor_profile fail
upsert_actor_profile_locked env works actor_id name nickname bio names own w here differs
      published =
    elim (Bool-cases (trim_space name == "")) [
      | inl nameless ↦ rw nameless (refl, refl)
      | inr named ↦ elim (Bool-cases (trim_space nickname == "")) [
        | inl blank ↦ rw (named, blank) (refl, refl)
        | inr full ↦ elim (Bool-cases (is_nickname (trim_space nickname))) [
          | inl valid ↦
              let fails =
                transaction-fails env works
                  (write_profile env actor_id (trim_space name) (trim_space nickname) bio names) w
                  (write_locked env works actor_id (trim_space name) (trim_space nickname) bio names
                    own (tick w) here differs published) in
              rw (named, full, valid) (fails, transaction-err env _ w fails)
          | inr bad ↦ rw (named, full, bad) (refl, refl)
        ]
      ]
    ]
