-- ===== src/Storage/Humans/Linked.antt =====
-- A login's subject is linked to one actor, whom every later login gets.
use mcp_symposium.Prelude.{
  ℕ, String, Bool, true, false, ◌≡◌, refl, ap, ◌∙◌, Option, none, some, inl, inr, arith, ◌==◌, ◌/=◌,
  nat_eq, find, eq_refl, eq_iff, if◌then◌else◌, Bool-cases,
}
use mcp_symposium.Prelude.Rows.{option_map, find_sound, find-rewrite, find-append_new, any_mono}
use mcp_symposium.Prelude.Cases.{find_map-append}
use mcp_symposium.Models.{Actor, UserIdentity, Db}
use mcp_symposium.Engine.{Env, World, not_found, Result, ok, err, fail}
use mcp_symposium.Engine.Keeps.{
  Keeps, keeps_rules, Keeps-if, Keeps-bind, Keeps-pure, Keeps-now, Keeps-new_uuid,
  Keeps-update_where, Keeps-create, Keeps-create_or_ignore_on,
}
use mcp_symposium.Engine.Tables.{first_where, update_where}
use mcp_symposium.Engine.Ensures.{
  Ensures, Outcome, Outcome-mono, Outcome-with, Ensures-bind, Ensures-Keeps, Ensures-pure,
  Ensures-create_or_ignore_on, Ensures-first_where, Ensures-attempt, Ensures-transaction,
  Ensures-weaken, Ensures-mono,
}
use mcp_symposium.Storage.Schema.{actors, identities}
use mcp_symposium.Storage.Humans.{
  get_or_create_human_actor, known, refresh_role, add_actor, claim_subject, settle_race,
  by_identity,
}

-- the id of the actor that the subject is linked to
abbrev pub linked : String → Db → Option String
linked subject d =
    option_map (λ i. i.actor_id) (find (λ i. i.keycloak_subject == subject) d.identities)

-- The subject is linked to this actor.
abbrev pub IsLinked : String → Actor → Db → Type 0
IsLinked subject a d = (id : String) × (linked subject d ≡ some id) × ((a.id == id) ≡ true)

module _ (env : Env) (subject display_name role : String) where
  same_actor :
      (p : UserIdentity → Bool) (o : Option UserIdentity)
      → option_map
          (λ x. x.actor_id)
          (option_map (λ (x : UserIdentity). if p x then record x { role = role } else x) o)
        ≡ option_map (λ x. x.actor_id) o
  same_actor p none = refl
  same_actor p (some x) = elim (Bool-cases (p x)) [
    | inl hit ↦ rw hit refl
    | inr miss ↦ rw miss refl
  ]

  role-Keeps :
      (id : String) (i : UserIdentity)
      → Keeps
          (λ d. linked subject d ≡ some id)
          (update_where env identities
            (λ j. j.actor_id == i.actor_id)
            (λ j. record j { role = role }))
  role-Keeps id i = Keeps-update_where env identities _ _ λ d h.
      ap (option_map (λ (x : UserIdentity). x.actor_id)) (
        find-rewrite (λ (j : UserIdentity). j.actor_id == i.actor_id)
          (λ j. record j { role = role }) (λ j. j.keycloak_subject == subject) (λ j. refl)
          d.identities)
      ∙ same_actor (λ j. j.actor_id == i.actor_id)
          (find (λ j. j.keycloak_subject == subject) d.identities)
      ∙ h

  refresh-Keeps :
      (id : String) (i : UserIdentity)
      → Keeps (λ d. linked subject d ≡ some id) (refresh_role env role i)
  unfolding refresh_role
  refresh-Keeps id i =
      Keeps-if (i.role /= role) _ _ (Keeps-bind _ _ (role-Keeps id i) (λ _. Keeps-pure tt))
        (Keeps-pure tt)

  -- the actor with this id is linked, if the subject is to this id
  owner-Ensures :
      (id : String)
      → Ensures
          (λ d. linked subject d ≡ some id)
          (first_where env actors (λ a. a.id == id))
          (IsLinked subject)
  owner-Ensures id =
      Ensures-mono
        {Q = λ a d. (linked subject d ≡ some id) × (find (λ x. x.id == id) d.actors ≡ some a)} _
        (λ a d h. (id, h.0, find_sound (λ (x : Actor). x.id == id) d.actors h.1))
        (Ensures-first_where env actors (λ a. a.id == id))

  known-Ensures :
      (i : UserIdentity)
      → Ensures (λ d. linked subject d ≡ some i.actor_id) (known env role i) (IsLinked subject)
  unfolding known
  known-Ensures i =
      Ensures-bind _ _ (Ensures-Keeps _ (refresh-Keeps i.actor_id i))
        (λ _. owner-Ensures i.actor_id)

  -- the identity is this one if it was inserted
  abbrev Claimed : String → Bool → Db → Type 0
  Claimed id true d = linked subject d ≡ some id
  Claimed id false d = Unit

  add_actor-Ensures :
      (id : String) (n : ℕ)
      → Ensures
          (λ d. if nat_eq n 0 then Unit else linked subject d ≡ some id)
          (add_actor env id display_name n)
          (Claimed id)
  unfolding add_actor
  add_actor-Ensures id n = elim (Bool-cases (nat_eq n 0)) [
    | inl lost ↦ rw lost (Ensures-pure false (λ d h. tt))
    | inr won ↦ rw won (
        Ensures-bind _ _ (Ensures-Keeps _ (Keeps-now env)) λ at.
          Ensures-bind _ _ (Ensures-Keeps _ (Keeps-create env actors _ (λ d h _. h)))
            λ _. Ensures-pure true (λ d h. h))
  ]

  claim-Ensures :
      (id : String)
      → Ensures (λ _. Unit) (claim_subject env id subject display_name role) (Claimed id)
  unfolding claim_subject
  claim-Ensures id =
      Ensures-bind _ _
        (Ensures-create_or_ignore_on env identities _
          (record { actor_id = id; keycloak_subject = subject; role = role })
          {Q = λ n d. if nat_eq n 0 then Unit else linked subject d ≡ some id} (λ d h taken. tt)
          (λ d h free. ap (option_map (λ (x : UserIdentity). x.actor_id)) (
            find-append_new (λ (i : UserIdentity). i.keycloak_subject == subject) d.identities
              (record { actor_id = id; keycloak_subject = subject; role = role })
              (any_mono (λ i. subject == i.keycloak_subject) (λ i. i.keycloak_subject == subject)
                (λ i e. ground (arith, eq_iff i.keycloak_subject subject, eq_refl subject))
                d.identities free)
              (eq_refl subject))))
        (λ n. add_actor-Ensures id n)

  race-Ensures :
      (id : String) (won : Bool)
      → Ensures (Claimed id won) (settle_race env id subject won) (IsLinked subject)
  unfolding settle_race
  race-Ensures id true = owner-Ensures id
  race-Ensures id false =
      Ensures-bind _ _ (Ensures-first_where env identities (λ i. i.keycloak_subject == subject))
        λ winner.
          Ensures-weaken _ (λ d h. ap (option_map (λ (x : UserIdentity). x.actor_id)) h.1)
            (owner-Ensures winner.actor_id)

  by_identity-Ensures :
      (r : Result UserIdentity)
      → Ensures
          (λ d.
            Outcome
              (λ i e. find (λ j. j.keycloak_subject == subject) e.identities ≡ some i)
              (r, record { db = d; step = 0 }))
          (by_identity env subject display_name role r)
          (IsLinked subject)
  unfolding by_identity fail
  by_identity-Ensures (ok i) =
      Ensures-weaken _ (λ d h. ap (option_map (λ (x : UserIdentity). x.actor_id)) h)
        (known-Ensures i)
  by_identity-Ensures (err not_found) =
      Ensures-bind _ _ (Ensures-Keeps _ (Keeps-new_uuid env)) λ id.
        Ensures-bind _ _ (Ensures-transaction env _ (claim-Ensures id)) λ won. race-Ensures id won
  by_identity-Ensures (err e) = record { at = λ w h. tt }

  -- Whatever the driver does: an actor that GetOrCreateHumanActor returns is the one that the
  -- subject is linked to afterwards.
  pub get_or_create-IsLinked :
      (w : World)
      → Outcome (IsLinked subject) (get_or_create_human_actor env subject display_name role w)
  unfolding get_or_create_human_actor
  get_or_create-IsLinked w =
      (Ensures-bind {P = λ _. Unit} _ _
          (Ensures-attempt _ (
            Ensures-mono _ (λ i d h. h.1)
              (Ensures-first_where env identities (λ i. i.keycloak_subject == subject))))
          λ found. by_identity-Ensures found).at
        w tt

  module _ (id : String) where
    abbrev StaysLinked : Db → Type 0
    StaysLinked d = linked subject d ≡ some id

    claim-Keeps :
        (new : String) → Keeps StaysLinked (claim_subject env new subject display_name role)
    unfolding claim_subject add_actor
    claim-Keeps new =
        Keeps-bind _ _
          (Keeps-create_or_ignore_on env identities _
            (record { actor_id = new; keycloak_subject = subject; role = role })
            (λ d h.
              find_map-append (λ (i : UserIdentity). i.keycloak_subject == subject)
                (λ i. i.actor_id) d.identities
                (record { actor_id = new; keycloak_subject = subject; role = role }) h))
          λ n. Keeps-if (nat_eq n 0) _ _ (Keeps-pure false) (
            Keeps-bind _ _ (Keeps-now env)
              λ at. Keeps-bind _ _ (Keeps-create env actors _ (λ d h _. h)) λ _. Keeps-pure true)

    race-Keeps : (new : String) (won : Bool) → Keeps StaysLinked (settle_race env new subject won)
    unfolding settle_race
    race-Keeps new true = search keeps_rules
    race-Keeps new false = search keeps_rules

    by_identity-Keeps :
        (r : Result UserIdentity) → Keeps StaysLinked (by_identity env subject display_name role r)
    unfolding by_identity known fail
    by_identity-Keeps (ok i) = search (keeps_rules, refresh-Keeps)
    by_identity-Keeps (err not_found) = search (keeps_rules, claim-Keeps, race-Keeps) depth 8
    by_identity-Keeps (err e) = record { at = λ w h. h }

    get_or_create-Keeps :
        Keeps StaysLinked (get_or_create_human_actor env subject display_name role)
    unfolding get_or_create_human_actor
    get_or_create-Keeps = search (keeps_rules, by_identity-Keeps)

    -- Whatever the driver does: a subject that is linked to an actor stays linked to it, and a login
    -- returns that actor or an error.
    pub get_or_create_again :
        (w : World)
        → linked subject w.db ≡ some id
        → let r = get_or_create_human_actor env subject display_name role w in
          (linked subject r.1.db ≡ some id) × Outcome (λ a d. (a.id == id) ≡ true) r
    get_or_create_again w h =
        let r = get_or_create_human_actor env subject display_name role w in
        let kept = get_or_create-Keeps.at w h in
        (
          kept,
          Outcome-mono (λ a d. IsLinked subject a d × StaysLinked d) (λ a d. (a.id == id) ≡ true) r
              (λ a d b.
                let (o, stays) = b in
                let (i, to, own) = o in ground (arith, to, stays, own, eq_iff a.id i))
              (Outcome-with (IsLinked subject) StaysLinked r (get_or_create-IsLinked w) kept),
        )
