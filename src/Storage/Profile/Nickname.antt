-- ===== src/Storage/Profile/Nickname.antt =====
-- A nickname belongs to one actor, and stays while a key bundle names it.
use mcp_symposium.Prelude.{
  ℕ, String, true, false, ◌≡◌, refl, ap, Option, none, some, List, [], ◌∷◌, ◌++◌, inl, inr, arith,
  ◌==◌, trim_space, find, any, rewrite, eq_refl, eq_iff, Bool-cases, Option-cases,
}
use mcp_symposium.Prelude.Rows.{option_map}
use mcp_symposium.Models.{ActorProfile, Tag, ActorTag, Db}
use mcp_symposium.Engine.{Env, World, not_found, Result, ok, err, pure, fail, attempt}
use mcp_symposium.Engine.Keeps.{
  Keeps, keeps_rules, Keeps-now, Keeps-bind, Keeps-create_or_ignore, Keeps-delete_where,
}
use mcp_symposium.Engine.Tables.{create_or_ignore, first_where, upsert}
use mcp_symposium.Engine.Ensures.{
  Ensures, Outcome, Outcome-mono, Ensures-bind, Ensures-Keeps, Ensures-pure, Ensures-upsert,
  Ensures-transaction,
}
use mcp_symposium.Storage.Schema.{profiles, tags, actor_tags}
use mcp_symposium.Storage.Profile.{
  is_nickname, is_rival, not_taken, not_locked, attach_actor_tag, attach_actor_tags, write_profile,
  upsert_actor_profile,
}

-- the actor's profile
abbrev pub profile_row : String → Db → Option ActorProfile
profile_row actor_id d = find (λ p. p.actor_id == actor_id) d.profiles

-- The actor has this name, nickname and bio, and no other actor has the nickname.
pub record IsKnownAs (actor_id : String) (p : ActorProfile) (d : Db) : Type 0 where
  pub named : option_map (λ q. q.nickname) (profile_row actor_id d) ≡ some p.nickname
  pub alone : any (is_rival actor_id p.nickname) d.profiles ≡ false

module _ (env : Env) (actor_id nickname : String) where
  abbrev IsFree : Db → Type 0
  IsFree d = any (is_rival actor_id nickname) d.profiles ≡ false

  not_found-none :
      (ps : List ActorProfile)
      → find (is_rival actor_id nickname) ps ≡ none
      → any (is_rival actor_id nickname) ps ≡ false
  not_found-none [] h = refl
  not_found-none (p ∷ ps) h = elim (Bool-cases (is_rival actor_id nickname p)) [
    | inl hit ↦ absurd (cc (rw hit at h))
    | inr miss ↦ rw miss (not_found-none ps (rw miss at h))
  ]

  -- the lookup that finds no rival has shown that there is none
  abbrev Met : Result ActorProfile → Db → Type 0
  Met (err not_found) d = IsFree d
  Met _ d = Unit

  lookup-Met :
      Ensures (λ _. Unit) (attempt (first_where env profiles (is_rival actor_id nickname))) Met
  unfolding attempt first_where
  lookup-Met = record {
    at = λ w _. elim (Bool-cases (env.fails w.step)) [
      | inl down ↦ rw down tt
      | inr up ↦ elim (Option-cases (find (is_rival actor_id nickname) w.db.profiles)) [
        | inl missing ↦ rw (up, missing) (not_found-none w.db.profiles missing)
        | inr (p, here) ↦ rw (up, here) tt
      ]
    ];
  }

  not_taken-Ensures : (r : Result ActorProfile) → Ensures (Met r) (not_taken env r) (λ _. IsFree)
  unfolding not_taken pure fail
  not_taken-Ensures (ok p) = record { at = λ w h. tt }
  not_taken-Ensures (err not_found) = record { at = λ w h. h }
  not_taken-Ensures (err e) = record { at = λ w h. tt }

  rivals-append :
      (ps : List ActorProfile) (p : ActorProfile)
      → (p.actor_id == actor_id) ≡ true
      → any (is_rival actor_id nickname) ps ≡ false
      → any (is_rival actor_id nickname) (ps ++ p ∷ []) ≡ false
  rivals-append [] p own h = rw own (ground arith)
  rivals-append (q ∷ qs) p own h = ground (arith, rivals-append qs p own)

  rivals-rewrite :
      (f : ActorProfile → ActorProfile) (ps : List ActorProfile)
      → ((p : ActorProfile) → (f p).actor_id ≡ p.actor_id)
      → any (is_rival actor_id nickname) ps ≡ false
      → any (is_rival actor_id nickname) (rewrite (λ p. actor_id == p.actor_id) f ps) ≡ false
  rivals-rewrite f [] keeps h = refl
  rivals-rewrite f (q ∷ qs) keeps h = elim (Bool-cases (actor_id == q.actor_id)) [
    | inl own ↦
        rw (own, keeps q)
          (ground (
            arith,
            rivals-rewrite f qs keeps,
            eq_iff actor_id q.actor_id,
            eq_iff q.actor_id actor_id,
            eq_refl actor_id,
          ))
    | inr other ↦ rw other (ground (arith, rivals-rewrite f qs keeps))
  ]

  module _ (name bio : String) where
    abbrev drafted : ℕ → ActorProfile
    drafted at = record {
      actor_id = actor_id;
      name = name;
      nickname = nickname;
      bio = bio;
      updated_at = at;
    }

    abbrev renamed : ℕ → ActorProfile → ActorProfile
    renamed at p = record p { name = name; nickname = nickname; bio = bio; updated_at = at }

    named-rewrite :
        (at : ℕ) (ps : List ActorProfile)
        → any (λ p. actor_id == p.actor_id) ps ≡ true
        → option_map
            (λ q. q.nickname)
            (find
              (λ p. p.actor_id == actor_id)
              (rewrite (λ p. actor_id == p.actor_id) (renamed at) ps))
          ≡ some nickname
    named-rewrite at [] h = cc
    named-rewrite at (q ∷ qs) h = elim (Bool-cases (actor_id == q.actor_id)) [
      | inl own ↦
          let same : (q.actor_id == actor_id) ≡ true =
            ground (arith, eq_iff actor_id q.actor_id, eq_iff q.actor_id actor_id) in
          rw (own, same) refl
      | inr other ↦
          let differs : (q.actor_id == actor_id) ≡ false =
            ground (arith, eq_iff actor_id q.actor_id, eq_iff q.actor_id actor_id) in
          rw (other, differs) (named-rewrite at qs (rw other at h))
    ]

    named-append :
        (at : ℕ) (ps : List ActorProfile)
        → any (λ p. actor_id == p.actor_id) ps ≡ false
        → find (λ p. p.actor_id == actor_id) (ps ++ drafted at ∷ []) ≡ some (drafted at)
    named-append at [] h = rw (eq_refl actor_id) refl
    named-append at (q ∷ qs) h =
        ground (arith, named-append at qs, eq_iff actor_id q.actor_id, eq_iff q.actor_id actor_id)

    profile-Ensures :
        (at : ℕ)
        → Ensures IsFree
            (upsert env profiles
              (λ a b. a.actor_id == b.actor_id)
              (λ p. record p { name = name; nickname = nickname; bio = bio; updated_at = at })
              (drafted at))
            (λ _. IsKnownAs actor_id (drafted at))
    profile-Ensures at =
        Ensures-upsert env profiles _ _ (drafted at)
          (λ d free old. record {
            named = named-rewrite at d.profiles old;
            alone =
                rivals-rewrite
                  (λ p. record p { name = name; nickname = nickname; bio = bio; updated_at = at })
                  d.profiles (λ p. refl) free;
          })
          (λ d free new. record {
            named =
                ap (option_map (λ (q : ActorProfile). q.nickname)) (named-append at d.profiles new);
            alone = rivals-append d.profiles (drafted at) (eq_refl actor_id) free;
          })

  tag-Keeps :
      {P : Db → Type 0}
      → ((d : Db) (l : List Tag) → P d → P (record d { tags = l }))
      → ((d : Db) (l : List ActorTag) → P d → P (record d { actor_tags = l }))
      → (name : String) → Keeps P (attach_actor_tag env actor_id name)
  unfolding attach_actor_tag
  tag-Keeps {P} untagged unlinked name = search (keeps_rules, insert_tag, insert_link) depth 10
    where
      insert_tag : (t : Tag) → Keeps P (create_or_ignore env tags t)
      insert_tag t = Keeps-create_or_ignore env tags t (λ d h _. untagged d _ h)

      insert_link : (l : ActorTag) → Keeps P (create_or_ignore env actor_tags l)
      insert_link l = Keeps-create_or_ignore env actor_tags l (λ d h _. unlinked d _ h)

  tags-Keeps :
      (p : ActorProfile) (names : List String)
      → Keeps (IsKnownAs actor_id p) (attach_actor_tags env actor_id names)
  unfolding attach_actor_tags
  tags-Keeps p [] = search keeps_rules
  tags-Keeps p (n ∷ names) =
      Keeps-bind _ _
        (tag-Keeps (λ d l h. record { named = h.named; alone = h.alone })
          (λ d l h. record { named = h.named; alone = h.alone }) (trim_space n))
        (λ _. tags-Keeps p names)

  lock-Keeps :
      {P : Db → Type 0} (own : Result ActorProfile) → Keeps P (not_locked env actor_id nickname own)
  unfolding not_locked
  lock-Keeps (ok p) = search keeps_rules depth 8
  lock-Keeps (err e) = search keeps_rules

  write-Ensures :
      (name bio : String) (names : List String)
      → Ensures
          (λ _. Unit)
          (write_profile env actor_id name nickname bio names)
          (λ p d. IsKnownAs actor_id p d × (p.nickname ≡ nickname))
  unfolding write_profile
  write-Ensures name bio names = Ensures-bind _ _ lookup-Met λ existing.
      Ensures-bind _ _ (not_taken-Ensures existing) λ _.
        Ensures-bind _ _
          (Ensures-Keeps (attempt (first_where env profiles (λ p. p.actor_id == actor_id)))
            (search keeps_rules))
          λ own. Ensures-bind _ _ (Ensures-Keeps _ (lock-Keeps own)) λ _.
            Ensures-bind _ _ (Ensures-Keeps _ (Keeps-now env)) λ at.
              Ensures-bind _ _ (profile-Ensures name bio at) λ _.
                Ensures-bind _ _
                  (Ensures-Keeps _ (
                    Keeps-delete_where env actor_tags _
                      (λ d h. record { named = h.named; alone = h.alone })))
                  λ _.
                    Ensures-bind _ _ (Ensures-Keeps _ (tags-Keeps (drafted name bio at) names))
                      λ _. Ensures-pure _ (λ d h. (h, refl))

-- A profile that UpsertActorProfile returns has the trimmed nickname of the call, which is not empty
-- and made of letters, digits, _ and -; the actor's row has that nickname, and no other actor's row
-- has it.
pub upsert_actor_profile-IsKnownAs :
    (env : Env) (actor_id name nickname bio : String) (names : List String) (w : World)
    → Outcome
        (λ p d.
          IsKnownAs actor_id p d
          × (p.nickname ≡ trim_space nickname)
          × ((trim_space nickname == "") ≡ false)
          × (is_nickname (trim_space nickname) ≡ true))
        (upsert_actor_profile env actor_id name nickname bio names w)
unfolding upsert_actor_profile fail
upsert_actor_profile-IsKnownAs env actor_id name nickname bio names w =
    elim (Bool-cases (trim_space name == "")) [
      | inl nameless ↦ rw nameless tt
      | inr named ↦ elim (Bool-cases (trim_space nickname == "")) [
        | inl blank ↦ rw (named, blank) tt
        | inr full ↦ elim (Bool-cases (is_nickname (trim_space nickname))) [
          | inl valid ↦
              rw (named, full, valid)
                (Outcome-mono (λ p d. IsKnownAs actor_id p d × (p.nickname ≡ trim_space nickname)) _
                  _ (λ p d h. (h.0, h.1, refl, refl))
                  ((Ensures-transaction env _ (
                      write-Ensures env actor_id (trim_space nickname) (trim_space name) bio
                        names)).at
                    w tt))
          | inr bad ↦ rw (named, full, bad) tt
        ]
      ]
    ]
