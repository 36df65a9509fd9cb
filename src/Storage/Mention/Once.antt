-- ===== src/Storage/Mention/Once.antt =====
-- The rows of one reply's mentions: one for an actor, and none for the author.
use mcp_symposium.Prelude.{
  ℕ, ◌+◌, ◌≤◌, String, Bool, false, ◌≡◌, refl, ◌∙◌, ◌&&◌, ◌||◌, Option, none, some, List, [], ◌∷◌,
  ◌++◌, inl, inr, arith, ◌==◌, count, eq_iff, eq_refl, if◌then◌else◌, Bool-cases,
}
use mcp_symposium.Models.{Actor, Mention, Db}
use mcp_symposium.Engine.{Env, World}
use mcp_symposium.Engine.Keeps.{Keeps-now, Keeps-new_uuid}
use mcp_symposium.Engine.Ensures.{
  Ensures, Outcome, Ensures-bind, Ensures-Keeps, Ensures-pure, Ensures-create,
}
use mcp_symposium.Storage.Schema.{mentions}
use mcp_symposium.Storage.Mention.{
  Seen, contains, nothing_seen, notify, settle_name, mention_one, mention_each, create_mentions,
  add_resolved,
}
use mcp_symposium.Storage.Mention.Scan.{mention_names, strip_code_regions}
use mcp_symposium.Storage.Mention.Frame.{resolve-Keeps}

abbrev pub is_given : Option String → String → Bool
is_given none s = false
is_given (some t) s = t == s

-- a row that this reply made for this actor
abbrev pub is_call : String → String → Mention → Bool
is_call reply_id actor_id m = is_given m.reply_id reply_id && m.mentioned_actor_id == actor_id

-- how many rows the reply made for the actor
abbrev pub calls : String → String → Db → ℕ
calls reply_id actor_id d = count (is_call reply_id actor_id) d.mentions

count-append :
    (p : Mention → Bool) (ms : List Mention) (m : Mention)
    → count p (ms ++ m ∷ []) ≡ count p ms + (if p m then 1 else 0)
count-append p [] m = ground arith
count-append p (x ∷ xs) m = ground (arith, count-append p xs m)

module _ (env : Env) (reply_id : String) (thread_id : Option String) (author_id : String) where
  -- the rows are those of the actors seen, and the author is not among these
  abbrev Agrees : Seen → Db → Type 0
  Agrees seen d =
      ((a : String) → calls reply_id a d ≡ (if contains a seen.actors then 1 else 0))
      × (contains author_id seen.actors ≡ false)

  one_more :
      (seen : Seen) (actor : Actor) (a : String)
      → (actor.id == author_id || contains actor.id seen.actors) ≡ false
      → (if contains a seen.actors then 1 else 0)
          + (if reply_id == reply_id && actor.id == a then 1 else 0)
        ≡ (if contains a (actor.id ∷ seen.actors) then 1 else 0)
  one_more seen actor a call = elim (Bool-cases (actor.id == a)) [
    | inl same ↦
        let unseen : contains actor.id seen.actors ≡ false = ground (arith, call) in
        rw (eq_refl reply_id, same, rw ((eq_iff actor.id a).0 same) at unseen) refl
    | inr other ↦ elim (Bool-cases (contains a seen.actors)) [
      | inl old ↦ rw (eq_refl reply_id, other, old) refl
      | inr new ↦ rw (eq_refl reply_id, other, new) refl
    ]
  ]

  notify-Agrees :
      (seen : Seen) (actor : Actor)
      → Ensures (Agrees seen) (notify env (some reply_id) thread_id author_id seen actor) Agrees
  unfolding notify
  notify-Agrees seen actor =
      elim (Bool-cases (actor.id == author_id || contains actor.id seen.actors)) [
        | inl skip ↦ rw skip (Ensures-pure seen (λ d h. h))
        | inr call ↦ rw call (
            Ensures-bind _ _ (Ensures-Keeps _ (Keeps-new_uuid env)) λ id.
              Ensures-bind _ _ (Ensures-Keeps _ (Keeps-now env)) λ at.
                Ensures-bind _ _
                  (Ensures-create env mentions (row id at)
                    {Q = Agrees (record seen { actors = actor.id ∷ seen.actors })}
                    (λ d h _. (
                      λ a.
                          count-append (is_call reply_id a) d.mentions (row id at)
                          ∙ rw (h.0 a) (one_more seen actor a call),
                      ground (arith, call, h.1),
                    )))
                  λ _. Ensures-pure _ (λ d h. h))
      ]
    where
      row : String → ℕ → Mention
      row id at = record {
        id = id;
        reply_id = some reply_id;
        thread_id = thread_id;
        mentioned_actor_id = actor.id;
        created_at = at;
        seen_at = none;
      }

  settle-Agrees :
      (name : String) (seen : Seen) (o : Option Actor)
      → Ensures
          (Agrees seen)
          (settle_name env (some reply_id) thread_id author_id name seen o)
          Agrees
  unfolding settle_name
  settle-Agrees name seen none = Ensures-pure _ (λ d h. h)
  settle-Agrees name seen (some actor) = notify-Agrees (add_resolved env name seen) actor

  one-Agrees :
      (name : String) (seen : Seen)
      → Ensures (Agrees seen) (mention_one env (some reply_id) thread_id author_id name seen) Agrees
  unfolding mention_one
  one-Agrees name seen = elim (Bool-cases (contains name seen.names)) [
    | inl again ↦ rw again (Ensures-pure seen (λ d h. h))
    | inr new ↦ rw new (
        Ensures-bind _ _ (Ensures-Keeps _ (resolve-Keeps env name))
          λ target. settle-Agrees name (record seen { names = name ∷ seen.names }) target)
  ]

  each-Agrees :
      (names : List String) (seen : Seen)
      → Ensures
          (Agrees seen)
          (mention_each env (some reply_id) thread_id author_id names seen)
          Agrees
  unfolding mention_each
  each-Agrees [] seen = Ensures-pure seen (λ d h. h)
  each-Agrees (name ∷ names) seen = Ensures-bind _ _ (one-Agrees name seen) (each-Agrees names)

  -- Whatever names a reply has, in whatever spellings, and if it had no rows before: createMentions
  -- that succeeds has made at most one row for each actor, and none for the author.
  pub calls-create_mentions :
      (body : String) (w : World)
      → ((a : String) → calls reply_id a w.db ≡ 0)
      → Outcome
          (λ _ d. ((a : String) → calls reply_id a d ≤ 1) × (calls reply_id author_id d ≡ 0))
          (create_mentions env (some reply_id) thread_id author_id body w)
  unfolding create_mentions
  calls-create_mentions body w unmade =
      (Ensures-bind {P = Agrees (nothing_seen env)} _ _
          (each-Agrees (mention_names (strip_code_regions body)) (nothing_seen env))
          λ seen.
            Ensures-pure _
              (λ d h. (λ a. rw (h.0 a) (ground arith), rw (h.0 author_id, h.1) refl))).at
        w (unmade, refl)
