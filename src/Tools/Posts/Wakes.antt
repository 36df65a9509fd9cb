-- ===== src/Tools/Posts/Wakes.antt =====
-- Whom a reply wakes, and what is refused.
use mcp_symposium.Prelude.{
  String, ◌≡◌, refl, ap, sym, ◌∙◌, Bool, ◌||◌, ◌&&◌, not, none, some, List, [], ◌∷◌, any, map,
  select, ◌==◌, arith, Bool-cases, inl, inr, eq_iff,
}
use mcp_symposium.Models.{Actor, Reply, MentionReport, Watcher, Mention, Db}
use mcp_symposium.Encoding.{Bytes}
use mcp_symposium.Engine.{Env, secret_shaped, ok, err, World, tick, pure, attempt, fail, ◌>>=◌}
use mcp_symposium.Engine.Runs.{bind_ok, read_ok}
use mcp_symposium.Engine.Tables.{find_where}
use mcp_symposium.Engine.Transactions.{Works}
use mcp_symposium.Storage.Thread.{add_reply}
use mcp_symposium.Storage.CatchUp.{is_text, watchers_of, mentioned_for_reply}
use mcp_symposium.Tools.SecretGuard.{check_body_for_secrets}
use mcp_symposium.Tools.CodeBlocks.{extract_code_blocks}
use mcp_symposium.Tools.Posts.{
  ReplyInput, ReplyOutput, Scanner, add_key, add_keys, targets, notify_reply_targets,
  refuse_secrets, reply_handler,
}

abbrev pub is_in : String → List String → Bool
is_in id ids = any (λ i. i == id) ids

-- the actor watches the thread, or is mentioned in the reply
abbrev pub watches_thread : String → String → Db → Bool
watches_thread thread_id id d =
    any (λ (w : Watcher). w.thread_id == thread_id && w.actor_id == id) d.watchers

abbrev pub is_mentioned_in : String → String → Db → Bool
is_mentioned_in reply_id id d =
    any (λ (m : Mention). is_text m.reply_id reply_id && m.mentioned_actor_id == id) d.mentions

is_in-add_key :
    (id x : String) (ids : List String) → is_in id (add_key x ids) ≡ ((x == id) || is_in id ids)
is_in-add_key id x ids = elim (Bool-cases (x == id)) [
  | inl same ↦
      let e : x ≡ id = (eq_iff x id).0 same in rw (sym e) (ground (arith, (eq_iff x x).1 refl))
  | inr other ↦ ground (arith, other)
]

is_in-add_keys :
    (id : String) (xs ids : List String)
    → is_in id (add_keys xs ids) ≡ (is_in id xs || is_in id ids)
is_in-add_keys id [] ids = refl
is_in-add_keys id (x ∷ xs) ids =
    ground (arith, is_in-add_keys id xs (add_key x ids), is_in-add_key id x ids)

is_in-select :
    (id author : String) (xs : List String)
    → is_in id (select (λ i. not (i == author)) xs) ≡ (not (id == author) && is_in id xs)
is_in-select id author [] = ground arith
is_in-select id author (x ∷ xs) = elim (Bool-cases (x == id)) [
  | inl same ↦
      let e : x ≡ id = (eq_iff x id).0 same in
      rw (sym e) (ground (arith, rw (sym e) at (is_in-select id author xs)))
  | inr other ↦ ground (arith, other, is_in-select id author xs)
]

is_in-map :
    {A : Type 0} (p : A → Bool) (key : A → String) (id : String) (xs : List A)
    → is_in id (map key (select p xs)) ≡ any (λ x. p x && key x == id) xs
is_in-map p key id [] = refl
is_in-map p key id (x ∷ xs) = ground (arith, is_in-map p key id xs)

-- The actor is woken by a reply of the author: as one who is mentioned in it, or as a watcher who did
-- not write it.
abbrev pub is_addressed : String → String → String → String → Db → Bool
is_addressed thread_id reply_id author id d =
    is_mentioned_in reply_id id d || (not (id == author) && watches_thread thread_id id d)

abbrev watching_ids : String → Db → List String
watching_ids thread_id d = map (λ x. x.actor_id) (select (λ x. x.thread_id == thread_id) d.watchers)

abbrev mentioned_ids : String → Db → List String
mentioned_ids reply_id d =
    map (λ m. m.mentioned_actor_id) (select (λ m. is_text m.reply_id reply_id) d.mentions)

abbrev woken_ids : String → String → String → Db → List String
woken_ids thread_id reply_id author d =
    targets author (ok (watching_ids thread_id d)) (ok (mentioned_ids reply_id d))

is_in-woken_ids :
    (thread_id reply_id author id : String) (d : Db)
    → is_in id (woken_ids thread_id reply_id author d) ≡ is_addressed thread_id reply_id author id d
is_in-woken_ids thread_id reply_id author id d =
    let others = select (λ i. not (i == author)) (watching_ids thread_id d) in
    rw
      (
        is_in-add_keys id (mentioned_ids reply_id d) (add_keys others []),
        is_in-add_keys id others [],
        is_in-select id author (watching_ids thread_id d),
        is_in-map (λ (x : Watcher). x.thread_id == thread_id) (λ x. x.actor_id) id d.watchers,
        is_in-map (λ (m : Mention). is_text m.reply_id reply_id) (λ m. m.mentioned_actor_id) id
            d.mentions,
      )
      (ground arith)

module _ (env : Env) (scanner : Scanner) where
  -- The guard stands before everything: when a pattern of a secret is found in the body, the reply is
  -- refused and nothing at all is done, no row is written and nobody is woken.
  pub reply_handler_secret :
      (actor : Actor) (input : ReplyInput) (quoted : Bytes) (w : World)
      → check_body_for_secrets scanner.find_string input.body ≡ some quoted
      → reply_handler env scanner (some actor) input w ≡ (err secret_shaped, w)
  unfolding reply_handler refuse_secrets ◌>>=◌ fail
  reply_handler_secret actor input quoted w found = rw found refl

  module _ (works : Works env) where
    watchers_of_lem :
        (thread_id : String) (w : World)
        → watchers_of env thread_id w ≡ (ok (watching_ids thread_id w.db), tick w)
    unfolding watchers_of find_where pure
    watchers_of_lem thread_id w =
        bind_ok _ _ w (select (λ x. x.thread_id == thread_id) w.db.watchers) (tick w)
          (read_ok env (λ d. select (λ x. x.thread_id == thread_id) d.watchers) w works)

    mentioned_lem :
        (reply_id : String) (w : World)
        → mentioned_for_reply env reply_id w ≡ (ok (mentioned_ids reply_id w.db), tick w)
    unfolding mentioned_for_reply find_where pure
    mentioned_lem reply_id w =
        bind_ok _ _ w (select (λ m. is_text m.reply_id reply_id) w.db.mentions) (tick w)
          (read_ok env (λ d. select (λ m. is_text m.reply_id reply_id) d.mentions) w works)

    targets_lem :
        (thread_id reply_id author : String) (w : World)
        → (ids : List String) × (notify_reply_targets env scanner thread_id reply_id author w
            ≡ (ok ids, tick (tick w)))
          × ((id : String) → is_in id ids ≡ is_addressed thread_id reply_id author id w.db)
    unfolding notify_reply_targets ◌>>=◌ attempt pure
    targets_lem thread_id reply_id author w = (
      woken_ids thread_id reply_id author w.db,
      rw (watchers_of_lem thread_id w, mentioned_lem reply_id (tick w)) refl,
      λ id. is_in-woken_ids thread_id reply_id author id w.db,
    )

    -- When the body passes the guard and AddReply succeeds, the handler answers with the reply and
    -- wakes exactly those who are mentioned in the reply and those who watch the thread and did not
    -- write it: while the driver works.
    pub reply_handler-wakes :
        (actor : Actor) (input : ReplyInput) (w w' : World) (reply : Reply) (report : MentionReport)
        → check_body_for_secrets scanner.find_string input.body ≡ none
        → add_reply env input.thread_id actor.id input.body input.watchers w
          ≡ (ok (reply, report), w')
        → (out : ReplyOutput) × (ids : List String) × ((reply_handler env scanner
              (some actor)
              input
              w).0
            ≡ ok (out, ids))
          × (out.reply_id ≡ reply.id)
          × (out.mentions ≡ report)
          × ((id : String) → is_in id ids ≡ is_addressed input.thread_id reply.id actor.id id w'.db)
    unfolding reply_handler refuse_secrets pure
    reply_handler-wakes actor input w w' reply report clean added =
        let (ids, ran, exact) = targets_lem input.thread_id reply.id actor.id w' in
        let passed : refuse_secrets env scanner input.body w ≡ (ok tt, w) = rw clean refl in
        (
          record {
            reply_id = reply.id;
            mentions = report;
            code_blocks = extract_code_blocks scanner.sum input.body;
          },
          ids,
          ap (λ r. r.0)
              (bind_ok _ _ w tt w passed
                ∙ bind_ok _ _ w (reply, report) w' added
                ∙ bind_ok _ _ w' ids (tick (tick w')) ran),
          refl,
          refl,
          exact,
        )
