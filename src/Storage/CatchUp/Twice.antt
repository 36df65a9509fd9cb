-- ===== src/Storage/CatchUp/Twice.antt =====
-- What CatchUp returns, and that a second call finds nothing.
use mcp_symposium.Prelude.{
  ℕ, suc, String, Bool, true, false, ◌≡◌, refl, ap, ◌∙◌, some, List, [], ◌∷◌, inl, inr, arith, ◌==◌,
  if◌then◌else◌, Bool-cases, rewrite, select, All,
}
use mcp_symposium.Models.{Reply, ThreadWatch, Mention, Db}
use mcp_symposium.Engine.{Env, World, tick, ok, Tx, pure, ◌>>=◌, ◌>>◌, now}
use mcp_symposium.Engine.Order.{Sorts, sort-nil, select_none}
use mcp_symposium.Engine.Tables.{find_where, update_where}
use mcp_symposium.Storage.Schema.{mentions}
use mcp_symposium.Engine.Transactions.{Works, transaction-ok}
use mcp_symposium.Storage.CatchUp.{
  CatchUpResult, is_unread, is_new, read_watches, mark_mentions, read_all, catch_up,
}
use mcp_symposium.Storage.CatchUp.Cursor.{Among, Settled, all_unread, read_watches-Reads}

abbrev pub watches_of : String → Db → List ThreadWatch
watches_of actor_id d = select (λ w. w.actor_id == actor_id) d.thread_watches

-- Nothing is new for the actor.
abbrev pub IsQuiet : String → Db → Type 0
IsQuiet actor_id d =
    All (Settled actor_id d.replies []) d.thread_watches
    × All (λ m. is_new actor_id m ≡ false) d.mentions

-- The unread replies of every thread that the actor watches, and the mentions not yet seen.
abbrev pub fresh_result : Env → String → Db → CatchUpResult
fresh_result env actor_id d = record {
  unread_replies = all_unread env d.replies (watches_of actor_id d);
  new_mentions = select (is_new actor_id) d.mentions;
}

Among-weaken :
    (v w : ThreadWatch) (b : Bool) (ws : List ThreadWatch)
    → Among v ws
    → Among v (if b then w ∷ ws else ws)
Among-weaken v w true ws h = inr h
Among-weaken v w false ws h = h

module _ (actor_id : String) (rs : List Reply) where
  weaken-All :
      (w : ThreadWatch) (b : Bool) (ws vs : List ThreadWatch)
      → All (Settled actor_id rs ws) vs
      → All (Settled actor_id rs (if b then w ∷ ws else ws)) vs
  weaken-All w b ws [] h = tt
  weaken-All w b ws (v ∷ vs) h = (one h.0, weaken-All w b ws vs h.1)
    where
      one : Settled actor_id rs ws v → Settled actor_id rs (if b then w ∷ ws else ws) v
      one (inl other) = inl other
      one (inr (inl done)) = inr (inl done)
      one (inr (inr later)) = inr (inr (Among-weaken v w b ws later))

  -- every watch of the actor is visited
  visited-All :
      (vs : List ThreadWatch)
      → All (Settled actor_id rs (select (λ w. w.actor_id == actor_id) vs)) vs
  visited-All [] = tt
  visited-All (v ∷ vs) = (
    elim (Bool-cases (v.actor_id == actor_id)) [
      | inl own ↦ rw own (inr (inr (inl refl)))
      | inr other ↦ inl other
    ],
    weaken-All v (v.actor_id == actor_id) (select (λ w. w.actor_id == actor_id) vs) vs
        (visited-All vs),
  )

seen-All :
    (actor_id : String) (at : ℕ) (ms : List Mention)
    → All
        (λ m. is_new actor_id m ≡ false)
        (rewrite (is_new actor_id) (λ n. record n { seen_at = some at }) ms)
seen-All actor_id at [] = tt
seen-All actor_id at (m ∷ ms) = (ground arith, seen-All actor_id at ms)

none-All :
    (actor_id : String) (ms : List Mention)
    → select (is_new actor_id) ms ≡ []
    → All (λ m. is_new actor_id m ≡ false) ms
none-All actor_id [] h = tt
none-All actor_id (m ∷ ms) h = (ground arith, none-All actor_id ms (ground arith))

pub select_quiet :
    {A : Type 0} (p : A → Bool) (xs : List A) → All (λ x. p x ≡ false) xs → select p xs ≡ []
select_quiet p [] h = refl
select_quiet p (x ∷ xs) h = rw h.0 (select_quiet p xs h.1)

module _ (env : Env) (works : Works env) (actor_id : String) where
  -- marking leaves nothing new, and touches only the mentions
  mark-Quiet :
      (s : World) (ms : List Mention)
      → select (is_new actor_id) s.db.mentions ≡ ms
      → let r = mark_mentions env actor_id ms s in
        (r.0 ≡ ok tt)
        × (r.1.db ≡ record s.db { mentions = r.1.db.mentions })
        × All (λ m. is_new actor_id m ≡ false) r.1.db.mentions
  unfolding mark_mentions ◌>>=◌ update_where now
  mark-Quiet s [] e = (refl, refl, none-All actor_id s.db.mentions e)
  mark-Quiet s (m ∷ ms) e =
      rw (works (suc s.step)) (refl, refl, seen-All actor_id (env.clock s.step) s.db.mentions)

module _ (env : Env) (works : Works env) (sorts : Sorts env) (actor_id : String) where
  -- the second half of the transaction
  abbrev mentions_part : List Reply → Tx CatchUpResult
  mentions_part us = do
    new ← find_where env mentions (is_new actor_id)
    mark_mentions env actor_id new
    pure (record { unread_replies = us; new_mentions = new })

  mentions_part_lem :
      (us : List Reply) (t : World)
      → let r = mentions_part us t in
        (r.0
          ≡ ok (record {
            unread_replies = us;
            new_mentions = select (is_new actor_id) t.db.mentions;
          }))
        × (r.1.db ≡ record t.db { mentions = r.1.db.mentions })
        × All (λ m. is_new actor_id m ≡ false) r.1.db.mentions
  unfolding ◌>>=◌ find_where
  mentions_part_lem us t =
      let (done, kept, quiet) =
        mark-Quiet env works actor_id (tick t) (select (is_new actor_id) t.db.mentions) refl in
      rw (works t.step, done) (refl, kept, quiet)

  read_all_lem :
      (s : World)
      → let r = read_all env actor_id s in
        (r.0 ≡ ok (fresh_result env actor_id s.db)) × IsQuiet actor_id r.1.db
  unfolding read_all ◌>>=◌ find_where
  read_all_lem s =
      let ws = watches_of actor_id s.db in
      let t = (read_watches env actor_id ws (tick s)).1 in
      let (read, cursors, settled) =
        read_watches-Reads env works sorts actor_id s.db.replies ws (tick s) refl
          (visited-All actor_id s.db.replies s.db.thread_watches) in
      let (out, kept, quiet) = mentions_part_lem (all_unread env s.db.replies ws) t in
      rw (works s.step, read)
        (
          out
              ∙ ap
                  (λ (d : Db). ok (record {
                    unread_replies = all_unread env s.db.replies ws;
                    new_mentions = select (is_new actor_id) d.mentions;
                  }))
                  cursors,
          (
            (rw
                (
                  ap (λ (d : Db). d.replies) kept ∙ ap (λ (d : Db). d.replies) cursors,
                  ap (λ (d : Db). d.thread_watches) kept,
                )
                settled),
            quiet,
          ),
        )

  -- While the driver works, CatchUp returns the unread replies of every thread that the actor
  -- watches, each thread's oldest first, with all mentions that the actor has not seen, and after it
  -- nothing is new for the actor.
  pub catch_up_lem :
      (w : World)
      → let r = catch_up env actor_id w in
        (r.0 ≡ ok (fresh_result env actor_id w.db)) × IsQuiet actor_id r.1.db
  unfolding catch_up
  catch_up_lem w =
      let (out, quiet) = read_all_lem (tick w) in
      rw (transaction-ok env works (read_all env actor_id) w out) (refl, quiet)

  pub all_unread-quiet :
      (rs : List Reply) (vs : List ThreadWatch)
      → All (Settled actor_id rs []) vs
      → all_unread env rs (select (λ w. w.actor_id == actor_id) vs) ≡ []
  unfolding all_unread
  all_unread-quiet rs [] h = refl
  all_unread-quiet rs (v ∷ vs) h = elim (Bool-cases (v.actor_id == actor_id)) [
    | inl own ↦ rw (own, own_quiet v own h.0) (all_unread-quiet rs vs h.1)
    | inr other ↦ rw other (all_unread-quiet rs vs h.1)
  ]
    where
      own_quiet :
          (v : ThreadWatch)
          → (v.actor_id == actor_id) ≡ true
          → Settled actor_id rs [] v
          → env.sort_asc (λ (r : Reply). r.created_at) (select (is_unread v) rs) ≡ []
      own_quiet v own (inl other) = cc
      own_quiet v own (inr (inl done)) =
          rw (select_none (is_unread v) rs done) (sort-nil sorts (λ (r : Reply). r.created_at))
      own_quiet v own (inr (inr never)) = absurd never

  -- While the driver works: CatchUp called again, with nothing new in between, returns nothing.
  pub catch_up_twice :
      (w : World)
      → (catch_up env actor_id (catch_up env actor_id w).1).0
        ≡ ok (record { unread_replies = []; new_mentions = [] })
  catch_up_twice w =
      let (out, quiet) = catch_up_lem w in
      let d = (catch_up env actor_id w).1.db in
      (catch_up_lem (catch_up env actor_id w).1).0
      ∙ rw (
        all_unread-quiet d.replies d.thread_watches quiet.0,
        select_quiet (is_new actor_id) d.mentions quiet.1,
      )
