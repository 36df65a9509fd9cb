-- ===== src/Storage/CatchUp/Cursor.antt =====
-- The loop of CatchUp over the watches: what it leaves of the read cursors.
use mcp_symposium.Prelude.{
  ℕ, suc, String, Bool, true, false, not, ◌≡◌, refl, sym, ap, ◌∙◌, ◌||◌, List, [], ◌∷◌, ◌++◌, inl,
  inr, ◌⊎◌, arith, ◌==◌, leb, if◌then◌else◌, Bool-cases, rewrite, select, all, All, eq_iff, eq_refl,
}
use mcp_symposium.Models.{Reply, ThreadWatch, Db}
use mcp_symposium.Engine.{Env, World, tick, ok, ◌>>=◌, now}
use mcp_symposium.Engine.Order.{Ascending, Sorts, all-perm, all-select, all_mono}
use mcp_symposium.Engine.Tables.{find_where, update_where}
use mcp_symposium.Storage.Thread.{is_watch}
use mcp_symposium.Engine.Transactions.{Works}
use mcp_symposium.Storage.CatchUp.{is_unread, last, unread_of, advance, read_watches}

-- No reply is newer than the cursor.
abbrev pub Caught : List Reply → ThreadWatch → Type 0
Caught rs v = all (λ r. not (is_unread v r)) rs ≡ true

abbrev pub Among : ThreadWatch → List ThreadWatch → Type 0
Among v [] = ⊥
Among v (w ∷ ws) = (v ≡ w) ⊎ Among v ws

-- The row is another actor's, has no unread replies, or is still to be visited.
abbrev pub Settled : String → List Reply → List ThreadWatch → ThreadWatch → Type 0
Settled actor_id rs ws v = ((v.actor_id == actor_id) ≡ false) ⊎ Caught rs v ⊎ Among v ws

-- The last of the ascending rows is the greatest.
last-max :
    (r : Reply) (rs : List Reply)
    → Ascending (λ (x : Reply). x.created_at) (r ∷ rs)
    → all (λ x. leb x.created_at (last r rs).created_at) (r ∷ rs) ≡ true
last-max r [] h = ground arith
last-max r (s ∷ rs) h = ground (arith, last-max s rs h.1)

last-all :
    (p : Reply → Bool) (r : Reply) (rs : List Reply) → all p (r ∷ rs) ≡ true → p (last r rs) ≡ true
last-all p r [] h = ground arith
last-all p r (s ∷ rs) h = last-all p s rs (ground arith)

select-all : (p : Reply → Bool) (rs : List Reply) → all p (select p rs) ≡ true
select-all p [] = refl
select-all p (r ∷ rs) = ground (arith, select-all p rs)

module _ (env : Env) (sorts : Sorts env) (rs : List Reply) (w : ThreadWatch) where
  -- the replies that the loop reads for this watch
  abbrev pub unread : List Reply
  unread = env.sort_asc (λ r. r.created_at) (select (is_unread w) rs)

  -- what holds of all the replies read holds of all unread replies of the table
  all-unread :
      (p : Reply → Bool) → all p unread ≡ true → all (λ r. not (is_unread w r) || p r) rs ≡ true
  all-unread p h =
      sym (all-select p (is_unread w) rs)
      ∙ sym (all-perm p (sorts.rearranges (λ r. r.created_at) (select (is_unread w) rs)))
      ∙ h

  pub none_unread : unread ≡ [] → Caught rs w
  none_unread e =
      all_mono (λ r. not (is_unread w r) || false) (λ r. not (is_unread w r)) (λ r h. ground arith)
        rs (all-unread (λ r. false) (rw e))

  -- a cursor at the newest reply read leaves none of the thread unread
  newest-Caught :
      (r : Reply) (us : List Reply) (v : ThreadWatch)
      → unread ≡ r ∷ us
      → (v.thread_id == w.thread_id) ≡ true
      → v.last_read_at ≡ (last r us).created_at
      → Caught rs v
  newest-Caught r us v e same at =
      all_mono (λ x. not (is_unread w x) || leb x.created_at (last r us).created_at)
        (λ x. not (is_unread v x))
        (λ x h. ground (arith, (eq_iff v.thread_id w.thread_id).0 same, newer)) rs
        (all-unread (λ x. leb x.created_at (last r us).created_at)
          (rw e (
            last-max r us (rw e at (sorts.ascends (λ r. r.created_at) (select (is_unread w) rs))))))
    where
      newer : is_unread w (last r us) ≡ true
      newer = last-all (is_unread w) r us (
          rw e at (
            all-perm (is_unread w) (sorts.rearranges (λ r. r.created_at) (select (is_unread w) rs))
            ∙ select-all (is_unread w) rs))

-- The unread replies of each watch in turn, each watch's oldest first.
unfoldable pub all_unread : Env → List Reply → List ThreadWatch → List Reply
all_unread env rs [] = []
all_unread env rs (w ∷ ws) =
    env.sort_asc (λ r. r.created_at) (select (is_unread w) rs) ++ all_unread env rs ws

-- What one round leaves of a row of the table.
abbrev moved : String → String → ℕ → ℕ → ThreadWatch → ThreadWatch
moved actor_id thread_id newest at v =
    if is_watch actor_id thread_id v then record v { last_read_at = newest; updated_at = at } else v

module _ (env : Env) (works : Works env) (sorts : Sorts env) (actor_id : String)
    (rs : List Reply) where
  pub unread_of_lem :
      (w : ThreadWatch) (s : World)
      → s.db.replies ≡ rs
      → unread_of env w s ≡ (ok (unread env sorts rs w), tick s)
  unfolding unread_of ◌>>=◌ find_where
  unread_of_lem w s e = rw (works s.step, e)

  -- one round settles the rows of its thread
  moved-Settled :
      (w : ThreadWatch) (ws : List ThreadWatch) (r : Reply) (us : List Reply) (at : ℕ)
      (v : ThreadWatch)
      → unread env sorts rs w ≡ r ∷ us
      → Settled actor_id rs (w ∷ ws) v
      → Settled actor_id rs ws (moved actor_id w.thread_id (last r us).created_at at v)
  moved-Settled w ws r us at v e h = elim (Bool-cases (is_watch actor_id w.thread_id v)) [
    | inl hit ↦ rw hit (
        inr (
          inl (
            newest-Caught env sorts rs w r us
              (record v { last_read_at = (last r us).created_at; updated_at = at }) e (ground arith)
              refl)))
    | inr miss ↦ rw miss (missed miss h)
  ]
    where
      missed :
          is_watch actor_id w.thread_id v ≡ false
          → Settled actor_id rs (w ∷ ws) v
          → Settled actor_id rs ws v
      missed miss (inl other) = inl other
      missed miss (inr (inl done)) = inr (inl done)
      missed miss (inr (inr (inl same))) =
          inl (ground (arith, ap (λ (x : ThreadWatch). x.thread_id) same, eq_refl w.thread_id))
      missed miss (inr (inr (inr later))) = inr (inr later)

  still-Settled :
      (w : ThreadWatch) (ws : List ThreadWatch) (v : ThreadWatch)
      → unread env sorts rs w ≡ []
      → Settled actor_id rs (w ∷ ws) v
      → Settled actor_id rs ws v
  still-Settled w ws v e (inl other) = inl other
  still-Settled w ws v e (inr (inl done)) = inr (inl done)
  still-Settled w ws v e (inr (inr (inl same))) = inr (inl (rw same (none_unread env sorts rs w e)))
  still-Settled w ws v e (inr (inr (inr later))) = inr (inr later)

  moved-All :
      (w : ThreadWatch) (ws : List ThreadWatch) (r : Reply) (us : List Reply) (at : ℕ)
      (vs : List ThreadWatch)
      → unread env sorts rs w ≡ r ∷ us
      → All (Settled actor_id rs (w ∷ ws)) vs
      → All (Settled actor_id rs ws) (
          rewrite
            (is_watch actor_id w.thread_id)
            (λ v. record v { last_read_at = (last r us).created_at; updated_at = at })
            vs)
  moved-All w ws r us at [] e h = tt
  moved-All w ws r us at (v ∷ vs) e h =
      (moved-Settled w ws r us at v e h.0, moved-All w ws r us at vs e h.1)

  still-All :
      (w : ThreadWatch) (ws vs : List ThreadWatch)
      → unread env sorts rs w ≡ []
      → All (Settled actor_id rs (w ∷ ws)) vs
      → All (Settled actor_id rs ws) vs
  still-All w ws [] e h = tt
  still-All w ws (v ∷ vs) e h = (still-Settled w ws v e h.0, still-All w ws vs e h.1)

  -- only the cursors change
  abbrev pub Cursors : World → World → Type 0
  Cursors s s' = s'.db ≡ record s.db { thread_watches = s'.db.thread_watches }

  abbrev pub Reads : List ThreadWatch → World → Type 0
  Reads ws s =
      let r = read_watches env actor_id ws s in
      (r.0 ≡ ok (all_unread env rs ws))
      × Cursors s r.1
      × All (Settled actor_id rs []) r.1.db.thread_watches

  round_lem :
      (w : ThreadWatch) (ws : List ThreadWatch) (u : List Reply) (s t : World)
      → s.db.replies ≡ rs
      → unread env sorts rs w ≡ u
      → advance env actor_id w u (tick s) ≡ (ok tt, t)
      → (read_watches env actor_id ws t).0 ≡ ok (all_unread env rs ws)
      → read_watches env actor_id (w ∷ ws) s
        ≡ (ok (all_unread env rs (w ∷ ws)), (read_watches env actor_id ws t).1)
  unfolding read_watches all_unread ◌>>=◌
  round_lem w ws u s t same e moves r = rw (unread_of_lem w s same, e, moves, r)

  round-Reads :
      (w : ThreadWatch) (ws : List ThreadWatch) (u : List Reply) (s t : World)
      → s.db.replies ≡ rs
      → unread env sorts rs w ≡ u
      → advance env actor_id w u (tick s) ≡ (ok tt, t)
      → Cursors s t
      → Reads ws t
      → Reads (w ∷ ws) s
  round-Reads w ws u s t same e moves kept (r, c, a) =
      let whole = round_lem w ws u s t same e moves r in
      (
        rw whole,
        rw whole (
            c
            ∙ ap
                (λ (d : Db). record d {
                  thread_watches = (read_watches env actor_id ws t).1.db.thread_watches;
                })
                kept),
        rw whole a,
      )

  abbrev after_advance : ThreadWatch → Reply → List Reply → World → World
  after_advance w r us s = record (tick (tick (tick s))) {
    db = record s.db {
      thread_watches =
          rewrite (is_watch actor_id w.thread_id)
            (λ v. record v {
              last_read_at = (last r us).created_at;
              updated_at = env.clock (suc s.step);
            })
            s.db.thread_watches;
    };
  }

  advance_lem :
      (w : ThreadWatch) (r : Reply) (us : List Reply) (s : World)
      → advance env actor_id w (r ∷ us) (tick s) ≡ (ok tt, after_advance w r us s)
  unfolding advance ◌>>=◌ update_where now
  advance_lem w r us s = rw (works (suc (suc s.step)))

  visit :
      (w : ThreadWatch) (ws : List ThreadWatch) (s : World) (u : List Reply)
      → unread env sorts rs w ≡ u
      → s.db.replies ≡ rs
      → All (Settled actor_id rs (w ∷ ws)) s.db.thread_watches
      → ((t : World)
          → t.db.replies ≡ rs
          → All (Settled actor_id rs ws) t.db.thread_watches
          → Reads ws t)
      → Reads (w ∷ ws) s
  unfolding advance ◌>>=◌
  visit w ws s [] e same h go =
      round-Reads w ws [] s (tick s) same e refl refl
        (go (tick s) same (still-All w ws s.db.thread_watches e h))
  visit w ws s (r ∷ us) e same h go =
      round-Reads w ws (r ∷ us) s (after_advance w r us s) same e (advance_lem w r us s) refl
        (go (after_advance w r us s) same (moved-All w ws r us _ s.db.thread_watches e h))

  -- The loop returns, changes nothing but the cursors, and settles every row.
  pub read_watches-Reads :
      (ws : List ThreadWatch) (s : World)
      → s.db.replies ≡ rs
      → All (Settled actor_id rs ws) s.db.thread_watches
      → Reads ws s
  unfolding read_watches all_unread ◌>>=◌
  read_watches-Reads [] s same h = (refl, refl, h)
  read_watches-Reads (w ∷ ws) s same h =
      visit w ws s (unread env sorts rs w) refl same h (λ t. read_watches-Reads ws t)
