-- ===== src/Tools/WaitForActivity/Answers.antt =====
-- A call ends when its deadline is taken at the latest, and what its answer means.
use mathlib.Core.Logic.{◌⊎◌}
use mcp_symposium.Prelude.{
  ◌++◌, ℕ, String, ◌≡◌, refl, ap, ◌∙◌, Bool, true, false, ◌&&◌, Option, none, some, List, [], ◌∷◌,
  any, ltb, arith, inl, inr, Bool-cases,
}
use mcp_symposium.Models.{Actor, Db}
use mcp_symposium.Encoding.{ℤ}
use mcp_symposium.Engine.{Env, cancelled_call, Result, ok, err, World, pure}
use mcp_symposium.Engine.Runs.{bind_ok}
use mcp_symposium.Engine.Transactions.{Works}
use mcp_symposium.Activity.{register, Hub, holds, receive}
use mcp_symposium.Storage.CatchUp.{CatchUpSummary, get_catch_up_summary}
use mcp_symposium.Tools.WaitForActivity.{
  WaitForActivityOutput, quiet, is_quiet, Wake, context_done, deadline, signalled, polled, Turn,
  is_due, take_case, Waited, look, or_go_on, rearm, on_wake, wait_loop, wait_timeout,
  wait_for_activity_handler,
}
use mcp_symposium.Tools.WaitForActivity.Select.{is_deadline, Took, take_case-Took}
use mcp_symposium.Tools.WaitForActivity.Reports.{news_of, look-news}
use mcp_symposium.Storage.CatchUp.Summary.{summary-returns}

-- the call, as a function of the moments
abbrev pub run_of : Env → Actor → ℤ → ℕ → Hub → World → List Turn → Waited
run_of env actor seconds started h w ts =
    wait_for_activity_handler env (some actor) seconds started ts h w

is_quiet-silent : (s : CatchUpSummary) → is_quiet s ≡ false → ltb 0 (news_of s) ≡ true
is_quiet-silent s news = ground arith

module _ (env : Env) (actor_id : String) where
  -- the answer reports what the summary counts in these tables, which is something
  abbrev pub IsReport : Db → WaitForActivityOutput → Type 0
  IsReport d out =
      (s : CatchUpSummary) × (v : World) × (v.db ≡ d)
      × ((get_catch_up_summary env actor_id v).0 ≡ ok s)
      × (ltb 0 (news_of s) ≡ true)
      × (out.activity ≡ true)
      × (out.unread_reply_count ≡ s.unread_reply_count)
      × (out.unseen_mention_count ≡ s.unseen_mention_count)

  -- what a check has found in the tables
  abbrev Looked : Db → Result (Option WaitForActivityOutput) → Type 0
  Looked d r =
      (r ≡ ok none) ⊎ ((out : WaitForActivityOutput) × (r ≡ ok (some out)) × IsReport d out)

  module _ (timeout : ℤ) (started : ℕ) where
    abbrev pub due_at : Turn → Bool
    due_at t = is_due timeout started t.at

    -- what an answer that is given at this moment means: cancelled, out of time, or a report of the
    -- tables at this moment
    abbrev pub IsEnd : Turn → Result WaitForActivityOutput → Type 0
    IsEnd t r =
        ((r ≡ err cancelled_call) × (t.done ≡ true))
        ⊎ (((r ≡ ok (quiet actor_id)) × (due_at t ≡ true))
            ⊎ ((out : WaitForActivityOutput) × (r ≡ ok out) × IsReport t.db out))

    -- The run has no answer before one of these moments, and has it with that moment.
    abbrev pub EndsIn : (List Turn → Waited) → List Turn → Type 0
    EndsIn run ts =
        (before : List Turn) × (t : Turn) × (after : List Turn) × (r : Result WaitForActivityOutput)
        × (ts ≡ before ++ t ∷ after)
        × ((run before).0 ≡ none)
        × ((run (before ++ t ∷ [])).0 ≡ some r)
        × ((run ts).0 ≡ some r)
        × IsEnd t r

    EndsIn-cons :
        (run next : List Turn → Waited) (t : Turn) (ts : List Turn)
        → ((xs : List Turn) → run (t ∷ xs) ≡ next xs)
        → EndsIn next ts
        → EndsIn run (t ∷ ts)
    EndsIn-cons run next t ts same (before, t', after, r, split, waits, ends, whole, means) = (
      t ∷ before,
      t',
      after,
      r,
      ap (λ xs. t ∷ xs) split,
      ap (λ a. a.0) (same before) ∙ waits,
      ap (λ a. a.0) (same (before ++ t' ∷ [])) ∙ ends,
      ap (λ a. a.0) (same ts) ∙ whole,
      means,
    )

    -- A check ends the wait with a report, or the wait goes on.
    or_go_on-cases :
        (t : Turn) (r : Result (Option WaitForActivityOutput)) (chs : List ℕ) (h : Hub)
        → Looked t.db r
        → ((a : Result WaitForActivityOutput) × IsEnd t a
            × ((more : Waited) → (or_go_on env actor_id r chs h more).0 ≡ some a))
          ⊎ ((more : Waited) → or_go_on env actor_id r chs h more ≡ more)
    or_go_on-cases t r chs h (inl nothing) = inr λ more. rw nothing refl
    or_go_on-cases t r chs h (inr (out, news, report)) =
        inl (ok out, inr (inr (out, refl, report)), λ more. rw news refl)

    -- the rest of the wait that a moment goes on with
    abbrev GoesOn : (Waited → Waited → Waited → Waited) → Type 0
    GoesOn f =
        ((x y z : Waited) → f x y z ≡ x)
        ⊎ (((x y z : Waited) → f x y z ≡ y) ⊎ ((x y z : Waited) → f x y z ≡ z))

    on_wake-cases :
        (taken : Option Wake) (t : Turn) (r : Result (Option WaitForActivityOutput)) (ch : ℕ)
        (chs : List ℕ) (h : Hub)
        → Took taken t.done (due_at t) t.draw
        → Looked t.db r
        → ((a : Result WaitForActivityOutput) × IsEnd t a
            × ((x y z : Waited) → (on_wake env actor_id taken r ch chs h x y z).0 ≡ some a))
          ⊎ (((due_at t && is_deadline t.draw) ≡ false)
              × GoesOn (λ x y z. on_wake env actor_id taken r ch chs h x y z))
    on_wake-cases (some context_done) t r ch chs h took looked =
        inl (err cancelled_call, inl (refl, took), λ x y z. refl)
    on_wake-cases (some deadline) t r ch chs h took looked =
        inl (ok (quiet actor_id), inr (inl (refl, took)), λ x y z. refl)
    on_wake-cases (some signalled) t r ch chs h took looked =
        elim (or_go_on-cases t r chs (receive ch h) looked) [
          | inl (a, means, ends) ↦ inl (a, means, λ x y z. ends x)
          | inr on ↦ inr (took, inl (λ x y z. on x))
        ]
    on_wake-cases (some polled) t r ch chs h took looked = elim (or_go_on-cases t r chs h looked) [
      | inl (a, means, ends) ↦ inl (a, means, λ x y z. ends y)
      | inr on ↦ inr (took, inr (inl (λ x y z. on y)))
    ]
    on_wake-cases none t r ch chs h took looked = inr (took, inr (inr (λ x y z. refl)))

    step-EndsIn :
        (run x y z : List Turn → Waited) (t : Turn) (ts : List Turn) (taken : Option Wake)
        (r : Result (Option WaitForActivityOutput)) (ch : ℕ) (chs : List ℕ) (h : Hub)
        → (run []).0 ≡ none
        → ((xs : List Turn)
            → run (t ∷ xs) ≡ on_wake env actor_id taken r ch chs h (x xs) (y xs) (z xs))
        → Took taken t.done (due_at t) t.draw
        → Looked t.db r
        → ((due_at t && is_deadline t.draw) ≡ false → EndsIn x ts × EndsIn y ts × EndsIn z ts)
        → EndsIn run (t ∷ ts)
    step-EndsIn run x y z t ts taken r ch chs h waits same took looked k =
        elim (on_wake-cases taken t r ch chs h took looked) [
          | inl (a, means, ends) ↦ (
            [],
            t,
            ts,
            a,
            refl,
            waits,
            ap (λ v. v.0) (same []) ∙ ends (x []) (y []) (z []),
            ap (λ v. v.0) (same ts) ∙ ends (x ts) (y ts) (z ts),
            means,
          )
          | inr (other, inl on) ↦
              EndsIn-cons run x t ts (λ xs. same xs ∙ on (x xs) (y xs) (z xs)) (k other).0
          | inr (other, inr (inl on)) ↦
              EndsIn-cons run y t ts (λ xs. same xs ∙ on (x xs) (y xs) (z xs)) (k other).1
          | inr (other, inr (inr on)) ↦
              EndsIn-cons run z t ts (λ xs. same xs ∙ on (x xs) (y xs) (z xs)) (k other).2
        ]

module _ (env : Env) (works : Works env) where
  look-Looked : (actor_id : String) (w : World) → Looked env actor_id w.db (look env actor_id w).0
  unfolding look pure
  look-Looked actor_id w =
      let (s, w', counted) = summary-returns env works actor_id w in
      elim (Bool-cases (is_quiet s)) [
        | inl silent ↦
            let nothing : look env actor_id w ≡ (ok none, w') =
              bind_ok _ _ w s w' counted ∙ rw silent refl in
            inl (ap (λ x. x.0) nothing)
        | inr news ↦
            let (out, v, looked, active, replies, mentions) =
              look-news env works actor_id s w w' counted news in
            inr (
              out,
              ap (λ x. x.0) looked,
              (
                s,
                w,
                refl,
                ap (λ x. x.0) counted,
                is_quiet-silent s news,
                active,
                replies,
                mentions,
              ),
            )
      ]

  module _ (actor_id : String) (timeout : ℤ) (started : ℕ) where
    abbrev loop : ℕ → List ℕ → Hub → World → List Turn → Waited
    loop ch chs h w ts = wait_loop env actor_id timeout started ts ch chs h w

    loop-EndsIn :
        (ts : List Turn) (ch : ℕ) (chs : List ℕ) (h : Hub) (w : World)
        → any (λ t. due_at env actor_id timeout started t && is_deadline t.draw) ts ≡ true
        → EndsIn env actor_id timeout started (loop ch chs h w) ts
    unfolding wait_loop
    loop-EndsIn [] ch chs h w k = cc
    loop-EndsIn (t ∷ ts) ch chs h w k =
        let h' = t.hub h in
        let due = is_due timeout started t.at in
        let taken = take_case t.draw t.done due (holds ch h'.full) t.tick in
        let (r, w') = look env actor_id (record w { db = t.db }) in
        let (ch', armed) = rearm env actor_id ch h' in
        step-EndsIn env actor_id timeout started (loop ch chs h w) (loop ch' (ch' ∷ chs) armed w')
          (loop ch chs h' w') (loop ch chs h' w) t ts taken r ch chs h' refl (λ xs. refl)
          (take_case-Took t.draw t.done due (holds ch h'.full) t.tick)
          (look-Looked actor_id (record w { db = t.db }))
          λ other.
            let rest = rw other at k in
            (
              loop-EndsIn ts ch' (ch' ∷ chs) armed w' rest,
              loop-EndsIn ts ch chs h' w' rest,
              loop-EndsIn ts ch chs h' w rest,
            )

  -- While the driver works: if at some moment the time since the timer was made has reached the
  -- timeout and the random choice of select falls on the deadline, the call ends: at the start, with
  -- a report of the tables then, or at a moment before which there was no answer: as cancelled, when
  -- the context is done at that moment; without activity, when the timeout has passed at that moment;
  -- or with a report of the tables at that moment. A report has the counts of the summary, which
  -- counts something.
  pub wait_for_activity_handler-EndsIn :
      (actor : Actor) (seconds : ℤ) (started : ℕ) (turns : List Turn) (h : Hub) (w : World)
      → any (λ t. is_due (wait_timeout seconds) started t.at && is_deadline t.draw) turns ≡ true
      → ((out : WaitForActivityOutput) × ((run_of env actor seconds started h w []).0
            ≡ some (ok out))
          × ((run_of env actor seconds started h w turns).0 ≡ some (ok out))
          × IsReport env actor.id w.db out)
        ⊎ EndsIn env actor.id
            (wait_timeout seconds)
            started
            (run_of env actor seconds started h w)
            turns
  unfolding wait_for_activity_handler wait_loop
  wait_for_activity_handler-EndsIn actor seconds started turns h w k =
      let (ch, armed) = register actor.id h in
      let w' = (look env actor.id w).1 in
      elim (look-Looked actor.id w) [
        | inl nothing ↦
            let (before, t, after, r, split, waits, ends, whole, means) =
              loop-EndsIn actor.id (wait_timeout seconds) started turns ch (ch ∷ []) armed w' k in
            inr (
              before,
              t,
              after,
              r,
              split,
              rw nothing waits,
              rw nothing ends,
              rw nothing whole,
              means,
            )
        | inr (out, news, report) ↦ inl (out, rw news refl, rw news refl, report)
      ]
