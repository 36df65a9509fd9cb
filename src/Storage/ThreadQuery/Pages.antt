-- ===== src/Storage/ThreadQuery/Pages.antt =====
-- Reading the list of threads page by page.
use mcp_symposium.Prelude.{
  ℕ, zero, suc, ◌≤◌, ◌<◌, String, ◌≡◌, refl, sym, ap, ◌∙◌, true, false, ◌&&◌, Option, none, some,
  List, [], ◌∷◌, ◌++◌, select, length, take, ◌==◌, arith, ltb, if◌then◌else◌, inl, inr, Bool-cases,
}
use mathlib.Core.List.{append_assoc, append-nil}
use mcp_symposium.Prelude.Rows.{Keyed}
use mcp_symposium.Models.{Thread, Db}
use mcp_symposium.Engine.{Env, ok, World, tick, Tx, pure, ◌>>=◌, statement}
use mcp_symposium.Engine.Runs.{bind_ok, bind_pure}
use mcp_symposium.Engine.Transactions.{Works}
use mcp_symposium.Storage.ThreadQuery.{
  Coding, ListThreadsFilter, matches, clamp, encode_thread_cursor, decode_thread_cursor, is_before,
  newest_first, is_after, cursor_of, page, list_after, list_threads,
}
use mcp_symposium.Storage.ThreadQuery.Newest.{
  IsOrder, select-select, Keyed-select, sort-IsNewestFirst, select-newest_first, select-behind,
}
use mcp_symposium.Storage.ThreadQuery.Cursor.{
  IsCoding, drop, take-drop, drop_lt, decode-encode, encode_not_empty, take_last, page_last,
  page_more, select-true,
}

module _ (coding : Coding) (env : Env) where
  -- the threads that a filter matches, newest first
  abbrev pub listed : Db → String → List String → List Thread
  listed d status tags = newest_first coding (select (matches d status tags) d.threads)

  -- the pages behind this one, if they come to an end
  abbrev pub behind : List Thread → Option (List Thread) → Option (List Thread)
  behind ts none = none
  behind ts (some rest) = some (ts ++ rest)

  -- ListThreads until there is no next page; none, when there is a next page after n calls
  unfoldable pub walk : ℕ → ListThreadsFilter → String → Tx (Option (List Thread))
  walk zero filter cursor = pure none
  walk (suc n) filter cursor = do
    r ← list_threads coding env (record filter { cursor = cursor })
    rest ← (if r.next_cursor == "" then pure (some []) else walk n filter r.next_cursor)
    pure (behind r.threads rest)

module _ (coding : Coding) (order : IsOrder coding) (laws : IsCoding coding) (env : Env)
    (works : Works env) where
  -- what a cursor leaves to read
  abbrev Leaves : Db → String → List String → Option (ℕ × String) → List Thread → Type 0
  Leaves d status tags none rest = listed coding env d status tags ≡ rest
  Leaves d status tags (some (at, id)) rest =
      (pre : List Thread) × (x : Thread) × (listed coding env d status tags ≡ pre ++ x ∷ rest)
      × (x.created_at ≡ at)
      × (x.id ≡ id)

  after-listed :
      (d : Db) (status : String) (tags : List String) (at : Option (ℕ × String))
      (rest : List Thread)
      → Keyed (λ t. t.id) d.threads
      → Leaves d status tags at rest
      → newest_first coding
          (select (λ t. matches d status tags t && is_after coding at t) d.threads)
        ≡ rest
  after-listed d status tags none rest keyed leaves =
      rw (select-select (matches d status tags) (λ t. true) d.threads)
        (ap (newest_first coding) (select-true (select (matches d status tags) d.threads)) ∙ leaves)
  after-listed d status tags (some (at, id)) rest keyed leaves =
      let (pre, x, split, same_at, same_id) = leaves in
      let found = select (matches d status tags) d.threads in
      let keyed' = Keyed-select (λ t. t.id) (matches d status tags) d.threads keyed in
      let sorted = sort-IsNewestFirst coding order found keyed' in
      rw
        (
          select-select (matches d status tags) (is_before coding at id) d.threads,
          sym (select-newest_first coding order (is_before coding at id) found keyed'),
          split,
          sym same_at,
          sym same_id,
        )
        (select-behind coding order pre x rest (rw split at sorted))

  -- one call reads a page of what the cursor leaves
  list_after-page :
      (filter : ListThreadsFilter) (at : Option (ℕ × String)) (rest : List Thread) (w : World)
      → Keyed (λ t. t.id) w.db.threads
      → Leaves w.db filter.status filter.tags at rest
      → list_after coding env filter at w
        ≡ (ok (page coding (clamp filter.limit) (take (suc (clamp filter.limit)) rest)), tick w)
  unfolding list_after statement ◌>>=◌ pure
  list_after-page filter at rest w keyed leaves =
      rw (works w.step, after-listed w.db filter.status filter.tags at rest keyed leaves) refl

  -- what ListThreads makes of a cursor
  abbrev Reads : String → Option (ℕ × String) → Type 0
  Reads cursor none = cursor ≡ ""
  Reads cursor (some at) = ((cursor == "") ≡ false) × (decode_thread_cursor coding cursor ≡ some at)

  list_threads-page :
      (filter : ListThreadsFilter) (cursor : String) (at : Option (ℕ × String)) (rest : List Thread)
      (w : World)
      → Keyed (λ t. t.id) w.db.threads
      → Reads cursor at
      → Leaves w.db filter.status filter.tags at rest
      → list_threads coding env (record filter { cursor = cursor }) w
        ≡ (ok (page coding (clamp filter.limit) (take (suc (clamp filter.limit)) rest)), tick w)
  unfolding list_threads list_after
  list_threads-page filter cursor none rest w keyed reads leaves =
      rw reads (list_after-page (record filter { cursor = cursor }) none rest w keyed leaves)
  list_threads-page filter cursor (some at) rest w keyed reads leaves =
      rw (reads.0, reads.1)
        (list_after-page (record filter { cursor = cursor }) (some at) rest w keyed leaves)

  Leaves-same :
      (d : Db) (status : String) (tags : List String) (at : Option (ℕ × String))
      (rest rest' : List Thread)
      → rest ≡ rest'
      → Leaves d status tags at rest
      → Leaves d status tags at rest'
  Leaves-same d status tags at rest rest' same leaves = rw (sym same) leaves

  Leaves-more :
      (d : Db) (status : String) (tags : List String) (at : Option (ℕ × String)) (pre : List Thread)
      (x : Thread) (rest : List Thread)
      → Leaves d status tags at (pre ++ x ∷ rest)
      → Leaves d status tags (some (x.created_at, x.id)) rest
  Leaves-more d status tags none pre x rest leaves = (pre, x, leaves, refl, refl)
  Leaves-more d status tags (some at) pre x rest leaves =
      let (pre', y, split, _, _) = leaves in
      (pre' ++ y ∷ pre, x, split ∙ sym (append_assoc pre' (y ∷ pre) (x ∷ rest)), refl, refl)

  clamp_pos : (limit : ℕ) → (m : ℕ) × (clamp limit ≡ suc m)
  clamp_pos zero = (19, refl)
  clamp_pos (suc m) = elim (Bool-cases (ltb 100 (suc m))) [
    | inl much ↦ (19, ground (arith, much))
    | inr fits ↦ (m, ground (arith, fits))
  ]

  -- the call that reads a page behind which there is another
  walk-more :
      (n : ℕ) (filter : ListThreadsFilter) (cursor : String) (at : Option (ℕ × String))
      (rest : List Thread) (w : World)
      → Keyed (λ t. t.id) w.db.threads
      → Leaves w.db filter.status filter.tags at rest
      → length rest ≤ n
      → (m : ℕ) → ltb (suc m) (length rest) ≡ true
      → list_threads coding env (record filter { cursor = cursor }) w ≡ (
        ok (record {
          threads = take (suc m) rest;
          next_cursor = cursor_of coding (take (suc m) rest);
        }),
        tick w,
      )
      → ((next : String) (at' : Option (ℕ × String)) (rest' : List Thread)
          → Reads next at'
          → Leaves w.db filter.status filter.tags at' rest'
          → suc (length rest') ≤ n
          → (walk coding env n filter next (tick w)).0 ≡ ok (some rest'))
      → (walk coding env (suc n) filter cursor w).0 ≡ ok (some rest)
  unfolding walk
  walk-more n filter cursor at rest w keyed leaves fuel m more called again =
      let more_rows : m < length rest = ground (arith, more) in
      let (pre, x, split, last) = take_last coding laws m rest more_rows in
      let left = drop (suc m) rest in
      let tail =
        again (encode_thread_cursor coding x.created_at x.id) (some (x.created_at, x.id)) left
          (
            encode_not_empty coding laws x.created_at x.id,
            decode-encode coding laws x.created_at x.id,
          )
          (Leaves-more w.db filter.status filter.tags at pre x left
            (Leaves-same w.db filter.status filter.tags at rest (pre ++ x ∷ left) split leaves))
          (omega (arith, drop_lt m rest more_rows, fuel)) in
      ap (λ r. r.0) (bind_ok _ _ w _ (tick w) called)
      ∙ rw (last, encode_not_empty coding laws x.created_at x.id)
          (bind_pure _ (behind coding env (take (suc m) rest)) (tick w) (some left) tail
            ∙ ap (λ ts. ok (some ts)) (take-drop (suc m) rest))

  -- the call that reads the last page
  walk-last :
      (n : ℕ) (filter : ListThreadsFilter) (cursor : String) (rest : List Thread) (w : World)
      → list_threads coding env (record filter { cursor = cursor }) w
        ≡ (ok (record { threads = rest; next_cursor = "" }), tick w)
      → (walk coding env (suc n) filter cursor w).0 ≡ ok (some rest)
  unfolding walk ◌>>=◌ pure
  walk-last n filter cursor rest w called = rw called (ap (λ ts. ok (some ts)) (append-nil rest))

  walk_step :
      (n : ℕ) (filter : ListThreadsFilter) (cursor : String) (at : Option (ℕ × String))
      (rest : List Thread) (w : World)
      → Keyed (λ t. t.id) w.db.threads
      → Reads cursor at
      → Leaves w.db filter.status filter.tags at rest
      → length rest ≤ n
      → ((next : String) (at' : Option (ℕ × String)) (rest' : List Thread)
          → Reads next at'
          → Leaves w.db filter.status filter.tags at' rest'
          → suc (length rest') ≤ n
          → (walk coding env n filter next (tick w)).0 ≡ ok (some rest'))
      → (walk coding env (suc n) filter cursor w).0 ≡ ok (some rest)
  walk_step n filter cursor at rest w keyed reads leaves fuel again =
      let (m, limit) = clamp_pos filter.limit in
      let called = rw limit at (list_threads-page filter cursor at rest w keyed reads leaves) in
      elim (Bool-cases (ltb (suc m) (length rest))) [
        | inl more ↦
            walk-more n filter cursor at rest w keyed leaves fuel m more
              (called ∙ ap (λ p. (ok p, tick w)) (page_more coding (suc m) rest more)) again
        | inr last ↦
            walk-last n filter cursor rest w
              (called ∙ ap (λ p. (ok p, tick w)) (page_last coding (suc m) rest last))
      ]

  walk-rest :
      (n : ℕ) (filter : ListThreadsFilter) (cursor : String) (at : Option (ℕ × String))
      (rest : List Thread) (w : World)
      → Keyed (λ t. t.id) w.db.threads
      → Reads cursor at
      → Leaves w.db filter.status filter.tags at rest
      → length rest ≤ n
      → (walk coding env (suc n) filter cursor w).0 ≡ ok (some rest)
  walk-rest zero filter cursor at rest w keyed reads leaves fuel =
      walk_step zero filter cursor at rest w keyed reads leaves fuel
        λ next at' rest' _ _ more. absurd (omega (arith, more))
  walk-rest (suc n) filter cursor at rest w keyed reads leaves fuel =
      walk_step (suc n) filter cursor at rest w keyed reads leaves fuel
        λ next at' rest' reads' leaves' more.
          walk-rest n filter next at' rest' (tick w) keyed reads' leaves' (omega (arith, more))

  -- Calling ListThreads with the cursor of the call before, from the empty cursor on, comes to a call
  -- that answers no next cursor, after at most one call more than there are matching threads, and
  -- gives each thread that matches the
  -- filter once, newest first and by identifier within one time: for every limit, when no thread
  -- is written in between and no statement is refused, the rows have different identifiers, the
  -- identifiers are ordered, and times and base64 are read back.
  pub walk-listed :
      (filter : ListThreadsFilter) (w : World)
      → Keyed (λ t. t.id) w.db.threads
      → (n : ℕ) → length (listed coding env w.db filter.status filter.tags) ≤ n
      → (walk coding env (suc n) filter "" w).0
        ≡ ok (some (listed coding env w.db filter.status filter.tags))
  walk-listed filter w keyed n fuel =
      walk-rest n filter "" none (listed coding env w.db filter.status filter.tags) w keyed refl
        refl fuel
