-- ===== src/Storage/ThreadQuery.antt =====
-- internal/storage/thread_query.go: one thread with its replies and tags, and the list of threads in
-- pages. The order of identifiers in the database, and the texts of times and of base64, are
-- parameters.
pub mod Newest
pub mod Cursor
pub mod Pages
use Prim.Native.Char.{code}
use Prim.Native.String
use mcp_symposium.Prelude.{
  ℕ, zero, suc, ◌+◌, String, Bool, true, false, ◌&&◌, ◌||◌, Option, none, some, List, [], ◌∷◌, ◌++◌,
  length, take, select, any, ltb, leb, nat_eq, ◌==◌, ◌/=◌, if◌then◌else◌,
}
use mcp_symposium.Models.{Thread, Reply, Tag, ThreadTag, Db}
use mcp_symposium.Engine.{
  Env, Error, bad_cursor, Result, ok, err, Tx, pure, fail, statement, ◌>>=◌, ◌>>◌,
}
use mcp_symposium.Engine.Tables.{first_where, find_where}
use mcp_symposium.Storage.Schema.{threads, replies}

-- The database's order of identifiers; time.RFC3339Nano and base64.RawURLEncoding in both directions.
pub record Coding : Type 0 where
  pub id_lt : String → String → Bool
  pub format : ℕ → String
  pub parse : String → Option ℕ
  pub encode64 : String → String
  pub decode64 : String → Option String

-- ListThreadsFilter: a negative limit is 0, which means the same
pub record ListThreadsFilter : Type 0 where
  pub status : String
  pub tags : List String
  pub limit : ℕ
  pub cursor : String

-- ListThreadsResult
pub record ListThreadsResult : Type 0 where
  pub threads : List Thread
  pub next_cursor : String

-- strings.SplitN(s, "|", 2), which must have two parts
abbrev pub split_bar : String → Option (String × String)
split_bar String.[] = none
split_bar (String.◌∷◌ c s) =
    let rest = split_bar s in
    if nat_eq (code c) b'|'
    then some ("", s)
    else elim rest [ none ↦ none | some (a, b) ↦ some (String.◌∷◌ c a, b) ]

abbrev pub member : String → List String → Bool
member s l = any (λ t. s == t) l

-- the tags with a name of the list, on a thread
abbrev pub has_tag : Db → List String → String → Bool
has_tag d names thread_id =
    any (λ l. l.thread_id == thread_id && any (λ g. g.id == l.tag_id && member g.name names) d.tags)
      d.thread_tags

-- the WHERE clauses for the status and the tags
abbrev pub matches : Db → String → List String → Thread → Bool
matches d status tags t =
    (status == "" || t.status == status) && (nat_eq (length tags) 0 || has_tag d tags t.id)

abbrev pub clamp : ℕ → ℕ
clamp limit = if nat_eq limit 0 || ltb 100 limit then 20 else limit

abbrev pub with_id : String → Option ℕ → Option (ℕ × String)
with_id id none = none
with_id id (some t) = some (t, id)

module _ (coding : Coding) where
  -- encodeThreadCursor
  unfoldable pub encode_thread_cursor : ℕ → String → String
  encode_thread_cursor t id = coding.encode64 (String.◌++◌ (coding.format t) (String.◌++◌ "|" id))

  abbrev pub parts_of : Option (String × String) → Option (ℕ × String)
  parts_of none = none
  parts_of (some (time, id)) = with_id id (coding.parse time)

  abbrev pub text_parts : Option String → Option (ℕ × String)
  text_parts none = none
  text_parts (some raw) = parts_of (split_bar raw)

  -- decodeThreadCursor
  unfoldable pub decode_thread_cursor : String → Option (ℕ × String)
  decode_thread_cursor cursor = text_parts (coding.decode64 cursor)

  -- created_at < ? OR (created_at = ? AND id < ?)
  abbrev pub is_before : ℕ → String → Thread → Bool
  is_before at id t = ltb t.created_at at || (nat_eq t.created_at at && coding.id_lt t.id id)

  -- ORDER BY created_at desc, id desc
  abbrev pub insert_newest : Thread → List Thread → List Thread
  insert_newest x [] = x ∷ []
  insert_newest x (y ∷ ys) =
      let rest = insert_newest x ys in
      if is_before x.created_at x.id y then x ∷ y ∷ ys else y ∷ rest

  abbrev pub newest_first : List Thread → List Thread
  newest_first [] = []
  newest_first (x ∷ xs) = insert_newest x (newest_first xs)

  -- the clause for the cursor, if there is one
  abbrev pub is_after : Option (ℕ × String) → Thread → Bool
  is_after none t = true
  is_after (some (at, id)) t = is_before at id t

  abbrev pub cursor_of : List Thread → String
  cursor_of [] = ""
  cursor_of (t ∷ []) = encode_thread_cursor t.created_at t.id
  cursor_of (t ∷ u ∷ ts) = cursor_of (u ∷ ts)

  -- one row more than the page tells whether there is another page
  abbrev pub page : ℕ → List Thread → ListThreadsResult
  page limit found =
      if ltb limit (length found)
      then record { threads = take limit found; next_cursor = cursor_of (take limit found) }
      else record { threads = found; next_cursor = "" }

  module _ (env : Env) where
    unfoldable pub list_after : ListThreadsFilter → Option (ℕ × String) → Tx ListThreadsResult
    list_after filter position = do
      found ← statement env λ d. ok (
        take (suc (clamp filter.limit)) (
            newest_first (
              select (λ t. matches d filter.status filter.tags t && is_after position t)
                d.threads)),
        d,
      )
      pure (page (clamp filter.limit) found)

    abbrev pub list_from : ListThreadsFilter → Option (ℕ × String) → Tx ListThreadsResult
    list_from filter none = fail bad_cursor
    list_from filter (some position) = list_after filter (some position)

    -- ListThreads
    unfoldable pub list_threads : ListThreadsFilter → Tx ListThreadsResult
    list_threads filter =
        if filter.cursor == ""
        then list_after filter none
        else list_from filter (decode_thread_cursor filter.cursor)

module _ (env : Env) where
  -- GetThread
  unfoldable pub get_thread : String → Tx (Thread × List Reply × List Tag)
  get_thread thread_id = do
    thread ← first_where env threads (λ t. t.id == thread_id)
    found ← find_where env replies (λ r. r.thread_id == thread_id)
    tags ← statement env λ d. ok (
      select (λ g. any (λ l. l.tag_id == g.id && l.thread_id == thread_id) d.thread_tags) d.tags,
      d,
    )
    pure (thread, env.sort_asc (λ r. r.created_at) found, tags)

  -- GetThreadByExternalID
  unfoldable pub get_thread_by_external_id : String → Tx Thread
  get_thread_by_external_id external_id =
      first_where env threads (λ t. elim t.external_id [ none ↦ false | some e ↦ e == external_id ])
