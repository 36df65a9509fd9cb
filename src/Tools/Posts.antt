-- ===== src/Tools/Posts.antt =====
-- internal/tools/rendezvous/tool_create_thread.go and tool_reply.go.
pub mod Wakes
use Prim.Native.String
use mcp_symposium.Prelude.{
  String, Bool, true, false, not, Option, none, some, List, [], ◌∷◌, any, select, ◌==◌,
  if◌then◌else◌,
}
use mcp_symposium.Models.{Actor, Thread, MentionReport}
use mcp_symposium.Encoding.{Bytes}
use mcp_symposium.Engine.{
  Env, no_actor, secret_shaped, Result, ok, err, Tx, pure, fail, attempt, ◌>>=◌, ◌>>◌,
}
use mcp_symposium.Storage.Thread.{create_thread_ext, add_reply}
use mcp_symposium.Storage.ThreadQuery.{get_thread_by_external_id}
use mcp_symposium.Storage.CatchUp.{watchers_of, mentioned_for_reply, mentioned_for_thread}
use mcp_symposium.Tools.CodeBlocks.{CodeBlock, extract_code_blocks}
use mcp_symposium.Tools.SecretGuard.{check_body_for_secrets}

pub record CreateThreadInput : Type 0 where
  pub title : String
  pub body : String
  pub tags : List String
  pub external_id : String

pub record CreateThreadOutput : Type 0 where
  pub thread_id : String
  pub mentions : MentionReport
  pub existing : Bool
  pub code_blocks : List CodeBlock

pub record ReplyInput : Type 0 where
  pub thread_id : String
  pub body : String
  pub watchers : List String

pub record ReplyOutput : Type 0 where
  pub reply_id : String
  pub mentions : MentionReport
  pub code_blocks : List CodeBlock

-- regexp and SHA-256 of the standard library
pub record Scanner : Type 0 where
  pub find_string : String → String → Option String
  pub sum : Bytes → Bytes

-- notify[id] = true: the order of the keys of a map is arbitrary, here the last comes first
abbrev pub add_key : String → List String → List String
add_key id ids = if any (λ i. i == id) ids then ids else id ∷ ids

abbrev pub add_keys : List String → List String → List String
add_keys [] ids = ids
add_keys (x ∷ xs) ids = add_keys xs (add_key x ids)

-- a lookup that fails adds nobody
abbrev pub found_ids : Result (List String) → List String
found_ids (ok ids) = ids
found_ids (err e) = []

abbrev pub targets : String → Result (List String) → Result (List String) → List String
targets replier_id watching mentioned =
    add_keys (found_ids mentioned)
      (add_keys (select (λ id. not (id == replier_id)) (found_ids watching)) [])

abbrev pub no_mentions : MentionReport
no_mentions = record { resolved = []; unresolved = [] }

-- What a handler answers, with the actors that it notifies, by the server and by the hub.
module _ (env : Env) (scanner : Scanner) where
  unfoldable pub notify_reply_targets : String → String → String → Tx (List String)
  notify_reply_targets thread_id reply_id replier_id = do
    watching ← attempt (watchers_of env thread_id)
    mentioned ← attempt (mentioned_for_reply env reply_id)
    pure (targets replier_id watching mentioned)

  abbrev pub unless_quoted : Option Bytes → Tx Unit
  unless_quoted none = pure tt
  unless_quoted (some quoted) = fail secret_shaped

  unfoldable pub refuse_secrets : String → Tx Unit
  refuse_secrets body = unless_quoted (check_body_for_secrets scanner.find_string body)

  -- replyHandler
  unfoldable pub reply_handler : Option Actor → ReplyInput → Tx (ReplyOutput × List String)
  reply_handler none input = fail no_actor
  reply_handler (some actor) input = do
    refuse_secrets input.body
    (reply, report) ← add_reply env input.thread_id actor.id input.body input.watchers
    notified ← notify_reply_targets input.thread_id reply.id actor.id
    pure (
      record {
        reply_id = reply.id;
        mentions = report;
        code_blocks = extract_code_blocks scanner.sum input.body;
      },
      notified,
    )

  unfoldable pub notify_create_thread_targets : String → Tx (List String)
  notify_create_thread_targets thread_id = do
    mentioned ← attempt (mentioned_for_thread env thread_id)
    pure (found_ids mentioned)

  unfoldable pub post_thread :
      Actor → CreateThreadInput → Option String → Tx (CreateThreadOutput × List String)
  post_thread actor input external_id = do
    (thread, report) ← create_thread_ext env actor.id input.title input.body input.tags external_id
    notified ← notify_create_thread_targets thread.id
    pure (
      record {
        thread_id = thread.id;
        mentions = report;
        existing = false;
        code_blocks = extract_code_blocks scanner.sum input.body;
      },
      notified,
    )

  -- a thread that is there already is the answer; any error of the lookup is taken for none
  unfoldable pub unless_existing :
      Actor → CreateThreadInput → Result Thread → Tx (CreateThreadOutput × List String)
  unless_existing actor input (ok existing) = pure (
    record { thread_id = existing.id; mentions = no_mentions; existing = true; code_blocks = [] },
    [],
  )
  unless_existing actor input (err e) = post_thread actor input (some input.external_id)

  -- createThreadHandler
  unfoldable pub create_thread_handler :
      Option Actor → CreateThreadInput → Tx (CreateThreadOutput × List String)
  create_thread_handler none input = fail no_actor
  create_thread_handler (some actor) input = do
    refuse_secrets (String.◌++◌ input.title (String.◌++◌ "\n" input.body))
    if input.external_id == "" then post_thread actor input none else (do
      found ← attempt (get_thread_by_external_id env input.external_id)
      unless_existing actor input found)
