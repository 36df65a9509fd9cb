-- ===== src/Storage/Thread/Frame.antt =====
-- What the parts of CreateThreadExt and AddReply leave alone.
use mcp_symposium.Prelude.{String, List, [], ◌∷◌, ◌++◌}
use mcp_symposium.Models.{Watcher, Tag, ThreadTag, Db}
use mcp_symposium.Engine.{Env}
use mcp_symposium.Engine.Keeps.{Keeps, keeps_rules, Keeps-bind, Keeps-create_or_ignore}
use mcp_symposium.Engine.Tables.{create_or_ignore}
use mcp_symposium.Storage.Schema.{tags, thread_tags, watchers}
use mcp_symposium.Storage.Thread.{attach_tag, attach_tags, add_watchers}

-- An invariant that looks at neither the tags nor their links is kept by attachTags.
module _ {P : Db → Type 0} (untagged : (d : Db) (l : List Tag) → P d → P (record d { tags = l }))
    (unlinked : (d : Db) (l : List ThreadTag) → P d → P (record d { thread_tags = l })) (env : Env)
    (thread_id : String) where
  insert_tag-Keeps : (t : Tag) → Keeps P (create_or_ignore env tags t)
  insert_tag-Keeps t = Keeps-create_or_ignore env tags t (λ d h _. untagged d _ h)

  insert_link-Keeps : (l : ThreadTag) → Keeps P (create_or_ignore env thread_tags l)
  insert_link-Keeps l = Keeps-create_or_ignore env thread_tags l (λ d h _. unlinked d _ h)

  attach_tag-Keeps : (name : String) → Keeps P (attach_tag env thread_id name)
  unfolding attach_tag
  attach_tag-Keeps name = search (keeps_rules, insert_tag-Keeps, insert_link-Keeps) depth 10

  pub attach_tags-Keeps : (names : List String) → Keeps P (attach_tags env thread_id names)
  unfolding attach_tags
  attach_tags-Keeps [] = search keeps_rules
  attach_tags-Keeps (n ∷ names) = Keeps-bind _ _ (attach_tag-Keeps _) (λ _. attach_tags-Keeps names)

-- An invariant that new watchers respect is kept by the loop over them.
module _ {P : Db → Type 0}
    (watched : (d : Db) (w : Watcher) → P d → P (record d { watchers = d.watchers ++ w ∷ [] }))
    (env : Env) (thread_id : String) where
  pub add_watchers-Keeps : (ids : List String) → Keeps P (add_watchers env thread_id ids)
  unfolding add_watchers
  add_watchers-Keeps [] = search keeps_rules
  add_watchers-Keeps (i ∷ ids) =
      Keeps-bind _ _ (Keeps-create_or_ignore env watchers _ (λ d h _. watched d _ h))
        (λ _. add_watchers-Keeps ids)
