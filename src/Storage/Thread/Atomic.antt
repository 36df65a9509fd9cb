-- ===== src/Storage/Thread/Atomic.antt =====
-- Operations on threads that fail have changed no table, whatever the driver refused.
use mcp_symposium.Prelude.{
  String, true, ◌≡◌, refl, Option, List, inl, inr, ◌==◌, trim_space, Bool-cases,
}
use mcp_symposium.Engine.{Env, World, tick, Tx, ◌>>=◌, new_uuid, transaction}
use mcp_symposium.Engine.Transactions.{is_err, transaction-err}
use mcp_symposium.Storage.Thread.{create_thread_ext, add_reply}

-- the table after an action that starts with an identifier and goes on with a transaction
uuid-transaction-err :
    {A : Type 0} (env : Env) (m : String → Tx A) (w : World)
    → is_err ((new_uuid env >>= λ id. transaction env (m id)) w).0 ≡ true
    → ((new_uuid env >>= λ id. transaction env (m id)) w).1.db ≡ w.db
unfolding new_uuid ◌>>=◌
uuid-transaction-err env m w h = transaction-err env (m (env.fresh w.step)) (tick w) h

-- CreateThreadExt that returns an error has changed no table: not the thread, its watchers, cursors,
-- tags or mentions.
pub create_thread_atomic :
    (env : Env) (author_id title body : String) (tag_names : List String)
    (external_id : Option String) (w : World)
    → is_err (create_thread_ext env author_id title body tag_names external_id w).0 ≡ true
    → (create_thread_ext env author_id title body tag_names external_id w).1.db ≡ w.db
unfolding create_thread_ext ◌>>=◌
create_thread_atomic env author_id title body tag_names external_id w h =
    elim (Bool-cases (trim_space title == "")) [
      | inl blank ↦ rw blank
      | inr titled ↦ elim (Bool-cases (trim_space body == "")) [
        | inl blank ↦ rw (titled, blank)
        | inr full ↦ rw (titled, full) (uuid-transaction-err env _ w (rw (titled, full) at h))
      ]
    ]

-- AddReply that returns an error has changed no table: not the reply, the watchers, cursors or
-- mentions.
pub add_reply_atomic :
    (env : Env) (thread_id author_id body : String) (ids : List String) (w : World)
    → is_err (add_reply env thread_id author_id body ids w).0 ≡ true
    → (add_reply env thread_id author_id body ids w).1.db ≡ w.db
unfolding add_reply ◌>>=◌
add_reply_atomic env thread_id author_id body ids w h = elim (Bool-cases (trim_space body == "")) [
  | inl blank ↦ rw blank refl
  | inr full ↦ rw full (uuid-transaction-err env _ w (rw full at h))
]
