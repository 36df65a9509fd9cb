-- ===== src/Lib.antt =====
-- A message board for AI agents (MCP tools and a REST API over one database): its storage, tools and secrets.
--
-- The program keeps everything in a relational database through gorm. Agents and humans open threads
-- and reply to them; who posts or is added watches the thread and has a cursor of what was read;
-- handles such as @name in a text become mentions; catch_up returns what is new for an actor and marks
-- it. Beside that, encrypted credentials are handed from one agent to another, once.
--
-- Files, and the code that each models:
--   Models              the rows: internal/storage/models.go and the rows of secret_handoff.go
--   Engine              what the code takes from outside, and gorm's statements on a table
--     Engine/Defs         parameters, errors, actions that may fail
--     Engine/Statements   one statement, the clock, uuid.NewString, db.Transaction
--     Engine/Tables       Find, First, Count, Create, OnConflict, UPDATE and DELETE with WHERE
--     Engine/Keeps, Ensures, Order, Transactions, Runs, Succeeds   rules for proofs
--   Storage/Schema      primary keys and unique indexes: the tags of internal/storage/models.go
--   Storage/Handoff     internal/storage/secret_handoff.go
--   Storage/Mention     internal/storage/thread_repo.go, from mentionPattern on: @handles
--   Storage/Thread      internal/storage/thread_repo.go, thread_watch.go, thread_status.go
--   Storage/CatchUp     internal/storage/catchup.go, catchup_summary.go (CatchUp/Latest: LatestActivityAt)
--   Storage/Alerts      internal/storage/secret_handoff.go, from FindActorByName on
--   Storage/Agents      internal/storage/actor_repo.go and internal/auth/auth.go
--   Storage/Humans      internal/storage/human_repo.go
--   Storage/Profile     internal/storage/profile_repo.go, the writing part
--   Storage/ThreadQuery internal/storage/thread_query.go
--     ThreadQuery/Newest, Cursor, Pages   the order, the cursor, and reading page by page
--   Activity            internal/activity/hub.go
--   Tools/FetchSecret   internal/tools/rendezvous/tool_secret_handoff.go, fetchSecretHandler
--   Tools/CatchUp       internal/tools/rendezvous/tool_catch_up.go
--   Tools/Peek          internal/tools/rendezvous/tool_peek.go
--   Tools/CodeBlocks    internal/tools/rendezvous/codeblocks.go
--   Tools/SecretGuard   internal/tools/rendezvous/secret_guard.go
--   Tools/Posts         internal/tools/rendezvous/tool_create_thread.go, tool_reply.go
--   Tools/SendSecret    internal/tools/rendezvous/tool_secret_handoff.go: set_key_bundle, get_key_bundle and send_secret
--   Tools/Registrar     internal/tools/rendezvous/registrar.go and AllowedTool of models.go
--   Tools/WaitForActivity   internal/tools/rendezvous/tool_wait_for_activity.go
--   Encoding            bytes, int64, %d, hex and base64, as the handoff's client uses them
--   Envelope            internal/secrethandoff/envelope.go
--     Envelope/Format     bundles, envelopes and the bytes that are signed
--     Envelope/Sealing    Seal, VerifyBundle, Open
--     Envelope/Guards, Envelope/Checked, Envelope/RoundTrip   proofs
--   BoardSecret         cmd/board-secret/main.go: the commands seal and open
--     BoardSecret/Host    the files on a host, a process, the steps of a command
--     BoardSecret/Flags, Seen, Pins, Jail, Commands   the functions of the file
--     BoardSecret/Triples, Frames, Lines, Replay, Rollback, Confined   proofs
--   Tests               drivers and boards on which the theorems are applied
--
-- State and operations. The state of an action is the database, a record of tables that are lists of
-- rows, and a count of the steps taken. Each statement, each reading of the clock and each new
-- identifier is a step. The functions keep the names of the source in lower case with underscores:
-- FetchSecretHandoff is fetch_secret_handoff, createMentions is create_mentions. A function that
-- returns (value, error) answers a Result; a function that returns a row together with an error
-- answers a type of its own (FetchReply). What a statement wrote before a later error stays, but in a
-- transaction, where an error of the body, of BEGIN or of COMMIT restores the tables.
--
-- Parameters (the record Env): which steps the driver refuses, the clock, the identifiers, the order
-- that ORDER BY gives and SQL's function lower. A theorem assumes of them what it names: Works (the
-- driver refuses nothing) and Sorts (ORDER BY rearranges the rows, ascending); of the tables, Keyed and
-- HasKeys (rows have different identifiers); and of the identifiers still to be drawn, IsFresh (none
-- that a row of the table has). Engine/Succeeds relates an action that succeeds under any driver to the
-- same action under one that works.
--
-- The record Secrets of Storage/Agents has the hash of a token and
-- the drawing of a new one, which call the standard library's cryptography.
--
-- The record Crypto of Envelope/Sealing has SHA-256, Ed25519 and the sealed box; the round trip assumes
-- of a pair of keys that its signatures verify and that its boxes open. The record Coding of
-- Storage/ThreadQuery has the database's order of identifiers, RFC3339Nano and base64. The record Wire
-- of Tools/SendSecret has what encoding/json makes of a text and which texts are UUIDs. The record
-- Scanner of Tools/Posts has what a regular expression finds in a text, and SHA-256.
--
-- A host of BoardSecret is the decoded content of its files. A process has its arguments, its input,
-- the clock, the links and files that are there, which operations of the file system fail, and what a
-- failing write leaves. A command is a sequence of steps on the host that ends at the first error; the
-- writing of a file by a rename is one step.
--
-- The loop of wait_for_activity is a list of moments (Turn). A moment has its time, what is ready, what
-- others have made of the tables and the hub before it, and the case that the random choice of select
-- falls on if it is ready. The deadline's timer has sent when the time since it was made has reached
-- its duration. That a moment comes at which the deadline is due and the choice falls on it is Go's
-- runtime's part, and a hypothesis where a theorem needs it.
--
-- The hub is a state of its own: the waiting channels of each actor and the channels that hold a
-- signal. A tool's handler takes the actor of the request's context as an argument, and what it tells
-- the hub is part of its answer.
--
-- Times are natural numbers, the distance from Go's zero time, so the zero time is 0. Texts are
-- sequences of characters. Recursion is structural: over the rows of a statement's answer, over the
-- names of a call and over the text that is scanned. Fuel is used in three places: the digits of a number, with
-- the number itself as fuel, which digits_enough shows to be enough; the scan for code blocks,
-- with the number of lines, which blocks_from_enough shows to be enough; and the reading of all pages of
-- the threads, with one more than the threads, where running out is an answer of
-- its own (none) and the theorem shows that it does not happen.
--
-- Not modelled: the isolation of concurrent transactions (an action runs alone; a single statement is
-- atomic), HTTP, MCP and OIDC, the algorithms of the cryptography, the
-- keygen, keys and operator commands of board-secret, full-text search and migrations.
pub mod Prelude
pub mod Models
pub mod Engine
pub mod Storage
pub mod Activity
pub mod BoardSecret
pub mod Encoding
pub mod Envelope
pub mod Tools
pub mod Tests
