-- ===== src/Tools.antt =====
-- internal/tools/rendezvous: handlers of the MCP tools. The actor of the request's context is an
-- argument; what the handler tells the hub is part of its answer.
pub mod FetchSecret
pub mod SendSecret
pub mod Registrar
pub mod WaitForActivity
pub mod CatchUp
pub mod Peek
pub mod CodeBlocks
pub mod SecretGuard
pub mod Posts
