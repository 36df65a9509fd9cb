-- ===== src/Storage.antt =====
-- internal/storage: the operations on the tables.
pub mod Schema
pub mod Handoff
pub mod Mention
pub mod Thread
pub mod ThreadQuery
pub mod CatchUp
pub mod Agents
pub mod Alerts
pub mod Humans
pub mod Profile
