-- ===== src/BoardSecret.antt =====
-- cmd/board-secret: the client's side of the handoff of secrets.
pub mod Host
pub mod Flags
pub mod Seen
pub mod Pins
pub mod Jail
pub mod Commands
pub mod Triples
pub mod Frames
pub mod Lines
pub mod Replay
pub mod Rollback
pub mod Confined
