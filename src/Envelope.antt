-- ===== src/Envelope.antt =====
-- internal/secrethandoff: the envelopes of the handoff of secrets and what is known of them.
pub mod Format
pub mod Sealing
pub mod Guards
pub mod Checked
pub mod RoundTrip
