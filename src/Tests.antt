-- ===== src/Tests.antt =====
-- Runs of the modelled code at concrete inputs: a small hub, and each theorem applied to it.
pub mod Messages
pub mod Rules
pub mod Commands
pub mod Entry
pub mod Requests
