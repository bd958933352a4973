-- ===== src/Channels.antt =====
-- The state of the accounts behind the channels.
pub mod Watch
