-- ===== src/Conversation/Outbox.antt =====
-- app/modules/conversation/outbox.py and the queue of repository.py: the one way out.
pub mod Row
pub mod Queue
pub mod Config
pub mod Guards
pub mod Followup
pub mod Store
pub mod Send
pub mod Once
pub mod Ready
pub mod Runs
pub mod Laws
