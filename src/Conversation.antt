-- ===== src/Conversation.antt =====
-- app/modules/conversation: the sales dialog, its queue and its wind-down.
pub mod Dormancy
pub mod Outbox
pub mod Harvest
pub mod Reports
pub mod Deletions
pub mod Delivery
pub mod Reactivation
