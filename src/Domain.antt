-- ===== src/Domain.antt =====
-- app/domain: the pure core that every module builds on.
pub mod Stage
pub mod Lead
pub mod Funnel
pub mod Thread
pub mod Clock
pub mod Message
