-- ===== src/Leads.antt =====
-- app/modules/leads: who a lead is and who works it.
pub mod Ingest
pub mod Ops
pub mod Consolidate
pub mod Inbox
