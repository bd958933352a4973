-- ===== src/Crm.antt =====
-- app/modules/crm: what the CRM knows about a lead, and what it forbids.
pub mod Gate
pub mod Rescue
