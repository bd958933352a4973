-- ===== src/Tests.antt =====
-- The theorems at concrete inputs, and runs of the code.
mod Samples
mod Leads
mod Crm
mod Outbox
mod Domain
mod Harvest
mod Channels
mod Sweep
mod Reports
mod Deletions
mod Sender
mod Inbox
mod Delivery
mod Comments
