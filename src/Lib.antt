-- ===== src/Lib.antt =====
-- Stepan-2, a bot that leads a branch's prospects from the first message to a sale over several
-- channels. Its Python program keeps everything in one database: a worker plans and sends lines,
-- webhooks bring inbound messages in, a CRM may hold a lead, and operators or the CRM call the
-- operations on a lead. This library models the core that decides what is sent, to whom and when,
-- and what becomes of the lead.
--
-- The parts, and the files that model them:
-- - Domain/Stage, Domain/Funnel: domain/enums.py (Stage) and domain/funnel.py, that is, the stages,
--   those that silence the bot, those a human leads, and apply_stage. Domain/Lead, Domain/Thread:
--   the columns of adapters/db/models.py that the other parts touch. Domain/Clock:
--   domain/clock.py and the quiet hours of the settings.
-- - Conversation/Dormancy: modules/conversation/dormancy.py (park_dormant).
-- - Conversation/Outbox: modules/conversation/outbox.py. Row is the table and its statuses, Queue
--   the OutboxRepo of modules/conversation/repository.py (oldest_pending, count_sent_since), Config
--   what the sender reads of the settings and the connector, Guards the checks before a send,
--   Followup the planning after one (_plan_followup), Store the tables and the writes on them, Send the
--   pass itself: prepare is send_next up to its commit, complete what follows the channel's answer.
--   Laws are the properties of one pass; Once, Ready and Runs those of passes, crashes, new lines and
--   delivery reports in any order.
-- - Conversation/Reports: modules/conversation/delivery_report.py (resolve, stale_queued); Laws its
--   properties.
-- - Conversation/Deletions: modules/conversation/deletions.py (DeletionService) and the transaction of
--   one thread in worker/main.py, on the rows of Domain/Message. Order and Exact hold the run against a
--   description row by row, Marks is about the watermarks.
-- - Conversation/Delivery: modules/conversation/delivery.py (ReplyDelivery) on a Decision of
--   modules/conversation/decision.py. Stages is _stage_for, Exits the hard stop, the soft close, the
--   hand-offs and the snooze, Apply _sync_lead_fields and _apply_decision, Reply enqueue_reply.
--   Journaled and Laws follow stage, switch, journal and queue through a decision, Answered, Consent
--   and Queued are its other properties.
-- - Conversation/Harvest: modules/conversation/followup.py (FollowupService): queue_one with
--   _queue_followup, the dry step and the timers. Waits, Lines and Dry are its properties.
-- - Missions/Budget: modules/missions/budget.py (account_spend, share_of).
-- - Comments: modules/comments/service.py. Table is the CommentRepo of modules/comments/repository.py,
--   Draft the public line (_draft, _generate), Process the triage and the replies, Ingest the intake of
--   the port's comments; Writes, Caps and Grounded are their properties. Proactive is the mission under the
--   posts of leads (modules/comments/proactive.py, outbound_repo.py), Quiet its limits.
-- - Crm/Gate: modules/crm/gate.py. Crm/Gate/Verdict classifies a CRM record, Crm/Gate is the
--   cache, allow_send, refresh and enforce, Crm/Gate/Laws what they promise.
-- - Leads/Ops: modules/leads/ops.py (move_lead, close_deal, crm_followthrough), with call_failed and
--   the message that it queues in Leads/Ops/Outreach.
-- - Leads/Consolidate: modules/leads/consolidate.py. Rows holds the tables with their unique keys,
--   Leads/Consolidate the merge (merge_by_phone, _absorb), Threads and Merging its properties; Sweep
--   is sweep over a branch.
-- - Leads/Ingest, Leads/Inbox: modules/leads/ingest.py with the lookups of modules/leads/repository.py
--   and modules/leads/identity.py. Leads/Ingest has the two functions that flip the bot's switch,
--   _claim_for_manager and _revive_bot; Inbox the tables and the lookups, Identity resolve_or_create,
--   Talk and Incoming _store, Outgoing _store_outgoing, Batch the loop and the read receipts, Refresh
--   _refresh_identity, whose merges use Leads/Consolidate, and ingest whole. Heard, Pairs, Once and
--   Advance are its properties.
-- - Sender: modules/sender/inbound.py, the table of messages that the CRM's sender hands over; Callback
--   is api/_routes_sender.py, Catchup modules/sender/catchup.py with the tenant. Laws follows both
--   routes in any order, Complete and Again are about what a sweep catches.
-- - Channels/Watch: modules/channels/wa_watch.py, the watch over the WhatsApp devices, and in
--   Channels/Watch/Health the health gate of the worker (worker/main.py, worker/wiring.py,
--   adapters/channels/whatsapp.py). Outage follows one outage through both.
-- - Conversation/Reactivation: modules/conversation/reactivation.py (_reactivate, on the lead and its
--   journal). Crm/Rescue: modules/crm/rescue.py (_rescue_one), which calls Leads/Ops/Outreach.
-- - Lifecycle: the steps of the parts above on a lead's stage and switch that no operator takes, as one
--   relation (inbound messages, sends, replies, merges, the CRM gate, rescues and reactivation), with
--   what stays true along it; Lifecycle/Journaling adds the stage journal.
-- - Tests: concrete values, test runs and an example for each theorem that has conditions.
-- All the paths above start at app/.
--
-- How they meet: the sender (Send) asks the queue for the next line, the guards with the account's
-- budget whether it may go, and the CRM gate last, which may stand the lead down; after the send it
-- plans the follow-ups, whose end parks the lead. Operations and consolidation work on the same
-- leads, threads and lines; the harvest appends lines to the outbox and parks by the same function
-- as the sender. Every handler is a function from the tables it reads to those it writes; the
-- answers of the channel, the CRM and the language model are arguments, and failure of the last two
-- is a value.
--
-- Conventions. Time is a count of microseconds from a fixed start, a natural number; an hour
-- offset of a branch is a direction and a number of hours. Durations and limits from the settings
-- are arguments. An update of an object is the new record, put in the place of the row with its
-- id. A merge that raises is `none`, since the session is rolled back. There is no fuel: every
-- loop runs over a list, except the splitting of the sweep's window, which counts the splits left.
-- The retries of a soft block are bounded by the line's attempts. What the CRM's sender answers is a
-- function for each sweep: an outage is an empty answer of that sweep, and the next may answer more.
--
-- Left out: the choice and wording of replies, what a decided reply does once it is committed (the
-- conversion events and the CRM push are queued only), the language model, the transports and the
-- routes (network and text generation); the pause before a send (_humanize); date parsing in CRM
-- records; the search of the settings through their scopes; the queries of the
-- harvests and of reactivation; and access control and the rest of the worker's schedule,
-- which other parts of the program decide. Arguments stand for code that is not modelled:
-- is_safe_webhook_url, split_bubbles, the dossier and merge_dossier, extract_phone, is_auto_reply,
-- the product map, the filter of comments, the judge and the draft of the proactive mission with
-- its list of candidates, the checks of guard.py, the catalogue, the detectors of a soft no and of
-- an announced next step, the closing lines, to_e164, the checks of money_gate.py, strip, the
-- answers of the CRM's sender and of a revoke, the HMAC, and the product of a share and a number.
-- Where a theorem assumes something of one, it is among its conditions.
pub mod Prelude
pub mod Domain
pub mod Conversation
pub mod Crm
pub mod Leads
pub mod Lifecycle
pub mod Missions
pub mod Tests
pub mod Channels
pub mod Sender
pub mod Comments
