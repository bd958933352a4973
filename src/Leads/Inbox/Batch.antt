-- ===== src/Leads/Inbox/Batch.antt =====
-- app/modules/leads/ingest.py (IngestService.ingest): the loop over a batch, and the read receipts
-- before it.
use stepan.Prelude.{
  if◌then◌else◌, str_eq, is_blank, or_text, ℕ, max, String, Bool, not, ◌&&◌, ◌||◌, Option, none,
  some, List, [], ◌∷◌, ◌++◌,
}
use stepan.Conversation.Outbox.Store.{put_thread, put_lead}
use stepan.Domain.Lead.{Time, Lead, Journal}
use stepan.Domain.Message.{is_out, MessageRow}
use stepan.Domain.Thread.{ChannelThread}
use stepan.Leads.Inbox.{
  Inbound, Inbox, Given, is_known, thread_by_external, legacy_external_id, synthetic_external_id,
}
use stepan.Leads.Inbox.Identity.{Resolved, resolve_or_create}
use stepan.Leads.Inbox.Incoming.{store_incoming}
use stepan.Leads.Inbox.Outgoing.{store_outgoing}
use stepan.Leads.Inbox.Talk.{or_else, with_receipt}
use stepan.Leads.Ingest.{claim_for_manager}

-- `latest[ext] = max(...)`
unfoldable pub note_seen : String → Time → List (String × Time) → List (String × Time)
note_seen ext at [] = (ext, at) ∷ []
note_seen ext at ((x, u) ∷ rest) =
    let others = note_seen ext at rest in
    if str_eq x ext then (x, max u at) ∷ rest else (x, u) ∷ others

abbrev noted : Inbound → List (String × Time) → Option Time → List (String × Time)
noted m seen none = seen
noted m seen (some at) = note_seen m.external_thread_id at seen

unfoldable pub latest_seen : List Inbound → List (String × Time) → List (String × Time)
latest_seen [] seen = seen
latest_seen (m ∷ ms) seen = latest_seen ms (noted m seen m.lead_seen_at)

abbrev pub receipt_on : Time → Inbox → Option ChannelThread → Inbox
receipt_on at s none = s
receipt_on at s (some t) = record s { threads = put_thread (with_receipt (some at) t) s.threads }

unfoldable pub advance_each : Given → List (String × Time) → Inbox → Inbox
advance_each g [] s = s
advance_each g ((ext, at) ∷ rest) s =
    advance_each g rest
      (receipt_on at s (thread_by_external g.branch_id g.channel_id ext s.leads s.threads))

-- `_advance_read_receipts`
unfoldable pub advance_read_receipts : Given → List Inbound → Inbox → Inbox
advance_read_receipts g messages s = advance_each g (latest_seen messages []) s

-- `external_id = inbound.external_id or _external_id(inbound)`
abbrev pub external_id_of : Given → Inbound → String
external_id_of g inbound = or_text inbound.external_id (synthetic_external_id g inbound)

-- The three lookups that skip a message.
unfoldable pub is_ingested : Given → Inbound → List MessageRow → Bool
is_ingested g inbound messages =
    is_known g.branch_id g.channel_id (external_id_of g inbound) messages
    || is_known g.branch_id g.channel_id (legacy_external_id g inbound) messages
    || (not (is_blank inbound.external_id)
        && is_known g.branch_id g.channel_id (synthetic_external_id g inbound) messages)

abbrev with_claim : Resolved → Lead × Journal → Resolved
with_claim r (lead', journal') = record r {
  lead = lead';
  inbox = record r.inbox { leads = put_lead lead' r.inbox.leads; journal = journal' };
}

-- `if manager_phone and thread_created: await self._claim_for_manager(lead, thread)`
unfoldable pub claimed_on_phone : Given → Resolved → Resolved
claimed_on_phone g r =
    if g.is_manager_phone && r.is_created
    then with_claim r (claim_for_manager g.branch_id r.thread.id g.now r.lead r.inbox.journal)
    else r

abbrev store_on : Given → Inbound → Resolved → Inbox × Option MessageRow
store_on g inbound r = store_incoming g (external_id_of g inbound) inbound r.lead r.thread r.inbox

-- A message of the lead: the channel's own number first.
unfoldable pub ingest_incoming : Given → Inbound → Inbox → Inbox × Option MessageRow
ingest_incoming g inbound s = store_on g inbound (
    claimed_on_phone g
      (resolve_or_create g inbound (or_else inbound.lead_phone (g.extract_phone inbound.text)) s))

-- The body of the loop.
unfoldable pub ingest_one : Given → Inbound → Inbox → Inbox × Option MessageRow
ingest_one g inbound s =
    if is_ingested g inbound s.messages
    then (s, none)
    else if is_out inbound.direction
    then store_outgoing g (external_id_of g inbound) inbound s
    else ingest_incoming g inbound s

-- `created.append(row)`, a row by its id.
abbrev pub and_created : List ℕ → Option MessageRow → List ℕ
and_created created none = created
and_created created (some m) = created ++ (m.id ∷ [])

-- `for inbound in messages:`
unfoldable pub ingest_each : Given → List Inbound → Inbox → List ℕ → Inbox × List ℕ
ingest_each g [] s created = (s, created)
ingest_each g (m ∷ ms) s created =
    let (s', row) = ingest_one g m s in ingest_each g ms s' (and_created created row)
