-- ===== src/Leads/Inbox/Refresh.antt =====
-- app/modules/leads/ingest.py (IngestService.ingest and _refresh_identity): the names and phones of a
-- batch's known threads, with the merges that a new phone sets off, and the whole batch.
use stepan.Prelude.{
  if◌then◌else◌, str_eq, is_blank, or_text, ℕ, String, not, ◌&&◌, Option, none, some, List, [], ◌∷◌,
}
use stepan.Conversation.Outbox.Store.{find_lead, put_lead}
use stepan.Domain.Lead.{Lead}
use stepan.Domain.Message.{is_out}
use stepan.Domain.Thread.{ChannelThread}
use stepan.Leads.Consolidate.{Merge, merge_by_phone}
use stepan.Leads.Consolidate.Rows.{Tables}
use stepan.Leads.Inbox.{Inbound, Inbox, Given, thread_by_external}
use stepan.Leads.Inbox.Batch.{advance_read_receipts, ingest_each}
use stepan.Leads.Inbox.Identity.{fill}
use stepan.Leads.Inbox.Talk.{or_else}

-- What a batch says of one chat partner.
pub record Identity : Type 0 where
  pub phone : Option String
  pub name : Option String
  pub avatar : Option String

abbrev unsaid : Identity
unsaid = record { phone = none; name = none; avatar = none }

-- The phone counts from either side, the name and the avatar from the lead's messages only.
unfoldable pub with_message : Inbound → Identity → Identity
with_message m i = record {
  phone = or_else i.phone m.lead_phone;
  name = if is_out m.direction then i.name else or_else i.name m.sender_name;
  avatar = if is_out m.direction then i.avatar else or_else i.avatar m.sender_avatar;
}

-- `found[m.external_thread_id] = ...`
unfoldable pub note_identity : Inbound → List (String × Identity) → List (String × Identity)
note_identity m [] = (m.external_thread_id, with_message m unsaid) ∷ []
note_identity m ((ext, i) ∷ rest) =
    let others = note_identity m rest in
    if str_eq ext m.external_thread_id then (ext, with_message m i) ∷ rest else (ext, i) ∷ others

unfoldable pub identities : List Inbound → List (String × Identity) → List (String × Identity)
identities [] found = found
identities (m ∷ ms) found = identities ms (note_identity m found)

-- `self.identity.backfill(lead, phone, name, None, None, avatar)`
unfoldable pub identified : Identity → Lead → Lead
identified i lead = record lead {
  phone_e164 = fill lead.phone_e164 i.phone;
  display_name = fill lead.display_name i.name;
  avatar_url = if is_blank i.avatar then lead.avatar_url else i.avatar;
}

unfoldable pub put_leads : List Lead → List Lead → List Lead
put_leads [] leads = leads
put_leads (l ∷ ls) leads = put_lead l (put_leads ls leads)

-- What a merge leaves in the tables.
abbrev pub with_merge : Inbox → Tables → Option Merge → Inbox × Tables
with_merge s tables none = (s, tables)
with_merge s tables (some m) = (
  record s { leads = put_leads (m.survivor ∷ m.retired_leads) s.leads; threads = m.threads },
  m.tables,
)

abbrev pub after_merge : Inbox → Tables → Option (Option Merge) → Option (Inbox × Tables)
after_merge s tables none = none
after_merge s tables (some merge) = some (with_merge s tables merge)

-- A lead of a known thread. `none` is the exception of the database, which ends the batch.
unfoldable pub refresh_lead : Given → Identity → Inbox → Tables → Lead → Option (Inbox × Tables)
refresh_lead g i s tables lead =
    let lead' = identified i lead in
    let s' = record s { leads = put_lead lead' s.leads } in
    if not (is_blank lead'.phone_e164)
      && not (str_eq (or_text lead'.phone_e164 "") (or_text lead.phone_e164 ""))
    then after_merge s' tables (merge_by_phone lead' s'.leads s'.threads tables g.now)
    else some (s', tables)

abbrev pub refresh_found : Given → Identity → Inbox → Tables → Option Lead → Option (Inbox × Tables)
refresh_found g i s tables none = some (s, tables)
refresh_found g i s tables (some lead) = refresh_lead g i s tables lead

abbrev pub refresh_thread :
    Given → Identity → Inbox → Tables → Option ChannelThread → Option (Inbox × Tables)
refresh_thread g i s tables none = some (s, tables)
refresh_thread g i s tables (some t) = refresh_found g i s tables (find_lead t.lead_id s.leads)

-- The body of the loop over `found.items()`.
unfoldable pub refresh_one : Given → String → Identity → Inbox → Tables → Option (Inbox × Tables)
refresh_one g ext i s tables =
    if is_blank i.phone && is_blank i.name && is_blank i.avatar
    then some (s, tables)
    else refresh_thread g i s tables
        (thread_by_external g.branch_id g.channel_id ext s.leads s.threads)

abbrev pub and_refresh :
    Option (Inbox × Tables) → (Inbox → Tables → Option (Inbox × Tables)) → Option (Inbox × Tables)
and_refresh none f = none
and_refresh (some (s, tables)) f = f s tables

unfoldable pub refresh_each :
    Given → List (String × Identity) → Inbox → Tables → Option (Inbox × Tables)
refresh_each g [] s tables = some (s, tables)
refresh_each g ((ext, i) ∷ rest) s tables =
    and_refresh (refresh_one g ext i s tables) (refresh_each g rest)

-- `_refresh_identity`
unfoldable pub refresh_identity : Given → List Inbound → Inbox → Tables → Option (Inbox × Tables)
refresh_identity g messages s tables = refresh_each g (identities messages []) s tables

-- What a batch leaves, and the ids of the rows that it created.
pub record Ingested : Type 0 where
  pub inbox : Inbox
  pub tables : Tables
  pub created : List ℕ

abbrev pub ingested : Given → List Inbound → Option (Inbox × Tables) → Option Ingested
ingested g messages none = none
ingested g messages (some (s, tables)) =
    let (s', created) = ingest_each g messages s [] in
    some (record { inbox = s'; tables = tables; created = created })

-- `ingest`
unfoldable pub ingest : Given → List Inbound → Inbox → Tables → Option Ingested
ingest g messages s tables =
    ingested g messages (refresh_identity g messages (advance_read_receipts g messages s) tables)
