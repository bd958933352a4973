-- ===== src/Leads/Inbox/Incoming.antt =====
-- app/modules/leads/ingest.py (IngestService._store): a message of the lead: a repeat, the other
-- description of an attachment, or a new row.
use stepan.Prelude.{
  if◌then◌else◌, str_eq, is_none, is_blank, ℕ, ◌+◌, String, Bool, true, false, not, ◌&&◌, ◌||◌,
  Option, none, some, List, [], ◌∷◌, ◌++◌,
}
use stepan.Conversation.Outbox.Store.{put_thread, put_lead}
use stepan.Domain.Lead.{Lead}
use stepan.Domain.Message.{MessageRow, inward}
use stepan.Domain.Thread.{ChannelThread}
use stepan.Leads.Inbox.{
  Inbound, Inbox, Given, dedup_window, any_message, find_message, duplicate_by_content,
  is_attachment, is_blank_row, has_inbound, is_contentless, put_message, media_stub,
}
use stepan.Leads.Inbox.Talk.{or_else, moved}
use stepan.Prelude.Texts.{codes, is_empty, strip}

-- The blank row with the description of the webhook.
abbrev pub filled_row : String → Inbound → MessageRow → MessageRow
filled_row external_id inbound row = record row {
  text = inbound.text;
  external_id = external_id;
  link_url = or_else inbound.link_url row.link_url;
  preview_url = or_else inbound.preview_url row.preview_url;
  media_pending = row.media_pending || not (is_blank inbound.media_url);
}

-- `_fill_in_blank`
unfoldable pub fill_in_blank : Given → String → Inbound → MessageRow → Inbox → Inbox
fill_in_blank g external_id inbound row s = record s {
  messages = put_message (filled_row external_id inbound row) s.messages;
  media = s.media ++ media_stub g row.id inbound;
}

abbrev is_click_to_message : Option String → Bool
is_click_to_message none = false
is_click_to_message (some s) = str_eq s "ad_clicktomsg"

-- `is_ad_referral`
unfoldable pub is_referral : Given → (thread_id : ℕ) → Inbound → List MessageRow → Bool
is_referral g thread_id inbound messages =
    (not (is_blank inbound.ad_id)
      || not (is_blank inbound.ad_media_id)
      || is_click_to_message inbound.lead_source)
    && not (has_inbound g.branch_id thread_id messages)

-- The new row of a message of the lead.
abbrev pub message_in :
    Given → String → Inbound → (thread_id id : ℕ) → (is_ad_referral : Bool) → MessageRow
message_in g external_id inbound thread_id id is_ad_referral = record {
  id = id;
  branch_id = g.branch_id;
  thread_id = thread_id;
  channel_id = g.channel_id;
  external_id = external_id;
  direction = inward;
  sent_by = "lead";
  text = inbound.text;
  occurred_at = inbound.occurred_at;
  delete_requested = false;
  media_pending = not (is_blank inbound.media_url);
  link_url = inbound.link_url;
  preview_url = inbound.preview_url;
  revoked_at = none;
  is_ad_referral = is_ad_referral;
}

-- The new row, and the tables after it.
unfoldable pub stored :
    Given → String → Inbound → Lead → ChannelThread → Inbox → Inbox × Option MessageRow
stored g external_id inbound lead thread s =
    let is_ad_referral = is_referral g thread.id inbound s.messages in
    let m = message_in g external_id inbound thread.id s.next_message_id is_ad_referral in
    let k = moved g inbound is_ad_referral lead thread s in
    (
      record s {
        messages = s.messages ++ (m ∷ []);
        media = s.media ++ media_stub g s.next_message_id inbound;
        next_message_id = s.next_message_id + 1;
        leads = put_lead k.lead s.leads;
        threads = put_thread k.thread s.threads;
        rows = k.rows;
        journal = k.journal;
        alerts = k.alerts;
      },
      some m,
    )

-- The text was seen in the last seconds, from the lead or as our own.
unfoldable pub is_repeat : Given → (thread_id : ℕ) → Inbound → List MessageRow → Bool
is_repeat g thread_id inbound messages =
    is_none inbound.media_url
    && ((not (is_empty (strip (codes inbound.text)))
          && duplicate_by_content g.branch_id thread_id false inbound.text inbound.occurred_at
              dedup_window messages)
        || duplicate_by_content g.branch_id thread_id true inbound.text inbound.occurred_at
            dedup_window messages)

unfoldable pub unless_repeat :
    Given → String → Inbound → Lead → ChannelThread → Inbox → Inbox × Option MessageRow
unless_repeat g external_id inbound lead thread s =
    if is_repeat g thread.id inbound s.messages
    then (s, none)
    else stored g external_id inbound lead thread s

unfoldable pub or_filled :
    Given
    → String
    → Inbound
    → Lead
    → ChannelThread
    → Inbox
    → Option MessageRow
    → Inbox × Option MessageRow
or_filled g external_id inbound lead thread s none =
    unless_repeat g external_id inbound lead thread s
or_filled g external_id inbound lead thread s (some row) =
    (fill_in_blank g external_id inbound row s, none)

-- `_store`
unfoldable pub store_incoming :
    Given → String → Inbound → Lead → ChannelThread → Inbox → Inbox × Option MessageRow
store_incoming g external_id inbound lead thread s =
    if is_contentless inbound
    then (if any_message (is_attachment g.branch_id thread.id s.media inbound.occurred_at)
          s.messages
        then (s, none)
        else unless_repeat g external_id inbound lead thread s)
    else if not (is_blank inbound.media_url) || not (is_blank inbound.link_url)
    then or_filled g external_id inbound lead thread s
        (find_message (is_blank_row g.branch_id thread.id s.media inbound.occurred_at) s.messages)
    else unless_repeat g external_id inbound lead thread s
