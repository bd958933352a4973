-- ===== src/Leads/Inbox/Outgoing.antt =====
-- app/modules/leads/ingest.py (IngestService._store_outgoing): our own message, seen in the channel.
use stepan.Prelude.{
  ◌==◌, if◌then◌else◌, is_none, is_blank, ℕ, ◌+◌, String, Bool, true, false, not, ◌&&◌, ◌||◌,
  Option, none, some, List, [], ◌∷◌, ◌++◌,
}
use stepan.Conversation.Outbox.Row.{Row}
use stepan.Conversation.Outbox.Store.{put_thread}
use stepan.Domain.Lead.{Time}
use stepan.Domain.Message.{MessageRow, outward}
use stepan.Domain.Thread.{ChannelThread}
use stepan.Leads.Inbox.{
  Inbound, Inbox, Given, out_echo_window, is_near, thread_by_external, duplicate_by_content,
  media_stub,
}
use stepan.Leads.Inbox.Talk.{is_later}
use stepan.Prelude.Texts.{codes, same, is_empty, strip}

-- The WHERE of `_we_composed_this`.
abbrev is_ours : (thread_id : ℕ) → List ℕ → (at : Time) → Row → Bool
is_ours thread_id clean at r =
    r.thread_id == thread_id
    && same (codes r.text) clean
    && is_near at out_echo_window r.scheduled_at

unfoldable pub any_row : (Row → Bool) → List Row → Bool
any_row p [] = false
any_row p (r ∷ rs) = p r || any_row p rs

-- `_we_composed_this`
unfoldable pub we_composed_this : (thread_id : ℕ) → String → (at : Time) → List Row → Bool
we_composed_this thread_id body at rows =
    not (is_empty (strip (codes body))) && any_row (is_ours thread_id (strip (codes body)) at) rows

abbrev pub message_out :
    Given → String → Inbound → (thread_id id : ℕ) → (is_composed : Bool) → MessageRow
message_out g external_id inbound thread_id id is_composed = record {
  id = id;
  branch_id = g.branch_id;
  thread_id = thread_id;
  channel_id = g.channel_id;
  external_id = external_id;
  direction = outward;
  sent_by = if is_composed then "agent" else "manager";
  text = inbound.text;
  occurred_at = inbound.occurred_at;
  delete_requested = false;
  media_pending = not (is_blank inbound.media_url);
  link_url = none;
  preview_url = none;
  revoked_at = none;
  is_ad_referral = false;
}

-- `msg_out` and `last_out_at`
abbrev pub with_outgoing : (at : Time) → ChannelThread → ChannelThread
with_outgoing at t =
    let t' = record t { msg_out = t.msg_out + 1 } in
    if is_later at t.last_out_at then record t' { last_out_at = some at } else t'

unfoldable pub outgoing_on :
    Given → String → Inbound → Inbox → Option ChannelThread → Inbox × Option MessageRow
outgoing_on g external_id inbound s none = (s, none)
outgoing_on g external_id inbound s (some t) =
    if is_none inbound.media_url
      && duplicate_by_content g.branch_id t.id true inbound.text inbound.occurred_at out_echo_window
          s.messages
    then (s, none)
    else let m =
        message_out g external_id inbound t.id s.next_message_id
          (we_composed_this t.id inbound.text inbound.occurred_at s.rows) in
      (
        record s {
          messages = s.messages ++ (m ∷ []);
          media = s.media ++ media_stub g s.next_message_id inbound;
          next_message_id = s.next_message_id + 1;
          threads = put_thread (with_outgoing inbound.occurred_at t) s.threads;
        },
        some m,
      )

-- `_store_outgoing`
unfoldable pub store_outgoing : Given → String → Inbound → Inbox → Inbox × Option MessageRow
store_outgoing g external_id inbound s =
    outgoing_on g external_id inbound s
      (thread_by_external g.branch_id g.channel_id inbound.external_thread_id s.leads s.threads)
