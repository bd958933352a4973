-- ===== src/Leads/Inbox/Talk.antt =====
-- app/modules/leads/ingest.py (IngestService._store): what a new message of the lead moves beside the
-- messages: the thread, the nudges, the lead, the journal and the alerts.
use stepan.Prelude.{
  ltb, ◌==◌, if◌then◌else◌, is_none, is_blank, ℕ, ◌+◌, String, Bool, true, not, ◌&&◌, ◌||◌, Option,
  none, some, List, [], ◌∷◌, ◌++◌,
}
use stepan.Conversation.Outbox.Row.{is_pending, is_followup, Row, skipped}
use stepan.Conversation.Outbox.Store.{put_thread, mark}
use stepan.Domain.Lead.{Time, Lead, Journal}
use stepan.Domain.Thread.{ChannelThread}
use stepan.Leads.Inbox.{Inbound, Raised, Inbox, Given, window}
use stepan.Leads.Ingest.{revive_bot}

-- `a or b` on optional texts.
abbrev pub or_else : Option String → Option String → Option String
or_else a b = if is_blank a then b else a

-- `at > mark` or no mark.
abbrev pub is_later : (at : Time) → (mark : Option Time) → Bool
is_later at none = true
is_later at (some mark) = ltb mark at

-- The UPDATE of `_reset_followup_cycle`.
unfoldable pub cancel_nudge : (thread_id : ℕ) → Row → Row
cancel_nudge thread_id r =
    if r.thread_id == thread_id && is_pending r.status && is_followup r.source
    then record r { status = skipped }
    else r

unfoldable pub cancel_nudges : (thread_id : ℕ) → List Row → List Row
cancel_nudges thread_id [] = []
cancel_nudges thread_id (r ∷ rs) = cancel_nudge thread_id r ∷ cancel_nudges thread_id rs

-- What a message moves beside the messages.
pub record Talk : Type 0 where
  pub lead : Lead
  pub thread : ChannelThread
  pub rows : List Row
  pub journal : Journal
  pub alerts : List Raised

-- `AlertService.raise_alert` with a notifier: nothing for a blocked lead.
abbrev pub raised_for : Given → String → Lead → (thread_id : ℕ) → List Raised → List Raised
raised_for g kind lead thread_id alerts =
    if g.has_notifier && not lead.is_blocked
    then alerts ++ (record { kind = kind; lead_id = lead.id; thread_id = thread_id } ∷ [])
    else alerts

-- The read receipt.
abbrev pub with_receipt : Option Time → ChannelThread → ChannelThread
with_receipt none t = t
with_receipt (some at) t =
    if is_later at t.lead_seen_at then record t { lead_seen_at = some at } else t

-- The lead has spoken.
unfoldable pub heard : Given → (at : Time) → Talk → Talk
heard g at k =
    let (lead', journal') = revive_bot g.branch_id k.thread.id g.now k.lead k.journal in
    record {
      lead = lead';
      thread = record k.thread {
        last_in_at = some at;
        msg_in = k.thread.msg_in + 1;
        followups_sent = 0;
        next_followup_at = none;
      };
      rows = cancel_nudges k.thread.id k.rows;
      journal = journal';
      alerts =
          if not k.lead.agent_enabled && not lead'.agent_enabled
          then raised_for g "bot_off_message" lead' k.thread.id k.alerts
          else k.alerts;
    }

-- The window of the channel, from this message on.
abbrev pub opened : Inbound → Talk → Talk
opened inbound k = record k {
  thread = record k.thread { window_until = some (inbound.occurred_at + window) };
}

-- `if thread.last_in_at is None or inbound.occurred_at > thread.last_in_at:`
unfoldable pub arrived : Given → Inbound → Talk → Talk
arrived g inbound k =
    if is_later inbound.occurred_at k.thread.last_in_at
    then (if g.is_auto_reply inbound.text
        then opened inbound k
        else heard g inbound.occurred_at (opened inbound k))
    else k

abbrev hinted : Inbound → ChannelThread → ChannelThread
hinted inbound t =
    if not (is_blank inbound.product_hint) && is_none t.product_slug
    then record t { product_slug = inbound.product_hint; product_source = some "ad" }
    else t

abbrev source_of : Inbound → Option String → Option String
source_of inbound (some s) = some s
source_of inbound none =
    if not (is_blank inbound.lead_source)
    then inbound.lead_source
    else if not (is_blank inbound.ad_id)
    then some "ad_clicktomsg"
    else none

abbrev first_of : Option String → Option String → Option String
first_of given_now (some s) = some s
first_of given_now none = if is_blank given_now then none else given_now

-- The hint, the source and the ad of the thread.
unfoldable pub tagged : Inbound → ChannelThread → ChannelThread
tagged inbound t0 =
    let t = hinted inbound t0 in
    record t {
      lead_source = source_of inbound t.lead_source;
      ad_id = first_of inbound.ad_id t.ad_id;
      ad_media_id = first_of inbound.ad_media_id t.ad_media_id;
      ad_preview_url = or_else inbound.ad_preview_url t.ad_preview_url;
    }

abbrev with_product : Given → (is_ad_referral : Bool) → Option String → Talk → Talk
with_product g is_ad_referral product k =
    if not (is_blank product)
    then record k {
      thread = record k.thread { product_slug = product; product_source = some "ad" };
    }
    else if is_ad_referral
    then record k { alerts = raised_for g "unmapped_ad" k.lead k.thread.id k.alerts }
    else k

-- The product of the ad, or the alert that no product is mapped to it.
unfoldable pub mapped : Given → (is_ad_referral : Bool) → List ChannelThread → Talk → Talk
mapped g is_ad_referral threads k =
    if is_none k.thread.product_slug
      && (not (is_blank k.thread.ad_id) || not (is_blank k.thread.ad_media_id))
    then with_product g is_ad_referral
        (or_else (g.product_for_ad k.thread.ad_id)
          (g.product_for_creative (put_thread k.thread threads) k.thread.ad_media_id))
        k
    else k

-- All of it, in the order of `_store`.
unfoldable pub moved :
    Given → Inbound → (is_ad_referral : Bool) → Lead → ChannelThread → Inbox → Talk
moved g inbound is_ad_referral lead thread s =
    let k = arrived g inbound (record {
      lead = lead;
      thread = with_receipt inbound.lead_seen_at thread;
      rows = s.rows;
      journal = s.journal;
      alerts = s.alerts;
    }) in
    mapped g is_ad_referral s.threads (record k { thread = tagged inbound k.thread })
