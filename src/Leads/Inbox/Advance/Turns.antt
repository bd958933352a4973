-- ===== src/Leads/Inbox/Advance/Turns.antt =====
-- Every write of a batch to a thread (app/modules/leads/ingest.py) is an advance, and so is the batch.
use stepan.Prelude.{
  is_none, is_blank, if_intro, ◌+◌, String, ◌≡◌, refl, Bool, true, not, ◌&&◌, ◌||◌, Option, none,
  some, List, arith,
}
use mathlib.Core.List.{Memᴰ}
use stepan.Conversation.Outbox.Store.{put_thread}
use stepan.Domain.Lead.{Time, Lead}
use stepan.Domain.Message.{MessageRow}
use stepan.Domain.Thread.{ChannelThread}
use stepan.Leads.Inbox.{
  Inbound, Inbox, Given, out_echo_window, any_message, duplicate_by_content, is_attachment,
  is_contentless,
}
use stepan.Leads.Inbox.Advance.{
  NotBefore, Marks, marks, IsAdvance, IsKeyed, NotBefore-refl, NotBefore-later, IsAdvance-refl,
  IsAdvance-marks, IsAdvance-trans,
}
use stepan.Leads.Inbox.Advance.Saved.{Advances, save-Advances, stay-Advances}
use stepan.Leads.Inbox.Incoming.{
  fill_in_blank, is_referral, stored, is_repeat, unless_repeat, or_filled, store_incoming,
}
use stepan.Leads.Inbox.Outgoing.{with_outgoing, outgoing_on}
use stepan.Leads.Inbox.Talk.{
  or_else, is_later, Talk, with_receipt, heard, opened, arrived, tagged, mapped, moved,
}

abbrev From : Marks → ChannelThread → Type 0
From m t = IsAdvance m (marks t)

pub with_receipt-IsAdvance :
    (at : Option Time) (t : ChannelThread) → IsAdvance (marks t) (marks (with_receipt at t))
with_receipt-IsAdvance none t = IsAdvance-refl (marks t)
with_receipt-IsAdvance (some at) t =
    if_intro (From (marks t)) (is_later at t.lead_seen_at) {x = record t { lead_seen_at = some at }}
      {y = t}
      (λ newer.
        IsAdvance-marks (marks t) t.last_in_at t.last_out_at (some at) t.msg_in t.msg_out
          (NotBefore-refl t.last_in_at) (NotBefore-refl t.last_out_at)
          (NotBefore-later t.lead_seen_at at newer) (omega arith) (omega arith))
      (λ _. IsAdvance-refl (marks t))

with_outgoing-IsAdvance :
    (at : Time) (t : ChannelThread) → IsAdvance (marks t) (marks (with_outgoing at t))
with_outgoing-IsAdvance at t =
    let sent_as : (o : Option Time)
        → NotBefore t.last_out_at o
        → IsAdvance (marks t) (record (marks t) { last_out_at = o; msg_out = t.msg_out + 1 }) =
      λ o on.
        IsAdvance-marks (marks t) t.last_in_at o t.lead_seen_at t.msg_in (t.msg_out + 1)
          (NotBefore-refl t.last_in_at) on (NotBefore-refl t.lead_seen_at) (omega arith)
          (omega arith) in
    let counted : ChannelThread = record t { msg_out = t.msg_out + 1 } in
    if_intro (From (marks t)) (is_later at t.last_out_at)
      {x = record counted { last_out_at = some at }} {y = counted}
      (λ newer. sent_as (some at) (NotBefore-later t.last_out_at at newer))
      (λ _. sent_as t.last_out_at (NotBefore-refl t.last_out_at))

tagged-marks : (inbound : Inbound) (t : ChannelThread) → marks (tagged inbound t) ≡ marks t
unfolding tagged
tagged-marks inbound t =
    if_intro (λ (x : ChannelThread). marks x ≡ marks t)
      (not (is_blank inbound.product_hint) && is_none t.product_slug) (λ _. refl) (λ _. refl)

mapped-marks :
    (g : Given) (is_ad_referral : Bool) (threads : List ChannelThread) (k : Talk)
    → marks (mapped g is_ad_referral threads k).thread ≡ marks k.thread
unfolding mapped
mapped-marks g is_ad_referral threads k =
    if_intro (λ (x : Talk). marks x.thread ≡ marks k.thread)
      (is_none k.thread.product_slug
        && (not (is_blank k.thread.ad_id) || not (is_blank k.thread.ad_media_id)))
      (λ _.
        if_intro (λ (x : Talk). marks x.thread ≡ marks k.thread)
          (not (
            is_blank (
              or_else (g.product_for_ad k.thread.ad_id)
                (g.product_for_creative (put_thread k.thread threads) k.thread.ad_media_id))))
          (λ _. refl)
          (λ _.
            if_intro (λ (x : Talk). marks x.thread ≡ marks k.thread) is_ad_referral (λ _. refl)
              (λ _. refl)))
      (λ _. refl)

arrived-IsAdvance :
    (g : Given) (inbound : Inbound) (k : Talk)
    → IsAdvance (marks k.thread) (marks (arrived g inbound k).thread)
unfolding arrived heard
arrived-IsAdvance g inbound k =
    if_intro (λ (x : Talk). From (marks k.thread) x.thread)
      (is_later inbound.occurred_at k.thread.last_in_at)
      (λ newer.
        if_intro (λ (x : Talk). From (marks k.thread) x.thread) (g.is_auto_reply inbound.text)
          {x = opened inbound k} {y = heard g inbound.occurred_at (opened inbound k)}
          (λ _. IsAdvance-refl (marks k.thread))
          (λ _.
            IsAdvance-marks (marks k.thread) (some inbound.occurred_at) k.thread.last_out_at
              k.thread.lead_seen_at (k.thread.msg_in + 1) k.thread.msg_out
              (NotBefore-later k.thread.last_in_at inbound.occurred_at newer)
              (NotBefore-refl k.thread.last_out_at) (NotBefore-refl k.thread.lead_seen_at)
              (omega arith) (omega arith)))
      (λ _. IsAdvance-refl (marks k.thread))

moved-IsAdvance :
    (g : Given) (inbound : Inbound) (is_ad_referral : Bool) (lead : Lead) (thread : ChannelThread)
    (s : Inbox)
    → IsAdvance (marks thread) (marks (moved g inbound is_ad_referral lead thread s).thread)
unfolding moved
moved-IsAdvance g inbound is_ad_referral lead thread s =
    let k0 : Talk = record {
      lead = lead;
      thread = with_receipt inbound.lead_seen_at thread;
      rows = s.rows;
      journal = s.journal;
      alerts = s.alerts;
    } in
    let k = arrived g inbound k0 in
    let to_k =
      IsAdvance-trans (marks thread) (marks k0.thread) (marks k.thread)
        (with_receipt-IsAdvance inbound.lead_seen_at thread) (arrived-IsAdvance g inbound k0) in
    rw
      (
        mapped-marks g is_ad_referral s.threads (record k { thread = tagged inbound k.thread }),
        tagged-marks inbound k.thread,
      )
      to_k

module _ (g : Given) (external_id : String) (inbound : Inbound) where
  abbrev Turn : Inbox → Inbox × Option MessageRow → Type 0
  Turn s p = Advances s p.0

  module _ (lead : Lead) (thread : ChannelThread) (s : Inbox)
      (k : IsKeyed s.threads s.next_thread_id) (in_table : Memᴰ thread s.threads) where
    stored-Advances : Advances s (stored g external_id inbound lead thread s).0
    unfolding stored
    stored-Advances =
        save-Advances s _ thread
          (moved g inbound (is_referral g thread.id inbound s.messages) lead thread s).thread k
          in_table
          (moved-IsAdvance g inbound (is_referral g thread.id inbound s.messages) lead thread s)
          refl refl

    unless_repeat-Advances : Advances s (unless_repeat g external_id inbound lead thread s).0
    unfolding unless_repeat
    unless_repeat-Advances =
        if_intro (Turn s) (is_repeat g thread.id inbound s.messages)
          (λ _. stay-Advances s s k refl refl) (λ _. stored-Advances)

    or_filled-Advances :
        (row : Option MessageRow) → Advances s (or_filled g external_id inbound lead thread s row).0
    unfolding or_filled fill_in_blank
    or_filled-Advances none = unless_repeat-Advances
    or_filled-Advances (some row) = stay-Advances s _ k refl refl

    pub store_incoming-Advances : Advances s (store_incoming g external_id inbound lead thread s).0
    unfolding store_incoming
    store_incoming-Advances =
        if_intro (Turn s) (is_contentless inbound)
          (λ _.
            if_intro (Turn s)
              (any_message (is_attachment g.branch_id thread.id s.media inbound.occurred_at)
                s.messages)
              (λ _. stay-Advances s s k refl refl) (λ _. unless_repeat-Advances))
          (λ _.
            if_intro (Turn s) (not (is_blank inbound.media_url) || not (is_blank inbound.link_url))
              (λ _. or_filled-Advances _) (λ _. unless_repeat-Advances))

  pub outgoing_on-Advances :
      (s : Inbox) (t : Option ChannelThread)
      → IsKeyed s.threads s.next_thread_id
      → ((u : ChannelThread) → t ≡ some u → Memᴰ u s.threads)
      → Advances s (outgoing_on g external_id inbound s t).0
  unfolding outgoing_on
  outgoing_on-Advances s none k m = stay-Advances s s k refl refl
  outgoing_on-Advances s (some t) k m =
      if_intro (Turn s)
        (is_none inbound.media_url
          && duplicate_by_content g.branch_id t.id true inbound.text inbound.occurred_at
              out_echo_window s.messages)
        (λ _. stay-Advances s s k refl refl)
        (λ _.
          save-Advances s _ t (with_outgoing inbound.occurred_at t) k (m t refl)
            (with_outgoing-IsAdvance inbound.occurred_at t) refl refl)
