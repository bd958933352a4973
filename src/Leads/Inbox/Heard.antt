-- ===== src/Leads/Inbox/Heard.antt =====
-- What a stored message of the lead does to the follow-ups, the window and the bot
-- (app/modules/leads/ingest.py).
use stepan.Prelude.{
  All, if◌then◌else◌, Bool-cases, is_none, is_blank, if_intro, ℕ, ◌+◌, ◌≡◌, refl, sym, ap, ◌∙◌, inl,
  inr, Bool, true, false, not, ◌&&◌, ◌||◌, Option, none, some, List, [], ◌∷◌, arith,
}
use stepan.Conversation.Outbox.Row.{is_pending, is_followup, Row}
use stepan.Conversation.Outbox.Store.{put_thread}
use stepan.Domain.Lead.{Time, Lead, Journal}
use stepan.Domain.Thread.{ChannelThread}
use stepan.Leads.Inbox.{Inbound, Inbox, Given, window}
use stepan.Leads.Inbox.Talk.{
  or_else, is_later, cancel_nudge, cancel_nudges, Talk, with_receipt, heard, opened, arrived,
  tagged, mapped, moved,
}
use stepan.Leads.Ingest.{revive_bot}

-- No nudge of the thread is still to go out.
abbrev pub IsQuiet : (thread_id : ℕ) → List Row → Type 0
IsQuiet thread_id =
    All (λ r. r.thread_id ≡ thread_id → is_followup r.source ≡ true → is_pending r.status ≡ false)

cancel_nudges-IsQuiet :
    (thread_id : ℕ) (rows : List Row) → IsQuiet thread_id (cancel_nudges thread_id rows)
unfolding cancel_nudges cancel_nudge
cancel_nudges-IsQuiet thread_id [] = tt
cancel_nudges-IsQuiet thread_id (r ∷ rs) =
    ((λ e f. ground (arith, e, f)), cancel_nudges-IsQuiet thread_id rs)

-- The columns that the ad of a thread does not touch.
pub record Core : Type 0 where
  pub last_in_at : Option Time
  pub window_until : Option Time
  pub msg_in : ℕ
  pub followups_sent : ℕ
  pub next_followup_at : Option Time
  pub lead : Lead
  pub rows : List Row
  pub journal : Journal

abbrev pub core_on : ChannelThread → Talk → Core
core_on t k = record {
  last_in_at = t.last_in_at;
  window_until = t.window_until;
  msg_in = t.msg_in;
  followups_sent = t.followups_sent;
  next_followup_at = t.next_followup_at;
  lead = k.lead;
  rows = k.rows;
  journal = k.journal;
}

abbrev pub core : Talk → Core
core k = core_on k.thread k

-- The lead has spoken: the moments and the window are the message's, the follow-up cycle starts anew
-- without a nudge left to go out, and the lead is as a revival leaves it.
abbrev pub IsHeard : Given → Inbound → Lead → (thread_id msg_in : ℕ) → Journal → Core → Type 0
IsHeard g inbound lead thread_id msg_in journal c =
    (c.last_in_at ≡ some inbound.occurred_at)
    × (c.window_until ≡ some (inbound.occurred_at + window))
    × (c.msg_in ≡ msg_in + 1)
    × (c.followups_sent ≡ 0)
    × (c.next_followup_at ≡ none)
    × IsQuiet thread_id c.rows
    × (c.lead ≡ (revive_bot g.branch_id thread_id g.now lead journal).0)
    × (c.journal ≡ (revive_bot g.branch_id thread_id g.now lead journal).1)

carry : (P : Core → Type 0) {c d : Core} → c ≡ d → P d → P c
carry P e h = rw e h

carry_two : (P : ℕ → ℕ → Type 0) {a n b m : ℕ} → a ≡ n → b ≡ m → P a b → P n m
carry_two P e f h = rw (sym e, sym f) h

mapped-core :
    (g : Given) (is_ad_referral : Bool) (threads : List ChannelThread) (k : Talk)
    → core (mapped g is_ad_referral threads k) ≡ core k
unfolding mapped
mapped-core g is_ad_referral threads k =
    if_intro (λ (x : Talk). core x ≡ core k)
      (is_none k.thread.product_slug
        && (not (is_blank k.thread.ad_id) || not (is_blank k.thread.ad_media_id)))
      (λ _.
        if_intro (λ (x : Talk). core x ≡ core k)
          (not (
            is_blank (
              or_else (g.product_for_ad k.thread.ad_id)
                (g.product_for_creative (put_thread k.thread threads) k.thread.ad_media_id))))
          (λ _. refl)
          (λ _. if_intro (λ (x : Talk). core x ≡ core k) is_ad_referral (λ _. refl) (λ _. refl)))
      (λ _. refl)

tagged-core : (inbound : Inbound) (k : Talk) → core_on (tagged inbound k.thread) k ≡ core k
unfolding tagged
tagged-core inbound k =
    if_intro (λ (t : ChannelThread). core_on t k ≡ core k)
      (not (is_blank inbound.product_hint) && is_none k.thread.product_slug) (λ _. refl) (λ _. refl)

with_receipt-core :
    (at : Option Time) (t : ChannelThread) (k : Talk) → core_on (with_receipt at t) k ≡ core_on t k
with_receipt-core none t k = refl
with_receipt-core (some at) t k =
    if_intro (λ (x : ChannelThread). core_on x k ≡ core_on t k) (is_later at t.lead_seen_at)
      (λ _. refl) (λ _. refl)

module _ (g : Given) (inbound : Inbound) (is_ad_referral : Bool) (lead : Lead)
    (thread : ChannelThread) (s : Inbox) where
  abbrev first_talk : Talk
  first_talk = record {
    lead = lead;
    thread = with_receipt inbound.lead_seen_at thread;
    rows = s.rows;
    journal = s.journal;
    alerts = s.alerts;
  }

  moved-core :
      core (moved g inbound is_ad_referral lead thread s) ≡ core (arrived g inbound first_talk)
  unfolding moved
  moved-core =
      let k = arrived g inbound first_talk in
      mapped-core g is_ad_referral s.threads (record k { thread = tagged inbound k.thread })
      ∙ tagged-core inbound k

  with_receipt-last_in_at :
      (at : Option Time) (t : ChannelThread) → (with_receipt at t).last_in_at ≡ t.last_in_at
  with_receipt-last_in_at none t = refl
  with_receipt-last_in_at (some at) t = ground arith

  with_receipt-ids :
      (at : Option Time) (t : ChannelThread)
      → ((with_receipt at t).id ≡ t.id) × ((with_receipt at t).msg_in ≡ t.msg_in)
  with_receipt-ids none t = (refl, refl)
  with_receipt-ids (some at) t = (ground arith, ground arith)

  heard-IsHeard :
      (k : Talk)
      → k.lead ≡ lead
      → k.journal ≡ s.journal
      → IsHeard g inbound lead k.thread.id k.thread.msg_in s.journal
          (core (heard g inbound.occurred_at (opened inbound k)))
  unfolding heard
  heard-IsHeard k e f = (
    refl,
    refl,
    refl,
    refl,
    refl,
    cancel_nudges-IsQuiet k.thread.id k.rows,
    rw (e, f) refl,
    rw (e, f) refl,
  )

  -- A message of the lead later than any before, and no auto-reply: the moments and the window move to
  -- it, the follow-up cycle starts anew with no nudge of the thread left to go out, and the lead is
  -- left as a revival leaves it.
  pub moved-IsHeard :
      is_later inbound.occurred_at thread.last_in_at ≡ true
      → g.is_auto_reply inbound.text ≡ false
      → IsHeard g inbound lead thread.id thread.msg_in s.journal
          (core (moved g inbound is_ad_referral lead thread s))
  moved-IsHeard newer is_human =
      let as_heard : arrived g inbound first_talk
          ≡ heard g inbound.occurred_at (opened inbound first_talk) =
        unfold arrived in
        rw (with_receipt-last_in_at inbound.lead_seen_at thread, newer, is_human) refl in
      let same_columns = with_receipt-ids inbound.lead_seen_at thread in
      carry (IsHeard g inbound lead thread.id thread.msg_in s.journal)
        (moved-core ∙ ap core as_heard)
        (carry_two
          (λ n m.
            IsHeard g inbound lead n m s.journal
              (core (heard g inbound.occurred_at (opened inbound first_talk))))
          same_columns.0 same_columns.1 (heard-IsHeard first_talk refl refl))

  -- A message that is no later than the last, or an auto-reply of the lead's own: nothing counts it as
  -- the lead speaking, so the moment, the follow-ups, the queue, the journal and the lead stay; the
  -- window moves only for the auto-reply that is later.
  pub moved-unheard :
      (is_later inbound.occurred_at thread.last_in_at && not (g.is_auto_reply inbound.text)) ≡ false
      → core (moved g inbound is_ad_referral lead thread s) ≡ (record (core_on thread first_talk) {
        window_until =
            if is_later inbound.occurred_at thread.last_in_at
            then some (inbound.occurred_at + window)
            else thread.window_until;
      })
  moved-unheard h = elim (Bool-cases (is_later inbound.occurred_at thread.last_in_at)) [
    | inl newer ↦
        let is_robot : g.is_auto_reply inbound.text ≡ true = ground (arith, h, newer) in
        let as_opened : arrived g inbound first_talk ≡ opened inbound first_talk =
          unfold arrived in
          rw (with_receipt-last_in_at inbound.lead_seen_at thread, newer, is_robot) refl in
        rw newer (
          moved-core
          ∙ ap core as_opened
          ∙ ap (λ (c : Core). record c { window_until = some (inbound.occurred_at + window) })
              (with_receipt-core inbound.lead_seen_at thread first_talk))
    | inr older ↦
        let as_before : arrived g inbound first_talk ≡ first_talk =
          unfold arrived in rw (with_receipt-last_in_at inbound.lead_seen_at thread, older) refl in
        rw older (
          moved-core ∙ ap core as_before ∙ with_receipt-core inbound.lead_seen_at thread first_talk)
  ]
