-- ===== src/Conversation/Delivery/Exits.antt =====
-- app/modules/conversation/delivery.py: the ends of a conversation: hard stop, soft close, the hand-offs
-- and the snooze on a soft no.
use stepan.Prelude.{
  length, ltb, if◌then◌else◌, str_eq, concat, is_blank, or_text, ℕ, ◌+◌, ◌-◌, ◌*◌, max, String,
  Bool, false, not, ◌&&◌, ◌||◌, Option, none, some, List, [], ◌∷◌, ◌++◌,
}
use stepan.Conversation.Delivery.{Desk, Shift, is_given, equals, raise_alert}
use stepan.Conversation.Dormancy.{Parked, park_dormant}
use stepan.Domain.Lead.{Time, Lead}
use stepan.Domain.Stage.{human_led}
use stepan.Domain.Thread.{ChannelThread}

abbrev pub timer_off : Desk → Desk
timer_off k = record k { thread = record k.thread { next_followup_at = none } }

abbrev pub lead_or_self : Lead → Option Lead → Lead
lead_or_self l none = l
lead_or_self l (some l') = l'

abbrev pub close_call : Shift → String → Desk → Parked
close_call e reason k =
    park_dormant
      (record {
        branch_id = e.branch_id;
        thread_id = some k.thread.id;
        actor = "bot";
        reason = reason;
        created_at = none;
        respect_human_led = false;
        now = e.now;
      })
      (some k.lead) k.journal

abbrev pub parked_desk : Desk → Parked → Desk
parked_desk k p = record k { lead = lead_or_self k.lead p.lead; journal = p.journal }

abbrev pub bot_off : Desk → Desk
bot_off k = record k { lead = record k.lead { agent_enabled = false } }

-- `_hard_stop`
unfoldable pub hard_stop : Shift → Desk → Desk
hard_stop e k = bot_off (parked_desk (timer_off k) (close_call e "hard_stop" (timer_off k)))

-- `_soft_close_dormant`
unfoldable pub soft_close_dormant : Shift → Desk → Desk
soft_close_dormant e k =
    let p = close_call e "non_target" (timer_off k) in
    let k' = parked_desk (timer_off k) p in
    bot_off (if p.parked then raise_alert "non_target" k' else k')

-- `_queue_crm_push`
unfoldable pub queue_crm_push : Shift → String → Desk → Desk
queue_crm_push e reason k =
    if is_given k.lead.phone_e164 && e.can_push_crm
    then record k { pending_crm_push = some reason }
    else k

-- `queue_capi`
unfoldable pub queue_capi : Shift → String → Desk → Desk
queue_capi e event_name k =
    if e.can_send_capi then record k { pending_capi = k.pending_capi ++ (event_name ∷ []) } else k

-- `lead.ready_subtype or subtype or "deal"`, an old RSVP left out before.
unfoldable pub deal_subtype : (mine subtype : Option String) → String
deal_subtype mine subtype =
    if equals mine "openhouse" && not (equals subtype "openhouse")
    then or_text subtype "deal"
    else or_text mine (or_text subtype "deal")

-- `_handoff`
unfoldable pub handoff : Shift → (subtype : Option String) → Desk → Desk
handoff e subtype k =
    let kind = deal_subtype k.lead.ready_subtype subtype in
    let off = record k {
      lead = record k.lead {
        agent_enabled = false;
        handed_off_at = some e.now;
        ready_subtype = some kind;
      };
    } in
    queue_crm_push e (concat "Lead ready to enrol (" (concat kind ")"))
      (queue_capi e "Lead" (raise_alert (concat "ready_" kind) off))

-- `_handoff_openhouse`
unfoldable pub handoff_openhouse : Desk → Desk
handoff_openhouse k =
    if equals k.lead.ready_subtype "openhouse" || is_blank k.lead.phone_e164
    then k
    else raise_alert "ready_openhouse"
        (record k { lead = record k.lead { ready_subtype = some "openhouse" } })

abbrev pub day : Time
day = 86400000000

-- The last step of the schedule: `len(schedule) - 1 if schedule else 0`.
abbrev pub last_step : List ℕ → ℕ
last_step schedule = length schedule - 1

abbrev pub snoozed : Shift → ChannelThread → Option ℕ → ChannelThread
snoozed e t (some days) = record t {
  followups_sent = max t.followups_sent (last_step e.schedule);
  next_followup_at = some (e.now + days * day);
}
snoozed e t none =
    if ltb t.followups_sent (last_step e.schedule)
    then record t { followups_sent = last_step e.schedule }
    else t

abbrev pub is_soft : Shift → Option String → Bool
is_soft e none = false
is_soft e (some t) = not (str_eq t "") && e.is_soft_no t

-- Whether this turn was a soft no that the snooze takes up.
unfoldable pub is_snoozed : Shift → Lead → Bool
is_snoozed e lead =
    is_soft e e.last_inbound_text
    && not (human_led lead.stage)
    && not (equals lead.lead_type "non_target")

-- `_snooze_on_soft_no`
unfoldable pub snooze_on_soft_no : Shift → Lead → ChannelThread → ChannelThread
snooze_on_soft_no e lead t =
    if is_snoozed e lead then snoozed e t (e.postpone_days (or_text e.last_inbound_text "")) else t
