-- ===== src/Tests/Delivery.antt =====
-- Decisions on a small desk.
use stepan.Prelude.{
  if◌then◌else◌, str_eq, ◌+◌, ◌≡◌, refl, true, false, not, ◌&&◌, ◌||◌, none, some, [], ◌∷◌, ◌++◌,
}
use stepan.Conversation.Delivery.{Decision, Desk, Shift, equals}
use stepan.Conversation.Delivery.Answered.{stage_for_soft_no, IsEarned, apply_decision-to_deal}
use stepan.Conversation.Delivery.Apply.{
  sync_product, sync_lead_fields, target_of, check_consent, note_consent, move_stage, exit_of,
  settle_stage, pursue, apply_decision, to_deal,
}
use stepan.Conversation.Delivery.Consent.{apply_decision_stale}
use stepan.Conversation.Delivery.Exits.{
  hard_stop, queue_crm_push, queue_capi, deal_subtype, handoff, handoff_openhouse, is_snoozed,
  snooze_on_soft_no,
}
use stepan.Conversation.Delivery.Queued.{lines_from, closing, enqueue_reply-rows}
use stepan.Conversation.Delivery.Reply.{queue_lines, enqueue_reply}
use stepan.Conversation.Delivery.Stages.{
  is_ready_stage, wants_ready, consent_still_valid, stage_for,
}
use stepan.Conversation.Dormancy.{park_dormant}
use stepan.Domain.Stage.{value, is_dormant, presenting, ready, objection, dormant}
use stepan.Prelude.Texts.{is_space, lstrip, rstrip, strip}
use stepan.Tests.Samples.{lead_at, thread_of, noon}

abbrev on_duty : Shift
on_duty = record {
  branch_id = 1;
  now = noon;
  base = noon + 5000000;
  bubble_gap = 6000000;
  discovery_turn_cap = 4;
  schedule = 1 ∷ 4 ∷ 24 ∷ 120 ∷ [];
  can_push_crm = true;
  can_send_capi = true;
  strip_text = λ s. s;
  to_e164 = λ s. some s;
  is_product = λ s. str_eq s "course" || str_eq s "demo";
  product_kind = λ s. if str_eq s "demo" then "event" else "course";
  last_inbound_text = some "halo";
  inbound_count = 5;
  is_soft_no = λ s. str_eq s "nanti";
  postpone_days = λ _. none;
  split_bubbles = λ s. s ∷ s ∷ [];
  says_what_happens_next = λ s. str_eq s "the team will call";
  branch_lang = "id";
  manager_closing = λ lang _. lang;
  ready_closing = λ lang. lang;
  is_technical = λ _. false;
  has_stored_needs = λ _. false;
  last_price = λ _. some "750000";
  llm_info = none;
}

abbrev decision : Decision
decision = record {
  reply = "ok";
  stage = presenting;
  product_slug = some "course";
  is_ready = true;
  needs_manager = false;
  stage_reason = some "agreed";
  manager_question = none;
  kb_gap = none;
  ready_subtype = none;
  lead_type = none;
  audience = none;
  reply_language = none;
  phone = none;
  has_pains = false;
  has_gains = false;
  discovery_complete = false;
  hard_stop = false;
}

abbrev desk : Desk
desk = record {
  lead = lead_at 7 presenting;
  thread = thread_of 20 7;
  rows = [];
  next_row_id = 1;
  journal = [];
  logs = [];
  alerts = [];
  pending_crm_push = none;
  pending_capi = [];
}

-- A yes to the course: the bot is off, the manager is told, and what was agreed to is on record.
deal :
    let (k, exit) = apply_decision on_duty decision desk in
    (exit ≡ some to_deal)
    × (k.lead.stage ≡ ready)
    × (k.lead.agent_enabled ≡ false)
    × (k.lead.agreed_product_slug ≡ some "course")
unfolding apply_decision pursue settle_stage value stage_for note_consent check_consent
    consent_still_valid strip lstrip rstrip is_space sync_lead_fields sync_product target_of
    is_snoozed exit_of handoff queue_crm_push queue_capi move_stage deal_subtype handoff_openhouse
    hard_stop snooze_on_soft_no park_dormant
deal = (refl, refl, refl, refl)

-- A seat at an event leaves the bot on and the lead in the funnel.
rsvp :
    let (k, exit) =
      apply_decision on_duty (record decision { product_slug = some "demo"; stage = ready }) desk in
    (exit ≡ none)
    × (k.lead.agent_enabled ≡ true)
    × (k.lead.ready_subtype ≡ some "openhouse")
    × (k.lead.stage ≡ presenting)
unfolding apply_decision pursue settle_stage value stage_for note_consent check_consent
    consent_still_valid strip lstrip rstrip is_space sync_lead_fields sync_product target_of
    is_snoozed exit_of handoff queue_crm_push queue_capi move_stage deal_subtype handoff_openhouse
    hard_stop snooze_on_soft_no park_dormant
rsvp = (refl, refl, refl, refl)

-- A stop parks the lead and clears the timer.
stopped :
    let (k, exit) = apply_decision on_duty (record decision { hard_stop = true }) desk in
    (exit ≡ none) × (k.lead.stage ≡ dormant) × (k.lead.agent_enabled ≡ false)
unfolding apply_decision pursue settle_stage value stage_for note_consent check_consent
    consent_still_valid strip lstrip rstrip is_space sync_lead_fields sync_product target_of
    is_snoozed exit_of handoff queue_crm_push queue_capi move_stage deal_subtype handoff_openhouse
    hard_stop snooze_on_soft_no park_dormant
stopped = (refl, refl, refl)

-- A soft no leaves one nudge of the schedule.
last_nudge :
    let (k, exit) =
      apply_decision (record on_duty { last_inbound_text = some "nanti" }) decision desk in
    (exit ≡ none) × (k.lead.stage ≡ objection) × (k.thread.followups_sent ≡ 3)
unfolding apply_decision pursue settle_stage value stage_for note_consent check_consent
    consent_still_valid strip lstrip rstrip is_space sync_lead_fields sync_product target_of
    is_snoozed exit_of handoff queue_crm_push queue_capi move_stage deal_subtype handoff_openhouse
    hard_stop snooze_on_soft_no park_dormant
last_nudge = (refl, refl, refl)

abbrev agreed_before : Desk
agreed_before = record desk { lead = record desk.lead { agreed_product_slug = some "demo" } }

apply_decision_stale_example :
    let k' = sync_lead_fields on_duty decision agreed_before in
    ((check_consent decision (target_of on_duty decision k'.thread) k').0 ≡ false)
    × ((apply_decision on_duty decision agreed_before).1 ≡ some to_deal)
unfolding apply_decision pursue settle_stage value stage_for note_consent check_consent
    consent_still_valid strip lstrip rstrip is_space sync_lead_fields sync_product target_of
    is_snoozed exit_of handoff queue_crm_push queue_capi move_stage deal_subtype handoff_openhouse
    hard_stop snooze_on_soft_no park_dormant
apply_decision_stale_example =
    apply_decision_stale on_duty decision agreed_before refl refl (refl, refl)
      (refl, refl, refl, refl)

apply_decision-to_deal_example : IsEarned on_duty decision (sync_lead_fields on_duty decision desk)
unfolding apply_decision pursue settle_stage value stage_for note_consent check_consent
    consent_still_valid strip lstrip rstrip is_space sync_lead_fields sync_product target_of
    is_snoozed exit_of handoff queue_crm_push queue_capi move_stage deal_subtype handoff_openhouse
    hard_stop snooze_on_soft_no park_dormant
apply_decision-to_deal_example = apply_decision-to_deal on_duty decision desk refl

abbrev to_sleep : Decision
to_sleep = record decision { is_ready = false; stage = dormant }

stage_for_soft_no_example :
    (is_ready_stage (stage_for on_duty to_sleep desk.lead none true) ≡ false)
    × ((is_dormant (stage_for on_duty to_sleep desk.lead none true)
          && not (wants_ready to_sleep && equals none "openhouse"))
        ≡ false)
stage_for_soft_no_example = stage_for_soft_no on_duty to_sleep desk.lead none refl

enqueue_reply-rows_example :
    let bubbles = on_duty.split_bubbles decision.reply in
    let (k', exit) = apply_decision on_duty decision (queue_lines on_duty bubbles 0 desk) in
    let last = closing on_duty decision desk.lead.preferred_language k'.lead exit in
    (enqueue_reply on_duty decision desk).rows
    ≡ desk.rows ++ lines_from on_duty desk.thread.id desk.next_row_id 0 (bubbles ++ last)
enqueue_reply-rows_example = enqueue_reply-rows on_duty decision desk refl
