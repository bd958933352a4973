-- ===== src/Conversation/Delivery/Journaled.antt =====
-- What a decision (app/modules/conversation/delivery.py, _apply_decision) may do to the stage, the switch
-- and the journal: each of its parts on the columns that these are told by.
use stepan.Prelude.{
  if◌then◌else◌, str_eq, concat, is_blank, if_intro, ℕ, String, ◌≡◌, refl, ap, ◌∙◌, Bool, false,
  not, ◌&&◌, ◌||◌, Option, none, some, List, [], ◌∷◌, ◌++◌,
}
use stepan.Conversation.Delivery.{Decision, Desk, Shift, is_given, same_text, equals, raise_alert}
use stepan.Conversation.Delivery.Apply.{
  is_own_guess, known, sync_product, phone_of, sync_lead_fields, check_consent, note_consent,
  move_reason, move_event, reason_text, log_reason, move_stage, exit_of,
}
use stepan.Conversation.Delivery.Exits.{
  bot_off, queue_crm_push, queue_capi, deal_subtype, handoff, handoff_openhouse,
}
use stepan.Conversation.Delivery.Stages.{wants_ready, consent_still_valid}
use stepan.Conversation.Outbox.Row.{Row}
use stepan.Domain.Lead.{Journal}
use stepan.Domain.Stage.{
  manager, Stage, new, qualifying, presenting, ready, handed_off, objection, nurturing, dormant,
}

-- The columns that tell who leads the lead, and the journal.
pub record Face : Type 0 where
  pub id : ℕ
  pub stage : Stage
  pub agent_enabled : Bool
  pub agent_off_manual : Bool
  pub phone_e164 : Option String
  pub journal : Journal
  pub thread_id : ℕ
  pub rows : List Row
  pub next_row_id : ℕ

abbrev pub face : Desk → Face
face k = record {
  id = k.lead.id;
  stage = k.lead.stage;
  agent_enabled = k.lead.agent_enabled;
  agent_off_manual = k.lead.agent_off_manual;
  phone_e164 = k.lead.phone_e164;
  journal = k.journal;
  thread_id = k.thread.id;
  rows = k.rows;
  next_row_id = k.next_row_id;
}

abbrev SameFace : Desk → Desk → Type 0
SameFace k x = face x ≡ face k

pub raise_alert-face : (kind : String) (k : Desk) → face (raise_alert kind k) ≡ face k
raise_alert-face kind k = if_intro (SameFace k) k.lead.is_blocked (λ _. refl) (λ _. refl)

-- The phone of the lead once this turn's fields are on it.
abbrev pub phone_now : Shift → Decision → Desk → Option String
phone_now e d k = phone_of e d.phone k.lead.phone_e164

pub sync_lead_fields-face :
    (e : Shift) (d : Decision) (k : Desk)
    → face (sync_lead_fields e d k) ≡ (record (face k) { phone_e164 = phone_now e d k })
unfolding sync_lead_fields sync_product
sync_lead_fields-face e d k =
    if_intro
      (λ (x : Desk).
        face
          (record x { lead = record x.lead { phone_e164 = phone_of e d.phone x.lead.phone_e164 } })
        ≡ (record (face k) { phone_e164 = phone_now e d k }))
      (known e d.product_slug
        && not (same_text d.product_slug k.thread.product_slug)
        && is_own_guess k.thread.product_source)
      (λ _. refl) (λ _. refl)

pub check_consent-face :
    (d : Decision) (target : Option String) (k : Desk) → face (check_consent d target k).1 ≡ face k
unfolding check_consent
check_consent-face d target k =
    if_intro (λ (p : Bool × Desk). face p.1 ≡ face k)
      (wants_ready d && not (consent_still_valid k.lead target)) (λ _. refl) (λ _. refl)

handoff_openhouse-face : (k : Desk) → face (handoff_openhouse k) ≡ face k
unfolding handoff_openhouse
handoff_openhouse-face k =
    if_intro (SameFace k) (equals k.lead.ready_subtype "openhouse" || is_blank k.lead.phone_e164)
      (λ _. refl)
      (λ _.
        raise_alert-face "ready_openhouse"
          (record k { lead = record k.lead { ready_subtype = some "openhouse" } }))

pub note_consent-face :
    (e : Shift) (is_now_ready : Bool) (target subtype : Option String) (k : Desk)
    → face (note_consent e is_now_ready target subtype k) ≡ face k
unfolding note_consent
note_consent-face e is_now_ready target subtype k =
    let k' = if is_now_ready && equals subtype "openhouse" then handoff_openhouse k else k in
    let same_first : face k' ≡ face k =
      if_intro (SameFace k) (is_now_ready && equals subtype "openhouse")
        (λ _. handoff_openhouse-face k) (λ _. refl) in
    if_intro (SameFace k) (is_now_ready && is_given target && is_blank k'.lead.agreed_product_slug)
      (λ _. same_first) (λ _. same_first)

queue_crm_push-face :
    (e : Shift) (reason : String) (k : Desk) → face (queue_crm_push e reason k) ≡ face k
unfolding queue_crm_push
queue_crm_push-face e reason k =
    if_intro (SameFace k) (is_given k.lead.phone_e164 && e.can_push_crm) (λ _. refl) (λ _. refl)

queue_capi-face : (e : Shift) (name : String) (k : Desk) → face (queue_capi e name k) ≡ face k
unfolding queue_capi
queue_capi-face e name k = if_intro (SameFace k) e.can_send_capi (λ _. refl) (λ _. refl)

handoff-face :
    (e : Shift) (subtype : Option String) (k : Desk)
    → face (handoff e subtype k) ≡ (record (face k) { agent_enabled = false })
unfolding handoff
handoff-face e subtype k =
    let kind = deal_subtype k.lead.ready_subtype subtype in
    let off : Desk = record k {
      lead = record k.lead {
        agent_enabled = false;
        handed_off_at = some e.now;
        ready_subtype = some kind;
      };
    } in
    let rung = raise_alert (concat "ready_" kind) off in
    queue_crm_push-face e (concat "Lead ready to enrol (" (concat kind ")"))
      (queue_capi e "Lead" rung)
    ∙ queue_capi-face e "Lead" rung
    ∙ raise_alert-face (concat "ready_" kind) off

log_reason-face : (e : Shift) (r : Option String) (k : Desk) → face (log_reason e r k) ≡ face k
log_reason-face e none k = refl
log_reason-face e (some r) k =
    if_intro (SameFace k) (str_eq r "" || e.is_technical r) (λ _. refl) (λ _. refl)

-- The lead after a move: the new stage and one entry more.
abbrev pub moved_face : Shift → Desk → Stage → String → Face
moved_face e k to reason = record (face k) {
  stage = to;
  journal = k.journal ++ (move_event e k to reason ∷ []);
}

abbrev with_stage : Stage → Face → Face
with_stage to f = record f { stage = to }

pub move_stage-face :
    (e : Shift) (d : Decision) (is_now_ready : Bool) (to : Stage) (k : Desk)
    → face (move_stage e d is_now_ready to k) ≡ moved_face e k to (move_reason d is_now_ready)
unfolding move_stage
move_stage-face e d is_now_ready to k = ap (with_stage to) (
    log_reason-face e (reason_text d to)
      (record k { journal = k.journal ++ (move_event e k to (move_reason d is_now_ready) ∷ []) }))

-- A hand-off switches the bot off, any other stage leaves the switch.
abbrev pub after_exit : Stage → Face → Face
after_exit manager f = record f { agent_enabled = false }
after_exit ready f = record f { agent_enabled = false }
after_exit _ f = f

pub exit_of-face :
    (e : Shift) (d : Decision) (subtype : Option String) (to : Stage) (k : Desk)
    → face (exit_of e d subtype to k).0 ≡ after_exit to (face k)
unfolding exit_of
exit_of-face e d subtype manager k = queue_crm_push-face e _ (bot_off k)
exit_of-face e d subtype ready k = handoff-face e subtype k
exit_of-face e d subtype new k = refl
exit_of-face e d subtype qualifying k = refl
exit_of-face e d subtype presenting k = refl
exit_of-face e d subtype handed_off k = refl
exit_of-face e d subtype objection k = refl
exit_of-face e d subtype nurturing k = refl
exit_of-face e d subtype dormant k = refl
