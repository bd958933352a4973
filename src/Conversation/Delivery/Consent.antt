-- ===== src/Conversation/Delivery/Consent.antt =====
-- The consent in a decision (app/modules/conversation/delivery.py): what becomes of a readiness that
-- _apply_decision resets.
use stepan.Prelude.{
  concat, or_text, if_intro, String, ◌≡◌, refl, Bool, true, false, not, ◌&&◌, Option, some, arith,
}
use stepan.Conversation.Delivery.{Decision, ThreadLog, Desk, Shift, is_given, equals, add_log}
use stepan.Conversation.Delivery.Apply.{
  sync_lead_fields, target_of, effective_subtype, check_consent, note_consent, snooze, Exit,
  exit_of, same_stage, settle_stage, pursue, apply_decision, to_deal,
}
use stepan.Conversation.Delivery.Exits.{is_snoozed}
use stepan.Conversation.Delivery.Stages.{wants_ready, consent_still_valid, stage_for}
use stepan.Domain.Lead.{Lead}
use stepan.Domain.Stage.{
  manager, Stage, value, human_led, new, qualifying, presenting, ready, handed_off, objection,
  nurturing, dormant,
}

-- `pursue` from the answer on the consent.
abbrev from_consent : Shift → Decision → (target : Option String) → Bool × Desk → Desk × Option Exit
from_consent e d target (is_now_ready, k) =
    let subtype = effective_subtype e is_now_ready d k.thread in
    let k2 = note_consent e is_now_ready target subtype k in
    settle_stage e d is_now_ready subtype (stage_for e d k2.lead subtype (is_snoozed e k2.lead))
      (snooze e k2)

pursue-from_consent :
    (e : Shift) (d : Decision) (k : Desk)
    → pursue e d k
      ≡ from_consent e d (target_of e d k.thread) (check_consent d (target_of e d k.thread) k)
unfolding pursue
pursue-from_consent e d k = refl

-- The decision asks for readiness, and the lead has agreed to another product than the one on the table.
abbrev pub IsStale : Shift → Decision → Desk → Type 0
IsStale e d k =
    (wants_ready d ≡ true) × (consent_still_valid k.lead (target_of e d k.thread) ≡ false)

abbrev reset_log : (target : Option String) → Desk → ThreadLog
reset_log target k = record {
  kind = "consent_reset";
  detail =
      concat (or_text k.lead.agreed_product_slug "None") (concat " → " (or_text target "None"));
  actor = "system";
}

check_consent_stale :
    (d : Decision) (target : Option String) (k : Desk)
    → wants_ready d ≡ true
    → consent_still_valid k.lead target ≡ false
    → check_consent d target k ≡ (false, add_log (reset_log target k) k)
unfolding check_consent
check_consent_stale d target k wants stale = rw (wants, stale) refl

note_consent_unready :
    (e : Shift) (target subtype : Option String) (k : Desk)
    → note_consent e false target subtype k ≡ k
unfolding note_consent
note_consent_unready e target subtype k = refl

-- Nothing stands against a hand-over but the consent.
abbrev pub IsOpen : Shift → Decision → Desk → Type 0
IsOpen e d k =
    (human_led k.lead.stage ≡ false)
    × (equals d.ready_subtype "openhouse" ≡ false)
    × (is_snoozed e k.lead ≡ false)
    × (is_given k.lead.phone_e164 ≡ true)

stage_for-open :
    (e : Shift) (d : Decision) (lead : Lead) (subtype : Option String)
    → human_led lead.stage ≡ false
    → wants_ready d ≡ true
    → equals subtype "openhouse" ≡ false
    → is_given lead.phone_e164 ≡ true
    → stage_for e d lead subtype false ≡ ready
unfolding stage_for
stage_for-open e d lead subtype led wants deal phone = rw (led, wants, deal, phone) refl

ready_is_new : (s : Stage) → human_led s ≡ false → same_stage ready s ≡ false
unfolding value
ready_is_new new h = refl
ready_is_new qualifying h = refl
ready_is_new presenting h = refl
ready_is_new manager h = absurd (cc h)
ready_is_new ready h = absurd (cc h)
ready_is_new handed_off h = refl
ready_is_new objection h = refl
ready_is_new nurturing h = refl
ready_is_new dormant h = refl

settle_stage-deal :
    (e : Shift) (d : Decision) (is_now_ready : Bool) (subtype : Option String) (k : Desk)
    → human_led k.lead.stage ≡ false
    → (settle_stage e d is_now_ready subtype ready k).1 ≡ some to_deal
unfolding settle_stage exit_of
settle_stage-deal e d is_now_ready subtype k led = rw (ready_is_new k.lead.stage led) refl

pursue_stale :
    (e : Shift) (d : Decision) (k : Desk)
    → IsStale e d k
    → IsOpen e d k
    → (pursue e d k).1 ≡ some to_deal
pursue_stale e d k (wants, stale) (led, deal, hard, phone) =
    let target = target_of e d k.thread in
    let k1 = add_log (reset_log target k) k in
    rw
      (
        pursue-from_consent e d k,
        check_consent_stale d target k wants stale,
        note_consent_unready e target d.ready_subtype k1,
        hard,
        stage_for-open e d k.lead d.ready_subtype led wants deal phone,
      )
      (settle_stage-deal e d false d.ready_subtype (snooze e k1) led)

abbrev IsDeal : Desk × Option Exit → Type 0
IsDeal p = p.1 ≡ some to_deal

-- A readiness that is reset, because the lead agreed to another product before, still hands the lead
-- over as ready where nothing else stands against it: no stop, no off-topic lead, no human, no event and no
-- soft no, and a phone on record.
pub apply_decision_stale :
    (e : Shift) (d : Decision) (k : Desk)
    → d.hard_stop ≡ false
    → equals k.lead.lead_type "non_target" ≡ false
    → IsStale e d (sync_lead_fields e d k)
    → IsOpen e d (sync_lead_fields e d k)
    → let k' = sync_lead_fields e d k in
      ((check_consent d (target_of e d k'.thread) k').0 ≡ false)
      × ((apply_decision e d k).1 ≡ some to_deal)
unfolding apply_decision
apply_decision_stale e d k go target (wants, stale) unbarred =
    let k' = sync_lead_fields e d k in
    (
      rw (check_consent_stale d (target_of e d k'.thread) k' wants stale) refl,
      if_intro IsDeal d.hard_stop (λ yes. absurd (cc (go, yes)))
          (λ _.
            if_intro IsDeal
              (equals k.lead.lead_type "non_target"
                && equals k'.lead.lead_type "non_target"
                && not (human_led k'.lead.stage))
              (λ yes. absurd (ground (arith, target, yes)))
              (λ _. pursue_stale e d k' (wants, stale) unbarred)),
    )
