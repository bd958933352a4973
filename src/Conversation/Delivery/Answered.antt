-- ===== src/Conversation/Delivery/Answered.antt =====
-- When a decision (app/modules/conversation/delivery.py) hands the lead over, and when it must not.
use stepan.Prelude.{
  if◌then◌else◌, str_eq_iff, Bool-cases, is_blank, if_intro, String, ◌≡◌, refl, sym, ap, ◌∙◌, inl,
  inr, Bool, true, false, not, ◌&&◌, ◌||◌, Option, none, some, arith,
}
use stepan.Conversation.Delivery.{Decision, Desk, Shift, is_given, equals}
use stepan.Conversation.Delivery.Apply.{
  sync_lead_fields, target_of, effective_subtype, check_consent, note_consent, snooze, move_stage,
  Exit, exit_of, same_stage, settle_stage, pursue, apply_decision, to_deal,
}
use stepan.Conversation.Delivery.Exits.{handoff_openhouse, is_soft, is_snoozed}
use stepan.Conversation.Delivery.Journaled.{Face, sync_lead_fields-face}
use stepan.Conversation.Delivery.Laws.{consented, consented-face}
use stepan.Conversation.Delivery.Stages.{
  is_ready_stage, wants_ready, consent_still_valid, stage_for,
}
use stepan.Domain.Lead.{Lead}
use stepan.Domain.Stage.{
  manager, Stage, value, is_dormant, human_led, new, qualifying, presenting, ready, handed_off,
  objection, nurturing, dormant,
}

same_stage_refl : (s : Stage) → same_stage s s ≡ true
same_stage_refl s = (str_eq_iff (value s) (value s)).1 refl

-- A stage of the bot is not READY without readiness, a phone and no soft no.
stage_for-ready :
    (e : Shift) (d : Decision) (lead : Lead) (subtype : Option String) (soft_no : Bool)
    → human_led lead.stage ≡ false
    → is_ready_stage (stage_for e d lead subtype soft_no) ≡ true
    → (wants_ready d ≡ true) × (soft_no ≡ false) × (is_given lead.phone_e164 ≡ true)
unfolding stage_for
stage_for-ready e d lead subtype soft_no led h =
    (ground (arith, led, h), ground (arith, led, h), ground (arith, led, h))

-- A soft no, of a lead that no human leads: whatever the decision proposes, the stage is not READY; and it is
-- not DORMANT, unless the decision is a readiness for an event, whose proposal stands.
pub stage_for_soft_no :
    (e : Shift) (d : Decision) (lead : Lead) (subtype : Option String)
    → human_led lead.stage ≡ false
    → (is_ready_stage (stage_for e d lead subtype true) ≡ false)
      × ((is_dormant (stage_for e d lead subtype true)
            && not (wants_ready d && equals subtype "openhouse"))
          ≡ false)
unfolding stage_for
stage_for_soft_no e d lead subtype led = (ground (arith, led), ground (arith, led))

stage_for_led :
    (e : Shift) (d : Decision) (lead : Lead) (subtype : Option String) (soft_no : Bool)
    → human_led lead.stage ≡ true
    → stage_for e d lead subtype soft_no ≡ lead.stage
unfolding stage_for
stage_for_led e d lead subtype soft_no led = rw led refl

settle_stage-same :
    (e : Shift) (d : Decision) (is_now_ready : Bool) (subtype : Option String) (k : Desk)
    → settle_stage e d is_now_ready subtype k.lead.stage k ≡ (k, none)
unfolding settle_stage
settle_stage-same e d is_now_ready subtype k = rw (same_stage_refl k.lead.stage) refl

exit_of-to_deal :
    (e : Shift) (d : Decision) (subtype : Option String) (to : Stage) (k : Desk)
    → (exit_of e d subtype to k).1 ≡ some to_deal
    → is_ready_stage to ≡ true
unfolding exit_of
exit_of-to_deal e d subtype manager k h = absurd (ground (arith, h))
exit_of-to_deal e d subtype ready k h = refl
exit_of-to_deal e d subtype new k h = absurd (cc h)
exit_of-to_deal e d subtype qualifying k h = absurd (cc h)
exit_of-to_deal e d subtype presenting k h = absurd (cc h)
exit_of-to_deal e d subtype handed_off k h = absurd (cc h)
exit_of-to_deal e d subtype objection k h = absurd (cc h)
exit_of-to_deal e d subtype nurturing k h = absurd (cc h)
exit_of-to_deal e d subtype dormant k h = absurd (cc h)

-- What a hand-off as ready rests on.
abbrev pub IsEarned : Shift → Decision → Desk → Type 0
IsEarned e d k =
    (human_led k.lead.stage ≡ false)
    × (wants_ready d ≡ true)
    × ((is_soft e e.last_inbound_text && not (equals k.lead.lead_type "non_target")) ≡ false)
    × (is_given k.lead.phone_e164 ≡ true)

settle_stage-to_deal :
    (e : Shift) (d : Decision) (is_now_ready : Bool) (subtype : Option String) (to : Stage)
    (k : Desk)
    → (settle_stage e d is_now_ready subtype to k).1 ≡ some to_deal
    → (same_stage to k.lead.stage ≡ false) × (is_ready_stage to ≡ true)
unfolding settle_stage
settle_stage-to_deal e d is_now_ready subtype to k h =
    elim (Bool-cases (same_stage to k.lead.stage)) [
      | inl stays ↦ let no : none ≡ some to_deal = rw stays at h in absurd (cc no)
      | inr moves ↦
          (moves, exit_of-to_deal e d subtype to (move_stage e d is_now_ready to k) (rw moves at h))
    ]

stage_of : Face → Stage
stage_of f = f.stage

phone_in : Face → Option String
phone_in f = f.phone_e164

pursue-human_led :
    (e : Shift) (d : Decision) (k : Desk)
    → human_led k.lead.stage ≡ true
    → human_led (pursue e d k).0.lead.stage ≡ true
unfolding pursue
pursue-human_led e d k led =
    let target = target_of e d k.thread in
    let checked = check_consent d target k in
    let subtype = effective_subtype e checked.0 d checked.1.thread in
    let c = consented e d k in
    let same_led : c.lead.stage ≡ k.lead.stage =
      unfold stage_of in ap stage_of (consented-face e d k) in
    let led' : human_led c.lead.stage ≡ true = rw same_led led in
    rw
      (
        stage_for_led e d c.lead subtype (is_snoozed e c.lead) led',
        settle_stage-same e d checked.0 subtype (snooze e c),
      )
      led'

abbrev SameType : Desk → Desk → Type 0
SameType k x = x.lead.lead_type ≡ k.lead.lead_type

handoff_openhouse-lead_type : (k : Desk) → SameType k (handoff_openhouse k)
unfolding handoff_openhouse
handoff_openhouse-lead_type k =
    let marked : Desk = record k { lead = record k.lead { ready_subtype = some "openhouse" } } in
    if_intro (SameType k) (equals k.lead.ready_subtype "openhouse" || is_blank k.lead.phone_e164)
      (λ _. refl) (λ _. if_intro (SameType k) marked.lead.is_blocked (λ _. refl) (λ _. refl))

note_consent-lead_type :
    (e : Shift) (is_now_ready : Bool) (target subtype : Option String) (k : Desk)
    → SameType k (note_consent e is_now_ready target subtype k)
unfolding note_consent
note_consent-lead_type e is_now_ready target subtype k =
    let k' = if is_now_ready && equals subtype "openhouse" then handoff_openhouse k else k in
    let first : SameType k k' =
      if_intro (SameType k) (is_now_ready && equals subtype "openhouse")
        (λ _. handoff_openhouse-lead_type k) (λ _. refl) in
    if_intro (SameType k) (is_now_ready && is_given target && is_blank k'.lead.agreed_product_slug)
      (λ _. first) (λ _. first)

check_consent-lead_type :
    (d : Decision) (target : Option String) (k : Desk) → SameType k (check_consent d target k).1
unfolding check_consent
check_consent-lead_type d target k =
    if_intro (λ (p : Bool × Desk). SameType k p.1)
      (wants_ready d && not (consent_still_valid k.lead target)) (λ _. refl) (λ _. refl)

consented-lead_type : (e : Shift) (d : Decision) (k : Desk) → SameType k (consented e d k)
consented-lead_type e d k =
    let target = target_of e d k.thread in
    let checked = check_consent d target k in
    note_consent-lead_type e checked.0 target (effective_subtype e checked.0 d checked.1.thread)
      checked.1
    ∙ check_consent-lead_type d target k

-- Of a lead that no human leads, the snooze leaves alone only one without a soft no or off target.
is_snoozed_unled :
    (e : Shift) (lead : Lead)
    → human_led lead.stage ≡ false
    → is_snoozed e lead ≡ false
    → (is_soft e e.last_inbound_text && not (equals lead.lead_type "non_target")) ≡ false
unfolding is_snoozed
is_snoozed_unled e lead led h = ground (arith, led, h)

pursue-to_deal :
    (e : Shift) (d : Decision) (k : Desk) → (pursue e d k).1 ≡ some to_deal → IsEarned e d k
unfolding pursue
pursue-to_deal e d k h =
    let target = target_of e d k.thread in
    let checked = check_consent d target k in
    let subtype = effective_subtype e checked.0 d checked.1.thread in
    let c = consented e d k in
    let soft_no = is_snoozed e c.lead in
    let facts =
      settle_stage-to_deal e d checked.0 subtype (stage_for e d c.lead subtype soft_no) (snooze e c)
        h in
    let same_led : c.lead.stage ≡ k.lead.stage =
      unfold stage_of in ap stage_of (consented-face e d k) in
    let same_phone : c.lead.phone_e164 ≡ k.lead.phone_e164 =
      unfold phone_in in ap phone_in (consented-face e d k) in
    let unled : human_led c.lead.stage ≡ false = elim (Bool-cases (human_led c.lead.stage)) [
      | inl led ↦
          let stays : same_stage c.lead.stage c.lead.stage ≡ false =
            rw (stage_for_led e d c.lead subtype soft_no led) at facts.0 in
          absurd (cc (stays, same_stage_refl c.lead.stage))
      | inr unled ↦ unled
    ] in
    let (wants, hard, phone) = stage_for-ready e d c.lead subtype soft_no unled facts.1 in
    let same_type = consented-lead_type e d k in
    (
      rw (sym same_led) unled,
      wants,
      rw (sym same_type) (is_snoozed_unled e c.lead unled hard),
      rw (sym same_phone) phone,
    )

-- A lead that a human leads keeps its stage where the decision is no hard stop.
pub apply_decision-human_led :
    (e : Shift) (d : Decision) (k : Desk)
    → d.hard_stop ≡ false
    → human_led k.lead.stage ≡ true
    → human_led (apply_decision e d k).0.lead.stage ≡ true
unfolding apply_decision
apply_decision-human_led e d k go led =
    let k' = sync_lead_fields e d k in
    let same_led : k'.lead.stage ≡ k.lead.stage =
      unfold stage_of in ap stage_of (sync_lead_fields-face e d k) in
    let led' : human_led k'.lead.stage ≡ true = rw same_led led in
    let Goal : Desk × Option Exit → Type 0 = λ p. human_led p.0.lead.stage ≡ true in
    if_intro Goal d.hard_stop (λ yes. absurd (cc (go, yes)))
      (λ _.
        if_intro Goal
          (equals k.lead.lead_type "non_target"
            && equals k'.lead.lead_type "non_target"
            && not (human_led k'.lead.stage))
          (λ yes. absurd (ground (arith, led', yes))) (λ _. pursue-human_led e d k' led'))

-- A lead is handed over as ready only where it was not led by a human, the decision asks for it, the
-- lead's last message was no soft no unless this turn's fields make it a non-target lead, and a phone is on
-- record once these fields are.
pub apply_decision-to_deal :
    (e : Shift) (d : Decision) (k : Desk)
    → (apply_decision e d k).1 ≡ some to_deal
    → IsEarned e d (sync_lead_fields e d k)
unfolding apply_decision
apply_decision-to_deal e d k h =
    let k' = sync_lead_fields e d k in
    let Goal : Desk × Option Exit → Type 0 = λ p. p.1 ≡ some to_deal → IsEarned e d k' in
    if_intro Goal d.hard_stop (λ _ no. absurd (cc no))
      (λ _.
        if_intro Goal
          (equals k.lead.lead_type "non_target"
            && equals k'.lead.lead_type "non_target"
            && not (human_led k'.lead.stage))
          (λ _ no. absurd (cc no)) (λ _ on. pursue-to_deal e d k' on))
      h
