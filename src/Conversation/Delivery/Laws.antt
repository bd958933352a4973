-- ===== src/Conversation/Delivery/Laws.antt =====
-- What a decision (app/modules/conversation/delivery.py, _apply_decision) may and may not do to a lead.
use stepan.Prelude.{
  ltb, if◌then◌else◌, Bool-cases, or_text, if_intro, ℕ, String, ◌≡◌, refl, sym, ap, ◌∙◌, ◌⊎◌, inl,
  inr, Bool, false, not, ◌&&◌, Option, none, some, [], ◌∷◌, ◌++◌,
}
use stepan.Conversation.Delivery.{Decision, Desk, Shift, equals, raise_alert}
use stepan.Conversation.Delivery.Apply.{
  sync_lead_fields, target_of, effective_subtype, check_consent, note_consent, snooze, move_reason,
  move_event, move_stage, Exit, same_stage, settle_stage, pursue, apply_decision,
}
use stepan.Conversation.Delivery.Exits.{
  timer_off, close_call, parked_desk, bot_off, hard_stop, soft_close_dormant, last_step, snoozed,
  is_snoozed, snooze_on_soft_no,
}
use stepan.Conversation.Delivery.Journaled.{
  Face, face, raise_alert-face, phone_now, sync_lead_fields-face, check_consent-face,
  note_consent-face, moved_face, move_stage-face, after_exit, exit_of-face,
}
use stepan.Conversation.Dormancy.{park_dormant}
use stepan.Domain.Lead.{StageEvent}
use stepan.Domain.Stage.{
  manager, Stage, value, is_dormant, human_led, new, qualifying, presenting, ready, handed_off,
  objection, nurturing, dormant,
}
use stepan.Domain.Thread.{ChannelThread}

-- The switch never goes on, and the stage and the journal stay together: neither changes, or the journal
-- gets the one entry of the change.
pub record IsMove (f g : Face) : Type 0 where
  pub same_id : g.id ≡ f.id
  pub same_thread : g.thread_id ≡ f.thread_id
  pub same_rows : g.rows ≡ f.rows
  pub same_next : g.next_row_id ≡ f.next_row_id
  pub same_manual : g.agent_off_manual ≡ f.agent_off_manual
  pub not_on : (g.agent_enabled ≡ f.agent_enabled) ⊎ (g.agent_enabled ≡ false)
  pub told :
      ((g.stage ≡ f.stage) × (g.journal ≡ f.journal))
      ⊎ ((e : StageEvent) × (g.journal ≡ f.journal ++ (e ∷ []))
          × (e.lead_id ≡ f.id)
          × (e.from_stage ≡ value f.stage)
          × (e.to_stage ≡ value g.stage))

IsMove-refl : (f : Face) → IsMove f f
IsMove-refl f = record {
  same_id = refl;
  same_thread = refl;
  same_rows = refl;
  same_next = refl;
  same_manual = refl;
  not_on = inl refl;
  told = inl (refl, refl);
}

-- The same with the bot off.
IsMove-off : (f g : Face) → IsMove f g → IsMove f (record g { agent_enabled = false })
IsMove-off f g h = record {
  same_id = h.same_id;
  same_thread = h.same_thread;
  same_rows = h.same_rows;
  same_next = h.same_next;
  same_manual = h.same_manual;
  not_on = inr refl;
  told = h.told;
}

after_exit-IsMove : (f g : Face) (to : Stage) → IsMove f g → IsMove f (after_exit to g)
after_exit-IsMove f g manager h = IsMove-off f g h
after_exit-IsMove f g ready h = IsMove-off f g h
after_exit-IsMove f g new h = h
after_exit-IsMove f g qualifying h = h
after_exit-IsMove f g presenting h = h
after_exit-IsMove f g handed_off h = h
after_exit-IsMove f g objection h = h
after_exit-IsMove f g nurturing h = h
after_exit-IsMove f g dormant h = h

moved_face-IsMove :
    (e : Shift) (k : Desk) (to : Stage) (reason : String)
    → IsMove (face k) (moved_face e k to reason)
moved_face-IsMove e k to reason = record {
  same_id = refl;
  same_thread = refl;
  same_rows = refl;
  same_next = refl;
  same_manual = refl;
  not_on = inl refl;
  told = inr (move_event e k to reason, refl, refl, refl, refl);
}

carry_face : (P : Face → Type 0) {f g : Face} → f ≡ g → P g → P f
carry_face P e h = rw e h

settle_stage-IsMove :
    (e : Shift) (d : Decision) (is_now_ready : Bool) (subtype : Option String) (to : Stage)
    (k : Desk)
    → IsMove (face k) (face (settle_stage e d is_now_ready subtype to k).0)
unfolding settle_stage
settle_stage-IsMove e d is_now_ready subtype to k =
    if_intro (λ (p : Desk × Option Exit). IsMove (face k) (face p.0)) (same_stage to k.lead.stage)
      (λ _. IsMove-refl (face k))
      (λ _.
        carry_face (IsMove (face k))
          (exit_of-face e d subtype to (move_stage e d is_now_ready to k)
            ∙ ap (after_exit to) (move_stage-face e d is_now_ready to k))
          (after_exit-IsMove (face k) (moved_face e k to (move_reason d is_now_ready)) to
            (moved_face-IsMove e k to (move_reason d is_now_ready))))

-- The desk that the stage is settled on.
abbrev pub consented : Shift → Decision → Desk → Desk
consented e d k =
    let target = target_of e d k.thread in
    let checked = check_consent d target k in
    note_consent e checked.0 target (effective_subtype e checked.0 d checked.1.thread) checked.1

pub consented-face : (e : Shift) (d : Decision) (k : Desk) → face (consented e d k) ≡ face k
consented-face e d k =
    let target = target_of e d k.thread in
    let checked = check_consent d target k in
    note_consent-face e checked.0 target (effective_subtype e checked.0 d checked.1.thread)
      checked.1
    ∙ check_consent-face d target k

snoozed-id : (e : Shift) (t : ChannelThread) (days : Option ℕ) → (snoozed e t days).id ≡ t.id
snoozed-id e t (some days) = refl
snoozed-id e t none =
    if_intro (λ (x : ChannelThread). x.id ≡ t.id) (ltb t.followups_sent (last_step e.schedule))
      (λ _. refl) (λ _. refl)

on_thread_id : Face → ℕ → Face
on_thread_id f n = record f { thread_id = n }

snooze-face : (e : Shift) (k : Desk) → face (snooze e k) ≡ face k
unfolding snooze_on_soft_no
snooze-face e k =
    let same_id : (snooze_on_soft_no e k.lead k.thread).id ≡ k.thread.id =
      if_intro (λ (x : ChannelThread). x.id ≡ k.thread.id) (is_snoozed e k.lead)
        (λ _. snoozed-id e k.thread (e.postpone_days (or_text e.last_inbound_text "")))
        (λ _. refl) in
    unfold on_thread_id in ap (on_thread_id (face k)) same_id

pursue-IsMove : (e : Shift) (d : Decision) (k : Desk) → IsMove (face k) (face (pursue e d k).0)
unfolding pursue
pursue-IsMove e d k =
    carry_face (λ f. IsMove f (face (pursue e d k).0)) (sym (consented-face e d k))
      (carry_face (λ f. IsMove f (face (pursue e d k).0)) (sym (snooze-face e (consented e d k)))
        (settle_stage-IsMove e d _ _ _ (snooze e (consented e d k))))

park_face-IsMove :
    (e : Shift) (reason : String) (k : Desk)
    → IsMove
        (face k)
        (face (bot_off (parked_desk (timer_off k) (close_call e reason (timer_off k)))))
unfolding park_dormant
park_face-IsMove e reason k = elim (Bool-cases (is_dormant k.lead.stage)) [
  | inl asleep ↦ rw asleep (IsMove-off (face k) (face k) (IsMove-refl (face k)))
  | inr awake ↦ rw awake (record {
    same_id = refl;
    same_thread = refl;
    same_rows = refl;
    same_next = refl;
    same_manual = refl;
    not_on = inr refl;
    told = inr (_, refl, refl, refl, refl);
  })
]

IsMove-phone :
    (f g : Face) (phone : Option String) → IsMove (record f { phone_e164 = phone }) g → IsMove f g
IsMove-phone f g phone h = record {
  same_id = h.same_id;
  same_thread = h.same_thread;
  same_rows = h.same_rows;
  same_next = h.same_next;
  same_manual = h.same_manual;
  not_on = h.not_on;
  told = h.told;
}

hard_stop-IsMove : (e : Shift) (k : Desk) → IsMove (face k) (face (hard_stop e k))
unfolding hard_stop
hard_stop-IsMove e k = park_face-IsMove e "hard_stop" k

switched_off : Face → Face
switched_off f = record f { agent_enabled = false }

soft_close-IsMove : (e : Shift) (k : Desk) → IsMove (face k) (face (soft_close_dormant e k))
unfolding soft_close_dormant
soft_close-IsMove e k =
    let p = close_call e "non_target" (timer_off k) in
    let k' = parked_desk (timer_off k) p in
    let rung : face (bot_off (if p.parked then raise_alert "non_target" k' else k'))
        ≡ face (bot_off k') =
      if_intro (λ (x : Desk). face (bot_off x) ≡ face (bot_off k')) p.parked
        (λ _. unfold switched_off in ap switched_off (raise_alert-face "non_target" k'))
        (λ _. refl) in
    carry_face (IsMove (face k)) rung (park_face-IsMove e "non_target" k)

-- Whatever the model decides: the switch never goes on, the manual mark and the lead stay, and either
-- stage and journal are as they were or the journal has the one entry that names both stages.
pub apply_decision-IsMove :
    (e : Shift) (d : Decision) (k : Desk) → IsMove (face k) (face (apply_decision e d k).0)
unfolding apply_decision
apply_decision-IsMove e d k =
    let k' = sync_lead_fields e d k in
    let back : (g : Face) → IsMove (face k') g → IsMove (face k) g = λ g h.
      IsMove-phone (face k) g (phone_now e d k)
        (carry_face (λ f. IsMove f g) (sym (sync_lead_fields-face e d k)) h) in
    if_intro (λ (p : Desk × Option Exit). IsMove (face k) (face p.0)) d.hard_stop
      (λ _. back (face (hard_stop e k')) (hard_stop-IsMove e k'))
      (λ _.
        if_intro (λ (p : Desk × Option Exit). IsMove (face k) (face p.0))
          (equals k.lead.lead_type "non_target"
            && equals k'.lead.lead_type "non_target"
            && not (human_led k'.lead.stage))
          (λ _. back (face (soft_close_dormant e k')) (soft_close-IsMove e k'))
          (λ _. back (face (pursue e d k').0) (pursue-IsMove e d k')))
