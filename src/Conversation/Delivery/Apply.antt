-- ===== src/Conversation/Delivery/Apply.antt =====
-- app/modules/conversation/delivery.py: _sync_lead_fields and _apply_decision.
use stepan.Prelude.{
  if◌then◌else◌, str_eq, concat, is_blank, or_text, String, Bool, true, false, not, ◌&&◌, ◌||◌,
  Option, none, some, [], ◌∷◌, ◌++◌,
}
use stepan.Conversation.Delivery.{Decision, Desk, Shift, is_given, same_text, equals, add_log}
use stepan.Conversation.Delivery.Exits.{
  bot_off, hard_stop, soft_close_dormant, queue_crm_push, handoff, handoff_openhouse, is_snoozed,
  snooze_on_soft_no,
}
use stepan.Conversation.Delivery.Stages.{wants_ready, consent_still_valid, stage_for}
use stepan.Domain.Lead.{StageEvent}
use stepan.Domain.Stage.{is_manager, manager, Stage, value, human_led, ready}
use stepan.Domain.Thread.{ChannelThread}

-- The product of the thread, unless a manager or an ad bound it.
abbrev pub is_own_guess : Option String → Bool
is_own_guess none = true
is_own_guess (some s) = str_eq s "model"

abbrev pub known : Shift → Option String → Bool
known e none = false
known e (some slug) = not (str_eq slug "") && e.is_product slug

unfoldable pub sync_product : Shift → Decision → Desk → Desk
sync_product e d k =
    if known e d.product_slug
      && not (same_text d.product_slug k.thread.product_slug)
      && is_own_guess k.thread.product_source
    then add_log
        (record {
          kind = "product_changed";
          detail =
              concat (or_text k.thread.product_slug "∅")
                (concat " → " (or_text d.product_slug "∅"));
          actor = "agent";
        })
        (record k {
          thread = record k.thread { product_slug = d.product_slug; product_source = some "model" };
        })
    else k

-- A column that takes what this turn saw.
abbrev pub renewed : (seen mine : Option String) → Option String
renewed seen mine = if is_given seen then seen else mine

abbrev pub phone_of : Shift → Option String → Option String → Option String
phone_of e seen mine =
    if is_given seen && is_blank mine then renewed (e.to_e164 (or_text seen "")) mine else mine

-- `_sync_lead_fields`
unfoldable pub sync_lead_fields : Shift → Decision → Desk → Desk
sync_lead_fields e d k0 =
    let k = sync_product e d k0 in
    record k {
      lead = record k.lead {
        preferred_language = renewed d.reply_language k.lead.preferred_language;
        lead_type = renewed d.lead_type k.lead.lead_type;
        audience = renewed d.audience k.lead.audience;
        phone_e164 = phone_of e d.phone k.lead.phone_e164;
      };
    }

-- The product on the table: the one that the model names, if the catalogue has it.
unfoldable pub target_of : Shift → Decision → ChannelThread → Option String
target_of e d t =
    let named = e.strip_text (or_text d.product_slug "") in
    if not (str_eq named "") && e.is_product named then some named else t.product_slug

abbrev pub kind_of : Shift → Option String → String
kind_of e none = ""
kind_of e (some slug) = if str_eq slug "" then "" else e.product_kind slug

abbrev pub effective_subtype :
    Shift → (is_now_ready : Bool) → Decision → ChannelThread → Option String
effective_subtype e is_now_ready d t =
    if is_now_ready && str_eq (kind_of e t.product_slug) "event"
    then some "openhouse"
    else d.ready_subtype

-- The consent of an earlier turn was to another product.
unfoldable pub check_consent : Decision → (target : Option String) → Desk → Bool × Desk
check_consent d target k =
    if wants_ready d && not (consent_still_valid k.lead target)
    then (
      false,
      add_log
          (record {
            kind = "consent_reset";
            detail =
                concat (or_text k.lead.agreed_product_slug "None")
                  (concat " → " (or_text target "None"));
            actor = "system";
          })
          k,
    )
    else (wants_ready d, k)

-- The RSVP, the note of what was agreed to, and the snooze.
unfoldable pub note_consent :
    Shift → (is_now_ready : Bool) → (target subtype : Option String) → Desk → Desk
note_consent e is_now_ready target subtype k0 =
    let k = if is_now_ready && equals subtype "openhouse" then handoff_openhouse k0 else k0 in
    if is_now_ready && is_given target && is_blank k.lead.agreed_product_slug
    then record k {
      lead = record k.lead {
        agreed_product_slug = target;
        agreed_price = e.last_price k.lead.dossier;
      };
    }
    else k

abbrev pub snooze : Shift → Desk → Desk
snooze e k = record k { thread = snooze_on_soft_no e k.lead k.thread }

abbrev pub move_reason : Decision → (is_now_ready : Bool) → String
move_reason d is_now_ready =
    if d.needs_manager then "needs_manager" else if is_now_ready then "ready" else "model decision"

abbrev pub move_event : Shift → Desk → Stage → String → StageEvent
move_event e k to reason = record {
  branch_id = e.branch_id;
  lead_id = k.lead.id;
  thread_id = some k.thread.id;
  from_stage = value k.lead.stage;
  to_stage = value to;
  actor = "bot";
  reason = reason;
  created_at = e.now;
}

abbrev pub reason_text : Decision → Stage → Option String
reason_text d to =
    if is_manager to && d.needs_manager
    then some (
        or_text d.kb_gap
          (or_text d.manager_question "эскалация на менеджера без указанной причины"))
    else d.stage_reason

abbrev pub log_reason : Shift → Option String → Desk → Desk
log_reason e none k = k
log_reason e (some r) k =
    if str_eq r "" || e.is_technical r
    then k
    else add_log (record { kind = "stage_reason"; detail = r; actor = "bot" }) k

-- The journal, the chronology and the new stage.
unfoldable pub move_stage : Shift → Decision → (is_now_ready : Bool) → Stage → Desk → Desk
move_stage e d is_now_ready to k =
    let k' =
      log_reason e (reason_text d to) (record k {
        journal = k.journal ++ (move_event e k to (move_reason d is_now_ready) ∷ []);
      }) in
    record k' { lead = record k'.lead { stage = to } }

-- "manager" and "ready"
pub data Exit : Type 0 where
  to_manager to_deal : Exit

-- What the new stage brings with it.
unfoldable pub exit_of :
    Shift → Decision → (subtype : Option String) → Stage → Desk → Desk × Option Exit
exit_of e d subtype manager k = (
  queue_crm_push e (or_text (reason_text d manager) "Lead escalated to manager") (bot_off k),
  some to_manager,
)
exit_of e d subtype ready k = (handoff e subtype k, some to_deal)
exit_of e d subtype _ k = (k, none)

abbrev pub same_stage : Stage → Stage → Bool
same_stage a b = str_eq (value a) (value b)

-- The end of `_apply_decision`, from the new stage on.
unfoldable pub settle_stage :
    Shift
    → Decision
    → (is_now_ready : Bool) → (subtype : Option String) → Stage
    → Desk
    → Desk × Option Exit
settle_stage e d is_now_ready subtype to k =
    if same_stage to k.lead.stage
    then (k, none)
    else exit_of e d subtype to (move_stage e d is_now_ready to k)

-- From the consent on. The stage is asked of the decision, and not of the readiness that the consent
-- left.
unfoldable pub pursue : Shift → Decision → Desk → Desk × Option Exit
pursue e d k0 =
    let target = target_of e d k0.thread in
    let (is_now_ready, k1) = check_consent d target k0 in
    let subtype = effective_subtype e is_now_ready d k1.thread in
    let k2 = note_consent e is_now_ready target subtype k1 in
    settle_stage e d is_now_ready subtype (stage_for e d k2.lead subtype (is_snoozed e k2.lead))
      (snooze e k2)

-- `_apply_decision`
unfoldable pub apply_decision : Shift → Decision → Desk → Desk × Option Exit
apply_decision e d k0 =
    let k = sync_lead_fields e d k0 in
    if d.hard_stop
    then (hard_stop e k, none)
    else if equals k0.lead.lead_type "non_target"
        && equals k.lead.lead_type "non_target"
        && not (human_led k.lead.stage)
    then (soft_close_dormant e k, none)
    else pursue e d k
