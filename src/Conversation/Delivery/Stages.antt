-- ===== src/Conversation/Delivery/Stages.antt =====
-- app/modules/conversation/delivery.py: the stage that a decision leads to (_stage_for).
use stepan.Prelude.{ltb, if◌then◌else◌, or_text, String, Bool, true, false, not, ◌&&◌, ◌||◌, Option}
use stepan.Conversation.Delivery.{Decision, Shift, is_given, equals}
use stepan.Domain.Lead.{Lead}
use stepan.Domain.Stage.{
  manager, Stage, is_dormant, human_led, qualifying, presenting, ready, objection,
}
use stepan.Prelude.Texts.{codes, same, is_empty, strip}

abbrev pub is_ready_stage : Stage → Bool
is_ready_stage ready = true
is_ready_stage _ = false

-- `_is_ready`
abbrev pub wants_ready : Decision → Bool
wants_ready d = d.is_ready || is_ready_stage d.stage

-- `_consent_still_valid`, on stripped texts.
unfoldable pub consent_still_valid : Lead → (target : Option String) → Bool
consent_still_valid lead target =
    let agreed = strip (codes (or_text lead.agreed_product_slug "")) in
    let now = strip (codes (or_text target "")) in
    is_empty agreed || is_empty now || same agreed now

-- `_needs_captured`
unfoldable pub needs_captured : Shift → Decision → Lead → Bool
needs_captured e d lead =
    (d.has_pains && d.has_gains)
    || (d.discovery_complete && d.has_pains)
    || e.has_stored_needs lead.dossier

abbrev pub is_pitch : Stage → Bool
is_pitch presenting = true
is_pitch objection = true
is_pitch _ = false

abbrev pub spared : (soft_no : Bool) → Stage → Stage
spared soft_no s = if soft_no && is_dormant s then objection else s

-- `_stage_for`: whether the decision counts as ready is asked of the decision again.
unfoldable pub stage_for :
    Shift → Decision → Lead → (subtype : Option String) → (soft_no : Bool) → Stage
stage_for e d lead subtype soft_no =
    if human_led lead.stage
    then lead.stage
    else if wants_ready d && equals subtype "openhouse"
    then (if is_ready_stage d.stage then presenting else d.stage)
    else if wants_ready d && soft_no
    then objection
    else if wants_ready d && is_given lead.phone_e164
    then ready
    else if d.needs_manager
    then manager
    else if wants_ready d
    then presenting
    else if is_pitch d.stage
        && ltb e.inbound_count e.discovery_turn_cap
        && not (needs_captured e d lead)
    then qualifying
    else spared soft_no d.stage
