-- ===== src/Tests/Crm.antt =====
-- The CRM gate at concrete records.
use stepan.Prelude.{◌&&◌, if◌then◌else◌, false, String, ◌≡◌, refl, Bool, true, some}
use mathlib.Core.List.{flat_map}
use stepan.Prelude.Texts.{strip, lower}
use stepan.Conversation.Outbox.Row
use stepan.Crm.Gate.{allow_send, enforce, fetch, state_for, is_reply_source}
use stepan.Crm.Gate.Verdict.{CrmRaw, refused, manager_owns}
use stepan.Crm.Gate.Laws.{
  IsConsulted, reach, permitted, lead_after, allow_send_closed, closed, allow_send-permitted,
  enforce-lead_after,
}
use stepan.Tests.Samples.{raw_free, gate_state, gate_config, noon}

abbrev raw_refused : CrmRaw
raw_refused = record raw_free { status = some " result_fail "; verdict = some "proceed" }

abbrev raw_owned : CrmRaw
raw_owned = record raw_free { owner = some "Manager"; contract_signed = true }

abbrev safe : String → Bool
safe url = true

consulted : IsConsulted safe gate_state gate_config
consulted = record { enabled = refl; has_url = refl; has_phone = refl; is_safe = refl }

-- A signed contract that a manager owns: a reply still goes out.
allow_send_closed_example :
    ((allow_send safe 300000000 gate_state gate_config Row.agent (some raw_owned) noon).1
      ≡ (manager_owns raw_owned && is_reply_source Row.agent))
    × ((allow_send safe 300000000 gate_state gate_config Row.agent (some raw_owned) noon).0.lead
        ≡ (if manager_owns raw_owned then gate_state.lead else lead_after closed gate_state.lead))
unfolding refused strip lower flat_map
allow_send_closed_example =
    allow_send_closed safe 300000000 gate_state gate_config Row.agent (some raw_owned) noon
      raw_owned consulted refl refl refl refl refl refl refl

abbrev raw_won : CrmRaw
raw_won = record raw_free { deal_won = true }

-- The same deal in nobody's name closes the lead to every automated send.
won_answer :
    (allow_send safe 300000000 gate_state gate_config Row.agent (some raw_won) noon).1 ≡ false
unfolding refused strip lower flat_map manager_owns
won_answer =
    (allow_send_closed safe 300000000 gate_state gate_config Row.agent (some raw_won) noon raw_won
      consulted refl refl refl refl refl refl refl).0

allow_send-permitted_example :
    ((allow_send safe 300000000 gate_state gate_config Row.agent (some raw_refused) noon).1
      ≡ permitted (reach (state_for 300000000 gate_state (some raw_refused) noon).1) Row.agent)
    × ((allow_send safe 300000000 gate_state gate_config Row.agent (some raw_refused) noon).0.lead
        ≡ lead_after
            (reach (state_for 300000000 gate_state (some raw_refused) noon).1)
            gate_state.lead)
allow_send-permitted_example =
    allow_send-permitted safe 300000000 gate_state gate_config Row.agent (some raw_refused) noon
      consulted refl

enforce-lead_after_example :
    (enforce safe gate_state gate_config (some raw_refused) noon).0.lead
    ≡ lead_after (reach (fetch gate_state (some raw_refused) noon).1) gate_state.lead
enforce-lead_after_example =
    enforce-lead_after safe gate_state gate_config (some raw_refused) noon consulted
