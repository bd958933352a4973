-- ===== src/Leads/Ingest.antt =====
-- app/modules/leads/ingest.py: how an inbound message moves the lead that wrote it.
use stepan.Prelude.{
  ℕ, String, Bool, true, ◌||◌, Option, none, some, [], ◌∷◌, ◌++◌, str_eq, not, if◌then◌else◌,
}
use stepan.Domain.Stage.{qualifying, manager, is_dormant, is_manager, human_led, value}
use stepan.Domain.Lead.{Time, Lead, StageEvent, Journal}
use stepan.Domain.Funnel.{apply_stage}

-- `(lead.lead_type or "") == "non_target"`
abbrev pub is_non_target : Option String → Bool
is_non_target none = str_eq "" "non_target"
is_non_target (some t) = str_eq t "non_target"

-- MANAGER_PHONE_ACTOR
abbrev pub manager_phone_actor : String
manager_phone_actor = "manager_phone"

-- The two early returns of `_revive_bot`.
unfoldable pub revive_refused : Lead → Bool
revive_refused lead =
    lead.is_blocked || lead.agent_off_manual || human_led lead.stage || is_non_target lead.lead_type

module _ (branch_id thread_id : ℕ) (now : Time) where
  abbrev pub claim_event : Lead → StageEvent
  claim_event lead = record {
    branch_id = branch_id;
    lead_id = lead.id;
    thread_id = some thread_id;
    from_stage = value lead.stage;
    to_stage = value manager;
    actor = manager_phone_actor;
    reason = "manager's own phone: a human owns this conversation";
    created_at = now;
  }

  -- `_claim_for_manager`
  unfoldable pub claim_for_manager : Lead → Journal → Lead × Journal
  claim_for_manager lead journal =
      if is_manager lead.stage
      then (lead, journal)
      else (apply_stage lead manager, journal ++ (claim_event lead ∷ []))

  abbrev pub revive_event : Lead → StageEvent
  revive_event lead = record {
    branch_id = branch_id;
    lead_id = lead.id;
    thread_id = some thread_id;
    from_stage = value lead.stage;
    to_stage = value qualifying;
    actor = "system";
    reason = "lead revived by fresh inbound";
    created_at = now;
  }

  -- `_revive_bot`
  unfoldable pub revive_bot : Lead → Journal → Lead × Journal
  unfolding revive_refused
  revive_bot lead journal =
      if revive_refused lead
      then (lead, journal)
      else let woken = if is_dormant lead.stage then record lead { stage = qualifying } else lead in
        let journal' =
          if is_dormant lead.stage then journal ++ (revive_event lead ∷ []) else journal in
        let armed =
          if not woken.agent_enabled then record woken { agent_enabled = true } else woken in
        (armed, journal')
