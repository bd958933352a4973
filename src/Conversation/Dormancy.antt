-- ===== src/Conversation/Dormancy.antt =====
-- app/modules/conversation/dormancy.py, and the two hard closes of delivery.py that call it.
use stepan.Prelude.{
  ℕ, String, Bool, true, false, ◌&&◌, Option, none, some, [], ◌∷◌, ◌++◌, ◌||◌, if◌then◌else◌,
}
use stepan.Domain.Stage.{dormant, is_dormant, human_led, value}
use stepan.Domain.Lead.{Time, Lead, StageEvent, Journal}

-- What a call leaves behind: its result, the lead and the journal.
pub record Parked : Type 0 where
  pub parked : Bool
  pub lead : Option Lead
  pub journal : Journal

-- The call's keyword arguments. `now` is the default of StageEvent.created_at.
pub record Park : Type 0 where
  pub branch_id : ℕ
  pub thread_id : Option ℕ
  pub actor : String
  pub reason : String
  pub created_at : Option Time
  pub respect_human_led : Bool
  pub now : Time

abbrev pub or_now : Option Time → Time → Time
or_now none now = now
or_now (some t) now = t

abbrev pub park_event : Park → Lead → StageEvent
park_event p lead = record {
  branch_id = p.branch_id;
  lead_id = lead.id;
  thread_id = p.thread_id;
  from_stage = value lead.stage;
  to_stage = value dormant;
  actor = p.actor;
  reason = p.reason;
  created_at = or_now p.created_at p.now;
}

unfoldable pub park_dormant : Park → Option Lead → Journal → Parked
park_dormant p none journal = record { parked = false; lead = none; journal = journal }
park_dormant p (some lead) journal =
    if is_dormant lead.stage || (p.respect_human_led && human_led lead.stage)
    then record { parked = false; lead = some lead; journal = journal }
    else record {
      parked = true;
      lead = some (record lead { stage = dormant; agent_enabled = false });
      journal = journal ++ (park_event p lead ∷ []);
    }
