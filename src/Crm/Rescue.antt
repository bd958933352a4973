-- ===== src/Crm/Rescue.antt =====
-- app/modules/crm/rescue.py: _rescue_one, a missed call of the CRM. The four lookups of the tables are given by
-- their answers.
use stepan.Prelude.{if◌then◌else◌, concat, String, Bool, not, ◌||◌, Option, some, List}
use stepan.Conversation.Delivery.Exits.{day}
use stepan.Domain.Lead.{Time}
use stepan.Leads.Ops.{Session}
use stepan.Leads.Ops.Outreach.{Generation, call_failed}

-- The answers of `_refused`, `_read_only_channel`, `_recently_rescued` and `_recently_messaged`.
pub record Lookups : Type 0 where
  pub has_refused : Bool
  pub is_read_only : Bool
  pub was_rescued : Bool
  pub was_messaged : Bool

-- `f"{_NOTE_PREFIX} {missed_at[:10]}"`
abbrev pub rescue_note : (day : String) → String
rescue_note day = concat "CRM missed call " day

module _ (gap : Time) (split_bubbles : String → List String)
    (merge_dossier : Option String → String → String) (strip : String → String) where
  -- `_rescue_one` of a lead that the phone names.
  unfoldable pub rescue_one :
      Session → Lookups → (day : String) → (now : Time) → Generation → Session
  rescue_one s a day now generation =
      if s.lead.is_blocked || not s.lead.agent_enabled
      then s
      else if a.has_refused || a.is_read_only || a.was_rescued || a.was_messaged
      then s
      else (call_failed gap split_bubbles merge_dossier strip s (some (rescue_note day)) now
          generation).0
