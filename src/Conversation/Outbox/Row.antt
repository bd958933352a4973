-- ===== src/Conversation/Outbox/Row.antt =====
-- app/adapters/db/models.py (Outbox): one queued line, and the table that assigns its id.
use stepan.Prelude.{ℕ, String, Bool, true, false, Option, none}
use stepan.Domain.Lead.{Time}

-- `status` holds one of these texts.
pub data Status : Type 0 where
  pending sending sent queued failed skipped canceled : Status

abbrev pub is_pending : Status → Bool
is_pending pending = true
is_pending _ = false

abbrev pub is_sending : Status → Bool
is_sending sending = true
is_sending _ = false

-- `status IN ('sent', 'queued')`: the line was handed to the platform.
abbrev pub is_handed_over : Status → Bool
is_handed_over sent = true
is_handed_over queued = true
is_handed_over _ = false

abbrev pub is_sent : Status → Bool
is_sent sent = true
is_sent _ = false

-- `source` is free text; the code tells three values apart.
pub data Source : Type 0 where
  manager agent followup : Source
  other : String → Source

abbrev pub is_manager : Source → Bool
is_manager manager = true
is_manager _ = false

abbrev pub is_followup : Source → Bool
is_followup followup = true
is_followup _ = false

pub record Row : Type 0 where
  pub id : ℕ
  pub branch_id : ℕ
  pub thread_id : ℕ
  pub text : String
  pub source : Source
  pub sent_by_name : Option String
  pub status : Status
  pub external_ref : Option String
  pub scheduled_at : Time
  pub sent_at : Option Time
  pub error : Option String
  pub llm_info : Option String
  pub attempts : ℕ

-- The defaults of a new row.
abbrev pub fresh_row : ℕ → ℕ → ℕ → String → Source → Time → Option String → Row
fresh_row id branch_id thread_id text source scheduled_at llm_info = record {
  id = id;
  branch_id = branch_id;
  thread_id = thread_id;
  text = text;
  source = source;
  sent_by_name = none;
  status = pending;
  external_ref = none;
  scheduled_at = scheduled_at;
  sent_at = none;
  error = none;
  llm_info = llm_info;
  attempts = 0;
}
