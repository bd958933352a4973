-- ===== src/Domain/Lead.antt =====
-- app/adapters/db/models.py: the columns of Lead and StageEvent that the modelled code touches.
use stepan.Prelude.{ℕ, String, Bool, Option, List}
use stepan.Domain.Stage.{Stage}

-- A moment: microseconds since year 1 (naive UTC, as the columns are).
abbrev pub Time : Type 0
Time = ℕ

pub record Lead : Type 0 where
  pub id : ℕ
  pub branch_id : ℕ
  pub display_name : Option String
  pub avatar_url : Option String
  pub phone_e164 : Option String
  pub ig_user_id : Option String
  pub ig_username : Option String
  pub preferred_language : Option String
  pub stage : Stage
  pub ready_subtype : Option String
  pub lead_type : Option String
  pub audience : Option String
  pub dossier : Option String
  pub agent_enabled : Bool
  pub agent_off_manual : Bool
  pub is_blocked : Bool
  pub is_merged_into : Option ℕ
  pub agreed_product_slug : Option String
  pub agreed_price : Option String
  pub handed_off_at : Option Time
  pub created_at : Time

-- A row of the stage journal.
pub record StageEvent : Type 0 where
  pub branch_id : ℕ
  pub lead_id : ℕ
  pub thread_id : Option ℕ
  pub from_stage : String
  pub to_stage : String
  pub actor : String
  pub reason : String
  pub created_at : Time

-- `session.add(StageEvent(...))` appends to the journal.
abbrev pub Journal : Type 0
Journal = List StageEvent
