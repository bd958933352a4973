-- ===== src/Domain/Message.antt =====
-- app/adapters/db/models.py: the columns of Message that ingest and the deletions touch.
use stepan.Prelude.{ℕ, String, Bool, true, false, Option}
use stepan.Domain.Lead.{Time}

-- `direction`: "in" or "out".
pub data Direction : Type 0 where
  inward outward : Direction

abbrev pub is_out : Direction → Bool
is_out inward = false
is_out outward = true

pub record MessageRow : Type 0 where
  pub id : ℕ
  pub branch_id : ℕ
  pub thread_id : ℕ
  pub channel_id : ℕ
  pub external_id : String
  pub direction : Direction
  pub sent_by : String
  pub text : String
  pub occurred_at : Time
  pub delete_requested : Bool
  pub media_pending : Bool
  pub link_url : Option String
  pub preview_url : Option String
  pub revoked_at : Option Time
  pub is_ad_referral : Bool
