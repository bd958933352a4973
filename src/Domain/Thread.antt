-- ===== src/Domain/Thread.antt =====
-- app/adapters/db/models.py: the columns of ChannelThread that the modelled code touches.
use stepan.Prelude.{ℕ, String, Option}
use stepan.Domain.Lead.{Time}

pub record ChannelThread : Type 0 where
  pub id : ℕ
  pub lead_id : ℕ
  pub channel_id : ℕ
  pub external_thread_id : String
  pub product_slug : Option String
  pub product_source : Option String
  pub window_until : Option Time
  pub last_in_at : Option Time
  pub last_out_at : Option Time
  pub msg_in : ℕ
  pub msg_out : ℕ
  pub lead_seen_at : Option Time
  pub next_followup_at : Option Time
  pub followups_sent : ℕ
  pub lead_source : Option String
  pub ad_id : Option String
  pub ad_media_id : Option String
  pub ad_preview_url : Option String
