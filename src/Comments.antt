-- ===== src/Comments.antt =====
-- app/modules/comments/service.py and repository.py: the comments under our own posts, from the ingest
-- to the public reply. The table is a list of rows; the port, the model and the detectors are given.
pub mod Table
pub mod Draft
pub mod Process
pub mod Grounded
pub mod Writes
pub mod Caps
pub mod Ingest
pub mod Proactive
use stepan.Prelude.{ℕ, String, Bool, Option}
use stepan.Domain.Lead.{Time}

-- PostComment.status
pub data CommentState : Type 0 where
  pending skipped replied dm_sent hidden error : CommentState

-- PostComment
pub record PostComment : Type 0 where
  pub id : ℕ
  pub branch_id : ℕ
  pub channel_id : ℕ
  pub external_id : String
  pub media_id : String
  pub media_caption : Option String
  pub author_username : Option String
  pub author_pk : Option String
  pub text : String
  pub status : CommentState
  pub skip_reason : Option String
  pub reply_text : Option String
  pub reply_external_id : Option String
  pub llm_info : Option String
  pub occurred_at : Time
  pub handled_at : Option Time
  pub attempts : ℕ

-- InboundComment
pub record InboundComment : Type 0 where
  pub external_id : String
  pub media_id : String
  pub text : String
  pub occurred_at : Time
  pub author_pk : Option String
  pub author_username : Option String
  pub media_caption : Option String

-- What the port answers.
pub record PortAnswer : Type 0 where
  pub ok : Bool
  pub error : Option String
  pub external_message_id : Option String

-- The first action of `classify_comment` decides: reply, skip or hide.
pub data Action : Type 0 where
  reply skip hide : Action

-- The meta of a call of the model; the cost is its text with five places.
pub record LlmMeta : Type 0 where
  pub model : String
  pub cost_usd : Option String
