-- ===== src/Conversation/Outbox/Config.antt =====
-- What the sender is given: the channel's resolved settings (BranchSettings), the connector's
-- declaration (app/connectors/spec.py) and the channel's answer (app/ports/channel.py).
use stepan.Prelude.{ℕ, String, Bool, true, false, ◌||◌, Option, none, some, List, [], ◌∷◌, or_text}
use stepan.Prelude.Texts.{codes, lower, contains}
use stepan.Domain.Clock.{Offset}

-- A cap of 0 or less is off; a negative one reads as 0.
pub record Config : Type 0 where
  pub sending_enabled : Bool
  pub replies_enabled : Bool
  pub hourly_cap : ℕ
  pub daily_cap : ℕ
  pub quiet_start : ℕ
  pub quiet_end : ℕ
  pub tz_offset_h : Offset
  pub followup_enabled : Bool
  pub followup_schedule_h : List ℕ
  pub crm_read_enabled : Bool
  -- `getattr(cfg, name, False)`
  pub flag : String → Bool

-- SendWindow
pub record SendWindow : Type 0 where
  pub error_code : String
  pub dormant_reason : String

-- The fields of ConnectorSpec that the sender reads.
pub record ConnectorSpec : Type 0 where
  pub send_window : Option SendWindow
  pub replies_setting : Option String
  pub proactive_outreach : Bool
  pub confirms_delivery : Bool

-- `does_proactive_outreach`: an unregistered kind answers yes.
abbrev pub does_proactive_outreach : Option ConnectorSpec → Bool
does_proactive_outreach none = true
does_proactive_outreach (some spec) = spec.proactive_outreach

-- `spec is None or spec.confirms_delivery`
abbrev pub confirms : Option ConnectorSpec → Bool
confirms none = true
confirms (some spec) = spec.confirms_delivery

-- The channel's answer to send_text.
pub record SendResult : Type 0 where
  pub ok : Bool
  pub error : Option String
  pub external_message_id : Option String

-- _SOFT_BLOCK
abbrev pub soft_block_tokens : List String
soft_block_tokens =
    "challenge" ∷ "feedback_required" ∷ "login_required" ∷ "checkpoint" ∷ "please wait" ∷ "rate"
    ∷ "429" ∷ "spam" ∷ "blocked" ∷ "try again" ∷ "throttl" ∷ "temporarily" ∷ []

unfoldable pub any_token : List String → List ℕ → Bool
any_token [] low = false
any_token (t ∷ ts) low = contains (codes t) low || any_token ts low

-- `_is_soft_block`
unfoldable pub is_soft_block : Option String → Bool
unfolding any_token contains lower
is_soft_block error = any_token soft_block_tokens (lower (codes (or_text error "")))
