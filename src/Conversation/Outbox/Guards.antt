-- ===== src/Conversation/Outbox/Guards.antt =====
-- app/modules/conversation/outbox.py (send_next): the guards between picking a line and the CRM
-- gate, in their order.
use stepan.Prelude.{
  ℕ, String, Bool, true, false, not, ◌&&◌, ◌||◌, Option, none, some, ltb, leb, if◌then◌else◌,
  str_eq, concat,
}
use stepan.Domain.Lead.{Time, Lead}
use stepan.Domain.Thread.{ChannelThread}
use stepan.Domain.Clock.{is_quiet_hour, branch_day_start_utc}
use stepan.Missions.Budget.{Actions, account_spend, exhausted}
use stepan.Conversation.Outbox.Row.{Row, Status, skipped, canceled, is_manager, is_followup}
use stepan.Conversation.Outbox.Queue.{count_sent_since}
use stepan.Conversation.Outbox.Config.{Config, SendWindow, ConnectorSpec}

-- What a guard decides of the picked line.
pub data Check : Type 0 where
  -- Nothing stands against it.
  pass : Check
  -- It waits; send_next returns None.
  hold : Check
  -- It gets this status and error; send_next returns None.
  refuse : Status → String → Check
  -- It is skipped with this error and returned.
  skip : String → Check
  -- The send window has closed: it is skipped and returned, and the thread is paused.
  late : SendWindow → Check

infixr 20 ◌then_check◌
abbrev pub ◌then_check◌ : Check → Check → Check
pass then_check next = next
hold then_check next = hold
refuse s e then_check next = refuse s e
skip e then_check next = skip e
late w then_check next = late w

-- What the guards read besides the line.
pub record Scene : Type 0 where
  pub now : Time
  pub branch_id : ℕ
  pub cfg : Config
  pub spec : Option ConnectorSpec
  pub actions : Actions
  pub thread : ChannelThread
  pub lead : Option Lead

-- `_cap_reached`
unfoldable pub cap_reached : Actions → (branch_id : ℕ) → Config → (channel_id : ℕ) → Time → Bool
cap_reached a branch_id cfg channel_id now =
    if ltb 0 cfg.hourly_cap && exhausted (account_spend a channel_id cfg.hourly_cap now)
    then true
    else ltb 0 cfg.daily_cap
      && leb cfg.daily_cap
          (count_sent_since a branch_id channel_id (branch_day_start_utc now cfg.tz_offset_h))

abbrev pub check_lead : Option Lead → Check
check_lead none = pass
check_lead (some lead) =
    if lead.is_blocked
    then refuse skipped "lead blocked"
    else if lead.agent_off_manual
    then refuse canceled "bot switched off — human took the thread"
    else pass

-- `spec.replies_setting and not getattr(cfg, spec.replies_setting, False)`
abbrev pub spec_mute : Config → Option ConnectorSpec → Option String
spec_mute cfg none = none
spec_mute cfg (some spec) = elim spec.replies_setting [
  | none ↦ none
  | some name ↦ if str_eq name "" || cfg.flag name then none else some name
]

-- `muted`, for a line that is not a manager's.
abbrev pub muted : Config → Option ConnectorSpec → Option String
muted cfg spec = if not cfg.replies_enabled then some "replies_enabled" else spec_mute cfg spec

abbrev pub check_muted : Option String → Check
check_muted none = pass
check_muted (some name) = skip (concat name " is off")

-- `thread.window_until is not None and thread.window_until < now`
abbrev pub window_closed : Option Time → Time → Bool
window_closed none now = false
window_closed (some until) now = ltb until now

abbrev pub check_window : Option ConnectorSpec → Option Time → Time → Check
check_window none until now = pass
check_window (some spec) until now = elim spec.send_window [
  | none ↦ pass
  | some window ↦ if window_closed until now then late window else pass
]

-- The guards that only automated lines meet.
unfoldable pub check_automated : Scene → Row → Check
check_automated s row =
    check_lead s.lead
    then_check (if is_followup row.source
          && is_quiet_hour s.cfg.quiet_start s.cfg.quiet_end s.now s.cfg.tz_offset_h
        then hold
        else pass)
    then_check (if cap_reached s.actions s.branch_id s.cfg s.thread.channel_id s.now
        then hold
        else pass)
    then_check check_muted (muted s.cfg s.spec)
    then_check check_window s.spec s.thread.window_until s.now

-- All guards: a manager's line meets the first only.
unfoldable pub check : Scene → Row → Check
check s row =
    if not s.cfg.sending_enabled
    then hold
    else if is_manager row.source
    then pass
    else check_automated s row
