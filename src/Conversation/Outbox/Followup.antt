-- ===== src/Conversation/Outbox/Followup.antt =====
-- app/modules/conversation/outbox.py (_plan_followup, _to_dormant): the follow-up cycle after a
-- send.
use stepan.Prelude.{
  ℕ, ◌+◌, ◌*◌, ◌≡◌, Bool, true, false, not, ◌&&◌, ◌||◌, Option, none, some, arith, ltb, leb,
  if◌then◌else◌, length, get_elem?,
}
use stepan.Domain.Stage.{is_dormant}
use stepan.Domain.Lead.{Time, Lead, Journal}
use stepan.Domain.Thread.{ChannelThread}
use stepan.Domain.Clock.{hour}
use stepan.Conversation.Dormancy.{park_dormant}
use stepan.Conversation.Outbox.Row.{Source, agent, followup, is_followup}
use stepan.Conversation.Outbox.Config.{Config, ConnectorSpec, does_proactive_outreach}

-- The thread, its lead and the journal after planning.
pub record Plan : Type 0 where
  pub thread : ChannelThread
  pub lead : Option Lead
  pub journal : Journal

abbrev in_cycle : Source → Bool
in_cycle agent = true
in_cycle followup = true
in_cycle _ = false

-- `lead is not None and (not lead.agent_enabled or lead.stage == Stage.DORMANT)`
abbrev pub nudges_off : Option Lead → Bool
nudges_off none = false
nudges_off (some lead) = not lead.agent_enabled || is_dormant lead.stage

-- `thread.next_followup_at is None or thread.next_followup_at <= proposed`
abbrev later_of : Option Time → Time → Option Time
later_of none proposed = some proposed
later_of (some armed) proposed = if leb armed proposed then some proposed else some armed

-- The next step of the schedule where the cycle goes on: `schedule[followups_sent]`.
abbrev pub next_step : Config → ℕ → Option ℕ
next_step cfg sent = if cfg.followup_enabled then get_elem? cfg.followup_schedule_h sent else none

-- `_to_dormant`
unfoldable pub to_dormant : (branch_id : ℕ) → Time → Plan → Plan
to_dormant branch_id now p =
    let parked =
      park_dormant
        (record {
          branch_id = branch_id;
          thread_id = some p.thread.id;
          actor = "system";
          reason = "followup schedule exhausted";
          created_at = some now;
          respect_human_led = false;
          now = now;
        })
        p.lead p.journal in
    record p { lead = parked.lead; journal = parked.journal }

counted : Source → ChannelThread → ChannelThread
counted source thread =
    if is_followup source
    then record thread { followups_sent = thread.followups_sent + 1 }
    else thread

-- The cycle goes on to step `h`, or ends.
arm : (branch_id : ℕ) → Config → Source → Time → Plan → Option ℕ → Plan
unfolding to_dormant
arm branch_id cfg source now p (some h) = record p {
  thread = record p.thread {
    next_followup_at = later_of p.thread.next_followup_at (now + h * hour);
  };
}
arm branch_id cfg source now p none =
    let closed = record p { thread = record p.thread { next_followup_at = none } } in
    if is_followup source
      && ltb 0 (length cfg.followup_schedule_h)
      && leb (length cfg.followup_schedule_h) p.thread.followups_sent
    then to_dormant branch_id now closed
    else closed

-- `_plan_followup`
unfoldable pub plan_followup :
    (branch_id : ℕ) → Config → Option ConnectorSpec → Source → Time → Plan → Plan
unfolding arm counted
plan_followup branch_id cfg spec source now p =
    if not (in_cycle source)
    then p
    else if not (does_proactive_outreach spec) || nudges_off p.lead
    then record p { thread = record p.thread { next_followup_at = none } }
    else let sent = counted source p.thread in
      arm branch_id cfg source now (record p { thread = sent }) (next_step cfg sent.followups_sent)

-- On a connector that does proactive outreach, for a lead whose nudges are not off, a follow-up
-- that leaves the schedule unfinished arms the timer for the later of the armed date and the
-- step's hours from now; one more follow-up is counted, and neither lead nor journal changes.
pub plan_followup_arms :
    (branch_id : ℕ) (cfg : Config) (spec : Option ConnectorSpec) (now : Time) (p : Plan) (h : ℕ)
    → does_proactive_outreach spec ≡ true
    → nudges_off p.lead ≡ false
    → next_step cfg (p.thread.followups_sent + 1) ≡ some h
    → let q = plan_followup branch_id cfg spec followup now p in
      (q.thread.next_followup_at ≡ later_of p.thread.next_followup_at (now + h * hour))
      × (q.thread.followups_sent ≡ p.thread.followups_sent + 1)
      × (q.lead ≡ p.lead)
      × (q.journal ≡ p.journal)
unfolding plan_followup
plan_followup_arms branch_id cfg spec now p h o n s =
    (ground arith, ground arith, ground arith, ground arith)
