-- ===== src/Leads/Ops.antt =====
-- app/modules/leads/ops.py: the funnel operations that an external system drives.
pub mod Outreach
pub mod Laws
use stepan.Prelude.{
  ℕ, String, Bool, true, false, Option, none, some, List, [], ◌∷◌, ◌++◌, str_eq, concat,
  if◌then◌else◌,
}
use stepan.Domain.Stage.{Stage, handed_off, value, of_value}
use stepan.Domain.Lead.{Time, Lead, StageEvent, Journal}
use stepan.Domain.Funnel.{apply_stage}
use stepan.Domain.Thread.{ChannelThread}
use stepan.Conversation.Outbox.Row.{Row}

-- LeadOpResult
pub record LeadOpResult : Type 0 where
  pub ok : Bool
  pub detail : String
  pub lead_id : ℕ
  pub name : Option String
  pub phone : Option String
  pub stage : Option String
  pub from_stage : Option String
  pub message_queued : Bool

-- What the session holds after an operation: the lead, the journal and the queue.
pub record Session : Type 0 where
  pub lead : Lead
  pub journal : Journal
  pub threads : List ChannelThread
  pub dossier : Option String
  pub outbox : List Row
  pub next_row_id : ℕ

-- `reason + (f": {remark}" if remark else "")`
abbrev pub with_note : String → Option String → String
with_note reason none = reason
with_note reason (some remark) =
    if str_eq remark "" then reason else concat reason (concat ": " remark)

-- `_journal`, and the same row of crm_followthrough with its own actor.
abbrev pub op_event : Lead → Stage → String → String → Time → StageEvent
op_event lead to_stage actor reason now = record {
  branch_id = lead.branch_id;
  lead_id = lead.id;
  thread_id = none;
  from_stage = value lead.stage;
  to_stage = value to_stage;
  actor = actor;
  reason = reason;
  created_at = now;
}

-- `_result`
abbrev pub op_result : Lead → String → String → Bool → LeadOpResult
op_result lead from_stage detail is_queued = record {
  ok = true;
  detail = detail;
  lead_id = lead.id;
  name = lead.display_name;
  phone = lead.phone_e164;
  stage = some (value lead.stage);
  from_stage = some from_stage;
  message_queued = is_queued;
}

abbrev pub refused_op : Lead → String → LeadOpResult
refused_op lead detail = record {
  ok = false;
  detail = detail;
  lead_id = lead.id;
  name = none;
  phone = none;
  stage = none;
  from_stage = none;
  message_queued = false;
}

-- `", ".join(s.value for s in Stage)`
abbrev pub valid_stages : String
valid_stages =
    "new, qualifying, presenting, ready, handed_off, objection, nurturing, dormant, manager"

-- The part of move_lead behind `Stage(stage)`.
unfoldable pub move_to : Session → Stage → Option String → Time → Session × LeadOpResult
move_to s target remark now =
    let reason = with_note (concat "move_lead → " (value target)) remark in
    let moved = apply_stage s.lead target in
    (
      record s {
        lead = moved;
        journal = s.journal ++ (op_event s.lead target "mcp" reason now ∷ []);
      },
      op_result moved (value s.lead.stage) reason false,
    )

abbrev pub move_parsed :
    Session → String → Option String → Time → Option Stage → Session × LeadOpResult
move_parsed s stage _ now none = (
  s,
  refused_op s.lead (concat "unknown stage '" (concat stage (concat "'; valid: " valid_stages))),
)
move_parsed s stage remark now (some target) = move_to s target remark now

-- `move_lead`
unfoldable pub move_lead : Session → String → Option String → Time → Session × LeadOpResult
move_lead s stage remark now = move_parsed s stage remark now (of_value stage)

-- `close_deal`
unfoldable pub close_deal : Session → Option String → Time → Session × LeadOpResult
close_deal s remark now =
    let reason = with_note "close_deal (won)" remark in
    let closed = record s.lead { stage = handed_off; agent_enabled = false } in
    (
      record s {
        lead = closed;
        journal = s.journal ++ (op_event s.lead handed_off "mcp" reason now ∷ []);
      },
      op_result closed (value s.lead.stage) reason false,
    )
