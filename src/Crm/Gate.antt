-- ===== src/Crm/Gate.antt =====
-- app/modules/crm/gate.py: the check that keeps the bot off a lead whom the CRM has moved on.
pub mod Verdict
pub mod Laws
use stepan.Prelude.{
  ◌+◌, ◌-◌, String, Bool, true, false, not, ◌&&◌, ◌||◌, Option, none, some, [], ◌∷◌, ◌++◌, ltb,
  if◌then◌else◌, str_eq, concat, is_blank, or_text,
}
use stepan.Domain.Stage.{manager, is_manager, value}
use stepan.Domain.Lead.{Time, Lead, StageEvent, Journal}
use stepan.Conversation.Outbox.Row
use stepan.Conversation.Outbox.Row.{Source}
use stepan.Crm.Gate.Verdict.{
  CrmRaw, CrmState, HoldKind, silence, hold_kind, is_silence, is_hold, parse, state_of,
}

-- CrmLeadState, the cached row of a lead (its dates and event columns are left out).
pub record CrmLeadState : Type 0 where
  pub exists_in_crm : Bool
  pub status : Option String
  pub owner : Option String
  pub verdict : String
  pub reason : Option String
  pub raw : Option CrmRaw
  pub deal_won : Bool
  pub fetched_at : Time

-- The parts of the branch's settings that the gate reads.
pub record GateConfig : Type 0 where
  pub crm_read_enabled : Bool
  pub url : String

-- What the session holds: the lead, the journal and the lead's cached CRM row.
pub record GateState : Type 0 where
  pub lead : Lead
  pub journal : Journal
  pub cached : Option CrmLeadState

-- `_from_row`
abbrev pub from_row : CrmLeadState → CrmState
from_row row = record {
  exists = row.exists_in_crm;
  verdict = row.verdict;
  reason = or_text row.reason "";
  raw = state_of row.owner row.deal_won row.status;
}

-- `_upsert`
abbrev pub upsert : CrmRaw → CrmState → Time → CrmLeadState
upsert raw state now = record {
  exists_in_crm = state.exists;
  status = if is_blank raw.status then raw.last_result else raw.status;
  owner = raw.owner;
  verdict = state.verdict;
  reason = some state.reason;
  raw = some raw;
  deal_won = raw.deal_won;
  fetched_at = now;
}

-- REPLY_SOURCES
abbrev pub is_reply_source : Source → Bool
is_reply_source Row.agent = true
is_reply_source Row.manager = true
is_reply_source _ = false

abbrev pub stand_down_event : Lead → String → Time → StageEvent
stand_down_event lead reason now = record {
  branch_id = lead.branch_id;
  lead_id = lead.id;
  thread_id = none;
  from_stage = value lead.stage;
  to_stage = value manager;
  actor = "crm";
  reason = if str_eq reason "" then "crm hold" else concat "crm hold: " reason;
  created_at = now;
}

-- `_stand_down`
unfoldable pub stand_down : GateState → String → Time → GateState
stand_down g reason now =
    if is_manager g.lead.stage
    then record g { lead = record g.lead { agent_enabled = false } }
    else record g {
      lead = record g.lead { stage = manager; agent_enabled = false };
      journal = g.journal ++ (stand_down_event g.lead reason now ∷ []);
    }

-- `_fetch`. The reader's answer for the lead's phone is an argument, `none` where the CRM is
-- unreachable.
unfoldable pub fetch : GateState → Option CrmRaw → Time → GateState × Option CrmState
fetch g none now = (g, none)
fetch g (some raw) now =
    let state = parse raw in (record g { cached = some (upsert raw state now) }, some state)

abbrev pub row_state : CrmLeadState → Option CrmRaw → CrmState
row_state row none = from_row row
row_state row (some raw) = parse raw

state_from :
    (ttl : Time)
    → GateState
    → Option CrmRaw
    → Time
    → Option CrmLeadState
    → GateState × Option CrmState
unfolding fetch
state_from ttl g answer now none = fetch g answer now
state_from ttl g answer now (some row) =
    if ltb (now - row.fetched_at) ttl then (g, some (row_state row row.raw)) else fetch g answer now

-- `_state_for`; `ttl` is crm_state_ttl_s.
unfoldable pub state_for :
    (ttl : Time) → GateState → Option CrmRaw → Time → GateState × Option CrmState
unfolding state_from
state_for ttl g answer now = state_from ttl g answer now g.cached

-- The part of allow_send behind the state lookup.
unfoldable pub decide : GateState → Source → Option CrmState → Time → GateState × Bool × String
decide g source none now = (g, true, "")
decide g source (some state) now =
    if not state.exists || not (is_hold state.verdict)
    then (g, true, "")
    else if not (is_silence (hold_kind state.raw))
    then (if is_reply_source source then (g, true, "") else (g, false, state.reason))
    else (stand_down g state.reason now, false, state.reason)

enforce_state : GateState → Option CrmState → Time → GateState × String
enforce_state g none now = (g, "unknown")
enforce_state g (some state) now =
    if state.exists && is_hold state.verdict && is_silence (hold_kind state.raw)
    then (stand_down g state.reason now, state.verdict)
    else (g, state.verdict)

-- `safe` is is_safe_webhook_url of crm/service.py.
module _ (safe : String → Bool) where
  -- `allow_send`
  unfoldable pub allow_send :
      (ttl : Time)
      → GateState
      → GateConfig
      → Source
      → Option CrmRaw
      → Time
      → GateState × Bool × String
  allow_send ttl g cfg source answer now =
      if not cfg.crm_read_enabled || str_eq cfg.url "" || Row.is_manager source
      then (g, true, "")
      else if is_blank g.lead.phone_e164
      then (g, true, "no phone")
      else if not (safe cfg.url)
      then (g, true, "unsafe url")
      else let (g', state) = state_for ttl g answer now in decide g' source state now

  -- `refresh`
  unfoldable pub refresh :
      GateState → GateConfig → Option CrmRaw → Time → GateState × Option CrmState
  refresh g cfg answer now =
      if not cfg.crm_read_enabled || str_eq cfg.url "" || is_blank g.lead.phone_e164
      then (g, none)
      else if not (safe cfg.url)
      then (g, none)
      else fetch g answer now

  -- `enforce`
  unfoldable pub enforce : GateState → GateConfig → Option CrmRaw → Time → GateState × String
  unfolding enforce_state
  enforce g cfg answer now =
      let (g', state) = refresh g cfg answer now in enforce_state g' state now
