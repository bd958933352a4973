-- ===== src/Tests/Samples.antt =====
-- Leads, threads, lines and settings that the tests share.
use stepan.Prelude.{ℕ, true, false, none, some, [], ◌∷◌}
use stepan.Domain.Stage.{Stage, presenting, manager}
use stepan.Domain.Lead.{Time, Lead}
use stepan.Domain.Message.{Direction, MessageRow}
use stepan.Domain.Thread.{ChannelThread}
use stepan.Domain.Clock.{east}
use stepan.Leads.Ops.{Session}
use stepan.Leads.Consolidate.Rows.{Tables}
use stepan.Leads.Consolidate.{Merge}
use stepan.Crm.Gate.{GateState, GateConfig}
use stepan.Crm.Gate.Verdict.{CrmRaw}
use stepan.Conversation.Outbox.Row
use stepan.Conversation.Outbox.Row.{Row, Source, fresh_row}
use stepan.Conversation.Outbox.Config.{Config, SendResult}
use stepan.Conversation.Outbox.Store.{Store, Env}

-- A lead of branch 1 with this id and stage.
abbrev pub lead_at : ℕ → Stage → Lead
lead_at id stage = record {
  id = id;
  branch_id = 1;
  display_name = some "Ani";
  avatar_url = none;
  phone_e164 = some "+62812345678";
  ig_user_id = none;
  ig_username = none;
  preferred_language = none;
  stage = stage;
  ready_subtype = none;
  lead_type = none;
  audience = none;
  dossier = none;
  agent_enabled = true;
  agent_off_manual = false;
  is_blocked = false;
  is_merged_into = none;
  agreed_product_slug = none;
  agreed_price = none;
  handed_off_at = none;
  created_at = 0;
}

abbrev pub thread_of : ℕ → ℕ → ChannelThread
thread_of id lead_id = record {
  id = id;
  lead_id = lead_id;
  channel_id = 5;
  external_thread_id = "t";
  product_slug = none;
  product_source = none;
  window_until = none;
  last_in_at = none;
  last_out_at = none;
  msg_in = 0;
  msg_out = 0;
  lead_seen_at = none;
  next_followup_at = none;
  followups_sent = 0;
  lead_source = none;
  ad_id = none;
  ad_media_id = none;
  ad_preview_url = none;
}

-- A day well after year 1.
abbrev pub noon : ℕ
noon = 63900000000000000

abbrev pub line : ℕ → Source → Row
line id source = fresh_row id 1 20 "halo" source noon none

abbrev pub session : Session
session = record {
  lead = lead_at 7 manager;
  journal = [];
  threads = thread_of 20 7 ∷ thread_of 31 7 ∷ thread_of 40 8 ∷ [];
  dossier = none;
  outbox = [];
  next_row_id = 1;
}

abbrev pub no_rows : Tables
no_rows = record {
  crm_lead_state = [];
  stage_event = [];
  manager_alert = [];
  lead_need_tag = [];
  need_lead_state = [];
}

-- Two people with a need_lead_state row each.
abbrev pub classified : Tables
classified = record no_rows {
  need_lead_state = record { lead_id = 7; content = 1 } ∷ record { lead_id = 8; content = 2 } ∷ [];
}

abbrev pub merge_start : Merge
merge_start = record {
  survivor = lead_at 7 manager;
  retired_leads = [];
  threads = thread_of 20 7 ∷ thread_of 31 8 ∷ thread_of 40 9 ∷ [];
  tables = no_rows;
}

abbrev pub raw_free : CrmRaw
raw_free = record {
  exists = true;
  status = some "wait_call";
  last_result = none;
  owner = some "bot";
  verdict = none;
  reason = none;
  deal_won = false;
  contract_signed = false;
  paid = false;
  open_task = false;
  manager_called = false;
  next_contact_at = false;
}

abbrev pub gate_state : GateState
gate_state = record { lead = lead_at 7 presenting; journal = []; cached = none }

abbrev pub gate_config : GateConfig
gate_config = record { crm_read_enabled = true; url = "https://crm" }

abbrev pub config : Config
config = record {
  sending_enabled = true;
  replies_enabled = true;
  hourly_cap = 10;
  daily_cap = 100;
  quiet_start = 22;
  quiet_end = 8;
  tz_offset_h = east 7;
  followup_enabled = true;
  followup_schedule_h = 24 ∷ 72 ∷ [];
  crm_read_enabled = false;
  flag = λ _. false;
}

abbrev pub sent_ok : SendResult
sent_ok = record { ok = true; error = none; external_message_id = some "m1" }

abbrev pub rate_limited : SendResult
rate_limited = record { ok = false; error = some "429 Rate limit"; external_message_id = none }

abbrev pub env : Env
env = record {
  now = noon;
  branch_id = 1;
  cfg = config;
  spec = none;
  post_comments = [];
  outbound_comments = [];
  gate = gate_config;
  crm_ttl = 300000000;
  is_safe_url = λ _. true;
  crm_answer = λ _. none;
  send_text = λ _ _. sent_ok;
  retry_after = 900000000;
  max_soft_block_attempts = 8;
}

abbrev pub store : Store
store = record {
  rows = line 1 Row.followup ∷ line 2 Row.agent ∷ [];
  threads = thread_of 20 7 ∷ [];
  leads = lead_at 7 presenting ∷ [];
  messages = [];
  journal = [];
  crm = λ _. none;
  wire = [];
}

-- A message of thread 20.
abbrev pub message_at : ℕ → Direction → Time → MessageRow
message_at id d at = record {
  id = id;
  branch_id = 1;
  thread_id = 20;
  channel_id = 5;
  external_id = "m";
  direction = d;
  sent_by = "agent";
  text = "halo";
  occurred_at = at;
  delete_requested = false;
  media_pending = false;
  link_url = none;
  preview_url = none;
  revoked_at = none;
  is_ad_referral = false;
}
