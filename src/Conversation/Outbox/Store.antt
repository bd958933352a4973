-- ===== src/Conversation/Outbox/Store.antt =====
-- app/modules/conversation/outbox.py: the tables that the sender of one branch works on, what a
-- pass is given, and the writes that its steps share.
use stepan.Prelude.{
  ltb, ◌==◌, if◌then◌else◌, ℕ, ◌-◌, String, Bool, true, false, ◌&&◌, Option, none, some, List, [],
  ◌∷◌,
}
use stepan.Conversation.Dormancy.{Parked, park_dormant}
use stepan.Conversation.Outbox.Config.{Config, ConnectorSpec, SendResult}
use stepan.Conversation.Outbox.Queue.{put_row}
use stepan.Conversation.Outbox.Row.{Status, is_sending, Row, canceled}
use stepan.Crm.Gate.{CrmLeadState, GateConfig}
use stepan.Crm.Gate.Verdict.{CrmRaw}
use stepan.Domain.Lead.{Time, Lead, Journal}
use stepan.Domain.Thread.{ChannelThread}
use stepan.Missions.Budget.{Comment}

-- `external_id or f"out-{row.id}"`
pub data MessageId : Type 0 where
  given : String → MessageId
  out_row : ℕ → MessageId

-- An outgoing Message.
pub record Message : Type 0 where
  pub branch_id : ℕ
  pub thread_id : ℕ
  pub channel_id : ℕ
  pub external_id : MessageId
  pub sent_by : String
  pub sent_by_name : Option String
  pub text : String
  pub llm_info : Option String

-- The branch's tables. `wire` is no table: it lists the rows whose text the channel accepted.
pub record Store : Type 0 where
  pub rows : List Row
  pub threads : List ChannelThread
  pub leads : List Lead
  pub messages : List Message
  pub journal : Journal
  pub crm : ℕ → Option CrmLeadState
  pub wire : List ℕ

-- What a pass is given: the clock, the settings, the connector, the counted comments, the CRM
-- gate's inputs and the channel.
pub record Env : Type 0 where
  pub now : Time
  pub branch_id : ℕ
  pub cfg : Config
  pub spec : Option ConnectorSpec
  pub post_comments : List Comment
  pub outbound_comments : List Comment
  pub gate : GateConfig
  pub crm_ttl : Time
  pub is_safe_url : String → Bool
  pub crm_answer : Lead → Option CrmRaw
  pub send_text : String → String → SendResult
  -- _RETRY_AFTER and _MAX_SOFT_BLOCK_ATTEMPTS
  pub retry_after : Time
  pub max_soft_block_attempts : ℕ

unfoldable pub put_thread : ChannelThread → List ChannelThread → List ChannelThread
put_thread t [] = []
put_thread t (x ∷ xs) = (if x.id == t.id then t else x) ∷ put_thread t xs

unfoldable pub find_lead : ℕ → List Lead → Option Lead
find_lead id [] = none
find_lead id (l ∷ ls) = if l.id == id then some l else find_lead id ls

abbrev pub in_branch : (branch_id : ℕ) → Option Lead → Bool
in_branch branch_id none = false
in_branch branch_id (some l) = l.branch_id == branch_id

-- ThreadRepo.by_id: the thread by its id, if its lead is the branch's.
unfoldable pub thread_by_id :
    (branch_id id : ℕ) → List Lead → List ChannelThread → Option ChannelThread
unfolding find_lead
thread_by_id branch_id id leads [] = none
thread_by_id branch_id id leads (t ∷ ts) =
    if t.id == id && in_branch branch_id (find_lead t.lead_id leads)
    then some t
    else thread_by_id branch_id id leads ts

unfoldable pub put_lead : Lead → List Lead → List Lead
put_lead l [] = []
put_lead l (x ∷ xs) = (if x.id == l.id then l else x) ∷ put_lead l xs

abbrev pub put_lead? : Option Lead → List Lead → List Lead
put_lead? none ls = ls
put_lead? (some l) ls = put_lead l ls

abbrev ten_minutes : Time
ten_minutes = 600000000

-- `sent_at < now - timedelta(minutes=10)`
abbrev is_stale : Option Time → Time → Bool
is_stale none now = false
is_stale (some t) now = ltb t (now - ten_minutes)

-- `_sweep_stale_claims`
unfoldable pub sweep_row : (thread_id : ℕ) → Time → Row → Row
sweep_row thread_id now r =
    if r.thread_id == thread_id && is_sending r.status && is_stale r.sent_at now
    then record r {
      status = canceled;
      error = some "crashed mid-send — outcome unknown, not retried";
    }
    else r

unfoldable pub sweep_stale_claims : (thread_id : ℕ) → Time → List Row → List Row
unfolding sweep_row
sweep_stale_claims thread_id now [] = []
sweep_stale_claims thread_id now (r ∷ rs) =
    sweep_row thread_id now r ∷ sweep_stale_claims thread_id now rs

-- `row.status = ...; row.error = ...; session.add(row)`
abbrev pub mark : Row → Status → String → Row
mark row status error = record row { status = status; error = some error }

abbrev pub save_row : Store → Row → Store
save_row s row = record s { rows = put_row row s.rows }

paused : Store → ChannelThread → Parked → Store
paused s t p =
    if p.parked
    then record s {
      leads = put_lead? p.lead s.leads;
      journal = p.journal;
      threads = put_thread (record t { next_followup_at = none }) s.threads;
    }
    else s

-- `_pause_dormant`
unfoldable pub pause_dormant : Env → Store → ChannelThread → String → Store
unfolding paused
pause_dormant e s t reason = paused s t (
    park_dormant
      (record {
        branch_id = e.branch_id;
        thread_id = some t.id;
        actor = "system";
        reason = reason;
        created_at = none;
        respect_human_led = true;
        now = e.now;
      })
      (find_lead t.lead_id s.leads) s.journal)
