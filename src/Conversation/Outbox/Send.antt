-- ===== src/Conversation/Outbox/Send.antt =====
-- app/modules/conversation/outbox.py (OutboxSender): one pass of the sender over a thread. What
-- the session commits before the network call is the claim, and `complete` is what follows it.
use stepan.Prelude.{
  ltb, ◌==◌, if◌then◌else◌, str_eq, concat, or_text, ℕ, zero, suc, ◌+◌, String, Bool, not, ◌&&◌,
  Option, none, some, [], ◌∷◌, ◌++◌,
}
use stepan.Conversation.Outbox.Config.{confirms, SendResult, is_soft_block}
use stepan.Conversation.Outbox.Followup.{plan_followup}
use stepan.Conversation.Outbox.Guards.{Check, Scene, check, refuse, skip, late, pass, hold}
use stepan.Conversation.Outbox.Queue.{oldest_pending, put_row}
use stepan.Conversation.Outbox.Row.{
  Source, is_manager, Row, pending, sending, sent, queued, failed, skipped, manager,
}
use stepan.Conversation.Outbox.Store.{
  MessageId, Message, Store, Env, put_thread, find_lead, thread_by_id, put_lead, put_lead?,
  sweep_stale_claims, mark, save_row, pause_dormant, given, out_row,
}
use stepan.Crm.Gate.{CrmLeadState, GateState, allow_send}
use stepan.Domain.Lead.{Lead}
use stepan.Domain.Thread.{ChannelThread}

-- How far a pass gets: it stops with what it returns, or it has claimed a line to send.
pub data Prepared : Type 0 where
  stop : Store → Option Row → Prepared
  claimed : Store → Row → ChannelThread → Prepared

-- The claim, committed before the network call.
unfoldable pub claim : Env → Store → Row → ChannelThread → Prepared
claim e s row t =
    let row' = record row { status = sending; sent_at = some e.now } in
    claimed (save_row s row') row' t

-- `f"crm hold: {reason}" if reason else "crm hold"`
abbrev pub crm_error : String → String
crm_error reason = if str_eq reason "" then "crm hold" else concat "crm hold: " reason

abbrev pub put_crm : ℕ → Option CrmLeadState → (ℕ → Option CrmLeadState) → ℕ → Option CrmLeadState
put_crm id row table n = if n == id then row else table n

unfoldable pub crm_decided :
    Env → Store → Row → ChannelThread → GateState × Bool × String → Prepared
unfolding claim
crm_decided e s row t (g, allowed, reason) =
    let s' = record s {
      leads = put_lead g.lead s.leads;
      journal = g.journal;
      crm = put_crm g.lead.id g.cached s.crm;
    } in
    if allowed
    then claim e s' row t
    else let row' = mark row skipped (crm_error reason) in stop (save_row s' row') (some row')

unfoldable pub crm_gate : Env → Store → Row → ChannelThread → Option Lead → Prepared
unfolding crm_decided claim
crm_gate e s row t none = claim e s row t
crm_gate e s row t (some lead) = crm_decided e s row t (
    allow_send e.is_safe_url e.crm_ttl
      (record { lead = lead; journal = s.journal; cached = s.crm lead.id }) e.gate row.source
      (e.crm_answer lead) e.now)

-- `_crm_gate` where it is consulted, and then the claim.
unfoldable pub past_guards : Env → Store → Row → ChannelThread → Prepared
unfolding crm_gate claim
past_guards e s row t =
    if e.cfg.crm_read_enabled && not (is_manager row.source)
    then crm_gate e s row t (find_lead t.lead_id s.leads)
    else claim e s row t

unfoldable pub settle : Env → Store → Row → ChannelThread → Check → Prepared
unfolding past_guards
settle e s row t pass = past_guards e s row t
settle e s row t hold = stop s none
settle e s row t (refuse status error) = stop (save_row s (mark row status error)) none
settle e s row t (skip error) =
    let row' = mark row skipped error in stop (save_row s row') (some row')
settle e s row t (late window) =
    let row' = mark row skipped window.error_code in
    stop (pause_dormant e (save_row s row') t window.dormant_reason) (some row')

abbrev pub scene : Env → Store → ChannelThread → Scene
scene e s t = record {
  now = e.now;
  branch_id = e.branch_id;
  cfg = e.cfg;
  spec = e.spec;
  actions = record {
    threads = s.threads;
    outbox = s.rows;
    post_comments = e.post_comments;
    outbound_comments = e.outbound_comments;
  };
  thread = t;
  lead = find_lead t.lead_id s.leads;
}

unfoldable pub on_thread : Env → Store → Row → Option ChannelThread → Prepared
unfolding settle
on_thread e s row none = stop s none
on_thread e s row (some t) = settle e s row t (check (scene e s t) row)

unfoldable pub on_row : Env → Store → ℕ → Option Row → Prepared
unfolding on_thread
on_row e s thread_id none = stop s none
on_row e s thread_id (some row) =
    if ltb e.now row.scheduled_at
    then stop s none
    else on_thread e s row (thread_by_id e.branch_id thread_id s.leads s.threads)

-- send_next up to its commit.
unfoldable pub prepare : Env → Store → (thread_id : ℕ) → Prepared
unfolding on_row
prepare e s thread_id =
    let rows = sweep_stale_claims thread_id e.now s.rows in
    on_row e (record s { rows = rows }) thread_id (oldest_pending e.branch_id thread_id rows)

sent_by : Source → String
sent_by manager = "manager"
sent_by _ = "agent"

abbrev message_id : Option String → ℕ → MessageId
message_id none row_id = out_row row_id
message_id (some id) row_id = if str_eq id "" then out_row row_id else given id

-- `_outgoing`
unfoldable pub outgoing : (branch_id : ℕ) → ChannelThread → Row → Option String → Message
unfolding sent_by
outgoing branch_id t row external_id = record {
  branch_id = branch_id;
  thread_id = row.thread_id;
  channel_id = t.channel_id;
  external_id = message_id external_id row.id;
  sent_by = sent_by row.source;
  sent_by_name = row.sent_by_name;
  text = row.text;
  llm_info = row.llm_info;
}

-- `(error or "")[:n]`
unfoldable pub take_text : ℕ → String → String
take_text zero s = ""
take_text (suc n) String.[] = ""
take_text (suc n) (String.◌∷◌ c s) = String.◌∷◌ c (take_text n s)

-- The three ends of a send.
unfoldable pub delivered : Env → Store → Row → ChannelThread → SendResult → Store × Row
delivered e s row t result =
    let row' = record row {
      status = if confirms e.spec then sent else queued;
      external_ref = result.external_message_id;
      sent_at = some e.now;
      error = none;
    } in
    let t' = record t { msg_out = t.msg_out + 1; last_out_at = some e.now } in
    let plan =
      plan_followup e.branch_id e.cfg e.spec row.source e.now
        (record { thread = t'; lead = find_lead t.lead_id s.leads; journal = s.journal }) in
    (
      record s {
        rows = put_row row' s.rows;
        messages = s.messages ++ (outgoing e.branch_id t row result.external_message_id ∷ []);
        threads = put_thread plan.thread s.threads;
        leads = put_lead? plan.lead s.leads;
        journal = plan.journal;
        wire = row.id ∷ s.wire;
      },
      row',
    )

unfoldable pub backed_off : Env → Store → Row → SendResult → Store × Row
backed_off e s row result =
    let row' = record row {
      status = pending;
      sent_at = none;
      scheduled_at = e.now + e.retry_after;
      error = result.error;
      attempts = row.attempts + 1;
    } in
    (save_row s row', row')

unfoldable pub given_up : Env → Store → Row → ChannelThread → SendResult → Store × Row
given_up e s row t result =
    let row' = record row { status = failed; sent_at = none; error = result.error } in
    let s' =
      if is_manager row.source
      then s
      else pause_dormant e s t
          (concat "send failed (undeliverable): " (take_text 120 (or_text result.error ""))) in
    (save_row s' row', row')

-- send_next after its commit, with the channel's answer.
unfoldable pub complete : Env → Store → Row → ChannelThread → SendResult → Store × Row
unfolding delivered backed_off given_up
complete e s row t result =
    if result.ok
    then delivered e s row t result
    else if is_soft_block result.error && ltb row.attempts e.max_soft_block_attempts
    then backed_off e s row result
    else given_up e s row t result

unfoldable pub finish : Env → Prepared → Store × Option Row
unfolding complete
finish e (stop s row) = (s, row)
finish e (claimed s row t) =
    let (s', row') = complete e s row t (e.send_text t.external_thread_id row.text) in
    (s', some row')

-- `send_next`
unfoldable pub send_next : Env → Store → (thread_id : ℕ) → Store × Option Row
unfolding prepare finish
send_next e s thread_id = finish e (prepare e s thread_id)
