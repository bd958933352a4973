-- ===== src/Conversation/Harvest.antt =====
-- app/modules/conversation/followup.py (FollowupService): what becomes of a thread whose nudge is
-- due. The query of the due threads is not modelled, nor are the prompts.
pub mod Waits
pub mod Lines
pub mod Dry
use stepan.Prelude.{
  length, ltb, ◌==◌, if◌then◌else◌, str_eq, ℕ, ◌+◌, ◌*◌, String, Bool, true, false, not, ◌&&◌, ◌||◌,
  Option, none, some, List, [], ◌∷◌, ◌++◌,
}
use stepan.Conversation.Dormancy.{Park, park_dormant}
use stepan.Conversation.Outbox.Config.{Config}
use stepan.Conversation.Outbox.Followup.{next_step}
use stepan.Conversation.Outbox.Row.{followup}
use stepan.Conversation.Outbox.Store.{Store, Env, put_thread, find_lead, thread_by_id, put_lead?}
use stepan.Domain.Clock.{hour}
use stepan.Domain.Lead.{Time}
use stepan.Domain.Thread.{ChannelThread}
use stepan.Leads.Ops.Outreach.{queue_bubbles}

-- A row of manager_alert, as far as the harvest asks for it.
pub record Alert : Type 0 where
  pub thread_id : ℕ
  pub kind : String
  pub created_at : Time

-- A row of the harvest's query.
pub record DueRow : Type 0 where
  pub thread_id : ℕ
  pub followups_sent : ℕ
  pub channel_id : ℕ

-- The loop of `due_threads` over the query's rows: the connector's settings decide.
unfoldable pub keep_due :
    (agent_enabled : Bool) (channel_settings : ℕ → Config) → List DueRow → List DueRow
keep_due agent_enabled channel_settings [] = []
keep_due agent_enabled channel_settings (r ∷ rs) =
    let rest = keep_due agent_enabled channel_settings rs in
    let ch = channel_settings r.channel_id in
    if agent_enabled && ch.followup_enabled && ltb r.followups_sent (length ch.followup_schedule_h)
    then r ∷ rest
    else rest

-- What the harvest asks of a dossier (conversation/dossier.py).
pub record DossierOps (D : Type 0) : Type 0 where
  pub refusal : D → String
  pub has_discovery : D → Bool
  pub merge : D → D → D

-- TurnDecision, with the line about the call.
pub record Turn (D : Type 0) : Type 0 where
  pub reply : String
  pub needs_human : Bool
  pub dossier : D
  pub info : Option String

-- How `generate` ends: it raises, it gives no decision, or it gives one.
pub data Generated (D : Type 0) : Type 0 where
  raised undecided : Generated D
  decided : Turn D → Generated D

-- What one thread's turn is answered from outside: whether `prepare` gave a context, the two
-- generations, what extract_discovery added, the checks of money_gate.py, the splitting of
-- delivery.py, and the thread's times when they are read again (`none`: the thread vanished).
pub record Answers (D : Type 0) : Type 0 where
  pub has_context : Bool
  pub first : Generated D
  pub rewrite : Generated D
  pub extra : D
  pub is_uninvited : String → Bool
  pub has_issues : String → Bool
  pub strip : String → String
  pub split_bubbles : String → List String
  pub reread : Option (Option Time × Option Time)

-- The session of one thread's turn, with the dossier of its lead.
pub record Harvest (D : Type 0) : Type 0 where
  pub store : Store
  pub next_row_id : ℕ
  pub dossier : D
  pub alerts : List Alert

-- What the turn leaves: the session, its result, and whether it raised a manager's alert.
pub record Nudge (D : Type 0) : Type 0 where
  pub harvest : Harvest D
  pub is_queued : Bool
  pub is_alerted : Bool

abbrev pub save_thread : Store → ChannelThread → Store
save_thread s t = record s { threads = put_thread t s.threads }

cancel_on : Store → Option ChannelThread → Store
cancel_on s none = s
cancel_on s (some t) = save_thread s (record t { next_followup_at = none })

-- `_cancel_timer`
unfoldable pub cancel_timer : Env → Store → (thread_id : ℕ) → Store
unfolding cancel_on
cancel_timer e s thread_id = cancel_on s (thread_by_id e.branch_id thread_id s.leads s.threads)

abbrev pub dry_park : Env → ChannelThread → Park
dry_park e t = record {
  branch_id = e.branch_id;
  thread_id = some t.id;
  actor = "system";
  reason = "followup schedule exhausted (dry)";
  created_at = none;
  respect_human_led = false;
  now = e.now;
}

-- The two ends of a burned step, for a thread with the step counted.
unfoldable pub burn_next : Env → Store → ChannelThread → Option ℕ → Store
burn_next e s t (some h) = save_thread s (record t { next_followup_at = some (e.now + h * hour) })
burn_next e s t none =
    let parked = park_dormant (dry_park e t) (find_lead t.lead_id s.leads) s.journal in
    save_thread (record s { leads = put_lead? parked.lead s.leads; journal = parked.journal })
      (record t { next_followup_at = none })

burn_on : Env → Store → Option ChannelThread → Store
unfolding burn_next
burn_on e s none = s
burn_on e s (some t) =
    let n = t.followups_sent + 1 in
    burn_next e s (record t { followups_sent = n }) (next_step e.cfg n)

-- `_burn_dry_step`
unfoldable pub burn_dry_step : Env → Store → (thread_id : ℕ) → Store
unfolding burn_on
burn_dry_step e s thread_id = burn_on e s (thread_by_id e.branch_id thread_id s.leads s.threads)

-- `_ESCALATION_KINDS`
abbrev pub is_escalation : String → Bool
is_escalation kind =
    str_eq kind "needs_manager" || str_eq kind "ready_deal" || str_eq kind "ready_openhouse"

abbrev pub is_after : Time → Option Time → Bool
is_after t none = true
is_after t (some last_in_at) = ltb last_in_at t

-- `_already_alerted_since_lead`, of the thread's alerts and its last inbound.
unfoldable pub already_alerted : (thread_id : ℕ) → (last_in_at : Option Time) → List Alert → Bool
already_alerted thread_id last_in_at [] = false
already_alerted thread_id last_in_at (a ∷ alerts) =
    (a.thread_id == thread_id && is_escalation a.kind && is_after a.created_at last_in_at)
    || already_alerted thread_id last_in_at alerts

-- `_lead_replied_meanwhile`
unfoldable pub replied_meanwhile : Option (Option Time × Option Time) → Bool
replied_meanwhile none = true
replied_meanwhile (some (none, last_out)) = false
replied_meanwhile (some (some last_in, none)) = true
replied_meanwhile (some (some last_in, some last_out)) = ltb last_out last_in

abbrev last_in_of : Option (Option Time × Option Time) → Option Time
last_in_of none = none
last_in_of (some (last_in, last_out)) = last_in

-- `_FAILURE_BACKOFF_MIN`, 30 minutes.
abbrev pub failure_backoff : Time
failure_backoff = 1800000000

-- The cooldown after an exception, in `queue_one`.
unfoldable pub backed_off_thread : Env → Store → Option ChannelThread → Store
backed_off_thread e s none = s
backed_off_thread e s (some t) =
    save_thread s (record t { next_followup_at = some (e.now + failure_backoff) })

-- `gap` is _BUBBLE_GAP_S.
module _ {D : Type 0} (ops : DossierOps D) (gap : Time) (e : Env) (thread_id : ℕ) where
  abbrev pub unqueued : Harvest D → Nudge D
  unqueued h = record { harvest = h; is_queued = false; is_alerted = false }

  abbrev pub on_store : Harvest D → Store → Harvest D
  on_store h s = record h { store = s }

  -- Every branch that drops the nudge and burns the step.
  unfoldable pub burned : Harvest D → (is_alerted : Bool) → Nudge D
  burned h is_alerted = record {
    harvest = on_store h (burn_dry_step e h.store thread_id);
    is_queued = false;
    is_alerted = is_alerted;
  }

  abbrev pub merged_dossier : Answers D → D → D → D
  merged_dossier a stored said =
      let merged = ops.merge stored said in
      if not (ops.has_discovery merged) then ops.merge merged a.extra else merged

  -- The end of `_queue_followup`: the dossier, the bubbles, the timer.
  unfoldable pub ship : Harvest D → Answers D → Turn D → Nudge D
  ship h a turn =
      let bubbles = a.split_bubbles turn.reply in
      let lines =
        queue_bubbles gap e.branch_id thread_id followup e.now turn.info h.next_row_id 0 bubbles in
      record {
        harvest = record h {
          store = cancel_timer e (record h.store { rows = h.store.rows ++ lines }) thread_id;
          next_row_id = h.next_row_id + length bubbles;
          dossier = merged_dossier a h.dossier turn.dossier;
        };
        is_queued = true;
        is_alerted = false;
      }

  -- From the check of the empty reply on.
  unfoldable pub settle_turn : Harvest D → Answers D → Turn D → Nudge D
  unfolding ship burned
  settle_turn h a turn =
      if str_eq (a.strip turn.reply) ""
      then burned h false
      else if a.has_issues turn.reply
      then burned h false
      else if replied_meanwhile a.reread
      then unqueued h
      else if turn.needs_human
      then burned h (not (already_alerted thread_id (last_in_of a.reread) h.alerts))
      else ship h a turn

  -- After the one rewrite; `none` is the exception.
  unfoldable pub settle_rewrite : Harvest D → Answers D → Generated D → Option (Nudge D)
  unfolding settle_turn burned
  settle_rewrite h a raised = none
  settle_rewrite h a undecided = some (burned h false)
  settle_rewrite h a (decided turn) =
      if a.is_uninvited turn.reply then some (burned h false) else some (settle_turn h a turn)

  unfoldable pub settle_first : Harvest D → Answers D → Generated D → Option (Nudge D)
  unfolding settle_rewrite settle_turn
  settle_first h a raised = none
  settle_first h a undecided = some (unqueued h)
  settle_first h a (decided turn) =
      if a.is_uninvited turn.reply
      then settle_rewrite h a a.rewrite
      else some (settle_turn h a turn)

  -- `_queue_followup`
  unfoldable pub queue_followup : Harvest D → Answers D → Option (Nudge D)
  unfolding settle_first
  queue_followup h a =
      if not a.has_context
      then some (unqueued h)
      else if str_eq (ops.refusal h.dossier) "blunt"
      then some (unqueued (on_store h (cancel_timer e h.store thread_id)))
      else settle_first h a a.first

  unfoldable pub or_backoff : Harvest D → Option (Nudge D) → Nudge D
  unfolding backed_off_thread
  or_backoff h (some n) = n
  or_backoff h none = unqueued (
      on_store h (
        backed_off_thread e h.store
          (thread_by_id e.branch_id thread_id h.store.leads h.store.threads)))

  -- `queue_one`
  unfoldable pub queue_one : Harvest D → Answers D → Nudge D
  unfolding queue_followup or_backoff
  queue_one h a = or_backoff h (queue_followup h a)
