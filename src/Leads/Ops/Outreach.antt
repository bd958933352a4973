-- ===== src/Leads/Ops/Outreach.antt =====
-- app/modules/leads/ops.py: the two operations that have the bot write to the lead.
use stepan.Prelude.{
  ℕ, ◌+◌, ◌*◌, max, String, Bool, true, false, ◌||◌, Option, none, some, List, [], ◌∷◌, ◌++◌, ◌==◌,
  if◌then◌else◌, str_eq, concat, length,
}
use stepan.Domain.Stage.{Stage, qualifying, bot_silent, human_led, value}
use stepan.Domain.Lead.{Time}
use stepan.Domain.Thread.{ChannelThread}
use stepan.Conversation.Outbox.Row.{Row, Source, other, fresh_row}
use stepan.Leads.Ops.{LeadOpResult, Session, with_note, op_event, op_result}

-- `_newest_thread_id`: ORDER BY id DESC LIMIT 1.
unfoldable pub newest_thread_id : ℕ → List ChannelThread → Option ℕ
newest_thread_id lead_id [] = none
newest_thread_id lead_id (t ∷ ts) =
    let rest = newest_thread_id lead_id ts in
    if t.lead_id == lead_id
    then (elim rest [ none ↦ some t.id | some best ↦ some (max t.id best) ])
    else rest

-- How the decision engine ends: `prepare` gives no context, the generation raises, it gives no
-- decision, or it gives a reply with the dossier of this turn and the line about the call.
pub data Generation : Type 0 where
  no_context raised no_decision : Generation
  decided : String → String → Option String → Generation

-- The loop over the bubbles, from bubble `i` on.
unfoldable pub queue_bubbles :
    (gap : Time) (branch_id thread_id : ℕ) (source : Source) (now : Time) (info : Option String)
    (next_id i : ℕ)
    → List String
    → List Row
queue_bubbles gap branch_id thread_id source now info next_id i [] = []
queue_bubbles gap branch_id thread_id source now info next_id i (bubble ∷ bubbles) =
    fresh_row next_id branch_id thread_id bubble source (now + i * gap) info
    ∷ queue_bubbles gap branch_id thread_id source now info (next_id + 1) (i + 1) bubbles

-- The detail of a result: `reason + (... if queued else ...)`.
abbrev pub outcome_detail : String → Bool → String
outcome_detail reason is_queued =
    concat reason
      (if is_queued then " · bot will message the lead" else " · no chat thread to message")

-- The stage that call_failed gives the bot back the lead in.
unfoldable pub call_target : Stage → Stage
call_target stage = if bot_silent stage || human_led stage then qualifying else stage

-- `gap` is _BUBBLE_GAP_S. `split_bubbles` and `merge_dossier` are those of delivery.py and
-- dossier.py, and `strip` is `str.strip`.
module _ (gap : Time) (split_bubbles : String → List String)
    (merge_dossier : Option String → String → String) (strip : String → String) where
  queue_decided : Session → (thread_id : ℕ) (source : Source) → Time → Generation → Session × Bool
  queue_decided s thread_id source now (decided reply dossier info) =
      if str_eq (strip reply) ""
      then (s, false)
      else let bubbles = split_bubbles reply in
        (
          record s {
            dossier = some (merge_dossier s.dossier dossier);
            outbox =
                s.outbox
                ++ queue_bubbles gap s.lead.branch_id thread_id source now info s.next_row_id 0
                    bubbles;
            next_row_id = s.next_row_id + length bubbles;
          },
          true,
        )
  queue_decided s thread_id source now _ = (s, false)

  queue_on : Session → (source : Source) → Time → Generation → Option ℕ → Session × Bool
  unfolding queue_decided
  queue_on s source now generation none = (s, false)
  queue_on s source now generation (some thread_id) =
      queue_decided s thread_id source now generation

  -- `_queue_call_failed_message`
  unfoldable pub queue_message : Session → (source : Source) → Time → Generation → Session × Bool
  unfolding queue_on
  queue_message s source now generation =
      queue_on s source now generation (newest_thread_id s.lead.id s.threads)

  -- `call_failed`
  unfoldable pub call_failed : Session → Option String → Time → Generation → Session × LeadOpResult
  unfolding call_target queue_message
  call_failed s remark now generation =
      let target = call_target s.lead.stage in
      let reason = with_note "call_failed" remark in
      let handed = record s.lead {
        stage = target;
        agent_enabled = true;
        agent_off_manual = false;
      } in
      let moved = record s {
        lead = handed;
        journal = s.journal ++ (op_event s.lead target "mcp" reason now ∷ []);
      } in
      let (s', is_queued) = queue_message moved (other "call_failed") now generation in
      (s', op_result s'.lead (value s.lead.stage) (outcome_detail reason is_queued) is_queued)

  -- `crm_followthrough`
  unfoldable pub crm_followthrough :
      Session → (status : String) → Time → Generation → Session × LeadOpResult
  unfolding queue_message
  crm_followthrough s status now generation =
      let reason = concat "crm_followthrough: " status in
      let journaled = record s {
        journal = s.journal ++ (op_event s.lead s.lead.stage "crm" reason now ∷ []);
      } in
      let (s', is_queued) = queue_message journaled (other "crm_followthrough") now generation in
      (s', op_result s'.lead (value s.lead.stage) (outcome_detail reason is_queued) is_queued)
