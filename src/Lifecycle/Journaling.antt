-- ===== src/Lifecycle/Journaling.antt =====
-- The stage journal: the operations of leads/ops.py and the system's own moves that write to it
-- (app/modules/leads, conversation/dormancy.py, conversation/delivery.py,
-- conversation/reactivation.py, crm/gate.py, crm/rescue.py). A merge (leads/consolidate.py)
-- changes the stage with no entry, and is not among these steps.
use stepan.Prelude.{
  if_intro, ℕ, String, ◌≡◌, refl, ◌⊎◌, inl, inr, not, ◌||◌, Option, some, List, [], ◌∷◌, ◌++◌,
  arith, Bool-cases, Option-cases, concat,
}
use stepan.Conversation.Delivery.{Decision, Desk, Shift}
use stepan.Conversation.Delivery.Apply.{apply_decision}
use stepan.Conversation.Delivery.Laws.{apply_decision-IsMove}
use stepan.Domain.Stage.{value, is_dormant, is_manager, of_value, handed_off, nurturing}
use stepan.Domain.Lead.{Time, Lead, StageEvent, Journal}
use stepan.Domain.Funnel.{apply_stage}
use stepan.Conversation.Dormancy.{Park, park_dormant, park_event}
use stepan.Leads.Ingest.{claim_for_manager, claim_event, revive_bot, revive_event, revive_refused}
use stepan.Leads.Ops.{Session, move_lead, move_to, close_deal, with_note, op_event}
use stepan.Leads.Ops.Outreach.{Generation, call_failed, call_target, crm_followthrough}
use stepan.Crm.Gate.{GateState, stand_down, stand_down_event}
use stepan.Lifecycle.{lead_or}
use stepan.Crm.Rescue.{Lookups, rescue_note, rescue_one}
use stepan.Conversation.Reactivation.{
  Touch, touch_event, suppress, wake, reactivate, unprepared, refused, undecided, unfit,
  needs_human, touched,
}

-- A lead and its journal, before and after a step.
pub data LoggedStep : Lead → Journal → Lead → Journal → Type 0 where
  revive :
      (branch_id thread_id : ℕ) (now : Time) (l : Lead) (j : Journal)
      → LoggedStep l j
          (revive_bot branch_id thread_id now l j).0
          (revive_bot branch_id thread_id now l j).1
  claim :
      (branch_id thread_id : ℕ) (now : Time) (l : Lead) (j : Journal)
      → LoggedStep l j
          (claim_for_manager branch_id thread_id now l j).0
          (claim_for_manager branch_id thread_id now l j).1
  park :
      (p : Park) (l : Lead) (j : Journal)
      → LoggedStep l j
          (lead_or l (park_dormant p (some l) j).lead)
          (park_dormant p (some l) j).journal
  stand :
      (g : GateState) (reason : String) (now : Time)
      → LoggedStep g.lead g.journal (stand_down g reason now).lead (stand_down g reason now).journal
  move :
      (s : Session) (stage : String) (remark : Option String) (now : Time)
      → LoggedStep s.lead s.journal
          (move_lead s stage remark now).0.lead
          (move_lead s stage remark now).0.journal
  close :
      (s : Session) (remark : Option String) (now : Time)
      → LoggedStep s.lead s.journal
          (close_deal s remark now).0.lead
          (close_deal s remark now).0.journal
  missed_call :
      (gap : Time) (split : String → List String) (merge : Option String → String → String)
      (strip : String → String) (s : Session) (remark : Option String) (now : Time) (g : Generation)
      → LoggedStep s.lead s.journal
          (call_failed gap split merge strip s remark now g).0.lead
          (call_failed gap split merge strip s remark now g).0.journal
  follow_through :
      (gap : Time) (split : String → List String) (merge : Option String → String → String)
      (strip : String → String) (s : Session) (status : String) (now : Time) (g : Generation)
      → LoggedStep s.lead s.journal
          (crm_followthrough gap split merge strip s status now g).0.lead
          (crm_followthrough gap split merge strip s status now g).0.journal
  rescues :
      (gap : Time) (split : String → List String) (merge : Option String → String → String)
      (strip : String → String) (s : Session) (a : Lookups) (day : String) (now : Time)
      (g : Generation)
      → LoggedStep s.lead s.journal
          (rescue_one gap split merge strip s a day now g).lead
          (rescue_one gap split merge strip s a day now g).journal
  reactivates :
      (branch_id thread_id : ℕ) (now : Time) (o : Touch) (l : Lead) (j : Journal)
      → LoggedStep l j
          (reactivate branch_id thread_id now o l j).0
          (reactivate branch_id thread_id now o l j).1
  decide :
      (e : Shift) (d : Decision) (k : Desk)
      → LoggedStep k.lead k.journal (apply_decision e d k).0.lead (apply_decision e d k).0.journal

pub data LoggedReach (l : Lead) (j : Journal) : Lead → Journal → Type 0 where
  here : LoggedReach l j l j
  next :
      {m n : Lead} {k i : Journal} → LoggedReach l j m k → LoggedStep m k n i → LoggedReach l j n i

-- The stage that a journal leaves a lead in that began in `start`.
unfoldable pub replay : String → Journal → String
replay start [] = start
replay start (e ∷ es) = replay e.to_stage es

replay_snoc :
    (start : String) (j : Journal) (e : StageEvent) → replay start (j ++ (e ∷ [])) ≡ e.to_stage
unfolding replay
replay_snoc start [] e = refl
replay_snoc start (x ∷ xs) e = replay_snoc x.to_stage xs e

-- A step that writes nothing keeps the stage; else its one entry names the lead and both stages.
abbrev Faithful : Lead → Journal → Lead → Journal → Type 0
Faithful l j m k =
    ((m.stage ≡ l.stage) × (k ≡ j))
    ⊎ ((e : StageEvent) × (k ≡ j ++ (e ∷ []))
        × (e.lead_id ≡ l.id)
        × (e.from_stage ≡ value l.stage)
        × (e.to_stage ≡ value m.stage))

LoggedStep-Faithful :
    {l : Lead} {j : Journal} {m : Lead} {k : Journal} → LoggedStep l j m k → Faithful l j m k
unfolding revive_bot claim_for_manager park_dormant stand_down move_lead move_to close_deal
    apply_stage call_failed crm_followthrough rescue_one reactivate suppress wake
LoggedStep-Faithful (revive b t now l j) =
    elim (Bool-cases (revive_refused l || not (is_dormant l.stage))) [
      | inl stays ↦ inl (ground arith, ground arith)
      | inr woken ↦
          inr (revive_event b t now l, ground arith, ground arith, ground arith, ground arith)
    ]
LoggedStep-Faithful (claim b t now l j) = elim (Bool-cases (is_manager l.stage)) [
  | inl stays ↦ inl (ground arith, ground arith)
  | inr taken ↦ inr (claim_event b t now l, ground arith, ground arith, ground arith, ground arith)
]
LoggedStep-Faithful (park p l j) = elim (Bool-cases (park_dormant p (some l) j).parked) [
  | inl parks ↦ inr (park_event p l, ground arith, ground arith, ground arith, ground arith)
  | inr stays ↦ inl (ground arith, ground arith)
]
LoggedStep-Faithful (stand g reason now) = elim (Bool-cases (is_manager g.lead.stage)) [
  | inl stays ↦ inl (ground arith, ground arith)
  | inr taken ↦
      inr
        (stand_down_event g.lead reason now, ground arith, ground arith, ground arith, ground arith)
]
LoggedStep-Faithful (move s stage remark now) = elim (Option-cases (of_value stage)) [
  | inl unknown ↦ inl (ground arith, ground arith)
  | inr (target, known) ↦ inr (
    op_event s.lead target "mcp" (with_note (concat "move_lead → " (value target)) remark) now,
    ground (arith, known),
    ground arith,
    ground arith,
    ground (arith, known),
  )
]
LoggedStep-Faithful (close s remark now) = inr (
  op_event s.lead handed_off "mcp" (with_note "close_deal (won)" remark) now,
  ground arith,
  ground arith,
  ground arith,
  ground arith,
)
LoggedStep-Faithful (missed_call gap split merge strip s remark now g) = inr (
  op_event s.lead (call_target s.lead.stage) "mcp" (with_note "call_failed" remark) now,
  ground arith,
  ground arith,
  ground arith,
  ground arith,
)
LoggedStep-Faithful (follow_through gap split merge strip s status now g) = inr (
  op_event s.lead s.lead.stage "crm" (concat "crm_followthrough: " status) now,
  ground arith,
  ground arith,
  ground arith,
  ground arith,
)
LoggedStep-Faithful (rescues gap split merge strip s a day now g) =
    if_intro (λ (s' : Session). Faithful s.lead s.journal s'.lead s'.journal)
      (s.lead.is_blocked || not s.lead.agent_enabled) (λ _. inl (refl, refl))
      (λ _.
        if_intro (λ (s' : Session). Faithful s.lead s.journal s'.lead s'.journal)
          (a.has_refused || a.is_read_only || a.was_rescued || a.was_messaged)
          (λ _. inl (refl, refl))
          (λ _. inr (
            op_event s.lead (call_target s.lead.stage) "mcp"
                (with_note "call_failed" (some (rescue_note day))) now,
            ground arith,
            ground arith,
            ground arith,
            ground arith,
          )))
LoggedStep-Faithful (reactivates b t now unprepared l j) = inl (refl, refl)
LoggedStep-Faithful (reactivates b t now refused l j) =
    inr (touch_event b t now l l.stage, refl, refl, refl, refl)
LoggedStep-Faithful (reactivates b t now undecided l j) = inl (refl, refl)
LoggedStep-Faithful (reactivates b t now unfit l j) =
    inr (touch_event b t now l l.stage, refl, refl, refl, refl)
LoggedStep-Faithful (reactivates b t now needs_human l j) =
    inr (touch_event b t now l l.stage, refl, refl, refl, refl)
LoggedStep-Faithful (reactivates b t now touched l j) =
    inr (touch_event b t now l nurturing, refl, refl, refl, refl)
LoggedStep-Faithful (decide e d k) = (apply_decision-IsMove e d k).told

LoggedStep-replay :
    (start : String) {l m : Lead} {j k : Journal}
    → LoggedStep l j m k
    → replay start j ≡ value l.stage
    → replay start k ≡ value m.stage
LoggedStep-replay start {l} {m} {j} {k} s h = elim (LoggedStep-Faithful s) [
  | inl (same, kept) ↦ rw (kept, same) h
  | inr (e, grown, _, _, reached) ↦ rw (grown, replay_snoc, reached)
]

-- Through any sequence of these steps the journal alone tells the stage that the lead is in: the
-- last entry's target, or the first stage where nothing was written.
pub LoggedReach-replay :
    {l m : Lead} {k : Journal} → LoggedReach l [] m k → replay (value l.stage) k ≡ value m.stage
unfolding replay
LoggedReach-replay here = refl
LoggedReach-replay {l} (next r s) = LoggedStep-replay (value l.stage) s (LoggedReach-replay r)
