-- ===== src/Lifecycle.antt =====
-- The life of a lead across the modules: each way that the system moves a lead's stage or switch on
-- its own (app/modules/leads/ingest.py, conversation/dormancy.py, conversation/delivery.py,
-- conversation/reactivation.py, crm/gate.py, crm/rescue.py with leads/ops.py, leads/consolidate.py)
-- as a step of one relation, and what no sequence of these steps can do. The simulator of
-- conversation/sim.py has leads of its own.
pub mod Journaling
use stepan.Prelude.{
  if_intro, ℕ, ◌-◌, String, List, refl, ◌≡◌, ◌∙◌, ◌⊎◌, inl, inr, Bool, true, false, not, ◌&&◌, ◌||◌,
  Option, none, some, arith,
}
use stepan.Conversation.Delivery.{Decision, Desk, Shift}
use stepan.Conversation.Delivery.Apply.{apply_decision}
use stepan.Conversation.Delivery.Laws.{apply_decision-IsMove}
use stepan.Conversation.Delivery.Answered.{apply_decision-human_led}
use stepan.Domain.Stage.{Stage, human_led, bot_silent}
use stepan.Domain.Lead.{Time, Lead, Journal}
use stepan.Domain.Funnel.{apply_stage}
use stepan.Conversation.Dormancy.{Park, park_dormant}
use stepan.Leads.Ingest.{claim_for_manager, revive_bot, revive_refused}
use stepan.Leads.Consolidate.{silence_bot, retired}
use stepan.Leads.Ops.{Session}
use stepan.Leads.Ops.Outreach.{Generation}
use stepan.Crm.Rescue.{Lookups, rescue_one}
use stepan.Conversation.Reactivation.{
  Touch, is_touched, suppress, reactivate, unprepared, refused, undecided, unfit, needs_human,
  touched,
}
use stepan.Crm.Gate.{GateState, stand_down}

abbrev pub lead_or : Lead → Option Lead → Lead
lead_or l none = l
lead_or l (some l') = l'

-- A step on the stage or the switch that no operator takes.
pub data SystemStep : Lead → Lead → Type 0 where
  revive :
      (branch_id thread_id : ℕ) (now : Time) (journal : Journal) (l : Lead)
      → SystemStep l (revive_bot branch_id thread_id now l journal).0
  claim :
      (branch_id thread_id : ℕ) (now : Time) (journal : Journal) (l : Lead)
      → SystemStep l (claim_for_manager branch_id thread_id now l journal).0
  park :
      (p : Park) (journal : Journal) (l : Lead)
      → SystemStep l (lead_or l (park_dormant p (some l) journal).lead)
  stand :
      (g : GateState) (reason : String) (now : Time)
      → SystemStep g.lead (stand_down g reason now).lead
  merge : (now : Time) (l : Lead) → SystemStep l (silence_bot l now)
  retire : (survivor l : Lead) → SystemStep l (retired survivor l)
  rescues :
      (gap : Time) (split : String → List String) (merge : Option String → String → String)
      (strip : String → String) (s : Session) (a : Lookups) (day : String) (now : Time)
      (g : Generation)
      → SystemStep s.lead (rescue_one gap split merge strip s a day now g).lead
  reactivates :
      (branch_id thread_id : ℕ) (now : Time) (o : Touch) (journal : Journal) (l : Lead)
      → SystemStep l (reactivate branch_id thread_id now o l journal).0
  decide : (e : Shift) (d : Decision) (k : Desk) → SystemStep k.lead (apply_decision e d k).0.lead

pub data Reach (l : Lead) : Lead → Type 0 where
  here : Reach l l
  next : {m n : Lead} → Reach l m → SystemStep m n → Reach l n

-- A person has switched the bot off for this lead.
pub record IsMuted (l : Lead) : Type 0 where
  pub off : l.agent_enabled ≡ false
  pub by_hand : l.agent_off_manual ≡ true

-- A switch that was off, and at most goes off, is off.
kept_off : {a b : Bool} → (b ≡ a) ⊎ (b ≡ false) → a ≡ false → b ≡ false
kept_off (inl same) h = same ∙ h
kept_off (inr off) h = off

-- No reactivation touches the lead: it switches the bot on without asking who switched it off.
abbrev pub IsNoTouch : {l m : Lead} → SystemStep l m → Type 0
IsNoTouch (reactivates b t now o j l) = is_touched o ≡ false
IsNoTouch (revive b t now j l) = Unit
IsNoTouch (claim b t now j l) = Unit
IsNoTouch (park p j l) = Unit
IsNoTouch (stand g reason now) = Unit
IsNoTouch (merge now l) = Unit
IsNoTouch (retire survivor l) = Unit
IsNoTouch (rescues gap split merger strip s a day now g) = Unit
IsNoTouch (decide e d k) = Unit

abbrev pub AllNoTouch : {l m : Lead} → Reach l m → Type 0
AllNoTouch here = Unit
AllNoTouch (next r s) = AllNoTouch r × IsNoTouch s

SystemStep-IsMuted : {l m : Lead} (s : SystemStep l m) → IsNoTouch s → IsMuted l → IsMuted m
unfolding revive_bot claim_for_manager park_dormant stand_down silence_bot apply_stage rescue_one
    reactivate suppress
SystemStep-IsMuted (revive b t now j l) q h = ground arith
SystemStep-IsMuted (claim b t now j l) q h = ground arith
SystemStep-IsMuted (park p j l) q h = ground arith
SystemStep-IsMuted (stand g reason now) q h = ground arith
SystemStep-IsMuted (merge now l) q h = ground arith
SystemStep-IsMuted (retire survivor l) q h = record { off = refl; by_hand = h.by_hand }
SystemStep-IsMuted (rescues gap split merger strip s a day now g) q h =
    let off = h.off in
    if_intro (λ (x : Session). IsMuted x.lead) (s.lead.is_blocked || not s.lead.agent_enabled)
      (λ _. h) (λ awake. absurd (ground (arith, awake, off)))
SystemStep-IsMuted (reactivates b t now unprepared j l) q h = h
SystemStep-IsMuted (reactivates b t now refused j l) q h = h
SystemStep-IsMuted (reactivates b t now undecided j l) q h = h
SystemStep-IsMuted (reactivates b t now unfit j l) q h = h
SystemStep-IsMuted (reactivates b t now needs_human j l) q h = h
SystemStep-IsMuted (reactivates b t now touched j l) q h = absurd (cc q)
SystemStep-IsMuted (decide e d k) q h =
    let m = apply_decision-IsMove e d k in
    record { off = kept_off m.not_on h.off; by_hand = m.same_manual ∙ h.by_hand }

-- A bot that a person switched off stays off, and the lead stays marked so, through every
-- sequence of inbound messages, parks, decisions of the model, CRM stand-downs, rescues of missed
-- calls and merges, and of reactivations that end without a touch.
pub Reach-IsMuted : {l m : Lead} (r : Reach l m) → AllNoTouch r → IsMuted l → IsMuted m
Reach-IsMuted here a h = h
Reach-IsMuted (next r s) (a, b) h = SystemStep-IsMuted s b (Reach-IsMuted r a h)

-- Every park on the way leaves a lead that a human leads where it is, no decision is a hard stop, no
-- rescue finds the lead led by a human with its bot on, and no touch of a reactivation finds it led by a
-- human. The query of the reactivations sees to the last; a rescue takes such a lead back.
abbrev pub IsRespectful : {l m : Lead} → SystemStep l m → Type 0
IsRespectful (park p j l) = p.respect_human_led ≡ true
IsRespectful (revive b t now j l) = Unit
IsRespectful (claim b t now j l) = Unit
IsRespectful (stand g reason now) = Unit
IsRespectful (merge now l) = Unit
IsRespectful (retire survivor l) = Unit
IsRespectful (rescues gap split merger strip s a day now g) =
    (s.lead.agent_enabled && human_led s.lead.stage) ≡ false
IsRespectful (reactivates b t now o j l) = (is_touched o && human_led l.stage) ≡ false
IsRespectful (decide e d k) = d.hard_stop ≡ false

abbrev pub AllRespectful : {l m : Lead} → Reach l m → Type 0
AllRespectful here = Unit
AllRespectful (next r s) = AllRespectful r × IsRespectful s

SystemStep-human_led :
    {l m : Lead} (s : SystemStep l m)
    → IsRespectful s
    → human_led l.stage ≡ true
    → human_led m.stage ≡ true
unfolding revive_bot claim_for_manager park_dormant stand_down silence_bot apply_stage rescue_one
    reactivate suppress
SystemStep-human_led (revive b t now j l) r h = ground arith
SystemStep-human_led (claim b t now j l) r h = ground arith
SystemStep-human_led (park p j l) r h = ground arith
SystemStep-human_led (stand g reason now) r h = ground arith
SystemStep-human_led (merge now l) r h = ground arith
SystemStep-human_led (retire survivor l) r h = h
SystemStep-human_led (rescues gap split merger strip s a day now g) r h =
    let off : s.lead.agent_enabled ≡ false = ground (arith, r, h) in
    if_intro (λ (x : Session). human_led x.lead.stage ≡ true)
      (s.lead.is_blocked || not s.lead.agent_enabled) (λ _. h)
      (λ awake. absurd (ground (arith, awake, off)))
SystemStep-human_led (reactivates b t now unprepared j l) r h = h
SystemStep-human_led (reactivates b t now refused j l) r h = h
SystemStep-human_led (reactivates b t now undecided j l) r h = h
SystemStep-human_led (reactivates b t now unfit j l) r h = h
SystemStep-human_led (reactivates b t now needs_human j l) r h = h
SystemStep-human_led (reactivates b t now touched j l) r h = absurd (cc (r, h))
SystemStep-human_led (decide e d k) go h = apply_decision-human_led e d k go h

-- A lead that a human leads stays led by a human, through every sequence of system steps whose
-- parks respect that, whose decisions are no hard stop, whose rescues of missed calls do not meet it
-- with its bot on while a human leads it, and whose reactivations do not touch it while one does.
pub Reach-human_led :
    {l m : Lead} (r : Reach l m)
    → AllRespectful r
    → human_led l.stage ≡ true
    → human_led m.stage ≡ true
Reach-human_led here a h = h
Reach-human_led (next r s) (a, b) h = SystemStep-human_led s b (Reach-human_led r a h)

-- A lead that the bot may write to: the switch is on and the stage does not silence it.
abbrev pub is_bot_led : Lead → Bool
is_bot_led l = l.agent_enabled && not (bot_silent l.stage)

-- A fresh inbound puts the bot in charge exactly where nothing stands against it: no block, no
-- manual mute, no human-led stage and no non-target verdict; or it was in charge already.
pub revive_bot-is_bot_led :
    (branch_id thread_id : ℕ) (now : Time) (journal : Journal) (l : Lead)
    → is_bot_led (revive_bot branch_id thread_id now l journal).0
      ≡ (is_bot_led l || not (revive_refused l))
unfolding revive_bot
revive_bot-is_bot_led b t now j l = ground arith
