-- ===== src/Conversation/Harvest/Lines.antt =====
-- What app/modules/conversation/followup.py takes up and what it appends to the outbox.
use stepan.Prelude.{
  length, get_elem?, All, ltb, is_some, if_intro, ℕ, zero, suc, ◌<◌, ◌≡◌, refl, Bool, true, false,
  ◌&&◌, Option, none, some, List, [], ◌∷◌, ◌++◌, arith,
}
use stepan.Conversation.Harvest.{DueRow, keep_due, DossierOps, Answers, Harvest, Nudge}
use stepan.Conversation.Outbox.Config.{Config}
use stepan.Conversation.Outbox.Followup.{next_step}
use stepan.Conversation.Outbox.Row.{Row, followup}
use stepan.Conversation.Outbox.Store.{Store, Env}
use stepan.Domain.Lead.{Time}
use stepan.Leads.Ops.Laws.{IsSpaced}

-- A step of the schedule exists before its end.
get_elem?-is_some : (hs : List ℕ) (i : ℕ) → i < length hs → is_some (get_elem? hs i) ≡ true
get_elem?-is_some [] i h = absurd (omega (arith, h))
get_elem?-is_some (x ∷ xs) zero h = refl
get_elem?-is_some (x ∷ xs) (suc i) h = get_elem?-is_some xs i (omega (arith, h))

abbrev HasStep : (channel_settings : ℕ → Config) → DueRow → Type 0
HasStep channel_settings r =
    is_some (next_step (channel_settings r.channel_id) r.followups_sent) ≡ true

kept-HasStep :
    (agent_enabled : Bool) (channel_settings : ℕ → Config) (r : DueRow)
    → (agent_enabled
        && (channel_settings r.channel_id).followup_enabled
        && ltb r.followups_sent (length (channel_settings r.channel_id).followup_schedule_h))
      ≡ true
    → HasStep channel_settings r
kept-HasStep agent_enabled cs r kept =
    let hs = (cs r.channel_id).followup_schedule_h in
    ground (arith, kept, get_elem?-is_some hs r.followups_sent (ground (arith, kept)))

-- Every thread that the harvest keeps has a next step in the schedule of its own channel, the one
-- that the sender would arm.
pub keep_due-next_step :
    (agent_enabled : Bool) (channel_settings : ℕ → Config) (rows : List DueRow)
    → All
        (λ r. is_some (next_step (channel_settings r.channel_id) r.followups_sent) ≡ true)
        (keep_due agent_enabled channel_settings rows)
unfolding keep_due
keep_due-next_step agent_enabled cs [] = tt
keep_due-next_step agent_enabled cs (r ∷ rs) =
    let rest = keep_due-next_step agent_enabled cs rs in
    if_intro (All (HasStep cs)) _
      (λ kept.
        let all : All (HasStep cs) (r ∷ keep_due agent_enabled cs rs) =
          (kept-HasStep agent_enabled cs r kept, rest) in
        all)
      (λ _. rest)

module _ {D : Type 0} (ops : DossierOps D) (gap : Time) (e : Env) (thread_id : ℕ) (h : Harvest D)
    (a : Answers D) where
  -- The outbox as it was, or the spaced lines of one nudge behind it.
  pub data Lines (n : Nudge D) : Type 0 where
    untouched : n.is_queued ≡ false → n.harvest.store.rows ≡ h.store.rows → Lines n
    appended :
        n.is_queued ≡ true
        → (lines : List Row) → n.harvest.store.rows ≡ h.store.rows ++ lines
        → IsSpaced gap e.now thread_id 0 followup lines
        → Lines n

  abbrev OutcomeLines : Option (Nudge D) → Type 0
  OutcomeLines none = Unit
  OutcomeLines (some n) = Lines n
