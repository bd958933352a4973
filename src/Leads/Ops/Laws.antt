-- ===== src/Leads/Ops/Laws.antt =====
-- What the funnel operations of app/modules/leads/ops.py promise.
use stepan.Prelude.{
  ℕ, ◌+◌, ◌*◌, ◌≤◌, String, ◌≡◌, refl, ap, ◌≢◌, ◌⊎◌, inl, inr, true, false, Option, none, some,
  List, [], ◌∷◌, ◌++◌, arith, str_eq, Bool-cases, Option-cases, All,
}
use stepan.Domain.Stage.{
  Stage, bot_silent, human_led, value, of_value, of_value-value, value-of_value,
}
use stepan.Domain.Lead.{Time}
use stepan.Domain.Funnel.{apply_stage}
use stepan.Domain.Thread.{ChannelThread}
use stepan.Conversation.Outbox.Row.{Row, Source, pending}
use stepan.Leads.Ops.{Session, move_lead, move_to}
use stepan.Leads.Ops.Outreach.{
  Generation, decided, newest_thread_id, queue_bubbles, queue_message, call_failed,
}

module _ (gap : Time) (split_bubbles : String → List String)
    (merge_dossier : Option String → String → String) (strip : String → String) where
  -- Writing the message leaves the lead and the journal alone.
  pub queue_message-lead :
      (s : Session) (source : Source) (now : Time) (g : Generation)
      → (queue_message gap split_bubbles merge_dossier strip s source now g).0.lead ≡ s.lead
  unfolding queue_message
  queue_message-lead s source now g = ground arith

  pub queue_message-journal :
      (s : Session) (source : Source) (now : Time) (g : Generation)
      → (queue_message gap split_bubbles merge_dossier strip s source now g).0.journal ≡ s.journal
  unfolding queue_message
  queue_message-journal s source now g = ground arith

-- A known stage moves the lead as apply_stage says and answers with both stages; any other text
-- is refused and leaves the session as it was.
pub move_lead_branches :
    (s : Session) (text : String) (remark : Option String) (now : Time)
    → ((target : Stage) × (text ≡ value target)
        × ((move_lead s text remark now).0.lead ≡ apply_stage s.lead target)
        × ((move_lead s text remark now).1.ok ≡ true)
        × ((move_lead s text remark now).1.stage ≡ some text)
        × ((move_lead s text remark now).1.from_stage ≡ some (value s.lead.stage)))
      ⊎ (((target : Stage) → text ≢ value target)
          × ((move_lead s text remark now).0 ≡ s)
          × ((move_lead s text remark now).1.ok ≡ false))
unfolding move_lead move_to apply_stage
move_lead_branches s text remark now = elim (Option-cases (of_value text)) [
  | inl unknown ↦
      inr (λ target e. cc (of_value-value target, ap of_value e, unknown), rw unknown, rw unknown)
  | inr (target, known) ↦
      let e = value-of_value text target known in
      inl (target, e, rw known, rw known, ground (arith, known, e), ground (arith, known))
]

-- Whatever becomes of the message, call_failed hands the lead back to the bot: the switch is on,
-- the manual mute is gone, and the stage is neither silent nor led by a human.
pub call_failed_rearms :
    (gap : Time) (split_bubbles : String → List String)
    (merge_dossier : Option String → String → String) (strip : String → String) (s : Session)
    (remark : Option String) (now : Time) (g : Generation)
    → let l = (call_failed gap split_bubbles merge_dossier strip s remark now g).0.lead in
      (l.agent_enabled ≡ true)
      × (l.agent_off_manual ≡ false)
      × (bot_silent l.stage ≡ false)
      × (human_led l.stage ≡ false)
unfolding call_failed
call_failed_rearms gap split_bubbles merge_dossier strip s remark now g =
    (ground arith, ground arith, ground arith, ground arith)

-- The lines of one reply: each is pending on the thread, and the i-th waits i gaps.
abbrev pub IsSpaced : (gap now thread_id i : ℕ) (source : Source) → List Row → Type 0
IsSpaced gap now thread_id i source [] = Unit
IsSpaced gap now thread_id i source (r ∷ rs) =
    ((r.thread_id ≡ thread_id)
      × (r.status ≡ pending)
      × (r.source ≡ source)
      × (r.scheduled_at ≡ now + i * gap))
    × IsSpaced gap now thread_id (i + 1) source rs

pub queue_bubbles-IsSpaced :
    (gap : Time) (branch_id thread_id : ℕ) (source : Source) (now : Time) (info : Option String)
    (next_id i : ℕ) (bubbles : List String)
    → IsSpaced gap now thread_id i source
        (queue_bubbles gap branch_id thread_id source now info next_id i bubbles)
unfolding queue_bubbles
queue_bubbles-IsSpaced gap branch_id thread_id source now info next_id i [] = tt
queue_bubbles-IsSpaced gap branch_id thread_id source now info next_id i (b ∷ bs) = (
  (refl, refl, refl, refl),
  queue_bubbles-IsSpaced gap branch_id thread_id source now info (next_id + 1) (i + 1) bs,
)

abbrev Under : Option ℕ → ℕ → Type 0
Under none bound = Unit
Under (some best) bound = best ≤ bound

newest_thread_id-Under :
    (lead_id : ℕ) (ts : List ChannelThread) (bound : ℕ)
    → Under (newest_thread_id lead_id ts) bound
    → All (λ t. t.lead_id ≡ lead_id → t.id ≤ bound) ts
unfolding newest_thread_id
newest_thread_id-Under lead_id [] bound h = tt
newest_thread_id-Under lead_id (t ∷ ts) bound h =
    elim (Option-cases (newest_thread_id lead_id ts)) [
      | inl e ↦ (ground arith, newest_thread_id-Under lead_id ts bound (rw e tt))
      | inr (best, e) ↦
          (ground arith, newest_thread_id-Under lead_id ts bound (rw e (ground arith)))
    ]

-- The thread that the message goes to is the newest of the lead's: no thread of the lead has a
-- greater id.
pub newest_thread_id-max :
    (lead_id : ℕ) (ts : List ChannelThread) (best : ℕ)
    → newest_thread_id lead_id ts ≡ some best
    → All (λ t. t.lead_id ≡ lead_id → t.id ≤ best) ts
newest_thread_id-max lead_id ts best e = newest_thread_id-Under lead_id ts best (rw e (omega arith))

-- The message either goes out as lines on the lead's newest thread, spaced by the gap, or the
-- session is left as it was.
pub queue_message_lines :
    (gap : Time) (split_bubbles : String → List String)
    (merge_dossier : Option String → String → String) (strip : String → String) (s : Session)
    (source : Source) (now : Time) (g : Generation)
    → let (s', is_queued) = queue_message gap split_bubbles merge_dossier strip s source now g in
      ((is_queued ≡ false) × (s' ≡ s))
      ⊎ ((is_queued ≡ true)
          × (thread_id : ℕ) × (lines : List Row) × (newest_thread_id s.lead.id s.threads
              ≡ some thread_id)
          × (s'.outbox ≡ s.outbox ++ lines)
          × IsSpaced gap now thread_id 0 source lines)
unfolding queue_message
queue_message_lines gap split_bubbles merge_dossier strip s source now
      (decided reply dossier info) =
    elim (Option-cases (newest_thread_id s.lead.id s.threads)) [
      | inl nowhere ↦ inl (rw nowhere, rw nowhere)
      | inr (thread_id, found) ↦ elim (Bool-cases (str_eq (strip reply) "")) [
        | inl blank ↦ inl (rw (found, blank), rw (found, blank))
        | inr spoken ↦ inr (
          rw (found, spoken),
          thread_id,
          queue_bubbles gap s.lead.branch_id thread_id source now info s.next_row_id 0
              (split_bubbles reply),
          found,
          rw (found, spoken),
          queue_bubbles-IsSpaced gap s.lead.branch_id thread_id source now info s.next_row_id 0
              (split_bubbles reply),
        )
      ]
    ]
queue_message_lines gap split_bubbles merge_dossier strip s source now _ =
    inl (ground arith, ground arith)
