-- ===== src/Tests/Harvest.antt =====
-- The follow-up harvest at concrete threads.
use stepan.Prelude.{◌+◌, String, ◌≡◌, refl, true, false, none, some, [], ◌∷◌, arith}
use stepan.Conversation.Dormancy.{park_dormant}
use stepan.Conversation.Harvest.{
  DueRow, DossierOps, Turn, Answers, Harvest, burn_dry_step, replied_meanwhile, queue_one, raised,
  undecided, decided,
}
use stepan.Conversation.Harvest.Dry.{burns, burns_end}
use stepan.Conversation.Harvest.Lines.{Lines}
use stepan.Conversation.Harvest.Waits.{Waits, queue_one-Waits}
use stepan.Conversation.Outbox.Store.{Store, Env, thread_by_id, put_lead}
use stepan.Domain.Stage.{presenting, dormant}
use stepan.Domain.Thread.{ChannelThread}
use stepan.Tests.Samples.{lead_at, thread_of, noon, config, env, store}

-- A dossier is its refusal here.
abbrev ops : DossierOps String
ops = record { refusal = λ d. d; has_discovery = λ d. true; merge = λ stored said. said }

abbrev nudged : Turn String
nudged = record { reply = "halo"; needs_human = false; dossier = "soft"; info = none }

abbrev answers : Answers String
answers = record {
  has_context = true;
  first = decided nudged;
  rewrite = raised;
  extra = "";
  is_uninvited = λ _. false;
  has_issues = λ _. false;
  strip = λ s. s;
  split_bubbles = λ s. s ∷ "ya" ∷ [];
  reread = some (none, some 5);
}

abbrev due_now : Harvest String
due_now = record { store = store; next_row_id = 3; dossier = ""; alerts = [] }

queue_one-Waits_example : Waits noon 20 (queue_one ops 4000000 env 20 due_now answers).harvest.store
unfolding thread_by_id replied_meanwhile
queue_one-Waits_example =
    queue_one-Waits ops 4000000 env 20 (thread_of 20 7) (omega arith, (omega arith, tt)) due_now
      answers refl refl refl refl

queued_rows : (queue_one ops 4000000 env 20 due_now answers).is_queued ≡ true
unfolding queue_one replied_meanwhile
queued_rows = refl

-- A reply that cannot be read leaves the session as it was: the thread stays due.
unreadable :
    queue_one ops 4000000 env 20 due_now (record answers { first = undecided })
    ≡ record { harvest = due_now; is_queued = false; is_alerted = false }
unfolding queue_one replied_meanwhile
unreadable = refl

-- A schedule of two steps on the channel, and none in the branch's settings.
abbrev branch_off : Env
branch_off = record env { cfg = record config { followup_enabled = false } }

abbrev due_row : DueRow
due_row = record { thread_id = 20; followups_sent = 0; channel_id = 5 }

-- The harvest takes the thread up by its channel's schedule; a nudge with nothing to say then parks
-- the lead at the first step, by the branch's.
dry_by_branch :
    (burn_dry_step branch_off store 20).leads
    ≡ record (lead_at 7 presenting) { stage = dormant; agent_enabled = false } ∷ []
unfolding burn_dry_step thread_by_id park_dormant put_lead
dry_by_branch = refl

-- With the channel's own settings the next step would have been armed.
dry_by_channel : (burn_dry_step env store 20).leads ≡ lead_at 7 presenting ∷ []
unfolding burn_dry_step thread_by_id
dry_by_channel = refl

-- Two dry steps use up the schedule of two.
abbrev dried : Store
dried = burns 20 env (noon ∷ 64000000000000000 ∷ []) store

burns_end_example :
    (t' : ChannelThread) × (thread_by_id 1 20 dried.leads dried.threads ≡ some t')
    × (t'.followups_sent ≡ 0 + 2)
    × (t'.next_followup_at ≡ none)
unfolding thread_by_id
burns_end_example =
    burns_end 20 env store (thread_of 20 7) noon (64000000000000000 ∷ []) refl (omega arith)
