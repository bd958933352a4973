-- ===== src/Tests/Outbox.antt =====
-- The sender at a small store.
use stepan.Prelude.{ℕ, ◌+◌, ◌≤◌, ◌≡◌, refl, Bool, true, false, ◌&&◌, none, some, [], arith}
use stepan.Domain.Stage.{presenting, dormant}
use stepan.Domain.Thread.{ChannelThread}
use stepan.Domain.Clock.{east, is_quiet_hour}
use stepan.Missions.Budget.{account_spend, exhausted}
use stepan.Conversation.Outbox.Row
use stepan.Conversation.Outbox.Row.{Row, pending, failed}
use stepan.Conversation.Outbox.Queue.{
  IsOldest, oldest_pending, oldest_pending-IsOldest, count_sent_since,
}
use stepan.Conversation.Outbox.Guards.{pass, check, check_automated, cap_reached, muted}
use stepan.Conversation.Outbox.Followup.{Plan, plan_followup}
use stepan.Conversation.Outbox.Send.{claimed, prepare, complete, send_next, scene}
use stepan.Conversation.Outbox.Store.{Store, find_lead, thread_by_id, sweep_stale_claims}
use stepan.Conversation.Outbox.Laws.{
  in_flight, IsOpen, check_pass, complete-attempts, plan_followup_ends, prepare_claimed,
}
use stepan.Conversation.Outbox.Runs.{here, next, passes, crashes, crashed, Run-IsOnce}
use stepan.Conversation.Outbox.Once.{IsOnce, on_wire}
use stepan.Tests.Samples.{lead_at, thread_of, noon, line, env, store, rate_limited, config}

store-IsOnce : IsOnce store
unfolding on_wire
store-IsOnce = record { unsent = ((λ p. refl), ((λ p. refl), tt)); once = tt }

-- A pass crashes after the text has gone out, and two more passes follow.
abbrev after_crash : Store
after_crash = crashed (prepare env store 20) true

abbrev after_all : Store
after_all = (send_next env (send_next env after_crash 20).0 20).0

Run-IsOnce_example : IsOnce after_all
Run-IsOnce_example =
    Run-IsOnce
      (next (next (next here (crashes env store 20 true)) (passes env after_crash 20))
        (passes env (send_next env after_crash 20).0 20))
      store-IsOnce

oldest_pending-IsOldest_example : IsOldest 1 20 (oldest_pending 1 20 store.rows) store.rows
oldest_pending-IsOldest_example = oldest_pending-IsOldest 1 20 store.rows

agent_first : oldest_pending 1 20 store.rows ≡ some (line 2 Row.agent)
unfolding oldest_pending
agent_first = refl

passing : check (scene env store (thread_of 20 7)) (line 2 Row.agent) ≡ pass
unfolding check check_automated find_lead cap_reached exhausted account_spend count_sent_since
passing = refl

claim_of_2 :
    (s : Store) × (row : Row) × (t : ChannelThread) × (prepare env store 20 ≡ claimed s row t)
unfolding prepare oldest_pending sweep_stale_claims thread_by_id check check_automated find_lead
    cap_reached exhausted account_spend count_sent_since
claim_of_2 = (_, _, _, refl)

complete-attempts_example :
    let row' = (complete env store (line 2 Row.agent) (thread_of 20 7) rate_limited).1 in
    (row'.attempts ≤ 8)
    × (row'.status ≡ pending → (row'.attempts ≡ 1) × (row'.scheduled_at ≡ noon + 900000000))
complete-attempts_example =
    complete-attempts env store (line 2 Row.agent) (thread_of 20 7) rate_limited (omega arith)

abbrev worn_out : Row
worn_out = record (line 2 Row.agent) { attempts = 8 }

abbrev plan_after : ℕ → Plan
plan_after n = record {
  thread = record (thread_of 20 7) { followups_sent = n };
  lead = some (lead_at 7 presenting);
  journal = [];
}

plan_followup_ends_example :
    let q = plan_followup 1 config none Row.followup noon (plan_after 1) in
    (q.thread.next_followup_at ≡ none)
    × (q.lead ≡ some (record (lead_at 7 presenting) { stage = dormant; agent_enabled = false }))
plan_followup_ends_example =
    plan_followup_ends 1 config none noon (plan_after 1) (lead_at 7 presenting) refl refl refl
      (omega arith) (omega arith)

prepare_claimed_example :
    let swept = record store { rows = sweep_stale_claims 20 noon store.rows } in
    (row : Row) × (oldest_pending 1 20 swept.rows ≡ some row)
    × (claim_of_2.1 ≡ in_flight noon row)
    × (thread_by_id 1 20 store.leads store.threads ≡ some claim_of_2.2)
    × (row.scheduled_at ≤ noon)
    × IsOpen (find_lead claim_of_2.2.lead_id store.leads)
    × (cap_reached (scene env swept claim_of_2.2).actions 1 config claim_of_2.2.channel_id noon
        ≡ false)
unfolding claim_of_2
prepare_claimed_example =
    prepare_claimed env store 20 claim_of_2.0 claim_of_2.1 claim_of_2.2 claim_of_2.3 refl

abbrev is_quiet_followup : Bool
is_quiet_followup = Row.is_followup Row.agent && is_quiet_hour 22 8 noon (east 7)

check_pass_example :
    IsOpen (find_lead 7 store.leads)
    × (is_quiet_followup ≡ false)
    × (cap_reached (scene env store (thread_of 20 7)).actions 1 config 5 noon ≡ false)
    × (muted config none ≡ none)
check_pass_example = check_pass (scene env store (thread_of 20 7)) (line 2 Row.agent) passing refl
