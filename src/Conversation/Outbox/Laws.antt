-- ===== src/Conversation/Outbox/Laws.antt =====
-- What the sender of app/modules/conversation/outbox.py promises of one line.
use stepan.Prelude.{
  ap, ℕ, ◌+◌, ◌≤◌, ◌<◌, String, ◌≡◌, refl, ◌⊎◌, inl, inr, Bool, true, false, not, ◌&&◌, Option,
  none, some, arith, ltb, if◌then◌else◌, Bool-cases, Option-cases, length, get_elem?-none,
}
use stepan.Domain.Stage.{dormant}
use stepan.Domain.Lead.{Time, Lead}
use stepan.Domain.Thread.{ChannelThread}
use stepan.Domain.Clock.{is_quiet_hour}
use stepan.Conversation.Dormancy.{park_dormant}
use stepan.Crm.Gate.{GateState}
use stepan.Missions.Budget.{account_spend, exhausted}
use stepan.Conversation.Outbox.Row.{
  sending, Row, pending, failed, followup, is_manager, is_followup,
}
use stepan.Conversation.Outbox.Queue.{oldest_pending}
use stepan.Conversation.Outbox.Config.{
  Config, ConnectorSpec, SendResult, is_soft_block, does_proactive_outreach,
}
use stepan.Conversation.Outbox.Guards.{
  Check, pass, hold, refuse, skip, late, Scene, check, check_automated, cap_reached, muted,
  ◌then_check◌, check_lead, check_muted,
}
use stepan.Conversation.Outbox.Followup.{Plan, plan_followup, to_dormant, nudges_off}
use stepan.Conversation.Outbox.Send.{
  Prepared, stop, claimed, claim, past_guards, crm_gate, crm_decided, settle, on_row, on_thread,
  prepare, scene, complete, delivered, backed_off, given_up,
}
use stepan.Conversation.Outbox.Store.{
  Store, Env, find_lead, thread_by_id, sweep_stale_claims, pause_dormant,
}

-- The lead that an automated line is for, if there is one, may be written to.
abbrev pub IsOpen : Option Lead → Type 0
IsOpen none = Unit
IsOpen (some l) = (l.is_blocked ≡ false) × (l.agent_off_manual ≡ false)

then_check-pass : (a b : Check) → (a then_check b) ≡ pass → (a ≡ pass) × (b ≡ pass)
then_check-pass pass b h = (refl, h)
then_check-pass hold b h = (cc, cc)
then_check-pass (refuse st er) b h = (cc, cc)
then_check-pass (skip er) b h = (cc, cc)
then_check-pass (late w) b h = (cc, cc)

hold_pass : (waits : Bool) → (if waits then hold else pass) ≡ pass → waits ≡ false
hold_pass true h = cc
hold_pass false h = refl

check_lead-IsOpen : (l : Option Lead) → check_lead l ≡ pass → IsOpen l
check_lead-IsOpen none h = tt
check_lead-IsOpen (some l) h = (ground arith, ground arith)

check_muted-none : (m : Option String) → check_muted m ≡ pass → m ≡ none
check_muted-none none h = refl
check_muted-none (some name) h = cc

-- An automated line passes the guards only where the lead is neither blocked nor taken by a
-- human, no follow-up falls into the quiet hours, the account has room under its caps, and
-- neither the channel nor the connector is muted.
pub check_pass :
    (s : Scene) (row : Row)
    → check s row ≡ pass
    → is_manager row.source ≡ false
    → IsOpen s.lead
      × ((is_followup row.source
            && is_quiet_hour s.cfg.quiet_start s.cfg.quiet_end s.now s.cfg.tz_offset_h)
          ≡ false)
      × (cap_reached s.actions s.branch_id s.cfg s.thread.channel_id s.now ≡ false)
      × (muted s.cfg s.spec ≡ none)
unfolding check check_automated
check_pass s row p m =
    let body : check_automated s row ≡ pass = ground arith in
    let (lead, rest) = then_check-pass (check_lead s.lead) _ body in
    let (quiet, rest') = then_check-pass _ _ rest in
    let (cap, rest'') = then_check-pass _ _ rest' in
    let (mute, window) = then_check-pass (check_muted (muted s.cfg s.spec)) _ rest'' in
    (
      check_lead-IsOpen s.lead lead,
      hold_pass _ quiet,
      hold_pass _ cap,
      check_muted-none (muted s.cfg s.spec) mute,
    )

-- While the hourly cap is on, an automated line passes only if the account's actions of the last
-- hour, on every mission that is counted, stay below it.
pub check_hourly_cap :
    (s : Scene) (row : Row)
    → check s row ≡ pass
    → is_manager row.source ≡ false
    → 0 < s.cfg.hourly_cap
    → (account_spend s.actions s.thread.channel_id s.cfg.hourly_cap s.now).used < s.cfg.hourly_cap
unfolding cap_reached exhausted account_spend
check_hourly_cap s row p m h = ground (arith, check_pass s row p m)

-- Completing the send of a line whose attempts are within their bound keeps them within it; a
-- line that ends pending again has one more attempt than before and waits for the retry time, so
-- the retries of a soft block run out.
pub complete-attempts :
    (e : Env) (s : Store) (row : Row) (t : ChannelThread) (result : SendResult)
    → row.attempts ≤ e.max_soft_block_attempts
    → let row' = (complete e s row t result).1 in
      (row'.attempts ≤ e.max_soft_block_attempts)
      × (row'.status ≡ pending
          → (row'.attempts ≡ row.attempts + 1) × (row'.scheduled_at ≡ e.now + e.retry_after))
unfolding complete delivered backed_off given_up
complete-attempts e s row t result h = (ground arith, λ p. ground arith)

-- Where the channel answers with an error that is no soft block, or with any error once the
-- attempts are used up, the line ends failed whatever its source, and nothing more is on the wire.
pub complete_fails :
    (e : Env) (s : Store) (row : Row) (t : ChannelThread) (result : SendResult)
    → result.ok ≡ false
    → (is_soft_block result.error ≡ false) ⊎ (e.max_soft_block_attempts ≤ row.attempts)
    → ((complete e s row t result).1.status ≡ failed)
      × ((complete e s row t result).0.wire ≡ s.wire)
unfolding complete given_up pause_dormant
complete_fails e s row t result bad h = (ground arith, ground arith)

-- On a connector that does proactive outreach, for a lead whose nudges are not off, the last
-- follow-up of a non-empty schedule ends the cycle: no timer is left, and the lead is dormant with
-- its bot off, also where a human leads its stage.
pub plan_followup_ends :
    (branch_id : ℕ) (cfg : Config) (spec : Option ConnectorSpec) (now : Time) (p : Plan) (l : Lead)
    → does_proactive_outreach spec ≡ true
    → p.lead ≡ some l
    → nudges_off p.lead ≡ false
    → 0 < length cfg.followup_schedule_h
    → length cfg.followup_schedule_h ≤ p.thread.followups_sent + 1
    → let q = plan_followup branch_id cfg spec followup now p in
      (q.thread.next_followup_at ≡ none)
      × (q.lead ≡ some (record l { stage = dormant; agent_enabled = false }))
unfolding plan_followup to_dormant park_dormant
plan_followup_ends branch_id cfg spec now p l o e n len last =
    let over = get_elem?-none {0} cfg.followup_schedule_h (p.thread.followups_sent + 1) last in
    (ground (arith, over), ground (arith, over))

-- The line as it is claimed.
abbrev pub in_flight : Time → Row → Row
in_flight now row = record row { status = sending; sent_at = some now }

-- A claim keeps the thread, and takes the line itself.
abbrev KeptBy : Time → Prepared → Row → ChannelThread → Type 0
KeptBy now (stop s r) row t = Unit
KeptBy now (claimed s row' t') row t = (t' ≡ t) × (row' ≡ in_flight now row)

module _ (e : Env) (s : Store) (row : Row) (t : ChannelThread) where
  crm_decided-KeptBy :
      (g : GateState) (allowed : Bool) (reason : String)
      → KeptBy e.now (crm_decided e s row t (g, allowed, reason)) row t
  unfolding crm_decided claim
  crm_decided-KeptBy g true reason = (refl, refl)
  crm_decided-KeptBy g false reason = tt

  crm_gate-KeptBy : (lead : Option Lead) → KeptBy e.now (crm_gate e s row t lead) row t
  unfolding crm_gate claim
  crm_gate-KeptBy none = (refl, refl)
  crm_gate-KeptBy (some lead) = crm_decided-KeptBy _ _ _

  past_guards-KeptBy : KeptBy e.now (past_guards e s row t) row t
  unfolding past_guards claim
  past_guards-KeptBy = elim (Bool-cases (e.cfg.crm_read_enabled && not (is_manager row.source))) [
    | inl read ↦ rw read (crm_gate-KeptBy _)
    | inr unread ↦ rw unread (refl, refl)
  ]

  settle_claimed :
      (c : Check) {s' : Store} {row' : Row} {t' : ChannelThread}
      → settle e s row t c ≡ claimed s' row' t'
      → (c ≡ pass) × (t' ≡ t) × (row' ≡ in_flight e.now row)
  unfolding settle
  settle_claimed pass {s'} {row'} {t'} h =
      let kept : KeptBy e.now (claimed s' row' t') row t = rw h at past_guards-KeptBy in
      (refl, kept.0, kept.1)
  settle_claimed hold h = (cc, cc, cc)
  settle_claimed (refuse st er) h = (cc, cc, cc)
  settle_claimed (skip er) h = (cc, cc, cc)
  settle_claimed (late w) h = (cc, cc, cc)

-- What a claimed line has behind it: it was due, and it passed every guard on its own thread.
abbrev pub HasPassed : Env → Store → ℕ → Row → ChannelThread → Type 0
HasPassed e s thread_id row' t =
    (row : Row) × (row' ≡ in_flight e.now row)
    × (row.scheduled_at ≤ e.now)
    × (oldest_pending e.branch_id thread_id s.rows ≡ some row)
    × (check (scene e s t) row ≡ pass)
    × (thread_by_id e.branch_id thread_id s.leads s.threads ≡ some t)

on_row_claimed :
    (e : Env) (s : Store) (thread_id : ℕ) (line : Option Row) {s' : Store} {row' : Row}
    {t : ChannelThread}
    → oldest_pending e.branch_id thread_id s.rows ≡ line
    → on_row e s thread_id line ≡ claimed s' row' t
    → HasPassed e s thread_id row' t
unfolding on_row on_thread
on_row_claimed e s thread_id none p h = absurd (cc h)
on_row_claimed e s thread_id (some row) {s'} {row'} {t} p h =
    elim (Bool-cases (ltb e.now row.scheduled_at)) [
      | inl early ↦ absurd (ground arith)
      | inr due ↦ elim (Option-cases (thread_by_id e.branch_id thread_id s.leads s.threads)) [
        | inl foreign ↦ absurd (ground (arith, foreign, due))
        | inr (u, found) ↦
            let on : settle e s row u (check (scene e s u) row) ≡ claimed s' row' t =
              ground (arith, found, due) in
            let (passed, same, taken) = settle_claimed e s row u _ on in
            (row, taken, ground (arith, due), p, rw same passed, rw same found)
      ]
    ]

-- Where prepare claims an automated line for a thread, it is the next line of that thread once the
-- stale claims are swept, set to sending now and otherwise as it was, and goes out on that thread; its
-- time had come, the lead is neither blocked nor taken by a human, and the account is under its caps.
pub prepare_claimed :
    (e : Env) (s : Store) (thread_id : ℕ) (s' : Store) (row' : Row) (t : ChannelThread)
    → prepare e s thread_id ≡ claimed s' row' t
    → is_manager row'.source ≡ false
    → let swept = record s { rows = sweep_stale_claims thread_id e.now s.rows } in
      (row : Row) × (oldest_pending e.branch_id thread_id swept.rows ≡ some row)
      × (row' ≡ in_flight e.now row)
      × (thread_by_id e.branch_id thread_id s.leads s.threads ≡ some t)
      × (row.scheduled_at ≤ e.now)
      × IsOpen (find_lead t.lead_id s.leads)
      × (cap_reached (scene e swept t).actions e.branch_id e.cfg t.channel_id e.now ≡ false)
unfolding prepare
prepare_claimed e s thread_id s' row' t h m =
    let swept = record s { rows = sweep_stale_claims thread_id e.now s.rows } in
    let (row, taken, due, next, passed, found) = on_row_claimed e swept thread_id _ refl h in
    let same_source : row'.source ≡ row.source = ap (λ (r : Row). r.source) taken in
    let facts = check_pass (scene e swept t) row passed (rw same_source at m) in
    (row, next, taken, found, due, facts.0, facts.2)
