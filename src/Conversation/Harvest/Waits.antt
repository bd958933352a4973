-- ===== src/Conversation/Harvest/Waits.antt =====
-- A turn of app/modules/conversation/followup.py ends with the thread no longer due.
use stepan.Prelude.{
  get_elem?, All, ◌==◌, str_eq, Bool-cases, if_intro, ℕ, zero, suc, ◌+◌, ◌*◌, ◌<◌, ◌≡◌, refl, inl,
  inr, Bool, true, false, not, Option, none, some, List, [], ◌∷◌, arith,
}
use stepan.Conversation.Harvest.{
  DossierOps, Turn, Generated, Answers, Harvest, Nudge, save_thread, cancel_timer, burn_next,
  burn_dry_step, replied_meanwhile, failure_backoff, backed_off_thread, burned, ship, settle_turn,
  settle_rewrite, settle_first, queue_followup, or_backoff, queue_one, raised, undecided, decided,
}
use stepan.Conversation.Outbox.Followup.{next_step}
use stepan.Conversation.Outbox.Store.{Store, Env, put_thread, thread_by_id}
use stepan.Domain.Clock.{hour}
use stepan.Domain.Lead.{Time, Lead}
use stepan.Domain.Thread.{ChannelThread}

abbrev pub is_undecided : {D : Type 0} → Generated D → Bool
is_undecided undecided = true
is_undecided _ = false

-- The timer is off or later than now.
abbrev pub IsWaiting : Time → Option Time → Type 0
IsWaiting now none = Unit
IsWaiting now (some at) = now < at

-- The thread is not due any more.
abbrev pub Waits : Time → (thread_id : ℕ) → Store → Type 0
Waits now thread_id s = All (λ t. t.id ≡ thread_id → IsWaiting now t.next_followup_at) s.threads

thread_by_id-id :
    (branch_id id : ℕ) (leads : List Lead) (ts : List ChannelThread) (t : ChannelThread)
    → thread_by_id branch_id id leads ts ≡ some t
    → t.id ≡ id
unfolding thread_by_id
thread_by_id-id branch_id id leads [] t h = absurd (ground arith)
thread_by_id-id branch_id id leads (x ∷ xs) t h =
    ground (arith, thread_by_id-id branch_id id leads xs t)

put_thread-Waits :
    (now : Time) (id : ℕ) (t : ChannelThread) (ts : List ChannelThread)
    → t.id ≡ id
    → IsWaiting now t.next_followup_at
    → All (λ u. u.id ≡ id → IsWaiting now u.next_followup_at) (put_thread t ts)
unfolding put_thread
put_thread-Waits now id t [] e w = tt
put_thread-Waits now id t (x ∷ xs) e w = elim (Bool-cases (x.id == t.id)) [
  | inl hit ↦ rw hit ((λ _. w), put_thread-Waits now id t xs e w)
  | inr miss ↦ rw miss ((λ k. absurd (ground (arith, e, k))), put_thread-Waits now id t xs e w)
]

All-get_elem? : (hs : List ℕ) (i h : ℕ) → All (λ n. 0 < n) hs → get_elem? hs i ≡ some h → 0 < h
All-get_elem? [] i h a e = absurd (ground arith)
All-get_elem? (x ∷ xs) zero h (a, _) e = ground (arith, a, e)
All-get_elem? (x ∷ xs) (suc i) h (_, a) e = All-get_elem? xs i h a e

module _ {D : Type 0} (ops : DossierOps D) (gap : Time) (e : Env) (thread_id : ℕ)
    (t : ChannelThread) where
  abbrev Found : Store → Type 0
  Found s = thread_by_id e.branch_id thread_id s.leads s.threads ≡ some t

  saved-Waits :
      (s : Store) (t' : ChannelThread)
      → t'.id ≡ thread_id
      → IsWaiting e.now t'.next_followup_at
      → Waits e.now thread_id (save_thread s t')
  saved-Waits s t' i w = put_thread-Waits e.now thread_id t' s.threads i w

  -- A thread that is found has the id it was looked up by.
  Found-id : (s : Store) → Found s → t.id ≡ thread_id
  Found-id s f = thread_by_id-id e.branch_id thread_id s.leads s.threads t f

  cancel_timer-Waits : (s : Store) → Found s → Waits e.now thread_id (cancel_timer e s thread_id)
  unfolding cancel_timer
  cancel_timer-Waits s f =
      rw f (saved-Waits s (record t { next_followup_at = none }) (Found-id s f) tt)

  backed_off-Waits : (s : Store) → Found s → Waits e.now thread_id (backed_off_thread e s (some t))
  unfolding backed_off_thread
  backed_off-Waits s f =
      saved-Waits s (record t { next_followup_at = some (e.now + failure_backoff) }) (Found-id s f)
        (omega arith)

  module _ (positive : All (λ h. 0 < h) e.cfg.followup_schedule_h) where
    burn_next-Waits :
        (s : Store) (n : ℕ) (step : Option ℕ)
        → t.id ≡ thread_id
        → next_step e.cfg n ≡ step
        → Waits e.now thread_id (burn_next e s (record t { followups_sent = n }) step)
    unfolding burn_next
    burn_next-Waits s n none i k =
        put_thread-Waits e.now thread_id (record t { followups_sent = n; next_followup_at = none })
          s.threads i tt
    burn_next-Waits s n (some h) i k =
        let p : 0 < h = All-get_elem? e.cfg.followup_schedule_h n h positive (ground (arith, k)) in
        saved-Waits s (record t { followups_sent = n; next_followup_at = some (e.now + h * hour) })
          i (omega (arith, p))

    burn_dry_step-Waits :
        (s : Store) → Found s → Waits e.now thread_id (burn_dry_step e s thread_id)
    unfolding burn_dry_step
    burn_dry_step-Waits s f = rw f (burn_next-Waits s _ _ (Found-id s f) refl)

    abbrev NudgeWaits : Nudge D → Type 0
    NudgeWaits n = Waits e.now thread_id n.harvest.store

    burned-Waits :
        (h : Harvest D) (is_alerted : Bool)
        → Found h.store
        → NudgeWaits (burned ops gap e thread_id h is_alerted)
    unfolding burned
    burned-Waits h is_alerted f = burn_dry_step-Waits h.store f

    ship-Waits :
        (h : Harvest D) (a : Answers D) (turn : Turn D)
        → Found h.store
        → NudgeWaits (ship ops gap e thread_id h a turn)
    unfolding ship
    ship-Waits h a turn f = cancel_timer-Waits _ f

    settle_turn-Waits :
        (h : Harvest D) (a : Answers D) (turn : Turn D)
        → Found h.store
        → replied_meanwhile a.reread ≡ false
        → NudgeWaits (settle_turn ops gap e thread_id h a turn)
    unfolding settle_turn
    settle_turn-Waits h a turn f silent =
        if_intro NudgeWaits (str_eq (a.strip turn.reply) "") (λ _. burned-Waits h false f)
          (λ _.
            if_intro NudgeWaits (a.has_issues turn.reply) (λ _. burned-Waits h false f)
              (λ _.
                if_intro NudgeWaits (replied_meanwhile a.reread)
                  (λ wrote. absurd (ground (arith, silent, wrote)))
                  (λ _.
                    if_intro NudgeWaits turn.needs_human (λ _. burned-Waits h false f)
                      (λ _. ship-Waits h a turn f))))

    abbrev OutcomeWaits : Option (Nudge D) → Type 0
    OutcomeWaits none = Unit
    OutcomeWaits (some n) = NudgeWaits n

    settle_rewrite-Waits :
        (h : Harvest D) (a : Answers D) (g : Generated D)
        → Found h.store
        → replied_meanwhile a.reread ≡ false
        → OutcomeWaits (settle_rewrite ops gap e thread_id h a g)
    unfolding settle_rewrite
    settle_rewrite-Waits h a raised f silent = tt
    settle_rewrite-Waits h a undecided f silent = burned-Waits h false f
    settle_rewrite-Waits h a (decided turn) f silent =
        if_intro OutcomeWaits (a.is_uninvited turn.reply) (λ _. burned-Waits h false f)
          (λ _. settle_turn-Waits h a turn f silent)

    settle_first-Waits :
        (h : Harvest D) (a : Answers D) (g : Generated D)
        → Found h.store
        → is_undecided g ≡ false
        → replied_meanwhile a.reread ≡ false
        → OutcomeWaits (settle_first ops gap e thread_id h a g)
    unfolding settle_first
    settle_first-Waits h a raised f u silent = tt
    settle_first-Waits h a undecided f u silent = absurd (ground (arith, u))
    settle_first-Waits h a (decided turn) f u silent =
        if_intro OutcomeWaits (a.is_uninvited turn.reply)
          (λ _. settle_rewrite-Waits h a a.rewrite f silent)
          (λ _. settle_turn-Waits h a turn f silent)

    or_backoff-Waits :
        (h : Harvest D) (o : Option (Nudge D))
        → Found h.store
        → OutcomeWaits o
        → NudgeWaits (or_backoff ops gap e thread_id h o)
    unfolding or_backoff
    or_backoff-Waits h none f w = rw f (backed_off-Waits h.store f)
    or_backoff-Waits h (some n) f w = w

    -- Where the steps of the schedule are positive and the thread is the branch's, one turn of it
    -- leaves it no longer due, its timer off or later than now: queued, dropped, refused outright or
    -- ended by an exception. Three ends are left out: no context, a reply that could not be read,
    -- and a lead who wrote meanwhile.
    pub queue_one-Waits :
        (h : Harvest D) (a : Answers D)
        → Found h.store
        → a.has_context ≡ true
        → is_undecided a.first ≡ false
        → replied_meanwhile a.reread ≡ false
        → NudgeWaits (queue_one ops gap e thread_id h a)
    unfolding queue_one queue_followup
    queue_one-Waits h a f context u silent = or_backoff-Waits h _ f (
        if_intro OutcomeWaits (not a.has_context) (λ lost. absurd (ground (arith, context, lost)))
          (λ _.
            if_intro OutcomeWaits (str_eq (ops.refusal h.dossier) "blunt")
              (λ _. cancel_timer-Waits h.store f) (λ _. settle_first-Waits h a a.first f u silent)))
