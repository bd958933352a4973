-- ===== src/Conversation/Harvest/Dry.antt =====
-- Steps that app/modules/conversation/followup.py burns without a nudge run out.
use stepan.Prelude.{
  length, get_elem?-none, ◌==◌, Bool-cases, Option-cases, ℕ, ◌+◌, ◌*◌, ◌≤◌, ◌≡◌, refl, sym, ap, ◌∙◌,
  inl, inr, true, false, ◌&&◌, ◌||◌, Option, none, some, List, [], ◌∷◌, arith,
}
use stepan.Conversation.Dormancy.{Park, park_dormant}
use stepan.Conversation.Harvest.{dry_park, burn_next, burn_dry_step}
use stepan.Conversation.Outbox.Followup.{next_step}
use stepan.Conversation.Outbox.Store.{
  Store, Env, put_thread, find_lead, in_branch, thread_by_id, put_lead, put_lead?,
}
use stepan.Domain.Clock.{hour}
use stepan.Domain.Lead.{Time, Lead, Journal}
use stepan.Domain.Stage.{is_dormant, human_led, dormant}
use stepan.Domain.Thread.{ChannelThread}

find_lead-put_lead :
    (k : ℕ) (l : Lead) (ls : List Lead)
    → (l.id == k) ≡ false
    → find_lead k (put_lead l ls) ≡ find_lead k ls
unfolding find_lead put_lead
find_lead-put_lead k l [] e = refl
find_lead-put_lead k l (x ∷ xs) e = elim (Bool-cases (x.id == l.id)) [
  | inl hit ↦
      let i : (x.id == k) ≡ false = ground (arith, hit, e) in
      rw (hit, e, i) (find_lead-put_lead k l xs e)
  | inr miss ↦ rw miss (elim (Bool-cases (x.id == k)) [
    | inl mine ↦ rw mine refl
    | inr away ↦ rw away (find_lead-put_lead k l xs e)
  ])
]

-- Saving a lead of the same branch over the one with its id leaves each lead's branch as it was.
in_branch-put_lead :
    (b k : ℕ) (l l' : Lead) (ls : List Lead)
    → find_lead l'.id ls ≡ some l
    → l'.branch_id ≡ l.branch_id
    → in_branch b (find_lead k (put_lead l' ls)) ≡ in_branch b (find_lead k ls)
unfolding find_lead put_lead
in_branch-put_lead b k l l' [] f e = refl
in_branch-put_lead b k l l' (x ∷ xs) f e = elim (Bool-cases (x.id == l'.id)) [
  | inl hit ↦
      let same : x ≡ l = ground (arith, hit, f) in
      elim (Bool-cases (l'.id == k)) [
        | inl mine ↦
            let i : (x.id == k) ≡ true = ground (arith, hit, mine) in
            let w : x.branch_id ≡ l'.branch_id = rw same (sym e) in
            rw (hit, mine, i) (ap (λ n. n == b) (sym w))
        | inr away ↦
            let i : (x.id == k) ≡ false = ground (arith, hit, away) in
            let rest : find_lead k (put_lead l' xs) ≡ find_lead k xs =
              find_lead-put_lead k l' xs away in
            rw (hit, away, i, rest) refl
      ]
  | inr miss ↦
      let rest = in_branch-put_lead b k l l' xs (rw miss at f) e in
      rw miss (elim (Bool-cases (x.id == k)) [ inl mine ↦ rw mine refl | inr away ↦ rw away rest ])
]

thread_by_id-leads :
    (b id : ℕ) (leads leads' : List Lead) (ts : List ChannelThread)
    → ((k : ℕ) → in_branch b (find_lead k leads') ≡ in_branch b (find_lead k leads))
    → thread_by_id b id leads' ts ≡ thread_by_id b id leads ts
unfolding thread_by_id
thread_by_id-leads b id leads leads' [] h = refl
thread_by_id-leads b id leads leads' (x ∷ xs) h =
    rw (h x.lead_id, thread_by_id-leads b id leads leads' xs h) refl

-- A thread that is found passes the test of the lookup.
thread_by_id-passes :
    (b id : ℕ) (leads : List Lead) (ts : List ChannelThread) (t : ChannelThread)
    → thread_by_id b id leads ts ≡ some t
    → (t.id == id && in_branch b (find_lead t.lead_id leads)) ≡ true
unfolding thread_by_id
thread_by_id-passes b id leads [] t f = absurd (ground (arith, f))
thread_by_id-passes b id leads (x ∷ xs) t f =
    elim (Bool-cases (x.id == id && in_branch b (find_lead x.lead_id leads))) [
      | inl hit ↦ let same : x ≡ t = ground (arith, hit, f) in rw same at hit
      | inr miss ↦ thread_by_id-passes b id leads xs t (rw miss at f)
    ]

-- A saved thread is found again where the one with its id was.
thread_by_id-put_thread :
    (b id : ℕ) (leads : List Lead) (ts : List ChannelThread) (t t' : ChannelThread)
    → thread_by_id b id leads ts ≡ some t
    → (t'.id == id && in_branch b (find_lead t'.lead_id leads)) ≡ true
    → thread_by_id b id leads (put_thread t' ts) ≡ some t'
unfolding thread_by_id put_thread
thread_by_id-put_thread b id leads [] t t' f ok = absurd (ground (arith, f))
thread_by_id-put_thread b id leads (x ∷ xs) t t' f ok = elim (Bool-cases (x.id == t'.id)) [
  | inl hit ↦ rw (hit, ok) refl
  | inr away ↦
      let other : (x.id == id && in_branch b (find_lead x.lead_id leads)) ≡ false =
        ground (arith, away, ok) in
      rw (away, other) (thread_by_id-put_thread b id leads xs t t' (rw other at f) ok)
]

find_lead-id : (k : ℕ) (ls : List Lead) (l : Lead) → find_lead k ls ≡ some l → l.id ≡ k
unfolding find_lead
find_lead-id k [] l f = absurd (ground (arith, f))
find_lead-id k (x ∷ xs) l f = elim (Bool-cases (x.id == k)) [
  | inl hit ↦ ground (arith, hit, f)
  | inr miss ↦ find_lead-id k xs l (rw miss at f)
]

-- A parked lead has the id and the branch that it had.
park_dormant-lead :
    (p : Park) (l : Lead) (j : Journal)
    → (l' : Lead) × ((park_dormant p (some l) j).lead ≡ some l')
      × (l'.id ≡ l.id)
      × (l'.branch_id ≡ l.branch_id)
unfolding park_dormant
park_dormant-lead p l j =
    elim (Bool-cases (is_dormant l.stage || (p.respect_human_led && human_led l.stage))) [
      | inl stays ↦ (l, rw stays refl, refl, refl)
      | inr goes ↦ (record l { stage = dormant; agent_enabled = false }, rw goes refl, refl, refl)
    ]

parked-leads :
    (p : Park) (b id k : ℕ) (ls : List Lead) (j : Journal)
    → in_branch b (find_lead id ls) ≡ true
    → in_branch b (find_lead k (put_lead? (park_dormant p (find_lead id ls) j).lead ls))
      ≡ in_branch b (find_lead k ls)
parked-leads p b id k ls j i = elim (Option-cases (find_lead id ls)) [
  | inl lost ↦ absurd (ground (arith, lost, i))
  | inr (l, found) ↦
      let (l', parked, same_id, branch) = park_dormant-lead p l j in
      let at_id : find_lead l'.id ls ≡ some l =
        ap (λ n. find_lead n ls) (same_id ∙ find_lead-id id ls l found) ∙ found in
      rw (found, parked) (in_branch-put_lead b k l l' ls at_id branch)
]

-- The timer that a burned step leaves.
abbrev timer_of : Env → Option ℕ → Option Time
timer_of e none = none
timer_of e (some h) = some (e.now + h * hour)

abbrev next_timer : Env → ℕ → Option Time
next_timer e n = timer_of e (next_step e.cfg n)

-- The thread with one more step counted.
abbrev stepped : Env → ChannelThread → ChannelThread
stepped e t = record t {
  followups_sent = t.followups_sent + 1;
  next_followup_at = next_timer e (t.followups_sent + 1);
}

module _ (thread_id : ℕ) where
  abbrev found_thread : Env → Store → Option ChannelThread
  found_thread e s = thread_by_id e.branch_id thread_id s.leads s.threads

  burn_dry_step-stepped :
      (e : Env) (s : Store) (t : ChannelThread)
      → found_thread e s ≡ some t
      → found_thread e (burn_dry_step e s thread_id) ≡ some (stepped e t)
  unfolding burn_dry_step burn_next
  burn_dry_step-stepped e s t f =
      let ok = thread_by_id-passes e.branch_id thread_id s.leads s.threads t f in
      elim (Option-cases (next_step e.cfg (t.followups_sent + 1))) [
        | inl over ↦
            let t' = record t { followups_sent = t.followups_sent + 1; next_followup_at = none } in
            let p = dry_park e (record t { followups_sent = t.followups_sent + 1 }) in
            let is_ours : in_branch e.branch_id (find_lead t.lead_id s.leads) ≡ true =
              ground (arith, ok) in
            rw (f, over)
              (thread_by_id-leads e.branch_id thread_id s.leads
                  (put_lead? (park_dormant p (find_lead t.lead_id s.leads) s.journal).lead s.leads)
                  (put_thread t' s.threads)
                  (λ k. parked-leads p e.branch_id t.lead_id k s.leads s.journal is_ours)
                ∙ thread_by_id-put_thread e.branch_id thread_id s.leads s.threads t t' f ok)
        | inr (h, more) ↦
            rw (f, more)
              (thread_by_id-put_thread e.branch_id thread_id s.leads s.threads t
                (record t {
                  followups_sent = t.followups_sent + 1;
                  next_followup_at = some (e.now + h * hour);
                })
                f ok)
      ]

  -- One dry step after the other, each at its own time.
  unfoldable pub burns : Env → List Time → Store → Store
  burns e [] s = s
  burns e (now ∷ nows) s = burns e nows (burn_dry_step (record e { now = now }) s thread_id)

  next_timer-over : (e : Env) (n : ℕ) → length e.cfg.followup_schedule_h ≤ n → next_timer e n ≡ none
  next_timer-over e n h =
      let past = get_elem?-none e.cfg.followup_schedule_h n h in ground (arith, past)

  -- As many dry steps as the schedule has left, and at least one, end the follow-ups of a thread of
  -- the branch, whenever they come: the thread is still the branch's, it has counted them all, and
  -- its timer is off.
  pub burns_end :
      (e : Env) (s : Store) (t : ChannelThread) (now : Time) (nows : List Time)
      → found_thread e s ≡ some t
      → length e.cfg.followup_schedule_h ≤ t.followups_sent + length (now ∷ nows)
      → (t' : ChannelThread) × (found_thread e (burns e (now ∷ nows) s) ≡ some t')
        × (t'.followups_sent ≡ t.followups_sent + length (now ∷ nows))
        × (t'.next_followup_at ≡ none)
  unfolding burns
  burns_end e s t now [] f h = (
    stepped (record e { now = now }) t,
    burn_dry_step-stepped (record e { now = now }) s t f,
    refl,
    next_timer-over (record e { now = now }) (t.followups_sent + 1) h,
  )
  burns_end e s t now (later ∷ nows) f h =
      let e' = record e { now = now } in
      let (t', found, counted, off) =
        burns_end e (burn_dry_step e' s thread_id) (stepped e' t) later nows
          (burn_dry_step-stepped e' s t f) (omega (arith, h)) in
      (t', found, omega (arith, counted), off)
