-- ===== src/Conversation/Outbox/Queue.antt =====
-- app/modules/conversation/repository.py (OutboxRepo): the queue of one branch.
use stepan.Prelude.{
  ℕ, ◌<◌, ◌≤◌, ◌⊎◌, ◌≡◌, refl, Bool, true, false, ◌&&◌, Option, none, some, List, [], ◌∷◌, arith,
  ltb, ◌==◌, if◌then◌else◌, All, count_if, All-map, count_if-none, count_if-All, length,
}
use mathlib.Core.List.{Memᴰ}
use stepan.Domain.Lead.{Time}
use stepan.Missions.Budget.{Actions, on_channel, at_or_after, sent_lines}
use stepan.Conversation.Outbox.Row.{
  Row, queued, Source, manager, agent, followup, other, is_pending, is_handed_over,
}

-- The CASE of oldest_pending.
abbrev pub priority : Source → ℕ
priority manager = 0
priority agent = 1
priority followup = 2
priority (other _) = 3

-- ORDER BY priority, scheduled_at, id
unfoldable pub before : Row → Row → Bool
before a b =
    if priority a.source == priority b.source
    then (if a.scheduled_at == b.scheduled_at
        then ltb a.id b.id
        else ltb a.scheduled_at b.scheduled_at)
    else ltb (priority a.source) (priority b.source)

unfoldable pub is_due_line : (branch_id thread_id : ℕ) → Row → Bool
is_due_line branch_id thread_id r =
    r.branch_id == branch_id && r.thread_id == thread_id && is_pending r.status

abbrev pub first_of_two : Row → Option Row → Row
first_of_two r none = r
first_of_two r (some b) = if before b r then b else r

-- `oldest_pending`
unfoldable pub oldest_pending : (branch_id thread_id : ℕ) → List Row → Option Row
unfolding is_due_line before
oldest_pending branch_id thread_id [] = none
oldest_pending branch_id thread_id (r ∷ rs) =
    let rest = oldest_pending branch_id thread_id rs in
    if is_due_line branch_id thread_id r then some (first_of_two r rest) else rest

-- `count_sent_since` of a channel.
unfoldable pub count_sent_since : Actions → (branch_id channel_id : ℕ) → Time → ℕ
unfolding on_channel
count_sent_since a branch_id channel_id since =
    count_if
      (λ r.
        r.branch_id == branch_id
        && is_handed_over r.status
        && at_or_after r.sent_at since
        && on_channel channel_id r.thread_id a.threads)
      a.outbox

-- `session.add` of a changed row: it takes the place of the row with its id.
unfoldable pub put_row : Row → List Row → List Row
put_row r [] = []
put_row r (x ∷ xs) = (if x.id == r.id then r else x) ∷ put_row r xs

before_irrefl : (a : Row) → before a a ≡ false
unfolding before
before_irrefl a = ground arith

before_asym : (a b : Row) → before a b ≡ true → before b a ≡ false
unfolding before
before_asym a b h = ground arith

before_weak : (a b c : Row) → before a b ≡ false → before b c ≡ false → before a c ≡ false
unfolding before
before_weak a b c h k = ground arith

-- The fold's own account of its answer.
abbrev IsFirst : (branch_id thread_id : ℕ) → Option Row → List Row → Type 0
IsFirst branch_id thread_id none rows = All (λ r. is_due_line branch_id thread_id r ≡ false) rows
IsFirst branch_id thread_id (some best) rows =
    (is_due_line branch_id thread_id best ≡ true)
    × Memᴰ best rows
    × All (λ r. is_due_line branch_id thread_id r ≡ true → before r best ≡ false) rows

abbrev NoneFirst : (branch_id thread_id : ℕ) → Row → List Row → Type 0
NoneFirst branch_id thread_id best rows =
    All (λ r. is_due_line branch_id thread_id r ≡ true → before r best ≡ false) rows

NoneFirst-of_none :
    (branch_id thread_id : ℕ) (best : Row) (rows : List Row)
    → All (λ r. is_due_line branch_id thread_id r ≡ false) rows
    → NoneFirst branch_id thread_id best rows
NoneFirst-of_none branch_id thread_id best [] h = tt
NoneFirst-of_none branch_id thread_id best (r ∷ rs) (h, hs) =
    ((λ due. cc), NoneFirst-of_none branch_id thread_id best rs hs)

NoneFirst-of_weak :
    (branch_id thread_id : ℕ) (b best : Row) (rows : List Row)
    → before b best ≡ false
    → NoneFirst branch_id thread_id b rows
    → NoneFirst branch_id thread_id best rows
NoneFirst-of_weak branch_id thread_id b best [] h f = tt
NoneFirst-of_weak branch_id thread_id b best (r ∷ rs) h (f, fs) =
    ((λ due. before_weak r b best (f due) h), NoneFirst-of_weak branch_id thread_id b best rs h fs)

IsFirst-cons_none :
    (branch_id thread_id : ℕ) (r : Row) (rs : List Row) (due : Bool)
    → is_due_line branch_id thread_id r ≡ due
    → IsFirst branch_id thread_id none rs
    → IsFirst branch_id thread_id (if due then some r else none) (r ∷ rs)
IsFirst-cons_none branch_id thread_id r rs true e h =
    (e, Memᴰ.head refl, ((λ _. before_irrefl r), NoneFirst-of_none branch_id thread_id r rs h))
IsFirst-cons_none branch_id thread_id r rs false e h = (e, h)

IsFirst-cons_some :
    (branch_id thread_id : ℕ) (r : Row) (rs : List Row) (b : Row) (due earlier : Bool)
    → is_due_line branch_id thread_id r ≡ due
    → before b r ≡ earlier
    → IsFirst branch_id thread_id (some b) rs
    → IsFirst branch_id thread_id (if due then some (if earlier then b else r) else some b) (r ∷ rs)
IsFirst-cons_some branch_id thread_id r rs b true true e f (due_b, in_b, first_b) =
    (due_b, Memᴰ.tail in_b, ((λ _. before_asym b r f), first_b))
IsFirst-cons_some branch_id thread_id r rs b true false e f (due_b, in_b, first_b) = (
  e,
  Memᴰ.head refl,
  ((λ _. before_irrefl r), NoneFirst-of_weak branch_id thread_id b r rs f first_b),
)
IsFirst-cons_some branch_id thread_id r rs b false earlier e f (due_b, in_b, first_b) =
    (due_b, Memᴰ.tail in_b, ((λ due. cc), first_b))

IsFirst-cons :
    (branch_id thread_id : ℕ) (r : Row) (rs : List Row) (rest : Option Row)
    → IsFirst branch_id thread_id rest rs
    → IsFirst branch_id thread_id
        (if is_due_line branch_id thread_id r then some (first_of_two r rest) else rest)
        (r ∷ rs)
IsFirst-cons branch_id thread_id r rs none h = IsFirst-cons_none branch_id thread_id r rs _ refl h
IsFirst-cons branch_id thread_id r rs (some b) h =
    IsFirst-cons_some branch_id thread_id r rs b _ _ refl refl h

oldest_pending-IsFirst :
    (branch_id thread_id : ℕ) (rows : List Row)
    → IsFirst branch_id thread_id (oldest_pending branch_id thread_id rows) rows
unfolding oldest_pending
oldest_pending-IsFirst branch_id thread_id [] = tt
oldest_pending-IsFirst branch_id thread_id (r ∷ rs) =
    IsFirst-cons branch_id thread_id r rs (oldest_pending branch_id thread_id rs)
      (oldest_pending-IsFirst branch_id thread_id rs)

-- The line is no later in the queue than another: a smaller priority, or the same and an earlier
-- time, or the same of both and an id that is not greater.
abbrev pub Precedes : Row → Row → Type 0
Precedes a b =
    (priority a.source < priority b.source)
    ⊎ ((priority a.source ≡ priority b.source)
        × ((a.scheduled_at < b.scheduled_at) ⊎ (a.scheduled_at ≡ b.scheduled_at) × (a.id ≤ b.id)))

-- What the query promises of its answer on these rows.
abbrev pub IsOldest : (branch_id thread_id : ℕ) → Option Row → List Row → Type 0
IsOldest branch_id thread_id none rows = All (λ r. is_due_line branch_id thread_id r ≡ false) rows
IsOldest branch_id thread_id (some best) rows =
    (is_due_line branch_id thread_id best ≡ true)
    × Memᴰ best rows
    × All (λ r. is_due_line branch_id thread_id r ≡ true → Precedes best r) rows

Precedes-of_before : (a b : Row) → before b a ≡ false → Precedes a b
unfolding before
Precedes-of_before a b h = ground arith

IsOldest-of_first :
    (branch_id thread_id : ℕ) (best : Option Row) (rows : List Row)
    → IsFirst branch_id thread_id best rows
    → IsOldest branch_id thread_id best rows
IsOldest-of_first branch_id thread_id none rows h = h
IsOldest-of_first branch_id thread_id (some best) rows (due, in_rows, first) =
    (due, in_rows, All-map _ _ rows (λ r f is_due. Precedes-of_before best r (f is_due)) first)

-- The next line of a thread is one of its pending lines, and precedes all of them by source
-- priority, then time, then id; there is no next line exactly where none is pending.
pub oldest_pending-IsOldest :
    (branch_id thread_id : ℕ) (rows : List Row)
    → IsOldest branch_id thread_id (oldest_pending branch_id thread_id rows) rows
oldest_pending-IsOldest branch_id thread_id rows =
    IsOldest-of_first branch_id thread_id _ rows (oldest_pending-IsFirst branch_id thread_id rows)

-- A line that a transport has queued and not yet confirmed, inside the window.
pub record IsQueuedLine (a : Actions) (branch_id channel_id : ℕ) (since : Time) (r : Row)
    : Type 0 where
  pub status : r.status ≡ queued
  pub branch : (r.branch_id == branch_id) ≡ true
  pub channel : on_channel channel_id r.thread_id a.threads ≡ true
  pub recent : at_or_after r.sent_at since ≡ true

-- Where every line of the window is queued at a transport that has not yet confirmed it, the
-- queue's own count has all of them and the account's spend none.
pub sent_lines-count_sent_since :
    (a : Actions) (branch_id channel_id : ℕ) (since : Time)
    → All (IsQueuedLine a branch_id channel_id since) a.outbox
    → (sent_lines a channel_id since ≡ 0)
      × (count_sent_since a branch_id channel_id since ≡ length a.outbox)
unfolding sent_lines count_sent_since
sent_lines-count_sent_since a branch_id channel_id since h = (
  count_if-none _ a.outbox (All-map _ _ a.outbox (λ r q. let e = q.status in ground arith) h),
  count_if-All _ a.outbox (
      All-map _ _ a.outbox
        (λ r q.
          let e = q.status in
          let b = q.branch in let c = q.channel in let t = q.recent in ground arith)
        h),
)
