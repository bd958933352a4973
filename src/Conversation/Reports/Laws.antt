-- ===== src/Conversation/Reports/Laws.antt =====
-- Delivery reports (app/modules/conversation/delivery_report.py): what one does to the queue and to
-- the counts taken from it.
use stepan.Prelude.{
  All, count_if, ◌==◌, Bool-cases, Option-cases, if_intro, ℕ, ◌≤◌, ◌<◌, String, ◌≡◌, refl, inl, inr,
  Bool, true, false, ◌&&◌, Option, none, some, List, [], ◌∷◌, arith,
}
use stepan.Conversation.Outbox.Once.{IsUnsent, put_row-IsUnsent}
use stepan.Conversation.Outbox.Queue.{count_sent_since, put_row}
use stepan.Conversation.Outbox.Row.{is_handed_over, Row}
use stepan.Conversation.Reports.{awaits, find_row, reported, settled, resolve_ref, resolve}
use stepan.Domain.Lead.{Time}
use stepan.Missions.Budget.{at_or_after, on_channel, Actions}
use stepan.Prelude.Texts.{codes, is_empty, strip}

put_row-count_le :
    (p : Row → Bool) (r : Row) (rows : List Row)
    → p r ≡ false
    → count_if p (put_row r rows) ≤ count_if p rows
unfolding put_row
put_row-count_le p r [] h = omega arith
put_row-count_le p r (x ∷ xs) h = ground (arith, put_row-count_le p r xs h)

-- A row that counted and is found, saved as one that does not.
put_row-count :
    (f p : Row → Bool) (r r' : Row) (rows : List Row)
    → find_row f rows ≡ some r
    → r'.id ≡ r.id
    → p r ≡ true
    → p r' ≡ false
    → count_if p (put_row r' rows) < count_if p rows
unfolding find_row put_row
put_row-count f p r r' [] e i h k = absurd (grind arith)
put_row-count f p r r' (x ∷ xs) e i h k =
    let le = put_row-count_le p r' xs k in
    elim (Bool-cases (f x)) [
      | inl hit ↦ let same_row : some x ≡ some r = rw hit at e in ground (arith, le, same_row)
      | inr miss ↦ let less = put_row-count f p r r' xs (rw miss at e) i h k in ground (arith, less)
    ]

find_row-true : (f : Row → Bool) (r : Row) (rows : List Row) → find_row f rows ≡ some r → f r ≡ true
unfolding find_row
find_row-true f r [] e = absurd (grind arith)
find_row-true f r (x ∷ xs) e = elim (Bool-cases (f x)) [
  | inl hit ↦ let same_row : some x ≡ some r = rw hit at e in cc (hit, same_row)
  | inr miss ↦ find_row-true f r xs (rw miss at e)
]

find_row-none : (f : Row → Bool) (rows : List Row) → count_if f rows ≤ 0 → find_row f rows ≡ none
unfolding find_row
find_row-none f [] h = refl
find_row-none f (x ∷ xs) h = ground (arith, find_row-none f xs)

awaits-reported :
    (branch_id : ℕ) (ref : List ℕ) (is_delivered : Bool) (error : Option String) (r : Row)
    → awaits branch_id ref (reported is_delivered error r) ≡ false
unfolding awaits
awaits-reported branch_id ref true error r = ground arith
awaits-reported branch_id ref false error r = ground arith

reported-id :
    (is_delivered : Bool) (error : Option String) (r : Row)
    → (reported is_delivered error r).id ≡ r.id
reported-id true error r = refl
reported-id false error r = refl

settled_again :
    (branch_id : ℕ) (ref : List ℕ) (is_delivered : Bool) (error : Option String) (rows : List Row)
    → count_if (awaits branch_id ref) rows ≤ 1
    → find_row
        (awaits branch_id ref)
        (settled is_delivered error rows (find_row (awaits branch_id ref) rows)).0
      ≡ none
settled_again branch_id ref is_delivered error rows h =
    elim (Option-cases (find_row (awaits branch_id ref) rows)) [
      | inl missing ↦ rw missing missing
      | inr (r, e) ↦
          let less =
            put_row-count (awaits branch_id ref) (awaits branch_id ref) r
              (reported is_delivered error r) rows e (reported-id is_delivered error r)
              (find_row-true _ r rows e) (awaits-reported branch_id ref is_delivered error r) in
          rw e (
            find_row-none (awaits branch_id ref) (put_row (reported is_delivered error r) rows)
              (omega (arith, less, h)))
    ]

-- Where at most one line of the branch is queued under a reference, a second report for it finds
-- nothing and changes nothing, also one that says the opposite.
pub resolve_again :
    (branch_id : ℕ) (external_ref : String) (is_delivered is_delivered' : Bool)
    (error error' : Option String) (rows : List Row)
    → count_if (awaits branch_id (strip (codes external_ref))) rows ≤ 1
    → let rows' = (resolve branch_id external_ref is_delivered error rows).0 in
      resolve branch_id external_ref is_delivered' error' rows' ≡ (rows', none)
unfolding resolve resolve_ref
resolve_again branch_id external_ref is_delivered is_delivered' error error' rows h =
    elim (Bool-cases (is_empty (strip (codes external_ref)))) [
      | inl blank ↦ rw blank refl
      | inr named ↦
          rw (named, settled_again branch_id (strip (codes external_ref)) is_delivered error rows h)
            refl
    ]

-- What a report does to the count of the hourly cap on a channel.
is_counted : Actions → (branch_id channel_id : ℕ) → Time → Row → Bool
is_counted a branch_id channel_id since r =
    r.branch_id == branch_id
    && is_handed_over r.status
    && at_or_after r.sent_at since
    && on_channel channel_id r.thread_id a.threads

-- A report that the message was not delivered takes a line that the hourly count has out of it,
-- though its time of sending stays.
pub resolve_refused_uncounted :
    (a : Actions) (branch_id channel_id : ℕ) (since : Time) (external_ref : String)
    (error : Option String) (r : Row)
    → is_empty (strip (codes external_ref)) ≡ false
    → find_row (awaits branch_id (strip (codes external_ref))) a.outbox ≡ some r
    → at_or_after r.sent_at since ≡ true
    → on_channel channel_id r.thread_id a.threads ≡ true
    → let (rows', row) = resolve branch_id external_ref false error a.outbox in
      (row ≡ some (reported false error r))
      × ((reported false error r).sent_at ≡ r.sent_at)
      × (count_sent_since (record a { outbox = rows' }) branch_id channel_id since
          < count_sent_since a branch_id channel_id since)
unfolding resolve resolve_ref count_sent_since
resolve_refused_uncounted a branch_id channel_id since external_ref error r named e t c =
    let found = find_row-true _ r a.outbox e in
    let held : is_counted a branch_id channel_id since r ≡ true =
      unfold is_counted in unfold awaits in ground (arith, found, t, c) in
    let gone : is_counted a branch_id channel_id since (reported false error r) ≡ false =
      unfold is_counted in ground arith in
    rw (named, e)
      (
        refl,
        refl,
        unfold is_counted in
            put_row-count _ (is_counted a branch_id channel_id since) r (reported false error r)
              a.outbox e refl held gone,
      )

settled-IsUnsent :
    (wire : List ℕ) (is_delivered : Bool) (error : Option String) (rows : List Row) (r : Option Row)
    → All (IsUnsent wire) rows
    → All (IsUnsent wire) (settled is_delivered error rows r).0
settled-IsUnsent wire is_delivered error rows none h = h
settled-IsUnsent wire true error rows (some r) h =
    put_row-IsUnsent wire _ rows (λ p. absurd (cc p)) h
settled-IsUnsent wire false error rows (some r) h =
    put_row-IsUnsent wire _ rows (λ p. absurd (cc p)) h

-- A report makes no line pending that the channel already has.
pub resolve-IsUnsent :
    (wire : List ℕ) (branch_id : ℕ) (external_ref : String) (is_delivered : Bool)
    (error : Option String) (rows : List Row)
    → All (IsUnsent wire) rows
    → All (IsUnsent wire) (resolve branch_id external_ref is_delivered error rows).0
unfolding resolve resolve_ref
resolve-IsUnsent wire branch_id external_ref is_delivered error rows h =
    if_intro (λ (p : List Row × Option Row). All (IsUnsent wire) p.0)
      (is_empty (strip (codes external_ref))) (λ _. h)
      (λ _. settled-IsUnsent wire is_delivered error rows _ h)
