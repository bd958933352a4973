-- ===== src/Conversation/Reports.antt =====
-- app/modules/conversation/delivery_report.py: what a transport says later became of a queued line.
pub mod Laws
use stepan.Prelude.{
  ltb, ◌==◌, if◌then◌else◌, or_text, ℕ, ◌-◌, ◌*◌, String, Bool, true, false, ◌&&◌, Option, none,
  some, List, [], ◌∷◌,
}
use stepan.Conversation.Outbox.Queue.{put_row}
use stepan.Conversation.Outbox.Row.{Status, Row, sent, queued, failed}
use stepan.Domain.Lead.{Time}
use stepan.Prelude.Texts.{codes, same, is_empty, strip}

-- `status == QUEUED`
abbrev pub is_queued : Status → Bool
is_queued queued = true
is_queued _ = false

-- `external_ref == ref`: NULL equals no text.
abbrev has_ref : List ℕ → Option String → Bool
has_ref ref none = false
has_ref ref (some r) = same (codes r) ref

-- The WHERE of `resolve`.
unfoldable pub awaits : (branch_id : ℕ) → List ℕ → Row → Bool
awaits branch_id ref r =
    r.branch_id == branch_id && has_ref ref r.external_ref && is_queued r.status

-- `.scalars().first()`
unfoldable pub find_row : (Row → Bool) → List Row → Option Row
find_row p [] = none
find_row p (r ∷ rs) = if p r then some r else find_row p rs

-- The outcome on the row; `sent_at` stays.
abbrev pub reported : (is_delivered : Bool) → Option String → Row → Row
reported true error r = record r { status = sent; error = none }
reported false error r = record r {
  status = failed;
  error = some (or_text error "delivery failed");
}

abbrev pub settled :
    (is_delivered : Bool) → Option String → List Row → Option Row → List Row × Option Row
settled is_delivered error rows none = (rows, none)
settled is_delivered error rows (some r) =
    let r' = reported is_delivered error r in (put_row r' rows, some r')

-- `resolve`, with the reference stripped before.
unfoldable pub resolve_ref :
    (branch_id : ℕ)
    → List ℕ
    → (is_delivered : Bool) → Option String
    → List Row
    → List Row × Option Row
resolve_ref branch_id ref is_delivered error rows =
    if is_empty ref
    then (rows, none)
    else settled is_delivered error rows (find_row (awaits branch_id ref) rows)

-- `resolve`
unfoldable pub resolve :
    (branch_id : ℕ)
    → String
    → (is_delivered : Bool) → Option String
    → List Row
    → List Row × Option Row
resolve branch_id external_ref is_delivered error rows =
    resolve_ref branch_id (strip (codes external_ref)) is_delivered error rows

-- `sent_at < cutoff`: NULL is not.
abbrev is_before : Option Time → Time → Bool
is_before none cutoff = false
is_before (some t) cutoff = ltb t cutoff

abbrev minute : Time
minute = 60000000

-- `stale_queued`
unfoldable pub stale_queued :
    (branch_id : ℕ) → (now : Time) → (older_than_min : ℕ) → List Row → List Row
stale_queued branch_id now older_than_min [] = []
stale_queued branch_id now older_than_min (r ∷ rs) =
    let rest = stale_queued branch_id now older_than_min rs in
    if r.branch_id == branch_id
      && is_queued r.status
      && is_before r.sent_at (now - older_than_min * minute)
    then r ∷ rest
    else rest
