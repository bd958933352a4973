-- ===== src/Tests/Reports.antt =====
-- Delivery reports at a small queue.
use stepan.Conversation.Outbox.Row
use stepan.Prelude.{ℕ, ◌+◌, ◌<◌, String, ◌≡◌, refl, true, false, none, some, List, [], ◌∷◌}
use stepan.Conversation.Outbox.Queue.{count_sent_since, put_row}
use stepan.Conversation.Outbox.Row.{Row, sent, queued}
use stepan.Conversation.Reports.{awaits, find_row, reported, resolve_ref, resolve, stale_queued}
use stepan.Conversation.Reports.Laws.{resolve_refused_uncounted}
use stepan.Missions.Budget.{on_channel, Actions}
use stepan.Prelude.Texts.{is_space, lstrip, rstrip, strip}
use stepan.Tests.Samples.{thread_of, noon, line}

abbrev handed : ℕ → String → Row
handed id ref = record (line id Row.agent) {
  status = queued;
  external_ref = some ref;
  sent_at = some noon;
}

abbrev rows : List Row
rows = handed 1 "m1" ∷ handed 2 "m2" ∷ line 3 Row.followup ∷ []

delivered_m2 : resolve 1 " m2 " true none rows ≡ (
  handed 1 "m1" ∷ record (handed 2 "m2") { status = sent } ∷ line 3 Row.followup ∷ [],
  some (record (handed 2 "m2") { status = sent }),
)
unfolding resolve resolve_ref strip lstrip rstrip is_space find_row awaits put_row
delivered_m2 = refl

other_branch : resolve 2 "m2" true none rows ≡ (rows, none)
unfolding resolve resolve_ref strip lstrip rstrip is_space find_row awaits
other_branch = refl

stale : stale_queued 1 (noon + 600000001) 10 rows ≡ handed 1 "m1" ∷ handed 2 "m2" ∷ []
unfolding stale_queued
stale = refl

abbrev actions : Actions
actions = record {
  threads = thread_of 20 7 ∷ [];
  outbox = rows;
  post_comments = [];
  outbound_comments = [];
}

resolve_refused_uncounted_example :
    let (rows', row) = resolve 1 "m1" false none rows in
    (row ≡ some (reported false none (handed 1 "m1")))
    × ((reported false none (handed 1 "m1")).sent_at ≡ some noon)
    × (count_sent_since (record actions { outbox = rows' }) 1 5 noon
        < count_sent_since actions 1 5 noon)
unfolding strip lstrip rstrip is_space awaits find_row on_channel
resolve_refused_uncounted_example =
    resolve_refused_uncounted actions 1 5 noon "m1" none (handed 1 "m1") refl refl refl refl
