-- ===== src/Tests/Domain.antt =====
-- Stages, the clock and the account's budget at concrete values.
use stepan.Prelude.{ℕ, ◌+◌, ◌*◌, ◌/◌, ◌≡◌, refl, some, [], ◌∷◌}
use stepan.Missions.Budget.{Spend, share_of, Actions}
use stepan.Conversation.Outbox.Row
use stepan.Tests.Samples.{noon, line, thread_of}

abbrev a_tenth : ℕ → ℕ
a_tenth n = n * 10 / 100

abbrev three_quarters : ℕ → ℕ
three_quarters n = n * 75 / 100

abbrev nearly_spent : Spend
nearly_spent = record { used = 9; cap = 10 }

-- One action is left, and two missions are given one each: together they pass the cap.
overcommitted : share_of a_tenth nearly_spent + share_of three_quarters nearly_spent ≡ 2
unfolding share_of
overcommitted = refl

abbrev all_queued : Actions
all_queued = record {
  threads = thread_of 20 7 ∷ [];
  outbox = record (line 1 Row.agent) { status = Row.queued; sent_at = some noon } ∷ [];
  post_comments = [];
  outbound_comments = [];
}
