-- ===== src/Conversation/Reactivation.antt =====
-- app/modules/conversation/reactivation.py: what one touch (_reactivate) does to a lead that has gone quiet.
-- The model's answer is given; the lines it queues are not modelled, they go the way of those of the
-- harvest.
use stepan.Prelude.{ℕ, Bool, true, false, some, [], ◌∷◌, ◌++◌}
use stepan.Domain.Lead.{Time, Lead, StageEvent, Journal}
use stepan.Domain.Stage.{Stage, value, nurturing}

-- How a touch ends, in the order of the code's returns.
pub data Touch : Type 0 where
  unprepared refused undecided unfit needs_human touched : Touch

abbrev pub is_touched : Touch → Bool
is_touched touched = true
is_touched _ = false

abbrev pub touch_event : (branch_id thread_id : ℕ) → (now : Time) → Lead → (to : Stage) → StageEvent
touch_event branch_id thread_id now l to = record {
  branch_id = branch_id;
  lead_id = l.id;
  thread_id = some thread_id;
  from_stage = value l.stage;
  to_stage = value to;
  actor = "system";
  reason = "reactivation";
  created_at = now;
}

-- `_suppress`
unfoldable pub suppress : (branch_id thread_id : ℕ) → (now : Time) → Lead → Journal → Lead × Journal
suppress branch_id thread_id now l j =
    (l, j ++ (touch_event branch_id thread_id now l l.stage ∷ []))

-- The lead is woken, whoever switched its bot off.
unfoldable pub wake : (branch_id thread_id : ℕ) → (now : Time) → Lead → Journal → Lead × Journal
wake branch_id thread_id now l j = (
  record l { stage = nurturing; agent_enabled = true },
  j ++ (touch_event branch_id thread_id now l nurturing ∷ []),
)

-- `_reactivate`, on the lead and its journal.
unfoldable pub reactivate :
    (branch_id thread_id : ℕ) → (now : Time) → Touch → Lead → Journal → Lead × Journal
reactivate branch_id thread_id now unprepared l j = (l, j)
reactivate branch_id thread_id now refused l j = suppress branch_id thread_id now l j
reactivate branch_id thread_id now undecided l j = (l, j)
reactivate branch_id thread_id now unfit l j = suppress branch_id thread_id now l j
reactivate branch_id thread_id now needs_human l j = suppress branch_id thread_id now l j
reactivate branch_id thread_id now touched l j = wake branch_id thread_id now l j
