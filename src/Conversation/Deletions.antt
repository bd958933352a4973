-- ===== src/Conversation/Deletions.antt =====
-- app/modules/conversation/deletions.py (DeletionService) and the worker's call of it for one thread
-- (app/worker/main.py, _process_one_deletion): unsending messages that a manager took back.
pub mod Order
pub mod Exact
pub mod Marks
use stepan.Prelude.{
  ltb, leb, ◌==◌, if◌then◌else◌, is_none, ℕ, ◌+◌, ◌-◌, ◌*◌, max, String, Bool, true, false, ◌&&◌,
  Option, none, some, List, [], ◌∷◌, map, ◌>>=◌,
}
use stepan.Domain.Lead.{Time}
use stepan.Domain.Message.{Direction, is_out, MessageRow, inward, outward}
use stepan.Domain.Thread.{ChannelThread}

-- The two tables that a deletion writes.
pub record Chat : Type 0 where
  pub messages : List MessageRow
  pub threads : List ChannelThread

-- What a revoke comes to: true, false, the timeout, or another exception.
pub data Answer : Type 0 where
  accepted declined timed_out broken : Answer

-- The WHERE of `pending`.
unfoldable pub awaits_revoke : (branch_id channel_id : ℕ) → MessageRow → Bool
awaits_revoke branch_id channel_id m =
    m.branch_id == branch_id
    && m.channel_id == channel_id
    && m.delete_requested
    && is_out m.direction

unfoldable pub awaiting : (branch_id channel_id : ℕ) → List MessageRow → List MessageRow
awaiting branch_id channel_id [] = []
awaiting branch_id channel_id (m ∷ ms) =
    let rest = awaiting branch_id channel_id ms in
    if awaits_revoke branch_id channel_id m then m ∷ rest else rest

-- ORDER BY occurred_at; equal times keep the order of the table.
unfoldable pub insert_by_time : MessageRow → List MessageRow → List MessageRow
insert_by_time m [] = m ∷ []
insert_by_time m (x ∷ xs) =
    let rest = insert_by_time m xs in
    if leb m.occurred_at x.occurred_at then m ∷ x ∷ xs else x ∷ rest

unfoldable pub sort_by_time : List MessageRow → List MessageRow
unfolding insert_by_time
sort_by_time [] = []
sort_by_time (m ∷ ms) = insert_by_time m (sort_by_time ms)

-- `pending` without a limit, as `process` calls it.
unfoldable pub pending_deletions : (branch_id channel_id : ℕ) → List MessageRow → List MessageRow
unfolding sort_by_time awaiting
pending_deletions branch_id channel_id messages =
    sort_by_time (awaiting branch_id channel_id messages)

-- _MAX_REVOKE_AGE
abbrev pub max_revoke_age : Time
max_revoke_age = 6 * 3600000000

abbrev pub is_too_old : (now : Time) → MessageRow → Bool
is_too_old now m = ltb m.occurred_at (now - max_revoke_age)

-- `msg.column = ...; session.add(msg)`: the columns of the row with this id.
unfoldable pub set_message :
    (id : ℕ) → (MessageRow → MessageRow) → List MessageRow → List MessageRow
set_message id g = map (λ m. if m.id == id then g m else m)

-- `msg.delete_requested = False`
abbrev pub clear_flag : MessageRow → MessageRow
clear_flag m = record m { delete_requested = false }

abbrev pub tombstone : (now : Time) → MessageRow → MessageRow
tombstone now m = record m { revoked_at = some now; delete_requested = false }

abbrev same_direction : Direction → Direction → Bool
same_direction inward inward = true
same_direction outward outward = true
same_direction _ _ = false

-- The WHERE of the two MAX queries.
unfoldable pub is_shown : (thread_id : ℕ) → Direction → MessageRow → Bool
is_shown thread_id d m =
    m.thread_id == thread_id && same_direction m.direction d && is_none m.revoked_at

abbrev pub later : Time → Option Time → Time
later t none = t
later t (some u) = max t u

-- SELECT MAX(occurred_at)
unfoldable pub newest : (thread_id : ℕ) → Direction → List MessageRow → Option Time
unfolding is_shown
newest thread_id d [] = none
newest thread_id d (m ∷ ms) =
    let rest = newest thread_id d ms in
    if is_shown thread_id d m then some (later m.occurred_at rest) else rest

-- The two watermarks of the thread with this id.
unfoldable pub set_marks :
    (thread_id : ℕ) → Option Time → Option Time → List ChannelThread → List ChannelThread
set_marks thread_id newest_in newest_out [] = []
set_marks thread_id newest_in newest_out (t ∷ ts) =
    (if t.id == thread_id then record t { last_in_at = newest_in; last_out_at = newest_out } else t)
    ∷ set_marks thread_id newest_in newest_out ts

-- `_delete_local`
unfoldable pub delete_local : (now : Time) → MessageRow → Chat → Chat
unfolding set_message newest set_marks
delete_local now m chat =
    let messages = set_message m.id (tombstone now) chat.messages in
    record {
      messages = messages;
      threads =
          set_marks m.thread_id (newest m.thread_id inward messages)
            (newest m.thread_id outward messages) chat.threads;
    }

-- The loop of `process`: the tables and `done`, or an exception that escapes it.
pub record Progress : Type 0 where
  pub chat : Chat
  pub done : ℕ

module _ (now : Time) (external_thread_id : String) (revoke : String → String → Answer) where
  unfoldable pub answered : MessageRow → Answer → Progress → Option Progress
  unfolding delete_local
  answered m accepted p = some (record { chat = delete_local now m p.chat; done = p.done + 1 })
  answered m declined p = some p
  answered m timed_out p = some p
  answered m broken p = none

  unfoldable pub give_up : MessageRow → Progress → Progress
  unfolding set_message
  give_up m p = record p {
    chat = record p.chat { messages = set_message m.id clear_flag p.chat.messages };
  }

  unfoldable pub process_one : MessageRow → Progress → Option Progress
  unfolding answered give_up
  process_one m p =
      if is_too_old now m
      then some (give_up m p)
      else answered m (revoke external_thread_id m.external_id) p

  unfoldable pub process_each : List MessageRow → Progress → Option Progress
  process_each [] p = some p
  process_each (m ∷ ms) p = do q ← process_one m p; process_each ms q

  -- `process`
  unfoldable pub process : (branch_id channel_id : ℕ) → Chat → Option Progress
  unfolding process_each pending_deletions
  process branch_id channel_id chat =
      process_each (pending_deletions branch_id channel_id chat.messages)
        (record { chat = chat; done = 0 })

-- The transaction of one thread: an exception rolls the tables back and counts nothing.
unfoldable pub process_one_deletion : Chat → Option Progress → Chat × ℕ
process_one_deletion chat none = (chat, 0)
process_one_deletion chat (some p) = (p.chat, p.done)
