-- ===== src/Tests/Deletions.antt =====
-- Deletions at a small chat.
use stepan.Prelude.{
  length, All, count_if, if◌then◌else◌, str_eq, ℕ, ◌-◌, ◌*◌, String, ◌≡◌, refl, true, false, ◌&&◌,
  some, [], ◌∷◌, map, arith,
}
use stepan.Conversation.Deletions.{
  Chat, Answer, awaits_revoke, delete_local, Progress, process, accepted, timed_out,
}
use stepan.Conversation.Deletions.Exact.{is_broken, is_unsent, turn_if_awaiting, process_exact}
use stepan.Conversation.Deletions.Marks.{Marked, Hidden, delete_local_marks}
use stepan.Conversation.Deletions.Order.{DistinctIds}
use stepan.Domain.Lead.{Time}
use stepan.Domain.Message.{MessageRow, inward, outward}
use stepan.Tests.Samples.{thread_of, noon, message_at}

abbrev to_delete : ℕ → String → Time → MessageRow
to_delete id ext at = record (message_at id outward at) {
  external_id = ext;
  delete_requested = true;
}

-- One message is too old, the platform takes one back and refuses one.
abbrev chat : Chat
chat = record {
  messages =
      to_delete 1 "old" (noon - 7 * 3600000000)
      ∷ to_delete 2 "gone" noon
      ∷ to_delete 3 "kept" noon
      ∷ message_at 4 outward (noon - 9)
      ∷ message_at 5 inward (noon - 8)
      ∷ [];
  threads = record (thread_of 20 7) { last_out_at = some noon; last_in_at = some (noon - 8) } ∷ [];
}

abbrev revoke : String → String → Answer
revoke thread id = if str_eq id "gone" then accepted else timed_out

no_break : (id : String) → is_broken (revoke "t" id) ≡ false
no_break id = ground arith

distinct : DistinctIds chat.messages
distinct = (
  (refl, (refl, (refl, (refl, tt)))),
  ((refl, (refl, (refl, tt))), ((refl, (refl, tt)), ((refl, tt), (tt, tt)))),
)

abbrev spec : MessageRow → MessageRow
spec = turn_if_awaiting noon "t" revoke 1 5

process_exact_example :
    (p : Progress) × (process noon "t" revoke 1 5 chat ≡ some p)
    × (p.chat.messages ≡ map spec chat.messages)
    × (p.done ≡ count_if (λ m. awaits_revoke 1 5 m && is_unsent noon "t" revoke m) chat.messages)
process_exact_example = process_exact noon "t" revoke 1 5 chat no_break distinct

delete_local_marks_example :
    let after = delete_local noon (to_delete 2 "gone" noon) chat in
    (length after.messages ≡ 5)
    × All (Hidden 2) after.messages
    × All (Marked 20 after.messages) after.threads
delete_local_marks_example = delete_local_marks noon (to_delete 2 "gone" noon) chat
