-- ===== src/Conversation/Deletions/Marks.antt =====
-- The watermarks that DeletionService._delete_local (app/modules/conversation/deletions.py) leaves on
-- the thread.
use stepan.Prelude.{
  length, All, All-map, leb, ◌==◌, leb→le, Bool-cases, is_some, if_intro, ℕ, ◌≤◌, ◌<◌, max, ◌≡◌,
  refl, inl, inr, true, false, Option, none, some, List, [], ◌∷◌, arith,
}
use mathlib.Core.List.{Memᴰ}
use stepan.Conversation.Deletions.{
  Chat, set_message, tombstone, is_shown, later, newest, set_marks, delete_local,
}
use stepan.Domain.Lead.{Time}
use stepan.Domain.Message.{Direction, MessageRow, inward, outward}
use stepan.Domain.Thread.{ChannelThread}

-- The moment of a message that is still shown, and no shown message is later.
abbrev pub IsNewest : (thread_id : ℕ) → Direction → Option Time → List MessageRow → Type 0
IsNewest thread_id d none ms = All (λ m. is_shown thread_id d m ≡ false) ms
IsNewest thread_id d (some u) ms =
    ((m : MessageRow) × Memᴰ m ms × (is_shown thread_id d m ≡ true) × (m.occurred_at ≡ u))
    × All (λ m. is_shown thread_id d m ≡ true → m.occurred_at ≤ u) ms

All-at_most :
    (thread_id : ℕ) (d : Direction) (u v : Time) (ms : List MessageRow)
    → u ≤ v
    → All (λ m. is_shown thread_id d m ≡ true → m.occurred_at ≤ u) ms
    → All (λ m. is_shown thread_id d m ≡ true → m.occurred_at ≤ v) ms
All-at_most thread_id d u v ms le h =
    All-map _ _ ms (λ m f shown. let below = f shown in omega (arith, le, below)) h

IsNewest-cons :
    (thread_id : ℕ) (d : Direction) (m : MessageRow) (ms : List MessageRow) (rest : Option Time)
    → is_shown thread_id d m ≡ true
    → IsNewest thread_id d rest ms
    → IsNewest thread_id d (some (later m.occurred_at rest)) (m ∷ ms)
IsNewest-cons thread_id d m ms none shown h = (
  (m, Memᴰ.head refl, shown, refl),
  ((λ _. omega arith), All-map _ _ ms (λ x hidden is_there. absurd (cc (hidden, is_there))) h),
)
IsNewest-cons thread_id d m ms (some u) shown ((x, x_in, x_shown, x_at), below) =
    let bounds = All-at_most thread_id d u (max m.occurred_at u) ms (omega arith) below in
    elim (Bool-cases (leb m.occurred_at u)) [
      | inl older ↦
          let le = leb→le m.occurred_at u older in
          ((x, Memᴰ.tail x_in, x_shown, omega (arith, le, x_at)), ((λ _. omega arith), bounds))
      | inr newer ↦
          let gt : u < m.occurred_at = ground (arith, newer) in
          ((m, Memᴰ.head refl, shown, omega (arith, gt)), ((λ _. omega arith), bounds))
    ]

IsNewest-skip :
    (thread_id : ℕ) (d : Direction) (m : MessageRow) (ms : List MessageRow) (rest : Option Time)
    → is_shown thread_id d m ≡ false
    → IsNewest thread_id d rest ms
    → IsNewest thread_id d rest (m ∷ ms)
IsNewest-skip thread_id d m ms none hidden h = (hidden, h)
IsNewest-skip thread_id d m ms (some u) hidden ((x, x_in, x_shown, x_at), below) =
    ((x, Memᴰ.tail x_in, x_shown, x_at), ((λ shown. absurd (cc (hidden, shown))), below))

newest-IsNewest :
    (thread_id : ℕ) (d : Direction) (ms : List MessageRow)
    → IsNewest thread_id d (newest thread_id d ms) ms
unfolding newest
newest-IsNewest thread_id d [] = tt
newest-IsNewest thread_id d (m ∷ ms) = elim (Bool-cases (is_shown thread_id d m)) [
  | inl shown ↦ rw shown (
      IsNewest-cons thread_id d m ms (newest thread_id d ms) shown (newest-IsNewest thread_id d ms))
  | inr hidden ↦ rw hidden (
      IsNewest-skip thread_id d m ms (newest thread_id d ms) hidden
        (newest-IsNewest thread_id d ms))
]

length-set_message :
    (id : ℕ) (g : MessageRow → MessageRow) (ms : List MessageRow)
    → length (set_message id g ms) ≡ length ms
unfolding set_message
length-set_message id g [] = refl
length-set_message id g (m ∷ ms) = omega (arith, length-set_message id g ms)

abbrev pub Marked : (thread_id : ℕ) → List MessageRow → ChannelThread → Type 0
Marked thread_id ms t =
    t.id ≡ thread_id
    → IsNewest thread_id inward t.last_in_at ms × IsNewest thread_id outward t.last_out_at ms

set_marks-Marked :
    (thread_id : ℕ) (ms : List MessageRow) (newest_in newest_out : Option Time)
    (ts : List ChannelThread)
    → IsNewest thread_id inward newest_in ms
    → IsNewest thread_id outward newest_out ms
    → All (Marked thread_id ms) (set_marks thread_id newest_in newest_out ts)
unfolding set_marks
set_marks-Marked thread_id ms newest_in newest_out [] i o = tt
set_marks-Marked thread_id ms newest_in newest_out (t ∷ ts) i o = (
  if_intro (λ (x : ChannelThread). Marked thread_id ms x) (t.id == thread_id) (λ _. λ _. (i, o))
      (λ other_id. λ e. absurd (ground (arith, other_id, e))),
  set_marks-Marked thread_id ms newest_in newest_out ts i o,
)

abbrev pub Hidden : (id : ℕ) → MessageRow → Type 0
Hidden id x = x.id ≡ id → is_some x.revoked_at ≡ true

set_message-Hidden :
    (now : Time) (id : ℕ) (ms : List MessageRow)
    → All (Hidden id) (set_message id (tombstone now) ms)
unfolding set_message
set_message-Hidden now id [] = tt
set_message-Hidden now id (x ∷ xs) = (
  if_intro (λ (y : MessageRow). Hidden id y) (x.id == id) (λ _. λ _. refl)
      (λ other_id. λ e. absurd (ground (arith, other_id, e))),
  set_message-Hidden now id xs,
)

-- Once the platform has taken a message back, its row stays and is a tombstone, and the watermarks of
-- its thread are the latest moments of the messages still shown in it, one for each direction, or
-- nothing where none is shown.
pub delete_local_marks :
    (now : Time) (m : MessageRow) (chat : Chat)
    → let after = delete_local now m chat in
      (length after.messages ≡ length chat.messages)
      × All (Hidden m.id) after.messages
      × All (Marked m.thread_id after.messages) after.threads
unfolding delete_local
delete_local_marks now m chat =
    let ms = set_message m.id (tombstone now) chat.messages in
    (
      length-set_message m.id (tombstone now) chat.messages,
      set_message-Hidden now m.id chat.messages,
      set_marks-Marked m.thread_id ms _ _ chat.threads (newest-IsNewest m.thread_id inward ms)
          (newest-IsNewest m.thread_id outward ms),
    )
