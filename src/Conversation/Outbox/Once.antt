-- ===== src/Conversation/Outbox/Once.antt =====
-- The rows on the wire and those still in the queue of app/modules/conversation/outbox.py: what it
-- is for no line to go out twice, and the writes that keep it so.
use stepan.Prelude.{All, ◌==◌, ℕ, String, ◌≡◌, Bool, true, false, ◌||◌, some, List, [], ◌∷◌, arith}
use mathlib.Core.List.{Memᴰ}
use stepan.Conversation.Outbox.Queue.{
  is_due_line, oldest_pending, put_row, IsOldest, oldest_pending-IsOldest,
}
use stepan.Conversation.Outbox.Row.{is_pending, Row}
use stepan.Conversation.Outbox.Store.{Store, Env, sweep_stale_claims, save_row, pause_dormant}
use stepan.Domain.Lead.{Time}
use stepan.Domain.Thread.{ChannelThread}

unfoldable pub on_wire : ℕ → List ℕ → Bool
on_wire n [] = false
on_wire n (m ∷ ms) = n == m || on_wire n ms

-- A pending line has not reached the channel.
abbrev pub IsUnsent : List ℕ → Row → Type 0
IsUnsent wire r = is_pending r.status ≡ true → on_wire r.id wire ≡ false

abbrev pub NoRepeats : List ℕ → Type 0
NoRepeats [] = Unit
NoRepeats (n ∷ ns) = (on_wire n ns ≡ false) × NoRepeats ns

-- No line has reached the channel twice, and no line that still may be sent has reached it.
pub record IsOnce (s : Store) : Type 0 where
  pub unsent : All (IsUnsent s.wire) s.rows
  pub once : NoRepeats s.wire

pub put_row-IsUnsent :
    (wire : List ℕ) (r : Row) (rows : List Row)
    → IsUnsent wire r
    → All (IsUnsent wire) rows
    → All (IsUnsent wire) (put_row r rows)
unfolding put_row
put_row-IsUnsent wire r [] h a = tt
put_row-IsUnsent wire r (x ∷ xs) h (a, rest) =
    ((λ p. ground (arith, a, h)), put_row-IsUnsent wire r xs h rest)

-- A row that is not pending may join those on the wire.
pub put_row-IsUnsent_wire :
    (wire : List ℕ) (r : Row) (rows : List Row)
    → is_pending r.status ≡ false
    → All (IsUnsent wire) rows
    → All (IsUnsent (r.id ∷ wire)) (put_row r rows)
unfolding put_row on_wire
put_row-IsUnsent_wire wire r [] h a = tt
put_row-IsUnsent_wire wire r (x ∷ xs) h (a, rest) =
    ((λ p. ground (arith, a)), put_row-IsUnsent_wire wire r xs h rest)

pub sweep-IsUnsent :
    (wire : List ℕ) (thread_id : ℕ) (now : Time) (rows : List Row)
    → All (IsUnsent wire) rows
    → All (IsUnsent wire) (sweep_stale_claims thread_id now rows)
unfolding sweep_stale_claims
sweep-IsUnsent wire thread_id now [] a = tt
sweep-IsUnsent wire thread_id now (x ∷ xs) (a, rest) =
    ((λ p. ground (arith, a)), sweep-IsUnsent wire thread_id now xs rest)

IsUnsent-of_mem :
    (wire : List ℕ) (r : Row) (rows : List Row)
    → Memᴰ r rows
    → All (IsUnsent wire) rows
    → IsUnsent wire r
IsUnsent-of_mem wire r [] m a = elim m [ ]
IsUnsent-of_mem wire r (x ∷ xs) (Memᴰ.head e) (a, rest) = λ p. rw e (a (rw e at p))
IsUnsent-of_mem wire r (x ∷ xs) (Memᴰ.tail m) (a, rest) = IsUnsent-of_mem wire r xs m rest

-- The picked line has not reached the channel.
pub oldest_pending-IsUnsent :
    (wire : List ℕ) (branch_id thread_id : ℕ) (rows : List Row) (r : Row)
    → All (IsUnsent wire) rows
    → oldest_pending branch_id thread_id rows ≡ some r
    → on_wire r.id wire ≡ false
unfolding is_due_line
oldest_pending-IsUnsent wire branch_id thread_id rows r a e =
    let oldest : IsOldest branch_id thread_id (some r) rows =
      rw e at (oldest_pending-IsOldest branch_id thread_id rows) in
    IsUnsent-of_mem wire r rows oldest.1 a (ground (arith, oldest.0))

pub save_row-IsOnce :
    (s : Store) (row : Row) → IsOnce s → IsUnsent s.wire row → IsOnce (save_row s row)
save_row-IsOnce s row h u = record {
  unsent = put_row-IsUnsent s.wire row s.rows u h.unsent;
  once = h.once;
}

pub pause_dormant-IsOnce :
    (e : Env) (s : Store) (t : ChannelThread) (reason : String)
    → IsOnce s
    → IsOnce (pause_dormant e s t reason)
pause_dormant-IsOnce e s t reason h =
    let rows : (pause_dormant e s t reason).rows ≡ s.rows = unfold pause_dormant in ground arith in
    let wire : (pause_dormant e s t reason).wire ≡ s.wire = unfold pause_dormant in ground arith in
    record { unsent = rw (rows, wire) h.unsent; once = rw wire h.once }
