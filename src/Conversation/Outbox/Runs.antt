-- ===== src/Conversation/Outbox/Runs.antt =====
-- Passes of the sender of app/modules/conversation/outbox.py in any order, crashes between the
-- commit and the last write included, and the delivery reports of
-- app/modules/conversation/delivery_report.py between them: no line reaches the channel twice.
use stepan.Prelude.{All, ℕ, String, Option, ◌≡◌, Bool, true, false, List, [], ◌∷◌, ◌++◌}
use stepan.Conversation.Outbox.Once.{on_wire, IsUnsent, IsOnce}
use stepan.Conversation.Outbox.Ready.{IsReady, prepare-IsReady, finish-IsOnce}
use stepan.Conversation.Outbox.Row.{Row}
use stepan.Conversation.Outbox.Send.{Prepared, prepare, send_next, stop, claimed}
use stepan.Conversation.Outbox.Store.{Store, Env}
use stepan.Conversation.Reports.{resolve}
use stepan.Conversation.Reports.Laws.{resolve-IsUnsent}

-- What a crash leaves of a pass: nothing beyond its commit, and the text may have gone out.
abbrev pub crashed : Prepared → Bool → Store
crashed (stop s row) reached = s
crashed (claimed s row t) true = record s { wire = row.id ∷ s.wire }
crashed (claimed s row t) false = s

-- One event: a whole pass, a pass that crashes after its commit, a new line with a new id, or a
-- delivery report.
pub data Event : Store → Store → Type 0 where
  passes : (e : Env) (s : Store) (thread_id : ℕ) → Event s (send_next e s thread_id).0
  crashes :
      (e : Env) (s : Store) (thread_id : ℕ) (reached : Bool)
      → Event s (crashed (prepare e s thread_id) reached)
  enqueues :
      (s : Store) (row : Row)
      → on_wire row.id s.wire ≡ false
      → Event s (record s { rows = s.rows ++ (row ∷ []) })
  reports :
      (s : Store) (branch_id : ℕ) (external_ref : String) (is_delivered : Bool)
      (error : Option String)
      → Event s (record s { rows = (resolve branch_id external_ref is_delivered error s.rows).0 })

pub data Run (s : Store) : Store → Type 0 where
  here : Run s s
  next : {t u : Store} → Run s t → Event t u → Run s u

All-snoc :
    (wire : List ℕ) (row : Row) (rows : List Row)
    → All (IsUnsent wire) rows
    → IsUnsent wire row
    → All (IsUnsent wire) (rows ++ (row ∷ []))
All-snoc wire row [] h u = (u, tt)
All-snoc wire row (x ∷ xs) (h, hs) u = (h, All-snoc wire row xs hs u)

crashed-IsOnce : (p : Prepared) (reached : Bool) → IsReady p → IsOnce (crashed p reached)
crashed-IsOnce (stop s row) reached h = h
crashed-IsOnce (claimed s row t) true (h, u, rows) = record { unsent = rows; once = (u, h.once) }
crashed-IsOnce (claimed s row t) false (h, u, rows) = h

Event-IsOnce : {s t : Store} → Event s t → IsOnce s → IsOnce t
unfolding send_next
Event-IsOnce (passes e s thread_id) h = finish-IsOnce e _ (prepare-IsReady e s thread_id h)
Event-IsOnce (crashes e s thread_id reached) h =
    crashed-IsOnce _ reached (prepare-IsReady e s thread_id h)
Event-IsOnce (enqueues s row fresh) h = record {
  unsent = All-snoc s.wire row s.rows h.unsent (λ p. fresh);
  once = h.once;
}
Event-IsOnce (reports s branch_id external_ref is_delivered error) h = record {
  unsent = resolve-IsUnsent s.wire branch_id external_ref is_delivered error s.rows h.unsent;
  once = h.once;
}

-- From a store where no line has reached the channel twice and no line that has reached it is
-- pending, however passes of the sender, crashes after the commit, new lines of a new id and
-- delivery reports follow one another, both stay true.
pub Run-IsOnce : {s t : Store} → Run s t → IsOnce s → IsOnce t
Run-IsOnce here h = h
Run-IsOnce (next r e) h = Event-IsOnce e (Run-IsOnce r h)
