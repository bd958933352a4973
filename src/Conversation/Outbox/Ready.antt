-- ===== src/Conversation/Outbox/Ready.antt =====
-- Each step of a pass of app/modules/conversation/outbox.py keeps every line from a second send.
use stepan.Prelude.{
  All, ltb, Bool-cases, ℕ, String, ◌≡◌, refl, inl, inr, Bool, true, false, not, ◌&&◌, Option, none,
  some, ◌∷◌, arith,
}
use stepan.Conversation.Outbox.Config.{SendResult, is_soft_block}
use stepan.Conversation.Outbox.Guards.{Check, pass, hold, refuse, skip, late}
use stepan.Conversation.Outbox.Once.{
  on_wire, IsUnsent, IsOnce, put_row-IsUnsent_wire, sweep-IsUnsent, oldest_pending-IsUnsent,
  save_row-IsOnce, pause_dormant-IsOnce,
}
use stepan.Conversation.Outbox.Queue.{oldest_pending}
use stepan.Conversation.Outbox.Row.{is_manager, Row, sending}
use stepan.Conversation.Outbox.Send.{
  Prepared, claim, crm_decided, crm_gate, past_guards, settle, on_thread, on_row, prepare,
  delivered, backed_off, given_up, complete, finish, stop, claimed,
}
use stepan.Conversation.Outbox.Store.{Store, Env}
use stepan.Crm.Gate.{GateState}
use stepan.Domain.Lead.{Lead}
use stepan.Domain.Thread.{ChannelThread}

-- A pass that stops has kept the property; a claimed line is not yet sent, and its row no longer
-- pending.
abbrev pub IsReady : Prepared → Type 0
IsReady (stop s r) = IsOnce s
IsReady (claimed s row t) =
    IsOnce s × (on_wire row.id s.wire ≡ false) × All (IsUnsent (row.id ∷ s.wire)) s.rows

module _ (e : Env) (row : Row) (t : ChannelThread) where
  claim-IsReady : (s : Store) → IsOnce s → on_wire row.id s.wire ≡ false → IsReady (claim e s row t)
  unfolding claim
  claim-IsReady s h u = (
    save_row-IsOnce s (record row { status = sending; sent_at = some e.now }) h (λ p. u),
    u,
    put_row-IsUnsent_wire s.wire (record row { status = sending; sent_at = some e.now }) s.rows refl
        h.unsent,
  )

  crm_decided-IsReady :
      (s : Store) (g : GateState) (allowed : Bool) (reason : String)
      → IsOnce s
      → on_wire row.id s.wire ≡ false
      → IsReady (crm_decided e s row t (g, allowed, reason))
  unfolding crm_decided
  crm_decided-IsReady s g true reason h u =
      claim-IsReady _ (record { unsent = h.unsent; once = h.once }) u
  crm_decided-IsReady s g false reason h u =
      save_row-IsOnce _ _ (record { unsent = h.unsent; once = h.once }) (λ p. u)

  crm_gate-IsReady :
      (s : Store) (lead : Option Lead)
      → IsOnce s
      → on_wire row.id s.wire ≡ false
      → IsReady (crm_gate e s row t lead)
  unfolding crm_gate
  crm_gate-IsReady s none h u = claim-IsReady s h u
  crm_gate-IsReady s (some lead) h u = crm_decided-IsReady s _ _ _ h u

  past_guards-IsReady :
      (s : Store) → IsOnce s → on_wire row.id s.wire ≡ false → IsReady (past_guards e s row t)
  unfolding past_guards
  past_guards-IsReady s h u =
      elim (Bool-cases (e.cfg.crm_read_enabled && not (is_manager row.source))) [
        | inl read ↦ rw read (crm_gate-IsReady s _ h u)
        | inr unread ↦ rw unread (claim-IsReady s h u)
      ]

  settle-IsReady :
      (s : Store) (c : Check)
      → IsOnce s
      → on_wire row.id s.wire ≡ false
      → IsReady (settle e s row t c)
  unfolding settle
  settle-IsReady s pass h u = past_guards-IsReady s h u
  settle-IsReady s hold h u = h
  settle-IsReady s (refuse status error) h u = save_row-IsOnce s _ h (λ p. u)
  settle-IsReady s (skip error) h u = save_row-IsOnce s _ h (λ p. u)
  settle-IsReady s (late window) h u = pause_dormant-IsOnce e _ t _ (save_row-IsOnce s _ h (λ p. u))

on_thread-IsReady :
    (e : Env) (s : Store) (row : Row) (t : Option ChannelThread)
    → IsOnce s
    → on_wire row.id s.wire ≡ false
    → IsReady (on_thread e s row t)
unfolding on_thread
on_thread-IsReady e s row none h u = h
on_thread-IsReady e s row (some t) h u = settle-IsReady e row t s _ h u

on_row-IsReady :
    (e : Env) (s : Store) (thread_id : ℕ) (row : Option Row)
    → IsOnce s
    → oldest_pending e.branch_id thread_id s.rows ≡ row
    → IsReady (on_row e s thread_id row)
unfolding on_row
on_row-IsReady e s thread_id none h p = h
on_row-IsReady e s thread_id (some row) h p = elim (Bool-cases (ltb e.now row.scheduled_at)) [
  | inl early ↦ rw early h
  | inr due ↦ rw due (
      on_thread-IsReady e s row _ h
        (oldest_pending-IsUnsent s.wire e.branch_id thread_id s.rows row h.unsent p))
]

pub prepare-IsReady :
    (e : Env) (s : Store) (thread_id : ℕ) → IsOnce s → IsReady (prepare e s thread_id)
unfolding prepare
prepare-IsReady e s thread_id h =
    on_row-IsReady e _ thread_id _
      (record { unsent = sweep-IsUnsent s.wire thread_id e.now s.rows h.unsent; once = h.once })
      refl

delivered-IsOnce :
    (e : Env) (s : Store) (row : Row) (t : ChannelThread) (result : SendResult)
    → IsOnce s
    → on_wire row.id s.wire ≡ false
    → IsOnce (delivered e s row t result).0
unfolding delivered
delivered-IsOnce e s row t result h u = record {
  unsent = put_row-IsUnsent_wire s.wire _ s.rows (ground arith) h.unsent;
  once = (u, h.once);
}

given_up-IsOnce :
    (e : Env) (s : Store) (row : Row) (t : ChannelThread) (result : SendResult)
    → IsOnce s
    → IsOnce (given_up e s row t result).0
unfolding given_up
given_up-IsOnce e s row t result h = elim (Bool-cases (is_manager row.source)) [
  | inl human ↦ rw human (save_row-IsOnce s _ h (λ p. cc))
  | inr bot ↦ rw bot (save_row-IsOnce _ _ (pause_dormant-IsOnce e s t _ h) (λ p. cc))
]

complete-IsOnce :
    (e : Env) (s : Store) (row : Row) (t : ChannelThread) (result : SendResult)
    → IsOnce s
    → on_wire row.id s.wire ≡ false
    → IsOnce (complete e s row t result).0
unfolding complete
complete-IsOnce e s row t result h u = elim (Bool-cases result.ok) [
  | inl ok ↦ rw ok (delivered-IsOnce e s row t result h u)
  | inr bad ↦
      elim (Bool-cases (is_soft_block result.error && ltb row.attempts e.max_soft_block_attempts)) [
        | inl soft ↦ rw (bad, soft) (unfold backed_off in save_row-IsOnce s _ h (λ p. u))
        | inr hard ↦ rw (bad, hard) (given_up-IsOnce e s row t result h)
      ]
]

pub finish-IsOnce : (e : Env) (p : Prepared) → IsReady p → IsOnce (finish e p).0
unfolding finish
finish-IsOnce e (stop s row) h = h
finish-IsOnce e (claimed s row t) (h, u, _) = complete-IsOnce e s row t _ h u
