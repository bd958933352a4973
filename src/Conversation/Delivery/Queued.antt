-- ===== src/Conversation/Delivery/Queued.antt =====
-- What enqueue_reply (app/modules/conversation/delivery.py) appends to the outbox.
use mathlib.Core.List.{append_assoc, append-nil}
use stepan.Prelude.{
  length, if◌then◌else◌, Bool-cases, ℕ, ◌+◌, ◌*◌, String, ◌≡◌, refl, sym, ap, ◌∙◌, inl, inr, false,
  Option, none, some, List, [], ◌∷◌, ◌++◌, arith,
}
use stepan.Comments.Process.{sent_out}
use stepan.Conversation.Delivery.{Decision, Desk, Shift}
use stepan.Conversation.Delivery.Apply.{Exit, apply_decision}
use stepan.Conversation.Delivery.Laws.{apply_decision-IsMove}
use stepan.Conversation.Delivery.Reply.{
  already_answered, queue_line, queue_lines, closing_text, close_line, alert_manager, enqueue_reply,
}
use stepan.Conversation.Outbox.Queue.{before}
use stepan.Conversation.Outbox.Row.{Row, fresh_row, agent}
use stepan.Domain.Lead.{Lead}
use stepan.Domain.Thread.{ChannelThread}

-- The pending lines of texts, each a gap after the one before.
unfoldable pub lines_from : Shift → (thread_id next_id place : ℕ) → List String → List Row
lines_from e thread_id next_id place [] = []
lines_from e thread_id next_id place (b ∷ bs) =
    fresh_row next_id e.branch_id thread_id b agent (e.base + place * e.bubble_gap) e.llm_info
    ∷ lines_from e thread_id (next_id + 1) (place + 1) bs

lines_from-snoc :
    (e : Shift) (thread_id next_id place : ℕ) (bs : List String) (last : String)
    (last_id last_place : ℕ)
    → last_id ≡ next_id + length bs
    → last_place ≡ place + length bs
    → lines_from e thread_id next_id place (bs ++ (last ∷ []))
      ≡ lines_from e thread_id next_id place bs
        ++ lines_from e thread_id last_id last_place (last ∷ [])
unfolding lines_from
lines_from-snoc e t n p [] last n' p' at_id at_place =
    let same_id : n' ≡ n = omega (arith, at_id) in
    let same_place : p' ≡ p = omega (arith, at_place) in rw (same_id, same_place) refl
lines_from-snoc e t n p (b ∷ bs) last n' p' at_id at_place =
    let rest =
      lines_from-snoc e t (n + 1) (p + 1) bs last n' p' (omega (arith, at_id))
        (omega (arith, at_place)) in
    rw rest refl

-- What the lines leave as it is, and what they append.
pub record IsQueued (e : Shift) (place : ℕ) (bs : List String) (k k' : Desk) : Type 0 where
  pub same_thread : k'.thread ≡ k.thread
  pub same_lead : k'.lead ≡ k.lead
  pub same_journal : k'.journal ≡ k.journal
  pub grown : k'.rows ≡ k.rows ++ lines_from e k.thread.id k.next_row_id place bs
  pub counted : k'.next_row_id ≡ k.next_row_id + length bs

queue_lines-IsQueued :
    (e : Shift) (bs : List String) (place : ℕ) (k : Desk)
    → IsQueued e place bs k (queue_lines e bs place k)
unfolding queue_lines queue_line lines_from
queue_lines-IsQueued e [] place k = record {
  same_thread = refl;
  same_lead = refl;
  same_journal = refl;
  grown = sym (append-nil k.rows);
  counted = omega arith;
}
queue_lines-IsQueued e (b ∷ bs) place k =
    let rest = queue_lines-IsQueued e bs (place + 1) (queue_line e b place k) in
    record {
      same_thread = rest.same_thread;
      same_lead = rest.same_lead;
      same_journal = rest.same_journal;
      grown = rest.grown ∙ append_assoc k.rows (_ ∷ []) _;
      counted = let c = rest.counted in omega (arith, c);
    }

-- The closing line of an exit that the reply does not announce.
abbrev pub closing :
    Shift → Decision → (lead_lang : Option String) → Lead → Option Exit → List String
closing e d lang lead none = []
closing e d lang lead (some exit) =
    if e.says_what_happens_next d.reply then [] else closing_text e lang lead exit ∷ []

-- The text behind the bubbles.
last_line :
    (e : Shift) (k : Desk) (last : String) (bubbles : List String) (thread_id next_id : ℕ)
    (before : List Row)
    → k.rows ≡ before ++ lines_from e thread_id next_id 0 bubbles
    → k.next_row_id ≡ next_id + length bubbles
    → k.thread.id ≡ thread_id
    → (queue_line e last (length bubbles) k).rows
      ≡ before ++ lines_from e thread_id next_id 0 (bubbles ++ (last ∷ []))
unfolding queue_line lines_from
last_line e k last bubbles t n before sent_out counted at =
    rw
      (
        sent_out,
        lines_from-snoc e t n 0 bubbles last k.next_row_id (length bubbles) counted (omega arith),
        at,
      )
      (append_assoc before (lines_from e t n 0 bubbles) _)

close_line-rows :
    (e : Shift) (d : Decision) (lang : Option String) (k : Desk) (exit : Option Exit)
    (thread_id next_id : ℕ) (before : List Row)
    → let bubbles = e.split_bubbles d.reply in
      k.rows ≡ before ++ lines_from e thread_id next_id 0 bubbles
      → k.next_row_id ≡ next_id + length (e.split_bubbles d.reply)
      → k.thread.id ≡ thread_id
      → let bubbles = e.split_bubbles d.reply in
        (close_line e d lang k exit).rows
        ≡ before ++ lines_from e thread_id next_id 0 (bubbles ++ closing e d lang k.lead exit)
unfolding close_line
close_line-rows e d lang k none t n before sent_out counted at =
    rw (append-nil (e.split_bubbles d.reply)) sent_out
close_line-rows e d lang k (some exit) t n before sent_out counted at =
    let bubbles = e.split_bubbles d.reply in
    let last = closing_text e lang k.lead exit in
    elim (Bool-cases (e.says_what_happens_next d.reply)) [
      | inl says ↦ rw (says, append-nil bubbles) sent_out
      | inr silent ↦ rw silent (last_line e k last bubbles t n before sent_out counted at)
    ]

alert_manager-rows : (d : Decision) (k : Desk) → (alert_manager d k).rows ≡ k.rows
unfolding alert_manager
alert_manager-rows d k = ground arith

-- A reply to a thread that no sibling run has answered appends just its bubbles, a gap apart and on that
-- thread, and one closing line behind them exactly where the decision hands the lead over and the reply does
-- not say what happens next.
pub enqueue_reply-rows :
    (e : Shift) (d : Decision) (k : Desk)
    → already_answered k.thread ≡ false
    → let bubbles = e.split_bubbles d.reply in
      let (k', exit) = apply_decision e d (queue_lines e bubbles 0 k) in
      let last = closing e d k.lead.preferred_language k'.lead exit in
      (enqueue_reply e d k).rows
      ≡ k.rows ++ lines_from e k.thread.id k.next_row_id 0 (bubbles ++ last)
unfolding enqueue_reply
enqueue_reply-rows e d k unanswered =
    let bubbles = e.split_bubbles d.reply in
    let q = queue_lines-IsQueued e bubbles 0 k in
    let m = apply_decision-IsMove e d (queue_lines e bubbles 0 k) in
    let (k', exit) = apply_decision e d (queue_lines e bubbles 0 k) in
    let lang = k.lead.preferred_language in
    rw unanswered (
      alert_manager-rows d (close_line e d lang k' exit)
      ∙ close_line-rows e d lang k' exit k.thread.id k.next_row_id k.rows (m.same_rows ∙ q.grown)
          (m.same_next ∙ q.counted)
          (m.same_thread ∙ ap (λ (t : ChannelThread). t.id) q.same_thread))
