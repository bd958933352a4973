-- ===== src/Conversation/Delivery/Reply.antt =====
-- app/modules/conversation/delivery.py: enqueue_reply.
use stepan.Prelude.{
  length, leb, if◌then◌else◌, or_text, ℕ, ◌+◌, ◌*◌, String, Bool, false, not, ◌&&◌, Option, none,
  some, List, [], ◌∷◌, ◌++◌,
}
use stepan.Conversation.Delivery.{Decision, Desk, Shift, is_given, equals, raise_alert}
use stepan.Conversation.Delivery.Apply.{Exit, apply_decision, to_manager, to_deal}
use stepan.Conversation.Outbox.Row.{fresh_row, agent}
use stepan.Domain.Lead.{Time, Lead}
use stepan.Domain.Thread.{ChannelThread}

-- The sibling run has answered: the outgoing moment has caught up.
abbrev caught_up : Option Time → Option Time → Bool
caught_up (some last_out) (some last_in) = leb last_in last_out
caught_up _ _ = false

abbrev pub already_answered : ChannelThread → Bool
already_answered t = caught_up t.last_out_at t.last_in_at

-- One line of the reply.
unfoldable pub queue_line : Shift → String → (place : ℕ) → Desk → Desk
queue_line e text place k = record k {
  rows =
      k.rows
      ++ (fresh_row k.next_row_id e.branch_id k.thread.id text agent (e.base + place * e.bubble_gap)
            e.llm_info
          ∷ []);
  next_row_id = k.next_row_id + 1;
}

unfoldable pub queue_lines : Shift → List String → (place : ℕ) → Desk → Desk
queue_lines e [] place k = k
queue_lines e (b ∷ bs) place k = queue_lines e bs (place + 1) (queue_line e b place k)

abbrev pub closing_text : Shift → (lead_lang : Option String) → Lead → Exit → String
closing_text e lang lead to_manager =
    e.manager_closing (or_text lang e.branch_lang) (is_given lead.phone_e164)
closing_text e lang lead to_deal = e.ready_closing (or_text lang e.branch_lang)

-- The closing line, where the reply does not say what happens next.
unfoldable pub close_line : Shift → Decision → (lang : Option String) → Desk → Option Exit → Desk
close_line e d lang k none = k
close_line e d lang k (some exit) =
    if e.says_what_happens_next d.reply
    then k
    else queue_line e (closing_text e lang k.lead exit) (length (e.split_bubbles d.reply)) k

-- `if decision.needs_manager and not is_openhouse_rsvp`
unfoldable pub alert_manager : Decision → Desk → Desk
alert_manager d k =
    if d.needs_manager && not (d.is_ready && equals d.ready_subtype "openhouse")
    then raise_alert "needs_manager" k
    else k

abbrev pub answer_with : Shift → Decision → (lang : Option String) → Desk × Option Exit → Desk
answer_with e d lang (k, exit) = alert_manager d (close_line e d lang k exit)

-- `enqueue_reply` of a thread that exists with its lead.
unfoldable pub enqueue_reply : Shift → Decision → Desk → Desk
enqueue_reply e d k =
    if already_answered k.thread
    then k
    else answer_with e d k.lead.preferred_language
        (apply_decision e d (queue_lines e (e.split_bubbles d.reply) 0 k))
