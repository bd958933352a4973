-- ===== src/Conversation/Delivery.antt =====
-- app/modules/conversation/delivery.py (ReplyDelivery): what a decided reply does to the lead, its
-- thread and the queue. The detectors on texts and the lookups are given.
pub mod Stages
pub mod Exits
pub mod Apply
pub mod Reply
pub mod Laws
pub mod Journaled
pub mod Answered
pub mod Consent
pub mod Queued
use stepan.Prelude.{
  if◌then◌else◌, str_eq, is_blank, ℕ, String, Bool, true, false, not, Option, none, some, List, [],
  ◌∷◌, ◌++◌,
}
use stepan.Conversation.Outbox.Row.{Row}
use stepan.Domain.Lead.{Time, Lead, Journal}
use stepan.Domain.Stage.{Stage}
use stepan.Domain.Thread.{ChannelThread}

-- Decision (app/modules/conversation/decision.py): the fields that the delivery reads. The lists of
-- pains and gains are read by whether they are empty.
pub record Decision : Type 0 where
  pub reply : String
  pub stage : Stage
  pub product_slug : Option String
  pub is_ready : Bool
  pub needs_manager : Bool
  pub stage_reason : Option String
  pub manager_question : Option String
  pub kb_gap : Option String
  pub ready_subtype : Option String
  pub lead_type : Option String
  pub audience : Option String
  pub reply_language : Option String
  pub phone : Option String
  pub has_pains : Bool
  pub has_gains : Bool
  pub discovery_complete : Bool
  pub hard_stop : Bool

-- ThreadLog
pub record ThreadLog : Type 0 where
  pub kind : String
  pub detail : String
  pub actor : String

-- What the delivery writes.
pub record Desk : Type 0 where
  pub lead : Lead
  pub thread : ChannelThread
  pub rows : List Row
  pub next_row_id : ℕ
  pub journal : Journal
  pub logs : List ThreadLog
  pub alerts : List String
  pub pending_crm_push : Option String
  pub pending_capi : List String

-- What it is given: the settings, the clock with the drawn delay, and what other modules answer.
pub record Shift : Type 0 where
  pub branch_id : ℕ
  pub now : Time
  pub base : Time
  pub bubble_gap : Time
  pub discovery_turn_cap : ℕ
  pub schedule : List ℕ
  pub can_push_crm : Bool
  pub can_send_capi : Bool
  pub strip_text : String → String
  pub to_e164 : String → Option String
  pub is_product : String → Bool
  pub product_kind : String → String
  pub last_inbound_text : Option String
  pub inbound_count : ℕ
  -- _SOFT_NO_RE without a buying, paying or annoyed signal
  pub is_soft_no : String → Bool
  pub postpone_days : String → Option ℕ
  pub split_bubbles : String → List String
  pub says_what_happens_next : String → Bool
  pub branch_lang : String
  pub manager_closing : (lang : String) → (has_phone : Bool) → String
  pub ready_closing : (lang : String) → String
  pub is_technical : String → Bool
  pub has_stored_needs : Option String → Bool
  pub last_price : Option String → Option String
  pub llm_info : Option String

-- A text that is there: `if x`.
abbrev pub is_given : Option String → Bool
is_given x = not (is_blank x)

-- Two optional texts that are the same.
abbrev pub same_text : Option String → Option String → Bool
same_text none none = true
same_text none (some _) = false
same_text (some _) none = false
same_text (some a) (some b) = str_eq a b

abbrev pub equals : Option String → String → Bool
equals none b = false
equals (some a) b = str_eq a b

-- `AlertService.raise_alert`: nothing for a blocked lead.
abbrev pub raise_alert : String → Desk → Desk
raise_alert kind k = if k.lead.is_blocked then k else record k { alerts = k.alerts ++ (kind ∷ []) }

abbrev pub add_log : ThreadLog → Desk → Desk
add_log l k = record k { logs = k.logs ++ (l ∷ []) }
