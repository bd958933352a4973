-- ===== src/Tests/Inbox.antt =====
-- Ingest at a small inbox.
use stepan.Conversation.Outbox.Row
use stepan.Prelude.{
  length, str_eq, ◌+◌, String, ◌≡◌, refl, Bool, true, false, Option, none, some, List, [], ◌∷◌,
  ◌++◌, map, arith,
}
use stepan.Conversation.Deletions.{set_message, is_shown, newest, set_marks, delete_local}
use stepan.Conversation.Outbox.Row.{Row}
use stepan.Conversation.Outbox.Store.{put_thread, find_lead}
use stepan.Domain.Lead.{Time, Lead}
use stepan.Domain.Message.{MessageRow, inward, outward}
use stepan.Domain.Stage.{dormant}
use stepan.Domain.Thread.{ChannelThread}
use stepan.Leads.Inbox.{
  Inbound, Inbox, Given, window, has_external_id, any_message, is_known, thread_by_external,
  has_media, duplicate_by_content, is_spaces, is_contentless,
}
use stepan.Leads.Inbox.Advance.{IsKeyed}
use stepan.Leads.Inbox.Batch.{is_ingested, claimed_on_phone, ingest_incoming, ingest_one}
use stepan.Leads.Inbox.Heard.{Core, core_on, core, IsHeard, moved-IsHeard, moved-unheard}
use stepan.Leads.Inbox.Identity.{resolve_or_create}
use stepan.Leads.Inbox.Incoming.{
  is_referral, message_in, stored, is_repeat, unless_repeat, store_incoming,
}
use stepan.Leads.Inbox.Once.{ingest_one_once}
use stepan.Leads.Inbox.Pairs.{IsBlank, carries, rich_then_blank, blank_then_rich}
use stepan.Leads.Inbox.Talk.{arrived, tagged, mapped, moved}
use stepan.Prelude.Texts.{is_space, lstrip, rstrip, strip}
use stepan.Tests.Samples.{lead_at, thread_of, noon, line, message_at}

abbrev given : Given
given = record {
  branch_id = 1;
  channel_id = 5;
  now = noon;
  has_notifier = true;
  is_manager_phone = false;
  extract_phone = λ _. none;
  is_auto_reply = λ s. str_eq s "auto-reply";
  isoformat = λ _. "now";
  digest = λ s. s;
  product_for_ad = λ _. none;
  product_for_creative = λ _ _. none;
}

abbrev message : String → String → Time → Inbound
message id body at = record {
  external_thread_id = "t";
  sender_id = "s";
  text = body;
  occurred_at = at;
  lead_ig_user_id = none;
  product_hint = none;
  sender_username = none;
  sender_name = some "Budi";
  sender_avatar = none;
  lead_phone = some "+62899999999";
  ad_id = none;
  ad_media_id = none;
  ad_preview_url = none;
  lead_source = none;
  direction = inward;
  external_id = some id;
  link_url = none;
  preview_url = none;
  media_url = none;
  media_kind = none;
  lead_seen_at = some at;
}

abbrev inbox : Inbox
inbox = record {
  leads = lead_at 7 dormant ∷ [];
  threads = thread_of 20 7 ∷ [];
  messages = [];
  media = [];
  rows = line 1 Row.followup ∷ line 2 Row.agent ∷ [];
  journal = [];
  alerts = [];
  next_lead_id = 8;
  next_thread_id = 21;
  next_message_id = 1;
}

abbrev hello : Inbound
hello = message "m1" "halo" noon

abbrev photo : Inbound
photo = record (message "mid" "media" (noon + 1000000)) { media_url = some "https://cdn/p.jpg" }

abbrev poll : Inbound
poll = message "p1" "" noon

abbrev is_first : Bool
is_first = true

-- A dormant lead that writes is revived, and its queued nudge is skipped.
moved-IsHeard_example :
    IsHeard given hello
      (lead_at 7 dormant)
      20
      0
      []
      (core (moved given hello is_first (lead_at 7 dormant) (thread_of 20 7) inbox))
moved-IsHeard_example =
    moved-IsHeard given hello is_first (lead_at 7 dormant) (thread_of 20 7) inbox refl refl

abbrev robot : Inbound
robot = message "m2" "auto-reply" noon

abbrev core_before : Core
core_before = core_on (thread_of 20 7) (record {
  lead = lead_at 7 dormant;
  thread = thread_of 20 7;
  rows = inbox.rows;
  journal = [];
  alerts = [];
})

moved-unheard_example :
    core (moved given robot is_first (lead_at 7 dormant) (thread_of 20 7) inbox)
    ≡ (record core_before { window_until = some (noon + window) })
moved-unheard_example =
    moved-unheard given robot is_first (lead_at 7 dormant) (thread_of 20 7) inbox refl

keyed : IsKeyed inbox.threads inbox.next_thread_id
keyed = record { distinct = (tt, tt); below = (omega arith, tt) }

-- Two records of one phone: a message names it, and the thread moves with the merge.
abbrev twin : Lead
twin = record (lead_at 6 dormant) { phone_e164 = some "+62899999999" }

abbrev nameless : Lead
nameless = record (lead_at 7 dormant) { phone_e164 = none }

abbrev two_leads : Inbox
two_leads = record inbox {
  leads = nameless ∷ twin ∷ [];
  threads = thread_of 20 7 ∷ thread_of 19 6 ∷ [];
}

abbrev hello_row : MessageRow
hello_row = message_in given "m1" hello 20 1 false

creates_hello : (ingest_one given hello inbox).1 ≡ some hello_row
unfolding ingest_one is_ingested is_known any_message ingest_incoming store_incoming is_contentless
    strip unless_repeat is_repeat duplicate_by_content claimed_on_phone resolve_or_create
    thread_by_external find_lead stored is_referral
creates_hello = refl

ingest_one_once_example :
    let s' = (ingest_one given hello inbox).0 in
    (is_known 1 5 "m1" inbox.messages ≡ false)
    × (has_external_id 1 5 "m1" hello_row ≡ true)
    × (s'.messages ≡ inbox.messages ++ (hello_row ∷ []))
    × (ingest_one given hello s' ≡ (s', none))
ingest_one_once_example = ingest_one_once given hello inbox hello_row creates_hello

rich_then_blank_example :
    let s' = (stored given "mid" photo (lead_at 7 dormant) (thread_of 20 7) inbox).0 in
    store_incoming given "p1" poll (lead_at 7 dormant) (thread_of 20 7) s' ≡ (s', none)
unfolding is_contentless strip lstrip rstrip
rich_then_blank_example =
    rich_then_blank given inbox (lead_at 7 dormant) (lead_at 7 dormant) (thread_of 20 7)
      (thread_of 20 7) refl "mid" "p1" photo poll refl refl refl

poll-IsBlank : IsBlank poll
unfolding is_contentless strip lstrip rstrip is_spaces
poll-IsBlank = record { no_content = refl; no_text = refl; no_link = refl }

blank_then_rich_example :
    let s' = (stored given "p1" poll (lead_at 7 dormant) (thread_of 20 7) inbox).0 in
    let (s'', row) = store_incoming given "mid" photo (lead_at 7 dormant) (thread_of 20 7) s' in
    (row ≡ none)
    × (length s''.messages ≡ length s'.messages)
    × (any_message (carries "mid" photo) s''.messages ≡ true)
unfolding has_media is_contentless strip lstrip rstrip is_space
blank_then_rich_example =
    blank_then_rich given inbox (lead_at 7 dormant) (lead_at 7 dormant) (thread_of 20 7)
      (thread_of 20 7) refl "p1" "mid" poll photo poll-IsBlank refl refl refl refl

abbrev last_moments : List ChannelThread → List (Option Time)
last_moments ts = map (λ t. t.last_in_at) ts

-- An auto-reply leaves last_in_at alone when it comes in, and a later deletion in the thread makes it
-- the lead's last word.
abbrev after_robot : Inbox
after_robot = (stored given "m2" robot (lead_at 7 dormant) (thread_of 20 7) inbox).0

robot_unheard : last_moments after_robot.threads ≡ none ∷ []
unfolding stored moved mapped arrived tagged put_thread
robot_unheard = refl

robot_heard_on_delete :
    last_moments
      (delete_local noon
        (message_at 9 outward noon)
        (record { messages = after_robot.messages; threads = after_robot.threads })).threads
    ≡ some noon ∷ []
unfolding stored moved mapped arrived tagged put_thread delete_local set_message newest set_marks
    is_shown
robot_heard_on_delete = refl
