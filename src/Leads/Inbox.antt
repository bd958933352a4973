-- ===== src/Leads/Inbox.antt =====
-- app/modules/leads/ingest.py (IngestService): the tables that it writes, what it is given, and the
-- lookups of app/modules/leads/repository.py.
pub mod Identity
pub mod Talk
pub mod Incoming
pub mod Outgoing
pub mod Batch
pub mod Refresh
pub mod Heard
pub mod Pairs
pub mod Once
pub mod Advance
use stepan.Prelude.{
  leb, ◌==◌, if◌then◌else◌, str_eq, is_none, is_some, concat, is_blank, or_text, ℕ, ◌+◌, ◌-◌, ◌*◌,
  String, Bool, true, false, not, ◌&&◌, ◌||◌, Option, none, some, List, [], ◌∷◌,
}
use stepan.Conversation.Outbox.Row.{Row}
use stepan.Conversation.Outbox.Store.{find_lead, in_branch}
use stepan.Domain.Lead.{Time, Lead, Journal}
use stepan.Domain.Message.{Direction, is_out, MessageRow}
use stepan.Domain.Thread.{ChannelThread}
use stepan.Prelude.Texts.{codes, is_empty, strip}

pub record MediaAsset : Type 0 where
  pub branch_id : ℕ
  pub message_id : ℕ
  pub kind : String
  pub url : String

-- InboundMessage (app/ports/channel.py).
pub record Inbound : Type 0 where
  pub external_thread_id : String
  pub sender_id : String
  pub text : String
  pub occurred_at : Time
  pub lead_ig_user_id : Option String
  pub product_hint : Option String
  pub sender_username : Option String
  pub sender_name : Option String
  pub sender_avatar : Option String
  pub lead_phone : Option String
  pub ad_id : Option String
  pub ad_media_id : Option String
  pub ad_preview_url : Option String
  pub lead_source : Option String
  pub direction : Direction
  pub external_id : Option String
  pub link_url : Option String
  pub preview_url : Option String
  pub media_url : Option String
  pub media_kind : Option String
  pub lead_seen_at : Option Time

-- A hand-off that was raised: its kind, lead and thread.
pub record Raised : Type 0 where
  pub kind : String
  pub lead_id : ℕ
  pub thread_id : ℕ

-- The branch's tables, with the ids that the database gives next.
pub record Inbox : Type 0 where
  pub leads : List Lead
  pub threads : List ChannelThread
  pub messages : List MessageRow
  pub media : List MediaAsset
  pub rows : List Row
  pub journal : Journal
  pub alerts : List Raised
  pub next_lead_id : ℕ
  pub next_thread_id : ℕ
  pub next_message_id : ℕ

-- What one batch is given: the channel, the clock, whether there is a notifier, and the functions of
-- other modules and of Python that ingest calls.
pub record Given : Type 0 where
  pub branch_id : ℕ
  pub channel_id : ℕ
  pub now : Time
  pub has_notifier : Bool
  pub is_manager_phone : Bool
  pub extract_phone : String → Option String
  pub is_auto_reply : String → Bool
  pub isoformat : Time → String
  pub digest : String → String
  pub product_for_ad : Option String → Option String
  pub product_for_creative : List ChannelThread → Option String → Option String

-- WINDOW, _OUT_ECHO_WINDOW and _DEDUP_WINDOW
abbrev pub window : Time
window = 24 * 3600000000

abbrev pub out_echo_window : Time
out_echo_window = 5 * 60000000

abbrev pub dedup_window : Time
dedup_window = 2 * 1000000

-- `occurred_at BETWEEN at - w AND at + w`
abbrev pub is_near : (at w : Time) → Time → Bool
is_near at w t = leb (at - w) t && leb t (at + w)

-- MessageRepo.by_external
abbrev pub has_external_id : (branch_id channel_id : ℕ) → String → MessageRow → Bool
has_external_id branch_id channel_id external_id m =
    m.branch_id == branch_id && m.channel_id == channel_id && str_eq m.external_id external_id

unfoldable pub any_message : (MessageRow → Bool) → List MessageRow → Bool
any_message p [] = false
any_message p (m ∷ ms) = p m || any_message p ms

unfoldable pub find_message : (MessageRow → Bool) → List MessageRow → Option MessageRow
find_message p [] = none
find_message p (m ∷ ms) = if p m then some m else find_message p ms

unfoldable pub is_known : (branch_id channel_id : ℕ) → String → List MessageRow → Bool
is_known branch_id channel_id external_id =
    any_message (has_external_id branch_id channel_id external_id)

-- ThreadRepo.by_external: the thread of the channel by its external id, if its lead is the branch's.
unfoldable pub thread_by_external :
    (branch_id channel_id : ℕ) → String → List Lead → List ChannelThread → Option ChannelThread
thread_by_external branch_id channel_id external_id leads [] = none
thread_by_external branch_id channel_id external_id leads (t ∷ ts) =
    if t.channel_id == channel_id
      && str_eq t.external_thread_id external_id
      && in_branch branch_id (find_lead t.lead_id leads)
    then some t
    else thread_by_external branch_id channel_id external_id leads ts

-- MessageRepo._with_media
unfoldable pub has_media : (branch_id message_id : ℕ) → List MediaAsset → Bool
has_media branch_id message_id [] = false
has_media branch_id message_id (a ∷ rest) =
    (a.branch_id == branch_id && a.message_id == message_id) || has_media branch_id message_id rest

abbrev pub in_thread : (branch_id thread_id : ℕ) → Bool → (at w : Time) → MessageRow → Bool
in_thread branch_id thread_id is_outgoing at w m =
    m.branch_id == branch_id
    && m.thread_id == thread_id
    && (if is_outgoing then is_out m.direction else not (is_out m.direction))
    && is_near at w m.occurred_at

-- `duplicate_by_content`, and `echo_of_our_own` with the direction out.
unfoldable pub duplicate_by_content :
    (branch_id thread_id : ℕ) → Bool → String → (at w : Time) → List MessageRow → Bool
duplicate_by_content branch_id thread_id is_outgoing text at w =
    any_message (λ m. in_thread branch_id thread_id is_outgoing at w m && str_eq m.text text)

-- The WHERE of `attachment_inbound_at`.
unfoldable pub is_attachment :
    (branch_id thread_id : ℕ) → List MediaAsset → (at : Time) → MessageRow → Bool
is_attachment branch_id thread_id media at m =
    in_thread branch_id thread_id false at dedup_window m
    && (is_some m.link_url || has_media branch_id m.id media)

-- `trim(text) = ''`: SQL trims the spaces alone.
unfoldable pub is_spaces : List ℕ → Bool
is_spaces [] = true
is_spaces (c ∷ s) = c == 32 && is_spaces s

-- The WHERE of `contentless_inbound_at`.
unfoldable pub is_blank_row :
    (branch_id thread_id : ℕ) → List MediaAsset → (at : Time) → MessageRow → Bool
is_blank_row branch_id thread_id media at m =
    in_thread branch_id thread_id false at dedup_window m
    && is_spaces (codes m.text)
    && is_none m.link_url
    && not (has_media branch_id m.id media)

-- `has_inbound`
unfoldable pub has_inbound : (branch_id thread_id : ℕ) → List MessageRow → Bool
has_inbound branch_id thread_id =
    any_message
      (λ m. m.branch_id == branch_id && m.thread_id == thread_id && not (is_out m.direction))

-- `_is_contentless`
unfoldable pub is_contentless : Inbound → Bool
is_contentless inbound = is_none inbound.media_url && is_empty (strip (codes inbound.text))

-- `_legacy_external_id`
unfoldable pub legacy_external_id : Given → Inbound → String
legacy_external_id g inbound =
    concat inbound.external_thread_id
      (concat ":" (concat (g.isoformat inbound.occurred_at) (concat ":" inbound.sender_id)))

-- `_external_id`
unfoldable pub synthetic_external_id : Given → Inbound → String
synthetic_external_id g inbound = concat inbound.external_thread_id (
    concat ":" (
      concat (g.isoformat inbound.occurred_at)
        (concat ":" (concat inbound.sender_id (concat ":" (g.digest inbound.text))))))

-- `session.add` of a changed message: it takes the place of the row with its id.
unfoldable pub put_message : MessageRow → List MessageRow → List MessageRow
put_message m [] = []
put_message m (x ∷ xs) = (if x.id == m.id then m else x) ∷ put_message m xs

-- `if inbound.media_url:` the stub that the backfill fills later.
abbrev pub media_stub : Given → (message_id : ℕ) → Inbound → List MediaAsset
media_stub g message_id inbound =
    if is_blank inbound.media_url
    then []
    else record {
      branch_id = g.branch_id;
      message_id = message_id;
      kind = or_text inbound.media_kind "image";
      url = or_text inbound.media_url "";
    }
      ∷ []
