-- ===== src/Leads/Inbox/Identity.antt =====
-- app/modules/leads/identity.py (IdentityService): whose message it is.
use stepan.Prelude.{
  ◌==◌, if◌then◌else◌, str_eq, is_none, is_some, is_blank, or_text, ℕ, ◌+◌, String, Bool, true,
  false, not, ◌&&◌, Option, none, some, List, [], ◌∷◌, ◌++◌,
}
use stepan.Conversation.Outbox.Store.{put_thread, find_lead, in_branch, put_lead}
use stepan.Domain.Lead.{Lead}
use stepan.Domain.Stage.{new}
use stepan.Domain.Thread.{ChannelThread}
use stepan.Leads.Inbox.{Inbound, Inbox, Given, thread_by_external}

-- `backfill`: an empty column takes the value, the avatar is always renewed.
abbrev pub fill : Option String → Option String → Option String
fill mine theirs = if not (is_blank theirs) && is_none mine then theirs else mine

unfoldable pub backfill :
    Inbound → (phone : Option String) → (ig_user_id : Option String) → Lead → Lead
backfill inbound phone ig_user_id lead = record lead {
  phone_e164 = fill lead.phone_e164 phone;
  display_name = fill lead.display_name inbound.sender_name;
  ig_user_id = fill lead.ig_user_id ig_user_id;
  ig_username = fill lead.ig_username inbound.sender_username;
  avatar_url = if is_blank inbound.sender_avatar then lead.avatar_url else inbound.sender_avatar;
}

-- LeadRepo.by_phone
unfoldable pub lead_by_phone : (branch_id : ℕ) → String → List Lead → Option Lead
lead_by_phone branch_id phone [] = none
lead_by_phone branch_id phone (l ∷ ls) =
    if l.branch_id == branch_id && is_some l.phone_e164 && str_eq (or_text l.phone_e164 "") phone
    then some l
    else lead_by_phone branch_id phone ls

-- `Lead(...)` with the defaults of its columns.
abbrev pub fresh_lead :
    Given → Inbound → (phone : Option String) → (ig_user_id : Option String) → (id : ℕ) → Lead
fresh_lead g inbound phone ig_user_id id = record {
  id = id;
  branch_id = g.branch_id;
  display_name = inbound.sender_name;
  avatar_url = inbound.sender_avatar;
  phone_e164 = phone;
  ig_user_id = ig_user_id;
  ig_username = inbound.sender_username;
  preferred_language = none;
  stage = new;
  ready_subtype = none;
  lead_type = none;
  audience = none;
  dossier = none;
  agent_enabled = true;
  agent_off_manual = false;
  is_blocked = false;
  is_merged_into = none;
  agreed_product_slug = none;
  agreed_price = none;
  handed_off_at = none;
  created_at = inbound.occurred_at;
}

abbrev pub fresh_thread : Given → Inbound → (lead_id id : ℕ) → ChannelThread
fresh_thread g inbound lead_id id = record {
  id = id;
  lead_id = lead_id;
  channel_id = g.channel_id;
  external_thread_id = inbound.external_thread_id;
  product_slug = none;
  product_source = none;
  window_until = none;
  last_in_at = none;
  last_out_at = none;
  msg_in = 0;
  msg_out = 0;
  lead_seen_at = none;
  next_followup_at = none;
  followups_sent = 0;
  lead_source = none;
  ad_id = none;
  ad_media_id = none;
  ad_preview_url = none;
}

-- Resolved, and the tables with the lead and the thread in them.
pub record Resolved : Type 0 where
  pub lead : Lead
  pub thread : ChannelThread
  pub is_created : Bool
  pub inbox : Inbox

-- `_resolve_lead` where no thread has the lead: the lead with the phone, or a new one.
abbrev pub lead_and_inbox :
    Given → Inbound → (phone ig_user_id : Option String) → Inbox → Option Lead → Lead × Inbox
lead_and_inbox g inbound phone ig_user_id s none =
    let l = fresh_lead g inbound phone ig_user_id s.next_lead_id in
    (l, record s { leads = s.leads ++ (l ∷ []); next_lead_id = s.next_lead_id + 1 })
lead_and_inbox g inbound phone ig_user_id s (some l) =
    let l' = backfill inbound phone ig_user_id l in (l', record s { leads = put_lead l' s.leads })

abbrev pub by_phone : Given → (phone : Option String) → List Lead → Option Lead
by_phone g phone leads =
    if is_blank phone then none else lead_by_phone g.branch_id (or_text phone "") leads

abbrev pub open_thread : Given → Inbound → Lead × Inbox → Resolved
open_thread g inbound (l, s) =
    let t = fresh_thread g inbound l.id s.next_thread_id in
    record {
      lead = l;
      thread = t;
      is_created = true;
      inbox = record s { threads = s.threads ++ (t ∷ []); next_thread_id = s.next_thread_id + 1 };
    }

-- `_upsert_thread` of a thread that exists.
abbrev pub keep_thread : ChannelThread → Lead × Inbox → Resolved
keep_thread t (l, s) =
    let t' = record t { lead_id = l.id } in
    record {
      lead = l;
      thread = t';
      is_created = false;
      inbox = record s { threads = put_thread t' s.threads };
    }

-- LeadRepo.get
abbrev pub lead_of : Given → ChannelThread → List Lead → Option Lead
lead_of g t leads =
    if in_branch g.branch_id (find_lead t.lead_id leads) then find_lead t.lead_id leads else none

abbrev pub or_lead : Option Lead → Option Lead → Option Lead
or_lead none found = found
or_lead (some l) found = some l

abbrev pub resolved_as :
    Given → Inbound → (phone ig_user_id : Option String) → Inbox → Option ChannelThread → Resolved
resolved_as g inbound phone ig_user_id s none =
    open_thread g inbound (lead_and_inbox g inbound phone ig_user_id s (by_phone g phone s.leads))
resolved_as g inbound phone ig_user_id s (some t) = keep_thread t (
    lead_and_inbox g inbound phone ig_user_id s
      (or_lead (lead_of g t s.leads) (by_phone g phone s.leads)))

-- `resolve_or_create`
unfoldable pub resolve_or_create : Given → Inbound → (phone : Option String) → Inbox → Resolved
resolve_or_create g inbound phone s =
    resolved_as g inbound phone
      (if is_blank inbound.lead_ig_user_id then some inbound.sender_id else inbound.lead_ig_user_id)
      s (thread_by_external g.branch_id g.channel_id inbound.external_thread_id s.leads s.threads)
