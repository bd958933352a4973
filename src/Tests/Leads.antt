-- ===== src/Tests/Leads.antt =====
-- The funnel operations, the lead's life and the merge, at concrete leads.
use stepan.Prelude.{String, ◌≡◌, refl, true, false, Option, none, some, List, [], ◌∷◌, arith}
use stepan.Domain.Stage.{new, presenting, dormant, manager, human_led, value}
use stepan.Domain.Lead.{Lead}
use stepan.Conversation.Reactivation.{touched, wake, reactivate}
use stepan.Leads.Ingest.{revive_bot, claim_for_manager}
use stepan.Leads.Ops.{close_deal}
use stepan.Leads.Consolidate.Rows.{
  OwnedRow, repoint_unique, repoint_tags_unique, drop_owned, has_owner,
}
use stepan.Leads.Consolidate.Threads.{follow, mem, merge_all-threads}
use stepan.Leads.Consolidate.{
  Merge, pick_survivor, silence_bot, move_tables, absorb, merge_one, merge_all, merge_by_phone,
  retired, sharing,
}
use stepan.Leads.Consolidate.Merging.{
  absorb_conflict, merge_all-IsStanding, merge_by_phone_cycle, IsStanding, AllRetired, SamePeople,
}
use stepan.Lifecycle.{Reach, here, next, claim, revive, IsMuted, Reach-IsMuted, Reach-human_led}
use stepan.Lifecycle.Journaling
use stepan.Lifecycle.Journaling.{LoggedReach, replay, LoggedReach-replay}
use stepan.Tests.Samples.{lead_at, session, merge_start, classified, no_rows, noon}

-- A lead whose bot a person has switched off.
abbrev muted_lead : Lead
muted_lead = record (lead_at 7 dormant) { agent_enabled = false; agent_off_manual = true }

abbrev written_to : Lead
written_to = (revive_bot 1 20 noon muted_lead []).0

abbrev muted_run : Reach muted_lead (claim_for_manager 1 20 noon written_to []).0
muted_run = next (next here (revive 1 20 noon [] muted_lead)) (claim 1 20 noon [] written_to)

Reach-IsMuted_example : IsMuted (claim_for_manager 1 20 noon written_to []).0
Reach-IsMuted_example =
    Reach-IsMuted muted_run ((tt, tt), tt) (record { off = refl; by_hand = refl })

Reach-human_led_example : human_led (revive_bot 1 20 noon (lead_at 7 manager) []).0.stage ≡ true
Reach-human_led_example =
    Reach-human_led (next here (revive 1 20 noon [] (lead_at 7 manager))) (tt, tt) refl

LoggedReach-replay_example :
    replay (value manager) (close_deal session none noon).0.journal
    ≡ value (close_deal session none noon).0.lead.stage
LoggedReach-replay_example =
    LoggedReach-replay (Journaling.next Journaling.here (Journaling.close session none noon))

abbrev one_bubble : String → List String
one_bubble reply = reply ∷ []

abbrev newer : Option String → String → String
newer old dossier = dossier

abbrev as_is : String → String
as_is s = s

abbrev merge_result : Option Merge
merge_result = merge_all merge_start (lead_at 8 manager ∷ lead_at 9 new ∷ []) noon

merged : (m : Merge) × (merge_result ≡ some m)
unfolding merge_all merge_one absorb pick_survivor move_tables repoint_unique drop_owned
    repoint_tags_unique silence_bot
merged = (_, refl)

merge_all-threads_example :
    merged.0.threads ≡ follow (7 ∷ 8 ∷ 9 ∷ []) merged.0.survivor.id merge_start.threads
merge_all-threads_example =
    merge_all-threads merge_start (lead_at 8 manager ∷ lead_at 9 new ∷ []) noon merged.0 merged.1

merge_all-IsStanding_example :
    IsStanding merged.0.survivor
    × AllRetired (merged.0.survivor.id ∷ []) merged.0.retired_leads
    × SamePeople merge_start (lead_at 8 manager ∷ lead_at 9 new ∷ []) merged.0
unfolding mem
merge_all-IsStanding_example =
    merge_all-IsStanding merge_start (lead_at 8 manager) (lead_at 9 new ∷ []) noon merged.0 refl
      (refl, (refl, (refl, tt))) tt merged.1

absorb_conflict_example : absorb (lead_at 7 new) (lead_at 8 manager) [] classified noon ≡ none
unfolding has_owner
absorb_conflict_example =
    absorb_conflict (lead_at 7 new) (lead_at 8 manager) [] classified noon (omega arith) refl refl

abbrev two_owners : List OwnedRow
two_owners = record { lead_id = 7; content = 1 } ∷ record { lead_id = 8; content = 2 } ∷ []

-- Lead 8 was merged into lead 7, which a manager has since taken.
abbrev taken : Lead
taken = lead_at 7 manager

abbrev gone : Lead
gone = record (lead_at 8 presenting) { is_merged_into = some 7; agent_enabled = false }

cycled : (m : Merge) × (merge_by_phone taken (taken ∷ gone ∷ []) [] no_rows noon ≡ some (some m))
unfolding merge_by_phone sharing merge_all merge_one absorb pick_survivor move_tables repoint_unique
    drop_owned repoint_tags_unique silence_bot
cycled = (_, refl)

merge_by_phone_cycle_example :
    (cycled.0.survivor.id ≡ 8)
    × (cycled.0.survivor.is_merged_into ≡ some 7)
    × (cycled.0.retired_leads ≡ retired gone taken ∷ [])
unfolding sharing
merge_by_phone_cycle_example =
    merge_by_phone_cycle taken gone (taken ∷ gone ∷ []) [] no_rows noon cycled.0 refl refl refl
      (omega arith) refl refl cycled.1

-- A touch of a reactivation does not ask who switched the bot off.
woken_muted : (reactivate 1 20 noon touched muted_lead []).0.agent_enabled ≡ true
unfolding reactivate wake
woken_muted = refl
