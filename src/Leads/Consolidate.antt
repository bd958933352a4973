-- ===== src/Leads/Consolidate.antt =====
-- app/modules/leads/consolidate.py: folding a lead into the one that shares its phone.
pub mod Rows
pub mod Threads
pub mod Merging
pub mod Sweep
use stepan.Prelude.{
  ℕ, String, false, not, ◌&&◌, Option, none, some, List, [], ◌∷◌, ◌==◌, if◌then◌else◌, str_eq,
  is_blank, or_text,
}
use stepan.Domain.Stage.{handed_off, is_manager, human_led}
use stepan.Domain.Lead.{Time, Lead}
use stepan.Domain.Thread.{ChannelThread}
use stepan.Leads.Consolidate.Rows.{
  OwnedRow, NeedTag, Tables, repoint, repoint_tags, drop_owned, repoint_unique, repoint_tags_unique,
}

-- `_pick_survivor`
unfoldable pub pick_survivor : Lead → Lead → Lead × Lead
pick_survivor a b = if not (is_manager a.stage) then (a, b) else (b, a)

abbrev pub or_time : Option Time → Time → Option Time
or_time none now = some now
or_time (some t) now = some t

-- `_silence_bot`
unfoldable pub silence_bot : Lead → Time → Lead
silence_bot lead now = if human_led lead.stage then lead else record lead {
  stage = handed_off;
  agent_enabled = false;
  handed_off_at = or_time lead.handed_off_at now;
}

-- `if not survivor.x and absorbed.x: survivor.x = absorbed.x`
abbrev pub keep_or : Option String → Option String → Option String
keep_or mine theirs = if is_blank mine && not (is_blank theirs) then theirs else mine

-- The loop over `_threads_of(absorbed)`.
unfoldable pub move_threads : (from to : ℕ) → List ChannelThread → List ChannelThread
move_threads from to [] = []
move_threads from to (t ∷ ts) =
    (if t.lead_id == from then record t { lead_id = to } else t) ∷ move_threads from to ts

-- The DELETE, and then the UPDATE of each table of `_FOLLOWS_THE_PERSON` in its order. `none` is
-- the IntegrityError of a unique key.
unfoldable pub move_tables : (from to : ℕ) → Tables → Option Tables
move_tables from to t = elim (repoint_unique from to (drop_owned from to t.crm_lead_state)) [
  | none ↦ none
  | some crm ↦ elim (repoint_tags_unique from to t.lead_need_tag) [
    | none ↦ none
    | some tags ↦ elim (repoint_unique from to t.need_lead_state) [
      | none ↦ none
      | some needs ↦ some (record {
        crm_lead_state = crm;
        stage_event = repoint from to t.stage_event;
        manager_alert = repoint from to t.manager_alert;
        lead_need_tag = tags;
        need_lead_state = needs;
      })
    ]
  ]
]

-- What `_absorb` leaves: the two leads, the threads and the tables.
pub record Absorbed : Type 0 where
  pub survivor : Lead
  pub absorbed : Lead
  pub threads : List ChannelThread
  pub tables : Tables

-- The lead that survives, and the row that is retired.
abbrev pub surviving : Lead → Lead → Time → Lead
surviving survivor absorbed now =
    silence_bot
      (record survivor {
        display_name = keep_or survivor.display_name absorbed.display_name;
        avatar_url = keep_or survivor.avatar_url absorbed.avatar_url;
      })
      now

abbrev pub retired : Lead → Lead → Lead
retired survivor absorbed = record absorbed {
  is_merged_into = some survivor.id;
  agent_enabled = false;
}

absorb_moved : Lead → Lead → List ChannelThread → Time → Option Tables → Option Absorbed
absorb_moved survivor absorbed threads now none = none
absorb_moved survivor absorbed threads now (some tables) = some (record {
  survivor = surviving survivor absorbed now;
  absorbed = retired survivor absorbed;
  threads = move_threads absorbed.id survivor.id threads;
  tables = tables;
})

-- `_absorb`; `none` is the exception of the database.
unfoldable pub absorb : Lead → Lead → List ChannelThread → Tables → Time → Option Absorbed
unfolding absorb_moved
absorb survivor absorbed threads tables now =
    if survivor.id == absorbed.id
    then some
        (record { survivor = survivor; absorbed = absorbed; threads = threads; tables = tables })
    else absorb_moved survivor absorbed threads now (move_tables absorbed.id survivor.id tables)

-- The state of the loop: the survivor so far, those retired, the threads and the tables.
pub record Merge : Type 0 where
  pub survivor : Lead
  pub retired_leads : List Lead
  pub threads : List ChannelThread
  pub tables : Tables

merge_done : Merge → Option Absorbed → Option Merge
merge_done m none = none
merge_done m (some a) = some (record {
  survivor = a.survivor;
  retired_leads = a.absorbed ∷ m.retired_leads;
  threads = a.threads;
  tables = a.tables;
})

-- The body of the loop of `merge_by_phone` and of `sweep`.
unfoldable pub merge_one : Merge → Lead → Time → Option Merge
unfolding merge_done
merge_one m other now =
    let (survivor, absorbed) = pick_survivor m.survivor other in
    merge_done m (absorb survivor absorbed m.threads m.tables now)

abbrev pub and_then : Option Merge → (Merge → Option Merge) → Option Merge
and_then none f = none
and_then (some m) f = f m

-- `for other in others`
unfoldable pub merge_all : Merge → List Lead → Time → Option Merge
merge_all m [] now = some m
merge_all m (other ∷ others) now = and_then (merge_one m other now) (λ m'. merge_all m' others now)

-- The rows of merge_by_phone's query: the branch's other leads with the phone.
unfoldable pub sharing : Lead → String → List Lead → List Lead
sharing lead phone [] = []
sharing lead phone (l ∷ ls) =
    let rest = sharing lead phone ls in
    if l.branch_id == lead.branch_id
      && str_eq (or_text l.phone_e164 "") phone
      && not (l.id == lead.id)
    then l ∷ rest
    else rest

unfoldable pub merge_others :
    Lead → List Lead → List ChannelThread → Tables → Time → Option (Option Merge)
merge_others lead [] threads tables now = some none
merge_others lead (o ∷ os) threads tables now =
    elim (merge_all
      (record { survivor = lead; retired_leads = []; threads = threads; tables = tables }) (o ∷ os)
      now) [ none ↦ none | some m ↦ some (some m) ]

-- `merge_by_phone` of a lead among the branch's leads: the exception, no merge, or the merge.
unfoldable pub merge_by_phone :
    Lead → List Lead → List ChannelThread → Tables → Time → Option (Option Merge)
unfolding merge_others
merge_by_phone lead leads threads tables now =
    if is_blank lead.phone_e164
    then some none
    else merge_others lead (sharing lead (or_text lead.phone_e164 "") leads) threads tables now
