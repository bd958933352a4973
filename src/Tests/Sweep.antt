-- ===== src/Tests/Sweep.antt =====
-- The sweep of app/modules/leads/consolidate.py over three leads with one phone.
use stepan.Prelude.{length, ◌+◌, ◌≡◌, refl, false, some, List, [], ◌∷◌}
use stepan.Domain.Lead.{Lead}
use stepan.Domain.Stage.{manager, presenting}
use stepan.Leads.Consolidate.{
  pick_survivor, silence_bot, move_threads, move_tables, absorb, merge_one, merge_all,
}
use stepan.Leads.Consolidate.Rows.{repoint_unique, repoint_tags_unique, drop_owned}
use stepan.Leads.Consolidate.Sweep.{
  sharable, add_to_group, group_by_phone, Swept, sweep_groups, sweep, IsPartition, sweep-merged,
}
use stepan.Tests.Samples.{lead_at, thread_of, noon, no_rows}

-- Two leads with one phone and a third that was merged before.
abbrev family : List Lead
family =
    lead_at 7 manager
    ∷ lead_at 8 presenting
    ∷ record (lead_at 9 presenting) { is_merged_into = some 7 }
    ∷ []

abbrev after_sweep : Swept
after_sweep = record {
  leads =
      silence_bot (lead_at 8 presenting) noon
      ∷ record (lead_at 7 manager) { is_merged_into = some 8; agent_enabled = false }
      ∷ [];
  threads = thread_of 20 8 ∷ [];
  tables = no_rows;
  merged = 1;
}

sweep-merged_example :
    let found = sharable 1 family in
    let groups = group_by_phone found [] in
    (sweep_groups groups
        (record { leads = []; threads = thread_of 20 7 ∷ []; tables = no_rows; merged = 0 })
        noon
      ≡ some after_sweep)
    × (after_sweep.merged + length groups ≡ length found)
    × IsPartition found groups
unfolding sweep add_to_group merge_one pick_survivor absorb silence_bot move_tables repoint_unique
    repoint_tags_unique merge_all drop_owned move_threads
sweep-merged_example = sweep-merged 1 family (thread_of 20 7 ∷ []) no_rows noon after_sweep refl
