-- ===== src/Leads/Inbox/Advance/Whole.antt =====
-- The whole batch of app/modules/leads/ingest.py, its identity pass included: what it can do to a thread.
use stepan.Prelude.{ℕ, ◌≡◌, Option, none, some, List}
use stepan.Domain.Lead.{Lead}
use stepan.Domain.Thread.{ChannelThread}
use stepan.Leads.Consolidate.Rows.{Tables}
use stepan.Leads.Inbox.{Inbox}
use stepan.Leads.Inbox.Advance.Saved.{Advances}
use stepan.Leads.Inbox.Advance.Repointed.{Repoints}

-- Only merges between these threads and this inbox: none is opened.
pub record IsRepointed (ts : List ChannelThread) (next : ℕ) (s : Inbox) : Type 0 where
  pub moves : Repoints ts s.threads
  pub same_next : s.next_thread_id ≡ next

-- What a pass that succeeds leaves is re-pointed.
abbrev Repointing : List ChannelThread → ℕ → Option (Inbox × Tables) → Type 0
Repointing ts next none = Unit
Repointing ts next (some p) = IsRepointed ts next p.0

-- A batch in its three parts: the read receipts, the identity pass, and the messages.
pub record IsSettled (before after : Inbox) : Type 0 where
  pub seen : Inbox
  pub named : Inbox
  pub receipts : Advances before seen
  pub merges : IsRepointed seen.threads seen.next_thread_id named
  pub messages : Advances named after
