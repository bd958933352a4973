-- ===== src/Leads/Inbox/Advance/Batches.antt =====
-- The read receipts and the messages of a batch (app/modules/leads/ingest.py, identity.py).
use stepan.Prelude.{
  ◌==◌, str_eq, Bool-cases, Option-cases, if_intro, ℕ, String, ◌≡◌, refl, sym, inl, inr, true,
  false, ◌&&◌, Option, none, some, List, [], ◌∷◌, ◌++◌, arith,
}
use mathlib.Core.List.{Memᴰ}
use stepan.Conversation.Outbox.Store.{find_lead, in_branch}
use stepan.Domain.Lead.{Time, Lead}
use stepan.Domain.Message.{is_out, MessageRow}
use stepan.Domain.Thread.{ChannelThread}
use stepan.Leads.Inbox.{Inbound, Inbox, Given, thread_by_external}
use stepan.Leads.Inbox.Advance.{
  marks, IsAdvance, IsKeyed, IsAdvance-refl, AllAdvance-append, IsKeyed-append,
}
use stepan.Leads.Inbox.Advance.Saved.{
  put_thread-Mem, Advances, save-Advances, stay-Advances, Advances-trans,
}
use stepan.Leads.Inbox.Advance.Turns.{
  with_receipt-IsAdvance, store_incoming-Advances, outgoing_on-Advances,
}
use stepan.Leads.Inbox.Batch.{
  latest_seen, receipt_on, advance_each, advance_read_receipts, external_id_of, is_ingested,
  claimed_on_phone, ingest_incoming, ingest_one, and_created, ingest_each,
}
use stepan.Leads.Inbox.Identity.{
  backfill, fresh_thread, Resolved, lead_and_inbox, by_phone, open_thread, keep_thread, lead_of,
  resolved_as, resolve_or_create,
}
use stepan.Leads.Inbox.Incoming.{store_incoming}
use stepan.Leads.Inbox.Outgoing.{store_outgoing}
use stepan.Leads.Inbox.Talk.{or_else, with_receipt}

thread_by_external-found :
    (branch_id channel_id : ℕ) (external_id : String) (leads : List Lead) (ts : List ChannelThread)
    (t : ChannelThread)
    → thread_by_external branch_id channel_id external_id leads ts ≡ some t
    → Memᴰ t ts × (in_branch branch_id (find_lead t.lead_id leads) ≡ true)
unfolding thread_by_external
thread_by_external-found b c ext leads [] t e = absurd (cc e)
thread_by_external-found b c ext leads (x ∷ xs) t e =
    elim (Bool-cases (
      x.channel_id == c
      && str_eq x.external_thread_id ext
      && in_branch b (find_lead x.lead_id leads))) [
        | inl hit ↦
            let same_row : x ≡ t = ground (arith, (rw hit at e)) in
            let ours : in_branch b (find_lead x.lead_id leads) ≡ true = ground (arith, hit) in
            (Memᴰ.head (sym same_row), rw (sym same_row) ours)
        | inr miss ↦
            let (m, ours) = thread_by_external-found b c ext leads xs t (rw miss at e) in
            (Memᴰ.tail m, ours)
      ]

find_lead-id : (id : ℕ) (ls : List Lead) (l : Lead) → find_lead id ls ≡ some l → l.id ≡ id
unfolding find_lead
find_lead-id id [] l e = absurd (cc e)
find_lead-id id (x ∷ xs) l e = elim (Bool-cases (x.id == id)) [
  | inl hit ↦ let same_row : x ≡ l = ground (arith, (rw hit at e)) in ground (arith, same_row, hit)
  | inr miss ↦ find_lead-id id xs l (rw miss at e)
]

-- The lead of a thread that was looked up is the branch's, and its id the thread's.
lead_of-found :
    (g : Given) (t : ChannelThread) (leads : List Lead)
    → in_branch g.branch_id (find_lead t.lead_id leads) ≡ true
    → (l : Lead) × (lead_of g t leads ≡ some l) × (l.id ≡ t.lead_id)
lead_of-found g t leads h = elim (Option-cases (find_lead t.lead_id leads)) [
  | inl missing ↦ let no : false ≡ true = rw missing at h in absurd (cc no)
  | inr (l, e) ↦ (l, rw h e, find_lead-id t.lead_id leads l e)
]

-- Where a turn starts once its thread is resolved.
record Resolves (s : Inbox) (r : Resolved) : Type 0 where
  pub advances : Advances s r.inbox
  pub in_table : Memᴰ r.thread r.inbox.threads

Mem-last : (t : ChannelThread) (ts : List ChannelThread) → Memᴰ t (ts ++ (t ∷ []))
Mem-last t [] = Memᴰ.head refl
Mem-last t (x ∷ xs) = Memᴰ.tail (Mem-last t xs)

module _ (g : Given) (inbound : Inbound) where
  keep_thread-Resolves :
      (s : Inbox) (t : ChannelThread) (p : Lead × Inbox)
      → IsKeyed s.threads s.next_thread_id
      → Memᴰ t s.threads
      → p.0.id ≡ t.lead_id
      → p.1.threads ≡ s.threads
      → p.1.next_thread_id ≡ s.next_thread_id
      → Resolves s (keep_thread t p)
  keep_thread-Resolves s t (l, q) k m e f n =
      let kept : IsAdvance (marks t) (marks (record t { lead_id = l.id })) =
        rw e (IsAdvance-refl (marks t)) in
      record {
        advances =
            save-Advances s (keep_thread t (l, q)).inbox t (record t { lead_id = l.id }) k m kept
              (rw f refl) n;
        in_table = rw f (put_thread-Mem t (record t { lead_id = l.id }) s.threads m refl);
      }

  open_thread-Resolves :
      (s : Inbox) (p : Lead × Inbox)
      → IsKeyed s.threads s.next_thread_id
      → p.1.threads ≡ s.threads
      → p.1.next_thread_id ≡ s.next_thread_id
      → Resolves s (open_thread g inbound p)
  open_thread-Resolves s (l, q) k f n = record {
    advances = record {
      moves =
          rw f (AllAdvance-append s.threads (fresh_thread g inbound l.id q.next_thread_id ∷ []));
      keyed =
          rw (f, n)
            (IsKeyed-append (fresh_thread g inbound l.id s.next_thread_id) s.threads
              s.next_thread_id refl k);
    };
    in_table = Mem-last (fresh_thread g inbound l.id q.next_thread_id) q.threads;
  }

  lead_and_inbox-threads :
      (phone ig : Option String) (s : Inbox) (l : Option Lead)
      → ((lead_and_inbox g inbound phone ig s l).1.threads ≡ s.threads)
        × ((lead_and_inbox g inbound phone ig s l).1.next_thread_id ≡ s.next_thread_id)
  lead_and_inbox-threads phone ig s none = (refl, refl)
  lead_and_inbox-threads phone ig s (some l) = (refl, refl)

  resolved_as-Resolves :
      (phone ig : Option String) (s : Inbox) (t : Option ChannelThread)
      → IsKeyed s.threads s.next_thread_id
      → ((u : ChannelThread)
          → t ≡ some u
          → Memᴰ u s.threads × (in_branch g.branch_id (find_lead u.lead_id s.leads) ≡ true))
      → Resolves s (resolved_as g inbound phone ig s t)
  unfolding backfill
  resolved_as-Resolves phone ig s none k m =
      let same_threads = lead_and_inbox-threads phone ig s (by_phone g phone s.leads) in
      open_thread-Resolves s (lead_and_inbox g inbound phone ig s (by_phone g phone s.leads)) k
        same_threads.0 same_threads.1
  resolved_as-Resolves phone ig s (some t) k m =
      let (in_table, ours) = m t refl in
      let (l, e, own) = lead_of-found g t s.leads ours in
      rw e (
        keep_thread-Resolves s t (lead_and_inbox g inbound phone ig s (some l)) k in_table own refl
          refl)

  resolve_or_create-Resolves :
      (phone : Option String) (s : Inbox)
      → IsKeyed s.threads s.next_thread_id
      → Resolves s (resolve_or_create g inbound phone s)
  unfolding resolve_or_create
  resolve_or_create-Resolves phone s k = resolved_as-Resolves phone _ s _ k (λ u e.
      thread_by_external-found g.branch_id g.channel_id inbound.external_thread_id s.leads s.threads
        u e)

  claimed-Resolves : (s : Inbox) (r : Resolved) → Resolves s r → Resolves s (claimed_on_phone g r)
  unfolding claimed_on_phone
  claimed-Resolves s r h =
      if_intro (Resolves s) (g.is_manager_phone && r.is_created)
        (λ _. record {
          advances = record { moves = h.advances.moves; keyed = h.advances.keyed };
          in_table = h.in_table;
        })
        (λ _. h)

  ingest_incoming-Advances :
      (s : Inbox) → IsKeyed s.threads s.next_thread_id → Advances s (ingest_incoming g inbound s).0
  unfolding ingest_incoming
  ingest_incoming-Advances s k =
      let phone = or_else inbound.lead_phone (g.extract_phone inbound.text) in
      let r = claimed_on_phone g (resolve_or_create g inbound phone s) in
      let h =
        claimed-Resolves s (resolve_or_create g inbound phone s)
          (resolve_or_create-Resolves phone s k) in
      Advances-trans s r.inbox
        (store_incoming g (external_id_of g inbound) inbound r.lead r.thread r.inbox).0 h.advances
        (store_incoming-Advances g (external_id_of g inbound) inbound r.lead r.thread r.inbox
          h.advances.keyed h.in_table)

  ingest_one-Advances :
      (s : Inbox) → IsKeyed s.threads s.next_thread_id → Advances s (ingest_one g inbound s).0
  unfolding ingest_one store_outgoing
  ingest_one-Advances s k =
      if_intro (λ (p : Inbox × Option MessageRow). Advances s p.0)
        (is_ingested g inbound s.messages) (λ _. stay-Advances s s k refl refl)
        (λ _.
          if_intro (λ (p : Inbox × Option MessageRow). Advances s p.0) (is_out inbound.direction)
            (λ _. outgoing_on-Advances g (external_id_of g inbound) inbound s _ k (λ u e.
              (thread_by_external-found g.branch_id g.channel_id inbound.external_thread_id s.leads
                s.threads u e).0))
            (λ _. ingest_incoming-Advances s k))

module _ (g : Given) where
  receipt_on-Advances :
      (at : Time) (s : Inbox) (t : Option ChannelThread)
      → IsKeyed s.threads s.next_thread_id
      → ((u : ChannelThread) → t ≡ some u → Memᴰ u s.threads)
      → Advances s (receipt_on at s t)
  receipt_on-Advances at s none k m = stay-Advances s s k refl refl
  receipt_on-Advances at s (some t) k m =
      save-Advances s _ t (with_receipt (some at) t) k (m t refl)
        (with_receipt-IsAdvance (some at) t) refl refl

  advance_each-Advances :
      (seen : List (String × Time)) (s : Inbox)
      → IsKeyed s.threads s.next_thread_id
      → Advances s (advance_each g seen s)
  unfolding advance_each
  advance_each-Advances [] s k = stay-Advances s s k refl refl
  advance_each-Advances ((ext, at) ∷ rest) s k =
      let q = receipt_on at s (thread_by_external g.branch_id g.channel_id ext s.leads s.threads) in
      let first =
        receipt_on-Advances at s (thread_by_external g.branch_id g.channel_id ext s.leads s.threads)
          k
          (λ u e.
            (thread_by_external-found g.branch_id g.channel_id ext s.leads s.threads u e).0) in
      Advances-trans s q (advance_each g rest q) first (advance_each-Advances rest q first.keyed)

  pub ingest_each-Advances :
      (batch : List Inbound) (s : Inbox) (created : List ℕ)
      → IsKeyed s.threads s.next_thread_id
      → Advances s (ingest_each g batch s created).0
  unfolding ingest_each
  ingest_each-Advances [] s created k = stay-Advances s s k refl refl
  ingest_each-Advances (m ∷ ms) s created k =
      let first = ingest_one-Advances g m s k in
      let q = (ingest_one g m s).0 in
      let more = and_created created (ingest_one g m s).1 in
      Advances-trans s q (ingest_each g ms q more).0 first
        (ingest_each-Advances ms q more first.keyed)

  pub advance_read_receipts-Advances :
      (batch : List Inbound) (s : Inbox)
      → IsKeyed s.threads s.next_thread_id
      → Advances s (advance_read_receipts g batch s)
  unfolding advance_read_receipts
  advance_read_receipts-Advances batch s k = advance_each-Advances (latest_seen batch []) s k
