-- ===== src/Leads/Inbox/Once.antt =====
-- A message of a batch becomes one row, and none when it comes again
-- (app/modules/leads/ingest.py, IngestService.ingest).
use stepan.Prelude.{
  length, length-append, ◌==◌, str_eq, str_eq_iff, Bool-cases, is_none, is_blank, if_intro, ℕ, ◌+◌,
  String, ◌≡◌, refl, ◌∙◌, inl, inr, Bool, true, false, not, ◌&&◌, ◌||◌, Option, none, some, List,
  [], ◌∷◌, ◌++◌, arith,
}
use stepan.Domain.Lead.{Lead}
use stepan.Domain.Message.{is_out, MessageRow}
use stepan.Domain.Thread.{ChannelThread}
use stepan.Leads.Inbox.{
  Inbound, Inbox, Given, out_echo_window, has_external_id, any_message, is_known,
  duplicate_by_content, is_attachment, is_contentless, put_message,
}
use stepan.Leads.Inbox.Batch.{
  external_id_of, is_ingested, claimed_on_phone, ingest_incoming, ingest_one, and_created,
  ingest_each,
}
use stepan.Leads.Inbox.Identity.{Resolved, lead_and_inbox, resolved_as, resolve_or_create}
use stepan.Leads.Inbox.Incoming.{
  fill_in_blank, stored, is_repeat, unless_repeat, or_filled, store_incoming,
}
use stepan.Leads.Inbox.Outgoing.{outgoing_on, store_outgoing}
use stepan.Leads.Inbox.Talk.{or_else}

pub length-put_message :
    (m : MessageRow) (ms : List MessageRow) → length (put_message m ms) ≡ length ms
unfolding put_message
length-put_message m [] = refl
length-put_message m (x ∷ xs) = omega (arith, length-put_message m xs)

-- What a turn leaves of the messages: one row more, of this key, or as many as before.
abbrev pub Grows : Given → String → List MessageRow → Inbox × Option MessageRow → Type 0
Grows g external_id ms (s, none) = length s.messages ≡ length ms
Grows g external_id ms (s, some m) =
    (s.messages ≡ ms ++ (m ∷ [])) × (has_external_id g.branch_id g.channel_id external_id m ≡ true)

own_key :
    (g : Given) (external_id : String)
    → ((g.branch_id == g.branch_id)
        && (g.channel_id == g.channel_id)
        && str_eq external_id external_id)
      ≡ true
own_key g external_id =
    let same_text : str_eq external_id external_id ≡ true =
      (str_eq_iff external_id external_id).1 refl in
    ground (arith, same_text)

module _ (g : Given) (external_id : String) (inbound : Inbound) where
  abbrev GrowsFrom : Inbox → Inbox × Option MessageRow → Type 0
  GrowsFrom s p = Grows g external_id s.messages p

  stored-Grows :
      (lead : Lead) (thread : ChannelThread) (s : Inbox)
      → GrowsFrom s (stored g external_id inbound lead thread s)
  unfolding stored
  stored-Grows lead thread s = (refl, own_key g external_id)

  unless_repeat-Grows :
      (lead : Lead) (thread : ChannelThread) (s : Inbox)
      → GrowsFrom s (unless_repeat g external_id inbound lead thread s)
  unfolding unless_repeat
  unless_repeat-Grows lead thread s =
      if_intro (GrowsFrom s) (is_repeat g thread.id inbound s.messages) (λ _. refl)
        (λ _. stored-Grows lead thread s)

  or_filled-Grows :
      (lead : Lead) (thread : ChannelThread) (s : Inbox) (row : Option MessageRow)
      → GrowsFrom s (or_filled g external_id inbound lead thread s row)
  unfolding or_filled fill_in_blank
  or_filled-Grows lead thread s none = unless_repeat-Grows lead thread s
  or_filled-Grows lead thread s (some row) = length-put_message _ s.messages

  store_incoming-Grows :
      (lead : Lead) (thread : ChannelThread) (s : Inbox)
      → GrowsFrom s (store_incoming g external_id inbound lead thread s)
  unfolding store_incoming
  store_incoming-Grows lead thread s =
      if_intro (GrowsFrom s) (is_contentless inbound)
        (λ _.
          if_intro (GrowsFrom s)
            (any_message (is_attachment g.branch_id thread.id s.media inbound.occurred_at)
              s.messages)
            (λ _. refl) (λ _. unless_repeat-Grows lead thread s))
        (λ _.
          if_intro (GrowsFrom s)
            (not (is_blank inbound.media_url) || not (is_blank inbound.link_url))
            (λ _. or_filled-Grows lead thread s _) (λ _. unless_repeat-Grows lead thread s))

  outgoing_on-Grows :
      (s : Inbox) (t : Option ChannelThread) → GrowsFrom s (outgoing_on g external_id inbound s t)
  unfolding outgoing_on
  outgoing_on-Grows s none = refl
  outgoing_on-Grows s (some t) =
      if_intro (GrowsFrom s)
        (is_none inbound.media_url
          && duplicate_by_content g.branch_id t.id true inbound.text inbound.occurred_at
              out_echo_window s.messages)
        (λ _. refl) (λ _. (refl, own_key g external_id))

lead_and_inbox-messages :
    (g : Given) (inbound : Inbound) (phone ig : Option String) (s : Inbox) (l : Option Lead)
    → (lead_and_inbox g inbound phone ig s l).1.messages ≡ s.messages
lead_and_inbox-messages g inbound phone ig s none = refl
lead_and_inbox-messages g inbound phone ig s (some l) = refl

resolved_as-messages :
    (g : Given) (inbound : Inbound) (phone ig : Option String) (s : Inbox)
    (t : Option ChannelThread)
    → (resolved_as g inbound phone ig s t).inbox.messages ≡ s.messages
resolved_as-messages g inbound phone ig s none = lead_and_inbox-messages g inbound phone ig s _
resolved_as-messages g inbound phone ig s (some t) = lead_and_inbox-messages g inbound phone ig s _

claimed-messages :
    (g : Given) (r : Resolved) → (claimed_on_phone g r).inbox.messages ≡ r.inbox.messages
unfolding claimed_on_phone
claimed-messages g r =
    if_intro (λ (x : Resolved). x.inbox.messages ≡ r.inbox.messages)
      (g.is_manager_phone && r.is_created) (λ _. refl) (λ _. refl)

ingest_one-Grows :
    (g : Given) (inbound : Inbound) (s : Inbox)
    → Grows g (external_id_of g inbound) s.messages (ingest_one g inbound s)
unfolding ingest_one store_outgoing ingest_incoming resolve_or_create
ingest_one-Grows g inbound s =
    if_intro (Grows g (external_id_of g inbound) s.messages) (is_ingested g inbound s.messages)
      (λ _. refl)
      (λ _.
        if_intro (Grows g (external_id_of g inbound) s.messages) (is_out inbound.direction)
          (λ _. outgoing_on-Grows g (external_id_of g inbound) inbound s _)
          (λ _.
            let phone = or_else inbound.lead_phone (g.extract_phone inbound.text) in
            let r = resolve_or_create g inbound phone s in
            let q = claimed_on_phone g r in
            let same_messages : q.inbox.messages ≡ s.messages =
              claimed-messages g r ∙ resolved_as-messages g inbound phone _ s _ in
            rw same_messages at
              (store_incoming-Grows g (external_id_of g inbound) inbound q.lead q.thread q.inbox)))

pub any_message-last :
    (p : MessageRow → Bool) (m : MessageRow) (ms : List MessageRow)
    → p m ≡ true
    → any_message p (ms ++ (m ∷ [])) ≡ true
unfolding any_message
any_message-last p m [] h = ground (arith, h)
any_message-last p m (x ∷ xs) h = ground (arith, any_message-last p m xs h)

Grows-created :
    (g : Given) (external_id : String) (ms : List MessageRow) (p : Inbox × Option MessageRow)
    (m : MessageRow)
    → p.1 ≡ some m
    → Grows g external_id ms p
    → (p.0.messages ≡ ms ++ (m ∷ []))
      × (has_external_id g.branch_id g.channel_id external_id m ≡ true)
Grows-created g external_id ms (s, none) m e h = absurd (cc e)
Grows-created g external_id ms (s, some x) m e h =
    let same_row : x ≡ m = ground (arith, e) in rw same_row at h

Grows-length :
    (g : Given) (external_id : String) (ms : List MessageRow) (p : Inbox × Option MessageRow)
    (created : List ℕ)
    → Grows g external_id ms p
    → length p.0.messages + length created ≡ length ms + length (and_created created p.1)
Grows-length g external_id ms (s, none) created h = omega (arith, h)
Grows-length g external_id ms (s, some m) created (h, _) =
    rw h (omega (arith, length-append ms (m ∷ []), length-append created (m.id ∷ [])))

known-skipped :
    (g : Given) (inbound : Inbound) (s : Inbox)
    → is_known g.branch_id g.channel_id (external_id_of g inbound) s.messages ≡ true
    → ingest_one g inbound s ≡ (s, none)
unfolding ingest_one is_ingested
known-skipped g inbound s h = rw h refl

created-unknown :
    (g : Given) (inbound : Inbound) (s : Inbox) (m : MessageRow)
    → (ingest_one g inbound s).1 ≡ some m
    → is_known g.branch_id g.channel_id (external_id_of g inbound) s.messages ≡ false
created-unknown g inbound s m e =
    elim (Bool-cases (is_known g.branch_id g.channel_id (external_id_of g inbound) s.messages)) [
      | inl known ↦
          let skipped_again : none ≡ some m = rw (known-skipped g inbound s known) at e in
          absurd (cc skipped_again)
      | inr unknown ↦ unknown
    ]

-- A turn that creates a row: its key was unknown and is the message's, the row is the only change of
-- the messages, and the same message again changes nothing.
pub ingest_one_once :
    (g : Given) (inbound : Inbound) (s : Inbox) (m : MessageRow)
    → (ingest_one g inbound s).1 ≡ some m
    → let s' = (ingest_one g inbound s).0 in
      (is_known g.branch_id g.channel_id (external_id_of g inbound) s.messages ≡ false)
      × (has_external_id g.branch_id g.channel_id (external_id_of g inbound) m ≡ true)
      × (s'.messages ≡ s.messages ++ (m ∷ []))
      × (ingest_one g inbound s' ≡ (s', none))
ingest_one_once g inbound s m e =
    let p = ingest_one g inbound s in
    let grown : (p.0.messages ≡ s.messages ++ (m ∷ []))
        × (has_external_id g.branch_id g.channel_id (external_id_of g inbound) m ≡ true) =
      Grows-created g (external_id_of g inbound) s.messages p m e (ingest_one-Grows g inbound s) in
    (
      created-unknown g inbound s m e,
      grown.1,
      grown.0,
      known-skipped g inbound p.0 (
          rw grown.0 (
            unfold is_known in
            any_message-last (has_external_id g.branch_id g.channel_id (external_id_of g inbound)) m
              s.messages grown.1)),
    )

-- A batch loses no message, and has as many rows more as it says it created.
pub ingest_each-length :
    (g : Given) (batch : List Inbound) (s : Inbox) (created : List ℕ)
    → length (ingest_each g batch s created).0.messages + length created
      ≡ length s.messages + length (ingest_each g batch s created).1
unfolding ingest_each
ingest_each-length g [] s created = refl
ingest_each-length g (m ∷ ms) s created =
    let rest =
      ingest_each-length g ms (ingest_one g m s).0 (and_created created (ingest_one g m s).1) in
    let step =
      Grows-length g (external_id_of g m) s.messages (ingest_one g m s) created
        (ingest_one-Grows g m s) in
    omega (arith, rest, step)
