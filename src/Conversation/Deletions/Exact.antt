-- ===== src/Conversation/Deletions/Exact.antt =====
-- What one call of DeletionService.process (app/modules/conversation/deletions.py) does to every row:
-- its loop against a description row by row.
use stepan.Prelude.{
  count_if, All-map, ◌==◌, if◌then◌else◌, Bool-cases, if_intro, ℕ, ◌+◌, String, ◌≡◌, refl, sym, ◌∙◌,
  inl, inr, Bool, true, false, not, ◌&&◌, Option, some, List, [], ◌∷◌, map, arith,
}
use stepan.Conversation.Deletions.{
  Chat, Answer, awaits_revoke, awaiting, insert_by_time, sort_by_time, pending_deletions,
  is_too_old, set_message, clear_flag, tombstone, delete_local, Progress, answered, give_up,
  process_one, process_each, process, accepted, declined, timed_out, broken,
}
use stepan.Conversation.Deletions.Order.{
  DistinctIds, hits, map_pointwise, map-map, map_all, map_same, Alone, Alone-of_distinct,
  hits-pending_deletions,
}
use stepan.Domain.Lead.{Time}
use stepan.Domain.Message.{MessageRow}

abbrev is_accepted : Answer → Bool
is_accepted accepted = true
is_accepted _ = false

abbrev pub is_broken : Answer → Bool
is_broken broken = true
is_broken _ = false

abbrev after_answer : (now : Time) → Answer → MessageRow → MessageRow
after_answer now accepted x = tombstone now x
after_answer now _ x = x

module _ (now : Time) (external_thread_id : String) (revoke : String → String → Answer) where
  -- The message is young enough and the platform took it back.
  abbrev pub is_unsent : MessageRow → Bool
  is_unsent m = not (is_too_old now m) && is_accepted (revoke external_thread_id m.external_id)

  -- A row after its own turn: given up, unsent, or as it was.
  abbrev pub own_turn : MessageRow → MessageRow
  own_turn m =
      if is_too_old now m
      then clear_flag m
      else after_answer now (revoke external_thread_id m.external_id) m

  settle_as : MessageRow → MessageRow → MessageRow
  settle_as p x =
      if is_too_old now p
      then clear_flag x
      else after_answer now (revoke external_thread_id p.external_id) x

  each : MessageRow → MessageRow → MessageRow
  unfolding settle_as
  each p x = if x.id == p.id then settle_as p x else x

  turns : List MessageRow → MessageRow → MessageRow
  unfolding each
  turns [] x = x
  turns (p ∷ ps) x = turns ps (each p x)

  after_answer-id : (a : Answer) (x : MessageRow) → (after_answer now a x).id ≡ x.id
  after_answer-id accepted x = refl
  after_answer-id declined x = refl
  after_answer-id timed_out x = refl
  after_answer-id broken x = refl

  each-id : (p x : MessageRow) → (each p x).id ≡ x.id
  unfolding each settle_as
  each-id p x =
      if_intro (λ (y : MessageRow). y.id ≡ x.id) (x.id == p.id)
        (λ _.
          if_intro (λ (y : MessageRow). y.id ≡ x.id) (is_too_old now p) (λ _. refl)
            (λ _. after_answer-id (revoke external_thread_id p.external_id) x))
        (λ _. refl)

  each-apart : (p x : MessageRow) → (p.id == x.id) ≡ false → each p x ≡ x
  unfolding each
  each-apart p x h = let h' : (x.id == p.id) ≡ false = ground (arith, h) in rw h' refl

  each-own : (x : MessageRow) → each x x ≡ own_turn x
  unfolding each settle_as
  each-own x = let own : (x.id == x.id) ≡ true = ground arith in rw own refl

  -- Only the turns of the rows with its id move a row.
  turns-hits :
      (n : ℕ) (ps : List MessageRow) (x : MessageRow) → x.id ≡ n → turns ps x ≡ turns (hits n ps) x
  unfolding turns hits
  turns-hits n [] x e = refl
  turns-hits n (p ∷ ps) x e = elim (Bool-cases (p.id == n)) [
    | inl hit ↦ rw hit (turns-hits n ps (each p x) (each-id p x ∙ e))
    | inr miss ↦ rw (miss, each-apart p x (rw (sym e) at miss)) (turns-hits n ps x e)
  ]

  record Turned (p : Progress) (messages : List MessageRow) (n : ℕ) (q : Option Progress)
      : Type 0 where
    pub end : Progress
    pub ends : q ≡ some end
    pub messages_after : end.chat.messages ≡ messages
    pub done_after : end.done ≡ p.done + n

  abbrev as_count : Bool → ℕ
  as_count true = 1
  as_count false = 0

  answered-Turned :
      (m : MessageRow) (a : Answer) (p : Progress)
      → is_broken a ≡ false
      → Turned p
          (map (λ x. if x.id == m.id then after_answer now a x else x) p.chat.messages)
          (as_count (is_accepted a))
          (answered now external_thread_id revoke m a p)
  unfolding answered delete_local set_message
  answered-Turned m accepted p h = record {
    end = _;
    ends = refl;
    messages_after = refl;
    done_after = refl;
  }
  answered-Turned m declined p h = record {
    end = p;
    ends = refl;
    messages_after = sym (map_same _ p.chat.messages (λ x. ground arith));
    done_after = omega arith;
  }
  answered-Turned m timed_out p h = record {
    end = p;
    ends = refl;
    messages_after = sym (map_same _ p.chat.messages (λ x. ground arith));
    done_after = omega arith;
  }
  answered-Turned m broken p h = absurd (cc h)

  process_one-Turned :
      (m : MessageRow) (p : Progress)
      → is_broken (revoke external_thread_id m.external_id) ≡ false
      → Turned p
          (map (each m) p.chat.messages)
          (as_count (is_unsent m))
          (process_one now external_thread_id revoke m p)
  unfolding process_one each settle_as give_up set_message
  process_one-Turned m p h = elim (Bool-cases (is_too_old now m)) [
    | inl old ↦ rw old (record {
      end = give_up now external_thread_id revoke m p;
      ends = refl;
      messages_after = map_all _ (each m) p.chat.messages (λ x. rw old refl);
      done_after = omega arith;
    })
    | inr young ↦
        let t = answered-Turned m _ p h in
        rw young (record {
          end = t.end;
          ends = t.ends;
          messages_after =
              t.messages_after ∙ map_all _ (each m) p.chat.messages (λ x. rw young refl);
          done_after = t.done_after;
        })
  ]

  process_each-Turned :
      (ps : List MessageRow) (p : Progress)
      → ((id : String) → is_broken (revoke external_thread_id id) ≡ false)
      → Turned p
          (map (turns ps) p.chat.messages)
          (count_if is_unsent ps)
          (process_each now external_thread_id revoke ps p)
  unfolding process_each turns
  process_each-Turned [] p h = record {
    end = p;
    ends = refl;
    messages_after = sym (map_same _ p.chat.messages (λ x. refl));
    done_after = omega arith;
  }
  process_each-Turned (m ∷ ms) p h =
      let first = process_one-Turned m p (h m.external_id) in
      let rest = process_each-Turned ms first.end h in
      record {
        end = rest.end;
        ends = rw first.ends rest.ends;
        messages_after =
            rest.messages_after ∙ (rw first.messages_after (map-map _ _ p.chat.messages));
        done_after = let a = first.done_after in let b = rest.done_after in ground (arith, a, b);
      }

  -- The description: a row that waits for its revoke takes its turn, no other row changes.
  abbrev pub turn_if_awaiting : (branch_id channel_id : ℕ) → MessageRow → MessageRow
  turn_if_awaiting branch_id channel_id m =
      if awaits_revoke branch_id channel_id m then own_turn m else m

  turns-pending_deletions :
      (branch_id channel_id : ℕ) (ms : List MessageRow) (x : MessageRow)
      → Alone branch_id channel_id ms x
      → turns (pending_deletions branch_id channel_id ms) x
        ≡ turn_if_awaiting branch_id channel_id x
  unfolding turns
  turns-pending_deletions branch_id channel_id ms x h =
      elim (Bool-cases (awaits_revoke branch_id channel_id x)) [
        | inl due ↦
            rw
              (
                turns-hits x.id (pending_deletions branch_id channel_id ms) x refl,
                hits-pending_deletions branch_id channel_id ms x h,
                due,
              )
              (each-own x)
        | inr not_due ↦
            rw
              (
                turns-hits x.id (pending_deletions branch_id channel_id ms) x refl,
                hits-pending_deletions branch_id channel_id ms x h,
                not_due,
              )
              refl
      ]

  count_if-insert_by_time :
      (f : MessageRow → Bool) (p : MessageRow) (qs : List MessageRow)
      → count_if f (insert_by_time p qs) ≡ count_if f (p ∷ qs)
  unfolding insert_by_time
  count_if-insert_by_time f p [] = refl
  count_if-insert_by_time f p (q ∷ qs) = ground (arith, count_if-insert_by_time f p qs)

  count_if-sort_by_time :
      (f : MessageRow → Bool) (ps : List MessageRow) → count_if f (sort_by_time ps) ≡ count_if f ps
  unfolding sort_by_time
  count_if-sort_by_time f [] = refl
  count_if-sort_by_time f (p ∷ ps) =
      ground (arith, count_if-insert_by_time f p (sort_by_time ps), count_if-sort_by_time f ps)

  count_if-awaiting :
      (branch_id channel_id : ℕ) (f : MessageRow → Bool) (ms : List MessageRow)
      → count_if f (awaiting branch_id channel_id ms)
        ≡ count_if (λ m. awaits_revoke branch_id channel_id m && f m) ms
  unfolding awaiting
  count_if-awaiting branch_id channel_id f [] = refl
  count_if-awaiting branch_id channel_id f (m ∷ ms) =
      ground (arith, count_if-awaiting branch_id channel_id f ms)

  -- Where every revoke is answered or runs into its timeout and no two messages have one id, the call
  -- ends: no message is lost, a message of the channel that waits for its revoke gives up its flag if
  -- it is too old, is a tombstone exactly if the platform took it back and keeps its flag if not, no
  -- other message changes, and the answer counts the tombstones.
  pub process_exact :
      (branch_id channel_id : ℕ) (chat : Chat)
      → ((id : String) → is_broken (revoke external_thread_id id) ≡ false)
      → DistinctIds chat.messages
      → (p : Progress) × (process now external_thread_id revoke branch_id channel_id chat ≡ some p)
        × (p.chat.messages ≡ map (turn_if_awaiting branch_id channel_id) chat.messages)
        × (p.done
            ≡ count_if (λ m. awaits_revoke branch_id channel_id m && is_unsent m) chat.messages)
  unfolding process
  process_exact branch_id channel_id chat h d =
      let todo = pending_deletions branch_id channel_id chat.messages in
      let t = process_each-Turned todo (record { chat = chat; done = 0 }) h in
      let rows = map_pointwise (turns todo) (turn_if_awaiting branch_id channel_id) chat.messages (
        All-map (Alone branch_id channel_id chat.messages) _ chat.messages
          (turns-pending_deletions branch_id channel_id chat.messages)
          (Alone-of_distinct branch_id channel_id chat.messages d)) in
      let sorted = count_if-sort_by_time is_unsent (awaiting branch_id channel_id chat.messages) in
      let count = count_if-awaiting branch_id channel_id is_unsent chat.messages in
      let counted : count_if is_unsent todo
          ≡ count_if (λ m. awaits_revoke branch_id channel_id m && is_unsent m) chat.messages =
        unfold pending_deletions in sorted ∙ count in
      (t.end, t.ends, t.messages_after ∙ rows, omega (arith, t.done_after, counted))
