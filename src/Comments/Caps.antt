-- ===== src/Comments/Caps.antt =====
-- The caps of the public replies (app/modules/comments/service.py, process).
use stepan.Prelude.{
  All, count_if, leb, str_eq_iff, Bool-cases, if_intro, ℕ, ◌+◌, ◌-◌, ◌*◌, ◌≤◌, ◌<◌, max, String,
  ◌≡◌, refl, inl, inr, Bool, true, false, List, [], ◌∷◌, arith,
}
use stepan.Comments.{PostComment, Action, skipped, reply, skip, hide}
use stepan.Comments.Draft.{draft}
use stepan.Comments.Process.{
  Board, spend_of, budget_of, target_id, settled_as, hidden_row, Pass, saved, sent_out, reply_one,
  reply_within, process_as, process_comments, process_pending,
}
use stepan.Comments.Table.{
  is_waiting, is_replied, pending_comments, in_last_hour, replied_last_hour, is_under,
  replied_under_post,
}
use stepan.Comments.Writes.{
  DistinctIds, put-DistinctIds, put-count_le, put-count_suc, pending_comments-AllPending,
}
use stepan.Conversation.Outbox.Queue.{before}
use stepan.Missions.Budget.{left}

-- A count of replies grows by no more than the replies posted, and under no post over its cap.
record IsPaced (k : Board) (p q : Pass) : Type 0 where
  pub apart : DistinctIds q.rows
  pub paced :
      (f : PostComment → Bool)
      → ((x : PostComment) → is_replied x.status ≡ false → f x ≡ false)
      → count_if f q.rows + p.posted ≤ count_if f p.rows + q.posted
  pub capped :
      (media_id : String) (n : ℕ)
      → k.comment_per_post_cap ≤ n
      → replied_under_post k.channel_id media_id p.rows ≤ n
      → replied_under_post k.channel_id media_id q.rows ≤ n

module _ (k : Board) where
  IsPaced-refl : (p : Pass) → DistinctIds p.rows → IsPaced k p p
  IsPaced-refl p d = record { apart = d; paced = λ f h. omega arith; capped = λ m n a b. b }

  IsPaced-trans : (p q r : Pass) → IsPaced k p q → IsPaced k q r → IsPaced k p r
  IsPaced-trans p q r g h = record {
    apart = h.apart;
    paced = λ f no. let a = g.paced f no in let b = h.paced f no in omega (arith, a, b);
    capped = λ m n a b. h.capped m n a (g.capped m n a b);
  }

  under_false :
      (media_id : String) (c : PostComment)
      → is_replied c.status ≡ false
      → is_under k.channel_id media_id c ≡ false
  under_false media_id c h = ground (arith, h)

  saved-IsPaced :
      (c : PostComment) (p : Pass)
      → DistinctIds p.rows
      → is_replied c.status ≡ false
      → IsPaced k p (saved c p)
  unfolding replied_under_post
  saved-IsPaced c p d h = record {
    apart = put-DistinctIds c p.rows d;
    paced = λ f no. let le = put-count_le f c p.rows (no c h) in omega (arith, le);
    capped = λ m n a b.
        let le = put-count_le (is_under k.channel_id m) c p.rows (under_false m c h) in
        omega (arith, le, b);
  }

  -- A reply that went out under a post with room.
  sent-IsPaced :
      (c : PostComment) (t : String) (p : Pass)
      → DistinctIds p.rows
      → replied_under_post k.channel_id c.media_id p.rows < k.comment_per_post_cap
      → IsPaced k p (sent_out t (saved c p))
  unfolding replied_under_post
  sent-IsPaced c t p d room = record {
    apart = put-DistinctIds c p.rows d;
    paced = λ f no. let le = put-count_suc f c p.rows d in omega (arith, le);
    capped = λ m n a b. elim (Bool-cases (is_under k.channel_id m c)) [
      | inl hit ↦
          let le = put-count_suc (is_under k.channel_id m) c p.rows d in
          let e : c.media_id ≡ m = (str_eq_iff c.media_id m).0 (ground (arith, hit)) in
          let room' : count_if (is_under k.channel_id m) p.rows < k.comment_per_post_cap =
            rw e at room in
          omega (arith, le, room', a)
      | inr miss ↦
          let le = put-count_le (is_under k.channel_id m) c p.rows miss in omega (arith, le, b)
    ];
  }

  reply_one-IsPaced :
      (c : PostComment) (p : Pass)
      → DistinctIds p.rows
      → replied_under_post k.channel_id c.media_id p.rows < k.comment_per_post_cap
      → IsPaced k p (reply_one k c p)
  unfolding reply_one
  reply_one-IsPaced c p d room =
      let d' = draft (k.writer c) in
      let a = k.reply_to_comment (target_id c) d'.0 in
      elim (Bool-cases a.ok) [
        | inl goes ↦ rw goes (sent-IsPaced _ d'.0 p d room)
        | inr fails ↦ rw fails (saved-IsPaced _ p d refl)
      ]

  reply_within-IsPaced :
      (c : PostComment) (p : Pass) → DistinctIds p.rows → IsPaced k p (reply_within k c p)
  unfolding reply_within
  reply_within-IsPaced c p d =
      if_intro (IsPaced k p)
        (leb k.comment_per_post_cap (replied_under_post k.channel_id c.media_id p.rows))
        (λ _. saved-IsPaced (settled_as k skipped "per_post_cap" c) p d refl)
        (λ room. reply_one-IsPaced c p d (ground (arith, room)))

  hidden_row-unreplied :
      (reason : String) (c : PostComment)
      → is_waiting c.status ≡ true
      → is_replied (hidden_row k reason c).status ≡ false
  unfolding hidden_row
  hidden_row-unreplied reason c h = ground (arith, h)

  process_as-IsPaced :
      (c : PostComment) (p : Pass) (a : Action × String)
      → is_waiting c.status ≡ true
      → DistinctIds p.rows
      → IsPaced k p (process_as k c p a)
  process_as-IsPaced c p (hide, reason) h d =
      saved-IsPaced (hidden_row k reason c) p d (hidden_row-unreplied reason c h)
  process_as-IsPaced c p (skip, reason) h d = saved-IsPaced (settled_as k skipped reason c) p d refl
  process_as-IsPaced c p (reply, reason) h d = reply_within-IsPaced c p d

  process_comments-IsPaced :
      (budget : ℕ) (cs : List PostComment) (p : Pass)
      → All (λ (c : PostComment). is_waiting c.status ≡ true) cs
      → DistinctIds p.rows
      → IsPaced k p (process_comments k budget cs p)
  unfolding process_comments
  process_comments-IsPaced budget [] p h d = IsPaced-refl p d
  process_comments-IsPaced budget (c ∷ cs) p (h, hs) d =
      let q = process_as k c p (k.classify_comment c.text) in
      let step = process_as-IsPaced c p (k.classify_comment c.text) h d in
      if_intro (IsPaced k p) (leb budget p.posted) (λ _. IsPaced-refl p d)
        (λ _.
          IsPaced-trans p q (process_comments k budget cs q) step
            (process_comments-IsPaced budget cs q hs step.apart))

  process_as-posted :
      (c : PostComment) (p : Pass) (a : Action × String)
      → (process_as k c p a).posted ≤ p.posted + 1
  unfolding reply_within reply_one
  process_as-posted c p (hide, reason) = omega arith
  process_as-posted c p (skip, reason) = omega arith
  process_as-posted c p (reply, reason) = ground arith

  process_comments-posted :
      (budget : ℕ) (cs : List PostComment) (p : Pass)
      → p.posted ≤ budget
      → (process_comments k budget cs p).posted ≤ budget
  unfolding process_comments
  process_comments-posted budget [] p h = h
  process_comments-posted budget (c ∷ cs) p h =
      let a = k.classify_comment c.text in
      let one = process_as-posted c p a in
      if_intro (λ (q : Pass). q.posted ≤ budget) (leb budget p.posted) (λ _. h)
        (λ more. process_comments-posted budget cs (process_as k c p a) (ground (arith, more, one)))

  budget_of-bounds :
      (rows : List PostComment)
      → (budget_of k rows ≤ k.comment_hourly_cap - replied_last_hour k.channel_id k.now rows)
        × (budget_of k rows ≤ left (spend_of k rows))
  unfolding budget_of
  budget_of-bounds rows = (ground arith, ground arith)

-- What a run may leave behind.
abbrev pub WithinCaps : Board → (before : List PostComment) → Pass → Type 0
WithinCaps k before p =
    (p.posted ≤ left (spend_of k before))
    × (replied_last_hour k.channel_id k.now p.rows
        ≤ max (replied_last_hour k.channel_id k.now before) k.comment_hourly_cap)
    × ((media_id : String)
        → replied_under_post k.channel_id media_id p.rows
          ≤ max (replied_under_post k.channel_id media_id before) k.comment_per_post_cap)

-- A run over rows with ids of their own posts no more than the account has left, and afterwards the
-- replies of the last hour are within the hourly cap and those under each post within the cap of a post, or no
-- more than they were.
pub process_pending-WithinCaps :
    (k : Board) (rows : List PostComment)
    → DistinctIds rows
    → WithinCaps k rows (process_pending k rows)
unfolding process_pending replied_last_hour
process_pending-WithinCaps k rows d =
    let budget = budget_of k rows in
    let start : Pass = record { rows = rows; posted = 0; public = [] } in
    let cs = pending_comments k.channel_id (budget * 2) rows in
    let bounds = budget_of-bounds k rows in
    let run =
      process_comments-IsPaced k budget cs start
        (pending_comments-AllPending k.channel_id (budget * 2) rows) d in
    let few = process_comments-posted k budget cs start (omega arith) in
    let hourly = run.paced (in_last_hour k.channel_id k.now) (λ x h. ground (arith, h)) in
    if_intro (WithinCaps k rows) (leb budget 0) (λ _. (omega arith, omega arith, λ m. omega arith))
      (λ _. (
        omega (arith, few, bounds.1),
        omega (arith, few, bounds.0, hourly),
        λ m. run.capped m _ (omega arith) (omega arith),
      ))
