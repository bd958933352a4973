-- ===== src/Comments/Ingest.antt =====
-- app/modules/comments/service.py: ingest, the comments of the port as pending rows.
use stepan.Prelude.{
  All, ◌==◌, if◌then◌else◌, str_eq, str_eq_iff, Bool-cases, if_intro, ℕ, ◌+◌, String, ◌≡◌, refl,
  inl, inr, Bool, true, ◌&&◌, ◌||◌, Option, none, List, [], ◌∷◌, ◌++◌, arith,
}
use stepan.Comments.{PostComment, InboundComment, pending}
use stepan.Comments.Table.{is_stored, latest_comment_time}
use stepan.Crm.Gate.{fetch}
use stepan.Domain.Lead.{Time}
use stepan.Missions.Budget.{on_channel}

pub record Intake : Type 0 where
  pub rows : List PostComment
  pub next_id : ℕ
  pub stored_count : ℕ

module _ (branch_id channel_id : ℕ) where
  abbrev comment_row : (id : ℕ) → InboundComment → PostComment
  comment_row id c = record {
    id = id;
    branch_id = branch_id;
    channel_id = channel_id;
    external_id = c.external_id;
    media_id = c.media_id;
    media_caption = c.media_caption;
    author_username = c.author_username;
    author_pk = c.author_pk;
    text = c.text;
    status = pending;
    skip_reason = none;
    reply_text = none;
    reply_external_id = none;
    llm_info = none;
    occurred_at = c.occurred_at;
    handled_at = none;
    attempts = 0;
  }

  abbrev is_passed_over : InboundComment → List PostComment → Bool
  is_passed_over c rows = str_eq c.external_id "" || is_stored channel_id c.external_id rows

  abbrev taken_in : InboundComment → Intake → Intake
  taken_in c i = record {
    rows = i.rows ++ (comment_row i.next_id c ∷ []);
    next_id = i.next_id + 1;
    stored_count = i.stored_count + 1;
  }

  unfoldable pub take_comment : InboundComment → Intake → Intake
  take_comment c i = if is_passed_over c i.rows then i else taken_in c i

  unfoldable pub take_comments : List InboundComment → Intake → Intake
  take_comments [] i = i
  take_comments (c ∷ cs) i = take_comments cs (take_comment c i)

  -- `ingest`, where the port answers by the newest moment that is stored.
  unfoldable pub ingest_comments :
      (does_comments : Bool) → (fetch : Option Time → List InboundComment) → Intake → Intake
  ingest_comments does_comments fetch i =
      if does_comments then take_comments (fetch (latest_comment_time channel_id i.rows)) i else i

  is_stored-append :
      (e : String) (rows : List PostComment) (x : PostComment)
      → is_stored channel_id e rows ≡ true
      → is_stored channel_id e (rows ++ (x ∷ [])) ≡ true
  unfolding is_stored
  is_stored-append e [] x h = absurd (cc h)
  is_stored-append e (r ∷ rs) x h =
      elim (Bool-cases (r.channel_id == channel_id && str_eq r.external_id e)) [
        | inl hit ↦ rw hit refl
        | inr miss ↦ let rest = is_stored-append e rs x (rw miss at h) in rw (miss, rest) refl
      ]

  exists_last :
      (e : String) (rows : List PostComment) (x : PostComment)
      → x.channel_id ≡ channel_id
      → x.external_id ≡ e
      → is_stored channel_id e (rows ++ (x ∷ [])) ≡ true
  unfolding is_stored
  exists_last e [] x on_channel at =
      let own : str_eq x.external_id e ≡ true = (str_eq_iff x.external_id e).1 at in
      ground (arith, on_channel, own)
  exists_last e (r ∷ rs) x on_channel at =
      let rest = exists_last e rs x on_channel at in ground (arith, rest)

  Seen : InboundComment → Intake → Type 0
  Seen c i = is_passed_over c i.rows ≡ true

  take_comment-kept : (c d : InboundComment) (i : Intake) → Seen c i → Seen c (take_comment d i)
  unfolding Seen take_comment
  take_comment-kept c d i h =
      if_intro (λ (j : Intake). is_passed_over c j.rows ≡ true) (is_passed_over d i.rows) (λ _. h)
        (λ _. elim (Bool-cases (str_eq c.external_id "")) [
          | inl blank ↦ rw blank refl
          | inr keyed ↦
              let found =
                is_stored-append c.external_id i.rows (comment_row i.next_id d) (rw keyed at h) in
              rw (keyed, found) refl
        ])

  take_comment-Seen : (c : InboundComment) (i : Intake) → Seen c (take_comment c i)
  unfolding Seen take_comment
  take_comment-Seen c i =
      if_intro (λ (j : Intake). is_passed_over c j.rows ≡ true) (is_passed_over c i.rows) (λ h. h)
        (λ _.
          let found = exists_last c.external_id i.rows (comment_row i.next_id c) refl refl in
          ground (arith, found))

  take_comments-kept :
      (c : InboundComment) (cs : List InboundComment) (i : Intake)
      → Seen c i
      → Seen c (take_comments cs i)
  unfolding take_comments
  take_comments-kept c [] i h = h
  take_comments-kept c (d ∷ ds) i h =
      take_comments-kept c ds (take_comment d i) (take_comment-kept c d i h)

  take_comments-Seen :
      (cs : List InboundComment) (i : Intake) → All (λ c. Seen c (take_comments cs i)) cs
  unfolding take_comments
  take_comments-Seen [] i = tt
  take_comments-Seen (c ∷ cs) i = (
    take_comments-kept c cs (take_comment c i) (take_comment-Seen c i),
    take_comments-Seen cs (take_comment c i),
  )

  take_comments_noop :
      (cs : List InboundComment) (i : Intake) → All (λ c. Seen c i) cs → take_comments cs i ≡ i
  unfolding take_comments take_comment Seen
  take_comments_noop [] i h = refl
  take_comments_noop (c ∷ cs) i (h, hs) = rw h (take_comments_noop cs i hs)

  -- The same comments a second time change nothing, whatever the table holds.
  pub take_comments_again :
      (cs : List InboundComment) (i : Intake)
      → take_comments cs (take_comments cs i) ≡ take_comments cs i
  take_comments_again cs i = take_comments_noop cs (take_comments cs i) (take_comments-Seen cs i)
