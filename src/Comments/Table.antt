-- ===== src/Comments/Table.antt =====
-- app/modules/comments/repository.py (CommentRepo): the queries on the table of comments.
use stepan.Prelude.{
  count_if, leb, ◌==◌, if◌then◌else◌, str_eq, ℕ, zero, suc, ◌-◌, max, String, Bool, true, false,
  ◌&&◌, ◌||◌, Option, none, some, List, [], ◌∷◌,
}
use stepan.Comments.{CommentState, PostComment, pending, replied, dm_sent}
use stepan.Domain.Clock.{hour}
use stepan.Domain.Lead.{Time}
use stepan.Missions.Budget.{at_or_after}

abbrev pub is_waiting : CommentState → Bool
is_waiting pending = true
is_waiting _ = false

-- `status IN ('replied', 'dm_sent')`
abbrev pub is_replied : CommentState → Bool
is_replied replied = true
is_replied dm_sent = true
is_replied _ = false

-- `exists`
unfoldable pub is_stored : (channel_id : ℕ) → (external_id : String) → List PostComment → Bool
is_stored channel_id external_id [] = false
is_stored channel_id external_id (c ∷ cs) =
    (c.channel_id == channel_id && str_eq c.external_id external_id)
    || is_stored channel_id external_id cs

abbrev latest_of : Time → Option Time → Option Time
latest_of t none = some t
latest_of t (some s) = some (max t s)

-- `latest_comment_time`
unfoldable pub latest_comment_time : (channel_id : ℕ) → List PostComment → Option Time
latest_comment_time channel_id [] = none
latest_comment_time channel_id (c ∷ cs) =
    let rest = latest_comment_time channel_id cs in
    if c.channel_id == channel_id then latest_of c.occurred_at rest else rest

unfoldable pub waiting : (channel_id : ℕ) → List PostComment → List PostComment
waiting channel_id [] = []
waiting channel_id (c ∷ cs) =
    let rest = waiting channel_id cs in
    if c.channel_id == channel_id && is_waiting c.status then c ∷ rest else rest

-- ORDER BY occurred_at
unfoldable pub insert_comment : PostComment → List PostComment → List PostComment
insert_comment c [] = c ∷ []
insert_comment c (x ∷ xs) =
    let rest = insert_comment c xs in
    if leb c.occurred_at x.occurred_at then c ∷ x ∷ xs else x ∷ rest

unfoldable pub sort_comments : List PostComment → List PostComment
sort_comments [] = []
sort_comments (c ∷ cs) = insert_comment c (sort_comments cs)

-- LIMIT
unfoldable pub first_comments : ℕ → List PostComment → List PostComment
first_comments zero cs = []
first_comments (suc n) [] = []
first_comments (suc n) (c ∷ cs) = c ∷ first_comments n cs

-- `pending`
unfoldable pub pending_comments : (channel_id limit : ℕ) → List PostComment → List PostComment
pending_comments channel_id limit rows =
    first_comments limit (sort_comments (waiting channel_id rows))

abbrev pub in_last_hour : (channel_id : ℕ) → (now : Time) → PostComment → Bool
in_last_hour channel_id now c =
    c.channel_id == channel_id && is_replied c.status && at_or_after c.handled_at (now - hour)

-- `replied_last_hour`
unfoldable pub replied_last_hour : (channel_id : ℕ) → (now : Time) → List PostComment → ℕ
replied_last_hour channel_id now rows = count_if (in_last_hour channel_id now) rows

abbrev pub is_under : (channel_id : ℕ) → (media_id : String) → PostComment → Bool
is_under channel_id media_id c =
    c.channel_id == channel_id && str_eq c.media_id media_id && is_replied c.status

-- `replied_under_post`
unfoldable pub replied_under_post : (channel_id : ℕ) → (media_id : String) → List PostComment → ℕ
replied_under_post channel_id media_id rows = count_if (is_under channel_id media_id) rows

-- The write of a changed row.
unfoldable pub put_comment : PostComment → List PostComment → List PostComment
put_comment c [] = []
put_comment c (x ∷ xs) = (if x.id == c.id then c else x) ∷ put_comment c xs
