-- ===== src/Missions/Budget.antt =====
-- app/modules/missions/budget.py: one action budget for an account, shared by every mission.
use stepan.Prelude.{
  ℕ, ◌+◌, ◌-◌, ◌≤◌, min, ◌≡◌, Bool, true, false, not, ◌&&◌, ◌||◌, Option, none, some, List, [], ◌∷◌,
  arith, leb, ◌==◌, if◌then◌else◌, count_if,
}
use stepan.Domain.Lead.{Time}
use stepan.Domain.Thread.{ChannelThread}
use stepan.Domain.Clock.{hour}
use stepan.Conversation.Outbox.Row.{Row, is_sent}

-- A cap of 0 or less is off; a negative one reads as 0.
pub record Spend : Type 0 where
  pub used : ℕ
  pub cap : ℕ

-- `_UNLIMITED`
abbrev pub no_ceiling : ℕ
no_ceiling = 1000000000

abbrev pub unlimited : Spend → Bool
unlimited s = leb s.cap 0

unfoldable pub left : Spend → ℕ
left s = if unlimited s then no_ceiling else s.cap - s.used

unfoldable pub exhausted : Spend → Bool
unfolding left
exhausted s = not (unlimited s) && leb (left s) 0

-- `int(n * max(0.0, min(1.0, budget_share)))` is `scale n`, for the share of the mission.
module _ (scale : ℕ → ℕ) where
  abbrev pub already_taken : Spend → ℕ
  already_taken s = scale s.used

  -- `share_of`
  unfoldable pub share_of : Spend → ℕ
  unfolding left exhausted
  share_of s =
      if exhausted s
      then 0
      else if unlimited s
      then left s
      else min (scale s.cap - already_taken s) (left s)

-- PostComment and OutboundComment, as far as they are counted.
pub data CommentStatus : Type 0 where
  replied dm_sent comment_sent : CommentStatus
  unsettled : CommentStatus

pub record Comment : Type 0 where
  pub channel_id : ℕ
  pub status : CommentStatus
  pub handled_at : Option Time

-- `t >= since`, which is false for NULL.
abbrev pub at_or_after : Option Time → Time → Bool
at_or_after none since = false
at_or_after (some t) since = leb since t

abbrev is_answered : CommentStatus → Bool
is_answered replied = true
is_answered dm_sent = true
is_answered _ = false

abbrev is_outbound : CommentStatus → Bool
is_outbound comment_sent = true
is_outbound _ = false

-- JOIN channel_thread ct ON ct.id = o.thread_id ... ct.channel_id = :ch
unfoldable pub on_channel : ℕ → ℕ → List ChannelThread → Bool
on_channel channel_id thread_id [] = false
on_channel channel_id thread_id (t ∷ ts) =
    (t.id == thread_id && t.channel_id == channel_id) || on_channel channel_id thread_id ts

-- The tables that are counted.
pub record Actions : Type 0 where
  pub threads : List ChannelThread
  pub outbox : List Row
  pub post_comments : List Comment
  pub outbound_comments : List Comment

unfoldable pub sent_lines : Actions → ℕ → Time → ℕ
unfolding on_channel
sent_lines a channel_id since =
    count_if
      (λ r.
        on_channel channel_id r.thread_id a.threads
        && is_sent r.status
        && at_or_after r.sent_at since)
      a.outbox

-- `account_spend`
unfoldable pub account_spend : Actions → ℕ → ℕ → Time → Spend
unfolding sent_lines
account_spend a channel_id cap now =
    let since = now - hour in
    record {
      used =
          sent_lines a channel_id since
          + count_if
              (λ c.
                c.channel_id == channel_id
                && is_answered c.status
                && at_or_after c.handled_at since)
              a.post_comments
          + count_if
              (λ c.
                c.channel_id == channel_id
                && is_outbound c.status
                && at_or_after c.handled_at since)
              a.outbound_comments;
      cap = cap;
    }

-- A mission never gets more than the account has left, nor more than its own share of the cap;
-- an exhausted account gives it nothing.
pub share_of_bounds :
    (scale : ℕ → ℕ) (s : Spend)
    → unlimited s ≡ false
    → (share_of scale s ≤ s.cap - s.used)
      × (share_of scale s ≤ scale s.cap)
      × (s.cap ≤ s.used → share_of scale s ≡ 0)
unfolding share_of
share_of_bounds scale s h = (ground arith, ground arith, λ e. ground arith)
