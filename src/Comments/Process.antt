-- ===== src/Comments/Process.antt =====
-- app/modules/comments/service.py: process with _hide and _reply.
use stepan.Prelude.{
  leb, if◌then◌else◌, str_eq, concat, or_text, ℕ, zero, suc, ◌+◌, ◌-◌, ◌*◌, min, String, Bool,
  Option, none, some, List, [], ◌∷◌, map,
}
use stepan.Comments.{
  CommentState, PostComment, PortAnswer, Action, LlmMeta, skipped, replied, dm_sent, hidden, error,
  reply, skip, hide,
}
use stepan.Comments.Draft.{Writer, draft}
use stepan.Comments.Table.{pending_comments, replied_last_hour, replied_under_post, put_comment}
use stepan.Conversation.Outbox.Row.{Row}
use stepan.Domain.Lead.{Time}
use stepan.Domain.Thread.{ChannelThread}
use stepan.Missions.Budget.{
  Spend, left, exhausted, CommentStatus, Comment, account_spend, unsettled,
}

pub record Board : Type 0 where
  pub channel_id : ℕ
  pub now : Time
  pub comment_hourly_cap : ℕ
  pub comment_per_post_cap : ℕ
  pub hourly_cap : ℕ
  -- the other actions of the account
  pub threads : List ChannelThread
  pub outbox : List Row
  pub outbound_comments : List Comment
  pub classify_comment : String → Action × String
  pub is_warm : String → Bool
  pub writer : PostComment → Writer
  pub hide_comment : (target : String) → PortAnswer
  pub reply_to_comment : (target text : String) → PortAnswer

-- The rows as the account's budget counts them.
abbrev pub counted_status : CommentState → CommentStatus
counted_status replied = CommentStatus.replied
counted_status dm_sent = CommentStatus.dm_sent
counted_status _ = unsettled

abbrev pub as_counted : PostComment → Comment
as_counted c = record {
  channel_id = c.channel_id;
  status = counted_status c.status;
  handled_at = c.handled_at;
}

unfoldable pub spend_of : Board → List PostComment → Spend
spend_of k rows =
    account_spend
      (record {
        threads = k.threads;
        outbox = k.outbox;
        post_comments = map as_counted rows;
        outbound_comments = k.outbound_comments;
      })
      k.channel_id k.hourly_cap k.now

-- The budget of a run: its own cap and what the account has left.
unfoldable pub budget_of : Board → List PostComment → ℕ
budget_of k rows =
    let spend = spend_of k rows in
    if exhausted spend
    then 0
    else min (k.comment_hourly_cap - replied_last_hour k.channel_id k.now rows) (left spend)

abbrev pub target_id : PostComment → String
target_id c = concat c.media_id (concat ":" c.external_id)

unfoldable pub first_chars : ℕ → String → String
first_chars zero s = ""
first_chars (suc n) String.[] = ""
first_chars (suc n) (String.◌∷◌ c cs) = String.◌∷◌ c (first_chars n cs)

abbrev pub settled_as : Board → CommentState → String → PostComment → PostComment
settled_as k status reason c = record c {
  status = status;
  skip_reason = some reason;
  handled_at = some k.now;
}

-- `_hide`
unfoldable pub hidden_row : Board → (reason : String) → PostComment → PostComment
hidden_row k reason c =
    if (k.hide_comment (target_id c)).ok
    then settled_as k hidden reason c
    else record c { attempts = c.attempts + 1 }

-- `_fmt`
unfoldable pub fmt_meta : Option LlmMeta → Option String
fmt_meta none = none
fmt_meta (some m) = elim m.cost_usd [
  | none ↦ if str_eq m.model "" then none else some m.model
  | some cost ↦ some (concat m.model (concat " $" cost))
]

-- `_reply`
abbrev pub answered_row : Board → PostComment → String × Option LlmMeta → PortAnswer → PostComment
answered_row k c (reply_text, meta) a =
    if a.ok
    then record c {
      status = if k.is_warm c.text then dm_sent else replied;
      reply_text = some reply_text;
      reply_external_id = a.external_message_id;
      llm_info = fmt_meta meta;
      handled_at = some k.now;
    }
    else record c {
      status = error;
      skip_reason = some (first_chars 200 (or_text a.error ""));
      attempts = c.attempts + 1;
      handled_at = some k.now;
    }

pub record Pass : Type 0 where
  pub rows : List PostComment
  pub posted : ℕ
  -- the texts that went out, the last first
  pub public : List String

abbrev pub saved : PostComment → Pass → Pass
saved c p = record p { rows = put_comment c p.rows }

abbrev pub sent_out : String → Pass → Pass
sent_out t p = record p { posted = p.posted + 1; public = t ∷ p.public }

unfoldable pub reply_one : Board → PostComment → Pass → Pass
reply_one k c p =
    let d = draft (k.writer c) in
    let a = k.reply_to_comment (target_id c) d.0 in
    let p' = saved (answered_row k c d a) p in if a.ok then sent_out d.0 p' else p'

unfoldable pub reply_within : Board → PostComment → Pass → Pass
reply_within k c p =
    if leb k.comment_per_post_cap (replied_under_post k.channel_id c.media_id p.rows)
    then saved (settled_as k skipped "per_post_cap" c) p
    else reply_one k c p

-- One comment of the loop of `process`.
abbrev pub process_as : Board → PostComment → Pass → Action × String → Pass
process_as k c p (hide, reason) = saved (hidden_row k reason c) p
process_as k c p (skip, reason) = saved (settled_as k skipped reason c) p
process_as k c p (reply, reason) = reply_within k c p

unfoldable pub process_comments : Board → (budget : ℕ) → List PostComment → Pass → Pass
process_comments k budget [] p = p
process_comments k budget (c ∷ cs) p =
    let rest = process_comments k budget cs (process_as k c p (k.classify_comment c.text)) in
    if leb budget p.posted then p else rest

-- `process`
unfoldable pub process_pending : Board → List PostComment → Pass
process_pending k rows =
    let budget = budget_of k rows in
    let start : Pass = record { rows = rows; posted = 0; public = [] } in
    if leb budget 0
    then start
    else process_comments k budget (pending_comments k.channel_id (budget * 2) rows) start
