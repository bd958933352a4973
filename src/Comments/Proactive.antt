-- ===== src/Comments/Proactive.antt =====
-- app/modules/comments/proactive.py and outbound_repo.py: a comment of ours under the newest post of a lead.
-- The port, the judge and the draft are given, `none` where the call raises.
pub mod Quiet
use stepan.Prelude.{
  count_if, ltb, leb, ◌==◌, if◌then◌else◌, str_eq, or_text, ℕ, ◌+◌, ◌-◌, ◌*◌, min, String, Bool,
  true, false, not, ◌&&◌, ◌||◌, Option, none, some, List, [], ◌∷◌, ◌++◌, map,
}
use stepan.Comments.{PortAnswer, LlmMeta}
use stepan.Comments.Process.{first_chars, fmt_meta}
use stepan.Conversation.Outbox.Row.{Row}
use stepan.Domain.Clock.{day}
use stepan.Domain.Lead.{Time, Lead}
use stepan.Domain.Thread.{ChannelThread}
use stepan.Missions.Budget.{
  Spend, share_of, CommentStatus, Comment, at_or_after, account_spend, comment_sent, unsettled,
}

pub data OutboundState : Type 0 where
  pending skipped sent error : OutboundState

-- OutboundComment
pub record OutboundRow : Type 0 where
  pub channel_id : ℕ
  pub lead_id : ℕ
  pub media_id : String
  pub author_pk : String
  pub relevant : Option Bool
  pub status : OutboundState
  pub skip_reason : Option String
  pub text : Option String
  pub external_id : Option String
  pub llm_info : Option String
  pub handled_at : Option Time

-- CandidatePost
pub record CandidatePost : Type 0 where
  pub media_id : String
  pub author_pk : String
  pub taken_at : Time

-- The answer of the judge.
pub record Verdict : Type 0 where
  pub relevant : Bool
  pub reason : String
  pub angle : String

pub record Mission : Type 0 where
  pub channel_id : ℕ
  pub now : Time
  pub daily_cap : ℕ
  pub hourly_cap : ℕ
  pub scale : ℕ → ℕ
  pub threads : List ChannelThread
  pub outbox : List Row
  pub post_comments : List Comment
  pub fetch_user_posts : (pk : String) → Option (List CandidatePost)
  pub judge : CandidatePost → Option Verdict
  pub compose : CandidatePost → (angle : String) → Option (Option String × Option LlmMeta)
  pub comment_on_post : (media_id text : String) → Option PortAnswer

abbrev pub quiet_days : ℕ
quiet_days = 30

abbrev pub post_max_age_days : ℕ
post_max_age_days = 14

abbrev pub is_sent_row : OutboundState → Bool
is_sent_row sent = true
is_sent_row _ = false

-- `seen`
unfoldable pub is_seen : (channel_id : ℕ) → (media_id : String) → List OutboundRow → Bool
is_seen channel_id media_id [] = false
is_seen channel_id media_id (r ∷ rs) =
    (r.channel_id == channel_id && str_eq r.media_id media_id) || is_seen channel_id media_id rs

abbrev pub is_to : (channel_id : ℕ) → (author_pk : String) → (cutoff : Time) → OutboundRow → Bool
is_to channel_id author_pk cutoff r =
    r.channel_id == channel_id
    && str_eq r.author_pk author_pk
    && is_sent_row r.status
    && at_or_after r.handled_at cutoff

-- `wrote_to_recently`
unfoldable pub wrote_to_recently : Mission → (author_pk : String) → List OutboundRow → Bool
wrote_to_recently m author_pk [] = false
wrote_to_recently m author_pk (r ∷ rs) =
    is_to m.channel_id author_pk (m.now - quiet_days * day) r || wrote_to_recently m author_pk rs

abbrev pub is_of_today : Mission → OutboundRow → Bool
is_of_today m r =
    r.channel_id == m.channel_id && is_sent_row r.status && at_or_after r.handled_at (m.now - day)

-- `sent_today`
unfoldable pub sent_today : Mission → List OutboundRow → ℕ
sent_today m rows = count_if (is_of_today m) rows

abbrev pub outbound_status : OutboundState → CommentStatus
outbound_status sent = comment_sent
outbound_status _ = unsettled

abbrev pub outbound_counted : OutboundRow → Comment
outbound_counted r = record {
  channel_id = r.channel_id;
  status = outbound_status r.status;
  handled_at = r.handled_at;
}

unfoldable pub spend_now : Mission → List OutboundRow → Spend
spend_now m rows =
    account_spend
      (record {
        threads = m.threads;
        outbox = m.outbox;
        post_comments = m.post_comments;
        outbound_comments = map outbound_counted rows;
      })
      m.channel_id m.hourly_cap m.now

-- `_budget`; a share of an exhausted account is nothing.
unfoldable pub mission_budget : Mission → List OutboundRow → ℕ
mission_budget m rows =
    let left_today = m.daily_cap - sent_today m rows in
    if leb left_today 0 then 0 else min left_today (share_of m.scale (spend_now m rows))

-- The newest of the posts, the first of equals.
abbrev pub newer_post : CandidatePost → Option CandidatePost → Option CandidatePost
newer_post p none = some p
newer_post p (some q) = if ltb p.taken_at q.taken_at then some q else some p

-- `_freshest`
unfoldable pub freshest : Mission → List CandidatePost → Option CandidatePost
freshest m [] = none
freshest m (p ∷ ps) =
    let rest = freshest m ps in
    if leb (m.now - post_max_age_days * day) p.taken_at then newer_post p rest else rest

abbrev pub new_row : Mission → Lead → CandidatePost → OutboundRow
new_row m lead post = record {
  channel_id = m.channel_id;
  lead_id = lead.id;
  media_id = post.media_id;
  author_pk = post.author_pk;
  relevant = none;
  status = pending;
  skip_reason = none;
  text = none;
  external_id = none;
  llm_info = none;
  handled_at = none;
}

abbrev pub passed : Mission → Option String → OutboundRow → OutboundRow
passed m reason r = record r { status = skipped; skip_reason = reason; handled_at = some m.now }

-- The row once the port has answered.
abbrev pub shipped :
    Mission → OutboundRow → String → Option LlmMeta → Option PortAnswer → OutboundRow
shipped m r t meta none = r
shipped m r t meta (some a) =
    if a.ok
    then record r {
      status = sent;
      text = some t;
      external_id = a.external_message_id;
      llm_info = fmt_meta meta;
      handled_at = some m.now;
    }
    else record r {
      status = error;
      skip_reason = some (first_chars 200 (or_text a.error ""));
      llm_info = fmt_meta meta;
      handled_at = some m.now;
    }

abbrev pub composed :
    Mission → CandidatePost → OutboundRow → Option (Option String × Option LlmMeta) → OutboundRow
composed m post r none = r
composed m post r (some (none, meta)) = passed m (some "draft rejected") r
composed m post r (some (some t, meta)) = shipped m r t meta (m.comment_on_post post.media_id t)

abbrev pub judged : Mission → CandidatePost → OutboundRow → Option Verdict → OutboundRow
judged m post r none = r
judged m post r (some v) =
    let r' = record r { relevant = some v.relevant } in
    if not v.relevant
    then passed m (some v.reason) r'
    else composed m post r' (m.compose post v.angle)

-- `_consider`: the row that it adds, where it adds one.
unfoldable pub consider : Mission → Lead → List OutboundRow → CandidatePost → Option OutboundRow
consider m lead rows post =
    if is_seen m.channel_id post.media_id rows
    then none
    else some (judged m post (new_row m lead post) (m.judge post))

abbrev pub consider? : Mission → Lead → List OutboundRow → Option CandidatePost → Option OutboundRow
consider? m lead rows none = none
consider? m lead rows (some post) = consider m lead rows post

abbrev pub visit_posts :
    Mission → Lead → List OutboundRow → Option (List CandidatePost) → Option OutboundRow
visit_posts m lead rows none = none
visit_posts m lead rows (some posts) = consider? m lead rows (freshest m posts)

-- `_visit`
unfoldable pub visit : Mission → Lead → List OutboundRow → Option OutboundRow
visit m lead rows =
    let pk = or_text lead.ig_user_id "" in
    if str_eq pk "" || wrote_to_recently m pk rows
    then none
    else visit_posts m lead rows (m.fetch_user_posts pk)

pub record Tour : Type 0 where
  pub rows : List OutboundRow
  pub posted : ℕ

-- The row of a visit, counted where it was sent.
abbrev pub visited : Tour → Option OutboundRow → Tour
visited t none = t
visited t (some r) = record {
  rows = t.rows ++ (r ∷ []);
  posted = if is_sent_row r.status then t.posted + 1 else t.posted;
}

unfoldable pub tour : Mission → (budget : ℕ) → List Lead → Tour → Tour
tour m budget [] t = t
tour m budget (l ∷ ls) t =
    let rest = tour m budget ls (visited t (visit m l t.rows)) in
    if leb budget t.posted then t else rest

-- `run`, over the candidates in their order.
unfoldable pub run_mission : Mission → List Lead → List OutboundRow → Tour
run_mission m leads rows =
    let budget = mission_budget m rows in
    let start : Tour = record { rows = rows; posted = 0 } in
    if leb budget 0 then start else tour m budget leads start
