-- ===== src/Tests/Comments.antt =====
-- Comments under one post.
use stepan.Prelude.{
  if◌then◌else◌, str_eq, str_eq_iff, Bool-cases, ℕ, ◌+◌, String, ◌≡◌, refl, inl, inr, true, false,
  none, some, List, [], ◌∷◌,
}
use stepan.Comments.{PostComment, Action, pending, reply, skip, hide}
use stepan.Comments.Caps.{WithinCaps, process_pending-WithinCaps}
use stepan.Comments.Draft.{Writer, is_fabricated, generate, draft, chat_fast, chat_smart}
use stepan.Comments.Grounded.{AllSafe, process_pending-AllSafe}
use stepan.Comments.Proactive.{
  CandidatePost, Mission, is_seen, wrote_to_recently, sent_today, spend_now, mission_budget,
  freshest, consider, visit, tour, run_mission,
}
use stepan.Comments.Proactive.Quiet.{OwnPosts, WithinLimits, run_mission-WithinLimits}
use stepan.Comments.Process.{
  Board, spend_of, budget_of, hidden_row, reply_one, reply_within, process_comments,
  process_pending,
}
use stepan.Comments.Table.{
  waiting, insert_comment, sort_comments, first_comments, pending_comments, replied_last_hour,
  replied_under_post, put_comment,
}
use stepan.Domain.Lead.{Lead}
use stepan.Domain.Stage.{new}
use stepan.Missions.Budget.{left, exhausted, share_of, sent_lines, account_spend}
use stepan.Tests.Samples.{lead_at, noon}

abbrev question : ℕ → String → PostComment
question id said = record {
  id = id;
  branch_id = 1;
  channel_id = 5;
  external_id = said;
  media_id = "post";
  media_caption = none;
  author_username = none;
  author_pk = none;
  text = said;
  status = pending;
  skip_reason = none;
  reply_text = none;
  reply_external_id = none;
  llm_info = none;
  occurred_at = noon + id;
  handled_at = none;
  attempts = 0;
}

abbrev careful : Writer
careful = record {
  prompt = "price?";
  chat = λ p cap. elim cap [
    | chat_fast ↦ none
    | chat_smart ↦ some (if str_eq p "price?" then "100" else "DM us", none)
  ];
  clean = λ s. s;
  has_ungrounded_urls = λ _. false;
  is_impossible_offer = λ _. false;
  is_false_delivery = λ _. false;
  is_risky = λ s. str_eq s "100";
  is_price_grounded = λ _. true;
  verify_grounding = λ _. "the price is another course's" ∷ [];
  correction = λ _. "no";
  fallback = "DM aku ya kak";
}

abbrev by_word : String → Action × String
by_word s =
    if str_eq s "price?"
    then (reply, "question_or_interest")
    else if str_eq s "spam"
    then (hide, "spam")
    else (skip, "no_question")

abbrev post_desk : Board
post_desk = record {
  channel_id = 5;
  now = noon + 1000;
  comment_hourly_cap = 1;
  comment_per_post_cap = 1;
  hourly_cap = 10;
  threads = [];
  outbox = [];
  outbound_comments = [];
  classify_comment = by_word;
  is_warm = λ _. true;
  writer = λ _. careful;
  hide_comment = λ _. record { ok = false; error = some "timeout"; external_message_id = none };
  reply_to_comment = λ _ _. record { ok = true; error = none; external_message_id = some "r1" };
}

-- The risky price goes back to the model, and the corrected line goes out.
redraft : (draft careful).0 ≡ "DM us"
unfolding draft generate is_fabricated
redraft = refl

abbrev thread_below : List PostComment
thread_below = question 1 "nice" ∷ question 2 "price?" ∷ question 3 "price?" ∷ []

one_reply :
    let p = process_pending post_desk thread_below in (p.posted ≡ 1) × (p.public ≡ "DM us" ∷ [])
unfolding process_pending budget_of spend_of account_spend sent_lines exhausted left
    replied_last_hour pending_comments first_comments sort_comments insert_comment waiting
    process_comments reply_within replied_under_post reply_one draft generate is_fabricated
    put_comment
one_reply = (refl, refl)

-- Two refused deletions at the head of the queue: the question behind them is never taken up, in this run or
-- in the next.
abbrev blocked_queue : List PostComment
blocked_queue = question 1 "spam" ∷ question 2 "spam" ∷ question 3 "price?" ∷ []

blocked :
    let p = process_pending post_desk blocked_queue in
    let q = process_pending post_desk p.rows in
    (p.posted ≡ 0)
    × (q.posted ≡ 0)
    × (q.rows
        ≡ record (question 1 "spam") { attempts = 2 }
          ∷ record (question 2 "spam") { attempts = 2 }
          ∷ question 3 "price?"
          ∷ [])
unfolding process_pending budget_of spend_of account_spend sent_lines exhausted left
    replied_last_hour pending_comments first_comments sort_comments insert_comment waiting
    process_comments reply_within replied_under_post reply_one put_comment hidden_row
blocked = (refl, refl, refl)

process_pending-WithinCaps_example :
    WithinCaps post_desk thread_below (process_pending post_desk thread_below)
process_pending-WithinCaps_example =
    process_pending-WithinCaps post_desk thread_below ((refl, (refl, tt)), ((refl, tt), (tt, tt)))

process_pending-AllSafe_example : AllSafe post_desk (process_pending post_desk thread_below).public
process_pending-AllSafe_example = process_pending-AllSafe post_desk thread_below

abbrev sunset : CandidatePost
sunset = record { media_id = "sunset"; author_pk = "77"; taken_at = noon }

abbrev kind_mission : Mission
kind_mission = record {
  channel_id = 5;
  now = noon + 1000;
  daily_cap = 5;
  hourly_cap = 100;
  scale = λ n. n;
  threads = [];
  outbox = [];
  post_comments = [];
  fetch_user_posts = λ pk. if str_eq pk "77" then some (sunset ∷ []) else none;
  judge = λ _. some (record { relevant = true; reason = ""; angle = "light" });
  compose = λ _ _. some (some "lovely light", none);
  comment_on_post =
      λ _ _. some (record { ok = true; error = none; external_message_id = some "c1" });
}

-- The posts of this port are those of the person asked for.
kind_mission-OwnPosts : OwnPosts kind_mission
kind_mission-OwnPosts pk = elim (Bool-cases (str_eq pk "77")) [
  | inl hers ↦ let e : pk ≡ "77" = (str_eq_iff pk "77").0 hers in rw (hers, e) (refl, tt)
  | inr nobody ↦ rw nobody tt
]

abbrev instagrammer : Lead
instagrammer = record (lead_at 7 new) { ig_user_id = some "77" }

-- The same person twice in one run gets one comment, and a lead without an account none.
once_each :
    (run_mission kind_mission (instagrammer ∷ instagrammer ∷ lead_at 8 new ∷ []) []).posted ≡ 1
unfolding run_mission mission_budget sent_today share_of spend_now account_spend sent_lines
    exhausted left tour visit wrote_to_recently freshest consider is_seen
once_each = refl

run_mission-WithinLimits_example :
    WithinLimits kind_mission [] (run_mission kind_mission (instagrammer ∷ []) [])
run_mission-WithinLimits_example =
    run_mission-WithinLimits kind_mission (instagrammer ∷ []) [] kind_mission-OwnPosts
