-- ===== src/Comments/Proactive/Quiet.antt =====
-- The limits of the proactive comments (app/modules/comments/proactive.py): the day, the account and the
-- quiet time of a person.
use stepan.Prelude.{
  All, count_if, ltb, leb, str_eq, str_eq_iff, Bool-cases, or_text, if_intro, ℕ, ◌+◌, ◌-◌, ◌*◌, ◌≤◌,
  max, String, ◌≡◌, refl, ◌∙◌, inl, inr, Bool, false, not, ◌||◌, Option, none, some, List, [], ◌∷◌,
  ◌++◌, arith,
}
use stepan.Comments.{PortAnswer, LlmMeta}
use stepan.Comments.Proactive.{
  OutboundRow, CandidatePost, Verdict, Mission, quiet_days, post_max_age_days, is_sent_row, is_seen,
  is_to, wrote_to_recently, is_of_today, sent_today, spend_now, mission_budget, newer_post,
  freshest, new_row, shipped, composed, judged, consider, consider?, visit_posts, visit, Tour,
  visited, tour, run_mission,
}
use stepan.Conversation.Outbox.Queue.{before}
use stepan.Domain.Clock.{day}
use stepan.Domain.Lead.{Lead}
use stepan.Missions.Budget.{left, share_of}

module _ (f : OutboundRow → Bool) where
  count-snoc_le :
      (rows : List OutboundRow) (r : OutboundRow)
      → f r ≡ false
      → count_if f (rows ++ (r ∷ [])) ≡ count_if f rows
  count-snoc_le [] r h = ground (arith, h)
  count-snoc_le (x ∷ xs) r h = let rest = count-snoc_le xs r h in ground (arith, rest)

  count-snoc_suc :
      (rows : List OutboundRow) (r : OutboundRow)
      → count_if f (rows ++ (r ∷ [])) ≤ count_if f rows + 1
  count-snoc_suc [] r = ground arith
  count-snoc_suc (x ∷ xs) r = let rest = count-snoc_suc xs r in ground (arith, rest)

module _ (m : Mission) where
  abbrev pub sent_to : (author_pk : String) → List OutboundRow → ℕ
  sent_to author_pk rows = count_if (is_to m.channel_id author_pk (m.now - quiet_days * day)) rows

  wrote_to_recently-sent_to :
      (author_pk : String) (rows : List OutboundRow)
      → wrote_to_recently m author_pk rows ≡ false
      → sent_to author_pk rows ≡ 0
  unfolding wrote_to_recently
  wrote_to_recently-sent_to pk [] h = omega arith
  wrote_to_recently-sent_to pk (r ∷ rs) h =
      let away : is_to m.channel_id pk (m.now - quiet_days * day) r ≡ false = ground (arith, h) in
      let rest = wrote_to_recently-sent_to pk rs (ground (arith, h)) in ground (arith, away, rest)

  shipped-author :
      (r : OutboundRow) (t : String) (meta : Option LlmMeta) (a : Option PortAnswer)
      → (shipped m r t meta a).author_pk ≡ r.author_pk
  shipped-author r t meta none = refl
  shipped-author r t meta (some a) =
      if_intro (λ (x : OutboundRow). x.author_pk ≡ r.author_pk) a.ok (λ _. refl) (λ _. refl)

  composed-author :
      (post : CandidatePost) (r : OutboundRow) (d : Option (Option String × Option LlmMeta))
      → (composed m post r d).author_pk ≡ r.author_pk
  composed-author post r none = refl
  composed-author post r (some (none, meta)) = refl
  composed-author post r (some (some t, meta)) =
      shipped-author r t meta (m.comment_on_post post.media_id t)

  judged-author :
      (post : CandidatePost) (r : OutboundRow) (v : Option Verdict)
      → (judged m post r v).author_pk ≡ r.author_pk
  judged-author post r none = refl
  judged-author post r (some v) =
      let r' = record r { relevant = some v.relevant } in
      if_intro (λ (x : OutboundRow). x.author_pk ≡ r.author_pk) (not v.relevant) (λ _. refl)
        (λ _. composed-author post r' (m.compose post v.angle))

  abbrev IsBy : (pk : String) → Option CandidatePost → Type 0
  IsBy pk none = Unit
  IsBy pk (some p) = p.author_pk ≡ pk

  newer_post-IsBy :
      (pk : String) (p : CandidatePost) (q : Option CandidatePost)
      → p.author_pk ≡ pk
      → IsBy pk q
      → IsBy pk (newer_post p q)
  newer_post-IsBy pk p none h g = h
  newer_post-IsBy pk p (some q) h g =
      if_intro (IsBy pk) (ltb p.taken_at q.taken_at) (λ _. g) (λ _. h)

  freshest-IsBy :
      (pk : String) (ps : List CandidatePost)
      → All (λ (p : CandidatePost). p.author_pk ≡ pk) ps
      → IsBy pk (freshest m ps)
  unfolding freshest
  freshest-IsBy pk [] h = tt
  freshest-IsBy pk (p ∷ ps) (h, hs) =
      let rest = freshest-IsBy pk ps hs in
      if_intro (IsBy pk) (leb (m.now - post_max_age_days * day) p.taken_at)
        (λ _. newer_post-IsBy pk p (freshest m ps) h rest) (λ _. rest)

  -- A row of a visit is to someone who has had none lately.
  abbrev IsFirst : List OutboundRow → Option OutboundRow → Type 0
  IsFirst rows none = Unit
  IsFirst rows (some r) = wrote_to_recently m r.author_pk rows ≡ false

  consider-IsFirst :
      (lead : Lead) (rows : List OutboundRow) (pk : String) (p : Option CandidatePost)
      → IsBy pk p
      → wrote_to_recently m pk rows ≡ false
      → IsFirst rows (consider? m lead rows p)
  unfolding consider
  consider-IsFirst lead rows pk none b h = tt
  consider-IsFirst lead rows pk (some p) b h =
      let same_author : (judged m p (new_row m lead p) (m.judge p)).author_pk ≡ pk =
        judged-author p (new_row m lead p) (m.judge p) ∙ b in
      let first : wrote_to_recently m (judged m p (new_row m lead p) (m.judge p)).author_pk rows
          ≡ false =
        rw same_author h in
      if_intro (IsFirst rows) (is_seen m.channel_id p.media_id rows) (λ _. tt) (λ _. first)

  abbrev AllBy : (pk : String) → Option (List CandidatePost) → Type 0
  AllBy pk none = Unit
  AllBy pk (some ps) = All (λ (p : CandidatePost). p.author_pk ≡ pk) ps

  visit_posts-IsFirst :
      (lead : Lead) (rows : List OutboundRow) (pk : String) (ps : Option (List CandidatePost))
      → AllBy pk ps
      → wrote_to_recently m pk rows ≡ false
      → IsFirst rows (visit_posts m lead rows ps)
  visit_posts-IsFirst lead rows pk none b h = tt
  visit_posts-IsFirst lead rows pk (some ps) b h =
      consider-IsFirst lead rows pk (freshest m ps) (freshest-IsBy pk ps b) h

  visit-IsFirst :
      (lead : Lead) (rows : List OutboundRow)
      → AllBy (or_text lead.ig_user_id "") (m.fetch_user_posts (or_text lead.ig_user_id ""))
      → IsFirst rows (visit m lead rows)
  unfolding visit
  visit-IsFirst lead rows own =
      let pk = or_text lead.ig_user_id "" in
      if_intro (IsFirst rows) (str_eq pk "" || wrote_to_recently m pk rows) (λ _. tt)
        (λ ok. visit_posts-IsFirst lead rows pk (m.fetch_user_posts pk) own (ground (arith, ok)))

  -- The port answers with posts of the person who was asked for.
  abbrev pub OwnPosts : Type 0
  OwnPosts = (pk : String) → AllBy pk (m.fetch_user_posts pk)

  -- The day's count grows with the comments posted, and a person's stays at one.
  record IsQuiet (t u : Tour) : Type 0 where
    pub today : sent_today m u.rows + t.posted ≤ sent_today m t.rows + u.posted
    pub quiet :
        (author_pk : String) (n : ℕ)
        → 1 ≤ n
        → sent_to author_pk t.rows ≤ n
        → sent_to author_pk u.rows ≤ n

  IsQuiet-refl : (t : Tour) → IsQuiet t t
  IsQuiet-refl t = record { today = omega arith; quiet = λ pk n a b. b }

  IsQuiet-trans : (t u v : Tour) → IsQuiet t u → IsQuiet u v → IsQuiet t v
  IsQuiet-trans t u v g h = record {
    today = let a = g.today in let b = h.today in omega (arith, a, b);
    quiet = λ pk n a b. h.quiet pk n a (g.quiet pk n a b);
  }

  visited-IsQuiet : (t : Tour) (o : Option OutboundRow) → IsFirst t.rows o → IsQuiet t (visited t o)
  unfolding sent_today
  visited-IsQuiet t none h = IsQuiet-refl t
  visited-IsQuiet t (some r) h = record {
    today = elim (Bool-cases (is_sent_row r.status)) [
      | inl goes ↦ let le = count-snoc_suc (is_of_today m) t.rows r in rw goes (omega (arith, le))
      | inr stays ↦
          let away : is_of_today m r ≡ false = ground (arith, stays) in
          let eq = count-snoc_le (is_of_today m) t.rows r away in rw stays (omega (arith, eq))
    ];
    quiet = λ pk n a b.
        let cutoff = m.now - quiet_days * day in
        elim (Bool-cases (is_to m.channel_id pk cutoff r)) [
          | inl hit ↦
              let to : r.author_pk ≡ pk = (str_eq_iff r.author_pk pk).0 (ground (arith, hit)) in
              let none_yet = wrote_to_recently-sent_to pk t.rows (rw to at h) in
              let le = count-snoc_suc (is_to m.channel_id pk cutoff) t.rows r in
              omega (arith, none_yet, le, a)
          | inr miss ↦
              let eq = count-snoc_le (is_to m.channel_id pk cutoff) t.rows r miss in
              omega (arith, eq, b)
        ];
  }

  tour-IsQuiet :
      (budget : ℕ) (leads : List Lead) (t : Tour) → OwnPosts → IsQuiet t (tour m budget leads t)
  unfolding tour
  tour-IsQuiet budget [] t own = IsQuiet-refl t
  tour-IsQuiet budget (l ∷ ls) t own =
      let u = visited t (visit m l t.rows) in
      if_intro (IsQuiet t) (leb budget t.posted) (λ _. IsQuiet-refl t)
        (λ _.
          IsQuiet-trans t u (tour m budget ls u)
            (visited-IsQuiet t (visit m l t.rows)
              (visit-IsFirst l t.rows (own (or_text l.ig_user_id ""))))
            (tour-IsQuiet budget ls u own))

  visited-posted : (t : Tour) (o : Option OutboundRow) → (visited t o).posted ≤ t.posted + 1
  visited-posted t none = omega arith
  visited-posted t (some r) = ground arith

  tour-posted :
      (budget : ℕ) (leads : List Lead) (t : Tour)
      → t.posted ≤ budget
      → (tour m budget leads t).posted ≤ budget
  unfolding tour
  tour-posted budget [] t h = h
  tour-posted budget (l ∷ ls) t h =
      let one = visited-posted t (visit m l t.rows) in
      if_intro (λ (u : Tour). u.posted ≤ budget) (leb budget t.posted) (λ _. h)
        (λ more. tour-posted budget ls (visited t (visit m l t.rows)) (ground (arith, more, one)))

  mission_budget-bounds :
      (rows : List OutboundRow)
      → (mission_budget m rows ≤ m.daily_cap - sent_today m rows)
        × (mission_budget m rows ≤ left (spend_now m rows))
  unfolding mission_budget share_of
  mission_budget-bounds rows = (ground arith, ground arith)

-- What a run of the mission may leave behind.
abbrev pub WithinLimits : Mission → (before : List OutboundRow) → Tour → Type 0
WithinLimits m before t =
    (t.posted ≤ left (spend_now m before))
    × (sent_today m t.rows ≤ max (sent_today m before) m.daily_cap)
    × ((author_pk : String) → sent_to m author_pk t.rows ≤ max (sent_to m author_pk before) 1)

-- Where the port answers with posts of the person asked for, a run over any leads posts no more than the account
-- has left, keeps the day within its cap, and leaves each person at most one comment in the quiet time, or as
-- many as there were.
pub run_mission-WithinLimits :
    (m : Mission) (leads : List Lead) (rows : List OutboundRow)
    → OwnPosts m
    → WithinLimits m rows (run_mission m leads rows)
unfolding run_mission
run_mission-WithinLimits m leads rows own =
    let budget = mission_budget m rows in
    let start : Tour = record { rows = rows; posted = 0 } in
    let bounds = mission_budget-bounds m rows in
    let run = tour-IsQuiet m budget leads start own in
    let few = tour-posted m budget leads start (omega arith) in
    let daily = run.today in
    if_intro (WithinLimits m rows) (leb budget 0)
      (λ _. (omega arith, omega arith, λ pk. omega arith))
      (λ _. (
        omega (arith, few, bounds.1),
        omega (arith, few, bounds.0, daily),
        λ pk. run.quiet pk _ (omega arith) (omega arith),
      ))
