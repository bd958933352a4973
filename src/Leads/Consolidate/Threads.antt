-- ===== src/Leads/Consolidate/Threads.antt =====
-- Where the threads end up after the merge of app/modules/leads/consolidate.py.
use stepan.Prelude.{
  ℕ, ◌≡◌, refl, ap, ◌∙◌, ◌⊎◌, inl, inr, Bool, false, ◌||◌, some, List, [], ◌∷◌, arith, ◌==◌,
  if◌then◌else◌, Bool-cases, Option-cases,
}
use stepan.Domain.Stage.{is_manager}
use stepan.Domain.Lead.{Time, Lead}
use stepan.Domain.Thread.{ChannelThread}
use stepan.Leads.Consolidate.Rows.{Tables}
use stepan.Leads.Consolidate.{
  Merge, Absorbed, keep_or, move_threads, pick_survivor, silence_bot, absorb, merge_one, merge_all,
}

unfoldable pub mem : ℕ → List ℕ → Bool
mem n [] = false
mem n (m ∷ ms) = n == m || mem n ms

-- The ids of some leads.
abbrev pub ids : List Lead → List ℕ
ids [] = []
ids (l ∷ ls) = l.id ∷ ids ls

-- Every thread of the people `who` belongs to `to`; the other threads stay.
unfoldable pub follow : (who : List ℕ) (to : ℕ) → List ChannelThread → List ChannelThread
unfolding mem
follow who to [] = []
follow who to (t ∷ ts) =
    (if mem t.lead_id who then record t { lead_id = to } else t) ∷ follow who to ts

follow_self : (to : ℕ) (ts : List ChannelThread) → follow (to ∷ []) to ts ≡ ts
unfolding follow
follow_self to [] = refl
follow_self to (t ∷ ts) = ground (arith, follow_self to ts)

move_threads-eq-follow :
    (from to : ℕ) (ts : List ChannelThread)
    → move_threads from to ts ≡ follow (to ∷ from ∷ []) to ts
unfolding follow move_threads
move_threads-eq-follow from to [] = refl
move_threads-eq-follow from to (t ∷ ts) = ground (arith, move_threads-eq-follow from to ts)

follow-follow :
    (a b s to : ℕ) (who : List ℕ) (ts : List ChannelThread)
    → (s ≡ a) ⊎ (s ≡ b)
    → follow (s ∷ who) to (follow (a ∷ b ∷ []) s ts) ≡ follow (a ∷ b ∷ who) to ts
unfolding follow
follow-follow a b s to who [] h = refl
follow-follow a b s to who (t ∷ ts) h = ground (arith, follow-follow a b s to who ts h)

follow_swap :
    (a b to : ℕ) (ts : List ChannelThread) → follow (a ∷ b ∷ []) to ts ≡ follow (b ∷ a ∷ []) to ts
unfolding follow
follow_swap a b to [] = refl
follow_swap a b to (t ∷ ts) = ground (arith, follow_swap a b to ts)

follow_twice : (a to : ℕ) (ts : List ChannelThread) → a ≡ to → follow (to ∷ a ∷ []) to ts ≡ ts
unfolding follow
follow_twice a to [] e = refl
follow_twice a to (t ∷ ts) e = ground (arith, follow_twice a to ts e)

silence_bot-id : (lead : Lead) (now : Time) → (silence_bot lead now).id ≡ lead.id
unfolding silence_bot
silence_bot-id lead now = ground arith

absorb-threads :
    (s a : Lead) (ts : List ChannelThread) (tables : Tables) (now : Time) {r : Absorbed}
    → absorb s a ts tables now ≡ some r
    → (r.survivor.id ≡ s.id) × (r.threads ≡ follow (s.id ∷ a.id ∷ []) s.id ts)
unfolding absorb
absorb-threads s a ts tables now e = ground (
  arith,
  follow_twice a.id s.id ts,
  move_threads-eq-follow a.id s.id ts,
  silence_bot-id
      (record s {
        display_name = keep_or s.display_name a.display_name;
        avatar_url = keep_or s.avatar_url a.avatar_url;
      })
      now,
)

merge_one-threads :
    (m : Merge) (other : Lead) (now : Time) {m' : Merge}
    → merge_one m other now ≡ some m'
    → ((m'.survivor.id ≡ m.survivor.id) ⊎ (m'.survivor.id ≡ other.id))
      × (m'.threads ≡ follow (m.survivor.id ∷ other.id ∷ []) m'.survivor.id m.threads)
unfolding merge_one pick_survivor
merge_one-threads m other now e = elim (Bool-cases (is_manager m.survivor.stage)) [
  | inl folded ↦ elim (Option-cases (absorb other m.survivor m.threads m.tables now)) [
    | inl failed ↦ (ground arith, ground arith)
    | inr (r, done) ↦
        let facts = absorb-threads other m.survivor m.threads m.tables now done in
        let swap = follow_swap other.id m.survivor.id other.id m.threads in
        (ground (arith, facts, done), ground (arith, facts, done, swap))
  ]
  | inr kept ↦ elim (Option-cases (absorb m.survivor other m.threads m.tables now)) [
    | inl failed ↦ (ground arith, ground arith)
    | inr (r, done) ↦
        let facts = absorb-threads m.survivor other m.threads m.tables now done in
        (ground (arith, facts, done), ground (arith, facts, done))
  ]
]

-- When the merge of any number of leads succeeds, every thread of every one of them belongs to
-- the survivor, whichever of them that is, and no other thread has moved.
pub merge_all-threads :
    (m : Merge) (others : List Lead) (now : Time) (m' : Merge)
    → merge_all m others now ≡ some m'
    → m'.threads ≡ follow (m.survivor.id ∷ ids others) m'.survivor.id m.threads
unfolding merge_all
merge_all-threads m [] now m' e = ground (arith, follow_self m.survivor.id m.threads)
merge_all-threads m (o ∷ os) now m' e = elim (Option-cases (merge_one m o now)) [
  | inl failed ↦ cc
  | inr (n, done) ↦
      let step = merge_one-threads m o now done in
      let rest = merge_all-threads n os now m' (rw done at e) in
      rest
      ∙ ap (follow (n.survivor.id ∷ ids os) m'.survivor.id) step.1
      ∙ follow-follow m.survivor.id o.id n.survivor.id m'.survivor.id (ids os) m.threads step.0
]
