-- ===== src/Leads/Inbox/Advance/Repointed.antt =====
-- What the merges of app/modules/leads/consolidate.py, one after another, do to the threads of an inbox.
use stepan.Prelude.{
  All, ◌==◌, ℕ, ◌≡◌, ◌∙◌, ap, inl, inr, Bool-cases, Option-cases, false, if◌then◌else◌, some,
  is_blank, or_text, List, [], ◌∷◌, arith,
}
use stepan.Domain.Lead.{Time, Lead}
use stepan.Domain.Thread.{ChannelThread}
use stepan.Leads.Consolidate.{Merge, merge_all, merge_by_phone, sharing, merge_others}
use stepan.Leads.Consolidate.Rows.{Tables}
use stepan.Leads.Consolidate.Threads.{follow, mem, ids, merge_all-threads}
use stepan.Leads.Inbox.Advance.{IsKeyed}

-- The threads after some merges: each gives every thread of the leads that share a phone to one
-- of them, and changes nothing else of any thread.
pub data Repoints : List ChannelThread → List ChannelThread → Type 0 where
  untouched : {ts : List ChannelThread} → Repoints ts ts
  merged :
      {ts us : List ChannelThread} (lead : Lead) (leads : List Lead) (tables : Tables) (now : Time)
      (m : Merge)
      → merge_by_phone lead leads ts tables now ≡ some (some m)
      → Repoints
          (follow
            (lead.id ∷ ids (sharing lead (or_text lead.phone_e164 "") leads))
            m.survivor.id
            ts)
          us
      → Repoints ts us

pub Repoints-trans :
    {ts us vs : List ChannelThread} → Repoints ts us → Repoints us vs → Repoints ts vs
Repoints-trans untouched q = q
Repoints-trans (merged lead leads tables now m e p) q =
    merged lead leads tables now m e (Repoints-trans p q)

follow-apart :
    (who : List ℕ) (to n : ℕ) (ts : List ChannelThread)
    → All (λ x. (x.id == n) ≡ false) ts
    → All (λ x. (x.id == n) ≡ false) (follow who to ts)
unfolding follow
follow-apart who to n [] h = tt
follow-apart who to n (t ∷ ts) (h, hs) = (ground (arith, h), follow-apart who to n ts hs)

follow-IsKeyed :
    (who : List ℕ) (to n : ℕ) (ts : List ChannelThread)
    → IsKeyed ts n
    → IsKeyed (follow who to ts) n
unfolding follow
follow-IsKeyed who to n [] k = k
follow-IsKeyed who to n (t ∷ ts) k =
    let rest = follow-IsKeyed who to n ts (record { distinct = k.distinct.1; below = k.below.1 }) in
    let same_id : (if mem t.lead_id who then record t { lead_id = to } else t).id ≡ t.id =
      ground arith in
    record {
      distinct = (rw same_id (follow-apart who to t.id ts k.distinct.0), rest.distinct);
      below = (ground (arith, k.below.0), rest.below);
    }

pub Repoints-IsKeyed :
    (n : ℕ) (ts us : List ChannelThread) → Repoints ts us → IsKeyed ts n → IsKeyed us n
Repoints-IsKeyed n ts us untouched k = k
Repoints-IsKeyed n ts us (merged lead leads tables now m e p) k =
    Repoints-IsKeyed n _ us p (follow-IsKeyed _ m.survivor.id n ts k)

merge_others-threads :
    (lead : Lead) (others : List Lead) (ts : List ChannelThread) (tables : Tables) (now : Time)
    (m : Merge)
    → merge_others lead others ts tables now ≡ some (some m)
    → m.threads ≡ follow (lead.id ∷ ids others) m.survivor.id ts
unfolding merge_others
merge_others-threads lead [] ts tables now m e = absurd (cc e)
merge_others-threads lead (o ∷ os) ts tables now m e =
    let start : Merge = record {
      survivor = lead;
      retired_leads = [];
      threads = ts;
      tables = tables;
    } in
    elim (Option-cases (merge_all start (o ∷ os) now)) [
      | inl failed ↦ absurd (cc (rw (merge_others, failed) at e))
      | inr (n, done) ↦
          let same_merge : n ≡ m = cc (rw (merge_others, done) at e) in
          merge_all-threads start (o ∷ os) now m (done ∙ ap some same_merge)
    ]

-- A merge of a lead, where there is one to merge with, re-points the threads.
pub merge_by_phone-threads :
    (lead : Lead) (leads : List Lead) (ts : List ChannelThread) (tables : Tables) (now : Time)
    (m : Merge)
    → merge_by_phone lead leads ts tables now ≡ some (some m)
    → m.threads
      ≡ follow (lead.id ∷ ids (sharing lead (or_text lead.phone_e164 "") leads)) m.survivor.id ts
unfolding merge_by_phone
merge_by_phone-threads lead leads ts tables now m e = elim (Bool-cases (is_blank lead.phone_e164)) [
  | inl blank ↦ absurd (cc (rw blank at e))
  | inr known ↦ merge_others-threads lead _ ts tables now m (rw known at e)
]

pub Repoints-same : (ts us : List ChannelThread) → us ≡ ts → Repoints ts us
Repoints-same ts us e = rw e untouched
