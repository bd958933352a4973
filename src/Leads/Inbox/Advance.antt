-- ===== src/Leads/Inbox/Advance.antt =====
-- What no batch takes back from a thread (app/modules/leads/ingest.py): its lead, its moments and its
-- counts.
pub mod Saved
pub mod Turns
pub mod Batches
pub mod Repointed
pub mod Whole
use stepan.Prelude.{
  All, ◌==◌, ℕ, ◌+◌, ◌≤◌, ◌<◌, String, ◌≡◌, refl, ◌∙◌, true, false, Option, none, some, List, [],
  ◌∷◌, ◌++◌, arith,
}
use stepan.Domain.Lead.{Time}
use stepan.Domain.Thread.{ChannelThread}
use stepan.Leads.Inbox.Talk.{is_later}

abbrev pub NotBefore : Option Time → Option Time → Type 0
NotBefore none u = Unit
NotBefore (some t) none = true ≡ false
NotBefore (some t) (some u) = t ≤ u

-- Whose thread it is, and its marks.
pub record Marks : Type 0 where
  pub id : ℕ
  pub lead_id : ℕ
  pub channel_id : ℕ
  pub external_thread_id : String
  pub last_in_at : Option Time
  pub last_out_at : Option Time
  pub lead_seen_at : Option Time
  pub msg_in : ℕ
  pub msg_out : ℕ

abbrev pub marks : ChannelThread → Marks
marks t = record {
  id = t.id;
  lead_id = t.lead_id;
  channel_id = t.channel_id;
  external_thread_id = t.external_thread_id;
  last_in_at = t.last_in_at;
  last_out_at = t.last_out_at;
  lead_seen_at = t.lead_seen_at;
  msg_in = t.msg_in;
  msg_out = t.msg_out;
}

-- The same thread of the same lead, with no moment and no count gone back.
pub record IsAdvance (t u : Marks) : Type 0 where
  pub same_id : u.id ≡ t.id
  pub same_lead : u.lead_id ≡ t.lead_id
  pub same_channel : u.channel_id ≡ t.channel_id
  pub same_external : u.external_thread_id ≡ t.external_thread_id
  pub in_on : NotBefore t.last_in_at u.last_in_at
  pub out_on : NotBefore t.last_out_at u.last_out_at
  pub seen_on : NotBefore t.lead_seen_at u.lead_seen_at
  pub more_in : t.msg_in ≤ u.msg_in
  pub more_out : t.msg_out ≤ u.msg_out

-- Every thread of the first list has its advance in the second, at its place.
abbrev pub AllAdvance : List ChannelThread → List ChannelThread → Type 0
AllAdvance [] us = Unit
AllAdvance (t ∷ ts) [] = true ≡ false
AllAdvance (t ∷ ts) (u ∷ us) = IsAdvance (marks t) (marks u) × AllAdvance ts us

abbrev pub DistinctThreads : List ChannelThread → Type 0
DistinctThreads [] = Unit
DistinctThreads (t ∷ ts) = All (λ x. (x.id == t.id) ≡ false) ts × DistinctThreads ts

-- The primary key of the threads, and the id that the database gives next.
pub record IsKeyed (threads : List ChannelThread) (next_thread_id : ℕ) : Type 0 where
  pub distinct : DistinctThreads threads
  pub below : All (λ t. t.id < next_thread_id) threads

pub NotBefore-refl : (t : Option Time) → NotBefore t t
NotBefore-refl none = tt
NotBefore-refl (some t) = omega arith

NotBefore-trans : (t u v : Option Time) → NotBefore t u → NotBefore u v → NotBefore t v
NotBefore-trans none u v h k = tt
NotBefore-trans (some t) none v h k = absurd (cc h)
NotBefore-trans (some t) (some u) none h k = absurd (cc k)
NotBefore-trans (some t) (some u) (some v) h k = omega (arith, h, k)

pub NotBefore-later : (t : Option Time) (at : Time) → is_later at t ≡ true → NotBefore t (some at)
NotBefore-later none at h = tt
NotBefore-later (some t) at h = ground (arith, h)

pub IsAdvance-refl : (t : Marks) → IsAdvance t t
IsAdvance-refl t = record {
  same_id = refl;
  same_lead = refl;
  same_channel = refl;
  same_external = refl;
  in_on = NotBefore-refl t.last_in_at;
  out_on = NotBefore-refl t.last_out_at;
  seen_on = NotBefore-refl t.lead_seen_at;
  more_in = omega arith;
  more_out = omega arith;
}

pub IsAdvance-marks :
    (t : Marks) (i o s : Option Time) (m n : ℕ)
    → NotBefore t.last_in_at i
    → NotBefore t.last_out_at o
    → NotBefore t.lead_seen_at s
    → t.msg_in ≤ m
    → t.msg_out ≤ n
    → IsAdvance t
        (record t { last_in_at = i; last_out_at = o; lead_seen_at = s; msg_in = m; msg_out = n })
IsAdvance-marks t i o s m n a b c d e = record {
  same_id = refl;
  same_lead = refl;
  same_channel = refl;
  same_external = refl;
  in_on = a;
  out_on = b;
  seen_on = c;
  more_in = d;
  more_out = e;
}

pub IsAdvance-trans : (t u v : Marks) → IsAdvance t u → IsAdvance u v → IsAdvance t v
IsAdvance-trans t u v f g = record {
  same_id = g.same_id ∙ f.same_id;
  same_lead = g.same_lead ∙ f.same_lead;
  same_channel = g.same_channel ∙ f.same_channel;
  same_external = g.same_external ∙ f.same_external;
  in_on = NotBefore-trans t.last_in_at u.last_in_at v.last_in_at f.in_on g.in_on;
  out_on = NotBefore-trans t.last_out_at u.last_out_at v.last_out_at f.out_on g.out_on;
  seen_on = NotBefore-trans t.lead_seen_at u.lead_seen_at v.lead_seen_at f.seen_on g.seen_on;
  more_in = omega (arith, f.more_in, g.more_in);
  more_out = omega (arith, f.more_out, g.more_out);
}

pub AllAdvance-refl : (ts : List ChannelThread) → AllAdvance ts ts
AllAdvance-refl [] = tt
AllAdvance-refl (t ∷ ts) = (IsAdvance-refl (marks t), AllAdvance-refl ts)

pub AllAdvance-trans :
    (ts us vs : List ChannelThread) → AllAdvance ts us → AllAdvance us vs → AllAdvance ts vs
AllAdvance-trans [] us vs f g = tt
AllAdvance-trans (t ∷ ts) [] vs f g = absurd (cc f)
AllAdvance-trans (t ∷ ts) (u ∷ us) [] f g = absurd (cc g)
AllAdvance-trans (t ∷ ts) (u ∷ us) (v ∷ vs) (f, fs) (g, gs) =
    (IsAdvance-trans (marks t) (marks u) (marks v) f g, AllAdvance-trans ts us vs fs gs)

pub AllAdvance-append : (ts us : List ChannelThread) → AllAdvance ts (ts ++ us)
AllAdvance-append [] us = tt
AllAdvance-append (t ∷ ts) us = (IsAdvance-refl (marks t), AllAdvance-append ts us)

All-apart_append :
    (t : ChannelThread) (ts : List ChannelThread) (n : ℕ)
    → All (λ x. (x.id == n) ≡ false) ts
    → (t.id == n) ≡ false
    → All (λ x. (x.id == n) ≡ false) (ts ++ (t ∷ []))
All-apart_append t [] n h k = (k, tt)
All-apart_append t (x ∷ xs) n (h, hs) k = (h, All-apart_append t xs n hs k)

pub IsKeyed-append :
    (t : ChannelThread) (ts : List ChannelThread) (n : ℕ)
    → t.id ≡ n
    → IsKeyed ts n
    → IsKeyed (ts ++ (t ∷ [])) (n + 1)
IsKeyed-append t [] n e h = record { distinct = (tt, tt); below = (omega (arith, e), tt) }
IsKeyed-append t (x ∷ xs) n e h =
    let rest = IsKeyed-append t xs n e (record { distinct = h.distinct.1; below = h.below.1 }) in
    record {
      distinct =
          (All-apart_append t xs x.id h.distinct.0 (ground (arith, e, h.below.0)), rest.distinct);
      below = (omega (arith, h.below.0), rest.below);
    }
