-- ===== src/Leads/Inbox/Advance/Saved.antt =====
-- Saving a thread that was looked up (app/modules/leads/ingest.py, repository.py): it takes its own place
-- and no other.
use stepan.Prelude.{All, ◌==◌, if◌then◌else◌, ℕ, ◌≡◌, refl, sym, true, false, List, [], ◌∷◌, arith}
use mathlib.Core.List.{Memᴰ}
use stepan.Conversation.Outbox.Store.{put_thread}
use stepan.Domain.Thread.{ChannelThread}
use stepan.Leads.Inbox.{Inbox}
use stepan.Leads.Inbox.Advance.{
  marks, IsAdvance, AllAdvance, DistinctThreads, IsKeyed, IsAdvance-refl, AllAdvance-refl,
  AllAdvance-trans,
}

put_thread-apart :
    (u : ChannelThread) (ts : List ChannelThread)
    → All (λ x. (x.id == u.id) ≡ false) ts
    → put_thread u ts ≡ ts
unfolding put_thread
put_thread-apart u [] h = refl
put_thread-apart u (x ∷ xs) (h, hs) = rw (h, put_thread-apart u xs hs) refl

apart-of_mem :
    (t : ChannelThread) (n : ℕ) (ts : List ChannelThread)
    → Memᴰ t ts
    → All (λ x. (x.id == n) ≡ false) ts
    → (t.id == n) ≡ false
apart-of_mem t n [] m h = elim m [ ]
apart-of_mem t n (x ∷ xs) (Memᴰ.head e) (h, hs) = rw e h
apart-of_mem t n (x ∷ xs) (Memᴰ.tail m) (h, hs) = apart-of_mem t n xs m hs

put_thread-AllAdvance :
    (t u : ChannelThread) (ts : List ChannelThread)
    → DistinctThreads ts
    → Memᴰ t ts
    → IsAdvance (marks t) (marks u)
    → AllAdvance ts (put_thread u ts)
unfolding put_thread
put_thread-AllAdvance t u [] d m a = tt
put_thread-AllAdvance t u (x ∷ xs) (d, ds) (Memᴰ.head e) a =
    let same_id : u.id ≡ t.id = a.same_id in
    let hit : (x.id == u.id) ≡ true = rw (sym e) (ground (arith, same_id)) in
    let apart : All (λ y. (y.id == u.id) ≡ false) xs = rw (same_id, e) d in
    rw (hit, put_thread-apart u xs apart) (rw (sym e) a, AllAdvance-refl xs)
put_thread-AllAdvance t u (x ∷ xs) (d, ds) (Memᴰ.tail m) a =
    let same_id : u.id ≡ t.id = a.same_id in
    let other_id = apart-of_mem t x.id xs m d in
    let miss : (x.id == u.id) ≡ false = ground (arith, same_id, other_id) in
    rw miss (IsAdvance-refl (marks x), put_thread-AllAdvance t u xs ds m a)

pub put_thread-Mem :
    (t u : ChannelThread) (ts : List ChannelThread)
    → Memᴰ t ts
    → u.id ≡ t.id
    → Memᴰ u (put_thread u ts)
unfolding put_thread
put_thread-Mem t u [] m e = elim m [ ]
put_thread-Mem t u (x ∷ xs) (Memᴰ.head h) e =
    let hit : (x.id == u.id) ≡ true = rw (sym h) (ground (arith, e)) in rw hit (Memᴰ.head refl)
put_thread-Mem t u (x ∷ xs) (Memᴰ.tail m) e = Memᴰ.tail (put_thread-Mem t u xs m e)

put_thread-apart_from :
    (u : ChannelThread) (n : ℕ) (ts : List ChannelThread)
    → All (λ x. (x.id == n) ≡ false) ts
    → All (λ x. (x.id == n) ≡ false) (put_thread u ts)
unfolding put_thread
put_thread-apart_from u n [] h = tt
put_thread-apart_from u n (x ∷ xs) (h, hs) = (ground (arith, h), put_thread-apart_from u n xs hs)

put_thread-IsKeyed :
    (u : ChannelThread) (ts : List ChannelThread) (n : ℕ)
    → IsKeyed ts n
    → IsKeyed (put_thread u ts) n
unfolding put_thread
put_thread-IsKeyed u [] n h = h
put_thread-IsKeyed u (x ∷ xs) n h =
    let rest = put_thread-IsKeyed u xs n (record { distinct = h.distinct.1; below = h.below.1 }) in
    let same_id : (if x.id == u.id then u else x).id ≡ x.id = ground arith in
    record {
      distinct = (rw same_id (put_thread-apart_from u x.id xs h.distinct.0), rest.distinct);
      below = (rw same_id h.below.0, rest.below);
    }

-- A change of the tables that takes nothing back.
pub record Advances (s s' : Inbox) : Type 0 where
  pub moves : AllAdvance s.threads s'.threads
  pub keyed : IsKeyed s'.threads s'.next_thread_id

-- A thread of the table, saved as its advance.
pub save-Advances :
    (s s' : Inbox) (t u : ChannelThread)
    → IsKeyed s.threads s.next_thread_id
    → Memᴰ t s.threads
    → IsAdvance (marks t) (marks u)
    → s'.threads ≡ put_thread u s.threads
    → s'.next_thread_id ≡ s.next_thread_id
    → Advances s s'
save-Advances s s' t u k m a e f = record {
  moves = rw e (put_thread-AllAdvance t u s.threads k.distinct m a);
  keyed = rw (e, f) (put_thread-IsKeyed u s.threads s.next_thread_id k);
}

pub stay-Advances :
    (s s' : Inbox)
    → IsKeyed s.threads s.next_thread_id
    → s'.threads ≡ s.threads
    → s'.next_thread_id ≡ s.next_thread_id
    → Advances s s'
stay-Advances s s' k e f = record { moves = rw e (AllAdvance-refl s.threads); keyed = rw (e, f) k }

pub Advances-trans : (r s t : Inbox) → Advances r s → Advances s t → Advances r t
Advances-trans r s t f g = record {
  moves = AllAdvance-trans r.threads s.threads t.threads f.moves g.moves;
  keyed = g.keyed;
}
