-- ===== src/Comments/Writes.antt =====
-- The rows of app/modules/comments/repository.py under the writes of a run: their ids, their counts, and those
-- that wait.
use stepan.Prelude.{
  All, count_if, leb, ◌==◌, ==_iff, Bool-cases, if_intro, ℕ, zero, suc, ◌+◌, ◌≤◌, ◌≡◌, refl, inl,
  inr, Bool, true, false, ◌&&◌, List, [], ◌∷◌, arith,
}
use stepan.Comments.{PostComment}
use stepan.Comments.Table.{
  is_waiting, waiting, insert_comment, sort_comments, first_comments, pending_comments, put_comment,
}

abbrev pub DistinctIds : List PostComment → Type 0
DistinctIds [] = Unit
DistinctIds (c ∷ cs) = All (λ (x : PostComment). (x.id == c.id) ≡ false) cs × DistinctIds cs

put-away :
    (c : PostComment) (xs : List PostComment) (n : ℕ)
    → n ≡ c.id
    → All (λ (x : PostComment). (x.id == n) ≡ false) xs
    → put_comment c xs ≡ xs
unfolding put_comment
put-away c [] n e h = refl
put-away c (x ∷ xs) n e (h, hs) =
    let miss : (x.id == c.id) ≡ false = rw e at h in
    let rest = put-away c xs n e hs in rw (miss, rest) refl

put-All :
    (P : ℕ → Type 0) (c : PostComment) (xs : List PostComment)
    → All (λ (x : PostComment). P x.id) xs
    → All (λ (x : PostComment). P x.id) (put_comment c xs)
unfolding put_comment
put-All P c [] h = tt
put-All P c (x ∷ xs) (h, hs) = elim (Bool-cases (x.id == c.id)) [
  | inl hit ↦
      let e : c.id ≡ x.id = omega (arith, (==_iff x.id c.id).0 hit) in
      let h' : P c.id = rw e h in rw hit (h', put-All P c xs hs)
  | inr miss ↦ rw miss (h, put-All P c xs hs)
]

pub put-DistinctIds :
    (c : PostComment) (xs : List PostComment) → DistinctIds xs → DistinctIds (put_comment c xs)
unfolding put_comment
put-DistinctIds c [] h = tt
put-DistinctIds c (x ∷ xs) (h, hs) =
    let rest = put-All (λ n. (n == x.id) ≡ false) c xs h in
    elim (Bool-cases (x.id == c.id)) [
      | inl hit ↦
          let e : c.id ≡ x.id = omega (arith, (==_iff x.id c.id).0 hit) in
          rw (hit, e) (rest, put-DistinctIds c xs hs)
      | inr miss ↦ rw miss (rest, put-DistinctIds c xs hs)
    ]

-- A row that does not count is written: the count does not grow.
pub put-count_le :
    (f : PostComment → Bool) (c : PostComment) (xs : List PostComment)
    → f c ≡ false
    → count_if f (put_comment c xs) ≤ count_if f xs
unfolding put_comment
put-count_le f c [] h = omega arith
put-count_le f c (x ∷ xs) h =
    let rest = put-count_le f c xs h in
    elim (Bool-cases (x.id == c.id)) [
      | inl hit ↦ rw (hit, h) (ground (arith, rest))
      | inr miss ↦ rw miss (ground (arith, rest))
    ]

pub put-count_suc :
    (f : PostComment → Bool) (c : PostComment) (xs : List PostComment)
    → DistinctIds xs
    → count_if f (put_comment c xs) ≤ count_if f xs + 1
unfolding put_comment
put-count_suc f c [] d = omega arith
put-count_suc f c (x ∷ xs) (d, ds) = elim (Bool-cases (x.id == c.id)) [
  | inl hit ↦
      let away = put-away c xs x.id ((==_iff x.id c.id).0 hit) d in
      let same_count : count_if f (put_comment c xs) ≡ count_if f xs = rw away refl in
      rw hit (ground (arith, same_count))
  | inr miss ↦ let rest = put-count_suc f c xs ds in rw miss (ground (arith, rest))
]

abbrev pub AllPending : List PostComment → Type 0
AllPending = All (λ (c : PostComment). is_waiting c.status ≡ true)

waiting-AllPending :
    (channel_id : ℕ) (rows : List PostComment) → AllPending (waiting channel_id rows)
unfolding waiting
waiting-AllPending ch [] = tt
waiting-AllPending ch (c ∷ cs) =
    let rest = waiting-AllPending ch cs in
    if_intro AllPending (c.channel_id == ch && is_waiting c.status) (λ h. (ground (arith, h), rest))
      (λ _. rest)

insert_comment-AllPending :
    (c : PostComment) (xs : List PostComment)
    → is_waiting c.status ≡ true
    → AllPending xs
    → AllPending (insert_comment c xs)
unfolding insert_comment
insert_comment-AllPending c [] h hs = (h, tt)
insert_comment-AllPending c (x ∷ xs) h (g, gs) =
    if_intro AllPending (leb c.occurred_at x.occurred_at) (λ _. (h, (g, gs)))
      (λ _. (g, insert_comment-AllPending c xs h gs))

sort_comments-AllPending : (xs : List PostComment) → AllPending xs → AllPending (sort_comments xs)
unfolding sort_comments
sort_comments-AllPending [] h = tt
sort_comments-AllPending (x ∷ xs) (h, hs) =
    insert_comment-AllPending x (sort_comments xs) h (sort_comments-AllPending xs hs)

first_comments-AllPending :
    (n : ℕ) (xs : List PostComment) → AllPending xs → AllPending (first_comments n xs)
unfolding first_comments
first_comments-AllPending zero xs h = tt
first_comments-AllPending (suc n) [] h = tt
first_comments-AllPending (suc n) (x ∷ xs) (h, hs) = (h, first_comments-AllPending n xs hs)

pub pending_comments-AllPending :
    (channel_id limit : ℕ) (rows : List PostComment)
    → AllPending (pending_comments channel_id limit rows)
unfolding pending_comments
pending_comments-AllPending ch limit rows =
    first_comments-AllPending limit (sort_comments (waiting ch rows))
      (sort_comments-AllPending (waiting ch rows) (waiting-AllPending ch rows))
