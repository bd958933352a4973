-- ===== src/Conversation/Deletions/Order.antt =====
-- The rows that DeletionService.pending (app/modules/conversation/deletions.py) gives to the loop: each
-- at most once, whatever their order.
use stepan.Prelude.{
  length, All, leb, ◌==◌, if◌then◌else◌, Bool-cases, ℕ, suc, ◌≤◌, ◌≡◌, refl, ◌∙◌, inl, inr, true,
  false, List, [], ◌∷◌, map, arith,
}
use stepan.Conversation.Deletions.{
  awaits_revoke, awaiting, insert_by_time, sort_by_time, pending_deletions,
}
use stepan.Domain.Message.{MessageRow}

-- Rows with different ids, as the primary key keeps them.
abbrev pub DistinctIds : List MessageRow → Type 0
DistinctIds [] = Unit
DistinctIds (m ∷ ms) = All (λ x. (x.id == m.id) ≡ false) ms × DistinctIds ms

unfoldable pub hits : ℕ → List MessageRow → List MessageRow
hits n [] = []
hits n (p ∷ ps) = let rest = hits n ps in if p.id == n then p ∷ rest else rest

pub map_pointwise :
    (f g : MessageRow → MessageRow) (ms : List MessageRow)
    → All (λ m. f m ≡ g m) ms
    → map f ms ≡ map g ms
map_pointwise f g [] h = refl
map_pointwise f g (m ∷ ms) (h, hs) = rw (h, map_pointwise f g ms hs) refl

pub map-map :
    (f g : MessageRow → MessageRow) (ms : List MessageRow)
    → map f (map g ms) ≡ map (λ m. f (g m)) ms
map-map f g [] = refl
map-map f g (m ∷ ms) = rw (map-map f g ms) refl

pub map_all :
    (f g : MessageRow → MessageRow) (ms : List MessageRow)
    → ((m : MessageRow) → f m ≡ g m)
    → map f ms ≡ map g ms
map_all f g [] h = refl
map_all f g (m ∷ ms) h = rw (h m, map_all f g ms h) refl

pub map_same :
    (f : MessageRow → MessageRow) (ms : List MessageRow)
    → ((m : MessageRow) → f m ≡ m)
    → map f ms ≡ ms
map_same f [] h = refl
map_same f (m ∷ ms) h = rw (h m, map_same f ms h) refl

length-none : (ms : List MessageRow) → length ms ≤ 0 → ms ≡ []
length-none [] h = refl
length-none (m ∷ ms) h = absurd (omega (arith, h))

hits-insert_apart :
    (n : ℕ) (p : MessageRow) (qs : List MessageRow)
    → (p.id == n) ≡ false
    → hits n (insert_by_time p qs) ≡ hits n qs
unfolding hits insert_by_time
hits-insert_apart n p [] h = rw h refl
hits-insert_apart n p (q ∷ qs) h = elim (Bool-cases (leb p.occurred_at q.occurred_at)) [
  | inl first ↦ rw (first, h) refl
  | inr after ↦ rw (after, hits-insert_apart n p qs h) refl
]

hits-insert_alone :
    (n : ℕ) (p : MessageRow) (qs : List MessageRow)
    → (p.id == n) ≡ true
    → hits n qs ≡ []
    → hits n (insert_by_time p qs) ≡ p ∷ []
unfolding hits insert_by_time
hits-insert_alone n p [] h e = rw h refl
hits-insert_alone n p (q ∷ qs) h e = elim (Bool-cases (q.id == n)) [
  | inl hit ↦ absurd (grind (arith, hit, e))
  | inr miss ↦
      let e' : hits n qs ≡ [] = rw miss at e in
      elim (Bool-cases (leb p.occurred_at q.occurred_at)) [
        | inl first ↦ rw (first, h, miss, e') refl
        | inr after ↦ rw (after, miss, hits-insert_alone n p qs h e') refl
      ]
]

-- The order of the loop is no matter for a row: at most one message has its id.
hits-sort_by_time :
    (n : ℕ) (ps : List MessageRow) → length (hits n ps) ≤ 1 → hits n (sort_by_time ps) ≡ hits n ps
unfolding hits sort_by_time
hits-sort_by_time n [] h = refl
hits-sort_by_time n (p ∷ ps) h = elim (Bool-cases (p.id == n)) [
  | inl hit ↦
      let h' : suc (length (hits n ps)) ≤ 1 = rw hit at h in
      let gone = length-none (hits n ps) (omega (arith, h')) in
      let earlier = hits-sort_by_time n ps (omega (arith, h')) in
      rw (hit, gone, hits-insert_alone n p (sort_by_time ps) hit (earlier ∙ gone)) refl
  | inr miss ↦
      rw (miss, hits-insert_apart n p (sort_by_time ps) miss)
        (hits-sort_by_time n ps (rw miss at h))
]

module _ (branch_id channel_id : ℕ) where
  hits-awaiting_none :
      (n : ℕ) (ms : List MessageRow)
      → All (λ x. (x.id == n) ≡ false) ms
      → hits n (awaiting branch_id channel_id ms) ≡ []
  unfolding hits awaiting
  hits-awaiting_none n [] h = refl
  hits-awaiting_none n (m ∷ ms) (h, hs) = elim (Bool-cases (awaits_revoke branch_id channel_id m)) [
    | inl due ↦ rw (due, h) (hits-awaiting_none n ms hs)
    | inr not_due ↦ rw not_due (hits-awaiting_none n ms hs)
  ]

  abbrev pub Alone : List MessageRow → MessageRow → Type 0
  Alone ms x =
      hits x.id (awaiting branch_id channel_id ms)
      ≡ (if awaits_revoke branch_id channel_id x then x ∷ [] else [])

  Alone-cons :
      (m : MessageRow) (ms xs : List MessageRow)
      → All (λ x. (x.id == m.id) ≡ false) xs
      → All (Alone ms) xs
      → All (Alone (m ∷ ms)) xs
  unfolding hits awaiting
  Alone-cons m ms [] a h = tt
  Alone-cons m ms (x ∷ xs) (a, rest) (h, hs) =
      let apart : (m.id == x.id) ≡ false = ground (arith, a) in
      elim (Bool-cases (awaits_revoke branch_id channel_id m)) [
        | inl due ↦ (rw (due, apart) h, Alone-cons m ms xs rest hs)
        | inr not_due ↦ (rw not_due h, Alone-cons m ms xs rest hs)
      ]

  pub Alone-of_distinct : (ms : List MessageRow) → DistinctIds ms → All (Alone ms) ms
  unfolding hits awaiting
  Alone-of_distinct [] h = tt
  Alone-of_distinct (m ∷ ms) (h, hs) =
      let own : (m.id == m.id) ≡ true = ground arith in
      let head : Alone (m ∷ ms) m = elim (Bool-cases (awaits_revoke branch_id channel_id m)) [
        | inl due ↦ rw (due, own, hits-awaiting_none m.id ms h) refl
        | inr not_due ↦ rw (not_due, hits-awaiting_none m.id ms h) refl
      ] in
      (head, Alone-cons m ms ms h (Alone-of_distinct ms hs))

  -- A row is the only one of its id that the loop meets, where it meets it at all.
  pub hits-pending_deletions :
      (ms : List MessageRow) (x : MessageRow)
      → Alone ms x
      → hits x.id (pending_deletions branch_id channel_id ms)
        ≡ (if awaits_revoke branch_id channel_id x then x ∷ [] else [])
  unfolding pending_deletions
  hits-pending_deletions ms x h =
      let short : length (hits x.id (awaiting branch_id channel_id ms)) ≤ 1 =
        elim (Bool-cases (awaits_revoke branch_id channel_id x)) [
          | inl due ↦ rw (h, due) (omega arith)
          | inr not_due ↦ rw (h, not_due) (omega arith)
        ] in
      hits-sort_by_time x.id (awaiting branch_id channel_id ms) short ∙ h
