-- ===== src/Comments/Grounded.antt =====
-- What may go out under a post (app/modules/comments/service.py, _draft): each public text against the
-- checks.
use stepan.Prelude.{
  All, leb, str_eq, if_intro, ℕ, ◌*◌, String, ◌≡◌, refl, ◌⊎◌, inl, inr, false, not, ◌&&◌, Option,
  none, some, List, [], ◌∷◌, arith,
}
use stepan.Comments.{PostComment, Action, LlmMeta, reply, skip, hide}
use stepan.Comments.Draft.{
  Writer, is_fabricated, Drafted, tried, or_smart, generate, is_nil, redrafted, guarded, draft,
  chat_fast, chat_smart,
}
use stepan.Comments.Process.{
  Board, budget_of, target_id, Pass, reply_one, reply_within, process_as, process_comments,
  process_pending,
}
use stepan.Comments.Table.{pending_comments, replied_under_post}

-- The canned line, or a text that the deterministic checks pass and that, where it is risky, the verification
-- against the knowledge base found nothing in.
abbrev pub IsSafe : Writer → String → Type 0
IsSafe w t =
    (t ≡ w.fallback)
    ⊎ ((is_fabricated w t ≡ false)
        × ((w.is_risky t && not (is_nil (w.verify_grounding t))) ≡ false))

abbrev IsUnfabricated : Writer → Drafted → Type 0
IsUnfabricated w (none, meta) = Unit
IsUnfabricated w (some t, meta) = is_fabricated w t ≡ false

tried-IsUnfabricated :
    (w : Writer) (meta : Option LlmMeta) (a : Option (String × Option LlmMeta))
    → IsUnfabricated w (tried w meta a)
tried-IsUnfabricated w meta none = tt
tried-IsUnfabricated w meta (some (raw, meta')) =
    let t = w.clean raw in
    if_intro (IsUnfabricated w) (not (str_eq t "") && not (is_fabricated w t))
      (λ ok. ground (arith, ok)) (λ _. tt)

or_smart-IsUnfabricated :
    (w : Writer) (prompt : String) (d : Drafted)
    → IsUnfabricated w d
    → IsUnfabricated w (or_smart w prompt d)
or_smart-IsUnfabricated w prompt (some t, meta) h = h
or_smart-IsUnfabricated w prompt (none, meta) h =
    tried-IsUnfabricated w meta (w.chat prompt chat_smart)

generate-IsUnfabricated : (w : Writer) (prompt : String) → IsUnfabricated w (generate w prompt)
unfolding generate
generate-IsUnfabricated w prompt =
    or_smart-IsUnfabricated w prompt (tried w none (w.chat prompt chat_fast))
      (tried-IsUnfabricated w none (w.chat prompt chat_fast))

abbrev Ends : Writer → String × Option LlmMeta → Type 0
Ends w (t, meta) = IsSafe w t

redrafted-IsSafe :
    (w : Writer) (meta : Option LlmMeta) (d : Drafted)
    → IsUnfabricated w d
    → Ends w (redrafted w meta d)
redrafted-IsSafe w meta (none, meta2) h = inl refl
redrafted-IsSafe w meta (some fixed, meta2) h =
    if_intro (Ends w) (w.is_risky fixed && not (is_nil (w.verify_grounding fixed))) (λ _. inl refl)
      (λ sound. inr (h, sound))

guarded-IsSafe : (w : Writer) (d : Drafted) → IsUnfabricated w d → Ends w (guarded w d)
guarded-IsSafe w (none, meta) h = inl refl
guarded-IsSafe w (some t, meta) h =
    if_intro (Ends w) (not (w.is_risky t)) (λ tame. inr (h, ground (arith, tame)))
      (λ _.
        if_intro (Ends w) (is_nil (w.verify_grounding t)) (λ found. inr (h, ground (arith, found)))
          (λ _. redrafted-IsSafe w meta _ (generate-IsUnfabricated w _)))

draft-IsSafe : (w : Writer) → IsSafe w (draft w).0
unfolding draft
draft-IsSafe w = guarded-IsSafe w (generate w w.prompt) (generate-IsUnfabricated w w.prompt)

-- Every text is safe for the comment that it answers.
abbrev pub AllSafe : Board → List String → Type 0
AllSafe k = All (λ (t : String). (c : PostComment) × IsSafe (k.writer c) t)

module _ (k : Board) where
  abbrev Said : Pass → Type 0
  Said p = AllSafe k p.public

  reply_one-Said : (c : PostComment) (p : Pass) → Said p → Said (reply_one k c p)
  unfolding reply_one
  reply_one-Said c p h =
      if_intro Said (k.reply_to_comment (target_id c) (draft (k.writer c)).0).ok
        (λ _. ((c, draft-IsSafe (k.writer c)), h)) (λ _. h)

  reply_within-Said : (c : PostComment) (p : Pass) → Said p → Said (reply_within k c p)
  unfolding reply_within
  reply_within-Said c p h =
      if_intro Said (leb k.comment_per_post_cap (replied_under_post k.channel_id c.media_id p.rows))
        (λ _. h) (λ _. reply_one-Said c p h)

  process_as-Said :
      (c : PostComment) (p : Pass) (a : Action × String) → Said p → Said (process_as k c p a)
  process_as-Said c p (hide, reason) h = h
  process_as-Said c p (skip, reason) h = h
  process_as-Said c p (reply, reason) h = reply_within-Said c p h

  process_comments-Said :
      (budget : ℕ) (cs : List PostComment) (p : Pass)
      → Said p
      → Said (process_comments k budget cs p)
  unfolding process_comments
  process_comments-Said budget [] p h = h
  process_comments-Said budget (c ∷ cs) p h =
      let a = k.classify_comment c.text in
      if_intro Said (leb budget p.posted) (λ _. h)
        (λ _. process_comments-Said budget cs (process_as k c p a) (process_as-Said c p a h))

-- Whatever the model writes and the checks answer: every text that a run puts out is the canned line, or
-- passed the deterministic checks and, where it is risky, the verification.
pub process_pending-AllSafe :
    (k : Board) (rows : List PostComment) → AllSafe k (process_pending k rows).public
unfolding process_pending
process_pending-AllSafe k rows =
    let budget = budget_of k rows in
    let start : Pass = record { rows = rows; posted = 0; public = [] } in
    let begun : AllSafe k start.public = tt in
    if_intro (λ (p : Pass). AllSafe k p.public) (leb budget 0) (λ _. begun)
      (λ _.
        process_comments-Said k budget (pending_comments k.channel_id (budget * 2) rows) start
          begun)
