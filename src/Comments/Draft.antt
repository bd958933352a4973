-- ===== src/Comments/Draft.antt =====
-- app/modules/comments/service.py: the public line of a reply (_draft, _generate, _fabricated).
use stepan.Prelude.{
  if◌then◌else◌, str_eq, concat, String, Bool, true, false, not, ◌&&◌, ◌||◌, Option, none, some,
  List, [], ◌∷◌,
}
use stepan.Comments.{LlmMeta}

-- The two capabilities, the cheap one first.
pub data Capability : Type 0 where
  chat_fast chat_smart : Capability

-- What the draft of one comment is given: the model, the checks of guard.py on a text against the knowledge
-- base, and the canned line.
pub record Writer : Type 0 where
  pub prompt : String
  -- `none` where the call raises
  pub chat : (prompt : String) → Capability → Option (String × Option LlmMeta)
  pub clean : String → String
  pub has_ungrounded_urls : String → Bool
  pub is_impossible_offer : String → Bool
  pub is_false_delivery : String → Bool
  pub is_risky : String → Bool
  pub is_price_grounded : String → Bool
  pub verify_grounding : String → List String
  pub correction : List String → String
  pub fallback : String

-- `_fabricated`
unfoldable pub is_fabricated : Writer → String → Bool
is_fabricated w t =
    if w.has_ungrounded_urls t || w.is_impossible_offer t || w.is_false_delivery t
    then true
    else w.is_risky t && not (w.is_price_grounded t)

abbrev pub Drafted : Type 0
Drafted = Option String × Option LlmMeta

-- One round of the loop of `_generate`: `none` where the next capability is tried, with the meta so far.
abbrev pub tried : Writer → (meta : Option LlmMeta) → Option (String × Option LlmMeta) → Drafted
tried w meta none = (none, meta)
tried w meta (some (raw, meta')) =
    let t = w.clean raw in
    if not (str_eq t "") && not (is_fabricated w t) then (some t, meta') else (none, meta')

abbrev pub or_smart : Writer → (prompt : String) → Drafted → Drafted
or_smart w prompt (some t, meta) = (some t, meta)
or_smart w prompt (none, meta) = tried w meta (w.chat prompt chat_smart)

-- `_generate`
unfoldable pub generate : Writer → (prompt : String) → Drafted
generate w prompt = or_smart w prompt (tried w none (w.chat prompt chat_fast))

abbrev pub or_meta : Option LlmMeta → Option LlmMeta → Option LlmMeta
or_meta none m = m
or_meta (some a) m = some a

abbrev pub is_nil : List String → Bool
is_nil [] = true
is_nil (_ ∷ _) = false

-- The second draft, after the correction.
abbrev pub redrafted : Writer → (meta : Option LlmMeta) → Drafted → String × Option LlmMeta
redrafted w meta (none, meta2) = (w.fallback, or_meta meta2 meta)
redrafted w meta (some fixed, meta2) =
    if w.is_risky fixed && not (is_nil (w.verify_grounding fixed))
    then (w.fallback, meta2)
    else (fixed, meta2)

abbrev pub guarded : Writer → Drafted → String × Option LlmMeta
guarded w (none, meta) = (w.fallback, meta)
guarded w (some t, meta) =
    if not (w.is_risky t)
    then (t, meta)
    else if is_nil (w.verify_grounding t)
    then (t, meta)
    else redrafted w meta
        (generate w (concat w.prompt (concat "\n" (w.correction (w.verify_grounding t)))))

-- `_draft`
unfoldable pub draft : Writer → String × Option LlmMeta
draft w = guarded w (generate w w.prompt)
