-- ===== src/Domain/Stage.antt =====
-- app/domain/enums.py (Stage and the two stage sets) and app/domain/funnel.py's target rule.
use stepan.Prelude.{
  String, ◌≡◌, ◌↔◌, refl, Bool, true, false, Option, none, some, str_eq, str_eq_iff, arith,
  if◌then◌else◌,
}

pub data Stage : Type 0 where
  new qualifying presenting ready handed_off objection nurturing dormant manager : Stage

-- `StrEnum`: `str(stage)` is the member's value.
unfoldable pub value : Stage → String
value new = "new"
value qualifying = "qualifying"
value presenting = "presenting"
value ready = "ready"
value handed_off = "handed_off"
value objection = "objection"
value nurturing = "nurturing"
value dormant = "dormant"
value manager = "manager"

-- `Stage(text)`; `none` is the ValueError of an unknown value.
unfoldable pub of_value : String → Option Stage
of_value s =
    if str_eq s "new"
    then some new
    else if str_eq s "qualifying"
    then some qualifying
    else if str_eq s "presenting"
    then some presenting
    else if str_eq s "ready"
    then some ready
    else if str_eq s "handed_off"
    then some handed_off
    else if str_eq s "objection"
    then some objection
    else if str_eq s "nurturing"
    then some nurturing
    else if str_eq s "dormant"
    then some dormant
    else if str_eq s "manager"
    then some manager
    else none

abbrev pub is_manager : Stage → Bool
is_manager manager = true
is_manager _ = false

abbrev pub is_dormant : Stage → Bool
is_dormant dormant = true
is_dormant _ = false

-- BOT_SILENT_STAGES
abbrev pub bot_silent : Stage → Bool
bot_silent ready = true
bot_silent handed_off = true
bot_silent dormant = true
bot_silent _ = false

-- HUMAN_LED_STAGES
abbrev pub human_led : Stage → Bool
human_led ready = true
human_led handed_off = true
human_led manager = true
human_led _ = false

pub of_value-value : (s : Stage) → of_value (value s) ≡ some s
unfolding of_value value
of_value-value new = refl
of_value-value _ = refl

pub value-of_value : (text : String) (s : Stage) → of_value text ≡ some s → text ≡ value s
unfolding of_value value
value-of_value text s h = ground (
  arith,
  str_eq_iff text "new",
  str_eq_iff text "qualifying",
  str_eq_iff text "presenting",
  str_eq_iff text "ready",
  str_eq_iff text "handed_off",
  str_eq_iff text "objection",
  str_eq_iff text "nurturing",
  str_eq_iff text "dormant",
  str_eq_iff text "manager",
)

-- A text is read as a stage exactly if it is that stage's value.
pub of_value-iff-value : (text : String) (s : Stage) → (of_value text ≡ some s) ↔ (text ≡ value s)
of_value-iff-value text s = (value-of_value text s, λ e. rw e (of_value-value s))
