-- ===== src/Sender/Catchup.antt =====
-- app/modules/sender/catchup.py: the sweep over a recent window, and its tenant
-- (app/modules/sender/tenant.py). What the CRM answers for a window is a parameter.
use stepan.Prelude.{
  ◌==◌, if◌then◌else◌, ℕ, zero, suc, ◌+◌, ◌-◌, ◌*◌, ◌/◌, ◌%◌, String, Bool, not, ◌&&◌, Option, none,
  some, List, [], ◌∷◌, ◌++◌,
}
use stepan.Domain.Lead.{Time}
use stepan.Prelude.Texts.{codes, same, is_empty, strip}
use stepan.Sender.{Value, Payload, SenderInbound, to_row, store, absent, null, text, json, catchup}

-- SenderTenant
pub record SenderTenant : Type 0 where
  pub project : String
  pub project_id : String
  pub branch_id : String

abbrev has_text : String → Bool
has_text s = not (is_empty (strip (codes s)))

-- `tenant.configured`
unfoldable pub is_configured : SenderTenant → Bool
is_configured t = has_text t.project && has_text t.project_id && has_text t.branch_id

-- `str(payload.get(key, ""))`
abbrev str_of : Value → String
str_of absent = ""
str_of null = "None"
str_of (text s) = s
str_of (json _ s) = s

-- `owns`
unfoldable pub owns : SenderTenant → Payload → Bool
owns t payload =
    same (strip (codes (str_of (payload "project_id")))) (strip (codes t.project_id))
    && same (strip (codes (str_of (payload "branch_id")))) (strip (codes t.branch_id))

-- `d / 2` of a duration: microseconds, a half to the even side.
unfoldable pub half : Time → Time
half d = let down = d / 2 in if d % 2 == 0 then down else if down % 2 == 0 then down else down + 1

-- _MAX_SPLITS
abbrev pub max_splits : ℕ
max_splits = 5

-- `inbound_since` is what the CRM answers during this one sweep; an outage, or a token that
-- expired, is an empty answer like any other, so two sweeps are given a function each.
module _ (inbound_since : Time → Time → List Payload × Bool) where
  -- `_pull`, by the splits that are left.
  unfoldable pub pull : (splits_left : ℕ) → (since until : Time) → List Payload
  unfolding half
  pull zero since until = (inbound_since since until).0
  pull (suc n) since until =
      let middle = since + half (until - since) in
      let first = pull n since middle in
      let second = pull n middle until in
      if (inbound_since since until).1 then first ++ second else (inbound_since since until).0

  -- One payload of the loop: the table and the number of rescued messages.
  unfoldable pub rescue : Option SenderInbound → List SenderInbound → ℕ → List SenderInbound × ℕ
  rescue none table rescued = (table, rescued)
  rescue (some row) table rescued =
      let (table', is_new) = store row table in (table', if is_new then rescued + 1 else rescued)

  unfoldable pub sweep_each : List Payload → List SenderInbound → ℕ → List SenderInbound × ℕ
  unfolding rescue
  sweep_each [] table rescued = (table, rescued)
  sweep_each (p ∷ ps) table rescued =
      let (table', rescued') = rescue (to_row p catchup) table rescued in
      sweep_each ps table' rescued'

  -- `sweep`
  unfoldable pub sweep_inbound :
      (has_mcp : Bool)
      → SenderTenant
      → (now : Time) → (lookback_min : ℕ) → List SenderInbound
      → List SenderInbound × ℕ
  unfolding sweep_each pull is_configured
  sweep_inbound has_mcp tenant now lookback_min table =
      if has_mcp && is_configured tenant
      then sweep_each (pull max_splits (now - lookback_min * 60000000) now) table 0
      else (table, 0)
