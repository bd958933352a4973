-- ===== src/Sender/Again.antt =====
-- A sweep of app/modules/sender/catchup.py over messages that are already here, and the callback of
-- app/api/_routes_sender.py without any setting.
use stepan.Prelude.{
  Bool-cases, ℕ, ◌-◌, ◌*◌, String, ◌≡◌, refl, inl, inr, Bool, true, false, Option, List, [], ◌∷◌,
}
use mathlib.Core.List.{Memᴰ}
use stepan.Domain.Lead.{Time}
use stepan.Prelude.Texts.{lstrip, is_empty, rstrip, strip}
use stepan.Sender.{Payload, SenderInbound, key_of, row_of, to_row, holds, store, catchup}
use stepan.Sender.Callback.{
  CallbackSettings, Caller, split_comma, is_allowed, authorised, inbound_callback,
}
use stepan.Sender.Catchup.{
  SenderTenant, is_configured, max_splits, pull, rescue, sweep_each, sweep_inbound,
}
use stepan.Sender.Complete.{sweep_each-holds}
use stepan.Sender.Laws.{Handovers, Handovers-IsStep}

-- Every payload with a key is held.
abbrev AllHeld : List Payload → List SenderInbound → Type 0
AllHeld ps t = (p : Payload) → Memᴰ p ps → is_empty (key_of p) ≡ false → holds (key_of p) t ≡ true

module _ (ask : Time → Time → List Payload × Bool) where
  rescue_held :
      (p : Payload) (t : List SenderInbound) (n : ℕ)
      → (is_empty (key_of p) ≡ false → holds (key_of p) t ≡ true)
      → rescue ask (to_row p catchup) t n ≡ (t, n)
  unfolding rescue to_row row_of store
  rescue_held p t n h = elim (Bool-cases (is_empty (key_of p))) [
    | inl blank ↦ rw blank refl
    | inr named ↦ rw (named, h named) refl
  ]

  sweep_each_held :
      (ps : List Payload) (t : List SenderInbound) (n : ℕ)
      → AllHeld ps t
      → sweep_each ask ps t n ≡ (t, n)
  unfolding sweep_each
  sweep_each_held [] t n h = refl
  sweep_each_held (p ∷ ps) t n h =
      rw (rescue_held p t n (h p (Memᴰ.head refl)))
        (sweep_each_held ps t n (λ q m. h q (Memᴰ.tail m)))

-- What the CRM answers to one sweep and to another. Every payload that the second reads, the first has
-- read: as where the CRM answers both alike, leaves some out the second time, or not at all.
abbrev pub IsReread : (first second : List Payload) → Type 0
IsReread first second = (p : Payload) → Memᴰ p second → Memᴰ p first

-- A sweep that reads only payloads which an earlier sweep of the tenant has read rescues nothing and leaves
-- the table, whatever callbacks and sweeps have come between: the windows and the answers of the CRM need not
-- be the same.
pub sweep_inbound_again :
    (ask ask' : Time → Time → List Payload × Bool) (tenant : SenderTenant) (now now' : Time)
    (lookback_min lookback_min' : ℕ) (t u : List SenderInbound)
    → IsReread
        (pull ask max_splits (now - lookback_min * 60000000) now)
        (pull ask' max_splits (now' - lookback_min' * 60000000) now')
    → Handovers (sweep_inbound ask true tenant now lookback_min t).0 u
    → sweep_inbound ask' true tenant now' lookback_min' u ≡ (u, 0)
unfolding sweep_inbound
sweep_inbound_again ask ask' tenant now now' lookback_min lookback_min' t u again r =
    elim (Bool-cases (is_configured tenant)) [
      | inr off ↦ rw off refl
      | inl on ↦
          let ps = pull ask max_splits (now - lookback_min * 60000000) now in
          let keeps = (Handovers-IsStep r).keeps in
          let first : (sweep_inbound ask true tenant now lookback_min t).0
              ≡ (sweep_each ask ps t 0).0 =
            rw on refl in
          rw on (
            sweep_each_held ask' (pull ask' max_splits (now' - lookback_min' * 60000000) now') u 0
              (λ p m named.
                keeps (key_of p) (rw first (sweep_each-holds ask p ps t 0 (again p m) named))))
    ]

-- With the callback not open, no secret and no allowlist set, nobody is let in: every call is answered
-- 403 and stores nothing.
pub inbound_callback_unset :
    (hmac : String → String → List ℕ) (cfg : CallbackSettings) (caller : Caller) (raw : String)
    (form : String → Option String) (t : List SenderInbound)
    → cfg.sender_callback_open ≡ false
    → cfg.sender_callback_secret ≡ ""
    → cfg.sender_callback_ips ≡ ""
    → inbound_callback hmac cfg caller raw form t ≡ (t, 403)
unfolding inbound_callback authorised split_comma is_allowed strip lstrip rstrip
inbound_callback_unset hmac cfg caller raw form t shut secret ips = rw (shut, secret, ips) refl
