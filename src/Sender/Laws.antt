-- ===== src/Sender/Laws.antt =====
-- The two routes into the table of app/modules/sender/inbound.py: one row for each key, whichever
-- route is first and however often they come.
use stepan.Prelude.{
  Bool-cases, if_intro, ℕ, ◌-◌, ◌*◌, String, ◌≡◌, refl, inl, inr, Bool, true, false, ◌&&◌, ◌||◌,
  Option, none, some, List, [], ◌∷◌, ◌++◌, arith,
}
use stepan.Domain.Lead.{Time}
use stepan.Prelude.Texts.{same}
use stepan.Sender.{Payload, SenderInbound, to_row, holds, store, callback, catchup}
use stepan.Sender.Callback.{
  CallbackSettings, Caller, received, authorised, data_of, inbound_callback,
}
use stepan.Sender.Catchup.{
  SenderTenant, is_configured, max_splits, pull, rescue, sweep_each, sweep_inbound,
}

-- No two rows have one key.
abbrev pub DistinctKeys : List SenderInbound → Type 0
DistinctKeys [] = Unit
DistinctKeys (r ∷ rs) = (holds r.external_id rs ≡ false) × DistinctKeys rs

-- Every row of the first table is in the second: what it holds it keeps.
abbrev pub Keeps : List SenderInbound → List SenderInbound → Type 0
Keeps s t = (key : List ℕ) → holds key s ≡ true → holds key t ≡ true

same_refl : (s : List ℕ) → same s s ≡ true
same_refl [] = refl
same_refl (c ∷ s) = ground (arith, same_refl s)

same_iff : (s t : List ℕ) → same s t ≡ true → s ≡ t
same_iff [] [] h = refl
same_iff [] (c ∷ t) h = absurd (cc h)
same_iff (c ∷ s) [] h = absurd (cc h)
same_iff (c ∷ s) (d ∷ t) h =
    let heads : c ≡ d = ground (arith, h) in
    let tails : s ≡ t = same_iff s t (ground (arith, h)) in rw (heads, tails) refl

same_flip : (s t : List ℕ) → same s t ≡ false → same t s ≡ false
same_flip s t h = elim (Bool-cases (same t s)) [
  | inl hit ↦
      let e = same_iff t s hit in
      let no : same s s ≡ false = rw e at h in absurd (cc (no, same_refl s))
  | inr miss ↦ miss
]

holds-snoc :
    (key : List ℕ) (row : SenderInbound) (t : List SenderInbound)
    → holds key (t ++ (row ∷ [])) ≡ (holds key t || same row.external_id key)
unfolding holds
holds-snoc key row [] = ground arith
holds-snoc key row (r ∷ rs) = ground (arith, holds-snoc key row rs)

DistinctKeys-snoc :
    (row : SenderInbound) (t : List SenderInbound)
    → holds row.external_id t ≡ false
    → DistinctKeys t
    → DistinctKeys (t ++ (row ∷ []))
unfolding holds
DistinctKeys-snoc row [] h d = (refl, tt)
DistinctKeys-snoc row (r ∷ rs) h (d, ds) =
    let apart : same r.external_id row.external_id ≡ false = ground (arith, h) in
    let rest : holds row.external_id rs ≡ false = ground (arith, h) in
    let turned = same_flip r.external_id row.external_id apart in
    (ground (arith, holds-snoc r.external_id row rs, d, turned), DistinctKeys-snoc row rs rest ds)

-- What a step of either route does to the table.
pub record IsStep (s t : List SenderInbound) : Type 0 where
  pub distinct : DistinctKeys s → DistinctKeys t
  pub keeps : Keeps s t

IsStep-refl : (s : List SenderInbound) → IsStep s s
IsStep-refl s = record { distinct = λ d. d; keeps = λ key h. h }

IsStep-trans : (s t u : List SenderInbound) → IsStep s t → IsStep t u → IsStep s u
IsStep-trans s t u f g = record {
  distinct = λ d. g.distinct (f.distinct d);
  keeps = λ key h. g.keeps key (f.keeps key h);
}

pub store-IsStep : (row : SenderInbound) (t : List SenderInbound) → IsStep t (store row t).0
unfolding store
store-IsStep row t = elim (Bool-cases (holds row.external_id t)) [
  | inl held ↦ rw held (IsStep-refl t)
  | inr fresh ↦ rw fresh (record {
    distinct = λ d. DistinctKeys-snoc row t fresh d;
    keeps = λ key h. ground (arith, holds-snoc key row t, h);
  })
]

pub store-holds :
    (row : SenderInbound) (t : List SenderInbound) → holds row.external_id (store row t).0 ≡ true
unfolding store
store-holds row t = elim (Bool-cases (holds row.external_id t)) [
  | inl held ↦ rw held held
  | inr fresh ↦
      rw fresh (ground (arith, holds-snoc row.external_id row t, same_refl row.external_id))
]

pub rescue-IsStep :
    (ask : Time → Time → List Payload × Bool) (row : Option SenderInbound) (t : List SenderInbound)
    (n : ℕ)
    → IsStep t (rescue ask row t n).0
unfolding rescue
rescue-IsStep ask none t n = IsStep-refl t
rescue-IsStep ask (some row) t n = store-IsStep row t

pub sweep_each-IsStep :
    (ask : Time → Time → List Payload × Bool) (ps : List Payload) (t : List SenderInbound) (n : ℕ)
    → IsStep t (sweep_each ask ps t n).0
unfolding sweep_each
sweep_each-IsStep ask [] t n = IsStep-refl t
sweep_each-IsStep ask (p ∷ ps) t n = IsStep-trans t _ _ (rescue-IsStep ask (to_row p catchup) t n) (
    sweep_each-IsStep ask ps (rescue ask (to_row p catchup) t n).0
      (rescue ask (to_row p catchup) t n).1)

sweep_inbound-IsStep :
    (ask : Time → Time → List Payload × Bool) (has_mcp : Bool) (tenant : SenderTenant) (now : Time)
    (lookback_min : ℕ) (t : List SenderInbound)
    → IsStep t (sweep_inbound ask has_mcp tenant now lookback_min t).0
unfolding sweep_inbound
sweep_inbound-IsStep ask has_mcp tenant now lookback_min t =
    if_intro (λ (p : List SenderInbound × ℕ). IsStep t p.0) (has_mcp && is_configured tenant)
      (λ _. sweep_each-IsStep ask (pull ask max_splits (now - lookback_min * 60000000) now) t 0)
      (λ _. IsStep-refl t)

received-IsStep : (row : Option SenderInbound) (t : List SenderInbound) → IsStep t (received row t)
received-IsStep none t = IsStep-refl t
received-IsStep (some row) t = store-IsStep row t

inbound_callback-IsStep :
    (hmac : String → String → List ℕ) (cfg : CallbackSettings) (caller : Caller) (raw : String)
    (form : String → Option String) (t : List SenderInbound)
    → IsStep t (inbound_callback hmac cfg caller raw form t).0
unfolding inbound_callback
inbound_callback-IsStep hmac cfg caller raw form t =
    if_intro (λ (p : List SenderInbound × ℕ). IsStep t p.0) (authorised hmac cfg caller raw)
      (λ _. received-IsStep (to_row (data_of hmac form) callback) t) (λ _. IsStep-refl t)

-- One call of either route.
pub data Handover : List SenderInbound → List SenderInbound → Type 0 where
  calls :
      (hmac : String → String → List ℕ) (cfg : CallbackSettings) (caller : Caller) (raw : String)
      (form : String → Option String) (t : List SenderInbound)
      → Handover t (inbound_callback hmac cfg caller raw form t).0
  sweeps :
      (ask : Time → Time → List Payload × Bool) (has_mcp : Bool) (tenant : SenderTenant)
      (now : Time) (lookback_min : ℕ) (t : List SenderInbound)
      → Handover t (sweep_inbound ask has_mcp tenant now lookback_min t).0

pub data Handovers (s : List SenderInbound) : List SenderInbound → Type 0 where
  begin : Handovers s s
  then_one : {t u : List SenderInbound} → Handovers s t → Handover t u → Handovers s u

Handover-IsStep : {s t : List SenderInbound} → Handover s t → IsStep s t
Handover-IsStep (calls hmac cfg caller raw form t) =
    inbound_callback-IsStep hmac cfg caller raw form t
Handover-IsStep (sweeps ask has_mcp tenant now lookback_min t) =
    sweep_inbound-IsStep ask has_mcp tenant now lookback_min t

-- However callbacks and sweeps follow one another, a table without two rows of one key stays so, and
-- no key that it holds is lost.
pub Handovers-IsStep : {s t : List SenderInbound} → Handovers s t → IsStep s t
Handovers-IsStep begin = IsStep-refl _
Handovers-IsStep (then_one r h) = IsStep-trans _ _ _ (Handovers-IsStep r) (Handover-IsStep h)
