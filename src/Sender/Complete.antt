-- ===== src/Sender/Complete.antt =====
-- What the sweep of app/modules/sender/catchup.py catches, and what a caller of the callback needs.
use stepan.Prelude.{
  leb, leb→le, Bool-cases, ℕ, zero, suc, ◌+◌, ◌-◌, ◌*◌, ◌≤◌, ◌≡◌, sym, inl, inr, Bool, true, false,
  List, [], ◌∷◌, ◌++◌, arith,
}
use mathlib.Core.List.{Memᴰ}
use stepan.Domain.Lead.{Time}
use stepan.Prelude.Texts.{is_empty}
use stepan.Sender.{Payload, SenderInbound, key_of, row_of, to_row, holds, catchup}
use stepan.Sender.Catchup.{
  SenderTenant, is_configured, half, max_splits, pull, rescue, sweep_each, sweep_inbound,
}
use stepan.Sender.Laws.{store-holds, sweep_each-IsStep}

Mem-left : (p : Payload) (xs ys : List Payload) → Memᴰ p xs → Memᴰ p (xs ++ ys)
Mem-left p [] ys m = elim m [ ]
Mem-left p (x ∷ xs) ys (Memᴰ.head e) = Memᴰ.head e
Mem-left p (x ∷ xs) ys (Memᴰ.tail m) = Memᴰ.tail (Mem-left p xs ys m)

Mem-right : (p : Payload) (xs ys : List Payload) → Memᴰ p ys → Memᴰ p (xs ++ ys)
Mem-right p [] ys m = m
Mem-right p (x ∷ xs) ys m = Memᴰ.tail (Mem-right p xs ys m)

-- The widest window that n splits bring down to this width.
abbrev pub width : ℕ → Time → Time
width zero w = w
width (suc n) w = 2 * width n w

half_le : (d : Time) → half d ≤ d
unfolding half
half_le d = ground arith

halves_le : (d w : Time) → d ≤ 2 * w → (half d ≤ w) × (d - half d ≤ w)
unfolding half
halves_le d w h = (ground (arith, h), ground (arith, h))

module _ (ask : Time → Time → List Payload × Bool) where
  rescue-holds :
      (p : Payload) (table : List SenderInbound) (n : ℕ)
      → is_empty (key_of p) ≡ false
      → holds (key_of p) (rescue ask (to_row p catchup) table n).0 ≡ true
  unfolding rescue to_row row_of
  rescue-holds p table n h = rw h (store-holds (row_of p catchup) table)

  pub sweep_each-holds :
      (p : Payload) (ps : List Payload) (table : List SenderInbound) (n : ℕ)
      → Memᴰ p ps
      → is_empty (key_of p) ≡ false
      → holds (key_of p) (sweep_each ask ps table n).0 ≡ true
  unfolding sweep_each
  sweep_each-holds p [] table n m h = elim m [ ]
  sweep_each-holds p (x ∷ xs) table n (Memᴰ.head e) h =
      let (table', n') = rescue ask (to_row x catchup) table n in
      (sweep_each-IsStep ask xs (rescue ask (to_row x catchup) table n).0
          (rescue ask (to_row x catchup) table n).1).keeps
        (key_of p) (rw (sym e) (rescue-holds p table n h))
  sweep_each-holds p (x ∷ xs) table n (Memᴰ.tail m) h = sweep_each-holds p xs _ _ m h

module _ (ask : Time → Time → List Payload × Bool) (w : Time) (sent : Payload → Time → Type 0)
    (complete : (a b : Time) (p : Payload) (t : Time)
      → sent p t
      → a ≤ t
      → t ≤ b
      → (ask a b).1 ≡ false
      → Memᴰ p (ask a b).0)
    (narrow : (a b : Time) → b ≤ a + w → (ask a b).1 ≡ false) where
  pull-Mem :
      (n : ℕ) (a b : Time) (p : Payload) (t : Time)
      → sent p t
      → a ≤ t
      → t ≤ b
      → b ≤ a + width n w
      → Memᴰ p (pull ask n a b)
  unfolding pull
  pull-Mem zero a b p t s lo hi fits = complete a b p t s lo hi (narrow a b fits)
  pull-Mem (suc n) a b p t s lo hi fits = elim (Bool-cases (ask a b).1) [
    | inr whole ↦ rw whole (complete a b p t s lo hi whole)
    | inl cut ↦
        let le = half_le (b - a) in
        let parts = halves_le (b - a) (width n w) (omega (arith, lo, hi, fits)) in
        let middle = a + half (b - a) in
        elim (Bool-cases (leb t middle)) [
          | inl early ↦ rw cut (
              Mem-left p _ _
                (pull-Mem n a middle p t s lo (leb→le t middle early) (omega (arith, parts.0))))
          | inr after ↦ rw cut (
              Mem-right p _ _ (
                pull-Mem n middle b p t s (ground (arith, after)) hi
                  (omega (arith, parts.1, le, lo, hi))))
        ]
  ]

  -- Where the CRM answers an uncut window with every message of it and cuts no window of a given
  -- width, a configured sweep over at most 32 times that width has, at its end, a row for every message
  -- of its window that carries a key.
  pub sweep_inbound-holds :
      (tenant : SenderTenant) (now : Time) (lookback_min : ℕ) (table : List SenderInbound)
      (p : Payload) (t : Time)
      → is_configured tenant ≡ true
      → now ≤ (now - lookback_min * 60000000) + 32 * w
      → sent p t
      → now - lookback_min * 60000000 ≤ t
      → t ≤ now
      → is_empty (key_of p) ≡ false
      → holds (key_of p) (sweep_inbound ask true tenant now lookback_min table).0 ≡ true
  unfolding sweep_inbound
  sweep_inbound-holds tenant now lookback_min table p t cfg fits s lo hi key = rw cfg (
      sweep_each-holds ask p (pull ask max_splits (now - lookback_min * 60000000) now) table 0
        (pull-Mem max_splits (now - lookback_min * 60000000) now p t s lo hi (omega (arith, fits)))
        key)
