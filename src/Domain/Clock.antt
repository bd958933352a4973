-- ===== src/Domain/Clock.antt =====
-- app/domain/clock.py (the branch-local day) and BranchSettings.is_quiet_hour of
-- app/modules/settings/service.py.
use stepan.Prelude.{
  ℕ, ◌+◌, ◌-◌, ◌*◌, ◌/◌, ◌%◌, ◌≤◌, ◌<◌, ◌≡◌, ◌≢◌, Bool, not, ◌&&◌, ◌||◌, arith, ltb, leb,
  if◌then◌else◌,
}
use stepan.Domain.Lead.{Time}

-- Microseconds.
abbrev pub hour : Time
hour = 3600000000

abbrev pub day : Time
day = 86400000000

-- tz_offset_h, by its sign.
pub data Offset : Type 0 where
  east west : ℕ → Offset

-- `t + timedelta(hours=tz_offset_h)`
unfoldable pub shift : Time → Offset → Time
shift t (east h) = t + h * hour
shift t (west h) = t - h * hour

-- `t - timedelta(hours=tz_offset_h)`
unfoldable pub unshift : Time → Offset → Time
unshift t (east h) = t - h * hour
unshift t (west h) = t + h * hour

-- `branch_day_start_utc`: `replace(hour=0, minute=0, second=0, microsecond=0)` of the local time.
unfoldable pub branch_day_start_utc : Time → Offset → Time
unfolding shift unshift
branch_day_start_utc now tz =
    let local = shift now tz in let midnight = local - local % day in unshift midnight tz

-- `branch_now(tz_offset_h).hour`
unfoldable pub local_hour : Time → Offset → ℕ
unfolding shift
local_hour now tz = (shift now tz % day) / hour

-- The test of is_quiet_hour on a window and an hour.
unfoldable pub in_window : (start end now_h : ℕ) → Bool
in_window start end now_h =
    if ltb end start then leb start now_h || ltb now_h end else leb start now_h && ltb now_h end

-- `is_quiet_hour`
unfoldable pub is_quiet_hour : (quiet_start quiet_end : ℕ) → Time → Offset → Bool
unfolding in_window local_hour
is_quiet_hour quiet_start quiet_end now tz = in_window quiet_start quiet_end (local_hour now tz)

-- The offset does not reach behind the first day.
abbrev pub InRange : Time → Offset → Type 0
InRange now (east h) = (h * hour ≤ now) × (day ≤ now)
InRange now (west h) = h * hour ≤ now

-- The start of the branch's day is the last local midnight: it is not after now, less than a
-- day before it, and a whole number of days on the branch's clock.
pub branch_day_start_utc_lem :
    (now : Time) (tz : Offset)
    → InRange now tz
    → (branch_day_start_utc now tz ≤ now)
      × (now < branch_day_start_utc now tz + day)
      × (shift (branch_day_start_utc now tz) tz % day ≡ 0)
unfolding branch_day_start_utc
branch_day_start_utc_lem now (east h) r = omega arith
branch_day_start_utc_lem now (west h) r = omega arith

-- A window and the window from its end to its start split the day between them: every hour is
-- in exactly one of the two, across midnight too.
pub in_window_complement :
    (start end now_h : ℕ)
    → start ≢ end
    → in_window start end now_h ≡ not (in_window end start now_h)
unfolding in_window
in_window_complement start end now_h ne = ground arith
