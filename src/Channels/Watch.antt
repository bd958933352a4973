-- ===== src/Channels/Watch.antt =====
-- app/modules/channels/wa_watch.py: the watch over the linked WhatsApp devices of one branch.
pub mod Health
pub mod Outage
use stepan.Prelude.{
  ltb, ◌==◌, if◌then◌else◌, ℕ, ◌+◌, ◌-◌, ◌/◌, Bool, true, false, ◌&&◌, Option, none, some, List, [],
  ◌∷◌, ◌++◌,
}
use stepan.Domain.Lead.{Time}

pub data SessionStatus : Type 0 where
  active expired challenge waiting : SessionStatus

-- The kinds that the code below tells apart.
pub data ChannelKind : Type 0 where
  whatsapp meta_business instagram website crm_sender : ChannelKind

abbrev pub is_active_status : SessionStatus → Bool
is_active_status active = true
is_active_status _ = false

abbrev pub is_expired : SessionStatus → Bool
is_expired expired = true
is_expired _ = false

abbrev pub is_whatsapp : ChannelKind → Bool
is_whatsapp whatsapp = true
is_whatsapp _ = false

pub record Channel : Type 0 where
  pub id : ℕ
  pub branch_id : ℕ
  pub kind : ChannelKind
  pub is_active : Bool

pub record ChannelSession : Type 0 where
  pub id : ℕ
  pub channel_id : ℕ
  pub status : SessionStatus
  pub last_ok_at : Option Time

-- The message to the operators, by the channel and the minutes it names.
pub record DownAlert : Type 0 where
  pub channel_id : ℕ
  pub minutes : ℕ

-- DOWN_GRACE, 15 minutes, and one minute.
abbrev pub down_grace : Time
down_grace = 900000000

abbrev pub minute : Time
minute = 60000000

-- `_recover`
unfoldable pub recover : Time → ChannelSession → ChannelSession
recover now row = record row {
  last_ok_at = some now;
  status = if is_active_status row.status then row.status else active;
}

abbrev alert_of : (has_notifier : Bool) → (channel_id minutes : ℕ) → List DownAlert
alert_of false channel_id minutes = []
alert_of true channel_id minutes = record { channel_id = channel_id; minutes = minutes } ∷ []

report_since :
    (has_notifier : Bool) → Time → ChannelSession → Option Time → ChannelSession × List DownAlert
report_since has_notifier now row none = (record row { last_ok_at = some now }, [])
report_since has_notifier now row (some since) =
    if ltb (now - since) down_grace
    then (row, [])
    else if is_expired row.status
    then (row, [])
    else (
      record row { status = expired },
      alert_of has_notifier row.channel_id ((now - since) / minute),
    )

-- `_report_down`
unfoldable pub report_down :
    (has_notifier : Bool) → Time → ChannelSession → ChannelSession × List DownAlert
unfolding report_since
report_down has_notifier now row = report_since has_notifier now row row.last_ok_at

-- What one probe of a channel leaves: the session's row, the alerts, and whether it is down.
pub record Probed : Type 0 where
  pub row : ChannelSession
  pub alerts : List DownAlert
  pub is_down : Bool

-- The body of the loop of `watch` for a channel with a session. The answer of `_is_linked` is an
-- argument, `none` where the server could not be asked.
unfoldable pub probe : (has_notifier : Bool) → Time → Option Bool → ChannelSession → Probed
unfolding recover report_down
probe has_notifier now none row = record { row = row; alerts = []; is_down = false }
probe has_notifier now (some true) row = record {
  row = recover now row;
  alerts = [];
  is_down = false;
}
probe has_notifier now (some false) row =
    let (row', alerts) = report_down has_notifier now row in
    record { row = row'; alerts = alerts; is_down = true }

unfoldable pub put_session : ChannelSession → List ChannelSession → List ChannelSession
put_session r [] = []
put_session r (x ∷ xs) = (if x.id == r.id then r else x) ∷ put_session r xs

-- `_sessions`
unfoldable pub session_of : (channel_id : ℕ) → List ChannelSession → Option ChannelSession
session_of channel_id [] = none
session_of channel_id (r ∷ rs) =
    if r.channel_id == channel_id then some r else session_of channel_id rs

-- The sessions, the alerts sent and the channels that are down.
pub record Watch : Type 0 where
  pub sessions : List ChannelSession
  pub alerts : List DownAlert
  pub down : ℕ

watch_row : (has_notifier : Bool) → Time → Option Bool → Watch → Option ChannelSession → Watch
unfolding probe
watch_row has_notifier now linked w none = w
watch_row has_notifier now linked w (some row) =
    let p = probe has_notifier now linked row in
    record {
      sessions = put_session p.row w.sessions;
      alerts = w.alerts ++ p.alerts;
      down = if p.is_down then w.down + 1 else w.down;
    }

-- `watch` over the branch's channels.
unfoldable pub watch :
    (branch_id : ℕ) (has_notifier : Bool)
    → Time
    → (Channel → Option Bool)
    → List Channel
    → Watch
    → Watch
unfolding watch_row session_of
watch branch_id has_notifier now linked [] w = w
watch branch_id has_notifier now linked (c ∷ cs) w =
    let seen = watch_row has_notifier now (linked c) w (session_of c.id w.sessions) in
    watch branch_id has_notifier now linked cs
      (if c.branch_id == branch_id && is_whatsapp c.kind && c.is_active then seen else w)
