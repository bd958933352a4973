-- ===== src/Channels/Watch/Health.antt =====
-- app/worker/main.py (_healthy), app/worker/wiring.py (mark_session_status) and
-- app/adapters/channels/whatsapp.py (_map_state): the health gate before each ingest.
use stepan.Prelude.{
  ◌==◌, if◌then◌else◌, str_eq, ℕ, String, Bool, true, false, not, ◌&&◌, Option, none, some, List,
  [], ◌∷◌,
}
use stepan.Channels.Watch.{
  SessionStatus, is_active_status, is_whatsapp, Channel, ChannelSession, active, expired, challenge,
}

-- `_map_state` of adapters/channels/whatsapp.py
unfoldable pub map_state : String → SessionStatus
map_state state =
    if str_eq state "open" then active else if str_eq state "connecting" then challenge else expired

-- `mark_session_status`: the channel's first active session takes the status.
unfoldable pub mark_session_status :
    (channel_id : ℕ) → SessionStatus → List ChannelSession → List ChannelSession × Bool
mark_session_status channel_id status [] = ([], false)
mark_session_status channel_id status (r ∷ rs) =
    let (rs', flipped) = mark_session_status channel_id status rs in
    if r.channel_id == channel_id && is_active_status r.status
    then (record r { status = status } ∷ rs, true)
    else (r ∷ rs', flipped)

-- The gate's result: whether the channel is used, the sessions, and whether it called for a human.
pub record Gated : Type 0 where
  pub is_healthy : Bool
  pub sessions : List ChannelSession
  pub is_alerted : Bool

-- `_healthy` of app/worker/main.py; the port's answer is an argument, `none` where it raised.
unfoldable pub healthy :
    (has_notifier : Bool) → Channel → Option SessionStatus → List ChannelSession → Gated
unfolding mark_session_status
healthy has_notifier channel none sessions = record {
  is_healthy = true;
  sessions = sessions;
  is_alerted = false;
}
healthy has_notifier channel (some status) sessions =
    if is_active_status status
    then record { is_healthy = true; sessions = sessions; is_alerted = false }
    else let (sessions', flipped) = mark_session_status channel.id status sessions in
      record {
        is_healthy = false;
        sessions = sessions';
        is_alerted = flipped && not (is_whatsapp channel.kind) && has_notifier;
      }
