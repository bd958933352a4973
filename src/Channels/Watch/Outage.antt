-- ===== src/Channels/Watch/Outage.antt =====
-- What the watch of app/modules/channels/wa_watch.py makes of an outage of a device.
use stepan.Prelude.{
  length, All, ltb, if◌then◌else◌, str_eq, Bool-cases, suc, ◌-◌, String, ◌≡◌, refl, ap, inl, inr,
  Bool, true, false, not, ◌&&◌, ◌||◌, Option, none, some, List, [], ◌∷◌, ◌++◌, arith,
}
use stepan.Channels.Watch.{
  SessionStatus, is_expired, Channel, ChannelSession, DownAlert, down_grace, probe, active, expired,
  whatsapp,
}
use stepan.Channels.Watch.Health.{map_state, mark_session_status, healthy}
use stepan.Domain.Lead.{Time}

-- One look at the device: when, and what it answered.
abbrev pub Look : Type 0
Look = Time × Option Bool

-- Whether it answered that it is linked.
abbrev pub is_linked : Look → Bool
is_linked (at, none) = false
is_linked (at, some b) = b

-- The looks of `watch` at one session, one after the other, and the alerts they send.
unfoldable pub looks :
    (has_notifier : Bool) → ChannelSession → List Look → ChannelSession × List DownAlert
looks has_notifier row [] = (row, [])
looks has_notifier row ((at, linked) ∷ ls) =
    let p = probe has_notifier at linked row in
    let (row', alerts) = looks has_notifier p.row ls in (row', p.alerts ++ alerts)

-- The device was seen unlinked after the grace.
abbrev pub is_late : Time → Look → Bool
is_late since (at, none) = false
is_late since (at, some b) = not b && not (ltb (at - since) down_grace)

abbrev pub any_late : Time → List Look → Bool
any_late since [] = false
any_late since (l ∷ ls) = is_late since l || any_late since ls

-- The row of an outage that began at `since`, with this status.
abbrev pub outage : ChannelSession → Time → SessionStatus → ChannelSession
outage row since status = record row { last_ok_at = some since; status = status }

-- An outage that is marked already sends nothing more.
looks_expired :
    (row : ChannelSession) (since : Time) (ls : List Look)
    → All (λ l. is_linked l ≡ false) ls
    → (looks true (outage row since expired) ls).1 ≡ []
unfolding looks probe
looks_expired row since [] u = refl
looks_expired row since ((at, none) ∷ ls) (u, us) = looks_expired row since ls us
looks_expired row since ((at, some true) ∷ ls) (u, us) = absurd (ground (arith, u))
looks_expired row since ((at, some false) ∷ ls) (u, us) =
    elim (Bool-cases (ltb (at - since) down_grace)) [
      | inl early ↦ rw early (looks_expired row since ls us)
      | inr past ↦ rw past (looks_expired row since ls us)
    ]

-- While a device that was last linked at `since` is not seen linked, the watch sends exactly one
-- alert if some look finds it unlinked after the grace, and none if no look does.
pub length-looks :
    (row : ChannelSession) (since : Time) (status : SessionStatus) (ls : List Look)
    → is_expired status ≡ false
    → All (λ l. is_linked l ≡ false) ls
    → length (looks true (outage row since status) ls).1 ≡ (if any_late since ls then 1 else 0)
unfolding looks probe
length-looks row since status [] k u = refl
length-looks row since status ((at, none) ∷ ls) k (u, us) = length-looks row since status ls k us
length-looks row since status ((at, some true) ∷ ls) k (u, us) = absurd (ground (arith, u))
length-looks row since status ((at, some false) ∷ ls) k (u, us) =
    elim (Bool-cases (ltb (at - since) down_grace)) [
      | inl early ↦ rw early (length-looks row since status ls k us)
      | inr past ↦ rw (past, k) (ap suc (ap length (looks_expired row since ls us)))
    ]

-- Where the health gate is the first to see a WhatsApp device closed, it marks the session and
-- leaves the call for a human to the watch, and the watch, which takes the mark for an outage it has
-- reported, never sends one, however long the device stays unlinked.
pub healthy-looks :
    (channel : Channel) (row : ChannelSession) (since : Time) (state : String) (ls : List Look)
    → channel.kind ≡ whatsapp
    → row.channel_id ≡ channel.id
    → str_eq state "open" ≡ false
    → str_eq state "connecting" ≡ false
    → All (λ l. is_linked l ≡ false) ls
    → let g = healthy true channel (some (map_state state)) (outage row since active ∷ []) in
      (g.is_alerted ≡ false)
      × (g.sessions ≡ outage row since expired ∷ [])
      × ((looks true (outage row since expired) ls).1 ≡ [])
unfolding healthy map_state mark_session_status
healthy-looks channel row since state ls w i o c u =
    (ground (arith, w, o, c), ground (arith, i, o, c), looks_expired row since ls u)
