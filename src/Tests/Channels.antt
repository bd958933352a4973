-- ===== src/Tests/Channels.antt =====
-- The watch over the devices and the health gate at a concrete outage.
use stepan.Prelude.{◌≡◌, refl, true, false, none, some, List, [], ◌∷◌}
use stepan.Channels.Watch.{
  Channel, ChannelSession, probe, put_session, Watch, watch, active, expired, whatsapp,
}
use stepan.Channels.Watch.Health.{map_state, healthy}
use stepan.Channels.Watch.Outage.{Look, looks, outage, healthy-looks}

abbrev device : Channel
device = record { id = 5; branch_id = 1; kind = whatsapp; is_active = true }

abbrev session : ChannelSession
session = record { id = 2; channel_id = 5; status = active; last_ok_at = some 0 }

-- Unlinked after ten, twenty and twenty-five minutes, and once out of reach.
abbrev outage_looks : List Look
outage_looks =
    (600000000, some false)
    ∷ (900000000, none)
    ∷ (1200000000, some false)
    ∷ (1500000000, some false)
    ∷ []

healthy-looks_example :
    let g = healthy true device (some (map_state "close")) (outage session 0 active ∷ []) in
    (g.is_alerted ≡ false)
    × (g.sessions ≡ outage session 0 expired ∷ [])
    × ((looks true (outage session 0 expired) outage_looks).1 ≡ [])
healthy-looks_example =
    healthy-looks device session 0 "close" outage_looks refl refl refl refl
      (refl, (refl, (refl, (refl, tt))))

-- One pass of the watch over a device that has been down for twenty minutes.
abbrev watched : Watch
watched =
    watch 1 true 1200000000 (λ _. some false) (device ∷ [])
      (record { sessions = session ∷ []; alerts = []; down = 0 })

one_down : watched ≡ record {
  sessions = record session { status = expired } ∷ [];
  alerts = record { channel_id = 5; minutes = 20 } ∷ [];
  down = 1;
}
unfolding watch put_session probe
one_down = refl
