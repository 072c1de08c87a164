-- ===== src/Health/Tests.antt =====
-- Runs of the health service of lib/servers/health-service.js on concrete inputs.
use tmux_web_panel.Base.{◌≡◌, refl, arith, true, false, none, some, List, [], ◌∷◌, text}
use tmux_web_panel.Base.Dict.{get}
use tmux_web_panel.Base.Equality.{text_beq}
use tmux_web_panel.Health.Status.{Entry, Status, Server, Service, AppError, online}
use tmux_web_panel.Health.Service.{
  succeeds, fails, fresh_entry, get_status, invalidate, forget, finish,
}
use tmux_web_panel.Health.Places.{Holds}
use tmux_web_panel.Health.Stale.{
  Event, probes, ticks, looks, forgets, run_all, finish-invalidated, finish-forgotten,
}

abbrev box : Server
box = record { id = text "box"; is_local = false; enabled = true }

-- Probe 7 of the server runs.
abbrev running : Entry
running = record (fresh_entry (text "box")) { in_flight = some 7 }

abbrev service : Service
service = record { objects = running ∷ []; entries = (text "box", 0) ∷ []; viewed_server_id = none }

abbrev refused : AppError
refused = record { code = text "SSH_AUTH_REQUIRED"; message = text "denied" }

abbrev found : Status
found = record running.status { state = online }

service-Holds : Holds (text "box") 0 0 service
unfolding get text_beq
service-Holds = record { place = refl; entry = running; there = refl; since = omega arith }

abbrev events : List Event
events =
    looks (text "box") ∷ probes true 8 50 box ∷ forgets (text "other") ∷ ticks 9 60 (box ∷ []) ∷ []

finish-invalidated_example :
    ((finish 7 0 0 box (fails refused) 100 (run_all events (invalidate (text "box") service))).1
      ≡ [])
    × ((get_status
          (text "box")
          (finish 7 0 0 box
            (fails refused)
            100
            (run_all events (invalidate (text "box") service))).0).1
        ≡ (get_status (text "box") (run_all events (invalidate (text "box") service))).1)
finish-invalidated_example =
    finish-invalidated 0 0 7 0 events box (fails refused) 100 service service-Holds
      (tt, (tt, ((λ e. ground arith), (tt, tt))))

finish-forgotten_example :
    ((finish 7 0 0 box
        (succeeds found)
        100
        (get_status (text "box") (forget (text "box") service)).0).1
      ≡ found ∷ [])
    × ((get_status
          (text "box")
          (finish 7 0 0 box
            (succeeds found)
            100
            (get_status (text "box") (forget (text "box") service)).0).0).1
        ≡ found)
finish-forgotten_example = finish-forgotten 7 0 100 box found service
