-- ===== src/AgentEvents/Tests.antt =====
-- Runs of the agent events of lib/agent-events.js on concrete inputs.
use tmux_web_panel.Base.{◌≡◌, refl, arith, true, false, none, some, [], ◌∷◌, text}
use tmux_web_panel.Base.Dict.{get}
use tmux_web_panel.Base.Equality.{text_beq}
use tmux_web_panel.Base.Texts.{trim}
use tmux_web_panel.Notifications
use tmux_web_panel.AgentEvents.Event.{
  Value, string, object, field, end, normalize_agent_event, dedupe_window, location_key,
  first_string, state_of,
}
use tmux_web_panel.AgentEvents.Service.{Service, ingest, duplicate_of, entry_of}
use tmux_web_panel.AgentEvents.Dedupe.{ingest_again, ingest_after_silence}

-- The hook of an agent, and tmux's bell for the same pane.
abbrev hook : Value
hook = object (
    field (text "hook_event_name") (string (text "Stop"))
      (field (text "pane_id") (string (text "%1")) end))

abbrev stop : Value
stop = object (
    field (text "event") (string (text "Stop")) (
      field (text "agent") (string (text "codex"))
        (field (text "paneId") (string (text "%1")) end)))

abbrev notifications : Notifications.Store
notifications = record {
  notifications = [];
  persist_scheduled = false;
  reaping = false;
  disk = none;
}

abbrev service : Service
service = record { heap = []; seen = []; locations = []; store = some notifications }

hook_priority : (normalize_agent_event 100 hook).priority ≡ 20
unfolding normalize_agent_event first_string state_of trim text_beq get
hook_priority = refl

stop_priority : (normalize_agent_event 105 stop).priority ≡ 20
unfolding normalize_agent_event first_string state_of trim text_beq get
stop_priority = refl

stop_window : dedupe_window (normalize_agent_event 105 stop).state ≡ 10000
unfolding normalize_agent_event first_string state_of trim text_beq get
stop_window = refl

ingest_again_example :
    ((ingest true (text "b") 105 stop (ingest true (text "a") 100 hook service).0).1
      ≡ duplicate_of (normalize_agent_event 105 stop))
    × ((ingest true (text "b") 105 stop (ingest true (text "a") 100 hook service).0).0.store
        ≡ (ingest true (text "a") 100 hook service).0.store)
unfolding normalize_agent_event first_string state_of location_key trim text_beq get
ingest_again_example =
    ingest_again true true (text "a") (text "b") 100 105 hook stop service refl
      (omega (arith, hook_priority, stop_priority)) (omega (arith, stop_window))

ingest_after_silence_example :
    let (s', result) =
      ingest true
        (text "a")
        200000
        hook
        (record service { heap = record { timestamp = 5; sources = []; priority = 20 } ∷ [] }) in
    let (store', n) =
      Notifications.add
        (text "a")
        200000
        (entry_of (normalize_agent_event 200000 hook))
        notifications in
    (result.duplicate ≡ false) × (result.notification ≡ some n) × (s'.store ≡ some store')
ingest_after_silence_example =
    ingest_after_silence (text "a") 200000 hook
      (record service { heap = record { timestamp = 5; sources = []; priority = 20 } ∷ [] })
      notifications (omega arith, tt) refl
