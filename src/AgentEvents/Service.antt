-- ===== src/AgentEvents/Service.antt =====
-- AgentEventService of lib/agent-events.js. Both maps of the source hold references to the same
-- `seen` objects, and refreshing one through one map is seen through the other: so the objects
-- live in a heap, and the maps hold their places in it.
use tmux_web_panel.Base.{
  ℕ, ◌-◌, Bool, true, false, ◌&&◌, Option, none, some, List, [], ◌∷◌, ◌++◌, Text, text, text_eq,
  ◌==◌, ltb, leb, max, any, if◌then◌else◌, length, get_elem?, set_elem, or_else,
}
use tmux_web_panel.Base.Dict.{Dict, get, set, retain}
use tmux_web_panel.Base.Texts.{truthy, or_text}
use tmux_web_panel.Notifications.{Entry, Notification, WindowIndex, index, label}
use tmux_web_panel.Notifications
use tmux_web_panel.AgentEvents.Event.{
  Value, Event, normalize_agent_event, location_key, dedupe_key, dedupe_window, state_text,
}

pub record Seen : Type 0 where
  pub timestamp : ℕ
  pub sources : List Text
  pub priority : ℕ

pub record Service : Type 0 where
  pub heap : List Seen
  pub seen : Dict Text ℕ
  pub locations : Dict Text ℕ
  pub store : Option Notifications.Store

pub record Result : Type 0 where
  pub event : Event
  pub duplicate : Bool
  pub notification : Option Notification

-- The longest of the windows.
abbrev pub max_ttl : ℕ
max_ttl = 120000

abbrev pub is_recent : List Seen → ℕ → ℕ → Bool
is_recent heap now ref = elim (get_elem? heap ref) [
  | none ↦ false
  | some seen ↦ leb (now - seen.timestamp) max_ttl
]

unfoldable pub prune : ℕ → Service → Service
prune now s = record s {
  seen = retain (λ k ref. is_recent s.heap now ref) s.seen;
  locations = retain (λ k ref. is_recent s.heap now ref) s.locations;
}

-- The object that a map has at a key.
unfoldable pub lookup : List Seen → Dict Text ℕ → Text → Option (ℕ × Seen)
lookup heap m k = elim (get k m) [
  | none ↦ none
  | some ref ↦ elim (get_elem? heap ref) [ none ↦ none | some seen ↦ some (ref, seen) ]
]

abbrev pub add_source : Text → List Text → List Text
add_source t ts = if any (λ x. x == t) ts then ts else ts ++ t ∷ []

-- The entry that a notification is made from.
unfoldable pub entry_of : Event → Entry
entry_of e = record {
  type = some (or_else (truthy (some e.notification_type)) (text "agent-event"));
  state = some (state_text e.state);
  source = some e.source;
  event = some e.event;
  session =
      or_else
        (or_text (some e.session)
          (or_text (some e.session_id) (or_text (some e.cwd) (some e.source))))
        [];
  window_index = elim e.window_index [ none ↦ label [] | some z ↦ index z ];
  window_id = some e.window_id;
  window_name = some e.window_name;
  prev_command = some e.command;
  pane_id = some e.pane_id;
  reason = some e.reason;
}

-- The end of `ingest`: a new event is recorded at both keys, and announced.
unfoldable pub accept : Bool → Text → ℕ → Event → Service → Service × Result
unfolding entry_of
accept notify id now e s =
    let seen : Seen = record { timestamp = now; sources = e.source ∷ []; priority = e.priority } in
    let ref = length s.heap in
    let s' : Service = record s {
      heap = s.heap ++ seen ∷ [];
      seen = set (dedupe_key e) ref s.seen;
      locations = set (location_key e) ref s.locations;
    } in
    if notify
    then elim s.store [
      | none ↦ (s', record { event = e; duplicate = false; notification = none })
      | some store ↦
          let (store', n) = Notifications.add id now (entry_of e) store in
          (
            record s' { store = some store' },
            record { event = e; duplicate = false; notification = some n },
          )
    ]
    else (s', record { event = e; duplicate = false; notification = none })

abbrev pub duplicate_of : Event → Result
duplicate_of e = record { event = e; duplicate = true; notification = none }

-- The second guard: something as urgent has just happened at this place.
unfoldable pub by_location : Bool → Text → ℕ → Event → Service → Service × Result
unfolding lookup accept
by_location notify id now e s = elim (lookup s.heap s.locations (location_key e)) [
  | none ↦ accept notify id now e s
  | some (ref, old) ↦
      if ltb (now - old.timestamp) (dedupe_window e.state) && leb e.priority old.priority
      then (
        record s {
          heap =
              set_elem s.heap ref
                (record old { timestamp = now; sources = add_source e.source old.sources });
        },
        duplicate_of e,
      )
      else accept notify id now e s
]

-- The first guard: the same state at the same place.
unfoldable pub by_key : Bool → Text → ℕ → Event → Service → Service × Result
unfolding lookup by_location
by_key notify id now e s = elim (lookup s.heap s.seen (dedupe_key e)) [
  | none ↦ by_location notify id now e s
  | some (ref, old) ↦
      if ltb (now - old.timestamp) (dedupe_window e.state)
      then (
        record s {
          heap = set_elem s.heap ref (record {
            timestamp = now;
            sources = add_source e.source old.sources;
            priority = max old.priority e.priority;
          });
          locations = set (location_key e) ref s.locations;
        },
        duplicate_of e,
      )
      else by_location notify id now e s
]

-- `ingest`; `id` is the random id of the notification, if one is made.
unfoldable pub ingest : Bool → Text → ℕ → Value → Service → Service × Result
unfolding prune by_key
ingest notify id now input s = by_key notify id now (normalize_agent_event now input) (prune now s)
