-- ===== src/Health/Service.antt =====
-- The operations of class HealthService in lib/servers/health-service.js.
use tmux_web_panel.Base.{
  ℕ, suc, ◌+◌, Bool, true, false, not, ◌&&◌, Option, none, some, List, [], ◌∷◌, ◌++◌, Text, text,
  text_eq, nat_eq, option_eq, ◌==◌, leb, if◌then◌else◌, is_some, or_else, length, get_elem?,
  set_elem,
}
use tmux_web_panel.Base.Dict.{get, set, delete}
use tmux_web_panel.Health.Status.{
  AppError, Entry, Server, Service, Status, checking, disabled, empty_capabilities, failure_backoff,
  idle_poll_ms, no_capability, state_for_error, unavailable_workspace, unknown, viewed_poll_ms,
}

abbrev pub fresh_entry : Text → Entry
fresh_entry server_id = record {
  status = record {
    server_id = server_id;
    state = unknown;
    latency_ms = none;
    checked_at = none;
    last_online_at = none;
    error = none;
    facts = record { hostname = none; platform = none; arch = none; version = none };
    capabilities = empty_capabilities;
    workspace = unavailable_workspace (server_id == text "local");
    node_version = none;
  };
  in_flight = none;
  generation = 0;
  next_poll_at = 0;
  failure_count = 0;
}

-- _entry: the place of a server's entry, which is made if there is none.
unfoldable pub entry_of : Text → Service → Service × ℕ
entry_of id s = elim (get id s.entries) [
  | some ref ↦ (s, ref)
  | none ↦ (
    record s {
      objects = s.objects ++ fresh_entry id ∷ [];
      entries = set id (length s.objects) s.entries;
    },
    length s.objects,
  )
]

-- The object at a place; there is one at every place that is handed out.
abbrev pub object_at : Text → ℕ → Service → Entry
object_at id ref s = or_else (get_elem? s.objects ref) (fresh_entry id)

abbrev pub put_object : ℕ → Entry → Service → Service
put_object ref entry s = record s { objects = set_elem s.objects ref entry }

unfoldable pub get_status : Text → Service → Service × Status
unfolding entry_of
get_status id s = let (s', ref) = entry_of id s in (s', (object_at id ref s').status)

unfoldable pub invalidated : Text → Entry → Entry
invalidated id entry = record entry {
  generation = suc entry.generation;
  in_flight = none;
  failure_count = 0;
  next_poll_at = 0;
  status = record entry.status {
    state = unknown;
    capabilities = empty_capabilities;
    workspace = unavailable_workspace (id == text "local");
    error = none;
  };
}

unfoldable pub invalidate : Text → Service → Service
unfolding entry_of invalidated
invalidate id s =
    let (s', ref) = entry_of id s in put_object ref (invalidated id (object_at id ref s')) s'

unfoldable pub forget : Text → Service → Service
forget id s = elim (get id s.entries) [
  | none ↦ record s { entries = delete id s.entries }
  | some ref ↦
      let entry = object_at id ref s in
      record (put_object ref (record entry { generation = suc entry.generation }) s) {
        entries = delete id s.entries;
      }
]

-- `serverId || null`.
unfoldable pub set_viewed_server : Text → Service → Service
set_viewed_server [] s = record s { viewed_server_id = none }
set_viewed_server (c ∷ id) s = record s { viewed_server_id = some (c ∷ id) }

-- How a call of `probe` ends: it joins a probe, answers at once, or begins one in a generation.
pub data Answer : Type 0 where
  joins : ℕ → Answer
  answers : Status → Answer
  begins : (generation : ℕ) → Answer

-- The part of `probe` after its two tests of `inFlight`.
unfoldable pub begin : ℕ → ℕ → Server → Entry → Entry × List Status × Answer
begin run now server entry =
    if server.enabled
    then (let status = record entry.status { state = checking } in
        (
          record entry { status = status; in_flight = some run },
          status ∷ [],
          begins entry.generation,
        ))
    else (let status = record entry.status {
      state = disabled;
      checked_at = some now;
      error = none;
      capabilities = empty_capabilities;
      workspace = unavailable_workspace server.is_local;
    } in
        (
          record entry { status = status; next_poll_at = now + idle_poll_ms },
          (elim entry.status.state [ disabled ↦ [] | _ ↦ status ∷ [] ]),
          answers status,
        ))

unfoldable pub probe_object : Bool → ℕ → ℕ → Server → Entry → Entry × List Status × Answer
unfolding begin
probe_object force run now server entry = elim entry.in_flight [
  | none ↦ begin run now server entry
  | some running ↦
      if force
      then begin run now server
          (record entry { generation = suc entry.generation; in_flight = none })
      else (entry, [], joins running)
]

-- `probe` of a server that the registry has.
unfoldable pub probe : Bool → ℕ → ℕ → Server → Service → Service × List Status × Answer
unfolding entry_of probe_object
probe force run now server s =
    let (s', ref) = entry_of server.id s in
    let (entry, published, answer) =
      probe_object force run now server (object_at server.id ref s') in
    (put_object ref entry s', published, answer)

-- What a probe comes to: the status that it read, or the error that ended it.
pub data Outcome : Type 0 where
  succeeds : Status → Outcome
  fails : AppError → Outcome

-- The status that the `catch` of `probe` makes of an error.
unfoldable pub failed_status : ℕ → Server → AppError → Status → Status
unfolding state_for_error
failed_status now server err previous = record {
  server_id = server.id;
  state = state_for_error err;
  latency_ms = none;
  checked_at = some now;
  last_online_at = previous.last_online_at;
  error = some err;
  facts = previous.facts;
  capabilities = record empty_capabilities {
    ssh = record no_capability { reason = some err.code };
  };
  workspace = unavailable_workspace server.is_local;
  node_version = none;
}

unfoldable pub settled : Text → Option Text → Status → Bool → ℕ → Entry → Entry
unfolding failure_backoff
settled id viewed status failed now entry = record entry {
  failure_count = if failed then suc entry.failure_count else 0;
  next_poll_at =
      now
      + (if failed
          then failure_backoff (suc entry.failure_count)
          else if option_eq.equals viewed (some id)
          then viewed_poll_ms
          else idle_poll_ms);
  status = status;
}

-- _settle.
unfoldable pub settle : Text → ℕ → Status → Bool → ℕ → Service → Service × List Status
unfolding settled
settle id generation status failed now s = elim (get id s.entries) [
  | none ↦ (s, [])
  | some ref ↦
      let entry = object_at id ref s in
      if entry.generation == generation
      then (put_object ref (settled id s.viewed_server_id status failed now entry) s, status ∷ [])
      else (s, [])
]

-- The `finally` of a probe, on the object that the probe began on.
unfoldable pub release : Text → ℕ → ℕ → Service → Service
release id ref run s =
    let entry = object_at id ref s in
    if option_eq.equals entry.in_flight (some run)
    then put_object ref (record entry { in_flight = none }) s
    else s

-- The end of probe `run`, which began on the object at `ref` in `generation`.
unfoldable pub finish : ℕ → ℕ → ℕ → Server → Outcome → ℕ → Service → Service × List Status
unfolding settle failed_status release
finish run ref generation server (succeeds status) now s =
    let (s', published) = settle server.id generation status false now s in
    (release server.id ref run s', published)
finish run ref generation server (fails err) now s =
    let previous = (object_at server.id ref s).status in
    let (s', published) =
      settle server.id generation (failed_status now server err previous) true now s in
    (release server.id ref run s', published)

-- The test of `tick`.
unfoldable pub is_due : ℕ → Server → Service → Service × Bool
unfolding entry_of
is_due now server s =
    if server.enabled
    then (let (s', ref) = entry_of server.id s in
        let entry = object_at server.id ref s' in
        (s', not (is_some entry.in_flight) && leb entry.next_poll_at now))
    else (s, false)

unfoldable pub due : ℕ → List Server → Service → Service × List Server
unfolding is_due
due now [] s = (s, [])
due now (server ∷ servers) s =
    let (s', yes_due) = is_due now server s in
    let (s'', rest) = due now servers s' in (s'', if yes_due then server ∷ rest else rest)

unfoldable pub probe_all : ℕ → ℕ → List Server → Service → Service × List Status
unfolding probe
probe_all run now [] s = (s, [])
probe_all run now (server ∷ servers) s =
    let (s', published, answer) = probe false run now server s in
    let (s'', later) = probe_all (suc run) now servers s' in (s'', published ++ later)

-- `tick`, up to the moment when its probes run.
unfoldable pub tick : ℕ → ℕ → List Server → Service → Service × List Status
unfolding due probe_all
tick run now servers s = let (s', servers') = due now servers s in probe_all run now servers' s'
