-- ===== src/Monitor.antt =====
-- StatusMonitor of lib/monitor.js: who watches, what they are sent, and when a round may report.
-- A message is its serialised text. What a round reads from tmux is an argument.
pub mod Completions
pub mod Edges
pub mod Ended
pub mod Once
pub mod Causes
pub mod Told
pub mod Rounds
pub mod Tests
use tmux_web_panel.Base.{
  ℕ, suc, ◌+◌, Bool, true, false, not, ◌&&◌, ◌||◌, Option, none, some, List, [], ◌∷◌, ◌++◌, Text,
  text_eq, nat_eq, ◌==◌, ltb, nat_beq, if◌then◌else◌, any, keep, is_some,
}
use tmux_web_panel.Base.Dict.{Dict, get, set, values}

-- A browser's socket: its identity and its readyState, 1 if open and above 1 if it closes.
pub record Socket : Type 0 where
  pub id : ℕ
  pub ready_state : ℕ

pub record Sent : Type 0 where
  pub to : ℕ
  pub message : Text

pub record Monitor : Type 0 where
  pub subscribers : List Socket
  pub previous_state : Option Text
  pub server_statuses : Dict Text Text
  pub has_interval : Bool
  pub polling : Option ℕ
  pub generation : ℕ

unfoldable pub send : Socket → Text → List Sent
send ws message =
    if nat_beq ws.ready_state 1 then record { to = ws.id; message = message } ∷ [] else []

abbrev pub send_all : Socket → List Text → List Sent
send_all ws [] = []
send_all ws (m ∷ ms) = send ws m ++ send_all ws ms

-- A Set keeps a member that is added again.
abbrev pub add_socket : Socket → List Socket → List Socket
add_socket ws ss = if any (λ x. x.id == ws.id) ss then ss else ss ++ ws ∷ []

-- A new subscriber gets the last state and the latest status of every server.
unfoldable pub subscribe : Socket → Monitor → Monitor × List Sent
unfolding send
subscribe ws m = (
  record m { subscribers = add_socket ws m.subscribers },
  (elim m.previous_state [ none ↦ [] | some state ↦ send ws state ])
      ++ send_all ws (values m.server_statuses),
)

unfoldable pub unsubscribe : ℕ → Monitor → Monitor
unsubscribe id m = record m { subscribers = keep (λ x. not (x.id == id)) m.subscribers }

abbrev pub send_each : List Socket → Text → List Sent
send_each [] message = []
send_each (ws ∷ ss) message =
    if ltb 1 ws.ready_state then send_each ss message else send ws message ++ send_each ss message

-- _broadcast: a socket that closes is dropped, and the open ones are sent to.
unfoldable pub broadcast : Text → Monitor → Monitor × List Sent
unfolding send
broadcast message m = (
  record m { subscribers = keep (λ ws. not (ltb 1 ws.ready_state)) m.subscribers },
  send_each m.subscribers message,
)

-- `message` is the serialised status; a status without a server id is dropped.
unfoldable pub broadcast_server_status : Text → Text → Monitor → Monitor × List Sent
unfolding broadcast
broadcast_server_status [] message m = (m, [])
broadcast_server_status (c ∷ id) message m =
    broadcast message (record m { server_statuses = set (c ∷ id) message m.server_statuses })

-- `notifications` is the number of notifications that `message` holds.
unfoldable pub broadcast_notifications : (notifications : ℕ) → Text → Monitor → Monitor × List Sent
unfolding broadcast
broadcast_notifications n message m = if nat_beq n 0 then (m, []) else broadcast message m

-- An event without a type that is a text is dropped.
unfoldable pub broadcast_event : (has_type : Bool) → Text → Monitor → Monitor × List Sent
unfolding broadcast
broadcast_event has_type message m = if has_type then broadcast message m else (m, [])

unfoldable pub broadcast_workspace_changed : Text → Monitor → Monitor × List Sent
unfolding broadcast
broadcast_workspace_changed message m = broadcast message m

-- `poll`: a round that still runs is joined. Rounds are told apart by number.
unfoldable pub poll : ℕ → Monitor → Monitor × Bool
poll round m = elim m.polling [
  | some running ↦ (m, false)
  | none ↦ (record m { polling = some round }, true)
]

unfoldable pub stop : Monitor → Monitor
stop m = record m { has_interval = false; generation = suc m.generation; polling = none }

unfoldable pub start : ℕ → Monitor → Monitor × Bool
unfolding stop poll
start round m =
    let m' = if m.has_interval then stop m else m in
    let (m'', began) = poll round m' in (record m'' { has_interval = true }, began)

-- A round that a monitor has begun: it reads tmux, or it waits for _detectCompletions, which the
-- source awaits, or it has ended. A round keeps the generation in which it began.
pub data Round : Type 0 where
  reading detecting : (began : ℕ) → Round
  over : Round

-- What a round goes on with: tmux has been read, with the messages of the panes whose commands have
-- changed; the completions are there; or what it waited for has thrown.
pub record Outcome : Type 0 where
  pub status : Text
  pub full : Text
  pub completed : Bool
  pub notices : Option Text

pub data Arrival : Type 0 where
  read : (changes : List Text) → Arrival
  detected : Outcome → Arrival
  throws : (error : Text) → Arrival

abbrev pub same : Option Text → Text → Bool
same none t = false
same (some s) t = s == t

abbrev send_notices : Option Text → Monitor → Monitor × List Sent
send_notices none m = (m, [])
send_notices (some message) m = broadcast message m

abbrev pub broadcast_all : List Text → Monitor → Monitor × List Sent
broadcast_all [] m = (m, [])
broadcast_all (message ∷ messages) m =
    let (m', first) = broadcast message m in
    let (m'', rest) = broadcast_all messages m' in (m'', first ++ rest)

-- The rest of a round behind the completions: `status` is its serialised status; `completed` says
-- whether it found completions, which stand in `full`, and `notices` is the message of the
-- notifications that they made.
unfoldable pub report : Outcome → Monitor → Monitor × List Sent
unfolding broadcast
report o m =
    if not (same m.previous_state o.status) || o.completed
    then (let (m', first) = send_notices o.notices (record m { previous_state = some o.status }) in
        let (m'', second) = broadcast (if o.completed then o.full else o.status) m' in
        (m'', first ++ second))
    else (m, [])

-- The `catch` of a round.
unfoldable pub fail_round : ℕ → Text → Monitor → Monitor × List Sent
unfolding broadcast
fail_round began error m = if nat_beq began m.generation then broadcast error m else (m, [])

-- A round up to its next wait. It compares generations when it has read and when it has thrown, but
-- not when the completions are there.
unfoldable pub resume : Round → Arrival → Monitor → Round × (Monitor × List Sent)
unfolding broadcast report fail_round
resume (reading began) (read changes) m =
    if nat_beq began m.generation
    then (detecting began, broadcast_all changes m)
    else (over, (m, []))
resume (detecting began) (detected o) m = (over, report o m)
resume (reading began) (throws error) m = (over, fail_round began error m)
resume (detecting began) (throws error) m = (over, fail_round began error m)
resume round arrival m = (round, (m, []))

-- The `finally` of `poll`: only the round that is running clears the field.
unfoldable pub end_round : ℕ → Monitor → Monitor
end_round round m = elim m.polling [
  | none ↦ m
  | some running ↦ if running == round then record m { polling = none } else m
]
