-- ===== src/Monitor/Rounds.antt =====
-- Runs of the StatusMonitor of lib/monitor.js: what each subscriber is sent, and late rounds.
use tmux_web_panel.Base.{
  ℕ, suc, ◌≤◌, ◌<◌, ◌≡◌, refl, Bool, true, Option, none, some, List, [], ◌∷◌, ◌++◌, Text, text_eq,
  ◌==◌, nat_beq, if◌then◌else◌, In, here, there, arith, Bool-cases, inl, inr, ◌∙◌, subst, ap,
}
use tmux_web_panel.Base.Dict.{Dict, get, values, get-set}
use tmux_web_panel.Monitor.{
  Socket, Sent, Monitor, Round, reading, detecting, Arrival, read, detected, throws, send, send_all,
  subscribe, unsubscribe, broadcast, broadcast_server_status, poll, stop, start, fail_round, resume,
  end_round,
}
use tmux_web_panel.Monitor.Told.{resume-IsTold}

-- What can happen to a monitor.
pub data Event : Type 0 where
  joins : Socket → Event
  leaves : ℕ → Event
  tells : Text → Event
  status : Text → Text → Event
  polls starts ends : ℕ → Event
  stops : Event
  resumes : Round → Arrival → Event

unfoldable pub step : Event → Monitor → Monitor
step (joins ws) m = (subscribe ws m).0
step (leaves id) m = unsubscribe id m
step (tells message) m = (broadcast message m).0
step (status id message) m = (broadcast_server_status id message m).0
step (polls round) m = (poll round m).0
step (starts round) m = (start round m).0
step (ends round) m = end_round round m
step stops m = stop m
step (resumes round arrival) m = (resume round arrival m).1.0

unfoldable pub run : List Event → Monitor → Monitor
unfolding step
run [] m = m
run (e ∷ es) m = run es (step e m)

-- Generations never fall.
step-generation : (e : Event) (m : Monitor) → m.generation ≤ (step e m).generation
unfolding step subscribe unsubscribe broadcast broadcast_server_status poll start end_round stop
step-generation (joins ws) m = omega arith
step-generation (leaves id) m = omega arith
step-generation (tells message) m = omega arith
step-generation (status [] message) m = omega arith
step-generation (status (c ∷ id) message) m = omega arith
step-generation (polls round) m = ground arith
step-generation (starts round) m = ground arith
step-generation (ends round) m = ground arith
step-generation stops m = omega arith
step-generation (resumes round arrival) m =
    omega (arith, (resume-IsTold round arrival m).generation)

run-generation : (es : List Event) (m : Monitor) → m.generation ≤ (run es m).generation
unfolding run
run-generation [] m = omega arith
run-generation (e ∷ es) m = omega (arith, step-generation e m, run-generation es (step e m))

stop-generation : (m : Monitor) → (stop m).generation ≡ suc m.generation
unfolding stop
stop-generation m = refl

-- What a round has left to do if the monitor was stopped while it read tmux: nothing.
module _ (began : ℕ) (m : Monitor) (h : began < m.generation) where
  stale_reading : (arrival : Arrival) → (resume (reading began) arrival m).1 ≡ (m, [])
  unfolding resume fail_round
  stale_reading (read changes) = ground (arith, h)
  stale_reading (detected o) = refl
  stale_reading (throws error) = ground (arith, h)

  stale_throws : (error : Text) → (resume (detecting began) (throws error) m).1 ≡ (m, [])
  unfolding resume fail_round
  stale_throws error = ground (arith, h)

-- A round that still reads tmux when the monitor is stopped changes nothing and sends nothing from
-- then on, whether it has read or has thrown, and neither does one that waits for its completions and
-- throws, whatever happens before and after the stop, a new start included.
pub resume-stopped :
    (m : Monitor) (before after : List Event)
    → ((arrival : Arrival)
        → (resume (reading m.generation) arrival (run after (stop (run before m)))).1
          ≡ (run after (stop (run before m)), []))
      × ((error : Text)
          → (resume (detecting m.generation) (throws error) (run after (stop (run before m)))).1
            ≡ (run after (stop (run before m)), []))
resume-stopped m before after =
    let later : m.generation < (run after (stop (run before m))).generation = omega (
      arith,
      run-generation before m,
      run-generation after (stop (run before m)),
      stop-generation (run before m),
    ) in
    (
      stale_reading m.generation (run after (stop (run before m))) later,
      stale_throws m.generation (run after (stop (run before m))) later,
    )

-- A socket that can be sent to.
abbrev pub is_open : Socket → Bool
is_open ws = nat_beq ws.ready_state 1

abbrev pub sent_to : Text → Socket → Sent
sent_to message ws = record { to = ws.id; message = message }

-- The status that was last told of a server with a name that is not empty.
unfoldable pub last_status : Text → List Event → Option Text → Option Text
last_status id [] o = o
last_status id (status [] message ∷ es) o = last_status id es o
last_status id (status (c ∷ k) message ∷ es) o =
    last_status id es (if id == (c ∷ k) then some message else o)
last_status id (e ∷ es) o = last_status id es o

abbrev told : Text → Event → Option Text → Option Text
told id (status (c ∷ k) message) o = if id == (c ∷ k) then some message else o
told id e o = o

last_status-step :
    (id : Text) (e : Event) (es : List Event) (o : Option Text)
    → last_status id (e ∷ es) o ≡ last_status id es (told id e o)
unfolding last_status
last_status-step id (joins ws) es o = refl
last_status-step id (leaves k) es o = refl
last_status-step id (tells message) es o = refl
last_status-step id (status [] message) es o = refl
last_status-step id (status (c ∷ k) message) es o = refl
last_status-step id (polls round) es o = refl
last_status-step id (starts round) es o = refl
last_status-step id (ends round) es o = refl
last_status-step id stops es o = refl
last_status-step id (resumes round arrival) es o = refl

step-status :
    (id : Text) (e : Event) (m : Monitor)
    → get id (step e m).server_statuses ≡ told id e (get id m.server_statuses)
unfolding step subscribe unsubscribe broadcast broadcast_server_status poll start end_round stop
step-status id (joins ws) m = refl
step-status id (leaves k) m = refl
step-status id (tells message) m = refl
step-status id (status [] message) m = refl
step-status id (status (c ∷ k) message) m = get-set id (c ∷ k) message m.server_statuses
step-status id (polls round) m = ground arith
step-status id (starts round) m = ground arith
step-status id (ends round) m = ground arith
step-status id stops m = refl
step-status id (resumes round arrival) m = ap (get id) (resume-IsTold round arrival m).statuses

run-status :
    (id : Text) (es : List Event) (m : Monitor)
    → get id (run es m).server_statuses ≡ last_status id es (get id m.server_statuses)
unfolding run last_status
run-status id [] m = refl
run-status id (e ∷ es) m = grind (
  arith,
  run-status id es (step e m),
  step-status id e m,
  last_status-step id e es (get id m.server_statuses),
)

get-In-values {ℓ} :
    {A : Type ℓ} (id : Text) (d : Dict Text A) (v : A) → get id d ≡ some v → In v (values d)
unfolding get
get-In-values id [] v h = ground arith
get-In-values id ((k, w) ∷ d) v h = elim (Bool-cases (id == k)) [
  | inl t ↦ subst (λ x. In x (w ∷ values d)) (ground arith) here
  | inr f ↦ there (get-In-values id d v (ground arith))
]

In-append {ℓ} : {A : Type ℓ} {a : A} (xs ys : List A) → In a ys → In a (xs ++ ys)
In-append [] ys h = h
In-append (x ∷ xs) ys h = there (In-append xs ys h)

open_lem : (ws : Socket) → ws.ready_state ≡ 1 → true ≡ is_open ws
open_lem ws h = ground arith

send_all-In :
    (ws : Socket) (ms : List Text) (message : Text)
    → ws.ready_state ≡ 1
    → In message ms
    → In (sent_to message ws) (send_all ws ms)
unfolding send
send_all-In ws [] message h i = elim i [ ]
send_all-In ws (x ∷ ms) message h here =
    subst (λ b. In (sent_to x ws) ((if b then sent_to x ws ∷ [] else []) ++ send_all ws ms))
      (open_lem ws h) here
send_all-In ws (x ∷ ms) message h (there i) =
    In-append (if nat_beq ws.ready_state 1 then sent_to x ws ∷ [] else []) (send_all ws ms)
      (send_all-In ws ms message h i)

-- Whatever happened before, a socket that subscribes while it is open is at once sent, for each
-- server, the last status that was broadcast for it.
pub subscribe-replays :
    (ws : Socket) (es : List Event) (m : Monitor) (id message : Text)
    → ws.ready_state ≡ 1
    → last_status id es (get id m.server_statuses) ≡ some message
    → In (sent_to message ws) (subscribe ws (run es m)).1
unfolding subscribe
subscribe-replays ws es m id message h k =
    let m' = run es m in
    In-append (elim m'.previous_state [ none ↦ [] | some state ↦ send ws state ])
      (send_all ws (values m'.server_statuses))
      (send_all-In ws (values m'.server_statuses) message h
        (get-In-values id m'.server_statuses message (run-status id es m ∙ k)))
