-- ===== src/Monitor/Tests.antt =====
-- Runs of the StatusMonitor of lib/monitor.js on concrete inputs.
use tmux_web_panel.Base.{
  ◌≤◌, ◌≡◌, refl, arith, true, false, none, List, [], ◌∷◌, text, Text, In, map,
}
use tmux_web_panel.Base.Dict.{get, set}
use tmux_web_panel.Base.Equality.{text_beq}
use tmux_web_panel.Monitor.{
  Socket, Monitor, Outcome, Arrival, reading, detecting, detected, throws, resume, report,
  broadcast, poll, start, send, subscribe, stop,
}
use tmux_web_panel.Monitor.Rounds.{
  Event, joins, status, starts, run, step, resume-stopped, subscribe-replays, sent_to, last_status,
}
use tmux_web_panel.Monitor.Completions.{
  Session, Memory, PaneCommand, detect_completions, session_loop, session_step, pane_loop,
  pane_step, window_loop, window_step, finished, rings, is_shell, pane_key, nothing,
}
use tmux_web_panel.Base.Texts.{decimal}
use tmux_web_panel.Monitor.Ended.{ended_in, detect_completions-ended}
use tmux_web_panel.Monitor.Once.{reports, session_step-once}

abbrev tab : Socket
tab = record { id = 1; ready_state = 1 }

abbrev closed : Socket
closed = record { id = 2; ready_state = 3 }

abbrev idle : Monitor
idle = record {
  subscribers = [];
  previous_state = none;
  server_statuses = [];
  has_interval = false;
  polling = none;
  generation = 0;
}

abbrev seen : Outcome
seen = record { status = text "s"; full = text "f"; completed = false; notices = none }

resume-stopped_example :
    ((arrival : Arrival)
      → (resume
          (reading 0)
          arrival
          (run (starts 2 ∷ []) (stop (run (joins tab ∷ starts 1 ∷ []) idle)))).1
        ≡ (run (starts 2 ∷ []) (stop (run (joins tab ∷ starts 1 ∷ []) idle)), []))
    × ((error : Text)
        → (resume
            (detecting 0)
            (throws error)
            (run (starts 2 ∷ []) (stop (run (joins tab ∷ starts 1 ∷ []) idle)))).1
          ≡ (run (starts 2 ∷ []) (stop (run (joins tab ∷ starts 1 ∷ []) idle)), []))
resume-stopped_example = resume-stopped idle (joins tab ∷ starts 1 ∷ []) (starts 2 ∷ [])

-- A round that waits for its completions when the monitor is stopped still reports.
detecting_is_late :
    (resume (detecting 0) (detected seen) (stop (run (joins tab ∷ starts 1 ∷ []) idle))).1.1
    ≡ record { to = 1; message = text "s" } ∷ []
unfolding resume report broadcast stop run step subscribe start poll send
detecting_is_late = refl

abbrev events : List Event
events =
    status (text "srv1") (text "down")
    ∷ status (text "srv2") (text "up")
    ∷ status (text "srv1") (text "up")
    ∷ []

subscribe-replays_example : In (sent_to (text "up") tab) (subscribe tab (run events idle)).1
unfolding last_status get text_beq
subscribe-replays_example = subscribe-replays tab events idle (text "srv1") (text "up") refl refl

abbrev pane : PaneCommand
pane = record { window_index = 1; pane_id = text "%1"; command = text "zsh" }

abbrev other_pane : PaneCommand
other_pane = record { window_index = 1; pane_id = text "%2"; command = text "bash" }

abbrev session : Session
session = record {
  name = text "main";
  window_details =
      record { id = text "@1"; index = 1; bell = true }
      ∷ record { id = text "@2"; index = 2; bell = true }
      ∷ [];
  pane_commands = pane ∷ other_pane ∷ [];
}

abbrev old : Memory
old = record {
  commands = (text "main:1:%1", text "make") ∷ (text "main:1:%2", text "vim") ∷ [];
  bells = (text "@1", false) ∷ (text "@2", false) ∷ [];
}

-- The same panes a round before, at commands that are no shells.
abbrev earlier : Session
earlier = record session {
  pane_commands =
      record pane { command = text "make" } ∷ record other_pane { command = text "vim" } ∷ [];
}

detect_completions-ended_example :
    (detect_completions (detect_completions old (earlier ∷ [])).memory (session ∷ [])).panes
    ≡ ended_in (earlier ∷ []) (session ∷ [])
detect_completions-ended_example =
    detect_completions-ended old (earlier ∷ []) (session ∷ []) (refl, tt) (refl, tt)

-- Both have ended.
ended_panes_run :
    map (λ p. p.pane_id) (ended_in (earlier ∷ []) (session ∷ [])) ≡ text "%1" ∷ text "%2" ∷ []
unfolding is_shell text_beq
ended_panes_run = refl

session_step-once_example : reports 1 (session_step old session nothing).windows ≤ 1
session_step-once_example = session_step-once 1 old session nothing (omega arith)

-- Two panes have finished in one window: the window is reported once, and the other for its bell.
completed_windows :
    map (λ w. w.window_index) (detect_completions old (session ∷ [])).windows ≡ 1 ∷ 2 ∷ []
unfolding detect_completions session_loop session_step pane_loop pane_step window_loop window_step
    finished rings is_shell pane_key decimal get set text_beq
completed_windows = refl
