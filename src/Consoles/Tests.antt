-- ===== src/Consoles/Tests.antt =====
-- Runs of lib/terminal/console-reaper.js on concrete clients and consoles.
use tmux_web_panel.Base.{◌≡◌, refl, none, some, List, [], ◌∷◌, ◌++◌, ℕ, All}
use tmux_web_panel.Consoles.{
  Window, Console, within, schedule, client_ended, postpone, begin_sweep, is_someone_elses, decide,
  finish_sweep, Event, ends, fires, answers, step, run, init,
}
use tmux_web_panel.Consoles.Kept.{IsKept, run-IsKept}
use tmux_web_panel.Consoles.Safety.{IsOwned, HasNoRepeats, finish_sweep-IsOwned}

abbrev window : ℕ → ℕ → Window
window from to = record { from = from; to = some to }

abbrev consoles : List Console
consoles =
    record { pid = 70; created_at = 105 }
    ∷ record { pid = 71; created_at = 207 }
    ∷ record { pid = 72; created_at = 305 }
    ∷ []

-- A client that still runs.
abbrev running : List Window
running = record { from = 300; to = none } ∷ []

abbrev clients : List Event
clients =
    ends (window 100 110) 1000
    ∷ ends (window 200 210) 2000
    ∷ ends (window 295 310) 2500
    ∷ fires 8000
    ∷ []

-- Two consoles are ended; the third may be the running client's, so its entry waits.
third_waits : (step (answers (some consoles) running) (run clients (init 5000))).1 ≡ 70 ∷ 71 ∷ []
unfolding step run client_ended schedule begin_sweep finish_sweep postpone decide is_someone_elses
    within
third_waits = refl

-- Three sweeps whose list fails, and the entries are given up.
given_up :
    (run
      (clients
        ++ (answers none [] ∷ fires 9000 ∷ answers none [] ∷ fires 9900 ∷ answers none [] ∷ []))
      (init 5000)).ended
    ≡ []
unfolding step run client_ended schedule begin_sweep finish_sweep postpone
given_up = refl

run-IsKept_example : IsKept (run clients (init 5000))
run-IsKept_example = run-IsKept clients 5000

finish_sweep-IsOwned_example :
    All
      (IsOwned running (run clients (init 5000)).ended (run clients (init 5000)).ended consoles)
      (finish_sweep (some consoles) running (run clients (init 5000))).1
    × HasNoRepeats (finish_sweep (some consoles) running (run clients (init 5000))).1
unfolding step run client_ended schedule begin_sweep
finish_sweep-IsOwned_example =
    finish_sweep-IsOwned consoles running (run clients (init 5000)) (run clients (init 5000)).ended
      refl
