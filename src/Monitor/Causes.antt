-- ===== src/Monitor/Causes.antt =====
-- Why _detectCompletions of lib/monitor.js reports a window.
use tmux_web_panel.Base.{
  ℕ, ◌≡◌, refl, true, false, some, List, [], ◌∷◌, Text, text_eq, nat_eq, bool_eq, option_eq, arith,
  All, All-append, Bool-cases, Option-cases, inl, inr,
}
use tmux_web_panel.Base.Dict.{get}
use tmux_web_panel.Monitor.Completions.{
  PaneCommand, WindowDetail, Session, command, bell, CompletedWindow, Memory, Found, is_shell,
  finished, rings, pane_step, pane_loop, window_step, window_loop, session_step, session_loop,
  detect_completions, nothing, of_command, of_bell,
}

-- The cause of a report: a command that was no shell, or a bell that was down.
abbrev pub IsCaused : Memory → CompletedWindow → Type 0
IsCaused old c = elim c.source [
  | command ↦ is_shell c.prev_command ≡ false
  | bell ↦ (id : Text) × (c.window_id ≡ some id) × (get id old.bells ≡ some false)
]

finished-IsCaused :
    (old : Memory) (session : Text) (pc : PaneCommand) (prev : Text)
    → finished old session pc ≡ some prev
    → is_shell prev ≡ false
unfolding finished
finished-IsCaused old session pc prev h = ground arith

pane_step-IsCaused :
    (old : Memory) (s : Session) (pc : PaneCommand) (x : List ℕ × Found)
    → All (IsCaused old) x.1.windows
    → All (IsCaused old) (pane_step old s pc x).1.windows
unfolding pane_step
pane_step-IsCaused old s pc (done, found) h = elim (Option-cases (finished old s.name pc)) [
  | inl e ↦ ground arith
  | inr (prev, e) ↦ ground (
    arith,
    All-append (IsCaused old) found.windows (of_command s pc prev ∷ []) h
        (finished-IsCaused old s.name pc prev e, tt),
  )
]

pane_loop-IsCaused :
    (old : Memory) (s : Session) (pcs : List PaneCommand) (x : List ℕ × Found)
    → All (IsCaused old) x.1.windows
    → All (IsCaused old) (pane_loop old s pcs x).1.windows
unfolding pane_loop
pane_loop-IsCaused old s [] x h = h
pane_loop-IsCaused old s (pc ∷ pcs) x h =
    pane_loop-IsCaused old s pcs (pane_step old s pc x) (pane_step-IsCaused old s pc x h)

rings-IsCaused :
    (old : Memory) (w : WindowDetail) → rings old w ≡ true → get w.id old.bells ≡ some false
unfolding rings
rings-IsCaused old w h = ground arith

window_step-IsCaused :
    (old : Memory) (s : Session) (done : List ℕ) (w : WindowDetail) (found : Found)
    → All (IsCaused old) found.windows
    → All (IsCaused old) (window_step old s done w found).windows
unfolding window_step
window_step-IsCaused old s done w found h = elim (Bool-cases (rings old w)) [
  | inl e ↦ ground (
    arith,
    All-append (IsCaused old) found.windows (of_bell s w ∷ []) h
        ((w.id, refl, rings-IsCaused old w e), tt),
  )
  | inr e ↦ ground arith
]

window_loop-IsCaused :
    (old : Memory) (s : Session) (done : List ℕ) (ws : List WindowDetail) (found : Found)
    → All (IsCaused old) found.windows
    → All (IsCaused old) (window_loop old s done ws found).windows
unfolding window_loop
window_loop-IsCaused old s done [] found h = h
window_loop-IsCaused old s done (w ∷ ws) found h =
    window_loop-IsCaused old s done ws (window_step old s done w found)
      (window_step-IsCaused old s done w found h)

session_loop-IsCaused :
    (old : Memory) (ss : List Session) (found : Found)
    → All (IsCaused old) found.windows
    → All (IsCaused old) (session_loop old ss found).windows
unfolding session_loop session_step
session_loop-IsCaused old [] found h = h
session_loop-IsCaused old (s ∷ ss) found h =
    let x = pane_loop old s s.pane_commands ([], found) in
    session_loop-IsCaused old ss (window_loop old s x.0 s.window_details x.1) (
      window_loop-IsCaused old s x.0 s.window_details x.1
        (pane_loop-IsCaused old s s.pane_commands ([], found) h))

-- Each window that a round reports for a command ran one that is no shell, and each that it
-- reports for its bell had its bell down in the round before.
pub detect_completions-IsCaused :
    (old : Memory) (ss : List Session) → All (IsCaused old) (detect_completions old ss).windows
unfolding detect_completions
detect_completions-IsCaused old ss = session_loop-IsCaused old ss nothing tt
