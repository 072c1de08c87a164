-- ===== src/Monitor/Edges.antt =====
-- What _detectCompletions of lib/monitor.js reports, against a description without loops.
use tmux_web_panel.Base.{
  ℕ, ◌≡◌, refl, ap, Option, none, some, List, [], ◌∷◌, ◌++◌, Text, text_eq, nat_eq, bool_eq,
  option_eq, arith, append_assoc, append-nil, ◌∙◌, sym,
}
use tmux_web_panel.Monitor.Completions.{
  PaneCommand, WindowDetail, Session, CompletedPane, Memory, Found, finished, pane_step, pane_loop,
  window_step, window_loop, session_step, session_loop, detect_completions, nothing,
}

-- The panes that have finished, one by one.
abbrev pub report_of : Text → PaneCommand → Option Text → List CompletedPane
report_of session pc none = []
report_of session pc (some prev) =
    record {
      session = session;
      window_index = pc.window_index;
      pane_id = pc.pane_id;
      prev_command = prev;
    }
    ∷ []

abbrev pub finished_panes : Memory → Text → List PaneCommand → List CompletedPane
finished_panes old session [] = []
finished_panes old session (pc ∷ pcs) =
    report_of session pc (finished old session pc) ++ finished_panes old session pcs

abbrev pub finished_in : Memory → List Session → List CompletedPane
finished_in old [] = []
finished_in old (s ∷ ss) = finished_panes old s.name s.pane_commands ++ finished_in old ss

pane_step-panes :
    (old : Memory) (s : Session) (pc : PaneCommand) (x : List ℕ × Found)
    → (pane_step old s pc x).1.panes ≡ x.1.panes ++ report_of s.name pc (finished old s.name pc)
unfolding pane_step
pane_step-panes old s pc (done, found) = ground (arith, append-nil found.panes)

pane_loop-panes :
    (old : Memory) (s : Session) (pcs : List PaneCommand) (x : List ℕ × Found)
    → (pane_loop old s pcs x).1.panes ≡ x.1.panes ++ finished_panes old s.name pcs
unfolding pane_loop
pane_loop-panes old s [] x = sym (append-nil x.1.panes)
pane_loop-panes old s (pc ∷ pcs) x =
    pane_loop-panes old s pcs (pane_step old s pc x)
    ∙ ap (λ ps. ps ++ finished_panes old s.name pcs) (pane_step-panes old s pc x)
    ∙ append_assoc x.1.panes (report_of s.name pc (finished old s.name pc))
        (finished_panes old s.name pcs)

window_loop-panes :
    (old : Memory) (s : Session) (done : List ℕ) (ws : List WindowDetail) (found : Found)
    → (window_loop old s done ws found).panes ≡ found.panes
unfolding window_loop window_step
window_loop-panes old s done [] found = refl
window_loop-panes old s done (w ∷ ws) found =
    ground (arith, window_loop-panes old s done ws (window_step old s done w found))

session_step-panes :
    (old : Memory) (s : Session) (found : Found)
    → (session_step old s found).panes ≡ found.panes ++ finished_panes old s.name s.pane_commands
unfolding session_step
session_step-panes old s found =
    let x = pane_loop old s s.pane_commands ([], found) in
    window_loop-panes old s x.0 s.window_details x.1
    ∙ pane_loop-panes old s s.pane_commands ([], found)

session_loop-panes :
    (old : Memory) (ss : List Session) (found : Found)
    → (session_loop old ss found).panes ≡ found.panes ++ finished_in old ss
unfolding session_loop
session_loop-panes old [] found = sym (append-nil found.panes)
session_loop-panes old (s ∷ ss) found =
    session_loop-panes old ss (session_step old s found)
    ∙ ap (λ ps. ps ++ finished_in old ss) (session_step-panes old s found)
    ∙ append_assoc found.panes (finished_panes old s.name s.pane_commands) (finished_in old ss)

-- The panes that a round reports are those that `finished` gives a command for, in the order of the
-- sessions.
pub detect_completions-panes :
    (old : Memory) (ss : List Session) → (detect_completions old ss).panes ≡ finished_in old ss
unfolding detect_completions
detect_completions-panes old ss = session_loop-panes old ss nothing
