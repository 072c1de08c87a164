-- ===== src/Monitor/Once.antt =====
-- A round of _detectCompletions in lib/monitor.js reports a window once.
use tmux_web_panel.Base.{
  ℕ, suc, ◌+◌, ◌≤◌, ◌≡◌, refl, Bool, true, false, ◌||◌, List, [], ◌∷◌, ◌++◌, text_eq, nat_eq,
  bool_eq, ◌==◌, if◌then◌else◌, any, option_eq, count_if, arith, Option-cases, inl, inr,
}
use tmux_web_panel.Monitor.Completions.{
  PaneCommand, WindowDetail, Session, CompletedWindow, Memory, Found, finished, pane_step,
  pane_loop, window_step, window_loop, session_step, of_command, of_bell,
}

-- How often a window index stands in the list of windows that have finished.
abbrev pub reports : ℕ → List CompletedWindow → ℕ
reports i ws = count_if (λ w. w.window_index == i) ws

abbrev pub one_if : Bool → ℕ
one_if true = 1
one_if false = 0

reports_append :
    (i : ℕ) (ws vs : List CompletedWindow) → reports i (ws ++ vs) ≡ reports i ws + reports i vs
reports_append i [] vs = omega arith
reports_append i (w ∷ ws) vs = ground (arith, reports_append i ws vs)

any_append :
    (i : ℕ) (xs : List ℕ) (j : ℕ)
    → any (λ x. x == i) (xs ++ j ∷ []) ≡ (any (λ x. x == i) xs || j == i)
any_append i [] j = ground arith
any_append i (x ∷ xs) j = ground (arith, any_append i xs j)

-- The windows reported for their panes are those in `done`, over a number that stood before.
abbrev Counts : ℕ → ℕ → List ℕ × Found → Type 0
Counts i base x = reports i x.1.windows ≡ base + one_if (any (λ y. y == i) x.0)

any_at :
    (i k : ℕ) (done : List ℕ)
    → (k == i) ≡ true
    → any (λ y. y == k) done ≡ false
    → any (λ y. y == i) done ≡ false
any_at i k [] t h = refl
any_at i k (j ∷ done) t h = ground (arith, any_at i k done)

pane_step-Counts :
    (i base : ℕ) (old : Memory) (s : Session) (pc : PaneCommand) (x : List ℕ × Found)
    → Counts i base x
    → Counts i base (pane_step old s pc x)
unfolding pane_step
pane_step-Counts i base old s pc (done, found) h = elim (Option-cases (finished old s.name pc)) [
  | inl e ↦ ground arith
  | inr (prev, e) ↦ ground (
    arith,
    reports_append i found.windows (of_command s pc prev ∷ []),
    any_append i done pc.window_index,
    any_at i pc.window_index done,
  )
]

pane_loop-Counts :
    (i base : ℕ) (old : Memory) (s : Session) (pcs : List PaneCommand) (x : List ℕ × Found)
    → Counts i base x
    → Counts i base (pane_loop old s pcs x)
unfolding pane_loop
pane_loop-Counts i base old s [] x h = h
pane_loop-Counts i base old s (pc ∷ pcs) x h =
    pane_loop-Counts i base old s pcs (pane_step old s pc x) (pane_step-Counts i base old s pc x h)

-- How many windows of tmux's list have the index.
abbrev pub windows_at : ℕ → List WindowDetail → ℕ
windows_at i ws = count_if (λ w. w.index == i) ws

-- A window that is done adds nothing, and another at most one report.
abbrev room : ℕ → List ℕ → List WindowDetail → ℕ
room i done ws = if any (λ y. y == i) done then 0 else windows_at i ws

any_same :
    (i k : ℕ) (done : List ℕ) → (k == i) ≡ true → any (λ y. y == k) done ≡ any (λ y. y == i) done
any_same i k [] t = refl
any_same i k (j ∷ done) t = ground (arith, any_same i k done)

window_step-reports :
    (i : ℕ) (old : Memory) (s : Session) (done : List ℕ) (w : WindowDetail) (found : Found)
    → reports i (window_step old s done w found).windows
      ≤ reports i found.windows + room i done (w ∷ [])
unfolding window_step
window_step-reports i old s done w found =
    ground (arith, reports_append i found.windows (of_bell s w ∷ []), any_same i w.index done)

window_loop-reports :
    (i : ℕ) (old : Memory) (s : Session) (done : List ℕ) (ws : List WindowDetail) (found : Found)
    → reports i (window_loop old s done ws found).windows ≤ reports i found.windows + room i done ws
unfolding window_loop
window_loop-reports i old s done [] found = ground arith
window_loop-reports i old s done (w ∷ ws) found = ground (
  arith,
  window_loop-reports i old s done ws (window_step old s done w found),
  window_step-reports i old s done w found,
)

-- A round reports a window of a session at most once, for the commands of all its panes and its
-- bell together, if tmux lists no two windows of the session with its index.
pub session_step-once :
    (i : ℕ) (old : Memory) (s : Session) (found : Found)
    → windows_at i s.window_details ≤ 1
    → reports i (session_step old s found).windows ≤ suc (reports i found.windows)
unfolding session_step
session_step-once i old s found h =
    let x = pane_loop old s s.pane_commands ([], found) in
    ground (
      arith,
      window_loop-reports i old s x.0 s.window_details x.1,
      pane_loop-Counts i (reports i found.windows) old s s.pane_commands ([], found) (omega arith),
    )
