-- ===== src/Notifications/Saving.antt =====
-- The file follows the list: whatever changed it has a write ahead.
use tmux_web_panel.Base.{
  ℕ, ◌≡◌, refl, Bool, true, false, Option, none, some, List, [], ◌∷◌, arith, Text, All, ◌⊎◌, ◌≢◌,
  or_else, keep_all, ltb, inl,
}
use tmux_web_panel.Notifications.{
  Notification, WindowIndex, Entry, Store, start_reaper, stop_reaper, add, mark_read, mark_window,
  mark_read_by_window, clear_all, reap, is_kept, load, persist_fires, index_text,
}

pub data Call : Type 0 where
  adds : Text → ℕ → Entry → Call
  reads : Text → ℕ → Call
  reads_window : Text → WindowIndex → ℕ → Call
  clears : Call
  reaps : ℕ → Call
  starts_reaper stops_reaper : Call
  persists : Bool → Call

unfoldable pub step : Call → Store → Store
step (adds id now entry) s = (add id now entry s).0
step (reads id now) s = (mark_read id now s).0
step (reads_window session window_index now) s = (mark_read_by_window session window_index now s).0
step clears s = clear_all s
step (reaps now) s = reap now s
step starts_reaper s = start_reaper s
step stops_reaper s = stop_reaper s
step (persists written) s = persist_fires written s

unfoldable pub run : List Call → Store → Store
run [] s = s
run (c ∷ cs) s = run cs (step c s)

-- Either a write is ahead, or the file holds the list; no file stands for the empty list.
abbrev pub IsSynced : Store → Type 0
IsSynced s = (s.persist_scheduled ≡ true) ⊎ (or_else s.disk [] ≡ s.notifications)

mark_window_none :
    (session win_idx : Text) (now : ℕ) (ns : List Notification)
    → ltb 0 (mark_window session win_idx now ns).1 ≡ false
    → (mark_window session win_idx now ns).0 ≡ ns
unfolding mark_window
mark_window_none session win_idx now [] h = refl
mark_window_none session win_idx now (n ∷ ns) h =
    ground (arith, mark_window_none session win_idx now ns)

step-IsSynced : (c : Call) (s : Store) → c ≢ persists false → IsSynced s → IsSynced (step c s)
unfolding step add mark_read mark_read_by_window clear_all reap start_reaper stop_reaper
    persist_fires
step-IsSynced (adds id now entry) s h y = inl refl
step-IsSynced (reads id now) s h y = ground arith
step-IsSynced (reads_window session window_index now) s h y =
    ground (arith, mark_window_none session (index_text window_index) now s.notifications)
step-IsSynced clears s h y = inl refl
step-IsSynced (reaps now) s h y = ground (arith, keep_all (is_kept now) s.notifications)
step-IsSynced starts_reaper s h y = ground arith
step-IsSynced stops_reaper s h y = ground arith
step-IsSynced (persists written) s h y = ground arith

load-IsSynced : (now : ℕ) (disk : Option (List Notification)) → IsSynced (load now disk)
unfolding load reap
load-IsSynced now none = ground arith
load-IsSynced now (some saved) = ground (arith, keep_all (is_kept now) saved)

run-IsSynced :
    (cs : List Call) (s : Store)
    → All (λ c. c ≢ persists false) cs
    → IsSynced s
    → IsSynced (run cs s)
unfolding run
run-IsSynced [] s h y = y
run-IsSynced (c ∷ cs) s h y = run-IsSynced cs (step c s) h.1 (step-IsSynced c s h.0 y)

-- From the start of the process on, after any calls in which no write fails, either a write is
-- scheduled or the file holds exactly the current list.
pub run-load-IsSynced :
    (now : ℕ) (disk : Option (List Notification)) (cs : List Call)
    → All (λ c. c ≢ persists false) cs
    → IsSynced (run cs (load now disk))
run-load-IsSynced now disk cs h = run-IsSynced cs (load now disk) h (load-IsSynced now disk)
