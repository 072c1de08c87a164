-- ===== src/Notifications/Tests.antt =====
-- Runs of the notification store of lib/notifications.js on concrete inputs.
use tmux_web_panel.Base.{◌+◌, ◌≡◌, arith, true, false, none, some, List, [], ◌∷◌, text, any}
use tmux_web_panel.Base.Int.{pos}
use tmux_web_panel.Notifications.{
  index, Entry, Store, add, unread_count, load, mark_read, mark_read_by_window, is_unread_in,
  index_text,
}
use tmux_web_panel.Notifications.Reading.{mark_read_by_window-unread}
use tmux_web_panel.Notifications.Saving.{
  Call, adds, reads, reaps, persists, run, IsSynced, run-load-IsSynced,
}

abbrev entry : Entry
entry = record {
  type = none;
  state = none;
  source = none;
  event = none;
  session = text "main";
  window_index = index (pos 1);
  window_id = none;
  window_name = some (text "build");
  prev_command = some (text "make");
  pane_id = none;
  reason = none;
}

abbrev start : Store
start = load 0 none

abbrev two : Store
two = (add (text "b") 20 entry (mark_read (text "a") 15 (add (text "a") 10 entry start).0).0).0

mark_read_by_window-unread_example :
    (unread_count (mark_read_by_window (text "main") (index (pos 1)) 30 two).0
        + (mark_read_by_window (text "main") (index (pos 1)) 30 two).1
      ≡ unread_count two)
    × (any
          (is_unread_in (text "main") (index_text (index (pos 1))))
          (mark_read_by_window (text "main") (index (pos 1)) 30 two).0.notifications
        ≡ false)
mark_read_by_window-unread_example = mark_read_by_window-unread (text "main") (index (pos 1)) 30 two

abbrev calls : List Call
calls = adds (text "a") 10 entry ∷ persists true ∷ reads (text "a") 20 ∷ reaps 30 ∷ []

run-load-IsSynced_example : IsSynced (run calls start)
run-load-IsSynced_example =
    run-load-IsSynced 0 none calls
      ((λ e. ground arith), ((λ e. ground arith), ((λ e. ground arith), ((λ e. ground arith), tt))))
