-- ===== src/Notifications/Reading.antt =====
-- Marking notifications read, one by id and all of a window.
use tmux_web_panel.Base.{ℕ, ◌+◌, ◌≡◌, refl, false, List, [], ◌∷◌, arith, Text, text_eq, length, any}
use tmux_web_panel.Notifications.{
  Notification, WindowIndex, Store, mark_window, mark_read_by_window, unread, unread_count,
  is_unread_in, index_text,
}

mark_window-count :
    (session win_idx : Text) (now : ℕ) (ns : List Notification)
    → length (unread (mark_window session win_idx now ns).0)
        + (mark_window session win_idx now ns).1
      ≡ length (unread ns)
unfolding mark_window is_unread_in
mark_window-count session win_idx now [] = refl
mark_window-count session win_idx now (n ∷ ns) =
    ground (arith, mark_window-count session win_idx now ns)

mark_window-none_left :
    (session win_idx : Text) (now : ℕ) (ns : List Notification)
    → any (is_unread_in session win_idx) (mark_window session win_idx now ns).0 ≡ false
unfolding mark_window is_unread_in
mark_window-none_left session win_idx now [] = refl
mark_window-none_left session win_idx now (n ∷ ns) =
    ground (arith, mark_window-none_left session win_idx now ns)

-- markReadByWindow takes exactly as many off the unread count as it reports, and leaves nothing
-- unread in that window.
pub mark_read_by_window-unread :
    (session : Text) (window_index : WindowIndex) (now : ℕ) (s : Store)
    → let (s', count) = mark_read_by_window session window_index now s in
      (unread_count s' + count ≡ unread_count s)
      × (any (is_unread_in session (index_text window_index)) s'.notifications ≡ false)
unfolding mark_read_by_window unread_count
mark_read_by_window-unread session window_index now s = ground (
  arith,
  mark_window-count session (index_text window_index) now s.notifications,
  mark_window-none_left session (index_text window_index) now s.notifications,
)
