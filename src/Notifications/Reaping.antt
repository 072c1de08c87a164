-- ===== src/Notifications/Reaping.antt =====
-- What the reaper removes and what it never does.
use tmux_web_panel.Base.{
  false, ◌⊎◌, ℕ, ◌+◌, ◌<◌, ◌≡◌, refl, List, [], ◌∷◌, arith, keep, All, or_else,
}
use tmux_web_panel.Notifications.{Notification, Store, reap, unread, is_kept, read_ttl_ms}

unread-keep : (now : ℕ) (ns : List Notification) → unread (keep (is_kept now) ns) ≡ unread ns
unfolding is_kept
unread-keep now [] = refl
unread-keep now (n ∷ ns) = ground (arith, unread-keep now ns)

abbrev pub IsFresh : ℕ → Notification → Type 0
IsFresh now n = (n.read ≡ false) ⊎ (now < or_else n.read_at 0 + read_ttl_ms)

All-IsFresh : (now : ℕ) (ns : List Notification) → All (IsFresh now) (keep (is_kept now) ns)
unfolding is_kept
All-IsFresh now [] = tt
All-IsFresh now (n ∷ ns) = ground (arith, All-IsFresh now ns)

-- A round of the reaper keeps every unread notification, in order, and leaves no read one whose
-- hour has passed.
pub reap-unread :
    (now : ℕ) (s : Store)
    → (unread (reap now s).notifications ≡ unread s.notifications)
      × All (IsFresh now) (reap now s).notifications
unfolding reap
reap-unread now s = ground (arith, unread-keep now s.notifications, All-IsFresh now s.notifications)
