-- ===== src/Panes/Runtime/Expiry.antt =====
-- When a detached pane may be ended by the reaper.
use tmux_web_panel.Base.{ℕ, ◌+◌, ◌≤◌, ◌≡◌, some, List, [], ◌∷◌, nat_eq, arith, leb, max}
use tmux_web_panel.Panes.Utf8.{Chars}
use tmux_web_panel.Panes.Runtime.{Runtime, on_data, unsubscribe, is_expired, remove_member}

-- Output of a pane that nobody watches, each piece with its time.
abbrev pub print_all : List (Chars × ℕ) → Runtime → Runtime
print_all [] r = r
print_all ((t, at) ∷ rest) r = print_all rest (on_data t at r).0

abbrev pub last_time : ℕ → List (Chars × ℕ) → ℕ
last_time now [] = now
last_time now ((t, at) ∷ rest) = last_time at rest

-- The clock does not go back.
abbrev pub InOrder : ℕ → List (Chars × ℕ) → Type 0
InOrder now [] = Unit
InOrder now ((t, at) ∷ rest) = (now ≤ at) × InOrder at rest

is_expired-prints :
    (later at last : ℕ) (ps : List (Chars × ℕ)) (r : Runtime)
    → r.subscribers ≡ []
    → r.detached_at ≡ some at
    → max at r.last_activity_at ≡ last
    → InOrder last ps
    → is_expired later (print_all ps r) ≡ leb (last_time last ps + r.detached_ttl_ms) later
unfolding on_data is_expired
is_expired-prints later at last [] r s d e o = ground arith
is_expired-prints later at last ((t, now) ∷ ps) r s d e o =
    is_expired-prints later at now ps (on_data t now r).0 s d (omega arith) o.1

-- From the moment the last subscriber leaves, and whatever the shell still prints, the pane may be
-- ended exactly when its time to live has passed since that moment and since the last output.
pub is_expired-detached :
    (later s now : ℕ) (ps : List (Chars × ℕ)) (r : Runtime)
    → remove_member s r.subscribers ≡ []
    → r.last_activity_at ≤ now
    → InOrder now ps
    → is_expired later (print_all ps (unsubscribe s now r))
      ≡ leb (last_time now ps + r.detached_ttl_ms) later
unfolding unsubscribe
is_expired-detached later s now ps r gone a o =
    is_expired-prints later now now ps (unsubscribe s now r) gone (ground arith) (omega arith) o
