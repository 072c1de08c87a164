-- ===== src/Metrics/Tests.antt =====
-- Runs of lib/metrics/service.js.
use tmux_web_panel.Base.{ℕ, ◌≡◌, List, [], ◌∷◌, some, none, true, false}
use tmux_web_panel.Metrics.{last_of}
use tmux_web_panel.Metrics.Latest.{
  Event, asks, comes, run, init, goods, final, last_points, run-last_points,
}

abbrev polled : List (Event ℕ)
polled =
    asks false 10
    ∷ comes 12 (some 41)
    ∷ asks false 50
    ∷ asks true 60
    ∷ comes 61 none
    ∷ asks false 6000
    ∷ comes 6001 (some 43)
    ∷ []

run-last_points_example :
    (run polled (init, [])).0.history ≡ last_points (goods (run polled (init, [])).1)
    × last_of (run polled (init, [])).0.cache ≡ final (goods (run polled (init, [])).1)
run-last_points_example = run-last_points polled
