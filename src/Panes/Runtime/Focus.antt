-- ===== src/Panes/Runtime/Focus.antt =====
-- Whose window size a pane takes.
use tmux_web_panel.Base.{
  ℕ, ◌≤◌, ◌≡◌, Bool, true, false, Option, none, some, [], nat_eq, arith, ◌≢◌, ◌<◌,
}
use tmux_web_panel.Base.Int.{ℤ, pos}
use tmux_web_panel.Panes.Runtime.{
  Runtime, valid_dimension, apply_size, resize_to, resize, note_focus, unsubscribe, max_dimension,
}

-- While a subscriber holds the focus, another one's resize that claims none is refused: it changes
-- nothing and does nothing.
pub resize-focused :
    (works : Bool) (cols rows : Option ℤ) (s x : ℕ) (epoch : Option ℤ) (r : Runtime)
    → (note_focus s epoch r).1 ≡ true
    → x ≢ s
    → resize works cols rows none (some x) (note_focus s epoch r).0
      ≡ ((note_focus s epoch r).0, [], false)
unfolding note_focus resize resize_to valid_dimension
resize-focused works cols rows s x none r f h = ground arith
resize-focused works cols rows s x (some e) r f h = ground arith

-- The focus goes with its holder: once that subscriber has left, a resize of any other with a size
-- that a terminal can have is applied.
pub resize-unsubscribed :
    (cols rows s x now : ℕ) (epoch : Option ℤ) (r : Runtime)
    → (note_focus s epoch r).1 ≡ true
    → 0 < cols
    → cols ≤ max_dimension
    → 0 < rows
    → rows ≤ max_dimension
    → let r' = unsubscribe s now (note_focus s epoch r).0 in
      let (after, effects, done) =
        resize true (some (pos cols)) (some (pos rows)) none (some x) r' in
      (done ≡ true) × (after.cols ≡ cols) × (after.rows ≡ rows)
unfolding note_focus resize resize_to valid_dimension apply_size unsubscribe
resize-unsubscribed cols rows s x now none r f a b c d = ground arith
resize-unsubscribed cols rows s x now (some e) r f a b c d = ground arith
