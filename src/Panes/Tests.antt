-- ===== src/Panes/Tests.antt =====
-- Runs of lib/hub/basic/pane-runtime.js on concrete inputs.
use tmux_web_panel.Base.{
  ◌≤◌, ◌≡◌, refl, arith, true, none, some, [], ◌∷◌, ◌++◌, text, count_if, inr,
}
use tmux_web_panel.Panes.Utf8.{
  Chars, utf8_tail, encode, replaced, encode_char, decode, decode_from, advance, skip_continuation,
  is_continuation,
}
use tmux_web_panel.Panes.Utf8.Tail.{IsTail, utf8_tail-IsTail}
use tmux_web_panel.Panes.Ring.{Ring, empty, read, join}
use tmux_web_panel.Panes.Ring.Bounds.{
  IsRing, IsSuffix, push_all, push_all-IsRing, read-push_all-IsSuffix,
}
use tmux_web_panel.Panes.Runtime.{Runtime, ExitInfo, init}
use tmux_web_panel.Panes.Runtime.Events.{
  outputs, ends, subscribes, destroys, escalates, run, is_exit_of, reaches, Inv,
}
use tmux_web_panel.Panes.Runtime.Exits.{run-exits_once, run_silent}

-- `aé😀`, and a text with a lone surrogate.
abbrev sample : Chars
sample = 97 ∷ 233 ∷ 0x1f600 ∷ []

abbrev broken : Chars
broken = 97 ∷ 0xd800 ∷ 98 ∷ []

lone_surrogate : utf8_tail broken 4 ≡ 0xfffd ∷ 98 ∷ []
unfolding utf8_tail encode replaced encode_char decode decode_from advance skip_continuation
    is_continuation
lone_surrogate = refl

utf8_tail-IsTail_example : IsTail broken 4 (utf8_tail broken 4)
utf8_tail-IsTail_example = utf8_tail-IsTail broken 4 (omega arith, (omega arith, (omega arith, tt)))

push_all-IsRing_example : IsRing (push_all (sample ∷ sample ∷ text "shell" ∷ []) (empty 10))
push_all-IsRing_example = push_all-IsRing (sample ∷ sample ∷ text "shell" ∷ []) 10 (ground arith)

read-push_all-IsSuffix_example :
    IsSuffix
      (read (push_all (sample ∷ text "shell" ∷ []) (empty 10)))
      (read (empty 10) ++ join (sample ∷ text "shell" ∷ []))
read-push_all-IsSuffix_example =
    read-push_all-IsSuffix (sample ∷ text "shell" ∷ []) (empty 10) (ground arith)

abbrev small : Ring
small = record { max_bytes = 10; chunks = text "ab" ∷ []; bytes = 2 }

abbrev pane : Runtime
pane = init 80 24 1024 60000 0

-- Two subscribers watch it, and its shell runs.
abbrev watched : Runtime
watched = record pane { subscribers = 1 ∷ 2 ∷ []; has_pty = true; detached_at = none }

abbrev gone : ExitInfo
gone = record { code = some 0; signal = none }

run-exits_once_example :
    count_if
      (is_exit_of 1)
      (run (subscribes 1 5 ∷ destroys true (text "closed") ∷ ends gone ∷ escalates ∷ []) pane).1
    ≤ 1
run-exits_once_example =
    run-exits_once 80 24 1024 60000 0 1
      (subscribes 1 5 ∷ destroys true (text "closed") ∷ ends gone ∷ escalates ∷ [])

abbrev ended : Runtime
ended = record pane { exited = true; exit_info = some gone; exit_notified = true }

ended-Inv : Inv ended
unfolding init
ended-Inv = record { over = refl; released = inr refl; distinct = λ s. omega arith }

run_silent_example :
    count_if (reaches 1) (run (outputs sample 9 ∷ subscribes 1 10 ∷ destroys true [] ∷ []) ended).1
    ≡ 0
unfolding init
run_silent_example =
    run_silent 1 (outputs sample 9 ∷ subscribes 1 10 ∷ destroys true [] ∷ []) ended ended-Inv refl

abbrev alone : Runtime
alone = record pane {
  subscribers = 1 ∷ [];
  has_pty = true;
  detached_at = none;
  last_activity_at = 50;
}
