-- ===== src/Panes/Runtime/Exits.antt =====
-- A pane's end reaches each of its subscribers once, and nothing reaches them afterwards.
use tmux_web_panel.Base.{
  inr, ℕ, ◌+◌, ◌≤◌, ◌≡◌, refl, Bool, true, false, none, some, List, [], ◌∷◌, ◌++◌, Text, nat_eq,
  if◌then◌else◌, arith, count_if, text, or_else,
}
use tmux_web_panel.Panes.Runtime.{
  Runtime, ExitInfo, Effect, kills, reports_exit, init, start, tell_all, broadcast_exit, on_data,
  on_exit, subscribe, unsubscribe, write, valid_dimension, apply_size, resize_to, resize,
  note_focus, destroy, kill_timer_fires, no_exit_info, hup, default_signal,
}
use tmux_web_panel.Panes.Runtime.Events.{
  Event, starts, outputs, ends, subscribes, unsubscribes, types, resizes_to, focuses, destroys,
  escalates, step, run, is_exit_of, reaches, times, count_if-append, Inv, count-tell_all,
  count-fanout, step-Inv,
}

-- How many ends a subscriber may still be told of.
abbrev left : Runtime → ℕ
left r = if r.exit_notified then 0 else 1

count-told :
    (s : ℕ) (info : ExitInfo) (reason : Text) (ss : List ℕ) (more : List Effect)
    → count_if (is_exit_of s) more ≡ 0
    → count_if (is_exit_of s) (tell_all info reason ss ++ more) ≡ times s ss
count-told s info reason ss more h = omega (
  arith,
  count_if-append (is_exit_of s) (tell_all info reason ss) more,
  count-tell_all s info reason ss,
)

step-exits :
    (s : ℕ) (e : Event) (r : Runtime)
    → Inv r
    → count_if (is_exit_of s) (step e r).1 + left (step e r).0 ≤ left r
unfolding step start on_data on_exit broadcast_exit subscribe unsubscribe write resize
    valid_dimension resize_to apply_size note_focus destroy kill_timer_fires
step-exits s starts r v = ground arith
step-exits s (outputs t now) r v = ground (arith, count-fanout s t r.subscribers)
step-exits s (ends info) r v = ground (
  arith,
  v.distinct s,
  count-told s info (text "remote_shell_exit") r.subscribers (reports_exit ∷ []),
)
step-exits s (subscribes x now) r v = ground arith
step-exits s (unsubscribes x now) r v = ground arith
step-exits s (types t now) r v = ground arith
step-exits s (resizes_to works cols rows epoch x) r v = ground arith
step-exits s (focuses x none) r v = ground arith
step-exits s (focuses x (some epoch)) r v = ground arith
step-exits s (destroys hup_works reason) r v =
    let info = or_else r.exit_info no_exit_info in
    ground (
      arith,
      v.distinct s,
      count-tell_all s info reason r.subscribers,
      count-told s info reason r.subscribers (kills hup ∷ []),
      count-told s info reason r.subscribers (kills hup ∷ kills default_signal ∷ []),
    )
step-exits s escalates r v = ground arith

run-exits :
    (s : ℕ) (es : List Event) (r : Runtime) → Inv r → count_if (is_exit_of s) (run es r).1 ≤ left r
unfolding run
run-exits s [] r v = omega arith
run-exits s (e ∷ es) r v = omega (
  arith,
  count_if-append (is_exit_of s) (step e r).1 (run es (step e r).0).1,
  step-exits s e r v,
  run-exits s es (step e r).0 (step-Inv e r v),
)

init-Inv : (cols rows bytes ttl now : ℕ) → Inv (init cols rows bytes ttl now)
unfolding init
init-Inv cols rows bytes ttl now = record {
  over = refl;
  released = inr refl;
  distinct = λ s. omega arith;
}

-- Over the whole life of a pane, whatever happens to it in whatever order, no subscriber is told of
-- its end more than once.
pub run-exits_once :
    (cols rows bytes ttl now s : ℕ) (es : List Event)
    → count_if (is_exit_of s) (run es (init cols rows bytes ttl now)).1 ≤ 1
unfolding init
run-exits_once cols rows bytes ttl now s es =
    run-exits s es (init cols rows bytes ttl now) (init-Inv cols rows bytes ttl now)

-- When the shell ends, every member of the subscriber set is told at once, and the set is released,
-- unless the end was announced before.
pub on_exit_tells_all :
    (s : ℕ) (info : ExitInfo) (r : Runtime)
    → r.exit_notified ≡ false
    → (count_if (is_exit_of s) (on_exit info r).1 ≡ times s r.subscribers)
      × ((on_exit info r).0.subscribers ≡ [])
unfolding on_exit broadcast_exit
on_exit_tells_all s info r h =
    ground (arith, count-told s info (text "remote_shell_exit") r.subscribers (reports_exit ∷ []))

-- The same when the panel closes the pane, also when its shell has not gone yet.
pub destroy_tells_all :
    (s : ℕ) (hup_works : Bool) (reason : Text) (r : Runtime)
    → r.exit_notified ≡ false
    → (count_if (is_exit_of s) (destroy hup_works reason r).1 ≡ times s r.subscribers)
      × ((destroy hup_works reason r).0.subscribers ≡ [])
unfolding destroy broadcast_exit
destroy_tells_all s hup_works reason r h =
    let info = or_else r.exit_info no_exit_info in
    ground (
      arith,
      count-tell_all s info reason r.subscribers,
      count-told s info reason r.subscribers (kills hup ∷ []),
      count-told s info reason r.subscribers (kills hup ∷ kills default_signal ∷ []),
    )

step_silent :
    (s : ℕ) (e : Event) (r : Runtime)
    → Inv r
    → r.exit_notified ≡ true
    → (count_if (reaches s) (step e r).1 ≡ 0) × ((step e r).0.exit_notified ≡ true)
unfolding step start on_data on_exit broadcast_exit subscribe unsubscribe write resize
    valid_dimension resize_to apply_size note_focus destroy kill_timer_fires
step_silent s (focuses x none) r v h = ground arith
step_silent s (focuses x (some epoch)) r v h = ground arith
step_silent s (outputs t now) r v h = ground (arith, v.released)
step_silent s e r v h = ground (arith, v.over)

-- Once its end has been announced nothing of a pane reaches anybody, neither output nor another
-- end, whatever happens to it.
pub run_silent :
    (s : ℕ) (es : List Event) (r : Runtime)
    → Inv r
    → r.exit_notified ≡ true
    → count_if (reaches s) (run es r).1 ≡ 0
unfolding run
run_silent s [] r v h = refl
run_silent s (e ∷ es) r v h = omega (
  arith,
  count_if-append (reaches s) (step e r).1 (run es (step e r).0).1,
  (step_silent s e r v h).0,
  run_silent s es (step e r).0 (step-Inv e r v) (step_silent s e r v h).1,
)
